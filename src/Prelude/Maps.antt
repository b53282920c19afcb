-- ===== src/Prelude/Maps.antt =====
-- A `Map` with string keys: an association list in the order of insertion.
use mathlib.Core.Path.{◌≡◌, refl, sym, subst}
use mathlib.Core.Logic.{inl, inr}
use mathlib.Core.List.{List, [], ◌∷◌}
use mathlib.Core.Option.{Option, none, some}
use native.Mathlib.Omega.{arith}
use accesscore.Prelude.Tests.{if◌then◌else◌, Bool-cases}
use accesscore.Prelude.Lists.{All}
use accesscore.Prelude.Texts.{Text, ◌==◌, eq_iff, eq_refl, eq_of_true}

pub some_inj {ℓ} : {A : Type ℓ} {a b : A} → some a ≡ some b → a ≡ b
some_inj h = cc h

module _ {ℓ} {V : Type ℓ} where
  -- `get`; a missing key is `none`.
  unfoldable pub get : Text → List (Text × V) → Option V
  get k [] = none
  get k ((j, v) ∷ m) = if j == k then some v else get k m

  -- `set`: the value of a key that is there is replaced in place.
  unfoldable pub put : Text → V → List (Text × V) → List (Text × V)
  put k v [] = (k, v) ∷ []
  put k v ((j, w) ∷ m) = if j == k then (j, v) ∷ m else (j, w) ∷ put k v m

  pub get-put :
      (k j : Text) (v : V) (m : List (Text × V))
      → get j (put k v m) ≡ (if k == j then some v else get j m)
  unfolding get put
  get-put k j v [] = refl
  get-put k j v ((i, w) ∷ m) = ground (arith, eq_iff k j, eq_iff i k, eq_iff i j, get-put k j v m)

  pub get-put_self : (k : Text) (v : V) (m : List (Text × V)) → get k (put k v m) ≡ some v
  get-put_self k v m = simp (get-put, eq_refl)

-- What holds of every entry.
module _ {ℓ κ} {V : Type ℓ} (P : Text × V → Type κ) where
  pub get-All : (k : Text) (v : V) (m : List (Text × V)) → All P m → get k m ≡ some v → P (k, v)
  unfolding get
  get-All k v [] h e = absurd (cc e)
  get-All k v ((j, w) ∷ m) (p, h) e = elim (Bool-cases (j == k)) [
    | inl same ↦
        subst (λ u. P (k, u)) (some_inj (rw same at e)) (subst (λ i. P (i, w)) (eq_of_true same) p)
    | inr other ↦ get-All k v m h (rw other at e)
  ]

  pub put-All : (k : Text) (v : V) (m : List (Text × V)) → P (k, v) → All P m → All P (put k v m)
  unfolding put
  put-All k v [] p h = (p, tt)
  put-All k v ((j, w) ∷ m) p (q, h) = elim (Bool-cases (j == k)) [
    | inl same ↦ rw same (subst (λ i. P (i, v)) (sym (eq_of_true same)) p, h)
    | inr other ↦ rw other (q, put-All k v m p h)
  ]
