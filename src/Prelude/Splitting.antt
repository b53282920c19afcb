-- ===== src/Prelude/Splitting.antt =====
-- Texts cut at a code unit: `indexOf`, `slice` and `split` against concatenation.
use Prim.Native.Nat.{ℕ, suc, ◌+◌}
use mathlib.Core.Path.{◌≡◌, refl, ap, ◌∙◌}
use mathlib.Core.Logic.{◌≢◌, inl, inr}
use mathlib.Core.Bool.{false}
use mathlib.Core.List.{List, [], ◌∷◌, ◌++◌}
use mathlib.Core.Option.{none, some}
use native.Mathlib.Omega.{arith}
use native.Mathlib.Numerals.{add-one}
use accesscore.Prelude.Tests.{eqb, Bool-cases, Option-cases}
use accesscore.Prelude.Lists.{All, length, take, drop}
use accesscore.Prelude.Texts.{Text, index_of, includes, split, grow}

-- The code unit stands nowhere in the text.
abbrev pub Free : ℕ → Text → Type 0
Free c s = All (λ x. x ≢ c) s

pub index_of-append : (c : ℕ) (s t : Text) → Free c s → index_of c (s ++ c ∷ t) ≡ some (length s)
unfolding index_of
index_of-append c [] t h = ground arith
index_of-append c (x ∷ s) t (p, h) = ground (arith, index_of-append c s t h)

pub index_of-Free : (c : ℕ) (s : Text) → Free c s → index_of c s ≡ none
unfolding index_of
index_of-Free c [] h = refl
index_of-Free c (x ∷ s) (p, h) = ground (arith, index_of-Free c s h)

pub Free-of_includes : (c : ℕ) (s : Text) → includes c s ≡ false → Free c s
unfolding includes
Free-of_includes c [] h = tt
Free-of_includes c (x ∷ s) h = (λ e. ground arith, Free-of_includes c s (ground arith))

pub includes-Free : (c : ℕ) (s : Text) → Free c s → includes c s ≡ false
unfolding includes
includes-Free c [] h = refl
includes-Free c (x ∷ s) (p, h) = ground (arith, includes-Free c s h)

module _ (c : ℕ) where
  pub take-append : (s t : Text) → take (length s) (s ++ t) ≡ s
  take-append [] t = refl
  take-append (x ∷ s) t = ap (λ r. x ∷ r) (take-append s t)

  drop-suc-append : (s t : Text) → drop (suc (length s)) (s ++ c ∷ t) ≡ t
  drop-suc-append [] t = refl
  drop-suc-append (x ∷ s) t = drop-suc-append s t

  pub drop-append : (s t : Text) → drop (length s + 1) (s ++ c ∷ t) ≡ t
  drop-append s t = rw add-one (drop-suc-append s t)

  -- What `indexOf` finds cuts the text in two.
  cut_suc : (v : Text) (n : ℕ) → index_of c v ≡ some n → take n v ++ c ∷ drop (suc n) v ≡ v
  unfolding index_of
  cut_suc [] n e = cc
  cut_suc (x ∷ v) n e = elim (Bool-cases (eqb x c)) [
    | inl hit ↦ ground arith
    | inr miss ↦ elim (Option-cases (index_of c v)) [
      | inl gone ↦ ground arith
      | inr (m, found) ↦
          let same : n ≡ suc m = ground arith in rw same (ap (λ r. x ∷ r) (cut_suc v m found))
    ]
  ]

  pub cut : (v : Text) (n : ℕ) → index_of c v ≡ some n → take n v ++ c ∷ drop (n + 1) v ≡ v
  cut v n e = rw add-one (cut_suc v n e)

  -- A cut at the first occurrence is unique.
  pub cut_unique :
      (s s' t t' : Text) → Free c s → Free c s' → s ++ c ∷ t ≡ s' ++ c ∷ t' → (s ≡ s') × (t ≡ t')
  cut_unique [] [] t t' h h' e = ground arith
  cut_unique [] (y ∷ s') t t' h (p, h') e = ground arith
  cut_unique (x ∷ s) [] t t' (p, h) h' e = ground arith
  cut_unique (x ∷ s) (y ∷ s') t t' (p, h) (p', h') e =
      let (same, rest) = cut_unique s s' t t' h h' (ground arith) in (ground arith, rest)

  pub split-Free : (s : Text) → Free c s → split c s ≡ s ∷ []
  unfolding split grow
  split-Free [] h = refl
  split-Free (x ∷ s) (p, h) = ground (arith, split-Free s h)

  pub split-append : (s t : Text) → Free c s → split c (s ++ c ∷ t) ≡ s ∷ split c t
  unfolding split grow
  split-append [] t h = ground arith
  split-append (x ∷ s) t (p, h) = ground (arith, split-append s t h)

  abbrev pub join : List Text → Text
  join [] = []
  join (p ∷ []) = p
  join (p ∷ q ∷ r) = p ++ c ∷ join (q ∷ r)

  join-grow : (x : ℕ) (parts : List Text) → join (grow x parts) ≡ x ∷ join parts
  unfolding grow
  join-grow x [] = refl
  join-grow x (p ∷ []) = refl
  join-grow x (p ∷ q ∷ r) = refl

  join-nil : (parts : List Text) → parts ≢ [] → join ([] ∷ parts) ≡ c ∷ join parts
  join-nil [] h = absurd (h refl)
  join-nil (p ∷ parts) h = refl

  grow-ne-nil : (x : ℕ) (parts : List Text) → grow x parts ≢ []
  unfolding grow
  grow-ne-nil x [] = cc
  grow-ne-nil x (p ∷ parts) = cc

  split-ne-nil : (v : Text) → split c v ≢ []
  unfolding split
  split-ne-nil [] = cc
  split-ne-nil (x ∷ v) = ground (arith, grow-ne-nil x (split c v))

  -- What `split` cuts, joined again, is the text.
  pub join-split : (v : Text) → join (split c v) ≡ v
  unfolding split
  join-split [] = refl
  join-split (x ∷ v) = elim (Bool-cases (eqb x c)) [
    | inl hit ↦
        let same : x ≡ c = ground arith in
        rw hit (join-nil (split c v) (split-ne-nil v) ∙ (rw (join-split v, same) refl))
    | inr miss ↦ rw miss (join-grow x (split c v) ∙ ap (λ r. x ∷ r) (join-split v))
  ]
