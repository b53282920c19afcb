-- ===== src/Prelude/Texts.antt =====
-- Texts as sequences of UTF-16 code units, the way the language's strings are indexed.
use Prim.Native.Nat.{ℕ, suc}
use Prim.Native.Char.{code}
use Prim.Native.String.{String}
use mathlib.Core.Path.{◌≡◌, refl, sym}
use mathlib.Core.Logic.{inl, inr, ◌↔◌, ◌≢◌}
use mathlib.Core.Bool.{Bool, true, false, ◌&&◌, ◌||◌}
use mathlib.Core.List.{List, [], ◌∷◌, Memᴰ}
use mathlib.Core.Option
use mathlib.Core.Option.{Option, none, some}
use native.Mathlib.Omega.{arith}
use accesscore.Prelude.Tests.{eqb, if◌then◌else◌, Bool-cases}
use accesscore.Prelude.Lists.{any}

abbrev pub Text : Type 0
Text = List ℕ

-- A literal, kept shut in proofs: `text "grant"` (ASCII only, where code points are code units).
unfoldable pub text : String → Text
text String.[] = []
text (String.◌∷◌ c s) = code c ∷ text s

infix 50 ◌==◌
unfoldable pub ◌==◌ : Text → Text → Bool
[] == [] = true
(x ∷ xs) == (y ∷ ys) = eqb x y && (xs == ys)
_ == _ = false

pub eq_refl : (s : Text) → (s == s) ≡ true
unfolding ◌==◌
eq_refl [] = refl
eq_refl (x ∷ s) = ground (arith, eq_refl s)

eq_sound : (s t : Text) → (s == t) ≡ true → s ≡ t
unfolding ◌==◌
eq_sound [] [] h = refl
eq_sound (x ∷ s) (y ∷ t) h = ground (arith, eq_sound s t)
eq_sound [] (y ∷ t) h = cc
eq_sound (x ∷ s) [] h = cc

pub eq_iff : (s t : Text) → ((s == t) ≡ true) ↔ (s ≡ t)
eq_iff s t = (eq_sound s t, λ e. rw e (eq_refl t))

pub eq_of_true : {s t : Text} → (s == t) ≡ true → s ≡ t
eq_of_true {s} {t} h = eq_sound s t h

pub ne_of_false : {s t : Text} → (s == t) ≡ false → s ≢ t
ne_of_false {s} {t} h e = let k : (s == t) ≡ true = rw e (eq_refl t) in cc

pub eq_comm : (s t : Text) → (s == t) ≡ (t == s)
eq_comm s t = ground (arith, eq_iff s t, eq_iff t s)

-- `indexOf` of one code unit; `none` is −1.
unfoldable pub index_of : ℕ → Text → Option ℕ
index_of c [] = none
index_of c (x ∷ s) = if eqb x c then some 0 else Option.map suc (index_of c s)

-- `includes` of one code unit.
unfoldable pub includes : ℕ → Text → Bool
includes c s = any (λ x. eqb x c) s

-- `split` at one code unit.
unfoldable pub grow : ℕ → List Text → List Text
grow x [] = (x ∷ []) ∷ []
grow x (part ∷ parts) = (x ∷ part) ∷ parts

unfoldable pub split : ℕ → Text → List Text
split c [] = [] ∷ []
split c (x ∷ s) = let rest = split c s in if eqb x c then [] ∷ rest else grow x rest

-- Whether a text is among others: `has` of a `Set<string>`, kept as the list of its elements.
unfoldable pub has : List Text → Text → Bool
has [] k = false
has (x ∷ xs) k = x == k || has xs k

pub has_iff : (xs : List Text) (k : Text) → (has xs k ≡ true) → Memᴰ k xs
unfolding has
has_iff [] k h = cc
has_iff (x ∷ xs) k h = elim (Bool-cases (x == k)) [
  | inl e ↦ Memᴰ.head (sym (eq_of_true e))
  | inr e ↦ Memᴰ.tail (has_iff xs k (rw e at h))
]

pub has_mem : {k : Text} {xs : List Text} → Memᴰ k xs → has xs k ≡ true
unfolding has
has_mem {k} (Memᴰ.head {x} e) = rw (← e, eq_refl k) refl
has_mem {k} (Memᴰ.tail {x} m) = ground (arith, has_mem m)
