-- ===== src/Prelude/Lists.antt =====
-- Lists measured and indexed by native numbers, under the library's names, and Boolean searches.
use Prim.Native.Nat.{ℕ, zero, suc, ◌+◌}
use mathlib.Core.Path.{◌≡◌, refl, sym, subst}
use mathlib.Core.Logic.{◌⊎◌, inl, inr}
use mathlib.Core.Bool.{Bool, true, false, ◌&&◌, ◌||◌}
use mathlib.Core.List.{List, [], ◌∷◌, ◌++◌, Memᴰ}
use mathlib.Core.Option.{Option, none, some}
use native.Mathlib.Omega.{arith}
use accesscore.Prelude.Tests.{Bool-cases, if◌then◌else◌}

module _ {ℓ} {A : Type ℓ} where
  abbrev pub length : List A → ℕ
  length [] = 0
  length (x ∷ xs) = suc (length xs)

  abbrev pub take : ℕ → List A → List A
  take zero xs = []
  take (suc n) [] = []
  take (suc n) (x ∷ xs) = x ∷ take n xs

  abbrev pub drop : ℕ → List A → List A
  drop zero xs = xs
  drop (suc n) [] = []
  drop (suc n) (x ∷ xs) = drop n xs

  -- `every` and `some` of an array.
  abbrev pub all : (A → Bool) → List A → Bool
  all p [] = true
  all p (x ∷ xs) = p x && all p xs

  abbrev pub any : (A → Bool) → List A → Bool
  any p [] = false
  any p (x ∷ xs) = p x || any p xs

  -- `find` of an array.
  abbrev pub find : (A → Bool) → List A → Option A
  find p [] = none
  find p (x ∷ xs) = if p x then some x else find p xs

  -- `filter` of an array, with a Boolean test.
  abbrev pub select : (A → Bool) → List A → List A
  select p [] = []
  select p (x ∷ xs) = if p x then x ∷ select p xs else select p xs

  pub length-append : (xs ys : List A) → length (xs ++ ys) ≡ length xs + length ys
  length-append [] ys = omega arith
  length-append (x ∷ xs) ys = omega (arith, length-append xs ys)

-- Quantifiers that compute, so that the tactics read and build them.
module _ {ℓ} {A : Type ℓ} where
  abbrev pub All {κ} : (A → Type κ) → List A → Type κ
  All P [] = Unit
  All P (x ∷ xs) = P x × All P xs

  abbrev pub Any : (A → Type 0) → List A → Type 0
  Any P [] = ⊥
  Any P (x ∷ xs) = P x ⊎ Any P xs

  pub All-append {κ} : (P : A → Type κ) (xs ys : List A) → All P xs → All P ys → All P (xs ++ ys)
  All-append P [] ys hx hy = hy
  All-append P (x ∷ xs) ys (p, hx) hy = (p, All-append P xs ys hx hy)

  pub All-mono {κ μ} :
      (P : A → Type κ) (Q : A → Type μ) (xs : List A) → ((x : A) → P x → Q x) → All P xs → All Q xs
  All-mono P Q [] f h = tt
  All-mono P Q (x ∷ xs) f (p, h) = (f x p, All-mono P Q xs f h)

  pub All-mem {κ} : (P : A → Type κ) {x : A} {xs : List A} → All P xs → Memᴰ x xs → P x
  All-mem P h (Memᴰ.head e) = subst P (sym e) h.0
  All-mem P h (Memᴰ.tail m) = All-mem P h.1 m

  pub Any-mem : (P : A → Type 0) {x : A} {xs : List A} → P x → Memᴰ x xs → Any P xs
  Any-mem P p (Memᴰ.head e) = inl (subst P e p)
  Any-mem P p (Memᴰ.tail m) = inr (Any-mem P p m)

  pub mem-Any : (P : A → Type 0) (xs : List A) → Any P xs → (x : A) × Memᴰ x xs × P x
  mem-Any P [] h = elim h [ ]
  mem-Any P (x ∷ xs) (inl p) = (x, Memᴰ.head refl, p)
  mem-Any P (x ∷ xs) (inr h) = let (y, m, p) = mem-Any P xs h in (y, Memᴰ.tail m, p)

  pub any-Any : (p : A → Bool) (xs : List A) → (any p xs ≡ true) → Any (λ x. p x ≡ true) xs
  any-Any p [] h = cc
  any-Any p (x ∷ xs) h = elim (Bool-cases (p x)) [
    | inl e ↦ inl e
    | inr e ↦ inr (any-Any p xs (rw e at h))
  ]

  pub Any-any : (p : A → Bool) (xs : List A) → Any (λ x. p x ≡ true) xs → any p xs ≡ true
  Any-any p [] h = elim h [ ]
  Any-any p (x ∷ xs) (inl e) = rw e refl
  Any-any p (x ∷ xs) (inr k) = ground (arith, Any-any p xs k)

-- Membership in what `select` keeps.
module _ {ℓ} {A : Type ℓ} (p : A → Bool) where
  pub mem-select : (x : A) (xs : List A) → Memᴰ x (select p xs) → Memᴰ x xs × (p x ≡ true)
  mem-select x [] m = elim m [ ]
  mem-select x (y ∷ ys) m = elim (Bool-cases (p y)) [
    | inl chosen ↦ kept chosen (mem-select x ys) (rw chosen at m)
    | inr out ↦ let (there, h) = mem-select x ys (rw out at m) in (Memᴰ.tail there, h)
  ]
    where
      kept :
          p y ≡ true
          → (Memᴰ x (select p ys) → Memᴰ x ys × (p x ≡ true))
          → Memᴰ x (y ∷ select p ys)
          → Memᴰ x (y ∷ ys) × (p x ≡ true)
      kept chosen rest (Memᴰ.head e) = (Memᴰ.head e, subst (λ z. p z ≡ true) (sym e) chosen)
      kept chosen rest (Memᴰ.tail n) = let (there, h) = rest n in (Memᴰ.tail there, h)

  pub select-mem : (x : A) (xs : List A) → Memᴰ x xs → p x ≡ true → Memᴰ x (select p xs)
  select-mem x [] m h = elim m [ ]
  select-mem x (y ∷ ys) (Memᴰ.head e) h =
      let chosen : p y ≡ true = subst (λ z. p z ≡ true) e h in rw chosen (Memᴰ.head e)
  select-mem x (y ∷ ys) (Memᴰ.tail m) h = elim (Bool-cases (p y)) [
    | inl chosen ↦ rw chosen (Memᴰ.tail (select-mem x ys m h))
    | inr out ↦ rw out (select-mem x ys m h)
  ]
