-- ===== src/Conditions/Typed.antt =====
-- Typed conditions, and the checks of the leaves that `parseCondition` makes (condition.ts:
-- `checkCmp` and the cases `in` and `ipInCidr`).
use accesscore.Prelude.{
  ℕ, suc, ◌+◌, max, ◌≤◌, ◌≡◌, refl, ◌≢◌, ◌⊎◌, inl, inr, Bool, true, false, not, ◌&&◌, ◌||◌, List,
  [], ◌∷◌, arith, all, All, All-mono, Text,
}
use accesscore.Refs.{Result, ok}
use accesscore.Addresses.{Host, is_valid_cidr}
use accesscore.Conditions.{
  Term, CmpOp, Element, string_element, number_element, Condition, Conditions, and_all, or_any,
  negated, cmp, in_set, ip_in_cidr, no_condition, cons, ConditionError, ValueType, number_type,
  string_type, boolean_type, timestamp_type, term_type, same_type, temporal_pair, comparable,
  bad_timestamp, refuse_when, check_cmp, check_in, check_cidrs, enter, element_type, same_element,
  is_ordered,
}

-- The nodes of a condition.
unfoldable mutual
  pub size : Condition → ℕ
  size (and_all cs) = suc (sizes cs)
  size (or_any cs) = suc (sizes cs)
  size (negated c) = suc (size c)
  size (cmp _ _ _) = 1
  size (in_set _ _) = 1
  size (ip_in_cidr _ _) = 1

  pub sizes : Conditions → ℕ
  sizes no_condition = 0
  sizes (cons c cs) = size c + sizes cs

-- The depth of the deepest node.
unfoldable mutual
  pub height : Condition → ℕ
  height (and_all cs) = heights cs
  height (or_any cs) = heights cs
  height (negated c) = suc (height c)
  height (cmp _ _ _) = 0
  height (in_set _ _) = 0
  height (ip_in_cidr _ _) = 0

  pub heights : Conditions → ℕ
  heights no_condition = 0
  heights (cons c cs) = max (suc (height c)) (heights cs)

abbrev pub IsNonempty : Conditions → Type 0
IsNonempty no_condition = ⊥
IsNonempty (cons _ _) = Unit

-- Comparisons that have an answer: of two numbers or against a timestamp, and of two texts or two
-- Booleans for equality only.
abbrev pub IsComparison : Host → CmpOp → Term → Term → Type 0
IsComparison host op l r =
    (comparable (term_type l) (term_type r) ≡ true)
    × ((is_ordered op ≡ false)
        ⊎ ((term_type l ≡ number_type) × (term_type r ≡ number_type))
        ⊎ (temporal_pair (term_type l) (term_type r) ≡ true))
    × (((term_type l ≡ timestamp_type) ⊎ (term_type r ≡ timestamp_type))
        → (bad_timestamp host l ≡ false) × (bad_timestamp host r ≡ false))

abbrev pub IsMembership : Term → List Element → Type 0
IsMembership needle set =
    (set ≢ []) × All (λ e. comparable (term_type needle) (element_type e) ≡ true) set

abbrev pub IsInBlocks : Term → List Text → Type 0
IsInBlocks ip cidrs =
    (term_type ip ≡ string_type) × (cidrs ≢ []) × All (λ c. is_valid_cidr c ≡ true) cidrs

-- Every leaf is typed and every list of children has an element.
unfoldable mutual
  pub IsTyped : Host → Condition → Type 0
  IsTyped host (and_all cs) = IsNonempty cs × AreTyped host cs
  IsTyped host (or_any cs) = IsNonempty cs × AreTyped host cs
  IsTyped host (negated c) = IsTyped host c
  IsTyped host (cmp op l r) = IsComparison host op l r
  IsTyped host (in_set needle set) = IsMembership needle set
  IsTyped host (ip_in_cidr ip cidrs) = IsInBlocks ip cidrs

  pub AreTyped : Host → Conditions → Type 0
  AreTyped host no_condition = Unit
  AreTyped host (cons c cs) = IsTyped host c × AreTyped host cs

same_type-eq : (a b : ValueType) → same_type a b ≡ true → a ≡ b
same_type-eq number_type number_type h = refl
same_type-eq string_type string_type h = refl
same_type-eq boolean_type boolean_type h = refl
same_type-eq timestamp_type timestamp_type h = refl
same_type-eq number_type string_type h = cc
same_type-eq number_type boolean_type h = cc
same_type-eq number_type timestamp_type h = cc
same_type-eq string_type number_type h = cc
same_type-eq string_type boolean_type h = cc
same_type-eq string_type timestamp_type h = cc
same_type-eq boolean_type number_type h = cc
same_type-eq boolean_type string_type h = cc
same_type-eq boolean_type timestamp_type h = cc
same_type-eq timestamp_type number_type h = cc
same_type-eq timestamp_type string_type h = cc
same_type-eq timestamp_type boolean_type h = cc

refuse_when-ok :
    (b : Bool) (e : ConditionError) (next : Result ℕ ConditionError) (n : ℕ)
    → refuse_when b e next ≡ ok n
    → (b ≡ false) × (next ≡ ok n)
refuse_when-ok true e next n h = cc
refuse_when-ok false e next n h = (refl, h)

pub enter-ok :
    (depth nodes : ℕ) (next : ℕ → Result ℕ ConditionError) (n : ℕ)
    → enter depth nodes next ≡ ok n
    → (depth ≤ 16) × (suc nodes ≤ 64) × (next (suc nodes) ≡ ok n)
enter-ok depth nodes next n h = ground arith

-- The tests of `checkCmp` read as facts about the types.
module _ (a b : ValueType) where
  order_of :
      (o : Bool)
      → (o && not (same_type a number_type && same_type b number_type) && not (temporal_pair a b))
        ≡ false
      → (o ≡ false) ⊎ ((a ≡ number_type) × (b ≡ number_type)) ⊎ (temporal_pair a b ≡ true)
  order_of o h = ground (arith, same_type-eq a number_type, same_type-eq b number_type)

  temporal_of :
      (a ≡ timestamp_type) ⊎ (b ≡ timestamp_type)
      → (same_type a timestamp_type || same_type b timestamp_type) ≡ true
  temporal_of (inl e) = rw e refl
  temporal_of (inr e) = rw e (ground arith)

and-false : (p q : Bool) → p ≡ true → (p && q) ≡ false → q ≡ false
and-false p q h k = ground arith

not-false : (p : Bool) → not p ≡ false → p ≡ true
not-false p h = ground arith

pub check_cmp-ok :
    (host : Host) (op : CmpOp) (l r : Term) (nodes n : ℕ)
    → check_cmp host op l r nodes ≡ ok n
    → (n ≡ nodes) × IsComparison host op l r
unfolding check_cmp
check_cmp-ok host op l r nodes n h =
    let (typed, h₁) = refuse_when-ok _ _ _ n h in
    let (order, h₂) = refuse_when-ok _ _ _ n h₁ in
    let (left, h₃) = refuse_when-ok _ _ _ n h₂ in
    let (right, h₄) = refuse_when-ok _ _ _ n h₃ in
    (
      cc,
      (
        not-false _ typed,
        order_of (term_type l) (term_type r) (is_ordered op) order,
        λ t.
            let temporal = temporal_of (term_type l) (term_type r) t in
            (and-false _ _ temporal left, and-false _ _ temporal right),
      ),
    )

pub all-All :
    {A : Type 0} → (p : A → Bool) (xs : List A) → all p xs ≡ true → All (λ x. p x ≡ true) xs
all-All p [] h = tt
all-All p (x ∷ xs) h = ground (arith, all-All p xs)

same_element-type : (a b : Element) → same_element a b ≡ true → element_type b ≡ element_type a
same_element-type (string_element _) (string_element _) h = refl
same_element-type (string_element _) (number_element _) h = cc
same_element-type (number_element _) (string_element _) h = cc
same_element-type (number_element _) (number_element _) h = refl

pub check_in-ok :
    (needle : Term) (set : List Element) (nodes n : ℕ)
    → check_in needle set nodes ≡ ok n
    → (n ≡ nodes) × IsMembership needle set
unfolding check_in
check_in-ok needle [] nodes n h = cc
check_in-ok needle (e ∷ es) nodes n h =
    let alike : all (same_element e) (e ∷ es) ≡ true = ground arith in
    let typed : comparable (term_type needle) (element_type e) ≡ true = ground arith in
    let each =
      All-mono (λ x. same_element e x ≡ true)
        (λ x. comparable (term_type needle) (element_type x) ≡ true) (e ∷ es)
        (λ x s. rw (same_element-type e x s) typed) (all-All (same_element e) (e ∷ es) alike) in
    (ground arith, ((λ e. cc), each))

pub check_cidrs-ok :
    (ip : Term) (cidrs : List Text) (nodes n : ℕ)
    → check_cidrs ip cidrs nodes ≡ ok n
    → (n ≡ nodes) × IsInBlocks ip cidrs
unfolding check_cidrs
check_cidrs-ok ip [] nodes n h = ground arith
check_cidrs-ok ip (c ∷ cs) nodes n h =
    ground (arith, all-All is_valid_cidr (c ∷ cs), same_type-eq (term_type ip) string_type)
