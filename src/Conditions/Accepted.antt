-- ===== src/Conditions/Accepted.antt =====
-- What `parseCondition` (condition.ts) establishes of a condition that it accepts.
use accesscore.Prelude.{ℕ, suc, ◌+◌, ◌≤◌, ◌≡◌, refl, ◌⊎◌, inl, inr, arith}
use accesscore.Refs.{Result, ok, err}
use accesscore.Addresses.{Host}
use accesscore.Conditions.{
  Condition, Conditions, and_all, or_any, negated, cmp, in_set, ip_in_cidr, no_condition, cons,
  ConditionError, check_cmp, check_in, check_cidrs, ◌then_on◌, walk_condition, walk_some,
  walk_children, parse_condition,
}
use accesscore.Conditions.Typed.{
  size, sizes, height, heights, IsNonempty, IsTyped, AreTyped, check_cmp-ok, check_in-ok,
  check_cidrs-ok, enter-ok,
}

-- A walk that refuses nothing has counted every node, within the bounds, and typed every leaf.
abbrev Passed : Host → Condition → ℕ → ℕ → ℕ → Type 0
Passed host c depth nodes n =
    (n ≡ nodes + size c) × (n ≤ 64) × (depth + height c ≤ 16) × IsTyped host c

abbrev PassedAll : Host → Conditions → ℕ → ℕ → ℕ → Type 0
PassedAll host cs depth nodes n =
    (n ≡ nodes + sizes cs)
    × (nodes ≤ 64 → n ≤ 64)
    × (depth ≤ 16 → depth + heights cs ≤ 16)
    × AreTyped host cs

then_on-ok :
    (m : Result ℕ ConditionError) (f : ℕ → Result ℕ ConditionError) (n : ℕ)
    → (m then_on f) ≡ ok n
    → (k : ℕ) × (m ≡ ok k) × (f k ≡ ok n)
then_on-ok (ok k) f n h = (k, refl, h)
then_on-ok (err e) f n h = cc

mutual
  unfolding walk_condition walk_some walk_children size sizes height heights IsTyped AreTyped

  walk_condition-Passed :
      (host : Host) (c : Condition) (depth nodes n : ℕ)
      → walk_condition host c depth nodes ≡ ok n
      → Passed host c depth nodes n
  walk_condition-Passed host (and_all cs) depth nodes n h =
      let (d, s, k) = enter-ok depth nodes (λ m. walk_some host cs depth m) n h in
      let (full, (counted, small, low, typed)) = walk_some-Passed host cs depth (suc nodes) n k in
      (omega (arith, counted), small s, low d, (full, typed))
  walk_condition-Passed host (or_any cs) depth nodes n h =
      let (d, s, k) = enter-ok depth nodes (λ m. walk_some host cs depth m) n h in
      let (full, (counted, small, low, typed)) = walk_some-Passed host cs depth (suc nodes) n k in
      (omega (arith, counted), small s, low d, (full, typed))
  walk_condition-Passed host (negated c) depth nodes n h =
      let (d, s, k) = enter-ok depth nodes (λ m. walk_condition host c (suc depth) m) n h in
      let (counted, small, low, typed) = walk_condition-Passed host c (suc depth) (suc nodes) n k in
      (omega (arith, counted), small, omega (arith, low), typed)
  walk_condition-Passed host (cmp op l r) depth nodes n h =
      let (d, s, k) = enter-ok depth nodes (λ m. check_cmp host op l r m) n h in
      let (same, typed) = check_cmp-ok host op l r (suc nodes) n k in
      (omega (arith, same), omega (arith, same, s), omega (arith, d), typed)
  walk_condition-Passed host (in_set needle set) depth nodes n h =
      let (d, s, k) = enter-ok depth nodes (λ m. check_in needle set m) n h in
      let (same, typed) = check_in-ok needle set (suc nodes) n k in
      (omega (arith, same), omega (arith, same, s), omega (arith, d), typed)
  walk_condition-Passed host (ip_in_cidr ip cidrs) depth nodes n h =
      let (d, s, k) = enter-ok depth nodes (λ m. check_cidrs ip cidrs m) n h in
      let (same, typed) = check_cidrs-ok ip cidrs (suc nodes) n k in
      (omega (arith, same), omega (arith, same, s), omega (arith, d), typed)

  walk_some-Passed :
      (host : Host) (cs : Conditions) (depth nodes n : ℕ)
      → walk_some host cs depth nodes ≡ ok n
      → IsNonempty cs × PassedAll host cs depth nodes n
  walk_some-Passed host no_condition depth nodes n h = cc
  walk_some-Passed host (cons c cs) depth nodes n h =
      let (k, first, rest) =
        then_on-ok (walk_condition host c (suc depth) nodes) (λ m. walk_children host cs depth m) n
          h in
      let (counted, small, low, typed) = walk_condition-Passed host c (suc depth) nodes k first in
      let (counted', small', low', typed') = walk_children-Passed host cs depth k n rest in
      (
        tt,
        (
          omega (arith, counted, counted'),
          (λ _. small' small),
          (λ d. omega (arith, low, low' d)),
          (typed, typed'),
        ),
      )

  walk_children-Passed :
      (host : Host) (cs : Conditions) (depth nodes n : ℕ)
      → walk_children host cs depth nodes ≡ ok n
      → PassedAll host cs depth nodes n
  walk_children-Passed host no_condition depth nodes n h = ground arith
  walk_children-Passed host (cons c cs) depth nodes n h =
      let (k, first, rest) =
        then_on-ok (walk_condition host c (suc depth) nodes) (λ m. walk_children host cs depth m) n
          h in
      let (counted, small, low, typed) = walk_condition-Passed host c (suc depth) nodes k first in
      let (counted', small', low', typed') = walk_children-Passed host cs depth k n rest in
      (
        omega (arith, counted, counted'),
        (λ _. small' small),
        (λ d. omega (arith, low, low' d)),
        (typed, typed'),
      )

-- Whatever is accepted is returned as it is, has at most 64 nodes, none deeper than 16, and every
-- node is well formed: connectives have children, a comparison is between types that it can
-- compare, a text against a timestamp reads as a timestamp, a set has elements of the needle's
-- type (a text for a timestamp too), and the blocks tested for an address are valid.
pub parse_condition_lem :
    (host : Host) (c c' : Condition)
    → parse_condition host c ≡ ok c'
    → (c' ≡ c) × (size c ≤ 64) × (height c ≤ 16) × IsTyped host c
unfolding parse_condition
parse_condition_lem host c c' h = elim (walk_cases (walk_condition host c 0 0)) [
  | inl (n, walked) ↦
      let (counted, small, low, typed) = walk_condition-Passed host c 0 0 n walked in
      (ground arith, omega (arith, counted, small), omega (arith, low), typed)
  | inr (e, failed) ↦ absurd (ground arith)
]
  where
    walk_cases :
        (m : Result ℕ ConditionError)
        → ((n : ℕ) × (m ≡ ok n)) ⊎ ((e : ConditionError) × (m ≡ err e))
    walk_cases (ok n) = inl (n, refl)
    walk_cases (err e) = inr (e, refl)
