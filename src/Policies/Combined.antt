-- ===== src/Policies/Combined.antt =====
-- What policies and bounds make of a relationship decision (policy/decide.ts, policy/boundary.ts).
use accesscore.Prelude.{
  ◌≡◌, refl, ◌≢◌, ◌↔◌, ◌⊎◌, inl, inr, true, false, List, [], ◌∷◌, Option, none, some, arith, find,
  All, Any, eq_iff, Option-cases, Bool-cases,
}
use accesscore.Refs.{EntityRef}
use accesscore.Decisions.{Effect, permit, deny, Decision}
use accesscore.Addresses.{Host}
use accesscore.Verdicts.{Verdict, holds, fails, indeterminate, EvaluationContext, eval_condition}
use accesscore.Policies.{
  Policy, PolicyEffect, permits, forbids, blocks, grants, is_blocking, is_granting, decide,
  BoundaryTarget, Bounds, allows, passes, boundary_for, apply_bounds,
}

Effect-cases : (e : Effect) → (e ≡ permit) ⊎ (e ≡ deny)
Effect-cases permit = inl refl
Effect-cases deny = inr refl

module _ (host : Host) (ctx : EvaluationContext) where
  -- A forbid policy stands in the way unless its condition fails, and a permit policy grants only
  -- where its condition holds.
  abbrev pub StandsAside : Policy → Type 0
  StandsAside policy = policy.effect ≡ forbids → eval_condition host ctx policy.condition ≡ fails

  abbrev pub Grants : Policy → Type 0
  Grants policy = (policy.effect ≡ permits) × (eval_condition host ctx policy.condition ≡ holds)

  blocks-cases : (e : PolicyEffect) (v : Verdict) → (blocks e v ≡ false) ↔ (e ≡ forbids → v ≡ fails)
  blocks-cases permits v = (λ h e. cc, λ h. refl)
  blocks-cases forbids holds = (λ h. cc, λ h. cc (h refl))
  blocks-cases forbids fails = (λ h e. refl, λ h. refl)
  blocks-cases forbids indeterminate = (λ h. cc, λ h. cc (h refl))

  grants-cases :
      (e : PolicyEffect) (v : Verdict) → (grants e v ≡ true) ↔ ((e ≡ permits) × (v ≡ holds))
  grants-cases forbids v = (λ h. cc, λ h. cc h.0)
  grants-cases permits holds = (λ h. (refl, refl), λ h. refl)
  grants-cases permits fails = (λ h. cc, λ h. cc h.1)
  grants-cases permits indeterminate = (λ h. cc, λ h. cc h.1)

  none-All : (ps : List Policy) → (find (is_blocking host ctx) ps ≡ none) ↔ All StandsAside ps
  none-All [] = (λ h. tt, λ h. refl)
  none-All (p ∷ ps) =
      ground (arith, none-All ps, blocks-cases p.effect (eval_condition host ctx p.condition))

  some-Any : (ps : List Policy) → (find (is_granting host ctx) ps ≢ none) ↔ Any Grants ps
  some-Any [] = (λ h. h refl, λ h e. h)
  some-Any (p ∷ ps) =
      ground (arith, some-Any ps, grants-cases p.effect (eval_condition host ctx p.condition))

  -- A decision is a permit exactly when every forbid policy has a condition that fails, and either
  -- the relationships permit or some permit policy has a condition that holds.
  pub decide_iff :
      (rebac : Decision) (policies : List Policy)
      → ((decide host ctx rebac policies).effect ≡ permit)
        ↔ (All StandsAside policies × ((rebac.effect ≡ permit) ⊎ Any Grants policies))
  unfolding decide
  decide_iff rebac policies = ground (
    arith,
    none-All policies,
    some-Any policies,
    Option-cases (find (is_blocking host ctx) policies),
    Option-cases (find (is_granting host ctx) policies),
    Effect-cases rebac.effect,
  )

-- The target is named by an entry, by its action or by the action `*`.
abbrev pub IsCovered : BoundaryTarget → List BoundaryTarget → Type 0
IsCovered target allow =
    Any
      (λ e.
        (e.resource_type ≡ target.resource_type)
        × ((e.action ≡ target.action) ⊎ (e.action ≡ b'*' ∷ [])))
      allow

-- A bound that is there covers the target.
abbrev pub IsWithin : BoundaryTarget → Option (List BoundaryTarget) → Type 0
IsWithin target none = Unit
IsWithin target (some allow) = IsCovered target allow

allows-IsCovered :
    (allow : List BoundaryTarget) (target : BoundaryTarget)
    → (allows allow target ≡ true) ↔ IsCovered target allow
unfolding allows
allows-IsCovered [] target = (λ h. cc, λ h. absurd h)
allows-IsCovered (e ∷ es) target = ground (
  arith,
  allows-IsCovered es target,
  eq_iff e.resource_type target.resource_type,
  eq_iff e.action target.action,
  eq_iff e.action (b'*' ∷ []),
)

passes-IsWithin :
    (target : BoundaryTarget) (bound : Option (List BoundaryTarget))
    → (passes target bound ≡ true) ↔ IsWithin target bound
passes-IsWithin target none = (λ h. tt, λ h. refl)
passes-IsWithin target (some allow) = allows-IsCovered allow target

pub apply_bounds_iff :
    (decision : Decision) (target : BoundaryTarget) (subject : EntityRef) (bounds : Bounds)
    → (((apply_bounds decision target subject bounds).effect ≡ permit) ↔ (
        (decision.effect ≡ permit)
        × IsWithin target bounds.guardrail
        × IsWithin target (boundary_for bounds.boundaries subject)))
      × ((apply_bounds decision target subject bounds).effect ≡ decision.effect
          → apply_bounds decision target subject bounds ≡ decision)
unfolding apply_bounds
apply_bounds_iff decision target subject bounds = (
  ground (
    arith,
    passes-IsWithin target bounds.guardrail,
    passes-IsWithin target (boundary_for bounds.boundaries subject),
    Effect-cases decision.effect,
  ),
  λ h. ground (
    arith,
    h,
    Bool-cases (passes target bounds.guardrail),
    Bool-cases (passes target (boundary_for bounds.boundaries subject)),
    Effect-cases decision.effect,
  ),
)
