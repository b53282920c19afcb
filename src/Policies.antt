-- ===== src/Policies.antt =====
-- Policies over a relationship decision, and the bounds on what may be permitted
-- (apps/api/src/authz/domain/policy: policy.ts, decide.ts, boundary.ts).
pub mod Combined
mod Tests
use accesscore.Prelude.{
  ℕ, Bool, true, false, not, ◌&&◌, ◌||◌, List, [], ◌∷◌, ◌++◌, Option, none, some, if◌then◌else◌,
  any, find, Text, text, ◌==◌,
}
use accesscore.Refs.{OrgId, Revision, EntityRef, ref_equals}
use accesscore.Decisions.{
  Effect, permit, deny, grant_policy, forbid_matched, outside_org_guardrail,
  outside_permission_boundary, Decision, plain, denied, permitted,
}
use accesscore.Addresses.{Host}
use accesscore.Conditions.{Condition}
use accesscore.Verdicts.{Verdict, holds, fails, indeterminate, EvaluationContext, eval_condition}

pub data PolicyEffect : Type 0 where
  permits forbids : PolicyEffect

pub record Policy : Type 0 where
  pub id : Text
  pub org_id : OrgId
  pub effect : PolicyEffect
  pub resource_type : Text
  pub action : Text
  pub condition : Condition
  pub revision : Revision

-- The test of the first loop of `decide`, and that of the second.
abbrev pub blocks : PolicyEffect → Verdict → Bool
blocks permits verdict = false
blocks forbids fails = false
blocks forbids holds = true
blocks forbids indeterminate = true

abbrev pub grants : PolicyEffect → Verdict → Bool
grants forbids verdict = false
grants permits holds = true
grants permits fails = false
grants permits indeterminate = false

module _ (host : Host) (ctx : EvaluationContext) where
  abbrev pub is_blocking : Policy → Bool
  is_blocking policy = blocks policy.effect (eval_condition host ctx policy.condition)

  abbrev pub is_granting : Policy → Bool
  is_granting policy = grants policy.effect (eval_condition host ctx policy.condition)

  unfoldable pub decide : Decision → List Policy → Decision
  decide rebac policies = elim (find is_blocking policies) [
    | some policy ↦ denied (
        plain forbid_matched
          (text "Denied by an explicit forbid policy (" ++ (policy.id ++ text ")."))
        ∷ [])
    | none ↦ elim rebac.effect [
      | permit ↦ rebac
      | deny ↦ elim (find is_granting policies) [
        | some policy ↦
            permitted
              (plain grant_policy (text "Permitted by policy " ++ (policy.id ++ text ".")) ∷ [])
        | none ↦ rebac
      ]
    ]
  ]

-- boundary.ts
pub record BoundaryTarget : Type 0 where
  pub resource_type : Text
  pub action : Text

pub record PermissionBoundary : Type 0 where
  pub subject_of : EntityRef
  pub allow : List BoundaryTarget

-- A guardrail is its list `allow`.
pub record Bounds : Type 0 where
  pub boundaries : List PermissionBoundary
  pub guardrail : Option (List BoundaryTarget)

abbrev pub unbounded : Bounds
unbounded = record { boundaries = []; guardrail = none }

abbrev pub covers : BoundaryTarget → BoundaryTarget → Bool
covers target entry =
    entry.resource_type == target.resource_type
    && (entry.action == target.action || entry.action == b'*' ∷ [])

unfoldable pub allows : List BoundaryTarget → BoundaryTarget → Bool
allows allow target = any (covers target) allow

-- `bound && !allows(bound.allow, target)`, negated: a bound that is missing lets everything pass.
abbrev pub passes : BoundaryTarget → Option (List BoundaryTarget) → Bool
passes target none = true
passes target (some allow) = allows allow target

abbrev allow_of : Option PermissionBoundary → Option (List BoundaryTarget)
allow_of none = none
allow_of (some boundary) = some boundary.allow

-- What the first boundary of the subject allows.
unfoldable pub boundary_for : List PermissionBoundary → EntityRef → Option (List BoundaryTarget)
boundary_for boundaries subject =
    allow_of (find (λ candidate. ref_equals candidate.subject_of subject) boundaries)

unfoldable pub apply_bounds : Decision → BoundaryTarget → EntityRef → Bounds → Decision
apply_bounds decision target subject bounds = elim decision.effect [
  | deny ↦ decision
  | permit ↦
      if not (passes target bounds.guardrail)
      then denied (
          plain outside_org_guardrail
            (text "The permitted access lies outside the organization guardrail.")
          ∷ [])
      else if not (passes target (boundary_for bounds.boundaries subject))
      then denied (
          plain outside_permission_boundary
            (text "The permitted access lies outside the principal permission boundary.")
          ∷ [])
      else decision
]
