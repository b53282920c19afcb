-- ===== src/Pdp.antt =====
-- The decision point (apps/api/src/authz/application/pdp-service.ts: `prepare`, `evaluateWithin`,
-- `simulate`). What the transaction reads is an argument: the revision, the snapshot that
-- `loadClosure` gathers, the policies of the target and the time.
pub mod Permits
pub mod Simulation
pub mod Service
pub mod Batch
pub mod Keyed
pub mod Cached
mod Tests
use accesscore.Prelude.{
  ℕ, Bool, true, false, not, ◌&&◌, ◌||◌, List, [], ◌∷◌, Option, none, some, if◌then◌else◌, select,
  Text, text, ◌==◌,
}
use accesscore.Refs.{OrgId, Revision, is_at_least, EntityRef, Action}
use accesscore.Decisions.{
  Effect, permit, deny, no_org_context, consistency_unavailable, Decision, plain, denied,
  AuthorizationQuery,
}
use accesscore.Addresses.{Host}
use accesscore.Verdicts.{EvaluationContext}
use accesscore.Policies.{Policy, decide, BoundaryTarget, unbounded, apply_bounds}
use accesscore.Evaluate.{EvaluationSnapshot, evaluate}

pub record Principal : Type 0 where
  pub subject_of : EntityRef
  pub org_id : Option OrgId
  pub assurance_level : ℕ
  pub authenticated_at : Option ℕ

-- The revision of a decoded token.
pub data Consistency : Type 0 where
  full : Consistency
  at_least : Revision → Consistency

pub record Request : Type 0 where
  pub principal : Principal
  pub action : Action
  pub resource : EntityRef
  pub ip : Text
  pub consistency : Consistency

pub record Reads : Type 0 where
  pub revision_used : Revision
  pub snapshot : EvaluationSnapshot
  pub applicable : List Policy
  pub now : ℕ

pub record Ready : Type 0 where
  pub rebac : Decision
  pub applicable : List Policy
  pub policy_context : EvaluationContext
  pub target : BoundaryTarget
  pub subject_of : EntityRef

pub data Prepared : Type 0 where
  refused : Decision → Revision → Prepared
  ready : Ready → Prepared

pub record EvaluationResult : Type 0 where
  pub decision : Decision
  pub revision_used : Revision
  pub cacheable : Bool

abbrev pub is_behind : Consistency → Revision → Bool
is_behind full used = false
is_behind (at_least required) used = not (is_at_least used required)

abbrev pub query_of : Request → OrgId → AuthorizationQuery
query_of request org_id = record {
  org_id = org_id;
  subject_of = request.principal.subject_of;
  action = request.action;
  resource = request.resource;
}

abbrev pub ready_with : Request → Reads → Option Decision → Option Prepared
ready_with request reads none = none
ready_with request reads (some rebac) = some (
    ready (record {
      rebac = rebac;
      applicable = reads.applicable;
      policy_context = record {
        aal = request.principal.assurance_level;
        auth_time = request.principal.authenticated_at;
        ip = request.ip;
        now = reads.now;
      };
      target = record { resource_type = request.resource.type; action = request.action.verb };
      subject_of = request.principal.subject_of;
    }))

-- `none` is fuel run out.
unfoldable pub prepare : ℕ → Request → Reads → Option Prepared
prepare fuel request reads = elim request.principal.org_id [
  | none ↦ some (
      refused
        (denied
          (plain no_org_context (text "The principal is not scoped to an organization.") ∷ []))
        (record { value = 0 }))
  | some org_id ↦
      if is_behind request.consistency reads.revision_used
      then some (
          refused
            (denied (
              plain consistency_unavailable
                (text "The store has not caught up to the requested consistency token.")
              ∷ []))
            reads.revision_used)
      else ready_with request reads (evaluate fuel (query_of request org_id) reads.snapshot)
]

-- `applyBounds(decide(…))` over a list of policies.
unfoldable pub resolve : Host → Ready → List Policy → Decision
resolve host r policies =
    apply_bounds (decide host r.policy_context r.rebac policies) r.target r.subject_of unbounded

abbrev is_empty_list : List Policy → Bool
is_empty_list [] = true
is_empty_list (_ ∷ _) = false

abbrev pub result_of : Host → Reads → Option Prepared → Option EvaluationResult
result_of host reads none = none
result_of host reads (some (refused decision revision)) =
    some (record { decision = decision; revision_used = revision; cacheable = false })
result_of host reads (some (ready r)) = some (record {
  decision = resolve host r r.applicable;
  revision_used = reads.revision_used;
  cacheable = is_empty_list r.applicable;
})

unfoldable pub evaluate_within : Host → ℕ → Request → Reads → Option EvaluationResult
evaluate_within host fuel request reads = result_of host reads (prepare fuel request reads)

pub record SimulationResult : Type 0 where
  pub decision : Decision
  pub live : Decision
  pub changed : Bool

abbrev same_effect : Effect → Effect → Bool
same_effect permit permit = true
same_effect deny deny = true
same_effect _ _ = false

abbrev concerns : BoundaryTarget → Policy → Bool
concerns target policy =
    policy.resource_type == target.resource_type
    && (policy.action == target.action || policy.action == b'*' ∷ [])

abbrev overlay_of : Ready → Option (List Policy) → List Policy
overlay_of r none = r.applicable
overlay_of r (some overlay) = select (concerns r.target) overlay

abbrev pub simulated : Host → Option (List Policy) → Option Prepared → Option SimulationResult
simulated host overlay none = none
simulated host overlay (some (refused decision revision)) =
    some (record { decision = decision; live = decision; changed = false })
simulated host overlay (some (ready r)) =
    let live = resolve host r r.applicable in
    let proposed = resolve host r (overlay_of r overlay) in
    some (record {
      decision = proposed;
      live = live;
      changed = not (same_effect proposed.effect live.effect);
    })

unfoldable pub simulate :
    Host → ℕ → Request → Reads → Option (List Policy) → Option SimulationResult
simulate host fuel request reads overlay = simulated host overlay (prepare fuel request reads)
