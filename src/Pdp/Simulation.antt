-- ===== src/Pdp/Simulation.antt =====
-- A simulation against the decision that it stands beside (pdp-service.ts: `simulate`).
use accesscore.Prelude.{
  ◌≡◌, refl, subst, ap, ◌∙◌, sym, ◌≢◌, ◌↔◌, inl, inr, ℕ, true, false, not, List, Option, none, some,
  Option-cases, Bool-cases, some_inj, ◌⊎◌, select, [], ◌∷◌, ◌==◌, ◌&&◌, ◌||◌, text,
}
use accesscore.Decisions.{
  Effect, permit, deny, Decision, denied, plain, no_org_context, consistency_unavailable,
}
use accesscore.Evaluate.{evaluate}
use accesscore.Refs.{Revision}
use accesscore.Addresses.{Host}
use accesscore.Policies.{Policy}
use accesscore.Pdp.{
  Request, Reads, Ready, refused, ready_with, is_behind, query_of, EvaluationResult,
  SimulationResult, prepare, resolve, result_of, evaluate_within, same_effect, overlay_of,
  simulated, simulate,
}

same_effect_refl : (a : Effect) → same_effect a a ≡ true
same_effect_refl permit = refl
same_effect_refl deny = refl

same_effect_iff : (a b : Effect) → (not (same_effect a b) ≡ true) ↔ (a ≢ b)
same_effect_iff permit permit = (λ h. cc, λ h. absurd (h refl))
same_effect_iff permit deny = (λ h e. cc, λ h. refl)
same_effect_iff deny permit = (λ h e. cc, λ h. refl)
same_effect_iff deny deny = (λ h. cc, λ h. absurd (h refl))

-- The policies of an overlay that are about the request's target.
abbrev pub about : Request → List Policy → List Policy
about request = select (λ p.
    p.resource_type == request.resource.type
    && (p.action == request.action.verb || p.action == text "*"))

-- The reads of a store in which the overlay's policies are the stored ones.
abbrev pub in_force : Request → Reads → Option (List Policy) → List Policy
in_force request reads none = reads.applicable
in_force request reads (some overlay) = about request overlay

abbrev pub as_if_stored : Request → Reads → Option (List Policy) → Reads
as_if_stored request reads overlay = record reads { applicable = in_force request reads overlay }

-- What a simulation says, beside the decision in force and the one that the overlay would put in
-- force.
abbrev pub Agrees : SimulationResult → EvaluationResult → EvaluationResult → Type 0
Agrees s result proposed =
    (s.live ≡ result.decision)
    × (s.decision ≡ proposed.decision)
    × ((s.changed ≡ true) ↔ (result.decision.effect ≢ proposed.decision.effect))

module _ (host : Host) (request : Request) (reads : Reads) (overlay : Option (List Policy)) where
  abbrev stored : Reads
  stored = as_if_stored request reads overlay

  abbrev kept : (overlay : Option (List Policy)) → Decision → Ready
  kept o rebac = record {
    rebac = rebac;
    applicable = in_force request reads o;
    policy_context = record {
      aal = request.principal.assurance_level;
      auth_time = request.principal.authenticated_at;
      ip = request.ip;
      now = reads.now;
    };
    target = record { resource_type = request.resource.type; action = request.action.verb };
    subject_of = request.principal.subject_of;
  }

  proposed_lem :
      (o : Option (List Policy)) (rebac : Decision)
      → resolve host (kept none rebac) (overlay_of (kept none rebac) o)
        ≡ resolve host (kept o rebac) (kept o rebac).applicable
  unfolding resolve text
  proposed_lem none rebac = refl
  proposed_lem (some ps) rebac = refl

  ready-Agrees :
      (rebac : Decision) (s : SimulationResult) (result proposed : EvaluationResult)
      → simulated host overlay (ready_with request reads (some rebac)) ≡ some s
      → result_of host reads (ready_with request reads (some rebac)) ≡ some result
      → result_of host stored (ready_with request stored (some rebac)) ≡ some proposed
      → Agrees s result proposed
  ready-Agrees rebac s result proposed e h k =
      let now_said = ap (λ r. r.decision) (some_inj h) in
      let then_said = proposed_lem overlay rebac ∙ ap (λ r. r.decision) (some_inj k) in
      subst (λ x. Agrees x result proposed) (some_inj e)
        (now_said, then_said, changed_iff _ _ _ _ now_said then_said)
    where
      changed_iff :
          (live over now later : Decision)
          → live ≡ now
          → over ≡ later
          → (not (same_effect over.effect live.effect) ≡ true) ↔ (now.effect ≢ later.effect)
      changed_iff live over now later p q =
          let (into, back) = same_effect_iff over.effect live.effect in
          (
            λ c d. into c (ap (λ x. x.effect) q ∙ sym d ∙ sym (ap (λ x. x.effect) p)),
            λ c. back (λ d. c (sym (ap (λ x. x.effect) p) ∙ sym d ∙ ap (λ x. x.effect) q)),
          )

  unchanged : (d : Decision) → (false ≡ true) ↔ (d.effect ≢ d.effect)
  unchanged d = ((λ c. cc), λ n. absurd (n refl))

  refused-Agrees :
      (d : Decision) (revision : Revision) (s : SimulationResult)
      (result proposed : EvaluationResult)
      → simulated host overlay (some (refused d revision)) ≡ some s
      → result_of host reads (some (refused d revision)) ≡ some result
      → result_of host stored (some (refused d revision)) ≡ some proposed
      → Agrees s result proposed
  refused-Agrees d revision s result proposed e h k =
      let said : SimulationResult = record { decision = d; live = d; changed = false } in
      let given : EvaluationResult = record {
        decision = d;
        revision_used = revision;
        cacheable = false;
      } in
      subst (λ x. Agrees x result proposed) (some_inj e)
        (subst (λ x. Agrees said x proposed) (some_inj h)
          (subst (λ x. Agrees said given x) (some_inj k) (refl, refl, unchanged d)))

  -- Both preparations refuse alike, or go on with the same relationship decision.
  prepared :
      (fuel : ℕ)
      → ((d : Decision) × (revision : Revision) × (prepare fuel request reads
            ≡ some (refused d revision))
          × (prepare fuel request stored ≡ some (refused d revision)))
        ⊎ ((o : Option Decision) × (prepare fuel request reads ≡ ready_with request reads o)
            × (prepare fuel request stored ≡ ready_with request stored o))
  unfolding prepare
  prepared fuel = elim (Option-cases request.principal.org_id) [
    | inl nobody ↦ inl (
      denied (plain no_org_context (text "The principal is not scoped to an organization.") ∷ []),
      record { value = 0 },
      rw nobody refl,
      rw nobody refl,
    )
    | inr (org, own) ↦ elim (Bool-cases (is_behind request.consistency reads.revision_used)) [
      | inl behind ↦ inl (
        denied (
            plain consistency_unavailable
              (text "The store has not caught up to the requested consistency token.")
            ∷ []),
        reads.revision_used,
        rw own (rw behind refl),
        rw own (rw behind refl),
      )
      | inr current ↦ inr (
        evaluate fuel (query_of request org) reads.snapshot,
        rw own (rw current refl),
        rw own (rw current refl),
      )
    ]
  ]

-- A simulation reports as live what the decision point decides on the same reads, and proposes what
-- it would decide if the overlay's policies for the request's target were the stored ones (without
-- an overlay: the same); and it reports a change exactly when the effects of these two differ.
pub simulate-evaluate_within :
    (host : Host) (fuel : ℕ) (request : Request) (reads : Reads) (overlay : Option (List Policy))
    (s : SimulationResult) (result proposed : EvaluationResult)
    → simulate host fuel request reads overlay ≡ some s
    → evaluate_within host fuel request reads ≡ some result
    → evaluate_within host fuel request (as_if_stored request reads overlay) ≡ some proposed
    → Agrees s result proposed
unfolding simulate evaluate_within
simulate-evaluate_within host fuel request reads overlay s result proposed e h k =
    elim (prepared host request reads overlay fuel) [
      | inl (d, revision, there, other) ↦
          refused-Agrees host request reads overlay d revision s result proposed
            (sym (ap (simulated host overlay) there) ∙ e)
            (sym (ap (result_of host reads) there) ∙ h)
            (sym (ap (result_of host (as_if_stored request reads overlay)) other) ∙ k)
      | inr (none, there, other) ↦
          let out : none ≡ some s = sym (ap (simulated host overlay) there) ∙ e in absurd (cc out)
      | inr (some rebac, there, other) ↦
          ready-Agrees host request reads overlay rebac s result proposed
            (sym (ap (simulated host overlay) there) ∙ e)
            (sym (ap (result_of host reads) there) ∙ h)
            (sym (ap (result_of host (as_if_stored request reads overlay)) other) ∙ k)
    ]
