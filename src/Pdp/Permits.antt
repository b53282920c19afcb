-- ===== src/Pdp/Permits.antt =====
-- When the decision point permits (pdp-service.ts, policy/decide.ts).
use accesscore.Prelude.{
  ℕ, ◌≤◌, ◌≡◌, refl, sym, ap, ◌∙◌, subst, ◌↔◌, ◌⊎◌, inl, inr, true, false, not, Option, none, some,
  arith, some_inj, All, Any, leb→le, le→leb, Bool-cases, Option-cases,
}
use accesscore.Refs.{OrgId, Revision, is_at_least}
use accesscore.Decisions.{permit, Decision}
use accesscore.Addresses.{Host}
use accesscore.Verdicts.{EvaluationContext}
use accesscore.Policies.{boundary_for, decide, unbounded}
use accesscore.Policies.Combined.{StandsAside, Grants, decide_iff, apply_bounds_iff}
use accesscore.Evaluate.{evaluate}
use accesscore.Pdp.{
  Consistency, full, at_least, Request, Reads, Ready, EvaluationResult, is_behind, query_of,
  ready_with, prepare, resolve, result_of, evaluate_within,
}

-- The store has caught up with what a request demands.
abbrev pub IsCaughtUp : Consistency → Revision → Type 0
IsCaughtUp full used = Unit
IsCaughtUp (at_least required) used = required.value ≤ used.value

behind-IsCaughtUp :
    (c : Consistency) (used : Revision) → (is_behind c used ≡ false) ↔ IsCaughtUp c used
unfolding is_at_least
behind-IsCaughtUp full used = (λ h. tt, λ h. refl)
behind-IsCaughtUp (at_least required) used = (
  λ h. leb→le required.value used.value (ground arith),
  λ h. ap not (le→leb required.value used.value h),
)

module _ (host : Host) (fuel : ℕ) (request : Request) (reads : Reads) where
  abbrev pub context : EvaluationContext
  context = record {
    aal = request.principal.assurance_level;
    auth_time = request.principal.authenticated_at;
    ip = request.ip;
    now = reads.now;
  }

  -- What policies make of a relationship decision.
  abbrev pub IsLetThrough : Decision → Type 0
  IsLetThrough rebac =
      All (StandsAside host context) reads.applicable
      × ((rebac.effect ≡ permit) ⊎ Any (Grants host context) reads.applicable)

  abbrev ready_of : Decision → Ready
  ready_of rebac = record {
    rebac = rebac;
    applicable = reads.applicable;
    policy_context = context;
    target = record { resource_type = request.resource.type; action = request.action.verb };
    subject_of = request.principal.subject_of;
  }

  resolve-permit :
      (rebac : Decision)
      → ((resolve host (ready_of rebac) reads.applicable).effect ≡ permit) ↔ IsLetThrough rebac
  unfolding resolve boundary_for
  resolve-permit rebac =
      let r = ready_of rebac in
      let bounded =
        (apply_bounds_iff (decide host context rebac reads.applicable) r.target r.subject_of
          unbounded).0 in
      let decided = decide_iff host context rebac reads.applicable in
      (λ h. decided.0 (bounded.0 h).0, λ h. bounded.1 (decided.1 h, tt, tt))

  ready-permit :
      (o : Option Decision) (result : EvaluationResult)
      → result_of host reads (ready_with request reads o) ≡ some result
      → (result.decision.effect ≡ permit)
        ↔ ((rebac : Decision) × (o ≡ some rebac) × IsLetThrough rebac)
  ready-permit none result h = absurd (cc h)
  ready-permit (some rebac) result h =
      let said = ap (λ r. r.decision.effect) (some_inj h) in
      let (into, back) = resolve-permit rebac in
      (
        λ p. (rebac, refl, into (said ∙ p)),
        λ (other, same, p). sym said ∙ back (subst IsLetThrough (sym (some_inj same)) p),
      )

  -- The decision point permits exactly when the principal has an organization, the store's revision
  -- is not before the one that the request demands, every forbid policy of the target has a
  -- condition that fails, and either the relationships, evaluated over what was gathered, permit or
  -- a permit policy of the target has a condition that holds.
  pub evaluate_within_iff :
      (result : EvaluationResult)
      → evaluate_within host fuel request reads ≡ some result
      → (result.decision.effect ≡ permit) ↔ (
          (org_id : OrgId) × (request.principal.org_id ≡ some org_id)
          × IsCaughtUp request.consistency reads.revision_used
          × (rebac : Decision) × (evaluate fuel (query_of request org_id) reads.snapshot
              ≡ some rebac)
          × IsLetThrough rebac)
  unfolding evaluate_within prepare
  evaluate_within_iff result h = elim (Option-cases request.principal.org_id) [
    | inl nobody ↦ (
      λ p. absurd (ground arith),
      λ t. let no : none ≡ some t.0 = sym nobody ∙ t.1 in absurd (cc no),
    )
    | inr (org, own) ↦ elim (Bool-cases (is_behind request.consistency reads.revision_used)) [
      | inl behind ↦ (
        λ p. absurd (ground arith),
        λ t.
            let no : true ≡ false =
              sym behind ∙ (behind-IsCaughtUp request.consistency reads.revision_used).1 t.2 in
            absurd (cc no),
      )
      | inr current ↦
          let went_on : result_of host reads
                (ready_with request reads (evaluate fuel (query_of request org) reads.snapshot))
              ≡ some result =
            ground arith in
          let (into, back) =
            ready-permit (evaluate fuel (query_of request org) reads.snapshot) result went_on in
          (
            λ p.
                let (rebac, evaluated, through) = into p in
                (
                  org,
                  own,
                  (behind-IsCaughtUp request.consistency reads.revision_used).0 current,
                  rebac,
                  evaluated,
                  through,
                ),
            λ t.
                let same : t.0 ≡ org = some_inj (sym t.1 ∙ own) in
                back (
                  t.3,
                  subst (λ x. evaluate fuel (query_of request x) reads.snapshot ≡ some t.3) same
                      t.4,
                  t.5,
                ),
          )
    ]
  ]
