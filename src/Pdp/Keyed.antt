-- ===== src/Pdp/Keyed.antt =====
-- What an evaluation depends on where no policy has a say (pdp-service.ts: `prepare`,
-- `evaluateWithin`, `cacheKeyFor`): the parts of the cache key and the data.
use accesscore.Prelude.{
  ℕ, ◌≡◌, refl, sym, ap, ◌∙◌, inr, true, false, List, [], Option, none, some, arith, Text, Free,
  some_inj, cut_unique,
}
use accesscore.Refs.{
  OrgId, Revision, EntityRef, Action, action_name, format_entity_ref, is_identifier,
  writable_entity_ref,
}
use accesscore.Refs.Keys.{format_injective, identifier-Free}
use accesscore.Decisions.{Decision, AuthorizationQuery}
use accesscore.Evaluate.{EvaluationSnapshot, evaluate}
use accesscore.Addresses.{Host}
use accesscore.Policies.{Policy, decide, apply_bounds, boundary_for}
use accesscore.DecisionCache.{DecisionCacheKey}
use accesscore.Closure.{Context, cached_namespace, load_closure}
use accesscore.Pdp.{
  full, Request, Reads, Ready, EvaluationResult, is_behind, query_of, ready_with, prepare, resolve,
  is_empty_list, result_of, evaluate_within,
}
use accesscore.Pdp.Service.{
  Repositories, key_at, key_in, cache_key_for, relations_of, reads_with, gather_for, evaluated,
  evaluate_request,
}

-- Policies that are none leave the relationship decision.
resolve-nil : (host : Host) (r : Ready) → resolve host r [] ≡ r.rebac
unfolding resolve decide apply_bounds boundary_for
resolve-nil host r = ground arith

abbrev beside : Context → Option Decision → Option (Decision × Context)
beside context none = none
beside context (some rebac) = some (rebac, context)

abbrev verdict_of :
    ℕ → AuthorizationQuery → Option (EvaluationSnapshot × Context) → Option (Decision × Context)
verdict_of fuel query none = none
verdict_of fuel query (some (snapshot, context)) = beside context (evaluate fuel query snapshot)

-- The relationship decision and the context that it leaves.
pub verdict_for :
    ℕ
    → Repositories
    → OrgId
    → EntityRef
    → Action
    → EntityRef
    → Context
    → Option (Decision × Context)
verdict_for fuel world org who act what context =
    let found = cached_namespace world.database org what.type context in
    verdict_of fuel (record { org_id = org; subject_of = who; action = act; resource = what })
      (load_closure fuel world.database org what (relations_of found.0 act) (some who) found.1)

abbrev pub rebac_of : ℕ → Repositories → Request → OrgId → Context → Option (Decision × Context)
rebac_of fuel world request org context =
    verdict_for fuel world org request.principal.subject_of request.action request.resource context

abbrev pub policies_for : Repositories → Request → OrgId → List Policy
policies_for world request org = world.list_by_target org request.resource.type request.action.verb

module _ (host : Host) (fuel : ℕ) (world : Repositories) (now : ℕ) (request : Request) (org : OrgId)
    (own : request.principal.org_id ≡ some org) (latest : request.consistency ≡ full) where
  prepare_lem :
      (reads : Reads)
      → prepare fuel request reads
        ≡ ready_with request reads (evaluate fuel (query_of request org) reads.snapshot)
  unfolding prepare
  prepare_lem reads = ground (arith, own, latest)

  -- What an evaluation concludes.
  pub record Concludes (context : Context) (rebac : Option (Decision × Context))
      (result : EvaluationResult) : Type 0 where
    pub decided : Decision
    pub left : Context
    pub from : rebac ≡ some (decided, left)
    pub cacheable : result.cacheable ≡ is_empty_list (policies_for world request org)
    pub used : result.revision_used ≡ context.revision_used
    pub alone : policies_for world request org ≡ [] → result.decision ≡ decided

  within_lem :
      (reads : Reads)
      → evaluate_within host fuel request reads
        ≡ result_of host reads
            (ready_with request reads (evaluate fuel (query_of request org) reads.snapshot))
  unfolding evaluate_within
  within_lem reads = ap (result_of host reads) (prepare_lem reads)

  abbrev paired : Context → Option EvaluationResult → Option (EvaluationResult × Context)
  paired left o = elim o [ none ↦ none | some result ↦ some (result, left) ]

  after_evaluate :
      (reads : Reads) (context left' left : Context) (o : Option Decision)
      (result : EvaluationResult)
      → reads.applicable ≡ policies_for world request org
      → reads.revision_used ≡ context.revision_used
      → paired left' (result_of host reads (ready_with request reads o)) ≡ some (result, left)
      → Concludes context (beside left' o) result
  after_evaluate reads context left' left none result p q e = absurd (cc e)
  after_evaluate reads context left' left (some rebac) result p q e = record {
    decided = rebac;
    left = left';
    from = refl;
    cacheable = ap (λ r. r.cacheable) (sym same) ∙ ap is_empty_list p;
    used = ap (λ r. r.revision_used) (sym same) ∙ q;
    alone = λ nothing.
        ap (λ r. r.decision) (sym same) ∙ ap (resolve host r) (p ∙ nothing) ∙ resolve-nil host r;
  }
    where
      r : Ready
      r = record {
        rebac = rebac;
        applicable = reads.applicable;
        policy_context = record {
          aal = request.principal.assurance_level;
          auth_time = request.principal.authenticated_at;
          ip = request.ip;
          now = reads.now;
        };
        target = record { resource_type = request.resource.type; action = request.action.verb };
        subject_of = request.principal.subject_of;
      }

      same :
          record {
            decision = resolve host r reads.applicable;
            revision_used = reads.revision_used;
            cacheable = is_empty_list reads.applicable;
          }
          ≡ result
      same = ap (λ x. x.0) (some_inj e)

  after_load :
      (context : Context) (loaded : Option (EvaluationSnapshot × Context))
      (result : EvaluationResult) (left : Context)
      → evaluated host fuel request (reads_with world now request org context loaded)
        ≡ some (result, left)
      → Concludes context (verdict_of fuel (query_of request org) loaded) result
  after_load context none result left e = absurd (cc e)
  after_load context (some (snapshot, left')) result left e =
      let reads : Reads = record {
        revision_used = context.revision_used;
        snapshot = snapshot;
        applicable = policies_for world request org;
        now = now;
      } in
      after_evaluate reads context left' left (evaluate fuel (query_of request org) snapshot) result
        refl refl (ap (paired left') (sym (within_lem reads)) ∙ e)

  gather_for_lem :
      (context : Context)
      → gather_for fuel world now request request.principal.org_id context
        ≡ reads_with world now request org context (
            load_closure fuel world.database org request.resource
              (relations_of
                (cached_namespace world.database org request.resource.type context).0
                request.action)
              (some request.principal.subject_of)
              (cached_namespace world.database org request.resource.type context).1)
  gather_for_lem context =
      let current : is_behind request.consistency context.revision_used ≡ false =
        ap (λ c. is_behind c context.revision_used) latest in
      ap (λ o. gather_for fuel world now request o context) own ∙ rw current refl

  pub evaluate_request_lem :
      (context : Context) (result : EvaluationResult) (left : Context)
      → evaluate_request host fuel world now request context ≡ some (result, left)
      → Concludes context (rebac_of fuel world request org context) result
  unfolding evaluate_request verdict_for
  evaluate_request_lem context result left e =
      after_load context _ result left
        (ap (evaluated host fuel request) (sym (gather_for_lem context)) ∙ e)

-- The request is one that a key stands for: of a known organization, on the latest data, with
-- references and an action that may be written.
pub record IsKeyed (request : Request) : Type 0 where
  pub org : OrgId
  pub own : request.principal.org_id ≡ some org
  pub plain : Free b':' org.value
  pub latest : request.consistency ≡ full
  pub who : writable_entity_ref request.principal.subject_of ≡ true
  pub what : writable_entity_ref request.resource ≡ true
  pub space : is_identifier request.action.namespace ≡ true
  pub subject_Free : Free 0x1f (format_entity_ref request.principal.subject_of)
  pub action_Free : Free 0x1f (action_name request.action)

pub key_of_keyed :
    (request : Request) (k : IsKeyed request) (revision : Revision)
    → cache_key_for request revision ≡ key_at full request k.org revision
key_of_keyed request k revision =
    ap (λ o. key_in o request revision) k.own ∙ ap (λ c. key_at c request k.org revision) k.latest

action_injective :
    (a b : Action)
    → is_identifier a.namespace ≡ true
    → is_identifier b.namespace ≡ true
    → action_name a ≡ action_name b
    → a ≡ b
unfolding action_name
action_injective a b ha hb e =
    let free =
      λ (s : Text) (h : is_identifier s ≡ true). identifier-Free b'.' s (inr (inr (inr refl))) h in
    let (space, verb) =
      cut_unique b'.' a.namespace b.namespace a.verb b.verb (free a.namespace ha)
        (free b.namespace hb) e in
    λ i. record { namespace = space i; verb = verb i }

-- What two requests with one key share.
pub record Alike (a b : Request) (o p : OrgId) : Type 0 where
  pub org : o ≡ p
  pub who : a.principal.subject_of ≡ b.principal.subject_of
  pub act : a.action ≡ b.action
  pub what : a.resource ≡ b.resource

pub alike :
    (a b : Request) (ka : IsKeyed a) (kb : IsKeyed b) (revision : Revision) (key : DecisionCacheKey)
    → cache_key_for a revision ≡ some key
    → cache_key_for b revision ≡ some key
    → Alike a b ka.org kb.org
alike a b ka kb revision key ea eb =
    let same : key_at full a ka.org revision ≡ key_at full b kb.org revision =
      sym (key_of_keyed a ka revision) ∙ ea ∙ sym eb ∙ key_of_keyed b kb revision in
    let equal = some_inj same in
    record {
      org = ap (λ k. k.org_id) equal;
      who =
          format_injective a.principal.subject_of b.principal.subject_of ka.who kb.who
            (ap (λ k. k.subject_of) equal);
      act = action_injective a.action b.action ka.space kb.space (ap (λ k. k.action) equal);
      what = format_injective a.resource b.resource ka.what kb.what (ap (λ k. k.resource) equal);
    }

module _ (fuel : ℕ) (world : Repositories) (a b : Request) (o p : OrgId)
    (same : Alike a b o p) where
  pub alike-rebac_of :
      (context : Context) → rebac_of fuel world a o context ≡ rebac_of fuel world b p context
  alike-rebac_of context =
      λ i. verdict_for fuel world (same.org i) (same.who i) (same.act i) (same.what i) context

  pub alike-policies_for : policies_for world a o ≡ policies_for world b p
  alike-policies_for = λ i. world.list_by_target (same.org i) (same.what i).type (same.act i).verb
