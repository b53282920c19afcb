-- ===== src/Pdp/Service.antt =====
-- The check of the decision point with its cache and its log (pdp-service.ts: `check`,
-- `cacheKeyFor`, `prepare`, `log`). What the repositories, the clock, the cache's server and the id
-- generator answer is an argument, as is the state of the cache; `none` is fuel run out.
use accesscore.Prelude.{ℕ, ◌-◌, Bool, true, List, [], Option, none, some, if◌then◌else◌, Text}
use accesscore.Refs.{OrgId, Revision, Action, action_name, format_entity_ref}
use accesscore.Decisions.{Decision}
use accesscore.Namespaces.{NamespaceDefinition, registry_of, required_relations_for}
use accesscore.Tuples.{tuple_index_of}
use accesscore.Evaluate.{EvaluationSnapshot}
use accesscore.Addresses.{Host}
use accesscore.Policies.{Policy}
use accesscore.DecisionCache.{DecisionCacheKey, KeyText, DecisionCache, cache_get, cache_set}
use accesscore.DecisionLog.{DecisionLogRecord}
use accesscore.Closure.{Database, Context, open_context, cached_namespace, load_closure}
use accesscore.Pdp.{
  Consistency, full, at_least, Request, Reads, EvaluationResult, is_behind, evaluate_within,
}

-- The repositories within a transaction.
pub record Repositories : Type 0 where
  pub database : Database
  pub list_by_target : OrgId → Text → Text → List Policy

abbrev pub key_at : Consistency → Request → OrgId → Revision → Option DecisionCacheKey
key_at (at_least _) request org_id revision = none
key_at full request org_id revision = some (record {
  org_id = org_id;
  subject_of = format_entity_ref request.principal.subject_of;
  action = action_name request.action;
  resource = format_entity_ref request.resource;
  revision = revision;
})

abbrev pub key_in : Option OrgId → Request → Revision → Option DecisionCacheKey
key_in none request revision = none
key_in (some org_id) request revision = key_at request.consistency request org_id revision

-- `cacheKeyFor`, of a request without organization too.
abbrev pub cache_key_for : Request → Revision → Option DecisionCacheKey
cache_key_for request revision = key_in request.principal.org_id request revision

abbrev pub relations_of : Option NamespaceDefinition → Action → List Text
relations_of none action = []
relations_of (some namespace) action = required_relations_for namespace action

-- What `prepare` has not read where it refuses.
abbrev pub unread : Revision → ℕ → Reads
unread revision now = record {
  revision_used = revision;
  snapshot = record {
    namespaces = registry_of [];
    tuples = tuple_index_of (record { value = [] }) [];
    memberships = none;
  };
  applicable = [];
  now = now;
}

abbrev pub reads_with :
    Repositories
    → ℕ
    → Request
    → OrgId
    → Context
    → Option (EvaluationSnapshot × Context)
    → Option (Reads × Context)
reads_with world now request org_id context none = none
reads_with world now request org_id context (some (snapshot, context')) = some (
  record {
    revision_used = context.revision_used;
    snapshot = snapshot;
    applicable = world.list_by_target org_id request.resource.type request.action.verb;
    now = now;
  },
  context',
)

-- The reads of `prepare`.
abbrev pub gather_for :
    ℕ → Repositories → ℕ → Request → Option OrgId → Context → Option (Reads × Context)
gather_for fuel world now request none context = some (unread context.revision_used now, context)
gather_for fuel world now request (some org_id) context =
    if is_behind request.consistency context.revision_used
    then some (unread context.revision_used now, context)
    else let found = cached_namespace world.database org_id request.resource.type context in
      reads_with world now request org_id context (
        load_closure fuel world.database org_id request.resource
          (relations_of found.0 request.action) (some request.principal.subject_of) found.1)

abbrev pub evaluated :
    Host → ℕ → Request → Option (Reads × Context) → Option (EvaluationResult × Context)
evaluated host fuel request none = none
evaluated host fuel request (some (reads, context)) =
    elim (evaluate_within host fuel request reads) [
      | none ↦ none
      | some result ↦ some (result, context)
    ]

unfoldable pub evaluate_request :
    Host → ℕ → Repositories → ℕ → Request → Context → Option (EvaluationResult × Context)
evaluate_request host fuel world now request context =
    evaluated host fuel request (gather_for fuel world now request request.principal.org_id context)

-- `log`: the record, and the decision that is returned.
unfoldable pub log_record : Text → ℕ → ℕ → Request → EvaluationResult → DecisionLogRecord
log_record id started_at finished_at request result = record {
  id = id;
  org_id = request.principal.org_id;
  subject_of = format_entity_ref request.principal.subject_of;
  action = action_name request.action;
  resource = format_entity_ref request.resource;
  effect = result.decision.effect;
  reasons = result.decision.reasons;
  revision_used = result.revision_used;
  latency_ms = finished_at - started_at;
  created_at = finished_at;
}

-- What the outside answers to one check; the transaction opens after the revision for the key is
-- read, so its world may be newer.
pub record Surroundings : Type 0 where
  pub started_at : ℕ
  pub finished_at : ℕ
  pub now : ℕ
  pub id : Text
  pub revision_now : Revision
  pub world : Repositories
  pub read_answers : Bool
  pub write_answers : Bool

pub record Checked : Type 0 where
  pub result : EvaluationResult
  pub cache : DecisionCache
  pub entry : DecisionLogRecord

abbrev pub looked_up : KeyText → Bool → Option DecisionCacheKey → DecisionCache → Option Decision
looked_up texts answers none cache = none
looked_up texts answers (some key) cache = cache_get texts answers key cache

abbrev pub stored :
    KeyText → Bool → Option DecisionCacheKey → EvaluationResult → DecisionCache → DecisionCache
stored texts answers none result cache = cache
stored texts answers (some key) result cache =
    if result.cacheable
    then cache_set texts answers (record key { revision = result.revision_used }) result.decision
        cache
    else cache

abbrev pub logged : Surroundings → Request → DecisionCache → EvaluationResult → Checked
logged answers request cache result = record {
  result = result;
  cache = cache;
  entry = log_record answers.id answers.started_at answers.finished_at request result;
}

abbrev pub after_miss :
    KeyText
    → Surroundings
    → Request
    → Option DecisionCacheKey
    → DecisionCache
    → Option (EvaluationResult × Context)
    → Option Checked
after_miss texts answers request key cache none = none
after_miss texts answers request key cache (some (result, _)) =
    some (logged answers request (stored texts answers.write_answers key result cache) result)

abbrev pub checked_with :
    KeyText
    → Surroundings
    → Request
    → Option DecisionCacheKey
    → DecisionCache
    → Option Decision
    → Option (EvaluationResult × Context)
    → Option Checked
checked_with texts answers request (some key) cache (some cached) evaluated = some (
    logged answers request cache
      (record { decision = cached; revision_used = key.revision; cacheable = true }))
checked_with texts answers request key cache _ evaluated =
    after_miss texts answers request key cache evaluated

unfoldable pub check : Host → KeyText → ℕ → Surroundings → Request → DecisionCache → Option Checked
check host texts fuel answers request cache =
    let key = cache_key_for request answers.revision_now in
    checked_with texts answers request key cache (looked_up texts answers.read_answers key cache) (
      evaluate_request host fuel answers.world answers.now request
        (open_context answers.world.database))
