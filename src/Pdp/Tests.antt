-- ===== src/Pdp/Tests.antt =====
-- A run of the decision point over the snapshot of the evaluator's runs (pdp-service.ts).
use accesscore.Refs.{org_equals, encode_subject, node_key, ref_equals, tuple_key}
use accesscore.Tuples.{tuple_index_of, add_tuple, add_tuples, depth_of, subjects_of, no_memberships}
use accesscore.Usersets.{direct_userset}
use accesscore.Namespaces.{
  registry_of, registry_all, add_definitions, registry_get, required_relations_for,
  required_relations_for_verb, config_rewrites_for, rewrites_for,
}
use accesscore.Evaluate.{
  evaluate, foreign_namespace, required_relations, walk_required, derive, derive_rewrite,
  derive_this, direct_grant, walk_parents, walk_usersets,
}
use accesscore.Closure.{
  load_closure, cached_namespace, walk_relations, walk_node, enter_node, walk_rewrite, walk_every,
  walk_sets, walk_set, walk_up, walk_parent, rows_of, loaded_rows, namespace_of, indexed_grant,
  own_memberships, indexed_memberships, view_of, concat_rows,
}
use accesscore.DecisionCache.{redis_key, cache_get, cache_set}
use accesscore.Pdp.Service.{evaluate_request, log_record}
use accesscore.Prelude.{
  ℕ, zero, suc, ap, true, ◌∷◌, if◌then◌else◌, select, Text, ◌==◌, Free, get, put, has,
}
use accesscore.Refs.{format_entity_ref, action_name}
use accesscore.Tuples.Lookup.{at_node}
use accesscore.Evaluate.Tests.{doc}
use accesscore.DecisionCache.{KeyText, DecisionCacheKey}
use accesscore.DecisionCache.Keys.{AreDistinct}
use accesscore.Pdp.Service.{Repositories, Surroundings, Checked, check}
use accesscore.Pdp.Keyed.{IsKeyed}
use accesscore.Pdp.Cached.{IsFaithfulCheck, check_lem}
use accesscore.Prelude.{◌↔◌, arith, ◌≡◌, refl, sym, subst, [], none, some, text}
use accesscore.Refs.{OrgId, writable_entity_ref, is_identifier}
use accesscore.Decisions.{permit, Decision}
use accesscore.Addresses.{Host}
use accesscore.Policies.{decide, apply_bounds, boundary_for}
use accesscore.Evaluate.Tests.{acme, ana, report, tuples, snapshot_of, ana-reads}
use accesscore.Evaluate.{evaluate}
use accesscore.Pdp.{query_of}
use accesscore.Pdp.{
  result_of, ready_with, full, Request, Reads, EvaluationResult, prepare, resolve, evaluate_within,
  SimulationResult, simulate, simulated,
}
use accesscore.Pdp.Permits.{IsCaughtUp, IsLetThrough, evaluate_within_iff}
use accesscore.Pdp.Simulation.{Agrees, simulate-evaluate_within}

abbrev dateless : Host
dateless = record { date_parse = λ s. none; number_of = λ s. none }

abbrev request : Request
request = record {
  principal = record {
    subject_of = ana;
    org_id = some acme;
    assurance_level = 1;
    authenticated_at = none;
  };
  action = record { namespace = text "doc"; verb = text "read" };
  resource = report;
  ip = text "10.0.0.1";
  consistency = full;
}

abbrev reads : Reads
reads = record {
  revision_used = record { value = 3 };
  snapshot = snapshot_of tuples;
  applicable = [];
  now = 1000;
}

ran :
    (result : EvaluationResult) × (evaluate_within dateless 40 request reads ≡ some result)
    × (result.decision.effect ≡ permit)
unfolding evaluate_within prepare resolve decide apply_bounds boundary_for
ran =
    let evaluated = ana-reads.1 in
    (
      _,
      subst
          (λ o.
            result_of dateless reads (ready_with request reads o)
            ≡ result_of dateless reads (ready_with request reads (some ana-reads.0)))
          (sym evaluated) refl,
      ground (arith, ana-reads.2),
    )

evaluate_within_example : (ran.0.decision.effect ≡ permit) ↔ (
    (org_id : OrgId) × (request.principal.org_id ≡ some org_id)
    × IsCaughtUp request.consistency reads.revision_used
    × (rebac : Decision) × (evaluate 40 (query_of request org_id) reads.snapshot ≡ some rebac)
    × IsLetThrough dateless 40 request reads rebac)
evaluate_within_example = evaluate_within_iff dateless 40 request reads ran.0 ran.1

-- With an overlay of no policy.
simulated_too : (s : SimulationResult) × (simulate dateless 40 request reads (some []) ≡ some s)
unfolding simulate prepare
simulated_too = (
  _,
  subst
      (λ o.
        simulated dateless (some []) (ready_with request reads o)
        ≡ simulated dateless (some []) (ready_with request reads (some ana-reads.0)))
      (sym ana-reads.1) refl,
)

simulate-evaluate_within_example : Agrees simulated_too.0 ran.0 ran.0
simulate-evaluate_within_example =
    simulate-evaluate_within dateless 40 request reads (some []) simulated_too.0 ran.0 ran.0
      simulated_too.1 ran.1 ran.1

-- Ana is a member of the group that views the report.
abbrev world_at : ℕ → Repositories
world_at r = record {
  database = record {
    find_by_namespace = λ org type. if type == text "doc" then some doc else none;
    list_by_object = λ org object relation. select (at_node org object relation) tuples;
    hits_of = λ org member. [];
    organization_version = λ org. record { value = 0 };
    current = record { value = r };
  };
  list_by_target = λ org type action. [];
}

strokes : ℕ → Text
strokes zero = []
strokes (suc n) = b'1' ∷ strokes n

strokes_injective : (a b : ℕ) → strokes a ≡ strokes b → a ≡ b
unfolding strokes
strokes_injective zero zero e = refl
strokes_injective zero (suc b) e = absurd (cc e)
strokes_injective (suc a) zero e = absurd (cc e)
strokes_injective (suc a) (suc b) e = ap suc (strokes_injective a b (ground arith))

strokes-Free : (a : ℕ) → Free b':' (strokes a)
unfolding strokes
strokes-Free zero = tt
strokes-Free (suc a) = ((λ e. omega arith), strokes-Free a)

abbrev Any_key : DecisionCacheKey → Type 0
Any_key key = Unit

abbrev texts : KeyText
texts = record { digest = λ s. s; number_text = strokes; prefix = text "decision" }

texts-AreDistinct : AreDistinct texts Any_key
texts-AreDistinct = record {
  digests = λ a b u v e. e;
  numbers = strokes_injective;
  number_Free = strokes-Free;
}

request-IsKeyed : IsKeyed request
unfolding writable_entity_ref is_identifier text format_entity_ref action_name
request-IsKeyed = record {
  org = acme;
  own = refl;
  plain = ground arith;
  latest = refl;
  who = refl;
  what = refl;
  space = refl;
  subject_Free = ground arith;
  action_Free = ground arith;
}

abbrev answers : Surroundings
answers = record {
  started_at = 10;
  finished_at = 15;
  now = 12;
  id = text "1";
  revision_now = record { value = 3 };
  world = world_at 3;
  read_answers = true;
  write_answers = true;
}

-- The decision is kept.
checked_once :
    (out : Checked) × (check dateless texts 40 answers request [] ≡ some out)
    × (out.result.decision.effect ≡ permit)
unfolding check cache_get redis_key cache_set evaluate_request log_record cached_namespace
    load_closure required_relations_for required_relations_for_verb walk_relations walk_node
    enter_node walk_rewrite walk_every walk_sets walk_set walk_up walk_parent rows_of loaded_rows
    namespace_of indexed_grant own_memberships indexed_memberships view_of concat_rows at_node
    no_memberships evaluate_within prepare resolve decide apply_bounds boundary_for evaluate
    org_equals ◌==◌ tuple_index_of text foreign_namespace registry_all registry_of add_definitions
    put required_relations registry_get get walk_required derive derive_rewrite derive_this
    direct_grant walk_parents walk_usersets config_rewrites_for rewrites_for has action_name
    encode_subject format_entity_ref node_key ref_equals tuple_key add_tuple add_tuples depth_of
    subjects_of direct_userset strokes
checked_once = (_, refl, refl)

-- The worlds of a revision: those that report it, whatever their index answers.
abbrev AtRevision : ℕ → Repositories → Type 0
AtRevision r world = world.database.current.value ≡ r

check_example :
    IsFaithfulCheck dateless texts Any_key 40 AtRevision
      (λ r world e. e)
      request
      request-IsKeyed
      (λ revision. tt)
      answers
      checked_once.0
check_example =
    check_lem dateless texts Any_key 40 AtRevision (λ r world e. e) request request-IsKeyed
      (λ revision. tt) answers [] checked_once.0 (record { value = 3 }) texts-AreDistinct refl tt
      checked_once.1
