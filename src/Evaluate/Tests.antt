-- ===== src/Evaluate/Tests.antt =====
-- Runs of the evaluator (apps/api/src/authz/domain/evaluate.ts) over an organization with two
-- tuples: Ana is a member of the group eng, whose members view the report.
use accesscore.Prelude.{
  ℕ, ◌≤◌, ◌≡◌, refl, sym, subst, true, false, List, [], ◌∷◌, none, some, arith, Text, text, ◌==◌,
  has, get, put, All,
}
use mathlib.Core.List.{Memᴰ}
use accesscore.Refs.{
  ok, format_entity_ref, ref_equals, encode_subject, tuple_key, is_identifier, OrgId, org_equals,
  EntityRef, SubjectRef, subject, userset, RelationTuple, writable_entity_ref, node_key,
}
use accesscore.Usersets.{Userset, this, direct_userset, computed_userset_targets}
use accesscore.Tuples.{tuple_index_of, subjects_of, add_tuple, add_tuples, or_empty}
use accesscore.Namespaces.{
  NamespaceConfigData, NamespaceConfig, NamespaceDefinition, create_config, registry_of,
  registry_all, rewrites_for, config_rewrites_for, add_definitions, check_relations, check_actions,
  check_known, distinct_from, check_rewrites, has_computed_userset_cycle, walk_each,
  required_relations_for, required_relations_for_verb, registry_get,
}
use accesscore.Decisions.{permit, deny, Decision, AuthorizationQuery}
use accesscore.Evaluate.{
  EvaluationSnapshot, evaluate, required_relations, foreign_namespace, walk_required, derive,
  derive_rewrite, derive_this, direct_grant, walk_usersets,
}
use accesscore.Evaluate.Meaning.{Member, IsIndexSound, AreWritable, ref_of}
use accesscore.Evaluate.Terminates.{IsStratified, evaluate_total}
use accesscore.Evaluate.Accepted.{evaluate_accepted}
use accesscore.Evaluate.Decides.{IsWhole, evaluate_sound, evaluate_complete}
use accesscore.Evaluate.Plain.{Bars, Bars-IsStable}

abbrev entity : Text → Text → EntityRef
entity type id = record { type = type; id = id }

abbrev pub acme : OrgId
acme = record { value = text "acme" }

abbrev pub ana : EntityRef
ana = entity (text "user") (text "ana")

abbrev bob : EntityRef
bob = entity (text "user") (text "bob")

abbrev eng : EntityRef
eng = entity (text "group") (text "eng")

abbrev pub report : EntityRef
report = entity (text "doc") (text "report")

abbrev tuple_of : EntityRef → Text → SubjectRef → RelationTuple
tuple_of object relation s = record {
  org_id = acme;
  object = object;
  relation = relation;
  subject_ref = s;
  revision = record { value = 1 };
  created_at = 0;
}

abbrev pub tuples : List RelationTuple
tuples =
    tuple_of eng (text "member") (subject ana)
    ∷ tuple_of report (text "viewer") (userset eng (text "member"))
    ∷ []

abbrev doc_data : NamespaceConfigData
doc_data = record {
  relations = text "viewer" ∷ [];
  actions = (text "read", text "viewer" ∷ []) ∷ [];
  rewrites = none;
}

abbrev pub doc_config : NamespaceConfig
doc_config = record {
  relation_set = text "viewer" ∷ [];
  action_map = (text "read", text "viewer" ∷ []) ∷ [];
  rewrite_map = [];
}

abbrev pub doc : NamespaceDefinition
doc = record {
  org_id = acme;
  namespace = text "doc";
  config = doc_config;
  revision = record { value = 1 };
  created_at = 0;
}

abbrev pub snapshot_of : List RelationTuple → EvaluationSnapshot
snapshot_of ts = record {
  namespaces = registry_of (doc ∷ []);
  tuples = tuple_index_of acme ts;
  memberships = none;
}

abbrev reads : EntityRef → AuthorizationQuery
reads who = record {
  org_id = acme;
  subject_of = who;
  action = record { namespace = text "doc"; verb = text "read" };
  resource = report;
}

pub doc_unwritten :
    (o : EntityRef) (r : Text) → rewrites_for (snapshot_of tuples).namespaces o.type r ≡ this
unfolding rewrites_for registry_of add_definitions put get config_rewrites_for direct_userset
doc_unwritten o r = ground arith

abbrev pub Excluded : EntityRef → EntityRef → Text → Userset → Type 0
Excluded who = Bars (snapshot_of tuples) who doc_unwritten

pub no_index : (who : EntityRef) → IsIndexSound (snapshot_of tuples) who (Excluded who)
no_index who o r h = absurd (h refl)

-- The two nodes of the index.
abbrev nodes : List (Text × List SubjectRef)
nodes =
    (text "group:eng#member", subject ana ∷ [])
    ∷ (text "doc:report#viewer", userset eng (text "member") ∷ [])
    ∷ []

index_nodes : (snapshot_of tuples).tuples.by_subject_node ≡ nodes
unfolding tuple_index_of add_tuples add_tuple org_equals node_key format_entity_ref put get text
    ◌==◌
index_nodes = refl

written_nodes :
    (key : Text) → All (λ s. writable_entity_ref (ref_of s) ≡ true) (or_empty (get key nodes))
unfolding get writable_entity_ref text is_identifier
written_nodes key = ground arith

pub written_tuples : AreWritable (snapshot_of tuples)
unfolding subjects_of
written_tuples o r =
    subst (λ m. All (λ s. writable_entity_ref (ref_of s) ≡ true) (or_empty (get (node_key o r) m)))
      (sym index_nodes) (written_nodes (node_key o r))

pub ana-reads :
    (d : Decision) × (evaluate 40 (reads ana) (snapshot_of tuples) ≡ some d) × (d.effect ≡ permit)
unfolding evaluate org_equals foreign_namespace registry_all registry_of add_definitions put
    required_relations required_relations_for required_relations_for_verb registry_get get text ◌==◌
    walk_required derive derive_rewrite derive_this direct_grant walk_usersets rewrites_for
    config_rewrites_for direct_userset subjects_of tuple_index_of add_tuples add_tuple node_key
    tuple_key format_entity_ref ref_equals has encode_subject
ana-reads = (_, refl, refl)

bob_denied :
    (d : Decision) × (evaluate 40 (reads bob) (snapshot_of tuples) ≡ some d)
    × (d.effect ≡ deny)
    × IsWhole d
unfolding evaluate org_equals foreign_namespace registry_all registry_of add_definitions put
    required_relations required_relations_for required_relations_for_verb registry_get get text ◌==◌
    walk_required derive derive_rewrite derive_this direct_grant walk_usersets rewrites_for
    config_rewrites_for direct_userset subjects_of tuple_index_of add_tuples add_tuple node_key
    tuple_key format_entity_ref ref_equals has encode_subject
bob_denied = (_, refl, refl, ((λ e. cc), tt))

evaluate_sound_example :
    ((snapshot_of tuples).tuples.org_id ≡ acme)
    × All (λ n. n.org_id ≡ acme) (registry_all (snapshot_of tuples).namespaces)
    × ((r : Text) × Memᴰ r (required_relations (snapshot_of tuples) (reads ana))
        × Member (snapshot_of tuples) ana (Excluded ana) report r)
unfolding writable_entity_ref is_identifier text
evaluate_sound_example =
    evaluate_sound (reads ana) (snapshot_of tuples) (Excluded ana)
      (Bars-IsStable (snapshot_of tuples) ana doc_unwritten) (no_index ana) written_tuples 40
      ana-reads.0 refl ana-reads.1 ana-reads.2

native_namespaces :
    foreign_namespace (reads bob) (registry_all (snapshot_of tuples).namespaces) ≡ false
unfolding foreign_namespace registry_all registry_of add_definitions put org_equals ◌==◌ text
native_namespaces = refl

own_tuples : org_equals (snapshot_of tuples).tuples.org_id acme ≡ true
unfolding org_equals ◌==◌ text tuple_index_of
own_tuples = refl

evaluate_complete_example :
    All
      (λ r. ¬ Member (snapshot_of tuples) bob (Excluded bob) report r)
      (required_relations (snapshot_of tuples) (reads bob))
unfolding writable_entity_ref is_identifier text
evaluate_complete_example =
    evaluate_complete (reads bob) (snapshot_of tuples) (Excluded bob)
      (Bars-IsStable (snapshot_of tuples) bob doc_unwritten) (no_index bob) written_tuples 40
      bob_denied.0 refl own_tuples native_namespaces bob_denied.1 bob_denied.2 bob_denied.3

doc_accepted : create_config doc_data ≡ ok doc_config
unfolding create_config check_relations has is_identifier ◌==◌ text check_actions check_known put
    distinct_from check_rewrites has_computed_userset_cycle walk_each
doc_accepted = refl

evaluate_accepted_example :
    (enough : ℕ) × ((fuel : ℕ) (query : AuthorizationQuery)
      → enough ≤ fuel
      → (d : Decision) × (evaluate fuel query (snapshot_of tuples) ≡ some d))
evaluate_accepted_example =
    evaluate_accepted (doc ∷ []) (snapshot_of tuples) ((doc_data, doc_accepted), tt) refl

doc_IsStratified : IsStratified (snapshot_of tuples).namespaces
unfolding computed_userset_targets
doc_IsStratified = record {
  height = λ type r. 0;
  bound = 0;
  height_le = λ type r. omega arith;
  falls = λ type r t m. absurd (
      elim (subst (λ x. Memᴰ t (computed_userset_targets x)) (doc_unwritten (entity type r) r)
        m) [ ]);
}

evaluate_total_example : (d : Decision) × (evaluate 12 (reads bob) (snapshot_of tuples) ≡ some d)
unfolding doc_IsStratified
evaluate_total_example =
    evaluate_total 12 (reads bob) (snapshot_of tuples) doc_IsStratified (omega arith)
