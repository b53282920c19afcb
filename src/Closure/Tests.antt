-- ===== src/Closure/Tests.antt =====
-- Runs of `loadClosure` (pdp-service.ts) over an organization with a chain of ten groups: Ana views
-- the document and is banned from it through the group at the end of the chain.
use mathlib.Core.List.{Memᴰ}
use accesscore.Prelude.{sym, subst, eq_iff}
use accesscore.Refs.{write_tuple, writable_subject, writable_entity_ref, is_identifier}
use accesscore.Usersets.{computed_userset_targets}
use accesscore.Evaluate.Meaning.{Member}
use accesscore.Closure.{rewrite_of}
use accesscore.Closure.Fetched.{IsFaithful}
use accesscore.Closure.Steps.{IsStore, IsLayered}
use accesscore.Closure.Whole.{IsPositive, load_closure_lem}
use accesscore.Refs.{action_name, encode_subject, format_entity_ref, tuple_key}
use accesscore.Tuples.{add_tuple, add_tuples, depth_of, subjects_of, no_memberships}
use accesscore.Usersets.{direct_userset}
use accesscore.Namespaces.{
  registry_all, add_definitions, registry_get, required_relations_for, required_relations_for_verb,
  config_rewrites_for, rewrites_for,
}
use accesscore.Evaluate.{
  foreign_namespace, required_relations, walk_required, derive, derive_rewrite, derive_this,
  direct_grant, walk_parents, walk_usersets,
}
use accesscore.Closure.{
  walk_relations, walk_node, enter_node, walk_rewrite, walk_every, walk_sets, walk_set, walk_up,
  walk_parent, rows_of, loaded_rows, namespace_of, cached_namespace, indexed_grant, own_memberships,
  indexed_memberships, view_of, concat_rows,
}
use accesscore.Prelude.{
  ℕ, zero, suc, ◌+◌, ◌≡◌, refl, true, List, [], ◌∷◌, Option, none, some, arith, Text, text, ◌==◌,
  has, get, put, if◌then◌else◌, select,
}
use accesscore.Refs.{
  OrgId, EntityRef, SubjectRef, subject, userset, RelationTuple, ref_equals, org_equals, node_key,
}
use accesscore.Usersets.{Userset, this, computed_userset, exclusion}
use accesscore.Tuples.{tuple_index_of}
use accesscore.Namespaces.{NamespaceDefinition, registry_of}
use accesscore.Decisions.{Decision, permit, deny, AuthorizationQuery, Effect}
use accesscore.Evaluate.{EvaluationSnapshot, evaluate}
use accesscore.Tuples.Lookup.{at_node}
use accesscore.Closure.{Database, Context, open_context, load_closure}

abbrev entity : Text → Text → EntityRef
entity type id = record { type = type; id = id }

abbrev acme : OrgId
acme = record { value = text "acme" }

abbrev ana : EntityRef
ana = entity (text "user") (text "ana")

abbrev letter : EntityRef
letter = entity (text "doc") (text "letter")

-- The group number `n` of the chain.
abbrev group : ℕ → EntityRef
group n = entity (text "group") ((b'a' + n) ∷ [])

abbrev member_of : EntityRef → SubjectRef
member_of g = userset g (text "member")

abbrev tuple_of : EntityRef → Text → SubjectRef → RelationTuple
tuple_of object relation s = record {
  org_id = acme;
  object = object;
  relation = relation;
  subject_ref = s;
  revision = record { value = 1 };
  created_at = 0;
}

-- Each group contains the members of the next one.
nested : ℕ → ℕ → List RelationTuple
nested zero n = []
nested (suc k) n = tuple_of (group n) (text "member") (member_of (group (n + 1))) ∷ nested k (n + 1)

-- Groups 1 to 11, the last with Ana: the tenth stands at the depth bound under `viewer` and at
-- depth 1 under `banned`.
abbrev store : List RelationTuple
store =
    tuple_of letter (text "viewer") (subject ana)
    ∷ tuple_of letter (text "viewer") (member_of (group 1))
    ∷ tuple_of letter (text "banned") (member_of (group 10))
    ∷ tuple_of (group 11) (text "member") (subject ana)
    ∷ nested 10 1

abbrev doc : NamespaceDefinition
doc = record {
  org_id = acme;
  namespace = text "doc";
  config = record {
    relation_set = text "viewer" ∷ text "banned" ∷ text "reader" ∷ [];
    action_map = (text "read", text "reader" ∷ []) ∷ [];
    rewrite_map =
        (
          text "reader",
          exclusion (computed_userset (text "viewer")) (computed_userset (text "banned")),
        )
        ∷ [];
  };
  revision = record { value = 1 };
  created_at = 0;
}

abbrev database : Database
database = record {
  find_by_namespace = λ org type. if type == text "doc" then some doc else none;
  list_by_object = λ org object relation. select (at_node org object relation) store;
  hits_of = λ org member. [];
  organization_version = λ org. record { value = 0 };
  current = record { value = 1 };
}

abbrev query : AuthorizationQuery
query = record {
  org_id = acme;
  subject_of = ana;
  action = record { namespace = text "doc"; verb = text "read" };
  resource = letter;
}

abbrev effect_of : Option Decision → Option Effect
effect_of none = none
effect_of (some d) = some d.effect

-- The decision over the whole store, and over what is gathered of it.
abbrev over_all : Option Effect
over_all = effect_of (
    evaluate 40 query (record {
      namespaces = registry_of (doc ∷ []);
      tuples = tuple_index_of acme store;
      memberships = none;
    }))

abbrev decided : Option (EvaluationSnapshot × Context) → Option Effect
decided none = none
decided (some (snapshot, context)) = effect_of (evaluate 40 query snapshot)

abbrev over_gathered : Option Effect
over_gathered =
    decided
      (load_closure 40 database acme letter (text "reader" ∷ []) (some ana) (open_context database))

denied_over_all : over_all ≡ some deny
unfolding evaluate org_equals ◌==◌ tuple_index_of text foreign_namespace registry_all registry_of
    add_definitions put required_relations registry_get get required_relations_for
    required_relations_for_verb walk_required derive derive_rewrite derive_this direct_grant
    walk_parents walk_usersets config_rewrites_for rewrites_for has action_name encode_subject
    format_entity_ref node_key ref_equals tuple_key add_tuple add_tuples depth_of subjects_of
    direct_userset nested
denied_over_all = refl

-- The gathering walks the tenth group under `viewer`, at the depth bound, and skips it under
-- `banned`, so the members of the eleventh are missing.
permitted_over_gathered : over_gathered ≡ some permit
unfolding evaluate org_equals ◌==◌ tuple_index_of text foreign_namespace registry_all registry_of
    add_definitions put required_relations registry_get get required_relations_for
    required_relations_for_verb walk_required derive derive_rewrite derive_this direct_grant
    walk_parents walk_usersets config_rewrites_for rewrites_for has action_name encode_subject
    format_entity_ref node_key ref_equals tuple_key add_tuple add_tuples depth_of subjects_of
    direct_userset nested load_closure walk_relations walk_node enter_node walk_rewrite walk_every
    walk_sets walk_set walk_up walk_parent rows_of loaded_rows namespace_of cached_namespace
    indexed_grant own_memberships indexed_memberships view_of concat_rows at_node no_memberships
permitted_over_gathered = refl

-- Without subtraction: the document's relations are direct.
abbrev plain_doc : NamespaceDefinition
plain_doc = record {
  org_id = acme;
  namespace = text "doc";
  config = record {
    relation_set = text "viewer" ∷ [];
    action_map = (text "read", text "viewer" ∷ []) ∷ [];
    rewrite_map = [];
  };
  revision = record { value = 1 };
  created_at = 0;
}

abbrev plain_database : Database
plain_database = record database {
  find_by_namespace = λ org type. if type == text "doc" then some plain_doc else none;
}

abbrev whole : EvaluationSnapshot
whole = record {
  namespaces = registry_of (plain_doc ∷ []);
  tuples = tuple_index_of acme store;
  memberships = none;
}

direct_everywhere :
    (type r : Text) → rewrite_of (plain_database.find_by_namespace acme type) r ≡ this
unfolding config_rewrites_for direct_userset get
direct_everywhere type r = ground arith

direct_over_all :
    (type r : Text)
    → rewrites_for whole.namespaces type r
      ≡ rewrite_of (plain_database.find_by_namespace acme type) r
unfolding rewrites_for registry_of add_definitions put get config_rewrites_for direct_userset
direct_over_all type r = ground (arith, eq_iff (text "doc") type, eq_iff type (text "doc"))

store-IsStore : IsStore plain_database acme store
unfolding nested write_tuple writable_subject writable_entity_ref is_identifier text
store-IsStore = record {
  selects = λ o r. refl;
  written = (
    refl,
    (
      refl,
      (
        refl,
        (refl, (refl, (refl, (refl, (refl, (refl, (refl, (refl, (refl, (refl, (refl, tt))))))))))),
      ),
    ),
  );
}

plain_database-IsLayered : IsLayered plain_database acme
unfolding computed_userset_targets
plain_database-IsLayered = record {
  height = λ type r. 0;
  bound = 0;
  height_le = λ type r. omega arith;
  falls = λ type r t m.
      absurd
        (elim (subst (λ x. Memᴰ t (computed_userset_targets x)) (direct_everywhere type r) m) [ ]);
}

plain_database-named :
    (type : Text) (d : NamespaceDefinition)
    → plain_database.find_by_namespace acme type ≡ some d
    → d.namespace ≡ type
plain_database-named type d e = ground (arith, eq_iff type (text "doc"))

load_closure_example :
    (snapshot : EvaluationSnapshot) × (context' : Context) × (load_closure 12 plain_database acme
        letter
        (text "viewer" ∷ [])
        (some ana)
        (open_context plain_database)
      ≡ some (snapshot, context'))
    × IsFaithful plain_database context'
    × ((target : EntityRef) (Barred Barred' : EntityRef → Text → Userset → Type 0) (o : EntityRef)
          (r : Text)
        → writable_entity_ref o ≡ true
        → Member snapshot target Barred o r
        → Member whole target Barred' o r)
unfolding plain_database-IsLayered IsPositive writable_entity_ref is_identifier text
load_closure_example =
    load_closure_lem 12 plain_database acme letter (text "viewer" ∷ []) (some ana)
      (open_context plain_database) store whole
      ((λ e. omega arith), ((λ e. omega arith), ((λ e. omega arith), ((λ e. omega arith), tt))))
      store-IsStore plain_database-IsLayered plain_database-named
      (λ type r. subst IsPositive (sym (direct_everywhere type r)) tt) refl direct_over_all
      (omega arith) refl (record { rows = tt; found = tt })
