-- ===== src/Flatten/Tests.antt =====
-- A flattening of a group with one member and a nested group (evaluate.ts: `flattenSet`).
use accesscore.Prelude.{
  ◌≤◌, ◌≡◌, refl, true, [], ◌∷◌, none, some, Text, text, All, has, get, put, ◌==◌,
}
use accesscore.Refs.{
  org_equals, node_key, format_entity_ref, EntityRef, SubjectRef, subject, userset, RelationTuple,
}
use accesscore.Usersets.{direct_userset}
use accesscore.Tuples.{tuple_index_of, subjects_of, add_tuple, add_tuples}
use accesscore.Namespaces.{registry_of, rewrites_for, add_definitions}
use accesscore.Evaluate.{EvaluationSnapshot}
use accesscore.Evaluate.Meaning.{Member}
use accesscore.Flatten.{
  FlattenedSet, flatten_set, collect_members, collect_rewrite, collect_this, keep_nearest, nearest,
}
use accesscore.Flatten.Sound.{flatten_set_lem}

abbrev group : Text → EntityRef
group id = record { type = text "group"; id = id }

abbrev ana : EntityRef
ana = record { type = text "user"; id = text "ana" }

abbrev member_tuple : EntityRef → SubjectRef → RelationTuple
member_tuple object s = record {
  org_id = record { value = text "acme" };
  object = object;
  relation = text "member";
  subject_ref = s;
  revision = record { value = 1 };
  created_at = 0;
}

abbrev nested : EvaluationSnapshot
nested = record {
  namespaces = registry_of [];
  tuples =
      tuple_index_of (record { value = text "acme" })
        (member_tuple (group (text "all")) (userset (group (text "eng")) (text "member"))
          ∷ member_tuple (group (text "eng")) (subject ana)
          ∷ []);
  memberships = none;
}

flattened_all :
    (set : FlattenedSet) × (flatten_set 20 (group (text "all")) (text "member") nested ≡ some set)
    × (set.monotonic ≡ true)
    × (set.members ≡ record { ref = ana; depth = 1 } ∷ [])
unfolding flatten_set collect_members has collect_rewrite rewrites_for get registry_of
    add_definitions direct_userset collect_this subjects_of tuple_index_of org_equals ◌==◌ text put
    node_key format_entity_ref keep_nearest nearest add_tuple add_tuples
flattened_all = (_, refl, refl, refl)

flatten_set_example :
    All
      (λ m.
        Member nested m.ref (λ o r x. Unit {0}) (group (text "all")) (text "member")
        × (m.depth ≤ 10))
      flattened_all.0.members
flatten_set_example =
    flatten_set_lem nested (λ o r x. Unit {0}) (group (text "all")) (text "member") 20
      flattened_all.0 flattened_all.1 flattened_all.2
