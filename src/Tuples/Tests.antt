-- ===== src/Tuples/Tests.antt =====
-- Runs of the tuple index and of the flattened memberships (tuple-index.ts,
-- indexed-memberships.ts).
use accesscore.Prelude.{◌≡◌, refl, ◌≢◌, List, [], ◌∷◌, none, map, select, Text, text}
use accesscore.Refs.{
  OrgId, EntityRef, subject, RelationTuple, node_key, write_tuple, writable_entity_ref,
  is_identifier, writable_subject,
}
use accesscore.Tuples.{tuple_index_of, subjects_of, IndexedMembership, memberships_of, depth_of}
use accesscore.Tuples.Lookup.{at_node, IsLeast, subjects_of_lem, depth_of-memberships_of}

abbrev org_named : Text → OrgId
org_named name = record { value = name }

abbrev doc : EntityRef
doc = record { type = text "doc"; id = text "7" }

abbrev ana : EntityRef
ana = record { type = text "user"; id = text "ana" }

abbrev bob : EntityRef
bob = record { type = text "user"; id = text "bob" }

abbrev tuple : Text → EntityRef → RelationTuple
tuple org who = record {
  org_id = org_named org;
  object = doc;
  relation = text "viewer";
  subject_ref = subject who;
  revision = record { value = 1 };
  created_at = 0;
}

abbrev two_tuples : List RelationTuple
two_tuples = tuple (text "acme") ana ∷ tuple (text "other") bob ∷ []

abbrev indexed : List IndexedMembership
indexed =
    record { object = doc; relation = text "viewer"; depth = 3 }
    ∷ record { object = doc; relation = text "viewer"; depth = 1 }
    ∷ []

subjects_of_example :
    subjects_of (tuple_index_of (org_named (text "acme")) two_tuples) doc (text "viewer")
    ≡ map
        (λ t. t.subject_ref)
        (select (at_node (org_named (text "acme")) doc (text "viewer")) two_tuples)
unfolding write_tuple writable_entity_ref is_identifier writable_subject text
subjects_of_example =
    subjects_of_lem (org_named (text "acme")) two_tuples doc (text "viewer") (refl, (refl, tt)) refl

depth_of-memberships_of_example :
    (ana ≡ bob
      → IsLeast
          (node_key doc (text "viewer"))
          indexed
          (depth_of (memberships_of ana indexed) doc (text "viewer") bob))
    × (ana ≢ bob → depth_of (memberships_of ana indexed) doc (text "viewer") bob ≡ none)
unfolding writable_entity_ref is_identifier text
depth_of-memberships_of_example =
    depth_of-memberships_of ana bob doc (text "viewer") indexed refl refl
