-- ===== src/Tuples.antt =====
-- The tuples of a snapshot by node, and the memberships that the flattened index holds
-- (apps/api/src/authz/domain: tuple-index.ts, indexed-memberships.ts). A `Map` is an association
-- list in the order of insertion.
pub mod Lookup
mod Tests
use accesscore.Prelude.{
  ℕ, ◌≡◌, Bool, true, false, not, List, [], ◌∷◌, ◌++◌, Option, none, some, ltb, if◌then◌else◌, Text,
  ◌==◌, get, put,
}
use accesscore.Refs.{
  OrgId, org_equals, EntityRef, format_entity_ref, SubjectRef, RelationTuple, node_key,
}

pub record TupleIndex : Type 0 where
  pub org_id : OrgId
  pub by_subject_node : List (Text × List SubjectRef)

-- One round of the loop of `TupleIndex.of`.
unfoldable pub add_tuple :
    OrgId → List (Text × List SubjectRef) → RelationTuple → List (Text × List SubjectRef)
add_tuple org map tuple =
    if not (org_equals tuple.org_id org)
    then map
    else let key = node_key tuple.object tuple.relation in
      elim (get key map) [
        | some bucket ↦ put key (bucket ++ tuple.subject_ref ∷ []) map
        | none ↦ put key (tuple.subject_ref ∷ []) map
      ]

unfoldable pub add_tuples :
    OrgId → List (Text × List SubjectRef) → List RelationTuple → List (Text × List SubjectRef)
add_tuples org map [] = map
add_tuples org map (tuple ∷ tuples) = add_tuples org (add_tuple org map tuple) tuples

unfoldable pub tuple_index_of : OrgId → List RelationTuple → TupleIndex
unfolding add_tuple add_tuples
tuple_index_of org tuples = record { org_id = org; by_subject_node = add_tuples org [] tuples }

abbrev pub or_empty : Option (List SubjectRef) → List SubjectRef
or_empty none = []
or_empty (some subjects) = subjects

unfoldable pub subjects_of : TupleIndex → EntityRef → Text → List SubjectRef
subjects_of index object relation = or_empty (get (node_key object relation) index.by_subject_node)

-- indexed-memberships.ts
pub record IndexedMembership : Type 0 where
  pub object : EntityRef
  pub relation : Text
  pub depth : ℕ

pub record IndexedMemberships : Type 0 where
  pub member : Option Text
  pub depths : List (Text × ℕ)

unfoldable pub no_memberships : IndexedMemberships
no_memberships = record { member = none; depths = [] }

-- One round of the loop of `IndexedMemberships.of`.
unfoldable add_membership : List (Text × ℕ) → IndexedMembership → List (Text × ℕ)
add_membership depths m =
    let key = node_key m.object m.relation in
    elim (get key depths) [
      | none ↦ put key m.depth depths
      | some seen ↦ if ltb m.depth seen then put key m.depth depths else depths
    ]

unfoldable add_memberships : List (Text × ℕ) → List IndexedMembership → List (Text × ℕ)
add_memberships depths [] = depths
add_memberships depths (m ∷ ms) = add_memberships (add_membership depths m) ms

unfoldable pub memberships_of : EntityRef → List IndexedMembership → IndexedMemberships
unfolding add_membership add_memberships
memberships_of member ms = record {
  member = some (format_entity_ref member);
  depths = add_memberships [] ms;
}

abbrev is_member : Option Text → Text → Bool
is_member none key = false
is_member (some own) key = own == key

unfoldable pub depth_of : IndexedMemberships → EntityRef → Text → EntityRef → Option ℕ
depth_of view object relation member =
    if not (is_member view.member (format_entity_ref member))
    then none
    else get (node_key object relation) view.depths
