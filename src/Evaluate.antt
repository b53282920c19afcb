-- ===== src/Evaluate.antt =====
-- The evaluator of relationship queries (apps/api/src/authz/domain/evaluate.ts). The mutable set
-- of visited nodes and the `truncated` flag are passed on as a state; `none` is fuel run out.
pub mod Terminates
pub mod Meaning
pub mod Refute
pub mod Walks
pub mod Sound
pub mod Correct
pub mod Decides
pub mod Accepted
pub mod Plain
pub mod Tests
use accesscore.Prelude.{
  ℕ, zero, suc, ◌+◌, Bool, true, false, not, ◌&&◌, ◌||◌, List, [], ◌∷◌, ◌++◌, Option, none, some,
  ltb, leb, if◌then◌else◌, Text, text, has,
}
use accesscore.Refs.{
  org_equals, EntityRef, ref_equals, format_entity_ref, SubjectRef, subject, userset, node_key,
  tuple_key, action_name,
}
use accesscore.Usersets.{
  Userset, Usersets, this, computed_userset, tuple_to_userset, union, intersection, exclusion,
  no_child, child,
}
use accesscore.Tuples.{TupleIndex, subjects_of, IndexedMemberships, depth_of}
use accesscore.Namespaces.{
  NamespaceDefinition, NamespaceRegistry, registry_get, registry_all, rewrites_for,
  required_relations_for, is_nil,
}
use accesscore.Decisions.{
  ReasonCode, grant_direct, grant_indexed_userset, grant_userset, grant_computed_userset,
  grant_tuple_to_userset, grant_intersection, grant_exclusion, org_mismatch, unknown_action,
  default_deny, walk_truncated, Reason, Decision, plain, denied, permitted, AuthorizationQuery,
}

abbrev pub max_userset_depth : ℕ
max_userset_depth = 10

pub record EvaluationSnapshot : Type 0 where
  pub namespaces : NamespaceRegistry
  pub tuples : TupleIndex
  pub memberships : Option IndexedMemberships

pub record Grant : Type 0 where
  pub code : ReasonCode
  pub path : List Text

-- `visited` and `WalkState`.
pub record WalkState : Type 0 where
  pub visited : List Text
  pub truncated : Bool

abbrev pub Walked : Type 0
Walked = Option (Option Grant × WalkState)

-- A walk from a node, at a depth and in a state.
abbrev pub Walker : Type 0
Walker = EntityRef → Text → ℕ → WalkState → Walked

abbrev pub fresh : WalkState
fresh = record { visited = []; truncated = false }

abbrev pub truncate : WalkState → WalkState
truncate s = record s { truncated = true }

-- `if (sub) return wrap(sub)`, and on with the loop otherwise.
abbrev pub or_else : Walked → (Grant → Grant) → (WalkState → Walked) → Walked
or_else none wrap next = none
or_else (some (none, s)) wrap next = next s
or_else (some (some sub, s)) wrap next = some (some (wrap sub), s)

-- What an operand of an intersection or the base of an exclusion, walked with a state of its own,
-- means for the state `s` of the rewrite.
abbrev pub judge : Walked → WalkState → (Grant → Walked) → Walked
judge none s next = none
judge (some (grant, own)) s next =
    if own.truncated
    then some (none, truncate s)
    else elim grant [ none ↦ some (none, s) | some g ↦ next g ]

-- The same for the subtracted operand.
abbrev pub subtract_from : Grant → Walked → WalkState → Walked
subtract_from base none s = none
subtract_from base (some (grant, own)) s =
    if own.truncated then some (none, truncate s) else elim grant [
      | none ↦ some (some (record { code = grant_exclusion; path = base.path }), s)
      | some g ↦ some (none, s)
    ]

abbrev pub indexed_depth : Option IndexedMemberships → EntityRef → Text → EntityRef → Option ℕ
indexed_depth none object relation target = none
indexed_depth (some view) object relation target = depth_of view object relation target

abbrev pub within : ℕ → Option ℕ → Bool
within depth none = false
within depth (some indexed) = leb (depth + 1 + indexed) max_userset_depth

-- One round of the loop of `evaluate`; the flag `truncated` outlives the walk.
abbrev pub or_next :
    Text
    → Walked
    → (Bool → Option (Option (Text × Grant) × Bool))
    → Option (Option (Text × Grant) × Bool)
or_next relation none next = none
or_next relation (some (none, s)) next = next s.truncated
or_next relation (some (some grant, s)) next = some (some (relation, grant), s.truncated)

abbrev pub direct_or : Option Grant → WalkState → Walked → Walked
direct_or none s walked = walked
direct_or (some grant) s walked = some (some grant, s)

module _ (snapshot : EvaluationSnapshot) (target : EntityRef) where
  -- The first loop of `deriveThis`.
  unfoldable pub direct_grant : EntityRef → Text → List SubjectRef → Option Grant
  direct_grant object relation [] = none
  direct_grant object relation (userset _ _ ∷ subjects) = direct_grant object relation subjects
  direct_grant object relation (subject ref ∷ subjects) =
      if ref_equals ref target
      then some
          (record { code = grant_direct; path = tuple_key object relation (subject ref) ∷ [] })
      else direct_grant object relation subjects

  -- The second loop.
  unfoldable pub walk_usersets :
      Walker → EntityRef → Text → ℕ → List SubjectRef → WalkState → Walked
  walk_usersets walker object relation depth [] s = some (none, s)
  walk_usersets walker object relation depth (subject _ ∷ subjects) s =
      walk_usersets walker object relation depth subjects s
  walk_usersets walker object relation depth (userset ref rel ∷ subjects) s =
      let key = tuple_key object relation (userset ref rel) in
      let walked =
        or_else (walker ref rel (depth + 1) s)
          (λ sub. record { code = grant_userset; path = key ∷ sub.path })
          (λ s'. walk_usersets walker object relation depth subjects s') in
      if within depth (indexed_depth snapshot.memberships ref rel target)
      then some (some (record { code = grant_indexed_userset; path = key ∷ [] }), s)
      else walked

  unfoldable pub derive_this : Walker → EntityRef → Text → ℕ → WalkState → Walked
  derive_this walker object relation depth s =
      let subjects = subjects_of snapshot.tuples object relation in
      direct_or (direct_grant object relation subjects) s
        (walk_usersets walker object relation depth subjects s)

  -- The loop of the case `tupleToUserset`.
  unfoldable pub walk_parents :
      Walker → EntityRef → Text → Text → ℕ → List SubjectRef → WalkState → Walked
  walk_parents walker object tupleset computed depth [] s = some (none, s)
  walk_parents walker object tupleset computed depth (userset _ _ ∷ subjects) s =
      walk_parents walker object tupleset computed depth subjects s
  walk_parents walker object tupleset computed depth (subject ref ∷ subjects) s =
      or_else (walker ref computed (depth + 1) s)
        (λ sub. record {
          code = grant_tuple_to_userset;
          path = tuple_key object tupleset (subject ref) ∷ sub.path;
        })
        (λ s'. walk_parents walker object tupleset computed depth subjects s')

  unfoldable mutual
    pub derive_rewrite : Walker → EntityRef → Text → ℕ → Userset → WalkState → Walked
    derive_rewrite walker object relation depth this s = derive_this walker object relation depth s
    derive_rewrite walker object relation depth (computed_userset computed) s =
        or_else (walker object computed depth s)
          (λ sub. record { code = grant_computed_userset; path = sub.path }) (λ s'. some (none, s'))
    derive_rewrite walker object relation depth (tuple_to_userset tupleset computed) s =
        walk_parents walker object tupleset computed depth
          (subjects_of snapshot.tuples object tupleset) s
    derive_rewrite walker object relation depth (union children) s =
        derive_union walker object relation depth children s
    derive_rewrite walker object relation depth (intersection children) s =
        derive_intersection walker object relation depth children [] s
    derive_rewrite walker object relation depth (exclusion base subtract) s =
        judge (derive_rewrite walker object relation depth base fresh) s
          (λ b. subtract_from b (derive_rewrite walker object relation depth subtract fresh) s)

    pub derive_union : Walker → EntityRef → Text → ℕ → Usersets → WalkState → Walked
    derive_union walker object relation depth no_child s = some (none, s)
    derive_union walker object relation depth (child c cs) s =
        or_else (derive_rewrite walker object relation depth c s) (λ grant. grant)
          (λ s'. derive_union walker object relation depth cs s')

    pub derive_intersection :
        Walker → EntityRef → Text → ℕ → Usersets → List Text → WalkState → Walked
    derive_intersection walker object relation depth no_child path s =
        some (some (record { code = grant_intersection; path = path }), s)
    derive_intersection walker object relation depth (child c cs) path s =
        judge (derive_rewrite walker object relation depth c fresh) s
          (λ grant. derive_intersection walker object relation depth cs (path ++ grant.path) s)

  unfoldable pub derive : ℕ → Walker
  derive zero object relation depth s = none
  derive (suc fuel) object relation depth s =
      let current = node_key object relation in
      let walked =
        derive_rewrite (derive fuel) object relation depth
          (rewrites_for snapshot.namespaces object.type relation)
          (record s { visited = current ∷ s.visited }) in
      if ltb max_userset_depth depth
      then some (none, truncate s)
      else if has s.visited current
      then some (none, s)
      else walked

  -- The loop of `evaluate` over the required relations: the relation that grants and the grant,
  -- and whether a walk was truncated.
  unfoldable pub walk_required :
      ℕ → EntityRef → List Text → Bool → Option (Option (Text × Grant) × Bool)
  walk_required fuel resource [] truncated = some (none, truncated)
  walk_required fuel resource (relation ∷ relations) truncated =
      or_next relation
        (derive fuel resource relation 0 (record { visited = []; truncated = truncated }))
        (λ truncated'. walk_required fuel resource relations truncated')

-- The required relations of the query, empty where no definition has the type.
unfoldable pub required_relations : EvaluationSnapshot → AuthorizationQuery → List Text
required_relations snapshot query = elim (registry_get snapshot.namespaces query.resource.type) [
  | none ↦ []
  | some definition ↦ required_relations_for definition query.action
]

unfoldable pub foreign_namespace : AuthorizationQuery → List NamespaceDefinition → Bool
foreign_namespace query [] = false
foreign_namespace query (definition ∷ definitions) =
    not (org_equals definition.org_id query.org_id) || foreign_namespace query definitions

abbrev pub grant_reason : AuthorizationQuery → Text → Grant → Reason
grant_reason query relation grant = record {
  code = grant.code;
  message =
      text "Subject "
      ++ (format_entity_ref query.subject_of
          ++ (text " holds "
              ++ (relation ++ (text " on " ++ (format_entity_ref query.resource ++ text ".")))));
  relation = some relation;
  path = some grant.path;
}

abbrev pub default_reasons : Bool → List Reason
default_reasons truncated =
    plain default_deny (text "No grant path resolved; denied by default.")
    ∷ (if truncated
        then plain walk_truncated
            (text "Traversal stopped at the depth bound (10); a deeper relationship may exist.")
          ∷ []
        else [])

abbrev pub conclude : AuthorizationQuery → Option (Option (Text × Grant) × Bool) → Option Decision
conclude query none = none
conclude query (some (none, truncated)) = some (denied (default_reasons truncated))
conclude query (some (some (relation, grant), truncated)) =
    some (permitted (grant_reason query relation grant ∷ []))

unfoldable pub evaluate : ℕ → AuthorizationQuery → EvaluationSnapshot → Option Decision
evaluate fuel query snapshot =
    let required = required_relations snapshot query in
    if not (org_equals snapshot.tuples.org_id query.org_id)
    then some (
        denied
          (plain org_mismatch (text "Tuple snapshot belongs to a different organization.") ∷ []))
    else if foreign_namespace query (registry_all snapshot.namespaces)
    then some (
        denied (
          plain org_mismatch (text "Namespace definition belongs to a different organization.")
          ∷ []))
    else if is_nil required
    then some (
        denied (
          plain unknown_action
            (text "No relation is bound to action " ++ (action_name query.action ++ text "."))
          ∷ []))
    else conclude query (walk_required snapshot query.subject_of fuel query.resource required false)
