-- ===== src/Flatten.antt =====
-- The members of a userset, flattened (apps/api/src/authz/domain/evaluate.ts: `collectMembers`,
-- `flattenSet`, `expand`). The set of visited nodes and the flag `excluded` are passed on as a
-- state; `none` is fuel run out.
pub mod Loops
pub mod Meets
pub mod Sound
mod Tests
use accesscore.Prelude.{
  ℕ, zero, suc, ◌+◌, max, Bool, true, false, not, List, [], ◌∷◌, ◌++◌, Option, none, some, ltb,
  if◌then◌else◌, map, find, any, select, Text, has, get, put,
}
use accesscore.Refs.{
  OrgId, org_equals, EntityRef, ref_equals, format_entity_ref, SubjectRef, subject, userset,
  node_key,
}
use accesscore.Usersets.{
  Userset, Usersets, this, computed_userset, tuple_to_userset, union, intersection, exclusion,
  no_child, child,
}
use accesscore.Tuples.{subjects_of}
use accesscore.Namespaces.{rewrites_for}
use accesscore.Evaluate.{max_userset_depth, EvaluationSnapshot}

pub record FlatMember : Type 0 where
  pub ref : EntityRef
  pub depth : ℕ

pub record CollectState : Type 0 where
  pub visited : List Text
  pub excluded : Bool

abbrev pub Collected : Type 0
Collected = Option (List FlatMember × CollectState)

abbrev pub Collector : Type 0
Collector = EntityRef → Text → ℕ → CollectState → Collected

-- A child that is collected with a set of visited nodes of its own shares the flag.
abbrev pub own_set : CollectState → CollectState
own_set s = record s { visited = [] }

infixl 5 ◌>>=◌
abbrev pub ◌>>=◌ : Collected → (List FlatMember × CollectState → Collected) → Collected
none >>= next = none
some collected >>= next = next collected

-- Back from a child with a set of its own.
abbrev pub share : CollectState → CollectState → CollectState
share s own = record s { excluded = own.excluded }

abbrev pub meet_one : List FlatMember → FlatMember → List FlatMember
meet_one others member = elim (find (λ other. ref_equals other.ref member.ref) others) [
  | none ↦ []
  | some found ↦ record { ref = member.ref; depth = max member.depth found.depth } ∷ []
]

-- `members.flatMap(…)` of the intersection.
unfoldable pub meet : List FlatMember → List FlatMember → List FlatMember
meet [] others = []
meet (member ∷ members) others = meet_one others member ++ meet members others

-- `members === null ? childMembers : …`
abbrev pub meet_next : Option (List FlatMember) → List FlatMember → List FlatMember
meet_next none children = children
meet_next (some members) children = meet members children

abbrev pub or_nobody : Option (List FlatMember) → List FlatMember
or_nobody none = []
or_nobody (some members) = members

unfoldable pub without : List FlatMember → List FlatMember → List FlatMember
without base subtract =
    select (λ member. not (any (λ other. ref_equals other.ref member.ref) subtract)) base

module _ (snapshot : EvaluationSnapshot) where
  -- The loop of the case `this`.
  unfoldable pub collect_this : Collector → ℕ → List SubjectRef → CollectState → Collected
  collect_this collector depth [] s = some ([], s)
  collect_this collector depth (subject ref ∷ subjects) s = do
    (members, s') ← collect_this collector depth subjects s
    some (record { ref = ref; depth = depth } ∷ members, s')
  collect_this collector depth (userset ref rel ∷ subjects) s = do
    (nested, s') ← collector ref rel (depth + 1) s
    (members, s'') ← collect_this collector depth subjects s'
    some (nested ++ members, s'')

  -- The loop of the case `tupleToUserset`.
  unfoldable pub collect_parents : Collector → Text → ℕ → List SubjectRef → CollectState → Collected
  collect_parents collector computed depth [] s = some ([], s)
  collect_parents collector computed depth (userset _ _ ∷ subjects) s =
      collect_parents collector computed depth subjects s
  collect_parents collector computed depth (subject ref ∷ subjects) s = do
    (nested, s') ← collector ref computed (depth + 1) s
    (members, s'') ← collect_parents collector computed depth subjects s'
    some (nested ++ members, s'')

  unfoldable mutual
    pub collect_rewrite : Collector → EntityRef → Text → ℕ → Userset → CollectState → Collected
    collect_rewrite collector object relation depth this s =
        collect_this collector depth (subjects_of snapshot.tuples object relation) s
    collect_rewrite collector object relation depth (computed_userset computed) s =
        collector object computed depth s
    collect_rewrite collector object relation depth (tuple_to_userset tupleset computed) s =
        collect_parents collector computed depth (subjects_of snapshot.tuples object tupleset) s
    collect_rewrite collector object relation depth (union children) s =
        collect_union collector object relation depth children s
    collect_rewrite collector object relation depth (intersection children) s =
        collect_intersection collector object relation depth children none s
    collect_rewrite collector object relation depth (exclusion base subtract) s = do
      (kept, s') ←
          collect_rewrite collector object relation depth base
            (record { visited = []; excluded = true })
      (gone, s'') ← collect_rewrite collector object relation depth subtract (own_set s')
      some (without kept gone, share s s'')

    pub collect_union : Collector → EntityRef → Text → ℕ → Usersets → CollectState → Collected
    collect_union collector object relation depth no_child s = some ([], s)
    collect_union collector object relation depth (child c cs) s = do
      (nested, s') ← collect_rewrite collector object relation depth c s
      (members, s'') ← collect_union collector object relation depth cs s'
      some (nested ++ members, s'')

    pub collect_intersection :
        Collector
        → EntityRef
        → Text
        → ℕ
        → Usersets
        → Option (List FlatMember)
        → CollectState
        → Collected
    collect_intersection collector object relation depth no_child members s =
        some (or_nobody members, s)
    collect_intersection collector object relation depth (child c cs) members s = do
      (nested, own) ← collect_rewrite collector object relation depth c (own_set s)
      collect_intersection collector object relation depth cs (some (meet_next members nested))
          (share s own)

  unfoldable pub collect_members : ℕ → Collector
  collect_members zero object relation depth s = none
  collect_members (suc fuel) object relation depth s =
      let current = node_key object relation in
      let collected =
        collect_rewrite (collect_members fuel) object relation depth
          (rewrites_for snapshot.namespaces object.type relation)
          (record s { visited = current ∷ s.visited }) in
      if ltb max_userset_depth depth
      then some ([], s)
      else if has s.visited current
      then some ([], s)
      else collected

pub record FlattenedSet : Type 0 where
  pub members : List FlatMember
  pub monotonic : Bool

-- One round of the loop of `flattenSet` over `byRef`.
unfoldable pub keep_nearest : List (Text × FlatMember) → FlatMember → List (Text × FlatMember)
keep_nearest by_ref member =
    let key = format_entity_ref member.ref in
    elim (get key by_ref) [
      | none ↦ put key member by_ref
      | some seen ↦
          if ltb member.depth seen.depth
          then put key (record { ref = seen.ref; depth = member.depth }) by_ref
          else by_ref
    ]

unfoldable pub nearest : List (Text × FlatMember) → List FlatMember → List (Text × FlatMember)
nearest by_ref [] = by_ref
nearest by_ref (member ∷ members) = nearest (keep_nearest by_ref member) members

abbrev pub flattened : Collected → Option FlattenedSet
flattened none = none
flattened (some (members, s)) =
    some (record { members = map (λ e. e.1) (nearest [] members); monotonic = not s.excluded })

unfoldable pub flatten_set : ℕ → EntityRef → Text → EvaluationSnapshot → Option FlattenedSet
flatten_set fuel object relation snapshot =
    flattened
      (collect_members snapshot fuel object relation 0 (record { visited = []; excluded = false }))

abbrev pub members_of : Option FlattenedSet → Option (List FlatMember)
members_of none = none
members_of (some set) = some set.members

unfoldable pub flatten : ℕ → EntityRef → Text → EvaluationSnapshot → Option (List FlatMember)
flatten fuel object relation snapshot = members_of (flatten_set fuel object relation snapshot)

abbrev pub refs_of : Option (List FlatMember) → Option (List EntityRef)
refs_of none = none
refs_of (some members) = some (map (λ m. m.ref) members)

unfoldable pub expand : ℕ → OrgId → EntityRef → Text → EvaluationSnapshot → Option (List EntityRef)
expand fuel org resource relation snapshot =
    let refs = refs_of (flatten fuel resource relation snapshot) in
    if not (org_equals snapshot.tuples.org_id org) then some [] else refs
