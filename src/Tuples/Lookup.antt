-- ===== src/Tuples/Lookup.antt =====
-- What a lookup in the two indexes returns, stated over the lists that they were built from.
use accesscore.Prelude.{
  ℕ, ◌≤◌, ◌≡◌, refl, sym, ap, ◌∙◌, ◌≢◌, inl, inr, Bool, true, ◌&&◌, List, [], ◌∷◌, ◌++◌,
  append_assoc, append-nil, Option, none, some, arith, ltb, if◌then◌else◌, map, select, Text, ◌==◌,
  eq_iff, eq_refl, eq_of_true, get, get-put, Bool-cases, Option-cases, All, Any, All-mono,
  ne_of_false,
}
use accesscore.Refs.{
  OrgId, org_equals, EntityRef, writable_entity_ref, SubjectRef, RelationTuple, node_key,
  ref_equals, format_entity_ref, write_tuple,
}
use accesscore.Refs.Keys.{node_key_injective, format_injective, ref_equals_iff}
use accesscore.Tuples.{
  add_tuple, add_tuples, tuple_index_of, or_empty, subjects_of, IndexedMembership, add_membership,
  add_memberships, memberships_of, depth_of,
}

-- The tuple stands at the node and belongs to the organization.
unfoldable pub at_node : OrgId → EntityRef → Text → RelationTuple → Bool
at_node org object relation t =
    org_equals t.org_id org && (ref_equals t.object object && t.relation == relation)

abbrev at_key : OrgId → Text → RelationTuple → Bool
at_key org key t = org_equals t.org_id org && node_key t.object t.relation == key

module _ (org : OrgId) (key : Text) where
  add_tuple-get :
      (m : List (Text × List SubjectRef)) (t : RelationTuple)
      → or_empty (get key (add_tuple org m t))
        ≡ or_empty (get key m) ++ (if at_key org key t then t.subject_ref ∷ [] else [])
  unfolding add_tuple
  add_tuple-get m t =
      let k = node_key t.object t.relation in
      elim (Option-cases (get k m)) [
        | inl gone ↦ ground (
          arith,
          eq_iff k key,
          get-put k key (t.subject_ref ∷ []) m,
          append-nil (or_empty (get key m)),
        )
        | inr (b, found) ↦ ground (
          arith,
          eq_iff k key,
          get-put k key (b ++ t.subject_ref ∷ []) m,
          append-nil (or_empty (get key m)),
        )
      ]

  add_tuples-get :
      (m : List (Text × List SubjectRef)) (ts : List RelationTuple)
      → or_empty (get key (add_tuples org m ts))
        ≡ or_empty (get key m) ++ map (λ t. t.subject_ref) (select (at_key org key) ts)
  unfolding add_tuples
  add_tuples-get m [] = sym (append-nil (or_empty (get key m)))
  add_tuples-get m (t ∷ ts) = elim (Bool-cases (at_key org key t)) [
    | inl hit ↦
        rw (add_tuples-get (add_tuple org m t) ts, add_tuple-get m t, hit)
          (append_assoc (or_empty (get key m)) (t.subject_ref ∷ []) _)
    | inr miss ↦
        rw (add_tuples-get (add_tuple org m t) ts, add_tuple-get m t, miss) (rw append-nil refl)
  ]

-- The tuples were accepted by `RelationTuple.write`.
abbrev pub AreWritten : List RelationTuple → Type 0
AreWritten ts = All (λ t. write_tuple t ≡ some t) ts

written-object : (t : RelationTuple) → write_tuple t ≡ some t → writable_entity_ref t.object ≡ true
unfolding write_tuple
written-object t h = ground arith

at_key-at_node :
    (org : OrgId) (object : EntityRef) (relation : Text) (t : RelationTuple)
    → write_tuple t ≡ some t
    → writable_entity_ref object ≡ true
    → at_key org (node_key object relation) t ≡ at_node org object relation t
unfolding at_node
at_key-at_node org object relation t w h = ground (
  arith,
  eq_iff (node_key t.object t.relation) (node_key object relation),
  node_key_injective t.object object t.relation relation (written-object t w) h,
  ref_equals_iff t.object object,
  eq_iff t.relation relation,
)

select-at_node :
    (org : OrgId) (object : EntityRef) (relation : Text) (ts : List RelationTuple)
    → AreWritten ts
    → writable_entity_ref object ≡ true
    → select (at_key org (node_key object relation)) ts ≡ select (at_node org object relation) ts
select-at_node org object relation [] w h = refl
select-at_node org object relation (t ∷ ts) (w, ws) h =
    rw (at_key-at_node org object relation t w h, select-at_node org object relation ts ws h) refl

-- The subjects of a node are those of the organization's tuples at that node, in their order:
-- the string keys confuse no two nodes of tuples that `write` accepted.
pub subjects_of_lem :
    (org : OrgId) (tuples : List RelationTuple) (object : EntityRef) (relation : Text)
    → AreWritten tuples
    → writable_entity_ref object ≡ true
    → subjects_of (tuple_index_of org tuples) object relation
      ≡ map (λ t. t.subject_ref) (select (at_node org object relation) tuples)
unfolding subjects_of tuple_index_of get
subjects_of_lem org tuples object relation w h =
    add_tuples-get org (node_key object relation) [] tuples
    ∙ ap (map (λ t. t.subject_ref)) (select-at_node org object relation tuples w h)

-- `found` is the least depth among the memberships of the node; `none` where there is none.
abbrev pub IsLeast : Text → List IndexedMembership → Option ℕ → Type 0
IsLeast key ms none = All (λ m. node_key m.object m.relation ≢ key) ms
IsLeast key ms (some d) =
    Any (λ m. (node_key m.object m.relation ≡ key) × (m.depth ≡ d)) ms
    × All (λ m. node_key m.object m.relation ≡ key → d ≤ m.depth) ms

-- The smaller of two depths that may be missing.
abbrev min_depth : Option ℕ → Option ℕ → Option ℕ
min_depth none b = b
min_depth (some a) none = some a
min_depth (some a) (some b) = if ltb b a then some b else some a

least : Text → List IndexedMembership → Option ℕ
least key [] = none
least key (m ∷ ms) =
    min_depth (if node_key m.object m.relation == key then some m.depth else none) (least key ms)

module _ (key : Text) where
  add_membership-get :
      (ds : List (Text × ℕ)) (m : IndexedMembership)
      → get key (add_membership ds m)
        ≡ min_depth
            (get key ds)
            (if node_key m.object m.relation == key then some m.depth else none)
  unfolding add_membership
  add_membership-get ds m =
      let k = node_key m.object m.relation in ground (arith, eq_iff k key, get-put k key m.depth ds)

  min_depth_assoc : (a b c : Option ℕ) → min_depth (min_depth a b) c ≡ min_depth a (min_depth b c)
  min_depth_assoc a b c = ground arith

  min_depth-none : (a : Option ℕ) → min_depth a none ≡ a
  min_depth-none a = ground arith

  add_memberships-get :
      (ds : List (Text × ℕ)) (ms : List IndexedMembership)
      → get key (add_memberships ds ms) ≡ min_depth (get key ds) (least key ms)
  unfolding add_memberships least
  add_memberships-get ds [] = sym (min_depth-none (get key ds))
  add_memberships-get ds (m ∷ ms) =
      rw (add_memberships-get (add_membership ds m) ms, add_membership-get ds m)
        (min_depth_assoc (get key ds) _ (least key ms))

  IsLeast-miss :
      (m : IndexedMembership) (ms : List IndexedMembership) (o : Option ℕ)
      → node_key m.object m.relation ≢ key
      → IsLeast key ms o
      → IsLeast key (m ∷ ms) o
  IsLeast-miss m ms none ne h = (ne, h)
  IsLeast-miss m ms (some d) ne (p, q) = (inr p, (λ e. absurd (ne e), q))

  IsLeast-hit :
      (m : IndexedMembership) (ms : List IndexedMembership) (o : Option ℕ)
      → node_key m.object m.relation ≡ key
      → IsLeast key ms o
      → IsLeast key (m ∷ ms) (min_depth (some m.depth) o)
  IsLeast-hit m ms none e h =
      (inl (e, refl), (λ _. omega arith, All-mono _ _ ms (λ n ne k. absurd (ne k)) h))
  IsLeast-hit m ms (some d) e (p, q) = elim (Bool-cases (ltb d m.depth)) [
    | inl lower ↦ rw lower (inr p, (λ _. ground arith, q))
    | inr higher ↦ rw higher (
      inl (e, refl),
      (λ _. omega arith, All-mono _ _ ms (λ n k l. let b = k l in ground arith) q),
    )
  ]

  least-IsLeast : (ms : List IndexedMembership) → IsLeast key ms (least key ms)
  unfolding least
  least-IsLeast [] = tt
  least-IsLeast (m ∷ ms) = elim (Bool-cases (node_key m.object m.relation == key)) [
    | inl hit ↦ rw hit (IsLeast-hit m ms (least key ms) (eq_of_true hit) (least-IsLeast ms))
    | inr miss ↦ rw miss (IsLeast-miss m ms (least key ms) (ne_of_false miss) (least-IsLeast ms))
  ]

-- The depth that the index answers for its own member is the least one that it was given for the
-- node, and it answers nothing for another member.
pub depth_of-memberships_of :
    (member other object : EntityRef) (relation : Text) (ms : List IndexedMembership)
    → writable_entity_ref member ≡ true
    → writable_entity_ref other ≡ true
    → (member ≡ other
        → IsLeast
            (node_key object relation)
            ms
            (depth_of (memberships_of member ms) object relation other))
      × (member ≢ other → depth_of (memberships_of member ms) object relation other ≡ none)
unfolding depth_of memberships_of get
depth_of-memberships_of member other object relation ms w w' = (own, foreign)
  where
    key : Text
    key = node_key object relation

    own :
        member ≡ other → IsLeast key ms (depth_of (memberships_of member ms) object relation other)
    own e =
        rw (← e, eq_refl (format_entity_ref member), add_memberships-get key [] ms)
          (least-IsLeast key ms)

    foreign : member ≢ other → depth_of (memberships_of member ms) object relation other ≡ none
    foreign ne = ground (
      arith,
      eq_iff (format_entity_ref member) (format_entity_ref other),
      format_injective member other w w',
    )
