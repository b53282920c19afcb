-- ===== src/Closure/Steps.antt =====
-- The loops of `loadClosure` over the rows of a node (pdp-service.ts): each returns and keeps what
-- the maps hold, where the walks that it starts do.
use accesscore.Prelude.{
  ℕ, ◌+◌, ◌≤◌, ◌<◌, ◌≡◌, inl, inr, Bool, true, List, [], ◌∷◌, Option, none, some, arith, select,
  Text, Bool-cases, All,
}
use mathlib.Core.List.{Memᴰ}
use accesscore.Refs.{
  OrgId, EntityRef, SubjectRef, subject, userset, RelationTuple, writable_entity_ref,
  writable_subject, write_tuple,
}
use accesscore.Usersets.{computed_userset_targets}
use accesscore.Tuples.Lookup.{at_node, AreWritten}
use accesscore.Evaluate.Meaning.{ref_of}
use accesscore.Closure.{
  Database, Gathering, Walk, rewrite_of, walk_set, walk_sets, walk_parent, walk_up, indexed_grant,
  ◌>>=◌,
}
use accesscore.Closure.Fetched.{IsPlain}
use accesscore.Closure.Gathered.{IsFetched, Keeps, indexed_grant-IsFetched}

-- In every namespace the computed usersets of a relation have a smaller height than the relation.
pub record IsLayered (db : Database) (org : OrgId) : Type 0 where
  pub height : Text → Text → ℕ
  pub bound : ℕ
  pub height_le : (type relation : Text) → height type relation ≤ bound
  pub falls :
      (type relation t : Text)
      → Memᴰ t (computed_userset_targets (rewrite_of (db.find_by_namespace org type) relation))
      → height type t < height type relation

-- `listByObject` selects from one table, whose rows `RelationTuple.write` accepted.
pub record IsStore (db : Database) (org : OrgId) (stored : List RelationTuple) : Type 0 where
  pub selects :
      (o : EntityRef) (r : Text) → db.list_by_object org o r ≡ select (at_node org o r) stored
  pub written : AreWritten stored

pub written-ref :
    (t : RelationTuple) → write_tuple t ≡ some t → writable_entity_ref (ref_of t.subject_ref) ≡ true
unfolding write_tuple writable_subject
written-ref t h = ref_lem t.subject_ref (elim (Bool-cases (writable_subject t.subject_ref)) [
  | inl good ↦ good
  | inr bad ↦ absurd (ground arith)
])
  where
    ref_lem : (s : SubjectRef) → writable_subject s ≡ true → writable_entity_ref (ref_of s) ≡ true
    ref_lem (subject ref) e = e
    ref_lem (userset ref r) e = ground arith

abbrev pub HasWritableSubjects : List RelationTuple → Type 0
HasWritableSubjects rows = All (λ t. writable_entity_ref (ref_of t.subject_ref) ≡ true) rows

pub select-HasWritableSubjects :
    (p : RelationTuple → Bool) (ts : List RelationTuple)
    → AreWritten ts
    → HasWritableSubjects (select p ts)
select-HasWritableSubjects p [] h = tt
select-HasWritableSubjects p (t ∷ ts) (w, ws) = elim (Bool-cases (p t)) [
  | inl chosen ↦ rw chosen (written-ref t w, select-HasWritableSubjects p ts ws)
  | inr out ↦ rw out (select-HasWritableSubjects p ts ws)
]

module _ (db : Database) (org : OrgId) (plain : IsPlain org) where
  -- A walk returns, and keeps what the maps hold.
  abbrev pub Good : Gathering → Option Gathering → Type 0
  Good g none = ⊥
  Good g (some g') = IsFetched db org plain none g' × Keeps db org plain g g'

  pub Good-from :
      (g g' : Gathering) (w : Option Gathering) → Keeps db org plain g g' → Good g' w → Good g w
  Good-from g g' none k h = h
  Good-from g g' (some g'') k (f, k') = (f, λ t s. k' t (k t s))

  pub Good-bind :
      (g : Gathering) (w : Option Gathering) (f : Gathering → Option Gathering)
      → Good g w
      → ((g' : Gathering)
          → IsFetched db org plain none g'
          → Keeps db org plain g g'
          → Good g' (f g'))
      → Good g (w >>= f)
  Good-bind g none f h k = h
  Good-bind g (some g') f (h, keeps) k = Good-from g g' (f g') keeps (k g' h keeps)

  abbrev pub Deeper : Walk → ℕ → Type 0
  Deeper walk depth =
      (o : EntityRef) (r : Text) (g : Gathering)
      → writable_entity_ref o ≡ true
      → IsFetched db org plain none g
      → Good g (walk o r (depth + 1) g)

  abbrev pub Level : Walk → EntityRef → ℕ → List Text → Type 0
  Level walk o depth targets =
      (t : Text) (g : Gathering)
      → Memᴰ t targets
      → IsFetched db org plain none g
      → Good g (walk o t depth g)

  module _ (member : Option EntityRef) where
    walk_set_lem :
        (walk : Walk) (depth : ℕ) (s : SubjectRef) (g : Gathering)
        → writable_entity_ref (ref_of s) ≡ true
        → Deeper walk depth
        → IsFetched db org plain none g
        → Good g (walk_set db org member walk depth s g)
    unfolding walk_set
    walk_set_lem walk depth (subject _) g w deeper h = (h, λ t k. k)
    walk_set_lem walk depth (userset ref r) g w deeper h =
        let read = indexed_grant db org member ref r (depth + 1) g in
        let (h', k) = indexed_grant-IsFetched db org plain member ref r (depth + 1) g h in
        elim (Bool-cases read.0) [
          | inl granted ↦ rw granted (h', k)
          | inr missed ↦ rw missed (Good-from g read.1 _ k (deeper ref r read.1 w h'))
        ]

    pub walk_sets_lem :
        (walk : Walk) (depth : ℕ) (rows : List RelationTuple) (g : Gathering)
        → HasWritableSubjects rows
        → Deeper walk depth
        → IsFetched db org plain none g
        → Good g (walk_sets db org member walk depth rows g)
    unfolding walk_sets
    walk_sets_lem walk depth [] g w deeper h = (h, λ t k. k)
    walk_sets_lem walk depth (t ∷ ts) g (w, ws) deeper h =
        Good-bind g (walk_set db org member walk depth t.subject_ref g) _
          (walk_set_lem walk depth t.subject_ref g w deeper h)
          (λ g' h' k. walk_sets_lem walk depth ts g' ws deeper h')

    walk_parent_lem :
        (walk : Walk) (computed : Text) (depth : ℕ) (s : SubjectRef) (g : Gathering)
        → writable_entity_ref (ref_of s) ≡ true
        → Deeper walk depth
        → IsFetched db org plain none g
        → Good g (walk_parent db org member walk computed depth s g)
    unfolding walk_parent
    walk_parent_lem walk computed depth (subject ref) g w deeper h = deeper ref computed g w h
    walk_parent_lem walk computed depth (userset _ _) g w deeper h = (h, λ t k. k)

    pub walk_up_lem :
        (walk : Walk) (computed : Text) (depth : ℕ) (rows : List RelationTuple) (g : Gathering)
        → HasWritableSubjects rows
        → Deeper walk depth
        → IsFetched db org plain none g
        → Good g (walk_up db org member walk computed depth rows g)
    unfolding walk_up
    walk_up_lem walk computed depth [] g w deeper h = (h, λ t k. k)
    walk_up_lem walk computed depth (t ∷ ts) g (w, ws) deeper h =
        Good-bind g (walk_parent db org member walk computed depth t.subject_ref g) _
          (walk_parent_lem walk computed depth t.subject_ref g w deeper h)
          (λ g' h' k. walk_up_lem walk computed depth ts g' ws deeper h')
