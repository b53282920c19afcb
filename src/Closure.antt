-- ===== src/Closure.antt =====
-- The gathering of what a decision reads (apps/api/src/authz/application/pdp-service.ts:
-- `openContext`, `cachedNamespace`, `indexedMemberships`, `loadClosure`). The repositories are a
-- `Database`, what they answer within one transaction; the maps that the callbacks share are
-- passed on as a state.
pub mod Fetched
pub mod Gathered
pub mod Steps
pub mod Ends
pub mod Parts
pub mod Whole
mod Tests
use accesscore.Prelude.{
  ℕ, zero, suc, ◌+◌, Bool, true, false, ◌||◌, List, [], ◌∷◌, ◌++◌, Option, none, some, ltb, leb,
  if◌then◌else◌, select, map, Text, has, get, put,
}
use accesscore.Refs.{
  OrgId, Revision, is_at_least, EntityRef, SubjectRef, subject, userset, RelationTuple, node_key,
  format_entity_ref,
}
use accesscore.Usersets.{
  Userset, Usersets, this, computed_userset, tuple_to_userset, union, intersection, exclusion,
  no_child, child, direct_userset,
}
use accesscore.Tuples.{
  tuple_index_of, IndexedMembership, IndexedMemberships, no_memberships, memberships_of, depth_of,
}
use accesscore.Namespaces.{NamespaceDefinition, config_rewrites_for, registry_of}
use accesscore.Evaluate.{max_userset_depth, EvaluationSnapshot}

-- domain/ports/membership-index.ts
pub record MembershipHit : Type 0 where
  pub object : EntityRef
  pub relation : Text
  pub depth : ℕ
  pub valid_at_revision : Revision

-- `findByNamespace`, `listByObject`, `membershipsOf`, `organizationVersion`, `revisions.current`.
pub record Database : Type 0 where
  pub find_by_namespace : OrgId → Text → Option NamespaceDefinition
  pub list_by_object : OrgId → EntityRef → Text → List RelationTuple
  pub hits_of : OrgId → EntityRef → List MembershipHit
  pub organization_version : OrgId → Revision
  pub current : Revision

-- `EvaluationContext`, shared by the requests of a batch.
pub record Context : Type 0 where
  pub revision_used : Revision
  pub namespaces : List (Text × Option NamespaceDefinition)
  pub tuples : List (Text × List RelationTuple)
  pub memberships : List (Text × IndexedMemberships)

abbrev pub open_context : Database → Context
open_context db = record {
  revision_used = db.current;
  namespaces = [];
  tuples = [];
  memberships = [];
}

abbrev pub org_key : OrgId → Text → Text
org_key org_id name = org_id.value ++ b':' ∷ name

abbrev pub or_namespace :
    Option (Option NamespaceDefinition)
    → Text
    → Option NamespaceDefinition
    → Context
    → Option NamespaceDefinition × Context
or_namespace (some cached) key found context = (cached, context)
or_namespace none key found context =
    (found, record context { namespaces = put key found context.namespaces })

unfoldable pub cached_namespace :
    Database → OrgId → Text → Context → Option NamespaceDefinition × Context
cached_namespace db org_id type context =
    or_namespace (get (org_key org_id type) context.namespaces) (org_key org_id type)
      (db.find_by_namespace org_id type) context

abbrev pub is_no_hit : List MembershipHit → Bool
is_no_hit [] = true
is_no_hit (_ ∷ _) = false

abbrev pub membership_of : MembershipHit → IndexedMembership
membership_of hit = record { object = hit.object; relation = hit.relation; depth = hit.depth }

unfoldable pub view_of : Database → OrgId → EntityRef → IndexedMemberships
view_of db org_id member =
    let hits = db.hits_of org_id member in
    if is_no_hit hits
    then no_memberships
    else memberships_of member (
        map membership_of
          (select (λ hit. is_at_least hit.valid_at_revision (db.organization_version org_id)) hits))

abbrev pub or_view :
    Option IndexedMemberships → Text → IndexedMemberships → Context → IndexedMemberships × Context
or_view (some cached) key view context = (cached, context)
or_view none key view context =
    (view, record context { memberships = put key view context.memberships })

unfoldable pub indexed_memberships :
    Database → OrgId → EntityRef → Context → IndexedMemberships × Context
indexed_memberships db org_id member context =
    let key = org_key org_id (format_entity_ref member) in
    or_view (get key context.memberships) key (view_of db org_id member) context

-- The variables of `loadClosure`.
pub record Gathering : Type 0 where
  pub local : List (Text × List RelationTuple)
  pub walked : List Text
  pub reached : List (Text × NamespaceDefinition)
  pub memberships : Option IndexedMemberships
  pub context : Context

abbrev pub Walk : Type 0
Walk = EntityRef → Text → ℕ → Gathering → Option Gathering

infixl 5 ◌>>=◌
abbrev ◌>>=◌ : Option Gathering → (Gathering → Option Gathering) → Option Gathering
none >>= f = none
some g >>= f = f g

abbrev pub rewrite_of : Option NamespaceDefinition → Text → Userset
rewrite_of none relation = direct_userset
rewrite_of (some definition) relation = config_rewrites_for definition.config relation

abbrev pub reach :
    Text
    → Option NamespaceDefinition
    → List (Text × NamespaceDefinition)
    → List (Text × NamespaceDefinition)
reach type none reached = reached
reach type (some namespace) reached = put type namespace reached

abbrev pub in_bound : ℕ → Option ℕ → Bool
in_bound depth none = false
in_bound depth (some indexed) = leb (depth + indexed) max_userset_depth

abbrev pub or_loaded_view :
    Option IndexedMemberships
    → IndexedMemberships × Context
    → Gathering
    → IndexedMemberships × Gathering
or_loaded_view (some view) loaded g = (view, g)
or_loaded_view none loaded g =
    (loaded.0, record g { memberships = some loaded.0; context = loaded.1 })

abbrev pub or_rows :
    Option (List RelationTuple) → Text → List RelationTuple → Context → List RelationTuple × Context
or_rows (some loaded) key fresh context = (loaded, context)
or_rows none key fresh context = (fresh, record context { tuples = put key fresh context.tuples })

abbrev pub or_loaded_rows :
    Option (List RelationTuple)
    → Text
    → List RelationTuple × Context
    → Gathering
    → List RelationTuple × Gathering
or_loaded_rows (some rows) node loaded g = (rows, g)
or_loaded_rows none node loaded g =
    (loaded.0, record g { local = put node loaded.0 g.local; context = loaded.1 })

module _ (db : Database) (org_id : OrgId) (member : Option EntityRef) where
  -- `memberships ??= …`
  unfoldable pub own_memberships : EntityRef → Gathering → IndexedMemberships × Gathering
  own_memberships who g =
      or_loaded_view g.memberships (indexed_memberships db org_id who g.context) g

  abbrev pub granted_to : Option EntityRef → EntityRef → Text → ℕ → Gathering → Bool × Gathering
  granted_to none set relation depth g = (false, g)
  granted_to (some who) set relation depth g =
      let own = own_memberships who g in (in_bound depth (depth_of own.0 set relation who), own.1)

  unfoldable pub indexed_grant : EntityRef → Text → ℕ → Gathering → Bool × Gathering
  indexed_grant set relation depth g = granted_to member set relation depth g

  unfoldable pub namespace_of : Text → Gathering → Option NamespaceDefinition × Gathering
  namespace_of type g =
      let found = cached_namespace db org_id type g.context in
      (found.0, record g { reached = reach type found.0 g.reached; context = found.1 })

  -- The read through the context's map.
  unfoldable pub loaded_rows : EntityRef → Text → Context → List RelationTuple × Context
  loaded_rows object relation context =
      let key = org_key org_id (node_key object relation) in
      or_rows (get key context.tuples) key (db.list_by_object org_id object relation) context

  unfoldable pub rows_of : EntityRef → Text → Gathering → List RelationTuple × Gathering
  rows_of object relation g =
      let node = node_key object relation in
      or_loaded_rows (get node g.local) node (loaded_rows object relation g.context) g

  unfoldable pub walk_set : Walk → ℕ → SubjectRef → Gathering → Option Gathering
  walk_set walk depth (subject _) g = some g
  walk_set walk depth (userset ref relation) g =
      let granted = indexed_grant ref relation (depth + 1) g in
      if granted.0 then some granted.1 else walk ref relation (depth + 1) granted.1

  -- The loop of the case `this`.
  unfoldable pub walk_sets : Walk → ℕ → List RelationTuple → Gathering → Option Gathering
  walk_sets walk depth [] g = some g
  walk_sets walk depth (tuple ∷ tuples) g =
      walk_set walk depth tuple.subject_ref g >>= λ g'. walk_sets walk depth tuples g'

  unfoldable pub walk_parent : Walk → Text → ℕ → SubjectRef → Gathering → Option Gathering
  walk_parent walk computed depth (subject ref) g = walk ref computed (depth + 1) g
  walk_parent walk computed depth (userset _ _) g = some g

  -- The loop of the case `tupleToUserset`.
  unfoldable pub walk_up : Walk → Text → ℕ → List RelationTuple → Gathering → Option Gathering
  walk_up walk computed depth [] g = some g
  walk_up walk computed depth (tuple ∷ tuples) g =
      walk_parent walk computed depth tuple.subject_ref g >>= λ g'.
      walk_up walk computed depth tuples g'

  unfoldable mutual
    pub walk_rewrite :
        Walk → EntityRef → Userset → List RelationTuple → ℕ → Gathering → Option Gathering
    walk_rewrite walk object this node depth g = walk_sets walk depth node g
    walk_rewrite walk object (computed_userset relation) node depth g = walk object relation depth g
    walk_rewrite walk object (tuple_to_userset tupleset computed) node depth g =
        let rows = rows_of object tupleset g in walk_up walk computed depth rows.0 rows.1
    walk_rewrite walk object (union children) node depth g =
        walk_every walk object children node depth g
    walk_rewrite walk object (intersection children) node depth g =
        walk_every walk object children node depth g
    walk_rewrite walk object (exclusion base subtract) node depth g =
        walk_rewrite walk object base node depth g >>= λ g'.
        walk_rewrite walk object subtract node depth g'

    pub walk_every :
        Walk → EntityRef → Usersets → List RelationTuple → ℕ → Gathering → Option Gathering
    walk_every walk object no_child node depth g = some g
    walk_every walk object (child c cs) node depth g =
        walk_rewrite walk object c node depth g >>= λ g'. walk_every walk object cs node depth g'

  -- A node that is not skipped.
  unfoldable pub enter_node : Walk → EntityRef → Text → ℕ → Gathering → Option Gathering
  enter_node walk object relation depth g =
      let rows =
        rows_of object relation (record g { walked = node_key object relation ∷ g.walked }) in
      let found = namespace_of object.type rows.1 in
      walk_rewrite walk object (rewrite_of found.0 relation) rows.0 depth found.1

  -- `none` is fuel run out.
  unfoldable pub walk_node : ℕ → Walk
  walk_node zero object relation depth g = none
  walk_node (suc fuel) object relation depth g =
      let entered = enter_node (walk_node fuel) object relation depth g in
      if has g.walked (node_key object relation) || ltb max_userset_depth depth
      then some g
      else entered

  unfoldable pub walk_relations : ℕ → EntityRef → List Text → Gathering → Option Gathering
  walk_relations fuel resource [] g = some g
  walk_relations fuel resource (relation ∷ relations) g =
      walk_node fuel resource relation 0 g >>= λ g'. walk_relations fuel resource relations g'

abbrev pub start_gathering : Context → Gathering
start_gathering context = record {
  local = [];
  walked = [];
  reached = [];
  memberships = none;
  context = context;
}

unfoldable pub concat_rows : List (Text × List RelationTuple) → List RelationTuple
concat_rows [] = []
concat_rows ((_, rows) ∷ local) = rows ++ concat_rows local

abbrev pub snapshot_from : OrgId → Gathering → EvaluationSnapshot
snapshot_from org_id g = record {
  namespaces = registry_of (map (λ e. e.1) g.reached);
  tuples = tuple_index_of org_id (concat_rows g.local);
  memberships = g.memberships;
}

abbrev pub gathered : OrgId → Option Gathering → Option (EvaluationSnapshot × Context)
gathered org_id none = none
gathered org_id (some g) = some (snapshot_from org_id g, g.context)

unfoldable pub load_closure :
    ℕ
    → Database
    → OrgId
    → EntityRef
    → List Text
    → Option EntityRef
    → Context
    → Option (EvaluationSnapshot × Context)
load_closure fuel db org_id resource relations member context = gathered org_id (
    walk_relations db org_id member fuel resource relations
      (namespace_of db org_id member resource.type (start_gathering context)).1)
