-- ===== src/Closure/Gathered.antt =====
-- What the variables of `loadClosure` hold (pdp-service.ts): the rows of a node are those of the
-- database, once the type of its object is settled, and the reads keep this.
use accesscore.Prelude.{
  ℕ, ◌⊎◌, ◌≡◌, refl, sym, ◌∙◌, subst, inl, inr, true, List, Option, none, some, arith, Text, eq_iff,
  get, get-put, get-put_self, get-All, put-All, All, All-mono, Option-cases,
}
use accesscore.Refs.{OrgId, EntityRef, RelationTuple, node_key, writable_entity_ref}
use accesscore.Refs.Keys.{node_key_injective}
use accesscore.Tuples.{IndexedMemberships}
use accesscore.Namespaces.{NamespaceDefinition}
use accesscore.Closure.{
  Database, Context, cached_namespace, indexed_memberships, Gathering, reach, own_memberships,
  indexed_grant, namespace_of, loaded_rows, rows_of, or_loaded_view, or_loaded_rows, granted_to,
}
use accesscore.Closure.Fetched.{
  IsPlain, IsFaithful, loaded_rows_lem, cached_namespace_lem, indexed_memberships-IsFaithful,
}

-- The variables of a gathering for the organization.
module _ (db : Database) (org : OrgId) (plain : IsPlain org) where
  -- The type is settled: what was reached of it is what the database has.
  abbrev pub IsSettled : Gathering → Text → Type 0
  IsSettled g type = get type g.reached ≡ db.find_by_namespace org type

  -- The rows of a node whose type is settled, or pending.
  abbrev pub NodeEntry : Option Text → Gathering → Text × List RelationTuple → Type 0
  NodeEntry pending g e =
      (o : EntityRef) × (r : Text) × (writable_entity_ref o ≡ true)
      × (e.0 ≡ node_key o r)
      × (e.1 ≡ db.list_by_object org o r)
      × ((some o.type ≡ pending) ⊎ IsSettled g o.type)

  abbrev pub ReachedEntry : Text × NamespaceDefinition → Type 0
  ReachedEntry e = db.find_by_namespace org e.0 ≡ some e.1

  pub record IsFetched (pending : Option Text) (g : Gathering) : Type 0 where
    pub context : IsFaithful db g.context
    pub local : All (NodeEntry pending g) g.local
    pub reached : All ReachedEntry g.reached

  -- What was settled stays so.
  abbrev pub Keeps : Gathering → Gathering → Type 0
  Keeps g g' = (type : Text) → IsSettled g type → IsSettled g' type

  NodeEntry-mono :
      (pending pending' : Option Text) (g g' : Gathering)
      → Keeps g g'
      → ((type : Text) → some type ≡ pending → (some type ≡ pending') ⊎ IsSettled g' type)
      → (e : Text × List RelationTuple) → NodeEntry pending g e
      → NodeEntry pending' g' e
  NodeEntry-mono pending pending' g g' k c e (o, r, w, key, rows, inr settled) =
      (o, r, w, key, rows, inr (k o.type settled))
  NodeEntry-mono pending pending' g g' k c e (o, r, w, key, rows, inl waits) =
      (o, r, w, key, rows, c o.type waits)

  reach_lem :
      (type : Text) (found : Option NamespaceDefinition)
      (reached : List (Text × NamespaceDefinition))
      → found ≡ db.find_by_namespace org type
      → All ReachedEntry reached
      → All ReachedEntry (reach type found reached)
        × ((t : Text)
            → get t reached ≡ db.find_by_namespace org t
            → get t (reach type found reached) ≡ db.find_by_namespace org t)
  reach_lem type none reached e h = (h, λ t k. k)
  reach_lem type (some d) reached e h = (
    put-All ReachedEntry type d reached (sym e) h,
    λ t k. ground (arith, eq_iff type t, get-put type t d reached),
  )

  reach-settled :
      (type : Text) (found : Option NamespaceDefinition)
      (reached : List (Text × NamespaceDefinition))
      → found ≡ db.find_by_namespace org type
      → All ReachedEntry reached
      → get type (reach type found reached) ≡ db.find_by_namespace org type
  reach-settled type none reached e h = elim (Option-cases (get type reached)) [
    | inl gone ↦ gone ∙ e
    | inr (d, there) ↦ absurd (cc (e, get-All ReachedEntry type d reached h there))
  ]
  reach-settled type (some d) reached e h = get-put_self type d reached ∙ e

  -- It settles the type, which alone may be pending.
  pub namespace_of_lem :
      (member : Option EntityRef) (pending : Option Text) (type : Text) (g : Gathering)
      → ((t : Text) → some t ≡ pending → t ≡ type)
      → IsFetched pending g
      → let read = namespace_of db org member type g in
        (read.0 ≡ db.find_by_namespace org type)
        × IsFetched none read.1
        × Keeps g read.1
        × IsSettled read.1 type
  unfolding namespace_of
  namespace_of_lem member pending type g only h =
      let (same, faithful) = cached_namespace_lem db org plain type g.context h.context in
      let found = (cached_namespace db org type g.context).0 in
      let (reached, keeps) = reach_lem type found g.reached same h.reached in
      let settled = reach-settled type found g.reached same h.reached in
      let g' = (namespace_of db org member type g).1 in
      (
        same,
        record {
          context = faithful;
          local =
              All-mono (NodeEntry pending g) (NodeEntry none g') g.local
                (NodeEntry-mono pending none g g' keeps
                  (λ t e. inr (subst (IsSettled g') (sym (only t e)) settled)))
                h.local;
          reached = reached;
        },
        keeps,
        settled,
      )

  or_loaded_rows_lem :
      (member : Option EntityRef) (pending : Option Text) (cached : Option (List RelationTuple))
      (o : EntityRef) (r : Text) (g : Gathering)
      → writable_entity_ref o ≡ true
      → (some o.type ≡ pending) ⊎ IsSettled g o.type
      → IsFetched none g
      → get (node_key o r) g.local ≡ cached
      → let read =
          or_loaded_rows cached (node_key o r) (loaded_rows db org member o r g.context) g in
        (read.0 ≡ db.list_by_object org o r) × IsFetched pending read.1 × Keeps g read.1
  or_loaded_rows_lem member pending (some rows) o r g w p h there = (
    same (get-All (NodeEntry none g) (node_key o r) rows g.local h.local there),
    record {
      context = h.context;
      local =
          All-mono (NodeEntry none g) (NodeEntry pending g) g.local
            (NodeEntry-mono none pending g g (λ t k. k) (λ t e. absurd (cc e))) h.local;
      reached = h.reached;
    },
    λ t k. k,
  )
    where
      same : NodeEntry none g (node_key o r, rows) → rows ≡ db.list_by_object org o r
      same (o', r', w', key, e, _) =
          let (same_o, same_r) = node_key_injective o o' r r' w w' key in cc (e, same_o, same_r)
  or_loaded_rows_lem member pending none o r g w p h missing =
      let (same, faithful) = loaded_rows_lem db org plain member o r g.context w h.context in
      let loaded = loaded_rows db org member o r g.context in
      let g' = (or_loaded_rows none (node_key o r) loaded g).1 in
      (
        same,
        record {
          context = faithful;
          local =
              put-All (NodeEntry pending g') (node_key o r) loaded.0 g.local
                (o, r, w, refl, same, p)
                (All-mono (NodeEntry none g) (NodeEntry pending g') g.local
                  (NodeEntry-mono none pending g g' (λ t k. k) (λ t e. absurd (cc e))) h.local);
          reached = h.reached;
        },
        λ t k. k,
      )

  pub rows_of_lem :
      (member : Option EntityRef) (pending : Option Text) (o : EntityRef) (r : Text) (g : Gathering)
      → writable_entity_ref o ≡ true
      → (some o.type ≡ pending) ⊎ IsSettled g o.type
      → IsFetched none g
      → let read = rows_of db org member o r g in
        (read.0 ≡ db.list_by_object org o r) × IsFetched pending read.1 × Keeps g read.1
  unfolding rows_of
  rows_of_lem member pending o r g w p h =
      or_loaded_rows_lem member pending (get (node_key o r) g.local) o r g w p h refl

  -- The other variables do not matter.
  pub IsFetched-walked :
      (g : Gathering) (walked : List Text)
      → IsFetched none g
      → IsFetched none (record g { walked = walked })
  IsFetched-walked g walked h = record { context = h.context; local = h.local; reached = h.reached }

  or_loaded_view-IsFetched :
      (cached : Option IndexedMemberships) (loaded : IndexedMemberships × Context) (g : Gathering)
      → IsFaithful db loaded.1
      → IsFetched none g
      → IsFetched none (or_loaded_view cached loaded g).1
        × Keeps g (or_loaded_view cached loaded g).1
  or_loaded_view-IsFetched (some view) loaded g f h = (h, λ t k. k)
  or_loaded_view-IsFetched none loaded g f h =
      (record { context = f; local = h.local; reached = h.reached }, λ t k. k)

  granted_to-IsFetched :
      (members member : Option EntityRef) (set : EntityRef) (relation : Text) (depth : ℕ)
      (g : Gathering)
      → IsFetched none g
      → let read = granted_to db org members member set relation depth g in
        IsFetched none read.1 × Keeps g read.1
  unfolding own_memberships
  granted_to-IsFetched members none set relation depth g h = (h, λ t k. k)
  granted_to-IsFetched members (some who) set relation depth g h =
      or_loaded_view-IsFetched g.memberships (indexed_memberships db org who g.context) g
        (indexed_memberships-IsFaithful db org who g.context h.context) h

  pub indexed_grant-IsFetched :
      (member : Option EntityRef) (set : EntityRef) (relation : Text) (depth : ℕ) (g : Gathering)
      → IsFetched none g
      → let read = indexed_grant db org member set relation depth g in
        IsFetched none read.1 × Keeps g read.1
  unfolding indexed_grant
  indexed_grant-IsFetched member set relation depth g h =
      granted_to-IsFetched member member set relation depth g h
