-- ===== src/Closure/Fetched.antt =====
-- What the maps of a transaction's context hold (pdp-service.ts: `cachedNamespace`,
-- `indexedMemberships`, `rowsOf`): each entry is what the database answers for its key, and the reads
-- keep this.
use accesscore.Prelude.{
  ◌≡◌, refl, true, List, Option, none, some, Text, get, get-All, put-All, All, Free, cut_unique,
}
use accesscore.Refs.{
  OrgId, EntityRef, RelationTuple, node_key, writable_entity_ref, format_entity_ref,
}
use accesscore.Refs.Keys.{node_key_injective}
use accesscore.Tuples.{IndexedMemberships}
use accesscore.Namespaces.{NamespaceDefinition}
use accesscore.Closure.{
  Database, Context, org_key, cached_namespace, indexed_memberships, loaded_rows, or_rows,
  or_namespace, or_view,
}

-- The id of an organization has no colon, as a UUID.
abbrev pub IsPlain : OrgId → Type 0
IsPlain org_id = Free b':' org_id.value

org_key_injective :
    (a b : OrgId) (s t : Text)
    → IsPlain a
    → IsPlain b
    → org_key a s ≡ org_key b t
    → (a ≡ b) × (s ≡ t)
org_key_injective a b s t ha hb e =
    let (same, rest) = cut_unique b':' a.value b.value s t ha hb e in
    ((λ i. record { value = same i }), rest)

module _ (db : Database) where
  -- The rows of a node, under its key behind `prefix`.
  abbrev pub RowsEntry : Text × List RelationTuple → Type 0
  RowsEntry e =
      (org : OrgId) × IsPlain org
      × (o : EntityRef) × (r : Text) × (writable_entity_ref o ≡ true)
      × (e.0 ≡ org_key org (node_key o r))
      × (e.1 ≡ db.list_by_object org o r)

  abbrev pub NamespaceEntry : Text × Option NamespaceDefinition → Type 0
  NamespaceEntry e =
      (org : OrgId) × IsPlain org
      × (type : Text) × (e.0 ≡ org_key org type)
      × (e.1 ≡ db.find_by_namespace org type)

  pub record IsFaithful (context : Context) : Type 0 where
    pub rows : All RowsEntry context.tuples
    pub found : All NamespaceEntry context.namespaces

  module _ (org : OrgId) (plain : IsPlain org) where
    same_rows :
        (o : EntityRef) (r : Text) (rows : List RelationTuple)
        → writable_entity_ref o ≡ true
        → RowsEntry (org_key org (node_key o r), rows)
        → rows ≡ db.list_by_object org o r
    same_rows o r rows w (org', plain', o', r', w', e, h) =
        let (same_org, node) =
          org_key_injective org org' (node_key o r) (node_key o' r') plain plain' e in
        let (same_o, same_r) = node_key_injective o o' r r' w w' node in
        cc (h, same_org, same_o, same_r)

    or_rows_lem :
        (cached : Option (List RelationTuple)) (o : EntityRef) (r : Text) (context : Context)
        → writable_entity_ref o ≡ true
        → IsFaithful context
        → get (org_key org (node_key o r)) context.tuples ≡ cached
        → let read =
            or_rows cached (org_key org (node_key o r)) (db.list_by_object org o r) context in
          (read.0 ≡ db.list_by_object org o r) × IsFaithful read.1
    or_rows_lem (some rows) o r context w h there = (
      same_rows o r rows w
          (get-All RowsEntry (org_key org (node_key o r)) rows context.tuples h.rows there),
      h,
    )
    or_rows_lem none o r context w h missing = (
      refl,
      record {
        rows =
            put-All RowsEntry (org_key org (node_key o r)) (db.list_by_object org o r)
              context.tuples (org, plain, o, r, w, refl, refl) h.rows;
        found = h.found;
      },
    )

    pub loaded_rows_lem :
        (member : Option EntityRef) (o : EntityRef) (r : Text) (context : Context)
        → writable_entity_ref o ≡ true
        → IsFaithful context
        → ((loaded_rows db org member o r context).0 ≡ db.list_by_object org o r)
          × IsFaithful (loaded_rows db org member o r context).1
    unfolding loaded_rows
    loaded_rows_lem member o r context w h =
        or_rows_lem (get (org_key org (node_key o r)) context.tuples) o r context w h refl

    same_namespace :
        (type : Text) (found : Option NamespaceDefinition)
        → NamespaceEntry (org_key org type, found)
        → found ≡ db.find_by_namespace org type
    same_namespace type found (org', plain', type', e, h) =
        let (same_org, same_type) = org_key_injective org org' type type' plain plain' e in
        cc (h, same_org, same_type)

    or_namespace_lem :
        (cached : Option (Option NamespaceDefinition)) (type : Text) (context : Context)
        → IsFaithful context
        → get (org_key org type) context.namespaces ≡ cached
        → let read =
            or_namespace cached (org_key org type) (db.find_by_namespace org type) context in
          (read.0 ≡ db.find_by_namespace org type) × IsFaithful read.1
    or_namespace_lem (some found) type context h there = (
      same_namespace type found
          (get-All NamespaceEntry (org_key org type) found context.namespaces h.found there),
      h,
    )
    or_namespace_lem none type context h missing = (
      refl,
      record {
        rows = h.rows;
        found =
            put-All NamespaceEntry (org_key org type) (db.find_by_namespace org type)
              context.namespaces (org, plain, type, refl, refl) h.found;
      },
    )

    pub cached_namespace_lem :
        (type : Text) (context : Context)
        → IsFaithful context
        → ((cached_namespace db org type context).0 ≡ db.find_by_namespace org type)
          × IsFaithful (cached_namespace db org type context).1
    unfolding cached_namespace
    cached_namespace_lem type context h =
        or_namespace_lem (get (org_key org type) context.namespaces) type context h refl

  or_view-IsFaithful :
      (cached : Option IndexedMemberships) (key : Text) (view : IndexedMemberships)
      (context : Context)
      → IsFaithful context
      → IsFaithful (or_view cached key view context).1
  or_view-IsFaithful (some _) key view context h = h
  or_view-IsFaithful none key view context h = record { rows = h.rows; found = h.found }

  pub indexed_memberships-IsFaithful :
      (org : OrgId) (member : EntityRef) (context : Context)
      → IsFaithful context
      → IsFaithful (indexed_memberships db org member context).1
  unfolding indexed_memberships
  indexed_memberships-IsFaithful org member context h =
      or_view-IsFaithful (get (org_key org (format_entity_ref member)) context.memberships) _ _
        context h
