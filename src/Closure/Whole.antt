-- ===== src/Closure/Whole.antt =====
-- What the tuples of a gathered snapshot give, those of the whole store give, where no rewrite
-- subtracts
-- (pdp-service.ts: `loadClosure`). With subtraction it does not: see the runs beside this module.
use accesscore.Prelude.{
  ℕ, ◌≤◌, ◌≡◌, refl, sym, ap, ◌∙◌, subst, ◌≢◌, ◌⊎◌, inl, inr, true, List, [], Option, none, some,
  arith, Text, get, get-All, Option-cases,
}
use mathlib.Core.List.{Memᴰ}
use accesscore.Refs.{OrgId, EntityRef, SubjectRef, RelationTuple, writable_entity_ref}
use accesscore.Usersets.{
  Userset, Usersets, this, computed_userset, tuple_to_userset, union, intersection, exclusion,
  no_child, child, direct_userset,
}
use accesscore.Tuples.{tuple_index_of, subjects_of}
use accesscore.Namespaces.{NamespaceDefinition, registry_of, rewrites_for}
use accesscore.Evaluate.{EvaluationSnapshot}
use accesscore.Evaluate.Meaning.{Member, Holds, HoldsAny, HoldsAll, ref_of}
use accesscore.Evaluate.Terminates.{enough_fuel}
use accesscore.Closure.{
  Database, Context, Gathering, rewrite_of, snapshot_from, start_gathering, namespace_of, gathered,
  load_closure, walk_relations,
}
use accesscore.Closure.Fetched.{IsPlain, IsFaithful}
use accesscore.Closure.Gathered.{IsSettled, IsFetched, ReachedEntry, namespace_of_lem}
use accesscore.Closure.Steps.{IsLayered, IsStore, Good}
use accesscore.Closure.Ends.{walk_relations_lem}
use accesscore.Closure.Parts.{by_type, settled-by_type, subject_in, add_definitions-Reached}

-- No exclusion in the tree.
unfoldable mutual
  pub IsPositive : Userset → Type 0
  IsPositive this = Unit
  IsPositive (computed_userset _) = Unit
  IsPositive (tuple_to_userset _ _) = Unit
  IsPositive (union cs) = ArePositive cs
  IsPositive (intersection cs) = ArePositive cs
  IsPositive (exclusion _ _) = ⊥

  pub ArePositive : Usersets → Type 0
  ArePositive no_child = Unit
  ArePositive (child c cs) = IsPositive c × ArePositive cs

module _ (db : Database) (org : OrgId) (plain : IsPlain org) (stored : List RelationTuple)
    (store : IsStore db org stored)
    (named : (type : Text) (d : NamespaceDefinition)
      → db.find_by_namespace org type ≡ some d
      → d.namespace ≡ type)
    (g : Gathering) (h : IsFetched db org plain none g) (full : EvaluationSnapshot)
    (positive : (type r : Text) → IsPositive (rewrite_of (db.find_by_namespace org type) r))
    (same_index : full.tuples ≡ tuple_index_of org stored)
    (same_rewrites : (type r : Text)
      → rewrites_for full.namespaces type r ≡ rewrite_of (db.find_by_namespace org type) r)
    (target : EntityRef) (Barred Barred' : EntityRef → Text → Userset → Type 0) where
  abbrev part : EvaluationSnapshot
  part = snapshot_from org g

  in_full :
      (o : EntityRef) (r : Text) (s : SubjectRef)
      → writable_entity_ref o ≡ true
      → Memᴰ s (subjects_of part.tuples o r)
      → Memᴰ s (subjects_of full.tuples o r)
        × (writable_entity_ref (ref_of s) ≡ true)
        × IsSettled db org plain g o.type
  in_full o r s w m =
      let (there, ref, settled) = subject_in db org plain stored store named g h o r s w m in
      (subst (λ i. Memᴰ s (subjects_of i o r)) (sym same_index) there, ref, settled)

  rewrites_part :
      (type r : Text)
      → rewrites_for part.namespaces type r
        ≡ rewrite_of (get type (by_type db org plain stored store named g h)) r
  unfolding rewrites_for registry_of by_type
  rewrites_part type r = ground arith

  -- A type that is not settled has the direct rewrite.
  rewrites_cases :
      (type r : Text)
      → (rewrites_for part.namespaces type r ≡ rewrite_of (db.find_by_namespace org type) r)
        ⊎ ((rewrites_for part.namespaces type r ≡ this)
            × (get type (by_type db org plain stored store named g h)
                ≢ db.find_by_namespace org type))
  unfolding direct_userset
  rewrites_cases type r =
      elim (Option-cases (get type (by_type db org plain stored store named g h))) [
        | inr (d, there) ↦ inl (
            rewrites_part type r
            ∙ ap (λ x. rewrite_of x r)
                (there
                  ∙ sym (
                      get-All (ReachedEntry db org plain) type d
                        (by_type db org plain stored store named g h)
                        (unfold by_type in
                          add_definitions-Reached db org plain stored store named g.reached []
                            h.reached tt)
                        there)))
        | inl missing ↦ elim (Option-cases (db.find_by_namespace org type)) [
          | inl neither ↦
              inl (rewrites_part type r ∙ ap (λ x. rewrite_of x r) (missing ∙ sym neither))
          | inr (d, there) ↦
              inr (
                rewrites_part type r ∙ ap (λ x. rewrite_of x r) missing,
                λ e. cc (e, missing, there),
              )
        ]
      ]

  IsSettled-of_this :
      {o : EntityRef} {r : Text} {x : Userset}
      → writable_entity_ref o ≡ true
      → Holds part target Barred o r x
      → x ≡ this
      → IsSettled db org plain g o.type
  IsSettled-of_this {o} {r} w (Holds.direct m) e = (in_full o r _ w m).2
  IsSettled-of_this {o} {r} w (Holds.through m k) e = (in_full o r _ w m).2
  IsSettled-of_this w (Holds.alias k) e = absurd (cc e)
  IsSettled-of_this w (Holds.parent m k) e = absurd (cc e)
  IsSettled-of_this w (Holds.some_child k) e = absurd (cc e)
  IsSettled-of_this w (Holds.every_child k) e = absurd (cc e)
  IsSettled-of_this w (Holds.minus k b) e = absurd (cc e)

  IsPositive-part : (type r : Text) → IsPositive (rewrites_for part.namespaces type r)
  unfolding IsPositive
  IsPositive-part type r = elim (rewrites_cases type r) [
    | inl same ↦ subst IsPositive (sym same) (positive type r)
    | inr (plainly, _) ↦ subst IsPositive (sym plainly) tt
  ]

  node_full :
      (o : EntityRef) (r : Text)
      → writable_entity_ref o ≡ true
      → Holds part target Barred o r (rewrites_for part.namespaces o.type r)
      → Holds full target Barred' o r (rewrites_for part.namespaces o.type r)
      → Member full target Barred' o r
  node_full o r w k k' = elim (rewrites_cases o.type r) [
    | inl same ↦
        Member.node (subst (Holds full target Barred' o r) (same ∙ sym (same_rewrites o.type r)) k')
    | inr (plainly, unsettled) ↦ absurd (
        unsettled (
          settled-by_type db org plain stored store named g h o.type
            (IsSettled-of_this w k plainly)))
  ]

  mutual
    unfolding IsPositive ArePositive

    Member-full :
        {o : EntityRef} {r : Text}
        → writable_entity_ref o ≡ true
        → Member part target Barred o r
        → Member full target Barred' o r
    Member-full {o} {r} w (Member.node k) =
        node_full o r w k (Holds-full w (IsPositive-part o.type r) k)

    Holds-full :
        {o : EntityRef} {r : Text} {x : Userset}
        → writable_entity_ref o ≡ true
        → IsPositive x
        → Holds part target Barred o r x
        → Holds full target Barred' o r x
    Holds-full {o} {r} w p (Holds.direct m) = Holds.direct (in_full o r _ w m).0
    Holds-full {o} {r} w p (Holds.through m k) =
        let (there, ref, _) = in_full o r _ w m in Holds.through there (Member-full ref k)
    Holds-full w p (Holds.alias k) = Holds.alias (Member-full w k)
    Holds-full {o} w p (Holds.parent {ts} m k) =
        let (there, ref, _) = in_full o ts _ w m in Holds.parent there (Member-full ref k)
    Holds-full w p (Holds.some_child k) = Holds.some_child (HoldsAny-full w p k)
    Holds-full w p (Holds.every_child k) = Holds.every_child (HoldsAll-full w p k)
    Holds-full w p (Holds.minus k b) = absurd p

    HoldsAny-full :
        {o : EntityRef} {r : Text} {cs : Usersets}
        → writable_entity_ref o ≡ true
        → ArePositive cs
        → HoldsAny part target Barred o r cs
        → HoldsAny full target Barred' o r cs
    HoldsAny-full w (p, ps) (HoldsAny.first k) = HoldsAny.first (Holds-full w p k)
    HoldsAny-full w (p, ps) (HoldsAny.later k) = HoldsAny.later (HoldsAny-full w ps k)

    HoldsAll-full :
        {o : EntityRef} {r : Text} {cs : Usersets}
        → writable_entity_ref o ≡ true
        → ArePositive cs
        → HoldsAll part target Barred o r cs
        → HoldsAll full target Barred' o r cs
    HoldsAll-full w p HoldsAll.no_more = HoldsAll.no_more
    HoldsAll-full w (p, ps) (HoldsAll.also k ks) =
        HoldsAll.also (Holds-full w p k) (HoldsAll-full w ps ks)

start_gathering-IsFetched :
    (db : Database) (org : OrgId) (plain : IsPlain org) (context : Context)
    → IsFaithful db context
    → IsFetched db org plain none (start_gathering context)
start_gathering-IsFetched db org plain context f = record { context = f; local = tt; reached = tt }

-- The gathering ends with a snapshot, for cyclic tuples too, and leaves the transaction's maps
-- holding what the database answers; and whoever holds a relation by the tuples and the rewrites of
-- the snapshot holds it by those of the whole store. What the flattened index grants besides is not
-- considered here. Assumed: the id of the organization has
-- no colon, the rows are selected from one table of accepted tuples and the namespaces found by
-- their names, computed usersets are layered, the resource is writable, and no rewrite subtracts.
pub load_closure_lem :
    (fuel : ℕ) (db : Database) (org : OrgId) (resource : EntityRef) (relations : List Text)
    (member : Option EntityRef) (context : Context) (stored : List RelationTuple)
    (full : EvaluationSnapshot) (plain : IsPlain org) (store : IsStore db org stored)
    (layered : IsLayered db org)
    → ((type : Text) (d : NamespaceDefinition)
        → db.find_by_namespace org type ≡ some d
        → d.namespace ≡ type)
    → ((type r : Text) → IsPositive (rewrite_of (db.find_by_namespace org type) r))
    → full.tuples ≡ tuple_index_of org stored
    → ((type r : Text)
        → rewrites_for full.namespaces type r ≡ rewrite_of (db.find_by_namespace org type) r)
    → enough_fuel layered.bound ≤ fuel
    → writable_entity_ref resource ≡ true
    → IsFaithful db context
    → (snapshot : EvaluationSnapshot) × (context' : Context) × (load_closure fuel db org resource
          relations member context
        ≡ some (snapshot, context'))
      × IsFaithful db context'
      × ((target : EntityRef) (Barred Barred' : EntityRef → Text → Userset → Type 0) (o : EntityRef)
            (r : Text)
          → writable_entity_ref o ≡ true
          → Member snapshot target Barred o r
          → Member full target Barred' o r)
unfolding load_closure
load_closure_lem fuel db org resource relations member context stored full plain store layered named
      positive same_index same_rewrites low w f =
    through (walk_relations db org member fuel resource relations g) (
      walk_relations_lem db org plain member stored store layered fuel resource relations g low w h)
  where
    g : Gathering
    g = (namespace_of db org member resource.type (start_gathering context)).1

    h : IsFetched db org plain none g
    h =
        (namespace_of_lem db org plain member none resource.type (start_gathering context)
          (λ t e. absurd (cc e)) (start_gathering-IsFetched db org plain context f)).1

    through :
        (w' : Option Gathering)
        → Good db org plain g w'
        → (snapshot : EvaluationSnapshot) × (context' : Context) × (gathered org w'
            ≡ some (snapshot, context'))
          × IsFaithful db context'
          × ((target : EntityRef) (Barred Barred' : EntityRef → Text → Userset → Type 0)
                (o : EntityRef) (r : Text)
              → writable_entity_ref o ≡ true
              → Member snapshot target Barred o r
              → Member full target Barred' o r)
    through none good = absurd good
    through (some g') (h', _) = (
      snapshot_from org g',
      g'.context,
      refl,
      h'.context,
      λ target Barred Barred' o r w k.
          Member-full db org plain stored store named g' h' full positive same_index same_rewrites
            target Barred Barred' w k,
    )
