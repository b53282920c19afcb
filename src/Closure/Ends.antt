-- ===== src/Closure/Ends.antt =====
-- `loadClosure` ends, for cyclic tuples too, and keeps what its maps hold (pdp-service.ts).
use accesscore.Prelude.{
  ℕ, zero, suc, ◌+◌, ◌-◌, ◌*◌, ◌≤◌, ◌<◌, ◌≡◌, refl, sym, subst, inl, inr, true, ◌∙◌, some_inj, List,
  [], ◌∷◌, Option, none, some, arith, ltb, not-ltb→le, Text, has, Bool-cases,
}
use mathlib.Core.List.{Memᴰ}
use mathlib.Core.List.Memᴰ
use accesscore.Refs.{OrgId, EntityRef, RelationTuple, node_key, writable_entity_ref}
use accesscore.Usersets.{
  Userset, Usersets, this, computed_userset, tuple_to_userset, union, intersection, exclusion,
  no_child, child, computed_userset_targets, children_targets,
}
use accesscore.Tuples.Lookup.{at_node}
use accesscore.Evaluate.{max_userset_depth}
use accesscore.Evaluate.Terminates.{enough_fuel}
use accesscore.Closure.{
  Database, Gathering, Walk, rewrite_of, walk_rewrite, walk_every, enter_node, walk_node,
  walk_relations, rows_of, namespace_of,
}
use accesscore.Closure.Fetched.{IsPlain}
use accesscore.Closure.Gathered.{
  IsSettled, IsFetched, namespace_of_lem, rows_of_lem, IsFetched-walked,
}
use accesscore.Closure.Steps.{
  IsLayered, IsStore, HasWritableSubjects, select-HasWritableSubjects, Good, Good-from, Good-bind,
  Deeper, Level, walk_sets_lem, walk_up_lem,
}

module _ (db : Database) (org : OrgId) (plain : IsPlain org) (member : Option EntityRef) where
  module _ (stored : List RelationTuple) (store : IsStore db org stored) where
    read-HasWritableSubjects :
        (o : EntityRef) (r : Text) (rows : List RelationTuple)
        → rows ≡ db.list_by_object org o r
        → HasWritableSubjects rows
    read-HasWritableSubjects o r rows e =
        subst HasWritableSubjects (sym (e ∙ store.selects o r))
          (select-HasWritableSubjects (at_node org o r) stored store.written)

    mutual
      unfolding walk_rewrite walk_every computed_userset_targets children_targets

      walk_rewrite_lem :
          (walk : Walk) (o : EntityRef) (x : Userset) (node : List RelationTuple) (depth : ℕ)
          (g : Gathering)
          → writable_entity_ref o ≡ true
          → HasWritableSubjects node
          → Deeper db org plain walk depth
          → Level db org plain walk o depth (computed_userset_targets x)
          → IsSettled db org plain g o.type
          → IsFetched db org plain none g
          → Good db org plain g (walk_rewrite db org member walk o x node depth g)
      walk_rewrite_lem walk o this node depth g w ws deeper level s h =
          walk_sets_lem db org plain member walk depth node g ws deeper h
      walk_rewrite_lem walk o (computed_userset r) node depth g w ws deeper level s h =
          level r g (Memᴰ.head refl) h
      walk_rewrite_lem walk o (tuple_to_userset ts c) node depth g w ws deeper level s h =
          let read = rows_of db org member o ts g in
          let (rows, h', k) = rows_of_lem db org plain member none o ts g w (inr s) h in
          Good-from db org plain g read.1 _ k (
            walk_up_lem db org plain member walk c depth read.0 read.1
              (read-HasWritableSubjects o ts read.0 rows) deeper h')
      walk_rewrite_lem walk o (union cs) node depth g w ws deeper level s h =
          walk_every_lem walk o cs node depth g w ws deeper level s h
      walk_rewrite_lem walk o (intersection cs) node depth g w ws deeper level s h =
          walk_every_lem walk o cs node depth g w ws deeper level s h
      walk_rewrite_lem walk o (exclusion b x) node depth g w ws deeper level s h =
          Good-bind db org plain g (walk_rewrite db org member walk o b node depth g) _
            (walk_rewrite_lem walk o b node depth g w ws deeper
              (λ t g' m. level t g' (Memᴰ.append_left (computed_userset_targets x) m)) s h)
            (λ g' h' k.
              walk_rewrite_lem walk o x node depth g' w ws deeper
                (λ t g'' m. level t g'' (Memᴰ.append_right (computed_userset_targets b) m))
                (k o.type s) h')

      walk_every_lem :
          (walk : Walk) (o : EntityRef) (cs : Usersets) (node : List RelationTuple) (depth : ℕ)
          (g : Gathering)
          → writable_entity_ref o ≡ true
          → HasWritableSubjects node
          → Deeper db org plain walk depth
          → Level db org plain walk o depth (children_targets cs)
          → IsSettled db org plain g o.type
          → IsFetched db org plain none g
          → Good db org plain g (walk_every db org member walk o cs node depth g)
      walk_every_lem walk o no_child node depth g w ws deeper level s h = (h, λ t k. k)
      walk_every_lem walk o (child c cs) node depth g w ws deeper level s h =
          Good-bind db org plain g (walk_rewrite db org member walk o c node depth g) _
            (walk_rewrite_lem walk o c node depth g w ws deeper
              (λ t g' m. level t g' (Memᴰ.append_left (children_targets cs) m)) s h)
            (λ g' h' k.
              walk_every_lem walk o cs node depth g' w ws deeper
                (λ t g'' m. level t g'' (Memᴰ.append_right (computed_userset_targets c) m))
                (k o.type s) h')

    module _ (layered : IsLayered db org) where
      enter_node_lem :
          (walk : Walk) (o : EntityRef) (r : Text) (depth : ℕ) (g : Gathering)
          → writable_entity_ref o ≡ true
          → Deeper db org plain walk depth
          → Level db org plain walk o depth
              (computed_userset_targets (rewrite_of (db.find_by_namespace org o.type) r))
          → IsFetched db org plain none g
          → Good db org plain g (enter_node db org member walk o r depth g)
      unfolding enter_node
      enter_node_lem walk o r depth g w deeper level h =
          let g₁ = record g { walked = node_key o r ∷ g.walked } in
          let read = rows_of db org member o r g₁ in
          let (rows, h₂, k₂) =
            rows_of_lem db org plain member (some o.type) o r g₁ w (inl refl)
              (IsFetched-walked db org plain g (node_key o r ∷ g.walked) h) in
          let found = namespace_of db org member o.type read.1 in
          let (same, h₃, k₃, settled) =
            namespace_of_lem db org plain member (some o.type) o.type read.1 (λ t e. some_inj e)
              h₂ in
          Good-from db org plain g found.1 _ (λ t s. k₃ t (k₂ t s))
            (walk_rewrite_lem walk o (rewrite_of found.0 r) read.0 depth found.1 w
              (read-HasWritableSubjects o r read.0 rows) deeper
              (subst
                (λ d. Level db org plain walk o depth (computed_userset_targets (rewrite_of d r)))
                (sym same) level)
              settled h₃)

      abbrev need : ℕ → ℕ → ℕ
      need depth height = (max_userset_depth + 1 - depth) * (layered.bound + 1) + height

      need_deeper :
          (fuel depth height lower : ℕ)
          → need depth height < suc fuel
          → depth ≤ max_userset_depth
          → lower ≤ layered.bound
          → need (depth + 1) lower < fuel
      need_deeper fuel depth height lower h d l = grind arith

      walk_node_lem :
          (fuel : ℕ) (o : EntityRef) (r : Text) (depth : ℕ) (g : Gathering)
          → need depth (layered.height o.type r) < fuel
          → writable_entity_ref o ≡ true
          → IsFetched db org plain none g
          → Good db org plain g (walk_node db org member fuel o r depth g)
      unfolding walk_node
      walk_node_lem zero o r depth g low w h = elim low [ ]
      walk_node_lem (suc fuel) o r depth g low w h =
          elim (Bool-cases (has g.walked (node_key o r))) [
            | inl seen ↦ rw seen (h, λ t k. k)
            | inr new ↦ elim (Bool-cases (ltb max_userset_depth depth)) [
              | inl deep ↦ rw (new, deep) (h, λ t k. k)
              | inr shallow ↦
                  rw (new, shallow)
                    (enter_node_lem (walk_node db org member fuel) o r depth g w
                      (λ o' r' g' w' h'.
                        let low' : need (depth + 1) (layered.height o'.type r') < fuel =
                          need_deeper fuel depth (layered.height o.type r)
                            (layered.height o'.type r') low
                            (not-ltb→le max_userset_depth depth shallow)
                            (layered.height_le o'.type r') in
                        walk_node_lem fuel o' r' (depth + 1) g' low' w' h')
                      (λ t g' m h'.
                        let low' : need depth (layered.height o.type t) < fuel =
                          omega (arith, layered.falls o.type r t m) in
                        walk_node_lem fuel o t depth g' low' w h')
                      h)
            ]
          ]

      pub walk_relations_lem :
          (fuel : ℕ) (resource : EntityRef) (relations : List Text) (g : Gathering)
          → enough_fuel layered.bound ≤ fuel
          → writable_entity_ref resource ≡ true
          → IsFetched db org plain none g
          → Good db org plain g (walk_relations db org member fuel resource relations g)
      unfolding walk_relations
      walk_relations_lem fuel resource [] g low w h = (h, λ t k. k)
      walk_relations_lem fuel resource (r ∷ rs) g low w h =
          Good-bind db org plain g (walk_node db org member fuel resource r 0 g) _
            (walk_node_lem fuel resource r 0 g (omega (arith, layered.height_le resource.type r)) w
              h)
            (λ g' h' k. walk_relations_lem fuel resource rs g' low w h')
