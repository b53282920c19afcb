-- ===== src/Closure/Parts.antt =====
-- What a gathered snapshot has of the store (pdp-service.ts: `loadClosure`): its registry has the
-- settled types, and a subject of its index is one of the store's, at a node of a settled type.
use accesscore.Prelude.{
  ◌≡◌, refl, sym, ◌∙◌, subst, ◌≢◌, ◌⊎◌, inl, inr, Bool, true, List, [], ◌∷◌, none, some, arith,
  select, map, Text, ◌==◌, eq_iff, eq_of_true, get, put, get-put, get-All, put-All, mem-select,
  select-mem, Bool-cases, Option-cases, All, All-append, All-mem,
}
use mathlib.Core.List.{Memᴰ}
use mathlib.Core.List.Memᴰ
use accesscore.Refs.{OrgId, EntityRef, SubjectRef, RelationTuple, writable_entity_ref, write_tuple}
use accesscore.Refs.Keys.{ref_equals_iff}
use accesscore.Tuples.{tuple_index_of, subjects_of}
use accesscore.Tuples.Lookup.{at_node, AreWritten, subjects_of_lem}
use accesscore.Namespaces.{NamespaceDefinition, add_definitions}
use accesscore.Evaluate.Meaning.{ref_of}
use accesscore.Closure.{Database, Gathering, concat_rows}
use accesscore.Closure.Fetched.{IsPlain}
use accesscore.Closure.Gathered.{IsSettled, IsFetched, NodeEntry, ReachedEntry}
use accesscore.Closure.Steps.{IsStore, written-ref}

at_node-object :
    (org : OrgId) (o : EntityRef) (r : Text) (t : RelationTuple)
    → at_node org o r t ≡ true
    → t.object ≡ o
at_node-object org o r t h = (ref_equals_iff t.object o).0 (unfold at_node in ground arith)

All-select :
    {A : Type 0} (P : A → Type 0) (p : A → Bool) (xs : List A) → All P xs → All P (select p xs)
All-select P p [] h = tt
All-select P p (x ∷ xs) (q, h) = elim (Bool-cases (p x)) [
  | inl chosen ↦ rw chosen (q, All-select P p xs h)
  | inr out ↦ rw out (All-select P p xs h)
]

module _ (db : Database) (org : OrgId) (plain : IsPlain org) (stored : List RelationTuple)
    (store : IsStore db org stored)
    (named : (type : Text) (d : NamespaceDefinition)
      → db.find_by_namespace org type ≡ some d
      → d.namespace ≡ type) where
  -- The registry over the reached definitions.
  pub add_definitions-Reached :
      (reached m : List (Text × NamespaceDefinition))
      → All (ReachedEntry db org plain) reached
      → All (ReachedEntry db org plain) m
      → All (ReachedEntry db org plain) (add_definitions m (map (λ e. e.1) reached))
  unfolding add_definitions
  add_definitions-Reached [] m h k = k
  add_definitions-Reached ((type, d) ∷ reached) m (e, h) k =
      add_definitions-Reached reached (put d.namespace d m) h (
        put-All (ReachedEntry db org plain) d.namespace d m
          (subst (λ t. db.find_by_namespace org t ≡ some d) (sym (named type d e)) e) k)

  put-ne-none :
      (k j : Text) (d : NamespaceDefinition) (m : List (Text × NamespaceDefinition))
      → (get j m ≢ none) ⊎ (k ≡ j)
      → get j (put k d m) ≢ none
  put-ne-none k j d m (inl h) e = ground (arith, get-put k j d m)
  put-ne-none k j d m (inr same) e = ground (arith, get-put k j d m, eq_iff k j)

  add_definitions-ne-none :
      (type : Text) (reached m : List (Text × NamespaceDefinition))
      → All (ReachedEntry db org plain) reached
      → (get type m ≢ none) ⊎ (get type reached ≢ none)
      → get type (add_definitions m (map (λ e. e.1) reached)) ≢ none
  unfolding add_definitions get
  add_definitions-ne-none type [] m h (inl k) = k
  add_definitions-ne-none type [] m h (inr k) = absurd (k refl)
  add_definitions-ne-none type ((t, d) ∷ reached) m (e, h) (inl k) =
      add_definitions-ne-none type reached (put d.namespace d m) h
        (inl (put-ne-none d.namespace type d m (inl k)))
  add_definitions-ne-none type ((t, d) ∷ reached) m (e, h) (inr k) =
      add_definitions-ne-none type reached (put d.namespace d m) h (elim (Bool-cases (t == type)) [
        | inl same ↦ inl (put-ne-none d.namespace type d m (inr (named t d e ∙ eq_of_true same)))
        | inr other ↦ inr (rw other at k)
      ])

  module _ (g : Gathering) (h : IsFetched db org plain none g) where
    unfoldable pub by_type : List (Text × NamespaceDefinition)
    by_type = add_definitions [] (map (λ e. e.1) g.reached)

    pub settled-by_type :
        (type : Text)
        → IsSettled db org plain g type
        → get type by_type ≡ db.find_by_namespace org type
    unfolding by_type
    settled-by_type type s = elim (Option-cases (get type by_type)) [
      | inr (d, there) ↦
          there
          ∙ sym (
              get-All (ReachedEntry db org plain) type d by_type
                (add_definitions-Reached g.reached [] h.reached tt) there)
      | inl missing ↦ elim (Option-cases (db.find_by_namespace org type)) [
        | inl neither ↦ missing ∙ sym neither
        | inr (d, there) ↦ absurd (
            add_definitions-ne-none type g.reached [] h.reached (inr (λ e. cc (e, s, there)))
              missing)
      ]
    ]

    IsSettled-of :
        (type : Text)
        → (some type ≡ none) ⊎ IsSettled db org plain g type
        → IsSettled db org plain g type
    IsSettled-of type (inl e) = absurd (cc e)
    IsSettled-of type (inr s) = s

    -- A subject of the gathered index is one of the store's, at a settled node.
    row_in :
        (local : List (Text × List RelationTuple)) (t : RelationTuple)
        → All (NodeEntry db org plain none g) local
        → Memᴰ t (concat_rows local)
        → Memᴰ t stored × IsSettled db org plain g t.object.type
    unfolding concat_rows
    row_in [] t n m = elim m [ ]
    row_in ((key, rows) ∷ local) t ((o, r, w, k, e, s), n) m = elim (Memᴰ.append_cases rows m) [
      | inr later ↦ row_in local t n later
      | inl here ↦
          let (there, at) =
            mem-select (at_node org o r) t stored (subst (Memᴰ t) (e ∙ store.selects o r) here) in
          (
            there,
            subst (λ x. IsSettled db org plain g x.type) (sym (at_node-object org o r t at))
                (IsSettled-of o.type s),
          )
    ]

    written_local :
        (local : List (Text × List RelationTuple))
        → All (NodeEntry db org plain none g) local
        → AreWritten (concat_rows local)
    unfolding concat_rows
    written_local [] n = tt
    written_local ((key, rows) ∷ local) ((o, r, w, k, e, s), n) =
        All-append (λ t. write_tuple t ≡ some t) rows (concat_rows local)
          (subst AreWritten (sym (e ∙ store.selects o r))
            (All-select (λ t. write_tuple t ≡ some t) (at_node org o r) stored store.written))
          (written_local local n)

    pub subject_in :
        (o : EntityRef) (r : Text) (s : SubjectRef)
        → writable_entity_ref o ≡ true
        → Memᴰ s (subjects_of (tuple_index_of org (concat_rows g.local)) o r)
        → Memᴰ s (subjects_of (tuple_index_of org stored) o r)
          × (writable_entity_ref (ref_of s) ≡ true)
          × IsSettled db org plain g o.type
    subject_in o r s w m =
        let (t, found, same) =
          Memᴰ.of_map (λ (t : RelationTuple). t.subject_ref)
            (select (at_node org o r) (concat_rows g.local))
            (subst (Memᴰ s)
              (subjects_of_lem org (concat_rows g.local) o r (written_local g.local h.local) w)
              m) in
        let (local, at) = mem-select (at_node org o r) t (concat_rows g.local) found in
        let (there, settled) = row_in g.local t h.local local in
        (
          subst (Memᴰ s) (sym (subjects_of_lem org stored o r store.written w)) (
              subst (λ x. Memᴰ x (map (λ t. t.subject_ref) (select (at_node org o r) stored))) same
                (Memᴰ.map (λ (t : RelationTuple). t.subject_ref)
                  (select-mem (at_node org o r) t stored there at))),
          subst (λ x. writable_entity_ref (ref_of x) ≡ true) same
              (written-ref t (All-mem (λ x. write_tuple x ≡ some x) store.written there)),
          subst (λ x. IsSettled db org plain g x.type) (at_node-object org o r t at) settled,
        )
