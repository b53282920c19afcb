-- ===== src/Evaluate/Correct.antt =====
-- The walk is sound, and complete where it was not truncated: `derive` grants only what the target
-- holds, and misses nothing that the target holds unless it says that it was truncated.
use accesscore.Prelude.{
  ℕ, zero, suc, ◌≡◌, subst, ◌⊎◌, inl, inr, true, List, [], ◌∷◌, ◌++◌, none, some, arith, ltb, Text,
  ◌==◌, eq_iff, eq_of_true, has, Bool-cases,
}
use accesscore.Refs.{EntityRef, writable_entity_ref, node_key}
use accesscore.Refs.Keys.{node_key_injective}
use accesscore.Usersets.{
  Userset, Usersets, this, computed_userset, tuple_to_userset, union, intersection, exclusion,
  no_child, child,
}
use accesscore.Tuples.{subjects_of}
use accesscore.Namespaces.{rewrites_for}
use accesscore.Evaluate.{
  max_userset_depth, EvaluationSnapshot, WalkState, Walked, Walker, fresh, derive_rewrite,
  derive_union, derive_intersection, derive,
}
use accesscore.Evaluate.Meaning.{
  Member, node, Holds, alias, some_child, every_child, minus, HoldsAny, first, later, HoldsAll,
  no_more, also, IsStable, IsIndexSound, AreWritable,
}
use accesscore.Evaluate.Refute.{Blocked, AllBlocked, IsClosed, refute-Holds}
use accesscore.Evaluate.Walks.{
  Blocked-mono, BlockedNode, Extends, Extends-refl, Post, Post-weaken, Post-or_else, Post-judge,
  Post-subtract,
}
use accesscore.Evaluate.Sound.{IsSoundWalker, derive_this-Post, walk_parents-Post}

module _ (snapshot : EvaluationSnapshot) (target : EntityRef)
    (Barred : EntityRef → Text → Userset → Type 0) (stable : IsStable snapshot target Barred)
    (indexed : IsIndexSound snapshot target Barred) (written : AreWritable snapshot) where
  abbrev Block : EntityRef → Text → Userset → List Text → Type 0
  Block o r x V = Blocked snapshot target Barred V o r x

  abbrev Ends : Type 0 → (List Text → Type 0) → WalkState → Walked → Type 0
  Ends H B s w = Post snapshot target Barred H B s w

  abbrev SoundWalker : Walker → Type 0
  SoundWalker walker = IsSoundWalker snapshot target Barred stable indexed written walker

  abbrev AnyAt : EntityRef → Text → Usersets → Type 0
  AnyAt o r cs = HoldsAny snapshot target Barred o r cs

  abbrev EveryAt : EntityRef → Text → Usersets → Type 0
  EveryAt o r cs = HoldsAll snapshot target Barred o r cs

  abbrev At : EntityRef → Text → Userset → Type 0
  At o r x = Holds snapshot target Barred o r x

  refuted :
      (o : EntityRef) (r : Text) (x : Userset) (V : List Text)
      → writable_entity_ref o ≡ true
      → IsClosed snapshot target Barred V
      → Block o r x V
      → ¬ At o r x
  refuted o r x V w c b h = refute-Holds snapshot target Barred stable written V c w b h

  every_first :
      (o : EntityRef) (r : Text) (c : Userset) (cs : Usersets)
      → EveryAt o r (child c cs)
      → At o r c × EveryAt o r cs
  every_first o r c cs (also h k) = (h, k)

  mutual
    unfolding derive_rewrite derive_union derive_intersection Blocked AllBlocked

    derive_rewrite-Post :
        (walker : Walker) (o : EntityRef) (r : Text) (depth : ℕ) (x : Userset) (s : WalkState)
        → SoundWalker walker
        → writable_entity_ref o ≡ true
        → Ends (At o r x) (Block o r x) s (derive_rewrite snapshot target walker o r depth x s)
    derive_rewrite-Post walker o r depth this s h w =
        derive_this-Post snapshot target Barred stable indexed written walker o r depth s h
    derive_rewrite-Post walker o r depth (computed_userset t) s h w =
        Post-or_else snapshot target Barred (Member snapshot target Barred o t) _
          (λ V. has V (node_key o t) ≡ true) (λ V. Unit) _ s (walker o t depth s) _ _
          (h o t depth s w) alias (λ s' e. (e, Extends-refl snapshot target Barred s'.visited, tt))
          (λ V V' g k u. g (node_key o t) k)
    derive_rewrite-Post walker o r depth (tuple_to_userset ts c) s h w =
        walk_parents-Post snapshot target Barred stable indexed written walker o r ts c depth
          (subjects_of snapshot.tuples o ts) s h (λ x m. m)
    derive_rewrite-Post walker o r depth (union cs) s h w =
        Post-weaken snapshot target Barred (AnyAt o r cs) _ _ _ s _ some_child (λ V b. b)
          (derive_union-Post walker o r depth cs s h w)
    derive_rewrite-Post walker o r depth (intersection cs) s h w =
        Post-weaken snapshot target Barred (EveryAt o r cs) _ _ _ s _ every_child (λ V b. b)
          (derive_intersection-Post walker o r depth cs [] s h w)
    derive_rewrite-Post walker o r depth (exclusion b x) s h w =
        Post-judge snapshot target Barred (At o r b) (At o r (exclusion b x))
          ((¬ At o r b) ⊎ At o r x) (Block o r b) s _ _
          (derive_rewrite-Post walker o r depth b fresh h w) (λ V c k. inl (refuted o r b V w c k))
          (λ base g.
            Post-subtract snapshot target Barred (At o r x) (At o r (exclusion b x))
              ((¬ At o r b) ⊎ At o r x) (Block o r x) g s _
              (derive_rewrite-Post walker o r depth x fresh h w)
              (λ V c k. minus base ((stable o r x).1 (refuted o r x V w c k))) inr)

    derive_union-Post :
        (walker : Walker) (o : EntityRef) (r : Text) (depth : ℕ) (cs : Usersets) (s : WalkState)
        → SoundWalker walker
        → writable_entity_ref o ≡ true
        → Ends
            (AnyAt o r cs)
            (λ V. AllBlocked snapshot target Barred V o r cs)
            s
            (derive_union snapshot target walker o r depth cs s)
    derive_union-Post walker o r depth no_child s h w =
        λ e. (e, Extends-refl snapshot target Barred s.visited, tt)
    derive_union-Post walker o r depth (child c cs) s h w =
        Post-or_else snapshot target Barred (At o r c) _ (Block o r c)
          (λ V. AllBlocked snapshot target Barred V o r cs) _ s _ _ _
          (derive_rewrite-Post walker o r depth c s h w) first
          (λ s'.
            Post-weaken snapshot target Barred (AnyAt o r cs) _ _ _ s' _ later (λ V b. b)
              (derive_union-Post walker o r depth cs s' h w))
          (λ V V' g b b'. (Blocked-mono snapshot target Barred V V' o r c g b, b'))

    derive_intersection-Post :
        (walker : Walker) (o : EntityRef) (r : Text) (depth : ℕ) (cs : Usersets) (path : List Text)
        (s : WalkState)
        → SoundWalker walker
        → writable_entity_ref o ≡ true
        → Ends
            (EveryAt o r cs)
            (λ V. ¬ EveryAt o r cs)
            s
            (derive_intersection snapshot target walker o r depth cs path s)
    derive_intersection-Post walker o r depth no_child path s h w = no_more
    derive_intersection-Post walker o r depth (child c cs) path s h w =
        Post-judge snapshot target Barred (At o r c) (EveryAt o r (child c cs))
          (¬ EveryAt o r (child c cs)) (Block o r c) s _ _
          (derive_rewrite-Post walker o r depth c fresh h w)
          (λ V k b e. refuted o r c V w k b (every_first o r c cs e).0)
          (λ one g.
            Post-weaken snapshot target Barred (EveryAt o r cs) _ (λ V. ¬ EveryAt o r cs) _ s _
              (λ others. also one others) (λ V n e. n (every_first o r c cs e).1)
              (derive_intersection-Post walker o r depth cs (path ++ g.path) s h w))

  extend_node :
      (o : EntityRef) (r : Text) (V V' : List Text)
      → writable_entity_ref o ≡ true
      → Extends snapshot target Barred (node_key o r ∷ V) V'
      → BlockedNode snapshot target Barred V' o r
      → Extends snapshot target Barred V V' × (has V' (node_key o r) ≡ true)
  unfolding has
  extend_node o r V V' w (g, x) b = (
    (λ k h. g k (ground arith), both),
    g (node_key o r) (ground (arith, eq_iff (node_key o r) (node_key o r))),
  )
    where
      both :
          (o' : EntityRef) (r' : Text)
          → writable_entity_ref o' ≡ true
          → has V' (node_key o' r') ≡ true
          → (has V (node_key o' r') ≡ true) ⊎ BlockedNode snapshot target Barred V' o' r'
      both o' r' w' h = elim (Bool-cases (node_key o r == node_key o' r')) [
        | inl same ↦
            let (e, e') = node_key_injective o o' r r' w w' (eq_of_true same) in
            inr (
              subst (λ q. BlockedNode snapshot target Barred V' q r') e
                (subst (λ q. BlockedNode snapshot target Barred V' o q) e' b))
        | inr other ↦ elim (x o' r' w' h) [
          | inl old ↦ inl (rw other at old)
          | inr blocked ↦ inr blocked
        ]
      ]

  -- The node itself is blocked once its rewrite is, under any object and relation of its key.
  close_node :
      (o : EntityRef) (r : Text) (s : WalkState) (w : Walked)
      → writable_entity_ref o ≡ true
      → Ends
          (At o r (rewrites_for snapshot.namespaces o.type r))
          (Block o r (rewrites_for snapshot.namespaces o.type r))
          (record s { visited = node_key o r ∷ s.visited })
          w
      → Ends (Member snapshot target Barred o r) (λ V. has V (node_key o r) ≡ true) s w
  unfolding has
  close_node o r s none k p = tt
  close_node o r s (some (some g, s')) k p = node p
  close_node o r s (some (none, s')) k p = λ e.
      let (e₀, x, b) = p e in
      let (x', keyed) = extend_node o r s.visited s'.visited k x b in (e₀, x', keyed)

  pub derive-Post : (fuel : ℕ) → SoundWalker (derive snapshot target fuel)
  unfolding derive
  derive-Post zero o r depth s w = tt
  derive-Post (suc fuel) o r depth s w = elim (Bool-cases (ltb max_userset_depth depth)) [
    | inl deep ↦ rw deep (λ e. absurd (cc e))
    | inr shallow ↦ elim (Bool-cases (has s.visited (node_key o r))) [
      | inl seen ↦
          rw (shallow, seen) (λ e. (e, Extends-refl snapshot target Barred s.visited, seen))
      | inr new ↦
          rw (shallow, new)
            (close_node o r s _ w (
              derive_rewrite-Post (derive snapshot target fuel) o r depth _ _ (derive-Post fuel) w))
    ]
  ]
