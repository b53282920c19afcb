-- ===== src/Flatten/Sound.antt =====
-- Whom `flattenSet` lists (apps/api/src/authz/domain/evaluate.ts).
use accesscore.Prelude.{
  ℕ, zero, suc, ◌≤◌, ◌≡◌, sym, subst, inl, inr, true, false, List, [], ◌∷◌, Option, none, some,
  arith, ltb, map, Text, ◌==◌, has, get, put, All, All-mono, Bool-cases, Option-cases, not-ltb→le,
}
use accesscore.Refs.{EntityRef, node_key, format_entity_ref}
use accesscore.Usersets.{
  Userset, Usersets, this, computed_userset, tuple_to_userset, union, intersection, exclusion,
  no_child, child,
}
use accesscore.Namespaces.{rewrites_for}
use accesscore.Evaluate.{EvaluationSnapshot}
use accesscore.Evaluate.Meaning.{Member, Holds, HoldsAny, HoldsAll}
use accesscore.Flatten.{
  FlatMember, CollectState, Collected, Collector, own_set, ◌>>=◌, share, meet_next, without,
  collect_rewrite, collect_union, collect_intersection, collect_members, FlattenedSet, keep_nearest,
  nearest, flattened, flatten_set,
}
use accesscore.Flatten.Loops.{
  Post, Post-append, Post-mono, mem_each, IsListed, Fits, IsSound, collect_this-Post,
  collect_parents-Post,
}
use accesscore.Flatten.Meets.{OfRef, Both, Known, meet_next-Known}

module _ (snapshot : EvaluationSnapshot) (Barred : EntityRef → Text → Userset → Type 0)
    (collector : Collector) (sound : IsSound snapshot Barred collector) (o : EntityRef) (r : Text)
    (d : ℕ) (low : d ≤ 10) where
  abbrev FitsAny : Usersets → FlatMember → Type 0
  FitsAny cs m = HoldsAny snapshot m.ref Barred o r cs × (m.depth ≤ 10)

  -- The children that were met hold, and so do those to come.
  abbrev Met : List Userset → EntityRef → Type 0
  Met done x = All (λ c. Holds snapshot x Barred o r c) done

  abbrev Every : List Userset → Usersets → EntityRef → Type 0
  Every done cs x = Met done x × HoldsAll snapshot x Barred o r cs

  -- One round of the loop of `intersection`.
  collect_next-Post :
      (done : List Userset) (c : Userset) (cs : Usersets) (acc : Option (List FlatMember))
      (s : CollectState)
      → (s.excluded ≡ false → Known (Met done) acc)
      → (a : Collected) → Post (Fits snapshot Barred o r c) (own_set s) a
      → ((acc' : Option (List FlatMember)) (s' : CollectState)
          → (s'.excluded ≡ false → Known (Met (c ∷ done)) acc')
          → Post
              (OfRef (Every (c ∷ done) cs))
              s'
              (collect_intersection snapshot collector o r d cs acc' s'))
      → Post (OfRef (Every done (child c cs))) s (
          a >>= λ p.
          collect_intersection snapshot collector o r d cs (some (meet_next acc p.0)) (share s p.1))
  collect_next-Post done c cs acc s k none p next = tt
  collect_next-Post done c cs acc s k (some (nested, own)) p next =
      onward _ (next (some (meet_next acc nested)) (share s own) known)
    where
      known : own.excluded ≡ false → Known (Met (c ∷ done)) (some (meet_next acc nested))
      known e =
          let (e', fits) = p e in
          All-mono (OfRef (Both (Met done) (λ x. Holds snapshot x Barred o r c)))
            (OfRef (Met (c ∷ done))) (meet_next acc nested) (λ m q. ((q.0.1, q.0.0), q.1))
            (meet_next-Known (Met done) (λ x. Holds snapshot x Barred o r c) acc nested (k e') fits)

      onward :
          (out : Collected)
          → Post (OfRef (Every (c ∷ done) cs)) (share s own) out
          → Post (OfRef (Every done (child c cs))) s out
      onward none q = tt
      onward (some (members, s')) q = λ e.
          let (e', all) = q e in
          (
            (p e').0,
            All-mono (OfRef (Every (c ∷ done) cs)) (OfRef (Every done (child c cs))) members
                (λ m h. ((h.0.0.1, HoldsAll.also h.0.0.0 h.0.1), h.1)) all,
          )

  -- With the flag set before, it stays set.
  exclusion-Post :
      (Q : FlatMember → Type 0) (R S : FlatMember → Type 0) (s : CollectState) (a : Collected)
      (b : CollectState → Collected)
      → Post R (record { visited = []; excluded = true }) a
      → ((s' : CollectState) → Post S s' (b s'))
      → Post Q s (a >>= λ p. (b (own_set p.1) >>= λ q. some (without p.0 q.0, share s q.1)))
  exclusion-Post Q R S s none b h k = tt
  exclusion-Post Q R S s (some (kept, s')) b h k = rest (b (own_set s')) (k (own_set s'))
    where
      rest :
          (c : Collected)
          → Post S (own_set s') c
          → Post Q s (c >>= λ q. some (without kept q.0, share s q.1))
      rest none p = tt
      rest (some (gone, s'')) p = λ e. absurd (cc (h (p e).0).0)

  mutual
    unfolding collect_rewrite collect_union collect_intersection

    collect_rewrite-Post :
        (x : Userset) (s : CollectState)
        → Post (Fits snapshot Barred o r x) s (collect_rewrite snapshot collector o r d x s)
    collect_rewrite-Post this s =
        collect_this-Post snapshot Barred collector sound o r d low _ s (mem_each _)
    collect_rewrite-Post (computed_userset c) s =
        Post-mono (IsListed snapshot Barred o c) (Fits snapshot Barred o r (computed_userset c)) s _
          (λ m k. (Holds.alias k.0, k.1)) (sound o c d s)
    collect_rewrite-Post (tuple_to_userset ts c) s =
        collect_parents-Post snapshot Barred collector sound o r d low ts c _ s (mem_each _)
    collect_rewrite-Post (union cs) s =
        Post-mono (FitsAny cs) (Fits snapshot Barred o r (union cs)) s _
          (λ m k. (Holds.some_child k.0, k.1)) (collect_union-Post cs s)
    collect_rewrite-Post (intersection cs) s =
        Post-mono (OfRef (Every [] cs)) (Fits snapshot Barred o r (intersection cs)) s _
          (λ m k. (Holds.every_child k.0.1, k.1))
          (collect_intersection-Post [] cs none s (λ e x. tt))
    collect_rewrite-Post (exclusion b x) s =
        exclusion-Post (Fits snapshot Barred o r (exclusion b x)) (Fits snapshot Barred o r b)
          (Fits snapshot Barred o r x) s _ (λ s'. collect_rewrite snapshot collector o r d x s')
          (collect_rewrite-Post b _) (λ s'. collect_rewrite-Post x s')

    collect_union-Post :
        (cs : Usersets) (s : CollectState)
        → Post (FitsAny cs) s (collect_union snapshot collector o r d cs s)
    collect_union-Post no_child s = λ e. (e, tt)
    collect_union-Post (child c cs) s =
        Post-append (FitsAny (child c cs)) s _ (λ s'. collect_union snapshot collector o r d cs s')
          (Post-mono (Fits snapshot Barred o r c) (FitsAny (child c cs)) s _
            (λ m k. (HoldsAny.first k.0, k.1)) (collect_rewrite-Post c s))
          (λ s'.
            Post-mono (FitsAny cs) (FitsAny (child c cs)) s' _ (λ m k. (HoldsAny.later k.0, k.1))
              (collect_union-Post cs s'))

    collect_intersection-Post :
        (done : List Userset) (cs : Usersets) (acc : Option (List FlatMember)) (s : CollectState)
        → (s.excluded ≡ false → Known (Met done) acc)
        → Post (OfRef (Every done cs)) s (collect_intersection snapshot collector o r d cs acc s)
    collect_intersection-Post done no_child none s k = λ e. (e, tt)
    collect_intersection-Post done no_child (some members) s k = λ e. (
      e,
      All-mono (OfRef (Met done)) (OfRef (Every done no_child)) members
          (λ m p. ((p.0, HoldsAll.no_more), p.1)) (k e),
    )
    collect_intersection-Post done (child c cs) acc s k =
        collect_next-Post done c cs acc s k (collect_rewrite snapshot collector o r d c (own_set s))
          (collect_rewrite-Post c (own_set s))
          (λ acc' s' k'. collect_intersection-Post (c ∷ done) cs acc' s' k')

module _ (by_ref : List (Text × FlatMember)) (m : FlatMember) where
  keep_nearest-new :
      get (format_entity_ref m.ref) by_ref ≡ none
      → keep_nearest by_ref m ≡ put (format_entity_ref m.ref) m by_ref
  unfolding keep_nearest
  keep_nearest-new new = cc new

  module _ (seen : FlatMember) (there : get (format_entity_ref m.ref) by_ref ≡ some seen) where
    keep_nearest-nearer :
        ltb m.depth seen.depth ≡ true
        → keep_nearest by_ref m
          ≡ put (format_entity_ref m.ref) (record { ref = seen.ref; depth = m.depth }) by_ref
    unfolding keep_nearest
    keep_nearest-nearer nearer = cc (there, nearer)

    keep_nearest-farther : ltb m.depth seen.depth ≡ false → keep_nearest by_ref m ≡ by_ref
    unfolding keep_nearest
    keep_nearest-farther farther = cc (there, farther)

module _ (snapshot : EvaluationSnapshot) (Barred : EntityRef → Text → Userset → Type 0) where
  collect_members-IsSound : (fuel : ℕ) → IsSound snapshot Barred (collect_members snapshot fuel)
  unfolding collect_members
  collect_members-IsSound zero o r d s = tt
  collect_members-IsSound (suc fuel) o r d s = elim (Bool-cases (ltb 10 d)) [
    | inl deep ↦ rw deep (λ e. (e, tt))
    | inr shallow ↦ elim (Bool-cases (has s.visited (node_key o r))) [
      | inl seen ↦ rw (shallow, seen) (λ e. (e, tt))
      | inr new ↦
          rw (shallow, new)
            (Post-mono (Fits snapshot Barred o r (rewrites_for snapshot.namespaces o.type r))
              (IsListed snapshot Barred o r) s _ (λ m k. (Member.node k.0, k.1))
              (collect_rewrite-Post snapshot Barred (collect_members snapshot fuel)
                (collect_members-IsSound fuel) o r d (not-ltb→le 10 d shallow)
                (rewrites_for snapshot.namespaces o.type r)
                (record s { visited = node_key o r ∷ s.visited })))
    ]
  ]

  module _ (o : EntityRef) (r : Text) where
    abbrev AreListed : List (Text × FlatMember) → Type 0
    AreListed by_ref = All (λ e. IsListed snapshot Barred o r e.1) by_ref

    put-AreListed :
        (k : Text) (m : FlatMember) (by_ref : List (Text × FlatMember))
        → IsListed snapshot Barred o r m
        → AreListed by_ref
        → AreListed (put k m by_ref)
    unfolding put
    put-AreListed k m [] p h = (p, tt)
    put-AreListed k m ((j, n) ∷ by_ref) p (q, h) = elim (Bool-cases (j == k)) [
      | inl same ↦ rw same (p, h)
      | inr other ↦ rw other (q, put-AreListed k m by_ref p h)
    ]

    get-AreListed :
        (k : Text) (m : FlatMember) (by_ref : List (Text × FlatMember))
        → AreListed by_ref
        → get k by_ref ≡ some m
        → IsListed snapshot Barred o r m
    unfolding get
    get-AreListed k m [] h e = cc
    get-AreListed k m ((j, n) ∷ by_ref) (q, h) e = elim (Bool-cases (j == k)) [
      | inl same ↦ let found : n ≡ m = ground arith in subst (IsListed snapshot Barred o r) found q
      | inr other ↦ get-AreListed k m by_ref h (ground arith)
    ]

    keep_nearest-AreListed :
        (by_ref : List (Text × FlatMember)) (m : FlatMember)
        → AreListed by_ref
        → IsListed snapshot Barred o r m
        → AreListed (keep_nearest by_ref m)
    keep_nearest-AreListed by_ref m h p =
        let key = format_entity_ref m.ref in
        elim (Option-cases (get key by_ref)) [
          | inl new ↦
              subst AreListed (sym (keep_nearest-new by_ref m new)) (put-AreListed key m by_ref p h)
          | inr (seen, there) ↦ elim (Bool-cases (ltb m.depth seen.depth)) [
            | inl nearer ↦ subst AreListed (sym (keep_nearest-nearer by_ref m seen there nearer)) (
                put-AreListed key (record { ref = seen.ref; depth = m.depth }) by_ref
                  ((get-AreListed key seen by_ref h there).0, p.1) h)
            | inr farther ↦
                subst AreListed (sym (keep_nearest-farther by_ref m seen there farther)) h
          ]
        ]

    nearest-AreListed :
        (by_ref : List (Text × FlatMember)) (ms : List FlatMember)
        → AreListed by_ref
        → All (IsListed snapshot Barred o r) ms
        → AreListed (nearest by_ref ms)
    unfolding nearest
    nearest-AreListed by_ref [] h p = h
    nearest-AreListed by_ref (m ∷ ms) h (p, ps) =
        nearest-AreListed (keep_nearest by_ref m) ms (keep_nearest-AreListed by_ref m h p) ps

    values-All :
        (by_ref : List (Text × FlatMember))
        → AreListed by_ref
        → All (IsListed snapshot Barred o r) (map (λ e. e.1) by_ref)
    values-All [] h = tt
    values-All (e ∷ by_ref) (p, h) = (p, values-All by_ref h)

    flattened-All :
        (a : Collected) (set : FlattenedSet)
        → Post (IsListed snapshot Barred o r) (record { visited = []; excluded = false }) a
        → flattened a ≡ some set
        → set.monotonic ≡ true
        → All (IsListed snapshot Barred o r) set.members
    flattened-All none set p e h = cc
    flattened-All (some (members, s)) set p e h =
        let listed : map (λ e. e.1) (nearest [] members) ≡ set.members = ground arith in
        let plain : s.excluded ≡ false = ground arith in
        subst (All (IsListed snapshot Barred o r)) listed
          (values-All (nearest [] members) (nearest-AreListed [] members tt (p plain).1))

    -- Whoever a flattening lists that met no exclusion holds the relation, at a depth of at most 10:
    -- what is stored of it in the membership index is so, whatever relation bars subtracted usersets.
    pub flatten_set_lem :
        (fuel : ℕ) (set : FlattenedSet)
        → flatten_set fuel o r snapshot ≡ some set
        → set.monotonic ≡ true
        → All (λ m. Member snapshot m.ref Barred o r × (m.depth ≤ 10)) set.members
    unfolding flatten_set
    flatten_set_lem fuel set e h =
        flattened-All _ set
          (collect_members-IsSound fuel o r 0 (record { visited = []; excluded = false })) e h
