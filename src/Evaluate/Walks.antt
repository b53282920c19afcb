-- ===== src/Evaluate/Walks.antt =====
-- What a walk establishes when it returns, and the rules by which the loops of `derive` pass it on:
-- a grant means that the target holds the relation; no grant and no truncation mean that the walk
-- has blocked every node that it visited.
use accesscore.Prelude.{
  ◌≡◌, ◌⊎◌, inl, inr, true, false, List, [], none, some, Text, has, All-mono, Bool-cases,
}
use accesscore.Refs.{EntityRef, SubjectRef, subject, userset, writable_entity_ref, node_key}
use accesscore.Usersets.{
  Userset, Usersets, this, computed_userset, tuple_to_userset, union, intersection, exclusion,
  no_child, child,
}
use accesscore.Tuples.{subjects_of}
use accesscore.Namespaces.{rewrites_for}
use accesscore.Evaluate.{
  EvaluationSnapshot, Grant, WalkState, Walked, fresh, or_else, judge, subtract_from,
}
use accesscore.Evaluate.Refute.{BlockedSubject, BlockedParent, Blocked, AllBlocked, IsClosed}

abbrev pub Grows : List Text → List Text → Type 0
Grows V V' = (k : Text) → has V k ≡ true → has V' k ≡ true

module _ (snapshot : EvaluationSnapshot) (target : EntityRef)
    (Barred : EntityRef → Text → Userset → Type 0) where
  pub BlockedSubject-mono :
      (V V' : List Text) (s : SubjectRef)
      → Grows V V'
      → BlockedSubject snapshot target Barred V s
      → BlockedSubject snapshot target Barred V' s
  BlockedSubject-mono V V' (subject ref) g h = h
  BlockedSubject-mono V V' (userset ref rel) g h = g (node_key ref rel) h

  BlockedParent-mono :
      (V V' : List Text) (c : Text) (s : SubjectRef)
      → Grows V V'
      → BlockedParent snapshot target Barred V c s
      → BlockedParent snapshot target Barred V' c s
  BlockedParent-mono V V' c (subject ref) g h = g (node_key ref c) h
  BlockedParent-mono V V' c (userset _ _) g h = tt

  mutual
    unfolding Blocked AllBlocked

    pub Blocked-mono :
        (V V' : List Text) (o : EntityRef) (r : Text) (x : Userset)
        → Grows V V'
        → Blocked snapshot target Barred V o r x
        → Blocked snapshot target Barred V' o r x
    Blocked-mono V V' o r this g h =
        All-mono _ _ (subjects_of snapshot.tuples o r) (λ s. BlockedSubject-mono V V' s g) h
    Blocked-mono V V' o r (computed_userset s) g h = g (node_key o s) h
    Blocked-mono V V' o r (tuple_to_userset ts c) g h =
        All-mono _ _ (subjects_of snapshot.tuples o ts) (λ s. BlockedParent-mono V V' c s g) h
    Blocked-mono V V' o r (union cs) g h = AllBlocked-mono V V' o r cs g h
    Blocked-mono V V' o r (intersection cs) g h = h
    Blocked-mono V V' o r (exclusion b x) g h = h

    pub AllBlocked-mono :
        (V V' : List Text) (o : EntityRef) (r : Text) (cs : Usersets)
        → Grows V V'
        → AllBlocked snapshot target Barred V o r cs
        → AllBlocked snapshot target Barred V' o r cs
    AllBlocked-mono V V' o r no_child g h = tt
    AllBlocked-mono V V' o r (child c cs) g (h, k) =
        (Blocked-mono V V' o r c g h, AllBlocked-mono V V' o r cs g k)

  abbrev pub BlockedNode : List Text → EntityRef → Text → Type 0
  BlockedNode V o r =
      Blocked snapshot target Barred V o r (rewrites_for snapshot.namespaces o.type r)

  -- The walk has visited more, and has blocked what it added.
  abbrev pub Extends : List Text → List Text → Type 0
  Extends V V' =
      Grows V V'
      × ((o : EntityRef) (r : Text)
          → writable_entity_ref o ≡ true
          → has V' (node_key o r) ≡ true
          → (has V (node_key o r) ≡ true) ⊎ BlockedNode V' o r)

  pub Extends-refl : (V : List Text) → Extends V V
  Extends-refl V = (λ k h. h, λ o r w h. inl h)

  pub Extends-trans : (V V' V'' : List Text) → Extends V V' → Extends V' V'' → Extends V V''
  Extends-trans V V' V'' (g, e) (g', e') = (λ k h. g' k (g k h), both)
    where
      both :
          (o : EntityRef) (r : Text)
          → writable_entity_ref o ≡ true
          → has V'' (node_key o r) ≡ true
          → (has V (node_key o r) ≡ true) ⊎ BlockedNode V'' o r
      both o r w h = elim (e' o r w h) [
        | inr blocked ↦ inr blocked
        | inl old ↦ elim (e o r w old) [
          | inl older ↦ inl older
          | inr blocked ↦ inr (Blocked-mono V' V'' o r _ g' blocked)
        ]
      ]

  -- What is not granted: `s` was not truncated, the visited nodes are blocked, and so is `B`.
  abbrev pub Missed : (List Text → Type 0) → WalkState → WalkState → Type 0
  Missed B s s' =
      s'.truncated ≡ false → (s.truncated ≡ false) × Extends s.visited s'.visited × B s'.visited

  abbrev pub Post : Type 0 → (List Text → Type 0) → WalkState → Walked → Type 0
  Post H B s none = Unit
  Post H B s (some (none, s')) = Missed B s s'
  Post H B s (some (some g, s')) = H

  Post-chain :
      (H : Type 0) (B₁ B₂ B : List Text → Type 0) (s s₁ : WalkState) (w : Walked)
      → Missed B₁ s s₁
      → Post H B₂ s₁ w
      → ((V V' : List Text) → Grows V V' → B₁ V → B₂ V' → B V')
      → Post H B s w
  Post-chain H B₁ B₂ B s s₁ none m p c = tt
  Post-chain H B₁ B₂ B s s₁ (some (some g, s')) m p c = p
  Post-chain H B₁ B₂ B s s₁ (some (none, s')) m p c = λ e.
      let (e₁, x', b₂) = p e in
      let (e₀, x, b₁) = m e₁ in
      (e₀, Extends-trans s.visited s₁.visited s'.visited x x', c s₁.visited s'.visited x'.0 b₁ b₂)

  pub Post-weaken :
      (H H' : Type 0) (B B' : List Text → Type 0) (s : WalkState) (w : Walked)
      → (H → H')
      → ((V : List Text) → B V → B' V)
      → Post H B s w
      → Post H' B' s w
  Post-weaken H H' B B' s none f g p = tt
  Post-weaken H H' B B' s (some (some _, s')) f g p = f p
  Post-weaken H H' B B' s (some (none, s')) f g p =
      λ e. let (e₀, x, b) = p e in (e₀, x, g s'.visited b)

  pub Post-or_else :
      (H₁ H : Type 0) (B₁ B₂ B : List Text → Type 0) (s : WalkState) (w : Walked)
      (wrap : Grant → Grant) (next : WalkState → Walked)
      → Post H₁ B₁ s w
      → (H₁ → H)
      → ((s' : WalkState) → Post H B₂ s' (next s'))
      → ((V V' : List Text) → Grows V V' → B₁ V → B₂ V' → B V')
      → Post H B s (or_else w wrap next)
  Post-or_else H₁ H B₁ B₂ B s none wrap next p f n c = tt
  Post-or_else H₁ H B₁ B₂ B s (some (some g, s')) wrap next p f n c = f p
  Post-or_else H₁ H B₁ B₂ B s (some (none, s₁)) wrap next p f n c =
      Post-chain H B₁ B₂ B s s₁ (next s₁) p (n s₁) c

  -- A walk from no visited node closes the nodes that it visits.
  pub IsClosed-of_Extends : (V : List Text) → Extends [] V → IsClosed snapshot target Barred V
  unfolding has
  IsClosed-of_Extends V (g, e) o r w h = elim (e o r w h) [
    | inl old ↦ absurd (cc old)
    | inr blocked ↦ blocked
  ]

  pub Post-judge :
      (H₁ H N : Type 0) (B₁ : List Text → Type 0) (s : WalkState) (w : Walked)
      (next : Grant → Walked)
      → Post H₁ B₁ fresh w
      → ((V : List Text) → IsClosed snapshot target Barred V → B₁ V → N)
      → (H₁ → (g : Grant) → Post H (λ _. N) s (next g))
      → Post H (λ _. N) s (judge w s next)
  Post-judge H₁ H N B₁ s none next p n f = tt
  Post-judge H₁ H N B₁ s (some (some g, own)) next p n f = elim (Bool-cases own.truncated) [
    | inl deep ↦ rw deep (λ e. absurd (cc e))
    | inr whole ↦ rw whole (f p g)
  ]
  Post-judge H₁ H N B₁ s (some (none, own)) next p n f = elim (Bool-cases own.truncated) [
    | inl deep ↦ rw deep (λ e. absurd (cc e))
    | inr whole ↦ rw whole (λ e.
        let (_, x, b) = p whole in
        (e, Extends-refl s.visited, n own.visited (IsClosed-of_Extends own.visited x) b))
  ]

  pub Post-subtract :
      (H₁ H N : Type 0) (B₁ : List Text → Type 0) (b : Grant) (s : WalkState) (w : Walked)
      → Post H₁ B₁ fresh w
      → ((V : List Text) → IsClosed snapshot target Barred V → B₁ V → H)
      → (H₁ → N)
      → Post H (λ _. N) s (subtract_from b w s)
  Post-subtract H₁ H N B₁ b s none p n f = tt
  Post-subtract H₁ H N B₁ b s (some (some g, own)) p n f = elim (Bool-cases own.truncated) [
    | inl deep ↦ rw deep (λ e. absurd (cc e))
    | inr whole ↦ rw whole (λ e. (e, Extends-refl s.visited, f p))
  ]
  Post-subtract H₁ H N B₁ b s (some (none, own)) p n f = elim (Bool-cases own.truncated) [
    | inl deep ↦ rw deep (λ e. absurd (cc e))
    | inr whole ↦
        rw whole (let (_, x, k) = p whole in n own.visited (IsClosed-of_Extends own.visited x) k)
  ]
