-- ===== src/Flatten/Loops.antt =====
-- Whom the loops over subjects collect (evaluate.ts: the cases `this` and `tupleToUserset` of
-- `collectRewrite`).
use accesscore.Prelude.{
  ℕ, ◌+◌, ◌≤◌, ◌≡◌, refl, false, List, [], ◌∷◌, ◌++◌, none, some, Text, All, All-append, All-mono,
}
use mathlib.Core.List.{Memᴰ}
use accesscore.Refs.{EntityRef, SubjectRef, subject, userset}
use accesscore.Usersets.{Userset, this, tuple_to_userset}
use accesscore.Tuples.{subjects_of}
use accesscore.Evaluate.{EvaluationSnapshot}
use accesscore.Evaluate.Meaning.{Member, Holds}
use accesscore.Flatten.{
  FlatMember, CollectState, Collected, Collector, ◌>>=◌, collect_this, collect_parents,
}

-- Unless an exclusion was met on the way, nothing was before and everybody listed is as said.
abbrev pub Post : (FlatMember → Type 0) → CollectState → Collected → Type 0
Post Q s none = Unit
Post Q s (some (members, s')) = s'.excluded ≡ false → (s.excluded ≡ false) × All Q members

pub Post-append :
    (Q : FlatMember → Type 0) (s : CollectState) (a : Collected) (b : CollectState → Collected)
    → Post Q s a
    → ((s' : CollectState) → Post Q s' (b s'))
    → Post Q s (a >>= λ p. (b p.1 >>= λ q. some (p.0 ++ q.0, q.1)))
Post-append Q s none b h k = tt
Post-append Q s (some (members, s')) b h k = rest (b s') (k s')
  where
    rest : (c : Collected) → Post Q s' c → Post Q s (c >>= λ q. some (members ++ q.0, q.1))
    rest none p = tt
    rest (some (others, s'')) p =
        λ e. let (e', q) = p e in let (e'', q') = h e' in (e'', All-append Q members others q' q)

pub Post-mono :
    (P Q : FlatMember → Type 0) (s : CollectState) (a : Collected)
    → ((m : FlatMember) → P m → Q m)
    → Post P s a
    → Post Q s a
Post-mono P Q s none f h = tt
Post-mono P Q s (some (members, s')) f h = λ e. let (e', p) = h e in (e', All-mono P Q members f p)

pub mem_each : {A : Type 0} → (xs : List A) → All (λ x. Memᴰ x xs) xs
mem_each [] = tt
mem_each (x ∷ xs) = (
  Memᴰ.head refl,
  All-mono (λ y. Memᴰ y xs) (λ y. Memᴰ y (x ∷ xs)) xs (λ y m. Memᴰ.tail m) (mem_each xs),
)

module _ (snapshot : EvaluationSnapshot) (Barred : EntityRef → Text → Userset → Type 0) where
  -- The member holds the relation, at a depth within the bound; the same for a rewrite.
  abbrev pub IsListed : EntityRef → Text → FlatMember → Type 0
  IsListed o r m = Member snapshot m.ref Barred o r × (m.depth ≤ 10)

  abbrev pub Fits : EntityRef → Text → Userset → FlatMember → Type 0
  Fits o r x m = Holds snapshot m.ref Barred o r x × (m.depth ≤ 10)

  abbrev pub IsSound : Collector → Type 0
  IsSound collector =
      (o : EntityRef) (r : Text) (d : ℕ) (s : CollectState)
      → Post (IsListed o r) s (collector o r d s)

  module _ (collector : Collector) (sound : IsSound collector) (o : EntityRef) (r : Text) (d : ℕ)
      (low : d ≤ 10) where
    pub collect_this-Post :
        (ss : List SubjectRef) (s : CollectState)
        → All (λ x. Memᴰ x (subjects_of snapshot.tuples o r)) ss
        → Post (Fits o r this) s (collect_this snapshot collector d ss s)
    unfolding collect_this
    collect_this-Post [] s h = λ e. (e, tt)
    collect_this-Post (subject ref ∷ ss) s (m, h) =
        Post-append (Fits o r this) s (some (record { ref = ref; depth = d } ∷ [], s)) _
          (λ e. (e, ((Holds.direct m, low), tt))) (λ s'. collect_this-Post ss s' h)
    collect_this-Post (userset ref rel ∷ ss) s (m, h) =
        Post-append (Fits o r this) s _ _
          (Post-mono (IsListed ref rel) (Fits o r this) s _ (λ x k. (Holds.through m k.0, k.1))
            (sound ref rel (d + 1) s))
          (λ s'. collect_this-Post ss s' h)

    pub collect_parents-Post :
        (ts c : Text) (ss : List SubjectRef) (s : CollectState)
        → All (λ x. Memᴰ x (subjects_of snapshot.tuples o ts)) ss
        → Post (Fits o r (tuple_to_userset ts c)) s (collect_parents snapshot collector c d ss s)
    unfolding collect_parents
    collect_parents-Post ts c [] s h = λ e. (e, tt)
    collect_parents-Post ts c (userset _ _ ∷ ss) s (m, h) = collect_parents-Post ts c ss s h
    collect_parents-Post ts c (subject ref ∷ ss) s (m, h) =
        Post-append (Fits o r (tuple_to_userset ts c)) s _ _
          (Post-mono (IsListed ref c) (Fits o r (tuple_to_userset ts c)) s _
            (λ x k. (Holds.parent m k.0, k.1)) (sound ref c (d + 1) s))
          (λ s'. collect_parents-Post ts c ss s' h)
