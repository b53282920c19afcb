-- ===== src/Evaluate/Plain.antt =====
-- Snapshots whose relations have no rewrites (evaluate.ts, the case `this` alone).
use accesscore.Prelude.{◌≡◌, sym, subst, ◌⊎◌, inl, inr, Text}
use mathlib.Core.List.{Memᴰ}
use accesscore.Refs.{EntityRef, subject, userset}
use accesscore.Usersets.{
  Userset, Usersets, this, computed_userset, tuple_to_userset, union, intersection, exclusion,
  no_child, child,
}
use accesscore.Tuples.{subjects_of}
use accesscore.Namespaces.{rewrites_for}
use accesscore.Evaluate.{EvaluationSnapshot}
use accesscore.Evaluate.Meaning.{Member, Holds, HoldsAny, HoldsAll, IsStable}

-- Without rewrites, what holds is reached over the tuples, and a relation that bars exactly what
-- does not hold is at hand.
module _ (snapshot : EvaluationSnapshot) (target : EntityRef)
    (unwritten : (o : EntityRef) (r : Text)
      → rewrites_for snapshot.namespaces o.type r ≡ this) where
  pub data Reach : EntityRef → Text → Type 0 where
    now :
        {o : EntityRef} {r : Text}
        → Memᴰ (subject target) (subjects_of snapshot.tuples o r)
        → Reach o r
    over :
        {o ref : EntityRef} {r rel : Text}
        → Memᴰ (userset ref rel) (subjects_of snapshot.tuples o r)
        → Reach ref rel
        → Reach o r

  mutual
    pub Reaches : EntityRef → Text → Userset → Type 0
    Reaches o r this = Reach o r
    Reaches o r (computed_userset s) = Reach o s
    Reaches o r (tuple_to_userset ts c) =
        (ref : EntityRef) × Memᴰ (subject ref) (subjects_of snapshot.tuples o ts) × Reach ref c
    Reaches o r (union cs) = ReachesAny o r cs
    Reaches o r (intersection cs) = ReachesAll o r cs
    Reaches o r (exclusion b x) = Reaches o r b × (¬ Reaches o r x)

    pub ReachesAny : EntityRef → Text → Usersets → Type 0
    ReachesAny o r no_child = ⊥
    ReachesAny o r (child c cs) = Reaches o r c ⊎ ReachesAny o r cs

    pub ReachesAll : EntityRef → Text → Usersets → Type 0
    ReachesAll o r no_child = Unit
    ReachesAll o r (child c cs) = Reaches o r c × ReachesAll o r cs

  abbrev pub Bars : EntityRef → Text → Userset → Type 0
  Bars o r x = ¬ Reaches o r x

  mutual
    unfolding Reaches ReachesAny ReachesAll

    Member-Reach : {o : EntityRef} {r : Text} → Member snapshot target Bars o r → Reach o r
    Member-Reach (Member.node {o} {r} h) = subst (Reaches o r) (unwritten o r) (Holds-Reaches h)

    Holds-Reaches :
        {o : EntityRef} {r : Text} {x : Userset} → Holds snapshot target Bars o r x → Reaches o r x
    Holds-Reaches (Holds.direct m) = now m
    Holds-Reaches (Holds.through m k) = over m (Member-Reach k)
    Holds-Reaches (Holds.alias k) = Member-Reach k
    Holds-Reaches (Holds.parent {o} {ref} m k) = (ref, m, Member-Reach k)
    Holds-Reaches (Holds.some_child k) = any-ReachesAny k
    Holds-Reaches (Holds.every_child k) = all-ReachesAll k
    Holds-Reaches (Holds.minus k n) = (Holds-Reaches k, n)

    any-ReachesAny :
        {o : EntityRef} {r : Text} {cs : Usersets}
        → HoldsAny snapshot target Bars o r cs
        → ReachesAny o r cs
    any-ReachesAny (HoldsAny.first k) = inl (Holds-Reaches k)
    any-ReachesAny (HoldsAny.later k) = inr (any-ReachesAny k)

    all-ReachesAll :
        {o : EntityRef} {r : Text} {cs : Usersets}
        → HoldsAll snapshot target Bars o r cs
        → ReachesAll o r cs
    all-ReachesAll HoldsAll.no_more = tt
    all-ReachesAll (HoldsAll.also k ks) = (Holds-Reaches k, all-ReachesAll ks)

  Reach-Member : {o : EntityRef} {r : Text} → Reach o r → Member snapshot target Bars o r
  Reach-Member (now {o} {r} m) =
      Member.node (subst (Holds snapshot target Bars o r) (sym (unwritten o r)) (Holds.direct m))
  Reach-Member (over {o} {ref} {r} m k) = Member.node (
      subst (Holds snapshot target Bars o r) (sym (unwritten o r))
        (Holds.through m (Reach-Member k)))

  mutual
    unfolding Reaches ReachesAny ReachesAll

    Reaches-Holds :
        (o : EntityRef) (r : Text) (x : Userset) → Reaches o r x → Holds snapshot target Bars o r x
    Reaches-Holds o r this (now m) = Holds.direct m
    Reaches-Holds o r this (over m k) = Holds.through m (Reach-Member k)
    Reaches-Holds o r (computed_userset s) k = Holds.alias (Reach-Member k)
    Reaches-Holds o r (tuple_to_userset ts c) (ref, m, k) = Holds.parent m (Reach-Member k)
    Reaches-Holds o r (union cs) k = Holds.some_child (reaches-HoldsAny o r cs k)
    Reaches-Holds o r (intersection cs) k = Holds.every_child (reaches-HoldsAll o r cs k)
    Reaches-Holds o r (exclusion b x) (k, n) = Holds.minus (Reaches-Holds o r b k) n

    reaches-HoldsAny :
        (o : EntityRef) (r : Text) (cs : Usersets)
        → ReachesAny o r cs
        → HoldsAny snapshot target Bars o r cs
    reaches-HoldsAny o r no_child k = absurd k
    reaches-HoldsAny o r (child c cs) (inl k) = HoldsAny.first (Reaches-Holds o r c k)
    reaches-HoldsAny o r (child c cs) (inr k) = HoldsAny.later (reaches-HoldsAny o r cs k)

    reaches-HoldsAll :
        (o : EntityRef) (r : Text) (cs : Usersets)
        → ReachesAll o r cs
        → HoldsAll snapshot target Bars o r cs
    reaches-HoldsAll o r no_child k = HoldsAll.no_more
    reaches-HoldsAll o r (child c cs) (k, ks) =
        HoldsAll.also (Reaches-Holds o r c k) (reaches-HoldsAll o r cs ks)

  pub Bars-IsStable : IsStable snapshot target Bars
  Bars-IsStable o r x = (λ n k. n (Holds-Reaches k), λ n k. n (Reaches-Holds o r x k))
