-- ===== src/Evaluate/Refute.antt =====
-- Why a node does not hold: a set of node keys whose rewrites all fail unless another key of the
-- set holds. No node of such a set holds, since what holds has a finite derivation.
use accesscore.Prelude.{◌≡◌, refl, ◌≢◌, ◌⊎◌, inl, inr, true, List, Text, has, All, All-mem}
use mathlib.Core.List.{Memᴰ}
use accesscore.Refs.{EntityRef, SubjectRef, subject, userset, writable_entity_ref, node_key}
use accesscore.Usersets.{
  Userset, Usersets, this, computed_userset, tuple_to_userset, union, intersection, exclusion,
  no_child, child,
}
use accesscore.Tuples.{subjects_of}
use accesscore.Namespaces.{rewrites_for}
use accesscore.Evaluate.{EvaluationSnapshot}
use accesscore.Evaluate.Meaning.{
  Member, node, Holds, direct, through, alias, parent, some_child, every_child, minus, HoldsAny,
  first, later, HoldsAll, IsStable, ref_of, AreWritable,
}

module _ (snapshot : EvaluationSnapshot) (target : EntityRef)
    (Barred : EntityRef → Text → Userset → Type 0) where
  abbrev pub BlockedSubject : List Text → SubjectRef → Type 0
  BlockedSubject V (subject ref) = ref ≢ target
  BlockedSubject V (userset ref rel) = has V (node_key ref rel) ≡ true

  abbrev pub BlockedParent : List Text → Text → SubjectRef → Type 0
  BlockedParent V c (subject ref) = has V (node_key ref c) ≡ true
  BlockedParent V c (userset _ _) = Unit

  -- The rewrite of a node fails unless a node with a key in `V` holds.
  unfoldable mutual
    pub Blocked : List Text → EntityRef → Text → Userset → Type 0
    Blocked V o r this = All (BlockedSubject V) (subjects_of snapshot.tuples o r)
    Blocked V o r (computed_userset s) = has V (node_key o s) ≡ true
    Blocked V o r (tuple_to_userset ts c) =
        All (BlockedParent V c) (subjects_of snapshot.tuples o ts)
    Blocked V o r (union cs) = AllBlocked V o r cs
    Blocked V o r (intersection cs) = ¬ HoldsAll snapshot target Barred o r cs
    Blocked V o r (exclusion b x) =
        (¬ Holds snapshot target Barred o r b) ⊎ Holds snapshot target Barred o r x

    pub AllBlocked : List Text → EntityRef → Text → Usersets → Type 0
    AllBlocked V o r no_child = Unit
    AllBlocked V o r (child c cs) = Blocked V o r c × AllBlocked V o r cs

  -- Every node with a key in the set is blocked by the set.
  abbrev pub IsClosed : List Text → Type 0
  IsClosed V =
      (o : EntityRef) (r : Text)
      → writable_entity_ref o ≡ true
      → has V (node_key o r) ≡ true
      → Blocked V o r (rewrites_for snapshot.namespaces o.type r)

  module _ (stable : IsStable snapshot target Barred) (written : AreWritable snapshot) where
    at_subject :
        (V : List Text) {s : SubjectRef} {ss : List SubjectRef}
        → All (BlockedSubject V) ss
        → Memᴰ s ss
        → BlockedSubject V s
    at_subject V h m = All-mem (BlockedSubject V) h m

    pub ref_writable :
        (o : EntityRef) (r : Text) (s : SubjectRef)
        → Memᴰ s (subjects_of snapshot.tuples o r)
        → writable_entity_ref (ref_of s) ≡ true
    ref_writable o r s m = All-mem (λ x. writable_entity_ref (ref_of x) ≡ true) (written o r) m

    mutual
      unfolding Blocked AllBlocked

      pub refute-Member :
          (V : List Text) {o : EntityRef} {r : Text}
          → IsClosed V
          → writable_entity_ref o ≡ true
          → has V (node_key o r) ≡ true
          → Member snapshot target Barred o r
          → ⊥
      refute-Member V {o} {r} c w k (node h) = refute-Holds V c w (c o r w k) h

      pub refute-Holds :
          (V : List Text) {o : EntityRef} {r : Text} {x : Userset}
          → IsClosed V
          → writable_entity_ref o ≡ true
          → Blocked V o r x
          → Holds snapshot target Barred o r x
          → ⊥
      refute-Holds V c w b (direct m) = at_subject V b m refl
      refute-Holds V {o} {r} c w b (through {ref} {rel} m h) =
          refute-Member V c (ref_writable o r (userset ref rel) m) (at_subject V b m) h
      refute-Holds V c w b (alias h) = refute-Member V c w b h
      refute-Holds V {o} c w b (parent {ref} {ts} {c = comp} m h) =
          refute-Member V c (ref_writable o ts (subject ref) m) (All-mem (BlockedParent V comp) b m)
            h
      refute-Holds V c w b (some_child h) = refute_any V c w b h
      refute-Holds V c w b (every_child h) = b h
      refute-Holds V {o} {r} c w b (minus {x} h barred) = elim b [
        | inl no_base ↦ no_base h
        | inr subtracted ↦ (stable o r x).0 barred subtracted
      ]

      pub refute_any :
          (V : List Text) {o : EntityRef} {r : Text} {cs : Usersets}
          → IsClosed V
          → writable_entity_ref o ≡ true
          → AllBlocked V o r cs
          → HoldsAny snapshot target Barred o r cs
          → ⊥
      refute_any V c w (b, _) (first h) = refute-Holds V c w b h
      refute_any V c w (_, b) (later h) = refute_any V c w b h
