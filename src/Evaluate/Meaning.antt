-- ===== src/Evaluate/Meaning.antt =====
-- What it means that the target holds a relation on an object: the least relation that is closed
-- under the rewrites. A subtracted operand is read through a relation `Barred`, and `IsStable`
-- says that this relation bars exactly what does not hold.
use accesscore.Prelude.{◌≡◌, ◌↔◌, ◌≢◌, true, none, Text, All}
use mathlib.Core.List.{Memᴰ}
use accesscore.Refs.{EntityRef, SubjectRef, subject, userset, writable_entity_ref}
use accesscore.Usersets.{
  Userset, Usersets, this, computed_userset, tuple_to_userset, union, intersection, exclusion,
  no_child, child,
}
use accesscore.Tuples.{subjects_of}
use accesscore.Namespaces.{rewrites_for}
use accesscore.Evaluate.{EvaluationSnapshot, indexed_depth}

module _ (snapshot : EvaluationSnapshot) (target : EntityRef)
    (Barred : EntityRef → Text → Userset → Type 0) where
  mutual
    pub data Member : EntityRef → Text → Type 0 where
      node :
          {o : EntityRef} {r : Text}
          → Holds o r (rewrites_for snapshot.namespaces o.type r)
          → Member o r

    pub data Holds : EntityRef → Text → Userset → Type 0 where
      direct :
          {o : EntityRef} {r : Text}
          → Memᴰ (subject target) (subjects_of snapshot.tuples o r)
          → Holds o r this
      through :
          {o ref : EntityRef} {r rel : Text}
          → Memᴰ (userset ref rel) (subjects_of snapshot.tuples o r)
          → Member ref rel
          → Holds o r this
      alias : {o : EntityRef} {r s : Text} → Member o s → Holds o r (computed_userset s)
      parent :
          {o ref : EntityRef} {r ts c : Text}
          → Memᴰ (subject ref) (subjects_of snapshot.tuples o ts)
          → Member ref c
          → Holds o r (tuple_to_userset ts c)
      some_child :
          {o : EntityRef} {r : Text} {cs : Usersets} → HoldsAny o r cs → Holds o r (union cs)
      every_child :
          {o : EntityRef} {r : Text} {cs : Usersets} → HoldsAll o r cs → Holds o r (intersection cs)
      minus :
          {o : EntityRef} {r : Text} {b x : Userset}
          → Holds o r b
          → Barred o r x
          → Holds o r (exclusion b x)

    pub data HoldsAny : EntityRef → Text → Usersets → Type 0 where
      first :
          {o : EntityRef} {r : Text} {c : Userset} {cs : Usersets}
          → Holds o r c
          → HoldsAny o r (child c cs)
      later :
          {o : EntityRef} {r : Text} {c : Userset} {cs : Usersets}
          → HoldsAny o r cs
          → HoldsAny o r (child c cs)

    pub data HoldsAll : EntityRef → Text → Usersets → Type 0 where
      no_more : {o : EntityRef} {r : Text} → HoldsAll o r no_child
      also :
          {o : EntityRef} {r : Text} {c : Userset} {cs : Usersets}
          → Holds o r c
          → HoldsAll o r cs
          → HoldsAll o r (child c cs)

  -- A userset is barred exactly where it does not hold.
  abbrev pub IsStable : Type 0
  IsStable = (o : EntityRef) (r : Text) (x : Userset) → Barred o r x ↔ ¬ Holds o r x

  -- What the flattened index answers is so.
  abbrev pub IsIndexSound : Type 0
  IsIndexSound =
      (o : EntityRef) (r : Text) → indexed_depth snapshot.memberships o r target ≢ none → Member o r

abbrev pub ref_of : SubjectRef → EntityRef
ref_of (subject ref) = ref
ref_of (userset ref _) = ref

-- The subjects of the tuples have writable references.
abbrev pub AreWritable : EvaluationSnapshot → Type 0
AreWritable snapshot =
    (o : EntityRef) (r : Text)
    → All (λ s. writable_entity_ref (ref_of s) ≡ true) (subjects_of snapshot.tuples o r)
