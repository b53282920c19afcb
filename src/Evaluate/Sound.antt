-- ===== src/Evaluate/Sound.antt =====
-- Every step of `derive` keeps what a walk establishes.
use accesscore.Prelude.{
  ℕ, ◌+◌, ◌≡◌, refl, sym, ap, ◌≢◌, inl, inr, true, List, [], ◌∷◌, Option, none, some, Text, has,
  All, Bool-cases, Option-cases,
}
use mathlib.Core.List.{Memᴰ}
use accesscore.Refs.{
  EntityRef, SubjectRef, subject, userset, writable_entity_ref, node_key, ref_equals,
}
use accesscore.Refs.Keys.{ref_equals_iff}
use accesscore.Usersets.{Userset, this, tuple_to_userset}
use accesscore.Tuples.{subjects_of}
use accesscore.Evaluate.{
  EvaluationSnapshot, Grant, WalkState, Walked, Walker, direct_or, indexed_depth, within,
  direct_grant, walk_usersets, derive_this, walk_parents,
}
use accesscore.Evaluate.Meaning.{
  Member, Holds, direct, through, parent, IsStable, IsIndexSound, AreWritable,
}
use accesscore.Evaluate.Refute.{BlockedSubject, BlockedParent, Blocked, ref_writable}
use accesscore.Evaluate.Walks.{Extends-refl, Post, Post-weaken, Post-or_else}

module _ (snapshot : EvaluationSnapshot) (target : EntityRef)
    (Barred : EntityRef → Text → Userset → Type 0) (stable : IsStable snapshot target Barred)
    (indexed : IsIndexSound snapshot target Barred) (written : AreWritable snapshot) where
  abbrev pub MemberOf : EntityRef → Text → Type 0
  MemberOf o r = Member snapshot target Barred o r

  abbrev pub HoldsAt : EntityRef → Text → Userset → Type 0
  HoldsAt o r x = Holds snapshot target Barred o r x

  abbrev pub Leaves : Type 0 → (List Text → Type 0) → WalkState → Walked → Type 0
  Leaves H B s w = Post snapshot target Barred H B s w

  abbrev pub Keyed : EntityRef → Text → List Text → Type 0
  Keyed o r V = has V (node_key o r) ≡ true

  abbrev pub IsSoundWalker : Walker → Type 0
  IsSoundWalker walker =
      (o : EntityRef) (r : Text) (depth : ℕ) (s : WalkState)
      → writable_entity_ref o ≡ true
      → Leaves (MemberOf o r) (Keyed o r) s (walker o r depth s)

  abbrev Among : EntityRef → Text → List SubjectRef → Type 0
  Among o r ss = (s : SubjectRef) → Memᴰ s ss → Memᴰ s (subjects_of snapshot.tuples o r)

  direct_grant-some :
      (o : EntityRef) (r : Text) (ss : List SubjectRef) (g : Grant)
      → direct_grant snapshot target o r ss ≡ some g
      → Memᴰ (subject target) ss
  unfolding direct_grant
  direct_grant-some o r [] g e = cc
  direct_grant-some o r (userset ref rel ∷ ss) g e = Memᴰ.tail (direct_grant-some o r ss g e)
  direct_grant-some o r (subject ref ∷ ss) g e = elim (Bool-cases (ref_equals ref target)) [
    | inl hit ↦ Memᴰ.head (ap subject (sym ((ref_equals_iff ref target).0 hit)))
    | inr miss ↦ Memᴰ.tail (direct_grant-some o r ss g (rw miss at e))
  ]

  abbrev NotTarget : SubjectRef → Type 0
  NotTarget (subject ref) = ref ≢ target
  NotTarget (userset _ _) = Unit

  abbrev KeyedUserset : List Text → SubjectRef → Type 0
  KeyedUserset V (subject _) = Unit
  KeyedUserset V (userset ref rel) = Keyed ref rel V

  direct_grant-none :
      (o : EntityRef) (r : Text) (ss : List SubjectRef)
      → direct_grant snapshot target o r ss ≡ none
      → All NotTarget ss
  unfolding direct_grant
  direct_grant-none o r [] e = tt
  direct_grant-none o r (userset ref rel ∷ ss) e = (tt, direct_grant-none o r ss e)
  direct_grant-none o r (subject ref ∷ ss) e = elim (Bool-cases (ref_equals ref target)) [
    | inl hit ↦ absurd (cc (rw hit at e))
    | inr miss ↦ (
      λ same. absurd (cc ((ref_equals_iff ref target).1 same)),
      direct_grant-none o r ss (rw miss at e),
    )
  ]

  blocked_subjects :
      (V : List Text) (ss : List SubjectRef)
      → All NotTarget ss
      → All (KeyedUserset V) ss
      → All (BlockedSubject snapshot target Barred V) ss
  blocked_subjects V [] h k = tt
  blocked_subjects V (subject ref ∷ ss) (p, h) (q, k) = (p, blocked_subjects V ss h k)
  blocked_subjects V (userset ref rel ∷ ss) (p, h) (q, k) = (q, blocked_subjects V ss h k)

  within-some : (depth : ℕ) (o : Option ℕ) → within depth o ≡ true → o ≢ none
  within-some depth none h = cc
  within-some depth (some d) h = cc

  walk_usersets-Post :
      (walker : Walker) (o : EntityRef) (r : Text) (depth : ℕ) (ss : List SubjectRef)
      (s : WalkState)
      → IsSoundWalker walker
      → Among o r ss
      → Leaves
          (HoldsAt o r this)
          (λ V. All (KeyedUserset V) ss)
          s
          (walk_usersets snapshot target walker o r depth ss s)
  unfolding walk_usersets
  walk_usersets-Post walker o r depth [] s h a =
      λ e. (e, Extends-refl snapshot target Barred s.visited, tt)
  walk_usersets-Post walker o r depth (subject ref ∷ ss) s h a =
      Post-weaken snapshot target Barred (HoldsAt o r this) (HoldsAt o r this)
        (λ V. All (KeyedUserset V) ss) _ s _ (λ x. x) (λ V b. (tt, b))
        (walk_usersets-Post walker o r depth ss s h (λ x m. a x (Memᴰ.tail m)))
  walk_usersets-Post walker o r depth (userset ref rel ∷ ss) s h a =
      elim (Bool-cases (within depth (indexed_depth snapshot.memberships ref rel target))) [
        | inl hit ↦ rw hit (through here (indexed ref rel (within-some depth _ hit)))
        | inr miss ↦ rw miss (
            Post-or_else snapshot target Barred (MemberOf ref rel) (HoldsAt o r this)
              (Keyed ref rel) (λ V. All (KeyedUserset V) ss) _ s (walker ref rel (depth + 1) s) _ _
              (h ref rel (depth + 1) s
                (ref_writable snapshot target Barred stable written o r (userset ref rel) here))
              (λ x. through here x)
              (λ s'. walk_usersets-Post walker o r depth ss s' h (λ x m. a x (Memᴰ.tail m)))
              (λ V V' g k b. (g (node_key ref rel) k, b)))
      ]
    where
      here : Memᴰ (userset ref rel) (subjects_of snapshot.tuples o r)
      here = a (userset ref rel) (Memᴰ.head refl)

  pub derive_this-Post :
      (walker : Walker) (o : EntityRef) (r : Text) (depth : ℕ) (s : WalkState)
      → IsSoundWalker walker
      → Leaves
          (HoldsAt o r this)
          (λ V. Blocked snapshot target Barred V o r this)
          s
          (derive_this snapshot target walker o r depth s)
  unfolding derive_this Blocked
  derive_this-Post walker o r depth s h =
      let ss = subjects_of snapshot.tuples o r in
      elim (Option-cases (direct_grant snapshot target o r ss)) [
        | inr (g, found) ↦ rw (found, direct_or) (direct (direct_grant-some o r ss g found))
        | inl missed ↦
            rw (missed, direct_or)
              (Post-weaken snapshot target Barred (HoldsAt o r this) (HoldsAt o r this)
                (λ V. All (KeyedUserset V) ss) _ s _ (λ x. x)
                (λ V b. blocked_subjects V ss (direct_grant-none o r ss missed) b)
                (walk_usersets-Post walker o r depth ss s h (λ x m. m)))
      ]

  pub walk_parents-Post :
      (walker : Walker) (o : EntityRef) (r ts c : Text) (depth : ℕ) (ss : List SubjectRef)
      (s : WalkState)
      → IsSoundWalker walker
      → Among o ts ss
      → Leaves
          (HoldsAt o r (tuple_to_userset ts c))
          (λ V. All (BlockedParent snapshot target Barred V c) ss)
          s
          (walk_parents snapshot target walker o ts c depth ss s)
  unfolding walk_parents
  walk_parents-Post walker o r ts c depth [] s h a =
      λ e. (e, Extends-refl snapshot target Barred s.visited, tt)
  walk_parents-Post walker o r ts c depth (userset ref rel ∷ ss) s h a =
      Post-weaken snapshot target Barred (HoldsAt o r (tuple_to_userset ts c))
        (HoldsAt o r (tuple_to_userset ts c))
        (λ V. All (BlockedParent snapshot target Barred V c) ss) _ s _ (λ x. x) (λ V b. (tt, b))
        (walk_parents-Post walker o r ts c depth ss s h (λ x m. a x (Memᴰ.tail m)))
  walk_parents-Post walker o r ts c depth (subject ref ∷ ss) s h a =
      Post-or_else snapshot target Barred (MemberOf ref c) (HoldsAt o r (tuple_to_userset ts c))
        (Keyed ref c) (λ V. All (BlockedParent snapshot target Barred V c) ss) _ s
        (walker ref c (depth + 1) s) _ _
        (h ref c (depth + 1) s
          (ref_writable snapshot target Barred stable written o ts (subject ref) here))
        (λ x. parent here x)
        (λ s'. walk_parents-Post walker o r ts c depth ss s' h (λ x m. a x (Memᴰ.tail m)))
        (λ V V' g k b. (g (node_key ref c) k, b))
    where
      here : Memᴰ (subject ref) (subjects_of snapshot.tuples o ts)
      here = a (subject ref) (Memᴰ.head refl)
