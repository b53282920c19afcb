-- ===== src/Flatten/Meets.antt =====
-- Members of two lists (evaluate.ts: the case `intersection` of `collectRewrite`).
use accesscore.Prelude.{
  ◌≤◌, max, ◌≡◌, sym, subst, inl, inr, true, false, List, [], ◌∷◌, Option, none, some, arith, All,
  All-append, All-mono, Bool-cases,
}
use accesscore.Refs.{EntityRef, ref_equals}
use accesscore.Refs.Keys.{ref_equals_iff}
use accesscore.Flatten.{FlatMember, meet_one, meet, meet_next}

-- A predicate of the references of listed members, with the bound of the depth.
abbrev pub OfRef : (EntityRef → Type 0) → FlatMember → Type 0
OfRef K m = K m.ref × (m.depth ≤ 10)

abbrev pub Both : (EntityRef → Type 0) → (EntityRef → Type 0) → EntityRef → Type 0
Both K H x = K x × H x

meet_one-hit :
    (member other : FlatMember) (others : List FlatMember)
    → ref_equals other.ref member.ref ≡ true
    → meet_one (other ∷ others) member
      ≡ record { ref = member.ref; depth = max member.depth other.depth } ∷ []
meet_one-hit member other others h = cc h

meet_one-miss :
    (member other : FlatMember) (others : List FlatMember)
    → ref_equals other.ref member.ref ≡ false
    → meet_one (other ∷ others) member ≡ meet_one others member
meet_one-miss member other others h = cc h

-- What is known of the members so far: of everybody, where no child was met yet.
abbrev pub Known : (EntityRef → Type 0) → Option (List FlatMember) → Type 0
Known P none = (x : EntityRef) → P x
Known P (some members) = All (OfRef P) members

module _ (K H : EntityRef → Type 0) where
  met :
      (member : FlatMember) (others : List FlatMember)
      → OfRef K member
      → All (OfRef H) others
      → All (OfRef (Both K H)) (meet_one others member)
  met member [] k h = tt
  met member (other ∷ others) (k, low) ((p, low'), h) =
      elim (Bool-cases (ref_equals other.ref member.ref)) [
        | inl same ↦
            let e : other.ref ≡ member.ref = (ref_equals_iff other.ref member.ref).0 same in
            subst (All (OfRef (Both K H))) (sym (meet_one-hit member other others same))
              (((k, subst H e p), omega (arith, low, low')), tt)
        | inr different ↦
            subst (All (OfRef (Both K H))) (sym (meet_one-miss member other others different))
              (met member others (k, low) h)
      ]

  meet-All :
      (members others : List FlatMember)
      → All (OfRef K) members
      → All (OfRef H) others
      → All (OfRef (Both K H)) (meet members others)
  unfolding meet
  meet-All [] others k h = tt
  meet-All (m ∷ ms) others (k, ks) h =
      All-append (OfRef (Both K H)) (meet_one others m) (meet ms others) (met m others k h)
        (meet-All ms others ks h)

  pub meet_next-Known :
      (acc : Option (List FlatMember)) (nested : List FlatMember)
      → Known K acc
      → All (OfRef H) nested
      → Known (Both K H) (some (meet_next acc nested))
  meet_next-Known none nested k h =
      All-mono (OfRef H) (OfRef (Both K H)) nested (λ m p. ((k m.ref, p.0), p.1)) h
  meet_next-Known (some members) nested k h = meet-All members nested k h
