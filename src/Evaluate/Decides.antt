-- ===== src/Evaluate/Decides.antt =====
-- What a decision of `evaluate` says about the relations that the query requires.
use accesscore.Prelude.{
  ℕ, ◌≡◌, refl, subst, ◌≢◌, inl, inr, Bool, true, false, List, [], ◌∷◌, Option, none, some, arith,
  Text, has, All, Bool-cases,
}
use mathlib.Core.List.{Memᴰ}
use accesscore.Refs.{org_equals, EntityRef, writable_entity_ref, node_key}
use accesscore.Refs.Keys.{org_equals_iff}
use accesscore.Usersets.{Userset}
use accesscore.Namespaces.{NamespaceDefinition, registry_all, is_nil}
use accesscore.Decisions.{permit, deny, walk_truncated, Decision, denied, AuthorizationQuery}
use accesscore.Evaluate.{
  EvaluationSnapshot, Grant, Walked, or_next, walk_required, conclude, foreign_namespace,
  required_relations, evaluate, default_reasons,
}
use accesscore.Evaluate.Meaning.{Member, IsStable, IsIndexSound, AreWritable}
use accesscore.Evaluate.Refute.{refute-Member}
use accesscore.Evaluate.Walks.{Post, IsClosed-of_Extends}
use accesscore.Evaluate.Correct.{derive-Post}

module _ (snapshot : EvaluationSnapshot) (target : EntityRef)
    (Barred : EntityRef → Text → Userset → Type 0) (stable : IsStable snapshot target Barred)
    (indexed : IsIndexSound snapshot target Barred) (written : AreWritable snapshot) where
  abbrev Held : EntityRef → Text → Type 0
  Held o r = Member snapshot target Barred o r

  -- What the loop over the required relations establishes, from a flag `t₀`.
  abbrev Settles : Bool → EntityRef → List Text → Option (Option (Text × Grant) × Bool) → Type 0
  Settles t₀ o rs none = Unit
  Settles t₀ o rs (some (some (r, g), t)) = Memᴰ r rs × Held o r
  Settles t₀ o rs (some (none, t)) = t ≡ false → (t₀ ≡ false) × All (λ r. ¬ Held o r) rs

  Settles-later :
      (t₀ t₁ : Bool) (o : EntityRef) (r : Text) (rs : List Text)
      (w : Option (Option (Text × Grant) × Bool))
      → (t₁ ≡ false → (t₀ ≡ false) × (¬ Held o r))
      → Settles t₁ o rs w
      → Settles t₀ o (r ∷ rs) w
  Settles-later t₀ t₁ o r rs none n p = tt
  Settles-later t₀ t₁ o r rs (some (some (q, g), t)) n (m, p) = (Memᴰ.tail m, p)
  Settles-later t₀ t₁ o r rs (some (none, t)) n p =
      λ e. let (e₁, others) = p e in let (e₀, missed) = n e₁ in (e₀, (missed, others))

  Settles-next :
      (t₀ : Bool) (o : EntityRef) (r : Text) (rs : List Text) (w : Walked)
      (next : Bool → Option (Option (Text × Grant) × Bool))
      → writable_entity_ref o ≡ true
      → Post snapshot target Barred
          (Held o r)
          (λ V. has V (node_key o r) ≡ true)
          (record { visited = []; truncated = t₀ })
          w
      → ((t₁ : Bool) → Settles t₁ o rs (next t₁))
      → Settles t₀ o (r ∷ rs) (or_next r w next)
  Settles-next t₀ o r rs none next k p n = tt
  Settles-next t₀ o r rs (some (some g, s)) next k p n = (Memᴰ.head refl, p)
  Settles-next t₀ o r rs (some (none, s)) next k p n =
      Settles-later t₀ s.truncated o r rs (next s.truncated)
        (λ e.
          let (e₀, x, keyed) = p e in
          (
            e₀,
            refute-Member snapshot target Barred stable written s.visited
                (IsClosed-of_Extends snapshot target Barred s.visited x) k keyed,
          ))
        (n s.truncated)

  walk_required-Settles :
      (fuel : ℕ) (o : EntityRef) (rs : List Text) (t₀ : Bool)
      → writable_entity_ref o ≡ true
      → Settles t₀ o rs (walk_required snapshot target fuel o rs t₀)
  unfolding walk_required
  walk_required-Settles fuel o [] t₀ w = λ e. (e, tt)
  walk_required-Settles fuel o (r ∷ rs) t₀ w =
      Settles-next t₀ o r rs _ _ w
        (derive-Post snapshot target Barred stable indexed written fuel o r 0 _ w)
        (λ t₁. walk_required-Settles fuel o rs t₁ w)

All-native :
    (query : AuthorizationQuery) (ds : List NamespaceDefinition)
    → foreign_namespace query ds ≡ false
    → All (λ d. d.org_id ≡ query.org_id) ds
unfolding foreign_namespace
All-native query [] h = tt
All-native query (d ∷ ds) h =
    let own : org_equals d.org_id query.org_id ≡ true = ground arith in
    ((org_equals_iff d.org_id query.org_id).0 own, All-native query ds (ground arith))

-- The reasons report no truncated walk.
abbrev pub IsWhole : Decision → Type 0
IsWhole d = All (λ r. r.code ≢ walk_truncated) d.reasons

module _ (query : AuthorizationQuery) (snapshot : EvaluationSnapshot)
    (Barred : EntityRef → Text → Userset → Type 0)
    (stable : IsStable snapshot query.subject_of Barred)
    (indexed : IsIndexSound snapshot query.subject_of Barred) (written : AreWritable snapshot) where
  abbrev Has : Text → Type 0
  Has r = Member snapshot query.subject_of Barred query.resource r

  abbrev Settled : Option (Option (Text × Grant) × Bool) → Type 0
  Settled w =
      Settles snapshot query.subject_of Barred stable indexed written false query.resource
        (required_relations snapshot query) w

  conclude-permit :
      (w : Option (Option (Text × Grant) × Bool)) (d : Decision)
      → Settled w
      → conclude query w ≡ some d
      → d.effect ≡ permit
      → (r : Text) × Memᴰ r (required_relations snapshot query) × Has r
  conclude-permit none d p e h = cc
  conclude-permit (some (none, t)) d p e h = absurd (ground arith)
  conclude-permit (some (some (r, g), t)) d (m, p) e h = (r, m, p)

  conclude-deny :
      (w : Option (Option (Text × Grant) × Bool)) (d : Decision)
      → Settled w
      → conclude query w ≡ some d
      → d.effect ≡ deny
      → IsWhole d
      → All (λ r. ¬ Has r) (required_relations snapshot query)
  conclude-deny none d p e h k = cc
  conclude-deny (some (none, false)) d p e h k = (p refl).1
  conclude-deny (some (none, true)) d p e h k =
      let same : d ≡ denied (default_reasons true) = ground arith in
      absurd ((subst IsWhole same k).1.0 refl)
  conclude-deny (some (some (r, g), t)) d p e h k = absurd (ground arith)

  -- A permit means that the snapshot belongs to the query's organization and so do its namespaces,
  -- and that the subject holds one of the relations that the action requires. It is assumed that
  -- `Barred` bars exactly what does not hold, that the flattened index answers only what holds, and
  -- that the references of the snapshot's subjects and of the resource are writable.
  pub evaluate_sound :
      (fuel : ℕ) (d : Decision)
      → writable_entity_ref query.resource ≡ true
      → evaluate fuel query snapshot ≡ some d
      → d.effect ≡ permit
      → (snapshot.tuples.org_id ≡ query.org_id)
        × All (λ n. n.org_id ≡ query.org_id) (registry_all snapshot.namespaces)
        × ((r : Text) × Memᴰ r (required_relations snapshot query) × Has r)
  unfolding evaluate
  evaluate_sound fuel d w e h =
      let own : org_equals snapshot.tuples.org_id query.org_id ≡ true = ground arith in
      let native : foreign_namespace query (registry_all snapshot.namespaces) ≡ false =
        ground arith in
      let concluded : conclude query (
            walk_required snapshot query.subject_of fuel query.resource
              (required_relations snapshot query) false)
          ≡ some d =
        ground arith in
      (
        (org_equals_iff snapshot.tuples.org_id query.org_id).0 own,
        All-native query (registry_all snapshot.namespaces) native,
        conclude-permit _ d
            (walk_required-Settles snapshot query.subject_of Barred stable indexed written fuel
              query.resource (required_relations snapshot query) false w)
            concluded h,
      )

  is_nil-nil : (rs : List Text) → is_nil rs ≡ true → All (λ r. ¬ Has r) rs
  is_nil-nil [] h = tt
  is_nil-nil (r ∷ rs) h = absurd (cc h)

  -- A denial within the organization that reports no truncated walk means that the subject holds
  -- none of the relations that the action requires. It is assumed that `Barred` bars exactly what
  -- does not hold, that the flattened index answers only what holds, and that the references of the
  -- snapshot's subjects and of the resource are writable.
  pub evaluate_complete :
      (fuel : ℕ) (d : Decision)
      → writable_entity_ref query.resource ≡ true
      → org_equals snapshot.tuples.org_id query.org_id ≡ true
      → foreign_namespace query (registry_all snapshot.namespaces) ≡ false
      → evaluate fuel query snapshot ≡ some d
      → d.effect ≡ deny
      → IsWhole d
      → All (λ r. ¬ Has r) (required_relations snapshot query)
  unfolding evaluate
  evaluate_complete fuel d w own native e h k =
      elim (Bool-cases (is_nil (required_relations snapshot query))) [
        | inl empty ↦ is_nil-nil (required_relations snapshot query) empty
        | inr filled ↦
            let concluded : conclude query (
                  walk_required snapshot query.subject_of fuel query.resource
                    (required_relations snapshot query) false)
                ≡ some d =
              ground arith in
            conclude-deny _ d
              (walk_required-Settles snapshot query.subject_of Barred stable indexed written fuel
                query.resource (required_relations snapshot query) false w)
              concluded h k
      ]
