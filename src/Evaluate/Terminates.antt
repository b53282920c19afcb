-- ===== src/Evaluate/Terminates.antt =====
-- The walk ends: a fuel that depends on the depth bound and on the heights of the computed usersets
-- is enough, whatever the tuples are and however they cycle.
use accesscore.Prelude.{
  ℕ, zero, suc, ◌+◌, ◌-◌, ◌*◌, ◌≤◌, ◌<◌, ◌≡◌, refl, ◌≢◌, inl, inr, Bool, false, List, [], ◌∷◌, ◌++◌,
  Option, none, some, arith, ltb, not-ltb→le, Text, has, Bool-cases,
}
use mathlib.Core.List.{Memᴰ}
use mathlib.Core.List.Memᴰ
use accesscore.Refs.{EntityRef, SubjectRef, subject, userset, node_key}
use accesscore.Usersets.{
  Userset, Usersets, this, computed_userset, tuple_to_userset, union, intersection, exclusion,
  no_child, child, computed_userset_targets, children_targets,
}
use accesscore.Tuples.{subjects_of}
use accesscore.Namespaces.{NamespaceRegistry, rewrites_for}
use accesscore.Decisions.{Decision, AuthorizationQuery}
use accesscore.Evaluate.{
  max_userset_depth, EvaluationSnapshot, Grant, WalkState, Walked, Walker, fresh, or_else, judge,
  subtract_from, walk_usersets, derive_this, walk_parents, derive_rewrite, derive_union,
  derive_intersection, derive, walk_required, evaluate, required_relations, indexed_depth, within,
  or_next,
}

-- In every namespace the computed usersets of a relation have a smaller height than the relation.
pub record IsStratified (registry : NamespaceRegistry) : Type 0 where
  pub height : Text → Text → ℕ
  pub bound : ℕ
  pub height_le : (type relation : Text) → height type relation ≤ bound
  pub falls :
      (type relation t : Text)
      → Memᴰ t (computed_userset_targets (rewrites_for registry type relation))
      → height type t < height type relation

-- The depths 0 to 10 and the refused one, with every height at each.
abbrev pub enough_fuel : ℕ → ℕ
enough_fuel bound = (max_userset_depth + 2) * (bound + 1)

or_else_total :
    (w : Walked) (wrap : Grant → Grant) (next : WalkState → Walked)
    → w ≢ none
    → ((s : WalkState) → next s ≢ none)
    → or_else w wrap next ≢ none
or_else_total none wrap next h k = absurd (h refl)
or_else_total (some (none, s)) wrap next h k = k s
or_else_total (some (some g, s)) wrap next h k = cc

judge_total :
    (w : Walked) (s : WalkState) (next : Grant → Walked)
    → w ≢ none
    → ((g : Grant) → next g ≢ none)
    → judge w s next ≢ none
judge_total none s next h k = absurd (h refl)
judge_total (some (none, own)) s next h k = ground arith
judge_total (some (some g, own)) s next h k = ground (arith, k g)

subtract_from_total :
    (b : Grant) (w : Walked) (s : WalkState) → w ≢ none → subtract_from b w s ≢ none
subtract_from_total b none s h = absurd (h refl)
subtract_from_total b (some (none, own)) s h = ground arith
subtract_from_total b (some (some g, own)) s h = ground arith

or_next_total :
    (r : Text) (w : Walked) (next : Bool → Option (Option (Text × Grant) × Bool))
    → w ≢ none
    → ((t : Bool) → next t ≢ none)
    → or_next r w next ≢ none
or_next_total r none next h k = absurd (h refl)
or_next_total r (some (none, s)) next h k = k s.truncated
or_next_total r (some (some g, s)) next h k = cc

some_of_ne {ℓ} : {A : Type ℓ} (o : Option A) → o ≢ none → (a : A) × (o ≡ some a)
some_of_ne none h = absurd (h refl)
some_of_ne (some a) h = (a, refl)

module _ (snapshot : EvaluationSnapshot) (target : EntityRef) where
  abbrev Deeper : Walker → ℕ → Type 0
  Deeper walker depth =
      (ref : EntityRef) (rel : Text) (s : WalkState) → walker ref rel (depth + 1) s ≢ none

  walk_usersets_total :
      (walker : Walker) (o : EntityRef) (r : Text) (depth : ℕ) (subjects : List SubjectRef)
      (s : WalkState)
      → Deeper walker depth
      → walk_usersets snapshot target walker o r depth subjects s ≢ none
  unfolding walk_usersets
  walk_usersets_total walker o r depth [] s h = cc
  walk_usersets_total walker o r depth (subject _ ∷ subjects) s h =
      walk_usersets_total walker o r depth subjects s h
  walk_usersets_total walker o r depth (userset ref rel ∷ subjects) s h =
      elim (Bool-cases (within depth (indexed_depth snapshot.memberships ref rel target))) [
        | inl hit ↦ rw hit cc
        | inr miss ↦ rw miss (
            or_else_total (walker ref rel (depth + 1) s) _ _ (h ref rel s)
              (λ s'. walk_usersets_total walker o r depth subjects s' h))
      ]

  walk_parents_total :
      (walker : Walker) (o : EntityRef) (tupleset computed : Text) (depth : ℕ)
      (subjects : List SubjectRef) (s : WalkState)
      → Deeper walker depth
      → walk_parents snapshot target walker o tupleset computed depth subjects s ≢ none
  unfolding walk_parents
  walk_parents_total walker o ts c depth [] s h = cc
  walk_parents_total walker o ts c depth (userset _ _ ∷ subjects) s h =
      walk_parents_total walker o ts c depth subjects s h
  walk_parents_total walker o ts c depth (subject ref ∷ subjects) s h =
      or_else_total (walker ref c (depth + 1) s) _ _ (h ref c s)
        (λ s'. walk_parents_total walker o ts c depth subjects s' h)

  abbrev Level : Walker → EntityRef → ℕ → List Text → Type 0
  Level walker o depth targets =
      (t : Text) (s : WalkState) → Memᴰ t targets → walker o t depth s ≢ none

  mutual
    unfolding derive_rewrite derive_union derive_intersection derive_this computed_userset_targets
        children_targets

    derive_rewrite_total :
        (walker : Walker) (o : EntityRef) (r : Text) (depth : ℕ) (tree : Userset) (s : WalkState)
        → Deeper walker depth
        → Level walker o depth (computed_userset_targets tree)
        → derive_rewrite snapshot target walker o r depth tree s ≢ none
    derive_rewrite_total walker o r depth this s h k =
        ground (arith, walk_usersets_total walker o r depth (subjects_of snapshot.tuples o r) s h)
    derive_rewrite_total walker o r depth (computed_userset t) s h k =
        or_else_total (walker o t depth s) _ _ (k t s (Memᴰ.head refl)) (λ s'. cc)
    derive_rewrite_total walker o r depth (tuple_to_userset ts c) s h k =
        walk_parents_total walker o ts c depth (subjects_of snapshot.tuples o ts) s h
    derive_rewrite_total walker o r depth (union cs) s h k =
        derive_union_total walker o r depth cs s h k
    derive_rewrite_total walker o r depth (intersection cs) s h k =
        derive_intersection_total walker o r depth cs [] s h k
    derive_rewrite_total walker o r depth (exclusion b x) s h k =
        judge_total _ s _
          (derive_rewrite_total walker o r depth b fresh h
            (λ t s' m. k t s' (Memᴰ.append_left (computed_userset_targets x) m)))
          (λ g. subtract_from_total g _ s (
            derive_rewrite_total walker o r depth x fresh h
              (λ t s' m. k t s' (Memᴰ.append_right (computed_userset_targets b) m))))

    derive_union_total :
        (walker : Walker) (o : EntityRef) (r : Text) (depth : ℕ) (cs : Usersets) (s : WalkState)
        → Deeper walker depth
        → Level walker o depth (children_targets cs)
        → derive_union snapshot target walker o r depth cs s ≢ none
    derive_union_total walker o r depth no_child s h k = cc
    derive_union_total walker o r depth (child c cs) s h k =
        or_else_total _ _ _
          (derive_rewrite_total walker o r depth c s h
            (λ t s' m. k t s' (Memᴰ.append_left (children_targets cs) m)))
          (λ s'.
            derive_union_total walker o r depth cs s' h
              (λ t s'' m. k t s'' (Memᴰ.append_right (computed_userset_targets c) m)))

    derive_intersection_total :
        (walker : Walker) (o : EntityRef) (r : Text) (depth : ℕ) (cs : Usersets) (path : List Text)
        (s : WalkState)
        → Deeper walker depth
        → Level walker o depth (children_targets cs)
        → derive_intersection snapshot target walker o r depth cs path s ≢ none
    derive_intersection_total walker o r depth no_child path s h k = cc
    derive_intersection_total walker o r depth (child c cs) path s h k =
        judge_total _ s _
          (derive_rewrite_total walker o r depth c fresh h
            (λ t s' m. k t s' (Memᴰ.append_left (children_targets cs) m)))
          (λ g.
            derive_intersection_total walker o r depth cs (path ++ g.path) s h
              (λ t s'' m. k t s'' (Memᴰ.append_right (computed_userset_targets c) m)))

  module _ (k : IsStratified snapshot.namespaces) where
    -- What a walk at this depth and height may still need.
    abbrev need : ℕ → ℕ → ℕ
    need depth height = (max_userset_depth + 1 - depth) * (k.bound + 1) + height

    need_deeper :
        (fuel depth height lower : ℕ)
        → need depth height < suc fuel
        → depth ≤ max_userset_depth
        → lower ≤ k.bound
        → need (depth + 1) lower < fuel
    need_deeper fuel depth height lower h d l = grind arith

    pub derive_total :
        (fuel : ℕ) (o : EntityRef) (r : Text) (depth : ℕ) (s : WalkState)
        → need depth (k.height o.type r) < fuel
        → derive snapshot target fuel o r depth s ≢ none
    unfolding derive
    derive_total zero o r depth s h = elim h [ ]
    derive_total (suc fuel) o r depth s h = elim (Bool-cases (ltb max_userset_depth depth)) [
      | inl deep ↦ rw deep cc
      | inr shallow ↦ elim (Bool-cases (has s.visited (node_key o r))) [
        | inl seen ↦ rw (shallow, seen) cc
        | inr new ↦
            rw (shallow, new)
              (derive_rewrite_total (derive snapshot target fuel) o r depth _ _
                (λ ref rel s'.
                  let low : need (depth + 1) (k.height ref.type rel) < fuel =
                    need_deeper fuel depth (k.height o.type r) (k.height ref.type rel) h
                      (not-ltb→le max_userset_depth depth shallow) (k.height_le ref.type rel) in
                  derive_total fuel ref rel (depth + 1) s' low)
                (λ t s' m.
                  let low : need depth (k.height o.type t) < fuel =
                    omega (arith, k.falls o.type r t m) in
                  derive_total fuel o t depth s' low))
      ]
    ]

    walk_required_total :
        (fuel : ℕ) (resource : EntityRef) (relations : List Text) (truncated : Bool)
        → enough_fuel k.bound ≤ fuel
        → walk_required snapshot target fuel resource relations truncated ≢ none
    unfolding walk_required
    walk_required_total fuel resource [] truncated h = cc
    walk_required_total fuel resource (r ∷ rs) truncated h =
        or_next_total r _ _
          (derive_total fuel resource r 0 _ (omega (arith, k.height_le resource.type r)))
          (λ t. walk_required_total fuel resource rs t h)

-- With the fuel for the heights of its namespaces, the evaluation of any query ends in a decision.
pub evaluate_total :
    (fuel : ℕ) (query : AuthorizationQuery) (snapshot : EvaluationSnapshot)
    (k : IsStratified snapshot.namespaces)
    → enough_fuel k.bound ≤ fuel
    → (d : Decision) × (evaluate fuel query snapshot ≡ some d)
unfolding evaluate
evaluate_total fuel query snapshot k h = some_of_ne (evaluate fuel query snapshot) returns
  where
    walked :
        walk_required snapshot query.subject_of fuel query.resource
          (required_relations snapshot query)
          false
        ≢ none
    walked =
        walk_required_total snapshot query.subject_of k fuel query.resource
          (required_relations snapshot query) false h

    returns : evaluate fuel query snapshot ≢ none
    returns = ground (arith, walked)
