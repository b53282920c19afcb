-- ===== src/Namespaces/Ranks.antt =====
-- `hasComputedUsersetCycle` (namespace-config.ts) answers, and answers whether there is a cycle.
use accesscore.Prelude.{
  ℕ, suc, ◌≤◌, ◌<◌, ◌≡◌, refl, sym, ap, subst, ◌≢◌, ◌↔◌, inl, inr, Bool, true, false, List, [], ◌∷◌,
  Option, none, some, arith, if◌then◌else◌, length, Text, ◌==◌, eq_of_true, has, has_iff,
  Bool-cases,
}
use mathlib.Core.List.{Memᴰ}
use accesscore.Namespaces.{
  WalkSets, targets_of, walk, keys, answer, cycle_fuel, has_computed_userset_cycle,
}
use accesscore.Namespaces.Cycles.{
  Leads, edge, further, Topo, AllDone, Post, Chain, room, walk_each-Post, walk-Post,
  targets_of_absent, no_member,
}

module _ (edges : List (Text × List Text)) where
  -- A rank that falls along every edge: the place of the last occurrence among what is done.
  pub rank : List Text → Text → ℕ
  rank [] r = 0
  rank (d ∷ done) r = if has done r then rank done r else if d == r then suc (length done) else 0

  pub rank_le : (done : List Text) (r : Text) → rank done r ≤ length done
  unfolding rank
  rank_le [] r = omega arith
  rank_le (d ∷ done) r = ground (arith, rank_le done r)

  closed :
      (done : List Text) (r t : Text)
      → Topo edges done
      → has done r ≡ true
      → Memᴰ t (targets_of edges r)
      → has done t ≡ true
  unfolding has
  closed [] r t o h m = cc
  closed (d ∷ done) r t (a, o) h m = elim (Bool-cases (d == r)) [
    | inl same ↦
        let here : has done t ≡ true =
          a t (subst (λ x. Memᴰ t (targets_of edges x)) (sym (eq_of_true same)) m) in
        ground arith
    | inr other ↦
        let later : has done t ≡ true = closed done r t o (rw other at h) m in ground arith
  ]

  pub rank_falls :
      (done : List Text) (r t : Text)
      → Topo edges done
      → has done r ≡ true
      → Memᴰ t (targets_of edges r)
      → rank done t < rank done r
  unfolding rank has
  rank_falls [] r t o h m = cc
  rank_falls (d ∷ done) r t (a, o) h m = elim (Bool-cases (has done r)) [
    | inl again ↦
        let old : has done t ≡ true = closed done r t o again m in
        rw (again, old) (rank_falls done r t o again m)
    | inr last ↦
        let same : (d == r) ≡ true = ground arith in
        let old : has done t ≡ true =
          a t (subst (λ x. Memᴰ t (targets_of edges x)) (sym (eq_of_true same)) m) in
        rw (last, same, old) (omega (arith, rank_le done t))
  ]

-- A rank with which every edge goes down, and a bound of it.
pub record IsRanked (targets : Text → List Text) : Type 0 where
  pub height : Text → ℕ
  pub bound : ℕ
  pub height_le : (r : Text) → height r ≤ bound
  pub falls : (r t : Text) → Memᴰ t (targets r) → height t < height r

module _ (edges : List (Text × List Text)) where
  IsRanked-done :
      (done : List Text)
      → Topo edges done
      → AllDone edges done (keys edges)
      → IsRanked (targets_of edges)
  IsRanked-done done o a = record {
    height = rank edges done;
    bound = length done;
    height_le = rank_le edges done;
    falls = λ r t m. rank_falls edges done r t o (a r (key_of_target r t m)) m;
  }
    where
      key_of_target : (r t : Text) → Memᴰ t (targets_of edges r) → Memᴰ r (keys edges)
      key_of_target r t m = elim (Bool-cases (has (keys edges) r)) [
        | inl key ↦ has_iff (keys edges) r key
        | inr absent ↦
            absurd (no_member (subst (λ ts. Memᴰ t ts) (targets_of_absent edges r absent) m))
      ]

  fall_of_Leads :
      {r t : Text} (k : IsRanked (targets_of edges)) → Leads edges r t → k.height t < k.height r
  fall_of_Leads {r} {t} k (edge m) = k.falls r t m
  fall_of_Leads {r} {t} k (further {s} l m) = omega (arith, fall_of_Leads k l, k.falls s t m)

  -- What the answer means, and that there is one.
  abbrev pub Answers : Option Bool → Type 0
  Answers none = ⊥
  Answers (some true) = (r : Text) × Leads edges r r
  Answers (some false) = IsRanked (targets_of edges)

  room-length : (ks V : List Text) → room ks V ≤ length ks
  unfolding room
  room-length [] V = omega arith
  room-length (k ∷ ks) V = ground (arith, room-length ks V)

  length-keys : (es : List (Text × List Text)) → length (keys es) ≡ length es
  length-keys [] = refl
  length-keys (e ∷ es) = ap suc (length-keys es)

  Post-Answers :
      (s : WalkSets) (res : Option (Bool × WalkSets))
      → Post edges s (keys edges) res
      → Answers (answer res)
  Post-Answers s none p = p
  Post-Answers s (some (true, s')) p = p
  Post-Answers s (some (false, s')) (v, o, a, g) = IsRanked-done s'.done o a

  pub has_computed_userset_cycle-Answers : Answers (has_computed_userset_cycle edges)
  unfolding has_computed_userset_cycle has
  has_computed_userset_cycle-Answers =
      let start : WalkSets = record { visiting = []; done = [] } in
      Post-Answers start _ (
        walk_each-Post edges (walk edges (cycle_fuel edges)) [] (keys edges) start refl tt
          λ t u m e o.
            let fits : room (keys edges) u.visiting < cycle_fuel edges =
              omega (arith, room-length (keys edges) u.visiting, length-keys edges) in
            walk-Post edges (cycle_fuel edges) t u fits o (rw e (nothing t)))
    where
      nothing : (t : Text) → Chain edges [] t
      nothing t v h = cc

  Answers-cases :
      (o : Option Bool)
      → Answers o
      → (o ≢ none)
        × ((o ≡ some true) ↔ ((r : Text) × Leads edges r r))
        × ((o ≡ some false) ↔ ¬ ((r : Text) × Leads edges r r))
  Answers-cases none a = absurd a
  Answers-cases (some true) a = (cc, (λ _. a, λ _. refl), (λ e. cc, λ n. absurd (n a)))
  Answers-cases (some false) a = (cc, (λ e. cc, λ c. absurd (acyclic c)), (λ _. acyclic, λ _. refl))
    where
      acyclic : ¬ ((r : Text) × Leads edges r r)
      acyclic c = omega (arith, fall_of_Leads a c.1)

  -- The check answers for every map of edges, however they are arranged: `true` exactly when some
  -- relation leads back to itself, and `false` exactly when none does.
  pub has_computed_userset_cycle_iff :
      (has_computed_userset_cycle edges ≢ none)
      × ((has_computed_userset_cycle edges ≡ some true) ↔ ((r : Text) × Leads edges r r))
      × ((has_computed_userset_cycle edges ≡ some false) ↔ ¬ ((r : Text) × Leads edges r r))
  has_computed_userset_cycle_iff = Answers-cases _ has_computed_userset_cycle-Answers
