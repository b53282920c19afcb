-- ===== src/Namespaces/Cycles.antt =====
-- The depth-first walk of `hasComputedUsersetCycle` (namespace-config.ts): what a call has
-- established when it returns, and that the fuel lasts.
use accesscore.Prelude.{
  ℕ, zero, suc, ◌≤◌, ◌<◌, ◌≡◌, refl, sym, ap, subst, ◌∙◌, inl, inr, Bool, true, false, List, [],
  ◌∷◌, Option, none, some, arith, if◌then◌else◌, Text, ◌==◌, eq_iff, eq_refl, eq_of_true, has, get,
  Bool-cases,
}
use mathlib.Core.List.{Memᴰ}
use accesscore.Namespaces.{WalkSets, targets_of, delete, walk_each, leave, walk, keys}

-- The relations with edges that are not being visited.
unfoldable pub room : List Text → List Text → ℕ
room [] visiting = 0
room (k ∷ ks) visiting = if has visiting k then room ks visiting else suc (room ks visiting)

pub room_le : (ks V : List Text) (r : Text) → room ks (r ∷ V) ≤ room ks V
unfolding room has
room_le [] V r = omega arith
room_le (k ∷ ks) V r = ground (arith, room_le ks V r)

room_lt :
    (ks V : List Text) (r : Text) → has V r ≡ false → has ks r ≡ true → room ks (r ∷ V) < room ks V
unfolding room has
room_lt [] V r h m = cc
room_lt (k ∷ ks) V r h m = ground (arith, eq_iff k r, eq_iff r k, room_le ks V r, room_lt ks V r h)

delete_absent : (k : Text) (xs : List Text) → has xs k ≡ false → delete k xs ≡ xs
unfolding has
delete_absent k [] h = refl
delete_absent k (x ∷ xs) h = ground (arith, delete_absent k xs)

delete_head : (k : Text) (xs : List Text) → has xs k ≡ false → delete k (k ∷ xs) ≡ xs
delete_head k xs h = rw (eq_refl k) (delete_absent k xs h)

pub targets_of_absent :
    (edges : List (Text × List Text)) (r : Text)
    → has (keys edges) r ≡ false
    → targets_of edges r ≡ []
unfolding has get
targets_of_absent [] r h = refl
targets_of_absent ((k, ts) ∷ edges) r h = ground (arith, targets_of_absent edges r)

pub no_member : {t : Text} → Memᴰ t [] → ⊥
no_member m = elim m [ ]

-- A way of one or more edges.
pub data Leads (edges : List (Text × List Text)) : Text → Text → Type 0 where
  edge : {r t : Text} → Memᴰ t (targets_of edges r) → Leads edges r t
  further : {r s t : Text} → Leads edges r s → Memᴰ t (targets_of edges s) → Leads edges r t

module _ (edges : List (Text × List Text)) where
  abbrev pub AllDone : List Text → List Text → Type 0
  AllDone done ts = (t : Text) → Memᴰ t ts → has done t ≡ true

  -- What is done was done after its targets.
  abbrev pub Topo : List Text → Type 0
  Topo [] = Unit
  Topo (r ∷ done) = AllDone done (targets_of edges r) × Topo done

  abbrev pub Grows : List Text → List Text → Type 0
  Grows done done' = (k : Text) → has done k ≡ true → has done' k ≡ true

  abbrev pub Cycle : Type 0
  Cycle = (r : Text) × Leads edges r r

  -- What a call on the relations `ts` has established when it returns.
  abbrev pub Post : WalkSets → List Text → Option (Bool × WalkSets) → Type 0
  Post s ts none = ⊥
  Post s ts (some (true, s')) = Cycle
  Post s ts (some (false, s')) =
      (s'.visiting ≡ s.visiting) × Topo s'.done × AllDone s'.done ts × Grows s.done s'.done

  AllDone-cons :
      (done done' : List Text) (t : Text) (ts : List Text)
      → has done t ≡ true
      → Grows done done'
      → AllDone done' ts
      → AllDone done' (t ∷ ts)
  AllDone-cons done done' t ts h g a x (Memᴰ.head e) = g x (rw e h)
  AllDone-cons done done' t ts h g a x (Memᴰ.tail m) = a x m

  Post-cons :
      (s u : WalkSets) (t : Text) (ts : List Text) (res : Option (Bool × WalkSets))
      → Post s (t ∷ []) (some (false, u))
      → Post u ts res
      → Post s (t ∷ ts) res
  Post-cons s u t ts none p q = q
  Post-cons s u t ts (some (true, s')) p q = q
  Post-cons s u t ts (some (false, s')) (v, o, a, g) (v', o', a', g') = (
    v' ∙ v,
    o',
    AllDone-cons u.done s'.done t ts (a t (Memᴰ.head refl)) g' a',
    λ k h. g' k (g k h),
  )

  -- One call of the loop, given what the recursive call establishes.
  each_step :
      (call : Text → WalkSets → Option (Bool × WalkSets)) (s : WalkSets) (t : Text) (ts : List Text)
      (res : Option (Bool × WalkSets))
      → res ≡ call t s
      → Post s (t ∷ []) res
      → ((u : WalkSets) → Post s (t ∷ []) (some (false, u)) → Post u ts (walk_each call ts u))
      → Post s (t ∷ ts) (walk_each call (t ∷ ts) s)
  unfolding walk_each
  each_step call s t ts none e p h = absurd p
  each_step call s t ts (some (true, u)) e p h = rw (← e, Post, walk_each) p
  each_step call s t ts (some (false, u)) e p h =
      rw (← e, Post, walk_each) (Post-cons s u t ts (walk_each call ts u) p (h u p))

  pub walk_each-Post :
      (call : Text → WalkSets → Option (Bool × WalkSets)) (V ts : List Text) (s : WalkSets)
      → s.visiting ≡ V
      → Topo s.done
      → ((t : Text) (u : WalkSets)
          → Memᴰ t ts
          → u.visiting ≡ V
          → Topo u.done
          → Post u (t ∷ []) (call t u))
      → Post s ts (walk_each call ts s)
  unfolding walk_each
  walk_each-Post call V [] s e o h = (refl, o, λ t m. elim m [ ], λ k h'. h')
  walk_each-Post call V (t ∷ ts) s e o h =
      each_step call s t ts (call t s) refl (h t s (Memᴰ.head refl) e o)
        λ u p. walk_each-Post call V ts u (p.0 ∙ e) p.1 (λ t' u' m. h t' u' (Memᴰ.tail m))

  Leave-Post :
      (s : WalkSets) (r : Text) (res : Option (Bool × WalkSets))
      → has s.visiting r ≡ false
      → Post (record s { visiting = r ∷ s.visiting }) (targets_of edges r) res
      → Post s (r ∷ []) (leave r res)
  unfolding has
  Leave-Post s r none fresh p = p
  Leave-Post s r (some (true, s')) fresh p = p
  Leave-Post s r (some (false, s')) fresh (v, o, a, g) =
      (ap (delete r) v ∙ delete_head r s.visiting fresh, (a, o), here, λ k h. below k (g k h))
    where
      below : (k : Text) → has s'.done k ≡ true → has (r ∷ s'.done) k ≡ true
      below k h = ground arith

      here : AllDone (r ∷ s'.done) (r ∷ [])
      here t (Memᴰ.head e) = ground (arith, eq_iff r t, sym e)
      here t (Memᴰ.tail m) = elim m [ ]

  abbrev pub Chain : List Text → Text → Type 0
  Chain visiting r = (v : Text) → has visiting v ≡ true → Leads edges v r

  Chain-cons :
      (V : List Text) (r t : Text) → Chain V r → Memᴰ t (targets_of edges r) → Chain (r ∷ V) t
  unfolding has
  Chain-cons V r t c m v h = elim (Bool-cases (r == v)) [
    | inl same ↦ subst (λ x. Leads edges x t) (eq_of_true same) (edge m)
    | inr other ↦ further (c v (rw other at h)) m
  ]

  only : (done : List Text) (r : Text) → has done r ≡ true → AllDone done (r ∷ [])
  only done r h t (Memᴰ.head e) = rw e h
  only done r h t (Memᴰ.tail m) = elim m [ ]

  -- A relation with a target has edges, so that visiting it takes one from the room.
  shrinks :
      (r : Text) (s : WalkSets) (fuel : ℕ) (t : Text)
      → room (keys edges) s.visiting < suc fuel
      → has s.visiting r ≡ false
      → Memᴰ t (targets_of edges r)
      → room (keys edges) (r ∷ s.visiting) < fuel
  shrinks r s fuel t h fresh m = elim (Bool-cases (has (keys edges) r)) [
    | inl key ↦ omega (arith, room_lt (keys edges) s.visiting r fresh key)
    | inr absent ↦ absurd (no_member (subst (λ ts. Memᴰ t ts) (targets_of_absent edges r absent) m))
  ]

  pub walk-Post :
      (fuel : ℕ) (r : Text) (s : WalkSets)
      → room (keys edges) s.visiting < fuel
      → Topo s.done
      → Chain s.visiting r
      → Post s (r ∷ []) (walk edges fuel r s)
  unfolding walk
  walk-Post zero r s h o c = elim h [ ]
  walk-Post (suc fuel) r s h o c = elim (Bool-cases (has s.visiting r)) [
    | inl seen ↦ rw seen (r, c r seen)
    | inr fresh ↦ elim (Bool-cases (has s.done r)) [
      | inl old ↦ rw (fresh, old) (refl, o, only s.done r old, λ k h'. h')
      | inr new ↦
          rw (fresh, new)
            (Leave-Post s r _ fresh (
              walk_each-Post (walk edges fuel) (r ∷ s.visiting) (targets_of edges r) _ refl o
                λ t u m e o'.
                  let c' : Chain u.visiting t = rw e (Chain-cons s.visiting r t c m) in
                  let lower : room (keys edges) u.visiting < fuel =
                    rw e (shrinks r s fuel t h fresh m) in
                  walk-Post fuel t u lower o' c'))
    ]
  ]
