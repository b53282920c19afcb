-- ===== src/Namespaces/Entries.antt =====
-- The bindings and the rewrites that `NamespaceConfig.create` keeps (namespace-config.ts: the loops
-- over the actions and over the rewrites).
use accesscore.Prelude.{
  ◌≡◌, refl, subst, ◌≢◌, inl, inr, true, false, List, [], ◌∷◌, none, some, arith, Text, ◌==◌,
  eq_of_true, has, get, put, get-put, All, Bool-cases,
}
use accesscore.Refs.{ok, is_identifier}
use accesscore.Usersets.{Userset, direct_userset, computed_userset_targets}
use accesscore.Namespaces.{
  validate_userset, check_known, check_actions, check_rewrites, distinct_from, targets_of, is_nil,
}
use accesscore.Namespaces.Checks.{WellFormed, validate_userset-WellFormed}

-- A binding that `create` keeps.
abbrev pub IsBinding : List Text → Text → List Text → Type 0
IsBinding set verb rs = (is_identifier verb ≡ true) × (rs ≢ []) × All (λ r. has set r ≡ true) rs

check_known-ok : (set rs : List Text) → check_known set rs ≡ ok tt → All (λ r. has set r ≡ true) rs
unfolding check_known
check_known-ok set [] h = tt
check_known-ok set (r ∷ rs) h = ground (arith, check_known-ok set rs)

distinct_from-All :
    (P : Text → Type 0) (seen rs : List Text) → All P rs → All P (distinct_from seen rs)
unfolding distinct_from
distinct_from-All P seen [] h = tt
distinct_from-All P seen (r ∷ rs) (p, h) =
    ground (arith, distinct_from-All P seen rs h, distinct_from-All P (r ∷ seen) rs h)

distinct_from-nil : (r : Text) (rs : List Text) → distinct_from [] (r ∷ rs) ≢ []
unfolding distinct_from has
distinct_from-nil r rs e = cc

abbrev pub AreBindings : List Text → List (Text × List Text) → Type 0
AreBindings set m = (verb : Text) (rs : List Text) → get verb m ≡ some rs → IsBinding set verb rs

AreBindings-put :
    (set : List Text) (m : List (Text × List Text)) (verb : Text) (rs : List Text)
    → AreBindings set m
    → IsBinding set verb rs
    → AreBindings set (put verb rs m)
AreBindings-put set m verb rs h b v ss e = elim (Bool-cases (verb == v)) [
  | inl same ↦
      let now : rs ≡ ss = ground (arith, get-put verb v rs m) in
      subst (IsBinding set v) now (subst (λ x. IsBinding set x rs) (eq_of_true same) b)
  | inr other ↦ h v ss (ground (arith, get-put verb v rs m))
]

pub is_nil-ne {ℓ} : {A : Type ℓ} (xs : List A) → is_nil xs ≡ false → xs ≢ []
is_nil-ne [] h = cc
is_nil-ne (x ∷ xs) h = cc

distinct-ne : (rs : List Text) → rs ≢ [] → distinct_from [] rs ≢ []
distinct-ne [] h = absurd (h refl)
distinct-ne (r ∷ rs) h = distinct_from-nil r rs

pub check_actions-ok :
    (set : List Text) (m : List (Text × List Text)) (acts : List (Text × List Text))
    (out : List (Text × List Text))
    → AreBindings set m
    → check_actions set m acts ≡ ok out
    → AreBindings set out
unfolding check_actions
check_actions-ok set m [] out h e =
    let same : m ≡ out = ground arith in subst (AreBindings set) same h
check_actions-ok set m ((verb, rs) ∷ acts) out h e =
    let named : is_identifier verb ≡ true = ground arith in
    let filled : is_nil rs ≡ false = ground arith in
    let known : check_known set rs ≡ ok tt = ground arith in
    let rest : check_actions set (put verb (distinct_from [] rs) m) acts ≡ ok out = ground arith in
    check_actions-ok set (put verb (distinct_from [] rs) m) acts out
      (AreBindings-put set m verb (distinct_from [] rs) h (
        named,
        distinct-ne rs (is_nil-ne rs filled),
        distinct_from-All (λ r. has set r ≡ true) [] rs (check_known-ok set rs known),
      ))
      rest

-- A rewrite that `create` keeps.
abbrev pub IsRewrite : List Text → Text → Userset → Type 0
IsRewrite set r tree = (has set r ≡ true) × WellFormed set 0 tree

-- The edges are the computed-userset targets of the trees.
abbrev pub AreRewrites : List Text → List (Text × List Text) → List (Text × Userset) → Type 0
AreRewrites set edges m =
    ((r : Text) (tree : Userset) → get r m ≡ some tree → IsRewrite set r tree)
    × ((r : Text)
        → targets_of edges r
          ≡ computed_userset_targets (elim (get r m) [ none ↦ direct_userset | some tree ↦ tree ]))

AreRewrites-put :
    (set : List Text) (edges : List (Text × List Text)) (m : List (Text × Userset)) (r : Text)
    (tree : Userset)
    → AreRewrites set edges m
    → IsRewrite set r tree
    → AreRewrites set (put r (computed_userset_targets tree) edges) (put r tree m)
AreRewrites-put set edges m r tree (h, k) b = (one, both)
  where
    one : (s : Text) (t : Userset) → get s (put r tree m) ≡ some t → IsRewrite set s t
    one s t e = elim (Bool-cases (r == s)) [
      | inl same ↦
          let now : tree ≡ t = ground (arith, get-put r s tree m) in
          subst (IsRewrite set s) now (subst (λ x. IsRewrite set x tree) (eq_of_true same) b)
      | inr other ↦ h s t (ground (arith, get-put r s tree m))
    ]

    both :
        (s : Text)
        → targets_of (put r (computed_userset_targets tree) edges) s
          ≡ computed_userset_targets
              (elim (get s (put r tree m)) [ none ↦ direct_userset | some t ↦ t ])
    both s =
        ground (arith, get-put r s tree m, get-put r s (computed_userset_targets tree) edges, k s)

pub check_rewrites-ok :
    (set : List Text) (edges : List (Text × List Text)) (m : List (Text × Userset))
    (rws : List (Text × Userset)) (edges' : List (Text × List Text)) (out : List (Text × Userset))
    → AreRewrites set edges m
    → check_rewrites set edges m rws ≡ ok (edges', out)
    → AreRewrites set edges' out
unfolding check_rewrites
check_rewrites-ok set edges m [] edges' out h e =
    let same_edges : edges ≡ edges' = ground arith in
    let same_map : m ≡ out = ground arith in
    subst (AreRewrites set edges') same_map (subst (λ x. AreRewrites set x m) same_edges h)
check_rewrites-ok set edges m ((r, tree) ∷ rws) edges' out h e =
    let known : has set r ≡ true = ground arith in
    let valid : validate_userset tree set 0 ≡ ok tt = ground arith in
    let rest : check_rewrites set (put r (computed_userset_targets tree) edges) (put r tree m) rws
        ≡ ok (edges', out) =
      ground arith in
    check_rewrites-ok set (put r (computed_userset_targets tree) edges) (put r tree m) rws edges'
      out
      (AreRewrites-put set edges m r tree h (known, validate_userset-WellFormed tree set 0 valid))
      rest
