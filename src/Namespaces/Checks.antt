-- ===== src/Namespaces/Checks.antt =====
-- The relations and the trees that `NamespaceConfig.create` lets pass
-- (namespace-config.ts: `validateUserset` and the loop over the relations).
use accesscore.Prelude.{
  ℕ, suc, ◌≤◌, ◌≡◌, refl, sym, subst, ◌∙◌, true, false, ◌||◌, List, [], ◌∷◌, ◌++◌, arith, Text,
  eq_iff, has, append-nil, append_assoc, All,
}
use accesscore.Refs.{ok, is_identifier}
use accesscore.Usersets.{
  Userset, Usersets, this, computed_userset, tuple_to_userset, union, intersection, exclusion,
  no_child, child,
}
use accesscore.Namespaces.{
  validate_userset, validate_children, no_children, check_relations, max_rewrite_depth,
}

-- The relations are identifiers, each named once.
abbrev pub AreDistinct : List Text → Type 0
AreDistinct [] = Unit
AreDistinct (r ∷ rs) = (has rs r ≡ false) × AreDistinct rs

-- A tree that names only relations of the configuration and is at most as deep as allowed.
mutual
  pub WellFormed : List Text → ℕ → Userset → Type 0
  WellFormed relations depth this = depth ≤ max_rewrite_depth
  WellFormed relations depth (computed_userset relation) =
      (depth ≤ max_rewrite_depth) × (has relations relation ≡ true)
  WellFormed relations depth (tuple_to_userset tupleset computed) =
      (depth ≤ max_rewrite_depth)
      × (has relations tupleset ≡ true)
      × (is_identifier computed ≡ true)
  WellFormed relations depth (union cs) =
      (no_children cs ≡ false) × AllWellFormed relations (suc depth) cs
  WellFormed relations depth (intersection cs) =
      (no_children cs ≡ false) × AllWellFormed relations (suc depth) cs
  WellFormed relations depth (exclusion base subtract) =
      WellFormed relations (suc depth) base × WellFormed relations (suc depth) subtract

  pub AllWellFormed : List Text → ℕ → Usersets → Type 0
  AllWellFormed relations depth no_child = Unit
  AllWellFormed relations depth (child c cs) =
      WellFormed relations depth c × AllWellFormed relations depth cs

mutual
  unfolding validate_userset validate_children WellFormed AllWellFormed

  pub validate_userset-WellFormed :
      (tree : Userset) (relations : List Text) (depth : ℕ)
      → validate_userset tree relations depth ≡ ok tt
      → WellFormed relations depth tree
  validate_userset-WellFormed this relations depth h = ground arith
  validate_userset-WellFormed (computed_userset r) relations depth h = ground arith
  validate_userset-WellFormed (tuple_to_userset t c) relations depth h = ground arith
  validate_userset-WellFormed (union cs) relations depth h =
      ground (arith, validate_children-WellFormed cs relations (suc depth))
  validate_userset-WellFormed (intersection cs) relations depth h =
      ground (arith, validate_children-WellFormed cs relations (suc depth))
  validate_userset-WellFormed (exclusion b s) relations depth h = ground (
    arith,
    validate_userset-WellFormed b relations (suc depth),
    validate_userset-WellFormed s relations (suc depth),
  )

  validate_children-WellFormed :
      (cs : Usersets) (relations : List Text) (depth : ℕ)
      → validate_children cs relations depth ≡ ok tt
      → AllWellFormed relations depth cs
  validate_children-WellFormed no_child relations depth h = tt
  validate_children-WellFormed (child c cs) relations depth h = ground (
    arith,
    validate_userset-WellFormed c relations depth,
    validate_children-WellFormed cs relations depth,
  )

has-append : (xs ys : List Text) (k : Text) → has (xs ++ ys) k ≡ (has xs k || has ys k)
unfolding has
has-append [] ys k = refl
has-append (x ∷ xs) ys k = ground (arith, has-append xs ys k)

AreDistinct-snoc :
    (xs : List Text) (r : Text) → AreDistinct xs → has xs r ≡ false → AreDistinct (xs ++ r ∷ [])
unfolding has
AreDistinct-snoc [] r d h = (refl, tt)
AreDistinct-snoc (x ∷ xs) r (n, d) h = (
  ground (arith, has-append xs (r ∷ []) x, eq_iff r x, eq_iff x r),
  AreDistinct-snoc xs r d (ground arith),
)

pub check_relations-ok :
    (seen rs set : List Text)
    → AreDistinct seen
    → check_relations seen rs ≡ ok set
    → (set ≡ seen ++ rs) × AreDistinct set × All (λ r. is_identifier r ≡ true) rs
unfolding check_relations
check_relations-ok seen [] set d h =
    let same : seen ≡ set = ground arith in
    (sym same ∙ sym (append-nil seen), subst AreDistinct same d, tt)
check_relations-ok seen (r ∷ rs) set d h =
    let fresh : has seen r ≡ false = ground arith in
    let good : is_identifier r ≡ true = ground arith in
    let rest : check_relations (seen ++ r ∷ []) rs ≡ ok set = ground arith in
    let (same, distinct, others) =
      check_relations-ok (seen ++ r ∷ []) rs set (AreDistinct-snoc seen r d fresh) rest in
    (same ∙ append_assoc seen (r ∷ []) rs, distinct, (good, others))
