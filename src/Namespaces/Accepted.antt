-- ===== src/Namespaces/Accepted.antt =====
-- What `NamespaceConfig.create` has established of a configuration that it accepts.
use accesscore.Prelude.{
  ◌≡◌, refl, sym, subst, ◌≢◌, ◌⊎◌, inl, inr, true, false, List, [], some, arith, Text, get, All,
}
use mathlib.Core.List.{Memᴰ}
use accesscore.Refs.{Result, ok, err, is_identifier}
use accesscore.Usersets.{Userset, direct_userset, computed_userset_targets}
use accesscore.Namespaces.{
  NamespaceConfigError, NamespaceConfigData, check_relations, check_actions, check_rewrites,
  targets_of, is_nil, NamespaceConfig, create_config, config_rewrites_for,
  has_computed_userset_cycle, is_cyclic, or_no_rewrites,
}
use accesscore.Namespaces.Ranks.{IsRanked, Answers, has_computed_userset_cycle-Answers}
use accesscore.Namespaces.Checks.{AreDistinct, check_relations-ok}
use accesscore.Namespaces.Entries.{
  IsBinding, AreBindings, IsRewrite, AreRewrites, check_actions-ok, check_rewrites-ok, is_nil-ne,
}

-- What holds of an accepted configuration.
pub record IsAccepted (relations : List Text) (config : NamespaceConfig) : Type 0 where
  pub same_relations : config.relation_set ≡ relations
  pub nonempty : relations ≢ []
  pub distinct : AreDistinct config.relation_set
  pub identifiers : All (λ r. is_identifier r ≡ true) config.relation_set
  pub bindings :
      (verb : Text) (rs : List Text)
      → get verb config.action_map ≡ some rs
      → IsBinding config.relation_set verb rs
  pub rewrites :
      (r : Text) (tree : Userset)
      → get r config.rewrite_map ≡ some tree
      → IsRewrite config.relation_set r tree
  pub ranked : IsRanked (λ r. computed_userset_targets (config_rewrites_for config r))

IsRanked-of :
    (set : List Text) (edges : List (Text × List Text)) (config : NamespaceConfig)
    → AreRewrites set edges config.rewrite_map
    → is_cyclic (has_computed_userset_cycle edges) ≡ false
    → IsRanked (λ r. computed_userset_targets (config_rewrites_for config r))
unfolding config_rewrites_for
IsRanked-of set edges config (h, same) e =
    let found : has_computed_userset_cycle edges ≡ some false = ground arith in
    let k : IsRanked (targets_of edges) =
      subst (Answers edges) found (has_computed_userset_cycle-Answers edges) in
    record {
      height = k.height;
      bound = k.bound;
      height_le = k.height_le;
      falls = λ r t m. k.falls r t (subst (λ ts. Memᴰ t ts) (sym (same r)) m);
    }

no_rewrites-AreRewrites : (set : List Text) → AreRewrites set [] []
unfolding get computed_userset_targets direct_userset
no_rewrites-AreRewrites set = (λ r tree e. cc, λ r. refl)

no_actions-AreBindings : (set : List Text) → AreBindings set []
unfolding get
no_actions-AreBindings set verb rs e = cc

assemble :
    (d : NamespaceConfigData) (config : NamespaceConfig) (edges : List (Text × List Text))
    → is_nil d.relations ≡ false
    → check_relations [] d.relations ≡ ok config.relation_set
    → check_actions config.relation_set [] d.actions ≡ ok config.action_map
    → check_rewrites config.relation_set [] [] (or_no_rewrites d.rewrites)
      ≡ ok (edges, config.rewrite_map)
    → is_cyclic (has_computed_userset_cycle edges) ≡ false
    → IsAccepted d.relations config
assemble d config edges filled named bound rewritten acyclic =
    let set = config.relation_set in
    let (same, once, idents) = check_relations-ok [] d.relations set tt named in
    let trees =
      check_rewrites-ok set [] [] (or_no_rewrites d.rewrites) edges config.rewrite_map
        (no_rewrites-AreRewrites set) rewritten in
    record {
      same_relations = same;
      nonempty = is_nil-ne d.relations filled;
      distinct = once;
      identifiers = subst (All (λ r. is_identifier r ≡ true)) (sym same) idents;
      bindings =
          check_actions-ok set [] d.actions config.action_map (no_actions-AreBindings set) bound;
      rewrites = trees.0;
      ranked = IsRanked-of set edges config trees acyclic;
    }

Result-cases {ℓ} :
    {A : Type ℓ} (m : Result A NamespaceConfigError)
    → ((a : A) × (m ≡ ok a)) ⊎ ((e : NamespaceConfigError) × (m ≡ err e))
Result-cases (ok a) = inl (a, refl)
Result-cases (err e) = inr (e, refl)

-- An accepted configuration has the relations of its data, which are not empty, are identifiers and
-- differ; every kept binding has an identifier for a verb and some known relations; every kept
-- rewrite belongs to a known relation and is a tree of depth at most 32 over known relations, whose
-- unions and intersections have children; and the computed usersets form no cycle: a rank falls
-- along them.
pub create_config-IsAccepted :
    (config_data : NamespaceConfigData) (config : NamespaceConfig)
    → create_config config_data ≡ ok config
    → IsAccepted config_data.relations config
unfolding create_config
create_config-IsAccepted d config h = elim (Result-cases (check_relations [] d.relations)) [
  | inr (e, bad) ↦ absurd (ground arith)
  | inl (set, named) ↦ elim (Result-cases (check_actions set [] d.actions)) [
    | inr (e, bad) ↦ absurd (ground arith)
    | inl (acts, bound) ↦
        elim (Result-cases (check_rewrites set [] [] (or_no_rewrites d.rewrites))) [
          | inr (e, bad) ↦ absurd (ground arith)
          | inl ((edges, rws), rewritten) ↦
              let made : record { relation_set = set; action_map = acts; rewrite_map = rws }
                  ≡ config =
                ground arith in
              subst (IsAccepted d.relations) made (
                assemble d (record { relation_set = set; action_map = acts; rewrite_map = rws })
                  edges (ground arith) named bound rewritten (ground arith))
        ]
  ]
]
