-- ===== src/Evaluate/Accepted.antt =====
-- The evaluation ends over every registry of configurations that `NamespaceConfig.create` accepted.
use accesscore.Prelude.{
  ℕ, ◌+◌, ◌≤◌, ◌≡◌, sym, subst, true, false, List, [], ◌∷◌, some, arith, if◌then◌else◌, Text, ◌==◌,
  get, put, All, Bool-cases, inl, inr,
}
use mathlib.Core.List.{Memᴰ}
use accesscore.Refs.{ok}
use accesscore.Usersets.{direct_userset, computed_userset_targets}
use accesscore.Namespaces.{
  NamespaceConfigData, create_config, config_rewrites_for, NamespaceDefinition, rewrites_for,
  registry_of, add_definitions,
}
use accesscore.Namespaces.Ranks.{IsRanked}
use accesscore.Namespaces.Accepted.{create_config-IsAccepted}
use accesscore.Decisions.{Decision, AuthorizationQuery}
use accesscore.Evaluate.{EvaluationSnapshot, evaluate}
use accesscore.Evaluate.Terminates.{IsStratified, enough_fuel, evaluate_total}

-- The definition's configuration was accepted for some data.
abbrev pub WasAccepted : NamespaceDefinition → Type 0
WasAccepted d = (config_data : NamespaceConfigData) × (create_config config_data ≡ ok d.config)

abbrev Ranked : Text × NamespaceDefinition → Type 0
Ranked e = IsRanked (λ r. computed_userset_targets (config_rewrites_for e.1.config r))

put-All :
    (k : Text) (d : NamespaceDefinition) (m : List (Text × NamespaceDefinition))
    → IsRanked (λ r. computed_userset_targets (config_rewrites_for d.config r))
    → All Ranked m
    → All Ranked (put k d m)
unfolding put
put-All k d [] p h = (p, tt)
put-All k d ((j, e) ∷ m) p (q, h) = elim (Bool-cases (j == k)) [
  | inl same ↦ rw same (p, h)
  | inr other ↦ rw other (q, put-All k d m p h)
]

add_definitions-All :
    (m : List (Text × NamespaceDefinition)) (ds : List NamespaceDefinition)
    → All Ranked m
    → All WasAccepted ds
    → All Ranked (add_definitions m ds)
unfolding add_definitions
add_definitions-All m [] h a = h
add_definitions-All m (d ∷ ds) h ((config_data, made), a) =
    add_definitions-All (put d.namespace d m) ds
      (put-All d.namespace d m (create_config-IsAccepted config_data d.config made).ranked h) a

nothing_in : {t : Text} → Memᴰ t [] → ⊥
nothing_in m = elim m [ ]

module _ (k : Text) (d : NamespaceDefinition) (m : List (Text × NamespaceDefinition)) where
  rewrites_for_hit :
      (type r : Text)
      → (k == type) ≡ true
      → rewrites_for (record { by_type = (k, d) ∷ m }) type r ≡ config_rewrites_for d.config r
  unfolding rewrites_for get
  rewrites_for_hit type r hit = ground arith

  rewrites_for_miss :
      (type r : Text)
      → (k == type) ≡ false
      → rewrites_for (record { by_type = (k, d) ∷ m }) type r
        ≡ rewrites_for (record { by_type = m }) type r
  unfolding rewrites_for get
  rewrites_for_miss type r miss = ground arith

stratify :
    (m : List (Text × NamespaceDefinition)) → All Ranked m → IsStratified (record { by_type = m })
unfolding rewrites_for get direct_userset computed_userset_targets
stratify [] h = record {
  height = λ type r. 0;
  bound = 0;
  height_le = λ type r. omega arith;
  falls = λ type r t m. absurd (nothing_in m);
}
stratify ((k, d) ∷ m) (p, h) =
    let rest = stratify m h in
    record {
      height = λ type r. if k == type then p.height r else rest.height type r;
      bound = p.bound + rest.bound;
      height_le = λ type r. ground (arith, p.height_le r, rest.height_le type r);
      falls = λ type r t e. elim (Bool-cases (k == type)) [
        | inl hit ↦ rw hit (p.falls r t (rw (rewrites_for_hit k d m type r hit) at e))
        | inr miss ↦ rw miss (rest.falls type r t (rw (rewrites_for_miss k d m type r miss) at e))
      ];
    }

-- Over definitions that were accepted there is a fuel with which, and with any larger one, every
-- query is decided: the recursion of `derive` ends for cyclic tuples too.
pub evaluate_accepted :
    (definitions : List NamespaceDefinition) (snapshot : EvaluationSnapshot)
    → All WasAccepted definitions
    → snapshot.namespaces ≡ registry_of definitions
    → (enough : ℕ) × ((fuel : ℕ) (query : AuthorizationQuery)
        → enough ≤ fuel
        → (d : Decision) × (evaluate fuel query snapshot ≡ some d))
unfolding registry_of
evaluate_accepted definitions snapshot a e =
    let k : IsStratified snapshot.namespaces =
      subst IsStratified (sym e)
        (stratify (add_definitions [] definitions) (add_definitions-All [] definitions tt a)) in
    (enough_fuel k.bound, λ fuel query h. evaluate_total fuel query snapshot k h)
