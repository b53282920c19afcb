-- ===== src/Namespaces/Tests.antt =====
-- Runs of `NamespaceConfig.create` and of its search for cycles (namespace-config.ts).
use accesscore.Prelude.{
  ◌≡◌, refl, ◌↔◌, ◌≢◌, true, false, List, [], ◌∷◌, none, some, Text, text, has, put, get, ◌==◌,
}
use accesscore.Refs.{ok, is_identifier}
use accesscore.Usersets.{this, computed_userset, union, no_child, child, computed_userset_targets}
use accesscore.Namespaces.{
  NamespaceConfigData, NamespaceConfig, create_config, check_relations, check_actions, check_known,
  distinct_from, check_rewrites, validate_userset, validate_children, has_computed_userset_cycle,
  walk_each, walk,
}
use accesscore.Namespaces.Accepted.{IsAccepted, create_config-IsAccepted}
use accesscore.Namespaces.Cycles.{Leads}
use accesscore.Namespaces.Ranks.{has_computed_userset_cycle_iff}

abbrev doc_data : NamespaceConfigData
doc_data = record {
  relations = text "owner" ∷ text "viewer" ∷ [];
  actions = (text "read", text "viewer" ∷ text "viewer" ∷ []) ∷ [];
  rewrites =
      some (
        (text "viewer", union (child this (child (computed_userset (text "owner")) no_child)))
        ∷ []);
}

abbrev doc_config : NamespaceConfig
doc_config = record {
  relation_set = text "owner" ∷ text "viewer" ∷ [];
  action_map = (text "read", text "viewer" ∷ []) ∷ [];
  rewrite_map =
      (text "viewer", union (child this (child (computed_userset (text "owner")) no_child))) ∷ [];
}

doc_created : create_config doc_data ≡ ok doc_config
unfolding create_config check_relations has is_identifier ◌==◌ text check_actions check_known put
    get distinct_from check_rewrites validate_userset validate_children has_computed_userset_cycle
    walk_each walk computed_userset_targets
doc_created = refl

create_config-IsAccepted_example : IsAccepted (text "owner" ∷ text "viewer" ∷ []) doc_config
create_config-IsAccepted_example = create_config-IsAccepted doc_data doc_config doc_created

abbrev in_a_ring : List (Text × List Text)
in_a_ring = (text "a", text "b" ∷ []) ∷ (text "b", text "a" ∷ []) ∷ []

has_computed_userset_cycle_example :
    (has_computed_userset_cycle in_a_ring ≢ none)
    × ((has_computed_userset_cycle in_a_ring ≡ some true) ↔ ((r : Text) × Leads in_a_ring r r))
    × ((has_computed_userset_cycle in_a_ring ≡ some false) ↔ ¬ ((r : Text) × Leads in_a_ring r r))
has_computed_userset_cycle_example = has_computed_userset_cycle_iff in_a_ring
