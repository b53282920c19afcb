-- ===== src/Namespaces.antt =====
-- Namespace configurations, definitions and the registry of a snapshot
-- (apps/api/src/authz/domain: namespace-config.ts, namespace-definition.ts, namespace-registry.ts).
-- A `Record` or `Map` is an association list in the order of insertion, a `Set` the list of its
-- elements.
pub mod Cycles
pub mod Ranks
pub mod Checks
pub mod Entries
pub mod Accepted
mod Tests
use accesscore.Prelude.{
  ℕ, zero, suc, ◌+◌, Bool, true, false, not, ◌&&◌, ◌||◌, List, [], ◌∷◌, ◌++◌, Option, none, some,
  ltb, leb, eqb, if◌then◌else◌, length, select, map, Text, ◌==◌, has, get, put,
}
use accesscore.Refs.{Result, ok, err, OrgId, Revision, Action, is_identifier}
use accesscore.Usersets.{
  Userset, Usersets, this, computed_userset, tuple_to_userset, union, intersection, exclusion,
  no_child, child, direct_userset, computed_userset_targets,
}

pub data NamespaceConfigError : Type 0 where
  empty_relations invalid_relation duplicate_relation invalid_verb empty_binding unknown_relation
        unknown_rewrite_relation invalid_rewrite rewrite_too_deep cyclic_computed_userset :
      NamespaceConfigError

abbrev pub max_rewrite_depth : ℕ
max_rewrite_depth = 32

pub record NamespaceConfigData : Type 0 where
  pub relations : List Text
  pub actions : List (Text × List Text)
  pub rewrites : Option (List (Text × Userset))

infixl 5 ◌>>=◌ ◌>>◌
abbrev ◌>>=◌ {ℓ κ} :
    {A : Type ℓ} {B : Type κ}
    → Result A NamespaceConfigError
    → (A → Result B NamespaceConfigError)
    → Result B NamespaceConfigError
ok a >>= f = f a
err e >>= f = err e

abbrev ◌>>◌ {ℓ} :
    {B : Type ℓ}
    → Result (Unit {0}) NamespaceConfigError
    → Result B NamespaceConfigError
    → Result B NamespaceConfigError
m >> k = m >>= λ _. k

abbrev refuse_if : Bool → NamespaceConfigError → Result (Unit {0}) NamespaceConfigError
refuse_if true e = err e
refuse_if false e = ok tt

-- `validateUserset`; the children of a union or an intersection are a loop of their own.
unfoldable mutual
  pub validate_userset : Userset → List Text → ℕ → Result (Unit {0}) NamespaceConfigError
  validate_userset this relations depth = refuse_if (ltb max_rewrite_depth depth) rewrite_too_deep
  validate_userset (computed_userset relation) relations depth = do
    refuse_if (ltb max_rewrite_depth depth) rewrite_too_deep
    refuse_if (not (is_identifier relation)) invalid_rewrite
    refuse_if (not (has relations relation)) unknown_rewrite_relation
  validate_userset (tuple_to_userset tupleset computed) relations depth = do
    refuse_if (ltb max_rewrite_depth depth) rewrite_too_deep
    refuse_if (not (is_identifier tupleset) || not (is_identifier computed)) invalid_rewrite
    refuse_if (not (has relations tupleset)) unknown_rewrite_relation
  validate_userset (union children) relations depth = do
    refuse_if (ltb max_rewrite_depth depth) rewrite_too_deep
    refuse_if (no_children children) invalid_rewrite
    validate_children children relations (suc depth)
  validate_userset (intersection children) relations depth = do
    refuse_if (ltb max_rewrite_depth depth) rewrite_too_deep
    refuse_if (no_children children) invalid_rewrite
    validate_children children relations (suc depth)
  validate_userset (exclusion base subtract) relations depth = do
    refuse_if (ltb max_rewrite_depth depth) rewrite_too_deep
    validate_userset base relations (suc depth)
    validate_userset subtract relations (suc depth)

  pub no_children : Usersets → Bool
  no_children no_child = true
  no_children (child _ _) = false

  pub validate_children : Usersets → List Text → ℕ → Result (Unit {0}) NamespaceConfigError
  validate_children no_child relations depth = ok tt
  validate_children (child c cs) relations depth = do
    validate_userset c relations depth
    validate_children cs relations depth

-- The loop over `data.relations`; `seen` is `relationSet`, in the order of insertion.
unfoldable pub check_relations : List Text → List Text → Result (List Text) NamespaceConfigError
check_relations seen [] = ok seen
check_relations seen (relation ∷ relations) = do
  refuse_if (not (is_identifier relation)) invalid_relation
  refuse_if (has seen relation) duplicate_relation
  check_relations (seen ++ relation ∷ []) relations

unfoldable pub check_known : List Text → List Text → Result (Unit {0}) NamespaceConfigError
check_known relation_set [] = ok tt
check_known relation_set (relation ∷ relations) = do
  refuse_if (not (has relation_set relation)) unknown_relation
  check_known relation_set relations

abbrev pub is_nil {ℓ} : {A : Type ℓ} → List A → Bool
is_nil [] = true
is_nil (_ ∷ _) = false

-- `[...new Set(relations)]`
unfoldable pub distinct_from : List Text → List Text → List Text
distinct_from seen [] = []
distinct_from seen (r ∷ rs) =
    let later = r ∷ distinct_from (r ∷ seen) rs in
    let skipped = distinct_from seen rs in if has seen r then skipped else later

-- The loop over `Object.entries(data.actions)`.
unfoldable pub check_actions :
    List Text
    → List (Text × List Text)
    → List (Text × List Text)
    → Result (List (Text × List Text)) NamespaceConfigError
check_actions relation_set action_map [] = ok action_map
check_actions relation_set action_map ((verb, relations) ∷ actions) = do
  refuse_if (not (is_identifier verb)) invalid_verb
  refuse_if (is_nil relations) empty_binding
  check_known relation_set relations
  check_actions relation_set (put verb (distinct_from [] relations) action_map) actions

-- The loop over `Object.entries(data.rewrites ?? {})`: `computedEdges` and `rewriteMap`.
unfoldable pub check_rewrites :
    List Text
    → List (Text × List Text)
    → List (Text × Userset)
    → List (Text × Userset)
    → Result (List (Text × List Text) × List (Text × Userset)) NamespaceConfigError
check_rewrites relation_set edges rewrite_map [] = ok (edges, rewrite_map)
check_rewrites relation_set edges rewrite_map ((relation, tree) ∷ rewrites) = do
  refuse_if (not (has relation_set relation)) unknown_rewrite_relation
  validate_userset tree relation_set 0
  check_rewrites relation_set (put relation (computed_userset_targets tree) edges)
      (put relation tree rewrite_map) rewrites

-- The two sets of `hasComputedUsersetCycle`.
pub record WalkSets : Type 0 where
  pub visiting : List Text
  pub done : List Text

abbrev pub targets_of : List (Text × List Text) → Text → List Text
targets_of edges relation = elim (get relation edges) [ none ↦ [] | some ts ↦ ts ]

abbrev pub delete : Text → List Text → List Text
delete k xs = select (λ x. not (x == k)) xs

-- The inner loop of `walk`, with the recursive call as an argument. `none` is fuel run out.
unfoldable pub walk_each :
    (Text → WalkSets → Option (Bool × WalkSets)) → List Text → WalkSets → Option (Bool × WalkSets)
walk_each walk [] s = some (false, s)
walk_each walk (t ∷ ts) s = elim (walk t s) [
  | none ↦ none
  | some (found, s') ↦ if found then some (true, s') else walk_each walk ts s'
]

abbrev leave : Text → Option (Bool × WalkSets) → Option (Bool × WalkSets)
leave relation none = none
leave relation (some (true, s)) = some (true, s)
leave relation (some (false, s)) =
    some (false, record { visiting = delete relation s.visiting; done = relation ∷ s.done })

unfoldable pub walk : List (Text × List Text) → ℕ → Text → WalkSets → Option (Bool × WalkSets)
walk edges zero relation s = none
walk edges (suc fuel) relation s =
    let below = leave relation (
      walk_each (walk edges fuel) (targets_of edges relation)
        (record s { visiting = relation ∷ s.visiting })) in
    if has s.visiting relation
    then some (true, s)
    else if has s.done relation
    then some (false, s)
    else below

abbrev pub keys {ℓ} : {V : Type ℓ} → List (Text × V) → List Text
keys m = map (λ e. e.0) m

abbrev answer : Option (Bool × WalkSets) → Option Bool
answer none = none
answer (some (found, s)) = some found

-- Along a call chain the visited relations differ, and only those with edges have targets.
abbrev pub cycle_fuel : List (Text × List Text) → ℕ
cycle_fuel edges = suc (suc (length edges))

unfoldable pub has_computed_userset_cycle : List (Text × List Text) → Option Bool
has_computed_userset_cycle edges =
    answer
      (walk_each (walk edges (cycle_fuel edges)) (keys edges) (record { visiting = []; done = [] }))

pub record NamespaceConfig : Type 0 where
  pub relation_set : List Text
  pub action_map : List (Text × List Text)
  pub rewrite_map : List (Text × Userset)

abbrev pub or_no_rewrites : Option (List (Text × Userset)) → List (Text × Userset)
or_no_rewrites none = []
or_no_rewrites (some m) = m

-- Out of fuel, which `Cycles` excludes, would be reported as a cycle.
abbrev is_cyclic : Option Bool → Bool
is_cyclic none = true
is_cyclic (some found) = found

unfoldable pub create_config : NamespaceConfigData → Result NamespaceConfig NamespaceConfigError
create_config config_data = do
  refuse_if (is_nil config_data.relations) empty_relations
  relation_set ← check_relations [] config_data.relations
  action_map ← check_actions relation_set [] config_data.actions
  (edges, rewrite_map) ← check_rewrites relation_set [] [] (or_no_rewrites config_data.rewrites)
  refuse_if (is_cyclic (has_computed_userset_cycle edges)) cyclic_computed_userset
  ok (record { relation_set = relation_set; action_map = action_map; rewrite_map = rewrite_map })

-- The data come from the database, where the keys of a record are distinct.
unfoldable pub config_from_data : NamespaceConfigData → NamespaceConfig
config_from_data config_data = record {
  relation_set = distinct_from [] config_data.relations;
  action_map = config_data.actions;
  rewrite_map = or_no_rewrites config_data.rewrites;
}

unfoldable pub has_relation : NamespaceConfig → Text → Bool
has_relation config relation = has config.relation_set relation

unfoldable pub required_relations_for_verb : NamespaceConfig → Text → List Text
required_relations_for_verb config verb = targets_of config.action_map verb

unfoldable pub config_rewrites_for : NamespaceConfig → Text → Userset
config_rewrites_for config relation = elim (get relation config.rewrite_map) [
  | none ↦ direct_userset
  | some tree ↦ tree
]

unfoldable pub config_to_data : NamespaceConfig → NamespaceConfigData
config_to_data config = record {
  relations = config.relation_set;
  actions = config.action_map;
  rewrites = if is_nil config.rewrite_map then none else some config.rewrite_map;
}

-- namespace-definition.ts
pub record NamespaceDefinition : Type 0 where
  pub org_id : OrgId
  pub namespace : Text
  pub config : NamespaceConfig
  pub revision : Revision
  pub created_at : ℕ

unfoldable pub required_relations_for : NamespaceDefinition → Action → List Text
required_relations_for definition action =
    if not (action.namespace == definition.namespace)
    then []
    else required_relations_for_verb definition.config action.verb

-- namespace-registry.ts
pub record NamespaceRegistry : Type 0 where
  pub by_type : List (Text × NamespaceDefinition)

unfoldable pub add_definitions :
    List (Text × NamespaceDefinition) → List NamespaceDefinition → List (Text × NamespaceDefinition)
add_definitions by_type [] = by_type
add_definitions by_type (d ∷ ds) = add_definitions (put d.namespace d by_type) ds

unfoldable pub registry_of : List NamespaceDefinition → NamespaceRegistry
registry_of definitions = record { by_type = add_definitions [] definitions }

unfoldable pub registry_get : NamespaceRegistry → Text → Option NamespaceDefinition
registry_get registry type = get type registry.by_type

unfoldable pub registry_all : NamespaceRegistry → List NamespaceDefinition
registry_all registry = map (λ e. e.1) registry.by_type

unfoldable pub rewrites_for : NamespaceRegistry → Text → Text → Userset
rewrites_for registry type relation = elim (get type registry.by_type) [
  | none ↦ direct_userset
  | some definition ↦ config_rewrites_for definition.config relation
]
