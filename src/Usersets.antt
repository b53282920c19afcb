-- ===== src/Usersets.antt =====
-- Userset rewrites (apps/api/src/authz/domain/userset.ts).
use accesscore.Prelude.{List, [], ◌∷◌, ◌++◌, Text}

-- The children of a union or an intersection are a list of their own in the block.
mutual
  pub data Userset : Type 0 where
    this : Userset
    computed_userset : Text → Userset
    tuple_to_userset : Text → Text → Userset
    union : Usersets → Userset
    intersection : Usersets → Userset
    exclusion : Userset → Userset → Userset

  pub data Usersets : Type 0 where
    no_child : Usersets
    child : Userset → Usersets → Usersets

unfoldable pub direct_userset : Userset
direct_userset = this

unfoldable mutual
  pub computed_userset_targets : Userset → List Text
  computed_userset_targets this = []
  computed_userset_targets (computed_userset relation) = relation ∷ []
  computed_userset_targets (tuple_to_userset _ _) = []
  computed_userset_targets (union children) = children_targets children
  computed_userset_targets (intersection children) = children_targets children
  computed_userset_targets (exclusion base subtract) =
      computed_userset_targets base ++ computed_userset_targets subtract

  pub children_targets : Usersets → List Text
  children_targets no_child = []
  children_targets (child c cs) = computed_userset_targets c ++ children_targets cs
