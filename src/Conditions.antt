-- ===== src/Conditions.antt =====
-- The conditions of policies, how one is checked before it is stored and how it is evaluated
-- (apps/api/src/authz/domain/policy: condition.ts, evaluate-condition.ts, evaluation-context.ts).
-- Numbers and the milliseconds of a date are natural.
pub mod Typed
pub mod Accepted
mod Tests
use accesscore.Prelude.{
  ℕ, suc, Bool, true, false, not, ◌&&◌, ◌||◌, List, [], ◌∷◌, Option, none, some, ltb, leb, eqb,
  if◌then◌else◌, all, any, Text, ◌==◌,
}
use accesscore.Refs.{Result, ok, err}
use accesscore.Addresses.{Host, ParsedIp, is_valid_cidr, parse_ip, contained_in}

pub data AttrPath : Type 0 where
  principal_aal env_ip env_now : AttrPath

pub data Literal : Type 0 where
  bool_lit : Bool → Literal
  number_lit : ℕ → Literal
  string_lit : Text → Literal

pub data Term : Type 0 where
  attr : AttrPath → Term
  lit : Literal → Term

pub data CmpOp : Type 0 where
  op_eq op_ne op_lt op_le op_gt op_ge : CmpOp

pub data Element : Type 0 where
  string_element : Text → Element
  number_element : ℕ → Element

mutual
  pub data Condition : Type 0 where
    and_all : Conditions → Condition
    or_any : Conditions → Condition
    negated : Condition → Condition
    cmp : CmpOp → Term → Term → Condition
    in_set : Term → List Element → Condition
    ip_in_cidr : Term → List Text → Condition

  pub data Conditions : Type 0 where
    no_condition : Conditions
    cons : Condition → Conditions → Conditions

pub data ConditionError : Type 0 where
  condition_too_deep too_many_condition_nodes empty_children empty_set mixed_set_types type_mismatch
        empty_cidrs invalid_cidr invalid_timestamp :
      ConditionError

abbrev pub max_condition_depth : ℕ
max_condition_depth = 16

abbrev pub max_condition_nodes : ℕ
max_condition_nodes = 64

pub data ValueType : Type 0 where
  number_type string_type boolean_type timestamp_type : ValueType

unfoldable pub term_type : Term → ValueType
term_type (attr principal_aal) = number_type
term_type (attr env_ip) = string_type
term_type (attr env_now) = timestamp_type
term_type (lit (number_lit _)) = number_type
term_type (lit (bool_lit _)) = boolean_type
term_type (lit (string_lit _)) = string_type

abbrev pub same_type : ValueType → ValueType → Bool
same_type number_type number_type = true
same_type string_type string_type = true
same_type boolean_type boolean_type = true
same_type timestamp_type timestamp_type = true
same_type _ _ = false

unfoldable pub temporal_pair : ValueType → ValueType → Bool
temporal_pair a b =
    (same_type a timestamp_type && (same_type b timestamp_type || same_type b string_type))
    || (same_type b timestamp_type && (same_type a timestamp_type || same_type a string_type))

unfoldable pub comparable : ValueType → ValueType → Bool
comparable a b = same_type a b || temporal_pair a b

abbrev pub is_ordered : CmpOp → Bool
is_ordered op_eq = false
is_ordered op_ne = false
is_ordered _ = true

-- Whether the term is a text that is no timestamp.
abbrev pub bad_timestamp : Host → Term → Bool
bad_timestamp host (attr _) = false
bad_timestamp host (lit (bool_lit _)) = false
bad_timestamp host (lit (number_lit _)) = false
bad_timestamp host (lit (string_lit value)) = elim (host.date_parse value) [
  | none ↦ true
  | some _ ↦ false
]

-- `null` is a count that stays as it is.
abbrev pub refuse_when : Bool → ConditionError → Result ℕ ConditionError → Result ℕ ConditionError
refuse_when true e next = err e
refuse_when false e next = next

unfoldable pub check_cmp : Host → CmpOp → Term → Term → ℕ → Result ℕ ConditionError
check_cmp host op l r nodes =
    let left = term_type l in
    let right = term_type r in
    let temporal = same_type left timestamp_type || same_type right timestamp_type in
    refuse_when (not (comparable left right)) type_mismatch (
      refuse_when
        (is_ordered op
          && not (same_type left number_type && same_type right number_type)
          && not (temporal_pair left right))
        type_mismatch
        (refuse_when (temporal && bad_timestamp host l) invalid_timestamp
          (refuse_when (temporal && bad_timestamp host r) invalid_timestamp (ok nodes))))

abbrev pub is_string : Element → Bool
is_string (string_element _) = true
is_string (number_element _) = false

-- `typeof element === elementType`
abbrev pub same_element : Element → Element → Bool
same_element a b = if is_string a then is_string b else not (is_string b)

abbrev pub element_type : Element → ValueType
element_type (number_element _) = number_type
element_type (string_element _) = string_type

unfoldable pub check_in : Term → List Element → ℕ → Result ℕ ConditionError
check_in needle [] nodes = err empty_set
check_in needle (e ∷ es) nodes =
    refuse_when (not (all (same_element e) (e ∷ es))) mixed_set_types
      (refuse_when (not (comparable (term_type needle) (element_type e))) type_mismatch (ok nodes))

unfoldable pub check_cidrs : Term → List Text → ℕ → Result ℕ ConditionError
check_cidrs ip cidrs nodes =
    refuse_when (not (same_type (term_type ip) string_type)) type_mismatch (
      refuse_when (elim cidrs [ [] ↦ true | ◌∷◌ _ _ ↦ false ]) empty_cidrs
        (refuse_when (not (all is_valid_cidr cidrs)) invalid_cidr (ok nodes)))

infixl 5 ◌then_on◌
abbrev pub ◌then_on◌ :
    Result ℕ ConditionError → (ℕ → Result ℕ ConditionError) → Result ℕ ConditionError
(ok nodes) then_on next = next nodes
(err e) then_on next = err e

-- The guards of `walk` and its count of the node.
abbrev pub enter : ℕ → ℕ → (ℕ → Result ℕ ConditionError) → Result ℕ ConditionError
enter depth nodes next =
    refuse_when (ltb max_condition_depth depth) condition_too_deep (
      refuse_when (ltb max_condition_nodes (suc nodes)) too_many_condition_nodes (next (suc nodes)))

-- `walk` of `parseCondition`: an error, or the counter `nodes` after the walk.
unfoldable mutual
  pub walk_condition : Host → Condition → ℕ → ℕ → Result ℕ ConditionError
  walk_condition host (and_all children) depth nodes =
      enter depth nodes (λ n. walk_some host children depth n)
  walk_condition host (or_any children) depth nodes =
      enter depth nodes (λ n. walk_some host children depth n)
  walk_condition host (negated c) depth nodes =
      enter depth nodes (λ n. walk_condition host c (suc depth) n)
  walk_condition host (cmp op l r) depth nodes = enter depth nodes (λ n. check_cmp host op l r n)
  walk_condition host (in_set needle set) depth nodes =
      enter depth nodes (λ n. check_in needle set n)
  walk_condition host (ip_in_cidr ip cidrs) depth nodes =
      enter depth nodes (λ n. check_cidrs ip cidrs n)

  pub walk_some : Host → Conditions → ℕ → ℕ → Result ℕ ConditionError
  walk_some host no_condition depth nodes = err empty_children
  walk_some host (cons c cs) depth nodes =
      walk_condition host c (suc depth) nodes then_on λ n. walk_children host cs depth n

  pub walk_children : Host → Conditions → ℕ → ℕ → Result ℕ ConditionError
  walk_children host no_condition depth nodes = ok nodes
  walk_children host (cons c cs) depth nodes =
      walk_condition host c (suc depth) nodes then_on λ n. walk_children host cs depth n

unfoldable pub parse_condition : Host → Condition → Result Condition ConditionError
parse_condition host condition = elim (walk_condition host condition 0 0) [
  | err e ↦ err e
  | ok _ ↦ ok condition
]
