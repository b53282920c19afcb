-- ===== src/Verdicts.antt =====
-- The evaluation of a condition in a context, with three verdicts
-- (apps/api/src/authz/domain/policy: evaluate-condition.ts, evaluation-context.ts).
pub mod Kleene
pub mod Comparisons
pub mod Readable
mod Tests
use accesscore.Prelude.{
  ℕ, Bool, true, false, not, List, [], ◌∷◌, Option, none, some, ltb, leb, eqb, if◌then◌else◌, any,
  Text, ◌==◌,
}
use accesscore.Addresses.{Host, ParsedIp, parse_ip, contained_in}
use accesscore.Conditions.{
  AttrPath, principal_aal, env_ip, env_now, Literal, bool_lit, number_lit, string_lit, Term, attr,
  lit, CmpOp, op_eq, op_ne, op_lt, op_le, op_gt, op_ge, Element, string_element, number_element,
  Condition, Conditions, and_all, or_any, negated, cmp, in_set, ip_in_cidr, no_condition, cons,
}

pub data Verdict : Type 0 where
  holds fails indeterminate : Verdict

pub record EvaluationContext : Type 0 where
  pub aal : ℕ
  pub auth_time : Option ℕ
  pub ip : Text
  pub now : ℕ

pub data Resolved : Type 0 where
  number_value : ℕ → Resolved
  string_value : Text → Resolved
  boolean_value : Bool → Resolved
  date_value : ℕ → Resolved
  undefined : Resolved

unfoldable pub resolve_term : Term → EvaluationContext → Resolved
resolve_term (lit (number_lit value)) ctx = number_value value
resolve_term (lit (string_lit value)) ctx = string_value value
resolve_term (lit (bool_lit value)) ctx = boolean_value value
resolve_term (attr principal_aal) ctx = number_value ctx.aal
resolve_term (attr env_ip) ctx = string_value ctx.ip
resolve_term (attr env_now) ctx = date_value ctx.now

unfoldable pub to_epoch : Host → Resolved → Option ℕ
to_epoch host (date_value ms) = some ms
to_epoch host (string_value value) = host.date_parse value
to_epoch host (number_value _) = none
to_epoch host (boolean_value _) = none
to_epoch host undefined = none

abbrev pub verdict : Bool → Verdict
verdict true = holds
verdict false = fails

unfoldable pub ordered : CmpOp → ℕ → ℕ → Verdict
ordered op_eq left right = verdict (eqb left right)
ordered op_ne left right = verdict (not (eqb left right))
ordered op_lt left right = verdict (ltb left right)
ordered op_le left right = verdict (leb left right)
ordered op_gt left right = verdict (ltb right left)
ordered op_ge left right = verdict (leb right left)

-- `equality`, with the comparison `===` of the two values.
unfoldable pub equality : CmpOp → Bool → Verdict
equality op_eq same = verdict same
equality op_ne same = verdict (not same)
equality _ same = indeterminate

abbrev same_boolean : Bool → Bool → Bool
same_boolean a b = if a then b else not b

abbrev pub ordered_epochs : CmpOp → Option ℕ → Option ℕ → Verdict
ordered_epochs op none r = indeterminate
ordered_epochs op (some l) none = indeterminate
ordered_epochs op (some l) (some r) = ordered op l r

unfoldable pub compare : Host → CmpOp → Resolved → Resolved → Verdict
compare host op undefined right = indeterminate
compare host op (date_value l) undefined = indeterminate
compare host op (number_value l) undefined = indeterminate
compare host op (string_value l) undefined = indeterminate
compare host op (boolean_value l) undefined = indeterminate
compare host op (date_value l) (date_value r) =
    ordered_epochs op (to_epoch host (date_value l)) (to_epoch host (date_value r))
compare host op (date_value l) (string_value r) =
    ordered_epochs op (to_epoch host (date_value l)) (to_epoch host (string_value r))
compare host op (date_value l) (number_value r) =
    ordered_epochs op (to_epoch host (date_value l)) (to_epoch host (number_value r))
compare host op (date_value l) (boolean_value r) =
    ordered_epochs op (to_epoch host (date_value l)) (to_epoch host (boolean_value r))
compare host op (string_value l) (date_value r) =
    ordered_epochs op (to_epoch host (string_value l)) (to_epoch host (date_value r))
compare host op (number_value l) (date_value r) =
    ordered_epochs op (to_epoch host (number_value l)) (to_epoch host (date_value r))
compare host op (boolean_value l) (date_value r) =
    ordered_epochs op (to_epoch host (boolean_value l)) (to_epoch host (date_value r))
compare host op (number_value l) (number_value r) = ordered op l r
compare host op (string_value l) (string_value r) = equality op (l == r)
compare host op (boolean_value l) (boolean_value r) = equality op (same_boolean l r)
compare host op (number_value l) (string_value r) = indeterminate
compare host op (number_value l) (boolean_value r) = indeterminate
compare host op (string_value l) (number_value r) = indeterminate
compare host op (string_value l) (boolean_value r) = indeterminate
compare host op (boolean_value l) (number_value r) = indeterminate
compare host op (boolean_value l) (string_value r) = indeterminate

abbrev pub in_some_block : Host → List Text → Option ParsedIp → Verdict
in_some_block host cidrs none = indeterminate
in_some_block host cidrs (some ip) = verdict (any (λ cidr. contained_in host ip cidr) cidrs)

unfoldable pub eval_ip_in_cidr : Host → Resolved → List Text → Verdict
eval_ip_in_cidr host (string_value value) cidrs = in_some_block host cidrs (parse_ip value)
eval_ip_in_cidr host (number_value _) cidrs = indeterminate
eval_ip_in_cidr host (boolean_value _) cidrs = indeterminate
eval_ip_in_cidr host (date_value _) cidrs = indeterminate
eval_ip_in_cidr host undefined cidrs = indeterminate

abbrev is_text : Text → Element → Bool
is_text needle (string_element value) = value == needle
is_text needle (number_element _) = false

abbrev is_number : ℕ → Element → Bool
is_number needle (string_element _) = false
is_number needle (number_element value) = eqb value needle

unfoldable pub eval_in : Resolved → List Element → Verdict
eval_in (string_value needle) set = verdict (any (is_text needle) set)
eval_in (number_value needle) set = verdict (any (is_number needle) set)
eval_in (boolean_value _) set = indeterminate
eval_in (date_value _) set = indeterminate
eval_in undefined set = indeterminate

-- One round of the loop of `and`: an early return, or on with the loop and `result`.
abbrev pub and_next : Verdict → Verdict → (Verdict → Verdict) → Verdict
and_next fails result rest = fails
and_next indeterminate result rest = rest indeterminate
and_next holds result rest = rest result

-- The same for `or`.
abbrev pub or_next : Verdict → Verdict → (Verdict → Verdict) → Verdict
or_next holds result rest = holds
or_next indeterminate result rest = rest indeterminate
or_next fails result rest = rest result

abbrev pub negate : Verdict → Verdict
negate holds = fails
negate fails = holds
negate indeterminate = indeterminate

unfoldable mutual
  pub eval_condition : Host → EvaluationContext → Condition → Verdict
  eval_condition host ctx (and_all children) = eval_all host ctx children holds
  eval_condition host ctx (or_any children) = eval_any host ctx children fails
  eval_condition host ctx (negated c) = negate (eval_condition host ctx c)
  eval_condition host ctx (cmp op l r) = compare host op (resolve_term l ctx) (resolve_term r ctx)
  eval_condition host ctx (in_set needle set) = eval_in (resolve_term needle ctx) set
  eval_condition host ctx (ip_in_cidr ip cidrs) = eval_ip_in_cidr host (resolve_term ip ctx) cidrs

  -- The loops over the children, from a `result`.
  pub eval_all : Host → EvaluationContext → Conditions → Verdict → Verdict
  eval_all host ctx no_condition result = result
  eval_all host ctx (cons c cs) result =
      and_next (eval_condition host ctx c) result (λ v. eval_all host ctx cs v)

  pub eval_any : Host → EvaluationContext → Conditions → Verdict → Verdict
  eval_any host ctx no_condition result = result
  eval_any host ctx (cons c cs) result =
      or_next (eval_condition host ctx c) result (λ v. eval_any host ctx cs v)
