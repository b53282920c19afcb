-- ===== src/Conditions/Tests.antt =====
-- A run of `parseCondition` (condition.ts).
use accesscore.Prelude.{ℕ, ◌≤◌, ◌≡◌, refl, List, [], ◌∷◌, Option, none, Text, text}
use accesscore.Addresses.{Host, is_valid_cidr, is_octet_text}
use accesscore.Conditions.{
  Condition, and_all, negated, cmp, ip_in_cidr, no_condition, cons, attr, lit, principal_aal,
  env_ip, number_lit, op_ge, parse_condition, walk_condition,
}
use accesscore.Conditions.Typed.{size, height, IsTyped}
use accesscore.Conditions.Accepted.{parse_condition_lem}

abbrev dateless : Host
dateless = record { date_parse = λ s. none; number_of = λ s. none }

abbrev strong_and_outside : Condition
strong_and_outside = and_all (
    cons (cmp op_ge (attr principal_aal) (lit (number_lit 2)))
      (cons (negated (ip_in_cidr (attr env_ip) (text "10.0.0.0/8" ∷ []))) no_condition))

parse_condition_example :
    (strong_and_outside ≡ strong_and_outside)
    × (size strong_and_outside ≤ 64)
    × (height strong_and_outside ≤ 16)
    × IsTyped dateless strong_and_outside
unfolding parse_condition walk_condition accesscore.Conditions.check_cmp
    accesscore.Conditions.comparable accesscore.Conditions.term_type
    accesscore.Conditions.check_cidrs is_valid_cidr accesscore.Prelude.index_of text is_octet_text
    accesscore.Prelude.includes accesscore.Prelude.split accesscore.Prelude.grow
    accesscore.Addresses.is_octet accesscore.Addresses.decimal_from
parse_condition_example = parse_condition_lem dateless strong_and_outside strong_and_outside refl
