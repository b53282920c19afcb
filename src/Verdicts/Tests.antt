-- ===== src/Verdicts/Tests.antt =====
-- Runs of `evalCondition` (evaluate-condition.ts).
use accesscore.Prelude.{
  ℕ, ◌≡◌, refl, ◌≢◌, ◌↔◌, ◌⊎◌, List, [], ◌∷◌, Option, none, some, Text, text, subst, includes,
  split, grow, arith,
}
use accesscore.Addresses.{
  Host, parse_ip, parse_ipv4, read_octets, decimal_from, is_valid_cidr, is_octet_text,
}
use accesscore.Conditions.{
  Condition, Conditions, and_all, or_any, negated, cmp, ip_in_cidr, no_condition, cons, attr, lit,
  principal_aal, env_ip, number_lit, op_ge, parse_condition, walk_condition,
}
use accesscore.Verdicts.{holds, fails, EvaluationContext, resolve_term, eval_condition}
use accesscore.Verdicts.Readable.{IsReadable, eval_condition-parse_condition}

abbrev dateless : Host
dateless = record { date_parse = λ s. none; number_of = λ s. none }

abbrev request : EvaluationContext
request = record { aal = 1; auth_time = none; ip = text "10.1.2.3"; now = 1000 }

abbrev checks : Conditions
checks =
    cons (cmp op_ge (attr principal_aal) (lit (number_lit 2)))
      (cons (negated (ip_in_cidr (attr env_ip) (text "10.0.0.0/8" ∷ []))) no_condition)

abbrev outside : Condition
outside = negated (ip_in_cidr (attr env_ip) (text "10.0.0.0/8" ∷ []))

address_read : parse_ip (text "10.1.2.3") ≢ none
unfolding parse_ip parse_ipv4 includes split grow read_octets is_octet_text decimal_from text
address_read e = cc

outside-IsReadable : IsReadable request outside
unfolding IsReadable resolve_term
outside-IsReadable address e h =
    let same : address ≡ text "10.1.2.3" = ground arith in
    address_read (subst (λ a. parse_ip a ≡ none) same h)

eval_condition-parse_condition_example :
    (eval_condition dateless request outside ≡ holds)
    ⊎ (eval_condition dateless request outside ≡ fails)
unfolding parse_condition walk_condition accesscore.Conditions.check_cidrs
    accesscore.Conditions.term_type is_valid_cidr accesscore.Prelude.index_of text is_octet_text
    accesscore.Prelude.includes accesscore.Prelude.split accesscore.Prelude.grow
    accesscore.Addresses.is_octet accesscore.Addresses.decimal_from
eval_condition-parse_condition_example =
    eval_condition-parse_condition dateless request outside outside refl outside-IsReadable
