-- ===== src/Verdicts/Readable.antt =====
-- When an accepted condition has a verdict (condition.ts and evaluate-condition.ts together).
use accesscore.Prelude.{◌≡◌, refl, ◌≢◌, ◌⊎◌, inl, inr, List, [], ◌∷◌, Option, none, some, Text}
use accesscore.Refs.{ok}
use accesscore.Addresses.{Host, ParsedIp, parse_ip}
use accesscore.Conditions.{
  principal_aal, env_ip, env_now, bool_lit, number_lit, string_lit, Term, attr, lit, Element,
  string_element, number_element, Condition, Conditions, and_all, or_any, negated, cmp, in_set,
  ip_in_cidr, no_condition, cons, parse_condition, term_type, comparable, temporal_pair,
}
use accesscore.Conditions.Typed.{IsTyped, AreTyped, IsMembership, IsInBlocks}
use accesscore.Conditions.Accepted.{parse_condition_lem}
use accesscore.Verdicts.{
  Verdict, holds, fails, indeterminate, EvaluationContext, string_value, resolve_term, eval_in,
  eval_ip_in_cidr, in_some_block, negate, and_next, or_next, eval_condition, eval_all, eval_any,
}
use accesscore.Verdicts.Comparisons.{verdict-ne, compare-ne}

-- No set is tested for the current time, the current time is not compared with the address of the
-- request, and every address that is tested can be read.
unfoldable mutual
  pub IsReadable : EvaluationContext → Condition → Type 0
  IsReadable ctx (and_all cs) = AreReadable ctx cs
  IsReadable ctx (or_any cs) = AreReadable ctx cs
  IsReadable ctx (negated c) = IsReadable ctx c
  IsReadable ctx (cmp op l r) =
      (l ≡ attr env_now → r ≢ attr env_ip) × (r ≡ attr env_now → l ≢ attr env_ip)
  IsReadable ctx (in_set needle set) = needle ≢ attr env_now
  IsReadable ctx (ip_in_cidr ip cidrs) =
      (address : Text) → resolve_term ip ctx ≡ string_value address → parse_ip address ≢ none

  pub AreReadable : EvaluationContext → Conditions → Type 0
  AreReadable ctx no_condition = Unit
  AreReadable ctx (cons c cs) = IsReadable ctx c × AreReadable ctx cs

module _ (host : Host) (ctx : EvaluationContext) where
  in-ne :
      (needle : Term) (set : List Element)
      → IsMembership needle set
      → needle ≢ attr env_now
      → eval_in (resolve_term needle ctx) set ≢ indeterminate
  unfolding eval_in resolve_term term_type comparable temporal_pair
  in-ne (attr principal_aal) set h n = verdict-ne _
  in-ne (attr env_ip) set h n = verdict-ne _
  in-ne (attr env_now) set h n = absurd (n refl)
  in-ne (lit (number_lit _)) set h n = verdict-ne _
  in-ne (lit (string_lit _)) set h n = verdict-ne _
  in-ne (lit (bool_lit _)) [] (full, typed) n = absurd (full refl)
  in-ne (lit (bool_lit _)) (string_element _ ∷ _) (full, (typed, _)) n = cc
  in-ne (lit (bool_lit _)) (number_element _ ∷ _) (full, (typed, _)) n = cc

  in_some_block-ne :
      (cidrs : List Text) (ip : Option ParsedIp)
      → ip ≢ none
      → in_some_block host cidrs ip ≢ indeterminate
  in_some_block-ne cidrs none h = absurd (h refl)
  in_some_block-ne cidrs (some ip) h = verdict-ne _

  block-ne :
      (ip : Term) (cidrs : List Text)
      → IsInBlocks ip cidrs
      → ((address : Text) → resolve_term ip ctx ≡ string_value address → parse_ip address ≢ none)
      → eval_ip_in_cidr host (resolve_term ip ctx) cidrs ≢ indeterminate
  unfolding eval_ip_in_cidr resolve_term term_type
  block-ne (attr principal_aal) cidrs (typed, _, _) n = cc
  block-ne (attr env_ip) cidrs (typed, _, _) n = in_some_block-ne cidrs _ (n _ refl)
  block-ne (attr env_now) cidrs (typed, _, _) n = cc
  block-ne (lit (number_lit _)) cidrs (typed, _, _) n = cc
  block-ne (lit (string_lit _)) cidrs (typed, _, _) n = in_some_block-ne cidrs _ (n _ refl)
  block-ne (lit (bool_lit _)) cidrs (typed, _, _) n = cc

  and_next-ne :
      (v r : Verdict) (rest : Verdict → Verdict)
      → v ≢ indeterminate
      → rest r ≢ indeterminate
      → and_next v r rest ≢ indeterminate
  and_next-ne holds r rest h k = k
  and_next-ne fails r rest h k = cc
  and_next-ne indeterminate r rest h k = absurd (h refl)

  or_next-ne :
      (v r : Verdict) (rest : Verdict → Verdict)
      → v ≢ indeterminate
      → rest r ≢ indeterminate
      → or_next v r rest ≢ indeterminate
  or_next-ne fails r rest h k = k
  or_next-ne holds r rest h k = cc
  or_next-ne indeterminate r rest h k = absurd (h refl)

  negate-ne : (v : Verdict) → v ≢ indeterminate → negate v ≢ indeterminate
  negate-ne holds h = cc
  negate-ne fails h = cc
  negate-ne indeterminate h = h

  mutual
    unfolding eval_condition eval_all eval_any IsTyped AreTyped IsReadable AreReadable

    eval_condition-ne :
        (c : Condition)
        → IsTyped host c
        → IsReadable ctx c
        → eval_condition host ctx c ≢ indeterminate
    eval_condition-ne (and_all cs) (_, typed) read = eval_all-ne cs holds typed read (λ e. cc)
    eval_condition-ne (or_any cs) (_, typed) read = eval_any-ne cs fails typed read (λ e. cc)
    eval_condition-ne (negated c) typed read = negate-ne _ (eval_condition-ne c typed read)
    eval_condition-ne (cmp op l r) typed (n, m) = compare-ne host ctx op l r typed n m
    eval_condition-ne (in_set needle set) typed n = in-ne needle set typed n
    eval_condition-ne (ip_in_cidr ip cidrs) typed n = block-ne ip cidrs typed n

    eval_all-ne :
        (cs : Conditions) (v : Verdict)
        → AreTyped host cs
        → AreReadable ctx cs
        → v ≢ indeterminate
        → eval_all host ctx cs v ≢ indeterminate
    eval_all-ne no_condition v typed read h = h
    eval_all-ne (cons c cs) v (typed, rest) (read, others) h =
        and_next-ne _ v _ (eval_condition-ne c typed read) (eval_all-ne cs v rest others h)

    eval_any-ne :
        (cs : Conditions) (v : Verdict)
        → AreTyped host cs
        → AreReadable ctx cs
        → v ≢ indeterminate
        → eval_any host ctx cs v ≢ indeterminate
    eval_any-ne no_condition v typed read h = h
    eval_any-ne (cons c cs) v (typed, rest) (read, others) h =
        or_next-ne _ v _ (eval_condition-ne c typed read) (eval_any-ne cs v rest others h)

  -- A condition that was accepted is true or false in every context in which it is readable: the
  -- checks before it is stored leave no other way to an indeterminate verdict.
  pub eval_condition-parse_condition :
      (c c' : Condition)
      → parse_condition host c ≡ ok c'
      → IsReadable ctx c
      → (eval_condition host ctx c ≡ holds) ⊎ (eval_condition host ctx c ≡ fails)
  eval_condition-parse_condition c c' h read =
      decided _ (eval_condition-ne c (parse_condition_lem host c c' h).3 read)
    where
      decided : (v : Verdict) → v ≢ indeterminate → (v ≡ holds) ⊎ (v ≡ fails)
      decided holds n = inl refl
      decided fails n = inr refl
      decided indeterminate n = absurd (n refl)
