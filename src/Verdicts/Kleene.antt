-- ===== src/Verdicts/Kleene.antt =====
-- The connectives of conditions as a three-valued logic (evaluate-condition.ts: the cases `and`,
-- `or` and `not` of `evalCondition`).
use accesscore.Prelude.{◌≡◌, refl, ◌≢◌, ◌↔◌, ◌⊎◌, inl, inr, arith}
use accesscore.Addresses.{Host}
use accesscore.Conditions.{Conditions, and_all, or_any, negated, no_condition, cons}
use accesscore.Verdicts.{
  Verdict, holds, fails, indeterminate, EvaluationContext, negate, eval_condition, eval_all,
  eval_any,
}

-- The negations of the children.
unfoldable pub negate_each : Conditions → Conditions
negate_each no_condition = no_condition
negate_each (cons c cs) = cons (negated c) (negate_each cs)

Verdict-cases : (v : Verdict) → (v ≡ holds) ⊎ (v ≡ fails) ⊎ (v ≡ indeterminate)
Verdict-cases holds = inl refl
Verdict-cases fails = inr (inl refl)
Verdict-cases indeterminate = inr (inr refl)

module _ (host : Host) (ctx : EvaluationContext) where
  negate-eval_all :
      (cs : Conditions) (v : Verdict)
      → negate (eval_all host ctx cs v) ≡ eval_any host ctx (negate_each cs) (negate v)
  unfolding eval_condition eval_all eval_any negate_each
  negate-eval_all no_condition v = refl
  negate-eval_all (cons c cs) v = ground (
    arith,
    Verdict-cases (eval_condition host ctx c),
    negate-eval_all cs v,
    negate-eval_all cs indeterminate,
  )

  negate-eval_any :
      (cs : Conditions) (v : Verdict)
      → negate (eval_any host ctx cs v) ≡ eval_all host ctx (negate_each cs) (negate v)
  unfolding eval_condition eval_all eval_any negate_each
  negate-eval_any no_condition v = refl
  negate-eval_any (cons c cs) v = ground (
    arith,
    Verdict-cases (eval_condition host ctx c),
    negate-eval_any cs v,
    negate-eval_any cs indeterminate,
  )

  -- De Morgan's laws, with indeterminate verdicts and early returns: a negated conjunction is the
  -- disjunction of the negations, and a negated disjunction the conjunction of the negations.
  pub de_morgan :
      (cs : Conditions)
      → (eval_condition host ctx (negated (and_all cs))
          ≡ eval_condition host ctx (or_any (negate_each cs)))
        × (eval_condition host ctx (negated (or_any cs))
            ≡ eval_condition host ctx (and_all (negate_each cs)))
  unfolding eval_condition
  de_morgan cs = (negate-eval_all cs holds, negate-eval_any cs fails)

  -- Every child has the verdict, and some child has it.
  unfoldable pub Every : Verdict → Conditions → Type 0
  Every v no_condition = Unit
  Every v (cons c cs) = (eval_condition host ctx c ≡ v) × Every v cs

  unfoldable pub Some : Verdict → Conditions → Type 0
  Some v no_condition = ⊥
  Some v (cons c cs) = (eval_condition host ctx c ≡ v) ⊎ Some v cs

  all-Every :
      (cs : Conditions) (v : Verdict)
      → (eval_all host ctx cs v ≡ holds) ↔ ((v ≡ holds) × Every holds cs)
  unfolding eval_all Every
  all-Every no_condition v = (λ h. (h, tt), λ h. h.0)
  all-Every (cons c cs) v =
      ground (
        arith,
        Verdict-cases (eval_condition host ctx c),
        all-Every cs v,
        all-Every cs indeterminate,
      )

  all-Some :
      (cs : Conditions) (v : Verdict) → v ≢ fails → (eval_all host ctx cs v ≡ fails) ↔ Some fails cs
  unfolding eval_all Some
  all-Some no_condition v n = (λ h. n h, λ h. absurd h)
  all-Some (cons c cs) v n =
      ground (
        arith,
        Verdict-cases (eval_condition host ctx c),
        all-Some cs v n,
        all-Some cs indeterminate,
      )

  -- A conjunction holds exactly when every child holds, and fails exactly when some child fails,
  -- whatever stands before that child; otherwise it is indeterminate.
  pub and_all_iff :
      (cs : Conditions)
      → ((eval_condition host ctx (and_all cs) ≡ holds) ↔ Every holds cs)
        × ((eval_condition host ctx (and_all cs) ≡ fails) ↔ Some fails cs)
  unfolding eval_condition
  and_all_iff cs = (
    (λ h. ((all-Every cs holds).0 h).1, λ h. (all-Every cs holds).1 (refl, h)),
    all-Some cs holds (λ e. cc),
  )
