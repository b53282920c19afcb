-- ===== src/Verdicts/Comparisons.antt =====
-- An accepted comparison has an answer (condition.ts: `checkCmp`; evaluate-condition.ts: `compare`).
use accesscore.Prelude.{
  ℕ, ◌≡◌, refl, ◌≢◌, ◌⊎◌, inl, inr, Bool, true, false, Option, none, some, arith, Text,
}
use accesscore.Addresses.{Host}
use accesscore.Conditions.{
  principal_aal, env_ip, env_now, bool_lit, number_lit, string_lit, Term, attr, lit, CmpOp, op_eq,
  op_ne, op_lt, op_le, op_gt, op_ge, ValueType, number_type, string_type, boolean_type,
  timestamp_type, term_type, comparable, temporal_pair, bad_timestamp, is_ordered,
}
use accesscore.Conditions.Typed.{IsComparison}
use accesscore.Verdicts.{
  indeterminate, verdict, EvaluationContext, number_value, boolean_value, string_value, date_value,
  resolve_term, to_epoch, ordered, equality, compare, ordered_epochs,
}

pub verdict-ne : (b : Bool) → verdict b ≢ indeterminate
verdict-ne true = cc
verdict-ne false = cc

ordered-ne : (op : CmpOp) (l r : ℕ) → ordered op l r ≢ indeterminate
unfolding ordered
ordered-ne op_eq l r = verdict-ne _
ordered-ne op_ne l r = verdict-ne _
ordered-ne op_lt l r = verdict-ne _
ordered-ne op_le l r = verdict-ne _
ordered-ne op_gt l r = verdict-ne _
ordered-ne op_ge l r = verdict-ne _

equality-ne : (op : CmpOp) (same : Bool) → is_ordered op ≡ false → equality op same ≢ indeterminate
unfolding equality
equality-ne op_eq same h = verdict-ne _
equality-ne op_ne same h = verdict-ne _
equality-ne op_lt same h = cc
equality-ne op_le same h = cc
equality-ne op_gt same h = cc
equality-ne op_ge same h = cc

ordered_epochs-ne :
    (op : CmpOp) (l r : Option ℕ) → l ≢ none → r ≢ none → ordered_epochs op l r ≢ indeterminate
ordered_epochs-ne op none r h k = absurd (h refl)
ordered_epochs-ne op (some l) none h k = absurd (k refl)
ordered_epochs-ne op (some l) (some r) h k = ordered-ne op l r

bad_timestamp-ne :
    (host : Host) (s : Text)
    → bad_timestamp host (lit (string_lit s)) ≡ false
    → host.date_parse s ≢ none
bad_timestamp-ne host s h e = ground arith

module _ (host : Host) (ctx : EvaluationContext) (op : CmpOp) where
  number-ne :
      (n : ℕ) (r : Term)
      → comparable number_type (term_type r) ≡ true
      → compare host op (number_value n) (resolve_term r ctx) ≢ indeterminate
  unfolding compare resolve_term term_type comparable temporal_pair
  number-ne n (attr principal_aal) h = ordered-ne op _ _
  number-ne n (attr env_ip) h = cc
  number-ne n (attr env_now) h = cc
  number-ne n (lit (number_lit _)) h = ordered-ne op _ _
  number-ne n (lit (string_lit _)) h = cc
  number-ne n (lit (bool_lit _)) h = cc

  boolean-ne :
      (b : Bool) (r : Term)
      → comparable boolean_type (term_type r) ≡ true
      → is_ordered op ≡ false
      → compare host op (boolean_value b) (resolve_term r ctx) ≢ indeterminate
  unfolding compare resolve_term term_type comparable temporal_pair
  boolean-ne n (attr principal_aal) h o = cc
  boolean-ne n (attr env_ip) h o = cc
  boolean-ne n (attr env_now) h o = cc
  boolean-ne n (lit (number_lit _)) h o = cc
  boolean-ne n (lit (string_lit _)) h o = cc
  boolean-ne n (lit (bool_lit _)) h o = equality-ne op _ o

  string-ne :
      (s : Text) (r : Term)
      → comparable string_type (term_type r) ≡ true
      → (term_type r ≡ string_type → is_ordered op ≡ false)
      → (r ≡ attr env_now → host.date_parse s ≢ none)
      → compare host op (string_value s) (resolve_term r ctx) ≢ indeterminate
  unfolding compare resolve_term term_type comparable temporal_pair to_epoch
  string-ne s (attr principal_aal) h o d = cc
  string-ne s (attr env_ip) h o d = equality-ne op _ (o refl)
  string-ne s (attr env_now) h o d =
      ordered_epochs-ne op (host.date_parse s) (some ctx.now) (d refl) (λ e. cc)
  string-ne s (lit (number_lit _)) h o d = cc
  string-ne s (lit (string_lit _)) h o d = equality-ne op _ (o refl)
  string-ne s (lit (bool_lit _)) h o d = cc

  date-ne :
      (now : ℕ) (r : Term)
      → comparable timestamp_type (term_type r) ≡ true
      → bad_timestamp host r ≡ false
      → r ≢ attr env_ip
      → compare host op (date_value now) (resolve_term r ctx) ≢ indeterminate
  unfolding compare resolve_term term_type comparable temporal_pair to_epoch
  date-ne now (attr principal_aal) h b n = cc
  date-ne now (attr env_ip) h b n = absurd (n refl)
  date-ne now (attr env_now) h b n = ordered-ne op _ _
  date-ne now (lit (number_lit _)) h b n = cc
  date-ne now (lit (string_lit s)) h b n =
      ordered_epochs-ne op (some now) (host.date_parse s) (λ e. cc) (bad_timestamp-ne host s b)
  date-ne now (lit (bool_lit _)) h b n = cc

  abbrev IsAnswered : Term → Term → Type 0
  IsAnswered l r = compare host op (resolve_term l ctx) (resolve_term r ctx) ≢ indeterminate

  -- Two texts, or two Booleans, are accepted for equality only.
  unordered :
      (a b : ValueType)
      → (is_ordered op ≡ false)
        ⊎ ((a ≡ number_type) × (b ≡ number_type))
        ⊎ (temporal_pair a b ≡ true)
      → a ≢ number_type
      → temporal_pair a b ≡ false
      → is_ordered op ≡ false
  unordered a b (inl o) n t = o
  unordered a b (inr (inl (e, _))) n t = absurd (n e)
  unordered a b (inr (inr e)) n t = ground arith

  temporal_pair-boolean : (b : ValueType) → temporal_pair boolean_type b ≡ false
  unfolding temporal_pair
  temporal_pair-boolean number_type = refl
  temporal_pair-boolean string_type = refl
  temporal_pair-boolean boolean_type = refl
  temporal_pair-boolean timestamp_type = refl

  pub compare-ne :
      (l r : Term)
      → IsComparison host op l r
      → (l ≡ attr env_now → r ≢ attr env_ip)
      → (r ≡ attr env_now → l ≢ attr env_ip)
      → IsAnswered l r
  unfolding resolve_term term_type temporal_pair
  compare-ne (attr principal_aal) r (typed, order, stamps) n m = number-ne _ r typed
  compare-ne (attr env_ip) r (typed, order, stamps) n m =
      string-ne _ r typed (λ e. unordered string_type (term_type r) order (λ x. cc) (rw e refl))
        (λ e. absurd (m e refl))
  compare-ne (attr env_now) r (typed, order, stamps) n m =
      date-ne _ r typed (stamps (inl refl)).1 (n refl)
  compare-ne (lit (number_lit _)) r (typed, order, stamps) n m = number-ne _ r typed
  compare-ne (lit (string_lit s)) r (typed, order, stamps) n m =
      string-ne _ r typed (λ e. unordered string_type (term_type r) order (λ x. cc) (rw e refl))
        (λ e. bad_timestamp-ne host s (stamps (inr (rw e refl))).0)
  compare-ne (lit (bool_lit _)) r (typed, order, stamps) n m =
      boolean-ne _ r typed
        (unordered boolean_type (term_type r) order (λ x. cc) (temporal_pair-boolean (term_type r)))
