-- ===== src/Identity/Redeemed.antt =====
-- How often a recovery code is accepted (redeem-recovery-code.ts, recovery-code-issuer.ts and their
-- repository), whatever runs in between its reading and its writing.
use accesscore.Prelude.{
  ℕ, suc, ◌≤◌, ◌≡◌, ◌≢◌, refl, inl, inr, Bool, true, false, not, ◌&&◌, List, [], ◌∷◌, ◌++◌, Option,
  none, some, arith, any, select, map, if◌then◌else◌, All, Text, ◌==◌, eq_iff, Bool-cases,
  Option-cases, eq_of_true, and-eq-true,
}
use accesscore.Sessions.{update}
use accesscore.Identity.{is_some}
use accesscore.Identity.Factors.{
  RecoveryCode, issue_code, consume_code, find_code, may_consume, store_code, replace_for_user,
  redeem_found, redeem, issue_codes,
}

-- A redemption, with the table that it read; or new codes of a user, by ids and plain texts.
pub data CodeEvent : Type 0 where
  redeemed : (user_id code : Text) → ℕ → List RecoveryCode → CodeEvent
  reissued : Text → List (Text × Text) → ℕ → CodeEvent

unfoldable pub code_step : (Text → Text) → CodeEvent → List RecoveryCode → Bool × List RecoveryCode
code_step hash (redeemed user_id code now reads) codes = redeem hash user_id code now reads codes
code_step hash (reissued user_id plain now) codes =
    (false, issue_codes hash user_id plain now codes)

abbrev has_id : Text → Option RecoveryCode → Bool
has_id id none = false
has_id id (some code) = code.id == id

-- Whether an event is about the code of an id.
abbrev is_of : (Text → Text) → Text → CodeEvent → Bool
is_of hash id (redeemed user_id code now reads) = has_id id (find_code user_id (hash code) reads)
is_of hash id (reissued user_id plain now) = false

-- How many redemptions of the code of an id are accepted.
unfoldable pub times_accepted : (Text → Text) → Text → List CodeEvent → List RecoveryCode → ℕ
times_accepted hash id [] codes = 0
times_accepted hash id (e ∷ events) codes =
    let rest = times_accepted hash id events (code_step hash e codes).1 in
    if is_of hash id e && (code_step hash e codes).0 then suc rest else rest

-- New codes have other ids.
abbrev IsFresh : Text → CodeEvent → Type 0
IsFresh id (redeemed user_id code now reads) = Unit
IsFresh id (reissued user_id plain now) = All (λ p. p.0 ≢ id) plain

any-append :
    (p : RecoveryCode → Bool) (xs ys : List RecoveryCode)
    → any p xs ≡ false
    → any p ys ≡ false
    → any p (xs ++ ys) ≡ false
any-append p [] ys h k = k
any-append p (x ∷ xs) ys h k = ground (arith, any-append p xs ys, h, k)

any-select :
    (p q : RecoveryCode → Bool) (xs : List RecoveryCode)
    → any p xs ≡ false
    → any p (select q xs) ≡ false
any-select p q [] h = refl
any-select p q (x ∷ xs) h = ground (arith, any-select p q xs, h)

module _ (id : Text) where
  spent-update :
      (other : Text) (now : ℕ) (codes : List RecoveryCode)
      → any (may_consume id) codes ≡ false
      → any
          (may_consume id)
          (update (may_consume other) (λ row. record row { consumed_at = some now }) codes)
        ≡ false
  spent-update other now [] h = refl
  spent-update other now (c ∷ codes) h = ground (arith, spent-update other now codes, h)

  update-spent :
      (now : ℕ) (codes : List RecoveryCode)
      → any
          (may_consume id)
          (update (may_consume id) (λ row. record row { consumed_at = some now }) codes)
        ≡ false
  update-spent now [] = refl
  update-spent now (c ∷ codes) = ground (arith, update-spent now codes)

  fresh_unspent :
      (hash : Text → Text) (user_id : Text) (now : ℕ) (plain : List (Text × Text))
      → All (λ p. p.0 ≢ id) plain
      → any (may_consume id) (map (λ p. issue_code p.0 user_id (hash p.1) now) plain) ≡ false
  fresh_unspent hash user_id now [] h = refl
  fresh_unspent hash user_id now (p ∷ plain) (d, h) =
      ground (arith, eq_iff p.0 id, d, fresh_unspent hash user_id now plain h)

  found_spent :
      (now : ℕ) (o : Option RecoveryCode) (codes : List RecoveryCode)
      → any (may_consume id) codes ≡ false
      → (any (may_consume id) (redeem_found now o codes).1 ≡ false)
        × ((has_id id o && (redeem_found now o codes).0) ≡ false)
  unfolding consume_code store_code
  found_spent now none codes h = (h, refl)
  found_spent now (some c) codes h = elim (Option-cases c.consumed_at) [
    | inl e ↦ rw e (
      spent-update c.id now codes h,
      elim (Bool-cases (c.id == id)) [
        | inl same ↦ rw same (rw (eq_of_true same) h)
        | inr other ↦ rw other refl
      ],
    )
    | inr (t, e) ↦ rw e (h, ground arith)
  ]

  found_accepted :
      (now : ℕ) (o : Option RecoveryCode) (codes : List RecoveryCode)
      → (has_id id o && (redeem_found now o codes).0) ≡ true
      → any (may_consume id) (redeem_found now o codes).1 ≡ false
  unfolding consume_code store_code
  found_accepted now none codes h = cc
  found_accepted now (some c) codes h = elim (Option-cases c.consumed_at) [
    | inl e ↦
        let same : c.id ≡ id =
          eq_of_true (and-eq-true (c.id == id) (redeem_found now (some c) codes).0 h).0 in
        rw e (rw same (update-spent now codes))
    | inr (t, e) ↦ let dead : (c.id == id && false) ≡ true = rw e at h in ground arith
  ]

  code_step-spent :
      (hash : Text → Text) (e : CodeEvent) (codes : List RecoveryCode)
      → IsFresh id e
      → any (may_consume id) codes ≡ false
      → any (may_consume id) (code_step hash e codes).1 ≡ false
  unfolding code_step redeem issue_codes replace_for_user
  code_step-spent hash (redeemed user_id code now reads) codes f h =
      (found_spent now (find_code user_id (hash code) reads) codes h).0
  code_step-spent hash (reissued user_id plain now) codes f h =
      any-append (may_consume id)
        (select (λ c. not (c.user_id == user_id && not (is_some c.consumed_at))) codes)
        (map (λ p. issue_code p.0 user_id (hash p.1) now) plain)
        (any-select (may_consume id)
          (λ c. not (c.user_id == user_id && not (is_some c.consumed_at))) codes h)
        (fresh_unspent hash user_id now plain f)

  -- What a step of the table answers about the code, and leaves of it.
  code_step-accepted :
      (hash : Text → Text) (e : CodeEvent) (codes : List RecoveryCode)
      → (is_of hash id e && (code_step hash e codes).0) ≡ true
      → any (may_consume id) (code_step hash e codes).1 ≡ false
  unfolding code_step redeem
  code_step-accepted hash (redeemed user_id code now reads) codes h =
      found_accepted now (find_code user_id (hash code) reads) codes h
  code_step-accepted hash (reissued user_id plain now) codes h = cc

  code_step-refused :
      (hash : Text → Text) (e : CodeEvent) (codes : List RecoveryCode)
      → any (may_consume id) codes ≡ false
      → (is_of hash id e && (code_step hash e codes).0) ≡ false
  unfolding code_step redeem
  code_step-refused hash (redeemed user_id code now reads) codes h =
      (found_spent now (find_code user_id (hash code) reads) codes h).1
  code_step-refused hash (reissued user_id plain now) codes h = refl

  times_accepted-spent :
      (hash : Text → Text) (events : List CodeEvent) (codes : List RecoveryCode)
      → All (IsFresh id) events
      → any (may_consume id) codes ≡ false
      → times_accepted hash id events codes ≡ 0
  unfolding times_accepted
  times_accepted-spent hash [] codes f h = refl
  times_accepted-spent hash (e ∷ events) codes (f, fs) h = rw (code_step-refused hash e codes h) (
      times_accepted-spent hash events (code_step hash e codes).1 fs
        (code_step-spent hash e codes f h))

  -- However redemptions and new codes interleave, and however old the table is that a redemption
  -- read, the code of an id is accepted at most once, if no later code takes its id.
  pub times_accepted-once :
      (hash : Text → Text) (events : List CodeEvent) (codes : List RecoveryCode)
      → All (IsFresh id) events
      → times_accepted hash id events codes ≤ 1
  unfolding times_accepted
  times_accepted-once hash [] codes f = omega arith
  times_accepted-once hash (e ∷ events) codes (f, fs) =
      elim (Bool-cases (is_of hash id e && (code_step hash e codes).0)) [
        | inl hit ↦ rw hit (
            omega (
              arith,
              times_accepted-spent hash events (code_step hash e codes).1 fs
                  (code_step-accepted hash e codes hit),
            ))
        | inr miss ↦ rw miss (times_accepted-once hash events (code_step hash e codes).1 fs)
      ]
