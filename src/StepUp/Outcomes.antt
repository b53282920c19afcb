-- ===== src/StepUp/Outcomes.antt =====
-- The outcomes of a step-up (step-up.ts).
use accesscore.Prelude.{
  ℕ, ◌≡◌, refl, sym, subst, ap, ◌∙◌, inl, inr, Bool, true, false, ◌&&◌, List, [], ◌∷◌, Option, none,
  some, arith, find, ◌==◌, eq_iff, eq_refl, Bool-cases, Option-cases,
}
use accesscore.Refs.{ok}
use accesscore.Sessions.{Session, is_active_session, find_session, elevate, update}
use accesscore.Login.{LockoutPolicy, is_locked}
use accesscore.Audit.{Encoding, verify}
use accesscore.Audit.Chained.{verify-append}
use accesscore.StepUp.{
  StepUpCommand, StepUpResult, World, Answers, lockout_key, fail_factor, raise_session, step_up,
  with_session,
}

-- The row that is found after an update that keeps the test is the updated one.
find-update :
    {A : Type 0}
    → (p q : A → Bool) (f : A → A) (xs : List A) (x : A) → ((y : A) → p (f y) ≡ p y)
    → find p xs ≡ some x
    → q x ≡ true
    → find p (update q f xs) ≡ some (f x)
find-update p q f [] x keeps h e = cc
find-update p q f (y ∷ ys) x keeps h e = elim (Bool-cases (p y)) [
  | inl hit ↦
      let same : y ≡ x = ground arith in
      let chosen : q y ≡ true = subst (λ z. q z ≡ true) (sym same) e in
      ground (arith, keeps y, chosen, hit, same)
  | inr miss ↦ ground (arith, keeps y, miss, find-update p q f ys x keeps (ground arith) e)
]

module _ (enc : Encoding) (policy : LockoutPolicy) (command : StepUpCommand) (answers : Answers)
    (at : ℕ) (w : World) where
  raised :
      (session : Session)
      → find_session w.store command.session_id ≡ some session
      → is_active_session session ≡ true
      → find_session (raise_session enc command session answers.now at w).store command.session_id
        ≡ some (record session { aal = 2; auth_time = answers.now })
  unfolding raise_session elevate find_session
  raised session there active =
      find-update (λ s. s.id == command.session_id) (λ s. s.id == session.id && is_active_session s)
        (λ s. record s { aal = 2; auth_time = answers.now }) w.store.sessions session (λ s. refl)
        there (rw (eq_refl session.id, active) refl)

  fail_factor-verify :
      (session : Session)
      → (verify enc w.log).is_ok ≡ true
      → (verify enc (fail_factor enc policy command session at w).log).is_ok ≡ true
  unfolding fail_factor
  fail_factor-verify session h = (verify-append enc w.log _ at h).0

  raise_session-verify :
      (session : Session)
      → (verify enc w.log).is_ok ≡ true
      → (verify enc (raise_session enc command session answers.now at w).log).is_ok ≡ true
  unfolding raise_session
  raise_session-verify session h = (verify-append enc w.log _ at h).0

  -- Whom a successful step-up lets pass.
  abbrev pub Passes : Session → Type 0
  Passes session =
      (is_active_session session ≡ true)
      × (session.user_id ≡ command.user_id)
      × (is_locked (lockout_key session) policy w.counters ≡ false)
      × (answers.verified ≡ true)

  with_session-ok :
      (session : Session) (r : StepUpResult)
      → (with_session enc policy command answers at w (some session)).0 ≡ ok r
      → Passes session
        × ((with_session enc policy command answers at w (some session)).1
            ≡ raise_session enc command session answers.now at w)
  with_session-ok session r h = ground (arith, eq_iff session.user_id command.user_id)

  with_session-verify :
      (o : Option Session)
      → (verify enc w.log).is_ok ≡ true
      → (verify enc (with_session enc policy command answers at w o).1.log).is_ok ≡ true
  with_session-verify none h = h
  with_session-verify (some session) h =
      ground (arith, fail_factor-verify session h, raise_session-verify session h)

  -- A step-up that succeeds was asked by the owner of an active session, whose second factor was
  -- not locked and was verified, and it leaves the session found under its id with the assurance
  -- level 2 and the time of the step-up.
  pub step_up_ok :
      (r : StepUpResult)
      → (step_up enc policy command answers at w).0 ≡ ok r
      → (session : Session) × (find_session w.store command.session_id ≡ some session)
        × Passes session
        × (find_session (step_up enc policy command answers at w).1.store command.session_id
            ≡ some (record session { aal = 2; auth_time = answers.now }))
  unfolding step_up
  step_up_ok r h = elim (Option-cases (find_session w.store command.session_id)) [
    | inl gone ↦ absurd (ground arith)
    | inr (session, there) ↦
        let (passes, outcome) =
          with_session-ok session r
            (subst (λ o. (with_session enc policy command answers at w o).0 ≡ ok r) there h) in
        let left : (with_session enc policy command answers at w
              (find_session w.store command.session_id)).1
            ≡ raise_session enc command session answers.now at w =
          ap (λ o. (with_session enc policy command answers at w o).1) there ∙ outcome in
        (
          session,
          there,
          passes,
          subst
              (λ v.
                find_session v.store command.session_id
                ≡ some (record session { aal = 2; auth_time = answers.now }))
              (sym left) (raised session there passes.0),
        )
  ]

  -- Whatever its outcome, a step-up leaves an audit log that verifies verifying.
  pub step_up-verify :
      (verify enc w.log).is_ok ≡ true
      → (verify enc (step_up enc policy command answers at w).1.log).is_ok ≡ true
  unfolding step_up
  step_up-verify h = with_session-verify (find_session w.store command.session_id) h
