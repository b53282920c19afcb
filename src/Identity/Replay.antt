-- ===== src/Identity/Replay.antt =====
-- Which time-based codes are accepted, and that none is twice (identity-second-factor.ts).
use accesscore.Prelude.{
  sym, if◌then◌else◌, ℕ, ◌≡◌, refl, ap, ◌∙◌, ◌↔◌, inl, inr, Bool, true, false, List, [], ◌∷◌,
  Option, none, some, arith, Text, Option-cases,
}
use accesscore.Identity.Factors.{active, MfaCredential, has_status, is_replay, save, find_by_status}
use accesscore.Identity.SecondFactor.{
  Secrets, ProofKind, totp, recovery, SecondFactorProof, FactorTables, check_totp, stepped,
  verify_factor,
}
use accesscore.Identity.Steps.{
  IsAccepted, candidate, candidate-IsAccepted, IsAccepted-candidate, stepped-candidate,
}
use accesscore.Identity.Saved.{find-active, moved, save-find}

-- A time-based proof is accepted exactly when the user has an active credential and a step within
-- one of the current one, after the credential's last one, has the presented code.
pub verify_iff :
    (secrets : Secrets) (user_id : Text) (proof : SecondFactorProof) (now : ℕ)
    (reads w : FactorTables)
    → proof.kind ≡ totp
    → ((verify_factor secrets user_id proof now reads w).0 ≡ true) ↔ (
        (c : MfaCredential) × (find_by_status user_id active reads.credentials ≡ some c)
        × (s : ℕ) × IsAccepted secrets proof.value now c s)
unfolding verify_factor
verify_iff secrets user_id proof now reads w timed = rw timed (
  λ h. elim (Option-cases (find_by_status user_id active reads.credentials)) [
    | inl e ↦ let dead : false ≡ true = rw e at h in ground arith
    | inr (c, e) ↦ let (s, accepted) = taken c (rw e at h) in (c, e, s, accepted)
  ],
  λ (c, e, s, accepted). rw e (given c s (find-active user_id reads.credentials c e).1 accepted),
)
  where
    taken :
        (c : MfaCredential)
        → (stepped c w (candidate secrets proof.value now c)).0 ≡ true
        → (s : ℕ) × IsAccepted secrets proof.value now c s
    taken c h = elim (Option-cases (candidate secrets proof.value now c)) [
      | inl e ↦ let dead : false ≡ true = rw e at h in ground arith
      | inr (s, e) ↦ (s, candidate-IsAccepted secrets proof.value now c s e)
    ]

    given :
        (c : MfaCredential) (s : ℕ)
        → has_status c.status active ≡ true
        → IsAccepted secrets proof.value now c s
        → (stepped c w (candidate secrets proof.value now c)).0 ≡ true
    given c s on accepted = elim (Option-cases (candidate secrets proof.value now c)) [
      | inl e ↦
          let dead : false ≡ true =
            rw e at (IsAccepted-candidate secrets proof.value now c s accepted) in
          ground arith
      | inr (t, e) ↦ rw (stepped-candidate secrets proof.value now c w t on e) refl
    ]

abbrev step_of : Option MfaCredential → Option ℕ
step_of none = none
step_of (some c) = c.last_used_step

unfoldable pub last_step : Text → FactorTables → Option ℕ
last_step user_id w = step_of (find_by_status user_id active w.credentials)

abbrev candidate_of : Secrets → Text → ℕ → Option MfaCredential → Option ℕ
candidate_of secrets value now none = none
candidate_of secrets value now (some c) = candidate secrets value now c

-- The step of a time-based code that is accepted.
unfoldable pub timed_step : Secrets → Text → ProofKind → Text → ℕ → FactorTables → Option ℕ
timed_step secrets user_id recovery value now w = none
timed_step secrets user_id totp value now w =
    candidate_of secrets value now (find_by_status user_id active w.credentials)

-- What is seen of a presentation of a kind: the credential's step after a time-based code that is
-- accepted.
unfoldable pub observed : Text → ProofKind → Bool × FactorTables → Option ℕ
observed user_id recovery r = none
observed user_id totp r = if r.0 then last_step user_id r.1 else none

module _ (secrets : Secrets) (user_id : Text) (value : Text) (now : ℕ) (w : FactorTables) where
  abbrev after : ProofKind → FactorTables
  after kind = (verify_factor secrets user_id (record { kind = kind; value = value }) now w w).1

  refused :
      (o : Option MfaCredential)
      → candidate_of secrets value now o ≡ none
      → check_totp secrets value now w o ≡ (false, w)
  refused none h = refl
  refused (some c) h = rw h refl

  timed_step-none :
      (kind : ProofKind)
      → timed_step secrets user_id kind value now w ≡ none
      → last_step user_id (after kind) ≡ last_step user_id w
  unfolding timed_step verify_factor last_step
  timed_step-none recovery h = refl
  timed_step-none totp h =
      ap (λ r. last_step user_id r.1) (refused (find_by_status user_id active w.credentials) h)

  timed_step-some :
      (kind : ProofKind) (s : ℕ)
      → timed_step secrets user_id kind value now w ≡ some s
      → (w' : FactorTables) × (verify_factor secrets user_id
            (record { kind = kind; value = value })
            now
            w
            w
          ≡ (true, w'))
        × (last_step user_id w' ≡ some s)
        × (is_replay (last_step user_id w) s ≡ false)
  unfolding timed_step verify_factor last_step
  timed_step-some recovery s h = cc
  timed_step-some totp s h = elim (Option-cases (find_by_status user_id active w.credentials)) [
    | inl e ↦ let dead : none ≡ some s = rw e at h in ground arith
    | inr (c, e) ↦
        let accepted : candidate secrets value now c ≡ some s = rw e at h in
        let on = (find-active user_id w.credentials c e).1 in
        let (d, found, last) = save-find user_id c s w.credentials on e in
        (
          record w { credentials = save (moved user_id c s) w.credentials },
          ap (check_totp secrets value now w) e
              ∙ stepped-candidate secrets value now c w s on accepted,
          ap step_of found ∙ last,
          rw e (candidate-IsAccepted secrets value now c s accepted).2,
        )
  ]

  observed-timed_step :
      (kind : ProofKind)
      → observed user_id kind
          (verify_factor secrets user_id (record { kind = kind; value = value }) now w w)
        ≡ timed_step secrets user_id kind value now w
  unfolding observed timed_step verify_factor
  observed-timed_step recovery = refl
  observed-timed_step totp = elim (Option-cases (timed_step secrets user_id totp value now w)) [
    | inl e ↦
        ap (observed user_id totp) (refused (find_by_status user_id active w.credentials) e) ∙ sym e
    | inr (s, e) ↦
        let (w', took, last, fresh) = timed_step-some totp s e in
        ap (observed user_id totp) took ∙ (last ∙ sym e)
  ]

-- Each step is after the one before it.
abbrev pub Ascending : Option ℕ → List ℕ → Type 0
Ascending last [] = Unit
Ascending last (s ∷ steps) = (is_replay last s ≡ false) × Ascending (some s) steps

abbrev with_step : Option ℕ → List ℕ → List ℕ
with_step none steps = steps
with_step (some s) steps = s ∷ steps

-- The steps of the time-based codes of a user that are accepted, of presentations one after another.
unfoldable pub accepted_steps :
    Secrets → Text → List (SecondFactorProof × ℕ) → FactorTables → List ℕ
accepted_steps secrets user_id [] w = []
accepted_steps secrets user_id ((proof, now) ∷ proofs) w =
    let answer = verify_factor secrets user_id proof now w w in
    with_step (observed user_id proof.kind answer) (accepted_steps secrets user_id proofs answer.1)

-- The steps at which a user's codes are accepted, one presentation after the other, ascend from the
-- credential's last one, so that no code is accepted twice for its step.
pub accepted_steps-Ascending :
    (secrets : Secrets) (user_id : Text) (proofs : List (SecondFactorProof × ℕ)) (w : FactorTables)
    → Ascending (last_step user_id w) (accepted_steps secrets user_id proofs w)
unfolding accepted_steps
accepted_steps-Ascending secrets user_id [] w = tt
accepted_steps-Ascending secrets user_id ((proof, now) ∷ proofs) w =
    let answer = verify_factor secrets user_id proof now w w in
    let later = accepted_steps-Ascending secrets user_id proofs answer.1 in
    let seen = observed-timed_step secrets user_id proof.value now w proof.kind in
    elim (Option-cases (timed_step secrets user_id proof.kind proof.value now w)) [
      | inl e ↦
          rw (seen ∙ e)
            (rw (timed_step-none secrets user_id proof.value now w proof.kind e) at later)
      | inr (s, e) ↦
          let (w', took, last, fresh) =
            timed_step-some secrets user_id proof.value now w proof.kind s e in
          rw (seen ∙ e) (fresh, rw (ap (λ r. last_step user_id r.1) took ∙ last) at later)
    ]
