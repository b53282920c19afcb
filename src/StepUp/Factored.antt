-- ===== src/StepUp/Factored.antt =====
-- A step-up with the second factor of the identity module (step-up.ts and
-- authn/infrastructure/credentials/identity-second-factor.ts).
use accesscore.Prelude.{
  ℕ, ◌≡◌, refl, ap, ◌∙◌, Bool, true, false, ◌&&◌, not, Option, none, some, if◌then◌else◌, Text,
  text, ◌==◌, eq_iff,
}
use accesscore.Refs.{Result, ok}
use accesscore.Sessions.{Session, is_active_session, find_session}
use accesscore.Login.{LockoutPolicy, is_locked}
use accesscore.Audit.{Encoding}
use accesscore.StepUp.{
  StepUpCommand, StepUpResult, StepUpError, World, Answers, lockout_key, step_up,
}
use accesscore.StepUp.Outcomes.{step_up_ok}
use accesscore.Identity.Factors.{active, MfaCredential, find_by_status}
use accesscore.Identity.SecondFactor.{
  Secrets, ProofKind, totp, recovery, SecondFactorProof, FactorTables, verify_factor,
}
use accesscore.Identity.Steps.{IsAccepted}
use accesscore.Identity.Replay.{verify_iff}

abbrev pub kind_text : ProofKind → Text
kind_text totp = text "totp"
kind_text recovery = text "recovery"

-- A request, and what the issuer and the clock answer it.
pub record StepUpRequest : Type 0 where
  pub user_id : Text
  pub session_id : Text
  pub proof : SecondFactorProof
  pub issued : StepUpResult
  pub now : ℕ

abbrev pub command_of : StepUpRequest → StepUpCommand
command_of q = record {
  user_id = q.user_id;
  session_id = q.session_id;
  proof_kind = kind_text q.proof.kind;
}

-- Whether the guards before the verification let a request through.
abbrev pub reaches : LockoutPolicy → StepUpRequest → World → Option Session → Bool
reaches policy q w none = false
reaches policy q w (some session) =
    is_active_session session
    && (session.user_id == q.user_id && not (is_locked (lockout_key session) policy w.counters))

abbrev pub factor_answer : Secrets → StepUpRequest → FactorTables → Bool × FactorTables
factor_answer secrets q factors = verify_factor secrets q.user_id q.proof q.now factors factors

abbrev pub answers_of : Secrets → StepUpRequest → FactorTables → Answers
answers_of secrets q factors = record {
  verified = (factor_answer secrets q factors).0;
  issued = q.issued;
  now = q.now;
}

-- The handler's run on both modules' tables; `at` is the time of the append.
unfoldable pub step_up_with :
    Encoding
    → LockoutPolicy
    → Secrets
    → StepUpRequest
    → ℕ
    → World × FactorTables
    → Result StepUpResult StepUpError × (World × FactorTables)
step_up_with enc policy secrets q at (w, factors) =
    let outcome = step_up enc policy (command_of q) (answers_of secrets q factors) at w in
    (
      outcome.0,
      (
        outcome.1,
        if reaches policy q w (find_session w.store q.session_id)
            then (factor_answer secrets q factors).1
            else factors,
      ),
    )

-- A session is raised by a time-based code only if its owner asks while it is active and the owner's
-- active credential accepts the code at a step that it has not used before. Then the session has the
-- assurance level 2, and the credential is written as the second factor leaves it.
pub step_up_with_totp :
    (enc : Encoding) (policy : LockoutPolicy) (secrets : Secrets) (q : StepUpRequest) (at : ℕ)
    (w : World) (factors : FactorTables) (r : StepUpResult)
    → q.proof.kind ≡ totp
    → (step_up_with enc policy secrets q at (w, factors)).0 ≡ ok r
    → (session : Session) × (find_session w.store q.session_id ≡ some session)
      × (is_active_session session ≡ true)
      × (session.user_id ≡ q.user_id)
      × (c : MfaCredential) × (find_by_status q.user_id active factors.credentials ≡ some c)
      × (s : ℕ) × IsAccepted secrets q.proof.value q.now c s
      × (find_session (step_up_with enc policy secrets q at (w, factors)).1.0.store q.session_id
          ≡ some (record session { aal = 2; auth_time = q.now }))
      × ((step_up_with enc policy secrets q at (w, factors)).1.1
          ≡ (factor_answer secrets q factors).1)
unfolding step_up_with
step_up_with_totp enc policy secrets q at w factors r timed h =
    let (session, there, (open_session, mine, unlocked, verified), raised) =
      step_up_ok enc policy (command_of q) (answers_of secrets q factors) at w r h in
    let (c, known, s, accepted) =
      (verify_iff secrets q.user_id q.proof q.now factors factors timed).0 verified in
    let owned : (session.user_id == q.user_id) ≡ true = (eq_iff session.user_id q.user_id).1 mine in
    let opened : reaches policy q w (some session) ≡ true =
      rw open_session (rw owned (rw unlocked refl)) in
    let through = ap (reaches policy q w) there ∙ opened in
    (session, there, open_session, mine, c, known, s, accepted, raised, rw through refl)
