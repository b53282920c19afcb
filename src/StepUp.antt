-- ===== src/StepUp.antt =====
-- Raising a session's assurance with a second factor (apps/api/src/authn/application/step-up.ts).
-- What the second factor, the issuer and the clock answer is an argument; the log of the audit is
-- that of the security module. `Factored` runs it with the second factor of the identity module.
pub mod Outcomes
pub mod Factored
mod Tests
use accesscore.Prelude.{
  ℕ, Bool, true, false, not, ◌||◌, List, [], ◌∷◌, ◌++◌, Option, none, some, if◌then◌else◌, Text,
  text, ◌==◌,
}
use accesscore.Refs.{Result, ok, err}
use accesscore.Sessions.{Session, Store, is_active_session, find_session, elevate}
use accesscore.Login.{LockoutPolicy, Counters, register_failure, is_locked, reset}
use accesscore.Audit.{
  Encoding, AuditLog, AuditEvent, Fields, no_field, field, primitive, text_value, number_value,
  append,
}

abbrev pub step_up_aal : ℕ
step_up_aal = 2

-- The proof is known to the handler by its kind only.
pub record StepUpCommand : Type 0 where
  pub user_id : Text
  pub session_id : Text
  pub proof_kind : Text

pub record StepUpResult : Type 0 where
  pub access_token : Text
  pub expires_in : ℕ

pub data StepUpError : Type 0 where
  invalid_session invalid_factor locked : StepUpError

-- The store, the lockout counters and the audit log.
pub record World : Type 0 where
  pub store : Store
  pub counters : Counters
  pub log : AuditLog

-- Whether the second factor accepts the proof of the user, the token that is issued, and the time.
pub record Answers : Type 0 where
  pub verified : Bool
  pub issued : StepUpResult
  pub now : ℕ

unfoldable pub lockout_key : Session → Text
lockout_key session = text "mfa:" ++ session.user_id

abbrev event_of : Session → Text → Fields → AuditEvent
event_of session type payload = record {
  type = type;
  org_id = session.org_id;
  subject = some session.user_id;
  payload = payload;
}

abbrev factor : StepUpCommand → Fields → Fields
factor command rest = field (text "factor") (primitive (text_value command.proof_kind)) rest

-- The audit's clock is read again at the append.
unfoldable pub fail_factor : Encoding → LockoutPolicy → StepUpCommand → Session → ℕ → World → World
fail_factor enc policy command session at w = record w {
  counters = (register_failure (lockout_key session) policy w.counters).1;
  log =
      (append enc w.log (event_of session (text "mfa.step_up_failed") (factor command no_field))
        at).0;
}

unfoldable pub raise_session : Encoding → StepUpCommand → Session → ℕ → ℕ → World → World
raise_session enc command session now at w = record {
  store = (elevate session.id step_up_aal now w.store).1;
  counters = reset (lockout_key session) w.counters;
  log =
      (append enc w.log
        (event_of session (text "mfa.step_up")
          (factor command (field (text "aal") (primitive (number_value step_up_aal)) no_field)))
        at).0;
}

abbrev with_session :
    Encoding
    → LockoutPolicy
    → StepUpCommand
    → Answers
    → ℕ
    → World
    → Option Session
    → Result StepUpResult StepUpError × World
with_session enc policy command answers at w none = (err invalid_session, w)
with_session enc policy command answers at w (some session) =
    if not (is_active_session session) || not (session.user_id == command.user_id)
    then (err invalid_session, w)
    else if is_locked (lockout_key session) policy w.counters
    then (err locked, w)
    else if not answers.verified
    then (err invalid_factor, fail_factor enc policy command session at w)
    else (ok answers.issued, raise_session enc command session answers.now at w)

-- `execute` of `StepUpHandler`; `at` is the time of the append.
unfoldable pub step_up :
    Encoding
    → LockoutPolicy
    → StepUpCommand
    → Answers
    → ℕ
    → World
    → Result StepUpResult StepUpError × World
step_up enc policy command answers at w =
    with_session enc policy command answers at w (find_session w.store command.session_id)
