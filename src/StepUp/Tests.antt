-- ===== src/StepUp/Tests.antt =====
-- Runs of a step-up (step-up.ts).
use accesscore.Identity.Factors.{has_status}
use accesscore.Identity.Factors.{register_use}
use accesscore.Identity.SecondFactor.{compute_code}
use accesscore.Identity.SecondFactor.{totp_verify}
use accesscore.Identity.SecondFactor.{verify_factor}
use accesscore.Identity.SecondFactor.{verify_steps}
use accesscore.Prelude.{ℕ, ◌≡◌, refl, true, [], ◌∷◌, none, some, text, ◌==◌, get}
use accesscore.Sessions.{is_active_session, Session, session_active, find_session}
use accesscore.Login.{LockoutPolicy, is_locked}
use accesscore.Audit.{Encoding, verify, verify_chain, verify_from}
use accesscore.StepUp.{StepUpCommand, World, Answers, step_up}
use accesscore.Identity.Factors.{MfaCredential, enroll, active, find_by_status}
use accesscore.Identity.SecondFactor.{Secrets, totp, FactorTables}
use accesscore.Identity.Steps.{IsAccepted}
use accesscore.StepUp.Factored.{StepUpRequest, factor_answer, step_up_with, step_up_with_totp}
use accesscore.StepUp.Outcomes.{Passes, step_up_ok}

abbrev session : Session
session = record {
  id = text "s1";
  user_id = text "u1";
  org_id = none;
  aal = 1;
  auth_time = 0;
  status = session_active;
  device_label = none;
  user_agent = none;
  ip = none;
  created_at = 0;
  last_seen_at = 0;
  expires_at = 100;
  revoked_at = none;
}

abbrev world : World
world = record {
  store = record {
    sessions = session ∷ [];
    families = [];
    tokens = [];
    outbox = [];
    grace = [];
    revoked = [];
  };
  counters = record { is_up = true; counts = [] };
  log = record { rows = []; next_seq = 1 };
}

abbrev echo : Encoding
echo = record { sha256 = λ s. s; stringify = λ p. text "p"; to_iso = λ n. text "t" }

abbrev five : LockoutPolicy
five = record { threshold = 5; window_seconds = 900 }

abbrev command : StepUpCommand
command = record { user_id = text "u1"; session_id = text "s1"; proof_kind = text "totp" }

abbrev accepted : Answers
accepted = record {
  verified = true;
  issued = record { access_token = text "a"; expires_in = 900 };
  now = 50;
}

step_up_example :
    (s : Session) × (find_session world.store (text "s1") ≡ some s)
    × Passes echo five command accepted 51 world s
    × (find_session (step_up echo five command accepted 51 world).1.store (text "s1")
        ≡ some (record s { aal = 2; auth_time = 50 }))
unfolding step_up find_session ◌==◌ text is_locked get
step_up_example = step_up_ok echo five command accepted 51 world accepted.issued refl

nothing_logged : (verify echo world.log).is_ok ≡ true
unfolding verify verify_chain verify_from
nothing_logged = refl

abbrev credential : MfaCredential
credential = record (enroll (text "m1") (text "u1") (text "k") 0) { status = active; events = [] }

abbrev factors : FactorTables
factors = record { credentials = credential ∷ []; codes = [] }

abbrev secrets : Secrets
secrets = record {
  hmac = λ secret step. 0 ∷ 0 ∷ 0 ∷ step ∷ 0 ∷ [];
  decrypt = λ s. s;
  hash = λ s. s;
}

abbrev asked : StepUpRequest
asked = record {
  user_id = text "u1";
  session_id = text "s1";
  proof = record { kind = totp; value = text "000005" };
  issued = accepted.issued;
  now = 160000;
}

step_up_with_example :
    (s : Session) × (find_session world.store (text "s1") ≡ some s)
    × (is_active_session s ≡ true)
    × (s.user_id ≡ text "u1")
    × (c : MfaCredential) × (find_by_status (text "u1") active factors.credentials ≡ some c)
    × (step : ℕ) × IsAccepted secrets (text "000005") 160000 c step
    × (find_session
          (step_up_with echo five secrets asked 160001 (world, factors)).1.0.store
          (text "s1")
        ≡ some (record s { aal = 2; auth_time = 160000 }))
    × ((step_up_with echo five secrets asked 160001 (world, factors)).1.1
        ≡ (factor_answer secrets asked factors).1)
unfolding step_up_with step_up find_session ◌==◌ text is_locked get verify_factor find_by_status
    enroll has_status totp_verify verify_steps compute_code register_use
step_up_with_example =
    step_up_with_totp echo five secrets asked 160001 world factors accepted.issued refl refl
