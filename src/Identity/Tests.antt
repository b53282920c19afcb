-- ===== src/Identity/Tests.antt =====
-- Runs of the identity module: accounts, resets, recovery codes and time-based codes.
use accesscore.Identity.{dot_inside}
use accesscore.Identity.{pattern}
use accesscore.Identity.Factors.{has_status}
use accesscore.Identity.Factors.{register_use}
use accesscore.Identity.Factors.{save}
use accesscore.Identity.Replay.{timed_step}
use accesscore.Identity.SecondFactor.{totp_verify}
use accesscore.Identity.SecondFactor.{verify_steps}
use accesscore.Prelude.{grow}
use accesscore.Prelude.{split}
use accesscore.Prelude.{◌==◌}
use accesscore.Prelude.{
  ℕ, ◌≤◌, ◌≡◌, ◌↔◌, refl, true, List, [], ◌∷◌, none, some, eqb, ne_of_false, ◌==◌, Text, text,
  split, grow,
}
use accesscore.Refs.{Result, ok, err}
use accesscore.Sessions.{Store, session_active}
use accesscore.Identity.{
  pattern, dot_inside, find_user_by_email, save_user, register, verify_email, store_consumed,
  TextHost, UserStatus, create_email, create_password, invalid_email, too_short, User, OneTimeToken,
  Tables, issue, find_user, find_token,
}
use accesscore.Identity.Accounts.{
  add_user, usable, Drawn, ResetPasswordError, AccountWorld, reset_password, register_user,
  verify_address, request_password_reset,
}
use accesscore.Identity.Passwords.{IsReset, reset_password-IsReset}
use accesscore.Identity.Factors.{
  MfaCredential, active, store_code, RecoveryCode, find_code, redeem, consume_code, issue_codes,
  replace_for_user, issue_code, enroll, find_by_status,
}
use accesscore.Identity.SecondFactor.{
  Secrets, totp, SecondFactorProof, FactorTables, verify_factor, compute_code,
}
use accesscore.Identity.Mfa.{mint_code}
use accesscore.Identity.Redeemed.{
  CodeEvent, redeemed, reissued, code_step, times_accepted, times_accepted-once,
}
use accesscore.Identity.Steps.{IsAccepted}
use accesscore.Identity.Replay.{
  observed, verify_iff, Ascending, accepted_steps, last_step, accepted_steps-Ascending,
}

abbrev plain_host : TextHost
plain_host = record { normalize = λ s. s; is_space = λ c. eqb c b' ' }

accepted_address : create_email plain_host (text "a@b.c") ≡ ok (text "a@b.c")
unfolding create_email text pattern split grow dot_inside
accepted_address = refl

refused_address : create_email plain_host (text "a@b.") ≡ err invalid_email
unfolding create_email text pattern split grow dot_inside
refused_address = refl

short_password : create_password (text "1234567") ≡ err too_short
unfolding create_password text
short_password = refl

abbrev same : Text → Text
same s = s

abbrev drawn : Drawn
drawn = record {
  user_id = text "u1";
  token_id = text "t1";
  password_hash = text "h1";
  raw = text "raw";
  hash = text "raw";
}

abbrev empty : Tables
empty = record { users = []; verifications = []; resets = []; outbox = []; mails = [] }

-- Registered and verified.
abbrev verified : Tables
verified =
    (verify_address same (text "raw") 10
      (register_user plain_host (text "a@b.c") (text "12345678") drawn 0 empty).1).1

abbrev active_member : UserStatus
active_member = accesscore.Identity.active

abbrev member : User
member = record {
  id = text "u1";
  email = text "a@b.c";
  password_hash = text "h1";
  status = active_member;
  email_verified_at = some 10;
  created_at = 0;
  updated_at = 10;
  events = [];
}

verified_users : verified.users ≡ member ∷ []
unfolding text verify_address register_user create_email create_password pattern split grow
    dot_inside find_user_by_email add_user save_user register verify_email usable find_token
    find_user issue store_consumed ◌==◌
verified_users = refl

abbrev requested : Tables
requested = record empty {
  users = member ∷ [];
  resets = issue (text "t1") (text "u1") (text "raw") 20 15 ∷ [];
}

requested_resets :
    (request_password_reset plain_host
      (text "a@b.c")
      drawn
      20
      (record empty { users = member ∷ [] })).resets
    ≡ requested.resets
unfolding request_password_reset create_email text pattern split grow dot_inside find_user_by_email
    ◌==◌
requested_resets = refl

abbrev store : Store
store = record {
  sessions =
      record {
        id = text "s1";
        user_id = text "u1";
        org_id = none;
        aal = 1;
        auth_time = 0;
        status = session_active;
        device_label = none;
        user_agent = none;
        ip = none;
        created_at = 0;
        last_seen_at = 0;
        expires_at = 100;
        revoked_at = none;
      }
      ∷ [];
  families = [];
  tokens = [];
  outbox = [];
  grace = [];
  revoked = [];
}

abbrev world : AccountWorld
world = record { tables = requested; store = store }

abbrev reset_once : Result (Unit {0}) ResetPasswordError × AccountWorld
reset_once = reset_password same (text "raw") (text "12345678") (text "h2") 30 world.tables world

reset_password_example :
    (token : OneTimeToken) × (user : User) × IsReset same
      (text "raw")
      (text "h2")
      30
      world
      reset_once.1
      token
      user
unfolding reset_password create_password text usable find_token ◌==◌ issue find_user
reset_password_example =
    reset_password-IsReset same (text "raw") (text "12345678") (text "h2") 30 world refl

-- Two resets that read before either writes both succeed with one token.
reset_twice :
    (reset_password same (text "raw") (text "abcdefgh") (text "h3") 31 world.tables reset_once.1).0
    ≡ ok tt
unfolding reset_password create_password text usable find_token ◌==◌ issue find_user
reset_twice = refl

abbrev secrets : Secrets
secrets = record {
  hmac = λ secret step. 0 ∷ 0 ∷ 0 ∷ step ∷ 0 ∷ [];
  decrypt = λ s. s;
  hash = λ s. s;
}

code_of_five : compute_code secrets [] 5 ≡ text "000005"
unfolding compute_code text
code_of_five = refl

minted : mint_code (0 ∷ 1 ∷ 2 ∷ 3 ∷ 4 ∷ 5 ∷ 6 ∷ 7 ∷ 8 ∷ 40 ∷ []) ≡ text "23456-789AA"
unfolding mint_code text
minted = refl

abbrev credential : MfaCredential
credential = record (enroll (text "m1") (text "u1") (text "k") 0) {
  status = active;
  activated_at = some 0;
  events = [];
}

abbrev codes : List RecoveryCode
codes = issue_code (text "r1") (text "u1") (text "c") 0 ∷ []

abbrev factors : FactorTables
factors = record { credentials = credential ∷ []; codes = codes }

abbrev five : SecondFactorProof
five = record { kind = totp; value = text "000005" }

verify_example : ((verify_factor secrets (text "u1") five 160000 factors factors).0 ≡ true) ↔ (
    (c : MfaCredential) × (find_by_status (text "u1") active factors.credentials ≡ some c)
    × (s : ℕ) × IsAccepted secrets (text "000005") 160000 c s)
verify_example = verify_iff secrets (text "u1") five 160000 factors factors refl

-- The code is accepted at once and refused when it is presented again.
presented_twice :
    accepted_steps secrets (text "u1") ((five, 160000) ∷ (five, 160001) ∷ []) factors ≡ 5 ∷ []
unfolding accepted_steps timed_step find_by_status ◌==◌ enroll text has_status totp_verify
    verify_steps compute_code verify_factor register_use save observed last_step
presented_twice = refl

accepted_steps_example :
    Ascending
      (last_step (text "u1") factors)
      (accepted_steps secrets (text "u1") ((five, 160000) ∷ (five, 160001) ∷ []) factors)
accepted_steps_example =
    accepted_steps-Ascending secrets (text "u1") ((five, 160000) ∷ (five, 160001) ∷ []) factors

-- Two verifications that read before either writes accept one code.
verified_twice :
    (verify_factor secrets
      (text "u1")
      five
      160001
      factors
      (verify_factor secrets (text "u1") five 160000 factors factors).1).0
    ≡ true
unfolding verify_factor find_by_status ◌==◌ enroll text has_status totp_verify verify_steps
    compute_code register_use
verified_twice = refl

abbrev events : List CodeEvent
events =
    redeemed (text "u1") (text "c") 1 codes
    ∷ reissued (text "u1") ((text "r2", text "c") ∷ []) 2
    ∷ redeemed (text "u1") (text "c") 3 codes
    ∷ []

accepted_once : times_accepted same (text "r1") events codes ≡ 1
unfolding times_accepted find_code ◌==◌ text code_step redeem consume_code store_code issue_codes
    replace_for_user
accepted_once = refl

times_accepted-once_example : times_accepted same (text "r1") events codes ≤ 1
unfolding ◌==◌ text
times_accepted-once_example =
    times_accepted-once (text "r1") same events codes (tt, ((ne_of_false refl, tt), (tt, tt)))
