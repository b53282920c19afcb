-- ===== src/Login/Tests.antt =====
-- Runs of the login and of the lockout counters (login.ts, redis-lockout-store.ts).
use accesscore.Prelude.{
  ◌≡◌, refl, ◌≢◌, true, false, ◌+◌, ltb, if◌then◌else◌, ℕ, List, [], ◌∷◌, none, some, arith, leb,
  Text, text, get,
}
use accesscore.Refs.{ok}
use accesscore.Sessions.{Store, find_by_hash, find_family, find_session}
use accesscore.Refresh.{Generated, execute}
use accesscore.Login.{
  LockoutPolicy, Counters, elapse, LoginCommand, LoginConfig, LoginResult, Services, is_locked,
  locked_by, account_key, ip_key, log_in,
}
use accesscore.Login.Lockout.{after_failures, is_locked-after_failures}
use accesscore.Login.Opened.{AreFresh, exchanged, execute-log_in}

abbrev five : LockoutPolicy
five = record { threshold = 5; window_seconds = 900 }

abbrev no_failures : Counters
no_failures = record { is_up = true; counts = [] }

-- Five failures within the window, a minute apart.
abbrev pauses : List ℕ
pauses = 60 ∷ 60 ∷ 60 ∷ 60 ∷ []

is_locked-after_failures_example :
    (is_locked (text "acct:ana") five (after_failures (text "acct:ana") five pauses 30 no_failures)
      ≡ leb 5 (if ltb (240 + 30) 900 then 5 else 0))
    × ((other : Text) (policy' : LockoutPolicy)
        → text "acct:ana" ≢ other
        → is_locked other policy' (after_failures (text "acct:ana") five pauses 30 no_failures)
          ≡ is_locked other policy' (elapse (240 + 30) no_failures))
is_locked-after_failures_example =
    is_locked-after_failures (text "acct:ana") five pauses 30 no_failures refl (omega arith)

abbrev empty_store : Store
empty_store = record {
  sessions = [];
  families = [];
  tokens = [];
  outbox = [];
  grace = [];
  revoked = [];
}

abbrev services : Services
services = record {
  normalize = λ s. s;
  verify = λ email password. some (record { user_id = text "u1"; aal = 1; mfa_required = false });
  active_organization = λ user. none;
  session_id = text "s1";
  family_id = text "f1";
  token_id = text "t1";
  raw = text "r1";
  hash = text "h1";
  access_token = text "a1";
  expires_in = 900;
}

abbrev config : LoginConfig
config = record {
  refresh_ttl_seconds = 60;
  account_lockout = five;
  ip_lockout = five;
  public_credential_email = none;
}

abbrev command : LoginCommand
command = record { email = text "ana"; password = text "secret"; user_agent = none; ip = none }

abbrev second : Generated
second = record {
  successor_id = text "t2";
  raw = text "r2";
  hash = text "h2";
  access_token = text "a2";
  expires_in = 900;
  grace_seconds = 10;
}

opened :
    (r : LoginResult) × (c : Counters) × (st : Store) × (log_in services config command 1
        no_failures empty_store
      ≡ (ok r, (c, st)))
unfolding log_in account_key is_locked get ip_key
opened = (_, _, _, refl)

nothing_there : AreFresh services empty_store
unfolding find_by_hash find_family find_session
nothing_there = record { fresh_hash = refl; fresh_family = refl; fresh_session = refl }

execute-log_in_example :
    (services.verify (text "ana") (text "secret") ≢ none)
    × (locked_by (account_key services config command) five no_failures ≡ false)
    × (locked_by (ip_key command) five no_failures ≡ false)
    × (opened.0.refresh_token ≡ text "r1")
    × ((execute second (text "h1") 500 opened.2).0
        ≡ exchanged services config command 1 empty_store nothing_there second)
execute-log_in_example =
    execute-log_in services config command 1 empty_store nothing_there no_failures opened.1 opened.2
      opened.0 second 500 opened.3 (omega arith)
