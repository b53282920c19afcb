-- ===== src/Login.antt =====
-- The login and its lockout counters (apps/api/src/authn/application/login.ts,
-- apps/api/src/authn/infrastructure/revocation/redis-lockout-store.ts). What the credentials, the
-- tenancy service, the issuer, the token generator and random ids yield is an argument.
pub mod Lockout
pub mod Opened
mod Tests
use accesscore.Prelude.{
  ℕ, zero, suc, ◌+◌, ◌-◌, ◌*◌, Bool, true, false, not, ◌&&◌, ◌||◌, List, [], ◌∷◌, ◌++◌, Option,
  none, some, leb, if◌then◌else◌, eqb, map, select, Text, text, ◌==◌, get, put,
}
use accesscore.Refs.{Result, ok, err}
use accesscore.Sessions.{
  Session, session_active, TokenFamily, family_active, RefreshToken, token_active, Store,
}

-- redis-lockout-store.ts
pub record LockoutPolicy : Type 0 where
  pub threshold : ℕ
  pub window_seconds : ℕ

pub record LockoutState : Type 0 where
  pub locked : Bool
  pub retries_left : ℕ

-- A counter and the seconds until it expires; at none it is there no longer.
pub record Counter : Type 0 where
  pub failures : ℕ
  pub ttl : ℕ

-- The counters, and whether the server answers.
pub record Counters : Type 0 where
  pub is_up : Bool
  pub counts : List (Text × Counter)

abbrev pub count_of : Option Counter → ℕ
count_of none = 0
count_of (some c) = if eqb c.ttl 0 then 0 else c.failures

abbrev pub ttl_of : Option Counter → ℕ
ttl_of none = 0
ttl_of (some c) = c.ttl

-- `INCR`, and `EXPIRE` by the first failure.
abbrev pub incremented : LockoutPolicy → Option Counter → Counter
incremented policy found = record {
  failures = suc (count_of found);
  ttl = if eqb (count_of found) 0 then policy.window_seconds else ttl_of found;
}

unfoldable pub register_failure : Text → LockoutPolicy → Counters → LockoutState × Counters
register_failure key policy c =
    let counter = incremented policy (get key c.counts) in
    if not c.is_up then (record { locked = false; retries_left = policy.threshold }, c) else (
      record {
        locked = leb policy.threshold counter.failures;
        retries_left = policy.threshold - counter.failures;
      },
      record c { counts = put key counter c.counts },
    )

-- So many seconds go by on the server.
abbrev pub aged : ℕ → Counter → Counter
aged seconds c = record c { ttl = c.ttl - seconds }

unfoldable pub elapse : ℕ → Counters → Counters
elapse seconds c = record c { counts = map (λ e. (e.0, aged seconds e.1)) c.counts }

unfoldable pub is_locked : Text → LockoutPolicy → Counters → Bool
is_locked key policy c =
    if not c.is_up then false else leb policy.threshold (count_of (get key c.counts))

unfoldable pub reset : Text → Counters → Counters
reset key c =
    if not c.is_up then c else record c { counts = select (λ e. not (e.0 == key)) c.counts }

-- login.ts
pub record LoginCommand : Type 0 where
  pub email : Text
  pub password : Text
  pub user_agent : Option Text
  pub ip : Option Text

pub record LoginConfig : Type 0 where
  pub refresh_ttl_seconds : ℕ
  pub account_lockout : LockoutPolicy
  pub ip_lockout : LockoutPolicy
  pub public_credential_email : Option Text

pub record LoginResult : Type 0 where
  pub access_token : Text
  pub refresh_token : Text
  pub expires_in : ℕ
  pub mfa_required : Bool

pub data LoginError : Type 0 where
  invalid_credentials locked : LoginError

pub record CredentialCheck : Type 0 where
  pub user_id : Text
  pub aal : ℕ
  pub mfa_required : Bool

-- The services of a login: `trim().toLowerCase()`, the credentials, the active organization, and
-- what is generated.
pub record Services : Type 0 where
  pub normalize : Text → Text
  pub verify : Text → Text → Option CredentialCheck
  pub active_organization : Text → Option Text
  pub session_id : Text
  pub family_id : Text
  pub token_id : Text
  pub raw : Text
  pub hash : Text
  pub access_token : Text
  pub expires_in : ℕ

abbrev same_email : Text → Option Text → Bool
same_email email none = false
same_email email (some other) = email == other

unfoldable pub account_key : Services → LoginConfig → LoginCommand → Option Text
account_key sv config command =
    let email = sv.normalize command.email in
    if same_email email config.public_credential_email then none else some (text "acct:" ++ email)

abbrev key_of_ip : Option Text → Option Text
key_of_ip none = none
key_of_ip (some []) = none
key_of_ip (some (c ∷ ip)) = some (text "ip:" ++ c ∷ ip)

unfoldable pub ip_key : LoginCommand → Option Text
ip_key command = key_of_ip command.ip

-- The calls that a key that is `null` skips.
abbrev pub locked_by : Option Text → LockoutPolicy → Counters → Bool
locked_by none policy c = false
locked_by (some key) policy c = is_locked key policy c

abbrev pub count_failure : Option Text → LockoutPolicy → Counters → Counters
count_failure none policy c = c
count_failure (some key) policy c = (register_failure key policy c).1

abbrev pub reset_key : Option Text → Counters → Counters
reset_key none c = c
reset_key (some key) c = reset key c

abbrev pub expiry : LoginConfig → ℕ → ℕ
expiry config now = now + config.refresh_ttl_seconds * 1000

abbrev pub new_session : Services → LoginConfig → LoginCommand → CredentialCheck → ℕ → Session
new_session sv config command check now = record {
  id = sv.session_id;
  user_id = check.user_id;
  org_id = sv.active_organization check.user_id;
  aal = check.aal;
  auth_time = now;
  status = session_active;
  device_label = none;
  user_agent = command.user_agent;
  ip = command.ip;
  created_at = now;
  last_seen_at = now;
  expires_at = expiry config now;
  revoked_at = none;
}

abbrev pub new_family : Services → CredentialCheck → ℕ → TokenFamily
new_family sv check now = record {
  id = sv.family_id;
  user_id = check.user_id;
  session_id = sv.session_id;
  status = family_active;
  created_at = now;
  revoked_at = none;
  revoked_reason = none;
}

abbrev pub new_token : Services → LoginConfig → ℕ → RefreshToken
new_token sv config now = record {
  id = sv.token_id;
  family_id = sv.family_id;
  token_hash = sv.hash;
  generation = 1;
  status = token_active;
  created_at = now;
  expires_at = expiry config now;
  consumed_at = none;
}

-- The rows that one transaction inserts.
unfoldable pub open_session :
    Services → LoginConfig → LoginCommand → CredentialCheck → ℕ → Store → Store
open_session sv config command check now st = record st {
  sessions = st.sessions ++ new_session sv config command check now ∷ [];
  families = st.families ++ new_family sv check now ∷ [];
  tokens = st.tokens ++ new_token sv config now ∷ [];
}

abbrev Outcome : Type 0
Outcome = Result LoginResult LoginError × (Counters × Store)

abbrev checked :
    Services → LoginConfig → LoginCommand → ℕ → Counters → Store → Option CredentialCheck → Outcome
checked sv config command now c st none = (
  err invalid_credentials,
  (
    count_failure (ip_key command) config.ip_lockout
        (count_failure (account_key sv config command) config.account_lockout c),
    st,
  ),
)
checked sv config command now c st (some check) = (
  ok (record {
    access_token = sv.access_token;
    refresh_token = sv.raw;
    expires_in = sv.expires_in;
    mfa_required = check.mfa_required;
  }),
  (
    reset_key (ip_key command) (reset_key (account_key sv config command) c),
    open_session sv config command check now st,
  ),
)

-- `execute` of `LoginHandler`.
unfoldable pub log_in : Services → LoginConfig → LoginCommand → ℕ → Counters → Store → Outcome
log_in sv config command now c st =
    if locked_by (account_key sv config command) config.account_lockout c
      || locked_by (ip_key command) config.ip_lockout c
    then (err locked, (c, st))
    else checked sv config command now c st (sv.verify command.email command.password)
