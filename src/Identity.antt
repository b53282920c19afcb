-- ===== src/Identity.antt =====
-- Users, their one-time tokens and the tables of the identity module
-- (apps/api/src/identity/domain: user.ts, password-reset-token.ts, email-verification-token.ts,
-- value-objects; identity/infrastructure/persistence).
pub mod Accounts
pub mod Rows
pub mod Passwords
pub mod Factors
pub mod SecondFactor
pub mod Mfa
pub mod Redeemed
pub mod Steps
pub mod Saved
pub mod Replay
mod Tests
use accesscore.Prelude.{
  ℕ, ◌+◌, ◌*◌, Bool, true, false, ◌&&◌, ◌||◌, not, List, [], ◌∷◌, ◌++◌, Option, none, some, arith,
  leb, ltb, eqb, if◌then◌else◌, length, all, any, find, Text, text, ◌==◌, split,
}
use accesscore.Refs.{Result, ok, err}
use accesscore.Sessions.{update}

-- What the host computes: `trim` with `toLowerCase`, and `\s` of a pattern.
pub record TextHost : Type 0 where
  pub normalize : Text → Text
  pub is_space : ℕ → Bool

pub data EmailError : Type 0 where
  invalid_email : EmailError

-- `\.[^\s@]+` behind a first character.
unfoldable pub dot_inside : Text → Bool
dot_inside [] = false
dot_inside (c ∷ []) = false
dot_inside (c ∷ d ∷ rest) = eqb c b'.' || dot_inside (d ∷ rest)

abbrev pub is_domain : Text → Bool
is_domain [] = false
is_domain (c ∷ rest) = dot_inside rest

abbrev pub both_parts : List Text → Bool
both_parts (local ∷ domain ∷ []) = ltb 0 (length local) && is_domain domain
both_parts parts = false

unfoldable pub pattern : TextHost → Text → Bool
pattern host s = all (λ c. not (host.is_space c)) s && both_parts (split b'@' s)

unfoldable pub create_email : TextHost → Text → Result Text EmailError
create_email host input =
    let normalized = host.normalize input in
    if ltb 254 (length normalized) || not (pattern host normalized)
    then err invalid_email
    else ok normalized

pub data PasswordError : Type 0 where
  too_short too_long : PasswordError

unfoldable pub create_password : Text → Result Text PasswordError
create_password input =
    if ltb (length input) 8
    then err too_short
    else if ltb 128 (length input)
    then err too_long
    else ok input

pub data UserStatus : Type 0 where
  pending_verification active suspended : UserStatus

pub record DomainEvent : Type 0 where
  pub type : Text
  pub occurred_at : ℕ
  pub aggregate_id : Text
  pub payload : List (Text × Text)

-- With the events that are not yet pulled.
pub record User : Type 0 where
  pub id : Text
  pub email : Text
  pub password_hash : Text
  pub status : UserStatus
  pub email_verified_at : Option ℕ
  pub created_at : ℕ
  pub updated_at : ℕ
  pub events : List DomainEvent

unfoldable pub register : Text → Text → Text → ℕ → User
register id email password_hash now = record {
  id = id;
  email = email;
  password_hash = password_hash;
  status = pending_verification;
  email_verified_at = none;
  created_at = now;
  updated_at = now;
  events =
      (record {
        type = text "identity.user_registered";
        occurred_at = now;
        aggregate_id = id;
        payload = (text "email", email) ∷ [];
      })
      ∷ [];
}

abbrev pub is_active_user : User → Bool
is_active_user u = elim u.status [
  | pending_verification ↦ false
  | active ↦ true
  | suspended ↦ false
]

unfoldable pub verify_email : ℕ → User → User
verify_email now u = if is_active_user u then u else record u {
  status = active;
  email_verified_at = some now;
  updated_at = now;
  events =
      u.events
      ++ (record {
        type = text "identity.email_verified";
        occurred_at = now;
        aggregate_id = u.id;
        payload = [];
      })
        ∷ [];
}

unfoldable pub change_password : Text → ℕ → User → User
change_password password_hash now u = record u {
  password_hash = password_hash;
  updated_at = now;
  events =
      u.events
      ++ (record {
        type = text "identity.password_changed";
        occurred_at = now;
        aggregate_id = u.id;
        payload = [];
      })
        ∷ [];
}

-- A token that verifies an address or resets a password; the two classes have the same fields.
pub record OneTimeToken : Type 0 where
  pub id : Text
  pub user_id : Text
  pub token_hash : Text
  pub expires_at : ℕ
  pub consumed_at : Option ℕ
  pub created_at : ℕ

unfoldable pub issue : Text → Text → Text → ℕ → ℕ → OneTimeToken
issue id user_id token_hash now ttl_minutes = record {
  id = id;
  user_id = user_id;
  token_hash = token_hash;
  expires_at = now + ttl_minutes * 60000;
  consumed_at = none;
  created_at = now;
}

abbrev pub is_expired : ℕ → OneTimeToken → Bool
is_expired now t = leb t.expires_at now

abbrev pub is_some {ℓ} : {A : Type ℓ} → Option A → Bool
is_some none = false
is_some (some a) = true

abbrev pub is_consumed : OneTimeToken → Bool
is_consumed t = is_some t.consumed_at

abbrev pub consume : ℕ → OneTimeToken → OneTimeToken
consume now t = record t { consumed_at = some now }

pub data Mail : Type 0 where
  email_verification : Text → Text → Mail
  password_reset : Text → Text → Mail

-- The tables of the module, its outbox and what the mailer was given.
pub record Tables : Type 0 where
  pub users : List User
  pub verifications : List OneTimeToken
  pub resets : List OneTimeToken
  pub outbox : List DomainEvent
  pub mails : List Mail

-- The row of a saved user: its events go to the outbox.
abbrev pub drained : User → User
drained u = record u { events = [] }

-- `set` of the upsert.
abbrev pub overwritten : User → User → User
overwritten u row = record row {
  status = u.status;
  password_hash = u.password_hash;
  email_verified_at = u.email_verified_at;
  updated_at = u.updated_at;
}

unfoldable pub save_user : User → Tables → Tables
save_user u t = record t {
  users =
      if any (λ row. row.id == u.id) t.users
      then update (λ row. row.id == u.id) (overwritten u) t.users
      else t.users ++ drained u ∷ [];
  outbox = t.outbox ++ u.events;
}

unfoldable pub find_user : Tables → Text → Option User
find_user t id = find (λ u. u.id == id) t.users

unfoldable pub find_user_by_email : Tables → Text → Option User
find_user_by_email t email = find (λ u. u.email == email) t.users

unfoldable pub find_token : List OneTimeToken → Text → Option OneTimeToken
find_token tokens hash = find (λ t. t.token_hash == hash) tokens

-- The update is of the row of the token's id, whatever it holds.
unfoldable pub store_consumed : OneTimeToken → List OneTimeToken → List OneTimeToken
store_consumed token =
    update (λ t. t.id == token.id) (λ t. record t { consumed_at = token.consumed_at })
