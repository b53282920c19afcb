-- ===== src/Identity/Accounts.antt =====
-- Registration, verification of an address, request and execution of a password reset
-- (apps/api/src/identity/application: register-user.ts, verify-email.ts,
-- request-password-reset.ts, reset-password.ts).
use accesscore.Prelude.{
  ℕ, Bool, true, false, ◌||◌, [], ◌∷◌, ◌++◌, Option, none, some, if◌then◌else◌, Text,
}
use accesscore.Refs.{Result, ok, err}
use accesscore.Sessions.{Store, terminate_all_for_user}
use accesscore.Identity.{
  TextHost, create_email, create_password, PasswordError, User, register, is_active_user,
  verify_email, change_password, OneTimeToken, issue, is_expired, is_consumed, consume,
  email_verification, password_reset, Tables, save_user, find_user, find_user_by_email, find_token,
  store_consumed,
}

-- What a run draws: random ids, the hash of the password, a generated token with its hash.
pub record Drawn : Type 0 where
  pub user_id : Text
  pub token_id : Text
  pub password_hash : Text
  pub raw : Text
  pub hash : Text

pub data RegisterUserError : Type 0 where
  invalid_email invalid_password : RegisterUserError

abbrev pub verification_token_ttl_minutes : ℕ
verification_token_ttl_minutes = 60

abbrev pub password_reset_ttl_minutes : ℕ
password_reset_ttl_minutes = 15

unfoldable pub add_user : Text → Drawn → ℕ → Tables → Tables
add_user email drawn now t =
    let saved = save_user (register drawn.user_id email drawn.password_hash now) t in
    record saved {
      verifications =
          saved.verifications
          ++ issue drawn.token_id drawn.user_id drawn.hash now verification_token_ttl_minutes ∷ [];
      mails = saved.mails ++ email_verification email drawn.raw ∷ [];
    }

abbrev pub unless_known : Text → Drawn → ℕ → Tables → Option User → Tables
unless_known email drawn now t none = add_user email drawn now t
unless_known email drawn now t (some existing) = t

-- The verification of a dummy password changes nothing.
unfoldable pub register_user :
    TextHost → Text → Text → Drawn → ℕ → Tables → Result (Unit {0}) RegisterUserError × Tables
register_user host email password drawn now t = elim (create_email host email) [
  | err e ↦ (err invalid_email, t)
  | ok address ↦ elim (create_password password) [
    | err e ↦ (err invalid_password, t)
    | ok _ ↦ (ok tt, unless_known address drawn now t (find_user_by_email t address))
  ]
]

-- The token whose hash is presented, if it may still be used.
unfoldable pub usable : ℕ → Option OneTimeToken → Option OneTimeToken
usable now none = none
usable now (some token) = if is_consumed token || is_expired now token then none else some token

-- `VerifyEmailHandler`; `true` for success and `false` for `invalid_token`.
unfoldable pub verify_address : (Text → Text) → Text → ℕ → Tables → Bool × Tables
verify_address hash raw now t = elim (usable now (find_token t.verifications (hash raw))) [
  | none ↦ (false, t)
  | some token ↦ elim (find_user t token.user_id) [
    | none ↦ (false, t)
    | some user ↦
        let saved = save_user (verify_email now user) t in
        (
          true,
          record saved { verifications = store_consumed (consume now token) saved.verifications },
        )
  ]
]

abbrev pub send_reset : Text → Drawn → ℕ → Tables → Option User → Tables
send_reset email drawn now t none = t
send_reset email drawn now t (some user) =
    if is_active_user user
    then record t {
      resets =
          t.resets ++ issue drawn.token_id user.id drawn.hash now password_reset_ttl_minutes ∷ [];
      mails = t.mails ++ password_reset email drawn.raw ∷ [];
    }
    else t

-- Always a success.
unfoldable pub request_password_reset : TextHost → Text → Drawn → ℕ → Tables → Tables
request_password_reset host email drawn now t = elim (create_email host email) [
  | err e ↦ t
  | ok address ↦ send_reset address drawn now t (find_user_by_email t address)
]

-- `unfit_password` is its `invalid_password`, a name that the errors of a registration have too.
pub data ResetPasswordError : Type 0 where
  unfit_password invalid_token : ResetPasswordError

-- The tables of the identity module and those of the sessions.
pub record AccountWorld : Type 0 where
  pub tables : Tables
  pub store : Store

unfoldable pub write_reset : OneTimeToken → User → Text → ℕ → AccountWorld → AccountWorld
write_reset token user password_hash now w =
    let saved = save_user (change_password password_hash now user) w.tables in
    record {
      tables = record saved { resets = store_consumed (consume now token) saved.resets };
      store = terminate_all_for_user user.id now w.store;
    }

abbrev pub with_user :
    OneTimeToken
    → Text
    → ℕ
    → AccountWorld
    → Option User
    → Result (Unit {0}) ResetPasswordError × AccountWorld
with_user token password_hash now w none = (err invalid_token, w)
with_user token password_hash now w (some user) =
    (ok tt, write_reset token user password_hash now w)

abbrev pub with_token :
    Text
    → ℕ
    → Tables
    → AccountWorld
    → Option OneTimeToken
    → Result (Unit {0}) ResetPasswordError × AccountWorld
with_token password_hash now reads w none = (err invalid_token, w)
with_token password_hash now reads w (some token) =
    with_user token password_hash now w (find_user reads token.user_id)

abbrev pub when_fit :
    AccountWorld
    → Result (Unit {0}) ResetPasswordError × AccountWorld
    → Result Text PasswordError
    → Result (Unit {0}) ResetPasswordError × AccountWorld
when_fit w rest (err e) = (err unfit_password, w)
when_fit w rest (ok password) = rest

-- What it reads may be older than what it writes to.
unfoldable pub reset_password :
    (Text → Text)
    → Text
    → Text
    → Text
    → ℕ
    → Tables
    → AccountWorld
    → Result (Unit {0}) ResetPasswordError × AccountWorld
reset_password hash raw password password_hash now reads w =
    when_fit w
      (with_token password_hash now reads w (usable now (find_token reads.resets (hash raw))))
      (create_password password)
