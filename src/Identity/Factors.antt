-- ===== src/Identity/Factors.antt =====
-- MFA credentials, recovery codes and the second factor
-- (apps/api/src/identity/domain: mfa-credential.ts, recovery-code.ts; their repositories;
-- identity/infrastructure/crypto/rfc6238-totp.ts; identity/application: enroll-mfa.ts,
-- activate-mfa.ts, disable-mfa.ts, redeem-recovery-code.ts, recovery-code-issuer.ts,
-- get-mfa-status.ts; authn/infrastructure/credentials/identity-second-factor.ts).
use accesscore.Prelude.{
  ℕ, Bool, true, false, ◌&&◌, not, List, [], ◌∷◌, ◌++◌, Option, none, some, leb, if◌then◌else◌,
  length, map, any, find, select, Text, text, ◌==◌,
}
use accesscore.Sessions.{update}
use accesscore.Identity.{DomainEvent, is_some}

pub data MfaStatus : Type 0 where
  pending active revoked : MfaStatus

-- `type` is always `totp`; with the events that are not yet pulled.
pub record MfaCredential : Type 0 where
  pub id : Text
  pub user_id : Text
  pub status : MfaStatus
  pub secret_ciphertext : Text
  pub algorithm : Text
  pub digits : ℕ
  pub period : ℕ
  pub last_used_step : Option ℕ
  pub created_at : ℕ
  pub activated_at : Option ℕ
  pub revoked_at : Option ℕ
  pub events : List DomainEvent

unfoldable pub has_status : MfaStatus → MfaStatus → Bool
has_status pending pending = true
has_status pending active = false
has_status pending revoked = false
has_status active pending = false
has_status active active = true
has_status active revoked = false
has_status revoked pending = false
has_status revoked active = false
has_status revoked revoked = true

abbrev mfa_event : Text → ℕ → MfaCredential → List (Text × Text) → DomainEvent
mfa_event type now c payload = record {
  type = type;
  occurred_at = now;
  aggregate_id = c.user_id;
  payload = payload;
}

-- With the defaults of the algorithm, the digits and the period, which no caller gives.
unfoldable pub enroll : Text → Text → Text → ℕ → MfaCredential
enroll id user_id secret_ciphertext now = record {
  id = id;
  user_id = user_id;
  status = pending;
  secret_ciphertext = secret_ciphertext;
  algorithm = text "SHA1";
  digits = 6;
  period = 30;
  last_used_step = none;
  created_at = now;
  activated_at = none;
  revoked_at = none;
  events =
      (record {
        type = text "identity.mfa_enrolled";
        occurred_at = now;
        aggregate_id = user_id;
        payload = (text "credentialId", id) ∷ (text "type", text "totp") ∷ [];
      })
      ∷ [];
}

-- `none` for the thrown error.
unfoldable pub activate : ℕ → MfaCredential → Option MfaCredential
activate now c =
    if not (has_status c.status pending)
    then none
    else some (record c {
      status = active;
      activated_at = some now;
      events =
          c.events
          ++ mfa_event (text "identity.mfa_activated") now c ((text "credentialId", c.id) ∷ [])
            ∷ [];
    })

-- Whether a step is not after the last one.
abbrev pub is_replay : Option ℕ → ℕ → Bool
is_replay none step = false
is_replay (some last) step = leb step last

unfoldable pub register_use : ℕ → MfaCredential → Option MfaCredential
register_use step c =
    if not (has_status c.status active)
    then none
    else if is_replay c.last_used_step step
    then none
    else some (record c { last_used_step = some step })

unfoldable pub revoke : ℕ → MfaCredential → MfaCredential
revoke now c = if has_status c.status revoked then c else record c {
  status = revoked;
  revoked_at = some now;
  events =
      c.events
      ++ mfa_event (text "identity.mfa_revoked") now c ((text "credentialId", c.id) ∷ []) ∷ [];
}

pub record RecoveryCode : Type 0 where
  pub id : Text
  pub user_id : Text
  pub code_hash : Text
  pub consumed_at : Option ℕ
  pub created_at : ℕ

abbrev pub issue_code : Text → Text → Text → ℕ → RecoveryCode
issue_code id user_id code_hash now = record {
  id = id;
  user_id = user_id;
  code_hash = code_hash;
  consumed_at = none;
  created_at = now;
}

unfoldable pub consume_code : ℕ → RecoveryCode → Option RecoveryCode
consume_code now code =
    if is_some code.consumed_at then none else some (record code { consumed_at = some now })

-- The tables. The events of a credential are not written.
abbrev pub credential_overwritten : MfaCredential → MfaCredential → MfaCredential
credential_overwritten c row = record row {
  status = c.status;
  secret_ciphertext = c.secret_ciphertext;
  last_used_step = c.last_used_step;
  activated_at = c.activated_at;
  revoked_at = c.revoked_at;
}

unfoldable pub save : MfaCredential → List MfaCredential → List MfaCredential
save c rows =
    if any (λ row. row.id == c.id) rows
    then update (λ row. row.id == c.id) (credential_overwritten c) rows
    else rows ++ (record c { events = [] }) ∷ []

unfoldable pub find_by_status : Text → MfaStatus → List MfaCredential → Option MfaCredential
find_by_status user_id status rows =
    find (λ row. row.user_id == user_id && has_status row.status status) rows

unfoldable pub find_code : Text → Text → List RecoveryCode → Option RecoveryCode
find_code user_id hash codes =
    find (λ code. code.user_id == user_id && code.code_hash == hash) codes

abbrev pub may_consume : Text → RecoveryCode → Bool
may_consume id code = code.id == id && not (is_some code.consumed_at)

-- Whether a row was changed, and the table.
unfoldable pub store_code : RecoveryCode → List RecoveryCode → Bool × List RecoveryCode
store_code code codes = (
  any (may_consume code.id) codes,
  update (may_consume code.id) (λ row. record row { consumed_at = code.consumed_at }) codes,
)

unfoldable pub replace_for_user : Text → List RecoveryCode → List RecoveryCode → List RecoveryCode
replace_for_user user_id fresh codes =
    select (λ code. not (code.user_id == user_id && not (is_some code.consumed_at))) codes ++ fresh

unfoldable pub count_active : Text → List RecoveryCode → ℕ
count_active user_id codes =
    length (select (λ code. code.user_id == user_id && not (is_some code.consumed_at)) codes)

-- The handler that redeems a code; what it reads may be older than what it writes to.
abbrev pub redeem_found : ℕ → Option RecoveryCode → List RecoveryCode → Bool × List RecoveryCode
redeem_found now none codes = (false, codes)
redeem_found now (some code) codes = elim (consume_code now code) [
  | none ↦ (false, codes)
  | some consumed ↦ store_code consumed codes
]

unfoldable pub redeem :
    (Text → Text)
    → Text
    → Text
    → ℕ
    → List RecoveryCode
    → List RecoveryCode
    → Bool × List RecoveryCode
redeem hash user_id code now reads codes =
    redeem_found now (find_code user_id (hash code) reads) codes

-- The issuer's codes, by their ids and plain texts, replace those of the user that are not consumed.
unfoldable pub issue_codes :
    (Text → Text) → Text → List (Text × Text) → ℕ → List RecoveryCode → List RecoveryCode
issue_codes hash user_id plain now codes =
    replace_for_user user_id (map (λ p. issue_code p.0 user_id (hash p.1) now) plain) codes
