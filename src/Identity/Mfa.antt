-- ===== src/Identity/Mfa.antt =====
-- The handlers of MFA (apps/api/src/identity/application: enroll-mfa.ts, activate-mfa.ts,
-- disable-mfa.ts, regenerate-recovery-codes.ts, recovery-code-issuer.ts, get-mfa-status.ts).
use accesscore.Prelude.{
  ℕ, ◌%◌, Bool, true, false, not, List, [], ◌∷◌, ◌++◌, Option, none, some, if◌then◌else◌, map, take,
  drop, Text, text,
}
use accesscore.Refs.{Result, ok, err}
use accesscore.Audit.{
  Encoding, AuditLog, AuditEvent, no_field, field, primitive, text_value, append,
}
use accesscore.Identity.{Tables, find_user}
use accesscore.Identity.Factors.{
  pending, active, MfaCredential, enroll, activate, register_use, revoke, save, find_by_status,
  issue_codes, count_active,
}
use accesscore.Identity.SecondFactor.{Secrets, FactorTables, totp_verify, drift_window}

abbrev alphabet : Text
alphabet = text "23456789ABCDEFGHJKLMNPQRSTUVWXYZ"

abbrev char_at : Text → ℕ → Text
char_at s i = take 1 (drop i s)

abbrev body_of : List ℕ → Text
body_of [] = []
body_of (b ∷ bytes) = char_at alphabet (b % 32) ++ body_of bytes

-- Of the ten random bytes.
unfoldable pub mint_code : List ℕ → Text
mint_code bytes = let body = body_of bytes in take 5 body ++ b'-' ∷ drop 5 body

-- What a run draws: the id of the credential, the ciphertext of a new secret, its `otpauth` URI, and
-- the id and the random bytes of each recovery code.
pub record DrawnMfa : Type 0 where
  pub id : Text
  pub secret_ciphertext : Text
  pub otpauth_uri : Text
  pub code_seeds : List (Text × List ℕ)

abbrev plain_codes : DrawnMfa → List (Text × Text)
plain_codes drawn = map (λ seed. (seed.0, mint_code seed.1)) drawn.code_seeds

abbrev pub plain_texts : DrawnMfa → List Text
plain_texts drawn = map (λ p. p.1) (plain_codes drawn)

unfoldable pub issue_recovery : Secrets → Text → DrawnMfa → ℕ → FactorTables → FactorTables
issue_recovery secrets user_id drawn now w = record w {
  codes = issue_codes secrets.hash user_id (plain_codes drawn) now w.codes;
}

abbrev pub superseded : ℕ → Option MfaCredential → FactorTables → FactorTables
superseded now none w = w
superseded now (some old) w = record w { credentials = save (revoke now old) w.credentials }

-- The errors of all the handlers; `failed` stands for a thrown one.
pub data MfaError : Type 0 where
  user_not_found no_pending_credential invalid_code step_up_required not_enabled : MfaError
  failed : MfaError

unfoldable pub enroll_mfa :
    Tables → Text → DrawnMfa → ℕ → FactorTables → Result Text MfaError × FactorTables
enroll_mfa tables user_id drawn now w = elim (find_user tables user_id) [
  | none ↦ (err user_not_found, w)
  | some user ↦
      let cleared = superseded now (find_by_status user_id pending w.credentials) w in
      (
        ok drawn.otpauth_uri,
        record cleared {
          credentials =
              save (enroll drawn.id user_id drawn.secret_ciphertext now) cleared.credentials;
        },
      )
]

-- The tables and the audit log.
pub record MfaWorld : Type 0 where
  pub factors : FactorTables
  pub log : AuditLog

abbrev mfa_audit : Text → Text → MfaCredential → AuditEvent
mfa_audit type user_id c = record {
  type = type;
  org_id = none;
  subject = some user_id;
  payload = field (text "credentialId") (primitive (text_value c.id)) no_field;
}

-- `activate` and `registerUse` one after the other; `none` when either throws.
abbrev pub activated : ℕ → ℕ → MfaCredential → Option MfaCredential
activated now step c = elim (activate now c) [ none ↦ none | some begun ↦ register_use step begun ]

unfoldable pub finish_activation :
    Encoding
    → Secrets
    → Text
    → DrawnMfa
    → ℕ
    → ℕ
    → MfaCredential
    → MfaWorld
    → Result (List Text) MfaError × MfaWorld
finish_activation enc secrets user_id drawn now step c w = elim (activated now step c) [
  | none ↦ (err failed, w)
  | some begun ↦
      let saved = record w.factors { credentials = save begun w.factors.credentials } in
      (
        ok (plain_texts drawn),
        record {
          factors = issue_recovery secrets user_id drawn now saved;
          log = (append enc w.log (mfa_audit (text "mfa.activated") user_id begun) now).0;
        },
      )
]

abbrev pub blocked : Bool → Option MfaCredential → Bool
blocked stepped_up none = false
blocked stepped_up (some old) = not stepped_up

unfoldable pub activate_mfa :
    Encoding
    → Secrets
    → Text
    → Text
    → Bool
    → DrawnMfa
    → ℕ
    → MfaWorld
    → Result (List Text) MfaError × MfaWorld
activate_mfa enc secrets user_id code stepped_up drawn now w =
    elim (find_by_status user_id pending w.factors.credentials) [
      | none ↦ (err no_pending_credential, w)
      | some c ↦
          elim (totp_verify secrets (secrets.decrypt c.secret_ciphertext) code now drift_window
            none) [
              | none ↦ (err invalid_code, w)
              | some step ↦
                  let old = find_by_status user_id active w.factors.credentials in
                  if blocked stepped_up old
                  then (err step_up_required, w)
                  else finish_activation enc secrets user_id drawn now step c
                      (record w { factors = superseded now old w.factors })
            ]
    ]

unfoldable pub disable_mfa : Encoding → Text → ℕ → MfaWorld → Result (Unit {0}) MfaError × MfaWorld
disable_mfa enc user_id now w = elim (find_by_status user_id active w.factors.credentials) [
  | none ↦ (err not_enabled, w)
  | some c ↦ (
    ok tt,
    record {
      factors = superseded now (some c) w.factors;
      log = (append enc w.log (mfa_audit (text "mfa.disabled") user_id c) now).0;
    },
  )
]

unfoldable pub regenerate :
    Secrets → Text → DrawnMfa → ℕ → FactorTables → Result (List Text) MfaError × FactorTables
regenerate secrets user_id drawn now w = elim (find_by_status user_id active w.credentials) [
  | none ↦ (err not_enabled, w)
  | some c ↦ (ok (plain_texts drawn), issue_recovery secrets user_id drawn now w)
]

-- Whether it is enabled, and how many recovery codes remain.
unfoldable pub mfa_status : Text → FactorTables → Bool × ℕ
mfa_status user_id w = elim (find_by_status user_id active w.credentials) [
  | none ↦ (false, 0)
  | some c ↦ (true, count_active user_id w.codes)
]
