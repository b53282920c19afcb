-- ===== src/Identity/SecondFactor.antt =====
-- Time-based codes and the verification of a second factor
-- (apps/api/src/identity/infrastructure/crypto/rfc6238-totp.ts and
-- authn/infrastructure/credentials/identity-second-factor.ts).
use accesscore.Prelude.{
  ℕ, zero, suc, ◌+◌, ◌-◌, ◌*◌, ◌/◌, ◌%◌, ◌^◌, Bool, true, false, ◌||◌, List, [], ◌∷◌, ◌++◌, Option,
  none, some, ltb, if◌then◌else◌, drop, Text, ◌==◌,
}
use accesscore.Identity.Factors.{
  active, MfaCredential, is_replay, register_use, save, find_by_status, RecoveryCode, redeem,
}

-- `createHmac('sha1', …)` of node:crypto on the counter of a step, the decryption of a secret and
-- the hash of a recovery code.
pub record Secrets : Type 0 where
  pub hmac : Text → ℕ → List ℕ
  pub decrypt : Text → Text
  pub hash : Text → Text

abbrev pub last_byte : List ℕ → ℕ
last_byte [] = 0
last_byte (b ∷ []) = b
last_byte (b ∷ c ∷ rest) = last_byte (c ∷ rest)

-- `readUInt32BE`; an HMAC has twenty bytes, and an offset below sixteen leaves four.
abbrev pub read_uint32 : List ℕ → ℕ
read_uint32 (a ∷ b ∷ c ∷ d ∷ rest) = ((a * 256 + b) * 256 + c) * 256 + d
read_uint32 bytes = 0

-- So many decimals, `padStart` with zeros included.
abbrev pub decimals : ℕ → ℕ → Text
decimals zero n = []
decimals (suc k) n = decimals k (n / 10) ++ (b'0' + n % 10) ∷ []

unfoldable pub compute_code : Secrets → Text → ℕ → Text
compute_code secrets secret step =
    let digest = secrets.hmac secret step in
    decimals 6 (read_uint32 (drop (last_byte digest % 16) digest) % 2 ^ 31 % 10 ^ 6)

-- The loop over the offsets, `k` of them done; a step below zero is one that is passed over, as it
-- is not after `-1`.
unfoldable pub verify_steps : (ℕ → Text) → Text → Option ℕ → ℕ → ℕ → (rest : ℕ) → (k : ℕ) → Option ℕ
verify_steps code_of code after current window zero k = none
verify_steps code_of code after current window (suc rest) k =
    let later = verify_steps code_of code after current window rest (suc k) in
    if ltb (current + k) window || is_replay after (current + k - window)
    then later
    else if code_of (current + k - window) == code
    then some (current + k - window)
    else later

-- The step of a valid code; times are milliseconds.
unfoldable pub totp_verify : Secrets → Text → Text → ℕ → ℕ → Option ℕ → Option ℕ
totp_verify secrets secret code at window after =
    verify_steps (compute_code secrets secret) code after (at / 30000) window (2 * window + 1) 0

abbrev pub drift_window : ℕ
drift_window = 1

pub data ProofKind : Type 0 where
  totp recovery : ProofKind

pub record SecondFactorProof : Type 0 where
  pub kind : ProofKind
  pub value : Text

pub record FactorTables : Type 0 where
  pub credentials : List MfaCredential
  pub codes : List RecoveryCode

-- `false` also for the error that `registerUse` throws.
abbrev pub after_use : Option MfaCredential → FactorTables → Bool × FactorTables
after_use none w = (false, w)
after_use (some credential) w = (true, record w { credentials = save credential w.credentials })

abbrev pub stepped : MfaCredential → FactorTables → Option ℕ → Bool × FactorTables
stepped credential w none = (false, w)
stepped credential w (some step) = after_use (register_use step credential) w

abbrev pub check_totp :
    Secrets → Text → ℕ → FactorTables → Option MfaCredential → Bool × FactorTables
check_totp secrets code now w none = (false, w)
check_totp secrets code now w (some credential) = stepped credential w (
    totp_verify secrets (secrets.decrypt credential.secret_ciphertext) code now drift_window
      credential.last_used_step)

abbrev pub with_codes : FactorTables → Bool × List RecoveryCode → Bool × FactorTables
with_codes w (answer, codes) = (answer, record w { codes = codes })

-- `verify` of `IdentitySecondFactor`; what it reads may be older than what it writes to.
unfoldable pub verify_factor :
    Secrets → Text → SecondFactorProof → ℕ → FactorTables → FactorTables → Bool × FactorTables
verify_factor secrets user_id proof now reads w = elim proof.kind [
  | recovery ↦ with_codes w (redeem secrets.hash user_id proof.value now reads.codes w.codes)
  | totp ↦ check_totp secrets proof.value now w (find_by_status user_id active reads.credentials)
]
