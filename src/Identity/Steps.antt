-- ===== src/Identity/Steps.antt =====
-- The loop over the steps around the current one (rfc6238-totp.ts) and what it finds for a
-- credential (identity-second-factor.ts).
use accesscore.Prelude.{
  ℕ, zero, suc, ◌+◌, ◌-◌, ◌/◌, ◌≤◌, ◌<◌, ◌≡◌, refl, inl, inr, true, false, ◌||◌, Option, some,
  arith, ltb, Text, ◌==◌, Bool-cases, some_inj, ltb→lt, not-ltb→le, or-eq-false,
}
use accesscore.Identity.{is_some}
use accesscore.Identity.Factors.{active, MfaCredential, has_status, is_replay, register_use, save}
use accesscore.Identity.SecondFactor.{
  Secrets, FactorTables, compute_code, verify_steps, totp_verify, drift_window, stepped,
}

-- A step of the offsets from `k` on that is after the last one and has the code.
abbrev Candidate : (ℕ → Text) → Text → Option ℕ → ℕ → ℕ → ℕ → ℕ → ℕ → Type 0
Candidate code_of code after current window rest k s =
    (s + window < current + k + rest)
    × (current + k ≤ s + window)
    × (is_replay after s ≡ false)
    × ((code_of s == code) ≡ true)

module _ (code_of : ℕ → Text) (code : Text) (after : Option ℕ) (current window : ℕ) where
  verify_steps-Candidate :
      (rest k s : ℕ)
      → verify_steps code_of code after current window rest k ≡ some s
      → Candidate code_of code after current window rest k s
  unfolding verify_steps
  verify_steps-Candidate zero k s h = cc
  verify_steps-Candidate (suc rest) k s h =
      elim (Bool-cases (ltb (current + k) window || is_replay after (current + k - window))) [
        | inl skipped ↦
            let (a, b, c, d) = verify_steps-Candidate rest (suc k) s (rw skipped at h) in
            (omega (arith, a), omega (arith, b), c, d)
        | inr tried ↦ elim (Bool-cases (code_of (current + k - window) == code)) [
          | inl hit ↦
              let same : current + k - window ≡ s = some_inj (rw hit at (rw tried at h)) in
              let inside =
                not-ltb→le (current + k) window
                  (or-eq-false (ltb (current + k) window) (is_replay after (current + k - window))
                    tried).0 in
              (
                omega (arith, inside, same),
                omega (arith, inside, same),
                rw same at
                    (or-eq-false (ltb (current + k) window) (is_replay after (current + k - window))
                      tried).1,
                rw same at hit,
              )
          | inr miss ↦
              let (a, b, c, d) =
                verify_steps-Candidate rest (suc k) s (rw miss at (rw tried at h)) in
              (omega (arith, a), omega (arith, b), c, d)
        ]
      ]

  onwards :
      (rest k s : ℕ)
      → Candidate code_of code after current window (suc rest) k s
      → ltb (current + k) (s + window) ≡ true
      → Candidate code_of code after current window rest (suc k) s
  onwards rest k s (a, b, c, d) later =
      let below = ltb→lt (current + k) (s + window) later in
      (omega (arith, a), omega (arith, below), c, d)

  met :
      (rest k s : ℕ)
      → Candidate code_of code after current window (suc rest) k s
      → ltb (current + k) (s + window) ≡ false
      → current + k - window ≡ s
  met rest k s (a, b, c, d) here =
      let above = not-ltb→le (current + k) (s + window) here in omega (arith, above, b)

  Candidate-verify_steps :
      (rest k s : ℕ)
      → Candidate code_of code after current window rest k s
      → is_some (verify_steps code_of code after current window rest k) ≡ true
  unfolding verify_steps
  Candidate-verify_steps zero k s h = ground (arith, h.0, h.1)
  Candidate-verify_steps (suc rest) k s h =
      elim (Bool-cases (ltb (current + k) window || is_replay after (current + k - window))) [
        | inl skipped ↦ elim (Bool-cases (ltb (current + k) (s + window))) [
          | inl later ↦
              rw skipped (Candidate-verify_steps rest (suc k) s (onwards rest k s h later))
          | inr here ↦
              let same = met rest k s h here in
              let dead : (ltb (current + k) window || is_replay after s) ≡ true =
                rw same at skipped in
              ground (arith, h.2, h.1, same)
        ]
        | inr tried ↦ elim (Bool-cases (code_of (current + k - window) == code)) [
          | inl hit ↦ rw tried (rw hit refl)
          | inr miss ↦ elim (Bool-cases (ltb (current + k) (s + window))) [
            | inl later ↦
                rw tried
                  (rw miss (Candidate-verify_steps rest (suc k) s (onwards rest k s h later)))
            | inr here ↦
                let dead : (code_of s == code) ≡ false = rw (met rest k s h here) at miss in
                ground (arith, h.3)
          ]
        ]
      ]

-- A step within one of the current one that is after the credential's last one and has the code.
abbrev pub IsAccepted : Secrets → Text → ℕ → MfaCredential → ℕ → Type 0
IsAccepted secrets code now c s =
    (s ≤ now / 30000 + 1)
    × (now / 30000 ≤ s + 1)
    × (is_replay c.last_used_step s ≡ false)
    × ((compute_code secrets (secrets.decrypt c.secret_ciphertext) s == code) ≡ true)

module _ (secrets : Secrets) (code : Text) (now : ℕ) (c : MfaCredential) where
  abbrev pub candidate : Option ℕ
  candidate =
      totp_verify secrets (secrets.decrypt c.secret_ciphertext) code now drift_window
        c.last_used_step

  pub candidate-IsAccepted : (s : ℕ) → candidate ≡ some s → IsAccepted secrets code now c s
  unfolding totp_verify
  candidate-IsAccepted s h =
      let (above, below, fresh, same) =
        verify_steps-Candidate (compute_code secrets (secrets.decrypt c.secret_ciphertext)) code
          c.last_used_step (now / 30000) 1 3 0 s h in
      (omega (arith, above), omega (arith, below), fresh, same)

  pub IsAccepted-candidate : (s : ℕ) → IsAccepted secrets code now c s → is_some candidate ≡ true
  unfolding totp_verify
  IsAccepted-candidate s (above, below, fresh, same) =
      Candidate-verify_steps (compute_code secrets (secrets.decrypt c.secret_ciphertext)) code
        c.last_used_step (now / 30000) 1 3 0 s
        (omega (arith, above), omega (arith, below), fresh, same)

  pub stepped-candidate :
      (w : FactorTables) (s : ℕ)
      → has_status c.status active ≡ true
      → candidate ≡ some s
      → stepped c w candidate ≡ (
        true,
        record w { credentials = save (record c { last_used_step = some s }) w.credentials },
      )
  unfolding register_use
  stepped-candidate w s on h =
      let fresh : is_replay c.last_used_step s ≡ false = (candidate-IsAccepted s h).2 in
      rw h (rw on (rw fresh refl))
