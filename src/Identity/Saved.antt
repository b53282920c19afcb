-- ===== src/Identity/Saved.antt =====
-- The active credential of a user before and after it is saved
-- (drizzle-mfa-credentials.repository.ts).
use accesscore.Prelude.{
  ℕ, ◌≡◌, refl, inl, inr, true, ◌&&◌, List, [], ◌∷◌, some, arith, any, Text, ◌==◌, Bool-cases,
  some_inj, and-eq-true, eq_of_true, eq_refl,
}
use accesscore.Sessions.{update}
use accesscore.Sessions.Tables.{find-All, All-each}
use accesscore.Identity.Factors.{
  active, MfaCredential, has_status, credential_overwritten, save, find_by_status,
}

pub find-active :
    (user_id : Text) (rows : List MfaCredential) (c : MfaCredential)
    → find_by_status user_id active rows ≡ some c
    → (c.user_id ≡ user_id) × (has_status c.status active ≡ true)
unfolding find_by_status
find-active user_id rows c h =
    let holds : (c.user_id == user_id && has_status c.status active) ≡ true =
      (find-All (λ row. Unit {0}) (λ row. row.user_id == user_id && has_status row.status active)
        rows c (All-each (λ row. Unit {0}) rows (λ row. tt)) h).1 in
    let (mine, on) = and-eq-true (c.user_id == user_id) (has_status c.status active) holds in
    (eq_of_true mine, on)

module _ (user_id : Text) (c : MfaCredential) (s : ℕ) where
  abbrev pub moved : MfaCredential
  moved = record c { last_used_step = some s }

  any-find :
      (rows : List MfaCredential)
      → find_by_status user_id active rows ≡ some c
      → any (λ row. row.id == c.id) rows ≡ true
  unfolding find_by_status
  any-find [] h = cc
  any-find (row ∷ rows) h =
      elim (Bool-cases (row.user_id == user_id && has_status row.status active)) [
        | inl hit ↦ let same : row ≡ c = some_inj (rw hit at h) in rw same (rw (eq_refl c.id) refl)
        | inr miss ↦ let later = any-find rows (rw miss at h) in ground arith
      ]

  find-update :
      (rows : List MfaCredential)
      → has_status c.status active ≡ true
      → find_by_status user_id active rows ≡ some c
      → (d : MfaCredential) × (find_by_status user_id active
            (update (λ row. row.id == c.id) (credential_overwritten moved) rows)
          ≡ some d)
        × (d.last_used_step ≡ some s)
  unfolding find_by_status
  find-update [] on h = cc
  find-update (row ∷ rows) on h = elim (Bool-cases (row.id == c.id)) [
    | inl known ↦ elim (Bool-cases (row.user_id == user_id)) [
      | inl mine ↦ (credential_overwritten moved row, rw known (rw mine (rw on refl)), refl)
      | inr other ↦
          let (d, found, last) = find-update rows on (rw other at h) in
          (d, rw known (rw other found), last)
    ]
    | inr unknown ↦ elim (Bool-cases (row.user_id == user_id && has_status row.status active)) [
      | inl hit ↦
          let same : row ≡ c = some_inj (rw hit at h) in
          let dead : (row.id == c.id) ≡ true = rw same (eq_refl c.id) in
          ground (arith, unknown, dead)
      | inr miss ↦
          let (d, found, last) = find-update rows on (rw miss at h) in
          (d, rw unknown (rw miss found), last)
    ]
  ]

  pub save-find :
      (rows : List MfaCredential)
      → has_status c.status active ≡ true
      → find_by_status user_id active rows ≡ some c
      → (d : MfaCredential) × (find_by_status user_id active (save moved rows) ≡ some d)
        × (d.last_used_step ≡ some s)
  unfolding save
  save-find rows on h = rw (any-find rows h) (find-update rows on h)
