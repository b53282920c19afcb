-- ===== src/Identity/Passwords.antt =====
-- What a password reset leaves behind (reset-password.ts).
use accesscore.Prelude.{
  ℕ, ◌≡◌, refl, sym, ap, subst, ◌∙◌, inl, inr, false, ◌||◌, [], Option, none, some, arith, Text,
  ◌==◌, Bool-cases, Option-cases, some_inj, eq_of_true, or-eq-false, ◌⊎◌,
}
use accesscore.Refs.{Result, ok, err}
use accesscore.Sessions.{list_active_by_user}
use accesscore.Sessions.Tables.{find-All, All-each}
use accesscore.Identity.{
  User, change_password, create_password, PasswordError, OneTimeToken, is_consumed, is_expired,
  Tables, find_user, find_token, save_user, store_consumed,
}
use accesscore.Identity.Accounts.{
  AccountWorld, usable, ResetPasswordError, unfit_password, invalid_token, write_reset, with_user,
  with_token, when_fit, reset_password,
}
use accesscore.Identity.Rows.{
  list_active-terminate_all, find-store_consumed, usable-consume, find-save,
}

usable-some :
    (now : ℕ) (o : Option OneTimeToken) (token : OneTimeToken)
    → usable now o ≡ some token
    → (o ≡ some token) × (is_consumed token ≡ false) × (is_expired now token ≡ false)
unfolding usable
usable-some now none token h = cc
usable-some now (some t) token h = elim (Bool-cases (is_consumed t || is_expired now t)) [
  | inl dead ↦ let no : none ≡ some token = rw dead at h in ground arith
  | inr fit ↦
      let same : t ≡ token = some_inj (rw fit at h) in
      let (fresh, alive) = or-eq-false (is_consumed t) (is_expired now t) fit in
      (ap some same, rw same at fresh, rw same at alive)
]

find_user-id : (t : Tables) (id : Text) (u : User) → find_user t id ≡ some u → u.id ≡ id
unfolding find_user
find_user-id t id u h =
    eq_of_true
      (find-All (λ x. Unit {0}) (λ x. x.id == id) t.users u
        (All-each (λ x. Unit {0}) t.users (λ x. tt)) h).1

Result-cases :
    (r : Result Text PasswordError)
    → ((p : Text) × (r ≡ ok p)) ⊎ ((e : PasswordError) × (r ≡ err e))
Result-cases (ok p) = inl (p, refl)
Result-cases (err e) = inr (e, refl)

-- A token that may not be used, as the tables are that are read, changes nothing.
reset_password-refused :
    (hash : Text → Text) (raw password password_hash : Text) (now : ℕ) (reads : Tables)
    (w : AccountWorld)
    → usable now (find_token reads.resets (hash raw)) ≡ none
    → (e : ResetPasswordError) × (reset_password hash raw password password_hash now reads w
        ≡ (err e, w))
unfolding reset_password
reset_password-refused hash raw password password_hash now reads w h =
    elim (Result-cases (create_password password)) [
      | inl (p, good) ↦
          (invalid_token, ap (when_fit w rest) good ∙ ap (with_token password_hash now reads w) h)
      | inr (e, bad) ↦ (unfit_password, ap (when_fit w rest) bad)
    ]
  where
    rest : Result (Unit {0}) ResetPasswordError × AccountWorld
    rest = with_token password_hash now reads w (usable now (find_token reads.resets (hash raw)))

-- What holds of a token, its user and the world that a reset leaves.
abbrev pub IsReset :
    (Text → Text) → Text → Text → ℕ → AccountWorld → AccountWorld → OneTimeToken → User → Type 0
IsReset hash raw password_hash now w w' token user =
    (find_token w.tables.resets (hash raw) ≡ some token)
    × (is_consumed token ≡ false)
    × (is_expired now token ≡ false)
    × (user.id ≡ token.user_id)
    × (find_user w'.tables user.id
        ≡ some (record user { password_hash = password_hash; updated_at = now }))
    × (list_active_by_user w'.store user.id ≡ [])
    × ((password' password_hash' : Text) (later : ℕ) (reads : Tables) (last : AccountWorld)
        → find_token reads.resets (hash raw) ≡ find_token w'.tables.resets (hash raw)
        → (e : ResetPasswordError) × (reset_password hash raw password' password_hash' later reads
              last
            ≡ (err e, last)))

write_reset-IsReset :
    (hash : Text → Text) (raw password_hash : Text) (now : ℕ) (w : AccountWorld)
    (token : OneTimeToken) (user : User)
    → usable now (find_token w.tables.resets (hash raw)) ≡ some token
    → find_user w.tables token.user_id ≡ some user
    → IsReset hash raw password_hash now w (write_reset token user password_hash now w) token user
unfolding write_reset save_user store_consumed change_password find_user
write_reset-IsReset hash raw password_hash now w token user open_token known =
    let (found, fresh, alive) =
      usable-some now (find_token w.tables.resets (hash raw)) token open_token in
    let mine = find_user-id w.tables token.user_id user known in
    (
      found,
      fresh,
      alive,
      mine,
      find-save user password_hash now w.tables (ap (find_user w.tables) mine ∙ known),
      list_active-terminate_all user.id now w.store,
      λ password' password_hash' later reads last as_left.
          reset_password-refused hash raw password' password_hash' later reads last
            (ap (usable later) as_left ∙ spent found later),
    )
  where
    spent :
        find_token w.tables.resets (hash raw) ≡ some token
        → (later : ℕ)
        → usable later
            (find_token (write_reset token user password_hash now w).tables.resets (hash raw))
          ≡ none
    spent found later =
        ap (usable later) (find-store_consumed (hash raw) token now w.tables.resets found)
        ∙ usable-consume now later token

with_token-IsReset :
    (hash : Text → Text) (raw password_hash : Text) (now : ℕ) (w : AccountWorld)
    → (with_token password_hash now w.tables w
        (usable now (find_token w.tables.resets (hash raw)))).0
      ≡ ok tt
    → (token : OneTimeToken) × (user : User) × IsReset hash raw password_hash now w
        (with_token password_hash now w.tables w
          (usable now (find_token w.tables.resets (hash raw)))).1
        token
        user
with_token-IsReset hash raw password_hash now w h =
    elim (Option-cases (usable now (find_token w.tables.resets (hash raw)))) [
      | inl e ↦ let dead : err invalid_token ≡ ok tt = rw e at h in ground arith
      | inr (token, e) ↦ elim (Option-cases (find_user w.tables token.user_id)) [
        | inl f ↦ let dead : err invalid_token ≡ ok tt = rw f at (rw e at h) in ground arith
        | inr (user, f) ↦
            let done = write_reset-IsReset hash raw password_hash now w token user e f in
            let same =
              ap (with_token password_hash now w.tables w) e
              ∙ ap (with_user token password_hash now w) f in
            (
              token,
              user,
              subst (λ z. IsReset hash raw password_hash now w z.1 token user) (sym same) done,
            )
      ]
    ]

-- A password is reset only by a token that is neither consumed nor expired. Then its user has the
-- new password and no active session, and the token is spent: every attempt that reads the token's
-- row as this reset left it is refused and changes nothing, whatever the world is by then. An
-- attempt that read the row before is not refused by it.
pub reset_password-IsReset :
    (hash : Text → Text) (raw password password_hash : Text) (now : ℕ) (w : AccountWorld)
    → (reset_password hash raw password password_hash now w.tables w).0 ≡ ok tt
    → (token : OneTimeToken) × (user : User) × IsReset hash raw password_hash now w
        (reset_password hash raw password password_hash now w.tables w).1
        token
        user
unfolding reset_password
reset_password-IsReset hash raw password password_hash now w h =
    elim (Result-cases (create_password password)) [
      | inl (p, good) ↦
          let same = ap (when_fit w rest) good in
          subst Reset (sym same)
            (with_token-IsReset hash raw password_hash now w (sym (ap (λ z. z.0) same) ∙ h))
      | inr (e, bad) ↦
          let dead : err unfit_password ≡ ok tt =
            sym (ap (λ z. z.0) (ap (when_fit w rest) bad)) ∙ h in
          ground arith
    ]
  where
    rest : Result (Unit {0}) ResetPasswordError × AccountWorld
    rest =
        with_token password_hash now w.tables w (usable now (find_token w.tables.resets (hash raw)))

    Reset : Result (Unit {0}) ResetPasswordError × AccountWorld → Type 0
    Reset z =
        (token : OneTimeToken) × (user : User) × IsReset hash raw password_hash now w z.1 token user
