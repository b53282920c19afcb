-- ===== src/Identity/Rows.antt =====
-- Rows of the tables behind a password reset (identity/infrastructure/persistence,
-- authn/application/session-terminator.ts).
use accesscore.Prelude.{
  ℕ, ◌≡◌, refl, ap, ◌∙◌, inl, inr, true, ◌&&◌, List, [], ◌∷◌, none, some, arith, any, find, select,
  Text, ◌==◌, Bool-cases, some_inj, eq_refl, map, text,
}
use accesscore.Sessions.{
  Session, Store, is_active_session, update, list_active_by_user, terminate_all_for_user,
  revoke_all_sessions, revoke_all_families, revoke_keys, revoke_key, end_session,
}
use accesscore.Identity.{
  User, overwritten, change_password, OneTimeToken, consume, Tables, find_user, find_token,
  save_user, store_consumed,
}
use accesscore.Identity.Accounts.{usable}

revoke_keys-sessions :
    (sids : List Text) (st : Store) → (revoke_keys sids st).sessions ≡ st.sessions
unfolding revoke_keys revoke_key
revoke_keys-sessions [] st = refl
revoke_keys-sessions (sid ∷ sids) st = revoke_keys-sessions sids (revoke_key sid st)

ended_sessions :
    (user_id : Text) (now : ℕ) (rows : List Session)
    → select
        (λ s. s.user_id == user_id && is_active_session s)
        (update (λ s. s.user_id == user_id && is_active_session s) (end_session now) rows)
      ≡ []
ended_sessions user_id now [] = refl
ended_sessions user_id now (s ∷ rows) =
    elim (Bool-cases (s.user_id == user_id && is_active_session s)) [
      | inl hit ↦ ground (arith, ended_sessions user_id now rows)
      | inr miss ↦ rw miss (rw miss (ended_sessions user_id now rows))
    ]

pub list_active-terminate_all :
    (user_id : Text) (now : ℕ) (st : Store)
    → list_active_by_user (terminate_all_for_user user_id now st) user_id ≡ []
unfolding list_active_by_user terminate_all_for_user revoke_all_sessions revoke_all_families
list_active-terminate_all user_id now st =
    ap (select (λ s. s.user_id == user_id && is_active_session s)) (
      revoke_keys-sessions
        (map (λ s. s.id) (select (λ s. s.user_id == user_id && is_active_session s) st.sessions))
        (revoke_all_sessions user_id now
          (revoke_all_families user_id (text "logout_all") now st)).0)
    ∙ ended_sessions user_id now st.sessions

-- The row of a token that was consumed.
pub find-store_consumed :
    (hash : Text) (token : OneTimeToken) (now : ℕ) (rows : List OneTimeToken)
    → find_token rows hash ≡ some token
    → find_token (store_consumed (consume now token) rows) hash ≡ some (consume now token)
unfolding find_token store_consumed
find-store_consumed hash token now [] h = cc
find-store_consumed hash token now (row ∷ rows) h = elim (Bool-cases (row.token_hash == hash)) [
  | inl hit ↦
      let same : row ≡ token = some_inj (rw hit at h) in
      let hit' : (token.token_hash == hash) ≡ true = rw same at hit in
      rw same (rw (eq_refl token.id) (rw hit' refl))
  | inr miss ↦
      let later = find-store_consumed hash token now rows (rw miss at h) in
      elim (Bool-cases (row.id == token.id)) [
        | inl known ↦ rw known (rw miss later)
        | inr unknown ↦ rw unknown (rw miss later)
      ]
]

pub usable-consume :
    (now later : ℕ) (token : OneTimeToken) → usable later (some (consume now token)) ≡ none
unfolding usable
usable-consume now later token = refl

find-overwritten :
    (u v : User) (rows : List User)
    → find (λ x. x.id == v.id) rows ≡ some u
    → (any (λ x. x.id == v.id) rows ≡ true)
      × (find (λ x. x.id == v.id) (update (λ x. x.id == v.id) (overwritten v) rows)
          ≡ some (overwritten v u))
find-overwritten u v [] h = cc
find-overwritten u v (row ∷ rows) h = elim (Bool-cases (row.id == v.id)) [
  | inl hit ↦
      let same : row ≡ u = some_inj (rw hit at h) in (rw hit refl, rw hit (rw hit (rw same refl)))
  | inr miss ↦
      let (known, found) = find-overwritten u v rows (rw miss at h) in
      (rw miss known, rw miss (rw miss found))
]

pub find-save :
    (u : User) (hash : Text) (now : ℕ) (t : Tables)
    → find_user t u.id ≡ some u
    → find_user (save_user (change_password hash now u) t) u.id
      ≡ some (overwritten (change_password hash now u) u)
unfolding find_user save_user change_password
find-save u hash now t h =
    let (known, found) = find-overwritten u (change_password hash now u) t.users h in rw known found
