-- ===== src/Sessions.antt =====
-- Sessions, token families and refresh tokens, and what their repositories do to the tables
-- (apps/api/src/authn/domain: session.ts, token-family.ts, refresh-token.ts;
-- apps/api/src/authn/infrastructure/persistence: drizzle-sessions.repository.ts,
-- drizzle-token-families.repository.ts, drizzle-refresh-tokens.repository.ts), the revocation list,
-- the grace cache and the ending of sessions (application/session-terminator.ts, revoke-session.ts).
-- A table is the list of its rows in the order of insertion; a time is a number of milliseconds.
pub mod Tables
use accesscore.Prelude.{
  ℕ, zero, suc, Bool, true, false, not, ◌&&◌, ◌||◌, List, [], ◌∷◌, ◌++◌, Option, none, some,
  if◌then◌else◌, map, any, find, select, Text, text, ◌==◌,
}
use accesscore.Refs.{Result, ok, err}

pub data SessionStatus : Type 0 where
  session_active session_revoked : SessionStatus

pub data FamilyStatus : Type 0 where
  family_active family_revoked : FamilyStatus

pub data TokenStatus : Type 0 where
  token_active token_rotated token_revoked : TokenStatus

pub record Session : Type 0 where
  pub id : Text
  pub user_id : Text
  pub org_id : Option Text
  pub aal : ℕ
  pub auth_time : ℕ
  pub status : SessionStatus
  pub device_label : Option Text
  pub user_agent : Option Text
  pub ip : Option Text
  pub created_at : ℕ
  pub last_seen_at : ℕ
  pub expires_at : ℕ
  pub revoked_at : Option ℕ

pub record TokenFamily : Type 0 where
  pub id : Text
  pub user_id : Text
  pub session_id : Text
  pub status : FamilyStatus
  pub created_at : ℕ
  pub revoked_at : Option ℕ
  pub revoked_reason : Option Text

pub record RefreshToken : Type 0 where
  pub id : Text
  pub family_id : Text
  pub token_hash : Text
  pub generation : ℕ
  pub status : TokenStatus
  pub created_at : ℕ
  pub expires_at : ℕ
  pub consumed_at : Option ℕ

pub record ReuseEvent : Type 0 where
  pub family_id : Text
  pub user_id : Text
  pub session_id : Text
  pub generation : ℕ
  pub occurred_at : ℕ

pub record GracePair : Type 0 where
  pub access_token : Text
  pub refresh_token : Text
  pub expires_in : ℕ
  pub successor_generation : ℕ

-- The tables, the outbox, the grace cache and the keys of the revocation list.
pub record Store : Type 0 where
  pub sessions : List Session
  pub families : List TokenFamily
  pub tokens : List RefreshToken
  pub outbox : List ReuseEvent
  pub grace : List (Text × GracePair)
  pub revoked : List Text

abbrev pub is_active_session : Session → Bool
is_active_session s = elim s.status [ session_active ↦ true | session_revoked ↦ false ]

abbrev pub is_active_family : TokenFamily → Bool
is_active_family f = elim f.status [ family_active ↦ true | family_revoked ↦ false ]

abbrev pub is_active_token : RefreshToken → Bool
is_active_token t = elim t.status [
  | token_active ↦ true
  | token_rotated ↦ false
  | token_revoked ↦ false
]

-- `update … set … where …`
abbrev pub update {ℓ} : {A : Type ℓ} → (A → Bool) → (A → A) → List A → List A
update where_ set_ rows = map (λ r. if where_ r then set_ r else r) rows

-- Sessions
unfoldable pub find_session : Store → Text → Option Session
find_session st id = find (λ s. s.id == id) st.sessions

unfoldable pub list_active_by_user : Store → Text → List Session
list_active_by_user st user_id =
    select (λ s. s.user_id == user_id && is_active_session s) st.sessions

unfoldable pub touch : Text → ℕ → Store → Store
touch id now st = record st {
  sessions = update (λ s. s.id == id) (λ s. record s { last_seen_at = now }) st.sessions;
}

-- The table, and whether a row was changed.
unfoldable pub elevate : Text → ℕ → ℕ → Store → Bool × Store
elevate id aal auth_time st = (
  any (λ s. s.id == id && is_active_session s) st.sessions,
  record st {
    sessions =
        update (λ s. s.id == id && is_active_session s)
          (λ s. record s { aal = aal; auth_time = auth_time }) st.sessions;
  },
)

abbrev pub end_session : ℕ → Session → Session
end_session now s = record s { status = session_revoked; revoked_at = some now }

unfoldable pub revoke_session : Text → ℕ → Store → Store
revoke_session id now st = record st {
  sessions = update (λ s. s.id == id) (end_session now) st.sessions;
}

unfoldable pub revoke_all_sessions : Text → ℕ → Store → Store × List Text
revoke_all_sessions user_id now st = (
  record st {
    sessions =
        update (λ s. s.user_id == user_id && is_active_session s) (end_session now) st.sessions;
  },
  map (λ s. s.id) (select (λ s. s.user_id == user_id && is_active_session s) st.sessions),
)

-- Token families
unfoldable pub find_family : Store → Text → Option TokenFamily
find_family st id = find (λ f. f.id == id) st.families

abbrev pub end_family : Text → ℕ → TokenFamily → TokenFamily
end_family reason now f = record f {
  status = family_revoked;
  revoked_at = some now;
  revoked_reason = some reason;
}

unfoldable pub revoke_by_session : Text → Text → ℕ → Store → Store
revoke_by_session session_id reason now st = record st {
  families =
      update (λ f. f.session_id == session_id && is_active_family f) (end_family reason now)
        st.families;
}

unfoldable pub revoke_all_families : Text → Text → ℕ → Store → Store
revoke_all_families user_id reason now st = record st {
  families =
      update (λ f. f.user_id == user_id && is_active_family f) (end_family reason now) st.families;
}

unfoldable pub revoke_for_reuse : ReuseEvent → Store → Store
revoke_for_reuse event st = record st {
  families =
      update (λ f. f.id == event.family_id) (end_family (text "reuse_detected") event.occurred_at)
        st.families;
  tokens =
      update (λ t. t.family_id == event.family_id) (λ t. record t { status = token_revoked })
        st.tokens;
  outbox = st.outbox ++ event ∷ [];
}

-- Refresh tokens
unfoldable pub find_by_hash : Store → Text → Option RefreshToken
find_by_hash st hash = find (λ t. t.token_hash == hash) st.tokens

unfoldable pub find_active_by_family : Store → Text → Option RefreshToken
find_active_by_family st family_id =
    find (λ t. t.family_id == family_id && is_active_token t) st.tokens

-- The presented token is rotated if it is still active, and its successor inserted; otherwise
-- nothing happens and the answer is `false`.
unfoldable pub rotate : Text → RefreshToken → ℕ → Store → Bool × Store
rotate presented successor now st =
    if any (λ t. t.id == presented && is_active_token t) st.tokens
    then (
      true,
      record st {
        tokens =
            update (λ t. t.id == presented && is_active_token t)
              (λ t. record t { status = token_rotated; consumed_at = some now }) st.tokens
            ++ successor ∷ [];
      },
    )
    else (false, st)

-- The revocation list, by the key of a session.
unfoldable pub revoke_key : Text → Store → Store
revoke_key session_id st = record st { revoked = (text "sid:" ++ session_id) ∷ st.revoked }

unfoldable pub revoke_keys : List Text → Store → Store
revoke_keys [] st = st
revoke_keys (sid ∷ sids) st = revoke_keys sids (revoke_key sid st)

-- session-terminator.ts
unfoldable pub terminate_session : Text → ℕ → Store → Store
terminate_session session_id now st =
    revoke_key session_id
      (revoke_session session_id now (revoke_by_session session_id (text "logout") now st))

unfoldable pub terminate_session_by_id : Text → ℕ → Store → Store
terminate_session_by_id session_id now st =
    revoke_key session_id
      (revoke_session session_id now (revoke_by_session session_id (text "session_revoked") now st))

unfoldable pub terminate_all_for_user : Text → ℕ → Store → Store
terminate_all_for_user user_id now st =
    let (ended, sids) =
      revoke_all_sessions user_id now (revoke_all_families user_id (text "logout_all") now st) in
    revoke_keys sids ended

-- revoke-session.ts; `is_uuid` is whether the id matches `UUID`.
unfoldable pub revoke_own_session : Bool → Text → Text → ℕ → Store → Result (Unit {0}) Text × Store
revoke_own_session is_uuid caller session_id now st =
    if not is_uuid then (err (text "not_found"), st) else elim (find_session st session_id) [
      | none ↦ (err (text "not_found"), st)
      | some session ↦
          if not (session.user_id == caller)
          then (err (text "not_found"), st)
          else (ok tt, terminate_session_by_id session_id now st)
    ]
