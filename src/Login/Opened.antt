-- ===== src/Login/Opened.antt =====
-- A login and the exchange of its refresh token (apps/api/src/authn/application: login.ts,
-- refresh.ts).
use accesscore.Prelude.{
  ℕ, ◌<◌, ◌≡◌, refl, subst, ◌≢◌, inl, inr, Bool, true, false, ◌&&◌, ◌||◌, List, [], ◌∷◌, ◌++◌, none,
  some, arith, leb, any, find, ◌==◌, eq_refl, Bool-cases, Option-cases,
}
use accesscore.Refs.{Result, ok}
use accesscore.Sessions.{Store, find_by_hash, find_family, find_session, rotate, is_active_token}
use accesscore.Refresh.{
  RefreshResult, RefreshError, Generated, Presented, present, execute, exchange, try_rotate,
}
use accesscore.Login.{
  LoginCommand, LoginConfig, LoginResult, CredentialCheck, Services, Counters, expiry, new_session,
  new_family, new_token, open_session, log_in, locked_by, account_key, ip_key,
}

find-append :
    {A : Type 0}
    → (p : A → Bool) (xs : List A) (x : A) → find p xs ≡ none
    → p x ≡ true
    → find p (xs ++ x ∷ []) ≡ some x
find-append p [] x h e = ground arith
find-append p (y ∷ ys) x h e = ground (arith, find-append p ys x)

any-append :
    {A : Type 0} → (p : A → Bool) (xs : List A) (x : A) → p x ≡ true → any p (xs ++ x ∷ []) ≡ true
any-append p [] x e = ground arith
any-append p (y ∷ ys) x e = ground (arith, any-append p ys x e)

-- The ids and the hash of a login occur in no row yet.
pub record AreFresh (sv : Services) (st : Store) : Type 0 where
  pub fresh_hash : find_by_hash st sv.hash ≡ none
  pub fresh_family : find_family st sv.family_id ≡ none
  pub fresh_session : find_session st sv.session_id ≡ none

module _ (sv : Services) (config : LoginConfig) (command : LoginCommand) (now : ℕ) (st : Store)
    (fresh : AreFresh sv st) where
  -- What the login's token is presented as.
  abbrev opened : CredentialCheck → Presented
  opened check = record {
    token = new_token sv config now;
    family = new_family sv check now;
    session = new_session sv config command check now;
  }

  present-open_session :
      (check : CredentialCheck) (now' : ℕ)
      → now' < expiry config now
      → present sv.hash now' (open_session sv config command check now st) ≡ some (opened check)
  unfolding present open_session find_by_hash find_family find_session
  present-open_session check now' early =
      let token =
        find-append (λ t. t.token_hash == sv.hash) st.tokens (new_token sv config now)
          fresh.fresh_hash (eq_refl sv.hash) in
      let family =
        find-append (λ f. f.id == sv.family_id) st.families (new_family sv check now)
          fresh.fresh_family (eq_refl sv.family_id) in
      let session =
        find-append (λ s. s.id == sv.session_id) st.sessions
          (new_session sv config command check now) fresh.fresh_session (eq_refl sv.session_id) in
      let alive : leb (expiry config now) now' ≡ false = ground arith in
      ground (arith, token, family, session, alive)

  -- The result of a first exchange.
  abbrev pub exchanged : Generated → Result RefreshResult RefreshError
  exchanged g =
      ok
        (record { access_token = g.access_token; refresh_token = g.raw; expires_in = g.expires_in })

  execute-open_session :
      (check : CredentialCheck) (g : Generated) (now' : ℕ)
      → now' < expiry config now
      → (execute g sv.hash now' (open_session sv config command check now st)).0 ≡ exchanged g
  unfolding execute exchange try_rotate rotate open_session
  execute-open_session check g now' early =
      let won =
        any-append (λ t. t.id == sv.token_id && is_active_token t) st.tokens
          (new_token sv config now) (rw (eq_refl sv.token_id) refl) in
      ground (arith, present-open_session check now' early, won)

  -- A login that succeeds had credentials that were verified and no locked key, and until it
  -- expires its refresh token is exchanged for what is generated then. The ids and the hash of the
  -- login must be new to the tables.
  pub execute-log_in :
      (c c' : Counters) (st' : Store) (r : LoginResult) (g : Generated) (now' : ℕ)
      → log_in sv config command now c st ≡ (ok r, (c', st'))
      → now' < expiry config now
      → (sv.verify command.email command.password ≢ none)
        × (locked_by (account_key sv config command) config.account_lockout c ≡ false)
        × (locked_by (ip_key command) config.ip_lockout c ≡ false)
        × (r.refresh_token ≡ sv.raw)
        × ((execute g sv.hash now' st').0 ≡ exchanged g)
  unfolding log_in
  execute-log_in c c' st' r g now' h early =
      elim (Bool-cases (
        locked_by (account_key sv config command) config.account_lockout c
        || locked_by (ip_key command) config.ip_lockout c)) [
          | inl locked_out ↦ absurd (ground arith)
          | inr free ↦ elim (Option-cases (sv.verify command.email command.password)) [
            | inl unknown ↦ absurd (ground arith)
            | inr (check, verified) ↦
                let same : open_session sv config command check now st ≡ st' = ground arith in
                (
                  (λ e. ground arith),
                  ground arith,
                  ground arith,
                  ground arith,
                  subst (λ s. (execute g sv.hash now' s).0 ≡ exchanged g) same
                      (execute-open_session check g now' early),
                )
          ]
        ]
