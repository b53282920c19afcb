-- ===== src/Refresh/Accepted.antt =====
-- When a refresh token is exchanged, and when none of a family or a session can be any more
-- (apps/api/src/authn/application: refresh.ts, session-terminator.ts).
use accesscore.Prelude.{
  ℕ, ◌<◌, ◌≡◌, refl, subst, ◌∙◌, inl, inr, true, false, none, some, arith, All, Text, text, ◌==◌,
  eq_iff, eq_of_true, Option-cases,
}
use accesscore.Refs.{err}
use accesscore.Sessions.{
  TokenFamily, RefreshToken, Store, token_revoked, is_active_session, is_active_family,
  is_active_token, find_session, find_family, find_by_hash, revoke_for_reuse, revoke_session,
  revoke_key, terminate_session, end_family,
}
use accesscore.Sessions.Tables.{find-All, update-All, IsEnded, terminate_session-IsEnded}
use accesscore.Refresh.{invalid, Generated, Presented, present, execute, report_reuse}

-- A presented token was found by its hash and has not expired; its family was found and is active;
-- the family's session was found, is active and has not expired.
pub record IsUsable (hash : Text) (now : ℕ) (st : Store) (p : Presented) : Type 0 where
  pub found : find_by_hash st hash ≡ some p.token
  pub fresh : now < p.token.expires_at
  pub family_found : find_family st p.token.family_id ≡ some p.family
  pub family_active : is_active_family p.family ≡ true
  pub session_found : find_session st p.family.session_id ≡ some p.session
  pub session_active : is_active_session p.session ≡ true
  pub session_fresh : now < p.session.expires_at

pub present-IsUsable :
    (hash : Text) (now : ℕ) (st : Store) (p : Presented)
    → present hash now st ≡ some p
    → IsUsable hash now st p
unfolding present
present-IsUsable hash now st p h = elim (Option-cases (find_by_hash st hash)) [
  | inl no_token ↦ absurd (ground arith)
  | inr (token, found) ↦ elim (Option-cases (find_family st token.family_id)) [
    | inl no_family ↦ absurd (ground arith)
    | inr (family, family_found) ↦ elim (Option-cases (find_session st family.session_id)) [
      | inl no_session ↦ absurd (ground arith)
      | inr (session, session_found) ↦
          let made : record { token = token; family = family; session = session } ≡ p =
            ground arith in
          subst (IsUsable hash now st) made (record {
            found = found;
            fresh = ground arith;
            family_found = family_found;
            family_active = ground arith;
            session_found = session_found;
            session_active = ground arith;
            session_fresh = ground arith;
          })
    ]
  ]
]

present-none :
    (hash : Text) (now : ℕ) (st : Store) (token : RefreshToken)
    → find_by_hash st hash ≡ some token
    → ((f : TokenFamily) → find_family st token.family_id ≡ some f → is_active_family f ≡ false)
    → present hash now st ≡ none
unfolding present
present-none hash now st token found dead = elim (Option-cases (find_family st token.family_id)) [
  | inl gone ↦ ground arith
  | inr (f, there) ↦ ground (arith, dead f there)
]

pub execute-none :
    (g : Generated) (hash : Text) (now : ℕ) (st : Store)
    → present hash now st ≡ none
    → execute g hash now st ≡ (err invalid, st)
unfolding execute
execute-none g hash now st h = cc h

-- The family of the token, and every row of it, is dead.
abbrev IsDead : Text → TokenFamily → Type 0
IsDead family_id f = f.id ≡ family_id → is_active_family f ≡ false

report_reuse-IsDead :
    (p : Presented) (now : ℕ) (st : Store)
    → All (IsDead p.family.id) (report_reuse p now st).families
unfolding report_reuse revoke_key revoke_session revoke_for_reuse
report_reuse-IsDead p now st =
    update-All (IsDead p.family.id) (λ f. f.id == p.family.id)
      (end_family (text "reuse_detected") now) st.families (λ f hit e. refl)
      (λ f miss e. ground (arith, eq_iff f.id p.family.id))

abbrev IsSpent : Text → RefreshToken → Type 0
IsSpent family_id t = t.family_id ≡ family_id → is_active_token t ≡ false

report_reuse-IsSpent :
    (p : Presented) (now : ℕ) (st : Store)
    → All (IsSpent p.family.id) (report_reuse p now st).tokens
unfolding report_reuse revoke_key revoke_session revoke_for_reuse
report_reuse-IsSpent p now st =
    update-All (IsSpent p.family.id) (λ t. t.family_id == p.family.id)
      (λ t. record t { status = token_revoked }) st.tokens (λ t hit e. refl)
      (λ t miss e. ground (arith, eq_iff t.family_id p.family.id))

-- After a reported reuse no token of the family is exchanged again: every run that presents one
-- refuses it as invalid and changes nothing, at whatever time; and no token of the family is active.
pub execute-report_reuse :
    (g : Generated) (p : Presented) (at now : ℕ) (hash : Text) (st : Store) (token : RefreshToken)
    → find_by_hash (report_reuse p at st) hash ≡ some token
    → token.family_id ≡ p.family.id
    → (execute g hash now (report_reuse p at st) ≡ (err invalid, report_reuse p at st))
      × (is_active_token token ≡ false)
unfolding find_family find_by_hash
execute-report_reuse g p at now hash st token found same = (
  execute-none g hash now (report_reuse p at st)
      (present-none hash now (report_reuse p at st) token found dead),
  (find-All (IsSpent p.family.id) (λ t. t.token_hash == hash) (report_reuse p at st).tokens token
        (report_reuse-IsSpent p at st) found).0
      same,
)
  where
    dead :
        (f : TokenFamily)
        → find_family (report_reuse p at st) token.family_id ≡ some f
        → is_active_family f ≡ false
    dead f there =
        let (gone, hit) =
          find-All (IsDead p.family.id) (λ f. f.id == token.family_id)
            (report_reuse p at st).families f (report_reuse-IsDead p at st) there in
        gone (eq_of_true hit ∙ same)

-- After a logout no refresh token of the session is exchanged: a run that presents one refuses it
-- as invalid and changes nothing, at whatever time.
pub execute-terminate_session :
    (g : Generated) (session_id hash : Text) (at now : ℕ) (st : Store) (token : RefreshToken)
    (family : TokenFamily)
    → find_by_hash (terminate_session session_id at st) hash ≡ some token
    → find_family (terminate_session session_id at st) token.family_id ≡ some family
    → family.session_id ≡ session_id
    → execute g hash now (terminate_session session_id at st)
      ≡ (err invalid, terminate_session session_id at st)
unfolding find_family
execute-terminate_session g session_id hash at now st token family found there same =
    execute-none g hash now (terminate_session session_id at st)
      (present-none hash now (terminate_session session_id at st) token found dead)
  where
    dead :
        (f : TokenFamily)
        → find_family (terminate_session session_id at st) token.family_id ≡ some f
        → is_active_family f ≡ false
    dead f h =
        let (gone, _) =
          find-All (IsEnded session_id) (λ f. f.id == token.family_id)
            (terminate_session session_id at st).families f
            (terminate_session-IsEnded session_id at st) h in
        gone (ground (arith, there, h, same))
