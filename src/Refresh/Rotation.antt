-- ===== src/Refresh/Rotation.antt =====
-- Rotations and the active tokens of a family (apps/api/src/authn/application/refresh.ts,
-- infrastructure/persistence/drizzle-refresh-tokens.repository.ts).
use accesscore.Prelude.{
  ℕ, suc, ◌+◌, ◌≤◌, ◌<◌, ◌≡◌, refl, subst, sym, ◌∙◌, ◌≢◌, inl, inr, Bool, true, false, ◌&&◌, ◌||◌,
  List, [], ◌∷◌, ◌++◌, Option, none, some, arith, if◌then◌else◌, any, All, Text, ◌==◌, eq_iff,
  eq_of_true, Bool-cases,
}
use accesscore.Sessions.{
  RefreshToken, token_rotated, token_revoked, Store, is_active_token, update, rotate, touch,
  revoke_for_reuse, revoke_session, revoke_key,
}
use accesscore.Refresh.{
  RefreshResult, Generated, Presented, successor_of, exchange, try_rotate, replay_from_grace,
  after_rotate, or_reuse, report_reuse,
}

-- The active tokens of a family.
unfoldable pub active_count : Text → List RefreshToken → ℕ
active_count family_id [] = 0
active_count family_id (t ∷ ts) =
    let rest = active_count family_id ts in
    if t.family_id == family_id && is_active_token t then suc rest else rest

-- No family has two active tokens.
abbrev pub HasOneActive : Store → Type 0
HasOneActive st = (family_id : Text) → active_count family_id st.tokens ≤ 1

-- The rows with the token's id belong to its family.
abbrev pub IsRecorded : RefreshToken → Store → Type 0
IsRecorded token st = All (λ t. t.id ≡ token.id → t.family_id ≡ token.family_id) st.tokens

active_count-snoc :
    (f : Text) (ts : List RefreshToken) (t : RefreshToken)
    → active_count f (ts ++ t ∷ [])
      ≡ active_count f ts + (if t.family_id == f && is_active_token t then 1 else 0)
unfolding active_count
active_count-snoc f [] t = ground arith
active_count-snoc f (u ∷ ts) t = ground (arith, active_count-snoc f ts t)

module _ (presented : Text) (now : ℕ) where
  abbrev is_presented : RefreshToken → Bool
  is_presented t = t.id == presented && is_active_token t

  abbrev spend : RefreshToken → RefreshToken
  spend t = record t { status = token_rotated; consumed_at = some now }

  active_count-spend_le :
      (f : Text) (ts : List RefreshToken)
      → active_count f (update is_presented spend ts) ≤ active_count f ts
  unfolding active_count
  active_count-spend_le f [] = omega arith
  active_count-spend_le f (t ∷ ts) = elim (Bool-cases (is_presented t)) [
    | inl hit ↦ rw hit (ground (arith, active_count-spend_le f ts))
    | inr miss ↦ rw miss (ground (arith, active_count-spend_le f ts))
  ]

  active_count-spend_lt :
      (f : Text) (ts : List RefreshToken)
      → All (λ t. t.id ≡ presented → t.family_id ≡ f) ts
      → any is_presented ts ≡ true
      → active_count f (update is_presented spend ts) < active_count f ts
  unfolding active_count
  active_count-spend_lt f [] h e = cc
  active_count-spend_lt f (t ∷ ts) (p, h) e = elim (Bool-cases (is_presented t)) [
    | inl hit ↦
        rw hit
          (ground (arith, active_count-spend_le f ts, eq_iff t.id presented, eq_iff t.family_id f))
    | inr miss ↦ rw miss (ground (arith, active_count-spend_lt f ts h))
  ]

  spent_none : (ts : List RefreshToken) → any is_presented (update is_presented spend ts) ≡ false
  spent_none [] = refl
  spent_none (t ∷ ts) = elim (Bool-cases (is_presented t)) [
    | inl hit ↦ rw hit (ground (arith, spent_none ts))
    | inr miss ↦ rw miss (ground (arith, spent_none ts))
  ]

any-append :
    (p : RefreshToken → Bool) (ts : List RefreshToken) (t : RefreshToken)
    → any p (ts ++ t ∷ []) ≡ (any p ts || p t)
any-append p [] t = ground arith
any-append p (u ∷ ts) t = ground (arith, any-append p ts t)

-- Of two presentations of one token the first that rotates is the only one: where a rotation was
-- won, every later one of the same token on the store that it left is lost and changes nothing. The
-- successor must have another id.
pub rotate_once :
    (presented : Text) (s s' : RefreshToken) (now now' : ℕ) (st : Store)
    → s.id ≢ presented
    → (rotate presented s now st).0 ≡ true
    → rotate presented s' now' (rotate presented s now st).1
      ≡ (false, (rotate presented s now st).1)
unfolding rotate
rotate_once presented s s' now now' st other won =
    elim (Bool-cases (any (is_presented presented now) st.tokens)) [
      | inl hit ↦
          let spent : any (is_presented presented now)
                (update (is_presented presented now) (spend presented now) st.tokens ++ s ∷ [])
              ≡ false =
            any-append (is_presented presented now)
              (update (is_presented presented now) (spend presented now) st.tokens) s
            ∙ ground (arith, spent_none presented now st.tokens, eq_iff s.id presented) in
          rw hit (rw spent refl)
      | inr miss ↦ absurd (ground arith)
    ]

rotate-HasOneActive :
    (presented : Text) (s : RefreshToken) (now : ℕ) (st : Store)
    → All (λ t. t.id ≡ presented → t.family_id ≡ s.family_id) st.tokens
    → HasOneActive st
    → HasOneActive (rotate presented s now st).1
unfolding rotate
rotate-HasOneActive presented s now st recorded one f =
    elim (Bool-cases (any (is_presented presented now) st.tokens)) [
      | inl hit ↦ rw hit (elim (Bool-cases (s.family_id == f)) [
        | inl own ↦
            subst (λ n. n ≤ 1)
              (sym (
                active_count-snoc f
                  (update (is_presented presented now) (spend presented now) st.tokens) s))
              (ground (
                arith,
                one f,
                active_count-spend_lt presented now s.family_id st.tokens recorded hit,
                eq_of_true own,
              ))
        | inr other ↦ ground (
          arith,
          one f,
          active_count-snoc f (update (is_presented presented now) (spend presented now) st.tokens)
              s,
          active_count-spend_le presented now f st.tokens,
        )
      ])
      | inr miss ↦ rw miss (one f)
    ]

active_count-revoke_le :
    (f family_id : Text) (ts : List RefreshToken)
    → active_count f
        (update (λ t. t.family_id == family_id) (λ t. record t { status = token_revoked }) ts)
      ≤ active_count f ts
unfolding active_count
active_count-revoke_le f family_id [] = omega arith
active_count-revoke_le f family_id (t ∷ ts) = elim (Bool-cases (t.family_id == family_id)) [
  | inl hit ↦ rw hit (ground (arith, active_count-revoke_le f family_id ts))
  | inr miss ↦ rw miss (ground (arith, active_count-revoke_le f family_id ts))
]

report_reuse-HasOneActive :
    (p : Presented) (now : ℕ) (st : Store) → HasOneActive st → HasOneActive (report_reuse p now st)
unfolding report_reuse revoke_key revoke_session revoke_for_reuse
report_reuse-HasOneActive p now st one f =
    omega (arith, one f, active_count-revoke_le f p.family.id st.tokens)

or_reuse-HasOneActive :
    (p : Presented) (now : ℕ) (o : Option RefreshResult × Store)
    → HasOneActive o.1
    → HasOneActive (or_reuse p now o).1
or_reuse-HasOneActive p now (some r, st) one = one
or_reuse-HasOneActive p now (none, st) one = report_reuse-HasOneActive p now st one

after_rotate-HasOneActive :
    (g : Generated) (p : Presented) (hash : Text) (now : ℕ) (poll : ℕ → Store) (later : Store)
    (out : Bool × Store)
    → HasOneActive later
    → HasOneActive out.1
    → HasOneActive (after_rotate g p hash now poll later out).1
unfolding touch
after_rotate-HasOneActive g p hash now poll later (false, st) one one' = one
after_rotate-HasOneActive g p hash now poll later (true, st) one one' = one'

-- No exchange leaves a family with two active tokens, however it ends and whatever other requests
-- did between its reads and its writes: where no family has two before, in the store that it writes
-- to and in the last one, and the rows with the presented token's id are of its family.
pub exchange-HasOneActive :
    (g : Generated) (p : Presented) (hash : Text) (now : ℕ) (poll : ℕ → Store) (later st : Store)
    → IsRecorded p.token st
    → HasOneActive st
    → HasOneActive later
    → HasOneActive (exchange g p hash now poll later st).1
unfolding exchange try_rotate successor_of
exchange-HasOneActive g p hash now poll later st recorded one one' =
    or_reuse-HasOneActive p now
      (if is_active_token p.token
        then try_rotate g p hash now poll later st
        else (replay_from_grace poll p.token hash 0 1, later))
      (elim (Bool-cases (is_active_token p.token)) [
        | inl active ↦ rw active (
            after_rotate-HasOneActive g p hash now poll later _ one'
              (rotate-HasOneActive p.token.id (successor_of g p now) now st recorded one))
        | inr spent ↦ rw spent one'
      ])
