-- ===== src/Refresh/Outcomes.antt =====
-- What a run of the exchange answers, and when (apps/api/src/authn/application/refresh.ts).
use accesscore.Prelude.{
  ℕ, ◌≡◌, refl, sym, ap, ◌∙◌, ◌⊎◌, inl, inr, Bool, true, false, ◌&&◌, List, [], ◌∷◌, Option, none,
  some, arith, eqb, eqb_iff, any, find, leb, Text, ◌==◌, eq_refl, get, Bool-cases, Option-cases,
  some_inj,
}
use accesscore.Refs.{ok, err}
use accesscore.Sessions.{
  RefreshToken, GracePair, Store, is_active_token, find_by_hash, find_active_by_family, rotate,
}
use accesscore.Refresh.{
  RefreshResult, invalid, reuse, Generated, Presented, present, matching, replay_from_grace,
  or_reuse, try_rotate, exchange, execute, report_reuse,
}
use accesscore.Refresh.Accepted.{IsUsable, present-IsUsable, execute-none}

IsUsable-present :
    (hash : Text) (now : ℕ) (st : Store) (p : Presented)
    → IsUsable hash now st p
    → present hash now st ≡ some p
unfolding present
IsUsable-present hash now st p u =
    let alive : leb p.token.expires_at now ≡ false = ground (arith, u.fresh) in
    let going : leb p.session.expires_at now ≡ false = ground (arith, u.session_fresh) in
    ground (
      arith, u.found, u.family_found, u.family_active, u.session_found, u.session_active, alive,
      going,
    )

find-any :
    (p : RefreshToken → Bool) (xs : List RefreshToken) (x : RefreshToken)
    → find p xs ≡ some x
    → is_active_token x ≡ true
    → any (λ t. t.id == x.id && is_active_token t) xs ≡ true
find-any p [] x e a = cc
find-any p (y ∷ ys) x e a = elim (Bool-cases (p y)) [
  | inl hit ↦ let same : y ≡ x = some_inj (rw hit at e) in rw same (rw (eq_refl x.id) (rw a refl))
  | inr miss ↦ let later = find-any p ys x (rw miss at e) a in ground arith
]

-- The grace cache holds a pair for the presented hash, and the successor that the pair came with is
-- the active token of the family.
abbrev pub IsReplayable : Text → Store → RefreshToken → GracePair → Type 0
IsReplayable hash st token pair =
    (get hash st.grace ≡ some pair)
    × (active : RefreshToken) × (find_active_by_family st token.family_id ≡ some active)
    × (active.generation ≡ pair.successor_generation)

module _ (hash : Text) (st : Store) (token : RefreshToken) where
  abbrev replayed : Option RefreshResult
  replayed = replay_from_grace (λ _. st) token hash 0 1

  abbrev result_from : GracePair → RefreshResult
  result_from pair = record {
    access_token = pair.access_token;
    refresh_token = pair.refresh_token;
    expires_in = pair.expires_in;
  }

  abbrev looked : Option GracePair → Option RefreshResult
  looked none = none
  looked (some pair) = matching pair (find_active_by_family st token.family_id)

  replayed-looked : (o : Option GracePair) → get hash st.grace ≡ o → replayed ≡ looked o
  unfolding replay_from_grace
  replayed-looked o e = ap looked e

  replayed_cases :
      ((pair : GracePair) × IsReplayable hash st token pair × (replayed ≡ some (result_from pair)))
      ⊎ (((pair : GracePair) → ¬ IsReplayable hash st token pair) × (replayed ≡ none))
  replayed_cases = elim (Option-cases (get hash st.grace)) [
    | inl empty ↦ inr ((λ pair h. absurd (cc (h.0, empty))), replayed-looked none empty)
    | inr (pair, there) ↦ elim (Option-cases (find_active_by_family st token.family_id)) [
      | inl none_active ↦ inr (
        (λ other h. absurd (cc (h.2, none_active))),
        replayed-looked (some pair) there ∙ ap (matching pair) none_active,
      )
      | inr (active, found) ↦ elim (Bool-cases (eqb active.generation pair.successor_generation)) [
        | inl same ↦ inl (
          pair,
          (there, active, found, (eqb_iff active.generation pair.successor_generation).0 same),
          replayed-looked (some pair) there ∙ ap (matching pair) found ∙ rw same refl,
        )
        | inr other ↦ inr (
          (λ pair' h.
              let one : pair' ≡ pair = some_inj (sym h.0 ∙ there) in
              let two : h.1 ≡ active = some_inj (sym h.2 ∙ found) in
              let equal : active.generation ≡ pair.successor_generation =
                ap (λ t. t.generation) (sym two) ∙ h.3 ∙ ap (λ q. q.successor_generation) one in
              let agree = (eqb_iff active.generation pair.successor_generation).1 equal in
              absurd (cc (agree, other))),
          replayed-looked (some pair) there ∙ ap (matching pair) found ∙ rw other refl,
        )
      ]
    ]
  ]

module _ (g : Generated) (hash : Text) (now : ℕ) (st : Store) where
  -- A usable token that is active is rotated.
  abbrev pub IsRotated : Presented → Type 0
  IsRotated p =
      (is_active_token p.token ≡ true)
      × ((execute g hash now st).0
          ≡ ok (record {
            access_token = g.access_token;
            refresh_token = g.raw;
            expires_in = g.expires_in;
          }))

  -- One that is spent is answered by the pair of its rotation, and nothing changes.
  abbrev pub IsReplayed : Presented → Type 0
  IsReplayed p =
      (is_active_token p.token ≡ false)
      × (pair : GracePair) × IsReplayable hash st p.token pair
      × (execute g hash now st ≡ (
        ok (record {
          access_token = pair.access_token;
          refresh_token = pair.refresh_token;
          expires_in = pair.expires_in;
        }),
        st,
      ))

  abbrev pub IsReused : Presented → Type 0
  IsReused p =
      (is_active_token p.token ≡ false)
      × ((pair : GracePair) → ¬ IsReplayable hash st p.token pair)
      × (execute g hash now st ≡ (err reuse, report_reuse p now st))

  started :
      (p : Presented)
      → present hash now st ≡ some p
      → execute g hash now st ≡ exchange g p hash now (λ _. st) st st
  unfolding execute
  started p h = cc h

  rotated :
      (p : Presented)
      → IsUsable hash now st p
      → is_active_token p.token ≡ true
      → (exchange g p hash now (λ _. st) st st).0
        ≡ ok (record {
          access_token = g.access_token;
          refresh_token = g.raw;
          expires_in = g.expires_in;
        })
  unfolding exchange try_rotate rotate find_by_hash
  rotated p u active = rw active (rw (find-any _ st.tokens p.token u.found active) refl)

  spent :
      (p : Presented)
      → is_active_token p.token ≡ false
      → exchange g p hash now (λ _. st) st st ≡ or_reuse p now (replayed hash st p.token, st)
  unfolding exchange
  spent p h = rw h refl

  -- Every run is one of four. It refuses as invalid and changes nothing, exactly when no usable
  -- token is presented: one that is found, with an active family and an active session, and neither
  -- the token nor the session expired. With one that is active it answers what was generated. With
  -- one that is not, it answers the pair of the grace cache and changes nothing, where the pair's
  -- successor is the active token of the family; and it reports a reuse where there is no such pair.
  pub execute-IsUsable :
      ((execute g hash now st ≡ (err invalid, st)) × ((p : Presented) → ¬ IsUsable hash now st p))
      ⊎ ((p : Presented) × IsUsable hash now st p × (IsRotated p ⊎ (IsReplayed p ⊎ IsReused p)))
  execute-IsUsable = elim (Option-cases (present hash now st)) [
    | inl gone ↦ inl (
      execute-none g hash now st gone,
      λ p u. absurd (cc (IsUsable-present hash now st p u, gone)),
    )
    | inr (p, there) ↦
        let u = present-IsUsable hash now st p there in
        inr (
          p,
          u,
          elim (Bool-cases (is_active_token p.token)) [
            | inl active ↦ inl (active, ap (λ r. r.0) (started p there) ∙ rotated p u active)
            | inr dead ↦ inr (elim (replayed_cases hash st p.token) [
              | inl (pair, fits, answered) ↦ inl (
                dead,
                pair,
                fits,
                started p there ∙ spent p dead ∙ ap (λ o. or_reuse p now (o, st)) answered,
              )
              | inr (never, answered) ↦ inr (
                dead,
                never,
                started p there ∙ spent p dead ∙ ap (λ o. or_reuse p now (o, st)) answered,
              )
            ])
          ],
        )
  ]
