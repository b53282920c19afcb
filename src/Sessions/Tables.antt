-- ===== src/Sessions/Tables.antt =====
-- Rows found in and updates of the tables (apps/api/src/authn/infrastructure/persistence), and what
-- the ending of a session leaves behind (session-terminator.ts).
use accesscore.Prelude.{
  ℕ, ◌≡◌, refl, subst, inl, inr, Bool, true, false, ◌&&◌, List, [], ◌∷◌, some, arith, find, All,
  Text, text, ◌==◌, eq_iff, Bool-cases,
}
use accesscore.Sessions.{
  TokenFamily, Store, is_active_family, update, revoke_session, revoke_by_session, revoke_key,
  terminate_session, end_family,
}

module _ {A : Type 0} where
  -- The row that is found passes the test and is one of the rows.
  pub find-All :
      (Q : A → Type 0) (p : A → Bool) (xs : List A) (x : A)
      → All Q xs
      → find p xs ≡ some x
      → Q x × (p x ≡ true)
  find-All Q p [] x h e = cc
  find-All Q p (y ∷ ys) x (q, h) e = elim (Bool-cases (p y)) [
    | inl hit ↦
        let same : y ≡ x = ground arith in (subst Q same q, subst (λ z. p z ≡ true) same hit)
    | inr miss ↦ find-All Q p ys x h (ground arith)
  ]

  pub All-each : (Q : A → Type 0) (xs : List A) → ((x : A) → Q x) → All Q xs
  All-each Q [] f = tt
  All-each Q (x ∷ xs) f = (f x, All-each Q xs f)

  -- What the updated rows and the others satisfy.
  pub update-All :
      (Q : A → Type 0) (p : A → Bool) (f : A → A) (xs : List A)
      → ((x : A) → p x ≡ true → Q (f x))
      → ((x : A) → p x ≡ false → Q x)
      → All Q (update p f xs)
  update-All Q p f [] h k = tt
  update-All Q p f (x ∷ xs) h k = elim (Bool-cases (p x)) [
    | inl hit ↦ (rw hit (h x hit), update-All Q p f xs h k)
    | inr miss ↦ (rw miss (k x miss), update-All Q p f xs h k)
  ]

-- No family of the session is active.
abbrev pub IsEnded : Text → TokenFamily → Type 0
IsEnded session_id f = f.session_id ≡ session_id → is_active_family f ≡ false

pub terminate_session-IsEnded :
    (session_id : Text) (now : ℕ) (st : Store)
    → All (IsEnded session_id) (terminate_session session_id now st).families
unfolding terminate_session revoke_key revoke_session revoke_by_session
terminate_session-IsEnded session_id now st =
    update-All (IsEnded session_id) (λ f. f.session_id == session_id && is_active_family f)
      (end_family (text "logout") now) st.families (λ f hit e. refl)
      (λ f miss e. ground (arith, eq_iff f.session_id session_id))
