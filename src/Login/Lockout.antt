-- ===== src/Login/Lockout.antt =====
-- When failures lock a key (redis-lockout-store.ts).
use accesscore.Prelude.{
  ℕ, suc, ◌+◌, ◌-◌, ◌<◌, ◌≡◌, ◌≢◌, refl, sym, ap, ◌∙◌, true, false, not, List, [], ◌∷◌, Option,
  none, some, arith, leb, eqb, ltb, length, map, if◌then◌else◌, select, Text, ◌==◌, eq_iff, eq_refl,
  get, put, get-put, get-put_self,
}
use accesscore.Login.{
  LockoutPolicy, Counter, Counters, count_of, incremented, aged, elapse, register_failure,
  is_locked, reset,
}

-- Failures of a key, each so many seconds after what was before.
unfoldable pub fail_spaced : List ℕ → Text → LockoutPolicy → Counters → Counters
fail_spaced [] key policy c = c
fail_spaced (seconds ∷ pauses) key policy c =
    fail_spaced pauses key policy (register_failure key policy (elapse seconds c)).1

abbrev pub total : List ℕ → ℕ
total [] = 0
total (seconds ∷ pauses) = seconds + total pauses

abbrev aged_if : ℕ → Option Counter → Option Counter
aged_if seconds none = none
aged_if seconds (some c) = some (aged seconds c)

get-select :
    (key other : Text) (counts : List (Text × Counter))
    → get other (select (λ e. not (e.0 == key)) counts)
      ≡ (if key == other then none else get other counts)
unfolding get
get-select key other [] = ground arith
get-select key other ((k, n) ∷ counts) =
    ground (arith, get-select key other counts, eq_iff k key, eq_iff k other, eq_iff key other)

get-aged :
    (seconds : ℕ) (key : Text) (counts : List (Text × Counter))
    → get key (map (λ e. (e.0, aged seconds e.1)) counts) ≡ aged_if seconds (get key counts)
unfolding get
get-aged seconds key [] = refl
get-aged seconds key ((k, n) ∷ counts) = ground (arith, get-aged seconds key counts)

module _ (key : Text) (policy : LockoutPolicy) where
  -- So many failures are counted, and the counter lives on for so many seconds.
  abbrev Counts : ℕ → ℕ → Counters → Type 0
  Counts n t c = (c.is_up ≡ true) × (get key c.counts ≡ some (record { failures = n; ttl = t }))

  elapse-Counts : (d n t : ℕ) (c : Counters) → Counts n t c → Counts n (t - d) (elapse d c)
  unfolding elapse
  elapse-Counts d n t c (up, there) = (up, get-aged d key c.counts ∙ ap (aged_if d) there)

  incremented-some :
      (n t : ℕ)
      → 0 < t
      → 0 < n
      → incremented policy (some (record { failures = n; ttl = t }))
        ≡ record { failures = suc n; ttl = t }
  incremented-some n t alive failed =
      let going : eqb t 0 ≡ false = ground (arith, alive) in
      let counted : eqb n 0 ≡ false = ground (arith, failed) in rw going (rw counted refl)

  register-up :
      (c : Counters)
      → c.is_up ≡ true
      → (register_failure key policy c).1
        ≡ record c { counts = put key (incremented policy (get key c.counts)) c.counts }
  unfolding register_failure
  register-up c up = rw up refl

  register-Counts :
      (n t : ℕ) (c : Counters)
      → 0 < t
      → 0 < n
      → Counts n t c
      → Counts (suc n) t (register_failure key policy c).1
  register-Counts n t c alive failed (up, there) = (
    ap (λ x. x.is_up) (register-up c up) ∙ up,
    ap (λ x. get key x.counts) (register-up c up)
        ∙ get-put_self key (incremented policy (get key c.counts)) c.counts
        ∙ ap (λ o. some (incremented policy o)) there
        ∙ ap some (incremented-some n t alive failed),
  )

  reset-gone : (c : Counters) → c.is_up ≡ true → get key (reset key c).counts ≡ none
  unfolding reset
  reset-gone c up = rw up (get-select key key c.counts ∙ rw (eq_refl key) refl)

  reset-up : (c : Counters) → c.is_up ≡ true → (reset key c).is_up ≡ true
  unfolding reset
  reset-up c up = rw up refl

  first-Counts :
      (c : Counters)
      → c.is_up ≡ true
      → Counts 1 policy.window_seconds (register_failure key policy (reset key c)).1
  first-Counts c up =
      let c' = reset key c in
      let up' = reset-up c up in
      (
        ap (λ x. x.is_up) (register-up c' up') ∙ up',
        ap (λ x. get key x.counts) (register-up c' up')
            ∙ get-put_self key (incremented policy (get key c'.counts)) c'.counts
            ∙ ap (λ o. some (incremented policy o)) (reset-gone c up),
      )

  recount : (n n' t t' : ℕ) (c : Counters) → n ≡ n' → t ≡ t' → Counts n t c → Counts n' t' c
  recount n n' t t' c p q h = (h.0, h.1 ∙ λ i. some (record { failures = p i; ttl = q i }))

  spaced-Counts :
      (pauses : List ℕ) (n t : ℕ) (c : Counters)
      → total pauses < t
      → 0 < n
      → Counts n t c
      → Counts (n + length pauses) (t - total pauses) (fail_spaced pauses key policy c)
  unfolding fail_spaced
  spaced-Counts [] n t c low failed h = recount n _ t _ c (omega arith) (omega arith) h
  spaced-Counts (d ∷ pauses) n t c low failed h =
      recount (suc n + length pauses) _ (t - d - total pauses) _ _ (omega arith) (omega arith) (
        spaced-Counts pauses (suc n) (t - d) (register_failure key policy (elapse d c)).1
          (omega (arith, low)) (omega arith)
          (register-Counts n (t - d) (elapse d c) (omega (arith, low)) failed
            (elapse-Counts d n t c h)))

  locked-Counts :
      (n t : ℕ) (c : Counters)
      → Counts n t c
      → is_locked key policy c ≡ leb policy.threshold (if eqb t 0 then 0 else n)
  unfolding is_locked
  locked-Counts n t c (up, there) = rw up (rw there refl)

  module _ (other : Text) (differ : key ≢ other) where
    apart : (key == other) ≡ false
    apart = ground (arith, eq_iff key other, differ)

    register-other :
        (c : Counters)
        → c.is_up ≡ true
        → get other (register_failure key policy c).1.counts ≡ get other c.counts
    register-other c up =
        ap (λ x. get other x.counts) (register-up c up)
        ∙ get-put key other (incremented policy (get key c.counts)) c.counts
        ∙ rw apart refl

    reset-other :
        (c : Counters) → c.is_up ≡ true → get other (reset key c).counts ≡ get other c.counts
    unfolding reset
    reset-other c up = rw up (get-select key other c.counts ∙ rw apart refl)

    aged_twice : (a b : ℕ) (o : Option Counter) → aged_if b (aged_if a o) ≡ aged_if (a + b) o
    aged_twice a b none = refl
    aged_twice a b (some c) = λ i. some (record c { ttl = later i })
      where
        later : c.ttl - a - b ≡ c.ttl - (a + b)
        later = omega arith

    spaced-other :
        (pauses : List ℕ) (c : Counters)
        → c.is_up ≡ true
        → (get other (fail_spaced pauses key policy c).counts
            ≡ aged_if (total pauses) (get other c.counts))
          × ((fail_spaced pauses key policy c).is_up ≡ true)
    unfolding fail_spaced elapse
    spaced-other [] c up = (sym (not_aged (get other c.counts)), up)
      where
        not_aged : (o : Option Counter) → aged_if 0 o ≡ o
        not_aged none = refl
        not_aged (some k) = λ i. some (record k { ttl = same i })
          where
            same : k.ttl - 0 ≡ k.ttl
            same = omega arith
    spaced-other (d ∷ pauses) c up =
        let next = register-up (elapse d c) up in
        let (h, on) =
          spaced-other pauses (register_failure key policy (elapse d c)).1
            (ap (λ x. x.is_up) next ∙ up) in
        (
          h
              ∙ ap (aged_if (total pauses))
                  (register-other (elapse d c) up ∙ get-aged d other c.counts)
              ∙ aged_twice d (total pauses) (get other c.counts),
          on,
        )

same_lock :
    (a b : Counters) (key : Text) (policy : LockoutPolicy)
    → a.is_up ≡ b.is_up
    → get key a.counts ≡ get key b.counts
    → is_locked key policy a ≡ is_locked key policy b
unfolding is_locked
same_lock a b key policy p e =
    λ i. if not (p i) then false else leb policy.threshold (count_of (e i))

-- The counters after failures of a key, the first after a reset and each of the others so many
-- seconds later, and some more seconds.
abbrev pub after_failures : Text → LockoutPolicy → List ℕ → ℕ → Counters → Counters
after_failures key policy pauses rest c =
    elapse rest (fail_spaced pauses key policy (register_failure key policy (reset key c)).1)

-- While the server answers, failures within the window of the first one lock their key exactly when
-- they reach the threshold, and only until that window is over: then none of them counts. They
-- neither lock nor unlock any other key: for these just the time has gone by.
pub is_locked-after_failures :
    (key : Text) (policy : LockoutPolicy) (pauses : List ℕ) (rest : ℕ) (c : Counters)
    → c.is_up ≡ true
    → total pauses < policy.window_seconds
    → (is_locked key policy (after_failures key policy pauses rest c)
        ≡ leb policy.threshold
            (if ltb (total pauses + rest) policy.window_seconds then suc (length pauses) else 0))
      × ((other : Text) (policy' : LockoutPolicy)
          → key ≢ other
          → is_locked other policy' (after_failures key policy pauses rest c)
            ≡ is_locked other policy' (elapse (total pauses + rest) c))
unfolding elapse
is_locked-after_failures key policy pauses rest c up low = (
  locked-Counts key policy (1 + length pauses) (policy.window_seconds - total pauses - rest) _ (
        elapse-Counts key policy rest _ _ _ (
          spaced-Counts key policy pauses 1 policy.window_seconds _ low (omega arith)
            (first-Counts key policy c up)))
      ∙ ap (leb policy.threshold) (ground arith),
  λ other policy' differ.
      let c' = reset key c in
      let up' = reset-up key policy c up in
      let first = register-up key policy c' up' in
      let (spaced, on) =
        spaced-other key policy other differ pauses (register_failure key policy c').1
          (ap (λ x. x.is_up) first ∙ up') in
      let entry =
        get-aged rest other
          (fail_spaced pauses key policy (register_failure key policy c').1).counts
        ∙ ap (aged_if rest) (
            spaced
            ∙ ap (aged_if (total pauses)) (
                register-other key policy other differ c' up'
                ∙ reset-other key policy other differ c up))
        ∙ aged_twice key policy other differ (total pauses) rest (get other c.counts)
        ∙ sym (get-aged (total pauses + rest) other c.counts) in
      same_lock _ _ other policy' (on ∙ sym up) entry,
)
