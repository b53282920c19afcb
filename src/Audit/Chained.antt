-- ===== src/Audit/Chained.antt =====
-- What a verified audit log guarantees (audit-chain.ts, drizzle-audit-log.ts).
use accesscore.Prelude.{
  ℕ, zero, suc, ◌+◌, ◌<◌, ◌≤◌, ◌≡◌, refl, sym, ap, ◌∙◌, subst, ◌≢◌, ◌↔◌, ◌⊎◌, inl, inr, true, List,
  [], ◌∷◌, ◌++◌, some, arith, length, take, map, Text, ◌==◌, eq_iff, eq_of_true, ne_of_false,
  Bool-cases, Free, cut_unique,
}
use accesscore.Audit.{
  Encoding, canonical, genesis_hash, zeros, hash_record, AuditRow, verify_from, verify_chain,
  tail_hash, AuditEvent, AuditLog, append, verify,
}

-- Every row carries the hash of its content after the row before it.
unfoldable pub IsChained : Encoding → Text → List AuditRow → Type 0
IsChained enc previous [] = Unit
IsChained enc previous (row ∷ rows) =
    (hash_record enc previous row.content ≡ row.hash) × IsChained enc row.hash rows

module _ (enc : Encoding) where
  verify_from-IsChained :
      (total index : ℕ) (previous : Text) (rows : List AuditRow)
      → ((verify_from enc total index previous rows).is_ok ≡ true) ↔ IsChained enc previous rows
  unfolding verify_from IsChained
  verify_from-IsChained total index previous [] = (λ h. tt, λ h. refl)
  verify_from-IsChained total index previous (row ∷ rows) = ground (
    arith,
    verify_from-IsChained total (suc index) row.hash rows,
    eq_iff (hash_record enc previous row.content) row.hash,
  )

  IsChained-snoc :
      (previous : Text) (rows : List AuditRow) (row : AuditRow)
      → IsChained enc previous rows
      → hash_record enc (tail_hash previous rows) row.content ≡ row.hash
      → IsChained enc previous (rows ++ row ∷ [])
  unfolding IsChained tail_hash
  IsChained-snoc previous [] row h e = (e, tt)
  IsChained-snoc previous (r ∷ rows) row (e', h) e = (e', IsChained-snoc r.hash rows row h e)

  tail_hash-snoc :
      (previous : Text) (rows : List AuditRow) (row : AuditRow)
      → tail_hash previous (rows ++ row ∷ []) ≡ row.hash
  unfolding tail_hash
  tail_hash-snoc previous [] row = refl
  tail_hash-snoc previous (r ∷ rows) row = tail_hash-snoc r.hash rows row

  -- An append to a log that verifies leaves a log that verifies, and the hash that it returns is
  -- that of the last row.
  pub verify-append :
      (log : AuditLog) (event : AuditEvent) (now : ℕ)
      → (verify enc log).is_ok ≡ true
      → ((verify enc (append enc log event now).0).is_ok ≡ true)
        × (tail_hash genesis_hash (append enc log event now).0.rows
            ≡ (append enc log event now).1.1)
  unfolding verify verify_chain append
  verify-append log event now h = (
    (verify_from-IsChained _ 0 genesis_hash _).1 (
        IsChained-snoc genesis_hash log.rows _
          ((verify_from-IsChained _ 0 genesis_hash log.rows).0 h) refl),
    tail_hash-snoc genesis_hash log.rows _,
  )

  -- Two different texts with one hash.
  abbrev pub Collision : Type 0
  Collision = (s : Text) × (t : Text) × (s ≢ t) × (enc.sha256 s ≡ enc.sha256 t)

  -- The hashes are written without a line feed (they are hexadecimal).
  abbrev pub HasPlainHashes : Type 0
  HasPlainHashes = (s : Text) → Free b'\n' (enc.sha256 s)

  abbrev Same : Text → Text → List AuditRow → List AuditRow → Type 0
  Same p q xs ys =
      (p ≡ q) × (map (λ r. canonical enc r.content) xs ≡ map (λ r. canonical enc r.content) ys)

  module _ (plain : HasPlainHashes) where
    step :
        (p q : Text) (a b : AuditRow)
        → Free b'\n' p
        → Free b'\n' q
        → hash_record enc p a.content ≡ hash_record enc q b.content
        → ((p ≡ q) × (canonical enc a.content ≡ canonical enc b.content)) ⊎ Collision
    unfolding hash_record
    step p q a b hp hq e =
        let s = p ++ b'\n' ∷ canonical enc a.content in
        let t = q ++ b'\n' ∷ canonical enc b.content in
        elim (Bool-cases (s == t)) [
          | inl same ↦ inl (
              cut_unique b'\n' p q (canonical enc a.content) (canonical enc b.content) hp hq
                (eq_of_true same))
          | inr other ↦ inr (s, t, ne_of_false other, e)
        ]

    hash-Free : (p : Text) (r : AuditRow) → hash_record enc p r.content ≡ r.hash → Free b'\n' r.hash
    unfolding hash_record
    hash-Free p r e = subst (Free b'\n') e (plain _)

    bound_from :
        (p q : Text) (xs ys : List AuditRow)
        → Free b'\n' p
        → Free b'\n' q
        → IsChained enc p xs
        → IsChained enc q ys
        → length xs ≡ length ys
        → tail_hash p xs ≡ tail_hash q ys
        → Same p q xs ys ⊎ Collision
    unfolding IsChained tail_hash
    bound_from p q [] [] hp hq ha hb e t = inl (t, refl)
    bound_from p q [] (b ∷ ys) hp hq ha hb e t = absurd (omega (arith, e))
    bound_from p q (a ∷ xs) [] hp hq ha hb e t = absurd (omega (arith, e))
    bound_from p q (a ∷ xs) (b ∷ ys) hp hq (ea, ha) (eb, hb) e t =
        elim (bound_from a.hash b.hash xs ys (hash-Free p a ea) (hash-Free q b eb) ha hb
          (omega (arith, e)) t) [
            | inr c ↦ inr c
            | inl (same, rest) ↦ elim (step p q a b hp hq (ea ∙ same ∙ sym eb)) [
              | inr c ↦ inr c
              | inl (heads, contents) ↦ inl (heads, λ i. contents i ∷ rest i)
            ]
          ]

    zeros-Free : (n : ℕ) → Free b'\n' (zeros n)
    unfolding zeros
    zeros-Free zero = tt
    zeros-Free (suc n) = ((λ e. cc), zeros-Free n)

    genesis-Free : Free b'\n' genesis_hash
    genesis-Free = zeros-Free 64

    -- Two logs that verify, of the same length and with the same last hash, have the same canonical
    -- contents at every place, or the hash is not injective. The hashes must be free of line feeds.
    pub verify_chain-binds :
        (xs ys : List AuditRow)
        → (verify_chain enc xs).is_ok ≡ true
        → (verify_chain enc ys).is_ok ≡ true
        → length xs ≡ length ys
        → tail_hash genesis_hash xs ≡ tail_hash genesis_hash ys
        → (map (λ r. canonical enc r.content) xs ≡ map (λ r. canonical enc r.content) ys)
          ⊎ Collision
    unfolding verify_chain
    verify_chain-binds xs ys ha hb e t =
        elim (bound_from genesis_hash genesis_hash xs ys genesis-Free genesis-Free
          ((verify_from-IsChained _ 0 genesis_hash xs).0 ha)
          ((verify_from-IsChained _ 0 genesis_hash ys).0 hb) e t) [
            | inl (_, same) ↦ inl same
            | inr c ↦ inr c
          ]

  broken_at-ge :
      (total index j : ℕ) (previous : Text) (rows : List AuditRow)
      → (verify_from enc total index previous rows).broken_at ≡ some j
      → index ≤ j
  unfolding verify_from
  broken_at-ge total index j previous [] h = cc
  broken_at-ge total index j previous (row ∷ rows) h =
      ground (arith, broken_at-ge total (suc index) j row.hash rows)

  broken_from :
      (total index k : ℕ) (previous : Text) (rows : List AuditRow)
      → (verify_from enc total index previous rows).broken_at ≡ some (index + k)
      → IsChained enc previous (take k rows)
        × (¬ IsChained enc previous (take (suc k) rows))
        × (k < length rows)
  unfolding verify_from IsChained
  broken_from total index k previous [] h = cc
  broken_from total index zero previous (row ∷ rows) h =
      elim (Bool-cases (hash_record enc previous row.content == row.hash)) [
        | inl same ↦ absurd (
            omega
              (arith, broken_at-ge total (suc index) (index + zero) row.hash rows (ground arith)))
        | inr other ↦ (tt, (λ c. ne_of_false other c.0), omega arith)
      ]
  broken_from total index (suc k) previous (row ∷ rows) h =
      elim (Bool-cases (hash_record enc previous row.content == row.hash)) [
        | inl same ↦
            let later : (verify_from enc total (suc index) row.hash rows).broken_at
                ≡ some (suc index + k) =
              ground arith in
            let (chained, broken, low) = broken_from total (suc index) k row.hash rows later in
            ((eq_of_true same, chained), (λ c. broken c.1), omega (arith, low))
        | inr other ↦
            absurd (
              let wrong : some index ≡ some (index + suc k) = ground (arith, other) in ground arith)
      ]

  -- The index that a failed verification reports is that of the first broken row: the rows before
  -- it are chained, and with it they are not.
  pub verify_chain-broken_at :
      (rows : List AuditRow) (k : ℕ)
      → (verify_chain enc rows).broken_at ≡ some k
      → IsChained enc genesis_hash (take k rows)
        × (¬ IsChained enc genesis_hash (take (suc k) rows))
        × (k < length rows)
  unfolding verify_chain
  verify_chain-broken_at rows k h =
      broken_from (length rows) 0 k genesis_hash rows (h ∙ ap some (omega arith))
