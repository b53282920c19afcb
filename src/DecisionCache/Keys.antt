-- ===== src/DecisionCache/Keys.antt =====
-- The keys of the decision cache confuse no two decisions (redis-decision-cache.ts), and what is
-- read under a key was stored under it.
use accesscore.Prelude.{
  ◌≡◌, ℕ, refl, sym, subst, Bool, true, false, [], ◌∷◌, ◌++◌, Option, none, some, arith, Text, get,
  get-All, put-All, All, Free, cut_unique,
}
use accesscore.Decisions.{Decision}
use accesscore.DecisionCache.{
  DecisionCacheKey, KeyText, CachedValue, DecisionCache, digested, redis_key, fitting, cache_get,
  cache_set,
}

-- The texts of numbers are free of colons and differ, and no two keys that are in use are told
-- apart by their digested texts only and have one digest.
pub record AreDistinct (texts : KeyText) (Used : DecisionCacheKey → Type 0) : Type 0 where
  pub digests :
      (a b : DecisionCacheKey)
      → Used a
      → Used b
      → texts.digest (digested a) ≡ texts.digest (digested b)
      → digested a ≡ digested b
  pub numbers : (a b : ℕ) → texts.number_text a ≡ texts.number_text b → a ≡ b
  pub number_Free : (a : ℕ) → Free b':' (texts.number_text a)

-- In use, with no colon in the organization and no unit separator in the subject and the action.
pub record IsClean (Used : DecisionCacheKey → Type 0) (key : DecisionCacheKey) : Type 0 where
  pub used : Used key
  pub org : Free b':' key.org_id.value
  pub subject_Free : Free 0x1f key.subject_of
  pub action_Free : Free 0x1f key.action

append-cancel : (p s t : Text) → p ++ s ≡ p ++ t → s ≡ t
append-cancel [] s t e = e
append-cancel (x ∷ p) s t e = append-cancel p s t (ground arith)

pub redis_key_injective :
    (texts : KeyText) (Used : DecisionCacheKey → Type 0) (a b : DecisionCacheKey)
    → AreDistinct texts Used
    → IsClean Used a
    → IsClean Used b
    → redis_key texts a ≡ redis_key texts b
    → a ≡ b
unfolding redis_key
redis_key_injective texts Used a b d ca cb e =
    let tail : b':'
          ∷ (a.org_id.value
              ++ b':' ∷ (texts.number_text a.revision.value ++ b':' ∷ texts.digest (digested a)))
        ≡ b':'
          ∷ (b.org_id.value
              ++ b':' ∷ (texts.number_text b.revision.value ++ b':' ∷ texts.digest (digested b))) =
      append-cancel texts.prefix _ _ e in
    let (org, rest) =
      cut_unique b':' a.org_id.value b.org_id.value _ _ ca.org cb.org (ground arith) in
    let (number, digest) =
      cut_unique b':' (texts.number_text a.revision.value) (texts.number_text b.revision.value) _ _
        (d.number_Free a.revision.value) (d.number_Free b.revision.value) rest in
    let (who, more) =
      cut_unique 0x1f a.subject_of b.subject_of _ _ ca.subject_Free cb.subject_Free
        (d.digests a b ca.used cb.used digest) in
    let (act, what) = cut_unique 0x1f a.action b.action _ _ ca.action_Free cb.action_Free more in
    let rev = d.numbers a.revision.value b.revision.value number in
    λ i. record {
      org_id = record { value = org i };
      subject_of = who i;
      action = act i;
      resource = what i;
      revision = record { value = rev i };
    }

module _ (texts : KeyText) (Used : DecisionCacheKey → Type 0)
    (P : DecisionCacheKey → Decision → Type 0) where
  -- Every entry holds a decision of which `P` holds, under its key.
  abbrev pub Stored : Text × CachedValue → Type 0
  Stored e =
      (key : DecisionCacheKey) × IsClean Used key
      × (e.0 ≡ redis_key texts key)
      × P key (record { effect = e.1.effect; reasons = e.1.reasons })

  pub cache_get-Stored :
      (answers : Bool) (key : DecisionCacheKey) (cache : DecisionCache) (decision : Decision)
      → AreDistinct texts Used
      → IsClean Used key
      → All Stored cache
      → cache_get texts answers key cache ≡ some decision
      → P key decision
  unfolding cache_get
  cache_get-Stored false key cache decision d c h e = absurd (cc e)
  cache_get-Stored true key cache decision d c h e = found (get (redis_key texts key) cache) refl e
    where
      found :
          (o : Option CachedValue)
          → get (redis_key texts key) cache ≡ o
          → fitting key o ≡ some decision
          → P key decision
      found none there f = absurd (cc f)
      found (some value) there f =
          let (key', c', same, p) = get-All Stored (redis_key texts key) value cache h there in
          let equal : key ≡ key' = redis_key_injective texts Used key key' d c c' same in
          let out : record { effect = value.effect; reasons = value.reasons } ≡ decision =
            ground arith in
          subst (P key) out (
            subst (λ k. P k (record { effect = value.effect; reasons = value.reasons })) (sym equal)
              p)

  pub cache_set-Stored :
      (answers : Bool) (key : DecisionCacheKey) (decision : Decision) (cache : DecisionCache)
      → IsClean Used key
      → P key decision
      → All Stored cache
      → All Stored (cache_set texts answers key decision cache)
  unfolding cache_set
  cache_set-Stored false key decision cache c p h = h
  cache_set-Stored true key decision cache c p h =
      put-All Stored (redis_key texts key) _ cache (key, c, refl, p) h
