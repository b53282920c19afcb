-- ===== src/Pdp/Cached.antt =====
-- A check that the cache answers decides as one that it does not (pdp-service.ts: `check`).
use accesscore.Prelude.{
  ℕ, ◌≡◌, refl, sym, ap, ◌∙◌, subst, inl, inr, Bool, true, List, [], ◌∷◌, Option, none, some, All,
  Bool-cases, some_inj,
}
use accesscore.Refs.{Revision, action_name, format_entity_ref}
use accesscore.Decisions.{Decision}
use accesscore.Addresses.{Host}
use accesscore.Policies.{Policy}
use accesscore.DecisionCache.{DecisionCacheKey, KeyText, DecisionCache, cache_get}
use accesscore.DecisionCache.Keys.{AreDistinct, IsClean, Stored, cache_get-Stored, cache_set-Stored}
use accesscore.Closure.{Context, open_context}
use accesscore.Pdp.{Request, EvaluationResult, is_empty_list}
use accesscore.Pdp.Service.{
  Repositories, cache_key_for, evaluate_request, Surroundings, Checked, looked_up, stored,
  after_miss, checked_with, check, log_record,
}
use accesscore.Pdp.Keyed.{
  IsKeyed, key_of_keyed, alike, alike-rebac_of, alike-policies_for, policies_for,
  evaluate_request_lem,
}

abbrev key_for : (request : Request) → IsKeyed request → Revision → DecisionCacheKey
key_for request k revision = record {
  org_id = k.org;
  subject_of = format_entity_ref request.principal.subject_of;
  action = action_name request.action;
  resource = format_entity_ref request.resource;
  revision = revision;
}

key_for-IsClean :
    (Used : DecisionCacheKey → Type 0) (request : Request) (k : IsKeyed request)
    (revision : Revision)
    → Used (key_for request k revision)
    → IsClean Used (key_for request k revision)
key_for-IsClean Used request k revision u = record {
  used = u;
  org = k.plain;
  subject_Free = k.subject_Free;
  action_Free = k.action_Free;
}

module _ (host : Host) (texts : KeyText) (Used : DecisionCacheKey → Type 0) (fuel : ℕ)
    (IsWorld : ℕ → Repositories → Type 0) where
  -- An uncached evaluation of the request in a world.
  abbrev pub evaluate_in : Repositories → ℕ → Request → Option (EvaluationResult × Context)
  evaluate_in world now request =
      evaluate_request host fuel world now request (open_context world.database)

  -- The decision is that of every request with the key, whenever it is evaluated in one of the
  -- worlds that the key's revision has seen.
  abbrev pub IsRight : DecisionCacheKey → Decision → Type 0
  IsRight key decision =
      (world : Repositories) × IsWorld key.revision.value world
      × ((request : Request) (k : IsKeyed request) (now : ℕ) (result : EvaluationResult)
            (left : Context)
          → cache_key_for request key.revision ≡ some key
          → evaluate_in world now request ≡ some (result, left)
          → result.decision ≡ decision)

  module _
      (history : (r : ℕ) (world : Repositories)
        → IsWorld r world
        → world.database.current.value ≡ r)
      (request : Request) (k : IsKeyed request)
      (used : (revision : Revision) → Used (key_for request k revision)) where
    no_policy : (ps : List Policy) → is_empty_list ps ≡ true → ps ≡ []
    no_policy [] e = refl
    no_policy (p ∷ ps) e = absurd (cc e)

    -- Where no policy has a say, the decision may be kept for the key.
    result-IsRight :
        (revision : Revision) (world : Repositories) (now : ℕ) (result : EvaluationResult)
        (left : Context)
        → IsWorld revision.value world
        → evaluate_in world now request ≡ some (result, left)
        → result.cacheable ≡ true
        → IsRight (key_for request k revision) result.decision
    result-IsRight revision world now result left seen e c = (
      world,
      seen,
      λ request' k' now' result' left' keyed e'.
          let context = open_context world.database in
          let own =
            evaluate_request_lem host fuel world now request k.org k.own k.latest context result
              left e in
          let other =
            evaluate_request_lem host fuel world now' request' k'.org k'.own k'.latest context
              result' left' e' in
          let same =
            alike request request' k k' revision (key_for request k revision)
              (key_of_keyed request k revision) keyed in
          let none_own = no_policy (policies_for world request k.org) (sym own.cacheable ∙ c) in
          let none_other =
            sym (alike-policies_for fuel world request request' k.org k'.org same) ∙ none_own in
          let verdicts : some (own.decided, own.left) ≡ some (other.decided, other.left) =
            sym own.from
            ∙ alike-rebac_of fuel world request request' k.org k'.org same context
            ∙ other.from in
          other.alone none_other
          ∙ sym (ap (λ v. v.0) (some_inj verdicts))
          ∙ sym (own.alone none_own),
    )

    -- The revision that an evaluation reports is that of its world.
    used_lem :
        (revision : Revision) (world : Repositories) (now : ℕ) (result : EvaluationResult)
        (left : Context)
        → IsWorld revision.value world
        → evaluate_in world now request ≡ some (result, left)
        → result.revision_used ≡ revision
    used_lem revision world now result left seen e =
        let concluded =
          evaluate_request_lem host fuel world now request k.org k.own k.latest
            (open_context world.database) result left e in
        concluded.used ∙ λ i. record { value = history revision.value world seen i }

    -- What a check leaves, and what it returned.
    abbrev pub IsFaithfulCheck : Surroundings → Checked → Type 0
    IsFaithfulCheck answers out =
        All (Stored texts Used IsRight) out.cache
        × (world : Repositories) × IsWorld out.entry.revision_used.value world
        × ((result : EvaluationResult) (left : Context)
            → evaluate_in world answers.now request ≡ some (result, left)
            → result.decision ≡ out.result.decision)

    kept :
        (answers : Bool) (rev : Revision) (revision : Revision) (world : Repositories) (now : ℕ)
        (result : EvaluationResult) (left : Context) (cache : DecisionCache)
        → result.revision_used ≡ revision
        → IsWorld revision.value world
        → evaluate_in world now request ≡ some (result, left)
        → All (Stored texts Used IsRight) cache
        → All
            (Stored texts Used IsRight)
            (stored texts answers (some (key_for request k rev)) result cache)
    kept answers rev revision world now result left cache u seen e h =
        elim (Bool-cases result.cacheable) [
          | inr not_kept ↦ rw not_kept h
          | inl lone ↦ rw lone (
              cache_set-Stored texts Used IsRight answers (key_for request k result.revision_used)
                result.decision cache
                (key_for-IsClean Used request k result.revision_used (used result.revision_used))
                (subst (λ r. IsRight (key_for request k r) result.decision) (sym u)
                  (result-IsRight revision world now result left seen e lone))
                h)
        ]

    missed :
        (answers : Surroundings) (cache : DecisionCache) (out : Checked) (revision : Revision)
        (ran : Option (EvaluationResult × Context))
        → IsWorld revision.value answers.world
        → All (Stored texts Used IsRight) cache
        → evaluate_in answers.world answers.now request ≡ ran
        → after_miss texts answers request (some (key_for request k answers.revision_now)) cache ran
          ≡ some out
        → IsFaithfulCheck answers out
    unfolding log_record
    missed answers cache out revision none seen h e m = absurd (cc m)
    missed answers cache out revision (some (result, left)) seen h e m =
        let u = used_lem revision answers.world answers.now result left seen e in
        subst (IsFaithfulCheck answers) (some_inj m) (
          kept answers.write_answers answers.revision_now revision answers.world answers.now result
              left cache u seen e h,
          answers.world,
          subst (λ r. IsWorld r.value answers.world) (sym u) seen,
          λ result' left' e'. ap (λ p. p.0.decision) (some_inj (sym e' ∙ e)),
        )

    answered :
        (answers : Surroundings) (cache : DecisionCache) (out : Checked) (revision : Revision)
        (found : Option Decision)
        → AreDistinct texts Used
        → IsWorld revision.value answers.world
        → All (Stored texts Used IsRight) cache
        → cache_get texts answers.read_answers (key_for request k answers.revision_now) cache
          ≡ found
        → checked_with texts answers request
            (some (key_for request k answers.revision_now))
            cache
            found
            (evaluate_in answers.world answers.now request)
          ≡ some out
        → IsFaithfulCheck answers out
    unfolding log_record
    answered answers cache out revision none d seen h f m =
        missed answers cache out revision (evaluate_in answers.world answers.now request) seen h
          refl m
    answered answers cache out revision (some cached) d seen h f m =
        let (world, known, right) =
          cache_get-Stored texts Used IsRight answers.read_answers
            (key_for request k answers.revision_now) cache cached d
            (key_for-IsClean Used request k answers.revision_now (used answers.revision_now)) h f in
        subst (IsFaithfulCheck answers) (some_inj m) (
          h,
          world,
          known,
          λ result left e.
              right request k answers.now result left (key_of_keyed request k answers.revision_now)
                e,
        )

    -- A check returns the decision that an uncached evaluation gives in a world of the revision
    -- that it logs, whether the cache answers or not, and leaves a cache that holds only such
    -- decisions: the time, the address and the assurance of a request, which are no part of the
    -- key, decide nothing that is kept. A revision may have several worlds, as the flattened index
    -- changes without a new one; a cached decision is that of the world in which it was stored.
    -- Assumed: the worlds of a revision report it, the one in which the check runs is one of them,
    -- the request has an organization and asks for the latest data, its texts are writable and have
    -- no separator of the keys, and no two keys in use have one digest for two texts.
    pub check_lem :
        (answers : Surroundings) (cache : DecisionCache) (out : Checked) (revision : Revision)
        → AreDistinct texts Used
        → IsWorld revision.value answers.world
        → All (Stored texts Used IsRight) cache
        → check host texts fuel answers request cache ≡ some out
        → IsFaithfulCheck answers out
    unfolding check
    check_lem answers cache out revision d seen h e =
        let key = key_of_keyed request k answers.revision_now in
        answered answers cache out revision
          (cache_get texts answers.read_answers (key_for request k answers.revision_now) cache) d
          seen h refl
          (subst
            (λ o.
              checked_with texts answers request o cache
                (looked_up texts answers.read_answers o cache)
                (evaluate_in answers.world answers.now request)
              ≡ some out)
            key e)
