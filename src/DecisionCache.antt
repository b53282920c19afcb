-- ===== src/DecisionCache.antt =====
-- The decision cache (apps/api/src/authz/infrastructure/cache/redis-decision-cache.ts,
-- authz/domain/ports/decision-cache.ts). Redis is an association list; the expiry of an entry is
-- its removal, and a failed call is one that the server does not answer.
pub mod Keys
use accesscore.Prelude.{
  ℕ, Bool, true, false, not, List, [], ◌∷◌, ◌++◌, Option, none, some, eqb, if◌then◌else◌, Text, get,
  put,
}
use accesscore.Refs.{OrgId, Revision}
use accesscore.Decisions.{Effect, Reason, Decision}

pub record DecisionCacheKey : Type 0 where
  pub org_id : OrgId
  pub subject_of : Text
  pub action : Text
  pub resource : Text
  pub revision : Revision

-- `createHash('sha256')` with `digest('base64url')` of node:crypto, and the text of a number.
pub record KeyText : Type 0 where
  pub digest : Text → Text
  pub number_text : ℕ → Text
  pub prefix : Text

pub record CachedValue : Type 0 where
  pub effect : Effect
  pub reasons : List Reason
  pub revision : ℕ

abbrev pub DecisionCache : Type 0
DecisionCache = List (Text × CachedValue)

-- Behind the unit separator.
abbrev pub digested : DecisionCacheKey → Text
digested key = key.subject_of ++ 0x1f ∷ (key.action ++ 0x1f ∷ key.resource)

unfoldable pub redis_key : KeyText → DecisionCacheKey → Text
redis_key texts key =
    texts.prefix
    ++ b':'
      ∷ (key.org_id.value
          ++ b':' ∷ (texts.number_text key.revision.value ++ b':' ∷ texts.digest (digested key)))

abbrev pub fitting : DecisionCacheKey → Option CachedValue → Option Decision
fitting key none = none
fitting key (some value) =
    if not (eqb value.revision key.revision.value)
    then none
    else some (record { effect = value.effect; reasons = value.reasons })

-- The flag says whether the server answers.
unfoldable pub cache_get : KeyText → Bool → DecisionCacheKey → DecisionCache → Option Decision
cache_get texts answers key cache =
    if answers then fitting key (get (redis_key texts key) cache) else none

unfoldable pub cache_set :
    KeyText → Bool → DecisionCacheKey → Decision → DecisionCache → DecisionCache
cache_set texts answers key decision cache =
    if answers
    then put (redis_key texts key)
        (record {
          effect = decision.effect;
          reasons = decision.reasons;
          revision = key.revision.value;
        })
        cache
    else cache
