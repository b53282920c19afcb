-- ===== src/Pdp/Batch.antt =====
-- Batches of checks, which share a transaction and its maps, and the listing of the subjects of a
-- relation (pdp-service.ts: `batchCheck`, `expand`).
use accesscore.Prelude.{ℕ, Bool, true, List, [], ◌∷◌, Option, none, some, Text}
use accesscore.Refs.{OrgId, EntityRef}
use accesscore.Decisions.{Decision}
use accesscore.Evaluate.{EvaluationSnapshot}
use accesscore.Flatten
use accesscore.Addresses.{Host}
use accesscore.DecisionCache.{DecisionCacheKey, KeyText, DecisionCache}
use accesscore.DecisionLog.{DecisionLogRecord}
use accesscore.Closure.{Context, open_context, load_closure}
use accesscore.Pdp.{Principal, Request, EvaluationResult}
use accesscore.Pdp.Service.{
  Repositories, cache_key_for, evaluate_request, log_record, Surroundings, looked_up, stored,
}

-- A slot of `batchCheck`: `cached` is what the cache held.
pub record Slot : Type 0 where
  pub started_at : ℕ
  pub id : Text
  pub request : Request
  pub key : Option DecisionCacheKey
  pub cached : Option Decision

-- The requests of a batch with the times and ids that they get; the rest is shared.
pub record BatchItem : Type 0 where
  pub started_at : ℕ
  pub id : Text
  pub request : Request

abbrev pub slot_of : KeyText → Surroundings → DecisionCache → BatchItem → Slot
slot_of texts answers cache item =
    let key = cache_key_for item.request answers.revision_now in
    record {
      started_at = item.started_at;
      id = item.id;
      request = item.request;
      key = key;
      cached = looked_up texts answers.read_answers key cache;
    }

abbrev pub hit : Decision → Option DecisionCacheKey → Option EvaluationResult
hit decision none = none
hit decision (some key) =
    some (record { decision = decision; revision_used = key.revision; cacheable = true })

abbrev pub hit_of : Slot → Option EvaluationResult
hit_of slot = elim slot.cached [ none ↦ none | some decision ↦ hit decision slot.key ]

abbrev pub with_next :
    Slot
    → (Context → Option (List (Slot × EvaluationResult)))
    → Option (EvaluationResult × Context)
    → Option (List (Slot × EvaluationResult))
with_next slot next none = none
with_next slot next (some (result, context)) = elim (next context) [
  | none ↦ none
  | some rest ↦ some ((slot, result) ∷ rest)
]

abbrev pub hit_or :
    Option EvaluationResult
    → Context
    → Option (EvaluationResult × Context)
    → Option (EvaluationResult × Context)
hit_or none context evaluated = evaluated
hit_or (some result) context evaluated = some (result, context)

-- The loop over the misses; a hit leaves the context.
unfoldable pub fill_slots :
    Host → ℕ → Surroundings → List Slot → Context → Option (List (Slot × EvaluationResult))
fill_slots host fuel answers [] context = some []
fill_slots host fuel answers (slot ∷ slots) context =
    with_next slot (λ context'. fill_slots host fuel answers slots context')
      (hit_or (hit_of slot) context
        (evaluate_request host fuel answers.world answers.now slot.request context))

abbrev pub store_missed : KeyText → Bool → Slot → EvaluationResult → DecisionCache → DecisionCache
store_missed texts answers slot result cache = elim (hit_of slot) [
  | some _ ↦ cache
  | none ↦ stored texts answers slot.key result cache
]

unfoldable pub store_slots :
    KeyText → Bool → List (Slot × EvaluationResult) → DecisionCache → DecisionCache
store_slots texts answers [] cache = cache
store_slots texts answers ((slot, result) ∷ slots) cache =
    store_slots texts answers slots (store_missed texts answers slot result cache)

unfoldable pub log_slots : ℕ → List (Slot × EvaluationResult) → List DecisionLogRecord
log_slots finished_at [] = []
log_slots finished_at ((slot, result) ∷ slots) =
    log_record slot.id slot.started_at finished_at slot.request result ∷ log_slots finished_at slots

unfoldable pub slots_of : KeyText → Surroundings → DecisionCache → List BatchItem → List Slot
slots_of texts answers cache [] = []
slots_of texts answers cache (item ∷ items) =
    slot_of texts answers cache item ∷ slots_of texts answers cache items

unfoldable pub decisions_of : List (Slot × EvaluationResult) → List Decision
decisions_of [] = []
decisions_of ((_, result) ∷ slots) = result.decision ∷ decisions_of slots

pub record Batched : Type 0 where
  pub decisions : List Decision
  pub cache : DecisionCache
  pub entries : List DecisionLogRecord

abbrev pub batch_with :
    KeyText
    → Surroundings
    → DecisionCache
    → Option (List (Slot × EvaluationResult))
    → Option Batched
batch_with texts answers cache none = none
batch_with texts answers cache (some slots) = some (record {
  decisions = decisions_of slots;
  cache = store_slots texts answers.write_answers slots cache;
  entries = log_slots answers.finished_at slots;
})

unfoldable pub batch_check :
    Host → KeyText → ℕ → Surroundings → List BatchItem → DecisionCache → Option Batched
batch_check host texts fuel answers items cache = batch_with texts answers cache (
    fill_slots host fuel answers (slots_of texts answers cache items)
      (open_context answers.world.database))

abbrev pub expanded :
    ℕ → OrgId → EntityRef → Text → Option (EvaluationSnapshot × Context) → Option (List EntityRef)
expanded fuel org_id resource relation none = none
expanded fuel org_id resource relation (some (snapshot, _)) =
    Flatten.expand fuel org_id resource relation snapshot

unfoldable pub expand_relation :
    ℕ → Repositories → Principal → EntityRef → Text → Option (List EntityRef)
expand_relation fuel world principal resource relation = elim principal.org_id [
  | none ↦ some []
  | some org_id ↦ expanded fuel org_id resource relation (
      load_closure fuel world.database org_id resource (relation ∷ []) none
        (open_context world.database))
]
