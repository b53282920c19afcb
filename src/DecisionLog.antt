-- ===== src/DecisionLog.antt =====
-- The buffered decision log (apps/api/src/authz/infrastructure/persistence/buffered-decision-log.ts,
-- authz/domain/ports/decision-log.ts). `record`, the timer and the sink run interleaved: an event
-- is what happens between two waits. What the sink has answered is kept beside the state.
mod Lines
pub mod Delivery
pub mod Counters
pub mod Closing
mod Tests
use accesscore.Prelude.{
  ℕ, zero, suc, ◌+◌, ◌-◌, Bool, true, false, List, [], ◌∷◌, ◌++◌, Option, none, some, ltb, leb,
  if◌then◌else◌, length, take, drop, Text,
}
use accesscore.Refs.{OrgId, Revision}
use accesscore.Decisions.{Effect, Reason}

pub record DecisionLogRecord : Type 0 where
  pub id : Text
  pub org_id : Option OrgId
  pub subject_of : Text
  pub action : Text
  pub resource : Text
  pub effect : Effect
  pub reasons : List Reason
  pub revision_used : Revision
  pub latency_ms : ℕ
  pub created_at : ℕ

pub record BufferOptions : Type 0 where
  pub max_buffer_size : ℕ
  pub flush_batch_size : ℕ

-- `flushing`: null; the promise of a drain whose batch the sink has not answered; or the promise
-- of a drain that is through and whose `finally` has not run.
pub data Flushing : Type 0 where
  no_flush : Flushing
  writing : List DecisionLogRecord → Flushing
  settling : Flushing

pub record LogMetrics : Type 0 where
  pub flushed : ℕ
  pub dropped : ℕ
  pub degraded : ℕ
  pub buffer_depth : ℕ
  pub flush_lag_ms : ℕ

-- `direct` are the writes of `record` past the bound that the sink has not answered; each answer
-- is kept with what it was about, `true` where the sink took it.
pub record BufferedLog : Type 0 where
  pub buffer : List DecisionLogRecord
  pub flushing : Flushing
  pub direct : List DecisionLogRecord
  pub answered : List (List DecisionLogRecord × Bool)
  pub answered_direct : List (DecisionLogRecord × Bool)
  pub metrics : LogMetrics

abbrev pub new_log : BufferedLog
new_log = record {
  buffer = [];
  flushing = no_flush;
  direct = [];
  answered = [];
  answered_direct = [];
  metrics = record { flushed = 0; dropped = 0; degraded = 0; buffer_depth = 0; flush_lag_ms = 0 };
}

unfoldable pub oldest_from : ℕ → List DecisionLogRecord → ℕ
oldest_from oldest [] = oldest
oldest_from oldest (entry ∷ batch) =
    oldest_from (if ltb entry.created_at oldest then entry.created_at else oldest) batch

-- In milliseconds.
unfoldable pub lag_of : ℕ → List DecisionLogRecord → ℕ
unfolding oldest_from
lag_of now batch = now - oldest_from now batch

-- The loop of `drain` up to its next wait.
unfoldable pub drain_on : BufferOptions → ℕ → List DecisionLogRecord → BufferedLog → BufferedLog
drain_on o now [] s = record s { flushing = settling }
drain_on o now (entry ∷ entries) s =
    let batch = take o.flush_batch_size (entry ∷ entries) in
    let kept = drop o.flush_batch_size (entry ∷ entries) in
    record s {
      buffer = kept;
      flushing = writing batch;
      metrics = record s.metrics { buffer_depth = length kept; flush_lag_ms = lag_of now batch };
    }

abbrev pub unless_flushing : Flushing → BufferedLog → BufferedLog → BufferedLog
unless_flushing no_flush started s = started
unless_flushing (writing _) started s = s
unless_flushing settling started s = s

unfoldable pub flush : BufferOptions → ℕ → BufferedLog → BufferedLog
flush o now s = unless_flushing s.flushing (drain_on o now s.buffer s) s

abbrev pub pushed : DecisionLogRecord → BufferedLog → BufferedLog
pushed entry s = record s {
  buffer = s.buffer ++ entry ∷ [];
  metrics = record s.metrics { buffer_depth = length (s.buffer ++ entry ∷ []) };
}

abbrev pub is_full : BufferOptions → BufferedLog → Bool
is_full o s = leb o.max_buffer_size (length s.buffer)

unfoldable pub record_entry : BufferOptions → ℕ → DecisionLogRecord → BufferedLog → BufferedLog
record_entry o now entry s =
    if is_full o s
    then record s {
      direct = s.direct ++ entry ∷ [];
      metrics = record s.metrics { degraded = s.metrics.degraded + 1 };
    }
    else if leb o.flush_batch_size (length (pushed entry s).buffer)
    then flush o now (pushed entry s)
    else pushed entry s

abbrev pub counted : Bool → ℕ → LogMetrics → LogMetrics
counted true n metrics = record metrics { flushed = metrics.flushed + n }
counted false n metrics = record metrics { dropped = metrics.dropped + n }

abbrev pub after_batch : List DecisionLogRecord → Bool → BufferedLog → BufferedLog
after_batch batch taken s = record s {
  answered = s.answered ++ (batch, taken) ∷ [];
  metrics = counted taken (length batch) s.metrics;
}

-- The sink answers the batch of a drain, which goes on.
abbrev pub answer_batch : BufferOptions → ℕ → Bool → Flushing → BufferedLog → BufferedLog
answer_batch o now taken (writing batch) s = drain_on o now s.buffer (after_batch batch taken s)
answer_batch o now taken no_flush s = s
answer_batch o now taken settling s = s

-- `finally`
abbrev pub settle : Flushing → BufferedLog → BufferedLog
settle settling s = record s { flushing = no_flush }
settle no_flush s = s
settle (writing _) s = s

abbrev pub behind :
    DecisionLogRecord
    → Option (DecisionLogRecord × List DecisionLogRecord)
    → Option (DecisionLogRecord × List DecisionLogRecord)
behind first none = none
behind first (some (entry, others)) = some (entry, first ∷ others)

-- An open direct write and the others: the sink may answer them in any order.
unfoldable pub pick :
    ℕ → List DecisionLogRecord → Option (DecisionLogRecord × List DecisionLogRecord)
pick place [] = none
pick zero (entry ∷ entries) = some (entry, entries)
pick (suc place) (entry ∷ entries) = behind entry (pick place entries)

-- The sink answers that direct write; on a failure `record` throws.
abbrev pub answer_direct :
    Bool → Option (DecisionLogRecord × List DecisionLogRecord) → BufferedLog → BufferedLog
answer_direct taken none s = s
answer_direct taken (some (entry, others)) s = record s {
  direct = others;
  answered_direct = s.answered_direct ++ (entry, taken) ∷ [];
}

-- The times are those of the clock, in milliseconds.
pub data LogEvent : Type 0 where
  recorded : ℕ → DecisionLogRecord → LogEvent
  timer : ℕ → LogEvent
  batch_answer : ℕ → Bool → LogEvent
  settled : LogEvent
  direct_answer : ℕ → Bool → LogEvent

unfoldable pub log_step : BufferOptions → LogEvent → BufferedLog → BufferedLog
log_step o (recorded now entry) s = record_entry o now entry s
log_step o (timer now) s = flush o now s
log_step o (batch_answer now taken) s = answer_batch o now taken s.flushing s
log_step o settled s = settle s.flushing s
log_step o (direct_answer place taken) s = answer_direct taken (pick place s.direct) s

unfoldable pub log_run : BufferOptions → List LogEvent → BufferedLog → BufferedLog
log_run o [] s = s
log_run o (event ∷ events) s = log_run o events (log_step o event s)

-- A wait for the promise of `flush`, while nothing is recorded; the sink answers by `verdict`, from
-- the count of batches answered. `none` is fuel run out.
abbrev pub awaiting :
    (BufferedLog → Option BufferedLog)
    → BufferOptions
    → ℕ
    → (ℕ → Bool)
    → Flushing
    → BufferedLog
    → Option BufferedLog
awaiting on o now verdict no_flush s = some s
awaiting on o now verdict (writing batch) s =
    on (answer_batch o now (verdict (length s.answered)) (writing batch) s)
awaiting on o now verdict settling s = on (settle settling s)

unfoldable pub await_flush : ℕ → BufferOptions → ℕ → (ℕ → Bool) → BufferedLog → Option BufferedLog
await_flush zero o now verdict s = none
await_flush (suc fuel) o now verdict s =
    awaiting (await_flush fuel o now verdict) o now verdict s.flushing s

-- `do { await this.flush(); } while (this.buffer.length > 0)`: the rounds, and the fuel of each.
abbrev pub again : (BufferedLog → Option BufferedLog) → Option BufferedLog → Option BufferedLog
again on none = none
again on (some s) = let more = on s in if ltb 0 (length s.buffer) then more else some s

unfoldable pub close : ℕ → ℕ → BufferOptions → ℕ → (ℕ → Bool) → BufferedLog → Option BufferedLog
close zero fuel o now verdict s = none
close (suc rounds) fuel o now verdict s =
    again (close rounds fuel o now verdict) (await_flush fuel o now verdict (flush o now s))
