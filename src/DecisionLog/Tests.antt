-- ===== src/DecisionLog/Tests.antt =====
-- A run of the buffered decision log (buffered-decision-log.ts): a bound of two entries and batches
-- of two.
use mathlib.Core.List.{Perm}
use accesscore.DecisionLog.{drain_on, pick}
use accesscore.DecisionLog.{flush}
use accesscore.DecisionLog.{log_step}
use accesscore.DecisionLog.{record_entry}
use accesscore.DecisionLog.Counters.{entries_with}
use accesscore.DecisionLog.Lines.{singly}
use accesscore.Prelude.{
  ◌≡◌, ◌+◌, refl, true, false, List, [], ◌∷◌, ◌++◌, length, none, some, arith, Text, text,
}
use accesscore.Decisions.{permit}
use accesscore.DecisionLog.{
  DecisionLogRecord, BufferOptions, BufferedLog, no_flush, recorded, batch_answer, direct_answer,
  LogEvent, log_run, close, new_log,
}
use accesscore.DecisionLog.Lines.{line, direct_line, batched}
use accesscore.DecisionLog.Delivery.{buffered_in, direct_in, recorded_in, log_run-lines}
use accesscore.DecisionLog.Counters.{IsCounted, log_run-IsCounted}
use accesscore.DecisionLog.Closing.{close_lem}

abbrev entry : Text → DecisionLogRecord
entry id = record {
  id = id;
  org_id = none;
  subject_of = text "user:ana";
  action = text "doc.read";
  resource = text "doc:report";
  effect = permit;
  reasons = [];
  revision_used = record { value = 3 };
  latency_ms = 1;
  created_at = 5;
}

abbrev options : BufferOptions
options = record { max_buffer_size = 2; flush_batch_size = 2 }

-- The second entry starts a drain; the last two find the buffer full. The sink refuses a batch,
-- and takes the later of the two direct writes first.
abbrev busy : List LogEvent
busy =
    recorded 5 (entry (text "a"))
    ∷ recorded 6 (entry (text "b"))
    ∷ recorded 7 (entry (text "c"))
    ∷ recorded 8 (entry (text "d"))
    ∷ recorded 9 (entry (text "e"))
    ∷ recorded 9 (entry (text "f"))
    ∷ batch_answer 10 false
    ∷ direct_answer 1 true
    ∷ []

ran :
    ((log_run options busy new_log).metrics.dropped ≡ 2)
    × ((log_run options busy new_log).metrics.degraded ≡ 2)
    × (batched (log_run options busy new_log).answered ≡ entry (text "a") ∷ entry (text "b") ∷ [])
unfolding log_run log_step record_entry flush drain_on batched pick
ran = (refl, refl, refl)

log_run-lines_example :
    (line (log_run options busy new_log) ≡ line new_log ++ buffered_in options busy new_log)
    × Perm
        (direct_line (log_run options busy new_log))
        (direct_line new_log ++ direct_in options busy new_log)
    × (length (buffered_in options busy new_log) + length (direct_in options busy new_log)
        ≡ length (recorded_in busy))
log_run-lines_example = log_run-lines options busy new_log

new_log-IsCounted : IsCounted options new_log
unfolding entries_with singly
new_log-IsCounted = record {
  bounded = omega arith;
  depth = refl;
  flushed = refl;
  dropped = refl;
  degraded = refl;
}

log_run-IsCounted_example : IsCounted options (log_run options busy new_log)
log_run-IsCounted_example = log_run-IsCounted options busy new_log new_log-IsCounted

abbrev waiting : BufferedLog
waiting = record new_log { buffer = entry (text "a") ∷ entry (text "b") ∷ entry (text "c") ∷ [] }

close_example :
    (last : BufferedLog) × (close 2 6 options 9 (λ n. true) waiting ≡ some last)
    × (last.buffer ≡ [])
    × (last.flushing ≡ no_flush)
    × (batched last.answered ≡ line waiting)
close_example = close_lem 0 6 options 9 (λ n. true) waiting (omega arith) (omega arith)
