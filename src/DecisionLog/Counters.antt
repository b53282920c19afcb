-- ===== src/DecisionLog/Counters.antt =====
-- The bound of the buffer, and the counters of the log (buffered-decision-log.ts).
use accesscore.Prelude.{
  ◌≡◌, Option, none, some, ◌≤◌, ℕ, zero, suc, ◌+◌, refl, subst, Bool, true, false, List, [], ◌∷◌,
  ◌++◌, drop, length, length-append, arith, Bool-cases, inl, inr, leb,
}
use accesscore.DecisionLog.{
  DecisionLogRecord, BufferOptions, Flushing, no_flush, writing, settling, BufferedLog, drain_on,
  unless_flushing, flush, pushed, is_full, record_entry, after_batch, answer_batch, settle,
  answer_direct, pick, LogEvent, recorded, timer, batch_answer, settled, direct_answer, log_step,
  log_run,
}
use accesscore.DecisionLog.Lines.{singly, singly-append, direct_line, pick-Perm}

-- The entries of the batches that the sink answered this way.
unfoldable pub entries_with : Bool → List (List DecisionLogRecord × Bool) → ℕ
entries_with true [] = 0
entries_with true ((batch, true) ∷ answers) = length batch + entries_with true answers
entries_with true ((batch, false) ∷ answers) = entries_with true answers
entries_with false [] = 0
entries_with false ((batch, true) ∷ answers) = entries_with false answers
entries_with false ((batch, false) ∷ answers) = length batch + entries_with false answers

entries_with-append :
    (want : Bool) (answers : List (List DecisionLogRecord × Bool)) (batch : List DecisionLogRecord)
    (taken : Bool)
    → entries_with want (answers ++ (batch, taken) ∷ [])
      ≡ entries_with want answers + entries_with want ((batch, taken) ∷ [])
unfolding entries_with
entries_with-append true [] batch true = omega arith
entries_with-append true [] batch false = omega arith
entries_with-append false [] batch true = omega arith
entries_with-append false [] batch false = omega arith
entries_with-append true ((b, true) ∷ answers) batch taken =
    omega (arith, entries_with-append true answers batch taken)
entries_with-append true ((b, false) ∷ answers) batch taken =
    omega (arith, entries_with-append true answers batch taken)
entries_with-append false ((b, true) ∷ answers) batch taken =
    omega (arith, entries_with-append false answers batch taken)
entries_with-append false ((b, false) ∷ answers) batch taken =
    omega (arith, entries_with-append false answers batch taken)

length-drop-le {ℓ} : {A : Type ℓ} (n : ℕ) (xs : List A) → length (drop n xs) ≤ length xs
length-drop-le zero xs = omega arith
length-drop-le (suc n) [] = omega arith
length-drop-le (suc n) (x ∷ xs) = omega (arith, length-drop-le n xs)

pub record IsCounted (o : BufferOptions) (s : BufferedLog) : Type 0 where
  pub bounded : length s.buffer ≤ o.max_buffer_size
  pub depth : s.metrics.buffer_depth ≡ length s.buffer
  pub flushed : s.metrics.flushed ≡ entries_with true s.answered
  pub dropped : s.metrics.dropped ≡ entries_with false s.answered
  pub degraded : s.metrics.degraded ≡ length (direct_line s)

module _ (o : BufferOptions) (now : ℕ) where
  drain_on-IsCounted :
      (entries : List DecisionLogRecord) (s : BufferedLog)
      → s.buffer ≡ entries
      → IsCounted o s
      → IsCounted o (drain_on o now entries s)
  unfolding drain_on
  drain_on-IsCounted [] s e h = record {
    bounded = h.bounded;
    depth = h.depth;
    flushed = h.flushed;
    dropped = h.dropped;
    degraded = h.degraded;
  }
  drain_on-IsCounted (x ∷ xs) s e h =
      let bounded : length (x ∷ xs) ≤ o.max_buffer_size =
        subst (λ l. length l ≤ o.max_buffer_size) e h.bounded in
      record {
        bounded = omega (arith, length-drop-le o.flush_batch_size (x ∷ xs));
        depth = refl;
        flushed = h.flushed;
        dropped = h.dropped;
        degraded = h.degraded;
      }

  started-IsCounted :
      (f : Flushing) (s : BufferedLog)
      → IsCounted o s
      → IsCounted o (unless_flushing f (drain_on o now s.buffer s) s)
  started-IsCounted no_flush s h = drain_on-IsCounted s.buffer s refl h
  started-IsCounted (writing batch) s h = h
  started-IsCounted settling s h = h

  flush-IsCounted : (s : BufferedLog) → IsCounted o s → IsCounted o (flush o now s)
  unfolding flush
  flush-IsCounted s h = started-IsCounted s.flushing s h

  after_batch-IsCounted :
      (batch : List DecisionLogRecord) (taken : Bool) (s : BufferedLog)
      → IsCounted o s
      → IsCounted o (after_batch batch taken s)
  unfolding entries_with
  after_batch-IsCounted batch true s h = record {
    bounded = h.bounded;
    depth = h.depth;
    flushed = omega (arith, h.flushed, entries_with-append true s.answered batch true);
    dropped = omega (arith, h.dropped, entries_with-append false s.answered batch true);
    degraded = h.degraded;
  }
  after_batch-IsCounted batch false s h = record {
    bounded = h.bounded;
    depth = h.depth;
    flushed = omega (arith, h.flushed, entries_with-append true s.answered batch false);
    dropped = omega (arith, h.dropped, entries_with-append false s.answered batch false);
    degraded = h.degraded;
  }

  answer_batch-IsCounted :
      (taken : Bool) (f : Flushing) (s : BufferedLog)
      → IsCounted o s
      → IsCounted o (answer_batch o now taken f s)
  answer_batch-IsCounted taken (writing batch) s h =
      drain_on-IsCounted s.buffer (after_batch batch taken s) refl
        (after_batch-IsCounted batch taken s h)
  answer_batch-IsCounted taken no_flush s h = h
  answer_batch-IsCounted taken settling s h = h

  pushed-IsCounted :
      (entry : DecisionLogRecord) (s : BufferedLog)
      → is_full o s ≡ false
      → IsCounted o s
      → IsCounted o (pushed entry s)
  pushed-IsCounted entry s room h = record {
    bounded = ground (arith, length-append s.buffer (entry ∷ []));
    depth = refl;
    flushed = h.flushed;
    dropped = h.dropped;
    degraded = h.degraded;
  }

  direct-IsCounted :
      (entry : DecisionLogRecord) (s : BufferedLog)
      → IsCounted o s
      → IsCounted o (record s {
        direct = s.direct ++ entry ∷ [];
        metrics = record s.metrics { degraded = s.metrics.degraded + 1 };
      })
  direct-IsCounted entry s h = record {
    bounded = h.bounded;
    depth = h.depth;
    flushed = h.flushed;
    dropped = h.dropped;
    degraded = omega (
      arith,
      h.degraded,
      length-append (singly s.answered_direct) s.direct,
      length-append s.direct (entry ∷ []),
      length-append (singly s.answered_direct) (s.direct ++ entry ∷ []),
    );
  }

  record_entry-IsCounted :
      (entry : DecisionLogRecord) (s : BufferedLog)
      → IsCounted o s
      → IsCounted o (record_entry o now entry s)
  unfolding record_entry
  record_entry-IsCounted entry s h = elim (Bool-cases (is_full o s)) [
    | inl full ↦ rw full (direct-IsCounted entry s h)
    | inr room ↦
        rw room (elim (Bool-cases (leb o.flush_batch_size (length (pushed entry s).buffer))) [
          | inl many ↦ rw many (flush-IsCounted (pushed entry s) (pushed-IsCounted entry s room h))
          | inr few ↦ rw few (pushed-IsCounted entry s room h)
        ])
  ]

module _ (o : BufferOptions) where
  settle-IsCounted : (f : Flushing) (s : BufferedLog) → IsCounted o s → IsCounted o (settle f s)
  settle-IsCounted settling s h = record {
    bounded = h.bounded;
    depth = h.depth;
    flushed = h.flushed;
    dropped = h.dropped;
    degraded = h.degraded;
  }
  settle-IsCounted no_flush s h = h
  settle-IsCounted (writing _) s h = h

  answer_direct-IsCounted :
      (taken : Bool) (place : ℕ) (picked : Option (DecisionLogRecord × List DecisionLogRecord))
      (s : BufferedLog)
      → pick place s.direct ≡ picked
      → IsCounted o s
      → IsCounted o (answer_direct taken picked s)
  answer_direct-IsCounted taken place none s e h = h
  answer_direct-IsCounted taken place (some (entry, others)) s e h = record {
    bounded = h.bounded;
    depth = h.depth;
    flushed = h.flushed;
    dropped = h.dropped;
    degraded = rw singly-append (
        omega (
          arith,
          h.degraded,
          (pick-Perm place s.direct entry others e).1,
          length-append (singly s.answered_direct) s.direct,
          length-append (singly s.answered_direct) (entry ∷ []),
          length-append (singly s.answered_direct ++ entry ∷ []) others,
        ));
  }

  log_step-IsCounted :
      (event : LogEvent) (s : BufferedLog) → IsCounted o s → IsCounted o (log_step o event s)
  unfolding log_step
  log_step-IsCounted (recorded now entry) s h = record_entry-IsCounted o now entry s h
  log_step-IsCounted (timer now) s h = flush-IsCounted o now s h
  log_step-IsCounted (batch_answer now taken) s h =
      answer_batch-IsCounted o now taken s.flushing s h
  log_step-IsCounted settled s h = settle-IsCounted s.flushing s h
  log_step-IsCounted (direct_answer place taken) s h =
      answer_direct-IsCounted taken place (pick place s.direct) s refl h

-- Whatever happens to a log, its buffer keeps within the bound, the depth gauge is the length of
-- the buffer, and the counters are the entries of the batches that the sink took, those of the
-- batches that it did not take, and the direct writes.
pub log_run-IsCounted :
    (o : BufferOptions) (events : List LogEvent) (s : BufferedLog)
    → IsCounted o s
    → IsCounted o (log_run o events s)
unfolding log_run
log_run-IsCounted o [] s h = h
log_run-IsCounted o (event ∷ events) s h =
    log_run-IsCounted o events (log_step o event s) (log_step-IsCounted o event s h)
