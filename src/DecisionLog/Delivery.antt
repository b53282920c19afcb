-- ===== src/DecisionLog/Delivery.antt =====
-- What becomes of the recorded entries, whatever runs in between (buffered-decision-log.ts).
use accesscore.Prelude.{
  ◌≡◌, ℕ, ◌+◌, refl, sym, ap, ◌∙◌, Bool, List, [], ◌∷◌, ◌++◌, length, arith, append_assoc,
  append-nil, Bool-cases, length-append, inl, inr, if◌then◌else◌, leb, Option, none, some,
}
use mathlib.Core.List.{Perm}
use mathlib.Core.List.Perm
use accesscore.DecisionLog.{
  DecisionLogRecord, BufferOptions, Flushing, no_flush, writing, settling, BufferedLog, drain_on,
  unless_flushing, flush, pushed, is_full, record_entry, after_batch, answer_batch, settle,
  answer_direct, pick, LogEvent, recorded, timer, batch_answer, settled, direct_answer, log_step,
  log_run,
}
use accesscore.DecisionLog.Lines.{
  batched, singly, in_flight, line, direct_line, take-drop, batched-append, singly-append,
  Perm_of_eq, pick-Perm,
}

-- What an event adds to the buffer, and what it writes past it.
abbrev pub taken_by : BufferOptions → LogEvent → BufferedLog → List DecisionLogRecord
taken_by o (recorded now entry) s = if is_full o s then [] else entry ∷ []
taken_by o _ s = []

abbrev pub passed_by : BufferOptions → LogEvent → BufferedLog → List DecisionLogRecord
passed_by o (recorded now entry) s = if is_full o s then entry ∷ [] else []
passed_by o _ s = []

-- Over a run.
unfoldable pub buffered_in : BufferOptions → List LogEvent → BufferedLog → List DecisionLogRecord
buffered_in o [] s = []
buffered_in o (event ∷ events) s = taken_by o event s ++ buffered_in o events (log_step o event s)

unfoldable pub direct_in : BufferOptions → List LogEvent → BufferedLog → List DecisionLogRecord
direct_in o [] s = []
direct_in o (event ∷ events) s = passed_by o event s ++ direct_in o events (log_step o event s)

abbrev entry_of : LogEvent → List DecisionLogRecord
entry_of (recorded now entry) = entry ∷ []
entry_of _ = []

unfoldable pub recorded_in : List LogEvent → List DecisionLogRecord
recorded_in [] = []
recorded_in (event ∷ events) = entry_of event ++ recorded_in events

module _ (o : BufferOptions) (now : ℕ) where
  -- A drain moves entries along the line; it starts with no batch at the sink.
  drain_on-line :
      (entries : List DecisionLogRecord) (s : BufferedLog)
      → s.buffer ≡ entries
      → line (drain_on o now entries s) ≡ batched s.answered ++ entries
  unfolding drain_on
  drain_on-line [] s e = rw e refl
  drain_on-line (x ∷ xs) s e =
      ap (λ l. batched s.answered ++ l) (take-drop o.flush_batch_size (x ∷ xs))

  started-line :
      (f : Flushing) (s : BufferedLog)
      → s.flushing ≡ f
      → line (unless_flushing f (drain_on o now s.buffer s) s) ≡ line s
  started-line no_flush s e =
      drain_on-line s.buffer s refl
      ∙ ap (λ f. batched s.answered ++ (in_flight f ++ s.buffer)) (sym e)
  started-line (writing batch) s e = refl
  started-line settling s e = refl

  pub flush-line : (s : BufferedLog) → line (flush o now s) ≡ line s
  unfolding flush
  flush-line s = started-line s.flushing s refl

  pub answer_batch-line :
      (taken : Bool) (f : Flushing) (s : BufferedLog)
      → s.flushing ≡ f
      → line (answer_batch o now taken f s) ≡ line s
  answer_batch-line taken (writing batch) s e =
      drain_on-line s.buffer (after_batch batch taken s) refl
      ∙ ap (λ l. l ++ s.buffer) (batched-append s.answered batch taken)
      ∙ append_assoc (batched s.answered) batch s.buffer
      ∙ ap (λ f. batched s.answered ++ (in_flight f ++ s.buffer)) (sym e)
  answer_batch-line taken no_flush s e = refl
  answer_batch-line taken settling s e = refl

  pushed-line :
      (entry : DecisionLogRecord) (s : BufferedLog) → line (pushed entry s) ≡ line s ++ entry ∷ []
  pushed-line entry s = simp append_assoc

  record_entry-line :
      (entry : DecisionLogRecord) (s : BufferedLog)
      → line (record_entry o now entry s) ≡ line s ++ (if is_full o s then [] else entry ∷ [])
  unfolding record_entry
  record_entry-line entry s = elim (Bool-cases (is_full o s)) [
    | inl full ↦ rw full (sym (append-nil (line s)))
    | inr room ↦
        rw room (elim (Bool-cases (leb o.flush_batch_size (length (pushed entry s).buffer))) [
          | inl many ↦ rw many (flush-line (pushed entry s) ∙ pushed-line entry s)
          | inr few ↦ rw few (pushed-line entry s)
        ])
  ]

pub settle-line : (f : Flushing) (s : BufferedLog) → s.flushing ≡ f → line (settle f s) ≡ line s
settle-line settling s e = ap (λ f. batched s.answered ++ (in_flight f ++ s.buffer)) (sym e)
settle-line no_flush s e = refl
settle-line (writing _) s e = refl

answer_direct-line :
    (taken : Bool) (picked : Option (DecisionLogRecord × List DecisionLogRecord)) (s : BufferedLog)
    → line (answer_direct taken picked s) ≡ line s
answer_direct-line taken none s = refl
answer_direct-line taken (some (entry, others)) s = refl

answer_direct-direct_line :
    (taken : Bool) (place : ℕ) (picked : Option (DecisionLogRecord × List DecisionLogRecord))
    (s : BufferedLog)
    → pick place s.direct ≡ picked
    → Perm (direct_line (answer_direct taken picked s)) (direct_line s)
answer_direct-direct_line taken place none s e = Perm.refl (direct_line s)
answer_direct-direct_line taken place (some (entry, others)) s e =
    Perm.trans
      (Perm_of_eq (
        ap (λ l. l ++ others) (singly-append s.answered_direct entry taken)
        ∙ append_assoc (singly s.answered_direct) (entry ∷ []) others))
      (Perm.append_left (singly s.answered_direct)
        (Perm.symm (pick-Perm place s.direct entry others e).0))

settle-direct_line : (f : Flushing) (s : BufferedLog) → direct_line (settle f s) ≡ direct_line s
settle-direct_line settling s = refl
settle-direct_line no_flush s = refl
settle-direct_line (writing _) s = refl

module _ (o : BufferOptions) (now : ℕ) where
  drain_on-direct_line :
      (entries : List DecisionLogRecord) (s : BufferedLog)
      → direct_line (drain_on o now entries s) ≡ direct_line s
  unfolding drain_on
  drain_on-direct_line [] s = refl
  drain_on-direct_line (x ∷ xs) s = refl

  started-direct_line :
      (f : Flushing) (s : BufferedLog)
      → direct_line (unless_flushing f (drain_on o now s.buffer s) s) ≡ direct_line s
  started-direct_line no_flush s = drain_on-direct_line s.buffer s
  started-direct_line (writing batch) s = refl
  started-direct_line settling s = refl

  flush-direct_line : (s : BufferedLog) → direct_line (flush o now s) ≡ direct_line s
  unfolding flush
  flush-direct_line s = started-direct_line s.flushing s

  answer_batch-direct_line :
      (taken : Bool) (f : Flushing) (s : BufferedLog)
      → direct_line (answer_batch o now taken f s) ≡ direct_line s
  answer_batch-direct_line taken (writing batch) s =
      drain_on-direct_line s.buffer (after_batch batch taken s)
  answer_batch-direct_line taken no_flush s = refl
  answer_batch-direct_line taken settling s = refl

  record_entry-direct_line :
      (entry : DecisionLogRecord) (s : BufferedLog)
      → direct_line (record_entry o now entry s)
        ≡ direct_line s ++ (if is_full o s then entry ∷ [] else [])
  unfolding record_entry
  record_entry-direct_line entry s = elim (Bool-cases (is_full o s)) [
    | inl full ↦ rw full (sym (append_assoc (singly s.answered_direct) s.direct (entry ∷ [])))
    | inr room ↦
        rw room (elim (Bool-cases (leb o.flush_batch_size (length (pushed entry s).buffer))) [
          | inl many ↦
              rw many (flush-direct_line (pushed entry s) ∙ sym (append-nil (direct_line s)))
          | inr few ↦ rw few (sym (append-nil (direct_line s)))
        ])
  ]

module _ (o : BufferOptions) where
  log_step-line :
      (event : LogEvent) (s : BufferedLog)
      → line (log_step o event s) ≡ line s ++ taken_by o event s
  unfolding log_step
  log_step-line (recorded now entry) s = record_entry-line o now entry s
  log_step-line (timer now) s = flush-line o now s ∙ sym (append-nil (line s))
  log_step-line (batch_answer now taken) s =
      answer_batch-line o now taken s.flushing s refl ∙ sym (append-nil (line s))
  log_step-line settled s = settle-line s.flushing s refl ∙ sym (append-nil (line s))
  log_step-line (direct_answer place taken) s =
      answer_direct-line taken (pick place s.direct) s ∙ sym (append-nil (line s))

  log_step-direct_line :
      (event : LogEvent) (s : BufferedLog)
      → Perm (direct_line (log_step o event s)) (direct_line s ++ passed_by o event s)
  unfolding log_step
  log_step-direct_line (recorded now entry) s = Perm_of_eq (record_entry-direct_line o now entry s)
  log_step-direct_line (timer now) s =
      Perm_of_eq (flush-direct_line o now s ∙ sym (append-nil (direct_line s)))
  log_step-direct_line (batch_answer now taken) s =
      Perm_of_eq
        (answer_batch-direct_line o now taken s.flushing s ∙ sym (append-nil (direct_line s)))
  log_step-direct_line settled s =
      Perm_of_eq (settle-direct_line s.flushing s ∙ sym (append-nil (direct_line s)))
  log_step-direct_line (direct_answer place taken) s =
      Perm.trans (answer_direct-direct_line taken place (pick place s.direct) s refl)
        (Perm_of_eq (sym (append-nil (direct_line s))))

  taken_or_passed :
      (event : LogEvent) (s : BufferedLog)
      → length (taken_by o event s) + length (passed_by o event s) ≡ length (entry_of event)
  taken_or_passed (recorded now entry) s = ground arith
  taken_or_passed (timer now) s = refl
  taken_or_passed (batch_answer now taken) s = refl
  taken_or_passed settled s = refl
  taken_or_passed (direct_answer place taken) s = refl

  count_in :
      (events : List LogEvent) (s : BufferedLog)
      → length (buffered_in o events s) + length (direct_in o events s)
        ≡ length (recorded_in events)
  unfolding buffered_in direct_in recorded_in
  count_in [] s = refl
  count_in (event ∷ events) s = omega (
    arith,
    length-append (taken_by o event s) (buffered_in o events (log_step o event s)),
    length-append (passed_by o event s) (direct_in o events (log_step o event s)),
    length-append (entry_of event) (recorded_in events),
    taken_or_passed event s,
    count_in events (log_step o event s),
  )

  lines_in :
      (events : List LogEvent) (s : BufferedLog)
      → (line (log_run o events s) ≡ line s ++ buffered_in o events s)
        × Perm (direct_line (log_run o events s)) (direct_line s ++ direct_in o events s)
  unfolding log_run buffered_in direct_in
  lines_in [] s = (sym (append-nil (line s)), Perm_of_eq (sym (append-nil (direct_line s))))
  lines_in (event ∷ events) s =
      let next = log_step o event s in
      let (h, k) = lines_in events next in
      (
        h
            ∙ ap (λ l. l ++ buffered_in o events next) (log_step-line event s)
            ∙ append_assoc (line s) (taken_by o event s) (buffered_in o events next),
        Perm.trans k (
            Perm.trans (Perm.append_right (direct_in o events next) (log_step-direct_line event s))
              (Perm_of_eq
                (append_assoc (direct_line s) (passed_by o event s) (direct_in o events next)))),
      )

-- The log refines a queue and a bag: over any run, whatever records, flushes and answers of the
-- sink run in between, the entries of the batches that the sink answered (it may have refused a
-- batch, which is then dropped), those at the sink and those that wait are, in this order, those of
-- the start followed by those recorded while there was room; the direct writes, answered in
-- whatever order or open, are those of the start and those recorded while there was none; and each
-- recorded entry is one of these.
pub log_run-lines :
    (o : BufferOptions) (events : List LogEvent) (s : BufferedLog)
    → (line (log_run o events s) ≡ line s ++ buffered_in o events s)
      × Perm (direct_line (log_run o events s)) (direct_line s ++ direct_in o events s)
      × (length (buffered_in o events s) + length (direct_in o events s)
          ≡ length (recorded_in events))
log_run-lines o events s = ((lines_in o events s).0, (lines_in o events s).1, count_in o events s)
