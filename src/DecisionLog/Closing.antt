-- ===== src/DecisionLog/Closing.antt =====
-- `close` ends, with nothing left to write (buffered-decision-log.ts).
use accesscore.Prelude.{
  ◌≡◌, ◌≤◌, ◌<◌, ℕ, zero, suc, ◌+◌, refl, sym, ap, ◌∙◌, subst, Bool, List, [], ◌∷◌, ◌++◌, drop,
  length, arith, Option, some, append-nil,
}
use accesscore.DecisionLog.{
  DecisionLogRecord, BufferOptions, Flushing, no_flush, writing, settling, BufferedLog, drain_on,
  unless_flushing, flush, after_batch, settle, awaiting, await_flush, again, close,
}
use accesscore.DecisionLog.Lines.{line, in_flight, batched}
use accesscore.DecisionLog.Delivery.{flush-line, answer_batch-line, settle-line}

-- The waits for the promise of a flush that are left.
abbrev steps_left : Flushing → BufferedLog → ℕ
steps_left (writing batch) s = length s.buffer + 2
steps_left settling s = 1
steps_left no_flush s = 0

-- A drain that has begun empties the buffer; one that is through leaves it.
abbrev left_buffer : Flushing → BufferedLog → List DecisionLogRecord
left_buffer (writing batch) s = []
left_buffer settling s = s.buffer
left_buffer no_flush s = s.buffer

record Awaited (run : Option BufferedLog) (s : BufferedLog) (left : List DecisionLogRecord)
    : Type 0 where
  last : BufferedLog
  returned : run ≡ some last
  idle : last.flushing ≡ no_flush
  kept : line last ≡ line s
  buffer : last.buffer ≡ left

length-drop-lt {ℓ} :
    {A : Type ℓ} (n : ℕ) (x : A) (xs : List A) → 0 < n → length (drop n (x ∷ xs)) ≤ length xs
length-drop-lt zero x xs h = absurd (omega arith)
length-drop-lt (suc zero) x xs h = omega arith
length-drop-lt (suc (suc n)) x [] h = omega arith
length-drop-lt (suc (suc n)) x (y ∷ ys) h = omega (arith, length-drop-lt (suc n) y ys (omega arith))

module _ (o : BufferOptions) (now : ℕ) (verdict : ℕ → Bool) (positive : 0 < o.flush_batch_size)
    (fuel : ℕ) where
  abbrev Waits : BufferedLog → Type 0
  Waits s =
      steps_left s.flushing s < fuel
      → Awaited (await_flush fuel o now verdict s) s (left_buffer s.flushing s)

  drained :
      ((s : BufferedLog) → Waits s)
      → (entries : List DecisionLogRecord) (s : BufferedLog) → s.buffer ≡ entries
      → length entries + 1 < fuel
      → Awaited
          (await_flush fuel o now verdict (drain_on o now entries s))
          (drain_on o now entries s)
          []
  unfolding drain_on
  drained on [] s e low =
      let a = on (record s { flushing = settling }) (omega arith) in
      record {
        last = a.last;
        returned = a.returned;
        idle = a.idle;
        kept = a.kept;
        buffer = a.buffer ∙ e;
      }
  drained on (x ∷ xs) s e low =
      on (drain_on o now (x ∷ xs) s)
        (omega (arith, length-drop-lt o.flush_batch_size x xs positive))

  module _ (on : (s : BufferedLog) → Waits s) where
    one_wait :
        (f : Flushing) (s : BufferedLog)
        → s.flushing ≡ f
        → steps_left f s < suc fuel
        → Awaited (awaiting (await_flush fuel o now verdict) o now verdict f s) s (left_buffer f s)
    one_wait no_flush s e low = record {
      last = s;
      returned = refl;
      idle = e;
      kept = refl;
      buffer = refl;
    }
    one_wait settling s e low =
        let a = on (settle settling s) (omega arith) in
        record {
          last = a.last;
          returned = a.returned;
          idle = a.idle;
          kept = a.kept ∙ settle-line settling s e;
          buffer = a.buffer;
        }
    one_wait (writing batch) s e low =
        let taken = verdict (length s.answered) in
        let a = drained on s.buffer (after_batch batch taken s) refl (omega arith) in
        record {
          last = a.last;
          returned = a.returned;
          idle = a.idle;
          kept = a.kept ∙ answer_batch-line o now taken (writing batch) s e;
          buffer = a.buffer;
        }

module _ (on : BufferedLog → Option BufferedLog) (s : BufferedLog) where
  again_done : s.buffer ≡ [] → again on (some s) ≡ some s
  again_done e = rw e refl

  again_more :
      (x : DecisionLogRecord) (xs : List DecisionLogRecord)
      → s.buffer ≡ x ∷ xs
      → again on (some s) ≡ on s
  again_more x xs e = ground arith

module _ (o : BufferOptions) (now : ℕ) (verdict : ℕ → Bool)
    (positive : 0 < o.flush_batch_size) where
  await_flush_lem : (fuel : ℕ) (s : BufferedLog) → Waits o now verdict positive fuel s
  unfolding await_flush
  await_flush_lem zero s low = absurd (omega arith)
  await_flush_lem (suc fuel) s low =
      one_wait o now verdict positive fuel (await_flush_lem fuel) s.flushing s refl low

  -- What one round of `close` leaves in the buffer.
  abbrev after_round : Flushing → BufferedLog → List DecisionLogRecord
  after_round settling s = s.buffer
  after_round no_flush s = []
  after_round (writing _) s = []

  same_round :
      (fuel : ℕ) (s : BufferedLog) (left : List DecisionLogRecord)
      → Awaited (await_flush fuel o now verdict s) s (left_buffer s.flushing s)
      → left_buffer s.flushing s ≡ left
      → Awaited (await_flush fuel o now verdict s) s left
  same_round fuel s left a e = record {
    last = a.last;
    returned = a.returned;
    idle = a.idle;
    kept = a.kept;
    buffer = a.buffer ∙ e;
  }

  started :
      (fuel : ℕ) (f : Flushing) (s : BufferedLog)
      → s.flushing ≡ f
      → length s.buffer + 2 < fuel
      → Awaited
          (await_flush fuel o now verdict (unless_flushing f (drain_on o now s.buffer s) s))
          (unless_flushing f (drain_on o now s.buffer s) s)
          (after_round f s)
  started fuel no_flush s e low =
      drained o now verdict positive fuel (await_flush_lem fuel) s.buffer s refl (omega arith)
  started fuel (writing batch) s e low =
      same_round fuel s _ (await_flush_lem fuel s (rw e low)) (ap (λ f. left_buffer f s) e)
  started fuel settling s e low =
      same_round fuel s _ (await_flush_lem fuel s (rw e (omega arith)))
        (ap (λ f. left_buffer f s) e)

  round :
      (fuel : ℕ) (s : BufferedLog)
      → length s.buffer + 2 < fuel
      → Awaited (await_flush fuel o now verdict (flush o now s)) s (after_round s.flushing s)
  unfolding flush
  round fuel s low =
      let a = started fuel s.flushing s refl low in
      record {
        last = a.last;
        returned = a.returned;
        idle = a.idle;
        kept = a.kept ∙ flush-line o now s;
        buffer = a.buffer;
      }

  -- The second round starts with no drain running.
  twice :
      (fuel rounds : ℕ) (s : BufferedLog) (left : List DecisionLogRecord)
      → Awaited (await_flush fuel o now verdict (flush o now s)) s left
      → length left + 2 < fuel
      → Awaited
          (again
            (close (suc rounds) fuel o now verdict)
            (await_flush fuel o now verdict (flush o now s)))
          s
          []
  unfolding close
  twice fuel rounds s [] a low = record {
    last = a.last;
    returned =
        ap (again (close (suc rounds) fuel o now verdict)) a.returned
        ∙ again_done (close (suc rounds) fuel o now verdict) a.last a.buffer;
    idle = a.idle;
    kept = a.kept;
    buffer = a.buffer;
  }
  twice fuel rounds s (x ∷ xs) a low =
      let b = round fuel a.last (subst (λ l. length l + 2 < fuel) (sym a.buffer) low) in
      let empty : b.last.buffer ≡ [] = b.buffer ∙ ap (λ f. after_round f a.last) a.idle in
      record {
        last = b.last;
        returned =
            ap (again (close (suc rounds) fuel o now verdict)) a.returned
            ∙ again_more (close (suc rounds) fuel o now verdict) a.last x xs a.buffer
            ∙ ap (again (close rounds fuel o now verdict)) b.returned
            ∙ again_done (close rounds fuel o now verdict) b.last empty;
        idle = b.idle;
        kept = b.kept ∙ a.kept;
        buffer = empty;
      }

-- While nothing is recorded and the sink answers every batch, taking it or not, `close` returns
-- after two rounds at most, from whatever state: the buffer is empty, no drain runs, and every
-- entry that was buffered or in the batch at the sink has been answered, in order. Open direct
-- writes are neither awaited nor answered. A batch must have room for an entry.
pub close_lem :
    (rounds fuel : ℕ) (o : BufferOptions) (now : ℕ) (verdict : ℕ → Bool) (s : BufferedLog)
    → 0 < o.flush_batch_size
    → length s.buffer + 2 < fuel
    → (last : BufferedLog) × (close (suc (suc rounds)) fuel o now verdict s ≡ some last)
      × (last.buffer ≡ [])
      × (last.flushing ≡ no_flush)
      × (batched last.answered ≡ line s)
unfolding close
close_lem rounds fuel o now verdict s positive low =
    let first = round o now verdict positive fuel s low in
    let a = twice o now verdict positive fuel rounds s _ first (fits s.flushing) in
    (
      a.last,
      a.returned,
      a.buffer,
      a.idle,
      sym (append-nil (batched a.last.answered))
          ∙ ap (λ l. batched a.last.answered ++ l)
              (nothing_left a.last.flushing a.last.buffer a.idle a.buffer)
          ∙ a.kept,
    )
  where
    fits : (f : Flushing) → length (after_round o now verdict positive f s) + 2 < fuel
    fits no_flush = omega arith
    fits settling = low
    fits (writing _) = omega arith

    nothing_left :
        (f : Flushing) (buffer : List DecisionLogRecord)
        → f ≡ no_flush
        → buffer ≡ []
        → [] ≡ in_flight f ++ buffer
    nothing_left f buffer e h = sym (ap (λ g. in_flight g ++ buffer) e ∙ h)
