-- ===== src/Connection/Writer/Rounds.antt =====
-- One round of writing, which `continue_write_operation` does.
use libamqp.Prelude.{
  ℕ, ◌+◌, ◌%◌, ◌<◌, ◌≡◌, ◌⊎◌, inl, inr, refl, sym, ap, ◌∙◌, true, none, some, List, [], ◌++◌, arith,
  ◌==◌, Bool-cases, if_true, if_false, update, ==-false,
}
use mathlib.Core.List.{append_assoc, append-nil}
use libamqp.Prelude.Outcome.{returns}
use libamqp.Connection.Writer.{
  enabled, writing, stopping, Write, Writer, Written, WriteEnd, all_taken, blocked, broken,
  write_loop, continue_write_operation, finish_write, write_complete, fail_write, writer_fail,
  increment_queue_index, after_loop, taken_off, with_writer_state,
}
use libamqp.Connection.Writer.Invariant.{
  Splits, write_loop_lem, IsIdle, IsBusy, IsWriter, is_enabled, is_writing, is_stopping, is_failed,
}
use libamqp.Connection.Writer.Cleanup.{
  writer_fail-IsOver, writer_fail_state, stopped_writer, writer_stop_runs, stopped_writer-IsWriter,
  Serves, write_complete_stopping,
}

module _ (w : Writer) (given bytes : List ℕ) (busy : IsBusy w given bytes) (l : Written)
    (splits : Splits bytes l) where
  sent_in_order : (w.written ++ l.sent) ++ l.left ≡ given
  sent_in_order =
      append_assoc w.written l.sent l.left ∙ ap (λ l. w.written ++ l) splits.parts ∙ busy.in_order

  pub blocked-IsBusy : IsBusy (record (after_loop w l) { watching = true }) given l.left
  blocked-IsBusy = record {
    one = busy.one;
    in_range = busy.in_range;
    first = if_true _ self;
    others = λ i n. if_false _ (==-false w.start i (λ e. n (sym e))) ∙ busy.others i n;
    in_order = sent_in_order;
  }
    where
      self : (w.start == w.start) ≡ true
      self = ground arith

  module _ (done : l.left ≡ []) where
    pub taken_queue : (i : ℕ) → (taken_off (after_loop w l)).buffer_queue i ≡ none
    taken_queue i = elim (Bool-cases (w.start == i)) [
      | inl e ↦ if_true _ e
      | inr n ↦ if_false _ n ∙ if_false _ n ∙ busy.others i (λ e. ground (arith, n, e))
    ]

    pub taken_written : w.written ++ l.sent ≡ given
    taken_written =
        sym (append-nil (w.written ++ l.sent))
        ∙ ap (λ r. (w.written ++ l.sent) ++ r) (sym done)
        ∙ sent_in_order

    taken_end : (taken_off (after_loop w l)).start ≡ w.end
    unfolding increment_queue_index
    taken_end = sym busy.one

    taken_range : (taken_off (after_loop w l)).start < 3
    unfolding increment_queue_index
    taken_range = omega arith

    pub taken-IsIdle : IsIdle (with_writer_state (taken_off (after_loop w l)) enabled) given
    taken-IsIdle = record {
      empty = taken_end;
      in_range = taken_range;
      queue = taken_queue;
      all_written = taken_written;
    }

  abbrev Finishes : Type 0
  Finishes = (w' : Writer) × (finish_write (after_loop w l) l.how ≡ returns w') × IsWriter w' given

  finishes_blocked :
      l.how ≡ blocked → IsWriter (record (after_loop w l) { watching = true }) given → Finishes
  unfolding finish_write
  finishes_blocked how fine = (record (after_loop w l) { watching = true }, rw how refl, fine)

  finishes_broken : l.how ≡ broken → (w.state ≡ writing) ⊎ (w.state ≡ stopping) → Finishes
  unfolding finish_write fail_write
  finishes_broken how at = (
    writer_fail (after_loop w l),
    rw how (ground (arith, at)),
    is_failed (writer_fail_state (after_loop w l))
        (writer_fail-IsOver (after_loop w l) given (l.left, sent_in_order)),
  )

  at_end : l.left ≡ [] → ((taken_off (after_loop w l)).start == w.end) ≡ true
  at_end done = ground (arith, taken_end done)

  pub writing_taken_runs :
      l.how ≡ all_taken
      → w.state ≡ writing
      → finish_write (after_loop w l) l.how
        ≡ returns (with_writer_state (taken_off (after_loop w l)) enabled)
  unfolding finish_write write_complete
  writing_taken_runs how at = rw how (rw at (ap returns (if_true _ (at_end (splits.whole how)))))

  pub stopping_taken_runs :
      l.how ≡ all_taken
      → w.state ≡ stopping
      → finish_write (after_loop w l) l.how ≡ returns (stopped_writer (taken_off (after_loop w l)))
  unfolding finish_write
  stopping_taken_runs how at = rw how (
      write_complete_stopping (taken_off (after_loop w l)) at (at_end (splits.whole how))
      ∙ writer_stop_runs (taken_off (after_loop w l)))

  writing_taken : l.how ≡ all_taken → w.state ≡ writing → w.watcher ≡ true → Finishes
  writing_taken how at watched = (
    with_writer_state (taken_off (after_loop w l)) enabled,
    writing_taken_runs how at,
    is_enabled refl watched (taken-IsIdle (splits.whole how)),
  )

  stopping_taken : l.how ≡ all_taken → w.state ≡ stopping → Finishes
  stopping_taken how at = (
    stopped_writer (taken_off (after_loop w l)),
    stopping_taken_runs how at,
    stopped_writer-IsWriter (taken_off (after_loop w l)) given
        ([], append-nil (w.written ++ l.sent) ∙ taken_written (splits.whole how)),
  )

  finishes_writing : (h : WriteEnd) → l.how ≡ h → w.state ≡ writing → w.watcher ≡ true → Finishes
  finishes_writing all_taken how at watched = writing_taken how at watched
  finishes_writing blocked how at watched =
      finishes_blocked how (is_writing l.left at watched blocked-IsBusy)
  finishes_writing broken how at watched = finishes_broken how (inl at)

  finishes_stopping :
      (h : WriteEnd)
      → l.how ≡ h
      → w.state ≡ stopping
      → w.watcher ≡ true
      → w.stopped_callback ≡ true
      → Finishes
  finishes_stopping all_taken how at watched called = stopping_taken how at
  finishes_stopping blocked how at watched called =
      finishes_blocked how (is_stopping l.left at watched called blocked-IsBusy)
  finishes_stopping broken how at watched called = finishes_broken how (inr at)

-- A round of writing, while writing or stopping.
pub round_lem :
    (socket : List Write) (w : Writer) (given bytes : List ℕ)
    → IsBusy w given bytes
    → ((w.state ≡ writing) × (w.watcher ≡ true))
      ⊎ ((w.state ≡ stopping) × (w.watcher ≡ true) × (w.stopped_callback ≡ true))
    → Serves (continue_write_operation socket w) given
unfolding continue_write_operation
round_lem socket w given bytes busy at =
    let l = write_loop socket bytes in
    let splits = write_loop_lem socket bytes in
    let (w', runs, fine) : Finishes w given bytes busy l splits = elim at [
      | inl (e, watched) ↦ finishes_writing w given bytes busy l splits l.how refl e watched
      | inr (e, watched, called) ↦
          finishes_stopping w given bytes busy l splits l.how refl e watched called
    ] in
    (l.later, w', rw (busy.first, continue_write_operation) (rw runs refl), fine)

-- The buffer that is put at the end of an empty queue.
abbrev pub queued_writer : Writer → List ℕ → Writer
queued_writer w bytes = record w {
  state = writing;
  end = increment_queue_index w.end;
  buffer_queue = update w.buffer_queue w.end (some bytes);
}

pub queued-IsBusy :
    (w : Writer) (given bytes : List ℕ)
    → IsIdle w given
    → IsBusy (queued_writer w bytes) (given ++ bytes) bytes
unfolding increment_queue_index
queued-IsBusy w given bytes idle = record {
  one = ap (λ n. (n + 1) % 3) (sym idle.empty);
  in_range = idle.in_range;
  first = if_true _ at_end;
  others = λ i n. if_false _ (==-false w.end i (λ e. n (sym (idle.empty ∙ e)))) ∙ idle.queue i;
  in_order = ap (λ l. l ++ bytes) idle.all_written;
}
  where
    at_end : (w.end == w.start) ≡ true
    at_end = ground (arith, idle.empty)
