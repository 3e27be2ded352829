-- ===== src/Connection/Writer/Drain.antt =====
-- A writer whose socket goes on taking bytes, under an event loop that tells it so.
use libamqp.Prelude.{
  ℕ, zero, suc, ◌≤◌, ◌<◌, ◌≡◌, inl, inr, refl, ap, ◌∙◌, true, false, some, List, arith, length,
}
use libamqp.Prelude.Outcome.{returns, ◌>>=◌}
use libamqp.Connection.Writer.{
  WriterState, enabled, writing, stopping, Write, Writer, Written, all_taken, blocked,
  continue_write, stop, write_loop, continue_write_operation, finish_write, handle, step,
  after_loop, taken_off, with_writer_state,
}
use libamqp.Connection.Writer.Invariant.{write_loop_lem, IsBusy}
use libamqp.Connection.Writer.Controlled.{controlled-IsBusy}
use libamqp.Connection.Writer.Cleanup.{stopped_writer}
use libamqp.Connection.Writer.Rounds.{blocked-IsBusy, writing_taken_runs, stopping_taken_runs}
-- What the socket is going to take.
use libamqp.Connection.Writer.Taking.{
  capacity, unbroken, event_loop, event_loop_ends, write_loop-Goes, Drained, writing-Drained,
  stopping-Drained,
}

-- The two states in which a write is under way.
pub data Sends : WriterState → Type 0 where
  by_writing : Sends writing
  by_stopping : Sends stopping

module _ (socket : List Write) (w : Writer) where
  abbrev off : Writer
  off = record w { watching = false }

  -- A round that an event starts.
  event_runs :
      {s : WriterState} (bytes : List ℕ) (w' : Writer)
      → Sends s
      → w.state ≡ s
      → w.buffer_queue w.start ≡ some bytes
      → finish_write (after_loop off (write_loop socket bytes)) (write_loop socket bytes).how
        ≡ returns w'
      → step continue_write (socket, w) ≡ returns ((write_loop socket bytes).later, w')
  unfolding step handle continue_write_operation
  event_runs bytes w' by_writing at first runs =
      ap (λ s. handle s continue_write socket w) at ∙ rw first (rw runs refl)
  event_runs bytes w' by_stopping at first runs =
      ap (λ s. handle s continue_write socket w) at ∙ rw first (rw runs refl)

  loop_goes_on :
      (n : ℕ) (later : List Write) (w' : Writer)
      → w.watching ≡ true
      → step continue_write (socket, w) ≡ returns (later, w')
      → event_loop (suc n) (socket, w) ≡ event_loop n (later, w')
  unfolding event_loop
  loop_goes_on n later w' watching runs = ground (arith, watching, runs)

abbrev pub Drains : ℕ → WriterState → List Write → Writer → List ℕ → Type 0
Drains n s socket w given =
    (socket' : List Write) × (w' : Writer) × (event_loop n (socket, w) ≡ returns (socket', w'))
    × Drained s w.done_calls given w'

module _ (socket : List Write) (w : Writer) (given left : List ℕ) (busy : IsBusy w given left) where
  abbrev looped : Written
  looped = write_loop socket left

  off-IsBusy : IsBusy (off socket w) given left
  off-IsBusy =
      controlled-IsBusy w given left w.state w.watcher false w.stopped_callback w.done_calls busy

  -- All is taken in the round of an event.
  last_round :
      {s : WriterState} (n : ℕ)
      → Sends s
      → w.state ≡ s
      → w.watching ≡ true
      → looped.how ≡ all_taken
      → Drains (suc n) s socket w given
  last_round n by_writing at watching how =
      let w' = with_writer_state (taken_off (after_loop (off socket w) looped)) enabled in
      let ends =
        writing-Drained (off socket w) given left off-IsBusy looped (write_loop_lem socket left) how
          refl in
      let runs =
        writing_taken_runs (off socket w) given left off-IsBusy looped (write_loop_lem socket left)
          how at in
      (
        looped.later,
        w',
        loop_goes_on socket w n looped.later w' watching
              (event_runs socket w left w' by_writing at busy.first runs)
            ∙ event_loop_ends n looped.later w' ends.unwatched,
        ends,
      )
  last_round n by_stopping at watching how =
      let w' = stopped_writer (taken_off (after_loop (off socket w) looped)) in
      let ends =
        stopping-Drained (off socket w) given left off-IsBusy looped (write_loop_lem socket left)
          how in
      let runs =
        stopping_taken_runs (off socket w) given left off-IsBusy looped (write_loop_lem socket left)
          how at in
      (
        looped.later,
        w',
        loop_goes_on socket w n looped.later w' watching
              (event_runs socket w left w' by_stopping at busy.first runs)
            ∙ event_loop_ends n looped.later w' ends.unwatched,
        ends,
      )

  abbrev waiting_writer : Writer
  waiting_writer = record (after_loop (off socket w) looped) { watching = true }

  next_round :
      {s : WriterState} (n : ℕ)
      → Sends s
      → w.state ≡ s
      → w.watching ≡ true
      → looped.how ≡ blocked
      → Drains n s looped.later waiting_writer given
      → Drains (suc n) s socket w given
  unfolding finish_write
  next_round n sends at watching how (later, w', runs, ends) = (
    later,
    w',
    loop_goes_on socket w n looped.later waiting_writer watching
          (event_runs socket w left waiting_writer sends at busy.first (rw how refl))
        ∙ runs,
    ends,
  )

  waiting-IsBusy : IsBusy waiting_writer given looped.left
  waiting-IsBusy =
      blocked-IsBusy (off socket w) given left off-IsBusy looped (write_loop_lem socket left)

-- A socket that breaks off nowhere and has room for what is left.
pub drain_lem :
    (n : ℕ) (s : WriterState) (socket : List Write) (w : Writer) (given left : List ℕ)
    → Sends s
    → w.state ≡ s
    → w.watching ≡ true
    → IsBusy w given left
    → unbroken socket ≡ true
    → length left ≤ capacity socket
    → length socket < n
    → Drains n s socket w given
drain_lem zero s socket w given left sends at watching busy safe room enough = absurd (omega arith)
drain_lem (suc n) s socket w given left sends at watching busy safe room enough =
    let goes = write_loop-Goes socket left safe room in
    elim goes.how [
      | inl how ↦ last_round socket w given left busy n sends at watching how
      | inr (how, shorter) ↦ next_round socket w given left busy n sends at watching how (
          drain_lem n s (looped socket w given left busy).later
            (waiting_writer socket w given left busy) given (looped socket w given left busy).left
            sends at refl (waiting-IsBusy socket w given left busy) goes.unbroken goes.room
            (omega arith))
    ]

-- A stop while a write is under way.
pub stop_drains :
    (n : ℕ) (socket : List Write) (w : Writer) (given left : List ℕ)
    → w.state ≡ writing
    → w.watching ≡ true
    → IsBusy w given left
    → unbroken socket ≡ true
    → length left ≤ capacity socket
    → length socket < n
    → (socket' : List Write) × (w' : Writer) × (step stop (socket, w) >>= event_loop n
        ≡ returns (socket', w'))
      × Drained stopping w.done_calls given w'
unfolding step handle
stop_drains n socket w given left at watching busy safe room enough =
    let w0 = record w { stopped_callback = true; state = stopping } in
    let busy0 =
      controlled-IsBusy w given left stopping w.watcher w.watching true w.done_calls busy in
    let (later, w', runs, ends) =
      drain_lem n stopping socket w0 given left by_stopping refl watching busy0 safe room enough in
    (later, w', ap (λ s. handle s stop socket w >>= event_loop n) at ∙ runs, ends)
