-- ===== src/Connection/Writer/Served.antt =====
-- Each request that a state serves.
use libamqp.Prelude.{ℕ, ◌+◌, ◌≡◌, inl, inr, refl, ap, ◌∙◌, true, false, none, some, List, [], ◌++◌}
use mathlib.Core.List.{append-nil}
use libamqp.Prelude.Outcome.{returns}
use libamqp.Connection.Writer.{
  WriterState, initialized, enabled, writing, stopping, stopped, failed, Write, Writer, Request,
  enable, continue_write, stop, abort, write, commence_write_operation, writer_cleanup,
  call_done_callback, enable_while_initialized, stop_while_initialized, handle, step,
  with_writer_state, confirm, only,
}
use libamqp.Connection.Writer.Invariant.{
  IsBusy, IsWriter, is_initialized, is_enabled, is_writing, is_stopping, is_stopped, is_failed,
  is_served,
}
use libamqp.Connection.Writer.Rounds.{queued_writer, queued-IsBusy, round_lem}
use libamqp.Connection.Writer.Cleanup.{
  Serves, stopped_writer, stopped_writer-IsWriter, writer_stop_runs, writer_cleanup-IsOver,
  writer_cleanup_state,
}
use libamqp.Connection.Writer.Controlled.{
  prefix_of, controlled-IsIdle, controlled-IsBusy, controlled-IsOver, idle-IsOver,
}

module _ (socket : List Write) (w : Writer) (given : List ℕ) where
  refused :
      {A : Type 0} (s : WriterState) (q : Request)
      → w.state ≡ s
      → is_served s q ≡ false
      → is_served w.state q ≡ true
      → A
  refused s q at out served = absurd (cc (at, out, served))

  pub enable_lem :
      IsWriter w given → is_served w.state enable ≡ true → Serves (step enable (socket, w)) given
  unfolding step handle is_served enable_while_initialized
  enable_lem (is_initialized at unwatched idle) e = (
    socket,
    record w { watcher = true; state = enabled },
    rw (at, unwatched) refl,
    is_enabled refl refl
        (controlled-IsIdle w given enabled true w.watching w.stopped_callback w.done_calls idle),
  )
  enable_lem (is_enabled at _ _) e = refused enabled enable at refl e
  enable_lem (is_writing _ at _ _) e = refused writing enable at refl e
  enable_lem (is_stopping _ at _ _ _) e = refused stopping enable at refl e
  enable_lem (is_stopped at _) e = refused stopped enable at refl e
  enable_lem (is_failed at _) e = refused failed enable at refl e

  pub write_null_lem :
      IsWriter w given
      → is_served w.state (write none) ≡ true
      → Serves (step (write none) (socket, w)) given
  unfolding step handle is_served
  write_null_lem fine e = (socket, w, at_rest w.state refl, fine)
    where
      at_rest :
          (s : WriterState)
          → w.state ≡ s
          → handle w.state (write none) socket w ≡ returns (socket, w)
      at_rest enabled at = rw at refl
      at_rest writing at = rw at refl
      at_rest initialized at = refused initialized (write none) at refl e
      at_rest stopping at = refused stopping (write none) at refl e
      at_rest stopped at = refused stopped (write none) at refl e
      at_rest failed at = refused failed (write none) at refl e

  pub write_lem :
      (bytes : List ℕ)
      → IsWriter w given
      → is_served w.state (write (some bytes)) ≡ true
      → Serves (step (write (some bytes)) (socket, w)) (given ++ bytes)
  unfolding step handle is_served commence_write_operation
  write_lem bytes (is_enabled at watched idle) e =
      let (later, w', runs, fine) =
        round_lem socket (queued_writer w bytes) (given ++ bytes) bytes
          (queued-IsBusy w given bytes idle) (inl (refl, watched)) in
      (later, w', ap (λ s. handle s (write (some bytes)) socket w) at ∙ runs, fine)
  write_lem bytes (is_initialized at _ _) e = refused initialized (write (some bytes)) at refl e
  write_lem bytes (is_writing _ at _ _) e = refused writing (write (some bytes)) at refl e
  write_lem bytes (is_stopping _ at _ _ _) e = refused stopping (write (some bytes)) at refl e
  write_lem bytes (is_stopped at _) e = refused stopped (write (some bytes)) at refl e
  write_lem bytes (is_failed at _) e = refused failed (write (some bytes)) at refl e

  abbrev not_watched : Writer
  not_watched = record w { watching = false }

  not_watched-IsBusy : (left : List ℕ) → IsBusy w given left → IsBusy not_watched given left
  not_watched-IsBusy left busy =
      controlled-IsBusy w given left w.state w.watcher false w.stopped_callback w.done_calls busy

  pub continue_lem :
      IsWriter w given
      → is_served w.state continue_write ≡ true
      → Serves (step continue_write (socket, w)) given
  unfolding step handle is_served
  continue_lem (is_enabled at watched idle) e = (
    socket,
    not_watched,
    rw at refl,
    is_enabled at watched
        (controlled-IsIdle w given w.state w.watcher false w.stopped_callback w.done_calls idle),
  )
  continue_lem (is_writing left at watched busy) e =
      let (later, w', runs, fine) =
        round_lem socket not_watched given left (not_watched-IsBusy left busy)
          (inl (at, watched)) in
      (later, w', ap (λ s. handle s continue_write socket w) at ∙ runs, fine)
  continue_lem (is_stopping left at watched called busy) e =
      let (later, w', runs, fine) =
        round_lem socket not_watched given left (not_watched-IsBusy left busy)
          (inr (at, watched, called)) in
      (later, w', ap (λ s. handle s continue_write socket w) at ∙ runs, fine)
  continue_lem (is_initialized at _ _) e = refused initialized continue_write at refl e
  continue_lem (is_stopped at _) e = refused stopped continue_write at refl e
  continue_lem (is_failed at _) e = refused failed continue_write at refl e

  -- In a state where the default action of `stop` is left, the callback is called at once.
  confirmed_lem :
      (s : WriterState)
      → w.state ≡ s
      → handle s stop socket w ≡ returns (socket, confirm w)
      → IsWriter (confirm w) given
      → Serves (step stop (socket, w)) given
  unfolding step
  confirmed_lem s at runs fine =
      (socket, confirm w, ap (λ s. handle s stop socket w) at ∙ runs, fine)

  pub stop_lem : IsWriter w given → Serves (step stop (socket, w)) given
  unfolding step handle stop_while_initialized call_done_callback
  stop_lem (is_initialized at unwatched idle) = (
    socket,
    confirm (with_writer_state (record w { stopped_callback = false }) stopped),
    ap (λ s. handle s stop socket w) at,
    is_stopped refl (
        controlled-IsOver w given stopped w.watcher w.watching false (w.done_calls + 1)
          (idle-IsOver w given idle)),
  )
  stop_lem (is_enabled at watched idle) = (
    socket,
    stopped_writer w,
    ap (λ s. handle s stop socket w) at ∙ ap (only socket) (writer_stop_runs w),
    stopped_writer-IsWriter w given ([], append-nil w.written ∙ idle.all_written),
  )
  stop_lem (is_writing left at watched busy) = (
    socket,
    record w { stopped_callback = true; state = stopping },
    ap (λ s. handle s stop socket w) at,
    is_stopping left refl watched refl
        (controlled-IsBusy w given left stopping w.watcher w.watching true w.done_calls busy),
  )
  stop_lem (is_stopping left at watched called busy) = confirmed_lem stopping at refl (
      is_stopping left at watched called (
        controlled-IsBusy w given left w.state w.watcher w.watching w.stopped_callback
          (w.done_calls + 1) busy))
  stop_lem (is_stopped at over) = confirmed_lem stopped at refl (
      is_stopped at (
        controlled-IsOver w given w.state w.watcher w.watching w.stopped_callback (w.done_calls + 1)
          over))
  stop_lem (is_failed at over) = confirmed_lem failed at refl (
      is_failed at (
        controlled-IsOver w given w.state w.watcher w.watching w.stopped_callback (w.done_calls + 1)
          over))

  cleaned_up :
      (s : WriterState)
      → w.state ≡ s
      → handle s abort socket w ≡ returns (socket, writer_cleanup w)
      → IsWriter w given
      → Serves (step abort (socket, w)) given
  unfolding step
  cleaned_up s at runs fine = (
    socket,
    writer_cleanup w,
    ap (λ s. handle s abort socket w) at ∙ runs,
    is_stopped (writer_cleanup_state w) (writer_cleanup-IsOver w given (prefix_of w given fine)),
  )

  pub abort_lem : IsWriter w given → Serves (step abort (socket, w)) given
  unfolding step handle
  abort_lem (is_initialized at unwatched idle) = (
    socket,
    with_writer_state w stopped,
    ap (λ s. handle s abort socket w) at,
    is_stopped refl (
        controlled-IsOver w given stopped w.watcher w.watching w.stopped_callback w.done_calls
          (idle-IsOver w given idle)),
  )
  abort_lem (is_enabled at watched idle) = cleaned_up enabled at refl (is_enabled at watched idle)
  abort_lem (is_writing left at watched busy) =
      cleaned_up writing at refl (is_writing left at watched busy)
  abort_lem (is_stopping left at watched called busy) =
      cleaned_up stopping at refl (is_stopping left at watched called busy)
  abort_lem (is_stopped at over) =
      (socket, w, ap (λ s. handle s abort socket w) at, is_stopped at over)
  abort_lem (is_failed at over) =
      (socket, w, ap (λ s. handle s abort socket w) at, is_failed at over)
