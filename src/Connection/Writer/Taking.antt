-- ===== src/Connection/Writer/Taking.antt =====
-- What a socket goes on taking, the event loop, and the end of a write.
use libamqp.Prelude.{
  ℕ, zero, suc, ◌+◌, ◌≤◌, ◌<◌, ◌≡◌, ◌⊎◌, inl, inr, refl, ◌∙◌, Bool, true, false, none, List, [],
  ◌∷◌, ◌++◌, arith, Bool-cases, length, drop, length-drop,
}
use mathlib.Core.List.{append-nil}
use libamqp.Prelude.Outcome.{Outcome, returns, ◌>>=◌}
use libamqp.Connection.Writer.{
  WriterState, enabled, writing, stopping, stopped, Write, takes, would_block, breaks, Writer,
  Written, all_taken, blocked, continue_write, write_loop, writer_cleanup, cleanup_resources,
  cleanup_write_watcher, step, after_loop, taken_off, with_writer_state,
}
use libamqp.Connection.Writer.Invariant.{Splits, IsBusy}
use libamqp.Connection.Writer.Cleanup.{stopped_writer, writer_cleanup-IsOver, writer_cleanup_state}
use libamqp.Connection.Writer.Rounds.{taken_queue, taken_written}

unfoldable pub capacity : List Write → ℕ
capacity [] = 0
capacity (takes n ∷ socket) = n + capacity socket
capacity (_ ∷ socket) = capacity socket

unfoldable pub unbroken : List Write → Bool
unbroken [] = true
unbroken (breaks _ ∷ socket) = false
unbroken (_ ∷ socket) = unbroken socket

-- The loop calls the writer as long as its watcher is started.
unfoldable pub event_loop : ℕ → List Write × Writer → Outcome (List Write × Writer)
event_loop zero m = returns m
event_loop (suc n) (socket, w) = elim w.watching [
  | true ↦ step continue_write (socket, w) >>= event_loop n
  | false ↦ returns (socket, w)
]

pub event_loop_ends :
    (n : ℕ) (socket : List Write) (w : Writer)
    → w.watching ≡ false
    → event_loop n (socket, w) ≡ returns (socket, w)
unfolding event_loop
event_loop_ends zero socket w e = refl
event_loop_ends (suc n) socket w e = ground (arith, e)

-- What is left of a socket with room for the bytes after the loop over it.
pub record Goes (socket : List Write) (l : Written) : Type 0 where
  pub unbroken : unbroken l.later ≡ true
  pub room : length l.left ≤ capacity l.later
  pub how : (l.how ≡ all_taken) ⊎ ((l.how ≡ blocked) × (length l.later < length socket))

pub write_loop-Goes :
    (socket : List Write) (bytes : List ℕ)
    → unbroken socket ≡ true
    → length bytes ≤ capacity socket
    → Goes socket (write_loop socket bytes)
unfolding write_loop unbroken capacity
write_loop-Goes [] [] e room = record { unbroken = e; room = omega arith; how = inl refl }
write_loop-Goes (x ∷ socket) [] e room = record { unbroken = e; room = omega arith; how = inl refl }
write_loop-Goes [] (b ∷ bs) e room = absurd (omega arith)
write_loop-Goes (takes n ∷ socket) (b ∷ bs) e room =
    let fits : length (drop n (b ∷ bs)) ≤ capacity socket =
      omega (arith, length-drop n (b ∷ bs), room) in
    let rest = write_loop-Goes socket (drop n (b ∷ bs)) e fits in
    record {
      unbroken = rest.unbroken;
      room = rest.room;
      how = elim rest.how [ inl h ↦ inl h | inr (h, shorter) ↦ inr (h, omega arith) ];
    }
write_loop-Goes (would_block ∷ socket) (b ∷ bs) e room = record {
  unbroken = e;
  room = room;
  how = inr (refl, omega arith);
}
write_loop-Goes (breaks c ∷ socket) (b ∷ bs) e room = absurd (cc (e))

-- What the writer comes to when all has been written: as before the write, or stopped, with its
-- callback called.
pub data Rests : WriterState → ℕ → Writer → Type 0 where
  enabled_again :
      {calls : ℕ} {w : Writer} → w.state ≡ enabled → w.done_calls ≡ calls → Rests writing calls w
  at_stop :
      {calls : ℕ} {w : Writer}
      → w.state ≡ stopped
      → w.done_calls ≡ calls + 1
      → Rests stopping calls w

pub record Drained (s : WriterState) (calls : ℕ) (given : List ℕ) (w : Writer) : Type 0 where
  pub all_written : w.written ≡ given
  pub queue : (i : ℕ) → w.buffer_queue i ≡ none
  pub unwatched : w.watching ≡ false
  pub rests : Rests s calls w

stopped_writer_fields :
    (w : Writer)
    → ((stopped_writer w).written ≡ w.written)
      × ((stopped_writer w).watching ≡ false)
      × ((stopped_writer w).done_calls ≡ w.done_calls + 1)
unfolding writer_cleanup cleanup_resources cleanup_write_watcher
stopped_writer_fields w = elim (Bool-cases w.watcher) [
  | inl e ↦ (rw e refl, rw e refl, rw e refl)
  | inr e ↦ (rw e refl, rw e refl, rw e refl)
]

module _ (w : Writer) (given bytes : List ℕ) (busy : IsBusy w given bytes) (l : Written)
    (splits : Splits bytes l) where
  pub writing-Drained :
      l.how ≡ all_taken
      → w.watching ≡ false
      → Drained writing w.done_calls given (with_writer_state (taken_off (after_loop w l)) enabled)
  writing-Drained how off = record {
    all_written = taken_written w given bytes busy l splits (splits.whole how);
    queue = taken_queue w given bytes busy l splits (splits.whole how);
    unwatched = off;
    rests = enabled_again refl refl;
  }

  pub stopping-Drained :
      l.how ≡ all_taken
      → Drained stopping w.done_calls given (stopped_writer (taken_off (after_loop w l)))
  stopping-Drained how =
      let (same, off, called) = stopped_writer_fields (taken_off (after_loop w l)) in
      record {
        all_written = same ∙ taken_written w given bytes busy l splits (splits.whole how);
        queue =
            (writer_cleanup-IsOver (record (taken_off (after_loop w l)) { stopped_callback = true })
              given
              (
                [],
                append-nil (w.written ++ l.sent)
                    ∙ taken_written w given bytes busy l splits (splits.whole how),
              )).queue;
        unwatched = off;
        rests =
            at_stop
              (writer_cleanup_state
                (record (taken_off (after_loop w l)) { stopped_callback = true }))
              called;
      }
