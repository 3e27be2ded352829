-- ===== src/Connection/Transfer/Tests.antt =====
-- Two frames that a writer sends and the other side reads.
use libamqp.Prelude.{ℕ, ◌≡◌, refl, true, Option, none, some, List, [], ◌∷◌, arith, update, drop}
use libamqp.Prelude.Outcome.{returns}
use libamqp.Connection.Reader.{Socket, again, Reader}
use libamqp.Connection.Frames.{FrameReader, read_uint32, start_frames}
use libamqp.Connection.Frames.Spec.{concat}
use libamqp.Connection.Writer.{
  WriterState, Write, takes, would_block, Writer, Request, enable, continue_write, write, run, step,
  handle, enable_while_initialized, commence_write_operation, continue_write_operation,
  finish_write, write_loop, write_complete, increment_queue_index,
}
use libamqp.Connection.Writer.Invariant.{is_initialized}
use libamqp.Connection.Writer.Controlled.{given_by}
use libamqp.Connection.Writer.Requests.{all_given}
use libamqp.Connection.Transfer.{transfer_lem, Arrives}
use libamqp.Connection.Samples.{new_writer, reader, frame_reader}

abbrev empty_frame : List ℕ
empty_frame = 0 ∷ 0 ∷ 0 ∷ 8 ∷ 2 ∷ 0 ∷ 0 ∷ 0 ∷ []

abbrev small_frame : List ℕ
small_frame = 0 ∷ 0 ∷ 0 ∷ 10 ∷ 2 ∷ 0 ∷ 0 ∷ 0 ∷ 7 ∷ 8 ∷ []

abbrev frames : List (List ℕ)
frames = empty_frame ∷ small_frame ∷ []

abbrev requests : List Request
requests = enable ∷ write (some empty_frame) ∷ write (some small_frame) ∷ continue_write ∷ []

abbrev out : List Write
out = takes 20 ∷ takes 4 ∷ would_block ∷ takes 6 ∷ []

-- The first frame goes out at once and leaves the first place of the queue, the second one in two
-- rounds.
abbrev place : ℕ → List (List ℕ) → (ℕ → Option (List ℕ)) → ℕ → Option (List ℕ)
place i [] queue = update queue i none
place i (bytes ∷ later) queue = place i later (update queue i (some bytes))

abbrev sent : Writer
sent = record new_writer {
  state = WriterState.enabled;
  watcher = true;
  buffer_queue =
      place 1 (small_frame ∷ drop 4 small_frame ∷ [] ∷ [])
        (place 0 (empty_frame ∷ [] ∷ []) (λ _. none));
  start = 2;
  end = 2;
  written = concat frames;
}

abbrev arriving : Socket
arriving = record {
  chunks = (0 ∷ 0 ∷ 0 ∷ []) ∷ drop 3 empty_frame ∷ small_frame ∷ [];
  ending = again;
}

transfer_lem_example :
    (s' : Socket) × (r' : Reader) × (f' : FrameReader) × (start_frames 30 arriving reader
        frame_reader
      ≡ returns (s', (r', f')))
    × Arrives f' sent frames
unfolding all_given given_by run step handle enable_while_initialized commence_write_operation
    continue_write_operation finish_write write_loop write_complete increment_queue_index
    read_uint32
transfer_lem_example =
    transfer_lem requests out [] new_writer sent 28 arriving reader frame_reader frames
      (is_initialized refl refl
        (record { empty = refl; in_range = omega arith; queue = λ i. refl; all_written = refl }))
      refl refl
      (
        record { sized = refl; valid = omega arith },
        (record { sized = refl; valid = omega arith }, tt),
      )
      refl refl refl refl (omega arith) (record { ending = refl; pieces = omega arith })
      (omega arith)
