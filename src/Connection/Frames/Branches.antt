-- ===== src/Connection/Frames/Branches.antt =====
-- Each branch of the frame reader's callback, run to its end.
use libamqp.Prelude.{ℕ, suc, ◌-◌, ◌≡◌, true, false, List, [], ◌∷◌, arith, ◌==◌}
use libamqp.Prelude.Outcome.{returns}
use libamqp.Connection.Reader.{
  reading, Reader, call_read_callback, perform, cleared, queue_read_operation, stop_reader,
  reader_stop, cleanup_reader,
}
use libamqp.Connection.Frames.{
  FrameReader, reading_frame_header, reading_frame_body, read_uint32, frame_read_done,
  amqp_connection_failed, read_done_while_reading_frame_header, read_done_while_reading_frame_body,
  frame_available, read_frame, invalid_size, with_frame_size, with_frame_state,
}

-- The three things that a callback may do to the two readers.
abbrev pub gave_up : Reader → Reader
gave_up r = stop_reader r.state (cleared r)

abbrev pub next_frame : Reader → Reader
next_frame r = queue_read_operation (record (cleared r) { buffer = [] }) 8

abbrev pub next_body : Reader → ℕ → Reader
next_body r n = queue_read_operation (cleared r) (n - 8)

abbrev pub delivered : FrameReader → List ℕ → FrameReader
delivered f x = record f { state = reading_frame_header; frames = x ∷ f.frames }

abbrev pub Called : ℕ → Reader → FrameReader → Reader → FrameReader → Type 0
Called n r f r' f' =
    call_read_callback frame_read_done amqp_connection_failed (suc n) (r, f) ≡ returns (r', f')

module _ (n : ℕ) (r : Reader) (f : FrameReader) (on : r.state ≡ reading)
    (queued : r.queued ≡ true) where
  pub bad_header_runs :
      (size : ℕ)
      → f.state ≡ reading_frame_header
      → r.satisfied ≡ 8
      → read_uint32 r.buffer ≡ returns size
      → invalid_size f size ≡ true
      → Called n r f (gave_up r) (record f { frame_size = size; failed = true })
  unfolding call_read_callback perform frame_read_done read_done_while_reading_frame_header
      invalid_size
  bad_header_runs size e amount sized bad = ground (arith, on, queued, e, amount, sized, bad)

  pub empty_frame_runs :
      f.state ≡ reading_frame_header
      → r.satisfied ≡ 8
      → read_uint32 r.buffer ≡ returns 8
      → invalid_size f 8 ≡ false
      → Called n r f (next_frame r) (delivered (with_frame_size f 8) r.buffer)
  unfolding call_read_callback perform frame_read_done read_done_while_reading_frame_header
      frame_available read_frame invalid_size
  empty_frame_runs e amount sized good = ground (arith, on, queued, e, amount, sized, good)

  pub header_runs :
      (size : ℕ)
      → f.state ≡ reading_frame_header
      → r.satisfied ≡ 8
      → read_uint32 r.buffer ≡ returns size
      → invalid_size f size ≡ false
      → (size == 8) ≡ false
      → Called n r f
          (next_body r size)
          (with_frame_state (with_frame_size f size) reading_frame_body)
  unfolding call_read_callback perform frame_read_done read_done_while_reading_frame_header
      invalid_size
  header_runs size e amount sized good more =
      ground (arith, on, queued, e, amount, sized, good, more)

  pub body_runs :
      f.state ≡ reading_frame_body
      → r.satisfied ≡ f.frame_size - 8
      → Called n r f (next_frame r) (delivered f r.buffer)
  unfolding call_read_callback perform frame_read_done read_done_while_reading_frame_body
      frame_available read_frame
  body_runs e amount = ground (arith, on, queued, e, amount)

  pub gave_up_idle : (gave_up r).queued ≡ false
  unfolding stop_reader reader_stop cleanup_reader
  gave_up_idle = ground (arith, on)

  pub gave_up_buffer : (gave_up r).buffer ≡ r.buffer
  unfolding stop_reader reader_stop cleanup_reader
  gave_up_buffer = ground (arith, on)
