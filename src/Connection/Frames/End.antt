-- ===== src/Connection/Frames/End.antt =====
-- The end of the input, between two frames and inside one.
use libamqp.Prelude.{
  ℕ, suc, ◌+◌, ◌-◌, ◌<◌, ◌≡◌, inl, inr, refl, ◌∙◌, true, false, ◌&&◌, some, List, [], ◌∷◌, ◌++◌,
  arith, ltb, ◌==◌, Bool-cases, lt→ltb, ==→eq, length,
}
use libamqp.Prelude.Outcome.{returns}
use libamqp.Connection.Reader.{
  eof, failed, Socket, Ending, end_of, at_end, Reader, read_loop, finish_read, read_eof, Call,
  fail_reader, cleanup_reader, stop_reader, perform, is_partial_read, call_read_callback,
  read_what_is_buffered, continue_read, cleared,
}
use libamqp.Connection.Frames.{
  FrameReader, reading_frame_header, reading_frame_body, frame_read_done, amqp_connection_failed,
  more_frames, read_done_while_reading_frame_header, read_done_while_reading_frame_body,
}
use libamqp.Connection.Frames.Phase.{Phase, IsReading}
use libamqp.Connection.Frames.Phase.{header, body}

-- How the connection takes the end: between two frames it shuts down, inside one it fails.
pub data Takes (r : Reader) (f f' : FrameReader) : Type 0 where
  between : r.buffer ≡ [] → f'.shut ≡ true → f'.failed ≡ f.failed → Takes r f f'
  inside : 0 < length r.buffer → f'.failed ≡ true → f'.shut ≡ f.shut → Takes r f f'

abbrev pub Ended : ℕ → Socket → Reader → FrameReader → Type 0
Ended n s r f =
    (s' : Socket) × (r' : Reader) × (f' : FrameReader) × (more_frames n s r f
      ≡ returns (s', (r', f')))
    × (f'.frames ≡ f.frames)
    × (r'.read_eof_flag ≡ true)
    × Takes r f f'

length-zero : (x : List ℕ) → length x ≡ 0 → x ≡ []
length-zero [] e = refl
length-zero (y ∷ x) e = absurd (omega (arith, e))

-- The reader as the loop over `readv` leaves it at the end.
abbrev at_the_end : Reader → Reader
at_the_end r = record r { watching = false; buffer = r.buffer ++ []; satisfied = r.satisfied + 0 }

module _ (k : ℕ) (ending : Ending) (over : end_of ending ≡ at_end) (r : Reader) (f : FrameReader)
    (reads : IsReading f.max_frame_size r f) where
  abbrev s : Socket
  s = record { chunks = []; ending = ending }

  more_at_end :
      (m : Reader × FrameReader)
      → read_eof frame_read_done amqp_connection_failed (suc k) (at_the_end r, f) ≡ returns m
      → more_frames (suc k) s r f ≡ returns (s, m)
  unfolding more_frames continue_read read_what_is_buffered read_loop finish_read
  more_at_end m runs =
      let wants : ltb r.satisfied r.n_required ≡ true = lt→ltb _ _ reads.wants in
      ground (arith, reads.state, wants, over, runs)

  abbrev failed_reader : Reader
  failed_reader = record (cleanup_reader (record (at_the_end r) { read_eof_flag = true })) {
    state = failed;
    read_error_flag = true;
  }

  abbrev told_reader : Reader
  told_reader = cleared (record (at_the_end r) { read_eof_flag = true; state = eof })

  abbrev failed_frames : FrameReader
  failed_frames = record f { failed = true }

  partial_runs :
      0 < r.satisfied
      → read_eof frame_read_done amqp_connection_failed (suc k) (at_the_end r, f)
        ≡ returns (failed_reader, failed_frames)
  unfolding read_eof is_partial_read fail_reader perform stop_reader
  partial_runs some_read =
      let partial : (ltb 0 (r.satisfied + 0) && ltb (r.satisfied + 0) r.n_required) ≡ true =
        ground (arith, some_read, reads.wants) in
      rw partial refl

  told :
      (f' : FrameReader)
      → r.satisfied ≡ 0
      → frame_read_done f (some (r.buffer ++ [])) 0 ≡ returns (f', Call.stop ∷ [])
      → read_eof frame_read_done amqp_connection_failed (suc k) (at_the_end r, f)
        ≡ returns (told_reader, f')
  unfolding read_eof is_partial_read call_read_callback perform stop_reader
  told f' none_read calls =
      let whole : (ltb 0 (r.satisfied + 0) && ltb (r.satisfied + 0) r.n_required) ≡ false =
        ground (arith, none_read) in
      let amount : r.satisfied + 0 ≡ 0 = omega (arith, none_read) in
      rw whole (rw reads.queued (rw amount (rw calls refl)))

  failed_reader_eof : failed_reader.read_eof_flag ≡ true
  unfolding cleanup_reader
  failed_reader_eof = elim (Bool-cases r.watcher) [ inl e ↦ rw e refl | inr e ↦ rw e refl ]

  header_told :
      f.state ≡ reading_frame_header
      → frame_read_done f (some (r.buffer ++ [])) 0
        ≡ returns (record f { shut = true }, Call.stop ∷ [])
  unfolding frame_read_done read_done_while_reading_frame_header
  header_told e = ground (arith, e)

  body_told :
      f.state ≡ reading_frame_body
      → 0 < f.frame_size - 8
      → frame_read_done f (some (r.buffer ++ [])) 0 ≡ returns (failed_frames, Call.stop ∷ [])
  unfolding frame_read_done read_done_while_reading_frame_body
  body_told e some_left = ground (arith, e, some_left)

  -- A read that has begun fails.
  fails : 0 < r.satisfied → 0 < length r.buffer → Ended (suc k) s r f
  fails some_read some_bytes = (
    s,
    failed_reader,
    failed_frames,
    more_at_end (failed_reader, failed_frames) (partial_runs some_read),
    refl,
    failed_reader_eof,
    inside some_bytes refl refl,
  )

  -- The callback of a read that has not begun is told the end.
  is_told :
      (f' : FrameReader)
      → r.satisfied ≡ 0
      → frame_read_done f (some (r.buffer ++ [])) 0 ≡ returns (f', Call.stop ∷ [])
      → f'.frames ≡ f.frames
      → Takes r f f'
      → Ended (suc k) s r f
  is_told f' none_read calls same takes = (
    s,
    told_reader,
    f',
    more_at_end (told_reader, f') (told f' none_read calls),
    same,
    refl,
    takes,
  )

  ended : Phase f.max_frame_size r f → Ended (suc k) s r f
  ended (header e required count) = elim (Bool-cases (r.satisfied == 0)) [
    | inl none_read ↦
        let z = ==→eq r.satisfied 0 none_read in
        is_told (record f { shut = true }) z (header_told e) refl
          (between (length-zero r.buffer (count ∙ z)) refl refl)
    | inr some_read ↦
        let pos : 0 < r.satisfied = ground (arith, some_read) in
        fails pos (omega (arith, pos, count))
  ]
  ended (body size e stored sized valid required count) = elim (Bool-cases (r.satisfied == 0)) [
    | inl none_read ↦
        is_told failed_frames (==→eq r.satisfied 0 none_read)
          (body_told e (omega (arith, stored, required, reads.wants))) refl
          (inside (omega (arith, count)) refl refl)
    | inr some_read ↦ fails (ground (arith, some_read)) (omega (arith, count))
  ]

-- When nothing is left to read and `readv` reports the end of the input, or that the peer has reset
-- the connection, two readers with a read that is not complete, and with a maximal frame size of at
-- most 4097, return: no frame is added, the end is noted, and the connection shuts down if no byte
-- of a frame has come, and fails if one has.
pub more_frames-end :
    (k : ℕ) (ending : Ending) (r : Reader) (f : FrameReader)
    → end_of ending ≡ at_end
    → IsReading f.max_frame_size r f
    → Ended (suc k) (record { chunks = []; ending = ending }) r f
more_frames-end k ending r f over reads = ended k ending over r f reads reads.phase
