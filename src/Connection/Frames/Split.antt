-- ===== src/Connection/Frames/Split.antt =====
-- The stream that a connection reads, cut into its frames, however its bytes come.
use mathlib.Core.Path.{subst}
use libamqp.Prelude.{
  ℕ, suc, ◌+◌, ◌≤◌, ◌<◌, ◌≡◌, refl, sym, ap, ◌∙◌, false, List, [], ◌++◌, arith, length,
  length-append, All,
}
use mathlib.Core.List.{append_assoc, append-nil}
use libamqp.Prelude.Outcome.{returns}
use libamqp.Connection.Reader.{
  reading, enabled, Socket, read_buffer_capacity, Reader, commence_read_while_enabled,
  continue_read, queue_read_operation, with_state, then_delayed, read_what_is_buffered,
}
use libamqp.Connection.Frames.{
  FrameState, FrameReader, reading_frame_header, frame_read_done, amqp_connection_failed,
  read_frame, start_frames, more_frames, from_outside, with_frame_state,
}
use libamqp.Connection.Frames.Spec.{joined, IsFrame, concat, Rest, no_header, no_body, bad_header}
use libamqp.Connection.Frames.Phase.{Phase, IsReading}
use libamqp.Connection.Frames.Phase.{header, body, read_uint32-append}
use libamqp.Connection.Frames.OneRead.{IsOpen, IsMoved, IsWaiting, stream_of}
use libamqp.Connection.Frames.Stream.{then_delayed_lem}
use libamqp.Connection.Frames.Round.{Rests}
use libamqp.Connection.Frames.Round.{waiting, broken}

-- Bytes cut into whole frames, the last one first, and a rest that no frame begins.
pub record IsSplit (max : ℕ) (bytes : List ℕ) (frames : List (List ℕ)) (rest : List ℕ)
    : Type 0 where
  pub joins : joined frames ++ rest ≡ bytes
  pub whole : All (IsFrame max) frames
  pub behind : Rest max rest

waiting-Rest :
    (max : ℕ) (r : Reader) (f : FrameReader)
    → r.satisfied < r.n_required
    → Phase max r f
    → Rest max r.buffer
waiting-Rest max r f wants (header e required count) =
    no_header (omega (arith, wants, required, count))
waiting-Rest max r f wants (body n e stored sized valid required count) =
    no_body n (omega (arith, count)) sized valid (omega (arith, wants, required, count, valid.0))

Rests-Rest :
    (max : ℕ) (s : Socket) (r : Reader) (f : FrameReader)
    → Rests max s r f
    → Rest max (r.buffer ++ concat s.chunks)
Rests-Rest max s r f (waiting w) =
    let none_left : r.buffer ++ concat s.chunks ≡ r.buffer =
      ap (λ c. r.buffer ++ concat c) w.all_read ∙ append-nil r.buffer in
    subst (Rest max) (sym none_left) (waiting-Rest max r f w.reads.wants w.reads.phase)
Rests-Rest max s r f (broken b) =
    let (n, sized, invalid) = b.bad in
    bad_header n (omega (arith, length-append r.buffer (concat s.chunks), b.length_eight))
      (read_uint32-append r.buffer (concat s.chunks) n sized) invalid

-- The two readers have come to rest with the stream cut into frames.
pub record IsSettled (max : ℕ) (bytes : List ℕ) (s : Socket) (r : Reader) (f : FrameReader)
    : Type 0 where
  pub split : IsSplit max bytes f.frames (r.buffer ++ concat s.chunks)
  pub rests : Rests max s r f
  pub kept : f.max_frame_size ≡ max

settle :
    (bytes : List ℕ) (s : Socket) (r : Reader) (f : FrameReader) (s' : Socket) (r' : Reader)
    (f' : FrameReader)
    → stream_of s r f ≡ bytes
    → IsMoved s r f s' r' f'
    → Rests f.max_frame_size s' r' f'
    → IsSettled f.max_frame_size bytes s' r' f'
settle bytes s r f s' r' f' same moved rests = record {
  split = record {
    joins = moved.stream ∙ same;
    whole = moved.whole;
    behind = Rests-Rest f.max_frame_size s' r' f' rests;
  };
  rests = rests;
  kept = moved.kept;
}

abbrev first_reader : Reader → Reader
first_reader r = queue_read_operation (with_state (record r { buffer = [] }) reading) 8

abbrev first_frame_reader : FrameReader → FrameReader
first_frame_reader f = with_frame_state f reading_frame_header

start_runs :
    (n : ℕ) (s : Socket) (r : Reader) (f : FrameReader)
    → r.state ≡ enabled
    → f.state ≡ FrameState.enabled
    → start_frames n s r f
      ≡ then_delayed frame_read_done amqp_connection_failed n (
          read_what_is_buffered frame_read_done amqp_connection_failed n s
            (first_reader r, first_frame_reader f))
unfolding start_frames from_outside read_frame commence_read_while_enabled
start_runs n s r f on e = ground (arith, on, e)

first-IsReading :
    (max : ℕ) (r : Reader) (f : FrameReader)
    → max ≤ read_buffer_capacity + 1
    → IsReading max (first_reader r) (first_frame_reader f)
unfolding queue_read_operation
first-IsReading max r f small = record {
  small = small;
  state = refl;
  queued = refl;
  wants = omega arith;
  phase = header refl refl refl;
}

first_buffer : (r : Reader) → (first_reader r).buffer ≡ []
unfolding queue_read_operation
first_buffer r = refl

-- A frame reader that is enabled and has no frame yet, on an enabled reader, reads what is there,
-- in pieces that are not empty, `readv` then reporting `EAGAIN`, with two more rounds than bytes at
-- the least and a maximal frame size of at most 4097, so that a frame fits the read buffer: no
-- `assert` fails, it comes to rest, and the frames that it has handed on and the bytes behind them
-- are the stream, cut into whole frames and a rest that no frame begins.
pub start_frames_lem :
    (n : ℕ) (s : Socket) (r : Reader) (f : FrameReader)
    → r.state ≡ enabled
    → f.state ≡ FrameState.enabled
    → f.frames ≡ []
    → f.max_frame_size ≤ read_buffer_capacity + 1
    → IsOpen s
    → length (concat s.chunks) < n
    → (s' : Socket) × (r' : Reader) × (f' : FrameReader) × (start_frames (suc (suc n)) s r f
        ≡ returns (s', (r', f')))
      × IsSettled f.max_frame_size (concat s.chunks) s' r' f'
start_frames_lem n s r f on e no_frames small open_socket bound =
    let (s', r', f', runs, moved, rests) =
      then_delayed_lem n s (first_reader r) (first_frame_reader f)
        (first-IsReading f.max_frame_size r f small) open_socket
        (subst (All (IsFrame f.max_frame_size)) (sym no_frames) tt) bound in
    (
      s',
      r',
      f',
      start_runs (suc (suc n)) s r f on e ∙ runs,
      settle (concat s.chunks) s (first_reader r) (first_frame_reader f) s' r' f'
          (ap (λ b. joined f.frames ++ (b ++ concat s.chunks)) (first_buffer r)
            ∙ ap (λ l. joined l ++ concat s.chunks) no_frames)
          moved rests,
    )

more_runs :
    (n : ℕ) (s : Socket) (r : Reader) (f : FrameReader)
    → r.state ≡ reading
    → more_frames n s r f
      ≡ then_delayed frame_read_done amqp_connection_failed n (
          read_what_is_buffered frame_read_done amqp_connection_failed n s
            (record r { watching = false }, f))
unfolding more_frames continue_read
more_runs n s r f on = ground (arith, on)

unwatched :
    (max : ℕ) (r : Reader) (f : FrameReader)
    → Phase max r f
    → Phase max (record r { watching = false }) f
unwatched max r f (header e required count) = header e required count
unwatched max r f (body n e stored sized valid required count) =
    body n e stored sized valid required count

-- Once more bytes have come, two readers that wait behind a stream, with a maximal frame size of at
-- most 4097, go on and come to rest behind the longer stream, again cut into whole frames and a
-- rest that no frame begins. The pieces are not empty, `readv` then reports `EAGAIN`, and there are
-- two more rounds than new bytes at the least.
pub more_frames_lem :
    (n : ℕ) (bytes : List ℕ) (before s : Socket) (r : Reader) (f : FrameReader)
    → IsSettled f.max_frame_size bytes before r f
    → IsWaiting f.max_frame_size before r f
    → IsOpen s
    → length (concat s.chunks) < n
    → (s' : Socket) × (r' : Reader) × (f' : FrameReader) × (more_frames (suc (suc n)) s r f
        ≡ returns (s', (r', f')))
      × IsSettled f.max_frame_size (bytes ++ concat s.chunks) s' r' f'
more_frames_lem n bytes before s r f settled w open_socket bound =
    let quiet = record r { watching = false } in
    let (s', r', f', runs, moved, rests) =
      then_delayed_lem n s quiet f
        (record {
          state = w.reads.state;
          queued = w.reads.queued;
          wants = w.reads.wants;
          small = w.reads.small;
          phase = unwatched f.max_frame_size r f w.reads.phase;
        })
        open_socket settled.split.whole bound in
    let old : joined f.frames ++ r.buffer ≡ bytes =
      ap (λ l. joined f.frames ++ l)
        (sym (ap (λ c. r.buffer ++ concat c) w.all_read ∙ append-nil r.buffer))
      ∙ settled.split.joins in
    (
      s',
      r',
      f',
      more_runs (suc (suc n)) s r f w.reads.state ∙ runs,
      settle (bytes ++ concat s.chunks) s quiet f s' r' f'
          (sym (append_assoc (joined f.frames) r.buffer (concat s.chunks))
            ∙ ap (λ l. l ++ concat s.chunks) old)
          moved rests,
    )
