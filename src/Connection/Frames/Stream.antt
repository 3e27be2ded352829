-- ===== src/Connection/Frames/Stream.antt =====
-- The frames of a stream: the reader and the frame reader together, from one event to the next.
use mathlib.Core.Path.{subst}
use libamqp.Prelude.{
  ℕ, zero, suc, ◌<◌, ◌≡◌, refl, sym, ap, ◌∙◌, Bool, ◌++◌, arith, if◌then◌else◌, length, All,
}
use libamqp.Prelude.Outcome.{returns}
use libamqp.Connection.Reader.{
  ReaderState, reading, enabled, Socket, Reader, read_what_is_buffered, delayed_read, with_state,
  then_delayed,
}
use libamqp.Connection.Frames.{FrameReader, frame_read_done, amqp_connection_failed}
use libamqp.Connection.Frames.Spec.{joined, IsFrame, concat}
use libamqp.Connection.Frames.Phase.{IsReading, IsBroken}
use libamqp.Connection.Frames.OneRead.{
  stream_of, IsOpen, IsMoved, Ends, goes_on, breaks, waits, read_lem,
}
use libamqp.Connection.Frames.Round.{
  IsBroken-enabled, Comes, loop_from, Comes-moved, Comes-eq, broken_loop, after_read, loop_step,
  broken, waiting,
}

-- With more rounds than bytes the loop over queued reads comes to rest.
delayed_loop_lem :
    (n : ℕ) (s : Socket) (r : Reader) (f : FrameReader)
    → IsReading f.max_frame_size r f
    → IsOpen s
    → All (IsFrame f.max_frame_size) f.frames
    → length (concat s.chunks) < n
    → Comes (loop_from (suc (suc n)) s r f) s r f
delayed_loop_lem zero s r f reads open_socket whole bound = absurd (omega arith)
delayed_loop_lem (suc n) s r f reads open_socket whole bound =
    let (flag, s1, r1, f1, runs, moved, ends) = read_lem (suc n) s r f reads open_socket whole in
    Comes-eq (if flag then loop_from (suc (suc n)) s1 r1 f1 else returns (s1, (r1, f1)))
      (loop_from (suc (suc (suc n))) s r f) s r f
      (loop_step (suc (suc n)) s r f flag s1 r1 f1 reads.state reads.queued runs)
      (after_read (suc n) s r f s1 r1 f1
        (λ shorter on.
          delayed_loop_lem n s1 r1 f1 (subst (λ max. IsReading max r1 f1) (sym moved.kept) on)
            moved.still_open
            (subst (λ max. All (IsFrame max) f1.frames) (sym moved.kept) moved.whole)
            (omega (arith, shorter, bound)))
        moved ends)

-- A frame reader that has given up does nothing more; its reader is enabled again if it was reading.
IsBroken-delayed_read :
    (n max : ℕ) (s : Socket) (r : Reader) (f : FrameReader) (state : ReaderState)
    → r.state ≡ state
    → IsBroken max r f
    → (r' : Reader) × (delayed_read frame_read_done amqp_connection_failed (suc n) s (r, f)
        ≡ returns (s, (r', f)))
      × (joined f.frames ++ (r'.buffer ++ concat s.chunks) ≡ stream_of s r f)
      × IsBroken max r' f
unfolding delayed_read
IsBroken-delayed_read n max s r f reading e b = (
  with_state r enabled,
  ground (arith, e, broken_loop n max s r f b),
  refl,
  IsBroken-enabled max r f b,
)
IsBroken-delayed_read n max s r f _ e b = (r, ground (arith, e), refl, b)

delayed_read-reading :
    (n : ℕ) (s : Socket) (r : Reader) (f : FrameReader)
    → r.state ≡ reading
    → delayed_read frame_read_done amqp_connection_failed n s (r, f) ≡ loop_from n s r f
unfolding delayed_read
delayed_read-reading n s r f e = ground (arith, e)

-- What follows the first read of an event.
after_first :
    (n : ℕ) (s : Socket) (r : Reader) (f : FrameReader) {flag : Bool} (s1 : Socket) (r1 : Reader)
    (f1 : FrameReader)
    → length (concat s.chunks) < n
    → IsMoved s r f s1 r1 f1
    → Ends f.max_frame_size s s1 r1 f1 flag
    → Comes
        (if flag
          then delayed_read frame_read_done amqp_connection_failed (suc (suc n)) s1 (r1, f1)
          else returns (s1, (r1, f1)))
        s
        r
        f
after_first n s r f s1 r1 f1 bound moved (goes_on shorter reads) =
    Comes-eq (loop_from (suc (suc n)) s1 r1 f1)
      (delayed_read frame_read_done amqp_connection_failed (suc (suc n)) s1 (r1, f1)) s r f
      (delayed_read-reading (suc (suc n)) s1 r1 f1 reads.state)
      (Comes-moved (loop_from (suc (suc n)) s1 r1 f1) s s1 r r1 f f1 moved (
        delayed_loop_lem n s1 r1 f1 (subst (λ max. IsReading max r1 f1) (sym moved.kept) reads)
          moved.still_open (subst (λ max. All (IsFrame max) f1.frames) (sym moved.kept) moved.whole)
          (omega (arith, shorter, bound))))
after_first n s r f s1 r1 f1 bound moved (breaks b) =
    let (r2, runs, same, still) =
      IsBroken-delayed_read (suc n) f.max_frame_size s1 r1 f1 r1.state refl b in
    (
      s1,
      r2,
      f1,
      runs,
      record {
        stream = same ∙ moved.stream;
        whole = moved.whole;
        kept = moved.kept;
        still_open = moved.still_open;
      },
      broken still,
    )
after_first n s r f s1 r1 f1 bound moved (waits w) = (s1, r1, f1, refl, moved, waiting w)

pub then_delayed_lem :
    (n : ℕ) (s : Socket) (r : Reader) (f : FrameReader)
    → IsReading f.max_frame_size r f
    → IsOpen s
    → All (IsFrame f.max_frame_size) f.frames
    → length (concat s.chunks) < n
    → Comes
        (then_delayed frame_read_done amqp_connection_failed
          (suc (suc n))
          (read_what_is_buffered frame_read_done amqp_connection_failed (suc (suc n)) s (r, f)))
        s
        r
        f
then_delayed_lem n s r f reads open_socket whole bound =
    let (flag, s1, r1, f1, runs, moved, ends) = read_lem (suc n) s r f reads open_socket whole in
    Comes-eq
      (if flag
        then delayed_read frame_read_done amqp_connection_failed (suc (suc n)) s1 (r1, f1)
        else returns (s1, (r1, f1)))
      (then_delayed frame_read_done amqp_connection_failed (suc (suc n))
        (read_what_is_buffered frame_read_done amqp_connection_failed (suc (suc n)) s (r, f)))
      s r f (ap (then_delayed frame_read_done amqp_connection_failed (suc (suc n))) runs)
      (after_first n s r f s1 r1 f1 bound moved ends)
