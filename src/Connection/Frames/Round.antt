-- ===== src/Connection/Frames/Round.antt =====
-- One round of the loop over reads, and where it may come to rest.
use mathlib.Core.Path.{subst}
use libamqp.Prelude.{
  ℕ, suc, ◌<◌, ◌≡◌, refl, sym, ap, ◌∙◌, Bool, true, if◌then◌else◌, if_true, if_false, length, All,
}
use libamqp.Prelude.Outcome.{returns, ◌>>=◌}
use libamqp.Connection.Reader.{
  reading, enabled, Socket, Reader, read_what_is_buffered, delayed_loop, with_state,
}
use libamqp.Connection.Frames.{FrameReader, frame_read_done, amqp_connection_failed, Reading}
use libamqp.Connection.Frames.Spec.{IsFrame, concat}
use libamqp.Connection.Frames.Phase.{IsReading, IsBroken}
use libamqp.Connection.Frames.OneRead.{Reads, IsMoved, IsWaiting, Ends, goes_on, breaks, waits}

-- Where the two readers are when they come to rest.
pub data Rests (max : ℕ) (s : Socket) (r : Reader) (f : FrameReader) : Type 0 where
  waiting : IsWaiting max s r f → Rests max s r f
  broken : IsBroken max r f → Rests max s r f

same_state : (r : Reader) → r.state ≡ reading → with_state r reading ≡ r
same_state r e = ap (with_state r) (sym e)

pub IsBroken-enabled :
    (max : ℕ) (r : Reader) (f : FrameReader)
    → IsBroken max r f
    → IsBroken max (with_state r enabled) f
IsBroken-enabled max r f b = record {
  idle = b.idle;
  failed = b.failed;
  length_eight = b.length_eight;
  bad = b.bad;
}

IsMoved-trans :
    {s s1 s2 : Socket} {r r1 r2 : Reader} {f f1 f2 : FrameReader}
    → IsMoved s r f s1 r1 f1
    → IsMoved s1 r1 f1 s2 r2 f2
    → IsMoved s r f s2 r2 f2
IsMoved-trans {f2 = f2} a b = record {
  stream = b.stream ∙ a.stream;
  whole = subst (λ max. All (IsFrame max) f2.frames) a.kept b.whole;
  kept = b.kept ∙ a.kept;
  still_open = b.still_open;
}

IsMoved-enabled :
    (s : Socket) (r : Reader) (f : FrameReader) (s1 : Socket) (r1 : Reader) (f1 : FrameReader)
    → IsMoved s r f s1 r1 f1
    → IsMoved s r f s1 (with_state r1 enabled) f1
IsMoved-enabled s r f s1 r1 f1 a = record {
  stream = a.stream;
  whole = a.whole;
  kept = a.kept;
  still_open = a.still_open;
}

-- What a run is to come to.
abbrev pub Comes : Reading → Socket → Reader → FrameReader → Type 0
Comes run s r f =
    (s' : Socket) × (r' : Reader) × (f' : FrameReader) × (run ≡ returns (s', (r', f')))
    × IsMoved s r f s' r' f'
    × Rests f.max_frame_size s' r' f'

abbrev pub loop_from : ℕ → Socket → Reader → FrameReader → Reading
loop_from n s r f = delayed_loop frame_read_done amqp_connection_failed n s (r, f)

pub Comes-moved :
    (run : Reading) (s s1 : Socket) (r r1 : Reader) (f f1 : FrameReader)
    → IsMoved s r f s1 r1 f1
    → Comes run s1 r1 f1
    → Comes run s r f
Comes-moved run s s1 r r1 f f1 moved (s2, r2, f2, runs, more, rests) =
    (s2, r2, f2, runs, IsMoved-trans moved more, subst (λ max. Rests max s2 r2 f2) moved.kept rests)

pub Comes-eq :
    (run run' : Reading) (s : Socket) (r : Reader) (f : FrameReader)
    → run' ≡ run
    → Comes run s r f
    → Comes run' s r f
Comes-eq run run' s r f e (s2, r2, f2, runs, more, rests) = (s2, r2, f2, e ∙ runs, more, rests)

pub broken_loop :
    (n max : ℕ) (s : Socket) (r : Reader) (f : FrameReader)
    → IsBroken max r f
    → loop_from (suc n) s r f ≡ returns (s, (with_state r enabled, f))
unfolding delayed_loop
broken_loop n max s r f b = if_false _ b.idle

-- What follows a read in the loop.
pub after_read :
    (n : ℕ) (s : Socket) (r : Reader) (f : FrameReader) {flag : Bool} (s1 : Socket) (r1 : Reader)
    (f1 : FrameReader)
    → (length (concat s1.chunks) < length (concat s.chunks)
        → IsReading f.max_frame_size r1 f1
        → Comes (loop_from (suc n) s1 r1 f1) s1 r1 f1)
    → IsMoved s r f s1 r1 f1
    → Ends f.max_frame_size s s1 r1 f1 flag
    → Comes (if flag then loop_from (suc n) s1 r1 f1 else returns (s1, (r1, f1))) s r f
after_read n s r f s1 r1 f1 once_more moved (goes_on shorter reads) =
    Comes-moved (loop_from (suc n) s1 r1 f1) s s1 r r1 f f1 moved (once_more shorter reads)
after_read n s r f s1 r1 f1 once_more moved (breaks b) = (
  s1,
  with_state r1 enabled,
  f1,
  broken_loop n f.max_frame_size s1 r1 f1 b,
  IsMoved-enabled s r f s1 r1 f1 moved,
  broken (IsBroken-enabled f.max_frame_size r1 f1 b),
)
after_read n s r f s1 r1 f1 once_more moved (waits w) = (s1, r1, f1, refl, moved, waiting w)

pub loop_step :
    (n : ℕ) (s : Socket) (r : Reader) (f : FrameReader) (flag : Bool) (s1 : Socket) (r1 : Reader)
    (f1 : FrameReader)
    → r.state ≡ reading
    → r.queued ≡ true
    → Reads n s r f flag s1 r1 f1
    → loop_from (suc n) s r f ≡ (if flag then loop_from n s1 r1 f1 else returns (s1, (r1, f1)))
unfolding delayed_loop
loop_step n s r f flag s1 r1 f1 state queued runs =
    if_true _ queued
    ∙ (ap
          (λ r. read_what_is_buffered frame_read_done amqp_connection_failed n s (r, f) >>= λ d.
            if d.0
            then delayed_loop frame_read_done amqp_connection_failed n d.1 d.2
            else returns (d.1, d.2))
          (same_state r state)
        ∙ rw runs refl)
