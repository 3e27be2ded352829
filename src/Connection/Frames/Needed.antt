-- ===== src/Connection/Frames/Needed.antt =====
-- The read of a frame that fits the buffer: the `assert`s hold, and as many bytes are asked for as are
-- missing.
use libamqp.Prelude.{
  ℕ, ◌+◌, ◌-◌, ◌^◌, ◌≤◌, ◌<◌, ◌≡◌, ap, ◌∙◌, Bool, true, ◌&&◌, ltb, leb, length, arith,
}
use libamqp.Prelude.Outcome.{Outcome, assert, ◌>>=◌}
use libamqp.Connection.Reader.{
  Socket, Reader, read_needed, read_what_is_buffered, needed_by, read_buffer_capacity,
}
use libamqp.Connection.Frames.{FrameReader, frame_read_done, amqp_connection_failed}
use libamqp.Connection.Frames.Phase.{Phase, IsReading}
use libamqp.Connection.Frames.Phase.{header, body}

fits :
    (max : ℕ) (r : Reader) (f : FrameReader)
    → r.satisfied < r.n_required
    → max ≤ read_buffer_capacity + 1
    → Phase max r f
    → length r.buffer + (r.n_required - r.satisfied) ≤ read_buffer_capacity
fits max r f wants small (header e required count) = omega (arith, wants, required, count)
fits max r f wants small (body n e stored sized valid required count) =
    omega (arith, wants, required, count, valid.0, valid.1, small)

needed_lem :
    (r : Reader)
    → r.satisfied < r.n_required
    → r.n_required < r.satisfied + 2 ^ 31
    → needed_by r ≡ r.n_required - r.satisfied
needed_lem r wants few = omega (arith, wants, few)

-- Two `assert`s that hold.
if_both_true :
    {A : Type 0} (a b : Bool) (step : Outcome A)
    → a ≡ true
    → b ≡ true
    → (assert a >>= λ _. assert b >>= λ _. step) ≡ step
if_both_true a b step e d =
    ap (λ a. assert a >>= λ _. assert b >>= λ _. step) e ∙ ap (λ b. assert b >>= λ _. step) d

pub read_needed_lem :
    (max n : ℕ) (s : Socket) (r : Reader) (f : FrameReader)
    → IsReading max r f
    → read_what_is_buffered frame_read_done amqp_connection_failed n s (r, f)
      ≡ read_needed frame_read_done amqp_connection_failed (r.n_required - r.satisfied) n s (r, f)
unfolding read_what_is_buffered
read_needed_lem max n s r f reads =
    let room = fits max r f reads.wants reads.small reads.phase in
    let same = needed_lem r reads.wants (omega (arith, room)) in
    ap
      (λ k. assert (ltb 0 k && ltb k (2 ^ 31)) >>= λ _.
        assert (leb (length r.buffer + k) read_buffer_capacity) >>= λ _.
        read_needed frame_read_done amqp_connection_failed k n s (r, f))
      same
    ∙ if_both_true (ltb 0 (r.n_required - r.satisfied) && ltb (r.n_required - r.satisfied) (2 ^ 31))
        (leb (length r.buffer + (r.n_required - r.satisfied)) read_buffer_capacity) _
        (ground (arith, reads.wants, room)) (ground (arith, room))
