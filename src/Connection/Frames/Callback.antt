-- ===== src/Connection/Frames/Callback.antt =====
-- What the frame reader's callback does with a read that is complete.
use mathlib.Core.Path.{subst}
use libamqp.Prelude.{
  ℕ, ◌+◌, ◌≤◌, ◌<◌, ◌≡◌, inl, inr, refl, sym, ap, ◌∙◌, true, false, List, ◌∷◌, ◌++◌, arith, ◌==◌,
  Bool-cases, ==→eq, length, All,
}
use mathlib.Core.List.{append-nil}
use libamqp.Prelude.Outcome.{returns}
use libamqp.Connection.Reader.{read_buffer_capacity, reading, Reader, queue_read_operation}
use libamqp.Connection.Frames.{
  FrameReader, reading_frame_header, reading_frame_body, read_uint32, invalid_size, with_frame_size,
  with_frame_state,
}
use libamqp.Connection.Frames.Spec.{joined, ValidSize, IsFrame}
use libamqp.Connection.Frames.Branches.{
  gave_up, next_frame, next_body, delivered, Called, bad_header_runs, empty_frame_runs, header_runs,
  body_runs, gave_up_idle, gave_up_buffer,
}
use libamqp.Connection.Frames.Phase.{
  read_uint32-some, invalid_size-false, invalid_size-true, body, header, Phase, IsReading, IsCalled,
}

-- What a callback comes to.
abbrev pub CallComes : ℕ → Reader → FrameReader → Type 0
CallComes n r f = (r' : Reader) × (f' : FrameReader) × Called n r f r' f' × IsCalled r f r' f'

module _ (n : ℕ) (r : Reader) (f : FrameReader) (on : r.state ≡ reading) (queued : r.queued ≡ true)
    (small : f.max_frame_size ≤ read_buffer_capacity + 1) where
  next_frame-IsReading :
      (f' : FrameReader) (max : ℕ)
      → max ≤ read_buffer_capacity + 1
      → f'.state ≡ reading_frame_header
      → IsReading max (next_frame r) f'
  unfolding queue_read_operation
  next_frame-IsReading f' max fits e = record {
    small = fits;
    state = on;
    queued = refl;
    wants = omega arith;
    phase = header e refl refl;
  }

  next_body-IsReading :
      (f' : FrameReader) (max size : ℕ)
      → max ≤ read_buffer_capacity + 1
      → f'.state ≡ reading_frame_body
      → f'.frame_size ≡ size
      → read_uint32 r.buffer ≡ returns size
      → ValidSize max size
      → length r.buffer ≡ 8
      → 8 < size
      → IsReading max (next_body r size) f'
  unfolding queue_read_operation
  next_body-IsReading f' max size fits e stored sized valid eight more = record {
    small = fits;
    state = on;
    queued = refl;
    wants = omega (arith, more);
    phase = body size e stored sized valid refl (omega (arith, eight));
  }

  next_frame-stream :
      (x : List ℕ) → joined f.frames ++ x ++ (next_frame r).buffer ≡ joined f.frames ++ x
  unfolding queue_read_operation
  next_frame-stream x = append-nil (joined f.frames ++ x)

  next_body-buffer : (size : ℕ) → (next_body r size).buffer ≡ r.buffer
  unfolding queue_read_operation
  next_body-buffer size = refl

  -- A whole frame is handed on, and the next header is to be read.
  delivers :
      (f1 : FrameReader)
      → f1.max_frame_size ≡ f.max_frame_size
      → f1.frames ≡ f.frames
      → IsFrame f.max_frame_size r.buffer
      → Called n r f (next_frame r) (delivered f1 r.buffer)
      → All (IsFrame f.max_frame_size) f.frames
      → CallComes n r f
  delivers f1 same kept_frames frame runs whole = (
    next_frame r,
    delivered f1 r.buffer,
    runs,
    record {
      stream =
          ap (λ l. joined (r.buffer ∷ l) ++ (next_frame r).buffer) kept_frames
          ∙ next_frame-stream r.buffer;
      whole = (frame, subst (All (IsFrame f.max_frame_size)) (sym kept_frames) whole);
      kept = same;
      next = inl (next_frame-IsReading (delivered f1 r.buffer) f.max_frame_size small refl);
    },
  )

  -- A header of an invalid size: the frame reader gives up.
  bad_header_called :
      (size : ℕ)
      → f.state ≡ reading_frame_header
      → r.satisfied ≡ 8
      → length r.buffer ≡ 8
      → read_uint32 r.buffer ≡ returns size
      → invalid_size f size ≡ true
      → All (IsFrame f.max_frame_size) f.frames
      → CallComes n r f
  bad_header_called size e amount eight sized bad whole = (
    gave_up r,
    record f { frame_size = size; failed = true },
    bad_header_runs n r f on queued size e amount sized bad,
    record {
      stream = ap (λ l. joined f.frames ++ l) (gave_up_buffer n r f on queued);
      whole = whole;
      kept = refl;
      next = inr (record {
        idle = gave_up_idle n r f on queued;
        failed = refl;
        length_eight = ap (λ (l : List ℕ). length l) (gave_up_buffer n r f on queued) ∙ eight;
        bad = (
          size,
          ap read_uint32 (gave_up_buffer n r f on queued) ∙ sized,
          invalid_size-true f size bad,
        );
      });
    },
  )

  -- A header of a frame without a body: the frame is handed on.
  empty_frame_called :
      f.state ≡ reading_frame_header
      → r.satisfied ≡ 8
      → length r.buffer ≡ 8
      → read_uint32 r.buffer ≡ returns 8
      → invalid_size f 8 ≡ false
      → All (IsFrame f.max_frame_size) f.frames
      → CallComes n r f
  empty_frame_called e amount eight sized good whole =
      delivers (with_frame_size f 8) refl refl
        (record {
          sized = sized ∙ ap (λ n. returns n) (sym eight);
          valid = subst (ValidSize f.max_frame_size) (sym eight) (invalid_size-false f 8 good);
        })
        (empty_frame_runs n r f on queued e amount sized good) whole

  -- A header of a frame with a body: the body is to be read.
  header_called :
      (size : ℕ)
      → f.state ≡ reading_frame_header
      → r.satisfied ≡ 8
      → length r.buffer ≡ 8
      → read_uint32 r.buffer ≡ returns size
      → invalid_size f size ≡ false
      → (size == 8) ≡ false
      → All (IsFrame f.max_frame_size) f.frames
      → CallComes n r f
  header_called size e amount eight sized good more whole =
      let valid = invalid_size-false f size good in
      (
        next_body r size,
        with_frame_state (with_frame_size f size) reading_frame_body,
        header_runs n r f on queued size e amount sized good more,
        record {
          stream = ap (λ l. joined f.frames ++ l) (next_body-buffer size);
          whole = whole;
          kept = refl;
          next = inl (
              next_body-IsReading (with_frame_state (with_frame_size f size) reading_frame_body)
                f.max_frame_size size small refl refl sized valid eight
                (ground (arith, valid.0, more)));
        },
      )

  -- A read that is complete: the callback returns, no byte of the stream is lost, each frame that it
  -- has handed on is whole, and another read is queued or the frame reader has given up.
  pub callback_lem :
      r.satisfied ≡ r.n_required
      → Phase f.max_frame_size r f
      → All (IsFrame f.max_frame_size) f.frames
      → CallComes n r f
  callback_lem full (header e required count) whole =
      let amount : r.satisfied ≡ 8 = omega (arith, full, required) in
      let eight : length r.buffer ≡ 8 = omega (arith, count, amount) in
      let (size, sized) = read_uint32-some r.buffer (omega (arith, eight)) in
      elim (Bool-cases (invalid_size f size)) [
        | inl bad ↦ bad_header_called size e amount eight sized bad whole
        | inr good ↦ elim (Bool-cases (size == 8)) [
          | inl least ↦
              let size_eight = ==→eq size 8 least in
              empty_frame_called e amount eight
                (subst (λ n. read_uint32 r.buffer ≡ returns n) size_eight sized)
                (subst (λ n. invalid_size f n ≡ false) size_eight good) whole
          | inr more ↦ header_called size e amount eight sized good more whole
        ]
      ]
  callback_lem full (body size e stored sized valid required count) whole =
      let all_there : length r.buffer ≡ size = omega (arith, count, full, required, valid.0) in
      delivers f refl refl
        (record {
          sized = sized ∙ ap (λ n. returns n) (sym all_there);
          valid = subst (ValidSize f.max_frame_size) (sym all_there) valid;
        })
        (body_runs n r f on queued e (omega (arith, full, required, stored))) whole
