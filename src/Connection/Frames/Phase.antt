-- ===== src/Connection/Frames/Phase.antt =====
-- Where the two readers stand in a frame, and what a callback is to come to.
use libamqp.Prelude.{
  ℕ, ◌+◌, ◌-◌, ◌*◌, ◌≤◌, ◌<◌, ◌≡◌, ◌⊎◌, refl, true, false, List, [], ◌∷◌, ◌++◌, arith, length, All,
}
use libamqp.Prelude.Outcome.{returns}
use libamqp.Connection.Reader.{reading, Reader, read_buffer_capacity}
use libamqp.Connection.Frames.{
  FrameReader, reading_frame_header, reading_frame_body, read_uint32, invalid_size,
}
use libamqp.Connection.Frames.Spec.{joined, ValidSize, IsFrame}

-- Where the frame reader stands: in a header, or behind one of a valid size.
pub data Phase (max : ℕ) (r : Reader) (f : FrameReader) : Type 0 where
  header :
      f.state ≡ reading_frame_header
      → r.n_required ≡ 8
      → length r.buffer ≡ r.satisfied
      → Phase max r f
  body :
      (n : ℕ)
      → f.state ≡ reading_frame_body
      → f.frame_size ≡ n
      → read_uint32 r.buffer ≡ returns n
      → ValidSize max n
      → r.n_required ≡ n - 8
      → length r.buffer ≡ r.satisfied + 8
      → Phase max r f

-- A read is queued, and is not complete; every frame that is admitted fits the buffer.
pub record IsReading (max : ℕ) (r : Reader) (f : FrameReader) : Type 0 where
  pub state : r.state ≡ reading
  pub queued : r.queued ≡ true
  pub wants : r.satisfied < r.n_required
  pub phase : Phase max r f
  pub small : max ≤ read_buffer_capacity + 1

-- The frame reader has given up at a header of an invalid size.
pub record IsBroken (max : ℕ) (r : Reader) (f : FrameReader) : Type 0 where
  pub idle : r.queued ≡ false
  pub failed : f.failed ≡ true
  pub length_eight : length r.buffer ≡ 8
  pub bad : (n : ℕ) × (read_uint32 r.buffer ≡ returns n) × (¬ (ValidSize max n))

pub record IsCalled (r : Reader) (f : FrameReader) (r' : Reader) (f' : FrameReader) : Type 0 where
  pub stream : joined f'.frames ++ r'.buffer ≡ joined f.frames ++ r.buffer
  pub whole : All (IsFrame f.max_frame_size) f'.frames
  pub kept : f'.max_frame_size ≡ f.max_frame_size
  pub next : IsReading f.max_frame_size r' f' ⊎ IsBroken f.max_frame_size r' f'

pub read_uint32-some : (x : List ℕ) → 4 ≤ length x → (n : ℕ) × (read_uint32 x ≡ returns n)
unfolding read_uint32
read_uint32-some [] h = absurd (omega arith)
read_uint32-some (a ∷ []) h = absurd (omega arith)
read_uint32-some (a ∷ b ∷ []) h = absurd (omega arith)
read_uint32-some (a ∷ b ∷ c ∷ []) h = absurd (omega arith)
read_uint32-some (a ∷ b ∷ c ∷ d ∷ x) h = (((a * 256 + b) * 256 + c) * 256 + d, refl)

pub read_uint32-append :
    (x y : List ℕ) (n : ℕ) → read_uint32 x ≡ returns n → read_uint32 (x ++ y) ≡ returns n
unfolding read_uint32
read_uint32-append [] y n e = absurd (cc (e))
read_uint32-append (a ∷ []) y n e = absurd (cc (e))
read_uint32-append (a ∷ b ∷ []) y n e = absurd (cc (e))
read_uint32-append (a ∷ b ∷ c ∷ []) y n e = absurd (cc (e))
read_uint32-append (a ∷ b ∷ c ∷ d ∷ x) y n e = e

pub invalid_size-false :
    (f : FrameReader) (n : ℕ) → invalid_size f n ≡ false → ValidSize f.max_frame_size n
unfolding invalid_size
invalid_size-false f n e = ground (arith, e)

pub invalid_size-true :
    (f : FrameReader) (n : ℕ) → invalid_size f n ≡ true → ¬ (ValidSize f.max_frame_size n)
unfolding invalid_size
invalid_size-true f n e v = ground (arith, e, v.0, v.1, v.2)
