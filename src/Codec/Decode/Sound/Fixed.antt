-- ===== src/Codec/Decode/Sound/Fixed.antt =====
-- The decoders for types of fixed width keep to what a decoder may do.
use libamqp.Prelude.{
  ℕ, zero, suc, ◌+◌, ◌%◌, ◌^◌, ◌≤◌, ◌≡◌, ◌≢◌, ◌⊎◌, inl, inr, refl, Bool, true, false, ◌&&◌, not,
  some, List, [], ◌∷◌, arith, leb, if◌then◌else◌,
}
use libamqp.Buffer
use libamqp.Buffer.{check_available, advance_read_index, unchecked_getc_at}
use libamqp.Buffer.Words.{ntoh_16, ntoh_32, ntoh_64}
use libamqp.Codec.MetaData.{MetaData}
use libamqp.Codec.State.{
  AmqpType, State, M, pure, ◌>>◌, invalid_of, type_is_invalid, write_type, with_b1, with_b2,
  with_b4,
}
use libamqp.Codec.State.Hoare.{
  Ensures, Ensures-if, Ensures-mono, Extends, Extends-refl, Extends-write, Extends-read,
  Extends-trans, keep_bind,
}
use libamqp.Codec.Errors.{error_buffer_would_overrun, error_invalid_utf32_character}
use libamqp.Codec.Decode.Fixed
use libamqp.Codec.Decode.Fixed.{
  decode_error, set_position, fixed_zero_width, boolean_true, boolean_false, fixed_width,
  read_fixed, store_fixed, copy_uuid, Switch, stored, no_case, outside, put_type, then_store,
  store_if, uint0, ulong0, small_uint, small_int, small_ulong, small_long, decode_char,
}

-- Flagged invalid, with a cause.
abbrev pub Marked : AmqpType → Type 0
Marked x = (x.invalid_cause ≢ 0) × (type_is_invalid x ≡ true)

-- What a decoder leaves behind: a failure marks the object.
abbrev pub Decoded : ℕ → State → Bool → State → Type 0
Decoded p s rc t = Extends p s t × (rc ≡ false → Marked (t.types p))

abbrev pub InBounds : State → Type 0
InBounds s = s.buffer.index ≤ s.buffer.size

pub invalid_of-Marked : (x : AmqpType) (cause : ℕ) → cause ≢ 0 → Marked (invalid_of x cause)
unfolding invalid_of type_is_invalid
invalid_of-Marked x cause h = ground arith

pub decode_error-Extends :
    (p code : ℕ) (s : State)
    → InBounds s
    → code ≢ 0
    → Ensures (decode_error p code s) (λ _ t. Extends p s t × Marked (t.types p))
decode_error-Extends p code s h c = (
  Extends-write p s (invalid_of (s.types p) code) h,
  ground (arith, invalid_of-Marked (s.types p) code c),
)

pub set_position-Extends :
    (p size : ℕ) (s : State)
    → InBounds s
    → Ensures (set_position p size s) (λ _ t.
      Extends p s t
      × (t
          ≡ write_type s p
              (record (s.types p) { position_index = s.buffer.index; position_size = size })))
unfolding set_position
set_position-Extends p size s h = (Extends-write p s _ h, refl)

pub fixed_zero_width-Decoded :
    (p : ℕ) (s : State) → InBounds s → Ensures (fixed_zero_width p s) (Decoded p s)
unfolding fixed_zero_width
fixed_zero_width-Decoded p s h = (Extends-write p s _ h, λ e. cc)

store_if-Decoded :
    (p : ℕ) (f : ℕ → ℕ) (rc : Bool) (t : State)
    → InBounds t
    → (rc ≡ false → Marked (t.types p))
    → Ensures (store_if p f rc t) (Decoded p t)
store_if-Decoded p f true t h k = (Extends-write p t _ h, λ q. cc)
store_if-Decoded p f false t h k = (Extends-refl p t h, k)

-- One more write to the object after a success.
pub then_store-Decoded :
    (m : M Bool) (p : ℕ) (f : ℕ → ℕ) (s : State)
    → Ensures (m s) (Decoded p s)
    → Ensures (then_store m p f s) (Decoded p s)
then_store-Decoded m p f s h =
    keep_bind m (store_if p f) p s (λ rc t. rc ≡ false → Marked (t.types p))
      (λ rc t. rc ≡ false → Marked (t.types p)) h
      (λ rc t e k. store_if-Decoded p f rc t e.in_bounds k)

-- The widths for which the `switch` has a case.
abbrev pub IsFixedWidth : ℕ → Type 0
IsFixedWidth w = ((w ≡ 1) ⊎ (w ≡ 2)) ⊎ (((w ≡ 4) ⊎ (w ≡ 8)) ⊎ (w ≡ 16))

copy_uuid_lem :
    (b : Buffer.Buffer) (i n : ℕ) → i + n ≤ b.size → (cs : List ℕ) × (copy_uuid b i n ≡ some cs)
unfolding copy_uuid
copy_uuid_lem b i zero h = ([], refl)
copy_uuid_lem b i (suc n) h =
    let (cs, e) = copy_uuid_lem b (i + 1) n (omega (arith, h)) in
    let near : leb (i + 1) b.size ≡ true = ground (arith, h) in
    (unchecked_getc_at b i ∷ cs, rw near (rw e refl))

store_fixed-stored :
    (b : Buffer.Buffer) (i w : ℕ) (t : AmqpType)
    → IsFixedWidth w
    → i + w ≤ b.size
    → (x : AmqpType) × (store_fixed b i w t ≡ stored x)
unfolding store_fixed
store_fixed-stored b i w t (inl (inl e)) h =
    let near : leb (i + 1) b.size ≡ true = ground (arith, e, h) in
    (record t { word = with_b1 t.word (unchecked_getc_at b i) }, rw e (rw near refl))
store_fixed-stored b i w t (inl (inr e)) h =
    let near : leb (i + 2) b.size ≡ true = ground (arith, e, h) in
    (record t { word = with_b2 t.word (ntoh_16 b i) }, rw e (rw near refl))
store_fixed-stored b i w t (inr (inl (inl e))) h =
    let near : leb (i + 4) b.size ≡ true = ground (arith, e, h) in
    (record t { word = with_b4 t.word (ntoh_32 b i) }, rw e (rw near refl))
store_fixed-stored b i w t (inr (inl (inr e))) h =
    let near : leb (i + 8) b.size ≡ true = ground (arith, e, h) in
    (record t { word = ntoh_64 b i }, rw e (rw near refl))
store_fixed-stored b i w t (inr (inr e)) h =
    let (cs, copied) = copy_uuid_lem b i 16 (omega (arith, e, h)) in
    (record t { uuid = cs }, rw e (rw copied refl))

put_type-Decoded :
    (p : ℕ) (o : Switch) (x : AmqpType) (s : State)
    → InBounds s
    → o ≡ stored x
    → Ensures (put_type p o s) (Decoded p s)
put_type-Decoded p (stored t) x s h n = (Extends-write p s t h, λ e. cc)
put_type-Decoded p no_case x s h n = absurd (cc (n))
put_type-Decoded p outside x s h n = absurd (cc (n))

-- The test of `check_available` and the mark that its failure leaves.
check_available-Decoded :
    (p width : ℕ) (s : State)
    → InBounds s
    → Ensures (Fixed.check_available p width s) (λ rc t.
      Extends p s t
      × ((rc ≡ false → Marked (t.types p))
          × (rc ≡ true → (t ≡ s) × (s.buffer.index + width ≤ s.buffer.size))))
unfolding Fixed.check_available check_available
check_available-Decoded p width s h =
    Ensures-if (check_available s.buffer width) _ _ s _
      (λ e. (Extends-refl p s h, (λ q. cc, λ q. (refl, ground arith))))
      (λ e.
        let f = decode_error-Extends p error_buffer_would_overrun s h (omega arith) in
        (f.0, (λ q. f.1, λ q. cc)))

read_fixed-Decoded :
    (meta : MetaData) (p : ℕ) (s : State)
    → s.buffer.index + meta.width ≤ s.buffer.size
    → IsFixedWidth meta.width
    → Ensures (read_fixed meta p s) (Decoded p s)
unfolding read_fixed advance_read_index
read_fixed-Decoded meta p s h w =
    let placed : AmqpType = record (s.types p) {
      position_index = s.buffer.index;
      position_size = meta.width;
    } in
    let t : State = write_type s p placed in
    let i : ℕ = s.buffer.index + meta.width in
    let u : State = record t { buffer = record t.buffer { index = i } } in
    let found = store_fixed u.buffer (u.types p).position_index meta.width (u.types p) in
    let place : (u.types p).position_index ≡ s.buffer.index = ground arith in
    let (x, finds) =
      store_fixed-stored u.buffer (u.types p).position_index meta.width (u.types p) w
        (omega (arith, place, h)) in
    Ensures-mono (put_type p found u) (Decoded p u) (Decoded p s)
      (put_type-Decoded p found x u (omega arith) finds)
      (λ rc v d. (
        Extends-trans
            (Extends-trans (Extends-write p s placed (omega arith))
              (Extends-read p t i (omega arith) h) (inl refl))
            d.0 (inl refl),
        d.1,
      ))

pub fixed_width-Decoded :
    (meta : MetaData) (p : ℕ) (s : State)
    → InBounds s
    → IsFixedWidth meta.width
    → Ensures (fixed_width meta p s) (Decoded p s)
unfolding fixed_width
fixed_width-Decoded meta p s h w =
    keep_bind (Fixed.check_available p meta.width) _ p s
      (λ rc t.
        (rc ≡ false → Marked (t.types p))
        × (rc ≡ true → (t ≡ s) × (s.buffer.index + meta.width ≤ s.buffer.size)))
      (λ rc t. rc ≡ false → Marked (t.types p)) (check_available-Decoded p meta.width s h)
      (λ rc t e k.
        Ensures-if rc (read_fixed meta p) (pure false) t _
          (λ q. let g = k.1 q in read_fixed-Decoded meta p t (rw g.0 g.1) w)
          (λ q. (Extends-refl p t e.in_bounds, λ _. k.0 q)))

pub boolean_true-Decoded :
    (p : ℕ) (s : State) → InBounds s → Ensures (boolean_true p s) (Decoded p s)
unfolding boolean_true
boolean_true-Decoded p s h = (
  Extends-trans (Extends-write p s _ h) (Extends-write p (write_type s p _) _ h) (inl refl),
  λ e. cc,
)

-- A failure that is recorded, or the result as it was.
pub fail_if-Decoded :
    (test : Bool) (p code : ℕ) (rc : Bool) (s : State)
    → InBounds s
    → code ≢ 0
    → (rc ≡ false → Marked (s.types p))
    → Ensures ((if test then (decode_error p code >> pure false) else pure rc) s) (Decoded p s)
fail_if-Decoded true p code rc s h c k =
    let f = decode_error-Extends p code s h c in (f.0, λ _. f.1)
fail_if-Decoded false p code rc s h c k = (Extends-refl p s h, k)

pub decode_char-Decoded :
    (meta : MetaData) (p : ℕ) (s : State)
    → InBounds s
    → IsFixedWidth meta.width
    → Ensures (decode_char meta p s) (Decoded p s)
unfolding decode_char
decode_char-Decoded meta p s h w =
    keep_bind (fixed_width meta p) _ p s (λ rc t. rc ≡ false → Marked (t.types p))
      (λ rc t. rc ≡ false → Marked (t.types p)) (fixed_width-Decoded meta p s h w)
      (λ rc t e k.
        fail_if-Decoded (rc && not (Fixed.validate_char ((t.types p).word % 2 ^ 32))) p
          error_invalid_utf32_character rc t e.in_bounds (omega arith) k)
