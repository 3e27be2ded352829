-- ===== src/Codec/Decode/Sound/Variable.antt =====
-- The size and count fields, and the decoders for types of variable size.
use libamqp.Prelude.{
  ℕ, zero, suc, leb, Bool-cases, Option, none, ◌+◌, ◌≤◌, ◌<◌, ◌≡◌, ◌≢◌, refl, Bool, true, false,
  ◌&&◌, some, ◌==◌, not, arith, inl, inr, ◌⊎◌,
}
use mathlib.Core.Path.{subst, sym}
use libamqp.Buffer
use libamqp.Buffer.{check_available, advance_read_index, unchecked_getc_at}
use libamqp.Buffer.Words.{
  read_size_field, u32_minus_one, read_size_field_one, read_size_field_end, read_size_field_four,
  read_size_field_short,
}
use native.Mathlib.Decide.{dec_lt}
use libamqp.Codec.Errors.{error_buffer_would_overrun, error_variable_type_malformed}
use libamqp.Codec.MetaData.{MetaData}
use libamqp.Codec.State.{AmqpType, State, pure, write_type, buffer_address}
use libamqp.Codec.State.Hoare.{
  Ensures, Ensures-if, Ensures-bind, Ensures-mono, Extends, Extends-refl, Extends-write,
  Extends-read, Extends-trans, keep_bind,
}
use libamqp.Codec.Decode.Fixed.{set_position}
use libamqp.Codec.Decode.Variable.{
  buffer_read_size_field, get_variable_type_size, get_variable_type_count, construct_variable_type,
  checked_variable_type, all_characters, judge_characters, check_characters,
}
use libamqp.Codec.Decode.Sound.Fixed.{Marked, Decoded, InBounds, decode_error-Extends}

-- The widths of a size field.
abbrev pub IsSizeWidth : ℕ → Type 0
IsSizeWidth w = (w ≡ 1) ⊎ (w ≡ 4)

-- A field that is read moves the read point on.
abbrev FieldRead : ℕ → State → ℕ → State → Type 0
FieldRead p s v t =
    Extends p s t × ((v ≢ u32_minus_one → s.buffer.index < t.buffer.index) × (t.types ≡ s.types))

field_of :
    (width p : ℕ) (s : State) (v i : ℕ)
    → InBounds s
    → read_size_field s.buffer width ≡ some (v, record s.buffer { index = i })
    → s.buffer.index ≤ i
    → i ≤ s.buffer.size
    → (v ≢ u32_minus_one → s.buffer.index < i)
    → Ensures (buffer_read_size_field width s) (FieldRead p s)
field_of width p s v i h e lo hi on = rw (e, Ensures) (Extends-read p s i lo hi, (on, refl))

read_field_one :
    (p : ℕ) (s : State) → InBounds s → Ensures (buffer_read_size_field 1 s) (FieldRead p s)
read_field_one p s h = elim (dec_lt s.buffer.index s.buffer.size) [
  | yes q ↦
      field_of 1 p s _ (s.buffer.index + 1) h (read_size_field_one s.buffer q) (omega arith)
        (omega arith) (λ _. omega arith)
  | no q ↦
      field_of 1 p s u32_minus_one s.buffer.index h (read_size_field_end s.buffer (omega arith))
        (omega arith) h (λ n. absurd (n refl))
]

read_field_four :
    (p : ℕ) (s : State) → InBounds s → Ensures (buffer_read_size_field 4 s) (FieldRead p s)
read_field_four p s h = elim (dec_lt s.buffer.size (s.buffer.index + 4)) [
  | no q ↦
      field_of 4 p s _ (s.buffer.index + 1 + 1 + 1 + 1) h
        (read_size_field_four s.buffer (omega arith)) (omega arith) (omega arith) (λ _. omega arith)
  | yes q ↦
      field_of 4 p s u32_minus_one s.buffer.index h (read_size_field_short s.buffer q) (omega arith)
        h (λ n. absurd (n refl))
]

read_size_field-Extends :
    (width p : ℕ) (s : State)
    → InBounds s
    → IsSizeWidth width
    → Ensures (buffer_read_size_field width s) (FieldRead p s)
read_size_field-Extends width p s h (inl e) =
    subst (λ w. Ensures (buffer_read_size_field w s) (FieldRead p s)) (sym e) (read_field_one p s h)
read_size_field-Extends width p s h (inr e) =
    subst (λ w. Ensures (buffer_read_size_field w s) (FieldRead p s)) (sym e)
      (read_field_four p s h)

fits-room : (b : Buffer.Buffer) (v : ℕ) → check_available b v ≡ true → b.index + v ≤ b.size
unfolding check_available
fits-room b v h = ground arith

-- A size that is not refused fits into what is left, and its field has been read.
abbrev pub SizeRead : ℕ → State → ℕ → State → Type 0
SizeRead p s v t =
    (v ≡ u32_minus_one → Marked (t.types p))
    × (v ≢ u32_minus_one → (s.buffer.index < t.buffer.index) × (t.buffer.index + v ≤ t.buffer.size))

pub get_variable_type_size-Extends :
    (meta : MetaData) (p : ℕ) (s : State)
    → InBounds s
    → IsSizeWidth meta.width
    → Ensures (get_variable_type_size meta p s) (λ v t. Extends p s t × SizeRead p s v t)
unfolding get_variable_type_size
get_variable_type_size-Extends meta p s h w =
    Ensures-bind (buffer_read_size_field meta.width) _ s (FieldRead p s) _
      (read_size_field-Extends meta.width p s h w)
      (λ v t f.
        let fits : Bool = check_available t.buffer v in
        let room : (not (v == u32_minus_one) && fits) ≡ true → t.buffer.index + v ≤ t.buffer.size =
          λ q. fits-room t.buffer v (ground arith) in
        Ensures-if (not (v == u32_minus_one) && fits) (pure v) _ t _
          (λ q. (f.0, (λ r. absurd (ground arith), λ r. (f.1.0 r, room q))))
          (λ q.
            let g =
              decode_error-Extends p error_buffer_would_overrun t f.0.in_bounds (omega arith) in
            (Extends-trans f.0 g.0 (inl refl), ((λ _. g.1), λ n. absurd (n refl)))))

-- A count that is not refused has been read.
pub get_variable_type_count-Extends :
    (meta : MetaData) (p : ℕ) (s : State)
    → InBounds s
    → IsSizeWidth meta.width
    → Ensures
        (get_variable_type_count meta p s)
        (λ v t. Extends p s t × (v ≡ u32_minus_one → Marked (t.types p)))
unfolding get_variable_type_count
get_variable_type_count-Extends meta p s h w =
    Ensures-bind (buffer_read_size_field meta.width) _ s (FieldRead p s) _
      (read_size_field-Extends meta.width p s h w)
      (λ v t f.
        Ensures-if (v == u32_minus_one) _ (pure v) t _
          (λ q.
            let g =
              decode_error-Extends p error_variable_type_malformed t f.0.in_bounds (omega arith) in
            (Extends-trans f.0 g.0 (inl refl), λ _. g.1))
          (λ q. (f.0, λ r. absurd (ground arith))))

-- A success has moved the read point on, past the size field and the data.
abbrev pub Progressed : ℕ → State → Bool → State → Type 0
Progressed p s rc t =
    Extends p s t
    × ((rc ≡ false → Marked (t.types p)) × (rc ≡ true → s.buffer.index < t.buffer.index))

-- A success has found data that lies within the buffer.
abbrev PlacedWithin : ℕ → Bool → State → Type 0
PlacedWithin p rc t =
    (rc ≡ false → Marked (t.types p))
    × (rc ≡ true → (t.types p).position_index + (t.types p).position_size ≤ t.buffer.size)

construct_variable_type-Within :
    (meta : MetaData) (p : ℕ) (s : State)
    → InBounds s
    → IsSizeWidth meta.width
    → Ensures (construct_variable_type meta p s) (λ rc t. Extends p s t × PlacedWithin p rc t)
unfolding construct_variable_type set_position advance_read_index
construct_variable_type-Within meta p s h w =
    keep_bind (get_variable_type_size meta p) _ p s (SizeRead p s) (PlacedWithin p)
      (get_variable_type_size-Extends meta p s h w)
      (λ v t e k.
        Ensures-if (v == u32_minus_one) (pure false) _ t _
          (λ q. (Extends-refl p t e.in_bounds, (λ _. k.0 (ground arith), λ r. cc)))
          (λ q.
            let g = (k.1 (ground arith)).1 in
            let placed : AmqpType = record (t.types p) {
              position_index = t.buffer.index;
              position_size = v;
            } in
            let u : State = write_type t p placed in
            let i : ℕ = t.buffer.index + v in
            let read : State = record u { buffer = record u.buffer { index = i } } in
            (
              Extends-trans
                  (Extends-trans (Extends-write p t placed e.in_bounds)
                    (Extends-read p u i (omega arith) g) (inl refl))
                  (Extends-write p read (record (read.types p) { word = buffer_address }) g)
                  (inl refl),
              (λ r. cc, λ r. ground (arith, g)),
            )))

pub construct_variable_type-Decoded :
    (meta : MetaData) (p : ℕ) (s : State)
    → InBounds s
    → IsSizeWidth meta.width
    → Ensures (construct_variable_type meta p s) (Decoded p s)
construct_variable_type-Decoded meta p s h w =
    Ensures-mono (construct_variable_type meta p s) (λ rc t. Extends p s t × PlacedWithin p rc t)
      (Decoded p s) (construct_variable_type-Within meta p s h w) (λ rc t d. (d.0, d.1.0))

all_characters_lem :
    (good : ℕ → Bool) (b : Buffer.Buffer) (i n : ℕ)
    → i + n ≤ b.size
    → (accepted : Bool) × (all_characters good b i n ≡ some accepted)
unfolding all_characters
all_characters_lem good b i zero h = (true, refl)
all_characters_lem good b i (suc n) h =
    let (rest, e) = all_characters_lem good b (i + 1) n (omega (arith, h)) in
    let near : leb (i + 1) b.size ≡ true = ground (arith, h) in
    elim (Bool-cases (good (unchecked_getc_at b i))) [
      | inl q ↦ (rest, rw near (rw q e))
      | inr q ↦ (false, rw near (rw q refl))
    ]

judge_characters-Decoded :
    (code p : ℕ) (o : Option Bool) (accepted : Bool) (s : State)
    → InBounds s
    → code ≢ 0
    → o ≡ some accepted
    → Ensures (judge_characters code p o s) (Decoded p s)
judge_characters-Decoded code p none accepted s h c e = absurd (cc (e))
judge_characters-Decoded code p (some true) accepted s h c e = (Extends-refl p s h, λ q. cc)
judge_characters-Decoded code p (some false) accepted s h c e =
    let f = decode_error-Extends p code s h c in (f.0, λ _. f.1)

pub checked_variable_type-Decoded :
    (good : ℕ → Bool) (code : ℕ) (meta : MetaData) (p : ℕ) (s : State)
    → InBounds s
    → IsSizeWidth meta.width
    → code ≢ 0
    → Ensures (checked_variable_type good code meta p s) (Decoded p s)
checked_variable_type-Decoded good code meta p s h w c =
    keep_bind (construct_variable_type meta p) _ p s (PlacedWithin p)
      (λ rc t. rc ≡ false → Marked (t.types p)) (construct_variable_type-Within meta p s h w)
      (λ rc t e k.
        Ensures-if rc (check_characters good code p) (pure rc) t (Decoded p t)
          (λ q.
            let x : AmqpType = t.types p in
            let (accepted, finds) =
              all_characters_lem good t.buffer x.position_index x.position_size (k.1 q) in
            judge_characters-Decoded code p _ accepted t e.in_bounds c finds)
          (λ q. (Extends-refl p t e.in_bounds, k.0)))
