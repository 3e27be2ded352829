-- ===== src/Buffer/Words.antt =====
-- Numbers in network byte order: `amqp_ntoh_*`, `amqp_hton_*` and the reads and writes of words of
-- Buffer/BufferInlines.h, and `amqp_buffer_read_size_field` of Buffer/Buffer.c.
-- The unions stand for the number that they hold on a little endian machine, which is the only kind
-- that the source admits.
use libamqp.Prelude.{
  ℕ, ◌+◌, ◌-◌, ◌%◌, ◌/◌, ◌*◌, ◌^◌, ◌≤◌, ◌<◌, ◌≡◌, refl, ◌==◌, if◌then◌else◌, arith, Option, none,
  some, List, [], ◌∷◌, All, length,
}
use libamqp.Buffer.{
  Buffer, unchecked_getc_at, unchecked_putc, unchecked_getc, getc, check_available,
}
use libamqp.Buffer.Bytes.{
  Holds, IsByte, Appends, append_bytes, append_bytes-Appends, append_bytes-Holds,
}

unfoldable pub ntoh_16 : Buffer → ℕ → ℕ
ntoh_16 b o = unchecked_getc_at b o * 2 ^ 8 + unchecked_getc_at b (o + 1)

-- The offset goes up by one after each byte, `offset++`.
unfoldable pub ntoh_32 : Buffer → ℕ → ℕ
ntoh_32 b o =
    let o1 = o + 1 in
    let o2 = o1 + 1 in
    unchecked_getc_at b o * 2 ^ 24
    + unchecked_getc_at b o1 * 2 ^ 16
    + unchecked_getc_at b o2 * 2 ^ 8
    + unchecked_getc_at b (o2 + 1)

unfoldable pub ntoh_64 : Buffer → ℕ → ℕ
ntoh_64 b o =
    let o1 = o + 1 in
    let o2 = o1 + 1 in
    let o3 = o2 + 1 in
    let o4 = o3 + 1 in
    let o5 = o4 + 1 in
    let o6 = o5 + 1 in
    unchecked_getc_at b o * 2 ^ 56
    + unchecked_getc_at b o1 * 2 ^ 48
    + unchecked_getc_at b o2 * 2 ^ 40
    + unchecked_getc_at b o3 * 2 ^ 32
    + unchecked_getc_at b o4 * 2 ^ 24
    + unchecked_getc_at b o5 * 2 ^ 16
    + unchecked_getc_at b o6 * 2 ^ 8
    + unchecked_getc_at b (o6 + 1)

-- `value.b[k]` of a union.
abbrev pub byte_of : ℕ → ℕ → ℕ
byte_of value k = value / 2 ^ (8 * k) % 2 ^ 8

unfoldable pub hton_16 : Buffer → ℕ → Buffer
unfolding unchecked_putc
hton_16 b value = unchecked_putc (unchecked_putc b (byte_of value 1)) (byte_of value 0)

unfoldable pub hton_32 : Buffer → ℕ → Buffer
unfolding unchecked_putc
hton_32 b value =
    unchecked_putc
      (unchecked_putc (unchecked_putc (unchecked_putc b (byte_of value 3)) (byte_of value 2))
        (byte_of value 1))
      (byte_of value 0)

unfoldable pub hton_64 : Buffer → ℕ → Buffer
unfolding unchecked_putc
hton_64 b value =
    unchecked_putc
      (unchecked_putc
        (unchecked_putc
          (unchecked_putc
            (unchecked_putc
              (unchecked_putc
                (unchecked_putc (unchecked_putc b (byte_of value 7)) (byte_of value 6))
                (byte_of value 5))
              (byte_of value 4))
            (byte_of value 3))
          (byte_of value 2))
        (byte_of value 1))
      (byte_of value 0)

-- `amqp_buffer_read_size_field`; the outer `none` is the `abort()` at another width. A -1 becomes
-- the largest `uint32_t`.
abbrev pub u32_minus_one : ℕ
u32_minus_one = 2 ^ 32 - 1

unfoldable pub read_size_field : Buffer → ℕ → Option (ℕ × Buffer)
unfolding unchecked_getc getc check_available
read_size_field b width =
    if width == 4
    then (if check_available b width then some (four b) else some (u32_minus_one, b))
    else (if width == 1 then some (one b) else none)
  where
    four : Buffer → ℕ × Buffer
    four b0 =
        let (c0, b1) = unchecked_getc b0 in
        let (c1, b2) = unchecked_getc b1 in
        let (c2, b3) = unchecked_getc b2 in
        let (c3, b4) = unchecked_getc b3 in (((c0 * 2 ^ 8 + c1) * 2 ^ 8 + c2) * 2 ^ 8 + c3, b4)

    one : Buffer → ℕ × Buffer
    one b0 = let (o, b1) = getc b0 in elim o [ none ↦ (u32_minus_one, b1) | some c ↦ (c, b1) ]

-- The bytes of a number, most significant first: its form on the wire.
abbrev pub bytes_16 : ℕ → List ℕ
bytes_16 v = byte_of v 1 ∷ byte_of v 0 ∷ []

abbrev pub bytes_32 : ℕ → List ℕ
bytes_32 v = byte_of v 3 ∷ byte_of v 2 ∷ byte_of v 1 ∷ byte_of v 0 ∷ []

abbrev pub bytes_64 : ℕ → List ℕ
bytes_64 v =
    byte_of v 7
    ∷ byte_of v 6
    ∷ byte_of v 5
    ∷ byte_of v 4
    ∷ byte_of v 3
    ∷ byte_of v 2
    ∷ byte_of v 1
    ∷ byte_of v 0
    ∷ []

pub hton_16-append : (b : Buffer) (v : ℕ) → hton_16 b v ≡ append_bytes b (bytes_16 v)
unfolding hton_16 append_bytes
hton_16-append b v = refl

pub hton_32-append : (b : Buffer) (v : ℕ) → hton_32 b v ≡ append_bytes b (bytes_32 v)
unfolding hton_32 append_bytes
hton_32-append b v = refl

pub hton_64-append : (b : Buffer) (v : ℕ) → hton_64 b v ≡ append_bytes b (bytes_64 v)
unfolding hton_64 append_bytes
hton_64-append b v = refl

-- A number below the bound of its width is read back from where its bytes lie.
pub ntoh_16-bytes : (b : Buffer) (o v : ℕ) → v < 2 ^ 16 → Holds b o (bytes_16 v) → ntoh_16 b o ≡ v
unfolding ntoh_16
ntoh_16-bytes b o v h hs = omega arith

pub ntoh_32-bytes : (b : Buffer) (o v : ℕ) → v < 2 ^ 32 → Holds b o (bytes_32 v) → ntoh_32 b o ≡ v
unfolding ntoh_32
ntoh_32-bytes b o v h hs = omega arith

pub ntoh_64-bytes : (b : Buffer) (o v : ℕ) → v < 2 ^ 64 → Holds b o (bytes_64 v) → ntoh_64 b o ≡ v
unfolding ntoh_64
ntoh_64-bytes b o v h hs = omega arith

pub bytes_16-IsByte : (v : ℕ) → All IsByte (bytes_16 v)
bytes_16-IsByte v = omega arith

pub bytes_32-IsByte : (v : ℕ) → All IsByte (bytes_32 v)
bytes_32-IsByte v = omega arith

pub bytes_64-IsByte : (v : ℕ) → All IsByte (bytes_64 v)
bytes_64-IsByte v = omega arith

-- For each width, a number that fits the width and is written by `amqp_hton_*` at the write point
-- of a buffer with room for eight bytes is read back from there by `amqp_ntoh_*`; the write point
-- moves by the width and does not pass the capacity, and the bytes in front of it, the read point
-- and the capacity stay.
pub ntoh-hton :
    (b : Buffer) (short int long : ℕ)
    → short < 2 ^ 16
    → int < 2 ^ 32
    → long < 2 ^ 64
    → b.size + 8 ≤ b.capacity
    → (ntoh_16 (hton_16 b short) b.size ≡ short)
      × (ntoh_32 (hton_32 b int) b.size ≡ int)
      × (ntoh_64 (hton_64 b long) b.size ≡ long)
      × Appends b 2 (hton_16 b short)
      × Appends b 4 (hton_32 b int)
      × Appends b 8 (hton_64 b long)
      × ((hton_16 b short).size ≤ (hton_16 b short).capacity)
      × ((hton_32 b int).size ≤ (hton_32 b int).capacity)
      × ((hton_64 b long).size ≤ (hton_64 b long).capacity)
ntoh-hton b short int long hs hi hl room =
    rw (hton_16-append, hton_32-append, hton_64-append)
      (
        ntoh_16-bytes _ b.size short hs
            (append_bytes-Holds (bytes_16 short) b (bytes_16-IsByte short)),
        ntoh_32-bytes _ b.size int hi (append_bytes-Holds (bytes_32 int) b (bytes_32-IsByte int)),
        ntoh_64-bytes _ b.size long hl
            (append_bytes-Holds (bytes_64 long) b (bytes_64-IsByte long)),
        append_bytes-Appends (bytes_16 short) b,
        append_bytes-Appends (bytes_32 int) b,
        append_bytes-Appends (bytes_64 long) b,
        within (bytes_16 short) (omega (arith, room)),
        within (bytes_32 int) (omega (arith, room)),
        within (bytes_64 long) (omega (arith, room)),
      )
  where
    within :
        (bs : List ℕ)
        → b.size + length bs ≤ b.capacity
        → (append_bytes b bs).size ≤ (append_bytes b bs).capacity
    within bs h = let a = append_bytes-Appends bs b in omega (arith, h, a.grows, a.same_capacity)

-- `amqp_buffer_read_size_field` by width, and by whether the field lies within the buffer.
pub read_size_field_one :
    (b : Buffer)
    → b.index < b.size
    → read_size_field b 1 ≡ some (unchecked_getc_at b b.index, record b { index = b.index + 1 })
unfolding read_size_field
read_size_field_one b h = ground arith

pub read_size_field_end :
    (b : Buffer) → b.size ≤ b.index → read_size_field b 1 ≡ some (u32_minus_one, b)
unfolding read_size_field
read_size_field_end b h = ground arith

pub read_size_field_four :
    (b : Buffer)
    → b.index + 4 ≤ b.size
    → read_size_field b 4 ≡ some (ntoh_32 b b.index, record b { index = b.index + 1 + 1 + 1 + 1 })
unfolding read_size_field ntoh_32
read_size_field_four b h = ground arith

pub read_size_field_short :
    (b : Buffer) → b.size < b.index + 4 → read_size_field b 4 ≡ some (u32_minus_one, b)
unfolding read_size_field
read_size_field_short b h = ground arith
