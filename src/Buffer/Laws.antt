-- ===== src/Buffer/Laws.antt =====
-- The segmented storage behaves as one flat array of bytes: Buffer/BufferInlines.h.
use libamqp.Prelude.{
  ℕ, ◌+◌, ◌%◌, ◌/◌, ◌^◌, ◌≤◌, ◌<◌, ◌≡◌, List, [], ◌∷◌, ltb, ◌==◌, if◌then◌else◌, arith, ◌&&◌,
}
use libamqp.Buffer.{
  Buffer, buffer_max_size, buffer_fragment_size, buffer_fragments, block_of, offset_of,
  unchecked_getc_at, unchecked_putc_at, unchecked_putc, putc, put_each,
}

-- What every operation keeps: the read point does not pass the write point, which does not pass the
-- capacity; the capacity is a number of whole fragments; what is stored are bytes.
pub record IsValid (b : Buffer) : Type 0 where
  pub read_in : b.index ≤ b.size
  pub write_in : b.size ≤ b.capacity
  pub bounded : b.capacity ≤ buffer_max_size
  pub whole : b.capacity % buffer_fragment_size ≡ 0
  pub bytes : (k o : ℕ) → b.fragments k o < 2 ^ 8

-- An access below the capacity falls into an allocated fragment, and inside it.
pub access_in_fragments :
    {b : Buffer} (i : ℕ)
    → IsValid b
    → i < b.capacity
    → (block_of i < b.capacity / buffer_fragment_size)
      × (block_of i < buffer_fragments)
      × (offset_of i < buffer_fragment_size)
access_in_fragments {b} i v h = omega (arith, v.bounded, v.whole)

pub getc_at-putc_at :
    (b : Buffer) (c i j : ℕ)
    → unchecked_getc_at (unchecked_putc_at b c i) j
      ≡ (if i == j then c % 2 ^ 8 else unchecked_getc_at b j)
unfolding unchecked_getc_at unchecked_putc_at
getc_at-putc_at b c i j = ground arith

pub putc_at-bytes :
    (b : Buffer) (c i : ℕ)
    → ((k o : ℕ) → b.fragments k o < 2 ^ 8)
    → (k o : ℕ) → (unchecked_putc_at b c i).fragments k o < 2 ^ 8
unfolding unchecked_putc_at
putc_at-bytes b c i h k o = ground (arith, h k o, h (block_of i) o)

pub putc-IsValid : {b : Buffer} (c : ℕ) → IsValid b → IsValid (putc b c).1
unfolding putc unchecked_putc
putc-IsValid {b} c v = record {
  read_in = ground (arith, v.read_in);
  write_in = ground (arith, v.write_in);
  bounded = ground (arith, v.bounded);
  whole = ground (arith, v.whole);
  bytes = λ k o. ground (arith, v.bytes k o, v.bytes (block_of b.size) o);
}

pub put_each-IsValid : (cs : List ℕ) (b : Buffer) → IsValid b → IsValid (put_each b cs)
unfolding put_each
put_each-IsValid [] b v = v
put_each-IsValid (c ∷ cs) b v = put_each-IsValid cs (putc b c).1 (putc-IsValid c v)

-- `amqp_buffer_putc` writes one byte at the write point if and only if there is room, touches no
-- other byte, and leaves a valid buffer either way.
pub putc_lem :
    {b : Buffer} (c : ℕ)
    → IsValid b
    → let (done, b') = putc b c in
      IsValid b'
      × (done ≡ ltb b.size b.capacity)
      × (b'.size ≡ (if done then b.size + 1 else b.size))
      × (b'.index ≡ b.index)
      × ((j : ℕ)
          → unchecked_getc_at b' j
            ≡ (if done && (b.size == j) then c % 2 ^ 8 else unchecked_getc_at b j))
unfolding putc unchecked_putc unchecked_getc_at
putc_lem {b} c v = (putc-IsValid c v, ground arith, ground arith, ground arith, λ j. ground arith)
