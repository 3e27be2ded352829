-- ===== src/Buffer.antt =====
-- The segmented byte buffer: `amqp_buffer_t` of Buffer/BufferInternal.h and the inline operations
-- of Buffer/BufferInlines.h. A buffer is up to sixteen fragments of 4096 bytes; `index` is where the
-- next read takes place and `size` where the next write does.
pub mod Capacity
pub mod Words
pub mod IoVec
pub mod Laws
pub mod Bytes
pub mod Contents
mod Tests
use libamqp.Prelude.{
  ℕ, ◌+◌, ◌-◌, ◌*◌, ◌/◌, ◌%◌, ◌^◌, Bool, true, false, ◌&&◌, Option, none, some, List, [], ◌∷◌, ltb,
  leb, ◌==◌, if◌then◌else◌, update, length,
}

abbrev pub buffer_max_size : ℕ
buffer_max_size = 64 * 1024

abbrev pub buffer_fragment_size : ℕ
buffer_fragment_size = 4 * 1024

abbrev pub buffer_fragments : ℕ
buffer_fragments = buffer_max_size / buffer_fragment_size

-- `fragments b o` is the byte at offset `o` of fragment `b`; the fragments below
-- `capacity / 4096` are allocated.
pub record Buffer : Type 0 where
  pub capacity : ℕ
  pub fragments : ℕ → ℕ → ℕ
  pub index : ℕ
  pub size : ℕ
  pub reference_count : ℕ

-- `index >> AMQP_FRAGMENT_INDEX_BITS` and `index & AMQP_FRAGMENT_INDEX_MASK`.
abbrev pub block_of : ℕ → ℕ
block_of i = i / 2 ^ 12

abbrev pub offset_of : ℕ → ℕ
offset_of i = i % 2 ^ 12

-- The difference is a `size_t`, so it wraps.
unfoldable pub available : Buffer → ℕ
available b = (2 ^ 64 + b.size - b.index) % 2 ^ 64

unfoldable pub check_available : Buffer → ℕ → Bool
check_available b desired = ltb b.index b.size && leb desired (b.size - b.index)

unfoldable pub check_free_space : Buffer → ℕ → Bool
check_free_space b needed = leb ((b.size + needed) % 2 ^ 64) b.capacity

unfoldable pub at_end : Buffer → Bool
at_end b = b.index == b.size

-- Meant for an index below the capacity, behind which the source goes through a pointer that nobody has
-- set: what calls it has made sure of the index, or tests it on the way.
unfoldable pub unchecked_getc_at : Buffer → ℕ → ℕ
unchecked_getc_at b i = b.fragments (block_of i) (offset_of i)

-- A store into an `unsigned char` keeps the low eight bits. The index is below the capacity, as for
-- `unchecked_getc_at`.
unfoldable pub unchecked_putc_at : Buffer → ℕ → ℕ → Buffer
unchecked_putc_at b c i = record b {
  fragments =
      update b.fragments (block_of i) (update (b.fragments (block_of i)) (offset_of i) (c % 2 ^ 8));
}

unfoldable pub unchecked_putc : Buffer → ℕ → Buffer
unfolding unchecked_putc_at
unchecked_putc b c = unchecked_putc_at (record b { size = b.size + 1 }) c b.size

-- The result is false where the source returns -1.
unfoldable pub putc : Buffer → ℕ → Bool × Buffer
putc b c = if ltb b.size b.capacity then (true, unchecked_putc b c) else (false, b)

unfoldable pub advance_read_index : Buffer → ℕ → Buffer
advance_read_index b amount = record b { index = b.index + amount }

unfoldable pub advance_write_point : Buffer → ℕ → Buffer
advance_write_point b amount = record b { size = b.size + amount }

unfoldable pub set_write_index : Buffer → ℕ → Buffer
set_write_index b value = record b { size = value }

unfoldable pub reset_index : Buffer → Buffer
reset_index b = record b { index = 0 }

unfoldable pub reset : Buffer → Buffer
reset b = record b { index = 0; size = 0 }

unfoldable pub unchecked_getc : Buffer → ℕ × Buffer
unfolding unchecked_getc_at
unchecked_getc b = (unchecked_getc_at b b.index, record b { index = b.index + 1 })

-- `none` stands for the -1 that is returned at the end.
unfoldable pub getc : Buffer → Option ℕ × Buffer
unfolding unchecked_getc
getc b = if ltb b.index b.size then (let (c, b') = unchecked_getc b in (some c, b')) else (none, b)

unfoldable pub put_each : Buffer → List ℕ → Buffer
unfolding putc unchecked_putc
put_each b [] = b
put_each b (c ∷ cs) = put_each (putc b c).1 cs

-- `amqp_buffer_puts`: all the bytes or, with 0 returned, none.
unfoldable pub puts : Buffer → List ℕ → ℕ × Buffer
unfolding put_each
puts b source =
    if leb b.capacity (b.size + length source) then (0, b) else (length source, put_each b source)

-- `assert(buffer->limit.size >= amount)` fails by `none`.
unfoldable pub backup : Buffer → ℕ → Option Buffer
backup b amount = if leb amount b.size then some (record b { size = b.size - amount }) else none
