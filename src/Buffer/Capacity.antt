-- ===== src/Buffer/Capacity.antt =====
-- `amqp_buffer_grow` of Buffer/Buffer.c: the capacity grows by whole fragments up to the maximum.
use libamqp.Prelude.{
  ℕ, zero, suc, ◌+◌, ◌-◌, ◌%◌, ◌/◌, ◌*◌, ◌≡◌, ltb, leb, if◌then◌else◌, update, arith, ◌&&◌,
}
use Prim.Native.Nat.{min}
use libamqp.Buffer.{Buffer, buffer_max_size, buffer_fragment_size, unchecked_getc_at}
use libamqp.Buffer.Laws.{IsValid}

-- The loop over the new fragments, `rounds` of them from `block`; `amqp_malloc` clears its memory.
pub allocate_fragments : (ℕ → ℕ → ℕ) → ℕ → ℕ → ℕ → ℕ → ℕ
allocate_fragments fragments block zero = fragments
allocate_fragments fragments block (suc rounds) =
    allocate_fragments (update fragments block (λ _. 0)) (block + 1) rounds

unfoldable pub needed_blocks : ℕ → ℕ
needed_blocks new_size = (new_size - 1) / buffer_fragment_size + 1

unfoldable pub clamp_size : ℕ → ℕ
clamp_size new_size = if ltb buffer_max_size new_size then buffer_max_size else new_size

unfoldable pub grow : Buffer → ℕ → Buffer
unfolding needed_blocks clamp_size allocate_fragments
grow b requested =
    let new_size = clamp_size requested in
    let needed = needed_blocks new_size in
    let block = b.capacity / buffer_fragment_size in
    if ltb b.capacity new_size
    then record b {
      capacity = needed * buffer_fragment_size;
      fragments = allocate_fragments b.fragments block (needed - block);
    }
    else b

allocate_fragments_lem :
    (f : ℕ → ℕ → ℕ) (block rounds k o : ℕ)
    → allocate_fragments f block rounds k o
      ≡ (if leb block k then (if ltb k (block + rounds) then 0 else f k o) else f k o)
unfolding allocate_fragments
allocate_fragments_lem f block zero k o = ground arith
allocate_fragments_lem f block (suc rounds) k o =
    ground (arith, allocate_fragments_lem (update f block (λ _. 0)) (block + 1) rounds k o)

-- `amqp_buffer_grow` on every branch: a request above the capacity, cut at the maximum, is rounded up
-- to whole fragments, and any other leaves the capacity; the bytes below the old capacity stay,
-- those of the new fragments are zero, and the buffer stays valid.
pub grow_lem :
    {b : Buffer} (requested : ℕ)
    → IsValid b
    → let b' = grow b requested in
      let wanted = min requested buffer_max_size in
      IsValid b'
      × (b'.capacity ≡ (
          if ltb b.capacity wanted
          then (wanted + (buffer_fragment_size - 1)) / buffer_fragment_size * buffer_fragment_size
          else b.capacity))
      × (b'.size ≡ b.size)
      × ((i : ℕ)
          → unchecked_getc_at b' i
            ≡ (if leb b.capacity i && ltb i b'.capacity then 0 else unchecked_getc_at b i))
unfolding grow unchecked_getc_at
grow_lem {b} requested v = (
  record {
    read_in = ground (arith, v.read_in, v.write_in);
    write_in = ground (arith, v.read_in, v.write_in);
    bounded = ground (arith, v.bounded);
    whole = ground (arith, v.whole);
    bytes = λ k o. ground (
      arith,
      v.bytes k o,
      allocate_fragments_lem b.fragments (b.capacity / buffer_fragment_size)
          (needed_blocks (clamp_size requested) - b.capacity / buffer_fragment_size) k o,
    );
  },
  ground (arith, v.whole),
  ground arith,
  λ i. ground (
    arith,
    v.whole,
    allocate_fragments_lem b.fragments (b.capacity / buffer_fragment_size)
        (needed_blocks (clamp_size requested) - b.capacity / buffer_fragment_size) (i / 4096)
        (i % 4096),
  ),
)
