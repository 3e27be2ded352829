-- ===== src/Buffer/Tests.antt =====
-- Runs of the buffer's operations on small buffers, and its laws at concrete values.
use libamqp.Prelude.{
  ℕ, ◌+◌, ◌-◌, ◌*◌, ◌/◌, ◌%◌, ◌^◌, ◌≤◌, ◌<◌, ◌≡◌, refl, false, ◌&&◌, ◌⊎◌, none, some, List, [], ◌∷◌,
  ◌++◌, ltb, leb, ◌==◌, if◌then◌else◌, arith,
}
use Prim.Native.Nat.{min}
use libamqp.Buffer.{
  Buffer, buffer_max_size, buffer_fragment_size, block_of, offset_of, putc, puts, getc,
  unchecked_getc_at, check_available, backup,
}
use libamqp.Buffer.Laws.{IsValid, putc_lem}
use libamqp.Buffer.Bytes.{Holds, Appends, puts_lem}
use libamqp.Buffer.Words.{ntoh_16, ntoh_32, ntoh_64, hton_16, hton_32, hton_64, ntoh-hton}
use libamqp.Buffer.Capacity.{grow, grow_lem}
use libamqp.Buffer.IoVec.{IoVector, read_io_vec, block_copy}
use libamqp.Buffer.IoVec.Proofs.{slice, gather, read_io_vec-slice}
use libamqp.Buffer.IoVec.Copy.{block_copy_lem}
use libamqp.Prelude.Outcome.{returns, stops, undefined}
use libamqp.Buffer.Contents.{
  cleanup_buffer, reference, release, put_buffer_contents, IsCopied, put_buffer_contents_lem,
}

-- Two fragments; the byte at `i` is the low byte of its offset plus the number of its fragment.
abbrev two_fragments : Buffer
two_fragments = record {
  capacity = 8192;
  fragments = λ k o. (o + k) % 2 ^ 8;
  index = 4090;
  size = 4100;
  reference_count = 0;
}

two_fragments-IsValid : IsValid two_fragments
two_fragments-IsValid = record {
  read_in = omega arith;
  write_in = omega arith;
  bounded = omega arith;
  whole = refl;
  bytes = λ k o. omega arith;
}

putc_full : (putc (record two_fragments { size = 8192 }) 7).0 ≡ false
unfolding putc
putc_full = refl

getc_first : (getc two_fragments).0 ≡ some (4090 % 256)
unfolding getc
getc_first = refl

-- A buffer that is exactly large enough is refused by `amqp_buffer_puts`.
puts_exact : (puts (record two_fragments { size = 8190 }) (1 ∷ 2 ∷ [])).0 ≡ 0
unfolding puts
puts_exact = refl

-- Nothing is available at the end, not even no byte.
check_available_end : check_available (record two_fragments { index = 4100 }) 0 ≡ false
unfolding check_available
check_available_end = refl

backup_too_far : backup two_fragments 4101 ≡ none
unfolding backup
backup_too_far = refl

putc_lem_example :
    let (done, b') = putc two_fragments 300 in
    IsValid b'
    × (done ≡ ltb 4100 8192)
    × (b'.size ≡ (if done then 4100 + 1 else 4100))
    × (b'.index ≡ 4090)
    × ((j : ℕ)
        → unchecked_getc_at b' j
          ≡ (if done && (4100 == j) then 300 % 2 ^ 8 else unchecked_getc_at two_fragments j))
putc_lem_example = putc_lem 300 two_fragments-IsValid

puts_lem_example :
    let (n, b') = puts two_fragments (1 ∷ 2 ∷ 3 ∷ []) in
    ((8192 ≤ 4100 + 3) × (n ≡ 0) × (b' ≡ two_fragments))
    ⊎ ((4100 + 3 < 8192) × (n ≡ 3) × Appends two_fragments n b' × Holds b' 4100 (1 ∷ 2 ∷ 3 ∷ []))
puts_lem_example = puts_lem two_fragments (1 ∷ 2 ∷ 3 ∷ []) (omega arith)

ntoh-hton_example :
    (ntoh_16 (hton_16 two_fragments 0x1234) 4100 ≡ 0x1234)
    × (ntoh_32 (hton_32 two_fragments 0x12345678) 4100 ≡ 0x12345678)
    × (ntoh_64 (hton_64 two_fragments 0x123456789a) 4100 ≡ 0x123456789a)
    × Appends two_fragments 2 (hton_16 two_fragments 0x1234)
    × Appends two_fragments 4 (hton_32 two_fragments 0x12345678)
    × Appends two_fragments 8 (hton_64 two_fragments 0x123456789a)
    × ((hton_16 two_fragments 0x1234).size ≤ (hton_16 two_fragments 0x1234).capacity)
    × ((hton_32 two_fragments 0x12345678).size ≤ (hton_32 two_fragments 0x12345678).capacity)
    × ((hton_64 two_fragments 0x123456789a).size ≤ (hton_64 two_fragments 0x123456789a).capacity)
ntoh-hton_example =
    ntoh-hton two_fragments 0x1234 0x12345678 0x123456789a (omega arith) (omega arith) (omega arith)
      (omega arith)

grow_lem_example :
    let b' = grow two_fragments 9000 in
    let wanted = min 9000 buffer_max_size in
    IsValid b'
    × (b'.capacity ≡ (
        if ltb 8192 wanted
        then (wanted + (buffer_fragment_size - 1)) / buffer_fragment_size * buffer_fragment_size
        else 8192))
    × (b'.size ≡ 4100)
    × ((i : ℕ)
        → unchecked_getc_at b' i
          ≡ (if leb 8192 i && ltb i b'.capacity then 0 else unchecked_getc_at two_fragments i))
grow_lem_example = grow_lem 9000 two_fragments-IsValid

read_io_vec-slice_example :
    (vs : List IoVector) × (read_io_vec two_fragments ≡ some vs)
    × (gather two_fragments vs ≡ slice two_fragments 4090 (4100 - 4090))
read_io_vec-slice_example = read_io_vec-slice two_fragments-IsValid

block_copy_lem_example :
    ((offset_of 4090 + 10 ≤ buffer_fragment_size)
      × (block_copy two_fragments 4090 10 ≡ slice two_fragments 4090 10))
    ⊎ ((k : ℕ) × (r : ℕ) × (10
          ≡ buffer_fragment_size - offset_of 4090 + k * buffer_fragment_size + r)
        × (0 < r)
        × (r ≤ buffer_fragment_size)
        × (block_copy two_fragments 4090 10
            ≡ slice two_fragments 4090 (10 - r)
              ++ slice two_fragments ((block_of 4090 + k) * buffer_fragment_size) r))
block_copy_lem_example = block_copy_lem two_fragments 4090 10

-- Three bytes to copy.
abbrev three_bytes : Buffer
three_bytes = record two_fragments { index = 0; size = 3 }

three_bytes-IsValid : IsValid three_bytes
three_bytes-IsValid = record {
  read_in = omega arith;
  write_in = omega arith;
  bounded = omega arith;
  whole = refl;
  bytes = λ k o. omega arith;
}

-- The `assert` looks at the capacity, not at the room that is left.
put_buffer_contents_full :
    put_buffer_contents (record two_fragments { size = 8190 }) three_bytes ≡ undefined
unfolding put_buffer_contents
put_buffer_contents_full = refl

release_unreferenced : (release two_fragments).0 ≡ 2 ^ 64 - 1
unfolding release
release_unreferenced = refl

referenced : (release (reference two_fragments)).1.reference_count ≡ 0
unfolding release reference
referenced = refl

cleanup_two : cleanup_buffer (some two_fragments) ≡ 0 ∷ 1 ∷ []
unfolding cleanup_buffer
cleanup_two = refl

put_buffer_contents_lem_example :
    ((8192 < 3) × (put_buffer_contents two_fragments three_bytes ≡ stops))
    ⊎ (((3 ≤ 8192)
          × (8192 < 4100 + 3)
          × (put_buffer_contents two_fragments three_bytes ≡ undefined))
        ⊎ ((4100 + 3 ≤ 8192)
            × ((dest' : Buffer) × (put_buffer_contents two_fragments three_bytes
                  ≡ returns (3, dest'))
                × IsCopied three_bytes 0 3 two_fragments dest')))
put_buffer_contents_lem_example =
    put_buffer_contents_lem two_fragments three_bytes two_fragments-IsValid three_bytes-IsValid
