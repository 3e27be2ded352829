-- ===== src/Buffer/IoVec.antt =====
-- Runs that cross fragments: the scatter lists of `amqp_buffer_fill_io_vec` and the copy of
-- `amqp_buffer_block_copy`, both of Buffer/Buffer.c.
pub mod Copy
pub mod Proofs
use libamqp.Prelude.{
  ℕ, zero, suc, ◌+◌, ◌-◌, ◌*◌, List, [], ◌∷◌, ◌++◌, Option, none, some, ltb, leb, if◌then◌else◌,
}
use libamqp.Buffer.{Buffer, buffer_fragment_size, block_of, offset_of}

-- `struct iovec`: the fragment and the offset that `iov_base` points to, and `iov_len`.
pub record IoVector : Type 0 where
  pub block : ℕ
  pub offset : ℕ
  pub len : ℕ

-- The `while (n > 0)` loop; each round takes a byte at least, so `n` rounds are enough.
pub fill_rest : ℕ → ℕ → ℕ → List IoVector
fill_rest zero block n = []
fill_rest (suc fuel) block n =
    let available = if ltb buffer_fragment_size n then buffer_fragment_size else n in
    let rest = fill_rest fuel (block + 1) (n - available) in
    if ltb 0 n then record { block = block + 1; offset = 0; len = available } ∷ rest else []

unfoldable pub fill_io_vec : ℕ → ℕ → ℕ → List IoVector
unfolding fill_rest
fill_io_vec n block offset =
    let available = buffer_fragment_size - offset in
    if leb n available
    then record { block = block; offset = offset; len = n } ∷ []
    else record { block = block; offset = offset; len = available }
      ∷ fill_rest (n - available) block (n - available)

-- `none` is the failed `assert`.
unfoldable pub write_io_vec : Buffer → ℕ → Option (List IoVector)
unfolding fill_io_vec
write_io_vec b n =
    if leb n (b.capacity - b.size)
    then some (fill_io_vec n (block_of b.size) (offset_of b.size))
    else none

unfoldable pub read_io_vec : Buffer → Option (List IoVector)
unfolding fill_io_vec
read_io_vec b =
    let n = b.size - b.index in
    if leb n (b.capacity - b.index)
    then some (fill_io_vec n (block_of b.index) (offset_of b.index))
    else none

-- `memcpy` of `n` bytes from `&buffer->fragments[block][offset]`.
unfoldable pub fragment_bytes : Buffer → ℕ → ℕ → ℕ → List ℕ
fragment_bytes b block offset zero = []
fragment_bytes b block offset (suc n) =
    b.fragments block offset ∷ fragment_bytes b block (offset + 1) n

-- The loop over whole fragments and the copy of what is left, which takes it from the fragment that
-- `block` names when the loop stops. Each round takes 4096 bytes.
pub copy_rest : Buffer → ℕ → ℕ → ℕ → List ℕ
copy_rest b zero block size = []
copy_rest b (suc fuel) block size =
    let rest = copy_rest b fuel (block + 1) (size - buffer_fragment_size) in
    let tail = if ltb 0 size then fragment_bytes b block 0 size else [] in
    if ltb buffer_fragment_size size
    then fragment_bytes b (block + 1) 0 buffer_fragment_size ++ rest
    else tail

-- The bytes that reach `destination`.
unfoldable pub block_copy : Buffer → ℕ → ℕ → List ℕ
unfolding copy_rest fragment_bytes
block_copy b start size =
    let block = block_of start in
    let offset = offset_of start in
    let first_fragment_size = buffer_fragment_size - offset in
    let left = size - first_fragment_size in
    if leb size first_fragment_size
    then fragment_bytes b block offset size
    else fragment_bytes b block offset first_fragment_size ++ copy_rest b (suc left) block left
