-- ===== src/Buffer/IoVec/Proofs.antt =====
-- What the scatter lists and the block copy of Buffer/Buffer.c denote, against a byte by byte read.
use libamqp.Prelude.{
  ℕ, zero, suc, ◌+◌, ◌-◌, ◌*◌, ◌≤◌, ◌<◌, ◌≡◌, refl, sym, ap, ◌∙◌, List, [], ◌∷◌, ◌++◌, ltb, leb,
  if◌then◌else◌, arith, Bool-cases, le→ltb, lt→ltb, le→leb, gt→leb, if_true, if_false, ◌⊎◌, inl,
  inr, some,
}
use mathlib.Core.Path.{ap₂}
use mathlib.Core.List.{append_assoc}
use libamqp.Buffer.{Buffer, buffer_fragment_size, block_of, offset_of, unchecked_getc_at}
use libamqp.Buffer.Laws.{IsValid}
use libamqp.Buffer.IoVec.{
  IoVector, fill_rest, fill_io_vec, read_io_vec, fragment_bytes, copy_rest, block_copy,
}

-- The bytes from `start` on, read one at a time.
unfoldable pub slice : Buffer → ℕ → ℕ → List ℕ
slice b start zero = []
slice b start (suc n) = unchecked_getc_at b start ∷ slice b (start + 1) n

-- What `readv` and `writev` make of a scatter list.
unfoldable pub gather : Buffer → List IoVector → List ℕ
gather b [] = []
gather b (v ∷ vs) = fragment_bytes b v.block v.offset v.len ++ gather b vs

slice-split :
    (b : Buffer) (s t m n k : ℕ) → t ≡ s + m → k ≡ m + n → slice b s k ≡ slice b s m ++ slice b t n
unfolding slice
slice-split b s t zero n k p q = ground arith
slice-split b s t (suc m) n k p q =
    let e : k ≡ suc (m + n) = omega arith in
    rw e (
      ap (λ r. unchecked_getc_at b s ∷ r)
        (slice-split b (s + 1) t m n (m + n) (omega arith) (omega arith)))

fragment_bytes-slice :
    (b : Buffer) (block offset n s : ℕ)
    → s ≡ block * buffer_fragment_size + offset
    → offset + n ≤ buffer_fragment_size
    → fragment_bytes b block offset n ≡ slice b s n
unfolding fragment_bytes slice unchecked_getc_at
fragment_bytes-slice b block offset zero s e h = refl
fragment_bytes-slice b block offset (suc n) s e h =
    ground (arith, fragment_bytes-slice b block (offset + 1) n (s + 1) (omega arith) (omega arith))

slice-zero : (b : Buffer) (s n : ℕ) → n ≡ 0 → slice b s n ≡ []
unfolding slice
slice-zero b s zero e = refl
slice-zero b s (suc n) e = absurd (omega arith)

-- One vector in front of the rest.
gather-cons :
    (b : Buffer) (block offset len s t n k : ℕ) (rest : List IoVector)
    → s ≡ block * buffer_fragment_size + offset
    → offset + len ≤ buffer_fragment_size
    → t ≡ s + len
    → k ≡ len + n
    → gather b rest ≡ slice b t n
    → gather b (record { block = block; offset = offset; len = len } ∷ rest) ≡ slice b s k
unfolding gather
gather-cons b block offset len s t n k rest es fits et ek ih =
    rw (fragment_bytes-slice b block offset len s es fits, ih)
      (sym (slice-split b s t len n k et ek))

slice_start : (b : Buffer) (s t n : ℕ) → (s ≡ t) ⊎ (n ≡ 0) → slice b s n ≡ slice b t n
slice_start b s t n (inl e) = rw e
slice_start b s t n (inr e) = slice-zero b s n e ∙ sym (slice-zero b t n e)

fill_rest-slice :
    (b : Buffer) (fuel block n : ℕ)
    → n ≤ fuel
    → gather b (fill_rest fuel block n) ≡ slice b ((block + 1) * buffer_fragment_size) n
unfolding fill_rest
fill_rest-slice b zero block n h = unfold gather in sym (slice-zero b _ n (omega arith))
fill_rest-slice b (suc fuel) block n h =
    let len : ℕ = if ltb buffer_fragment_size n then buffer_fragment_size else n in
    let s : ℕ = (block + 1) * buffer_fragment_size in
    elim (Bool-cases (ltb 0 n)) [
      | inr e ↦ rw e (unfold gather in sym (slice-zero b s n (ground arith)))
      | inl e ↦ rw e (
          gather-cons b (block + 1) 0 len s (s + len) (n - len) n _ (omega arith) (ground arith)
            refl (ground arith)
            (fill_rest-slice b fuel (block + 1) (n - len) (ground arith)
              ∙ slice_start b _ (s + len) (n - len) (ground arith)))
    ]

-- A scatter list that starts inside a fragment denotes the run of bytes there.
pub fill_io_vec-slice :
    (b : Buffer) (start n : ℕ)
    → gather b (fill_io_vec n (block_of start) (offset_of start)) ≡ slice b start n
unfolding fill_io_vec
fill_io_vec-slice b start n =
    let len : ℕ = buffer_fragment_size - offset_of start in
    elim (Bool-cases (leb n len)) [
      | inl e ↦ rw e (
          gather-cons b (block_of start) (offset_of start) n start (start + n) 0 n [] (omega arith)
            (ground arith) refl (omega arith) (unfold gather slice in refl))
      | inr e ↦ rw e (
          gather-cons b (block_of start) (offset_of start) len start (start + len) (n - len) n _
            (omega arith) (omega arith) refl (ground arith)
            (fill_rest-slice b (n - len) (block_of start) (n - len) (omega arith)
              ∙ slice_start b _ (start + len) (n - len) (omega arith)))
    ]

-- The list that `amqp_buffer_read_io_vec` hands to `writev` denotes exactly the bytes between the
-- read point and the write point, and its `assert` does not fail on a valid buffer.
pub read_io_vec-slice :
    {b : Buffer}
    → IsValid b
    → (vs : List IoVector) × (read_io_vec b ≡ some vs)
      × (gather b vs ≡ slice b b.index (b.size - b.index))
unfolding read_io_vec
read_io_vec-slice {b} v = (
  fill_io_vec (b.size - b.index) (block_of b.index) (offset_of b.index),
  ground (arith, v.read_in, v.write_in),
  fill_io_vec-slice b b.index (b.size - b.index),
)

-- `k` rounds of the loop, and what is left for the last copy.
copy_rest-slice :
    (b : Buffer) (k r fuel block size : ℕ)
    → size ≡ k * buffer_fragment_size + r
    → 0 < r
    → r ≤ buffer_fragment_size
    → size < fuel
    → copy_rest b fuel block size
      ≡ slice b ((block + 1) * buffer_fragment_size) (k * buffer_fragment_size)
        ++ slice b ((block + k) * buffer_fragment_size) r
unfolding copy_rest
copy_rest-slice b k r zero block size e pos small h = absurd (omega arith)
copy_rest-slice b zero r (suc fuel) block size e pos small h =
    rw
      (
        le→ltb buffer_fragment_size size (omega arith),
        lt→ltb 0 size (omega arith),
        slice-zero b _ (0 * buffer_fragment_size) (omega arith),
      )
      (fragment_bytes-slice b block 0 size ((block + 0) * buffer_fragment_size) (omega arith)
          (omega arith)
        ∙ ap (slice b ((block + 0) * buffer_fragment_size)) (omega arith))
copy_rest-slice b (suc k) r (suc fuel) block size e pos small h =
    let f : ℕ = buffer_fragment_size in
    let near : List ℕ = slice b ((block + 1) * f) f in
    let middle : List ℕ = slice b ((block + 1 + 1) * f) (k * f) in
    let last : List ℕ = slice b ((block + 1 + k) * f) r in
    rw (lt→ltb f size (omega arith)) (
      ap₂ ◌++◌
        (fragment_bytes-slice b (block + 1) 0 f ((block + 1) * f) (omega arith) (omega arith))
        (copy_rest-slice b k r fuel (block + 1) (size - f) (omega arith) pos small (omega arith))
      ∙ sym (append_assoc near middle last)
      ∙ ap₂ ◌++◌
          (sym (
            slice-split b ((block + 1) * f) ((block + 1 + 1) * f) f (k * f) (suc k * f)
              (omega arith) (omega arith)))
          (slice_start b ((block + 1 + k) * f) ((block + suc k) * f) r (inl (omega arith))))

-- A copy that ends in the fragment where it starts delivers the bytes asked for.
pub block_copy-slice :
    (b : Buffer) (start size : ℕ)
    → offset_of start + size ≤ buffer_fragment_size
    → block_copy b start size ≡ slice b start size
unfolding block_copy
block_copy-slice b start size h =
    if_true _ (le→leb size (buffer_fragment_size - offset_of start) (omega arith))
    ∙ (fragment_bytes-slice b (block_of start) (offset_of start) size start (omega arith)
        (omega arith))

-- A copy that crosses into other fragments delivers the bytes asked for except in the last fragment:
-- the last `r` bytes come from the beginning of the fragment before it.
pub block_copy_crossing :
    (b : Buffer) (start size k r : ℕ)
    → size ≡ buffer_fragment_size - offset_of start + k * buffer_fragment_size + r
    → 0 < r
    → r ≤ buffer_fragment_size
    → block_copy b start size
      ≡ slice b start (size - r) ++ slice b ((block_of start + k) * buffer_fragment_size) r
unfolding block_copy
block_copy_crossing b start size k r e pos small =
    let f : ℕ = buffer_fragment_size in
    let first : ℕ = f - offset_of start in
    let near : List ℕ = slice b start first in
    let middle : List ℕ = slice b ((block_of start + 1) * f) (k * f) in
    let last : List ℕ = slice b ((block_of start + k) * f) r in
    if_false _ (gt→leb size first (omega arith))
    ∙ ap₂ ◌++◌
        (fragment_bytes-slice b (block_of start) (offset_of start) first start (omega arith)
          (omega arith))
        (copy_rest-slice b k r (suc (size - first)) (block_of start) (size - first) (omega arith)
          pos small (omega arith))
    ∙ sym (append_assoc near middle last)
    ∙ ap (λ xs. xs ++ last)
        (sym (
          slice-split b start ((block_of start + 1) * f) first (k * f) (size - r) (omega arith)
            (omega arith)))
