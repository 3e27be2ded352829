-- ===== src/Buffer/IoVec/Copy.antt =====
-- What `amqp_buffer_block_copy` of Buffer/Buffer.c delivers, on both branches.
use libamqp.Prelude.{
  ℕ, ◌+◌, ◌-◌, ◌*◌, ◌/◌, ◌%◌, ◌≤◌, ◌<◌, ◌≡◌, ◌⊎◌, inl, inr, ◌++◌, leb, Bool-cases, arith,
}
use libamqp.Buffer.{Buffer, buffer_fragment_size, block_of, offset_of}
use libamqp.Buffer.IoVec.{block_copy}
use libamqp.Buffer.IoVec.Proofs.{slice, block_copy-slice, block_copy_crossing}

-- `amqp_buffer_block_copy` of any run of bytes: one that ends in the fragment where it starts is
-- delivered; of one that crosses into other fragments all is delivered but what lies in the last of
-- them, and for that as many bytes come from the beginning of the fragment before it.
pub block_copy_lem :
    (b : Buffer) (start size : ℕ)
    → ((offset_of start + size ≤ buffer_fragment_size)
        × (block_copy b start size ≡ slice b start size))
      ⊎ ((k : ℕ) × (r : ℕ) × (size
            ≡ buffer_fragment_size - offset_of start + k * buffer_fragment_size + r)
          × (0 < r)
          × (r ≤ buffer_fragment_size)
          × (block_copy b start size
              ≡ slice b start (size - r)
                ++ slice b ((block_of start + k) * buffer_fragment_size) r))
block_copy_lem b start size =
    elim (Bool-cases (leb (offset_of start + size) buffer_fragment_size)) [
      | inl near ↦
          let h : offset_of start + size ≤ buffer_fragment_size = ground (arith, near) in
          inl (h, block_copy-slice b start size h)
      | inr far ↦
          let first : ℕ = buffer_fragment_size - offset_of start in
          let k : ℕ = (size - first - 1) / buffer_fragment_size in
          let r : ℕ = (size - first - 1) % buffer_fragment_size + 1 in
          let h : buffer_fragment_size < offset_of start + size = ground (arith, far) in
          let parts : size ≡ first + k * buffer_fragment_size + r = omega (arith, h) in
          let small : r ≤ buffer_fragment_size = omega arith in
          inr (
            k,
            r,
            parts,
            omega arith,
            small,
            block_copy_crossing b start size k r parts (omega arith) small,
          )
    ]
