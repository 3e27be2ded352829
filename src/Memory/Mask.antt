-- ===== src/Memory/Mask.antt =====
-- The free places of a block, the union `mask` of Memory/PoolInternal.h, as its eight bytes: a bit
-- is 1 where the place is free. The functions are those of Memory/Pool.c that read or change it.

pub mod Bytes
pub mod Laws
pub mod Whole
use libamqp.Prelude.{
  ℕ, zero, suc, ◌+◌, ◌-◌, ◌*◌, ◌/◌, ◌%◌, ◌^◌, Bool, true, false, ◌&&◌, Option, none, some, List, [],
  ◌∷◌, ◌==◌, if◌then◌else◌, not, get_elem?,
}
use Prim.Native.Nat.{bit_and, bit_or}

-- The number of bits in an `unsigned long`.
abbrev pub long_bit : ℕ
long_bit = 64

-- `(byte & (1 << k)) != 0`
unfoldable pub bit : ℕ → ℕ → Bool
bit b k = not (bit_and b (2 ^ k) == 0)

-- The loop over the eight bits of a byte, `mask` moving up by one bit a round.
unfoldable pub first_bit : ℕ → ℕ → ℕ → ℕ → Option ℕ
first_bit zero i mask byte = none
first_bit (suc n) i mask byte =
    let rest = first_bit n (i + 1) (mask * 2 % 256) byte in
    if not (bit_and byte mask == 0) then some i else rest

-- `none` is the `not_reached` behind the loop.
unfoldable pub find_first_free_allocation : ℕ → Option ℕ
unfolding first_bit
find_first_free_allocation byte = first_bit 8 0 1 byte

-- `byte & ~(1U << j)` and `byte | (1U << j)`, stored in an `unsigned char`
unfoldable pub clear_bit : ℕ → ℕ → ℕ
clear_bit byte j = bit_and byte (2 ^ 32 - 1 - 2 ^ j) % 256

unfoldable pub set_bit : ℕ → ℕ → ℕ
set_bit byte j = bit_or byte (2 ^ j) % 256

unfoldable pub set : List ℕ → ℕ → ℕ → List ℕ
set [] i v = []
set (x ∷ xs) zero v = v ∷ xs
set (x ∷ xs) (suc i) v = x ∷ set xs i v

-- `mask.bits == 0`
unfoldable pub no_bits : List ℕ → Bool
no_bits [] = true
no_bits (b ∷ bs) = (b == 0) && no_bits bs

-- The loop that looks for a byte with a free place, clears the lowest bit there, and gives the place
-- and the new mask; `none` is `not_reached`, or a byte behind the mask.
unfoldable pub take_first_free : ℕ → ℕ → List ℕ → Option (ℕ × List ℕ)
take_first_free zero i bytes = none
take_first_free (suc n) i bytes = elim (get_elem? bytes i) [
  | none ↦ none
  | some b ↦
      let rest = take_first_free n (i + 1) bytes in
      if not (b == 0)
      then elim (find_first_free_allocation b) [
        | none ↦ none
        | some j ↦ some (i * 8 + j, set bytes i (clear_bit b j))
      ]
      else rest
]

-- `mask.bytes[index / 8] |= 1U << index % 8`; `none` is a byte behind the mask.
unfoldable pub give_back : ℕ → List ℕ → Option (List ℕ)
give_back index bytes = elim (get_elem? bytes (index / 8)) [
  | none ↦ none
  | some b ↦ some (set bytes (index / 8) (set_bit b (index % 8)))
]

-- `(~mask.bits & allocations_mask) == 0`
unfoldable pub all_free : List ℕ → List ℕ → Bool
all_free (b ∷ bs) (m ∷ ms) = (bit_and (255 - b) m == 0) && all_free bs ms
all_free _ _ = true

-- The bytes of an `unsigned long`, the lowest first.
unfoldable pub bytes_of : ℕ → ℕ → List ℕ
bytes_of zero w = []
bytes_of (suc n) w = (w % 256) ∷ bytes_of n (w / 256)

-- `((1UL << n) & ~1UL) - 1`, where a shift by 64 is one by 0, as the processor has it.
unfoldable pub allocations_mask_of : ℕ → ℕ
allocations_mask_of n =
    (bit_and (2 ^ (n % long_bit) % 2 ^ long_bit) (2 ^ long_bit - 2) + 2 ^ long_bit - 1)
    % 2 ^ long_bit

-- Whether the place `k` is marked as free.
unfoldable pub is_free : List ℕ → ℕ → Bool
is_free bytes k = elim (get_elem? bytes (k / 8)) [ none ↦ false | some b ↦ bit b (k % 8) ]
