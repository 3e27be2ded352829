-- ===== src/Memory/Pool/Layout.antt =====
-- The sizes of a pool just laid out: the loops over them end, and the places fit into the block.
use libamqp.Prelude.{
  ℕ, zero, suc, ◌+◌, ◌*◌, ◌/◌, ◌^◌, ◌≤◌, ◌<◌, ◌≡◌, inr, refl, sym, true, false, none, arith, ltb,
}
use mathlib.Core.Path.{subst}
use libamqp.Memory.Mask.{bytes_of, allocations_mask_of, is_free}
use libamqp.Memory.Mask.Bytes.{allocations_mask-is_free, allocations_mask-zero}
use libamqp.Memory.Pool.{returns, undefined, Pool, default_callback}
use libamqp.Memory.Pool.Sizes.{
  byte_count_rounded_to_size_t_array_size, calculate_allocation_t_size_in_bytes, adjust_loop,
  adjust_block_size, amqp_initialize_pool_suggesting_block_size,
}
use libamqp.Memory.Pool.Fitting.{adjust_loop_ends, fit_loop_ends, Fits}

fragments_hold :
    (n : ℕ)
    → 0 < n
    → n < 2 ^ 63
    → let k = byte_count_rounded_to_size_t_array_size n in (2 ≤ k) × (n ≤ k * 8) × (k < 2 ^ 60 + 2)
unfolding byte_count_rounded_to_size_t_array_size
fragments_hold n pos bound = ground arith

allocation_bytes :
    (k : ℕ) → k < 2 ^ 60 + 2 → calculate_allocation_t_size_in_bytes 16 k ≡ 16 + (k + 1) * 8
unfolding calculate_allocation_t_size_in_bytes
allocation_bytes k h = omega arith

-- A pool just laid out: the places of a block, each a header, the object and a guard, fit into it,
-- one more would not, and the mask marks just them. With no place at all it marks 64.
pub record IsLaidOut (pooled_object_size : ℕ) (pool : Pool) : Type 0 where
  pub ready : pool.initialized ≡ true
  pub no_block : pool.block_list ≡ 0
  pub none_out : pool.outstanding_allocations ≡ 0
  pub callbacks :
      (pool.initializer_callback ≡ default_callback) × (pool.destroyer_callback ≡ default_callback)
  pub two_fragments : 2 ≤ pool.object_size_in_fragments
  pub offset : pool.offset_to_first_allocation ≡ 32
  pub object_fits : pooled_object_size ≤ pool.object_size_in_fragments * 8
  pub place : pool.allocation_size_in_bytes ≡ 16 + (pool.object_size_in_fragments + 1) * 8
  pub fits_block : Fits pool.block_size pool.allocation_size_in_bytes pool.allocations_per_block
  pub mask_built :
      pool.allocations_mask ≡ bytes_of 8 (allocations_mask_of pool.allocations_per_block)
  pub marked :
      0 < pool.allocations_per_block
      → (k : ℕ) → k < 64
      → is_free pool.allocations_mask k ≡ ltb k pool.allocations_per_block

pub mask_marks :
    (n k : ℕ) → 0 < n → n ≤ 64 → k < 64 → is_free (bytes_of 8 (allocations_mask_of n)) k ≡ ltb k n
mask_marks zero k pos few h = absurd (omega arith)
mask_marks (suc n) k pos few h = allocations_mask-is_free n k (omega arith) h

module _ (pooled_object_size : ℕ) (fitted : ℕ × ℕ) where
  abbrev laid_out : Pool
  laid_out = record {
    block_list = 0;
    allocations_per_block = fitted.1;
    allocations_mask = bytes_of 8 (allocations_mask_of fitted.1);
    block_size = fitted.0;
    offset_to_first_allocation = 32;
    offset_to_allocation_data = 16;
    object_size_in_fragments = byte_count_rounded_to_size_t_array_size pooled_object_size;
    allocation_size_in_bytes =
        calculate_allocation_t_size_in_bytes 16
          (byte_count_rounded_to_size_t_array_size pooled_object_size);
    outstanding_allocations = 0;
    total_allocation_calls = 0;
    initialized = true;
    initializer_callback = default_callback;
    destroyer_callback = default_callback;
  }

-- Given rounds enough to halve 4096 down to 0, an object of a byte at least and less than 2^63, and a
-- suggested block with room for its header, `amqp_initialize_pool_suggesting_block_size` ends, and
-- the pool is laid out: a block has at most 64 places and 4096 bytes, each place has room for its
-- header, the object and the guard, the places lie in the block behind its header and one more
-- would not, and the mask marks just the places of the block, if there are any.
pub initialize_pool_lem :
    (rounds pooled_object_size suggested : ℕ)
    → 4096 < 2 ^ rounds
    → 0 < pooled_object_size
    → pooled_object_size < 2 ^ 63
    → 32 ≤ suggested
    → (pool : Pool) × (amqp_initialize_pool_suggesting_block_size rounds pooled_object_size
          suggested
        ≡ returns pool)
      × IsLaidOut pooled_object_size pool
unfolding amqp_initialize_pool_suggesting_block_size adjust_block_size
initialize_pool_lem zero pooled_object_size suggested enough pos bound low = absurd (omega arith)
initialize_pool_lem (suc zero) pooled_object_size suggested enough pos bound low =
    absurd (omega arith)
initialize_pool_lem (suc (suc n)) pooled_object_size suggested enough pos bound low =
    let (two, hold, short) = fragments_hold pooled_object_size pos bound in
    let bytes =
      calculate_allocation_t_size_in_bytes 16
        (byte_count_rounded_to_size_t_array_size pooled_object_size) in
    let place =
      allocation_bytes (byte_count_rounded_to_size_t_array_size pooled_object_size) short in
    let (adjusted, adjusts, le, large) =
      adjust_loop_ends (suc (suc n)) 4096 suggested (omega arith) enough (inr refl) in
    let (fitted, ends, fits_in) =
      fit_loop_ends n adjusted bytes (ground (arith, large)) le (omega (arith, place, two)) in
    (
      laid_out pooled_object_size fitted,
      rw adjusts (rw ends refl),
      record {
        ready = refl;
        no_block = refl;
        none_out = refl;
        callbacks = (refl, refl);
        two_fragments = two;
        offset = refl;
        object_fits = hold;
        place = place;
        fits_block = fits_in;
        mask_built = refl;
        marked = λ pos' k h. mask_marks fitted.1 k pos' fits_in.few h;
      },
    )

no_places : (bytes n : ℕ) → 4096 ≤ bytes → n * bytes + 32 ≤ 4096 → n ≡ 0
no_places bytes zero h g = refl
no_places bytes (suc n) h g = absurd (grind arith)

-- Where the object has no place in a block of 4096 bytes, the mask marks 64 places all the same.
pub initialize_pool-no_place :
    (rounds pooled_object_size suggested : ℕ)
    → 4096 < 2 ^ rounds
    → 4096 ≤ pooled_object_size
    → pooled_object_size < 2 ^ 63
    → 32 ≤ suggested
    → (pool : Pool) × (amqp_initialize_pool_suggesting_block_size rounds pooled_object_size
          suggested
        ≡ returns pool)
      × (pool.allocations_per_block ≡ 0)
      × ((k : ℕ) → k < 64 → is_free pool.allocations_mask k ≡ true)
initialize_pool-no_place rounds pooled_object_size suggested enough wide bound low =
    let (pool, runs, l) =
      initialize_pool_lem rounds pooled_object_size suggested enough (omega arith) bound low in
    let none_fits : pool.allocations_per_block ≡ 0 =
      no_places pool.allocation_size_in_bytes pool.allocations_per_block
        (omega (arith, l.place, l.object_fits)) (omega (arith, l.fits_block)) in
    (
      pool,
      runs,
      none_fits,
      λ k h. rw (l.mask_built) (
          subst (λ n. is_free (bytes_of 8 (allocations_mask_of n)) k ≡ true) (sym none_fits)
            (allocations_mask-zero k h)),
    )

-- With a suggestion of no bytes the halving never ends, whatever the rounds.
adjust_loop-zero : (n size : ℕ) → adjust_loop n size 0 ≡ none
unfolding adjust_loop
adjust_loop-zero zero size = refl
adjust_loop-zero (suc n) size =
    let off : ltb (size / 2) 0 ≡ false = ground arith in rw off (adjust_loop-zero n (size / 2))

pub initialize_pool-zero :
    (rounds pooled_object_size : ℕ)
    → amqp_initialize_pool_suggesting_block_size rounds pooled_object_size 0 ≡ undefined
unfolding amqp_initialize_pool_suggesting_block_size adjust_block_size
initialize_pool-zero rounds pooled_object_size = rw (adjust_loop-zero rounds 4096) refl
