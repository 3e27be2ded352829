-- ===== src/Memory/Pool/Sizes.antt =====
-- How a pool is laid out, the second half of Memory/Pool.c, where pointers and `unsigned long` have
-- eight bytes and `long double` sixteen: the sizes are `size_t`.
use libamqp.Prelude.{
  ℕ, zero, suc, ◌+◌, ◌-◌, ◌*◌, ◌/◌, ◌%◌, ◌^◌, Bool, true, ◌&&◌, Option, none, some, ltb,
  if◌then◌else◌,
}
use libamqp.Memory.Mask.{long_bit, bytes_of, allocations_mask_of}
use libamqp.Memory.Pool.{Outcome, returns, ◌>>=◌, Pool, default_callback, or_undefined}

abbrev pub size_t_bytes : ℕ
size_t_bytes = 8

abbrev pub long_double_bytes : ℕ
long_double_bytes = 16

-- The bytes of a header in front of data with the alignment of a `long double`.
abbrev pub aligned : ℕ → ℕ
aligned n = (n + long_double_bytes - 1) / long_double_bytes * long_double_bytes

-- Two pointers and the mask; a pointer and two `uint32_t`.
abbrev pub calculate_block_offset_to_first_allocation : ℕ
calculate_block_offset_to_first_allocation = aligned 24

abbrev pub calculate_offset_to_allocation_data : ℕ
calculate_offset_to_allocation_data = aligned 16

abbrev pub min_fragments : ℕ
min_fragments = (long_double_bytes - 1) / size_t_bytes + 1

unfoldable pub byte_count_rounded_to_size_t_array_size : ℕ → ℕ
byte_count_rounded_to_size_t_array_size n =
    let result = (n + 2 ^ 64 - 1) % 2 ^ 64 / size_t_bytes + 1 in
    if ltb result min_fragments then min_fragments else result

unfoldable pub calculate_allocation_t_size_in_bytes : ℕ → ℕ → ℕ
calculate_allocation_t_size_in_bytes offset fragments =
    (offset + (fragments + 1) * size_t_bytes) % 2 ^ 64

abbrev pub preferred_block_size : ℕ
preferred_block_size = if ltb 32 long_bit then 2048 else 1024

-- The size is halved while its half is large enough; `none` if that does not end.
unfoldable pub adjust_loop : ℕ → ℕ → ℕ → Option ℕ
adjust_loop zero size block_size = none
adjust_loop (suc n) size block_size =
    let rest = adjust_loop n (size / 2) block_size in
    if ltb (size / 2) block_size then some size else rest

unfoldable pub adjust_block_size : ℕ → ℕ → Option ℕ
adjust_block_size rounds block_size = adjust_loop rounds (preferred_block_size * 2) block_size

-- The quotient of `size_t` numbers, stored in an `int` of 32 bits.
abbrev pub places : ℕ → ℕ → ℕ → ℕ
places block_size offset bytes = (block_size + 2 ^ 64 - offset) % 2 ^ 64 / bytes % 2 ^ 32

-- More places than the mask has bits; the upper half of the `int`s are the negative ones.
abbrev pub too_many : ℕ → Bool
too_many n = ltb long_bit n && ltb n (2 ^ 31)

-- The block is halved until its places fit the mask; gives its size and the number of places.
unfoldable pub fit_loop : ℕ → ℕ → ℕ → ℕ → Option (ℕ × ℕ)
fit_loop zero block_size offset bytes = none
fit_loop (suc n) block_size offset bytes =
    let rest = fit_loop n (block_size / 2) offset bytes in
    if too_many (places block_size offset bytes)
    then rest
    else some (block_size, places block_size offset bytes)

-- The pool's list is empty and its counters are 0, by `memset`.
unfoldable pub amqp_initialize_pool_suggesting_block_size : ℕ → ℕ → ℕ → Outcome Pool
amqp_initialize_pool_suggesting_block_size rounds pooled_object_size suggested_block_size =
    let offset = calculate_block_offset_to_first_allocation in
    let data_offset = calculate_offset_to_allocation_data in
    let fragments = byte_count_rounded_to_size_t_array_size pooled_object_size in
    let bytes = calculate_allocation_t_size_in_bytes data_offset fragments in
    or_undefined (adjust_block_size rounds suggested_block_size) >>= λ adjusted.
    or_undefined (fit_loop rounds adjusted offset bytes) >>= λ fitted. returns (record {
      block_list = 0;
      allocations_per_block = fitted.1;
      allocations_mask = bytes_of 8 (allocations_mask_of fitted.1);
      block_size = fitted.0;
      offset_to_first_allocation = offset;
      offset_to_allocation_data = data_offset;
      object_size_in_fragments = fragments;
      allocation_size_in_bytes = bytes;
      outstanding_allocations = 0;
      total_allocation_calls = 0;
      initialized = true;
      initializer_callback = default_callback;
      destroyer_callback = default_callback;
    })

unfoldable pub amqp_initialize_pool : ℕ → ℕ → Outcome Pool
amqp_initialize_pool rounds pooled_object_size =
    amqp_initialize_pool_suggesting_block_size rounds pooled_object_size preferred_block_size
