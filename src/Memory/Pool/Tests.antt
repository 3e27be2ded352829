-- ===== src/Memory/Pool/Tests.antt =====
-- Runs of the pools of Memory/Pool.c and instances of the theorems on them.
use mathlib.Core.Path.{subst}
use libamqp.Prelude.{
  Option, sym, ap, ◌∙◌, ℕ, ◌<◌, ◌≡◌, ◌↔◌, refl, true, none, some, List, [], ◌∷◌, arith, length,
  update,
}
use libamqp.Memory.Mask.{
  is_free, no_bits, take_first_free, give_back, all_free, bytes_of, allocations_mask_of, set_bit,
  clear_bit, first_bit, find_first_free_allocation, set,
}
use libamqp.Memory.Pool.{
  Outcome, returns, stops, undefined, ◌>>=◌, Allocation, Block, Pool, Pointer, Memory,
  default_callback, allocate, deallocate, delete_object, allocate_object, allocate_new_memory_block,
  find_free_allocation_within_block, find_block_with_free_space, fill_allocations, set_previous,
  unlink, amqp_check_pool_is_empty,
}
use libamqp.Memory.Pool.Sizes.{
  amqp_initialize_pool, amqp_initialize_pool_suggesting_block_size, adjust_block_size, adjust_loop,
  fit_loop, byte_count_rounded_to_size_t_array_size, calculate_allocation_t_size_in_bytes,
}
use libamqp.Memory.Pool.Layout.{
  IsLaidOut, mask_marks, initialize_pool_lem, initialize_pool-no_place, initialize_pool-zero,
}
use libamqp.Memory.Pool.Invariant.{IsMemory}
use libamqp.Memory.Pool.Allocate.{IsAllocated, allocate_lem}
use libamqp.Memory.Pool.Release.{IsDeallocated, deallocate_lem}
use libamqp.Memory.Pool.Objects.{
  Reach, give, release, Represents, Reach-Represents, check_pool_is_empty_lem, laid_out-Reach,
  laid_out-IsMemory,
}
mod Nested

-- A pool for objects of 40 bytes: 31 places in a block of 2048 bytes.
abbrev small_pool : Pool
small_pool = record {
  block_list = 0;
  allocations_per_block = 31;
  allocations_mask = 255 ∷ 255 ∷ 255 ∷ 127 ∷ 0 ∷ 0 ∷ 0 ∷ 0 ∷ [];
  block_size = 2048;
  offset_to_first_allocation = 32;
  offset_to_allocation_data = 16;
  object_size_in_fragments = 5;
  allocation_size_in_bytes = 64;
  outstanding_allocations = 0;
  total_allocation_calls = 0;
  initialized = true;
  initializer_callback = default_callback;
  destroyer_callback = default_callback;
}

small_pool_runs : amqp_initialize_pool 13 40 ≡ returns small_pool
unfolding amqp_initialize_pool amqp_initialize_pool_suggesting_block_size adjust_block_size
    adjust_loop fit_loop byte_count_rounded_to_size_t_array_size
    calculate_allocation_t_size_in_bytes bytes_of allocations_mask_of
small_pool_runs = refl

abbrev pub empty_memory : Memory
empty_memory = record { pool = small_pool; heap = λ _. none }

abbrev slot_of : Outcome (Pointer × Memory) → ℕ
slot_of (returns (o, m)) = o.slot
slot_of stops = 1000
slot_of undefined = 2000

-- Two objects of one block; the first is given back and its place is given out again.
abbrev again : Outcome (Pointer × Memory)
again = allocate (λ _ _. 4096) 2 empty_memory >>= λ first.
    allocate (λ _ _. 4096) 2 first.1 >>= λ second.
    deallocate (λ m _. returns m) second.1 (some first.0) >>= λ m. allocate (λ _ _. 4096) 2 m

again_runs : slot_of again ≡ 0
unfolding allocate deallocate delete_object allocate_object allocate_new_memory_block
    find_free_allocation_within_block find_block_with_free_space fill_allocations set_previous
    unlink no_bits take_first_free give_back all_free set_bit clear_bit first_bit
    find_first_free_allocation set
again_runs = refl

initialize_pool_lem_example :
    (pool : Pool) × (amqp_initialize_pool_suggesting_block_size 13 40 2048 ≡ returns pool)
    × IsLaidOut 40 pool
initialize_pool_lem_example =
    initialize_pool_lem 13 40 2048 (omega arith) (omega arith) (omega arith) (omega arith)

initialize_pool-no_place_example :
    (pool : Pool) × (amqp_initialize_pool_suggesting_block_size 13 5000 2048 ≡ returns pool)
    × (pool.allocations_per_block ≡ 0)
    × ((k : ℕ) → k < 64 → is_free pool.allocations_mask k ≡ true)
initialize_pool-no_place_example =
    initialize_pool-no_place 13 5000 2048 (omega arith) (omega arith) (omega arith) (omega arith)

initialize_pool-zero_example : amqp_initialize_pool_suggesting_block_size 100 40 0 ≡ undefined
initialize_pool-zero_example = initialize_pool-zero 100 40

small_mask : small_pool.allocations_mask ≡ bytes_of 8 (allocations_mask_of 31)
unfolding bytes_of allocations_mask_of
small_mask = refl

small_pool-IsLaidOut : IsLaidOut 40 small_pool
small_pool-IsLaidOut = record {
  ready = refl;
  no_block = refl;
  none_out = refl;
  callbacks = (refl, refl);
  two_fragments = omega arith;
  offset = refl;
  object_fits = omega arith;
  place = refl;
  fits_block = record {
    few = omega arith;
    inside = omega arith;
    full = omega arith;
    small = omega arith;
  };
  mask_built = small_mask;
  marked = λ _ k h. rw small_mask (mask_marks 31 k (omega arith) (omega arith) h);
}

start : Reach empty_memory []
start = laid_out-Reach 40 small_pool small_pool-IsLaidOut (omega arith)

empty_memory-IsMemory : IsMemory empty_memory []
empty_memory-IsMemory = laid_out-IsMemory 40 small_pool small_pool-IsLaidOut (omega arith)

allocate_lem_example :
    (object : Pointer) × (m' : Memory) × (allocate (λ _ _. 4096) 2 empty_memory
      ≡ returns (object, m'))
    × IsAllocated empty_memory object m'
allocate_lem_example =
    allocate_lem (λ _ _. 4096) 2 empty_memory [] empty_memory-IsMemory refl (omega arith)
      (omega arith) refl

-- The first object of the pool, and the pool after it.
abbrev pub first_object : Pointer
first_object = record { block = 4096; slot = 0 }

abbrev pub memory_of : Outcome (Pointer × Memory) → Memory
memory_of (returns (o, m)) = m
memory_of stops = empty_memory
memory_of undefined = empty_memory

abbrev pub one_object : Memory
one_object = memory_of (allocate (λ _ _. 4096) 2 empty_memory)

first_runs : allocate (λ _ _. 4096) 2 empty_memory ≡ returns (first_object, one_object)
unfolding allocate deallocate delete_object allocate_object allocate_new_memory_block
    find_free_allocation_within_block find_block_with_free_space fill_allocations set_previous
    unlink no_bits take_first_free give_back all_free set_bit clear_bit first_bit
    find_first_free_allocation set
first_runs = refl

pub one_object-Reach : Reach one_object (first_object ∷ [])
one_object-Reach =
    give 4096 2 first_object start (omega arith) refl (λ blocks fine. few_blocks blocks fine)
      first_runs
  where
    few_blocks : (blocks : List ℕ) → IsMemory empty_memory blocks → length blocks < 2
    few_blocks [] fine = omega arith
    few_blocks (a ∷ bs) fine = absurd (ground (arith, fine.linked.chain))

-- A block of one place, the guard behind whose object has been written over.
abbrev overrun : Allocation
overrun = record { block = 4096; index = 0; leading_guard = 0x1d32a441; trailing_guard = 7 }

abbrev overrun_block : Block
overrun_block = record { next = 0; previous = 0; mask = []; allocations = overrun ∷ [] }

abbrev overrun_memory : Memory
overrun_memory = record { pool = small_pool; heap = update (λ _. none) 4096 (some overrun_block) }

overrun_stops : delete_object overrun_memory first_object ≡ stops
unfolding delete_object
overrun_stops = refl
