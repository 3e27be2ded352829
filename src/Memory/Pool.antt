-- ===== src/Memory/Pool.antt =====
-- Memory/Pool.c and the types of Memory/Pool.h and Memory/PoolInternal.h, built with the pools and
-- without the debug chain. A block is an entry of a heap at the address that `malloc` gave; an
-- object's address is that of its block and the index of its place.
pub mod Sizes
pub mod Fitting
pub mod Layout
pub mod Chain
pub mod Vacate
pub mod Unlink
pub mod Invariant
pub mod Delete
pub mod Release
pub mod Room
pub mod NewBlock
pub mod Allocate
pub mod Objects
mod Tests
use libamqp.Prelude.{
  ℕ, zero, suc, ◌+◌, ◌-◌, ◌*◌, ◌/◌, ◌%◌, ◌^◌, ◌≤◌, ◌<◌, ◌≡◌, ◌≢◌, ◌↔◌, ◌⊎◌, inl, inr, refl, sym, ap,
  ◌∙◌, Bool, true, false, ◌&&◌, ◌||◌, not, Option, none, some, List, [], ◌∷◌, ◌++◌, map, arith, ltb,
  leb, ◌==◌, if◌then◌else◌, Bool-cases, Option-cases, if_true, if_false, ltb→lt, lt→ltb, le→ltb,
  leb→le, le→leb, gt→leb, ==→eq, length, get_elem?, get_elem?-some, get_elem?-lt, length-append,
  update, All,
}
pub use libamqp.Prelude.Outcome.{
  Outcome, returns, stops, undefined, ◌>>=◌, or_undefined, or_stops, assert,
}
use libamqp.Memory.Mask.{
  long_bit, no_bits, take_first_free, give_back, all_free, bytes_of, allocations_mask_of,
}

-- The header of a place and the guard behind its object.
pub record Allocation : Type 0 where
  pub block : ℕ
  pub index : ℕ
  pub leading_guard : ℕ
  pub trailing_guard : ℕ

-- 0 is the null pointer.
pub record Block : Type 0 where
  pub next : ℕ
  pub previous : ℕ
  pub mask : List ℕ
  pub allocations : List Allocation

abbrev pub Heap : Type 0
Heap = ℕ → Option Block

pub data Callback : Type 0 where
  null default_callback : Callback
  client : ℕ → Callback

pub record Pool : Type 0 where
  pub block_list : ℕ
  pub allocations_per_block : ℕ
  pub allocations_mask : List ℕ
  pub block_size : ℕ
  pub offset_to_first_allocation : ℕ
  pub offset_to_allocation_data : ℕ
  pub object_size_in_fragments : ℕ
  pub allocation_size_in_bytes : ℕ
  pub outstanding_allocations : ℕ
  pub total_allocation_calls : ℕ
  pub initialized : Bool
  pub initializer_callback : Callback
  pub destroyer_callback : Callback

-- A pool and the blocks on the heap.
pub record Memory : Type 0 where
  pub pool : Pool
  pub heap : Heap

pub record Pointer : Type 0 where
  pub block : ℕ
  pub slot : ℕ

abbrev pub leading_mask : ℕ
leading_mask = 0x1d32a441

abbrev pub trailing_mask : ℕ
trailing_mask = 0x53d0cabf1d2d6c40

abbrev pub load : Heap → ℕ → Outcome Block
load h p = or_undefined (h p)

abbrev pub with_block_list : Pool → ℕ → Pool
with_block_list pool p = record pool { block_list = p }

abbrev pub with_mask : Block → List ℕ → Block
with_mask b m = record b { mask = m }

abbrev pub with_next : Block → ℕ → Block
with_next b p = record b { next = p }

abbrev pub with_previous : Block → ℕ → Block
with_previous b p = record b { previous = p }

-- The blocks are looked at along the list; the rounds are those that the caller allows.
unfoldable pub find_block_with_free_space : ℕ → Heap → ℕ → Outcome ℕ
find_block_with_free_space zero h p = undefined
find_block_with_free_space (suc n) h p =
    if p == 0
    then returns 0
    else (load h p >>= λ b.
        let rest = find_block_with_free_space n h b.next in
        if no_bits b.mask then rest else returns p)

-- The loop that fills in the header of each place.
unfoldable pub fill_allocations : ℕ → ℕ → ℕ → List Allocation
fill_allocations zero i p = []
fill_allocations (suc n) i p =
    record { block = p; index = i; leading_guard = leading_mask; trailing_guard = trailing_mask }
    ∷ fill_allocations n (i + 1) p

abbrev pub block_bytes : Pool → ℕ
block_bytes pool =
    (pool.allocation_size_in_bytes * pool.allocations_per_block + pool.offset_to_first_allocation)
    % 2 ^ 64

-- A pointer of a block is set only where there is a block.
unfoldable pub set_previous : Heap → ℕ → ℕ → Outcome Heap
set_previous h p q =
    if p == 0
    then returns h
    else (load h p >>= λ b. returns (update h p (some (with_previous b q))))

unfoldable pub set_next : Heap → ℕ → ℕ → Outcome Heap
set_next h p q = load h p >>= λ b. returns (update h p (some (with_next b q)))

abbrev pub is_set : Callback → Bool
is_set null = false
is_set _ = true

abbrev pub count_allocation : Pool → Pool
count_allocation pool = record pool {
  outstanding_allocations = (pool.outstanding_allocations + 1) % 2 ^ 64;
  total_allocation_calls = (pool.total_allocation_calls + 1) % 2 ^ 64;
}

-- Clears the bit of the first free place, and gives its index.
unfoldable pub find_free_allocation_within_block : Memory → ℕ → Outcome (ℕ × Memory)
find_free_allocation_within_block m p = do
  b ← load m.heap p
  _ ← assert (not (no_bits b.mask))
  (index, mask) ← or_stops (take_first_free (m.pool.allocations_per_block / 8 + 1) 0 b.mask)
  returns (index, record m { heap = update m.heap p (some (with_mask b mask)) })

-- `malloc` is the system's: the address that it gives for a number of bytes.
module _ (malloc : Heap → ℕ → ℕ) where
  unfoldable pub allocate_new_memory_block : Memory → Outcome (ℕ × Memory)
  allocate_new_memory_block m =
      let p = malloc m.heap (block_bytes m.pool) in
      set_previous m.heap m.pool.block_list p >>= λ h. returns (
        p,
        record {
          pool = with_block_list m.pool p;
          heap = update h p (
              some (record {
                next = m.pool.block_list;
                previous = 0;
                mask = m.pool.allocations_mask;
                allocations = fill_allocations m.pool.allocations_per_block 0 p;
              }));
        },
      )

  abbrev pub block_for_object : ℕ → Memory → Outcome (ℕ × Memory)
  block_for_object p m = if p == 0 then allocate_new_memory_block m else returns (p, m)

  -- A place whose header names another block stops the program.
  unfoldable pub allocate_object : ℕ → Memory → Outcome (Pointer × Memory)
  allocate_object rounds m = do
    p ← find_block_with_free_space rounds m.heap m.pool.block_list
    (q, m1) ← block_for_object p m
    (index, m2) ← find_free_allocation_within_block m1 q
    b ← load m2.heap q
    a ← or_undefined (get_elem? b.allocations index)
    _ ← assert (a.block == q)
    returns (record { block = q; slot = index }, m2)

  -- The initializer is given the object; it sees neither the pool's list nor its blocks' headers.
  unfoldable pub allocate : ℕ → Memory → Outcome (Pointer × Memory)
  allocate rounds m = do
    _ ← assert (m.pool.initialized && is_set m.pool.initializer_callback)
    _ ← assert (not (m.pool.object_size_in_fragments == 0))
    (object, m1) ← allocate_object rounds m
    returns (object, record m1 { pool = count_allocation m1.pool })

-- The list without the block `b` at `p`.
unfoldable pub unlink : Memory → ℕ → Block → Outcome Memory
unlink m p b = set_previous m.heap b.next b.previous >>= λ h.
    if not (b.previous == 0)
    then (set_next h b.previous b.next >>= λ h'. returns (record m { heap = update h' p none }))
    else returns (record { pool = with_block_list m.pool b.next; heap = update h p none })

-- The bit of the place is set, and a block with no object left is given back.
unfoldable pub delete_object : Memory → Pointer → Outcome Memory
delete_object m object = do
  holder ← load m.heap object.block
  a ← or_undefined (get_elem? holder.allocations object.slot)
  _ ← assert (a.leading_guard == leading_mask)
  _ ← assert (a.trailing_guard == trailing_mask)
  b ← load m.heap a.block
  mask ← or_undefined (give_back a.index b.mask)
  let b' = with_mask b mask
  let m' = record m { heap = update m.heap a.block (some b') }
  if all_free mask m.pool.allocations_mask then unlink m' a.block b' else returns m'

abbrev pub count_deallocation : Pool → Pool
count_deallocation pool = record pool {
  outstanding_allocations = (pool.outstanding_allocations + 2 ^ 64 - 1) % 2 ^ 64;
}

-- `destroy` is what the destroyer does with the object; it may itself call `amqp_deallocate` on the
-- pool, as that of `amqp_type_t` does for the objects that one holds. `none` is the null pointer.
unfoldable pub deallocate :
    (Memory → Pointer → Outcome Memory) → Memory → Option Pointer → Outcome Memory
deallocate destroy m none = assert (is_set m.pool.destroyer_callback) >>= λ _. returns m
deallocate destroy m (some object) = do
  _ ← assert (is_set m.pool.destroyer_callback)
  m1 ← destroy m object
  m2 ← delete_object m1 object
  returns (record m2 { pool = count_deallocation m2.pool })

unfoldable pub amqp_check_pool_is_empty : Pool → Bool
amqp_check_pool_is_empty pool = pool.outstanding_allocations == 0

unfoldable pub amqp_pool_specify_initialization_callbacks :
    Pool → Callback → Callback → Outcome Pool
amqp_pool_specify_initialization_callbacks pool initializer destroyer = do
  _ ← assert pool.initialized
  _ ← assert (pool.total_allocation_calls == 0)
  returns (record pool { initializer_callback = initializer; destroyer_callback = destroyer })
