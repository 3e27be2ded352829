-- ===== src/Memory/Pool/Allocate.antt =====
-- What `amqp_allocate` of Memory/Pool.c does.
use libamqp.Prelude.{
  ℕ, ◌+◌, ◌%◌, ◌^◌, ◌<◌, ◌≡◌, inl, inr, refl, sym, ap, ◌∙◌, true, false, ◌&&◌, none, some, List,
  ◌∷◌, arith, ◌==◌, if◌then◌else◌, length, get_elem?,
}
use libamqp.Memory.Pool.{
  returns, Allocation, Block, Heap, Pointer, Memory, with_mask, with_block_list,
  find_block_with_free_space, block_bytes, allocate_new_memory_block,
  find_free_allocation_within_block, block_for_object, allocate_object, allocate, is_set,
  count_allocation,
}
use libamqp.Memory.Pool.Chain.{Chain-push, update_self}
use libamqp.Memory.Pool.Vacate.{set_previous-places_of}
use libamqp.Memory.Pool.Invariant.{header, IsMemory, in_use, with_mask_at, with_counters-IsMemory}
-- The search along the list ends, with no block or with one that has a free place.
use libamqp.Memory.Pool.Room.{find_block_lem, HasRoom, take_from_block}
-- A block of the list with room is chosen as it is.
use libamqp.Memory.Pool.NewBlock.{
  chosen_HasRoom, new_block, with_new_block, fresh_Absent, new_HasRoom, new_in_use,
}

-- What `amqp_allocate` promises: the object was not in use and now is, any other is as it was, and
-- the pool is fine; apart from the head of its list only its counters have changed.
pub record IsAllocated (m : Memory) (object : Pointer) (m' : Memory) : Type 0 where
  pub still_fine : (blocks : List ℕ) × IsMemory m' blocks
  pub was_unused : in_use m object.block object.slot ≡ false
  pub uses :
      (a k : ℕ)
      → in_use m' a k ≡ (if (object.block == a) && (k == object.slot) then true else in_use m a k)
  pub pool_kept : m'.pool ≡ with_block_list (count_allocation m.pool) m'.pool.block_list

module _ (malloc : Heap → ℕ → ℕ) where
  -- The block for the object, an old one or a new one.
  chosen_block :
      (rounds : ℕ) (m : Memory) (blocks : List ℕ)
      → IsMemory m blocks
      → length blocks < rounds
      → 0 < malloc m.heap (block_bytes m.pool)
      → m.heap (malloc m.heap (block_bytes m.pool)) ≡ none
      → (a : ℕ) × (m1 : Memory) × (blocks1 : List ℕ) × (b : Block) × ((p : ℕ)
          × (find_block_with_free_space rounds m.heap m.pool.block_list ≡ returns p)
          × (block_for_object malloc p m ≡ returns (a, m1)))
        × HasRoom m1 blocks1 a b
        × ((c j : ℕ) → in_use m1 c j ≡ in_use m c j)
        × (m1.pool ≡ with_block_list m.pool m1.pool.block_list)
  unfolding allocate_new_memory_block
  chosen_block rounds m blocks fine enough pos fresh =
      let (r, runs, found) =
        find_block_lem rounds m.heap 0 m.pool.block_list blocks fine.linked.chain enough in
      elim found [
        | inr (live, (b, at, room)) ↦
            let off : (r == 0) ≡ false = ground (arith, live) in
            (
              r,
              m,
              blocks,
              b,
              (r, runs, rw off refl),
              chosen_HasRoom m blocks r b fine at room,
              λ c j. refl,
              refl,
            )
        | inl full ↦
            let p = malloc m.heap (block_bytes m.pool) in
            let (h1, pushes, chain) =
              Chain-push m.heap m.pool.block_list p blocks (new_block m.pool p) pos
                (fresh_Absent m blocks fine p pos fresh) fine.linked.distinct refl refl
                fine.linked.chain in
            let kept = λ (c : ℕ). set_previous-places_of m.heap h1 m.pool.block_list p c pushes in
            (
              p,
              with_new_block m p h1,
              p ∷ blocks,
              new_block m.pool p,
              (r, runs, rw full (rw pushes refl)),
              new_HasRoom m blocks fine p pos fresh h1 kept chain,
              new_in_use m blocks fine p pos fresh h1 kept chain,
              refl,
            )
      ]

  allocate_object_runs :
      (rounds : ℕ) (m m1 m2 : Memory) (p a k : ℕ) (b : Block) (place : Allocation)
      → find_block_with_free_space rounds m.heap m.pool.block_list ≡ returns p
      → block_for_object malloc p m ≡ returns (a, m1)
      → find_free_allocation_within_block m1 a ≡ returns (k, m2)
      → m2.heap a ≡ some b
      → get_elem? b.allocations k ≡ some place
      → place.block ≡ a
      → allocate_object malloc rounds m ≡ returns (record { block = a; slot = k }, m2)
  unfolding allocate_object
  allocate_object_runs rounds m m1 m2 p a k b place finds chooses takes at there own =
      let self : (place.block == a) ≡ true = ground (arith, own) in
      rw finds (rw chooses (rw takes (rw at (rw there (rw self refl)))))

  allocate_runs :
      (rounds : ℕ) (m m2 : Memory) (object : Pointer)
      → (m.pool.initialized && is_set m.pool.initializer_callback) ≡ true
      → (m.pool.object_size_in_fragments == 0) ≡ false
      → allocate_object malloc rounds m ≡ returns (object, m2)
      → allocate malloc rounds m ≡ returns (object, record m2 { pool = count_allocation m2.pool })
  unfolding allocate
  allocate_runs rounds m m2 object ready sized runs = rw ready (rw sized (rw runs refl))

  -- On a pool that is fine and has an initializer, with more rounds than blocks, where `malloc` gives
  -- an address that is not null and at which there is no block, `amqp_allocate` returns an object
  -- that was not in use and now is; any other is as it was, the pool is fine, and apart from the head
  -- of its list only its counters have changed, by one.
  pub allocate_lem :
      (rounds : ℕ) (m : Memory) (blocks : List ℕ)
      → IsMemory m blocks
      → is_set m.pool.initializer_callback ≡ true
      → length blocks < rounds
      → 0 < malloc m.heap (block_bytes m.pool)
      → m.heap (malloc m.heap (block_bytes m.pool)) ≡ none
      → (object : Pointer) × (m' : Memory) × (allocate malloc rounds m ≡ returns (object, m'))
        × IsAllocated m object m'
  unfolding allocate allocate_object in_use
  allocate_lem rounds m blocks fine set enough pos fresh =
      let (a, m1, blocks1, b, (p, finds, chooses), room, same, layout) =
        chosen_block rounds m blocks fine enough pos fresh in
      let (k, mask, takes, below, given) = take_from_block m1 blocks1 a b room in
      let m2 = with_mask_at m1 a b mask in
      let runs =
        allocate_object_runs rounds m m1 m2 p a k (with_mask b mask) (header a k) finds chooses
          takes (update_self m1.heap a (some (with_mask b mask))) (room.headers k below) refl in
      let sized : (m.pool.object_size_in_fragments == 0) ≡ false =
        ground (arith, fine.linked.pool_fine.sized) in
      let (left, left_fine) = given.still_fine in
      (
        record { block = a; slot = k },
        record m2 { pool = count_allocation m2.pool },
        allocate_runs rounds m m2 (record { block = a; slot = k })
            (ap (λ b. b && is_set m.pool.initializer_callback) fine.linked.pool_fine.ready ∙ set)
            sized runs,
        record {
          still_fine = (
            left,
            with_counters-IsMemory m2 left ((m2.pool.outstanding_allocations + 1) % 2 ^ 64)
                ((m2.pool.total_allocation_calls + 1) % 2 ^ 64) left_fine,
          );
          was_unused = sym (same a k) ∙ given.was_unused;
          uses = λ c j. given.uses c j ∙ rw (same c j) refl;
          pool_kept = ap count_allocation layout;
        },
      )
