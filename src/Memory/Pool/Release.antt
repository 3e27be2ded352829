-- ===== src/Memory/Pool/Release.antt =====
-- What `amqp_deallocate` of Memory/Pool.c does.
use libamqp.Prelude.{
  ℕ, ◌+◌, ◌-◌, ◌%◌, ◌^◌, ◌≡◌, refl, ap, true, false, ◌&&◌, some, List, arith, ◌==◌, if◌then◌else◌,
}
use libamqp.Memory.Mask.Whole.{give_back_lem}
use libamqp.Memory.Pool.{
  Outcome, returns, Pointer, Memory, with_block_list, delete_object, deallocate, is_set,
  count_deallocation,
}
use libamqp.Memory.Pool.Invariant.{
  IsMemory, in_use, places_of-at, in_use-some, with_counters-IsMemory,
}
use libamqp.Memory.Pool.Delete.{release_block, IsReleased}

-- An object in use can be deleted.
pub delete_object_lem :
    (m : Memory) (blocks : List ℕ) (object : Pointer)
    → IsMemory m blocks
    → in_use m object.block object.slot ≡ true
    → (m' : Memory) × (delete_object m object ≡ returns m') × IsReleased m object m'
unfolding delete_object
delete_object_lem m blocks object fine used =
    let (b, at, below, off) = in_use-some m object.block object.slot used in
    let block_is_fine =
      fine.blocks_fine object.block b.mask b.allocations (places_of-at m.heap object.block b at) in
    let head = block_is_fine.headers object.slot below in
    let (mask, gives, given) =
      give_back_lem object.slot b.mask block_is_fine.bytes
        (omega (arith, block_is_fine.eight, fine.linked.pool_fine.few, below)) in
    let (m', runs, released) =
      release_block m blocks fine object.block object.slot b at below off mask given in
    (m', rw at (rw head (rw at (rw gives runs))), released)

-- What `amqp_deallocate` of an object does: the object is no longer in use, all others are as before,
-- the pool is fine again and counts one object less.
pub record IsDeallocated (m : Memory) (object : Pointer) (m' : Memory) : Type 0 where
  pub still_fine : (blocks : List ℕ) × IsMemory m' blocks
  pub uses :
      (a k : ℕ)
      → in_use m' a k ≡ (if (object.block == a) && (k == object.slot) then false else in_use m a k)
  pub pool_kept : m'.pool ≡ with_block_list (count_deallocation m.pool) m'.pool.block_list

-- On a pool with a destroyer that returns with a pool that is fine and has the object still in use,
-- whatever else it has given back, `amqp_deallocate` of the object returns: against the pool that
-- the destroyer has left, the object is no longer in use, any other is as it was, the pool is fine,
-- with its blocks linked both ways and none of them without an object, and apart from the head of
-- its list only its count of objects has changed, by one.
pub deallocate_lem :
    (destroy : Memory → Pointer → Outcome Memory) (m m1 : Memory) (blocks : List ℕ)
    (object : Pointer)
    → is_set m.pool.destroyer_callback ≡ true
    → destroy m object ≡ returns m1
    → IsMemory m1 blocks
    → in_use m1 object.block object.slot ≡ true
    → (m' : Memory) × (deallocate destroy m (some object) ≡ returns m') × IsDeallocated m1 object m'
unfolding deallocate in_use
deallocate_lem destroy m m1 blocks object set destroys fine used =
    let (m2, runs, released) = delete_object_lem m1 blocks object fine used in
    let (left, left_fine) = released.still_fine in
    (
      record m2 { pool = count_deallocation m2.pool },
      rw set (rw destroys (rw runs refl)),
      record {
        still_fine = (
          left,
          with_counters-IsMemory m2 left ((m2.pool.outstanding_allocations + 2 ^ 64 - 1) % 2 ^ 64)
              m2.pool.total_allocation_calls left_fine,
        );
        uses = released.uses;
        pool_kept = ap count_deallocation released.pool_kept;
      },
    )
