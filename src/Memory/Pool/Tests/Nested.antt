-- ===== src/Memory/Pool/Tests/Nested.antt =====
-- A destroyer that gives back another object of its pool, as that of `amqp_type_t` does: runs, and
-- instances of the theorems on `amqp_deallocate`.
use mathlib.Core.Path.{subst}
use libamqp.Prelude.{
  Option, sym, ap, ◌∙◌, ℕ, ◌<◌, ◌≡◌, ◌↔◌, refl, true, none, some, List, [], ◌∷◌, arith, length,
}
use libamqp.Memory.Mask.{
  no_bits, take_first_free, give_back, all_free, set_bit, clear_bit, first_bit,
  find_first_free_allocation, set,
}
use libamqp.Memory.Pool.{
  Outcome, returns, stops, undefined, Block, Pointer, Memory, allocate, deallocate, delete_object,
  allocate_object, allocate_new_memory_block, find_free_allocation_within_block,
  find_block_with_free_space, fill_allocations, set_previous, unlink, amqp_check_pool_is_empty,
}
use libamqp.Memory.Pool.Invariant.{IsMemory}
use libamqp.Memory.Pool.Release.{IsDeallocated, deallocate_lem}
use libamqp.Memory.Pool.Objects.{
  Reach, give, release, Represents, Reach-Represents, check_pool_is_empty_lem,
}
use libamqp.Memory.Pool.Tests.{empty_memory, first_object, one_object, memory_of, one_object-Reach}

-- A second object, which the destroyer of the first gives back.
abbrev second_object : Pointer
second_object = record { block = 4096; slot = 1 }

abbrev two_objects : Memory
two_objects = memory_of (allocate (λ _ _. 8192) 3 one_object)

second_runs : allocate (λ _ _. 8192) 3 one_object ≡ returns (second_object, two_objects)
unfolding allocate deallocate delete_object allocate_object allocate_new_memory_block
    find_free_allocation_within_block find_block_with_free_space fill_allocations set_previous
    unlink no_bits take_first_free give_back all_free set_bit clear_bit first_bit
    find_first_free_allocation set
second_runs = refl

abbrev next_of : Option Block → ℕ
next_of none = 0
next_of (some b) = b.next

last_block : next_of (one_object.heap 4096) ≡ 0
unfolding allocate deallocate delete_object allocate_object allocate_new_memory_block
    find_free_allocation_within_block find_block_with_free_space fill_allocations set_previous
    unlink no_bits take_first_free give_back all_free set_bit clear_bit first_bit
    find_first_free_allocation set
last_block = refl

block_list_set : 4096 ≡ one_object.pool.block_list
unfolding allocate deallocate delete_object allocate_object allocate_new_memory_block
    find_free_allocation_within_block find_block_with_free_space fill_allocations set_previous
    unlink no_bits take_first_free give_back all_free set_bit clear_bit first_bit
    find_first_free_allocation set
block_list_set = refl

one_block : (blocks : List ℕ) → IsMemory one_object blocks → length blocks < 3
one_block [] fine = omega arith
one_block (a ∷ []) fine = omega arith
one_block (a ∷ b ∷ bs) fine =
    let (first, pos, (x, at, back, (next, pos2, rest))) = fine.linked.chain in
    let end : next_of (one_object.heap a) ≡ 0 =
      subst (λ c. next_of (one_object.heap c) ≡ 0) (first_at first) last_block in
    let over : x.next ≡ 0 = sym (ap next_of at) ∙ end in absurd (omega (arith, over, next, pos2))
  where
    first_at : {c : ℕ} → one_object.pool.block_list ≡ c → 4096 ≡ c
    first_at e = block_list_set ∙ e

room_at : one_object.heap 8192 ≡ none
unfolding allocate deallocate delete_object allocate_object allocate_new_memory_block
    find_free_allocation_within_block find_block_with_free_space fill_allocations set_previous
    unlink no_bits take_first_free give_back all_free set_bit clear_bit first_bit
    find_first_free_allocation set
room_at = refl

two_objects-Reach : Reach two_objects (second_object ∷ first_object ∷ [])
two_objects-Reach =
    give 8192 3 second_object one_object-Reach (omega arith) room_at one_block second_runs

abbrev gives_back_second : Memory → Pointer → Outcome Memory
gives_back_second m object = deallocate (λ m _. returns m) m (some second_object)

abbrev left_by : Outcome Memory → Memory
left_by (returns m) = m
left_by stops = empty_memory
left_by undefined = empty_memory

abbrev after_destroyer : Memory
after_destroyer = left_by (gives_back_second two_objects first_object)

destroyer_runs : gives_back_second two_objects first_object ≡ returns after_destroyer
unfolding allocate deallocate delete_object allocate_object allocate_new_memory_block
    find_free_allocation_within_block find_block_with_free_space fill_allocations set_previous
    unlink no_bits take_first_free give_back all_free set_bit clear_bit first_bit
    find_first_free_allocation set
destroyer_runs = refl

after_destroyer-Reach : Reach after_destroyer (first_object ∷ [])
after_destroyer-Reach =
    release (λ m _. returns m) [] second_object (first_object ∷ [])
      (second_object ∷ first_object ∷ []) (Reach-Represents _ _ two_objects-Reach).destroys refl
      two_objects-Reach refl destroyer_runs

after_destroyer-Represents : Represents after_destroyer (first_object ∷ [])
after_destroyer-Represents =
    Reach-Represents after_destroyer (first_object ∷ []) after_destroyer-Reach

abbrev both_back : Memory
both_back = left_by (deallocate gives_back_second two_objects (some first_object))

both_back_runs : deallocate gives_back_second two_objects (some first_object) ≡ returns both_back
unfolding allocate deallocate delete_object allocate_object allocate_new_memory_block
    find_free_allocation_within_block find_block_with_free_space fill_allocations set_previous
    unlink no_bits take_first_free give_back all_free set_bit clear_bit first_bit
    find_first_free_allocation set
both_back_runs = refl

-- The call of `amqp_deallocate` on the first object gives back both.
both_back-Reach : Reach both_back []
both_back-Reach =
    release gives_back_second [] first_object [] (first_object ∷ [])
      (Reach-Represents _ _ two_objects-Reach).destroys destroyer_runs after_destroyer-Reach refl
      both_back_runs

abbrev no_objects : List Pointer
no_objects = []

Reach-Represents_example : Represents after_destroyer (first_object ∷ [])
Reach-Represents_example =
    Reach-Represents after_destroyer (first_object ∷ []) after_destroyer-Reach

check_pool_is_empty_lem_example :
    (amqp_check_pool_is_empty both_back.pool ≡ true) ↔ (no_objects ≡ [])
check_pool_is_empty_lem_example =
    check_pool_is_empty_lem both_back no_objects both_back-Reach (omega arith)

deallocate_lem_example :
    (m' : Memory) × (deallocate gives_back_second two_objects (some first_object) ≡ returns m')
    × IsDeallocated after_destroyer first_object m'
deallocate_lem_example =
    deallocate_lem gives_back_second two_objects after_destroyer after_destroyer-Represents.fine.0
      first_object (Reach-Represents _ _ two_objects-Reach).destroys destroyer_runs
      after_destroyer-Represents.fine.1 (after_destroyer-Represents.uses 4096 0)
