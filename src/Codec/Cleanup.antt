-- ===== src/Codec/Cleanup.antt =====
-- Giving back the objects of the codec: `amqp_deallocate` on the pool of Codec/Type/Type.c, with the
-- callback that cleans an object up. What is given back is listed in its order.
pub mod Frees
pub mod Tree
pub mod Once
pub mod Stale
pub mod Whole
mod Tests
use libamqp.Prelude.{
  ℕ, zero, suc, ◌+◌, Bool, true, false, ◌&&◌, ◌||◌, not, Option, none, some, List, [], ◌∷◌, ◌++◌,
  ◌==◌, if◌then◌else◌,
}
use libamqp.Codec.Flags.{has_flag, is_encoded}
use libamqp.Codec.State.{AmqpType, type_is_array, type_is_container}

-- What goes back to the heap, the array of pointers of the object at `p`, or to the pool, the object.
pub data Freed : Type 0 where
  array object : ℕ → Freed

-- What two steps give back, where both end.
abbrev pub then_frees : Option (List Freed) → Option (List Freed) → Option (List Freed)
then_frees none b = none
then_frees (some xs) none = none
then_frees (some xs) (some ys) = some (xs ++ ys)

-- Whether the constructor of an array is an object of its own: that of one that was encoded is its
-- first element, if it has any.
abbrev pub owns_constructor : AmqpType → Bool
owns_constructor t =
    let encoded = has_flag t.typedef_flags is_encoded in
    type_is_array t && (not encoded || (encoded && (t.word == 0)))

module _ (deallocate : ℕ → Option (List Freed)) where
  -- `for (i = 0; i < count; i++)`, with `rounds` still to go.
  unfoldable pub deallocate_elements : (ℕ → ℕ) → ℕ → ℕ → Option (List Freed)
  deallocate_elements elements zero i = some []
  deallocate_elements elements (suc rounds) i =
      then_frees (deallocate (elements i)) (deallocate_elements elements rounds (i + 1))

  -- `amqp_deallocate_amqp_type_t_array`, of the array of the object at `p`.
  unfoldable pub deallocate_array : AmqpType → ℕ → Option (List Freed)
  deallocate_array t p =
      let elements = deallocate_elements t.elements t.word 0 in
      if t.has_elements then then_frees elements (some (array p ∷ [])) else some []

  -- `amqp_cleanup_amqp_type_t`.
  unfoldable pub cleanup_type : AmqpType → ℕ → Option (List Freed)
  cleanup_type t p =
      then_frees (if type_is_container t then deallocate_array t p else some [])
        (if owns_constructor t then deallocate t.array_constructor else some [])

-- `amqp_deallocate_type`, on fuel: none where it has run out.
unfoldable pub deallocate_type : (ℕ → AmqpType) → ℕ → ℕ → Option (List Freed)
unfolding cleanup_type deallocate_array deallocate_elements
deallocate_type types zero p = none
deallocate_type types (suc fuel) p =
    let cleaned = cleanup_type (deallocate_type types fuel) (types p) p in
    if p == 0 then some [] else then_frees cleaned (some (object p ∷ []))
