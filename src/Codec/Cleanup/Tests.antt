-- ===== src/Codec/Cleanup/Tests.antt =====
-- Objects that are decoded and given back.
use libamqp.Prelude.{
  ℕ, ◌+◌, ◌≡◌, ◌==◌, All, refl, true, false, Option, none, some, List, [], ◌∷◌, if◌then◌else◌,
  arith,
}
use libamqp.Buffer.{getc, unchecked_getc_at}
use libamqp.Codec.MetaData.Lookup.{type_meta_data_lookup}
use libamqp.Codec.State.{AmqpType, State, Outcome, returned, aborted, stuck, type_is_invalid}
use libamqp.Codec.State.Hoare.{Returns}
use libamqp.Codec.Decode.Fixed.{set_position, boolean_true, small_uint}
use libamqp.Codec.Decode.Variable.{get_variable_type_size, get_variable_type_count}
use libamqp.Codec.Decode.Compound.{list_list, construct_container_type, element_loop}
use libamqp.Codec.Decode.Run.{amqp_decode}
use libamqp.Codec.Samples.{blank, state_of}
use libamqp.Codec.Cleanup.{Freed, array, object, deallocate_type}
use mathlib.Core.List.{Mem}
use libamqp.Codec.Flags.{is_list}
use libamqp.Codec.Cleanup.Frees.{Distinct}
use libamqp.Codec.Cleanup.Tree.{Subtree, subtree, not_owned, none_left, element}
use libamqp.Codec.Cleanup.Once.{Within}
use libamqp.Codec.Cleanup.Whole.{Below, deallocate_type_lem}
use libamqp.Codec.Cleanup.Stale.{deallocate-decode_list_0}

-- What is given back with an object that was decoded.
freed_with : ℕ → Outcome ℕ → Option (List Freed)
freed_with fuel (returned p s) = deallocate_type s.types fuel p
freed_with fuel (aborted why) = none
freed_with fuel stuck = none

-- A list of `true` and the `uint` 7: its elements, its array and the list itself.
frees_list :
    freed_with 5 (amqp_decode (state_of (0xC0 ∷ 4 ∷ 2 ∷ 0x41 ∷ 0x52 ∷ 7 ∷ [])))
    ≡ some (object 2 ∷ object 3 ∷ array 1 ∷ object 1 ∷ [])
unfolding freed_with deallocate_type amqp_decode type_meta_data_lookup getc list_list
    construct_container_type get_variable_type_size set_position get_variable_type_count
    element_loop boolean_true small_uint libamqp.Buffer.advance_read_index
frees_list = refl

-- Memory in which a list with an array has been before.
abbrev used_state : State
used_state = record (state_of (0x45 ∷ [])) {
  types = λ _. record blank { has_elements = true; word = 2 };
}

deallocate-decode_list_0_example : Returns (amqp_decode used_state) (λ p t.
    (p ≡ 1)
    × ((type_is_invalid (t.types 1) ≡ false)
        × (deallocate_type t.types 1 1
            ≡ some (if true then array 1 ∷ object 1 ∷ [] else object 1 ∷ []))))
deallocate-decode_list_0_example =
    deallocate-decode_list_0 used_state 0 (omega arith) (omega arith)
      (unfold unchecked_getc_at in refl)

-- A list at 1 with two elements behind it.
abbrev list_types : ℕ → AmqpType
list_types p =
    if p == 1
    then record blank {
      typedef_flags = is_list;
      word = 2;
      has_elements = true;
      elements = λ i. i + 2;
    }
    else blank

list-Subtree : Subtree list_types 1 4
list-Subtree = subtree 1 2 4 (omega arith) (omega arith) (omega arith) (not_owned 0 2 2) (
    element (λ i. i + 2) 1 0 2 3 4 (omega arith) (omega arith) (omega arith)
      (subtree 2 3 3 (omega arith) (omega arith) (omega arith) (not_owned 0 3 3)
        (none_left (λ i. 0) 0 3 3))
      (element (λ i. i + 2) 0 1 3 4 4 (omega arith) (omega arith) (omega arith)
        (subtree 3 4 4 (omega arith) (omega arith) (omega arith) (not_owned 0 4 4)
          (none_left (λ i. 0) 0 4 4))
        (none_left (λ i. i + 2) 2 4 4)))

deallocate_type_lem_example :
    (freed : List Freed) × ((deallocate_type list_types 5 1 ≡ some freed)
      × (All (Within 1 4) freed
          × (Distinct freed × ((q : ℕ) → Below list_types 1 q → Mem (object q) freed))))
deallocate_type_lem_example = deallocate_type_lem list_types 5 1 4 list-Subtree (omega arith)
