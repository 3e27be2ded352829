-- ===== src/Codec/Encode.antt =====
-- The encoder, Codec/Encode/Encode.c: the constructor of a new object and the container that is open.
pub mod Fixed
pub mod Variable
pub mod Compound
pub mod Containers
pub mod Overwrite
pub mod ArrayConstructor
pub mod Completion
use libamqp.Prelude.{
  ℕ, zero, suc, ◌+◌, ◌-◌, ◌*◌, ◌/◌, ◌%◌, ◌^◌, Bool, true, false, ◌&&◌, ◌||◌, Option, none, some,
  ◌==◌, ltb, if◌then◌else◌, not, update,
}
use libamqp.Buffer.{Buffer, putc, check_free_space}
use libamqp.Codec.Errors.{error_array_element_type_incorrect}
use libamqp.Codec.Flags.{
  is_contained, is_descriptor, is_described, is_incomplete, is_encoded, set_flag,
}
use libamqp.Codec.MetaData.{MetaData}
use libamqp.Codec.State.{
  AmqpType, State, M, Outcome, returned, pure, abort, fault, unsupported, ◌>>=◌, ◌>>◌, get,
  set_buffer, set_type, allocate_type, typedef_flags_set, typedef_flags_clear, mark_type_invalid,
  type_is_array, type_is_composite, type_is_container, type_match,
}
use libamqp.Codec.Decode.Fixed.{with_position}
use libamqp.Codec.Decode.Compound.{with_count, set_count, with_array_constructor}

-- `allocate_elements` and the store behind it: a new array of sixteen pointers, all of them cleared, if
-- there was none, else the old one, which has room for the count and is made longer by sixteen when the
-- count is a multiple of that.
abbrev pub with_element : ℕ → ℕ → AmqpType → AmqpType
with_element i p t = record t {
  has_elements = true;
  elements = update (if t.has_elements then t.elements else (λ _. 0)) i p;
}

-- The store is outside a new array from the index sixteen on.
abbrev pub append_element : ℕ → ℕ → ℕ → M (Unit {0})
append_element container i p = do
  allocated ← get (λ s. (s.types container).has_elements)
  if allocated || ltb i 16 then set_type container (with_element i p) else abort fault

-- The `switch` on the count of a described type.
abbrev pub set_role : Bool → ℕ → ℕ → M (Unit {0})
set_role composite count p =
    if composite
    then (if count == 0
        then typedef_flags_set p is_descriptor
        else if count == 1
        then typedef_flags_set p is_described
        else abort unsupported)
    else pure tt

unfoldable pub add_element_to_container : ℕ → ℕ → M (Unit {0})
add_element_to_container container p = do
  count ← get (λ s. (s.types container).word)
  set_count container ((count + 1) % 2 ^ 64)
  typedef_flags_set p is_contained
  composite ← get (λ s. type_is_composite (s.types container))
  set_role composite count p
  append_element container count p

-- `is_i_contained_within_array`.
abbrev pub contained_within_array : M Bool
contained_within_array = get λ s. not (s.container == 0) && type_is_array (s.types s.container)

abbrev pub set_container : ℕ → M (Unit {0})
set_container p s = returned tt (record s { container = p })

abbrev pub with_saved_container : ℕ → AmqpType → AmqpType
with_saved_container p t = record t { saved_container = p }

unfoldable pub push_container : ℕ → M (Unit {0})
push_container p = do
  typedef_flags_set p is_incomplete
  outer ← get (λ s. s.container)
  set_type p (with_saved_container outer)
  set_container p

unfoldable pub pop_container : M ℕ
pop_container = do
  top ← get (λ s. s.container)
  if top == 0 then abort fault else (do
    typedef_flags_clear top is_incomplete
    outer ← get (λ s. (s.types top).saved_container)
    set_container outer
    set_type top (with_saved_container 0)
    pure top)

-- `flags | extra`, where `extra` is no flag or one.
abbrev pub or_flag : ℕ → ℕ → ℕ
or_flag flags extra = if extra == 0 then flags else set_flag flags extra

abbrev pub initialize_constructor : ℕ → MetaData → AmqpType → AmqpType
initialize_constructor extra meta t = record t {
  format_code = meta.format_code;
  meta_data = some meta;
  typedef_flags = or_flag (set_flag meta.typedef_flags is_encoded) extra;
}

-- A full buffer drops the byte: the result of `amqp_buffer_putc` is not looked at.
abbrev pub emit_constructor : ℕ → M (Unit {0})
emit_constructor code = set_buffer λ b. (putc b code).1

-- An array has one constructor, that of its first element.
unfoldable pub emit_in_array : ℕ → ℕ → ℕ → M (Unit {0})
emit_in_array array p code = do
  count ← get (λ s. (s.types array).word)
  matches ← get (λ s. type_match (s.types (s.types array).array_constructor) (s.types p))
  if count == 0
      then (emit_constructor code >> set_type array (with_array_constructor p))
      else if matches
      then pure tt
      else (mark_type_invalid p error_array_element_type_incorrect
          >> mark_type_invalid array error_array_element_type_incorrect)

unfoldable pub emit_in_container : ℕ → ℕ → ℕ → M (Unit {0})
unfolding emit_in_array add_element_to_container
emit_in_container enclosing p code = do
  within_array ← get (λ s. type_is_array (s.types enclosing))
  if within_array then emit_in_array enclosing p code else emit_constructor code
  add_element_to_container enclosing p

unfoldable pub initialize_type : ℕ → MetaData → M ℕ
unfolding emit_in_container push_container
initialize_type extra meta = do
  enclosing ← get (λ s. s.container)
  p ← allocate_type
  set_type p (initialize_constructor extra meta)
  if enclosing == 0
      then emit_constructor meta.format_code
      else emit_in_container enclosing p meta.format_code
  container ← get (λ s. type_is_container (s.types p))
  if container then push_container p else pure tt
  pure p
