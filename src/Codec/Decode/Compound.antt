-- ===== src/Codec/Decode/Compound.antt =====
-- The decoders for described types, lists, maps and arrays of Codec/Decode/Decode.c. Each takes the
-- recursion as a parameter: `decode` is `amqp_decode`, `into_result` is `decode_type_into_result`.
use libamqp.Prelude.{
  ℕ, zero, suc, ◌+◌, Bool, true, false, Option, none, some, ◌==◌, if◌then◌else◌, update,
}
use libamqp.Buffer.{getc}
use libamqp.Buffer.Words.{u32_minus_one}
use libamqp.Codec.Errors.{
  error_unknown_array_element_format_code, error_no_descriptor, error_no_described_type,
  error_descriptor_invalid, error_described_invalid,
}
use libamqp.Codec.Flags.{is_contained, is_descriptor, is_described}
use libamqp.Codec.MetaData.{MetaData}
use libamqp.Codec.MetaData.Lookup.{type_meta_data_lookup}
use libamqp.Codec.State.{
  AmqpType, M, returned, pure, abort, fault, ◌>>=◌, ◌>>◌, get, set_type, allocate_type,
  typedef_flags_set, type_is_invalid,
}
use libamqp.Codec.Decode.Fixed.{decode_error, set_position, fixed_zero_width}
use libamqp.Codec.Decode.Variable.{get_variable_type_size, get_variable_type_count}

unfoldable pub construct_container_type : MetaData → ℕ → M Bool
construct_container_type meta p = do
  size ← get_variable_type_size meta p
  if size == u32_minus_one then pure false else (set_position p size >> pure true)

-- The `int` that `amqp_buffer_getc` returns becomes an `uint8_t`: -1 is 255.
abbrev pub next_format_code : M ℕ
next_format_code s =
    let (c, b) = getc s.buffer in
    returned (elim c [ none ↦ 255 | some v ↦ v ]) (record s { buffer = b })

abbrev pub constructor_of : MetaData → AmqpType → AmqpType
constructor_of meta t = record t {
  meta_data = some meta;
  typedef_flags = meta.typedef_flags;
  extension_type_code = 0;
}

abbrev pub set_constructor : ℕ → Option (Option MetaData) → M Bool
set_constructor p found = elim found [
  | none ↦ abort fault
  | some m ↦ elim m [
    | none ↦ pure false
    | some meta ↦ set_type p (constructor_of meta) >> pure true
  ]
]

-- `decode_type_constructor`, into the constructor of the object at `p`.
unfoldable pub decode_type_constructor : ℕ → M Bool
decode_type_constructor p = do
  code ← next_format_code
  set_type p λ t. record t { format_code = code }
  set_constructor p (type_meta_data_lookup code)

-- `elements[i] = element`, for each of the types with elements.
abbrev pub store_element : ℕ → ℕ → ℕ → M (Unit {0})
store_element p i element = set_type p λ t. record t { elements = update t.elements i element }

-- A cleared array of pointers from `amqp_allocate_amqp_type_t_array`.
abbrev pub with_elements : AmqpType → AmqpType
with_elements t = record t { has_elements = true; elements = λ _. 0 }

abbrev pub allocate_elements : ℕ → M (Unit {0})
allocate_elements p = set_type p with_elements

abbrev pub with_count : ℕ → AmqpType → AmqpType
with_count count t = record t { word = count }

abbrev pub set_count : ℕ → ℕ → M (Unit {0})
set_count p count = set_type p (with_count count)

-- The body of the loops: an element that is null is skipped.
abbrev pub add_element : ℕ → ℕ → ℕ → M (Unit {0})
add_element p i element =
    if element == 0
    then pure tt
    else (store_element p i element >> typedef_flags_set element is_contained)

module _ (next : M ℕ) (p : ℕ) where
  -- `for (i = 0; i < count; i++)`, with `rounds` still to go.
  unfoldable pub element_loop : ℕ → ℕ → M (Unit {0})
  element_loop zero i = pure tt
  element_loop (suc rounds) i = do
    element ← next
    add_element p i element
    element_loop rounds (i + 1)

abbrev pub set_child : ℕ → ℕ → ℕ → ℕ → M (Unit {0})
set_child p i child flag = do
  store_element p i child
  typedef_flags_set child is_contained
  typedef_flags_set child flag

abbrev pub fail : ℕ → ℕ → M Bool
fail p code = decode_error p code >> pure false

unfoldable pub described_validity : ℕ → ℕ → ℕ → M Bool
described_validity p descriptor described = do
  bad_descriptor ← get (λ s. type_is_invalid (s.types descriptor))
  bad_described ← get (λ s. type_is_invalid (s.types described))
  if bad_descriptor
      then fail p error_descriptor_invalid
      else if bad_described
      then fail p error_described_invalid
      else pure true

module _ (decode : M ℕ) where
  unfoldable pub described_second : ℕ → ℕ → M Bool
  described_second p descriptor = do
    described ← decode
    if described == 0
        then fail p error_no_described_type
        else (do set_child p 1 described is_described; described_validity p descriptor described)

  unfoldable pub described_type : ℕ → M Bool
  described_type p = do
    set_position p 0
    set_count p 2
    allocate_elements p
    descriptor ← decode
    if descriptor == 0
        then fail p error_no_descriptor
        else (do set_child p 0 descriptor is_descriptor; described_second p descriptor)

  -- `amqp_decode_list_list` and `amqp_decode_map_map`, which differ in the name of the union's member.
  unfoldable pub list_list : MetaData → ℕ → M Bool
  list_list meta p = do
    rc ← construct_container_type meta p
    if rc
        then (do
          count ← get_variable_type_count meta p
          if count == u32_minus_one then pure false else (do
            set_count p count
            allocate_elements p
            element_loop decode p count 0
            pure true))
        else pure false

unfoldable pub list_0 : ℕ → M Bool
list_0 p = do rc ← fixed_zero_width p; set_count p 0; pure rc

abbrev pub with_constructor : AmqpType → AmqpType → AmqpType
with_constructor t e = record e {
  format_code = t.format_code;
  extension_type_code = t.extension_type_code;
  meta_data = t.meta_data;
  typedef_flags = t.typedef_flags;
}

-- `create_array_element`: a new object with the constructor of the object at `c`.
abbrev pub create_array_element : ℕ → M ℕ
create_array_element c = do
  p ← allocate_type
  t ← get (λ s. s.types c)
  set_type p (with_constructor t)
  pure p

abbrev pub with_array_constructor : ℕ → AmqpType → AmqpType
with_array_constructor c t = record t { array_constructor = c }

module _ (into_result : ℕ → M Bool) where
  unfoldable pub decode_array_element : ℕ → M ℕ
  decode_array_element c = do p ← create_array_element c; _ ← into_result p; pure p

  abbrev pub array_elements : ℕ → ℕ → ℕ → M (Unit {0})
  array_elements p c count =
      if count == 0
      then pure tt
      else (allocate_elements p >> element_loop (decode_array_element c) p count 0)

  unfoldable pub array_with_constructor : ℕ → ℕ → ℕ → M Bool
  array_with_constructor p count c = do
    set_type p (with_array_constructor c)
    rc ← decode_type_constructor c
    if rc
        then (array_elements p c count >> pure true)
        else fail p error_unknown_array_element_format_code

  unfoldable pub array_body : ℕ → ℕ → M Bool
  array_body p count = do set_count p count; c ← allocate_type; array_with_constructor p count c

  unfoldable pub decode_array : MetaData → ℕ → M Bool
  decode_array meta p = do
    rc ← construct_container_type meta p
    if rc
        then (do
          count ← get_variable_type_count meta p
          if count == u32_minus_one then pure false else array_body p count)
        else pure false
