-- ===== src/Codec/Encode/ArrayConstructor.antt =====
-- The constructor that the elements of an array share, in `initialize_type` of Codec/Encode/Encode.c.
use libamqp.Prelude.{ℕ, ◌+◌, ◌≡◌, Bool, true, ◌||◌, ◌==◌, if◌then◌else◌}
use libamqp.Codec.Errors.{error_array_element_type_incorrect}
use libamqp.Codec.State.{AmqpType, State, type_is_invalid, invalid_of}
use libamqp.Buffer.{putc}
use libamqp.Codec.Encode.{with_array_constructor}

-- No element yet, or one with the code of the constructor.
abbrev pub agrees : ℕ → ℕ → State → Bool
agrees array p s =
    ((s.types array).word == 0)
    || ((s.types (s.types array).array_constructor).format_code == (s.types p).format_code)

invalid_unless : Bool → AmqpType → AmqpType
invalid_unless fine x = if fine then x else invalid_of x error_array_element_type_incorrect

constructed : Bool → ℕ → AmqpType → AmqpType
constructed first p x = if first then with_array_constructor p x else x

-- What the rule of the constructor leaves behind.
abbrev Ruled : ℕ → ℕ → ℕ → State → State → Type 0
Ruled array p code s t =
    let first = (s.types array).word == 0 in
    (t.buffer ≡ (if first then (putc s.buffer code).1 else s.buffer))
    × (t.types array ≡ invalid_unless (agrees array p s) (constructed first p (s.types array)))
    × (t.types p ≡ invalid_unless (agrees array p s) (s.types p))

-- An element in an array, by whether it is the first, and whether it agrees with the constructor.
abbrev pub InArray : ℕ → ℕ → ℕ → State → State → Type 0
InArray array p o s t =
    let first = (s.types array).word == 0 in
    (t.buffer ≡ (if first then (putc s.buffer (s.types p).format_code).1 else s.buffer))
    × ((t.types array).array_constructor ≡ (if first then p else (s.types array).array_constructor))
    × ((t.types array).word ≡ (s.types array).word + 1)
    × ((t.types array).elements (s.types array).word ≡ p)
    × ((t.types array).elements o
        ≡ (if (s.types array).has_elements then (s.types array).elements o else 0))
    × (type_is_invalid (t.types p)
        ≡ (if agrees array p s then type_is_invalid (s.types p) else true))
    × (type_is_invalid (t.types array)
        ≡ (if agrees array p s then type_is_invalid (s.types array) else true))
