-- ===== src/Codec/State.antt =====
-- The objects that the codec builds, `amqp_type_t` of Codec/Type/Type.h, in a store, and the part of
-- `amqp_context_t` that it works on; operations run in a state monad that can abort.
pub mod Hoare
use libamqp.Prelude.{
  ℕ, ◌+◌, ◌-◌, ◌*◌, ◌/◌, ◌%◌, ◌^◌, Bool, true, false, ◌&&◌, ◌||◌, Option, none, some, List, [], ◌∷◌,
  ◌==◌, if◌then◌else◌, update,
}
use libamqp.Buffer.{Buffer}
use libamqp.Codec.Flags.{
  has_flag, set_flag, clear_flag, is_invalid, is_incomplete, is_list, is_map, is_array,
  is_composite,
}
use libamqp.Codec.MetaData.{MetaData}

-- `word` is the first eight bytes of the union `value` as a number: `b1`, `b2`, `b4` and `b8` are its
-- low bytes, and `count` is the whole of it. `elements` is the array of pointers (of a map too),
-- `has_elements` says that the pointer to it is not null. Pointers are numbers, and null is 0.
pub record AmqpType : Type 0 where
  pub invalid_cause : ℕ
  pub meta_data : Option MetaData
  pub typedef_flags : ℕ
  pub format_code : ℕ
  pub extension_type_code : ℕ
  pub position_index : ℕ
  pub position_size : ℕ
  pub word : ℕ
  pub uuid : List ℕ
  pub has_elements : Bool
  pub elements : ℕ → ℕ
  pub array_constructor : ℕ
  pub saved_container : ℕ

-- `types p` is what lies at address `p`; the addresses from `next_type` on have not been handed out,
-- and hold whatever an earlier use left there. `container` is `context->encode.container`.
pub record State : Type 0 where
  pub buffer : Buffer
  pub types : ℕ → AmqpType
  pub next_type : ℕ
  pub container : ℕ

-- The pointer to the buffer that the union takes: there is one buffer, and this is its address.
abbrev pub buffer_address : ℕ
buffer_address = 1

-- Why the program ends: `not_implemented` or another `abort()` that is meant, on a wrong use or where
-- a case is left to do (`unsupported`), a failed `assert`, an `abort()` at a width for which there
-- is no case, or an access through null or outside an array.
pub data Abort : Type 0 where
  unsupported assertion bad_width fault : Abort

-- `stuck` is no outcome of the program: the model has run out of fuel.
pub data Outcome (A : Type 0) : Type 0 where
  returned : A → State → Outcome A
  aborted : Abort → Outcome A
  stuck : Outcome A

abbrev pub M : Type 0 → Type 0
M A = State → Outcome A

abbrev pub pure : {A : Type 0} → A → M A
pure a s = returned a s

abbrev pub abort : {A : Type 0} → Abort → M A
abort why s = aborted why

infixl 5 ◌>>=◌ ◌>>◌
abbrev pub ◌>>=◌ : {A B : Type 0} → M A → (A → M B) → M B
◌>>=◌ m f s = elim (m s) [ returned a s' ↦ f a s' | aborted why ↦ aborted why | stuck ↦ stuck ]

abbrev pub ◌>>◌ : {B : Type 0} → M (Unit {0}) → M B → M B
m >> k = m >>= λ _. k

abbrev pub get : {A : Type 0} → (State → A) → M A
get f s = returned (f s) s

abbrev pub set_buffer : (Buffer → Buffer) → M (Unit {0})
set_buffer f s = returned tt (record s { buffer = f s.buffer })

abbrev pub write_type : State → ℕ → AmqpType → State
write_type s p t = record s { types = update s.types p t }

abbrev pub set_type : ℕ → (AmqpType → AmqpType) → M (Unit {0})
set_type p f s = returned tt (write_type s p (f (s.types p)))

-- `amqp_allocate_type`: the pool hands out the object as it is, but for the initialiser, which sets
-- `extension_type_code` to -1.
abbrev pub allocate_type : M ℕ
allocate_type s = returned s.next_type (record s {
  types = update s.types s.next_type (record (s.types s.next_type) { extension_type_code = 255 });
  next_type = s.next_type + 1;
})

-- `amqp_typedef_flags_set` with one flag, and `amqp_typedef_flags_clear`.
abbrev pub typedef_flags_set : ℕ → ℕ → M (Unit {0})
typedef_flags_set p flag =
    set_type p λ t. record t { typedef_flags = set_flag t.typedef_flags flag }

abbrev pub typedef_flags_clear : ℕ → ℕ → M (Unit {0})
typedef_flags_clear p flag =
    set_type p λ t. record t { typedef_flags = clear_flag t.typedef_flags flag }

unfoldable pub invalid_of : AmqpType → ℕ → AmqpType
invalid_of t cause = record t {
  typedef_flags = set_flag t.typedef_flags is_invalid;
  invalid_cause = cause;
}

abbrev pub mark_type_invalid : ℕ → ℕ → M (Unit {0})
mark_type_invalid p cause = set_type p λ t. invalid_of t cause

abbrev pub type_is_list : AmqpType → Bool
type_is_list t = has_flag t.typedef_flags is_list

abbrev pub type_is_array : AmqpType → Bool
type_is_array t = has_flag t.typedef_flags is_array

abbrev pub type_is_composite : AmqpType → Bool
type_is_composite t = has_flag t.typedef_flags is_composite

-- `amqp_type_is_container`: the mask has the four flags.
abbrev pub type_is_container : AmqpType → Bool
type_is_container t =
    type_is_list t || has_flag t.typedef_flags is_map || type_is_array t || type_is_composite t

abbrev pub type_is_empty_list : AmqpType → Bool
type_is_empty_list t = type_is_list t && (t.word == 0)

-- `amqp_type_is_invalid`; `amqp_type_is_valid` is its negation.
unfoldable pub type_is_invalid : AmqpType → Bool
type_is_invalid t = has_flag t.typedef_flags is_invalid || has_flag t.typedef_flags is_incomplete

-- `array_constructor` of another type is compared by its format code alone.
abbrev pub type_match : AmqpType → AmqpType → Bool
type_match lhs rhs = lhs.format_code == rhs.format_code

-- Stores into the low one, two and four bytes of the union.
abbrev pub with_b1 : ℕ → ℕ → ℕ
with_b1 word v = word / 2 ^ 8 * 2 ^ 8 + v

abbrev pub with_b2 : ℕ → ℕ → ℕ
with_b2 word v = word / 2 ^ 16 * 2 ^ 16 + v

abbrev pub with_b4 : ℕ → ℕ → ℕ
with_b4 word v = word / 2 ^ 32 * 2 ^ 32 + v
