-- ===== src/Codec/Samples.antt =====
-- States for runs and instances: a buffer of given bytes, and memory that was never used.
use libamqp.Prelude.{ℕ, false, none, some, List, [], length, get_elem?}
use libamqp.Buffer.{Buffer}
use libamqp.Codec.State.{AmqpType, State}

-- What lies in memory that was never used.
abbrev pub blank : AmqpType
blank = record {
  invalid_cause = 0;
  meta_data = none;
  typedef_flags = 0;
  format_code = 0;
  extension_type_code = 0;
  position_index = 0;
  position_size = 0;
  word = 0;
  uuid = [];
  has_elements = false;
  elements = λ _. 0;
  array_constructor = 0;
  saved_container = 0;
}

abbrev pub buffer_of : List ℕ → Buffer
buffer_of bytes = record {
  capacity = 4096;
  fragments = λ _ o. elim (get_elem? bytes o) [ none ↦ 0 | some c ↦ c ];
  index = 0;
  size = length bytes;
  reference_count = 0;
}

abbrev pub state_of : List ℕ → State
state_of bytes = record {
  buffer = buffer_of bytes;
  types = λ _. blank;
  next_type = 1;
  container = 0;
}
