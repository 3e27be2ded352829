-- ===== src/Frame/Performative/Tests.antt =====
-- Runs of whole frames, and instances of the theorems on them.
use libamqp.Prelude.{
  ℕ, ◌+◌, ◌*◌, ◌/◌, ◌%◌, ◌^◌, ◌≡◌, ◌≢◌, ◌⊎◌, refl, Bool, true, false, Option, none, List, [], ◌∷◌,
  arith, update,
}
use libamqp.Buffer.{unchecked_getc_at, getc, advance_read_index}
use libamqp.Buffer.Words.{ntoh_16}
use libamqp.Codec.Decode.Fixed.{fixed_zero_width}
use libamqp.Codec.Flags.{is_long, is_unsigned, is_composite, is_list}
use libamqp.Codec.MetaData.Lookup.{type_meta_data_lookup}
use libamqp.Codec.State.{State, M, Outcome, returned, aborted, assertion, pure, type_is_invalid}
use libamqp.Codec.Decode.Run.{amqp_decode}
use libamqp.Frame.{decode_header}
use libamqp.Frame.Performative.{
  Descriptor, DecodedFrame, described_by, type_is_ulong, is_performative, decode_performative,
  decode_amqp_frame, decode_sasl_frame, accepted, refused, frame_cleanup, encode_empty_frame,
}
use libamqp.Frame.Performative.Laws.{
  IsPerformative, decode_performative_lem, decode_amqp_frame-not_described, numbered,
}
use libamqp.Frame.Performative.Empty.{decode-encode_empty_frame}
use libamqp.Codec.Samples.{blank, buffer_of, state_of}

-- The memory of a frame that has been used for an `open` with its object at the address 7.
abbrev used : DecodedFrame
used = record {
  header = record { data_offset = 8; frame_type = 0; type_specific = 0 };
  type = 7;
  descriptor = record { domain = 0; id = 0x10; kind = 0 };
  dispatches_empty = false;
  has_cleanup = true;
}

-- No symbol is known, and the fields are never looked at.
abbrev no_symbols : List ℕ → Option Descriptor
no_symbols _ = none

abbrev take_fields : DecodedFrame → ℕ → M (Bool × DecodedFrame)
take_fields f p = pure (true, f)

-- The object of a frame at 1, its descriptor at 2, which is an `open` of the domain 5, and its list.
abbrev described_state : State
described_state = record (state_of []) {
  types =
      update
        (update
          (update (λ _. blank) 1
            (record blank {
              typedef_flags = is_composite;
              has_elements = true;
              elements = λ i. i + 2;
            }))
          2 (record blank { typedef_flags = is_long + is_unsigned; word = 5 * 2 ^ 32 + 0x10 }))
        3 (record blank { typedef_flags = is_list });
}

described_state-IsPerformative : IsPerformative described_state 1 2 3
unfolding type_is_invalid type_is_ulong
described_state-IsPerformative = record {
  there = omega arith;
  valid = refl;
  composite = refl;
  has_elements = refl;
  first = refl;
  second = refl;
  descriptor_there = omega arith;
  described_there = omega arith;
  not_symbol = refl;
  ulong = refl;
  list = refl;
}

abbrev code : ℕ
code = 5 * 2 ^ 32 + 0x10

decode_performative_lem_example :
    ((used.descriptor.domain ≡ 0)
      × (is_performative (code % 2 ^ 32) ≡ true)
      × (decode_performative no_symbols take_fields used 1 described_state
          ≡ take_fields (numbered no_symbols take_fields used code) 3 described_state))
    ⊎ ((used.descriptor.domain ≡ 0)
        × (is_performative (code % 2 ^ 32) ≡ false)
        × (decode_performative no_symbols take_fields used 1 described_state
            ≡ returned
                (false, described_by used (record { domain = code / 2 ^ 32; id = 0; kind = 0 }))
                described_state))
    ⊎ ((used.descriptor.domain ≢ 0)
        × (decode_performative no_symbols take_fields used 1 described_state
            ≡ returned (false, used) described_state))
decode_performative_lem_example =
    decode_performative_lem no_symbols take_fields used described_state 1 2 3
      described_state-IsPerformative

decode-encode_empty_frame_example :
    let s' = record (state_of []) { buffer = encode_empty_frame (buffer_of []) } in
    (g : DecodedFrame) × (t : State) × (decode_amqp_frame no_symbols take_fields used s'
      ≡ returned (accepted g) t)
    × (t.buffer.index ≡ t.buffer.size)
    × (g.dispatches_empty ≡ true)
    × (g.descriptor.kind ≡ 1)
    × (g.type ≡ used.type)
    × (g.descriptor.id ≡ used.descriptor.id)
    × (g.has_cleanup ≡ used.has_cleanup)
    × (frame_cleanup g ≡ frame_cleanup used)
    × (decode_sasl_frame no_symbols take_fields used s' ≡ returned (refused (frame_cleanup used)) t)
decode-encode_empty_frame_example =
    decode-encode_empty_frame no_symbols take_fields used (state_of []) (buffer_of []) refl refl

-- A header and a null.
abbrev bare_null : State
bare_null = state_of (0 ∷ 0 ∷ 0 ∷ 9 ∷ 2 ∷ 0 ∷ 0 ∷ 0 ∷ 0x40 ∷ [])

abbrev behind_header : State
behind_header = record bare_null { buffer = record bare_null.buffer { index = 8 } }

after : Outcome ℕ → State
after (returned p t) = t
after _ = bare_null

decode_amqp_frame-not_described_example :
    decode_amqp_frame no_symbols take_fields used bare_null ≡ aborted assertion
unfolding decode_header unchecked_getc_at advance_read_index after amqp_decode type_meta_data_lookup
    getc type_is_invalid ntoh_16 fixed_zero_width
decode_amqp_frame-not_described_example =
    decode_amqp_frame-not_described no_symbols take_fields used
      (record { data_offset = 8; frame_type = 0; type_specific = 0 }) bare_null
      (after (amqp_decode behind_header)) behind_header.buffer 1 refl refl (omega arith) refl refl
