-- ===== src/Frame/Performative.antt =====
-- The decoding of whole frames, Transport/Frame/Frame.c: the descriptor, the performative, and the
-- checks of a SASL and an AMQP frame. The memory of a frame comes from a pool that does not clear it.
pub mod Laws
pub mod Empty
mod Tests
use libamqp.Prelude.{
  ℕ, zero, suc, ◌+◌, ◌-◌, ◌*◌, ◌/◌, ◌%◌, ◌^◌, ◌≤◌, ◌<◌, ◌≡◌, ◌≢◌, ◌↔◌, ◌⊎◌, inl, inr, refl, sym, ap,
  ◌∙◌, Bool, true, false, ◌&&◌, ◌||◌, not, Option, none, some, List, [], ◌∷◌, ◌++◌, map, arith, ltb,
  leb, ◌==◌, if◌then◌else◌, Bool-cases, Option-cases, if_true, if_false, ltb→lt, lt→ltb, le→ltb,
  leb→le, le→leb, gt→leb, ==→eq, length, get_elem?, get_elem?-some, get_elem?-lt, length-append,
  update, All, take, drop,
}
use libamqp.Buffer.{Buffer, unchecked_getc_at, unchecked_putc}
use libamqp.Buffer.Words.{hton_16, hton_32}
use libamqp.Codec.Flags.{has_flag, is_symbol, is_long, is_unsigned}
use libamqp.Codec.State.{
  AmqpType, State, M, Outcome, returned, aborted, assertion, fault, pure, abort, ◌>>=◌, get,
  type_is_list, type_is_composite, type_is_invalid,
}
use libamqp.Codec.Decode.Run.{amqp_decode}
use libamqp.Frame.{FrameHeader, decode_header, amqp_frame_type, amqp_sasl_frame_type}

pub record Descriptor : Type 0 where
  pub domain : ℕ
  pub id : ℕ
  pub kind : ℕ

-- `amqp_frame_t` without the fields of its performatives: `type` is a pointer, `dispatches_empty` says
-- that `dispatch` is the method for empty frames, and `has_cleanup` that `cleanup` is not null.
pub record DecodedFrame : Type 0 where
  pub header : FrameHeader
  pub type : ℕ
  pub descriptor : Descriptor
  pub dispatches_empty : Bool
  pub has_cleanup : Bool

abbrev pub amqp_descriptor_domain : ℕ
amqp_descriptor_domain = 0

abbrev pub amqp_empty_frame : ℕ
amqp_empty_frame = 1

abbrev pub described_by : DecodedFrame → Descriptor → DecodedFrame
described_by f d = record f { descriptor = d }

abbrev pub object_at : ℕ → M AmqpType
object_at p = if p == 0 then abort assertion else get (λ s. s.types p)

unfoldable pub bytes_from : Buffer → ℕ → ℕ → List ℕ
bytes_from b i zero = []
bytes_from b i (suc n) = unchecked_getc_at b i ∷ bytes_from b (i + 1) n

unfoldable pub type_is_ulong : AmqpType → Bool
type_is_ulong t = has_flag t.typedef_flags is_long && has_flag t.typedef_flags is_unsigned

-- `amqp_type_get_descriptor` and `amqp_type_get_described`.
unfoldable pub element_of : ℕ → ℕ → M ℕ
element_of p i = object_at p >>= λ t.
    if type_is_composite t
    then (if t.has_elements then pure (t.elements i) else abort fault)
    else abort assertion

-- The performatives that have a decoder: those of SASL and of the transport, but `error`.
unfoldable pub is_performative : ℕ → Bool
is_performative id = (leb 0x10 id && leb id 0x18) || (leb 0x40 id && leb id 0x44)

-- What a frame that is not accepted gives back: its object, if the pointer is not null, and itself;
-- `cleaned` says that its own method of cleaning up is called.
pub record Cleanup : Type 0 where
  pub freed : Option ℕ
  pub cleaned : Bool

unfoldable pub frame_cleanup : DecodedFrame → Cleanup
frame_cleanup f = record {
  freed = if f.type == 0 then none else some f.type;
  cleaned = not (f.descriptor.id == 0) && f.has_cleanup;
}

pub data FrameResult : Type 0 where
  accepted : DecodedFrame → FrameResult
  refused : Cleanup → FrameResult

-- The table of symbols and the decoders of the fields are parameters.
module _ (lookup : List ℕ → Option Descriptor)
    (decode_fields : DecodedFrame → ℕ → M (Bool × DecodedFrame)) where
  unfoldable pub decode_symbolic_descriptor : DecodedFrame → AmqpType → M (Bool × DecodedFrame)
  decode_symbolic_descriptor f t s =
      returned
        (elim (lookup (bytes_from s.buffer t.position_index t.position_size)) [
          | none ↦ (false, f)
          | some d ↦ (true, described_by f d)
        ])
        s

  -- The domain that is compared is the one in the memory of the frame.
  unfoldable pub decode_ulong_descriptor : DecodedFrame → ℕ → Bool × DecodedFrame
  decode_ulong_descriptor f code =
      if not (f.descriptor.domain == amqp_descriptor_domain)
      then (false, f)
      else (true, described_by f (record { domain = code / 2 ^ 32; id = code % 2 ^ 32; kind = 0 }))

  unfoldable pub decode_descriptor : DecodedFrame → ℕ → M (Bool × DecodedFrame)
  decode_descriptor f p = object_at p >>= λ t.
      if has_flag t.typedef_flags is_symbol
      then decode_symbolic_descriptor f t
      else if not (type_is_ulong t)
      then pure (false, f)
      else pure (decode_ulong_descriptor f t.word)

  unfoldable pub decode_remainder : DecodedFrame → ℕ → M (Bool × DecodedFrame)
  decode_remainder f p = object_at p >>= λ t.
      if not (type_is_list t)
      then pure (false, f)
      else if is_performative f.descriptor.id
      then decode_fields f p
      else pure (false, described_by f (record f.descriptor { id = 0 }))

  unfoldable pub decode_performative : DecodedFrame → ℕ → M (Bool × DecodedFrame)
  decode_performative f p = object_at p >>= λ t.
      if type_is_invalid t
      then pure (false, f)
      else (element_of p 0 >>= λ descriptor. decode_descriptor f descriptor >>= λ (rc, f').
          if rc
          then (element_of p 0 >>= λ _.
              element_of p 1 >>= λ described. decode_remainder f' described)
          else pure (false, f'))

  abbrev pub empty_frame : DecodedFrame → DecodedFrame
  empty_frame f = record f {
    descriptor = record f.descriptor { kind = amqp_empty_frame };
    dispatches_empty = true;
  }

  unfoldable pub decode_body : DecodedFrame → M (Bool × DecodedFrame)
  decode_body f = amqp_decode >>= λ p.
      if p == 0 then pure (true, empty_frame f) else decode_performative (record f { type = p }) p

  -- `decode_frame` in the memory of a frame.
  unfoldable pub decode_frame_in : DecodedFrame → M (Bool × DecodedFrame)
  decode_frame_in f s = elim (decode_header s.buffer) [
    | none ↦ aborted assertion
    | some (rc, header, b) ↦
        let f' = record f { header = header } in
        (if rc then decode_body f' else pure (false, f')) (record s { buffer = b })
  ]

  unfoldable pub decode_any_frame : DecodedFrame → M FrameResult
  decode_any_frame f = decode_frame_in f >>= λ (rc, f').
      pure (if rc then accepted f' else refused (frame_cleanup f'))

  unfoldable pub check_sasl_frame : FrameResult → FrameResult
  check_sasl_frame (refused c) = refused c
  check_sasl_frame (accepted f) =
      if f.descriptor.id == 0
      then refused (frame_cleanup f)
      else if not (f.header.frame_type == amqp_sasl_frame_type)
      then refused (frame_cleanup f)
      else accepted f

  unfoldable pub check_amqp_frame : FrameResult → FrameResult
  check_amqp_frame (refused c) = refused c
  check_amqp_frame (accepted f) =
      if not (f.descriptor.id == 0) && not (f.header.frame_type == amqp_frame_type)
      then refused (frame_cleanup f)
      else accepted f

  unfoldable pub decode_sasl_frame : DecodedFrame → M FrameResult
  decode_sasl_frame f = decode_any_frame f >>= λ r. pure (check_sasl_frame r)

  unfoldable pub decode_amqp_frame : DecodedFrame → M FrameResult
  decode_amqp_frame f = decode_any_frame f >>= λ r. pure (check_amqp_frame r)

-- The frame that keeps a connection alive, in a newly allocated buffer.
unfoldable pub encode_empty_frame : Buffer → Buffer
encode_empty_frame b =
    let b1 = unchecked_putc (hton_32 b 8) 2 in hton_16 (unchecked_putc b1 amqp_frame_type) 0
