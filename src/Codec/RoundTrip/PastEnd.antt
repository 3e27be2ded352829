-- ===== src/Codec/RoundTrip/PastEnd.antt =====
-- `amqp_decode` with the read point behind the write point.
use libamqp.Prelude.{ℕ, suc, ◌-◌, ◌<◌, ◌≡◌, true, none, some, arith, ◌∙◌, ap}
use libamqp.Buffer.{at_end, getc}
use libamqp.Codec.MetaData.Lookup.{type_meta_data_lookup}
use libamqp.Codec.MetaData.Search.{find_code, type_meta_data_lookup_lem}
use libamqp.Codec.MetaData.Table.{meta_data_extension_array_4}
use libamqp.Codec.State.{
  State, returned, aborted, stuck, unsupported, fault, ◌>>=◌, ◌>>◌, set_type, write_type,
}
use libamqp.Codec.State.Hoare.{branch_false, bind_returned}
use libamqp.Codec.Decode.Compound.{
  constructor_of, decode_type_constructor, next_format_code, set_constructor,
}
use libamqp.Codec.Decode.Run.{
  decode_with, run_decoder, checked, decode_type_into_result, amqp_decode,
}
use libamqp.Codec.RoundTrip.Reading.{allocated, with_code, coded}

next_code_past : (s : State) → s.buffer.size < s.buffer.index → next_format_code s ≡ returned 255 s
unfolding getc
next_code_past s h = ground arith

abbrev past : State → State
past s =
    let t = coded s.next_type 255 (allocated s) in
    write_type t s.next_type (constructor_of meta_data_extension_array_4 (t.types s.next_type))

constructor_past :
    (s : State)
    → s.buffer.size < s.buffer.index
    → decode_type_constructor s.next_type (allocated s) ≡ returned true (past s)
unfolding decode_type_constructor find_code
constructor_past s h =
    bind_returned next_format_code
      (λ c.
        set_type s.next_type (with_code c) >> set_constructor s.next_type (type_meta_data_lookup c))
      (allocated s) 255 (allocated s) (next_code_past (allocated s) h)
    ∙ ap (λ o. set_constructor s.next_type o (coded s.next_type 255 (allocated s)))
        (type_meta_data_lookup_lem 255)

known_past : (s : State) → ((past s).types s.next_type).meta_data ≡ some meta_data_extension_array_4
known_past s = ground arith

extension_aborts :
    (fuel : ℕ) (s : State)
    → decode_type_into_result (suc fuel) s.next_type (past s) ≡ aborted unsupported
unfolding decode_type_into_result run_decoder
extension_aborts fuel s =
    ap
      (λ o. elim o [
        | none ↦ aborted fault
        | some meta ↦
            (run_decoder (decode_type_into_result fuel) meta.type_decoder meta s.next_type
                >>= checked s.next_type)
              (past s)
      ])
      (known_past s)

-- With the read point behind the write point `amqp_decode` does not return null: the end is not seen,
-- the -1 that is read becomes the format code of an extension, and `not_implemented` ends the program.
pub amqp_decode-past_end :
    (s : State) → s.buffer.size < s.buffer.index → amqp_decode s ≡ aborted unsupported
unfolding amqp_decode decode_with at_end
amqp_decode-past_end s h =
    let fuel : ℕ = s.buffer.size - s.buffer.index in
    branch_false (at_end s.buffer) _ _ s (ground arith)
    ∙ bind_returned (decode_type_constructor s.next_type) _ (allocated s) true (past s)
        (constructor_past s h)
    ∙ ap
        (λ r. elim r [
          | returned b u ↦ returned s.next_type u
          | aborted why ↦ aborted why
          | stuck ↦ stuck
        ])
        (extension_aborts fuel s)
