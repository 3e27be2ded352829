-- ===== src/Codec/RoundTrip/Reading.antt =====
-- A single value of fixed width, read by `amqp_decode`: what is stored in the object.
use libamqp.Prelude.{
  ℕ, suc, ◌+◌, ◌-◌, ◌<◌, ◌≡◌, refl, Bool, true, none, some, arith, update, sym, ◌∙◌, ap,
}
use mathlib.Core.Path.{subst}
use libamqp.Buffer.{at_end, getc, unchecked_getc_at}
use libamqp.Codec.MetaData.{MetaData}
use libamqp.Codec.MetaData.Lookup.{type_meta_data_lookup}
use libamqp.Codec.State.{
  AmqpType, State, M, returned, aborted, fault, pure, ◌>>=◌, ◌>>◌, set_type, write_type,
}
use libamqp.Codec.State.Hoare.{bind_returned, Returns, Returns-if, Returns-bind}
use libamqp.Codec.Decode.Compound.{
  constructor_of, decode_type_constructor, next_format_code, set_constructor,
}
use libamqp.Codec.Decode.Run.{
  decode_with, run_decoder, checked, decode_type_into_result, amqp_decode,
}

-- The new object and the state, once the constructor of `meta` has been read.
abbrev pub allocated : State → State
allocated s = record s {
  types = update s.types s.next_type (record (s.types s.next_type) { extension_type_code = 255 });
  next_type = s.next_type + 1;
}

abbrev pub past_code : State → State
past_code s = record s { buffer = record s.buffer { index = s.buffer.index + 1 } }

abbrev pub with_code : ℕ → AmqpType → AmqpType
with_code code x = record x { format_code = code }

abbrev pub coded : ℕ → ℕ → State → State
coded p code s = write_type s p (with_code code (s.types p))

abbrev pub started : MetaData → ℕ → State → State
started meta code s =
    let t = coded s.next_type code (past_code (allocated s)) in
    write_type t s.next_type (constructor_of meta (t.types s.next_type))

next_code :
    (s : State)
    → s.buffer.index < s.buffer.size
    → next_format_code s ≡ returned (unchecked_getc_at s.buffer s.buffer.index) (past_code s)
unfolding getc
next_code s h = ground arith

constructor_read :
    (p code : ℕ) (meta : MetaData) (s : State)
    → s.buffer.index < s.buffer.size
    → unchecked_getc_at s.buffer s.buffer.index ≡ code
    → type_meta_data_lookup code ≡ some (some meta)
    → let t = coded p code (past_code s) in
      decode_type_constructor p s ≡ returned true (write_type t p (constructor_of meta (t.types p)))
unfolding decode_type_constructor
constructor_read p code meta s h e l =
    bind_returned next_format_code
      (λ c. set_type p (with_code c) >> set_constructor p (type_meta_data_lookup c)) s
      (unchecked_getc_at s.buffer s.buffer.index) (past_code s) (next_code s h)
    ∙ ap (λ c. set_constructor p (type_meta_data_lookup c) (coded p c (past_code s))) e
    ∙ ap (λ o. set_constructor p o (coded p code (past_code s))) l

known_run :
    (fuel : ℕ) (meta : MetaData) (p : ℕ) (s : State) (Q : State → Type 0)
    → (s.types p).meta_data ≡ some meta
    → Returns
        (run_decoder (decode_type_into_result fuel) meta.type_decoder meta p s)
        (λ rc t. (rc ≡ true) × Q t)
    → Returns (decode_type_into_result (suc fuel) p s) (λ _ t. Q t)
unfolding decode_type_into_result
known_run fuel meta p s Q e r =
    subst
      (λ o.
        Returns
          (elim o [
            | none ↦ aborted fault
            | some m ↦
                (run_decoder (decode_type_into_result fuel) m.type_decoder m p >>= checked p) s
          ])
          (λ _ t. Q t))
      (sym e)
      (Returns-bind (run_decoder (decode_type_into_result fuel) meta.type_decoder meta p)
        (checked p) s (λ rc t. (rc ≡ true) × Q t) (λ _ t. Q t) r
        (λ rc t d.
          Returns-if rc (pure rc) _ t (λ _ u. Q u) (λ _. d.1) (λ q. absurd (ground (arith, d.0)))))

-- The object is read by its decoder, on a success of which it is returned.
pub amqp_decode-started :
    (code : ℕ) (meta : MetaData) (s : State) (Q : State → Type 0)
    → s.buffer.index < s.buffer.size
    → unchecked_getc_at s.buffer s.buffer.index ≡ code
    → type_meta_data_lookup code ≡ some (some meta)
    → Returns
        (run_decoder
          (decode_type_into_result (s.buffer.size - s.buffer.index))
          meta.type_decoder
          meta
          s.next_type
          (started meta code s))
        (λ rc t. (rc ≡ true) × Q t)
    → Returns (amqp_decode s) (λ p t. (p ≡ s.next_type) × Q t)
unfolding amqp_decode decode_with at_end
amqp_decode-started code meta s Q h e l r =
    let into : ℕ → M Bool = decode_type_into_result (suc (s.buffer.size - s.buffer.index)) in
    Returns-if (at_end s.buffer) (pure 0) _ s (λ p t. (p ≡ s.next_type) × Q t)
      (λ q. absurd (ground arith))
      (λ q.
        subst (λ o. Returns o (λ p t. (p ≡ s.next_type) × Q t))
          (sym (
            bind_returned (decode_type_constructor s.next_type) _ (allocated s) true
              (started meta code s) (constructor_read s.next_type code meta (allocated s) h e l)))
          (Returns-bind (into s.next_type) (λ _. pure s.next_type) (started meta code s)
            (λ _ t. Q t) (λ p t. (p ≡ s.next_type) × Q t)
            (known_run (s.buffer.size - s.buffer.index) meta s.next_type (started meta code s) Q
              (ground arith) r)
            (λ _ t q. (refl, q))))
