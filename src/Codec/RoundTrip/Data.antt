-- ===== src/Codec/RoundTrip/Data.antt =====
-- Data of variable size, from its bytes to the object that `amqp_decode` returns.
use libamqp.Prelude.{
  ℕ, ◌+◌, ◌-◌, ◌<◌, ◌≡◌, true, false, ◌||◌, some, List, [], ◌∷◌, ◌++◌, arith, sym, ◌∙◌, length,
}
use mathlib.Core.Path.{subst}
use libamqp.Buffer.{Buffer, unchecked_getc_at}
use libamqp.Buffer.Bytes.{Holds}
use libamqp.Codec.Flags.{has_flag, is_invalid, is_incomplete}
use libamqp.Codec.MetaData.{MetaData}
use libamqp.Codec.MetaData.Lookup.{type_meta_data_lookup}
use libamqp.Codec.State.{State, type_is_invalid}
use libamqp.Codec.State.Hoare.{Returns, Returns-mono}
use libamqp.Codec.Decode.Run.{run_decoder, decode_type_into_result, amqp_decode}
use libamqp.Codec.RoundTrip.Reading.{started, amqp_decode-started}
use libamqp.Codec.RoundTrip.Scalar.{valid_flags}
use libamqp.Codec.RoundTrip.Variable.{Placed}

-- The read point has no part in what the buffer holds.
pub Holds-index :
    (b : Buffer) (k i : ℕ) (cs : List ℕ) → Holds b i cs → Holds (record b { index = k }) i cs
unfolding unchecked_getc_at
Holds-index b k i [] h = tt
Holds-index b k i (c ∷ cs) (e, h) = (e, Holds-index b k (i + 1) cs h)

pub Holds-++ :
    (b : Buffer) (i : ℕ) (cs ds : List ℕ)
    → Holds b i (cs ++ ds)
    → Holds b i cs × Holds b (i + length cs) ds
Holds-++ b i [] ds h = (tt, subst (λ k. Holds b k ds) (omega arith) h)
Holds-++ b i (c ∷ cs) ds (e, h) =
    let r = Holds-++ b (i + 1) cs ds h in ((e, r.0), subst (λ k. Holds b k ds) (omega arith) r.1)

-- A new and valid object at the data, and the read point behind it.
abbrev pub GotData : State → List ℕ → ℕ → ℕ → State → Type 0
GotData s value end p t =
    (p ≡ s.next_type)
    × (Holds t.buffer (t.types s.next_type).position_index value
        × (((t.types s.next_type).position_size ≡ length value)
            × ((type_is_invalid (t.types s.next_type) ≡ false)
                × (t.buffer ≡ record s.buffer { index = end }))))

pub data_read :
    (code : ℕ) (meta : MetaData) (s : State) (value : List ℕ) (k : ℕ)
    → s.buffer.index < s.buffer.size
    → unchecked_getc_at s.buffer s.buffer.index ≡ code
    → type_meta_data_lookup code ≡ some (some meta)
    → (has_flag meta.typedef_flags is_invalid || has_flag meta.typedef_flags is_incomplete) ≡ false
    → Returns
        (run_decoder
          (decode_type_into_result (s.buffer.size - s.buffer.index))
          meta.type_decoder
          meta
          s.next_type
          (started meta code s))
        (Placed s.next_type k (length value) (started meta code s))
    → Holds s.buffer k value
    → Returns (amqp_decode s) (GotData s value (k + length value))
data_read code meta s value k h e l f r held =
    let p : ℕ = s.next_type in
    let end : ℕ = k + length value in
    let Q : State → Type 0 = λ t.
      Holds t.buffer (t.types p).position_index value
      × (((t.types p).position_size ≡ length value)
          × ((type_is_invalid (t.types p) ≡ false)
              × (t.buffer ≡ record s.buffer { index = end }))) in
    amqp_decode-started code meta s Q h e l (
      Returns-mono
        (run_decoder (decode_type_into_result (s.buffer.size - s.buffer.index)) meta.type_decoder
          meta p (started meta code s))
        (Placed p k (length value) (started meta code s)) (λ rc t. (rc ≡ true) × Q t) r
        (λ rc t d.
          let here : Holds (record s.buffer { index = end }) k value =
            Holds-index s.buffer end k value held in
          (
            d.0,
            (
              subst (λ b. Holds b (t.types p).position_index value) (sym d.1.1.1.1)
                  (subst (λ i. Holds (record s.buffer { index = end }) i value) (sym d.1.0) here),
              (d.1.1.0, (valid_flags (t.types p) meta (d.1.1.1.0 ∙ (ground arith)) f, d.1.1.1.1)),
            ),
          )))
