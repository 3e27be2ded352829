-- ===== src/Codec/RoundTrip/DataTrip.antt =====
-- Both encodings of data of variable size, and the round trip through them.
use libamqp.Prelude.{
  ℕ, ◌+◌, ◌-◌, ◌^◌, ◌≤◌, ◌<◌, ◌≡◌, false, List, ltb, arith, sym, ◌∙◌, ap, length, All,
}
use mathlib.Core.Path.{subst}
use libamqp.Buffer.Bytes.{Holds, IsByte, append_bytes-Appends, append_bytes-Holds}
use libamqp.Buffer.Words.{bytes_32-IsByte}
use libamqp.Codec.MetaData.{MetaData}
use libamqp.Codec.State.{State, M, ◌>>=◌, type_is_invalid}
use libamqp.Codec.State.Hoare.{Returns, Returns-bind, Returns-mono}
use libamqp.Codec.Decode.Run.{amqp_decode}
use libamqp.Codec.RoundTrip.Writing.{Wrote}
use libamqp.Codec.RoundTrip.Cases.{if_cases}
use libamqp.Codec.RoundTrip.Data.{GotData}
use libamqp.Codec.RoundTrip.Sized.{wire_data, IsEncoding, Runs, short-GotData, long-GotData}

wire_data-GotData :
    {code_8 code_32 : ℕ} {meta_8 meta_32 : MetaData} (value : List ℕ) (s : State)
    → IsEncoding code_8 code_32 meta_8 meta_32
    → Runs code_8 meta_8 value
    → Runs code_32 meta_32 value
    → length value < 2 ^ 32 - 1
    → 0 < length value
    → s.buffer.index + length (wire_data code_8 code_32 value) ≤ s.buffer.size
    → Holds s.buffer s.buffer.index (wire_data code_8 code_32 value)
    → Returns
        (amqp_decode s)
        (GotData s value (s.buffer.index + length (wire_data code_8 code_32 value)))
wire_data-GotData value s enc short long small some_data =
    if_cases (ltb (length value) 256)
      (λ w.
        s.buffer.index + length w ≤ s.buffer.size
        → Holds s.buffer s.buffer.index w
        → Returns (amqp_decode s) (GotData s value (s.buffer.index + length w)))
      (λ q fits hs.
        subst (λ e. Returns (amqp_decode s) (GotData s value e)) (omega arith)
          (short-GotData value s enc short (ground arith) some_data (omega arith) hs))
      (λ _ fits hs.
        subst (λ e. Returns (amqp_decode s) (GotData s value e)) (omega arith)
          (long-GotData value s enc long small some_data (omega arith) hs))

wire_data-IsByte :
    (code_8 code_32 : ℕ) (value : List ℕ)
    → code_8 < 2 ^ 8
    → code_32 < 2 ^ 8
    → All IsByte value
    → All IsByte (wire_data code_8 code_32 value)
wire_data-IsByte code_8 code_32 value h8 h32 h =
    if_cases (ltb (length value) 256) (All IsByte) (λ q. (h8, (ground arith, h)))
      (λ _.
        let r = bytes_32-IsByte (length value) in (h32, (r.0, (r.1.0, (r.1.1.0, (r.1.1.1.0, h))))))

-- The object is valid and its position is where the bytes lie, and nothing is left to read.
abbrev pub DataBack : M ℕ → State → List ℕ → Type 0
DataBack encode s value = Returns ((encode >>= λ _. amqp_decode) s) (λ p t.
    Holds t.buffer (t.types p).position_index value
    × ((t.types p).position_size ≡ length value)
    × (type_is_invalid (t.types p) ≡ false)
    × (t.buffer.index ≡ t.buffer.size))

pub data_round_trip :
    {code_8 code_32 : ℕ} {meta_8 meta_32 : MetaData} (encode : M ℕ) (value : List ℕ) (s : State)
    → IsEncoding code_8 code_32 meta_8 meta_32
    → Runs code_8 meta_8 value
    → Runs code_32 meta_32 value
    → code_8 < 2 ^ 8
    → code_32 < 2 ^ 8
    → All IsByte value
    → 0 < length value
    → length value < 2 ^ 32 - 1
    → s.buffer.index ≡ s.buffer.size
    → Returns (encode s) (Wrote s (wire_data code_8 code_32 value))
    → DataBack encode s value
data_round_trip {code_8} {code_32} encode value s enc short long h8 h32 bytes some_data small i
      wrote =
    let wire : List ℕ = wire_data code_8 code_32 value in
    Returns-bind encode (λ _. amqp_decode) s (Wrote s wire) _ wrote
      (λ p t w.
        let a = append_bytes-Appends wire s.buffer in
        let size : t.buffer.size ≡ s.buffer.size + length wire = ap (λ b. b.size) w.1.0 ∙ a.grows in
        let index : t.buffer.index ≡ s.buffer.index = ap (λ b. b.index) w.1.0 ∙ a.same_index in
        let held : Holds t.buffer t.buffer.index wire =
          subst (λ k. Holds t.buffer k wire) (sym (index ∙ i))
            (subst (λ b. Holds b s.buffer.size wire) (sym w.1.0)
              (append_bytes-Holds wire s.buffer
                (wire_data-IsByte code_8 code_32 value h8 h32 bytes))) in
        Returns-mono (amqp_decode t) (GotData t value (t.buffer.index + length wire)) _
          (wire_data-GotData value t enc short long small some_data (omega (arith, size, index, i))
            held)
          (λ q u g. (
            subst (λ x. Holds u.buffer (u.types x).position_index value) (sym g.0) g.1.0,
            subst (λ x. (u.types x).position_size ≡ length value) (sym g.0) g.1.1.0,
            subst (λ x. type_is_invalid (u.types x) ≡ false) (sym g.0) g.1.1.1.0,
            omega (arith, ap (λ b. b.index) g.1.1.1.1, ap (λ b. b.size) g.1.1.1.1, size, index, i),
          )))
