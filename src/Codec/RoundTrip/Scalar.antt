-- ===== src/Codec/RoundTrip/Scalar.antt =====
-- A single value, from its bytes to the object that `amqp_decode` returns, and from an encoder to there.
use libamqp.Prelude.{
  ℕ, suc, ◌+◌, ◌-◌, ◌≤◌, ◌<◌, ◌≡◌, true, false, ◌||◌, some, List, arith, sym, ◌∙◌, ap, length, All,
}
use mathlib.Core.Path.{subst}
use libamqp.Buffer.{unchecked_getc_at}
use libamqp.Buffer.Bytes.{Holds, IsByte, append_bytes-Appends, append_bytes-Holds}
use libamqp.Codec.Flags.{has_flag, is_invalid, is_incomplete}
use libamqp.Codec.MetaData.{MetaData}
use libamqp.Codec.MetaData.Lookup.{type_meta_data_lookup}
use libamqp.Codec.State.{AmqpType, State, M, ◌>>=◌, type_is_invalid}
use libamqp.Codec.State.Hoare.{Returns, Returns-bind, Returns-mono}
use libamqp.Codec.Decode.Run.{run_decoder, decode_type_into_result, amqp_decode}
use libamqp.Codec.RoundTrip.Reading.{started, amqp_decode-started}
use libamqp.Codec.RoundTrip.Storing.{Stored}
use libamqp.Codec.RoundTrip.Writing.{Wrote}

-- A new and valid object, whose union has the property, and the read point moved on by `n`.
abbrev pub Got : State → ℕ → (ℕ → Type 0) → ℕ → State → Type 0
Got s n V p t =
    (p ≡ s.next_type)
    × (V (t.types s.next_type).word
        × ((type_is_invalid (t.types s.next_type) ≡ false)
            × (t.buffer ≡ record s.buffer { index = s.buffer.index + n })))

pub valid_flags :
    (x : AmqpType) (meta : MetaData)
    → x.typedef_flags ≡ meta.typedef_flags
    → (has_flag meta.typedef_flags is_invalid || has_flag meta.typedef_flags is_incomplete) ≡ false
    → type_is_invalid x ≡ false
unfolding type_is_invalid
valid_flags x meta e h = ap (λ w. has_flag w is_invalid || has_flag w is_incomplete) e ∙ h

-- The state in which the decoder of the entry runs.
abbrev pub Runs : ℕ → MetaData → State → ℕ → ℕ → Type 0
Runs code meta s n word =
    Returns
      (run_decoder (decode_type_into_result (s.buffer.size - s.buffer.index)) meta.type_decoder meta
        s.next_type (started meta code s))
      (Stored s.next_type n word (started meta code s))

pub scalar_read :
    (code : ℕ) (meta : MetaData) (s : State) (n word : ℕ) (V : ℕ → Type 0)
    → s.buffer.index < s.buffer.size
    → unchecked_getc_at s.buffer s.buffer.index ≡ code
    → type_meta_data_lookup code ≡ some (some meta)
    → (has_flag meta.typedef_flags is_invalid || has_flag meta.typedef_flags is_incomplete) ≡ false
    → Runs code meta s n word
    → V word
    → Returns (amqp_decode s) (Got s (suc n) V)
scalar_read code meta s n word V h e l f r v =
    let p : ℕ = s.next_type in
    let Q : State → Type 0 = λ t.
      V (t.types p).word
      × ((type_is_invalid (t.types p) ≡ false)
          × (t.buffer ≡ record s.buffer { index = s.buffer.index + suc n })) in
    amqp_decode-started code meta s Q h e l (
      Returns-mono
        (run_decoder (decode_type_into_result (s.buffer.size - s.buffer.index)) meta.type_decoder
          meta p (started meta code s))
        (Stored p n word (started meta code s)) (λ rc t. (rc ≡ true) × Q t) r
        (λ rc t d. (
          d.0,
          (
            subst V (sym d.1.0) v,
            (
              valid_flags (t.types p) meta (d.1.1.0 ∙ (ground arith)) f,
              d.1.1.1 ∙ ap (λ k. record s.buffer { index = k }) (omega arith),
            ),
          ),
        )))

-- The bytes behind the read point are those that an encoder has put there.
pub round_trip :
    (encode : M ℕ) (bytes : List ℕ) (s : State) (V : ℕ → Type 0)
    → s.buffer.index ≡ s.buffer.size
    → All IsByte bytes
    → Returns (encode s) (Wrote s bytes)
    → ((t : State)
        → t.buffer.index + length bytes ≤ t.buffer.size
        → Holds t.buffer t.buffer.index bytes
        → Returns (amqp_decode t) (Got t (length bytes) V))
    → Returns ((encode >>= λ _. amqp_decode) s) (λ p t.
      V (t.types p).word × (type_is_invalid (t.types p) ≡ false) × (t.buffer.index ≡ t.buffer.size))
round_trip encode bytes s V i all w d =
    Returns-bind encode (λ _. amqp_decode) s (Wrote s bytes) _ w
      (λ p t h.
        let a = append_bytes-Appends bytes s.buffer in
        let size : t.buffer.size ≡ s.buffer.size + length bytes =
          ap (λ b. b.size) h.1.0 ∙ a.grows in
        let index : t.buffer.index ≡ s.buffer.index = ap (λ b. b.index) h.1.0 ∙ a.same_index in
        let held : Holds t.buffer t.buffer.index bytes =
          subst (λ k. Holds t.buffer k bytes) (sym (index ∙ i))
            (subst (λ b. Holds b s.buffer.size bytes) (sym h.1.0)
              (append_bytes-Holds bytes s.buffer all)) in
        Returns-mono (amqp_decode t) (Got t (length bytes) V) _
          (d t (omega (arith, size, index, i)) held)
          (λ q u g. (
            subst (λ x. V (u.types x).word) (sym g.0) g.1.0,
            subst (λ x. type_is_invalid (u.types x) ≡ false) (sym g.0) g.1.1.0,
            omega (arith, ap (λ b. b.index) g.1.1.1, ap (λ b. b.size) g.1.1.1, size, index, i),
          )))
