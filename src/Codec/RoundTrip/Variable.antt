-- ===== src/Codec/RoundTrip/Variable.antt =====
-- What `amqp_encode_simple_variable` appends where no container is open, and what
-- `amqp_construct_variable_type` makes of it.
use libamqp.Prelude.{
  ℕ, ◌+◌, ◌^◌, ◌≤◌, ◌<◌, ◌≡◌, refl, Bool, true, false, ◌&&◌, none, some, List, [], ◌∷◌, ◌++◌, leb,
  ◌==◌, not, arith, sym, ◌∙◌, ap, length, update, Bool-cases, inl, inr,
}
use mathlib.Core.Path.{subst}
use libamqp.Buffer.{Buffer, check_available, check_free_space, puts, advance_read_index}
use libamqp.Buffer.Bytes.{append_bytes, append_bytes-Appends, append_bytes-++, put_each-fits}
use libamqp.Buffer.Words.{read_size_field, u32_minus_one}
use libamqp.Codec.MetaData.{MetaData}
use libamqp.Codec.State.{
  AmqpType, State, returned, aborted, bad_width, pure, write_type, buffer_address,
}
use libamqp.Codec.State.Hoare.{bind_returned, Returns, Returns-if, Returns-bind}
use libamqp.Codec.Decode.Fixed.{set_position, with_position}
use libamqp.Codec.Decode.Compound.{with_count}
use libamqp.Codec.Decode.Variable.{
  buffer_read_size_field, get_variable_type_size, construct_variable_type,
}
use libamqp.Codec.Encode.{initialize_type}
use libamqp.Codec.Encode.Variable.{put_size, put_variable, encode_simple_variable}
use libamqp.Codec.RoundTrip.Writing.{Wrote, IsScalar, initialize_type-Wrote, room-true}

puts-fits :
    (b : Buffer) (cs : List ℕ) → b.size + length cs < b.capacity → (puts b cs).1 ≡ append_bytes b cs
unfolding puts
puts-fits b cs h = elim (Bool-cases (leb b.capacity (b.size + length cs))) [
  | inl q ↦ absurd (ground arith)
  | inr q ↦ rw q (put_each-fits cs b (omega arith))
]

-- The size field is written as the bytes `field`.
abbrev pub WritesSize : ℕ → ℕ → List ℕ → Type 0
WritesSize width n field =
    (t : State)
    → Returns (put_size width n t) (λ _ u. u ≡ record t { buffer = append_bytes t.buffer field })

put_variable-Wrote :
    (meta : MetaData) (value field : List ℕ) (s : State)
    → s.container ≡ 0
    → IsScalar meta
    → WritesSize meta.width (length value) field
    → s.buffer.size + 1 + length field + length value < s.buffer.capacity
    → Returns (put_variable meta value s) (Wrote s (meta.format_code ∷ (field ++ value)))
put_variable-Wrote meta value field s c k f h =
    let Q : ℕ → State → Type 0 = Wrote s (meta.format_code ∷ (field ++ value)) in
    Returns-bind (initialize_type 0 meta) _ s (Wrote s (meta.format_code ∷ [])) Q
      (initialize_type-Wrote meta s c k (omega arith))
      (λ p t w.
        let t1 : State = write_type t p (with_count buffer_address (t.types p)) in
        Returns-bind (put_size meta.width (length value)) _ t1
          (λ _ u. u ≡ record t1 { buffer = append_bytes t.buffer field }) Q (f t1)
          (λ _ u e.
            let b1 = append_bytes s.buffer (meta.format_code ∷ []) in
            let b2 = append_bytes b1 field in
            let a1 = append_bytes-Appends (meta.format_code ∷ []) s.buffer in
            let a2 = append_bytes-Appends field b1 in
            let g : u.buffer ≡ b2 = ap (λ x. x.buffer) e ∙ ap (λ b. append_bytes b field) w.1.0 in
            (
              w.0,
              (
                ap (λ b. (puts b value).1) g
                    ∙ puts-fits b2 value
                        (omega (arith, a1.grows, a2.grows, a1.same_capacity, a2.same_capacity))
                    ∙ sym (append_bytes-++ field value b1)
                    ∙ sym (append_bytes-++ (meta.format_code ∷ []) (field ++ value) s.buffer),
                (ap (λ x. x.next_type) e ∙ w.1.1.0, ap (λ x. x.container) e ∙ w.1.1.1),
              ),
            )))

-- The value is encoded where there is more room than it takes: `amqp_buffer_puts` drops data that
-- fills the buffer.
pub encode_simple_variable-Wrote :
    (meta : MetaData) (value field : List ℕ) (s : State)
    → s.container ≡ 0
    → IsScalar meta
    → WritesSize meta.width (length value) field
    → meta.width ≡ length field
    → s.buffer.size + 1 + length field + length value < s.buffer.capacity
    → s.buffer.capacity < 2 ^ 64
    → Returns (encode_simple_variable meta value s) (Wrote s (meta.format_code ∷ (field ++ value)))
unfolding encode_simple_variable
encode_simple_variable-Wrote meta value field s c k f w h z =
    Returns-if (check_free_space s.buffer (meta.width + 1 + length value)) (put_variable meta value)
      (pure 0) s (Wrote s (meta.format_code ∷ (field ++ value)))
      (λ _. put_variable-Wrote meta value field s c k f h)
      (λ q. absurd (
        ground
          (arith, q, room-true s.buffer (meta.width + 1 + length value) (omega (arith, w, h)) z)))

-- A success that has found the data at `k`, `n` bytes long, and read past it.
abbrev pub Placed : ℕ → ℕ → ℕ → State → Bool → State → Type 0
Placed p k n s rc t =
    (rc ≡ true)
    × (((t.types p).position_index ≡ k)
        × (((t.types p).position_size ≡ n)
            × (((t.types p).typedef_flags ≡ (s.types p).typedef_flags)
                × (t.buffer ≡ record s.buffer { index = k + n }))))

size_read :
    (meta : MetaData) (p n k : ℕ) (s : State)
    → read_size_field s.buffer meta.width ≡ some (n, record s.buffer { index = k })
    → n < u32_minus_one
    → k < s.buffer.size
    → k + n ≤ s.buffer.size
    → Returns
        (get_variable_type_size meta p s)
        (λ v t. (v ≡ n) × (t ≡ record s { buffer = record s.buffer { index = k } }))
unfolding get_variable_type_size check_available
size_read meta p n k s e small in_size fits =
    let t : State = record s { buffer = record s.buffer { index = k } } in
    let Q : ℕ → State → Type 0 = λ v u. (v ≡ n) × (u ≡ t) in
    subst (λ o. Returns o Q)
      (sym (
        bind_returned (buffer_read_size_field meta.width) _ s n t (
          ap
            (λ o. elim o [
              | none ↦ aborted bad_width
              | some (v, b) ↦ returned v (record s { buffer = b })
            ])
            e)))
      (Returns-if (not (n == u32_minus_one) && check_available t.buffer n) (pure n) _ t Q
        (λ _. (refl, refl)) (λ q. absurd (ground arith)))

abbrev pub with_read_index : ℕ → Buffer → Buffer
with_read_index k b = record b { index = k }

placed_flags :
    (f : ℕ → AmqpType) (p i n w : ℕ)
    → let g = update f p (with_position i n (f p)) in
      (update g p (with_count w (g p)) p).typedef_flags ≡ (f p).typedef_flags
placed_flags f p i n w = ground arith

pub construct_variable_type-Placed :
    (meta : MetaData) (p n k : ℕ) (s : State)
    → read_size_field s.buffer meta.width ≡ some (n, record s.buffer { index = k })
    → n < u32_minus_one
    → k < s.buffer.size
    → k + n ≤ s.buffer.size
    → Returns (construct_variable_type meta p s) (Placed p k n s)
unfolding construct_variable_type set_position advance_read_index
construct_variable_type-Placed meta p n k s e small in_size fits =
    Returns-bind (get_variable_type_size meta p) _ s
      (λ v t. (v ≡ n) × (t ≡ record s { buffer = record s.buffer { index = k } })) (Placed p k n s)
      (size_read meta p n k s e small in_size fits)
      (λ v t d.
        Returns-if (v == u32_minus_one) (pure false) _ t (Placed p k n s)
          (λ q. absurd (ground (arith, d.0)))
          (λ _.
            let b : t.buffer ≡ record s.buffer { index = k } = ap (λ x. x.buffer) d.1 in
            let x : t.types ≡ s.types = ap (λ u. u.types) d.1 in
            let i : t.buffer.index ≡ k = ap (λ y. y.index) b in
            (
              refl,
              (
                ground (arith, i),
                (
                  ground (arith, d.0),
                  (
                    placed_flags t.types p t.buffer.index v buffer_address
                        ∙ ap (λ f. (f p).typedef_flags) x,
                    ap (with_read_index (t.buffer.index + v)) b
                        ∙ ap (λ j. with_read_index j s.buffer) (omega (arith, i, d.0)),
                  ),
                ),
              ),
            )))
