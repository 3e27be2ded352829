-- ===== src/Codec/RoundTrip/Writing.antt =====
-- What the encoders of fixed width append to the buffer, where no container is open.
use libamqp.Prelude.{
  ℕ, ◌+◌, ◌^◌, ◌≤◌, ◌<◌, ◌≡◌, refl, true, false, List, [], ◌∷◌, ◌==◌, if◌then◌else◌, arith, update,
  ◌∙◌, ap,
}
use libamqp.Buffer.{Buffer, check_free_space, putc}
use libamqp.Buffer.Bytes.{append_bytes}
use libamqp.Codec.MetaData.{MetaData}
use libamqp.Codec.State.{AmqpType, State, pure, ◌>>◌, set_buffer, write_type, type_is_container}
use libamqp.Codec.State.Hoare.{Returns, Returns-if, Returns-bind}
use libamqp.Codec.Encode.{
  initialize_type, initialize_constructor, emit_constructor, emit_in_container, push_container,
}
use libamqp.Codec.Encode.Fixed.{encode_fixed, encode_fixed_type, then_put}

-- A new object, and the bytes at the end of the buffer.
abbrev pub Wrote : State → List ℕ → ℕ → State → Type 0
Wrote s bytes p t =
    (p ≡ s.next_type)
    × ((t.buffer ≡ append_bytes s.buffer bytes)
        × ((t.next_type ≡ s.next_type + 1) × (t.container ≡ s.container)))

-- A meta data entry of a type that is no container.
abbrev pub IsScalar : MetaData → Type 0
IsScalar meta = (x : AmqpType) → type_is_container (initialize_constructor 0 meta x) ≡ false

emitted :
    (b : Buffer) (code : ℕ) → b.size < b.capacity → (putc b code).1 ≡ append_bytes b (code ∷ [])
unfolding putc append_bytes
emitted b code h = ground arith

update_same : (f : ℕ → AmqpType) (p : ℕ) (x : AmqpType) → update f p x p ≡ x
update_same f p x = ground arith

pub initialize_type-Wrote :
    (meta : MetaData) (s : State)
    → s.container ≡ 0
    → IsScalar meta
    → s.buffer.size < s.buffer.capacity
    → Returns (initialize_type 0 meta s) (Wrote s (meta.format_code ∷ []))
unfolding initialize_type
initialize_type-Wrote meta s c k h =
    let p : ℕ = s.next_type in
    let x : AmqpType = record (s.types p) { extension_type_code = 255 } in
    let t : State = record s { types = update s.types p x; next_type = p + 1 } in
    let u : State = write_type t p (initialize_constructor 0 meta (t.types p)) in
    let v : State = record u { buffer = (putc s.buffer meta.format_code).1 } in
    Returns-bind
      (if s.container == 0
        then emit_constructor meta.format_code
        else emit_in_container s.container p meta.format_code)
      _ u (λ _ w. w ≡ v) (Wrote s (meta.format_code ∷ []))
      (Returns-if (s.container == 0) (emit_constructor meta.format_code) _ u (λ _ w. w ≡ v)
        (λ _. refl) (λ q. absurd (ground arith)))
      (λ _ w e.
        Returns-bind (if type_is_container (w.types p) then push_container p else pure tt)
          (λ _. pure p) w (λ _ y. y ≡ v) (Wrote s (meta.format_code ∷ []))
          (Returns-if (type_is_container (w.types p)) (push_container p) (pure tt) w (λ _ y. y ≡ v)
            (λ q.
              let g : type_is_container (w.types p) ≡ false =
                ap (λ y. type_is_container (y.types p)) e
                ∙ ap type_is_container
                    (update_same t.types p (initialize_constructor 0 meta (t.types p)))
                ∙ k (t.types p) in
              absurd (ground (arith, q, g)))
            (λ _. e))
          (λ _ y f. (
            refl,
            (
              ap (λ z. z.buffer) f ∙ emitted s.buffer meta.format_code h,
              (ap (λ z. z.next_type) f, ap (λ z. z.container) f),
            ),
          )))

-- Room for the constructor and the value.
abbrev pub HasRoom : State → ℕ → Type 0
HasRoom s n = (s.buffer.size + n ≤ s.buffer.capacity) × (s.buffer.capacity < 2 ^ 64)

pub room-true :
    (b : Buffer) (n : ℕ)
    → b.size + n ≤ b.capacity
    → b.capacity < 2 ^ 64
    → check_free_space b n ≡ true
unfolding check_free_space
room-true b n h k = ground arith

pub encode_fixed-Wrote :
    (meta : MetaData) (s : State)
    → s.container ≡ 0
    → IsScalar meta
    → HasRoom s (meta.width + 1)
    → Returns (encode_fixed meta s) (Wrote s (meta.format_code ∷ []))
unfolding encode_fixed
encode_fixed-Wrote meta s c k h =
    let Q : ℕ → State → Type 0 = Wrote s (meta.format_code ∷ []) in
    Returns-if (check_free_space s.buffer (meta.width + 1)) (encode_fixed_type meta) (pure 0) s Q
      (λ _.
        Returns-bind (initialize_type 0 meta) _ s Q Q
          (initialize_type-Wrote meta s c k (omega (arith, h.0))) (λ p t w. w))
      (λ q. absurd (ground (arith, q, room-true s.buffer (meta.width + 1) h.0 h.1)))

append_one :
    (b : Buffer) (code : ℕ) (cs : List ℕ)
    → append_bytes (append_bytes b (code ∷ [])) cs ≡ append_bytes b (code ∷ cs)
unfolding append_bytes
append_one b code cs = refl

-- The bytes of the value behind the constructor.
pub then_put-Wrote :
    (meta : MetaData) (put : Buffer → Buffer) (bytes : List ℕ) (s : State)
    → s.container ≡ 0
    → 0 < s.next_type
    → IsScalar meta
    → HasRoom s (meta.width + 1)
    → ((b : Buffer) → put b ≡ append_bytes b bytes)
    → Returns (then_put (encode_fixed meta) put s) (Wrote s (meta.format_code ∷ bytes))
then_put-Wrote meta put bytes s c z k h e =
    let Q : ℕ → State → Type 0 = Wrote s (meta.format_code ∷ bytes) in
    Returns-bind (encode_fixed meta) (λ p. if p == 0 then pure p else (set_buffer put >> pure p)) s
      (Wrote s (meta.format_code ∷ [])) Q (encode_fixed-Wrote meta s c k h)
      (λ p t w.
        Returns-if (p == 0) (pure p) (set_buffer put >> pure p) t Q
          (λ q. absurd (ground (arith, w.0)))
          (λ _. (
            w.0,
            (
              e t.buffer
                  ∙ ap (λ b. append_bytes b bytes) w.1.0
                  ∙ append_one s.buffer meta.format_code bytes,
              w.1.1,
            ),
          )))
