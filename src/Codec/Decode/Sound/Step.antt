-- ===== src/Codec/Decode/Sound/Step.antt =====
-- One call of `amqp_decode`, over what is assumed of `decode_type_into_result`.
use libamqp.Prelude.{ℕ, ◌+◌, ◌≤◌, ◌<◌, ◌≡◌, refl, Bool, if◌then◌else◌, arith, inl, inr, ◌⊎◌, ap}
use libamqp.Buffer.{at_end}
use libamqp.Codec.Errors.{error_unknown_format_code}
use libamqp.Codec.State.{State, M, pure, ◌>>=◌, ◌>>◌, allocate_type}
use libamqp.Codec.State.Hoare.{
  Ensures, Ensures-if, Ensures-bind, Ensures-mono, Extends, Extends-refl, Extends-trans,
}
use libamqp.Codec.Decode.Fixed.{decode_error}
use libamqp.Codec.Decode.Compound.{decode_type_constructor}
use libamqp.Codec.Decode.Run.{decode_with}
use libamqp.Codec.Decode.Sound.Fixed.{Decoded, InBounds, decode_error-Extends}
use libamqp.Codec.Decode.Sound.Constructor.{ConstructorRead, decode_type_constructor-Extends}
use libamqp.Codec.Decode.Sound.Compound.{left, NewChild, DecodeSpec}
use libamqp.Codec.Decode.Sound.Elements.{IntoSpec}

-- What is left behind: null at the end of the buffer and nowhere else, or a new object.
abbrev pub Result : State → ℕ → State → Type 0
Result s c t =
    Extends s.next_type s t
    × (((c ≡ 0) × (t ≡ s) × (s.buffer.index ≡ s.buffer.size))
        ⊎ ((c ≡ s.next_type) × (s.buffer.index < t.buffer.index) × (s.next_type < t.next_type)))

-- A state with one more object.
abbrev Allocated : State → ℕ → State → Type 0
Allocated s c t =
    Extends s.next_type s t
    × (c ≡ s.next_type)
    × (t.next_type ≡ s.next_type + 1)
    × (t.buffer ≡ s.buffer)

allocate-new : (s : State) → InBounds s → Ensures (allocate_type s) (Allocated s)
allocate-new s h = (
  record {
    same_size = refl;
    same_bytes = refl;
    reads_on = omega arith;
    in_bounds = h;
    allocates = omega arith;
    same_container = refl;
    others = λ q l n. ground arith;
  },
  refl,
  refl,
  refl,
)

-- The new object `c`, and the rest of its decoding.
New : State → ℕ → State → Type 0
New s c t =
    Extends s.next_type s t
    × (c ≡ s.next_type)
    × (s.buffer.index < t.buffer.index)
    × (s.next_type < t.next_type)

decode_new :
    (into : ℕ → M Bool) (p k : ℕ) (s t : State)
    → IntoSpec into k
    → Allocated s p t
    → s.buffer.index < s.buffer.size
    → left s ≤ k
    → Ensures
        ((decode_type_constructor p >>= λ known.
            if known
            then (into p >>= λ _. pure p)
            else (decode_error p error_unknown_format_code >> pure p))
          t)
        (Result s)
decode_new into p k s t spec a lt b =
    Ensures-bind (decode_type_constructor p) _ t (λ rc u. Extends p t u × ConstructorRead p t rc u)
      (Result s) (decode_type_constructor-Extends p t a.0.in_bounds)
      (λ known u f.
        let e : Extends s.next_type s u = Extends-trans a.0 f.0 (inl a.1) in
        let moved : s.buffer.index < u.buffer.index =
          let m = f.1.1 (omega (arith, a.0.same_size, ap (λ x. x.index) a.3)) in
          omega (arith, m, ap (λ x. x.index) a.3) in
        Ensures-if known (into p >>= λ _. pure p)
          (decode_error p error_unknown_format_code >> pure p) u (Result s)
          (λ q.
            Ensures-bind (into p) (λ _. pure p) u (Decoded p u) (Result s)
              (spec p u e.in_bounds (omega (arith, a.1, a.2, f.0.allocates)) (f.1.0 q)
                (omega (arith, e.same_size, e.in_bounds, moved)))
              (λ _ v d. (
                Extends-trans e d.0 (inl a.1),
                inr (
                  a.1,
                  omega (arith, moved, d.0.reads_on),
                  omega (arith, a.2, f.0.allocates, d.0.allocates),
                ),
              )))
          (λ q.
            let d = decode_error-Extends p error_unknown_format_code u e.in_bounds (omega arith) in
            (Extends-trans e d.0 (inl a.1), inr (a.1, moved, omega (arith, a.2, f.0.allocates)))))

pub decode_with-Result :
    (into : ℕ → M Bool) (k : ℕ) (s : State)
    → IntoSpec into k
    → InBounds s
    → left s ≤ k
    → Ensures (decode_with into s) (Result s)
unfolding decode_with at_end
decode_with-Result into k s spec h b =
    Ensures-if (at_end s.buffer) (pure 0) _ s (Result s)
      (λ q. (Extends-refl s.next_type s h, inl (refl, refl, ground arith)))
      (λ q.
        Ensures-bind allocate_type _ s (Allocated s) (Result s) (allocate-new s h)
          (λ p t a. decode_new into p k s t spec a (ground arith) b))

pub decode_with-DecodeSpec :
    (into : ℕ → M Bool) (k : ℕ) → IntoSpec into k → DecodeSpec (decode_with into) k
decode_with-DecodeSpec into k spec s h z b =
    Ensures-mono (decode_with into s) (Result s) (NewChild s) (decode_with-Result into k s spec h b)
      (λ c t r. (r.0, new r.1))
  where
    new :
        {c : ℕ} {A B C D : Type 0}
        → ((c ≡ 0) × A × B) ⊎ ((c ≡ s.next_type) × C × D)
        → (c ≡ 0) ⊎ (s.next_type ≤ c)
    new (inl x) = inl x.0
    new (inr x) = inr (omega (arith, x.0))
