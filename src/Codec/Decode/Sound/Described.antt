-- ===== src/Codec/Decode/Sound/Described.antt =====
-- Described types, over what is assumed of `amqp_decode`.
use libamqp.Prelude.{
  ℕ, ◌≤◌, ◌<◌, ◌≡◌, ◌≢◌, refl, Bool, true, ◌==◌, if◌then◌else◌, arith, inl, inr, ◌⊎◌,
}
use libamqp.Codec.Errors.{
  error_no_descriptor, error_no_described_type, error_descriptor_invalid, error_described_invalid,
}
use libamqp.Codec.Flags.{is_descriptor, is_described}
use libamqp.Codec.State.{State, M, pure, type_is_invalid, ◌>>=◌, ◌>>◌, write_type}
use libamqp.Codec.State.Hoare.{
  Ensures, Ensures-if, Ensures-bind, Ensures-mono, Extends, Extends-refl, Extends-write,
  Extends-trans,
}
use libamqp.Codec.Decode.Fixed.{set_position, with_position}
use libamqp.Codec.Decode.Compound.{
  set_child, fail, described_validity, described_second, described_type, set_count,
  allocate_elements, with_count, with_elements,
}
use libamqp.Codec.Decode.Sound.Constructor.{keep_set}
use libamqp.Codec.Decode.Sound.Fixed.{Decoded, InBounds}
use libamqp.Codec.Decode.Sound.Compound.{
  left, NewChild, Extends-new, DecodeSpec, Failure, fail-Decoded,
}

-- The two or three flags and the link that make an object a child of `p`.
set_child-Extends :
    (p i c flag : ℕ) (s t : State)
    → Extends p s t
    → s.next_type ≤ c
    → Ensures (set_child p i c flag t) (λ _ u. Extends p s u)
set_child-Extends p i c flag s t e l =
    Extends-trans
      (Extends-trans (Extends-trans e (Extends-write p t _ e.in_bounds) (inl refl))
        (Extends-write c (write_type t p _) _ e.in_bounds) (inr l))
      (Extends-write c (write_type (write_type t p _) c _) _ e.in_bounds) (inr l)

described_validity-Decoded :
    (p d e : ℕ) (s : State) → InBounds s → Ensures (described_validity p d e s) (Decoded p s)
unfolding described_validity
described_validity-Decoded p d e s h =
    Ensures-if (type_is_invalid (s.types d)) (fail p error_descriptor_invalid) _ s (Decoded p s)
      (λ _. fail-Decoded p error_descriptor_invalid s h (omega arith))
      (λ _.
        Ensures-if (type_is_invalid (s.types e)) (fail p error_described_invalid) (pure true) s
          (Decoded p s) (λ _. fail-Decoded p error_described_invalid s h (omega arith))
          (λ _. (Extends-refl p s h, λ r. cc)))

-- A decoded child, or the failure that its absence is.
child_or_fail :
    (decode : M ℕ) (p k i code flag : ℕ) (rest : ℕ → M Bool) (s : State)
    → DecodeSpec decode k
    → InBounds s
    → 0 < s.next_type
    → left s ≤ k
    → code ≢ 0
    → ((c : ℕ) (t : State) → Extends p s t → Ensures (rest c t) (Decoded p t))
    → Ensures
        ((decode >>= λ c. if c == 0 then fail p code else (set_child p i c flag >> rest c)) s)
        (Decoded p s)
child_or_fail decode p k i code flag rest s spec h z b c r =
    Ensures-bind decode _ s (NewChild s) (Decoded p s) (spec s h z b) (λ d t n.
      let e : Extends p s t = Extends-new p (omega arith) n.0 in
      Ensures-if (d == 0) (fail p code) (set_child p i d flag >> rest d) t (Decoded p s)
        (λ q. let f = fail-Decoded p code t e.in_bounds c in (Extends-trans e f.0 (inl refl), f.1))
        (λ q.
          Ensures-bind (set_child p i d flag) (λ _. rest d) t (λ _ u. Extends p s u) (Decoded p s)
            (set_child-Extends p i d flag s t e (new n.1 (ground arith)))
            (λ _ u f.
              Ensures-mono (rest d u) (Decoded p u) (Decoded p s) (r d u f)
                (λ rc v g. (Extends-trans f g.0 (inl refl), g.1)))))
  where
    new : {d : ℕ} → (d ≡ 0) ⊎ (s.next_type ≤ d) → d ≢ 0 → s.next_type ≤ d
    new (inl q) n = absurd (n q)
    new (inr q) n = q

described_second-Decoded :
    (decode : M ℕ) (p k d : ℕ) (s : State)
    → DecodeSpec decode k
    → InBounds s
    → 0 < s.next_type
    → left s ≤ k
    → Ensures (described_second decode p d s) (Decoded p s)
unfolding described_second
described_second-Decoded decode p k d s spec h z b =
    child_or_fail decode p k 1 error_no_described_type is_described (described_validity p d) s spec
      h z b (omega arith) (λ c t e. described_validity-Decoded p d c t e.in_bounds)

pub described_type-Decoded :
    (decode : M ℕ) (p k : ℕ) (s : State)
    → DecodeSpec decode k
    → InBounds s
    → 0 < s.next_type
    → left s ≤ k
    → Ensures (described_type decode p s) (Decoded p s)
unfolding described_type set_position
described_type-Decoded decode p k s spec h z b =
    let first : M Bool = decode >>= λ d.
    if d == 0
    then fail p error_no_descriptor
    else (set_child p 0 d is_descriptor >> described_second decode p d) in
    keep_set p (with_position s.buffer.index 0) (set_count p 2 >> (allocate_elements p >> first)) s
      (Failure p) h
      (λ t e q.
        keep_set p (with_count 2) (allocate_elements p >> first) t (Failure p) e.in_bounds (λ u f r.
          keep_set p with_elements first u (Failure p) f.in_bounds (λ v g w.
            child_or_fail decode p k 0 error_no_descriptor is_descriptor (described_second decode p)
              v spec g.in_bounds (omega (arith, e.allocates, f.allocates, g.allocates))
              (omega
                (arith, e.same_size, e.reads_on, f.same_size, f.reads_on, g.same_size, g.reads_on))
              (omega arith)
              (λ c x y.
                described_second-Decoded decode p k c x spec y.in_bounds
                  (omega (arith, e.allocates, f.allocates, g.allocates, y.allocates))
                  (omega (
                    arith, e.same_size, e.reads_on, f.same_size, f.reads_on, g.same_size,
                    g.reads_on, y.same_size, y.reads_on,
                  ))))))
