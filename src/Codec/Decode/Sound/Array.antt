-- ===== src/Codec/Decode/Sound/Array.antt =====
-- Arrays, over what is assumed of `decode_type_into_result`.
use libamqp.Prelude.{
  ℕ, zero, suc, ◌+◌, ◌≤◌, ◌<◌, ◌≡◌, refl, Bool, true, false, ◌==◌, if◌then◌else◌, arith, inl, inr,
}
use libamqp.Buffer.Words.{u32_minus_one}
use libamqp.Codec.Errors.{error_unknown_array_element_format_code}
use libamqp.Codec.MetaData.{MetaData}
use libamqp.Codec.State.{State, M, Outcome, pure, allocate_type, ◌>>=◌, ◌>>◌, write_type}
use libamqp.Codec.State.Hoare.{
  Ensures, Ensures-if, Ensures-bind, Ensures-mono, Extends, Extends-refl, Extends-write,
  Extends-trans, keep_bind,
}
use libamqp.Codec.Decode.Variable.{get_variable_type_count}
use libamqp.Codec.Decode.Compound.{
  construct_container_type, decode_type_constructor, fail, array_elements, array_with_constructor,
  array_body, decode_array, with_count, with_array_constructor,
}
use libamqp.Codec.Decode.Sound.Constructor.{
  ConstructorRead, keep_set, decode_type_constructor-Extends,
}
use libamqp.Codec.Decode.Sound.Fixed.{Marked, Decoded, InBounds}
use libamqp.Codec.Decode.Sound.Variable.{IsSizeWidth, get_variable_type_count-Extends}
use libamqp.Codec.Decode.Sound.Compound.{
  left, construct_container_type-Progressed, Failure, fail-Decoded,
}
use libamqp.Codec.Decode.Sound.Elements.{IntoSpec, array_elements-Decoded}

-- A later result, seen from an earlier state.
Decoded-after :
    {p : ℕ} {s t : State} (r : Outcome Bool)
    → Extends p s t
    → Ensures r (Decoded p t)
    → Ensures r (Decoded p s)
Decoded-after {p} {s} {t} r e h =
    Ensures-mono r (Decoded p t) (Decoded p s) h (λ rc u d. (Extends-trans e d.0 (inl refl), d.1))

-- The constructor `c` is new since `s`, and the elements are decoded with it.
with_constructor-Decoded :
    (into : ℕ → M Bool) (p k count c : ℕ) (s t : State)
    → IntoSpec into (suc k)
    → Extends p s t
    → p < s.next_type
    → s.next_type ≤ c
    → c < t.next_type
    → left s ≤ k
    → Ensures (array_with_constructor into p count c t) (Decoded p s)
unfolding array_with_constructor
with_constructor-Decoded into p k count c s t spec e lt new in_t b =
    let t1 : State = write_type t p (with_array_constructor c (t.types p)) in
    let e1 : Extends p s t1 = Extends-trans e (Extends-write p t _ e.in_bounds) (inl refl) in
    Ensures-bind (decode_type_constructor c) _ t1
      (λ rc u. Extends c t1 u × ConstructorRead c t1 rc u) (Decoded p s)
      (decode_type_constructor-Extends c t1 e.in_bounds)
      (λ rc u f.
        let e2 : Extends p s u = Extends-trans e1 f.0 (inr new) in
        Ensures-if rc (array_elements into p c count >> pure true)
          (fail p error_unknown_array_element_format_code) u (Decoded p s)
          (λ q. Decoded-after ((array_elements into p c count >> pure true) u) e2 (
            array_elements-Decoded into p c k count u spec e2.in_bounds
              (omega (arith, f.0.allocates), omega arith, f.1.0 q)
              (omega (arith, e2.same_size, e2.reads_on))))
          (λ q.
            Decoded-after (fail p error_unknown_array_element_format_code u) e2 (
              fail-Decoded p error_unknown_array_element_format_code u e2.in_bounds (omega arith))))

allocate-Extends :
    (p : ℕ) (s : State)
    → InBounds s
    → Ensures (allocate_type s) (λ c t.
      Extends p s t × (c ≡ s.next_type) × (t.next_type ≡ s.next_type + 1) × (t.buffer ≡ s.buffer))
allocate-Extends p s h = (
  record {
    same_size = refl;
    same_bytes = refl;
    reads_on = omega arith;
    in_bounds = h;
    allocates = omega arith;
    same_container = refl;
    others = λ q l n. ground arith;
  },
  refl,
  refl,
  refl,
)

abbrev Allocated : ℕ → State → ℕ → State → Type 0
Allocated p s c t =
    Extends p s t × (c ≡ s.next_type) × (t.next_type ≡ s.next_type + 1) × (t.buffer ≡ s.buffer)

array_body-Decoded :
    (into : ℕ → M Bool) (p k count : ℕ) (s : State)
    → IntoSpec into (suc k)
    → InBounds s
    → p < s.next_type
    → left s ≤ k
    → Ensures (array_body into p count s) (Decoded p s)
unfolding array_body
array_body-Decoded into p k count s spec h lt b =
    keep_set p (with_count count) (allocate_type >>= array_with_constructor into p count) s
      (Failure p) h
      (λ t e q.
        Ensures-bind allocate_type (array_with_constructor into p count) t (Allocated p t)
          (Decoded p t) (allocate-Extends p t e.in_bounds)
          (λ c u a.
            with_constructor-Decoded into p k count c t u spec a.0 (omega (arith, e.allocates))
              (omega (arith, a.1)) (omega (arith, a.1, a.2))
              (omega (arith, e.same_size, e.reads_on))))

-- The elements have fewer bytes than the array.
array_body-inside :
    (into : ℕ → M Bool) (p count k : ℕ) (s : State)
    → IntoSpec into k
    → InBounds s
    → p < s.next_type
    → left s < k
    → Ensures (array_body into p count s) (Decoded p s)
array_body-inside into p count zero s spec h lt b = absurd (omega arith)
array_body-inside into p count (suc k) s spec h lt b =
    array_body-Decoded into p k count s spec h lt (omega arith)

pub decode_array-Decoded :
    (into : ℕ → M Bool) (meta : MetaData) (p k : ℕ) (s : State)
    → InBounds s
    → p < s.next_type
    → IsSizeWidth meta.width
    → IntoSpec into k
    → left s ≤ k
    → Ensures (decode_array into meta p s) (Decoded p s)
unfolding decode_array
decode_array-Decoded into meta p k s h lt w spec b =
    keep_bind (construct_container_type meta p) _ p s
      (λ rc t. (rc ≡ false → Marked (t.types p)) × (rc ≡ true → s.buffer.index < t.buffer.index))
      (Failure p) (construct_container_type-Progressed meta p s h w)
      (λ rc t e g.
        Ensures-if rc _ (pure false) t _
          (λ q.
            keep_bind (get_variable_type_count meta p)
              (λ count. if count == u32_minus_one then pure false else array_body into p count) p t
              (λ v u. v ≡ u32_minus_one → Marked (u.types p)) (Failure p)
              (get_variable_type_count-Extends meta p t e.in_bounds w)
              (λ count u f m.
                Ensures-if (count == u32_minus_one) (pure false) (array_body into p count) u _
                  (λ r. (Extends-refl p u f.in_bounds, λ _. m (ground arith)))
                  (λ r.
                    array_body-inside into p count k u spec f.in_bounds
                      (omega (arith, e.allocates, f.allocates))
                      (omega (arith, g.1 q, e.in_bounds, e.same_size, f.reads_on, f.same_size)))))
          (λ q. (Extends-refl p t e.in_bounds, λ _. g.0 q)))
