-- ===== src/Codec/Decode/Sound/Elements.antt =====
-- The elements of an array, over what is assumed of `decode_type_into_result`.
use libamqp.Prelude.{ℕ, suc, ◌≤◌, ◌<◌, ◌≡◌, ◌≢◌, refl, Bool, true, ◌==◌, arith, inr, ◌∙◌, ap}
use libamqp.Codec.State.{AmqpType, State, M, pure, ◌>>=◌, ◌>>◌}
use libamqp.Codec.State.Hoare.{
  Ensures, Ensures-if, Ensures-bind, Ensures-mono, Extends, Extends-refl, Extends-trans, keep_bind,
}
use libamqp.Codec.Decode.Compound.{
  element_loop, create_array_element, decode_array_element, array_elements, with_elements,
}
use libamqp.Codec.Decode.Sound.Constructor.{IsKnown, keep_set}
use libamqp.Codec.Decode.Sound.Fixed.{Decoded, InBounds}
use libamqp.Codec.Decode.Sound.Compound.{left, NewChild, Loop, element_loop-Extends, Failure}

-- What is assumed of `decode_type_into_result` where fewer than `k` bytes are left.
abbrev pub IntoSpec : (ℕ → M Bool) → ℕ → Type 0
IntoSpec into k =
    (p : ℕ) (s : State)
    → InBounds s
    → p < s.next_type
    → IsKnown (s.types p)
    → left s < k
    → Ensures (into p s) (Decoded p s)

-- Inside an array: the constructor object is known, and is not the array.
abbrev pub ArrayLoop : ℕ → ℕ → State → Type 0
ArrayLoop p c s = (c < s.next_type) × (c ≢ p) × IsKnown (s.types c)

-- A new element has the constructor's entry.
abbrev NewElement : State → ℕ → State → Type 0
NewElement s q t =
    Extends s.next_type s t
    × (q ≡ s.next_type)
    × (s.next_type < t.next_type)
    × (t.buffer ≡ s.buffer)
    × IsKnown (t.types q)

create_array_element-NewChild :
    (p c : ℕ) (s : State)
    → InBounds s
    → ArrayLoop p c s
    → Ensures (create_array_element c s) (NewElement s)
create_array_element-NewChild p c s h (lt, ne, (m, e, w)) = (
  record {
    same_size = refl;
    same_bytes = refl;
    reads_on = omega arith;
    in_bounds = h;
    allocates = omega arith;
    same_container = refl;
    others = λ q l n. ground arith;
  },
  refl,
  omega arith,
  refl,
  (m, ground arith, w),
)

decode_array_element-NewChild :
    (into : ℕ → M Bool) (p c k : ℕ) (s : State)
    → IntoSpec into (suc k)
    → InBounds s
    → ArrayLoop p c s
    → left s ≤ k
    → Ensures (decode_array_element into c s) (NewChild s)
unfolding decode_array_element
decode_array_element-NewChild into p c k s spec h a b =
    Ensures-bind (create_array_element c) (λ q. into q >>= λ _. pure q) s (NewElement s)
      (NewChild s) (create_array_element-NewChild p c s h a)
      (λ q t n.
        Ensures-bind (into q) (λ _. pure q) t (Decoded q t) (NewChild s)
          (spec q t n.0.in_bounds (omega (arith, n.1, n.2)) n.4
            (omega (arith, n.0.same_size, n.0.reads_on)))
          (λ _ u d. (Extends-trans n.0 d.0 (inr (omega (arith, n.1))), inr (omega (arith, n.1)))))

array-Loop :
    (into : ℕ → M Bool) (p c k : ℕ)
    → IntoSpec into (suc k)
    → Loop p k (decode_array_element into c) (ArrayLoop p c)
array-Loop into p c k spec = record {
  keeps = λ s t a x. (
    omega (arith, x.allocates, a.0),
    a.1,
    (a.2.0, ap (λ (o : AmqpType). o.meta_data) (x.others c a.0 a.1) ∙ a.2.1, a.2.2),
  );
  child = λ s h a b. decode_array_element-NewChild into p c k s spec h a b;
}

pub array_elements-Decoded :
    (into : ℕ → M Bool) (p c k count : ℕ) (s : State)
    → IntoSpec into (suc k)
    → InBounds s
    → ArrayLoop p c s
    → left s ≤ k
    → Ensures ((array_elements into p c count >> pure true) s) (Decoded p s)
array_elements-Decoded into p c k count s spec h a b =
    keep_bind (array_elements into p c count) (λ _. pure true) p s (λ _ _. Unit {0}) (Failure p)
      (Ensures-if (count == 0) (pure tt) _ s _ (λ _. (Extends-refl p s h, tt))
        (λ _.
          keep_set p with_elements (element_loop (decode_array_element into c) p count 0) s
            (λ _ _. Unit {0}) h
            (λ t e q.
              Ensures-mono (element_loop (decode_array_element into c) p count 0 t)
                (λ _ u. Extends p t u) _
                (element_loop-Extends p k (decode_array_element into c) (ArrayLoop p c)
                  (array-Loop into p c k spec) count 0 t e.in_bounds
                  ((array-Loop into p c k spec).keeps s t a e)
                  (omega (arith, e.same_size, e.reads_on)))
                (λ _ u f. (f, tt)))))
      (λ _ t e _. (Extends-refl p t e.in_bounds, λ r. cc))
