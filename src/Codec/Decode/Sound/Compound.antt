-- ===== src/Codec/Decode/Sound/Compound.antt =====
-- The loop over elements, lists and maps, over what is assumed of `amqp_decode`.
use libamqp.Prelude.{
  ℕ, zero, suc, ◌+◌, ◌-◌, ◌≤◌, ◌<◌, ◌≡◌, ◌≢◌, refl, Bool, true, false, ◌==◌, arith, inl, inr, ◌⊎◌,
}
use libamqp.Buffer.Words.{u32_minus_one}
use libamqp.Codec.MetaData.{MetaData}
use libamqp.Codec.State.{State, M, pure, type_is_invalid, ◌>>◌, write_type}
use libamqp.Codec.State.Hoare.{
  Ensures, Ensures-if, Ensures-bind, Ensures-mono, Extends, Extends-refl, Extends-write,
  Extends-trans, keep_bind,
}
use libamqp.Codec.Decode.Fixed.{set_position, fixed_zero_width}
use libamqp.Codec.Decode.Variable.{get_variable_type_size, get_variable_type_count}
use libamqp.Codec.Decode.Compound.{
  construct_container_type, add_element, element_loop, fail, list_list, list_0, set_count,
  allocate_elements, with_count, with_elements,
}
use libamqp.Codec.Decode.Sound.Constructor.{keep_set}
use libamqp.Codec.Decode.Sound.Fixed.{
  Marked, Decoded, InBounds, decode_error-Extends, fixed_zero_width-Decoded,
}
use libamqp.Codec.Decode.Sound.Variable.{
  IsSizeWidth, SizeRead, Progressed, get_variable_type_size-Extends,
  get_variable_type_count-Extends,
}

-- What is left to read.
abbrev pub left : State → ℕ
left s = s.buffer.size - s.buffer.index

-- A new object, or null; older objects are as they were.
abbrev pub NewChild : State → ℕ → State → Type 0
NewChild s c t = Extends s.next_type s t × ((c ≡ 0) ⊎ (s.next_type ≤ c))

-- `Extends` for a new object is `Extends` for any other.
pub Extends-new : {s t : State} {c : ℕ} (p : ℕ) → s.next_type ≤ c → Extends c s t → Extends p s t
Extends-new p h e = record {
  same_size = e.same_size;
  same_bytes = e.same_bytes;
  reads_on = e.reads_on;
  in_bounds = e.in_bounds;
  allocates = e.allocates;
  same_container = e.same_container;
  others = λ q l n. e.others q l (omega arith);
}

-- What a loop needs to know of the state, and that steps on the object `p` keep it.
pub record Loop (p k : ℕ) (next : M ℕ) (I : State → Type 0) : Type 0 where
  pub keeps : (s t : State) → I s → Extends p s t → I t
  pub child : (s : State) → InBounds s → I s → left s ≤ k → Ensures (next s) (NewChild s)

pub add_element-Extends :
    (p i c : ℕ) (s t : State)
    → Extends p s t
    → (c ≡ 0) ⊎ (s.next_type ≤ c)
    → Ensures (add_element p i c t) (λ _ u. Extends p s u)
add_element-Extends p i c s t e d =
    Ensures-if (c == 0) (pure tt) _ t (λ _ u. Extends p s u) (λ q. e)
      (λ q.
        Extends-trans (Extends-trans e (Extends-write p t _ e.in_bounds) (inl refl))
          (Extends-write c (write_type t p _) _ e.in_bounds) (inr (fresh d (ground arith))))
  where
    fresh : (c ≡ 0) ⊎ (s.next_type ≤ c) → c ≢ 0 → s.next_type ≤ c
    fresh (inl z) n = absurd (n z)
    fresh (inr l) n = l

pub element_loop-Extends :
    (p k : ℕ) (next : M ℕ) (I : State → Type 0)
    → Loop p k next I
    → (rounds i : ℕ) (s : State) → InBounds s
    → I s
    → left s ≤ k
    → Ensures (element_loop next p rounds i s) (λ _ t. Extends p s t)
unfolding element_loop
element_loop-Extends p k next I l zero i s h j b = Extends-refl p s h
element_loop-Extends p k next I l (suc rounds) i s h j b =
    Ensures-bind next _ s (NewChild s) (λ _ t. Extends p s t) (l.child s h j b)
      (λ c t n.
        let e : Extends p s t = Extends-new p (omega arith) n.0 in
        Ensures-bind (add_element p i c) _ t (λ _ u. Extends p s u) (λ _ u. Extends p s u)
          (add_element-Extends p i c s t e n.1)
          (λ _ u f.
            Ensures-mono (element_loop next p rounds (i + 1) u) (λ _ v. Extends p u v)
              (λ _ v. Extends p s v)
              (element_loop-Extends p k next I l rounds (i + 1) u f.in_bounds (l.keeps s u j f)
                (omega (arith, f.reads_on, f.same_size)))
              (λ _ v g. Extends-trans f g (inl refl))))

-- A container whose size field has been read has moved the read point on.
pub construct_container_type-Progressed :
    (meta : MetaData) (p : ℕ) (s : State)
    → InBounds s
    → IsSizeWidth meta.width
    → Ensures (construct_container_type meta p s) (Progressed p s)
unfolding construct_container_type set_position
construct_container_type-Progressed meta p s h w =
    keep_bind (get_variable_type_size meta p) _ p s (SizeRead p s)
      (λ rc t. (rc ≡ false → Marked (t.types p)) × (rc ≡ true → s.buffer.index < t.buffer.index))
      (get_variable_type_size-Extends meta p s h w)
      (λ v t e k.
        Ensures-if (v == u32_minus_one) (pure false) _ t _
          (λ q. (Extends-refl p t e.in_bounds, ((λ _. k.0 (ground arith)), λ r. cc)))
          (λ q. (Extends-write p t _ e.in_bounds, ((λ r. cc), λ _. (k.1 (ground arith)).0))))

-- What is assumed of `amqp_decode` where at most `k` bytes are left, and what it leaves behind.
abbrev pub DecodeSpec : M ℕ → ℕ → Type 0
DecodeSpec decode k =
    (s : State) → InBounds s → 0 < s.next_type → left s ≤ k → Ensures (decode s) (NewChild s)

pub decode-Loop :
    (p k : ℕ) (decode : M ℕ) → DecodeSpec decode k → Loop p k decode (λ s. 0 < s.next_type)
decode-Loop p k decode d = record {
  keeps = λ s t h e. omega (arith, e.allocates);
  child = λ s h j b. d s h j b;
}

abbrev pub Failure : ℕ → Bool → State → Type 0
Failure p rc t = rc ≡ false → Marked (t.types p)

-- The loop over the elements, and the success behind it.
pub run_loop :
    (p k : ℕ) (next : M ℕ) (I : State → Type 0) (count : ℕ) (s : State)
    → Loop p k next I
    → InBounds s
    → I s
    → left s ≤ k
    → Ensures ((element_loop next p count 0 >> pure true) s) (Decoded p s)
run_loop p k next I count s l h j b =
    Ensures-bind (element_loop next p count 0) (λ _. pure true) s (λ _ t. Extends p s t)
      (Decoded p s) (element_loop-Extends p k next I l count 0 s h j b) (λ _ t e. (e, λ x. cc))

pub list_list-Decoded :
    (decode : M ℕ) (meta : MetaData) (p k : ℕ) (s : State)
    → InBounds s
    → 0 < s.next_type
    → IsSizeWidth meta.width
    → DecodeSpec decode k
    → left s ≤ suc k
    → Ensures (list_list decode meta p s) (Decoded p s)
unfolding list_list
list_list-Decoded decode meta p k s h z w d b =
    keep_bind (construct_container_type meta p) _ p s _ (Failure p)
      (construct_container_type-Progressed meta p s h w)
      (λ rc t e g.
        Ensures-if rc _ (pure false) t _
          (λ q.
            keep_bind (get_variable_type_count meta p) _ p t _ (Failure p)
              (get_variable_type_count-Extends meta p t e.in_bounds w)
              (λ count u f m.
                Ensures-if (count == u32_minus_one) (pure false) _ u _
                  (λ r. (Extends-refl p u f.in_bounds, λ _. m (ground arith)))
                  (λ r.
                    elements u count f.in_bounds (omega (arith, e.allocates, f.allocates))
                      (omega (arith, g.1 q, e.in_bounds, e.same_size, f.reads_on, f.same_size)))))
          (λ q. (Extends-refl p t e.in_bounds, λ _. g.0 q)))
  where
    elements :
        (u : State) (count : ℕ)
        → InBounds u
        → 0 < u.next_type
        → left u ≤ k
        → Ensures
            ((set_count p count
                >> (allocate_elements p >> (element_loop decode p count 0 >> pure true)))
              u)
            (Decoded p u)
    elements u count h' z' b' =
        keep_set p (with_count count)
          (allocate_elements p >> (element_loop decode p count 0 >> pure true)) u (Failure p) h'
          (λ t e q.
            keep_set p with_elements (element_loop decode p count 0 >> pure true) t (Failure p)
              e.in_bounds
              (λ v f r.
                run_loop p k decode (λ x. 0 < x.next_type) count v (decode-Loop p k decode d)
                  f.in_bounds (omega (arith, e.allocates, f.allocates))
                  (omega (arith, e.reads_on, e.same_size, f.reads_on, f.same_size))))

Marked-write :
    (p c : ℕ) (s : State)
    → Marked (s.types p)
    → Marked ((write_type s p (with_count c (s.types p))).types p)
unfolding type_is_invalid
Marked-write p c s h = ground arith

pub list_0-Decoded : (p : ℕ) (s : State) → InBounds s → Ensures (list_0 p s) (Decoded p s)
unfolding list_0
list_0-Decoded p s h =
    keep_bind (fixed_zero_width p) (λ rc. set_count p 0 >> pure rc) p s (Failure p) (Failure p)
      (fixed_zero_width-Decoded p s h)
      (λ rc t e k.
        (Extends-write p t (with_count 0 (t.types p)) e.in_bounds, λ r. Marked-write p 0 t (k r)))

pub fail-Decoded :
    (p code : ℕ) (s : State) → InBounds s → code ≢ 0 → Ensures (fail p code s) (Decoded p s)
fail-Decoded p code s h c = let f = decode_error-Extends p code s h c in (f.0, λ _. f.1)
