-- ===== src/Frame/Performative/Laws.antt =====
-- What becomes of the object of a frame, by what it is.
use libamqp.Prelude.{
  ℕ, ◌/◌, ◌%◌, ◌^◌, ◌≡◌, ◌≢◌, ◌⊎◌, inl, inr, ap, ◌∙◌, Bool, true, false, not, Option, none, some,
  List, arith, ◌==◌, if◌then◌else◌, Bool-cases, if_true, if_false, ==→eq,
}
use libamqp.Buffer.{Buffer}
use libamqp.Codec.Flags.{has_flag, is_symbol}
use libamqp.Codec.State.{
  AmqpType, State, M, returned, aborted, assertion, pure, ◌>>=◌, type_is_list, type_is_composite,
  type_is_invalid,
}
use libamqp.Codec.State.Hoare.{bind_returned, bind_aborted, branch_true, branch_false, same_branch}
use libamqp.Codec.Decode.Run.{amqp_decode}
use libamqp.Frame.{FrameHeader, decode_header}
use libamqp.Frame.Performative.{
  Descriptor, DecodedFrame, described_by, object_at, type_is_ulong, element_of, is_performative,
  decode_descriptor, decode_ulong_descriptor, decode_remainder, decode_performative, decode_body,
  decode_frame_in, decode_any_frame, decode_amqp_frame,
}

-- A described object whose descriptor is a number and whose value is a list, as that of a frame is to
-- be.
pub record IsPerformative (s : State) (p descriptor described : ℕ) : Type 0 where
  pub there : p ≢ 0
  pub valid : type_is_invalid (s.types p) ≡ false
  pub composite : type_is_composite (s.types p) ≡ true
  pub has_elements : (s.types p).has_elements ≡ true
  pub first : (s.types p).elements 0 ≡ descriptor
  pub second : (s.types p).elements 1 ≡ described
  pub descriptor_there : descriptor ≢ 0
  pub described_there : described ≢ 0
  pub not_symbol : has_flag (s.types descriptor).typedef_flags is_symbol ≡ false
  pub ulong : type_is_ulong (s.types descriptor) ≡ true
  pub list : type_is_list (s.types described) ≡ true

object_read : (s : State) (p : ℕ) → p ≢ 0 → object_at p s ≡ returned (s.types p) s
object_read s p n = ground arith

-- What is done with an object that is there.
with_object :
    {A : Type 0} (s : State) (p : ℕ) (k : AmqpType → M A)
    → p ≢ 0
    → (object_at p >>= k) s ≡ k (s.types p) s
with_object s p k n = bind_returned (object_at p) k s (s.types p) s (object_read s p n)

element_read :
    (s : State) (p i : ℕ)
    → p ≢ 0
    → type_is_composite (s.types p) ≡ true
    → (s.types p).has_elements ≡ true
    → element_of p i s ≡ returned ((s.types p).elements i) s
unfolding element_of
element_read s p i n c h =
    with_object s p _ n
    ∙ branch_true (type_is_composite (s.types p)) _ _ s c
    ∙ branch_true (s.types p).has_elements _ _ s h

module _ (lookup : List ℕ → Option Descriptor)
    (decode_fields : DecodedFrame → ℕ → M (Bool × DecodedFrame)) where
  abbrev pub numbered : DecodedFrame → ℕ → DecodedFrame
  numbered f code = described_by f (record { domain = code / 2 ^ 32; id = code % 2 ^ 32; kind = 0 })

  performative_stops :
      (f : DecodedFrame) (t : State) (p : ℕ)
      → p ≢ 0
      → type_is_invalid (t.types p) ≡ false
      → type_is_composite (t.types p) ≡ false
      → decode_performative lookup decode_fields f p t ≡ aborted assertion
  unfolding decode_performative element_of
  performative_stops f t p n valid plain =
      with_object t p _ n
      ∙ branch_false (type_is_invalid (t.types p)) _ _ t valid
      ∙ bind_aborted (element_of p 0) _ t assertion
          (with_object t p _ n ∙ branch_false (type_is_composite (t.types p)) _ _ t plain)

  -- A frame in whose memory the header has been stored, after the header.
  pub frame_read :
      (f : DecodedFrame) (header : FrameHeader) (s : State) (b : Buffer)
      → decode_header s.buffer ≡ some (true, header, b)
      → decode_frame_in lookup decode_fields f s
        ≡ decode_body lookup decode_fields (record f { header = header }) (record s { buffer = b })
  unfolding decode_frame_in
  frame_read f header s b read =
      ap
        (λ o. elim o [
          | none ↦ aborted assertion
          | some (rc, header, b) ↦
              let f' = record f { header = header } in
              (if rc then decode_body lookup decode_fields f' else pure (false, f'))
                (record s { buffer = b })
        ])
        read

  -- A frame whose object is valid but not described ends the program by an `assert`.
  pub decode_amqp_frame-not_described :
      (f : DecodedFrame) (header : FrameHeader) (s t : State) (b : Buffer) (p : ℕ)
      → decode_header s.buffer ≡ some (true, header, b)
      → amqp_decode (record s { buffer = b }) ≡ returned p t
      → p ≢ 0
      → type_is_invalid (t.types p) ≡ false
      → type_is_composite (t.types p) ≡ false
      → decode_amqp_frame lookup decode_fields f s ≡ aborted assertion
  unfolding decode_amqp_frame decode_any_frame decode_body
  decode_amqp_frame-not_described f header s t b p read decoded n valid plain =
      let g = record f { header = header } in
      let nonzero : (p == 0) ≡ false = ground (arith, n) in
      bind_aborted (decode_any_frame lookup decode_fields f) _ s assertion (
        bind_aborted (decode_frame_in lookup decode_fields f) _ s assertion (
          frame_read f header s b read
          ∙ bind_returned amqp_decode _ (record s { buffer = b }) p t decoded
          ∙ branch_false (p == 0) _ _ t nonzero
          ∙ performative_stops (record g { type = p }) t p n valid plain))

  module _ (f : DecodedFrame) (s : State) (p d e : ℕ) (fine : IsPerformative s p d e) where
    abbrev code : ℕ
    code = (s.types d).word

    descriptor_read :
        decode_descriptor lookup decode_fields f d s
        ≡ returned (decode_ulong_descriptor lookup decode_fields f code) s
    unfolding decode_descriptor
    descriptor_read =
        with_object s d _ fine.descriptor_there
        ∙ branch_false (has_flag (s.types d).typedef_flags is_symbol) _ _ s fine.not_symbol
        ∙ branch_false (not (type_is_ulong (s.types d))) _ _ s (ap not fine.ulong)

    -- The list of a performative, once its descriptor is known.
    remainder_read :
        (g : DecodedFrame)
        → decode_remainder lookup decode_fields g e s
          ≡ (if is_performative g.descriptor.id
                then decode_fields g e
                else pure (false, described_by g (record g.descriptor { id = 0 })))
              s
    unfolding decode_remainder
    remainder_read g =
        with_object s e _ fine.described_there
        ∙ branch_false (not (type_is_list (s.types e))) _ _ s (ap not fine.list)

    children_read :
        (r : Bool × DecodedFrame)
        → decode_ulong_descriptor lookup decode_fields f code ≡ r
        → decode_performative lookup decode_fields f p s
          ≡ (if r.0 then decode_remainder lookup decode_fields r.1 e else pure (false, r.1)) s
    unfolding decode_performative
    children_read r same =
        let first =
          element_read s p 0 fine.there fine.composite fine.has_elements
          ∙ ap (λ q. returned q s) fine.first in
        let second =
          element_read s p 1 fine.there fine.composite fine.has_elements
          ∙ ap (λ q. returned q s) fine.second in
        let rest : Bool × DecodedFrame → M (Bool × DecodedFrame) = λ (rc, f').
          if rc
          then (element_of p 0 >>= λ _.
              element_of p 1 >>= λ q. decode_remainder lookup decode_fields f' q)
          else pure (false, f') in
        with_object s p _ fine.there
        ∙ branch_false (type_is_invalid (s.types p)) _ _ s fine.valid
        ∙ bind_returned (element_of p 0) (λ q. decode_descriptor lookup decode_fields f q >>= rest)
            s d s first
        ∙ bind_returned (decode_descriptor lookup decode_fields f d) rest s r s
            (descriptor_read ∙ ap (λ x. returned x s) same)
        ∙ same_branch r.0
            (element_of p 0 >>= λ _.
              element_of p 1 >>= λ q. decode_remainder lookup decode_fields r.1 q)
            (decode_remainder lookup decode_fields r.1 e) (pure (false, r.1)) s
            (bind_returned (element_of p 0)
                (λ _. element_of p 1 >>= λ q. decode_remainder lookup decode_fields r.1 q) s d s
                first
              ∙ bind_returned (element_of p 1) (decode_remainder lookup decode_fields r.1) s e s
                  second)

    -- The performative of a frame, by its descriptor: it is decoded if the lower half of the number is
    -- that of a performative, whatever its upper half, the domain, is; but it is refused if the memory
    -- of the frame has another domain.
    pub decode_performative_lem :
        ((f.descriptor.domain ≡ 0)
          × (is_performative (code % 2 ^ 32) ≡ true)
          × (decode_performative lookup decode_fields f p s ≡ decode_fields (numbered f code) e s))
        ⊎ ((f.descriptor.domain ≡ 0)
            × (is_performative (code % 2 ^ 32) ≡ false)
            × (decode_performative lookup decode_fields f p s
                ≡ returned
                    (false, described_by f (record { domain = code / 2 ^ 32; id = 0; kind = 0 }))
                    s))
        ⊎ ((f.descriptor.domain ≢ 0)
            × (decode_performative lookup decode_fields f p s ≡ returned (false, f) s))
    unfolding decode_ulong_descriptor
    decode_performative_lem = elim (Bool-cases (f.descriptor.domain == 0)) [
      | inr other ↦
          inr (
            inr
              (λ q. ground (arith, other, q), children_read (false, f) (if_true _ (ap not other))))
      | inl home ↦
          let here : f.descriptor.domain ≡ 0 = ==→eq f.descriptor.domain 0 home in
          let start =
            children_read (true, numbered f code) (if_false _ (ap not home))
            ∙ remainder_read (numbered f code) in
          elim (Bool-cases (is_performative (code % 2 ^ 32))) [
            | inl known ↦
                inl (here, known, start ∙ branch_true (is_performative (code % 2 ^ 32)) _ _ s known)
            | inr other ↦ inr (
                inl
                  (here, other, start ∙ branch_false (is_performative (code % 2 ^ 32)) _ _ s other))
          ]
    ]
