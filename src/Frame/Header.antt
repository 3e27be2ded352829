-- ===== src/Frame/Header.antt =====
-- The frame header that Transport/Frame/FrameEncode.c writes is read back by Transport/Frame/Frame.c,
-- and what becomes of a data offset that lies behind the frame.
use libamqp.Prelude.{
  ℕ, ◌+◌, ◌*◌, ◌^◌, ◌≤◌, ◌<◌, ◌≡◌, refl, true, false, ◌⊎◌, inr, none, some, List, ◌∷◌, ◌++◌, ltb,
  if◌then◌else◌, arith, sym, ◌∙◌, ap, All, if_false,
}
use mathlib.Core.Path.{subst}
use libamqp.Buffer.{Buffer, unchecked_getc_at, unchecked_putc, advance_read_index, set_write_index}
use libamqp.Buffer.Bytes.{IsByte, append_bytes}
use libamqp.Buffer.Words.{
  ntoh_16, ntoh_32, hton_16, hton_32, bytes_16, bytes_32, hton_16-append, hton_32-append,
  ntoh_16-bytes, ntoh_32-bytes,
}
use libamqp.Codec.State.{State, returned, aborted, stuck, assertion, unsupported, pure, ◌>>=◌}
use libamqp.Codec.Decode.Run.{amqp_decode}
use libamqp.Codec.RoundTrip.PastEnd.{amqp_decode-past_end}
use libamqp.Codec.Encode.Overwrite.{overwrite, Overwritten, overwrite-Overwritten}
use libamqp.Frame.{
  FrameHeader, frame_header_size, header_of, header_valid, decode_header, decode_frame,
  write_header,
}

-- The header on the wire.
abbrev pub wire_header : ℕ → ℕ → ℕ → List ℕ
wire_header size frame_type type_specific =
    bytes_32 size ++ (2 ∷ frame_type ∷ bytes_16 type_specific)

write_header-overwrite :
    (t sp : ℕ) (b : Buffer)
    → b.size < 2 ^ 32
    → write_header 8 t sp b ≡ overwrite b 0 (wire_header b.size t sp)
unfolding write_header append_bytes
write_header-overwrite t sp b h =
    let b1 : Buffer = hton_32 (set_write_index b 0) b.size in
    ap
      (λ n.
        set_write_index
          (hton_16 (unchecked_putc (unchecked_putc (hton_32 (set_write_index b 0) n) 2) t) sp)
          b.size)
      (omega arith)
    ∙ ap (λ x. set_write_index x b.size)
        (hton_16-append (unchecked_putc (unchecked_putc b1 2) t) sp)
    ∙ ap (λ x. set_write_index (append_bytes x (2 ∷ t ∷ bytes_16 sp)) b.size)
        (hton_32-append (set_write_index b 0) b.size)

wire_header-IsByte : (size t sp : ℕ) → t < 2 ^ 8 → All IsByte (wire_header size t sp)
wire_header-IsByte size t sp h = omega arith

pub header_read :
    (b : Buffer) (t sp : ℕ)
    → unchecked_getc_at b 4 ≡ 2
    → unchecked_getc_at b 5 ≡ t
    → ntoh_16 b 6 ≡ sp
    → header_of b ≡ record { data_offset = 8; frame_type = t; type_specific = sp }
header_read b t sp e4 e5 e6 = rw (e4, e5, e6) refl

header_accepted :
    (t sp : ℕ)
    → (t ≡ 0) ⊎ (t ≡ 1)
    → header_valid (record { data_offset = 8; frame_type = t; type_specific = sp }) ≡ true
header_accepted t sp h = ground arith

pub accepted_header :
    (b : Buffer) (frame : FrameHeader)
    → 8 ≤ b.size
    → header_of b ≡ frame
    → header_valid frame ≡ true
    → decode_header b ≡ some (true, frame, advance_read_index b frame.data_offset)
unfolding decode_header
accepted_header b frame h e v =
    let q : ltb b.size frame_header_size ≡ false = ground (arith, h) in
    if_false _ q
    ∙ ap (λ f. some (header_valid f, f, advance_read_index b f.data_offset)) e
    ∙ ap (λ r. some (r, frame, advance_read_index b frame.data_offset)) v

-- The header that `amqp_encode_frame` writes into a frame of at least eight bytes: its size can be read
-- from its first four bytes, `decode_header` accepts it with the type and the word that were written
-- and moves the read point behind it, and any byte behind the header is as it was.
-- The type is 0 or 1, the word has 16 bits, and the size 32.
pub decode_header-write_header :
    (t sp j : ℕ) (b : Buffer)
    → (t ≡ 0) ⊎ (t ≡ 1)
    → sp < 2 ^ 16
    → 8 ≤ b.size
    → b.size < 2 ^ 32
    → 8 ≤ j
    → let b' = write_header 8 t sp b in
      (ntoh_32 b' 0 ≡ b.size)
      × (decode_header b'
          ≡ some (
            true,
            record { data_offset = 8; frame_type = t; type_specific = sp },
            advance_read_index b' 8,
          ))
      × (unchecked_getc_at b' j ≡ unchecked_getc_at b j)
      × (b'.size ≡ b.size)
decode_header-write_header t sp j b ht hs lo hi hj =
    let b' : Buffer = write_header 8 t sp b in
    let o : Overwritten b 0 (wire_header b.size t sp) j b' =
      subst (λ x. Overwritten b 0 (wire_header b.size t sp) j x)
        (sym (write_header-overwrite t sp b hi))
        (overwrite-Overwritten b 0 j (wire_header b.size t sp)
          (wire_header-IsByte b.size t sp (ground (arith, ht))) (inr (omega arith))) in
    let h4 = o.0.1.1.1.1 in
    (
      ntoh_32-bytes b' 0 b.size hi (o.0.0, (o.0.1.0, (o.0.1.1.0, (o.0.1.1.1.0, tt)))),
      accepted_header b' (record { data_offset = 8; frame_type = t; type_specific = sp })
          (omega (arith, o.2, lo))
          (header_read b' t sp h4.0 h4.1.0 (ntoh_16-bytes b' 6 sp hs h4.1.1))
          (header_accepted t sp ht),
      o.1,
      o.2,
    )

-- A header that is accepted although its data offset lies behind the frame: `decode_frame` neither
-- fails nor sees an empty frame, but ends the program by `not_implemented`.
-- The buffer has eight bytes at least, the type is 0 or 1, and the offset is two words or more.
pub decode_frame-past_end :
    (s : State) (offset type : ℕ)
    → 8 ≤ s.buffer.size
    → unchecked_getc_at s.buffer 4 ≡ offset
    → 2 ≤ offset
    → unchecked_getc_at s.buffer 5 ≡ type
    → (type ≡ 0) ⊎ (type ≡ 1)
    → s.buffer.size < s.buffer.index + offset * 4
    → decode_frame s ≡ aborted unsupported
unfolding decode_frame advance_read_index
decode_frame-past_end s offset type lo e4 two e5 ht h =
    let frame : FrameHeader = header_of s.buffer in
    let b : Buffer = advance_read_index s.buffer frame.data_offset in
    let valid : header_valid frame ≡ true = ground (arith, e4, two, e5, ht) in
    ap
      (λ o. elim o [
        | none ↦ aborted assertion
        | some (rc, f, c) ↦
            (if rc then (amqp_decode >>= λ p. pure (some p)) else pure none)
              (record s { buffer = c })
      ])
      (accepted_header s.buffer frame lo refl valid)
    ∙ ap
        (λ r. elim r [
          | returned p t ↦ returned (some p) t
          | aborted why ↦ aborted why
          | stuck ↦ stuck
        ])
        (amqp_decode-past_end (record s { buffer = b }) (omega (arith, e4, h)))
