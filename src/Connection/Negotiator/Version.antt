-- ===== src/Connection/Negotiator/Version.antt =====
-- A version that has been written is read back.
use libamqp.Prelude.{
  ℕ, ◌+◌, ◌*◌, ◌%◌, ◌^◌, ◌≤◌, ◌<◌, ◌≡◌, refl, sym, ap, ◌∙◌, true, false, some, List, [], ◌∷◌, arith,
  ◌==◌, if◌then◌else◌, if_true, lt→ltb, length, All,
}
use mathlib.Core.Path.{subst}
use libamqp.Prelude.Outcome.{returns, ◌>>=◌, assert}
use libamqp.Buffer.{Buffer, check_free_space, getc, unchecked_getc, unchecked_getc_at}
use libamqp.Buffer.Bytes.{Holds, IsByte, append_bytes, append_bytes-Appends, append_bytes-Holds}
use libamqp.Connection.Negotiator.{
  version_protocol_id, version_major, version_minor, version_release, encode_version, is_character,
  magic, next_byte, version_bytes, decode_version,
}

-- The header on the wire.
abbrev pub wire_version : ℕ → List ℕ
wire_version v =
    65
    ∷ 77
    ∷ 81
    ∷ 80
    ∷ version_protocol_id v
    ∷ version_major v
    ∷ version_minor v
    ∷ version_release v
    ∷ []

abbrev at_index : Buffer → ℕ → Buffer
at_index b i = record b { index = i }

encode_version-append :
    (v : ℕ) (b : Buffer)
    → b.size ≡ 0
    → check_free_space b 8 ≡ true
    → encode_version v b ≡ returns (append_bytes b (wire_version v))
unfolding encode_version append_bytes
encode_version-append v b empty room =
    let q : (b.size == 0) ≡ true = ground (arith, empty) in
    ap
      (λ t. assert t >>= λ _.
        assert (check_free_space b 8) >>= λ _. returns (append_bytes b (wire_version v)))
      q
    ∙ ap (λ t. assert t >>= λ _. returns (append_bytes b (wire_version v))) room

getc_read :
    (b : Buffer) (c : ℕ)
    → b.index < b.size
    → unchecked_getc_at b b.index ≡ c
    → getc b ≡ (some c, at_index b (b.index + 1))
unfolding getc unchecked_getc
getc_read b c h e =
    if_true _ (lt→ltb b.index b.size h) ∙ ap (λ d. (some d, at_index b (b.index + 1))) e

magic_read :
    (cs : List ℕ) (b : Buffer) (i : ℕ)
    → i + length cs ≤ b.size
    → Holds b i cs
    → magic cs (at_index b i) ≡ (true, at_index b (i + length cs))
unfolding magic unchecked_getc_at
magic_read [] b i h hs = ap (λ i. (true, at_index b i)) (omega arith)
magic_read (c ∷ cs) b i h (e, hs) =
    let same : (c == c) ≡ true = ground arith in
    let here = at_index b (i + 1) in
    ap (λ r. elim (is_character c r.0) [ false ↦ (false, r.1) | true ↦ magic cs r.1 ])
      (getc_read (at_index b i) c (omega arith) e)
    ∙ ap (λ t. elim t [ false ↦ (false, here) | true ↦ magic cs here ]) same
    ∙ magic_read cs b (i + 1) (omega arith) hs
    ∙ ap (λ j. (true, at_index b j)) (omega arith)

next_byte_read :
    (b : Buffer) (i r c : ℕ)
    → i < b.size
    → unchecked_getc_at b i ≡ c
    → next_byte (r, at_index b i) ≡ (r * 2 ^ 8 % 2 ^ 32 + c, at_index b (i + 1))
unfolding next_byte unchecked_getc_at
next_byte_read b i r c h e = rw (getc_read (at_index b i) c h e) refl

abbrev shifted : ℕ → ℕ → ℕ
shifted r c = r * 2 ^ 8 % 2 ^ 32 + c

whole_version :
    (v : ℕ)
    → v < 2 ^ 32
    → shifted
        (shifted (shifted (shifted 0 (version_protocol_id v)) (version_major v)) (version_minor v))
        (version_release v)
      ≡ v
unfolding version_protocol_id version_major version_minor version_release
whole_version v bound = omega arith

version_bytes_read :
    (v : ℕ) (b : Buffer) (i : ℕ)
    → v < 2 ^ 32
    → i + 4 ≤ b.size
    → Holds b i (version_protocol_id v ∷ version_major v ∷ version_minor v ∷ version_release v ∷ [])
    → version_bytes (at_index b i) ≡ (v, at_index b (i + 4))
unfolding version_bytes
version_bytes_read v b i bound h (e0, (e1, (e2, (e3, _)))) =
    let h1 = shifted 0 (version_protocol_id v) in
    let h2 = shifted h1 (version_major v) in
    let h3 = shifted h2 (version_minor v) in
    ap (λ r. next_byte (next_byte (next_byte r)))
      (next_byte_read b i 0 (version_protocol_id v) (omega arith) e0)
    ∙ ap (λ r. next_byte (next_byte r))
        (next_byte_read b (i + 1) h1 (version_major v) (omega arith) e1)
    ∙ ap next_byte (next_byte_read b (i + 1 + 1) h2 (version_minor v) (omega arith) e2)
    ∙ next_byte_read b (i + 1 + 1 + 1) h3 (version_release v) (omega arith) e3
    ∙ ap (λ n. (n, at_index b (i + 1 + 1 + 1 + 1))) (whole_version v bound)
    ∙ ap (λ j. (v, at_index b j)) (omega arith)

wire_version-IsByte : (v : ℕ) → All IsByte (wire_version v)
unfolding version_protocol_id version_major version_minor version_release
wire_version-IsByte v = omega arith

-- A version of 32 bits is written into an empty buffer with room for it, and read from it.
pub decode-encode_version :
    (v : ℕ) (b : Buffer)
    → v < 2 ^ 32
    → b.size ≡ 0
    → b.index ≡ 0
    → check_free_space b 8 ≡ true
    → (b' : Buffer) × (encode_version v b ≡ returns b')
      × (b'.size ≡ 8)
      × (decode_version b' ≡ (v, at_index b' 8))
unfolding decode_version
decode-encode_version v b bound empty start room =
    let b' = append_bytes b (wire_version v) in
    let grown = append_bytes-Appends (wire_version v) b in
    let size : b'.size ≡ 8 = omega (arith, grown.grows, empty) in
    let (e0, (e1, (e2, (e3, held)))) : Holds b' 0 (wire_version v) =
      subst (λ i. Holds b' i (wire_version v)) empty
        (append_bytes-Holds (wire_version v) b (wire_version-IsByte v)) in
    let at : at_index b' 0 ≡ b' = ap (λ i. at_index b' i) (sym (grown.same_index ∙ start)) in
    let read =
      magic_read (65 ∷ 77 ∷ 81 ∷ 80 ∷ []) b' 0 (omega (arith, size)) (e0, (e1, (e2, (e3, tt)))) in
    (
      b',
      encode_version-append v b empty room,
      size,
      ap
            (λ c.
              let (ok, d) = magic (65 ∷ 77 ∷ 81 ∷ 80 ∷ []) c in
              if ok then version_bytes d else (0, d))
            (sym at)
          ∙ ap (λ r. if r.0 then version_bytes r.1 else (0, r.1)) read
          ∙ version_bytes_read v b' 4 bound (omega (arith, size)) held,
    )
