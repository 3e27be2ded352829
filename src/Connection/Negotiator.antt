-- ===== src/Connection/Negotiator.antt =====
-- The protocol header that peers exchange, Transport/Connection/Negotiator.c: "AMQP" and the four bytes
-- of a version.
pub mod Version
use libamqp.Prelude.{
  ℕ, zero, suc, ◌+◌, ◌-◌, ◌*◌, ◌/◌, ◌%◌, ◌^◌, ◌≤◌, ◌<◌, ◌≡◌, ◌≢◌, ◌↔◌, ◌⊎◌, inl, inr, refl, sym, ap,
  ◌∙◌, Bool, true, false, ◌&&◌, ◌||◌, not, Option, none, some, List, [], ◌∷◌, ◌++◌, map, arith, ltb,
  leb, ◌==◌, if◌then◌else◌, Bool-cases, Option-cases, if_true, if_false, ltb→lt, lt→ltb, le→ltb,
  leb→le, le→leb, gt→leb, ==→eq, length, get_elem?, get_elem?-some, get_elem?-lt, length-append,
  update, All, take, drop,
}
use libamqp.Prelude.Outcome.{Outcome, returns, stops, ◌>>=◌, assert}
use libamqp.Buffer.{Buffer, check_free_space, unchecked_putc, getc}

unfoldable pub version_protocol_id : ℕ → ℕ
version_protocol_id version = version / 2 ^ 24 % 2 ^ 8

unfoldable pub version_major : ℕ → ℕ
version_major version = version / 2 ^ 16 % 2 ^ 8

unfoldable pub version_minor : ℕ → ℕ
version_minor version = version / 2 ^ 8 % 2 ^ 8

unfoldable pub version_release : ℕ → ℕ
version_release version = version % 2 ^ 8

unfoldable pub encode_version : ℕ → Buffer → Outcome Buffer
encode_version version b = assert (b.size == 0) >>= λ _. assert (check_free_space b 8) >>= λ _.
    let b1 = unchecked_putc b 65 in
    let b2 = unchecked_putc b1 77 in
    let b3 = unchecked_putc b2 81 in
    let b4 = unchecked_putc b3 80 in
    let b5 = unchecked_putc b4 (version_protocol_id version) in
    let b6 = unchecked_putc b5 (version_major version) in
    let b7 = unchecked_putc b6 (version_minor version) in
    returns (unchecked_putc b7 (version_release version))

-- What `amqp_buffer_getc` has returned is the character `c`.
abbrev pub is_character : ℕ → Option ℕ → Bool
is_character c none = false
is_character c (some d) = d == c

-- The characters are read until one is another.
unfoldable pub magic : List ℕ → Buffer → Bool × Buffer
magic [] b = (true, b)
magic (c ∷ cs) b =
    let (read, b') = getc b in
    elim (is_character c read) [ false ↦ (false, b') | true ↦ magic cs b' ]

-- One more byte behind those that are there; the -1 of a buffer at its end sets all bits.
abbrev pub joined : ℕ → Option ℕ → ℕ
joined result none = 2 ^ 32 - 1
joined result (some c) = result * 2 ^ 8 % 2 ^ 32 + c

unfoldable pub next_byte : ℕ × Buffer → ℕ × Buffer
next_byte (result, b) = let (read, b') = getc b in (joined result read, b')

unfoldable pub version_bytes : Buffer → ℕ × Buffer
version_bytes b = next_byte (next_byte (next_byte (next_byte (0, b))))

unfoldable pub decode_version : Buffer → ℕ × Buffer
decode_version b =
    let (ok, b') = magic (65 ∷ 77 ∷ 81 ∷ 80 ∷ []) b in if ok then version_bytes b' else (0, b')
