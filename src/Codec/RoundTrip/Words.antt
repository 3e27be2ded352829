-- ===== src/Codec/RoundTrip/Words.antt =====
-- The union's word, where the bytes of a number lie at the read point.
use libamqp.Prelude.{ℕ, ◌+◌, ◌^◌, ◌≤◌, ◌<◌, ◌≡◌, [], ◌∷◌, ◌∙◌, ap, arith, inl, inr}
use mathlib.Core.Path.{subst}
use libamqp.Buffer.{Buffer, unchecked_getc_at}
use libamqp.Buffer.Bytes.{Holds}
use libamqp.Buffer.Words.{bytes_16, bytes_32, bytes_64, ntoh_16-bytes, ntoh_32-bytes, ntoh_64-bytes}
use libamqp.Codec.MetaData.{MetaData}
use libamqp.Codec.State.{State, with_b1, with_b2, with_b4}
use libamqp.Codec.State.Hoare.{Returns}
use libamqp.Codec.Decode.Fixed.{fixed_width}
use libamqp.Codec.RoundTrip.Reading.{started}
use libamqp.Codec.RoundTrip.Storing.{
  read_word, read_word-index, Stored, IsWordWidth, fixed_width-Stored,
}

word_one :
    (b : Buffer) (i k v old : ℕ)
    → unchecked_getc_at b i ≡ v
    → read_word (record b { index = k }) i 1 old ≡ with_b1 old v
word_one b i k v old e = read_word-index b i k 1 old ∙ ap (with_b1 old) e

word_two :
    (b : Buffer) (i k v old : ℕ)
    → v < 2 ^ 16
    → Holds b i (bytes_16 v)
    → read_word (record b { index = k }) i 2 old ≡ with_b2 old v
word_two b i k v old h hs =
    read_word-index b i k 2 old ∙ ap (with_b2 old) (ntoh_16-bytes b i v h hs)

word_four :
    (b : Buffer) (i k v old : ℕ)
    → v < 2 ^ 32
    → Holds b i (bytes_32 v)
    → read_word (record b { index = k }) i 4 old ≡ with_b4 old v
word_four b i k v old h hs =
    read_word-index b i k 4 old ∙ ap (with_b4 old) (ntoh_32-bytes b i v h hs)

word_eight :
    (b : Buffer) (i k v old : ℕ)
    → v < 2 ^ 64
    → Holds b i (bytes_64 v)
    → read_word (record b { index = k }) i 8 old ≡ v
word_eight b i k v old h hs = read_word-index b i k 8 old ∙ ntoh_64-bytes b i v h hs

-- What `amqp_decode_fixed_width` stores of the bytes behind the constructor.
abbrev pub old_word : ℕ → MetaData → State → ℕ
old_word code meta s = ((started meta code s).types s.next_type).word

abbrev pub WordRead : ℕ → MetaData → State → ℕ → ℕ → Type 0
WordRead code meta s n word =
    Returns (fixed_width meta s.next_type (started meta code s))
      (Stored s.next_type n word (started meta code s))

fixed_read :
    (code : ℕ) (meta : MetaData) (s : State) (word : ℕ)
    → IsWordWidth meta.width
    → s.buffer.index + 1 + meta.width ≤ s.buffer.size
    → read_word
        (record s.buffer { index = s.buffer.index + 1 })
        (s.buffer.index + 1)
        meta.width
        (old_word code meta s)
      ≡ word
    → WordRead code meta s meta.width word
fixed_read code meta s word w h e =
    subst (λ x. WordRead code meta s meta.width x) e
      (fixed_width-Stored meta s.next_type (started meta code s) w h)

pub fixed_one :
    (code : ℕ) (meta : MetaData) (s : State) (v : ℕ)
    → meta.width ≡ 1
    → s.buffer.index + 2 ≤ s.buffer.size
    → Holds s.buffer (s.buffer.index + 1) (v ∷ [])
    → WordRead code meta s 1 (with_b1 (old_word code meta s) v)
fixed_one code meta s v w h hs =
    subst (λ n. WordRead code meta s n (with_b1 (old_word code meta s) v)) w
      (fixed_read code meta s _ (inl (inl w)) (omega (arith, w, h)) (
        ap
          (λ n.
            read_word (record s.buffer { index = s.buffer.index + 1 }) (s.buffer.index + 1) n
              (old_word code meta s))
          w
        ∙ word_one s.buffer (s.buffer.index + 1) (s.buffer.index + 1) v (old_word code meta s)
            hs.0))

pub fixed_two :
    (code : ℕ) (meta : MetaData) (s : State) (v : ℕ)
    → meta.width ≡ 2
    → v < 2 ^ 16
    → s.buffer.index + 3 ≤ s.buffer.size
    → Holds s.buffer (s.buffer.index + 1) (bytes_16 v)
    → WordRead code meta s 2 (with_b2 (old_word code meta s) v)
fixed_two code meta s v w b h hs =
    subst (λ n. WordRead code meta s n (with_b2 (old_word code meta s) v)) w
      (fixed_read code meta s _ (inl (inr w)) (omega (arith, w, h)) (
        ap
          (λ n.
            read_word (record s.buffer { index = s.buffer.index + 1 }) (s.buffer.index + 1) n
              (old_word code meta s))
          w
        ∙ word_two s.buffer (s.buffer.index + 1) (s.buffer.index + 1) v (old_word code meta s) b
            hs))

pub fixed_four :
    (code : ℕ) (meta : MetaData) (s : State) (v : ℕ)
    → meta.width ≡ 4
    → v < 2 ^ 32
    → s.buffer.index + 5 ≤ s.buffer.size
    → Holds s.buffer (s.buffer.index + 1) (bytes_32 v)
    → WordRead code meta s 4 (with_b4 (old_word code meta s) v)
fixed_four code meta s v w b h hs =
    subst (λ n. WordRead code meta s n (with_b4 (old_word code meta s) v)) w
      (fixed_read code meta s _ (inr (inl w)) (omega (arith, w, h)) (
        ap
          (λ n.
            read_word (record s.buffer { index = s.buffer.index + 1 }) (s.buffer.index + 1) n
              (old_word code meta s))
          w
        ∙ word_four s.buffer (s.buffer.index + 1) (s.buffer.index + 1) v (old_word code meta s) b
            hs))

pub fixed_eight :
    (code : ℕ) (meta : MetaData) (s : State) (v : ℕ)
    → meta.width ≡ 8
    → v < 2 ^ 64
    → s.buffer.index + 9 ≤ s.buffer.size
    → Holds s.buffer (s.buffer.index + 1) (bytes_64 v)
    → WordRead code meta s 8 v
fixed_eight code meta s v w b h hs =
    subst (λ n. WordRead code meta s n v) w
      (fixed_read code meta s _ (inr (inr w)) (omega (arith, w, h)) (
        ap
          (λ n.
            read_word (record s.buffer { index = s.buffer.index + 1 }) (s.buffer.index + 1) n
              (old_word code meta s))
          w
        ∙ word_eight s.buffer (s.buffer.index + 1) (s.buffer.index + 1) v (old_word code meta s) b
            hs))
