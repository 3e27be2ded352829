-- ===== src/Codec/Decode/Sound/Constructor.antt =====
-- The constructor in front of a value: its format code, and the entry that the code stands for.
use libamqp.Prelude.{
  ℕ, ◌+◌, ◌<◌, ◌≡◌, refl, Bool, true, ◌&&◌, ◌||◌, Option, none, some, ltb, ◌==◌, arith, inl, inr,
  Bool-cases, List, [], ◌∷◌, if_true, if_false, sym,
}
use mathlib.Core.Path.{subst}
use libamqp.Buffer
use libamqp.Buffer.{check_available, advance_read_index, getc}
use libamqp.Codec.MetaData.{MetaData, Decoder}
use libamqp.Codec.MetaData.Table.{type_lookup_table}
use libamqp.Codec.MetaData.Lookup.{type_meta_data_lookup}
use libamqp.Codec.MetaData.Search.{find_code, type_meta_data_lookup_lem}
use libamqp.Codec.State.{AmqpType, State, M, ◌>>◌, set_type}
use libamqp.Codec.State.Hoare.{
  Ensures, Ensures-mono, Extends, Extends-refl, Extends-write, Extends-read, keep_bind,
}
use libamqp.Codec.Decode.Compound.{
  next_format_code, set_constructor, decode_type_constructor, constructor_of,
}
use libamqp.Codec.Decode.Sound.Fixed.{InBounds}

-- The widths that go with a decoder.
unfoldable pub width_ok : Decoder → ℕ → Bool
width_ok Decoder.described_type w = true
width_ok Decoder.null w = true
width_ok Decoder.boolean_true w = true
width_ok Decoder.boolean_false w = true
width_ok Decoder.uint0 w = true
width_ok Decoder.ulong0 w = true
width_ok Decoder.list_0 w = true
width_ok Decoder.extension_type w = true
width_ok Decoder.decimal128 w = true
width_ok Decoder.binary_vbin8 w = w == 1 || w == 4
width_ok Decoder.binary_vbin32 w = w == 1 || w == 4
width_ok Decoder.string_str8_utf8 w = w == 1 || w == 4
width_ok Decoder.string_str32_utf8 w = w == 1 || w == 4
width_ok Decoder.symbol_sym8 w = w == 1 || w == 4
width_ok Decoder.symbol_sym32 w = w == 1 || w == 4
width_ok Decoder.list_8 w = w == 1 || w == 4
width_ok Decoder.list_32 w = w == 1 || w == 4
width_ok Decoder.map_8 w = w == 1 || w == 4
width_ok Decoder.map_32 w = w == 1 || w == 4
width_ok Decoder.array_8 w = w == 1 || w == 4
width_ok Decoder.array_32 w = w == 1 || w == 4
width_ok _ w = w == 1 || w == 2 || w == 4 || w == 8 || w == 16

unfoldable pub widths_ok : List MetaData → Bool
unfolding width_ok
widths_ok [] = true
widths_ok (m ∷ ms) = width_ok m.type_decoder m.width && widths_ok ms

-- The entries that `amqp_type_meta_data_lookup` can return.
abbrev pub IsEntry : MetaData → Type 0
IsEntry m = widths_ok (m ∷ []) ≡ true

find_code-IsEntry :
    (table : List MetaData) (c : ℕ) (m : MetaData)
    → widths_ok table ≡ true
    → find_code table c ≡ some m
    → IsEntry m
unfolding find_code widths_ok
find_code-IsEntry [] c m w e = absurd (cc)
find_code-IsEntry (x ∷ xs) c m w e = ground (arith, find_code-IsEntry xs c m)

-- An object whose constructor has been decoded.
abbrev pub IsKnown : AmqpType → Type 0
IsKnown x = (m : MetaData) × (x.meta_data ≡ some m) × IsEntry m

set_constructor-Extends :
    (p : ℕ) (found : Option MetaData) (s : State)
    → InBounds s
    → ((m : MetaData) → found ≡ some m → IsEntry m)
    → Ensures
        (set_constructor p (some found) s)
        (λ rc t. Extends p s t × ((rc ≡ true → IsKnown (t.types p)) × (t.buffer ≡ s.buffer)))
set_constructor-Extends p none s h k = (Extends-refl p s h, ((λ e. cc), refl))
set_constructor-Extends p (some m) s h k =
    (Extends-write p s (constructor_of m (s.types p)) h, ((λ e. (m, ground arith, k m refl)), refl))

-- The format code is read, or it is the 255 that a read at the end gives.
next_format_code-Extends :
    (p : ℕ) (s : State)
    → InBounds s
    → Ensures
        (next_format_code s)
        (λ _ t. Extends p s t × (s.buffer.index < s.buffer.size → s.buffer.index < t.buffer.index))
unfolding getc
next_format_code-Extends p s h = elim (Bool-cases (ltb s.buffer.index s.buffer.size)) [
  | inl q ↦
      subst (λ r. Moved r) (sym (if_true _ q))
        (Extends-read p s (s.buffer.index + 1) (omega arith) (ground arith), λ _. omega arith)
  | inr q ↦
      subst (λ r. Moved r) (sym (if_false _ q)) (Extends-refl p s h, λ r. absurd (ground arith))
]
  where
    Moved : Option ℕ × Buffer.Buffer → Type 0
    Moved r =
        Extends p s (record s { buffer = r.1 })
        × (s.buffer.index < s.buffer.size → s.buffer.index < r.1.index)

abbrev pub ConstructorRead : ℕ → State → Bool → State → Type 0
ConstructorRead p s rc t =
    (rc ≡ true → IsKnown (t.types p))
    × (s.buffer.index < s.buffer.size → s.buffer.index < t.buffer.index)

known_constructor :
    (p code : ℕ) (s : State)
    → InBounds s
    → Ensures
        (set_constructor p (type_meta_data_lookup code) s)
        (λ rc t. Extends p s t × ((rc ≡ true → IsKnown (t.types p)) × (t.buffer ≡ s.buffer)))
known_constructor p code s h =
    subst
      (λ l.
        Ensures (set_constructor p l s)
          (λ rc t. Extends p s t × ((rc ≡ true → IsKnown (t.types p)) × (t.buffer ≡ s.buffer))))
      (sym (type_meta_data_lookup_lem code))
      (set_constructor-Extends p (find_code type_lookup_table code) s h
        (λ m e. find_code-IsEntry type_lookup_table code m (unfold widths_ok in refl) e))

-- One write, and what follows it.
pub keep_set :
    {B : Type 0} (p : ℕ) (f : AmqpType → AmqpType) (k : M B) (s : State) (Q : B → State → Type 0)
    → InBounds s
    → ((t : State)
        → Extends p s t
        → t.buffer ≡ s.buffer
        → Ensures (k t) (λ b u. Extends p t u × Q b u))
    → Ensures ((set_type p f >> k) s) (λ b u. Extends p s u × Q b u)
keep_set p f k s Q h r =
    keep_bind (set_type p f) (λ _. k) p s (λ _ t. t.buffer ≡ s.buffer) Q
      (Extends-write p s (f (s.types p)) h, refl) (λ _ t e q. r t e q)

pub decode_type_constructor-Extends :
    (p : ℕ) (s : State)
    → InBounds s
    → Ensures (decode_type_constructor p s) (λ rc t. Extends p s t × ConstructorRead p s rc t)
unfolding decode_type_constructor
decode_type_constructor-Extends p s h =
    keep_bind next_format_code _ p s
      (λ _ t. s.buffer.index < s.buffer.size → s.buffer.index < t.buffer.index)
      (ConstructorRead p s) (next_format_code-Extends p s h)
      (λ code t e k.
        keep_set p (λ x. record x { format_code = code })
          (set_constructor p (type_meta_data_lookup code)) t (ConstructorRead p s) e.in_bounds
          (λ u a q.
            Ensures-mono (set_constructor p (type_meta_data_lookup code) u) _ _
              (known_constructor p code u a.in_bounds)
              (λ rc v g. (g.0, (g.1.0, λ l. omega (arith, k l, a.reads_on, g.0.reads_on))))))
