-- ===== src/Codec/MetaData/Search.antt =====
-- The binary search against a search from the front of the table.
use libamqp.Prelude.{
  ℕ, zero, suc, ◌+◌, ◌-◌, ◌/◌, ◌≤◌, ◌<◌, ◌≡◌, ◌≢◌, refl, List, [], ◌∷◌, Option, none, some, ltb,
  ◌==◌, if◌then◌else◌, length, get_elem?, arith, Bool-cases, inl, inr, get_elem?-some, get_elem?-lt,
  sym, ap, Bool, true, ◌&&◌, leb,
}
use native.Mathlib.Decide.{dec_lt, ℕ_discrete}
use libamqp.Codec.MetaData.{MetaData}
use libamqp.Codec.MetaData.Table.{type_lookup_table}
use libamqp.Codec.MetaData.Lookup.{lookup_loop, lookup_in, type_meta_data_lookup}

-- The entry with the format code, from the front.
unfoldable pub find_code : List MetaData → ℕ → Option MetaData
find_code [] c = none
find_code (m ∷ ms) c = let rest = find_code ms c in if m.format_code == c then some m else rest

-- The format codes go up.
abbrev pub IsSorted : List MetaData → Type 0
IsSorted table =
    (i j : ℕ) (x y : MetaData)
    → i < j
    → get_elem? table i ≡ some x
    → get_elem? table j ≡ some y
    → x.format_code < y.format_code

find_code-hit :
    (table : List MetaData) (c i : ℕ) (x : MetaData)
    → IsSorted table
    → get_elem? table i ≡ some x
    → x.format_code ≡ c
    → find_code table c ≡ some x
unfolding find_code
find_code-hit [] c i x srt g e = absurd (cc)
find_code-hit (m ∷ ms) c zero x srt g e = ground arith
find_code-hit (m ∷ ms) c (suc i) x srt g e = ground (
  arith,
  srt 0 (suc i) m x (omega arith) refl g,
  find_code-hit ms c i x (λ i' j' x' y' h p q. srt (suc i') (suc j') x' y' (omega arith) p q) g e,
)

find_code-miss :
    (table : List MetaData) (c : ℕ)
    → ((i : ℕ) (x : MetaData) → get_elem? table i ≡ some x → x.format_code ≢ c)
    → find_code table c ≡ none
unfolding find_code
find_code-miss [] c h = refl
find_code-miss (m ∷ ms) c h =
    ground (arith, h 0 m refl, find_code-miss ms c (λ i x g. h (suc i) x g))

-- What the loop has established: an entry with the code can only lie in `[s, e)`.
abbrev Within : List MetaData → ℕ → ℕ → ℕ → Type 0
Within table c s e =
    (i : ℕ) (x : MetaData) → get_elem? table i ≡ some x → x.format_code ≡ c → (s ≤ i) × (i < e)

-- In a sorted table the smaller code has the smaller index.
index_order :
    (table : List MetaData) (i j : ℕ) (x y : MetaData)
    → IsSorted table
    → get_elem? table i ≡ some x
    → get_elem? table j ≡ some y
    → x.format_code < y.format_code
    → i < j
index_order table i j x y srt gx gy h = elim (dec_lt i j) [
  | yes p ↦ p
  | no p ↦ elim (ℕ_discrete i j) [
    | yes q ↦ absurd (ground (arith, rw q at gx))
    | no q ↦ absurd (omega (arith, srt j i y x (omega arith) gy gx))
  ]
]

lookup_loop-find_code :
    (table : List MetaData) (rounds c s e : ℕ)
    → IsSorted table
    → e ≤ length table
    → e - s < rounds
    → Within table c s e
    → lookup_loop table rounds c s e ≡ some (find_code table c)
unfolding lookup_loop
lookup_loop-find_code table zero c s e srt he hr w = absurd (omega arith)
lookup_loop-find_code table (suc rounds) c s e srt he hr w = elim (Bool-cases (ltb s e)) [
  | inr e0 ↦ rw e0 (ap some (sym (find_code-miss table c (λ i x g q. ground (arith, w i x g q)))))
  | inl e0 ↦
      let m : ℕ = s + (e - s) / 2 in
      let (x, g) = get_elem?-some table m (ground arith) in
      let below : (x.format_code ≢ c) → c < x.format_code → Within table c s m =
        λ ne h i y gy ey. ((w i y gy ey).0, index_order table i m y x srt gy g (omega arith)) in
      let above : x.format_code < c → Within table c (m + 1) e = λ h i y gy ey.
        (omega (arith, index_order table m i x y srt g gy (omega arith)), (w i y gy ey).1) in
      rw (e0, g)
        (elim (Bool-cases (x.format_code == c)) [
          | inl same ↦ rw same (ap some (sym (find_code-hit table c m x srt g (ground arith))))
          | inr other ↦ rw other (elim (Bool-cases (ltb c x.format_code)) [
            | inl lo ↦ rw lo (
                lookup_loop-find_code table rounds c s m srt (ground arith) (ground arith)
                  (below (ground arith) (ground arith)))
            | inr hi ↦ rw hi (
                lookup_loop-find_code table rounds c (m + 1) e srt he (ground arith)
                  (above (ground arith)))
          ])
        ])
]

-- On a sorted table the binary search ends, reads inside the table, and finds what a search from the
-- front finds: the entry with the format code, or none.
pub lookup_in-find_code :
    (table : List MetaData) (c : ℕ) → IsSorted table → lookup_in table c ≡ some (find_code table c)
unfolding lookup_in
lookup_in-find_code table c srt =
    lookup_loop-find_code table (suc (length table)) c 0 (length table) srt (omega arith)
      (omega arith) (λ i x g e. (omega arith, get_elem?-lt table i x g))

-- A check that the codes go up, each at least `lo`.
ascending_from : ℕ → List MetaData → Bool
ascending_from lo [] = true
ascending_from lo (m ∷ ms) = leb lo m.format_code && ascending_from (m.format_code + 1) ms

ascending_from-ge :
    (table : List MetaData) (lo i : ℕ) (x : MetaData)
    → ascending_from lo table ≡ true
    → get_elem? table i ≡ some x
    → lo ≤ x.format_code
unfolding ascending_from
ascending_from-ge [] lo i x a g = absurd (cc)
ascending_from-ge (m ∷ ms) lo zero x a g = ground arith
ascending_from-ge (m ∷ ms) lo (suc i) x a g =
    ground (arith, ascending_from-ge ms (m.format_code + 1) i x)

ascending_from-IsSorted :
    (table : List MetaData) (lo : ℕ) → ascending_from lo table ≡ true → IsSorted table
unfolding ascending_from
ascending_from-IsSorted [] lo a i j x y h gx gy = absurd (cc)
ascending_from-IsSorted (m ∷ ms) lo a zero zero x y h gx gy = absurd (omega arith)
ascending_from-IsSorted (m ∷ ms) lo a (suc i) zero x y h gx gy = absurd (omega arith)
ascending_from-IsSorted (m ∷ ms) lo a zero (suc j) x y h gx gy =
    ground (arith, ascending_from-ge ms (m.format_code + 1) j y)
ascending_from-IsSorted (m ∷ ms) lo a (suc i) (suc j) x y h gx gy =
    ascending_from-IsSorted ms (m.format_code + 1) (ground arith) i j x y (omega arith) gx gy

type_lookup_table-IsSorted : IsSorted type_lookup_table
unfolding ascending_from
type_lookup_table-IsSorted = ascending_from-IsSorted type_lookup_table 0 refl

-- For every format code `amqp_type_meta_data_lookup` ends, reads inside its table, and returns the
-- entry that has the code, or null where no entry has it.
pub type_meta_data_lookup_lem :
    (c : ℕ) → type_meta_data_lookup c ≡ some (find_code type_lookup_table c)
unfolding type_meta_data_lookup
type_meta_data_lookup_lem c = lookup_in-find_code type_lookup_table c type_lookup_table-IsSorted
