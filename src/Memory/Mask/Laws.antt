-- ===== src/Memory/Mask/Laws.antt =====
-- The map of free places as a set: what taking the first free place and giving one back do to it.
use mathlib.Core.Path.{subst}
use libamqp.Prelude.{
  ℕ, zero, suc, ◌+◌, ◌*◌, ◌/◌, ◌%◌, ◌≤◌, ◌<◌, ◌≡◌, inl, inr, refl, sym, ap, ◌∙◌, Bool, true, false,
  not, some, List, [], ◌∷◌, arith, ◌==◌, if◌then◌else◌, Bool-cases, Option-cases, if_true, ==→eq,
  length, get_elem?, get_elem?-some, get_elem?-lt, All,
}
use libamqp.Memory.Mask.{bit, clear_bit, set, take_first_free, is_free}
use libamqp.Memory.Mask.Bytes.{holds_below, first_free_lem, clear_bit-lt, bit-clear_bit, zero-byte}

abbrev pub Bytes : List ℕ → Type 0
Bytes bytes = All (λ b. b < 256) bytes

pub get_elem?-lt_256 :
    (bytes : List ℕ) (i b : ℕ) → Bytes bytes → get_elem? bytes i ≡ some b → b < 256
get_elem?-lt_256 [] i b h e = absurd (cc)
get_elem?-lt_256 (x ∷ xs) zero b h e = ground (arith, h.0)
get_elem?-lt_256 (x ∷ xs) (suc i) b h e = get_elem?-lt_256 xs i b h.1 e

get_elem?-set :
    (xs : List ℕ) (i v m : ℕ)
    → i < length xs
    → get_elem? (set xs i v) m ≡ (if m == i then some v else get_elem? xs m)
unfolding set
get_elem?-set [] i v m h = absurd (omega arith)
get_elem?-set (x ∷ xs) zero v zero h = refl
get_elem?-set (x ∷ xs) zero v (suc m) h = ground arith
get_elem?-set (x ∷ xs) (suc i) v zero h = ground arith
get_elem?-set (x ∷ xs) (suc i) v (suc m) h = ground (arith, get_elem?-set xs i v m)

pub length-set : (xs : List ℕ) (i v : ℕ) → length (set xs i v) ≡ length xs
unfolding set
length-set [] i v = refl
length-set (x ∷ xs) zero v = refl
length-set (x ∷ xs) (suc i) v = ap suc (length-set xs i v)

pub set-Bytes : (xs : List ℕ) (i v : ℕ) → Bytes xs → v < 256 → Bytes (set xs i v)
unfolding set
set-Bytes [] i v h g = h
set-Bytes (x ∷ xs) zero v h g = (g, h.1)
set-Bytes (x ∷ xs) (suc i) v h g = (h.0, set-Bytes xs i v h.1 g)

-- A byte at its place is changed in one bit: the map changes at one place.
pub is_free-set :
    (bytes : List ℕ) (i b v j : ℕ) (r : Bool)
    → get_elem? bytes i ≡ some b
    → j < 8
    → ((k : ℕ) → k < 8 → bit v k ≡ (if k == j then r else bit b k))
    → (k : ℕ) → is_free (set bytes i v) k ≡ (if k == i * 8 + j then r else is_free bytes k)
unfolding is_free
is_free-set bytes i b v j r e h change k =
    let at = get_elem?-set bytes i v (k / 8) (get_elem?-lt bytes i b e) in
    elim (Bool-cases (k / 8 == i)) [
      | inl q ↦
          let here = at ∙ if_true _ q in
          let there : get_elem? bytes (k / 8) ≡ some b =
            subst (λ m. get_elem? bytes m ≡ some b) (sym (==→eq _ _ q)) e in
          ground (arith, here, there, change (k % 8) (omega arith))
      | inr q ↦ ground (arith, at, q)
    ]

module _ (bytes : List ℕ) (r : ℕ × List ℕ) where
  -- What it is to take the lowest free place.
  pub record IsTaken : Type 0 where
    pub was_free : is_free bytes r.0 ≡ true
    pub takes : (k : ℕ) → is_free r.1 k ≡ (if k == r.0 then false else is_free bytes k)
    pub bytes_kept : Bytes r.1
    pub length_kept : length r.1 ≡ length bytes

is_free_parts :
    (bytes : List ℕ) (k : ℕ)
    → is_free bytes k ≡ true
    → (b : ℕ) × (get_elem? bytes (k / 8) ≡ some b) × (bit b (k % 8) ≡ true)
unfolding is_free
is_free_parts bytes k h = elim (Option-cases (get_elem? bytes (k / 8))) [
  | inl e ↦ absurd (ground (arith, e, h))
  | inr (b, e) ↦ (b, e, ground (arith, e, h))
]

is_free-at :
    (bytes : List ℕ) (k b : ℕ)
    → get_elem? bytes (k / 8) ≡ some b
    → bit b (k % 8) ≡ true
    → is_free bytes k ≡ true
unfolding is_free
is_free-at bytes k b e on = ground (arith, e, on)

bit-zero : (k : ℕ) → k < 8 → bit 0 k ≡ false
bit-zero k h =
    let z = sym (zero-byte 0 (omega arith)) in
    ground (arith, holds_below 8 (λ k. not (bit 0 k)) k z h)

-- Taking from the byte at `i`, the bytes in front of it having no free place.
taken_here :
    (i : ℕ) (bytes : List ℕ) (b j : ℕ)
    → Bytes bytes
    → get_elem? bytes i ≡ some b
    → j < 8
    → bit b j ≡ true
    → IsTaken bytes (i * 8 + j, set bytes i (clear_bit b j))
taken_here i bytes b j h e below on = record {
  was_free = here;
  takes =
      is_free-set bytes i b (clear_bit b j) j false e below
        (λ k g. ground (arith, bit-clear_bit b j in_byte below k g));
  bytes_kept = set-Bytes bytes i (clear_bit b j) h (clear_bit-lt b j in_byte below);
  length_kept = length-set bytes i (clear_bit b j);
}
  where
    in_byte : b < 256
    in_byte = get_elem?-lt_256 bytes i b h e

    quotient : (i * 8 + j) / 8 ≡ i
    quotient = omega arith

    remainder : (i * 8 + j) % 8 ≡ j
    remainder = omega arith

    here : is_free bytes (i * 8 + j) ≡ true
    here =
        is_free-at bytes (i * 8 + j) b (subst (λ m. get_elem? bytes m ≡ some b) (sym quotient) e)
          (subst (λ m. bit b m ≡ true) (sym remainder) on)

take_first_free_from :
    (n i : ℕ) (bytes : List ℕ) (f : ℕ)
    → Bytes bytes
    → is_free bytes f ≡ true
    → i ≤ f / 8
    → f / 8 < i + n
    → (r : ℕ × List ℕ) × (take_first_free n i bytes ≡ some r) × IsTaken bytes r
unfolding take_first_free
take_first_free_from zero i bytes f h on low high = absurd (omega arith)
take_first_free_from (suc n) i bytes f h on low high =
    let (c, at, set_bit_there) = is_free_parts bytes f on in
    let (b, e) = get_elem?-some bytes i (omega (arith, get_elem?-lt bytes (f / 8) c at)) in
    elim (Bool-cases (b == 0)) [
      | inl q ↦
          let later : i + 1 ≤ f / 8 = elim (Bool-cases (f / 8 == i)) [
            | inl same ↦ absurd (
                ground (
                  arith,
                  subst (λ m. get_elem? bytes m ≡ some c) (==→eq _ _ same) at,
                  e,
                  q,
                  set_bit_there,
                  bit-zero (f % 8) (omega arith),
                ))
            | inr other ↦ ground (arith, other)
          ] in
          let (r, runs, taken) = take_first_free_from n (i + 1) bytes f h on later (omega arith) in
          (r, rw (e, take_first_free) (rw q runs), taken)
      | inr q ↦
          let (j, found, below, first_on, lowest) =
            first_free_lem b (get_elem?-lt_256 bytes i b h e) (λ z. ground (arith, z, q)) in
          (
            (i * 8 + j, set bytes i (clear_bit b j)),
            rw (e, take_first_free) (rw q (rw found refl)),
            taken_here i bytes b j h e below first_on,
          )
    ]

-- On a map with a free place the search takes a place that is free.
pub take_first_free_lem :
    (n : ℕ) (bytes : List ℕ) (f : ℕ)
    → Bytes bytes
    → is_free bytes f ≡ true
    → f / 8 < n
    → (r : ℕ × List ℕ) × (take_first_free n 0 bytes ≡ some r) × IsTaken bytes r
take_first_free_lem n bytes f h on high =
    take_first_free_from n 0 bytes f h on (omega arith) (omega arith)
