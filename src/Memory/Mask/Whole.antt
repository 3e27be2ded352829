-- ===== src/Memory/Mask/Whole.antt =====
-- The map of free places as a set: giving a place back, and the tests on the whole map.
use mathlib.Core.Path.{subst}
use Prim.Native.Nat.{bit_and}
use libamqp.Prelude.{
  ℕ, suc, ◌+◌, ◌-◌, ◌*◌, ◌/◌, ◌%◌, ◌<◌, ◌≡◌, inl, inr, refl, sym, ◌∙◌, true, false, ◌||◌, not, some,
  List, [], ◌∷◌, arith, ltb, ◌==◌, if◌then◌else◌, Bool-cases, ltb→lt, length, get_elem?-some,
}
use libamqp.Memory.Mask.{bit, set_bit, set, no_bits, give_back, all_free, is_free}
use libamqp.Memory.Mask.Bytes.{
  holds_below, fails_below, set_bit-lt, bit-set_bit, covered-byte, zero-byte,
}
use libamqp.Memory.Mask.Laws.{Bytes, get_elem?-lt_256, length-set, set-Bytes, is_free-set}

module _ (bytes : List ℕ) (place : ℕ) (after : List ℕ) where
  -- What it is to give one place back.
  pub record IsGivenBack : Type 0 where
    pub gives : (k : ℕ) → is_free after k ≡ (if k == place then true else is_free bytes k)
    pub bytes_kept : Bytes after
    pub length_kept : length after ≡ length bytes

pub give_back_lem :
    (place : ℕ) (bytes : List ℕ)
    → Bytes bytes
    → place / 8 < length bytes
    → (after : List ℕ) × (give_back place bytes ≡ some after) × IsGivenBack bytes place after
unfolding give_back
give_back_lem place bytes h inside =
    let (b, e) = get_elem?-some bytes (place / 8) inside in
    let in_byte = get_elem?-lt_256 bytes (place / 8) b h e in
    let v = set_bit b (place % 8) in
    let back : place / 8 * 8 + place % 8 ≡ place = omega arith in
    (
      set bytes (place / 8) v,
      rw (e, give_back) refl,
      record {
        gives = λ k.
            subst
              (λ p.
                is_free (set bytes (place / 8) v) k ≡ (if k == p then true else is_free bytes k))
              back
              (is_free-set bytes (place / 8) b v (place % 8) true e (omega arith)
                (λ m g. ground (arith, bit-set_bit b (place % 8) in_byte (omega arith) m g)) k);
        bytes_kept =
            set-Bytes bytes (place / 8) v h (set_bit-lt b (place % 8) in_byte (omega arith));
        length_kept = length-set bytes (place / 8) v;
      },
    )

is_free-low : (b : ℕ) (bs : List ℕ) (k : ℕ) → k < 8 → is_free (b ∷ bs) k ≡ bit b k
unfolding is_free
is_free-low b bs k h =
    let q : k / 8 ≡ 0 = omega arith in
    let r : k % 8 ≡ k = omega arith in rw (q, is_free) (rw r refl)

is_free-high : (b : ℕ) (bs : List ℕ) (k : ℕ) → is_free (b ∷ bs) (8 + k) ≡ is_free bs k
unfolding is_free
is_free-high b bs k =
    let q : (8 + k) / 8 ≡ suc (k / 8) = omega arith in
    let r : (8 + k) % 8 ≡ k % 8 = omega arith in ground (arith, q, r)

pub is_free-nil : (k : ℕ) → is_free [] k ≡ false
unfolding is_free
is_free-nil k = refl

-- A map with a bit set has a free place.
pub no_bits-false :
    (bytes : List ℕ)
    → Bytes bytes
    → no_bits bytes ≡ false
    → (k : ℕ) × (k / 8 < length bytes) × (is_free bytes k ≡ true)
unfolding no_bits
no_bits-false [] h e = absurd (cc)
no_bits-false (b ∷ bs) h e = elim (Bool-cases (b == 0)) [
  | inl z ↦
      let (k, inside, on) = no_bits-false bs h.1 (ground (arith, z, e)) in
      (8 + k, omega arith, is_free-high b bs k ∙ on)
  | inr n ↦
      let (k, below, on) = fails_below 8 (λ k. not (bit b k)) (sym (zero-byte b h.0) ∙ n) in
      (k, omega arith, is_free-low b bs k below ∙ ground (arith, on))
]

-- A place is one of the first byte, or one of the bytes behind it.
by_byte {ℓ} : (P : ℕ → Type ℓ) (k : ℕ) → ((m : ℕ) → m < 8 → P m) → ((m : ℕ) → P (8 + m)) → P k
by_byte P k low high = elim (Bool-cases (ltb k 8)) [
  | inl e ↦ low k (ltb→lt k 8 e)
  | inr e ↦ let split : 8 + (k - 8) ≡ k = ground (arith, e) in subst P split (high (k - 8))
]

-- A map with no bit set has no free place.
pub no_bits-true :
    (bytes : List ℕ) → Bytes bytes → no_bits bytes ≡ true → (k : ℕ) → is_free bytes k ≡ false
unfolding no_bits
no_bits-true [] h e k = is_free-nil k
no_bits-true (b ∷ bs) h e k =
    by_byte (λ k. is_free (b ∷ bs) k ≡ false) k
      (λ m below.
        is_free-low b bs m below
        ∙ let z : (b == 0) ≡ true = ground (arith, e) in
          ground (arith, holds_below 8 (λ k. not (bit b k)) m (sym (zero-byte b h.0) ∙ z) below))
      (λ m. is_free-high b bs m ∙ no_bits-true bs h.1 (ground (arith, e)) m)

-- Whether the map covers the mask: `true` exactly when each place of the mask is free.
pub all_free-true :
    (bytes mask : List ℕ)
    → Bytes bytes
    → Bytes mask
    → length bytes ≡ length mask
    → all_free bytes mask ≡ true
    → (k : ℕ) → is_free mask k ≡ true
    → is_free bytes k ≡ true
unfolding all_free
all_free-true bytes [] h g l e k = λ on. absurd (ground (arith, is_free-nil k, on))
all_free-true [] (m ∷ ms) h g l e k = absurd (omega arith)
all_free-true (b ∷ bs) (m ∷ ms) h g l e k =
    by_byte (λ k. is_free (m ∷ ms) k ≡ true → is_free (b ∷ bs) k ≡ true) k
      (λ j below on.
        is_free-low b bs j below
        ∙ let z : (bit_and (255 - b) m == 0) ≡ true = ground (arith, e) in
          let row =
            holds_below 8 (λ k. not (bit m k) || bit b k) j (sym (covered-byte b m h.0 g.0) ∙ z)
              below in
          ground (arith, row, sym (is_free-low m ms j below) ∙ on))
      (λ j on.
        is_free-high b bs j
        ∙ all_free-true bs ms h.1 g.1 (omega arith) (ground (arith, e)) j
            (sym (is_free-high m ms j) ∙ on))

pub all_free-false :
    (bytes mask : List ℕ)
    → Bytes bytes
    → Bytes mask
    → length bytes ≡ length mask
    → all_free bytes mask ≡ false
    → (k : ℕ) × (is_free mask k ≡ true) × (is_free bytes k ≡ false)
unfolding all_free
all_free-false [] [] h g l e = absurd (cc)
all_free-false (b ∷ bs) [] h g l e = absurd (omega arith)
all_free-false [] (m ∷ ms) h g l e = absurd (omega arith)
all_free-false (b ∷ bs) (m ∷ ms) h g l e = elim (Bool-cases (bit_and (255 - b) m == 0)) [
  | inl z ↦
      let (k, on, off) = all_free-false bs ms h.1 g.1 (omega arith) (ground (arith, z, e)) in
      (8 + k, is_free-high m ms k ∙ on, is_free-high b bs k ∙ off)
  | inr n ↦
      let (k, below, off) =
        fails_below 8 (λ k. not (bit m k) || bit b k) (sym (covered-byte b m h.0 g.0) ∙ n) in
      (
        k,
        is_free-low m ms k below ∙ ground (arith, off),
        is_free-low b bs k below ∙ ground (arith, off),
      )
]
