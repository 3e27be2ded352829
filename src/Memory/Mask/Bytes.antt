-- ===== src/Memory/Mask/Bytes.antt =====
-- The bits of one byte of the map of free places: each fact is checked for all 256 bytes.
use mathlib.Core.Path.{subst}
use Prim.Native.Nat.{bit_and}
use libamqp.Prelude.{
  ℕ, zero, suc, ◌-◌, ◌<◌, ◌≡◌, ◌≢◌, inl, inr, refl, sym, Bool, true, false, ◌&&◌, ◌||◌, not, Option,
  none, some, arith, ltb, ◌==◌, if◌then◌else◌, Bool-cases, Option-cases, ltb→lt, ==→eq,
}
use libamqp.Memory.Mask.{
  bit, find_first_free_allocation, clear_bit, set_bit, bytes_of, allocations_mask_of, is_free,
}

-- A test of the numbers in front of a bound, from the largest down.
unfoldable pub each_below : ℕ → (ℕ → Bool) → Bool
each_below zero test = true
each_below (suc last) test = let rest = each_below last test in if test last then rest else false

pub holds_below :
    (bound : ℕ) (test : ℕ → Bool) (k : ℕ) → each_below bound test ≡ true → k < bound → test k ≡ true
unfolding each_below
holds_below zero test k passed inside = absurd (omega arith)
holds_below (suc last) test k passed inside = elim (Bool-cases (k == last)) [
  | inl e ↦ subst (λ k. test k ≡ true) (sym (==→eq k last e)) (ground (arith, passed))
  | inr n ↦ holds_below last test k (ground (arith, passed)) (ground (arith, n))
]

infix 50 ◌=b◌
abbrev pub ◌=b◌ : Bool → Bool → Bool
true =b c = c
false =b c = not c

pub =b→eq : (b c : Bool) → (b =b c) ≡ true → b ≡ c
=b→eq true true h = refl
=b→eq true false h = sym h
=b→eq false true h = h
=b→eq false false h = refl

-- Whether the search in a byte gives a set bit with no set bit below it.
abbrev finds_lowest : ℕ → Option ℕ → Bool
finds_lowest b none = b == 0
finds_lowest b (some j) = ltb j 8 && (bit b j && each_below j (λ k. not (bit b k)))

first_table : each_below 256 (λ b. finds_lowest b (find_first_free_allocation b)) ≡ true
unfolding each_below find_first_free_allocation bit
first_table = refl

clear_table :
    each_below 256 (λ b. each_below 8 (λ j.
      ltb (clear_bit b j) 256
      && each_below 8 (λ k. bit (clear_bit b j) k =b (not (k == j) && bit b k))))
    ≡ true
unfolding each_below clear_bit bit
clear_table = refl

set_table :
    each_below 256 (λ b. each_below 8 (λ j.
      ltb (set_bit b j) 256 && each_below 8 (λ k. bit (set_bit b j) k =b ((k == j) || bit b k))))
    ≡ true
unfolding each_below set_bit bit
set_table = refl

covered_table :
    each_below 256 (λ b.
      each_below 256
        (λ m. (bit_and (255 - b) m == 0) =b each_below 8 (λ k. not (bit m k) || bit b k)))
    ≡ true
unfolding each_below bit
covered_table = refl

zero_table : each_below 256 (λ b. (b == 0) =b each_below 8 (λ k. not (bit b k))) ≡ true
unfolding each_below bit
zero_table = refl

mask_table :
    each_below 64 (λ n.
      each_below 64 (λ k. is_free (bytes_of 8 (allocations_mask_of (suc n))) k =b ltb k (suc n)))
    ≡ true
unfolding each_below is_free bytes_of allocations_mask_of bit
mask_table = refl

pub first_free_lem :
    (b : ℕ)
    → b < 256
    → b ≢ 0
    → (j : ℕ) × (find_first_free_allocation b ≡ some j)
      × (j < 8)
      × (bit b j ≡ true)
      × (each_below j (λ k. not (bit b k)) ≡ true)
first_free_lem b h ne =
    let t = holds_below 256 (λ b. finds_lowest b (find_first_free_allocation b)) b first_table h in
    elim (Option-cases (find_first_free_allocation b)) [
      | inl e ↦ absurd (ne (==→eq b 0 (subst (λ o. finds_lowest b o ≡ true) e t)))
      | inr (j, e) ↦
          let u = subst (λ o. finds_lowest b o ≡ true) e t in
          (j, e, ground (arith, u), ground (arith, u), ground (arith, u))
    ]

&&-left : (a b : Bool) → (a && b) ≡ true → a ≡ true
&&-left true b h = refl
&&-left false b h = h

&&-right : (a b : Bool) → (a && b) ≡ true → b ≡ true
&&-right true b h = h
&&-right false b h = cc

module _ (b j : ℕ) (in_byte : b < 256) (below : j < 8) where
  abbrev clear_row : Bool
  clear_row = each_below 8 (λ k. bit (clear_bit b j) k =b (not (k == j) && bit b k))

  abbrev set_row : Bool
  set_row = each_below 8 (λ k. bit (set_bit b j) k =b ((k == j) || bit b k))

  clear_entry : (ltb (clear_bit b j) 256 && clear_row) ≡ true
  clear_entry = holds_below 8 _ j (holds_below 256 _ b clear_table in_byte) below

  set_entry : (ltb (set_bit b j) 256 && set_row) ≡ true
  set_entry = holds_below 8 _ j (holds_below 256 _ b set_table in_byte) below

  pub clear_bit-lt : clear_bit b j < 256
  clear_bit-lt = ltb→lt _ _ (&&-left _ clear_row clear_entry)

  pub set_bit-lt : set_bit b j < 256
  set_bit-lt = ltb→lt _ _ (&&-left _ set_row set_entry)

  pub bit-clear_bit : (k : ℕ) → k < 8 → bit (clear_bit b j) k ≡ (not (k == j) && bit b k)
  bit-clear_bit k h = =b→eq _ _ (holds_below 8 _ k (&&-right _ clear_row clear_entry) h)

  pub bit-set_bit : (k : ℕ) → k < 8 → bit (set_bit b j) k ≡ ((k == j) || bit b k)
  bit-set_bit k h = =b→eq _ _ (holds_below 8 _ k (&&-right _ set_row set_entry) h)

-- A mask of one byte is covered exactly when each of its bits is set in the byte.
pub covered-byte :
    (b m : ℕ)
    → b < 256
    → m < 256
    → (bit_and (255 - b) m == 0) ≡ each_below 8 (λ k. not (bit m k) || bit b k)
covered-byte b m h g = =b→eq _ _ (holds_below 256 _ m (holds_below 256 _ b covered_table h) g)

pub zero-byte : (b : ℕ) → b < 256 → (b == 0) ≡ each_below 8 (λ k. not (bit b k))
zero-byte b h = =b→eq _ _ (holds_below 256 _ b zero_table h)

pub allocations_mask-is_free :
    (n k : ℕ)
    → n < 64
    → k < 64
    → is_free (bytes_of 8 (allocations_mask_of (suc n))) k ≡ ltb k (suc n)
allocations_mask-is_free n k h g =
    =b→eq _ _ (holds_below 64 _ k (holds_below 64 _ n mask_table h) g)

pub fails_below :
    (n : ℕ) (p : ℕ → Bool) → each_below n p ≡ false → (k : ℕ) × (k < n) × (p k ≡ false)
unfolding each_below
fails_below zero p h = absurd (cc)
fails_below (suc n) p h = elim (Bool-cases (p n)) [
  | inl e ↦ let (k, lt, off) = fails_below n p (ground (arith, e, h)) in (k, omega arith, off)
  | inr e ↦ (n, omega arith, e)
]

zero_mask_table : each_below 64 (λ k. is_free (bytes_of 8 (allocations_mask_of 0)) k) ≡ true
unfolding each_below is_free bytes_of allocations_mask_of bit
zero_mask_table = refl

-- Without a place in the block the mask is all ones.
pub allocations_mask-zero : (k : ℕ) → k < 64 → is_free (bytes_of 8 (allocations_mask_of 0)) k ≡ true
allocations_mask-zero k h = holds_below 64 _ k zero_mask_table h
