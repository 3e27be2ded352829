-- ===== src/Memory/Pool/Fitting.antt =====
-- How many places fit into a block, and the ends of the two loops that look for it.
use libamqp.Prelude.{
  ℕ, zero, suc, ◌+◌, ◌-◌, ◌*◌, ◌/◌, ◌%◌, ◌^◌, ◌≤◌, ◌<◌, ◌≡◌, ◌⊎◌, inl, inr, refl, true, false, some,
  arith, ltb, Bool-cases,
}
use mathlib.Core.Path.{subst}
use native.Mathlib.Numerals.{unary_clauses}
use libamqp.Memory.Pool.Sizes.{adjust_loop, places, too_many, fit_loop}

halved : (size p : ℕ) → size < p * 2 → size / 2 < p
halved size p h = omega arith

-- From 2 ^ n the halving ends, at a size of at least half of what is asked for, or at the start.
pub adjust_loop_ends :
    (n size block_size : ℕ)
    → 0 < block_size
    → size < 2 ^ n
    → block_size ≤ size ⊎ (size ≡ 4096)
    → (r : ℕ) × (adjust_loop n size block_size ≡ some r)
      × (r ≤ size)
      × ((block_size ≤ r) ⊎ (r ≡ 4096))
unfolding adjust_loop
adjust_loop_ends zero size block_size pos bound ok = absurd (ground (arith, bound, ok))
adjust_loop_ends (suc n) size block_size pos bound ok =
    elim (Bool-cases (ltb (size / 2) block_size)) [
      | inl e ↦ (size, rw e refl, omega arith, ok)
      | inr e ↦
          let (r, runs, le, large) =
            adjust_loop_ends n (size / 2) block_size pos
              (halved size (2 ^ n) (simp unary_clauses at bound)) (inl (ground (arith, e))) in
          (r, rw e runs, omega arith, large)
    ]

div_bounds : (x b : ℕ) → 0 < b → (x / b * b ≤ x) × (x < (x / b + 1) * b)
div_bounds x b h = grind arith

-- Places of 40 bytes or more: there are at most as many as with 40 bytes.
div_few : (x b q : ℕ) → 40 ≤ b → q * b ≤ x → q * 40 ≤ x
div_few x b q h g = grind arith

-- What the layout of a block is to satisfy.
pub record Fits (block_size bytes n : ℕ) : Type 0 where
  pub few : n ≤ 64
  pub inside : n * bytes + 32 ≤ block_size
  pub full : block_size < (n + 1) * bytes + 32
  pub small : block_size ≤ 4096

places-eq :
    (block_size bytes : ℕ)
    → 32 ≤ block_size
    → block_size ≤ 4096
    → 40 ≤ bytes
    → (places block_size 32 bytes ≡ (block_size - 32) / bytes)
      × ((block_size - 32) / bytes * 40 ≤ block_size - 32)
places-eq block_size bytes low high large =
    let few =
      div_few (block_size - 32) bytes ((block_size - 32) / bytes) large
        (div_bounds (block_size - 32) bytes (omega arith)).0 in
    let inner : (block_size + 2 ^ 64 - 32) % 2 ^ 64 ≡ block_size - 32 = omega arith in
    (rw inner (omega (arith, few)), few)

module _ (block_size bytes : ℕ) (low : 32 ≤ block_size) (high : block_size ≤ 4096)
    (large : 40 ≤ bytes) where
  fits :
      too_many (places block_size 32 bytes) ≡ false
      → Fits block_size bytes (places block_size 32 bytes)
  fits e =
      let (q, few) = places-eq block_size bytes low high large in
      let (inside, full) = div_bounds (block_size - 32) bytes (omega arith) in
      rw q (record {
        few = ground (arith, subst (λ n. too_many n ≡ false) q e);
        inside = omega (arith, inside);
        full = omega (arith, full);
        small = high;
      })

  crowded : too_many (places block_size 32 bytes) ≡ true → 2592 < block_size
  crowded e =
      let (q, few) = places-eq block_size bytes low high large in
      ground (arith, subst (λ n. too_many n ≡ true) q e)

-- A block of at most 4096 bytes is halved at most once.
pub fit_loop_ends :
    (n block_size bytes : ℕ)
    → 32 ≤ block_size
    → block_size ≤ 4096
    → 40 ≤ bytes
    → (r : ℕ × ℕ) × (fit_loop (suc (suc n)) block_size 32 bytes ≡ some r) × Fits r.0 bytes r.1
unfolding fit_loop
fit_loop_ends n block_size bytes low high large =
    elim (Bool-cases (too_many (places block_size 32 bytes))) [
      | inl e ↦
          let wide = crowded block_size bytes low high large e in
          elim (Bool-cases (too_many (places (block_size / 2) 32 bytes))) [
            | inl f ↦
                absurd (
                  omega (arith, crowded (block_size / 2) bytes (omega arith) (omega arith) large f))
            | inr f ↦ (
              (block_size / 2, places (block_size / 2) 32 bytes),
              rw e (rw f refl),
              fits (block_size / 2) bytes (omega arith) (omega arith) large f,
            )
          ]
      | inr e ↦ (
        (block_size, places block_size 32 bytes),
        rw e refl,
        fits block_size bytes low high large e,
      )
    ]
