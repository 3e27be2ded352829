-- ===== src/Memory/Pool/Invariant.antt =====
-- What holds of a pool of Memory/Pool.c between two calls, and which objects it has given out.
use mathlib.Core.Path.{subst}
use libamqp.Prelude.{
  ℕ, zero, suc, ◌+◌, ◌/◌, ◌≤◌, ◌<◌, ◌≡◌, ◌≢◌, inl, inr, refl, sym, ap, ◌∙◌, Bool, true, false, ◌&&◌,
  not, Option, none, some, List, arith, ltb, ◌==◌, if◌then◌else◌, Bool-cases, Option-cases, if_true,
  if_false, ==→eq, length, get_elem?, get_elem?-lt, update,
}
use libamqp.Memory.Mask.{is_free}
use libamqp.Memory.Mask.Laws.{Bytes}
use libamqp.Memory.Pool.{
  Allocation, Block, Heap, Pool, Memory, leading_mask, trailing_mask, fill_allocations, with_mask,
}
use libamqp.Memory.Pool.Chain.{Chain, Absent, Distinct, Chain-update}
use libamqp.Memory.Pool.Vacate.{places_of, content}

-- The header of the place `i` of the block at `a`, with its guards.
abbrev pub header : ℕ → ℕ → Allocation
header a i = record {
  block = a;
  index = i;
  leading_guard = leading_mask;
  trailing_guard = trailing_mask;
}

-- A block of `n` places: only these are marked as free, and not all of them.
pub record IsBlock (n a : ℕ) (mask : List ℕ) (allocations : List Allocation) : Type 0 where
  pub eight : length mask ≡ 8
  pub bytes : Bytes mask
  pub within : (k : ℕ) → is_free mask k ≡ true → k < n
  pub some_used : (k : ℕ) × (k < n) × (is_free mask k ≡ false)
  pub headers : (k : ℕ) → k < n → get_elem? allocations k ≡ some (header a k)

-- The mask of a pool marks the places of a block.
pub record IsPool (pool : Pool) : Type 0 where
  pub ready : pool.initialized ≡ true
  pub some_place : 0 < pool.allocations_per_block
  pub few : pool.allocations_per_block ≤ 64
  pub sized : 0 < pool.object_size_in_fragments
  pub eight : length pool.allocations_mask ≡ 8
  pub bytes : Bytes pool.allocations_mask
  pub marked : (k : ℕ) → k < 64 → is_free pool.allocations_mask k ≡ ltb k pool.allocations_per_block

-- The blocks at `blocks` form the list and are all that is on the heap.
pub record IsLinked (m : Memory) (blocks : List ℕ) : Type 0 where
  pub pool_fine : IsPool m.pool
  pub chain : Chain m.heap 0 m.pool.block_list blocks
  pub distinct : Distinct blocks
  pub only : (a : ℕ) → Absent a blocks → places_of m.heap a ≡ none

abbrev pub IsBlockAt : Memory → ℕ → Type 0
IsBlockAt m a =
    (mask : List ℕ) (allocations : List Allocation)
    → places_of m.heap a ≡ some (mask, allocations)
    → IsBlock m.pool.allocations_per_block a mask allocations

-- The list is linked, and each block has a place in use.
pub record IsMemory (m : Memory) (blocks : List ℕ) : Type 0 where
  pub linked : IsLinked m blocks
  pub blocks_fine : (a : ℕ) → IsBlockAt m a

-- Whether the object at the place `k` of the block at `a` is in use.
unfoldable pub in_use_of : ℕ → Option (List ℕ × List Allocation) → ℕ → Bool
in_use_of n none k = false
in_use_of n (some (mask, _)) k = ltb k n && not (is_free mask k)

unfoldable pub in_use : Memory → ℕ → ℕ → Bool
unfolding in_use_of
in_use m a k = in_use_of m.pool.allocations_per_block (places_of m.heap a) k

-- An index behind the map is not marked.
pub is_free-short : (mask : List ℕ) (k : ℕ) → length mask ≡ 8 → 64 ≤ k → is_free mask k ≡ false
unfolding is_free
is_free-short mask k e h = elim (Option-cases (get_elem? mask (k / 8))) [
  | inl none_there ↦ rw (none_there, is_free) refl
  | inr (b, there) ↦ absurd (omega (arith, get_elem?-lt mask (k / 8) b there))
]

pub fill_allocations-header :
    (n i a k : ℕ) → k < n → get_elem? (fill_allocations n i a) k ≡ some (header a (i + k))
unfolding fill_allocations
fill_allocations-header zero i a k h = absurd (omega arith)
fill_allocations-header (suc n) i a zero h = let e : i + 0 ≡ i = omega arith in rw e refl
fill_allocations-header (suc n) i a (suc k) h =
    let e : i + suc k ≡ i + 1 + k = omega arith in
    rw e (fill_allocations-header n (i + 1) a k (omega arith))

places_of-some :
    (h : Heap) (a : ℕ) (mask : List ℕ) (allocations : List Allocation)
    → places_of h a ≡ some (mask, allocations)
    → (b : Block) × (h a ≡ some b) × (b.mask ≡ mask) × (b.allocations ≡ allocations)
unfolding places_of
places_of-some h a mask allocations e = elim (Option-cases (h a)) [
  | inl n ↦ absurd (ground (arith, n, e))
  | inr (b, at) ↦ (b, at, ground (arith, at, e), ground (arith, at, e))
]

pub places_of-at :
    (h : Heap) (a : ℕ) (b : Block) → h a ≡ some b → places_of h a ≡ some (b.mask, b.allocations)
unfolding places_of
places_of-at h a b at = ap content at

pub in_use-some :
    (m : Memory) (a k : ℕ)
    → in_use m a k ≡ true
    → (b : Block) × (m.heap a ≡ some b)
      × (k < m.pool.allocations_per_block)
      × (is_free b.mask k ≡ false)
unfolding in_use places_of
in_use-some m a k e = elim (Option-cases (m.heap a)) [
  | inl n ↦ absurd (ground (arith, n, e))
  | inr (b, at) ↦ (b, at, ground (arith, at, e), ground (arith, at, e))
]

-- Another map for the block at `a`.
abbrev pub with_mask_at : Memory → ℕ → Block → List ℕ → Memory
with_mask_at m a b mask = record m { heap = update m.heap a (some (with_mask b mask)) }

module _ (m : Memory) (a : ℕ) (b : Block) (mask : List ℕ) where
  pub places_of-with_mask_at :
      (c : ℕ)
      → places_of (with_mask_at m a b mask).heap c
        ≡ (if a == c then some (mask, b.allocations) else places_of m.heap c)
  unfolding places_of
  places_of-with_mask_at c = elim (Bool-cases (a == c)) [
    | inl e ↦ ap content (if_true _ e) ∙ sym (if_true _ e)
    | inr e ↦ ap content (if_false _ e) ∙ sym (if_false _ e)
  ]

  pub in_use-with_mask_at :
      (c k : ℕ)
      → in_use (with_mask_at m a b mask) c k ≡ (
          if a == c
          then ltb k m.pool.allocations_per_block && not (is_free mask k)
          else in_use m c k)
  unfolding in_use
  in_use-with_mask_at c k = elim (Bool-cases (a == c)) [
    | inl e ↦ rw (places_of-with_mask_at c ∙ if_true _ e) (sym (if_true _ e))
    | inr e ↦ rw (places_of-with_mask_at c ∙ if_false _ e) (sym (if_false _ e))
  ]

  -- The map of a block on the list may change to any that is fine.
  pub with_mask_at-IsMemory :
      (blocks : List ℕ)
      → IsLinked m blocks
      → m.heap a ≡ some b
      → ((c : ℕ) → a ≢ c → IsBlockAt m c)
      → IsBlock m.pool.allocations_per_block a mask b.allocations
      → IsMemory (with_mask_at m a b mask) blocks
  with_mask_at-IsMemory blocks l at others fine = record {
    linked = record {
      pool_fine = l.pool_fine;
      chain =
          Chain-update m.heap 0 m.pool.block_list blocks a b (with_mask b mask) at refl refl
            l.chain;
      distinct = l.distinct;
      only = λ c gone. elim (Bool-cases (a == c)) [
        | inl e ↦ absurd (
            cc (
              places_of-at m.heap a b at,
              subst (λ c. places_of m.heap c ≡ none) (sym (==→eq a c e)) (l.only c gone),
            ))
        | inr e ↦ places_of-with_mask_at c ∙ if_false _ e ∙ l.only c gone
      ];
    };
    blocks_fine = λ c mask' allocations e. elim (Bool-cases (a == c)) [
      | inl q ↦
          let now = sym (places_of-with_mask_at c ∙ if_true _ q) ∙ e in
          subst (λ c. IsBlock m.pool.allocations_per_block c mask' allocations) (==→eq a c q)
            (subst
              (λ (p : List ℕ × List Allocation). IsBlock m.pool.allocations_per_block a p.0 p.1)
              (cc (now)) fine)
      | inr q ↦
          others c (λ w. ground (arith, q, w)) mask' allocations
            (sym (places_of-with_mask_at c ∙ if_false _ q) ∙ e)
    ];
  }

-- The counters of a pool play no part in what is in use.
abbrev pub with_counters : Memory → ℕ → ℕ → Memory
with_counters m outstanding total = record m {
  pool = record m.pool { outstanding_allocations = outstanding; total_allocation_calls = total };
}

pub with_counters-IsMemory :
    (m : Memory) (blocks : List ℕ) (outstanding total : ℕ)
    → IsMemory m blocks
    → IsMemory (with_counters m outstanding total) blocks
with_counters-IsMemory m blocks outstanding total fine = record {
  linked = record {
    pool_fine = record {
      ready = p.ready;
      some_place = p.some_place;
      few = p.few;
      sized = p.sized;
      eight = p.eight;
      bytes = p.bytes;
      marked = p.marked;
    };
    chain = fine.linked.chain;
    distinct = fine.linked.distinct;
    only = fine.linked.only;
  };
  blocks_fine = fine.blocks_fine;
}
  where
    p : IsPool m.pool
    p = fine.linked.pool_fine
