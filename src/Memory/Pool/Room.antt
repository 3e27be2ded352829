-- ===== src/Memory/Pool/Room.antt =====
-- A block with room, and the object that is taken from it, Memory/Pool.c.
use mathlib.Core.Path.{subst}
use libamqp.Prelude.{
  ℕ, zero, suc, ◌+◌, ◌/◌, ◌<◌, ◌≡◌, ◌≢◌, ◌⊎◌, inl, inr, refl, sym, ◌∙◌, true, false, ◌&&◌, none,
  some, List, [], ◌∷◌, arith, ◌==◌, if◌then◌else◌, Bool-cases, if_true, ==→eq, length, get_elem?,
}
use libamqp.Memory.Mask.{is_free, no_bits}
use libamqp.Memory.Mask.Laws.{Bytes, IsTaken, take_first_free_lem}
use libamqp.Memory.Mask.Whole.{no_bits-false}
use libamqp.Memory.Pool.{
  returns, Block, Heap, Pointer, Memory, find_block_with_free_space,
  find_free_allocation_within_block,
}
use libamqp.Memory.Pool.Chain.{Chain, Absent}
use libamqp.Memory.Pool.Vacate.{places_of}
use libamqp.Memory.Pool.Invariant.{
  header, IsLinked, IsBlockAt, IsMemory, in_use, places_of-at, with_mask_at, in_use-with_mask_at,
  with_mask_at-IsMemory,
}

pub find_block_lem :
    (n : ℕ) (h : Heap) (q p : ℕ) (blocks : List ℕ)
    → Chain h q p blocks
    → length blocks < n
    → (r : ℕ) × (find_block_with_free_space n h p ≡ returns r)
      × ((r ≡ 0) ⊎ ((0 < r) × ((b : Block) × (h r ≡ some b) × (no_bits b.mask ≡ false))))
unfolding find_block_with_free_space
find_block_lem zero h q p blocks c l = absurd (omega arith)
find_block_lem (suc n) h q p [] c l = (0, ground (arith, c), inl refl)
find_block_lem (suc n) h q p (a ∷ blocks) (e, pos, (b, at, back, rest)) l =
    let live : (p == 0) ≡ false = ground (arith, e, pos) in
    let at' : h p ≡ some b = subst (λ p. h p ≡ some b) (sym e) at in
    elim (Bool-cases (no_bits b.mask)) [
      | inl full ↦
          let (r, runs, found) = find_block_lem n h a b.next blocks rest (omega arith) in
          (r, rw live (rw at' (rw full runs)), found)
      | inr free ↦ (p, rw live (rw at' (rw free refl)), inr (omega (arith, e, pos), (b, at', free)))
    ]

-- An address at which there is no block is none of the list's.
pub Chain-Absent :
    (h : Heap) (a q p : ℕ) (blocks : List ℕ) → h a ≡ none → Chain h q p blocks → Absent a blocks
Chain-Absent h a q p [] free c = tt
Chain-Absent h a q p (x ∷ blocks) free (e, pos, (b, at, back, rest)) =
    (λ same. cc (free, at, same), Chain-Absent h a x b.next blocks free rest)

-- A block on the list with room: all but that it may have no object yet.
pub record HasRoom (m : Memory) (blocks : List ℕ) (a : ℕ) (b : Block) : Type 0 where
  pub linked : IsLinked m blocks
  pub at : m.heap a ≡ some b
  pub others : (c : ℕ) → a ≢ c → IsBlockAt m c
  pub room : no_bits b.mask ≡ false
  pub eight : length b.mask ≡ 8
  pub bytes : Bytes b.mask
  pub within : (k : ℕ) → is_free b.mask k ≡ true → k < m.pool.allocations_per_block
  pub headers :
      (k : ℕ) → k < m.pool.allocations_per_block → get_elem? b.allocations k ≡ some (header a k)

-- Given out: one object more is in use, one that was not.
pub record IsGiven (m : Memory) (object : Pointer) (m' : Memory) : Type 0 where
  pub still_fine : (blocks : List ℕ) × IsMemory m' blocks
  pub was_unused : in_use m object.block object.slot ≡ false
  pub uses :
      (a k : ℕ)
      → in_use m' a k ≡ (if (object.block == a) && (k == object.slot) then true else in_use m a k)
  pub pool_kept : m'.pool ≡ m.pool

module _ (m : Memory) (blocks : List ℕ) (a : ℕ) (b : Block) (h : HasRoom m blocks a b) where
  taken_place :
      (k : ℕ) (mask : List ℕ)
      → IsTaken b.mask (k, mask)
      → IsGiven m (record { block = a; slot = k }) (with_mask_at m a b mask)
  unfolding in_use
  taken_place k mask taken = record {
    still_fine = (
      blocks,
      with_mask_at-IsMemory m a b mask blocks h.linked h.at h.others (record {
        eight = taken.length_kept ∙ h.eight;
        bytes = taken.bytes_kept;
        within = λ j e. h.within j (ground (arith, taken.takes j, e));
        some_used = (k, below, ground (arith, taken.takes k));
        headers = h.headers;
      }),
    );
    was_unused = rw (places_of-at m.heap a b h.at) (ground (arith, taken.was_free));
    uses = λ c j. elim (Bool-cases (a == c)) [
      | inl e ↦
          let now = in_use-with_mask_at m a b mask c j ∙ if_true _ e in
          let before : places_of m.heap c ≡ some (b.mask, b.allocations) =
            subst (λ c. places_of m.heap c ≡ some (b.mask, b.allocations)) (==→eq a c e)
              (places_of-at m.heap a b h.at) in
          ground (arith, now, before, taken.takes j, e, below)
      | inr off ↦ ground (arith, in_use-with_mask_at m a b mask c j, off)
    ];
    pool_kept = refl;
  }
    where
      below : k < m.pool.allocations_per_block
      below = h.within k taken.was_free

  pub take_from_block :
      (k : ℕ) × (mask : List ℕ) × (find_free_allocation_within_block m a
        ≡ returns (k, with_mask_at m a b mask))
      × (k < m.pool.allocations_per_block)
      × IsGiven m (record { block = a; slot = k }) (with_mask_at m a b mask)
  unfolding find_free_allocation_within_block
  take_from_block =
      let (f, inside, on) = no_bits-false b.mask h.bytes h.room in
      let f_below = h.within f on in
      let ((k, mask), takes, taken) =
        take_first_free_lem (m.pool.allocations_per_block / 8 + 1) b.mask f h.bytes on
          (omega (arith, f_below)) in
      (
        k,
        mask,
        rw h.at (rw h.room (rw takes refl)),
        h.within k taken.was_free,
        taken_place k mask taken,
      )
