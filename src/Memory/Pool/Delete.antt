-- ===== src/Memory/Pool/Delete.antt =====
-- A place that is given back to its block, and the block to the heap when it was the last.
use mathlib.Core.Path.{subst}
use libamqp.Prelude.{
  ℕ, ◌<◌, ◌≡◌, ◌≢◌, ◌⊎◌, inl, inr, refl, sym, ap, ◌∙◌, true, false, ◌&&◌, none, some, List, [], ◌∷◌,
  ◌++◌, arith, ltb, ◌==◌, if◌then◌else◌, Bool-cases, if_true, if_false, ltb→lt, lt→ltb, ==→eq,
  length,
}
use libamqp.Memory.Mask.{is_free, all_free}
use libamqp.Memory.Mask.Whole.{IsGivenBack, all_free-true, all_free-false}
use libamqp.Memory.Pool.{returns, Block, Pool, Pointer, Memory, with_mask, with_block_list, unlink}
use libamqp.Memory.Pool.Chain.{Chain, Absent, Distinct, Chain-update, update_self}
use libamqp.Memory.Pool.Unlink.{IsUnlinked, unlink_lem, Distinct-remove}
use libamqp.Memory.Pool.Vacate.{places_of}
use libamqp.Memory.Pool.Invariant.{
  IsBlock, IsPool, IsMemory, in_use, is_free-short, places_of-at, with_mask_at,
  places_of-with_mask_at, in_use-with_mask_at, with_mask_at-IsMemory,
}

-- A block is on the list, or away from all its members.
on_list :
    (a : ℕ) (bs : List ℕ) → ((xs : List ℕ) × (ys : List ℕ) × (bs ≡ xs ++ a ∷ ys)) ⊎ Absent a bs
on_list a [] = inr tt
on_list a (c ∷ bs) = elim (Bool-cases (c == a)) [
  | inl e ↦ inl ([], bs, rw (==→eq c a e) refl)
  | inr n ↦ elim (on_list a bs) [
    | inl (xs, ys, q) ↦ inl (c ∷ xs, ys, ap (λ l. c ∷ l) q)
    | inr gone ↦ inr (λ e. ground (arith, n, e), gone)
  ]
]

Absent-insert :
    (c : ℕ) {a : ℕ} (xs ys : List ℕ) → a ≢ c → Absent c (xs ++ ys) → Absent c (xs ++ a ∷ ys)
Absent-insert c [] ys n absent = (n, absent)
Absent-insert c (x ∷ xs) ys n absent = (absent.0, Absent-insert c xs ys n absent.1)

-- Given back: one object less is in use, the pool's layout and its counters stay.
pub record IsReleased (m : Memory) (object : Pointer) (m' : Memory) : Type 0 where
  pub still_fine : (blocks : List ℕ) × IsMemory m' blocks
  pub uses :
      (a k : ℕ)
      → in_use m' a k ≡ (if (object.block == a) && (k == object.slot) then false else in_use m a k)
  pub pool_kept : m'.pool ≡ with_block_list m.pool m'.pool.block_list

with_block_list-IsPool : (pool : Pool) (p : ℕ) → IsPool pool → IsPool (with_block_list pool p)
with_block_list-IsPool pool p f = record {
  ready = f.ready;
  some_place = f.some_place;
  few = f.few;
  sized = f.sized;
  eight = f.eight;
  bytes = f.bytes;
  marked = f.marked;
}

module _ (m : Memory) (blocks : List ℕ) (fine : IsMemory m blocks) (a k : ℕ) (b : Block)
    (at : m.heap a ≡ some b) (below : k < m.pool.allocations_per_block)
    (used : is_free b.mask k ≡ false) (mask : List ℕ) (given : IsGivenBack b.mask k mask) where
  abbrev marked_memory : Memory
  marked_memory = with_mask_at m a b mask

  fine-IsBlock : IsBlock m.pool.allocations_per_block a b.mask b.allocations
  fine-IsBlock = fine.blocks_fine a b.mask b.allocations (places_of-at m.heap a b at)

  mask_eight : length mask ≡ 8
  mask_eight = given.length_kept ∙ fine-IsBlock.eight

  mask_within : (j : ℕ) → is_free mask j ≡ true → j < m.pool.allocations_per_block
  mask_within j on = elim (Bool-cases (j == k)) [
    | inl e ↦ ground (arith, e, below)
    | inr n ↦ fine-IsBlock.within j (sym (given.gives j ∙ if_false _ n) ∙ on)
  ]

  -- With another object left in the block its bit is all that changes.
  kept_fine : all_free mask m.pool.allocations_mask ≡ false → IsMemory marked_memory blocks
  kept_fine part =
      with_mask_at-IsMemory m a b mask blocks fine.linked at (λ c n. fine.blocks_fine c)
        (record {
          eight = mask_eight;
          bytes = given.bytes_kept;
          within = mask_within;
          some_used = left;
          headers = fine-IsBlock.headers;
        })
    where
      pool_fine : IsPool m.pool
      pool_fine = fine.linked.pool_fine

      left : (j : ℕ) × (j < m.pool.allocations_per_block) × (is_free mask j ≡ false)
      left =
          let (j, on, off) =
            all_free-false mask m.pool.allocations_mask given.bytes_kept pool_fine.bytes
              (mask_eight ∙ sym pool_fine.eight) part in
          let low : j < 64 = elim (Bool-cases (ltb j 64)) [
            | inl e ↦ ltb→lt j 64 e
            | inr n ↦ absurd (
                cc
                  (on, is_free-short m.pool.allocations_mask j pool_fine.eight (ground (arith, n))))
          ] in
          (j, ltb→lt _ _ (sym (pool_fine.marked j low) ∙ on), off)

  marked_uses :
      (c j : ℕ) → in_use marked_memory c j ≡ (if (a == c) && (j == k) then false else in_use m c j)
  unfolding in_use
  marked_uses c j = elim (Bool-cases (a == c)) [
    | inl e ↦
        let now = in_use-with_mask_at m a b mask c j ∙ if_true _ e in
        let before : places_of m.heap c ≡ some (b.mask, b.allocations) =
          subst (λ c. places_of m.heap c ≡ some (b.mask, b.allocations)) (==→eq a c e)
            (places_of-at m.heap a b at) in
        ground (arith, now, before, given.gives j, e)
    | inr n ↦ ground (arith, in_use-with_mask_at m a b mask c j, n)
  ]

  all_marked :
      all_free mask m.pool.allocations_mask ≡ true
      → (j : ℕ) → j < m.pool.allocations_per_block
      → is_free mask j ≡ true
  all_marked whole j h =
      let p = fine.linked.pool_fine in
      all_free-true mask m.pool.allocations_mask given.bytes_kept p.bytes (mask_eight ∙ sym p.eight)
        whole j (p.marked j (omega (arith, p.few, h)) ∙ lt→ltb j _ h)

  -- Where all objects of the block are back, what is left of the list is fine without it.
  module _ (xs ys : List ℕ) (split : blocks ≡ xs ++ a ∷ ys)
      (whole : all_free mask m.pool.allocations_mask ≡ true) (m' : Memory)
      (gone : IsUnlinked marked_memory a (xs ++ ys) m') where
    others_kept : (c : ℕ) → places_of m'.heap c ≡ (if a == c then none else places_of m.heap c)
    others_kept c = elim (Bool-cases (a == c)) [
      | inl e ↦ gone.others c ∙ if_true _ e ∙ sym (if_true _ e)
      | inr n ↦
          gone.others c
          ∙ if_false _ n
          ∙ places_of-with_mask_at m a b mask c
          ∙ if_false _ n
          ∙ sym (if_false _ n)
    ]

    places_kept : m'.pool.allocations_per_block ≡ m.pool.allocations_per_block
    places_kept = ap (λ (p : Pool). p.allocations_per_block) gone.pool_kept

    vacated_fine : IsMemory m' (xs ++ ys)
    vacated_fine = record {
      linked = record {
        pool_fine =
            subst IsPool (sym gone.pool_kept)
              (with_block_list-IsPool m.pool m'.pool.block_list fine.linked.pool_fine);
        chain = gone.chain;
        distinct = (Distinct-remove a xs ys (subst Distinct split fine.linked.distinct)).0;
        only = λ c absent. elim (Bool-cases (a == c)) [
          | inl e ↦ others_kept c ∙ if_true _ e
          | inr n ↦
              others_kept c
              ∙ if_false _ n
              ∙ fine.linked.only c (
                  subst (λ l. Absent c l) (sym split)
                    (Absent-insert c xs ys (λ e. ground (arith, n, e)) absent))
        ];
      };
      blocks_fine = λ c mask' allocations e. elim (Bool-cases (a == c)) [
        | inl q ↦ absurd (cc (others_kept c ∙ if_true _ q, e))
        | inr q ↦
            subst (λ n. IsBlock n c mask' allocations) (sym places_kept)
              (fine.blocks_fine c mask' allocations (sym (others_kept c ∙ if_false _ q) ∙ e))
      ];
    }

    vacated_uses :
        (c j : ℕ) → in_use m' c j ≡ (if (a == c) && (j == k) then false else in_use m c j)
    unfolding in_use
    vacated_uses c j = elim (Bool-cases (a == c)) [
      | inl e ↦
          let now : in_use m' c j ≡ false = rw (others_kept c ∙ if_true _ e) refl in
          let before : places_of m.heap c ≡ some (b.mask, b.allocations) =
            subst (λ c. places_of m.heap c ≡ some (b.mask, b.allocations)) (==→eq a c e)
              (places_of-at m.heap a b at) in
          ground (arith, now, before, given.gives j, e, all_marked whole j)
      | inr n ↦ rw (others_kept c ∙ if_false _ n, places_kept) (ground (arith, n))
    ]

  -- The block is vacated, or stays with one bit more.
  pub release_block :
      (m' : Memory) × ((if all_free mask m.pool.allocations_mask
          then unlink marked_memory a (with_mask b mask)
          else returns marked_memory)
        ≡ returns m')
      × IsReleased m (record { block = a; slot = k }) m'
  release_block = elim (Bool-cases (all_free mask m.pool.allocations_mask)) [
    | inr part ↦ (
      marked_memory,
      if_false _ part,
      record { still_fine = (blocks, kept_fine part); uses = marked_uses; pool_kept = refl },
    )
    | inl whole ↦ elim (on_list a blocks) [
      | inl (xs, ys, split) ↦
          let (m', runs, gone) =
            unlink_lem marked_memory a (with_mask b mask) xs ys
              (update_self m.heap a (some (with_mask b mask)))
              (subst (Chain marked_memory.heap 0 m.pool.block_list) split (
                Chain-update m.heap 0 m.pool.block_list blocks a b (with_mask b mask) at refl refl
                  fine.linked.chain))
              (subst Distinct split fine.linked.distinct) in
          (
            m',
            if_true _ whole ∙ runs,
            record {
              still_fine = (xs ++ ys, vacated_fine xs ys split whole m' gone);
              uses = vacated_uses xs ys split whole m' gone;
              pool_kept = gone.pool_kept;
            },
          )
      | inr absent ↦ absurd (cc (fine.linked.only a absent, places_of-at m.heap a b at))
    ]
  ]
