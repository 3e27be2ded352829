-- ===== src/Memory/Pool/NewBlock.antt =====
-- The block that gives an object, one of the list or a new one, Memory/Pool.c.
use mathlib.Core.Path.{subst}
use libamqp.Prelude.{
  ℕ, ◌+◌, ◌<◌, ◌≡◌, inl, inr, refl, sym, ap, ◌∙◌, true, false, ◌&&◌, not, none, some, List, ◌∷◌,
  arith, ltb, ◌==◌, if◌then◌else◌, Bool-cases, if_true, if_false, ltb→lt, lt→ltb, ==→eq, update,
  ==-false,
}
use libamqp.Memory.Mask.{is_free, no_bits}
use libamqp.Memory.Mask.Whole.{no_bits-true}
use libamqp.Memory.Pool.{Block, Heap, Pool, Memory, with_block_list, fill_allocations}
use libamqp.Memory.Pool.Chain.{Chain, Absent, update_self}
use libamqp.Memory.Pool.Vacate.{places_of, content}
use libamqp.Memory.Pool.Invariant.{
  IsBlock, IsPool, IsMemory, in_use, is_free-short, fill_allocations-header, places_of-at,
}
use libamqp.Memory.Pool.Room.{Chain-Absent, HasRoom}

pub chosen_HasRoom :
    (m : Memory) (blocks : List ℕ) (a : ℕ) (b : Block)
    → IsMemory m blocks
    → m.heap a ≡ some b
    → no_bits b.mask ≡ false
    → HasRoom m blocks a b
chosen_HasRoom m blocks a b fine at room = record {
  linked = fine.linked;
  at = at;
  others = λ c _. fine.blocks_fine c;
  room = room;
  eight = f.eight;
  bytes = f.bytes;
  within = f.within;
  headers = f.headers;
}
  where
    f : IsBlock m.pool.allocations_per_block a b.mask b.allocations
    f = fine.blocks_fine a b.mask b.allocations (places_of-at m.heap a b at)

-- The block that is added, and the pool with it.
abbrev pub new_block : Pool → ℕ → Block
new_block pool p = record {
  next = pool.block_list;
  previous = 0;
  mask = pool.allocations_mask;
  allocations = fill_allocations pool.allocations_per_block 0 p;
}

abbrev pub with_new_block : Memory → ℕ → Heap → Memory
with_new_block m p h1 = record {
  pool = with_block_list m.pool p;
  heap = update h1 p (some (new_block m.pool p));
}

places_of-push :
    (m : Memory) (p c : ℕ) (h1 : Heap)
    → ((c : ℕ) → places_of h1 c ≡ places_of m.heap c)
    → places_of (with_new_block m p h1).heap c ≡ (
        if p == c
        then some (m.pool.allocations_mask, fill_allocations m.pool.allocations_per_block 0 p)
        else places_of m.heap c)
unfolding places_of
places_of-push m p c h1 kept = elim (Bool-cases (p == c)) [
  | inl e ↦ ap content (if_true _ e) ∙ sym (if_true _ e)
  | inr e ↦ ap content (if_false _ e) ∙ kept c ∙ sym (if_false _ e)
]

module _ (m : Memory) (blocks : List ℕ) (fine : IsMemory m blocks) (p : ℕ) (pos : 0 < p)
    (fresh : m.heap p ≡ none) where
  pool_fine : IsPool m.pool
  pool_fine = fine.linked.pool_fine

  marks_room : no_bits m.pool.allocations_mask ≡ false
  marks_room = elim (Bool-cases (no_bits m.pool.allocations_mask)) [
    | inr e ↦ e
    | inl e ↦ absurd (
        cc (
          no_bits-true m.pool.allocations_mask pool_fine.bytes e 0,
          pool_fine.marked 0 (omega arith) ∙ lt→ltb 0 _ pool_fine.some_place,
        ))
  ]

  marked_within :
      (k : ℕ) → is_free m.pool.allocations_mask k ≡ true → k < m.pool.allocations_per_block
  marked_within k on = elim (Bool-cases (ltb k 64)) [
    | inl e ↦ ltb→lt k _ (sym (pool_fine.marked k (ltb→lt k 64 e)) ∙ on)
    | inr e ↦
        absurd
          (cc (on, is_free-short m.pool.allocations_mask k pool_fine.eight (ground (arith, e))))
  ]

  pub fresh_Absent : Absent p blocks
  fresh_Absent = Chain-Absent m.heap p 0 m.pool.block_list blocks fresh fine.linked.chain

  module _ (h1 : Heap) (kept : (c : ℕ) → places_of h1 c ≡ places_of m.heap c)
      (chain : Chain (update h1 p (some (new_block m.pool p))) 0 p (p ∷ blocks)) where
    pub new_HasRoom : HasRoom (with_new_block m p h1) (p ∷ blocks) p (new_block m.pool p)
    new_HasRoom = record {
      linked = record {
        pool_fine = record {
          ready = pool_fine.ready;
          some_place = pool_fine.some_place;
          few = pool_fine.few;
          sized = pool_fine.sized;
          eight = pool_fine.eight;
          bytes = pool_fine.bytes;
          marked = pool_fine.marked;
        };
        chain = chain;
        distinct = (fresh_Absent, fine.linked.distinct);
        only = λ c absent.
            places_of-push m p c h1 kept
            ∙ if_false _ (==-false p c absent.0)
            ∙ fine.linked.only c absent.1;
      };
      at = update_self h1 p (some (new_block m.pool p));
      others = λ c n mask allocations e.
          fine.blocks_fine c mask allocations
            (sym (places_of-push m p c h1 kept ∙ if_false _ (==-false p c n)) ∙ e);
      room = marks_room;
      eight = pool_fine.eight;
      bytes = pool_fine.bytes;
      within = marked_within;
      headers = λ k k_below.
          fill_allocations-header m.pool.allocations_per_block 0 p k k_below
          ∙ let e : 0 + k ≡ k = omega arith in rw e refl;
    }

    -- None of the new block's places is in use.
    pub new_in_use : (c j : ℕ) → in_use (with_new_block m p h1) c j ≡ in_use m c j
    unfolding in_use places_of
    new_in_use c j = elim (Bool-cases (p == c)) [
      | inl e ↦
          let now = places_of-push m p c h1 kept ∙ if_true _ e in
          let before : places_of m.heap c ≡ none =
            subst (λ c. places_of m.heap c ≡ none) (==→eq p c e) (ap content fresh) in
          rw (now, before) (unmarked j)
      | inr e ↦ rw (places_of-push m p c h1 kept ∙ if_false _ e) refl
    ]
      where
        unmarked :
            (j : ℕ)
            → (ltb j m.pool.allocations_per_block && not (is_free m.pool.allocations_mask j))
              ≡ false
        unmarked j = elim (Bool-cases (ltb j m.pool.allocations_per_block)) [
          | inr e ↦ ground (arith, e)
          | inl e ↦
              let low : j < 64 = omega (arith, ltb→lt j _ e, pool_fine.few) in
              ground (arith, e, pool_fine.marked j low)
        ]
