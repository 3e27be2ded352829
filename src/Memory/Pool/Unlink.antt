-- ===== src/Memory/Pool/Unlink.antt =====
-- Taking a block out of the list of a pool, the last part of `delete_object` of Memory/Pool.c.
use mathlib.Core.Path.{subst}
use libamqp.Prelude.{
  ℕ, ◌<◌, ◌≡◌, inl, inr, refl, sym, ap, ◌∙◌, true, not, none, some, List, [], ◌∷◌, ◌++◌, arith,
  ◌==◌, if◌then◌else◌, Bool-cases, if_true, if_false, update,
}
use libamqp.Memory.Pool.{returns, Block, Heap, Memory, set_next, with_next, with_block_list, unlink}
use libamqp.Memory.Pool.Chain.{
  Chain, Absent, Distinct, Chain-agree, agree-update, update_self, update_other,
}
use libamqp.Memory.Pool.Vacate.{content, places_of, places_of-update, set_previous-Chain}

pub Absent-append-left : (a : ℕ) (xs ys : List ℕ) → Absent a (xs ++ ys) → Absent a xs
Absent-append-left a [] ys n = tt
Absent-append-left a (x ∷ xs) ys n = (n.0, Absent-append-left a xs ys n.1)

pub Absent-append-right : (a : ℕ) (xs ys : List ℕ) → Absent a (xs ++ ys) → Absent a ys
Absent-append-right a [] ys n = n
Absent-append-right a (x ∷ xs) ys n = Absent-append-right a xs ys n.1

Absent-append : (a : ℕ) (xs ys : List ℕ) → Absent a xs → Absent a ys → Absent a (xs ++ ys)
Absent-append a [] ys n m = m
Absent-append a (x ∷ xs) ys n m = (n.0, Absent-append a xs ys n.1 m)

-- Taking a member out of a list without repetition.
pub Distinct-remove :
    (a : ℕ) (xs ys : List ℕ) → Distinct (xs ++ a ∷ ys) → Distinct (xs ++ ys) × Absent a (xs ++ ys)
Distinct-remove a [] ys d = (d.1, d.0)
Distinct-remove a (x ∷ xs) ys d =
    let (rest, gone) = Distinct-remove a xs ys d.1 in
    let others = Absent-append-right x xs (a ∷ ys) d.0 in
    (
      (Absent-append x xs ys (Absent-append-left x xs (a ∷ ys) d.0) others.1, rest),
      (λ e. others.0 (sym e), gone),
    )

-- What the block in front of one that goes is to get: another successor, and nothing else changes.
abbrev SetsNext : Heap → ℕ → ℕ → ℕ → List ℕ → List ℕ → Block → Type 0
SetsNext h1 q p x xs ys b =
    (h2 : Heap) × (set_next h1 b.previous b.next ≡ returns h2)
    × Chain h2 q p (x ∷ xs ++ ys)
    × ((c : ℕ) → places_of h2 c ≡ places_of h1 c)
    × ((c : ℕ) → Absent c (x ∷ xs) → h2 c ≡ h1 c)
    × (0 < b.previous)

-- It is the first of the list.
set_next-first :
    (h1 : Heap) (q p x : ℕ) (ys : List ℕ) (b bx : Block)
    → b.previous ≡ x
    → h1 x ≡ some bx
    → p ≡ x
    → 0 < x
    → bx.previous ≡ q
    → Chain h1 x b.next ys
    → Absent x ys
    → SetsNext h1 q p x [] ys b
unfolding set_next
set_next-first h1 q p x ys b bx z at e pos back tail gone =
    let b2 = with_next bx b.next in
    (
      update h1 x (some b2),
      ground (arith, z, at),
      (
        e,
        pos,
        (
          b2,
          update_self h1 x (some b2),
          back,
          Chain-agree h1 (update h1 x (some b2)) x b.next ys (agree-update h1 x (some b2) ys gone)
              tail,
        ),
      ),
      λ c. places_of-update h1 x c bx b2 at refl refl,
      λ c n. update_other h1 x c (some b2) (λ q. n.0 (sym q)),
      subst (λ x. 0 < x) (sym z) pos,
    )

set_next-Chain :
    (h h1 : Heap) (q p x : ℕ) (xs : List ℕ) (a : ℕ) (ys : List ℕ) (b : Block)
    → h a ≡ some b
    → Chain h1 b.previous b.next ys
    → ((c : ℕ) → Absent c ys → h1 c ≡ h c)
    → Distinct (x ∷ xs ++ a ∷ ys)
    → Chain h q p (x ∷ xs ++ a ∷ ys)
    → SetsNext h1 q p x xs ys b
set_next-Chain h h1 q p x [] a ys b at tail same d
      (e, pos, (bx, atx, back, (ea, posa, (ba, ata, backa, _)))) =
    let old : b ≡ ba = cc (at, ata) in
    let z : b.previous ≡ x = ap (λ (b : Block). b.previous) old ∙ backa in
    set_next-first h1 q p x ys b bx z (same x d.0.1 ∙ atx) e pos back
      (subst (λ x. Chain h1 x b.next ys) z tail) d.0.1
set_next-Chain h h1 q p x (y ∷ xs) a ys b at tail same d (e, pos, (bx, atx, back, rest)) =
    let (h2, runs, chain, kept, agree, prev_pos) =
      set_next-Chain h h1 x bx.next y xs a ys b at tail same d.1 rest in
    (
      h2,
      runs,
      (
        e,
        pos,
        (
          bx,
          agree x (Absent-append-left x (y ∷ xs) (a ∷ ys) d.0)
              ∙ same x (Absent-append-right x (y ∷ xs) (a ∷ ys) d.0).1
              ∙ atx,
          back,
          chain,
        ),
      ),
      kept,
      λ c n. agree c n.1,
      prev_pos,
    )

Distinct-suffix : (xs ys : List ℕ) → Distinct (xs ++ ys) → Distinct ys
Distinct-suffix [] ys d = d
Distinct-suffix (x ∷ xs) ys d = Distinct-suffix xs ys d.1

Chain-tail :
    (h : Heap) (q p : ℕ) (xs : List ℕ) (a : ℕ) (ys : List ℕ) (b : Block)
    → h a ≡ some b
    → Chain h q p (xs ++ a ∷ ys)
    → Chain h a b.next ys
Chain-tail h q p [] a ys b at (e, pos, (ba, ata, back, rest)) =
    let old : ba ≡ b = cc (at, ata) in subst (λ b. Chain h a b.next ys) old rest
Chain-tail h q p (x ∷ xs) a ys b at (e, pos, (bx, atx, back, rest)) =
    Chain-tail h x bx.next xs a ys b at rest

places_of-free :
    (h : Heap) (a c : ℕ) → places_of (update h a none) c ≡ (if a == c then none else places_of h c)
unfolding places_of
places_of-free h a c = elim (Bool-cases (a == c)) [
  | inl e ↦ ap content (if_true _ e) ∙ sym (if_true _ e)
  | inr e ↦ ap content (if_false _ e) ∙ sym (if_false _ e)
]

module _ (m : Memory) (a : ℕ) (bs : List ℕ) (m' : Memory) where
  -- The block at `a` is gone, the others form the list `bs` and are what they were.
  pub record IsUnlinked : Type 0 where
    pub chain : Chain m'.heap 0 m'.pool.block_list bs
    pub others : (c : ℕ) → places_of m'.heap c ≡ (if a == c then none else places_of m.heap c)
    pub pool_kept : m'.pool ≡ with_block_list m.pool m'.pool.block_list

pub unlink_lem :
    (m : Memory) (a : ℕ) (b : Block) (xs ys : List ℕ)
    → m.heap a ≡ some b
    → Chain m.heap 0 m.pool.block_list (xs ++ a ∷ ys)
    → Distinct (xs ++ a ∷ ys)
    → (m' : Memory) × (unlink m a b ≡ returns m') × IsUnlinked m a (xs ++ ys) m'
unfolding unlink
unlink_lem m a b [] ys at (e, pos, (ba, ata, back, rest)) d =
    let old : b ≡ ba = cc (at, ata) in
    let first : b.previous ≡ 0 = ap (λ (b : Block). b.previous) old ∙ back in
    let (h1, runs, chain, same, kept) =
      set_previous-Chain m.heap a b.next b.previous ys
        (subst (λ b. Chain m.heap a b.next ys) (sym old) rest) d.1 in
    (
      record { pool = with_block_list m.pool b.next; heap = update h1 a none },
      rw runs (rw first refl),
      record {
        chain =
            Chain-agree h1 (update h1 a none) 0 b.next ys (agree-update h1 a none ys d.0)
              (subst (λ v. Chain h1 v b.next ys) first chain);
        others = λ c. places_of-free h1 a c ∙ rw (kept c) refl;
        pool_kept = refl;
      },
    )
unlink_lem m a b (x ∷ xs) ys at chain d =
    let (h1, runs1, chain1, same, kept1) =
      set_previous-Chain m.heap a b.next b.previous ys
        (Chain-tail m.heap 0 m.pool.block_list (x ∷ xs) a ys b at chain)
        (Distinct-suffix (x ∷ xs) (a ∷ ys) d).1 in
    let (h2, runs2, chain2, kept2, agree, pos) =
      set_next-Chain m.heap h1 0 m.pool.block_list x xs a ys b at chain1 same d chain in
    let middle : not (b.previous == 0) ≡ true = ground (arith, pos) in
    (
      record m { heap = update h2 a none },
      rw runs1 (rw middle (rw runs2 refl)),
      record {
        chain =
            Chain-agree h2 (update h2 a none) 0 m.pool.block_list (x ∷ xs ++ ys)
              (agree-update h2 a none (x ∷ xs ++ ys) (Distinct-remove a (x ∷ xs) ys d).1) chain2;
        others = λ c. places_of-free h2 a c ∙ rw (kept2 c ∙ kept1 c) refl;
        pool_kept = refl;
      },
    )
