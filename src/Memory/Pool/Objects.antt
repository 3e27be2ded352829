-- ===== src/Memory/Pool/Objects.antt =====
-- The calls of a client on one pool of Memory/Pool.c: what it holds, against what is in use.
use mathlib.Core.Path.{subst}
use libamqp.Prelude.{
  ℕ, zero, suc, ◌/◌, ◌%◌, ◌^◌, ◌<◌, ◌≡◌, ◌↔◌, inl, inr, refl, sym, ap, ◌∙◌, Bool, true, false, ◌&&◌,
  ◌||◌, none, some, List, [], ◌∷◌, ◌++◌, arith, ◌==◌, if◌then◌else◌, Bool-cases, if_true, if_false,
  length, length-append,
}
use libamqp.Memory.Pool.{
  Outcome, returns, Pool, Pointer, Memory, allocate, deallocate, is_set, amqp_check_pool_is_empty,
}
use libamqp.Memory.Mask.{bytes_of, allocations_mask_of}
use libamqp.Memory.Mask.Laws.{Bytes}
use libamqp.Memory.Pool.Layout.{IsLaidOut}
use libamqp.Memory.Pool.Vacate.{places_of}
use libamqp.Memory.Pool.Invariant.{IsMemory, in_use}
use libamqp.Memory.Pool.Allocate.{IsAllocated, allocate_lem}
use libamqp.Memory.Pool.Release.{IsDeallocated, deallocate_lem}

abbrev pub is_at : Pointer → ℕ → ℕ → Bool
is_at object a k = (object.block == a) && (k == object.slot)

abbrev pub holds : List Pointer → ℕ → ℕ → Bool
holds [] a k = false
holds (object ∷ objects) a k = is_at object a k || holds objects a k

abbrev pub NoRepeat : List Pointer → Type 0
NoRepeat [] = Unit {0}
NoRepeat (object ∷ objects) = (holds objects object.block object.slot ≡ false) × NoRepeat objects

-- A client holds just the objects in use, each once, and the pool counts them.
pub record Represents (m : Memory) (objects : List Pointer) : Type 0 where
  pub fine : (blocks : List ℕ) × IsMemory m blocks
  pub uses : (a k : ℕ) → in_use m a k ≡ holds objects a k
  pub once : NoRepeat objects
  pub counted : m.pool.outstanding_allocations ≡ length objects % 2 ^ 64
  pub initializes : is_set m.pool.initializer_callback ≡ true
  pub destroys : is_set m.pool.destroyer_callback ≡ true

-- A pool that is fine, so that a block of it has a place, with its two callbacks set, nothing on its
-- list and a count of 0, as after its initialisation, and then any calls, in the order in which they
-- end: a destroyer may call `amqp_deallocate` on the pool, and those calls end before the one that it
-- is called from, whose object the client holds until then. `p` is the address that `malloc` gives,
-- if it is called, and the search has more rounds than there are blocks.
pub data Reach : Memory → List Pointer → Type 0 where
  begin :
      (m : Memory)
      → IsMemory m []
      → is_set m.pool.initializer_callback ≡ true
      → is_set m.pool.destroyer_callback ≡ true
      → m.pool.outstanding_allocations ≡ 0
      → Reach m []
  give :
      {m m' : Memory} {objects : List Pointer} (p rounds : ℕ) (object : Pointer)
      → Reach m objects
      → 0 < p
      → m.heap p ≡ none
      → ((blocks : List ℕ) → IsMemory m blocks → length blocks < rounds)
      → allocate (λ _ _. p) rounds m ≡ returns (object, m')
      → Reach m' (object ∷ objects)
  release :
      {m m1 m' : Memory} (destroy : Memory → Pointer → Outcome Memory) (before : List Pointer)
      (object : Pointer) (behind objects : List Pointer)
      → is_set m.pool.destroyer_callback ≡ true
      → destroy m object ≡ returns m1
      → Reach m1 objects
      → objects ≡ before ++ object ∷ behind
      → deallocate destroy m (some object) ≡ returns m'
      → Reach m' (before ++ behind)

is_at_self : (object : Pointer) → is_at object object.block object.slot ≡ true
is_at_self object = ground arith

is_at-eq :
    (object : Pointer) (a k : ℕ) → is_at object a k ≡ true → (object.block ≡ a) × (object.slot ≡ k)
is_at-eq object a k e = (ground (arith, e), ground (arith, e))

holds-append :
    (xs ys : List Pointer) (a k : ℕ) → holds (xs ++ ys) a k ≡ (holds xs a k || holds ys a k)
holds-append [] ys a k = refl
holds-append (x ∷ xs) ys a k = ground (arith, holds-append xs ys a k)

NoRepeat-remove :
    (xs : List Pointer) (object : Pointer) (ys : List Pointer)
    → NoRepeat (xs ++ object ∷ ys)
    → NoRepeat (xs ++ ys) × (holds (xs ++ ys) object.block object.slot ≡ false)
NoRepeat-remove [] object ys d = (d.1, d.0)
NoRepeat-remove (x ∷ xs) object ys d =
    let (rest, gone) = NoRepeat-remove xs object ys d.1 in
    let parts = sym (holds-append xs (object ∷ ys) x.block x.slot) ∙ d.0 in
    ((holds-append xs ys x.block x.slot ∙ ground (arith, parts), rest), ground (arith, parts, gone))

begin-uses : (m : Memory) → IsMemory m [] → (a k : ℕ) → in_use m a k ≡ false
unfolding in_use
begin-uses m fine a k = rw (fine.linked.only a tt) refl

-- The bit that changes is that of the object.
removed_uses :
    (xs : List Pointer) (object : Pointer) (ys : List Pointer) (a k : ℕ)
    → NoRepeat (xs ++ object ∷ ys)
    → (if is_at object a k then false else holds (xs ++ object ∷ ys) a k) ≡ holds (xs ++ ys) a k
removed_uses xs object ys a k d = elim (Bool-cases (is_at object a k)) [
  | inl e ↦
      let (same_block, same_slot) = is_at-eq object a k e in
      if_true _ e
      ∙ sym (
          subst (λ a. holds (xs ++ ys) a k ≡ false) same_block
            (subst (λ k. holds (xs ++ ys) object.block k ≡ false) same_slot
              (NoRepeat-remove xs object ys d).1))
  | inr n ↦
      if_false _ n ∙ holds-append xs (object ∷ ys) a k ∙ ground (arith, n, holds-append xs ys a k)
]

holds-middle :
    (xs : List Pointer) (object : Pointer) (ys : List Pointer)
    → holds (xs ++ object ∷ ys) object.block object.slot ≡ true
holds-middle xs object ys =
    holds-append xs (object ∷ ys) object.block object.slot ∙ ground (arith, is_at_self object)

given-Represents :
    (m m' : Memory) (object : Pointer) (objects : List Pointer)
    → Represents m objects
    → IsAllocated m object m'
    → Represents m' (object ∷ objects)
given-Represents m m' object objects rep given = record {
  fine = given.still_fine;
  uses = λ a k. given.uses a k ∙ ground (arith, rep.uses a k);
  once = (sym (rep.uses object.block object.slot) ∙ given.was_unused, rep.once);
  counted =
      ap (λ (p : Pool). p.outstanding_allocations) given.pool_kept ∙ omega (arith, rep.counted);
  initializes = ap (λ (p : Pool). is_set p.initializer_callback) given.pool_kept ∙ rep.initializes;
  destroys = ap (λ (p : Pool). is_set p.destroyer_callback) given.pool_kept ∙ rep.destroys;
}

released-Represents :
    (m m' : Memory) (xs : List Pointer) (object : Pointer) (ys : List Pointer)
    → Represents m (xs ++ object ∷ ys)
    → IsDeallocated m object m'
    → Represents m' (xs ++ ys)
released-Represents m m' xs object ys rep freed = record {
  fine = freed.still_fine;
  uses = λ a k.
      freed.uses a k
      ∙ ap (λ b. if is_at object a k then false else b) (rep.uses a k)
      ∙ removed_uses xs object ys a k rep.once;
  once = (NoRepeat-remove xs object ys rep.once).0;
  counted =
      ap (λ (p : Pool). p.outstanding_allocations) freed.pool_kept
      ∙ omega (arith, rep.counted, length-append xs (object ∷ ys), length-append xs ys);
  initializes = ap (λ (p : Pool). is_set p.initializer_callback) freed.pool_kept ∙ rep.initializes;
  destroys = ap (λ (p : Pool). is_set p.destroyer_callback) freed.pool_kept ∙ rep.destroys;
}

returns-injective {ℓ} : {A : Type ℓ} {x y : A} → returns x ≡ returns y → x ≡ y
returns-injective e = cc

-- From a pool that is fine, so that a block of it has a place, with its two callbacks set, nothing
-- on its list and a count of 0, after any calls of `amqp_allocate` and `amqp_deallocate`, those
-- that a destroyer makes among them: the client holds just the objects in use, none twice, the pool
-- counts them modulo 2^64, its blocks are linked both ways, and each has a place in use. Each call
-- of `malloc` gives an address that is not null and has no block, the search has more rounds than
-- there are blocks, what is given back is held, and a destroyer leaves it so.
pub Reach-Represents :
    (m : Memory) (objects : List Pointer) → Reach m objects → Represents m objects
Reach-Represents _ _ (begin m fine i d none_out) = record {
  fine = ([], fine);
  uses = begin-uses m fine;
  once = tt;
  counted = none_out;
  initializes = i;
  destroys = d;
}
Reach-Represents _ _ (give {m} {m'} {objects} p rounds object r pos fresh enough runs) =
    let rep = Reach-Represents m objects r in
    let (blocks, fine) = rep.fine in
    let (o, m2, runs2, given) =
      allocate_lem (λ _ _. p) rounds m blocks fine rep.initializes (enough blocks fine) pos fresh in
    let same = returns-injective (sym runs2 ∙ runs) in
    given-Represents m m' object objects rep
      (subst (λ (x : Pointer × Memory). IsAllocated m x.0 x.1) same given)
Reach-Represents _ _ (release {m} {m1} {m'} destroy xs object ys objects set destroys r e runs) =
    let rep = subst (Represents m1) e (Reach-Represents m1 objects r) in
    let (blocks, fine) = rep.fine in
    let used = rep.uses object.block object.slot ∙ holds-middle xs object ys in
    let (m2, runs2, freed) = deallocate_lem destroy m m1 blocks object set destroys fine used in
    released-Represents m1 m' xs object ys rep
      (subst (IsDeallocated m1 object) (returns-injective (sym runs2 ∙ runs)) freed)

-- After any calls from a pool that is fine, so that a block of it has a place, with its two
-- callbacks set, nothing on its list and a count of 0, those that a destroyer makes among them,
-- `amqp_check_pool_is_empty` is true exactly when the client holds nothing. Fewer than 2^64 objects
-- are held.
pub check_pool_is_empty_lem :
    (m : Memory) (objects : List Pointer)
    → Reach m objects
    → length objects < 2 ^ 64
    → (amqp_check_pool_is_empty m.pool ≡ true) ↔ (objects ≡ [])
unfolding amqp_check_pool_is_empty
check_pool_is_empty_lem m [] r few =
    let counted = (Reach-Represents m [] r).counted in (λ _. refl, λ _. ground (arith, counted))
check_pool_is_empty_lem m (o ∷ os) r few =
    let counted = (Reach-Represents m (o ∷ os) r).counted in
    (λ e. absurd (ground (arith, counted, e, few)), λ e. absurd (cc (e)))

bytes_of-Bytes : (n w : ℕ) → Bytes (bytes_of n w) × (length (bytes_of n w) ≡ n)
unfolding bytes_of
bytes_of-Bytes zero w = (tt, refl)
bytes_of-Bytes (suc n) w =
    let (bytes, count) = bytes_of-Bytes n (w / 256) in ((omega arith, bytes), ap suc count)

module _ (pooled_object_size : ℕ) (pool : Pool) (l : IsLaidOut pooled_object_size pool)
    (some_place : 0 < pool.allocations_per_block) where
  pub laid_out-IsMemory : IsMemory (record { pool = pool; heap = λ _. none }) []
  unfolding places_of
  laid_out-IsMemory =
      let (bytes, count) = bytes_of-Bytes 8 (allocations_mask_of pool.allocations_per_block) in
      record {
        linked = record {
          pool_fine = record {
            ready = l.ready;
            some_place = some_place;
            few = l.fits_block.few;
            sized = omega (arith, l.two_fragments);
            eight = ap (λ (m : List ℕ). length m) l.mask_built ∙ count;
            bytes = subst Bytes (sym l.mask_built) bytes;
            marked = l.marked some_place;
          };
          chain = l.no_block;
          distinct = tt;
          only = λ a _. refl;
        };
        blocks_fine = λ a mask allocations e. absurd (cc (e));
      }

  -- A pool just laid out, a block of which has a place, is one that a client can begin with.
  pub laid_out-Reach : Reach (record { pool = pool; heap = λ _. none }) []
  laid_out-Reach =
      begin (record { pool = pool; heap = λ _. none }) laid_out-IsMemory (ap is_set l.callbacks.0)
        (ap is_set l.callbacks.1) l.none_out
