-- ===== src/Codec/Cleanup/Whole.antt =====
-- All that an object holds is given back with it.
use libamqp.Prelude.{
  ℕ, suc, zero, ◌+◌, ◌<◌, ◌≡◌, refl, sym, Bool, true, false, ◌&&◌, ◌==◌, Option, none, some, List,
  [], ◌∷◌, ◌++◌, All, if◌then◌else◌, if_true, if_false, arith,
}
use mathlib.Core.Path.{subst}
use mathlib.Core.List.{Mem, mem-append_left, mem-append_right, mem-cons_self}
use libamqp.Codec.State.{AmqpType, type_is_container}
use libamqp.Codec.Cleanup.{
  Freed, array, object, then_frees, owns_constructor, deallocate_elements, deallocate_array,
  cleanup_type, deallocate_type,
}
use libamqp.Codec.Cleanup.Frees.{Distinct}
use libamqp.Codec.Cleanup.Tree.{held, Subtree}
use libamqp.Codec.Cleanup.Once.{Within, deallocate_tree}

-- The object at `q` is the one at `p`, or one that it holds or that is held by what it holds.
pub data Below (types : ℕ → AmqpType) : ℕ → ℕ → Type 0 where
  itself : (p : ℕ) → 0 < p → Below types p p
  by_element :
      (p q i : ℕ)
      → 0 < p
      → i < held (types p)
      → Below types ((types p).elements i) q
      → Below types p q
  by_constructor :
      (p q : ℕ)
      → 0 < p
      → owns_constructor (types p) ≡ true
      → Below types (types p).array_constructor q
      → Below types p q

-- A step that ends gives `x` back.
abbrev Gives : Freed → Option (List Freed) → Type 0
Gives x step = (xs : List Freed) → step ≡ some xs → Mem x xs

Gives-first : (x : Freed) (a b : Option (List Freed)) → Gives x a → Gives x (then_frees a b)
Gives-first x none b g zs e = absurd (cc (e))
Gives-first x (some xs) none g zs e = absurd (cc (e))
Gives-first x (some xs) (some ys) g zs e =
    let same : xs ++ ys ≡ zs = cc (e) in subst (Mem x) same (mem-append_left ys (g xs refl))

Gives-second : (x : Freed) (a b : Option (List Freed)) → Gives x b → Gives x (then_frees a b)
Gives-second x none b g zs e = absurd (cc (e))
Gives-second x (some xs) none g zs e = absurd (cc (e))
Gives-second x (some xs) (some ys) g zs e =
    let same : xs ++ ys ≡ zs = cc (e) in subst (Mem x) same (mem-append_right xs (g ys refl))

Gives-one : (x : Freed) → Gives x (some (x ∷ []))
Gives-one x zs e = let same : x ∷ [] ≡ zs = cc (e) in subst (Mem x) same mem-cons_self

Gives-element :
    (d : ℕ → Option (List Freed)) (x : Freed) (elements : ℕ → ℕ) (rounds i j : ℕ)
    → j < rounds
    → Gives x (d (elements (i + j)))
    → Gives x (deallocate_elements d elements rounds i)
unfolding deallocate_elements
Gives-element d x elements zero i j lt g = absurd (omega (arith, lt))
Gives-element d x elements (suc rounds) i zero lt g =
    Gives-first x (d (elements i)) (deallocate_elements d elements rounds (i + 1))
      (subst (λ k. Gives x (d (elements k))) {x = i + 0} {y = i} (omega arith) g)
Gives-element d x elements (suc rounds) i (suc j) lt g =
    Gives-second x (d (elements i)) (deallocate_elements d elements rounds (i + 1)) (
      Gives-element d x elements rounds (i + 1) j (omega (arith, lt))
        (subst (λ k. Gives x (d (elements k))) {x = i + suc j} {y = i + 1 + j} (omega arith) g))

Gives-both :
    (c h : Bool) (n i : ℕ) (x : Freed) (step : Option (List Freed))
    → i < (if c && h then n else 0)
    → (i < n → Gives x step)
    → Gives x (if c then (if h then step else some []) else some [])
Gives-both true true n i x step lt g = g lt
Gives-both true false n i x step lt g = absurd (omega (arith, lt))
Gives-both false h n i x step lt g = absurd (omega (arith, lt))

Gives-array :
    (d : ℕ → Option (List Freed)) (x : Freed) (t : AmqpType) (p i : ℕ)
    → i < held t
    → Gives x (d (t.elements i))
    → Gives x (if type_is_container t then deallocate_array d t p else some [])
unfolding deallocate_array
Gives-array d x t p i lt g =
    let elements = deallocate_elements d t.elements t.word 0 in
    Gives-both (type_is_container t) t.has_elements t.word i x
      (then_frees elements (some (array p ∷ []))) lt
      (λ few. Gives-first x elements (some (array p ∷ [])) (
        Gives-element d x t.elements t.word 0 i few
          (subst (λ k. Gives x (d (t.elements k))) {x = i} {y = 0 + i} (omega arith) g)))

cleanup-element :
    (d : ℕ → Option (List Freed)) (x : Freed) (t : AmqpType) (p i : ℕ)
    → i < held t
    → Gives x (d (t.elements i))
    → Gives x (cleanup_type d t p)
unfolding cleanup_type
cleanup-element d x t p i lt g = Gives-first x _ _ (Gives-array d x t p i lt g)

cleanup-constructor :
    (d : ℕ → Option (List Freed)) (x : Freed) (t : AmqpType) (p : ℕ)
    → owns_constructor t ≡ true
    → Gives x (d t.array_constructor)
    → Gives x (cleanup_type d t p)
unfolding cleanup_type
cleanup-constructor d x t p own g =
    Gives-second x _ _ (subst (Gives x) (sym (if_true (some []) own)) g)

deallocate-object :
    (types : ℕ → AmqpType) (fuel p : ℕ) → 0 < p → Gives (object p) (deallocate_type types fuel p)
unfolding deallocate_type
deallocate-object types zero p pos = λ zs e. absurd (cc (e))
deallocate-object types (suc fuel) p pos =
    let off : (p == 0) ≡ false = ground (arith, pos) in
    subst (Gives (object p)) (sym (if_false (some []) off))
      (Gives-second (object p) _ _ (Gives-one (object p)))

-- What cleaning up gives back is given back with the object.
deallocate-cleanup :
    (types : ℕ → AmqpType) (fuel p : ℕ) (x : Freed)
    → 0 < p
    → Gives x (cleanup_type (deallocate_type types fuel) (types p) p)
    → Gives x (deallocate_type types (suc fuel) p)
unfolding deallocate_type
deallocate-cleanup types fuel p x pos g =
    let off : (p == 0) ≡ false = ground (arith, pos) in
    subst (Gives x) (sym (if_false (some []) off)) (Gives-first x _ (some (object p ∷ [])) g)

deallocate-Below :
    (types : ℕ → AmqpType) (fuel p q : ℕ)
    → Below types p q
    → Gives (object q) (deallocate_type types fuel p)
unfolding deallocate_type
deallocate-Below types zero p q below = λ xs e. absurd (cc (e))
deallocate-Below types (suc fuel) p q (itself _ pos) = deallocate-object types (suc fuel) p pos
deallocate-Below types (suc fuel) p q (by_element _ _ i pos lt below) =
    deallocate-cleanup types fuel p (object q) pos (
      cleanup-element (deallocate_type types fuel) (object q) (types p) p i lt
        (deallocate-Below types fuel ((types p).elements i) q below))
deallocate-Below types (suc fuel) p q (by_constructor _ _ pos own below) =
    deallocate-cleanup types fuel p (object q) pos (
      cleanup-constructor (deallocate_type types fuel) (object q) (types p) p own
        (deallocate-Below types fuel (types p).array_constructor q below))

-- `amqp_deallocate` of an object that holds others as a tree, each of them behind the one that holds
-- it and all in front of `e`, given a round more than there are addresses from the object to `e`: it
-- ends; what it gives back are objects in between and their arrays, none of them twice; and the object
-- and all that it holds, directly or not, are among them.
pub deallocate_type_lem :
    (types : ℕ → AmqpType) (fuel p e : ℕ)
    → Subtree types p e
    → e < p + fuel
    → (freed : List Freed) × ((deallocate_type types fuel p ≡ some freed)
        × (All (Within p e) freed
            × (Distinct freed × ((q : ℕ) → Below types p q → Mem (object q) freed))))
deallocate_type_lem types fuel p e tree enough =
    let frees = deallocate_tree types fuel p e tree enough in
    (
      frees.freed,
      (
        frees.ends,
        (
          frees.all_so,
          (frees.once, λ q below. deallocate-Below types fuel p q below frees.freed frees.ends),
        ),
      ),
    )
