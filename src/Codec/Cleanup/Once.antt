-- ===== src/Codec/Cleanup/Once.antt =====
-- A tree of objects is given back once, and with it nothing else.
use libamqp.Prelude.{
  ℕ, suc, zero, ◌+◌, ◌≤◌, ◌<◌, ◌≡◌, ◌⊎◌, inl, inr, refl, sym, ◌∙◌, ap, Bool, true, false, ◌&&◌,
  ◌==◌, Option, some, List, [], ◌∷◌, if◌then◌else◌, if_true, if_false, arith,
}
use mathlib.Core.Path.{subst}
use libamqp.Codec.State.{AmqpType, type_is_container}
use libamqp.Codec.Cleanup.{
  Freed, array, object, then_frees, owns_constructor, deallocate_elements, deallocate_array,
  cleanup_type, deallocate_type,
}
use libamqp.Codec.Cleanup.Frees.{Frees, Frees-weaken, Frees-none, Frees-one, Frees-then}
use libamqp.Codec.Cleanup.Tree.{
  held, Subtree, subtree, Owned, not_owned, owned, Elements, none_left, null, element,
}

abbrev address : Freed → ℕ
address (array p) = p
address (object p) = p

abbrev pub Within : ℕ → ℕ → Freed → Type 0
Within a b x = (a ≤ address x) × (address x < b)

-- What a deallocation on `fuel` does to a tree.
abbrev Spec : (ℕ → AmqpType) → ℕ → Type 0
Spec types fuel =
    (p e : ℕ) → Subtree types p e → e < p + fuel → Frees (Within p e) (deallocate_type types fuel p)

widen :
    {a b c d : ℕ} {step : Option (List Freed)}
    → c ≤ a
    → b ≤ d
    → Frees (Within a b) step
    → Frees (Within c d) step
widen lo hi s = Frees-weaken (λ x w. (omega (arith, lo, w.0), omega (arith, hi, w.1))) s

-- One part behind another.
join :
    {a m b : ℕ} {first second : Option (List Freed)}
    → a ≤ m
    → m ≤ b
    → Frees (Within a m) first
    → Frees (Within m b) second
    → Frees (Within a b) (then_frees first second)
join {a} {m} {b} lo hi f s =
    Frees-weaken {Q = Within a b}
      (λ x w. elim w [
        | inl l ↦ (l.0, omega (arith, l.1, hi))
        | inr r ↦ (omega (arith, r.0, lo), r.1)
      ])
      (Frees-then (λ x l r. omega (arith, l.1, r.0)) f s)

deallocate_null :
    (types : ℕ → AmqpType) (fuel : ℕ) → 0 < fuel → deallocate_type types fuel 0 ≡ some []
unfolding deallocate_type
deallocate_null types zero pos = absurd (omega (arith, pos))
deallocate_null types (suc fuel) pos = refl

Elements-once :
    (types : ℕ → AmqpType) (fuel : ℕ) (elements : ℕ → ℕ) (rounds i a b : ℕ)
    → Spec types fuel
    → Elements types elements rounds i a b
    → a ≤ b
    → b < a + fuel
    → Frees (Within a b) (deallocate_elements (deallocate_type types fuel) elements rounds i)
unfolding deallocate_elements
Elements-once types fuel elements _ i a b spec (none_left _ _ _ _) le enough = Frees-none
Elements-once types fuel elements _ i a b spec (null _ rounds _ _ _ z rest) le enough =
    let first : deallocate_type types fuel (elements i) ≡ some [] =
      ap (deallocate_type types fuel) z ∙ deallocate_null types fuel (omega (arith, le, enough)) in
    let others = Elements-once types fuel elements rounds (i + 1) a b spec rest le enough in
    join (omega arith) le (subst (λ o. Frees (Within a a) o) (sym first) Frees-none) others
Elements-once types fuel elements _ i a b spec (element _ rounds _ _ m _ lo lt hi tree rest) le
      enough =
    widen lo (omega arith) (
      join (omega (arith, lt)) hi (spec (elements i) m tree (omega (arith, enough, lo, hi))) (
        Elements-once types fuel elements rounds (i + 1) m b spec rest hi
          (omega (arith, enough, lo, lt))))

Owned-once :
    (types : ℕ → AmqpType) (fuel : ℕ) (own : Bool) (c a m : ℕ)
    → Spec types fuel
    → Owned types own c a m
    → m < a + fuel
    → Frees (Within a m) (if own then deallocate_type types fuel c else some [])
Owned-once types fuel _ c a m spec (not_owned _ _ _) enough = Frees-none
Owned-once types fuel _ c a m spec (owned _ _ _ lo tree) enough =
    widen lo (omega arith) (spec c m tree (omega (arith, enough, lo)))

if_both :
    (c h : Bool) (P : Freed → Type 0) (step : Option (List Freed))
    → ((c && h) ≡ true → Frees P step)
    → Frees P (if c then (if h then step else some []) else some [])
if_both true true P step f = f refl
if_both true false P step f = Frees-none
if_both false h P step f = Frees-none

array_once :
    (types : ℕ → AmqpType) (fuel : ℕ) (t : AmqpType) (p m e : ℕ)
    → Spec types fuel
    → Elements types t.elements (held t) 0 m e
    → p < m
    → m ≤ e
    → e < m + fuel
    → Frees
        (λ x. Within m e x ⊎ (x ≡ array p))
        (if type_is_container t then deallocate_array (deallocate_type types fuel) t p else some [])
unfolding deallocate_array
array_once types fuel t p m e spec elements after le enough =
    if_both (type_is_container t) t.has_elements (λ x. Within m e x ⊎ (x ≡ array p))
      (then_frees (deallocate_elements (deallocate_type types fuel) t.elements t.word 0)
        (some (array p ∷ [])))
      (λ holds.
        Frees-then {P = Within m e} {Q = λ x. x ≡ array p}
          (λ x w z. omega (arith, w.0, ap address z, after))
          (Elements-once types fuel t.elements t.word 0 m e spec
            (subst (λ n. Elements types t.elements n 0 m e) (if_true 0 holds) elements) le enough)
          (Frees-one (array p)))

-- Where a thing lies that is given back with the object at `p`, before the object itself.
abbrev Inside : ℕ → ℕ → ℕ → Freed → Type 0
Inside p m e x = (Within m e x ⊎ (x ≡ array p)) ⊎ Within (p + 1) m x

Inside-object : (p m e : ℕ) (x : Freed) → p < m → Inside p m e x → x ≡ object p → ⊥
Inside-object p m e x after (inl (inl w)) z = omega (arith, w.0, ap address z, after)
Inside-object p m e x after (inl (inr y)) z = cc (y, z)
Inside-object p m e x after (inr w) z = omega (arith, w.0, ap address z)

Inside-Within :
    (p m e : ℕ) (x : Freed) → p < m → m ≤ e → Inside p m e x ⊎ (x ≡ object p) → Within p e x
Inside-Within p m e x after le (inl (inl (inl w))) = (omega (arith, w.0, after), w.1)
Inside-Within p m e x after le (inl (inl (inr y))) =
    (omega (arith, ap address y), omega (arith, ap address y, after, le))
Inside-Within p m e x after le (inl (inr w)) = (omega (arith, w.0), omega (arith, w.1, le))
Inside-Within p m e x after le (inr z) =
    (omega (arith, ap address z), omega (arith, ap address z, after, le))

tree_step : (types : ℕ → AmqpType) (fuel : ℕ) → Spec types fuel → Spec types (suc fuel)
unfolding deallocate_type cleanup_type
tree_step types fuel spec p e (subtree _ m _ pos after le owns elements) enough =
    let off : (p == 0) ≡ false = ground (arith, pos) in
    let content =
      array_once types fuel (types p) p m e spec elements after le (omega (arith, enough, after)) in
    let constructor =
      Owned-once types fuel (owns_constructor (types p)) (types p).array_constructor (p + 1) m spec
        owns (omega (arith, enough, le)) in
    let cleaned =
      Frees-then {P = λ x. Within m e x ⊎ (x ≡ array p)} {Q = Within (p + 1) m}
        (λ x u v. elim u [
          | inl w ↦ omega (arith, v.1, w.0)
          | inr z ↦ omega (arith, v.0, ap address z)
        ])
        content constructor in
    subst (Frees (Within p e)) (sym (if_false (some []) off)) (
      Frees-weaken (λ x. Inside-Within p m e x after le)
        (Frees-then {P = Inside p m e} {Q = λ x. x ≡ object p} (λ x. Inside-object p m e x after)
          cleaned (Frees-one (object p))))

-- `amqp_deallocate` of an object that holds others as a tree, each of them behind the one that holds
-- it, given a round more than there are addresses from it on: it ends, and gives back only objects of
-- the tree and their arrays, and none of them twice.
pub deallocate_tree :
    (types : ℕ → AmqpType) (fuel p e : ℕ)
    → Subtree types p e
    → e < p + fuel
    → Frees (Within p e) (deallocate_type types fuel p)
unfolding deallocate_type
deallocate_tree types zero p e (subtree _ m _ pos after le owns elements) enough =
    absurd (omega (arith, enough, after, le))
deallocate_tree types (suc fuel) p e tree enough =
    tree_step types fuel (λ q. deallocate_tree types fuel q) p e tree enough
