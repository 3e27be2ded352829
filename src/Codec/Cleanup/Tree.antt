-- ===== src/Codec/Cleanup/Tree.antt =====
-- Objects that hold one another as a tree, each behind the one that holds it, as the decoder makes them.
use libamqp.Prelude.{ℕ, suc, zero, ◌+◌, ◌≤◌, ◌<◌, ◌≡◌, Bool, true, false, ◌&&◌, if◌then◌else◌}
use libamqp.Codec.State.{AmqpType, type_is_container}
use libamqp.Codec.Cleanup.{owns_constructor}

-- How many elements are given back with an object.
abbrev pub held : AmqpType → ℕ
held t = if type_is_container t && t.has_elements then t.word else 0

mutual
  -- What the object at `p` holds lies behind it and in front of `e`.
  pub data Subtree (types : ℕ → AmqpType) : ℕ → ℕ → Type 0 where
    subtree :
        (p m e : ℕ)
        → 0 < p
        → p < m
        → m ≤ e
        → Owned types (owns_constructor (types p)) (types p).array_constructor (p + 1) m
        → Elements types (types p).elements (held (types p)) 0 m e
        → Subtree types p e

  -- A constructor at `c`, if it is the array's own, from `a` on and in front of `b`.
  pub data Owned (types : ℕ → AmqpType) : Bool → ℕ → ℕ → ℕ → Type 0 where
    not_owned : (c a b : ℕ) → Owned types false c a b
    owned : (c a b : ℕ) → a ≤ c → Subtree types c b → Owned types true c a b

  -- The elements from `i` on, one behind another.
  pub data Elements (types : ℕ → AmqpType) : (ℕ → ℕ) → ℕ → ℕ → ℕ → ℕ → Type 0 where
    none_left : (elements : ℕ → ℕ) (i a b : ℕ) → Elements types elements zero i a b
    null :
        (elements : ℕ → ℕ) (rounds i a b : ℕ)
        → elements i ≡ 0
        → Elements types elements rounds (i + 1) a b
        → Elements types elements (suc rounds) i a b
    element :
        (elements : ℕ → ℕ) (rounds i a m b : ℕ)
        → a ≤ elements i
        → elements i < m
        → m ≤ b
        → Subtree types (elements i) m
        → Elements types elements rounds (i + 1) m b
        → Elements types elements (suc rounds) i a b
