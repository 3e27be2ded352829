-- ===== src/Memory/Pool/Chain.antt =====
-- The blocks of a pool as a list that is linked both ways, Memory/Pool.c.
use mathlib.Core.Path.{subst}
use libamqp.Prelude.{
  ℕ, ◌<◌, ◌≡◌, ◌≢◌, inl, inr, refl, sym, ap, ◌∙◌, Option, some, List, [], ◌∷◌, arith, ◌==◌,
  Bool-cases, if_true, if_false, ==→eq, update, All,
}
use libamqp.Memory.Pool.{returns, Block, Heap, set_previous, with_previous}

-- `Chain h q p bs`: the pointers lead from `p` through the blocks at `bs`, the first one's
-- predecessor being `q`.
abbrev pub Chain : Heap → ℕ → ℕ → List ℕ → Type 0
Chain h q p [] = p ≡ 0
Chain h q p (a ∷ bs) =
    (p ≡ a) × (0 < a) × ((b : Block) × (h a ≡ some b) × (b.previous ≡ q) × Chain h a b.next bs)

abbrev pub Absent : ℕ → List ℕ → Type 0
Absent a bs = All (λ c. c ≢ a) bs

abbrev pub Distinct : List ℕ → Type 0
Distinct [] = Unit {0}
Distinct (a ∷ bs) = Absent a bs × Distinct bs

-- Only the blocks of the list matter.
pub Chain-agree :
    (h h' : Heap) (q p : ℕ) (bs : List ℕ)
    → All (λ c. h' c ≡ h c) bs
    → Chain h q p bs
    → Chain h' q p bs
Chain-agree h h' q p [] same c = c
Chain-agree h h' q p (a ∷ bs) same (e, pos, (b, at, back, rest)) =
    (e, pos, (b, same.0 ∙ at, back, Chain-agree h h' a b.next bs same.1 rest))

pub update_self : (h : Heap) (p : ℕ) (v : Option Block) → update h p v p ≡ v
update_self h p v = ground arith

pub update_at : (h : Heap) (p c : ℕ) (v : Option Block) → p ≡ c → update h p v c ≡ v
update_at h p c v e = ground (arith, e)

pub update_other : (h : Heap) (p c : ℕ) (v : Option Block) → c ≢ p → update h p v c ≡ h c
update_other h p c v n = ground arith

pub agree-update :
    (h : Heap) (p : ℕ) (v : Option Block) (bs : List ℕ)
    → Absent p bs
    → All (λ c. update h p v c ≡ h c) bs
agree-update h p v [] n = tt
agree-update h p v (a ∷ bs) n = (update_other h p a v n.0, agree-update h p v bs n.1)

-- A block with the same pointers does not change the list.
pub Chain-update :
    (h : Heap) (q p : ℕ) (bs : List ℕ) (a : ℕ) (b b' : Block)
    → h a ≡ some b
    → b'.next ≡ b.next
    → b'.previous ≡ b.previous
    → Chain h q p bs
    → Chain (update h a (some b')) q p bs
Chain-update h q p [] a b b' at n v c = c
Chain-update h q p (x ∷ bs) a b b' at n v (e, pos, (bx, atx, back, rest)) =
    elim (Bool-cases (a == x)) [
      | inl same ↦
          let here : a ≡ x = ==→eq a x same in
          let old : b ≡ bx = cc (at, atx, here) in
          (
            e,
            pos,
            (
              b',
              if_true _ same,
              v ∙ (ap (λ (b : Block). b.previous) old ∙ back),
              subst (λ p. Chain (update h a (some b')) x p bs)
                  (sym (n ∙ ap (λ (b : Block). b.next) old))
                  (Chain-update h x bx.next bs a b b' at n v rest),
            ),
          )
      | inr other ↦ (
        e,
        pos,
        (bx, if_false _ other ∙ atx, back, Chain-update h x bx.next bs a b b' at n v rest),
      )
    ]

-- A block in front of the list.
pub Chain-push :
    (h : Heap) (p a : ℕ) (bs : List ℕ) (b : Block)
    → 0 < a
    → Absent a bs
    → Distinct bs
    → b.next ≡ p
    → b.previous ≡ 0
    → Chain h 0 p bs
    → (h1 : Heap) × (set_previous h p a ≡ returns h1) × Chain (update h1 a (some b)) 0 a (a ∷ bs)
unfolding set_previous
Chain-push h p a [] b pos fresh distinct n v c =
    (h, rw c refl, (refl, pos, (b, update_self h a (some b), v, n ∙ c)))
Chain-push h p a (x ∷ bs) b pos fresh distinct n v (e, posx, (bx, atx, back, rest)) =
    let h1 = update h p (some (with_previous bx a)) in
    let tail =
      Chain-agree h1 (update h1 a (some b)) x bx.next bs (agree-update h1 a (some b) bs fresh.1) (
        Chain-agree h h1 x bx.next bs
          (agree-update h p (some (with_previous bx a)) bs
            (subst (λ p. Absent p bs) (sym e) distinct.0))
          rest) in
    (
      h1,
      ground (arith, e, posx, atx),
      (
        refl,
        pos,
        (
          b,
          update_self h1 a (some b),
          v,
          (
            n ∙ e,
            posx,
            (
              with_previous bx a,
              update_other h1 a x (some b) fresh.0 ∙ update_at h p x (some (with_previous bx a)) e,
              refl,
              tail,
            ),
          ),
        ),
      ),
    )
