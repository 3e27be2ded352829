-- ===== src/Memory/Pool/Vacate.antt =====
-- What a block holds, and a list whose first block gets another predecessor.
use mathlib.Core.Path.{subst}
use libamqp.Prelude.{
  ℕ, ◌≡◌, inl, inr, refl, sym, ap, ◌∙◌, Option, none, some, List, [], ◌∷◌, arith, ◌==◌, Bool-cases,
  Option-cases, if_true, if_false, ==→eq, update,
}
use libamqp.Memory.Pool.{returns, Block, Allocation, Heap, set_previous, with_previous}
use libamqp.Memory.Pool.Chain.{
  Chain, Absent, Distinct, Chain-agree, agree-update, update_self, update_at, update_other,
}

-- What a block is apart from its pointers.
abbrev pub content : Option Block → Option (List ℕ × List Allocation)
content none = none
content (some b) = some (b.mask, b.allocations)

unfoldable pub places_of : Heap → ℕ → Option (List ℕ × List Allocation)
places_of h c = content (h c)

pub places_of-update :
    (h : Heap) (p c : ℕ) (b b' : Block)
    → h p ≡ some b
    → b'.mask ≡ b.mask
    → b'.allocations ≡ b.allocations
    → places_of (update h p (some b')) c ≡ places_of h c
unfolding places_of
places_of-update h p c b b' at m a = elim (Bool-cases (p == c)) [
  | inl e ↦
      let there : h c ≡ some b = subst (λ p. h p ≡ some b) (==→eq p c e) at in
      let same : content (some b') ≡ content (some b) = ground (arith, m, a) in
      ap content (update_at h p c (some b') (==→eq p c e)) ∙ (same ∙ ap content (sym there))
  | inr e ↦ ap content (if_false _ e)
]

pub set_previous-places_of :
    (h h1 : Heap) (p v c : ℕ) → set_previous h p v ≡ returns h1 → places_of h1 c ≡ places_of h c
unfolding set_previous
set_previous-places_of h h1 p v c runs = elim (Bool-cases (p == 0)) [
  | inl e ↦ ap (λ h. places_of h c) (cc (sym (if_true _ e) ∙ runs))
  | inr n ↦ elim (Option-cases (h p)) [
    | inl gone ↦ absurd (ground (arith, runs, n, gone))
    | inr (b, at) ↦
        let e : h1 ≡ update h p (some (with_previous b v)) = ground (arith, runs, n, at) in
        rw e (places_of-update h p c b (with_previous b v) at refl refl)
  ]
]

-- The successor of a block that goes gets another predecessor.
pub set_previous-Chain :
    (h : Heap) (a p v : ℕ) (bs : List ℕ)
    → Chain h a p bs
    → Distinct bs
    → (h1 : Heap) × (set_previous h p v ≡ returns h1)
      × Chain h1 v p bs
      × ((c : ℕ) → Absent c bs → h1 c ≡ h c)
      × ((c : ℕ) → places_of h1 c ≡ places_of h c)
unfolding set_previous
set_previous-Chain h a p v [] c d = (h, rw c refl, c, λ _ _. refl, λ _. refl)
set_previous-Chain h a p v (x ∷ bs) (e, pos, (b, at, back, rest)) d =
    let at' : h p ≡ some b = subst (λ p. h p ≡ some b) (sym e) at in
    let h1 = update h p (some (with_previous b v)) in
    (
      h1,
      ground (arith, e, pos, at'),
      (
        e,
        pos,
        (
          with_previous b v,
          subst (λ x. h1 x ≡ some (with_previous b v)) e
              (update_self h p (some (with_previous b v))),
          refl,
          Chain-agree h h1 x b.next bs
              (agree-update h p (some (with_previous b v)) bs
                (subst (λ p. Absent p bs) (sym e) d.0))
              rest,
        ),
      ),
      λ c n. update_other h p c (some (with_previous b v)) (λ q. n.0 (sym (q ∙ e))),
      λ c. places_of-update h p c b (with_previous b v) at' refl refl,
    )
