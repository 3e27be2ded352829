-- ===== src/Codec/Cleanup/Frees.antt =====
-- What a step gives back: where it lies, and that nothing is given back twice.
use libamqp.Prelude.{◌≡◌, ◌≢◌, ◌⊎◌, inl, inr, refl, sym, Option, some, List, [], ◌∷◌, ◌++◌, All}
use mathlib.Core.Path.{subst, ap₂}
use libamqp.Codec.Cleanup.{Freed, then_frees}

abbrev pub Distinct : List Freed → Type 0
Distinct [] = Unit {0}
Distinct (x ∷ xs) = All (λ y. y ≢ x) xs × Distinct xs

-- A step ends, and gives back things of one kind, none of them twice.
pub record Frees (P : Freed → Type 0) (step : Option (List Freed)) : Type 0 where
  pub freed : List Freed
  pub ends : step ≡ some freed
  pub all_so : All P freed
  pub once : Distinct freed

All-weaken :
    {P Q : Freed → Type 0} (xs : List Freed) → ((x : Freed) → P x → Q x) → All P xs → All Q xs
All-weaken [] f h = tt
All-weaken (x ∷ xs) f h = (f x h.0, All-weaken xs f h.1)

All-append : (P : Freed → Type 0) (xs ys : List Freed) → All P xs → All P ys → All P (xs ++ ys)
All-append P [] ys h k = k
All-append P (x ∷ xs) ys h k = (h.0, All-append P xs ys h.1 k)

Distinct-append :
    {P Q : Freed → Type 0} (xs ys : List Freed)
    → ((x : Freed) → P x → Q x → ⊥)
    → All P xs
    → All Q ys
    → Distinct xs
    → Distinct ys
    → Distinct (xs ++ ys)
Distinct-append [] ys apart h k d e = e
Distinct-append {P} {Q} (x ∷ xs) ys apart h k d e = (
  All-append _ xs ys d.0 (All-weaken ys (λ y q z. apart y (subst P (sym z) h.0) q) k),
  Distinct-append xs ys apart h.1 k d.1 e,
)

pub Frees-weaken :
    {P Q : Freed → Type 0} {step : Option (List Freed)}
    → ((x : Freed) → P x → Q x)
    → Frees P step
    → Frees Q step
Frees-weaken f s = record {
  freed = s.freed;
  ends = s.ends;
  all_so = All-weaken s.freed f s.all_so;
  once = s.once;
}

pub Frees-none : {P : Freed → Type 0} → Frees P (some [])
Frees-none = record { freed = []; ends = refl; all_so = tt; once = tt }

pub Frees-one : (x : Freed) → Frees (λ y. y ≡ x) (some (x ∷ []))
Frees-one x = record { freed = x ∷ []; ends = refl; all_so = (refl, tt); once = (tt, tt) }

-- One step after another that gives back other things.
pub Frees-then :
    {P Q : Freed → Type 0} {first second : Option (List Freed)}
    → ((x : Freed) → P x → Q x → ⊥)
    → Frees P first
    → Frees Q second
    → Frees (λ x. P x ⊎ Q x) (then_frees first second)
Frees-then {P} {Q} apart a b = record {
  freed = a.freed ++ b.freed;
  ends = ap₂ then_frees a.ends b.ends;
  all_so =
      All-append _ a.freed b.freed (All-weaken a.freed (λ x p. inl p) a.all_so)
        (All-weaken b.freed (λ x q. inr q) b.all_so);
  once = Distinct-append a.freed b.freed apart a.all_so b.all_so a.once b.once;
}
