-- ===== src/Buffer/Bytes.antt =====
-- Runs of bytes in a buffer, the vocabulary in which the encoder and the decoder are specified.
use libamqp.Prelude.{
  ℕ, ◌+◌, ◌%◌, ◌^◌, ◌≤◌, ◌<◌, ◌≡◌, refl, List, [], ◌∷◌, ◌++◌, leb, length, All, arith, ◌∙◌, lt→ltb,
  Bool-cases, inl, inr, ◌⊎◌,
}
use mathlib.Core.Path.{subst}
use libamqp.Buffer.{Buffer, unchecked_getc_at, unchecked_putc, put_each, putc, puts}

-- The bytes from `i` on are `cs`.
abbrev pub Holds : Buffer → ℕ → List ℕ → Type 0
Holds b i [] = Unit
Holds b i (c ∷ cs) = (unchecked_getc_at b i ≡ c) × Holds b (i + 1) cs

abbrev pub IsByte : ℕ → Type 0
IsByte c = c < 2 ^ 8

-- What a write leaves behind: the bytes before it, the read point, the capacity.
pub record Appends (b : Buffer) (n : ℕ) (b' : Buffer) : Type 0 where
  pub grows : b'.size ≡ b.size + n
  pub same_index : b'.index ≡ b.index
  pub same_capacity : b'.capacity ≡ b.capacity
  pub before : (j : ℕ) → j < b.size → unchecked_getc_at b' j ≡ unchecked_getc_at b j

unfoldable pub append_bytes : Buffer → List ℕ → Buffer
append_bytes b [] = b
append_bytes b (c ∷ cs) = append_bytes (unchecked_putc b c) cs

pub Appends-trans : {b c d : Buffer} {m n : ℕ} → Appends b m c → Appends c n d → Appends b (m + n) d
Appends-trans p q = record {
  grows = omega (arith, p.grows, q.grows);
  same_index = q.same_index ∙ p.same_index;
  same_capacity = q.same_capacity ∙ p.same_capacity;
  before = λ j h. q.before j (omega (arith, p.grows)) ∙ p.before j h;
}

pub unchecked_putc-Appends :
    (b : Buffer) (c : ℕ)
    → Appends b 1 (unchecked_putc b c) × (unchecked_getc_at (unchecked_putc b c) b.size ≡ c % 2 ^ 8)
unfolding unchecked_putc unchecked_getc_at
unchecked_putc-Appends b c = (
  record { grows = refl; same_index = refl; same_capacity = refl; before = λ j h. ground arith },
  ground arith,
)

pub append_bytes-Appends : (cs : List ℕ) (b : Buffer) → Appends b (length cs) (append_bytes b cs)
unfolding append_bytes
append_bytes-Appends [] b = record {
  grows = omega arith;
  same_index = refl;
  same_capacity = refl;
  before = λ j h. refl;
}
append_bytes-Appends (c ∷ cs) b =
    let r =
      Appends-trans (unchecked_putc-Appends b c).0 (append_bytes-Appends cs (unchecked_putc b c)) in
    record {
      grows = omega (arith, r.grows);
      same_index = r.same_index;
      same_capacity = r.same_capacity;
      before = r.before;
    }

-- Bytes that are appended are held from the old write point on.
pub append_bytes-Holds :
    (cs : List ℕ) (b : Buffer) → All IsByte cs → Holds (append_bytes b cs) b.size cs
unfolding append_bytes
append_bytes-Holds [] b h = tt
append_bytes-Holds (c ∷ cs) b (hc, hs) =
    let p = unchecked_putc-Appends b c in
    (
      (append_bytes-Appends cs (unchecked_putc b c)).before b.size (omega (arith, p.0.grows))
          ∙ p.1
          ∙ omega arith,
      subst (λ k. Holds (append_bytes (unchecked_putc b c) cs) k cs) p.0.grows
          (append_bytes-Holds cs (unchecked_putc b c) hs),
    )

pub append_bytes-++ :
    (cs ds : List ℕ) (b : Buffer) → append_bytes b (cs ++ ds) ≡ append_bytes (append_bytes b cs) ds
unfolding append_bytes
append_bytes-++ [] ds b = refl
append_bytes-++ (c ∷ cs) ds b = append_bytes-++ cs ds (unchecked_putc b c)

-- The checked write of a run is the unchecked one where the run fits.
pub put_each-fits :
    (cs : List ℕ) (b : Buffer) → b.size + length cs ≤ b.capacity → put_each b cs ≡ append_bytes b cs
unfolding put_each append_bytes putc
put_each-fits [] b h = refl
put_each-fits (c ∷ cs) b h =
    let a = (unchecked_putc-Appends b c).0 in
    rw (lt→ltb b.size b.capacity (omega arith))
      (put_each-fits cs (unchecked_putc b c) (omega (arith, a.grows, a.same_capacity)))

-- A run that is held stays held under an append behind it.
pub Holds-Appends :
    {b b' : Buffer} {n : ℕ} (i : ℕ) (cs : List ℕ)
    → Appends b n b'
    → i + length cs ≤ b.size
    → Holds b i cs
    → Holds b' i cs
Holds-Appends i [] a h hs = tt
Holds-Appends i (c ∷ cs) a h (e, hs) =
    (a.before i (omega arith) ∙ e, Holds-Appends (i + 1) cs a (omega arith) hs)

-- `amqp_buffer_puts` on both branches: it writes nothing where the run would reach the capacity, and
-- otherwise appends the whole run, which is then held from the old write point on.
pub puts_lem :
    (b : Buffer) (cs : List ℕ)
    → All IsByte cs
    → let (n, b') = puts b cs in
      ((b.capacity ≤ b.size + length cs) × (n ≡ 0) × (b' ≡ b))
      ⊎ ((b.size + length cs < b.capacity) × (n ≡ length cs) × Appends b n b' × Holds b' b.size cs)
unfolding puts
puts_lem b cs h = elim (Bool-cases (leb b.capacity (b.size + length cs))) [
  | inl q ↦ rw q (inl (ground arith, refl, refl))
  | inr q ↦
      rw (q, put_each-fits cs b (ground arith))
        (inr (ground arith, refl, append_bytes-Appends cs b, append_bytes-Holds cs b h))
]
