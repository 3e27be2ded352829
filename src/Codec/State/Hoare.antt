-- ===== src/Codec/State/Hoare.antt =====
-- A program logic for the codec's state monad: `Ensures` is total but for `unsupported`, the ends that
-- the source means, `Returns` is total.
use libamqp.Prelude.{
  ℕ, ◌≤◌, ◌<◌, ◌≡◌, ◌≢◌, refl, ◌∙◌, ap, ◌⊎◌, inl, inr, Bool, true, false, if◌then◌else◌, arith,
}
use libamqp.Codec.State.{
  Abort, AmqpType, State, Outcome, returned, aborted, stuck, unsupported, assertion, bad_width,
  fault, M, ◌>>=◌, write_type,
}

abbrev pub Ensures : {A : Type 0} → Outcome A → (A → State → Type 0) → Type 0
Ensures (returned a s) P = P a s
Ensures (aborted unsupported) P = Unit
Ensures (aborted assertion) P = ⊥
Ensures (aborted bad_width) P = ⊥
Ensures (aborted fault) P = ⊥
Ensures stuck P = ⊥

pub Ensures-mono :
    {A : Type 0} (r : Outcome A) (P Q : A → State → Type 0)
    → Ensures r P
    → ((a : A) (t : State) → P a t → Q a t)
    → Ensures r Q
Ensures-mono (returned a s) P Q h k = k a s h
Ensures-mono (aborted unsupported) P Q h k = tt
Ensures-mono (aborted assertion) P Q h k = h
Ensures-mono (aborted bad_width) P Q h k = h
Ensures-mono (aborted fault) P Q h k = h
Ensures-mono stuck P Q h k = h

pub Ensures-bind :
    {A B : Type 0} (m : M A) (f : A → M B) (s : State) (P : A → State → Type 0)
    (Q : B → State → Type 0)
    → Ensures (m s) P
    → ((a : A) (t : State) → P a t → Ensures (f a t) Q)
    → Ensures ((m >>= f) s) Q
Ensures-bind {A} {B} m f s P Q = go (m s)
  where
    go :
        (r : Outcome A)
        → Ensures r P
        → ((a : A) (t : State) → P a t → Ensures (f a t) Q)
        → Ensures (((λ _. r) >>= f) s) Q
    go (returned a t) h k = k a t h
    go (aborted unsupported) h k = tt
    go (aborted assertion) h k = h
    go (aborted bad_width) h k = h
    go (aborted fault) h k = h
    go stuck h k = h

-- An outcome that is a result, and one with the property.
abbrev pub Returns : {A : Type 0} → Outcome A → (A → State → Type 0) → Type 0
Returns (returned a s) P = P a s
Returns (aborted why) P = ⊥
Returns stuck P = ⊥

pub Returns-mono :
    {A : Type 0} (r : Outcome A) (P Q : A → State → Type 0)
    → Returns r P
    → ((a : A) (t : State) → P a t → Q a t)
    → Returns r Q
Returns-mono (returned a s) P Q h k = k a s h
Returns-mono (aborted why) P Q h k = h
Returns-mono stuck P Q h k = h

pub Returns-bind :
    {A B : Type 0} (m : M A) (f : A → M B) (s : State) (P : A → State → Type 0)
    (Q : B → State → Type 0)
    → Returns (m s) P
    → ((a : A) (t : State) → P a t → Returns (f a t) Q)
    → Returns ((m >>= f) s) Q
Returns-bind {A} {B} m f s P Q = continued (m s)
  where
    continued :
        (r : Outcome A)
        → Returns r P
        → ((a : A) (t : State) → P a t → Returns (f a t) Q)
        → Returns (((λ _. r) >>= f) s) Q
    continued (returned a t) h k = k a t h
    continued (aborted why) h k = h
    continued stuck h k = h

pub Returns-if :
    {A : Type 0} (b : Bool) (x y : M A) (s : State) (P : A → State → Type 0)
    → (b ≡ true → Returns (x s) P)
    → (b ≡ false → Returns (y s) P)
    → Returns ((if b then x else y) s) P
Returns-if true x y s P h k = h refl
Returns-if false x y s P h k = k refl

-- What a decoder that works on the object at `p` may do to the state: it reads on, within the buffer,
-- allocates, and writes no older object but that one.
pub record Extends (p : ℕ) (s t : State) : Type 0 where
  pub same_size : t.buffer.size ≡ s.buffer.size
  pub same_bytes : t.buffer.fragments ≡ s.buffer.fragments
  pub reads_on : s.buffer.index ≤ t.buffer.index
  pub in_bounds : t.buffer.index ≤ t.buffer.size
  pub allocates : s.next_type ≤ t.next_type
  pub same_container : t.container ≡ s.container
  pub others : (q : ℕ) → q < s.next_type → q ≢ p → t.types q ≡ s.types q

-- A branch is split, and each side has the test's value.
pub Ensures-if :
    {A : Type 0} (b : Bool) (x y : M A) (s : State) (P : A → State → Type 0)
    → (b ≡ true → Ensures (x s) P)
    → (b ≡ false → Ensures (y s) P)
    → Ensures ((if b then x else y) s) P
Ensures-if true x y s P h k = h refl
Ensures-if false x y s P h k = k refl

-- A later step may write the same object, or one that is new since `s`.
pub Extends-trans :
    {p q : ℕ} {s t u : State}
    → Extends p s t
    → Extends q t u
    → (q ≡ p) ⊎ (s.next_type ≤ q)
    → Extends p s u
Extends-trans {p} {q} {s} a b c = record {
  same_size = b.same_size ∙ a.same_size;
  same_bytes = b.same_bytes ∙ a.same_bytes;
  reads_on = omega (arith, a.reads_on, b.reads_on);
  in_bounds = b.in_bounds;
  allocates = omega (arith, a.allocates, b.allocates);
  same_container = b.same_container ∙ a.same_container;
  others =
      λ o h n. b.others o (omega (arith, a.allocates)) (λ e. n (later o h e c)) ∙ a.others o h n;
}
  where
    later : (o : ℕ) → o < s.next_type → o ≡ q → (q ≡ p) ⊎ (s.next_type ≤ q) → o ≡ p
    later o h e (inl d) = e ∙ d
    later o h e (inr d) = absurd (omega arith)

pub Extends-refl : (p : ℕ) (s : State) → s.buffer.index ≤ s.buffer.size → Extends p s s
Extends-refl p s h = record {
  same_size = refl;
  same_bytes = refl;
  reads_on = omega arith;
  in_bounds = h;
  allocates = omega arith;
  same_container = refl;
  others = λ q _ _. refl;
}

pub Extends-write :
    (p : ℕ) (s : State) (x : AmqpType)
    → s.buffer.index ≤ s.buffer.size
    → Extends p s (write_type s p x)
Extends-write p s x h = record {
  same_size = refl;
  same_bytes = refl;
  reads_on = omega arith;
  in_bounds = h;
  allocates = omega arith;
  same_container = refl;
  others = λ q _ n. ground arith;
}

pub Extends-read :
    (p : ℕ) (s : State) (i : ℕ)
    → s.buffer.index ≤ i
    → i ≤ s.buffer.size
    → Extends p s (record s { buffer = record s.buffer { index = i } })
Extends-read p s i h k = record {
  same_size = refl;
  same_bytes = refl;
  reads_on = h;
  in_bounds = k;
  allocates = omega arith;
  same_container = refl;
  others = λ q _ _. refl;
}

-- Two steps on the same object, each within what a decoder may do.
pub keep_bind :
    {A B : Type 0} (m : M A) (f : A → M B) (p : ℕ) (s : State) (P : A → State → Type 0)
    (Q : B → State → Type 0)
    → Ensures (m s) (λ a t. Extends p s t × P a t)
    → ((a : A) (t : State) → Extends p s t → P a t → Ensures (f a t) (λ b u. Extends p t u × Q b u))
    → Ensures ((m >>= f) s) (λ b u. Extends p s u × Q b u)
keep_bind m f p s P Q h k =
    Ensures-bind m f s (λ a t. Extends p s t × P a t) (λ b u. Extends p s u × Q b u) h
      (λ a t e.
        Ensures-mono (f a t) (λ b u. Extends p t u × Q b u) (λ b u. Extends p s u × Q b u)
          (k a t e.0 e.1) (λ b u g. (Extends-trans e.0 g.0 (inl refl), g.1)))

-- A step whose result is known.
pub bind_returned :
    {A B : Type 0} (m : M A) (f : A → M B) (s : State) (a : A) (t : State)
    → m s ≡ returned a t
    → (m >>= f) s ≡ f a t
bind_returned m f s a t e =
    ap (λ r. elim r [ returned b u ↦ f b u | aborted why ↦ aborted why | stuck ↦ stuck ]) e

-- The branch that is taken.
pub branch_true :
    {A : Type 0} (b : Bool) (m k : M A) (s : State) → b ≡ true → (if b then m else k) s ≡ m s
branch_true b m k s e = ap (λ c. (if c then m else k) s) e

pub branch_false :
    {A : Type 0} (b : Bool) (m k : M A) (s : State) → b ≡ false → (if b then m else k) s ≡ k s
branch_false b m k s e = ap (λ c. (if c then m else k) s) e

pub same_branch :
    {A : Type 0} (b : Bool) (m n k : M A) (s : State)
    → m s ≡ n s
    → (if b then m else k) s ≡ (if b then n else k) s
same_branch true m n k s e = e
same_branch false m n k s e = refl

pub bind_aborted :
    {A B : Type 0} (m : M A) (k : A → M B) (s : State) (why : Abort)
    → m s ≡ aborted why
    → (m >>= k) s ≡ aborted why
bind_aborted m k s why e =
    ap (λ r. elim r [ returned a t ↦ k a t | aborted why ↦ aborted why | stuck ↦ stuck ]) e
