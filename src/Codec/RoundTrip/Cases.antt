-- ===== src/Codec/RoundTrip/Cases.antt =====
-- Choices between encodings of a value.
use libamqp.Prelude.{
  ℕ, ◌+◌, ◌%◌, ◌^◌, ◌≤◌, ◌<◌, ◌≡◌, refl, Bool, true, false, List, [], ◌∷◌, if◌then◌else◌, arith,
  length,
}
use mathlib.Core.Path.{subst}
use libamqp.Buffer.Bytes.{Holds, append_bytes}
use libamqp.Codec.MetaData.{MetaData}
use libamqp.Codec.State.{State, M}
use libamqp.Codec.State.Hoare.{Returns}
use libamqp.Codec.Decode.Run.{amqp_decode}
use libamqp.Codec.Encode.Fixed.{encode_fixed_one_byte}
use libamqp.Codec.RoundTrip.Writing.{Wrote, IsScalar, HasRoom, then_put-Wrote}
use libamqp.Codec.RoundTrip.Scalar.{Got}

-- What the decoder makes of the bytes, where they are held.
abbrev pub Decodes : List ℕ → (ℕ → Type 0) → State → Type 0
Decodes bytes V s =
    s.buffer.index + length bytes ≤ s.buffer.size
    → Holds s.buffer s.buffer.index bytes
    → Returns (amqp_decode s) (Got s (length bytes) V)

-- What holds of both sides of a branch.
pub if_cases :
    {A : Type 0} (b : Bool) {x y : A} (P : A → Type 0)
    → (b ≡ true → P x)
    → (b ≡ false → P y)
    → P (if b then x else y)
if_cases true P h k = h refl
if_cases false P h k = k refl

-- A number that is kept in a byte.
pub byte_value :
    (v : ℕ) (s : State) (code : ℕ) (m : M ℕ)
    → v < 2 ^ 8
    → Returns (m s) (Wrote s (code ∷ v % 2 ^ 8 ∷ []))
    → Returns (m s) (Wrote s (code ∷ v ∷ []))
byte_value v s code m h e = subst (λ x. Returns (m s) (Wrote s (code ∷ x ∷ []))) (omega arith) e

pub one_byte-Wrote :
    (meta : MetaData) (b : ℕ) (s : State)
    → s.container ≡ 0
    → 0 < s.next_type
    → IsScalar meta
    → HasRoom s (meta.width + 1)
    → Returns (encode_fixed_one_byte meta b s) (Wrote s (meta.format_code ∷ b ∷ []))
unfolding encode_fixed_one_byte append_bytes
one_byte-Wrote meta b s c z k h = then_put-Wrote meta _ (b ∷ []) s c z k h (λ x. refl)

-- A branch of the code against a branch of its description.
pub two_cases :
    {A B : Type 0} (b : Bool) {x y : A} {u v : B} (P : A → B → Type 0)
    → P x u
    → P y v
    → P (if b then x else y) (if b then u else v)
two_cases true P h k = h
two_cases false P h k = k

-- A choice between three encodings, each with its bytes.
pub choose-Wrote :
    (b c : Bool) (m0 m1 m2 : M ℕ) (l0 l1 l2 : List ℕ) (s : State)
    → (b ≡ true → Returns (m0 s) (Wrote s l0))
    → (b ≡ false → c ≡ true → Returns (m1 s) (Wrote s l1))
    → (b ≡ false → c ≡ false → Returns (m2 s) (Wrote s l2))
    → Returns
        ((if b then m0 else if c then m1 else m2) s)
        (Wrote s (if b then l0 else if c then l1 else l2))
choose-Wrote true c m0 m1 m2 l0 l1 l2 s h0 h1 h2 = h0 refl
choose-Wrote false true m0 m1 m2 l0 l1 l2 s h0 h1 h2 = h1 refl refl
choose-Wrote false false m0 m1 m2 l0 l1 l2 s h0 h1 h2 = h2 refl refl
