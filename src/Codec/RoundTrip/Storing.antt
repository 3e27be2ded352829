-- ===== src/Codec/RoundTrip/Storing.antt =====
-- What the decoders of fixed width store in the object, where the bytes are there.
use libamqp.Prelude.{
  ℕ, ◌+◌, ◌≤◌, ◌<◌, ◌≡◌, ◌⊎◌, inl, inr, refl, sym, ap, ◌∙◌, Bool, true, false, arith, leb, ◌==◌,
  if◌then◌else◌, update,
}
use mathlib.Core.Path.{subst}
use libamqp.Buffer.{Buffer, check_available, advance_read_index, unchecked_getc_at}
use libamqp.Buffer.Words.{ntoh_16, ntoh_32, ntoh_64}
use libamqp.Codec.MetaData.{MetaData}
use libamqp.Codec.State.{
  AmqpType, State, M, pure, ◌>>◌, set_type, write_type, with_b1, with_b2, with_b4,
}
use libamqp.Codec.State.Hoare.{Returns, Returns-if, Returns-bind}
use libamqp.Codec.Decode.Fixed
use libamqp.Codec.Decode.Fixed.{
  fixed_zero_width, fixed_width, read_fixed, store_fixed, Switch, stored, no_case, outside,
  set_position, with_position, then_store, store_if, put_type,
}

-- What becomes of the union's first eight bytes.
abbrev pub read_word : Buffer → ℕ → ℕ → ℕ → ℕ
read_word b i width old =
    if width == 1
    then with_b1 old (unchecked_getc_at b i)
    else if width == 2
    then with_b2 old (ntoh_16 b i)
    else if width == 4
    then with_b4 old (ntoh_32 b i)
    else ntoh_64 b i

-- A success that has read `n` bytes, stored `word` and left the flags.
abbrev pub Stored : ℕ → ℕ → ℕ → State → Bool → State → Type 0
Stored p n word s rc t =
    (rc ≡ true)
    × (((t.types p).word ≡ word)
        × (((t.types p).typedef_flags ≡ (s.types p).typedef_flags)
            × (t.buffer ≡ record s.buffer { index = s.buffer.index + n })))

abbrev pub IsWordWidth : ℕ → Type 0
IsWordWidth w = ((w ≡ 1) ⊎ (w ≡ 2)) ⊎ ((w ≡ 4) ⊎ (w ≡ 8))

store_fixed-word :
    (b : Buffer) (i w : ℕ) (x : AmqpType)
    → IsWordWidth w
    → i + w ≤ b.size
    → store_fixed b i w x ≡ stored (record x { word = read_word b i w x.word })
unfolding store_fixed
store_fixed-word b i w x (inl (inl e)) h =
    let near : leb (i + 1) b.size ≡ true = ground (arith, e, h) in rw e (rw near refl)
store_fixed-word b i w x (inl (inr e)) h =
    let near : leb (i + 2) b.size ≡ true = ground (arith, e, h) in rw e (rw near refl)
store_fixed-word b i w x (inr (inl e)) h =
    let near : leb (i + 4) b.size ≡ true = ground (arith, e, h) in rw e (rw near refl)
store_fixed-word b i w x (inr (inr e)) h =
    let near : leb (i + 8) b.size ≡ true = ground (arith, e, h) in rw e (rw near refl)

check_available-true :
    (p width : ℕ) (s : State)
    → s.buffer.index < s.buffer.size
    → s.buffer.index + width ≤ s.buffer.size
    → Returns (Fixed.check_available p width s) (λ rc t. (rc ≡ true) × (t ≡ s))
unfolding Fixed.check_available check_available
check_available-true p width s h k =
    Returns-if (check_available s.buffer width) _ _ s (λ rc t. (rc ≡ true) × (t ≡ s))
      (λ _. (refl, refl)) (λ e. absurd (ground arith))

put_type-Stored :
    (p n word : ℕ) (o : Switch) (x : AmqpType) (s u : State)
    → o ≡ stored x
    → x.word ≡ word
    → x.typedef_flags ≡ (s.types p).typedef_flags
    → u.buffer ≡ record s.buffer { index = s.buffer.index + n }
    → Returns (put_type p o u) (Stored p n word s)
put_type-Stored p n word no_case x s u e a b c = absurd (cc (e))
put_type-Stored p n word outside x s u e a b c = absurd (cc (e))
put_type-Stored p n word (stored y) x s u e a b c =
    let same : y ≡ x = cc (e) in (refl, (ground arith, (ground arith, c)))

pub read_word-index :
    (b : Buffer) (i k w old : ℕ) → read_word (record b { index = k }) i w old ≡ read_word b i w old
unfolding unchecked_getc_at ntoh_16 ntoh_32 ntoh_64
read_word-index b i k w old = refl

update_same : (f : ℕ → AmqpType) (p : ℕ) (x : AmqpType) → update f p x p ≡ x
update_same f p x = ground arith

read_fixed-Stored :
    (meta : MetaData) (p : ℕ) (s : State)
    → IsWordWidth meta.width
    → s.buffer.index + meta.width ≤ s.buffer.size
    → Returns
        (read_fixed meta p s)
        (Stored p meta.width (read_word s.buffer s.buffer.index meta.width (s.types p).word) s)
unfolding read_fixed set_position advance_read_index
read_fixed-Stored meta p s w h =
    let placed : State = write_type s p (with_position s.buffer.index meta.width (s.types p)) in
    let u : State = record placed {
      buffer = record s.buffer { index = s.buffer.index + meta.width };
    } in
    let x : AmqpType = u.types p in
    let place : x.position_index ≡ s.buffer.index = ground arith in
    put_type-Stored p meta.width (read_word s.buffer s.buffer.index meta.width (s.types p).word)
      (store_fixed u.buffer x.position_index meta.width x)
      (record x { word = read_word u.buffer x.position_index meta.width x.word }) s u
      (store_fixed-word u.buffer x.position_index meta.width x w (omega (arith, place, h)))
      (ap (λ y. read_word u.buffer y.position_index meta.width y.word)
          (update_same s.types p (with_position s.buffer.index meta.width (s.types p)))
        ∙ read_word-index s.buffer s.buffer.index (s.buffer.index + meta.width) meta.width
            (s.types p).word)
      (ground arith) refl

pub fixed_width-Stored :
    (meta : MetaData) (p : ℕ) (s : State)
    → IsWordWidth meta.width
    → s.buffer.index + meta.width ≤ s.buffer.size
    → Returns
        (fixed_width meta p s)
        (Stored p meta.width (read_word s.buffer s.buffer.index meta.width (s.types p).word) s)
unfolding fixed_width
fixed_width-Stored meta p s w h =
    let Q : Bool → State → Type 0 =
      Stored p meta.width (read_word s.buffer s.buffer.index meta.width (s.types p).word) s in
    Returns-bind (Fixed.check_available p meta.width)
      (λ rc. if rc then read_fixed meta p else pure false) s (λ rc t. (rc ≡ true) × (t ≡ s)) Q
      (check_available-true p meta.width s (omega arith) h)
      (λ rc t d.
        Returns-if rc (read_fixed meta p) (pure false) t Q
          (λ _.
            subst (λ u. Returns (read_fixed meta p u) Q) (sym d.1) (read_fixed-Stored meta p s w h))
          (λ q. absurd (ground (arith, d.0))))

-- One more store after a success.
pub then_store-Stored :
    (m : M Bool) (p n word : ℕ) (f : ℕ → ℕ) (s : State)
    → Returns (m s) (Stored p n word s)
    → Returns (then_store m p f s) (Stored p n (f word) s)
then_store-Stored m p n word f s h =
    Returns-bind m (store_if p f) s (Stored p n word s) (Stored p n (f word) s) h (λ rc t d.
      Returns-if rc (set_type p (λ x. record x { word = f x.word }) >> pure rc) (pure rc) t
        (Stored p n (f word) s)
        (λ q. (q, (ground (arith, d.1.0), (ground (arith, d.1.1.0), d.1.1.1))))
        (λ q. absurd (ground (arith, d.0))))

pub fixed_zero_width-Stored :
    (p : ℕ) (s : State) → Returns (fixed_zero_width p s) (Stored p 0 (s.types p).word s)
unfolding fixed_zero_width set_position
fixed_zero_width-Stored p s = (refl, (ground arith, (ground arith, ground arith)))
