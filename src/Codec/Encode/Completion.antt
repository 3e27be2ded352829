-- ===== src/Codec/Encode/Completion.antt =====
-- What `complete_container_type` of Codec/Encode/Encode.c writes: the size and the count of a list, map
-- or array, over the fields that were left for them.
use libamqp.Prelude.{
  ℕ, ◌+◌, ◌-◌, ◌%◌, ◌^◌, ◌≤◌, ◌<◌, ◌≡◌, refl, none, some, List, [], ◌∷◌, ◌++◌, ◌==◌, if◌then◌else◌,
  arith, sym, ◌∙◌, ap, update, inl, inr, ◌⊎◌, All,
}
use mathlib.Core.Path.{subst}
use libamqp.Buffer.{Buffer, set_write_index}
use libamqp.Buffer.Bytes.{IsByte, append_bytes, append_bytes-++}
use libamqp.Buffer.Words.{hton_32, hton_32-append, bytes_32}
use libamqp.Codec.MetaData.{MetaData}
use libamqp.Codec.State.{
  AmqpType, State, M, Outcome, returned, aborted, stuck, fault, pure, ◌>>◌, set_buffer, write_type,
}
use libamqp.Codec.State.Hoare.{Returns, Returns-bind}
use libamqp.Codec.State.Hoare.{bind_returned}
use libamqp.Codec.Encode.Compound.{
  complete_container_type, close_fields, width_of, with_size, size_minus, put_fields_8,
  put_fields_32,
}
use libamqp.Codec.Encode.Overwrite.{overwrite, Overwritten, overwrite-Overwritten}

-- A size or a count in a field of one byte, or of four.
abbrev pub field : ℕ → ℕ → List ℕ
field width n = if width == 1 then n % 2 ^ 8 ∷ [] else bytes_32 (n % 2 ^ 32)

fields_8 :
    (t : AmqpType) (b : Buffer) (k size : ℕ)
    → size_minus t.position_index 1 ≡ k
    → t.position_size ≡ size
    → set_write_index (put_fields_8 t b) b.size ≡ overwrite b k (field 1 size ++ field 1 t.word)
unfolding append_bytes
fields_8 t b k size e z = rw (e, z) refl

fields_32 :
    (t : AmqpType) (b : Buffer) (k size : ℕ)
    → size_minus t.position_index 4 ≡ k
    → t.position_size ≡ size
    → set_write_index (put_fields_32 t b) b.size ≡ overwrite b k (field 4 size ++ field 4 t.word)
fields_32 t b k size e z =
    let start : Buffer = set_write_index b k in
    ap
      (λ x.
        set_write_index
          (hton_32 (hton_32 (set_write_index b x) (t.position_size % 2 ^ 32)) (t.word % 2 ^ 32))
          b.size)
      e
    ∙ ap (λ x. set_write_index (hton_32 (hton_32 start (x % 2 ^ 32)) (t.word % 2 ^ 32)) b.size) z
    ∙ ap (λ x. set_write_index x b.size)
        (hton_32-append (hton_32 start (size % 2 ^ 32)) (t.word % 2 ^ 32)
          ∙ ap (λ x. append_bytes x (bytes_32 (t.word % 2 ^ 32)))
              (hton_32-append start (size % 2 ^ 32))
          ∙ sym (append_bytes-++ (bytes_32 (size % 2 ^ 32)) (bytes_32 (t.word % 2 ^ 32)) start))

field_8-IsByte : (m n : ℕ) → All IsByte (field 1 m ++ field 1 n)
field_8-IsByte m n = omega arith

field_32-IsByte : (m n : ℕ) → All IsByte (field 4 m ++ field 4 n)
field_32-IsByte m n = omega arith

update_same : (f : ℕ → AmqpType) (p : ℕ) (x : AmqpType) → update f p x p ≡ x
update_same f p x = ground arith

-- The object with its size.
abbrev sized : ℕ → State → State
sized p s =
    write_type s p (with_size (size_minus s.buffer.size (s.types p).position_index) (s.types p))

sized_type :
    (p : ℕ) (s : State)
    → (sized p s).types p
      ≡ with_size (size_minus s.buffer.size (s.types p).position_index) (s.types p)
sized_type p s =
    update_same s.types p
      (with_size (size_minus s.buffer.size (s.types p).position_index) (s.types p))

width_known :
    (p : ℕ) (meta : MetaData) (s : State)
    → (s.types p).meta_data ≡ some meta
    → width_of p (sized p s) ≡ returned meta.width (sized p s)
width_known p meta s e =
    ap (λ o. elim o [ none ↦ aborted fault | some m ↦ returned m.width (sized p s) ])
      (ap (λ x. x.meta_data) (sized_type p s) ∙ e)

-- What is left behind, for a width of the fields.
abbrev Closed : ℕ → ℕ → ℕ → State → State → Type 0
Closed width p j s u =
    Overwritten s.buffer ((s.types p).position_index - width)
      (field width (s.buffer.size - (s.types p).position_index) ++ field width (s.types p).word) j
      u.buffer

abbrev close : ℕ → ℕ → State → M (Unit {0})
close width p s = close_fields width p >> set_buffer (λ b. set_write_index b s.buffer.size)

close_8 :
    (p j : ℕ) (s : State)
    → 1 ≤ (s.types p).position_index
    → (s.types p).position_index ≤ s.buffer.size
    → s.buffer.size < 2 ^ 64
    → (j < (s.types p).position_index - 1) ⊎ ((s.types p).position_index + 1 ≤ j)
    → Returns (close 1 p s (sized p s)) (λ _ u. Closed 1 p j s u)
close_8 p j s lo hi z o =
    let i : ℕ = (s.types p).position_index in
    let n : ℕ = s.buffer.size - i in
    let x : AmqpType = (sized p s).types p in
    let e = sized_type p s in
    let cs : List ℕ = field 1 n ++ field 1 (s.types p).word in
    let b =
      fields_8 x s.buffer (i - 1) n (ap (λ y. size_minus y.position_index 1) e ∙ omega arith)
        (ap (λ y. y.position_size) e ∙ omega arith) in
    subst (λ c. Overwritten s.buffer (i - 1) cs j c)
      (sym (b ∙ ap (λ y. overwrite s.buffer (i - 1) (field 1 n ++ field 1 y.word)) e))
      (overwrite-Overwritten s.buffer (i - 1) j cs (field_8-IsByte n (s.types p).word)
        (ground (arith, o)))

close_32 :
    (p j : ℕ) (s : State)
    → 4 ≤ (s.types p).position_index
    → (s.types p).position_index ≤ s.buffer.size
    → s.buffer.size < 2 ^ 64
    → (j < (s.types p).position_index - 4) ⊎ ((s.types p).position_index + 4 ≤ j)
    → Returns (close 4 p s (sized p s)) (λ _ u. Closed 4 p j s u)
close_32 p j s lo hi z o =
    let i : ℕ = (s.types p).position_index in
    let n : ℕ = s.buffer.size - i in
    let x : AmqpType = (sized p s).types p in
    let e = sized_type p s in
    let cs : List ℕ = field 4 n ++ field 4 (s.types p).word in
    let b =
      fields_32 x s.buffer (i - 4) n (ap (λ y. size_minus y.position_index 4) e ∙ omega arith)
        (ap (λ y. y.position_size) e ∙ omega arith) in
    subst (λ c. Overwritten s.buffer (i - 4) cs j c)
      (sym (b ∙ ap (λ y. overwrite s.buffer (i - 4) (field 4 n ++ field 4 y.word)) e))
      (overwrite-Overwritten s.buffer (i - 4) j cs (field_32-IsByte n (s.types p).word)
        (ground (arith, o)))

close_any :
    (width p j : ℕ) (s : State)
    → (width ≡ 1) ⊎ (width ≡ 4)
    → width ≤ (s.types p).position_index
    → (s.types p).position_index ≤ s.buffer.size
    → s.buffer.size < 2 ^ 64
    → (j < (s.types p).position_index - width) ⊎ ((s.types p).position_index + width ≤ j)
    → Returns (close width p s (sized p s)) (λ _ u. Closed width p j s u)
close_any width p j s (inl e) lo hi z o =
    subst (λ w. Returns (close w p s (sized p s)) (λ _ u. Closed w p j s u)) (sym e)
      (close_8 p j s (omega (arith, e, lo)) hi z (
        subst (λ w. (j < (s.types p).position_index - w) ⊎ ((s.types p).position_index + w ≤ j)) e
          o))
close_any width p j s (inr e) lo hi z o =
    subst (λ w. Returns (close w p s (sized p s)) (λ _ u. Closed w p j s u)) (sym e)
      (close_32 p j s (omega (arith, e, lo)) hi z (
        subst (λ w. (j < (s.types p).position_index - w) ⊎ ((s.types p).position_index + w ≤ j)) e
          o))

-- The result behind two steps.
then_pure :
    (m k : M (Unit {0})) (p : ℕ) (s : State) (Q : State → Type 0)
    → Returns ((m >> k) s) (λ _ u. Q u)
    → Returns ((m >> (k >> pure p)) s) (λ q u. (q ≡ p) × Q u)
then_pure m k p s Q = go (m s)
  where
    go :
        (r : Outcome (Unit {0}))
        → Returns (((λ _. r) >> k) s) (λ _ u. Q u)
        → Returns (((λ _. r) >> (k >> pure p)) s) (λ q u. (q ≡ p) × Q u)
    go (returned a t) h =
        Returns-bind k (λ _. pure p) t (λ _ u. Q u) (λ q u. (q ≡ p) × Q u) h (λ _ u g. (refl, g))
    go (aborted why) h = absurd h
    go stuck h = absurd h

-- `complete_container_type` on a list, map or array whose fields of one or four bytes lie around
-- its position returns it: from the first field on the buffer holds the number of bytes since the
-- position and the count, each as far as its field goes, the low 8 bits or the low 32; any byte
-- outside the fields, the write point and the read point stay. The position is not behind the write
-- point, which fits a `size_t`.
pub complete_container_type_lem :
    (p j : ℕ) (meta : MetaData) (s : State)
    → (s.types p).meta_data ≡ some meta
    → (meta.width ≡ 1) ⊎ (meta.width ≡ 4)
    → meta.width ≤ (s.types p).position_index
    → (s.types p).position_index ≤ s.buffer.size
    → s.buffer.size < 2 ^ 64
    → (j < (s.types p).position_index - meta.width) ⊎ ((s.types p).position_index + meta.width ≤ j)
    → Returns (complete_container_type p s) (λ q t.
      (q ≡ p)
      × Overwritten s.buffer
          ((s.types p).position_index - meta.width)
          (field meta.width (s.buffer.size - (s.types p).position_index)
            ++ field meta.width (s.types p).word)
          j
          t.buffer)
unfolding complete_container_type
complete_container_type_lem p j meta s m w lo hi z o =
    let Q : ℕ → State → Type 0 = λ q t. (q ≡ p) × Closed meta.width p j s t in
    subst (λ r. Returns r Q)
      (sym
        (bind_returned (width_of p) _ (sized p s) meta.width (sized p s) (width_known p meta s m)))
      (then_pure (close_fields meta.width p) (set_buffer (λ b. set_write_index b s.buffer.size)) p
        (sized p s) (Closed meta.width p j s) (close_any meta.width p j s w lo hi z o))
