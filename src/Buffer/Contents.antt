-- ===== src/Buffer/Contents.antt =====
-- The contents of a buffer copied behind those of another, and the ends of a buffer's life: the
-- callbacks of the pool and the reference count, of Buffer/Buffer.c.
use libamqp.Prelude.{
  ℕ, zero, suc, ◌+◌, ◌-◌, ◌/◌, ◌%◌, ◌^◌, ◌≤◌, ◌<◌, ◌≡◌, ◌⊎◌, inl, inr, refl, ap, ◌∙◌, Option, none,
  some, List, [], ◌∷◌, Bool-cases, ltb, leb, ◌&&◌, if◌then◌else◌, update, arith, lt→ltb, ◌==◌,
  ==→eq,
}
use mathlib.Core.Path.{subst}
use libamqp.Prelude.Outcome.{Outcome, returns, stops, undefined, assert, ◌>>=◌}
use libamqp.Buffer.{Buffer, buffer_fragment_size, unchecked_getc_at, unchecked_putc, putc}
use libamqp.Buffer.Laws.{IsValid, putc-IsValid}
use libamqp.Buffer.Bytes.{Appends, Appends-trans, unchecked_putc-Appends}

-- `amqp_initialize_amqp_buffer_t`, on the memory that the pool has given; `amqp_malloc` clears its
-- memory, and the reference count stays what that memory holds.
unfoldable initialize_buffer : Buffer → Buffer
initialize_buffer b = record {
  capacity = buffer_fragment_size;
  fragments = update b.fragments 0 (λ _. 0);
  index = 0;
  size = 0;
  reference_count = b.reference_count;
}

unfoldable free_fragments : ℕ → ℕ → List ℕ
free_fragments block zero = []
free_fragments block (suc rounds) = block ∷ free_fragments (block + 1) rounds

-- `amqp_cleanup_amqp_buffer_t`: the fragments that are given back, in their order.
unfoldable pub cleanup_buffer : Option Buffer → List ℕ
unfolding free_fragments
cleanup_buffer none = []
cleanup_buffer (some b) = free_fragments 0 (b.capacity / buffer_fragment_size)

-- The count is a `size_t`, so it wraps.
unfoldable pub reference : Buffer → Buffer
reference b = record b { reference_count = (b.reference_count + 1) % 2 ^ 64 }

-- The new count is also what is returned.
unfoldable pub release : Buffer → ℕ × Buffer
release b =
    let count = (b.reference_count + 2 ^ 64 - 1) % 2 ^ 64 in
    (count, record b { reference_count = count })

-- The loop of `amqp_buffer_put_buffer_contents`, with `rounds` bytes to go from `i`. An access at or
-- behind the capacity is one through a pointer that nobody has set.
unfoldable put_contents : Buffer → ℕ → ℕ → Buffer → Outcome Buffer
unfolding unchecked_putc unchecked_getc_at
put_contents source i zero dest = returns dest
put_contents source i (suc rounds) dest =
    let rest =
      put_contents source (i + 1) rounds (unchecked_putc dest (unchecked_getc_at source i)) in
    if ltb i source.capacity && ltb dest.size dest.capacity then rest else undefined

-- `amqp_buffer_put_buffer_contents`, of two different buffers.
unfoldable pub put_buffer_contents : Buffer → Buffer → Outcome (ℕ × Buffer)
unfolding put_contents
put_buffer_contents dest source =
    assert (leb source.size dest.capacity)
    >>= (λ _. put_contents source 0 source.size dest)
    >>= (λ d. returns (source.size, d))

unchecked_putc-IsValid :
    (b : Buffer) (c : ℕ) → IsValid b → b.size < b.capacity → IsValid (unchecked_putc b c)
unfolding putc
unchecked_putc-IsValid b c v room = rw (lt→ltb b.size b.capacity room) at (putc-IsValid c v)

-- A buffer that the pool has set up is valid, whatever bytes its memory held.
initialize_buffer-IsValid :
    (b : Buffer) → ((k o : ℕ) → b.fragments k o < 2 ^ 8) → IsValid (initialize_buffer b)
unfolding initialize_buffer
initialize_buffer-IsValid b bytes = record {
  read_in = omega arith;
  write_in = omega arith;
  bounded = omega arith;
  whole = refl;
  bytes = λ k o. ground (arith, bytes k o);
}

-- What the copy of `n` bytes from `i` on leaves behind.
pub record IsCopied (source : Buffer) (i n : ℕ) (dest dest' : Buffer) : Type 0 where
  pub appends : Appends dest n dest'
  pub still_valid : IsValid dest'
  pub same_bytes :
      (j : ℕ) → j < n → unchecked_getc_at dest' (dest.size + j) ≡ unchecked_getc_at source (i + j)

one_copied :
    (source dest : Buffer) (i : ℕ)
    → IsValid source
    → unchecked_getc_at (unchecked_putc dest (unchecked_getc_at source i)) dest.size
      ≡ unchecked_getc_at source i
unfolding unchecked_getc_at
one_copied source dest i v =
    (unchecked_putc-Appends dest (unchecked_getc_at source i)).1
    ∙ omega (arith, v.bytes (i / 2 ^ 12) (i % 2 ^ 12))

-- One byte, and then the copy of those behind it.
IsCopied-step :
    (source : Buffer) (i n : ℕ) (dest dest' : Buffer)
    → IsValid source
    → IsCopied source (i + 1) n (unchecked_putc dest (unchecked_getc_at source i)) dest'
    → IsCopied source i (suc n) dest dest'
IsCopied-step source i n dest dest' v copied =
    let a = (unchecked_putc-Appends dest (unchecked_getc_at source i)).0 in
    record {
      appends =
          subst (λ k. Appends dest k dest') {x = 1 + n} {y = suc n} (omega arith)
            (Appends-trans a copied.appends);
      still_valid = copied.still_valid;
      same_bytes = λ j h. elim (Bool-cases (j == 0)) [
        | inl first ↦
            let z : j ≡ 0 = ==→eq j 0 first in
            ap (unchecked_getc_at dest') (omega (arith, z))
            ∙ copied.appends.before dest.size (omega (arith, a.grows))
            ∙ one_copied source dest i v
            ∙ ap (unchecked_getc_at source) (omega (arith, z))
        | inr later ↦
            let pos : 0 < j = ground (arith, later) in
            ap (unchecked_getc_at dest') (omega (arith, pos, a.grows))
            ∙ copied.same_bytes (j - 1) (omega (arith, h, pos))
            ∙ ap (unchecked_getc_at source) (omega (arith, pos))
      ];
    }

put_contents-fits :
    (source : Buffer) (i n : ℕ) (dest : Buffer)
    → IsValid source
    → IsValid dest
    → i + n ≤ source.capacity
    → dest.size + n ≤ dest.capacity
    → (dest' : Buffer) × (put_contents source i n dest ≡ returns dest')
      × IsCopied source i n dest dest'
unfolding put_contents
put_contents-fits source i zero dest v w inside room = (
  dest,
  refl,
  record {
    appends = record {
      grows = omega arith;
      same_index = refl;
      same_capacity = refl;
      before = λ j h. refl;
    };
    still_valid = w;
    same_bytes = λ j h. absurd (omega (arith, h));
  },
)
put_contents-fits source i (suc n) dest v w inside room =
    let c = unchecked_getc_at source i in
    let a = (unchecked_putc-Appends dest c).0 in
    let (dest', runs, copied) =
      put_contents-fits source (i + 1) n (unchecked_putc dest c) v
        (unchecked_putc-IsValid dest c w (omega (arith, room))) (omega (arith, inside))
        (omega (arith, room, a.grows, a.same_capacity)) in
    (
      dest',
      rw (lt→ltb i source.capacity (omega (arith, inside)))
          (rw (lt→ltb dest.size dest.capacity (omega (arith, room))) runs),
      IsCopied-step source i n dest dest' v copied,
    )

put_contents-overruns :
    (source : Buffer) (i n : ℕ) (dest : Buffer)
    → dest.capacity < dest.size + n
    → dest.size ≤ dest.capacity
    → put_contents source i n dest ≡ undefined
unfolding put_contents
put_contents-overruns source i zero dest over valid = absurd (omega (arith, over, valid))
put_contents-overruns source i (suc n) dest over valid =
    let a = (unchecked_putc-Appends dest (unchecked_getc_at source i)).0 in
    elim (Bool-cases (ltb dest.size dest.capacity)) [
      | inl room ↦
          let rest =
            put_contents-overruns source (i + 1) n
              (unchecked_putc dest (unchecked_getc_at source i))
              (omega (arith, over, a.grows, a.same_capacity))
              (ground (arith, room, a.grows, a.same_capacity)) in
          ground (arith, rest, room)
      | inr full ↦ ground (arith, full)
    ]

-- `amqp_buffer_put_buffer_contents` of a valid buffer into another one, on every branch: it stops by its
-- `assert` if the source holds more bytes than the capacity of the destination; else, if there is no
-- room for them behind the write point, it writes through a pointer that nobody has set; else it
-- returns their number, the destination is valid and has them behind the bytes that it held.
pub put_buffer_contents_lem :
    (dest source : Buffer)
    → IsValid dest
    → IsValid source
    → ((dest.capacity < source.size) × (put_buffer_contents dest source ≡ stops))
      ⊎ (((source.size ≤ dest.capacity)
            × (dest.capacity < dest.size + source.size)
            × (put_buffer_contents dest source ≡ undefined))
          ⊎ ((dest.size + source.size ≤ dest.capacity)
              × ((dest' : Buffer) × (put_buffer_contents dest source ≡ returns (source.size, dest'))
                  × IsCopied source 0 source.size dest dest')))
unfolding put_buffer_contents
put_buffer_contents_lem dest source v w = elim (Bool-cases (leb source.size dest.capacity)) [
  | inr more ↦ inl (ground (arith, more), rw more refl)
  | inl asserted ↦ elim (Bool-cases (leb (dest.size + source.size) dest.capacity)) [
    | inl room ↦
        let (dest', runs, copied) =
          put_contents-fits source 0 source.size dest w v (omega (arith, w.write_in))
            (ground (arith, room)) in
        inr (inr (ground (arith, room), (dest', rw asserted (rw runs refl), copied)))
    | inr over ↦
        let runs =
          put_contents-overruns source 0 source.size dest (ground (arith, over)) v.write_in in
        inr (inl (ground (arith, asserted), ground (arith, over), rw asserted (rw runs refl)))
  ]
]
