-- ===== src/Codec/Encode/Overwrite.antt =====
-- A run of bytes that is written over an earlier one, with the write point put back.
use libamqp.Prelude.{ℕ, ◌+◌, ◌≤◌, ◌<◌, ◌≡◌, ◌≢◌, refl, List, [], ◌∷◌, arith, ◌∙◌, ◌⊎◌, length, All}
use libamqp.Buffer.{Buffer, unchecked_getc_at, unchecked_putc, unchecked_putc_at, set_write_index}
use libamqp.Buffer.Bytes.{Holds, IsByte, append_bytes, append_bytes-Appends, append_bytes-Holds}

unchecked_putc-outside :
    (b : Buffer) (c j : ℕ)
    → j ≢ b.size
    → unchecked_getc_at (unchecked_putc b c) j ≡ unchecked_getc_at b j
unfolding unchecked_putc unchecked_putc_at unchecked_getc_at
unchecked_putc-outside b c j h = ground arith

-- Bytes outside the run that is written stay.
append_bytes-outside :
    (cs : List ℕ) (b : Buffer) (j : ℕ)
    → (j < b.size) ⊎ (b.size + length cs ≤ j)
    → unchecked_getc_at (append_bytes b cs) j ≡ unchecked_getc_at b j
unfolding append_bytes unchecked_putc unchecked_putc_at
append_bytes-outside [] b j h = refl
append_bytes-outside (c ∷ cs) b j h =
    append_bytes-outside cs (unchecked_putc b c) j (ground (arith, h))
    ∙ unchecked_putc-outside b c j (ground (arith, h))

-- The write point has no part in what the buffer holds.
Holds-set_write_index :
    (b : Buffer) (k i : ℕ) (cs : List ℕ) → Holds b i cs → Holds (set_write_index b k) i cs
unfolding unchecked_getc_at set_write_index
Holds-set_write_index b k i [] h = tt
Holds-set_write_index b k i (c ∷ cs) (e, h) = (e, Holds-set_write_index b k (i + 1) cs h)

getc_at-set_write_index :
    (b : Buffer) (k j : ℕ) → unchecked_getc_at (set_write_index b k) j ≡ unchecked_getc_at b j
unfolding unchecked_getc_at set_write_index
getc_at-set_write_index b k j = refl

-- A run that is written at `k`, with the write point put back.
abbrev pub overwrite : Buffer → ℕ → List ℕ → Buffer
overwrite b k cs = set_write_index (append_bytes (set_write_index b k) cs) b.size

abbrev pub Overwritten : Buffer → ℕ → List ℕ → ℕ → Buffer → Type 0
Overwritten b k cs j b' =
    Holds b' k cs
    × (unchecked_getc_at b' j ≡ unchecked_getc_at b j)
    × (b'.size ≡ b.size)
    × (b'.index ≡ b.index)

pub overwrite-Overwritten :
    (b : Buffer) (k j : ℕ) (cs : List ℕ)
    → All IsByte cs
    → (j < k) ⊎ (k + length cs ≤ j)
    → Overwritten b k cs j (overwrite b k cs)
unfolding set_write_index
overwrite-Overwritten b k j cs h o =
    let start : Buffer = set_write_index b k in
    (
      Holds-set_write_index (append_bytes start cs) b.size k cs (append_bytes-Holds cs start h),
      getc_at-set_write_index (append_bytes start cs) b.size j
          ∙ append_bytes-outside cs start j o
          ∙ getc_at-set_write_index b k j,
      refl,
      (append_bytes-Appends cs start).same_index,
    )
