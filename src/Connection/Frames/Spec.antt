-- ===== src/Connection/Frames/Spec.antt =====
-- What the frame reader is to do with a stream of bytes, and what the loop over `readv` does with the
-- pieces in which the stream comes.
use libamqp.Prelude.{
  ℕ, ◌-◌, ◌≤◌, ◌<◌, ◌≡◌, ◌≢◌, ◌⊎◌, inl, inr, refl, sym, ap, ◌∙◌, List, [], ◌∷◌, ◌++◌, arith, ltb,
  ◌==◌, Bool-cases, length, length-append, All, take, drop, take-drop, length-take, length-drop,
}
use mathlib.Core.List.{append_assoc}
use libamqp.Prelude.Outcome.{returns}
use libamqp.Connection.Reader.{Ending, Read, complete, end_of, read_loop}
use libamqp.Connection.Frames.{read_uint32, amqp_protocol_header}

abbrev pub concat : List (List ℕ) → List ℕ
concat [] = []
concat (c ∷ cs) = c ++ concat cs

-- The bytes of frames that are listed from the last one to the first.
abbrev pub joined : List (List ℕ) → List ℕ
joined [] = []
joined (x ∷ xs) = joined xs ++ x

-- A size that a frame may have.
abbrev pub ValidSize : ℕ → ℕ → Type 0
ValidSize max n = (8 ≤ n) × (n < max) × (n ≢ amqp_protocol_header)

-- Bytes that are a whole frame: as many as their first four say.
pub record IsFrame (max : ℕ) (x : List ℕ) : Type 0 where
  pub sized : read_uint32 x ≡ returns (length x)
  pub valid : ValidSize max (length x)

-- What lies behind the frames: less than a header, a header of a valid size and less than its frame,
-- or a header of an invalid size.
pub data Rest (max : ℕ) (x : List ℕ) : Type 0 where
  no_header : length x < 8 → Rest max x
  no_body :
      (n : ℕ)
      → 8 ≤ length x
      → read_uint32 x ≡ returns n
      → ValidSize max n
      → length x < n
      → Rest max x
  bad_header : (n : ℕ) → 8 ≤ length x → read_uint32 x ≡ returns n → ¬ (ValidSize max n) → Rest max x

abbrev pub NonEmpty : List (List ℕ) → Type 0
NonEmpty chunks = All (λ c. 0 < length c) chunks

-- A loop over `readv` gets what is needed, or all there is.
pub record Gets (needed : ℕ) (chunks : List (List ℕ)) (ending : Ending) (l : Read) : Type 0 where
  pub bytes : l.got ++ concat l.left ≡ concat chunks
  pub left_fine : NonEmpty l.left
  pub ended :
      ((length l.got ≡ needed) × (l.how ≡ complete))
      ⊎ ((length l.got < needed) × (l.how ≡ end_of ending) × (l.left ≡ []))

-- A piece that is taken whole, and what a loop for the rest gets.
Gets-whole :
    (needed : ℕ) (chunk : List ℕ) (chunks : List (List ℕ)) (ending : Ending) (l : Read)
    → length chunk < needed
    → Gets (needed - length chunk) chunks ending l
    → Gets needed (chunk ∷ chunks) ending (record l { got = chunk ++ l.got })
Gets-whole needed chunk chunks ending l short more = record {
  bytes = append_assoc chunk l.got (concat l.left) ∙ ap (λ l. chunk ++ l) more.bytes;
  left_fine = more.left_fine;
  ended = elim more.ended [
    | inl (enough, how) ↦ inl (omega (arith, enough, short, length-append chunk l.got), how)
    | inr (less, how, all) ↦ inr (omega (arith, less, short, length-append chunk l.got), how, all)
  ];
}

-- A piece of which a part is left.
Gets-part :
    (needed : ℕ) (chunk : List ℕ) (chunks : List (List ℕ)) (ending : Ending)
    → needed < length chunk
    → NonEmpty chunks
    → Gets needed
        (chunk ∷ chunks)
        ending
        (record { got = take needed chunk; left = drop needed chunk ∷ chunks; how = complete })
Gets-part needed chunk chunks ending long fine = record {
  bytes =
      sym (append_assoc (take needed chunk) (drop needed chunk) (concat chunks))
      ∙ ap (λ l. l ++ concat chunks) (take-drop needed chunk);
  left_fine = (omega (arith, length-drop needed chunk, long), fine);
  ended = inl (length-take needed chunk (omega (arith, long)), refl);
}

pub read_loop_lem :
    (needed : ℕ) (chunks : List (List ℕ)) (ending : Ending)
    → 0 < needed
    → NonEmpty chunks
    → Gets needed chunks ending (read_loop needed chunks ending)
unfolding read_loop
read_loop_lem needed [] ending pos fine = record {
  bytes = refl;
  left_fine = tt;
  ended = inr (pos, refl, refl);
}
read_loop_lem needed ([] ∷ chunks) ending pos fine = absurd (omega (arith, fine.0))
read_loop_lem needed ((x ∷ chunk) ∷ chunks) ending pos fine =
    elim (Bool-cases (ltb (length (x ∷ chunk)) needed)) [
      | inl short ↦ rw short (
          Gets-whole needed (x ∷ chunk) chunks ending _ (ground (arith, short)) (
            read_loop_lem (needed - length (x ∷ chunk)) chunks ending (ground (arith, short))
              fine.1))
      | inr long ↦ elim (Bool-cases (length (x ∷ chunk) == needed)) [
        | inl exact ↦ rw long (
            rw exact (record {
              bytes = refl;
              left_fine = fine.1;
              ended = inl (ground (arith, exact), refl);
            }))
        | inr more ↦ rw long (
            rw more
              (Gets-part needed (x ∷ chunk) chunks ending (ground (arith, long, more)) fine.1))
      ]
    ]
