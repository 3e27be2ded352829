-- ===== src/Connection/Frames/Unique.antt =====
-- A stream has only one cut into frames, so that what is handed on does not depend on the pieces.
use mathlib.Core.Path.{subst}
use libamqp.Prelude.{
  ℕ, suc, ◌+◌, ◌≤◌, ◌<◌, ◌≡◌, refl, sym, ap, ◌∙◌, List, [], ◌∷◌, ◌++◌, arith, length, length-append,
  All,
}
use mathlib.Core.List.{append_assoc, append-nil}
use libamqp.Prelude.Outcome.{returns-eq, returns}
use libamqp.Connection.Reader.{read_buffer_capacity, enabled, Socket, Reader}
use libamqp.Connection.Frames.{FrameState, FrameReader, read_uint32, start_frames, Reading}
use libamqp.Connection.Frames.Spec.{
  joined, ValidSize, IsFrame, concat, Rest, no_header, no_body, bad_header,
}
use libamqp.Connection.Frames.Phase.{read_uint32-append}
use libamqp.Connection.Frames.OneRead.{IsOpen}
use libamqp.Connection.Frames.Split.{IsSplit, start_frames_lem}

-- A rest does not begin with a frame.
not-Rest : (max : ℕ) (x y : List ℕ) → IsFrame max x → ¬ (Rest max (x ++ y))
not-Rest max x y frame (no_header short) = omega (arith, short, length-append x y, frame.valid.0)
not-Rest max x y frame (no_body n long sized valid short) =
    let same = returns-eq (sym sized ∙ read_uint32-append x y (length x) frame.sized) in
    omega (arith, same, short, length-append x y)
not-Rest max x y frame (bad_header n long sized invalid) =
    let same = returns-eq (sym sized ∙ read_uint32-append x y (length x) frame.sized) in
    invalid (subst (ValidSize max) (sym same) frame.valid)

pub append-cancel : (x y a b : List ℕ) → length x ≡ length y → x ++ a ≡ y ++ b → (x ≡ y) × (a ≡ b)
append-cancel [] [] a b h e = (refl, e)
append-cancel [] (y ∷ ys) a b h e = absurd (omega arith)
append-cancel (x ∷ xs) [] a b h e = absurd (omega arith)
append-cancel (x ∷ xs) (y ∷ ys) a b h e =
    let (same, rest) = append-cancel xs ys a b (omega arith) (cc (e)) in (cc (e, same), rest)

pub unique :
    (max : ℕ) (xs ys : List (List ℕ)) (a b : List ℕ)
    → concat xs ++ a ≡ concat ys ++ b
    → All (IsFrame max) xs
    → All (IsFrame max) ys
    → Rest max a
    → Rest max b
    → xs ≡ ys
unique max [] [] a b e p q r s = refl
unique max (x ∷ xs) [] a b e p q r s = absurd (
    not-Rest max x (concat xs ++ a) p.0 (subst (Rest max) (sym e ∙ append_assoc x (concat xs) a) s))
unique max [] (y ∷ ys) a b e p q r s =
    absurd
      (not-Rest max y (concat ys ++ b) q.0 (subst (Rest max) (e ∙ append_assoc y (concat ys) b) r))
unique max (x ∷ xs) (y ∷ ys) a b e p q r s =
    let whole : x ++ (concat xs ++ a) ≡ y ++ (concat ys ++ b) =
      sym (append_assoc x (concat xs) a) ∙ e ∙ append_assoc y (concat ys) b in
    let sizes = returns-eq (
      sym (read_uint32-append x (concat xs ++ a) (length x) p.0.sized)
      ∙ ap read_uint32 whole
      ∙ read_uint32-append y (concat ys ++ b) (length y) q.0.sized) in
    let (first, others) = append-cancel x y (concat xs ++ a) (concat ys ++ b) sizes whole in
    let more = unique max xs ys a b others p.1 q.1 r s in
    ap (λ x. x ∷ xs) first ∙ ap (λ l. y ∷ l) more

-- The frames in the order in which they came.
unfoldable pub in_order : List (List ℕ) → List (List ℕ) → List (List ℕ)
in_order [] done = done
in_order (x ∷ xs) done = in_order xs (x ∷ done)

pub in_order-concat :
    (xs done : List (List ℕ)) → concat (in_order xs done) ≡ joined xs ++ concat done
unfolding in_order
in_order-concat [] done = refl
in_order-concat (x ∷ xs) done =
    in_order-concat xs (x ∷ done) ∙ sym (append_assoc (joined xs) x (concat done))

pub in_order-All :
    (max : ℕ) (xs done : List (List ℕ))
    → All (IsFrame max) xs
    → All (IsFrame max) done
    → All (IsFrame max) (in_order xs done)
unfolding in_order
in_order-All max [] done p q = q
in_order-All max (x ∷ xs) done p q = in_order-All max xs (x ∷ done) p.1 (p.0, q)

in_order-reverse : (xs done : List (List ℕ)) → in_order (in_order xs done) [] ≡ in_order done xs
unfolding in_order
in_order-reverse [] done = refl
in_order-reverse (x ∷ xs) done = in_order-reverse xs (x ∷ done)

in_order-injective : (xs ys : List (List ℕ)) → in_order xs [] ≡ in_order ys [] → xs ≡ ys
unfolding in_order
in_order-injective xs ys e =
    sym (in_order-reverse xs []) ∙ ap (λ l. in_order l []) e ∙ in_order-reverse ys []

-- Two cuts of the same bytes are the same.
pub IsSplit-unique :
    (max : ℕ) (bytes : List ℕ) (xs ys : List (List ℕ)) (a b : List ℕ)
    → IsSplit max bytes xs a
    → IsSplit max bytes ys b
    → xs ≡ ys
IsSplit-unique max bytes xs ys a b p q =
    let forward : (zs : List (List ℕ)) (c : List ℕ)
        → concat (in_order zs []) ++ c ≡ joined zs ++ c =
      λ zs c. ap (λ l. l ++ c) (in_order-concat zs [] ∙ append-nil (joined zs)) in
    in_order-injective xs ys (
      unique max (in_order xs []) (in_order ys []) a b
        (forward xs a ∙ p.joins ∙ sym q.joins ∙ sym (forward ys b))
        (in_order-All max xs [] p.whole tt) (in_order-All max ys [] q.whole tt) p.behind q.behind)

abbrev pub frames_of : Reading → List (List ℕ)
frames_of (returns (s, (r, f))) = f.frames
frames_of _ = []

-- However the same bytes are cut into pieces that are not empty, the same frames are handed on,
-- from an enabled frame reader with no frame yet on an enabled reader, `readv` reporting `EAGAIN`
-- behind the bytes, with two more rounds than bytes at the least, and a maximal frame size of at
-- most 4097.
pub start_frames_pieces :
    (n : ℕ) (s t : Socket) (r : Reader) (f : FrameReader)
    → r.state ≡ enabled
    → f.state ≡ FrameState.enabled
    → f.frames ≡ []
    → f.max_frame_size ≤ read_buffer_capacity + 1
    → IsOpen s
    → IsOpen t
    → concat s.chunks ≡ concat t.chunks
    → length (concat s.chunks) < n
    → frames_of (start_frames (suc (suc n)) s r f) ≡ frames_of (start_frames (suc (suc n)) t r f)
start_frames_pieces n s t r f on e no_frames small open_s open_t same bound =
    let (s1, r1, f1, runs1, settled1) =
      start_frames_lem n s r f on e no_frames small open_s bound in
    let (s2, r2, f2, runs2, settled2) =
      start_frames_lem n t r f on e no_frames small open_t
        (subst (λ (l : List ℕ). length l < n) same bound) in
    ap frames_of runs1
    ∙ IsSplit-unique f.max_frame_size (concat t.chunks) f1.frames f2.frames
        (r1.buffer ++ concat s1.chunks) (r2.buffer ++ concat s2.chunks)
        (subst (λ b. IsSplit f.max_frame_size b f1.frames (r1.buffer ++ concat s1.chunks)) same
          settled1.split)
        settled2.split
    ∙ sym (ap frames_of runs2)
