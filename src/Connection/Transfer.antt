-- ===== src/Connection/Transfer.antt =====
-- What one connection's writer has written, read by the frame reader of another: ConnectionWrite.c
-- against ConnectionRead.c and ConnectionFrameReader.c.
mod Tests
use libamqp.Prelude.{
  ℕ, zero, suc, ◌+◌, ◌-◌, ◌*◌, ◌/◌, ◌%◌, ◌^◌, ◌≤◌, ◌<◌, ◌≡◌, ◌≢◌, ◌↔◌, ◌⊎◌, inl, inr, refl, sym, ap,
  ◌∙◌, Bool, true, false, ◌&&◌, ◌||◌, not, Option, none, some, List, [], ◌∷◌, ◌++◌, map, arith, ltb,
  leb, ◌==◌, if◌then◌else◌, Bool-cases, Option-cases, if_true, if_false, ltb→lt, lt→ltb, le→ltb,
  leb→le, le→leb, gt→leb, ==→eq, length, get_elem?, get_elem?-some, get_elem?-lt, length-append,
  update, All, take, drop, take-drop, length-take, length-drop, ==-false,
}
use mathlib.Core.Path.{subst}
use mathlib.Core.List.{append_assoc, append-nil}
use libamqp.Prelude.Outcome.{returns-eq, Outcome, returns, stops}
use libamqp.Connection.Reader.{read_buffer_capacity, ReaderState, Socket, Reader}
use libamqp.Connection.Frames.{FrameState, FrameReader, read_uint32, start_frames}
use libamqp.Connection.Frames.Spec.{concat, joined, IsFrame, Rest, no_header}
use libamqp.Connection.Frames.Phase.{read_uint32-append}
use libamqp.Connection.Frames.OneRead.{IsOpen}
use libamqp.Connection.Frames.Split.{IsSplit, start_frames_lem}
use libamqp.Connection.Frames.Unique.{
  append-cancel, unique, in_order, in_order-All, in_order-concat,
}
use libamqp.Connection.Writer.{WriterState, Write, Writer, Request, run}
use libamqp.Connection.Writer.Invariant.{
  IsWriter, is_initialized, is_enabled, is_writing, is_stopping, is_stopped, is_failed,
}
use libamqp.Connection.Writer.Controlled.{prefix_of}
use libamqp.Connection.Writer.Cleanup.{Serves}
use libamqp.Connection.Writer.Requests.{run_lem, all_given, IsRefused}

-- Frames that are cut from a beginning of a run of frames are the first of them.
first_frames :
    (max : ℕ) (xs ys : List (List ℕ)) (a : List ℕ)
    → concat xs ++ a ≡ concat ys
    → All (IsFrame max) xs
    → All (IsFrame max) ys
    → (later : List (List ℕ)) × (xs ++ later ≡ ys)
first_frames max [] ys a e p q = (ys, refl)
first_frames max (x ∷ xs) [] a e p q = absurd (
    omega (
      arith,
      p.0.valid.0,
      length-append (x ++ concat xs) a,
      length-append x (concat xs),
      ap length e,
    ))
first_frames max (x ∷ xs) (y ∷ ys) a e p q =
    let whole : x ++ (concat xs ++ a) ≡ y ++ concat ys = sym (append_assoc x (concat xs) a) ∙ e in
    let sizes = returns-eq (
      sym (read_uint32-append x (concat xs ++ a) (length x) p.0.sized)
      ∙ ap read_uint32 whole
      ∙ read_uint32-append y (concat ys) (length y) q.0.sized) in
    let (first, others) = append-cancel x y (concat xs ++ a) (concat ys) sizes whole in
    let (later, more) = first_frames max xs ys a others p.1 q.1 in
    (later, ap (λ z. z ∷ xs ++ later) first ∙ ap (λ l. y ∷ l) more)

-- What a run of requests that returns has come to.
served_run :
    (qs : List Request) (socket left : List Write) (w w' : Writer)
    → IsWriter w []
    → run qs (socket, w) ≡ returns (left, w')
    → IsWriter w' (all_given qs)
served_run qs socket left w w' fine runs = elim (run_lem qs socket w [] fine) [
  | inl r ↦ absurd (cc (r.ends, runs))
  | inr (socket', w'', runs', fine') ↦
      subst (λ v. IsWriter v (all_given qs)) (cc (runs, runs')) fine'
]

-- An enabled writer has nothing left to write.
enabled_or_not :
    (w : Writer) (given : List ℕ)
    → IsWriter w given
    → (w.written ≡ given) ⊎ (w.state ≢ WriterState.enabled)
enabled_or_not w given (is_enabled at watched idle) = inl idle.all_written
enabled_or_not w given (is_initialized at watched idle) = inl idle.all_written
enabled_or_not w given (is_writing left at watched busy) = inr (λ e. cc (at, e))
enabled_or_not w given (is_stopping left at watched called busy) = inr (λ e. cc (at, e))
enabled_or_not w given (is_stopped at over) = inr (λ e. cc (at, e))
enabled_or_not w given (is_failed at over) = inr (λ e. cc (at, e))

-- The frames that have come, in order, and those of the writer that have not.
abbrev pub Arrives : FrameReader → Writer → List (List ℕ) → Type 0
Arrives f w frames =
    (later : List (List ℕ)) × (in_order f.frames [] ++ later ≡ frames)
    × ((later ≡ []) ⊎ (w.state ≢ WriterState.enabled))

arrives :
    (max : ℕ) (f : FrameReader) (w : Writer) (given rest : List ℕ) (frames : List (List ℕ))
    → IsWriter w given
    → given ≡ concat frames
    → All (IsFrame max) frames
    → IsSplit max w.written f.frames rest
    → Arrives f w frames
arrives max f w given rest frames fine same whole split =
    let here = in_order f.frames [] in
    let ours = in_order-All max f.frames [] split.whole tt in
    let bytes : concat here ++ rest ≡ w.written =
      ap (λ l. l ++ rest) (in_order-concat f.frames [] ∙ append-nil (joined f.frames))
      ∙ split.joins in
    elim (enabled_or_not w given fine) [
      | inl all ↦ (
        [],
        append-nil here
            ∙ unique max here frames rest [] (bytes ∙ all ∙ same ∙ sym (append-nil (concat frames)))
                ours whole split.behind (no_header (omega arith)),
        inl refl,
      )
      | inr off ↦
          let (lost, prefix) = prefix_of w given fine in
          let (later, first) =
            first_frames max here frames (rest ++ lost)
              (sym (append_assoc (concat here) rest lost)
                ∙ ap (λ l. l ++ lost) bytes
                ∙ prefix
                ∙ same)
              ours whole in
          (later, first, inr off)
    ]

-- Frames that are handed to a writer which is fine and new, among any requests that are served, and
-- read by a frame reader from what the socket has taken, in pieces that are not empty, `readv` then
-- reporting `EAGAIN`: the reader comes to rest, and what it has handed on are the first of those
-- frames, in order and unchanged; they are all of them if the writer is enabled, and so has not
-- stopped, failed or been kept waiting. Each frame is as long as its header says, the maximal frame
-- size is at most 4097, so that a frame fits the read buffer, the reader and the frame reader are
-- enabled and have no frame yet, and there are two more rounds than bytes at the least.
pub transfer_lem :
    (qs : List Request) (out left : List Write) (w w' : Writer) (n : ℕ) (s : Socket) (r : Reader)
    (f : FrameReader) (frames : List (List ℕ))
    → IsWriter w []
    → run qs (out, w) ≡ returns (left, w')
    → all_given qs ≡ concat frames
    → All (IsFrame f.max_frame_size) frames
    → concat s.chunks ≡ w'.written
    → r.state ≡ ReaderState.enabled
    → f.state ≡ FrameState.enabled
    → f.frames ≡ []
    → f.max_frame_size ≤ read_buffer_capacity + 1
    → IsOpen s
    → length (concat s.chunks) < n
    → (s' : Socket) × (r' : Reader) × (f' : FrameReader) × (start_frames (suc (suc n)) s r f
        ≡ returns (s', (r', f')))
      × Arrives f' w' frames
transfer_lem qs out left w w' n s r f frames fine runs given whole sent on e none_yet small open_s
      bound =
    let (s', r', f', reads, settled) = start_frames_lem n s r f on e none_yet small open_s bound in
    let split =
      subst (λ b. IsSplit f.max_frame_size b f'.frames (r'.buffer ++ concat s'.chunks)) sent
        settled.split in
    (
      s',
      r',
      f',
      reads,
      arrives f.max_frame_size f' w' (all_given qs) (r'.buffer ++ concat s'.chunks) frames
          (served_run qs out left w w' fine runs) given whole split,
    )
