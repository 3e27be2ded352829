-- ===== src/Connection/Writer/Invariant.antt =====
-- What holds of the writer between two requests, and which requests it serves.
use libamqp.Prelude.{
  ℕ, ◌+◌, ◌%◌, ◌<◌, ◌≡◌, ◌≢◌, refl, ap, ◌∙◌, Bool, true, false, none, some, List, [], ◌∷◌, ◌++◌,
  arith, take, drop, take-drop,
}
use mathlib.Core.List.{append_assoc}
use libamqp.Prelude.Outcome.{stops}
use libamqp.Connection.Writer.{
  WriterState, initialized, enabled, writing, stopping, stopped, failed, Write, takes, would_block,
  breaks, Writer, Written, all_taken, Request, enable, continue_write, stop, abort, write,
  write_loop, handle, step,
}

-- What the socket has taken and what is left are the bytes; a loop that ends in good order leaves none.
pub record Splits (bytes : List ℕ) (l : Written) : Type 0 where
  pub parts : l.sent ++ l.left ≡ bytes
  pub whole : l.how ≡ all_taken → l.left ≡ []

pub write_loop_lem : (socket : List Write) (bytes : List ℕ) → Splits bytes (write_loop socket bytes)
unfolding write_loop
write_loop_lem [] [] = record { parts = refl; whole = λ _. refl }
write_loop_lem (x ∷ socket) [] = record { parts = refl; whole = λ _. refl }
write_loop_lem [] (b ∷ bs) = record { parts = refl; whole = λ e. absurd (cc (e)) }
write_loop_lem (takes n ∷ socket) (b ∷ bs) =
    let rest = write_loop_lem socket (drop n (b ∷ bs)) in
    record {
      parts =
          append_assoc (take n (b ∷ bs)) (write_loop socket (drop n (b ∷ bs))).sent
            (write_loop socket (drop n (b ∷ bs))).left
          ∙ ap (λ l. take n (b ∷ bs) ++ l) rest.parts
          ∙ take-drop n (b ∷ bs);
      whole = rest.whole;
    }
write_loop_lem (would_block ∷ socket) (b ∷ bs) = record {
  parts = refl;
  whole = λ e. absurd (cc (e));
}
write_loop_lem (breaks c ∷ socket) (b ∷ bs) = record { parts = refl; whole = λ e. absurd (cc (e)) }

-- Nothing is queued, and the socket has taken all that the writer has been given.
pub record IsIdle (w : Writer) (given : List ℕ) : Type 0 where
  pub empty : w.start ≡ w.end
  pub in_range : w.start < 3
  pub queue : (i : ℕ) → w.buffer_queue i ≡ none
  pub all_written : w.written ≡ given

-- One buffer is queued: what the socket has taken and what is left of it are all that was given.
pub record IsBusy (w : Writer) (given : List ℕ) (left : List ℕ) : Type 0 where
  pub one : w.end ≡ (w.start + 1) % 3
  pub in_range : w.start < 3
  pub first : w.buffer_queue w.start ≡ some left
  pub others : (i : ℕ) → i ≢ w.start → w.buffer_queue i ≡ none
  pub in_order : w.written ++ left ≡ given

-- All buffers have been given back; the socket has taken the first of the bytes.
pub record IsOver (w : Writer) (given : List ℕ) : Type 0 where
  pub queue : (i : ℕ) → w.buffer_queue i ≡ none
  pub prefix : (lost : List ℕ) × (w.written ++ lost ≡ given)

pub data IsWriter (w : Writer) (given : List ℕ) : Type 0 where
  is_initialized : w.state ≡ initialized → w.watcher ≡ false → IsIdle w given → IsWriter w given
  is_enabled : w.state ≡ enabled → w.watcher ≡ true → IsIdle w given → IsWriter w given
  is_writing :
      (left : List ℕ)
      → w.state ≡ writing
      → w.watcher ≡ true
      → IsBusy w given left
      → IsWriter w given
  is_stopping :
      (left : List ℕ)
      → w.state ≡ stopping
      → w.watcher ≡ true
      → w.stopped_callback ≡ true
      → IsBusy w given left
      → IsWriter w given
  is_stopped : w.state ≡ stopped → IsOver w given → IsWriter w given
  is_failed : w.state ≡ failed → IsOver w given → IsWriter w given

-- The requests that a state serves.
unfoldable pub is_served : WriterState → Request → Bool
is_served initialized enable = true
is_served _ enable = false
is_served enabled (write _) = true
is_served writing (write none) = true
is_served _ (write _) = false
is_served enabled continue_write = true
is_served writing continue_write = true
is_served stopping continue_write = true
is_served _ continue_write = false
is_served _ stop = true
is_served _ abort = true

pub unserved_stops :
    (q : Request) (socket : List Write) (w : Writer)
    → is_served w.state q ≡ false
    → step q (socket, w) ≡ stops
unfolding step handle is_served
unserved_stops q socket w e = unserved w.state q socket w e
  where
    unserved :
        (s : WriterState) (q : Request) (socket : List Write) (w : Writer)
        → is_served s q ≡ false
        → handle s q socket w ≡ stops
    unserved initialized continue_write socket w e = refl
    unserved initialized (write b) socket w e = refl
    unserved s q socket w e = ground (arith, e)
