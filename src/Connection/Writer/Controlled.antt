-- ===== src/Connection/Writer/Controlled.antt =====
-- A change of anything but the queue, and what has been written in any state.
use libamqp.Prelude.{ℕ, ◌≡◌, ◌∙◌, Bool, some, List, [], ◌++◌}
use mathlib.Core.List.{append-nil}
use libamqp.Connection.Writer.{WriterState, Writer, Request, write}
use libamqp.Connection.Writer.Invariant.{
  IsIdle, IsBusy, IsOver, IsWriter, is_initialized, is_enabled, is_writing, is_stopping, is_stopped,
  is_failed,
}

unfoldable pub given_by : Request → List ℕ
given_by (write (some bytes)) = bytes
given_by _ = []

-- What has been written of what was given, in any state.
pub prefix_of :
    (w : Writer) (given : List ℕ) → IsWriter w given → (lost : List ℕ) × (w.written ++ lost ≡ given)
prefix_of w given (is_initialized _ _ idle) = ([], append-nil w.written ∙ idle.all_written)
prefix_of w given (is_enabled _ _ idle) = ([], append-nil w.written ∙ idle.all_written)
prefix_of w given (is_writing left _ _ busy) = (left, busy.in_order)
prefix_of w given (is_stopping left _ _ _ busy) = (left, busy.in_order)
prefix_of w given (is_stopped _ over) = over.prefix
prefix_of w given (is_failed _ over) = over.prefix

-- A change of anything but the queue and what has been written.
abbrev pub controlled : Writer → WriterState → Bool → Bool → Bool → ℕ → Writer
controlled w s watcher watching callback calls = record w {
  state = s;
  watcher = watcher;
  watching = watching;
  stopped_callback = callback;
  done_calls = calls;
}

pub controlled-IsIdle :
    (w : Writer) (given : List ℕ) (s : WriterState) (a b c : Bool) (n : ℕ)
    → IsIdle w given
    → IsIdle (controlled w s a b c n) given
controlled-IsIdle w given s a b c n idle = record {
  empty = idle.empty;
  in_range = idle.in_range;
  queue = idle.queue;
  all_written = idle.all_written;
}

pub controlled-IsBusy :
    (w : Writer) (given left : List ℕ) (s : WriterState) (a b c : Bool) (n : ℕ)
    → IsBusy w given left
    → IsBusy (controlled w s a b c n) given left
controlled-IsBusy w given left s a b c n busy = record {
  one = busy.one;
  in_range = busy.in_range;
  first = busy.first;
  others = busy.others;
  in_order = busy.in_order;
}

pub controlled-IsOver :
    (w : Writer) (given : List ℕ) (s : WriterState) (a b c : Bool) (n : ℕ)
    → IsOver w given
    → IsOver (controlled w s a b c n) given
controlled-IsOver w given s a b c n over = record { queue = over.queue; prefix = over.prefix }

pub idle-IsOver : (w : Writer) (given : List ℕ) → IsIdle w given → IsOver w given
idle-IsOver w given idle = record {
  queue = idle.queue;
  prefix = ([], append-nil w.written ∙ idle.all_written);
}
