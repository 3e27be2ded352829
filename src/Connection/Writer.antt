-- ===== src/Connection/Writer.antt =====
-- The writer of a connection, Transport/Connection/IO/ConnectionWrite.c, over a socket that takes bytes as
-- it likes. What it calls of the connection is noted: `done` and `fail`.
pub mod Invariant
pub mod Cleanup
pub mod Rounds
pub mod Controlled
pub mod Served
pub mod Requests
pub mod Taking
pub mod Drain
mod Tests
use libamqp.Prelude.{
  ℕ, zero, suc, ◌+◌, ◌-◌, ◌*◌, ◌/◌, ◌%◌, ◌^◌, ◌≤◌, ◌<◌, ◌≡◌, ◌≢◌, ◌↔◌, ◌⊎◌, inl, inr, refl, sym, ap,
  ◌∙◌, Bool, true, false, ◌&&◌, ◌||◌, not, Option, none, some, List, [], ◌∷◌, ◌++◌, map, arith, ltb,
  leb, ◌==◌, if◌then◌else◌, Bool-cases, Option-cases, if_true, if_false, ltb→lt, lt→ltb, le→ltb,
  leb→le, le→leb, gt→leb, ==→eq, length, get_elem?, get_elem?-some, get_elem?-lt, length-append,
  update, All, take, drop,
}
use libamqp.Prelude.Outcome.{Outcome, returns, stops, undefined, ◌>>=◌, assert}

pub data WriterState : Type 0 where
  initialized enabled writing stopping stopped failed : WriterState

-- What one `writev` does: it takes so many of the bytes at most, or fails with `EAGAIN` or another
-- error.
pub data Write : Type 0 where
  takes : ℕ → Write
  would_block : Write
  breaks : ℕ → Write

-- The queue holds the bytes of each buffer that are still to be written. `written` are those that the
-- socket has taken; `done_calls` and `fail_calls` count the calls of the connection.
pub record Writer : Type 0 where
  pub state : WriterState
  pub watcher : Bool
  pub watching : Bool
  pub buffer_queue : ℕ → Option (List ℕ)
  pub start : ℕ
  pub end : ℕ
  pub stopped_callback : Bool
  pub write_error_flag : Bool
  pub output_shut : Bool
  pub written : List ℕ
  pub done_calls : ℕ
  pub fail_calls : ℕ

abbrev pub write_queue_size : ℕ
write_queue_size = 3

abbrev pub with_writer_state : Writer → WriterState → Writer
with_writer_state w s = record w { state = s }

unfoldable pub cleanup_write_watcher : Writer → Writer
cleanup_write_watcher w = if w.watcher then record w { watcher = false; watching = false } else w

-- The watcher is stopped and destroyed, and every buffer of the queue is given back.
unfoldable pub cleanup_resources : Writer → Writer
cleanup_resources w = record (cleanup_write_watcher (record w { watching = false })) {
  buffer_queue = λ _. none;
}

abbrev pub confirm : Writer → Writer
confirm w = record w { done_calls = w.done_calls + 1 }

-- The callback is cleared before it is called; there has to be one.
unfoldable pub call_done_callback : Writer → Outcome Writer
call_done_callback w =
    assert w.stopped_callback >>= λ _. returns (confirm (record w { stopped_callback = false }))

unfoldable pub increment_queue_index : ℕ → ℕ
increment_queue_index i = (i + 1) % write_queue_size

unfoldable pub writer_fail : Writer → Writer
writer_fail w =
    let w' = cleanup_resources (with_writer_state w failed) in
    record w' { write_error_flag = true; fail_calls = w'.fail_calls + 1 }

unfoldable pub writer_cleanup : Writer → Writer
writer_cleanup w = record (cleanup_resources (with_writer_state w stopped)) { output_shut = true }

unfoldable pub writer_stop : Writer → Outcome Writer
writer_stop w = call_done_callback (writer_cleanup (record w { stopped_callback = true }))

-- How the loop over `writev` ends.
pub data WriteEnd : Type 0 where
  all_taken blocked : WriteEnd
  broken : WriteEnd

pub record Written : Type 0 where
  pub sent : List ℕ
  pub left : List ℕ
  pub later : List Write
  pub how : WriteEnd

-- A socket that says no more takes nothing for now.
unfoldable pub write_loop : List Write → List ℕ → Written
write_loop socket [] = record { sent = []; left = []; later = socket; how = all_taken }
write_loop [] (b ∷ bs) = record { sent = []; left = b ∷ bs; later = []; how = blocked }
write_loop (takes n ∷ socket) (b ∷ bs) =
    let rest = write_loop socket (drop n (b ∷ bs)) in
    record rest { sent = take n (b ∷ bs) ++ rest.sent }
write_loop (would_block ∷ socket) (b ∷ bs) = record {
  sent = [];
  left = b ∷ bs;
  later = socket;
  how = blocked;
}
write_loop (breaks _ ∷ socket) (b ∷ bs) = record {
  sent = [];
  left = b ∷ bs;
  later = socket;
  how = broken;
}

-- The action of each state when a buffer has been written.
unfoldable pub write_complete : Writer → Outcome Writer
write_complete w = elim w.state [
  | writing ↦ returns (if w.start == w.end then with_writer_state w enabled else w)
  | stopping ↦ if w.start == w.end then writer_stop w else returns w
  | _ ↦ stops
]

unfoldable pub fail_write : Writer → Outcome Writer
fail_write w = elim w.state [
  | enabled ↦ returns (writer_fail w)
  | writing ↦ returns (writer_fail w)
  | stopping ↦ returns (writer_fail w)
  | _ ↦ stops
]

-- The buffer at the start of the queue with what is left of it, after a round of writing.
abbrev pub after_loop : Writer → Written → Writer
after_loop w l = record w {
  buffer_queue = update w.buffer_queue w.start (some l.left);
  written = w.written ++ l.sent;
}

abbrev pub taken_off : Writer → Writer
taken_off w = record w {
  buffer_queue = update w.buffer_queue w.start none;
  start = increment_queue_index w.start;
}

unfoldable pub finish_write : Writer → WriteEnd → Outcome Writer
finish_write w all_taken = write_complete (taken_off w)
finish_write w blocked = returns (record w { watching = true })
finish_write w broken = fail_write w

unfoldable pub continue_write_operation : List Write → Writer → Outcome (List Write × Writer)
continue_write_operation socket w = elim (w.buffer_queue w.start) [
  | none ↦ undefined
  | some bytes ↦
      let l = write_loop socket bytes in
      finish_write (after_loop w l) l.how >>= λ w'. returns (l.later, w')
]

unfoldable pub commence_write_operation :
    List Write → Writer → List ℕ → Outcome (List Write × Writer)
commence_write_operation socket w bytes = continue_write_operation socket (record w {
  end = increment_queue_index w.end;
  buffer_queue = update w.buffer_queue w.end (some bytes);
})

-- What is asked of the writer: by the connection, and by the event that the socket can take bytes. The
-- buffer to be written may be null.
pub data Request : Type 0 where
  enable continue_write stop abort : Request
  write : Option (List ℕ) → Request

abbrev pub only : List Write → Outcome Writer → Outcome (List Write × Writer)
only socket o = o >>= λ w. returns (socket, w)

unfoldable pub enable_while_initialized : Writer → Outcome Writer
enable_while_initialized w =
    assert (not w.watcher) >>= λ _. returns (record w { watcher = true; state = enabled })

unfoldable pub stop_while_initialized : Writer → Outcome Writer
stop_while_initialized w =
    call_done_callback (with_writer_state (record w { stopped_callback = true }) stopped)

-- The actions of the states; the last clause of each request is the default.
unfoldable pub handle : WriterState → Request → List Write → Writer → Outcome (List Write × Writer)
handle initialized enable socket w = only socket (enable_while_initialized w)
handle _ enable socket w = stops
handle enabled (write none) socket w = returns (socket, w)
handle enabled (write (some bytes)) socket w =
    commence_write_operation socket (with_writer_state w writing) bytes
handle writing (write none) socket w = returns (socket, w)
handle _ (write _) socket w = stops
handle enabled continue_write socket w = returns (socket, record w { watching = false })
handle writing continue_write socket w =
    continue_write_operation socket (record w { watching = false })
handle stopping continue_write socket w =
    continue_write_operation socket (record w { watching = false })
handle _ continue_write socket w = stops
handle initialized stop socket w = only socket (stop_while_initialized w)
handle enabled stop socket w = only socket (writer_stop w)
handle writing stop socket w =
    returns (socket, record w { stopped_callback = true; state = stopping })
handle _ stop socket w = returns (socket, confirm w)
handle initialized abort socket w = returns (socket, with_writer_state w stopped)
handle stopped abort socket w = returns (socket, w)
handle failed abort socket w = returns (socket, w)
handle _ abort socket w = returns (socket, writer_cleanup w)

unfoldable pub step : Request → List Write × Writer → Outcome (List Write × Writer)
step q (socket, w) = handle w.state q socket w

unfoldable pub run : List Request → List Write × Writer → Outcome (List Write × Writer)
run [] m = returns m
run (q ∷ qs) m = step q m >>= λ m'. run qs m'
