-- ===== src/Connection/Writer/Tests.antt =====
-- Runs of the writer, and instances of the theorems on it.
use libamqp.Prelude.{ℕ, ◌≡◌, ◌⊎◌, ◌++◌, refl, true, false, none, some, List, [], ◌∷◌, arith, update}
use libamqp.Prelude.Outcome.{Outcome, returns, stops, ◌>>=◌}
use libamqp.Connection.Writer.{
  Write, takes, would_block, breaks, Writer, WriterState, Request, enable, continue_write, stop,
  write, step, run, handle, enable_while_initialized, commence_write_operation,
  continue_write_operation, write_loop, finish_write, write_complete, writer_stop, writer_cleanup,
  cleanup_resources, cleanup_write_watcher, call_done_callback, increment_queue_index, fail_write,
  writer_fail,
}
use libamqp.Connection.Writer.Invariant.{IsBusy, IsWriter, is_initialized}
use libamqp.Connection.Writer.Cleanup.{Serves}
use libamqp.Connection.Writer.Requests.{run_lem, all_given, IsRefused}
use libamqp.Connection.Writer.Drain.{stop_drains}
use libamqp.Connection.Writer.Taking.{Drained, event_loop, capacity, unbroken}
use libamqp.Connection.Samples.{new_writer}

-- The socket takes a byte, blocks, and takes the others.
abbrev socket : List Write
socket = takes 1 ∷ would_block ∷ takes 2 ∷ []

abbrev bytes : List ℕ
bytes = 1 ∷ 2 ∷ 3 ∷ []

abbrev requests : List Request
requests = enable ∷ write (some bytes) ∷ stop ∷ continue_write ∷ []

new_writer-IsWriter : IsWriter new_writer []
new_writer-IsWriter =
    is_initialized refl refl
      (record { empty = refl; in_range = omega arith; queue = λ i. refl; all_written = refl })

run_lem_example :
    IsRefused requests socket new_writer
    ⊎ Serves (run requests (socket, new_writer)) ([] ++ all_given requests)
run_lem_example = run_lem requests socket new_writer [] new_writer-IsWriter

-- A byte has been written, and the writer waits for the socket.
abbrev busy_writer : Writer
busy_writer = record {
  state = WriterState.writing;
  watcher = true;
  watching = true;
  buffer_queue = update (λ _. none) 0 (some (2 ∷ 3 ∷ []));
  start = 0;
  end = 1;
  stopped_callback = false;
  write_error_flag = false;
  output_shut = false;
  written = 1 ∷ [];
  done_calls = 0;
  fail_calls = 0;
}

busy_writer-IsBusy : IsBusy busy_writer bytes (2 ∷ 3 ∷ [])
busy_writer-IsBusy = record {
  one = refl;
  in_range = omega arith;
  first = refl;
  others = λ i n. ground (arith, n);
  in_order = refl;
}

abbrev rest : List Write
rest = would_block ∷ takes 1 ∷ would_block ∷ takes 9 ∷ []

stop_drains_example :
    (socket' : List Write) × (w' : Writer) × (step stop (rest, busy_writer) >>= event_loop 5
      ≡ returns (socket', w'))
    × Drained WriterState.stopping 0 bytes w'
unfolding capacity unbroken
stop_drains_example =
    stop_drains 5 rest busy_writer bytes (2 ∷ 3 ∷ []) refl refl busy_writer-IsBusy refl
      (omega arith) (omega arith)

-- What is left of a run: the bytes that the socket took, and the calls of `done` and `fail`.
abbrev outcome_of : Outcome (List Write × Writer) → Outcome (List ℕ × ℕ × ℕ)
outcome_of o = o >>= λ (_, w). returns (w.written, w.done_calls, w.fail_calls)

stopped_in_order : outcome_of (run requests (socket, new_writer)) ≡ returns (bytes, 1, 0)
unfolding run step handle enable_while_initialized commence_write_operation continue_write_operation
    finish_write write_loop write_complete increment_queue_index writer_stop call_done_callback
    writer_cleanup cleanup_resources cleanup_write_watcher
stopped_in_order = refl

broken_off :
    outcome_of (run (enable ∷ write (some bytes) ∷ []) (takes 1 ∷ breaks 32 ∷ [], new_writer))
    ≡ returns (1 ∷ [], 0, 1)
unfolding run step handle enable_while_initialized commence_write_operation continue_write_operation
    finish_write write_loop fail_write writer_fail cleanup_resources cleanup_write_watcher
broken_off = refl

second_write :
    run (enable ∷ write (some bytes) ∷ write (some bytes) ∷ []) (socket, new_writer) ≡ stops
unfolding run step handle enable_while_initialized commence_write_operation continue_write_operation
    finish_write write_loop
second_write = refl
