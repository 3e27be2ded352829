-- ===== src/Connection/Reader.antt =====
-- The reader of a connection, Transport/Connection/IO/ConnectionRead.c. Its callbacks are those of a
-- client with a state of its own, whose calls of the reader are carried out after it has returned.
use libamqp.Prelude.{
  ℕ, zero, suc, ◌+◌, ◌-◌, ◌%◌, ◌^◌, Bool, true, false, ◌&&◌, not, Option, none, some, List, [], ◌∷◌,
  ◌++◌, ltb, leb, ◌==◌, if◌then◌else◌, length, take, drop,
}
use libamqp.Buffer.{buffer_fragment_size}
use libamqp.Prelude.Outcome.{Outcome, returns, stops, undefined, ◌>>=◌, assert}

pub data ReaderState : Type 0 where
  initialized enabled reading failed eof eof_alerted stopped : ReaderState

-- What `readv` reports when no byte is there: `EAGAIN`, the end, `ECONNRESET`, another error.
pub data Ending : Type 0 where
  again closed reset : Ending
  broken : ℕ → Ending

-- The bytes that lie ready, in the pieces in which `readv` gives them, and what comes then.
pub record Socket : Type 0 where
  pub chunks : List (List ℕ)
  pub ending : Ending

-- `queued`: a buffer and a callback are set. `buffer`: what that buffer holds.
pub record Reader : Type 0 where
  pub state : ReaderState
  pub watcher : Bool
  pub watching : Bool
  pub queued : Bool
  pub n_required : ℕ
  pub satisfied : ℕ
  pub buffer : List ℕ
  pub read_eof_flag : Bool
  pub read_error_flag : Bool

-- A client's calls.
pub data Call : Type 0 where
  reset_buffer stop : Call
  commence_read : ℕ → Call

abbrev pub with_state : Reader → ReaderState → Reader
with_state r s = record r { state = s }

unfoldable pub cleanup_reader : Reader → Reader
cleanup_reader r = if r.watcher then record r { watcher = false; watching = false } else r

unfoldable pub reader_stop : Reader → Reader
reader_stop r = with_state (cleanup_reader (record r { watching = false })) stopped

-- The stop of each state; by default nothing.
unfoldable pub stop_reader : ReaderState → Reader → Reader
stop_reader initialized r = with_state r stopped
stop_reader enabled r = reader_stop r
stop_reader reading r = reader_stop r
stop_reader _ r = r

unfoldable pub queue_read_operation : Reader → ℕ → Reader
queue_read_operation r required = record r { queued = true; n_required = required; satisfied = 0 }

unfoldable pub is_partial_read : Reader → Bool
is_partial_read r = ltb 0 r.satisfied && ltb r.satisfied r.n_required

-- How the loop over `readv` ends.
pub data ReadEnd : Type 0 where
  complete would_block at_end : ReadEnd
  error : ℕ → ReadEnd

pub record Read : Type 0 where
  pub got : List ℕ
  pub left : List (List ℕ)
  pub how : ReadEnd

abbrev pub end_of : Ending → ReadEnd
end_of again = would_block
end_of closed = at_end
end_of reset = at_end
end_of (broken code) = error code

-- Each round one `readv`: at most the bytes that are needed, of one piece; no byte is the end.
unfoldable pub read_loop : ℕ → List (List ℕ) → Ending → Read
read_loop needed [] ending = record { got = []; left = []; how = end_of ending }
read_loop needed ([] ∷ chunks) ending = record { got = []; left = chunks; how = at_end }
read_loop needed ((x ∷ chunk) ∷ chunks) ending =
    let rest = read_loop (needed - length (x ∷ chunk)) chunks ending in
    if ltb (length (x ∷ chunk)) needed
    then record rest { got = x ∷ chunk ++ rest.got }
    else if length (x ∷ chunk) == needed
    then record { got = x ∷ chunk; left = chunks; how = complete }
    else record {
      got = take needed (x ∷ chunk);
      left = drop needed (x ∷ chunk) ∷ chunks;
      how = complete;
    }

abbrev pub cleared : Reader → Reader
cleared r = record r { queued = false; satisfied = 0 }

-- The buffer of a connection is one fragment, as the pool has set it up; nothing makes it longer.
abbrev pub read_buffer_capacity : ℕ
read_buffer_capacity = buffer_fragment_size

-- `int needed`: the lower half of a difference of two `size_t`, its sign the highest bit.
abbrev pub needed_by : Reader → ℕ
needed_by r = (2 ^ 64 + r.n_required - r.satisfied) % 2 ^ 32

module _ {C : Type 0} (read_done : C → Option (List ℕ) → ℕ → Outcome (C × List Call))
    (connection_fail : C → Outcome (C × List Call)) where
  -- The client's calls in order; a callback runs while reading or at the end of the input. While
  -- reading, a read is queued; at the end of the input the client is told so once more, at once.
  unfoldable pub perform :
      (Reader × C → Outcome (Reader × C)) → List Call → Reader × C → Outcome (Reader × C)
  perform callback [] m = returns m
  perform callback (reset_buffer ∷ calls) (r, c) =
      perform callback calls (record r { buffer = [] }, c)
  perform callback (stop ∷ calls) (r, c) = perform callback calls (stop_reader r.state r, c)
  perform callback (commence_read n ∷ calls) (r, c) = elim r.state [
    | reading ↦ assert (not r.queued) >>= λ _. perform callback calls (queue_read_operation r n, c)
    | eof ↦ callback (record r { state = eof_alerted; satisfied = 0 }, c) >>= λ m.
        perform callback calls m
    | _ ↦ stops
  ]

  -- `none` is a null pointer: at the end of the input no buffer is set for the second notice.
  unfoldable pub call_read_callback : ℕ → Reader × C → Outcome (Reader × C)
  call_read_callback zero m = undefined
  call_read_callback (suc n) (r, c) =
      read_done c (if r.queued then some r.buffer else none) r.satisfied >>= λ d.
      perform (call_read_callback n) d.1 (cleared r, d.0)

  -- The watcher is gone, the state is failed, and the connection fails.
  unfoldable pub fail_reader : ℕ → Reader × C → Outcome (Reader × C)
  fail_reader n (r, c) = connection_fail c >>= λ d. perform (call_read_callback n) d.1 (
    record (cleanup_reader (record r { watching = false })) {
      state = failed;
      read_error_flag = true;
    },
    d.0,
  )

  unfoldable pub read_eof : ℕ → Reader × C → Outcome (Reader × C)
  read_eof n (r, c) =
      if is_partial_read r
      then fail_reader n (record r { read_eof_flag = true }, c)
      else call_read_callback n (record r { read_eof_flag = true; state = eof }, c)

  -- The flag says whether the read is complete and its callback has been called.
  unfoldable pub finish_read :
      ℕ → ReadEnd → Socket → Reader × C → Outcome (Bool × Socket × (Reader × C))
  finish_read n complete s m = call_read_callback n m >>= λ m'. returns (true, s, m')
  finish_read n would_block s (r, c) = returns (false, s, (record r { watching = true }, c))
  finish_read n at_end s m = read_eof n m >>= λ m'. returns (false, s, m')
  finish_read n (error code) s m = fail_reader n m >>= λ m'. returns (false, s, m')

  -- The loop over `readv` and what follows it.
  unfoldable pub read_needed : ℕ → ℕ → Socket → Reader × C → Outcome (Bool × Socket × (Reader × C))
  read_needed needed n s (r, c) =
      let l = read_loop needed s.chunks s.ending in
      let r' = record r { buffer = r.buffer ++ l.got; satisfied = r.satisfied + length l.got } in
      finish_read n l.how (record s { chunks = l.left }) (r', c)

  -- The second `assert` is that of `amqp_buffer_write_io_vec`; what is needed and what is free go down
  -- together, so that it holds in each round if it holds in the first.
  unfoldable pub read_what_is_buffered :
      ℕ → Socket → Reader × C → Outcome (Bool × Socket × (Reader × C))
  unfolding read_needed
  read_what_is_buffered n s (r, c) =
      let needed = needed_by r in
      assert (ltb 0 needed && ltb needed (2 ^ 31)) >>= λ _.
      assert (leb (length r.buffer + needed) read_buffer_capacity) >>= λ _.
      read_needed needed n s (r, c)

  -- The loop of `delayed_read_while_reading`.
  unfoldable pub delayed_loop : ℕ → Socket → Reader × C → Outcome (Socket × (Reader × C))
  delayed_loop zero s m = undefined
  delayed_loop (suc n) s (r, c) =
      let once = read_what_is_buffered n s (with_state r reading, c) >>= λ d.
      let more = delayed_loop n d.1 d.2 in if d.0 then more else returns (d.1, d.2) in
      if r.queued then once else returns (s, (with_state r enabled, c))

  unfoldable pub delayed_read : ℕ → Socket → Reader × C → Outcome (Socket × (Reader × C))
  delayed_read n s (r, c) = elim r.state [
    | reading ↦ delayed_loop n s (r, c)
    | _ ↦ returns (s, (r, c))
  ]

  abbrev pub then_delayed :
      ℕ → Outcome (Bool × Socket × (Reader × C)) → Outcome (Socket × (Reader × C))
  then_delayed n o = o >>= λ d. if d.0 then delayed_read n d.1 d.2 else returns (d.1, d.2)

  -- A read from outside a callback.
  unfoldable pub commence_read_while_enabled :
      ℕ → ℕ → Socket → Reader × C → Outcome (Socket × (Reader × C))
  commence_read_while_enabled n required s (r, c) =
      then_delayed n
        (read_what_is_buffered n s (queue_read_operation (with_state r reading) required, c))

  -- The event that there is something to read.
  unfoldable pub continue_read : ℕ → Socket → Reader × C → Outcome (Socket × (Reader × C))
  continue_read n s (r, c) = elim r.state [
    | enabled ↦ returns (s, (record r { watching = false }, c))
    | reading ↦ then_delayed n (read_what_is_buffered n s (record r { watching = false }, c))
    | _ ↦ stops
  ]

unfoldable pub enable_reader : Reader → Outcome Reader
enable_reader r = elim r.state [
  | initialized ↦
      assert (not r.watcher) >>= λ _. returns (record r { watcher = true; state = enabled })
  | _ ↦ stops
]

unfoldable pub reset_reader : Reader → Outcome Reader
reset_reader r = elim r.state [
  | initialized ↦ enable_reader r
  | reading ↦ returns (record r { watching = false; state = enabled })
  | eof_alerted ↦ returns (with_state r eof)
  | _ ↦ returns r
]
