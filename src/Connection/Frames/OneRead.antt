-- ===== src/Connection/Frames/OneRead.antt =====
-- What one read of a frame's bytes does: the reader and its callback together.
use libamqp.Prelude.{
  ℕ, suc, ◌+◌, ◌-◌, ◌<◌, ◌≡◌, inl, inr, refl, sym, ap, ◌∙◌, Bool, true, false, List, [], ◌++◌,
  arith, length, length-append, All,
}
use mathlib.Core.List.{append_assoc}
use libamqp.Prelude.Outcome.{returns}
use libamqp.Connection.Reader.{
  Socket, again, end_of, Read, complete, Reader, read_loop, read_needed, read_what_is_buffered,
  finish_read,
}
use libamqp.Connection.Frames.{FrameReader, frame_read_done, amqp_connection_failed}
use libamqp.Connection.Frames.Spec.{joined, IsFrame, concat, NonEmpty, Gets, read_loop_lem}
use libamqp.Connection.Frames.Branches.{Called}
use libamqp.Connection.Frames.Needed.{read_needed_lem}
use libamqp.Connection.Frames.Callback.{callback_lem}
use libamqp.Connection.Frames.Phase.{Phase, IsReading, IsBroken}
use libamqp.Connection.Frames.Phase.{header, body, read_uint32-append}

abbrev advanced : Reader → List ℕ → Reader
advanced r got = record r { buffer = r.buffer ++ got; satisfied = r.satisfied + length got }

advanced-Phase :
    (max : ℕ) (r : Reader) (f : FrameReader) (got : List ℕ)
    → Phase max r f
    → Phase max (advanced r got) f
advanced-Phase max r f got (header e required count) =
    header e required (length-append r.buffer got ∙ omega (arith, count))
advanced-Phase max r f got (body size e stored sized valid required count) =
    body size e stored (read_uint32-append r.buffer got size sized) valid required
      (length-append r.buffer got ∙ omega (arith, count))

-- All that lies ready, in the order in which it has come.
abbrev pub stream_of : Socket → Reader → FrameReader → List ℕ
stream_of s r f = joined f.frames ++ (r.buffer ++ concat s.chunks)

abbrev pub Reads : ℕ → Socket → Reader → FrameReader → Bool → Socket → Reader → FrameReader → Type 0
Reads n s r f flag s' r' f' =
    read_what_is_buffered frame_read_done amqp_connection_failed n s (r, f)
    ≡ returns (flag, s', (r', f'))

-- What stays true of a socket whose bytes have not ended.
pub record IsOpen (s : Socket) : Type 0 where
  pub ending : s.ending ≡ again
  pub pieces : NonEmpty s.chunks

pub record IsMoved (s : Socket) (r : Reader) (f : FrameReader) (s' : Socket) (r' : Reader)
    (f' : FrameReader) : Type 0 where
  pub stream : stream_of s' r' f' ≡ stream_of s r f
  pub whole : All (IsFrame f.max_frame_size) f'.frames
  pub kept : f'.max_frame_size ≡ f.max_frame_size
  pub still_open : IsOpen s'

-- All bytes have been read, and the watcher waits for more.
pub record IsWaiting (max : ℕ) (s : Socket) (r : Reader) (f : FrameReader) : Type 0 where
  pub reads : IsReading max r f
  pub all_read : s.chunks ≡ []
  pub watching : r.watching ≡ true

pub data Ends (max : ℕ) (s s' : Socket) (r' : Reader) (f' : FrameReader) : Bool → Type 0 where
  goes_on :
      length (concat s'.chunks) < length (concat s.chunks)
      → IsReading max r' f'
      → Ends max s s' r' f' true
  breaks : IsBroken max r' f' → Ends max s s' r' f' true
  waits : IsWaiting max s' r' f' → Ends max s s' r' f' false

regroup : (a b c d : List ℕ) → a ++ (b ++ c) ++ d ≡ a ++ (b ++ (c ++ d))
regroup a b c d = simp append_assoc

module _ (n : ℕ) (s : Socket) (r : Reader) (f : FrameReader)
    (reads : IsReading f.max_frame_size r f) (open_socket : IsOpen s)
    (whole : All (IsFrame f.max_frame_size) f.frames) where
  abbrev loop : Read
  loop = read_loop (r.n_required - r.satisfied) s.chunks s.ending

  abbrev left_socket : Socket
  left_socket = record s { chunks = loop.left }

  abbrev fed : Reader
  fed = advanced r loop.got

  gets : Gets (r.n_required - r.satisfied) s.chunks s.ending loop
  gets =
      read_loop_lem (r.n_required - r.satisfied) s.chunks s.ending (omega (arith, reads.wants))
        open_socket.pieces

  lengths : length loop.got + length (concat loop.left) ≡ length (concat s.chunks)
  lengths =
      sym (length-append loop.got (concat loop.left)) ∙ ap (λ (l : List ℕ). length l) gets.bytes

  fed_stream : stream_of left_socket fed f ≡ stream_of s r f
  fed_stream =
      ap (λ l. joined f.frames ++ l) (append_assoc r.buffer loop.got (concat loop.left))
      ∙ ap (λ l. joined f.frames ++ (r.buffer ++ l)) gets.bytes

  completed :
      (r' : Reader) (f' : FrameReader)
      → loop.how ≡ complete
      → Called n fed f r' f'
      → Reads (suc n) s r f true left_socket r' f'
  unfolding read_needed finish_read
  completed r' f' how called =
      read_needed_lem f.max_frame_size (suc n) s r f reads ∙ rw how (rw called refl)

  blocked :
      loop.how ≡ end_of again
      → Reads (suc n) s r f false left_socket (record fed { watching = true }) f
  unfolding read_needed finish_read
  blocked how = read_needed_lem f.max_frame_size (suc n) s r f reads ∙ rw how refl

  -- What a read comes to.
  abbrev ReadComes : Type 0
  ReadComes =
      (flag : Bool) × (s' : Socket) × (r' : Reader) × (f' : FrameReader) × Reads (suc n) s r f flag
        s' r' f'
      × IsMoved s r f s' r' f'
      × Ends f.max_frame_size s s' r' f' flag

  -- All the bytes are there: the callback is called.
  completes : length loop.got ≡ r.n_required - r.satisfied → loop.how ≡ complete → ReadComes
  completes enough how =
      let full : fed.satisfied ≡ fed.n_required = omega (arith, enough, reads.wants) in
      let (r', f', called, done) =
        callback_lem n fed f reads.state reads.queued reads.small full
          (advanced-Phase f.max_frame_size r f loop.got reads.phase) whole in
      (
        true,
        left_socket,
        r',
        f',
        completed r' f' how called,
        record {
          stream =
              sym (append_assoc (joined f'.frames) r'.buffer (concat loop.left))
              ∙ ap (λ l. l ++ concat loop.left) done.stream
              ∙ append_assoc (joined f.frames) fed.buffer (concat loop.left)
              ∙ fed_stream;
          whole = done.whole;
          kept = done.kept;
          still_open = record { ending = open_socket.ending; pieces = gets.left_fine };
        },
        elim done.next [
          | inl reading_on ↦ goes_on (omega (arith, lengths, enough, reads.wants)) reading_on
          | inr broken ↦ breaks broken
        ],
      )

  -- Some bytes are not there yet: the reader waits.
  falls_short :
      length loop.got < r.n_required - r.satisfied
      → loop.how ≡ end_of s.ending
      → loop.left ≡ []
      → ReadComes
  falls_short less how all = (
    false,
    left_socket,
    record fed { watching = true },
    f,
    blocked (how ∙ ap end_of open_socket.ending),
    record {
      stream = fed_stream;
      whole = whole;
      kept = refl;
      still_open = record { ending = open_socket.ending; pieces = gets.left_fine };
    },
    waits (record {
      reads = record {
        state = reads.state;
        queued = reads.queued;
        wants = omega (arith, less, reads.wants);
        small = reads.small;
        phase = waiting_phase (advanced-Phase f.max_frame_size r f loop.got reads.phase);
      };
      all_read = all;
      watching = refl;
    }),
  )
    where
      waiting_phase :
          Phase f.max_frame_size fed f → Phase f.max_frame_size (record fed { watching = true }) f
      waiting_phase (header e required count) = header e required count
      waiting_phase (body size e stored sized valid required count) =
          body size e stored sized valid required count

  -- One read, to its end or until no byte is left.
  pub read_lem : ReadComes
  read_lem = elim gets.ended [
    | inl (enough, how) ↦ completes enough how
    | inr (less, how, all) ↦ falls_short less how all
  ]
