-- ===== src/Connection/Frames/Tests.antt =====
-- Runs of the frame reader, and instances of the theorems on it.
use libamqp.Prelude.{◌≡◌, refl, true, false, [], ◌∷◌, ◌++◌, arith}
use libamqp.Prelude.Outcome.{returns}
use libamqp.Connection.Reader.{
  ReaderState, Socket, again, closed, Reader, commence_read_while_enabled, read_loop, perform,
  call_read_callback, read_what_is_buffered, delayed_loop, delayed_read, stop_reader,
  queue_read_operation, finish_read, reader_stop, cleanup_reader,
}
use libamqp.Connection.Frames.{
  FrameState, FrameReader, Reading, start_frames, more_frames, from_outside, read_frame,
  frame_read_done, read_done_while_reading_frame_header, read_done_while_reading_frame_body,
  read_uint32, frame_available, invalid_size,
}
use libamqp.Connection.Frames.Spec.{concat, no_header}
use libamqp.Connection.Frames.Phase.{IsReading}
use libamqp.Connection.Frames.Phase.{header}
use libamqp.Connection.Frames.OneRead.{IsOpen, IsWaiting}
use libamqp.Connection.Frames.Round.{waiting}
use libamqp.Connection.Frames.Split.{IsSettled, start_frames_lem, more_frames_lem}
use libamqp.Connection.Frames.Unique.{frames_of, start_frames_pieces}
use libamqp.Connection.Frames.End.{Ended, more_frames-end}
use libamqp.Connection.Samples.{reader, frame_reader}

-- Two frames in three pieces, with the beginning of a third one.
abbrev pieces : Socket
pieces = record {
  chunks =
      (0 ∷ 0 ∷ 0 ∷ [])
      ∷ (10 ∷ 2 ∷ 0 ∷ 0 ∷ 0 ∷ 7 ∷ 8 ∷ 0 ∷ 0 ∷ [])
      ∷ (0 ∷ 8 ∷ 2 ∷ 0 ∷ 0 ∷ 0 ∷ 0 ∷ [])
      ∷ [];
  ending = again;
}

two_frames :
    frames_of (start_frames 9 pieces reader frame_reader)
    ≡ (0 ∷ 0 ∷ 0 ∷ 8 ∷ 2 ∷ 0 ∷ 0 ∷ 0 ∷ []) ∷ (0 ∷ 0 ∷ 0 ∷ 10 ∷ 2 ∷ 0 ∷ 0 ∷ 0 ∷ 7 ∷ 8 ∷ []) ∷ []
unfolding start_frames from_outside read_frame commence_read_while_enabled queue_read_operation
    read_what_is_buffered read_loop call_read_callback perform delayed_read delayed_loop
    frame_read_done read_done_while_reading_frame_header read_done_while_reading_frame_body
    read_uint32 frame_available invalid_size finish_read
two_frames = refl

-- The second frame has the size of 512, which is the limit and is refused: a reader that has been
-- stopped inside the loop over queued reads ends as enabled, without its watcher.
abbrev at_limit : Socket
at_limit = record {
  chunks = (0 ∷ 0 ∷ 0 ∷ 8 ∷ 2 ∷ 0 ∷ 0 ∷ 0 ∷ 0 ∷ 0 ∷ 2 ∷ 0 ∷ 2 ∷ 0 ∷ 0 ∷ 0 ∷ []) ∷ [];
  ending = again;
}

data Revived : Reading → Type 0 where
  revived :
      (s : Socket) (r : Reader) (f : FrameReader)
      → r.state ≡ ReaderState.enabled
      → r.watcher ≡ false
      → f.failed ≡ true
      → Revived (returns (s, (r, f)))

at_limit_runs : Revived (start_frames 9 at_limit reader frame_reader)
unfolding start_frames from_outside read_frame commence_read_while_enabled queue_read_operation
    read_what_is_buffered read_loop call_read_callback perform delayed_read delayed_loop
    frame_read_done read_done_while_reading_frame_header read_done_while_reading_frame_body
    read_uint32 frame_available invalid_size finish_read stop_reader reader_stop cleanup_reader
at_limit_runs = revived _ _ _ refl refl refl

pieces-IsOpen : IsOpen pieces
pieces-IsOpen = record { ending = refl; pieces = omega arith }

start_frames_lem_example :
    (s' : Socket) × (r' : Reader) × (f' : FrameReader) × (start_frames 30 pieces reader frame_reader
      ≡ returns (s', (r', f')))
    × IsSettled 512 (concat pieces.chunks) s' r' f'
start_frames_lem_example =
    start_frames_lem 28 pieces reader frame_reader refl refl refl (omega arith) pieces-IsOpen
      (omega arith)

-- The same bytes in one piece.
abbrev one_piece : Socket
one_piece = record { chunks = concat pieces.chunks ∷ []; ending = again }

start_frames_pieces_example :
    frames_of (start_frames 30 pieces reader frame_reader)
    ≡ frames_of (start_frames 30 one_piece reader frame_reader)
start_frames_pieces_example =
    start_frames_pieces 28 pieces one_piece reader frame_reader refl refl refl (omega arith)
      pieces-IsOpen (record { ending = refl; pieces = omega arith }) refl (omega arith)

-- Two readers that wait in the header of the first frame, three bytes of which have come.
abbrev three_read : Reader
three_read = record {
  state = ReaderState.reading;
  watcher = true;
  watching = true;
  queued = true;
  n_required = 8;
  satisfied = 3;
  buffer = 0 ∷ 0 ∷ 0 ∷ [];
  read_eof_flag = false;
  read_error_flag = false;
}

abbrev in_header : FrameReader
in_header = record {
  state = FrameState.reading_frame_header;
  frame_size = 0;
  max_frame_size = 512;
  frames = [];
  shut = false;
  failed = false;
}

abbrev drained : Socket
drained = record { chunks = []; ending = again }

three_read-IsReading : IsReading 512 three_read in_header
three_read-IsReading = record {
  small = omega arith;
  state = refl;
  queued = refl;
  wants = omega arith;
  phase = header refl refl refl;
}

three_read-IsWaiting : IsWaiting 512 drained three_read in_header
three_read-IsWaiting = record { reads = three_read-IsReading; all_read = refl; watching = refl }

three_read-IsSettled : IsSettled 512 (0 ∷ 0 ∷ 0 ∷ []) drained three_read in_header
three_read-IsSettled = record {
  split = record { joins = refl; whole = tt; behind = no_header (omega arith) };
  rests = waiting three_read-IsWaiting;
  kept = refl;
}

abbrev later : Socket
later = record { chunks = (8 ∷ 2 ∷ 0 ∷ []) ∷ (0 ∷ 0 ∷ []) ∷ []; ending = again }

more_frames_lem_example :
    (s' : Socket) × (r' : Reader) × (f' : FrameReader) × (more_frames 12 later three_read in_header
      ≡ returns (s', (r', f')))
    × IsSettled 512 ((0 ∷ 0 ∷ 0 ∷ []) ++ concat later.chunks) s' r' f'
more_frames_lem_example =
    more_frames_lem 10 (0 ∷ 0 ∷ 0 ∷ []) drained later three_read in_header three_read-IsSettled
      three_read-IsWaiting (record { ending = refl; pieces = omega arith }) (omega arith)

more_frames-end_example : Ended 4 (record { chunks = []; ending = closed }) three_read in_header
more_frames-end_example = more_frames-end 3 closed three_read in_header refl three_read-IsReading
