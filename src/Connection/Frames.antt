-- ===== src/Connection/Frames.antt =====
-- The frame reader of a connection, Transport/Connection/ConnectionFrameReader.c, as the client of the
-- reader. The application takes each frame and asks for the next one.
pub mod Spec
pub mod Phase
pub mod Branches
pub mod Callback
pub mod Needed
pub mod OneRead
pub mod Round
pub mod Stream
pub mod Split
pub mod Unique
pub mod End
mod Tests
use libamqp.Prelude.{
  ℕ, zero, suc, ◌+◌, ◌-◌, ◌*◌, ◌/◌, ◌%◌, ◌^◌, ◌≤◌, ◌<◌, ◌≡◌, ◌≢◌, ◌↔◌, ◌⊎◌, inl, inr, refl, sym, ap,
  ◌∙◌, Bool, true, false, ◌&&◌, ◌||◌, not, Option, none, some, List, [], ◌∷◌, ◌++◌, map, arith, ltb,
  leb, ◌==◌, if◌then◌else◌, Bool-cases, Option-cases, if_true, if_false, ltb→lt, lt→ltb, le→ltb,
  leb→le, le→leb, gt→leb, ==→eq, length, get_elem?, get_elem?-some, get_elem?-lt, length-append,
  update, All, take, drop,
}
use libamqp.Prelude.Outcome.{Outcome, returns, stops, undefined, ◌>>=◌}
use libamqp.Connection.Reader.{
  ReaderState, Socket, Reader, Call, reset_buffer, stop, commence_read, commence_read_while_enabled,
  continue_read, stop_reader,
}
use libamqp.Frame.{frame_header_size}

-- 'A' 'M' 'Q' 'P'
abbrev pub amqp_protocol_header : ℕ
amqp_protocol_header = 0x414d5150

pub data FrameState : Type 0 where
  initialized enabled reading_frame_header reading_frame_body stopped : FrameState

-- `frames` are those handed to the application, the last one first; `shut` and `failed` say that the
-- connection has been told to shut down or has failed.
pub record FrameReader : Type 0 where
  pub state : FrameState
  pub frame_size : ℕ
  pub max_frame_size : ℕ
  pub frames : List (List ℕ)
  pub shut : Bool
  pub failed : Bool

abbrev pub with_frame_state : FrameReader → FrameState → FrameReader
with_frame_state f s = record f { state = s }

abbrev pub with_frame_size : FrameReader → ℕ → FrameReader
with_frame_size f n = record f { frame_size = n }

abbrev pub Calls : Type 0
Calls = Outcome (FrameReader × List Call)

unfoldable pub enable_frames : FrameReader → FrameReader
enable_frames f = elim f.state [ initialized ↦ with_frame_state f FrameState.enabled | _ ↦ f ]

-- The read of each state; by default it is an error of the program.
unfoldable pub read_frame : FrameState → FrameReader → Calls
read_frame FrameState.enabled f =
    returns
      (with_frame_state f reading_frame_header, reset_buffer ∷ commence_read frame_header_size ∷ [])
read_frame reading_frame_header f = returns (f, [])
read_frame reading_frame_body f = returns (f, [])
read_frame _ f = stops

-- The connection shuts down, with nothing left to write, or fails: its reader is stopped.
abbrev pub shutdown : FrameReader → Calls
shutdown f = returns (record f { shut = true }, stop ∷ [])

abbrev pub amqp_connection_failed : FrameReader → Calls
amqp_connection_failed f = returns (record f { failed = true }, stop ∷ [])

-- The first four bytes of the buffer.
unfoldable pub read_uint32 : List ℕ → Outcome ℕ
read_uint32 (a ∷ b ∷ c ∷ d ∷ _) = returns (((a * 256 + b) * 256 + c) * 256 + d)
read_uint32 _ = undefined

unfoldable pub frame_available : FrameReader → List ℕ → Calls
frame_available f buffer =
    let taken = record f { state = FrameState.enabled; frames = buffer ∷ f.frames } in
    read_frame taken.state taken

unfoldable pub invalid_size : FrameReader → ℕ → Bool
invalid_size f size =
    leb f.max_frame_size size || (ltb size frame_header_size || (size == amqp_protocol_header))

unfoldable pub read_done_while_reading_frame_header : FrameReader → List ℕ → ℕ → Calls
read_done_while_reading_frame_header f buffer amount =
    if amount == 0
    then shutdown f
    else if not (amount == frame_header_size)
    then amqp_connection_failed f
    else (read_uint32 buffer >>= λ size.
        let f' = with_frame_size f size in
        if invalid_size f size
        then amqp_connection_failed f'
        else if size == frame_header_size
        then frame_available f' buffer
        else returns
            (with_frame_state f' reading_frame_body, commence_read (size - frame_header_size) ∷ []))

unfoldable pub read_done_while_reading_frame_body : FrameReader → List ℕ → ℕ → Calls
read_done_while_reading_frame_body f buffer amount =
    if not (amount == f.frame_size - frame_header_size)
    then amqp_connection_failed f
    else frame_available f buffer

-- The callback of each state. A null buffer is not looked at where nothing has been read.
unfoldable pub frame_read_done : FrameReader → Option (List ℕ) → ℕ → Calls
frame_read_done f buffer amount = elim f.state [
  | reading_frame_header ↦ elim buffer [
    | some bytes ↦ read_done_while_reading_frame_header f bytes amount
    | none ↦ if amount == 0 then shutdown f else undefined
  ]
  | reading_frame_body ↦ elim buffer [
    | some bytes ↦ read_done_while_reading_frame_body f bytes amount
    | none ↦ amqp_connection_failed f
  ]
  | stopped ↦ returns (f, [])
  | _ ↦ stops
]

unfoldable pub stop_frames : FrameReader → FrameReader
stop_frames f = with_frame_state f stopped

-- The reader with its frames: the first read, and the event that there is something to read.
abbrev pub Reading : Type 0
Reading = Outcome (Socket × (Reader × FrameReader))

-- The calls of a read from outside a callback, on a reader that is enabled.
unfoldable pub from_outside : ℕ → List Call → Socket → Reader → FrameReader → Reading
from_outside n [] s r f = returns (s, (r, f))
from_outside n (reset_buffer ∷ calls) s r f = from_outside n calls s (record r { buffer = [] }) f
from_outside n (stop ∷ calls) s r f = from_outside n calls s (stop_reader r.state r) f
from_outside n (commence_read required ∷ calls) s r f = elim r.state [
  | ReaderState.enabled ↦
      commence_read_while_enabled frame_read_done amqp_connection_failed n required s (r, f)
  | _ ↦ stops
]

unfoldable pub start_frames : ℕ → Socket → Reader → FrameReader → Reading
start_frames n s r f = read_frame f.state f >>= λ d. from_outside n d.1 s r d.0

unfoldable pub more_frames : ℕ → Socket → Reader → FrameReader → Reading
more_frames n s r f = continue_read frame_read_done amqp_connection_failed n s (r, f)
