-- ===== src/Connection/Samples.antt =====
-- A writer, a reader and a frame reader for runs and instances, with nothing written or read.
use libamqp.Prelude.{true, false, none, []}
use libamqp.Connection.Reader.{ReaderState, Reader}
use libamqp.Connection.Frames.{FrameState, FrameReader}
use libamqp.Connection.Writer.{WriterState, Writer}

abbrev pub new_writer : Writer
new_writer = record {
  state = WriterState.initialized;
  watcher = false;
  watching = false;
  buffer_queue = λ _. none;
  start = 0;
  end = 0;
  stopped_callback = false;
  write_error_flag = false;
  output_shut = false;
  written = [];
  done_calls = 0;
  fail_calls = 0;
}

abbrev pub reader : Reader
reader = record {
  state = ReaderState.enabled;
  watcher = true;
  watching = false;
  queued = false;
  n_required = 0;
  satisfied = 0;
  buffer = [];
  read_eof_flag = false;
  read_error_flag = false;
}

abbrev pub frame_reader : FrameReader
frame_reader = record {
  state = FrameState.enabled;
  frame_size = 0;
  max_frame_size = 512;
  frames = [];
  shut = false;
  failed = false;
}
