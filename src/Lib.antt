-- ===== src/Lib.antt =====
-- libamqp: the AMQP 1.0 codec, from the bytes of a buffer to a tree of typed objects and back, the
-- header of a frame, the pools of objects, and the frames that a connection reads.
--
-- The program. A buffer (LibAmqp/Buffer) is up to sixteen fragments of 4096 bytes with a read point
-- and a write point. The decoder (LibAmqp/Codec/Decode/Decode.c) reads a format code, looks it up in
-- a sorted table (LibAmqp/Codec/Type/EncodingMetaData.c), and runs the decoder that the entry names,
-- which fills an object from a pool (LibAmqp/Codec/Type/Type.h) and calls `amqp_decode` again for the
-- elements of a container. The encoder (LibAmqp/Codec/Encode/Encode.c) appends format codes and
-- values, keeps the open containers on a chain, and writes sizes and counts over the fields left for
-- them when a container is complete. All paths stand under src/ of the repository.
--
-- The files.
--   Prelude: library names passed on, Boolean tests on numbers, native lengths and indexing.
--   Buffer: `amqp_buffer_t` as a record, one function for each inline operation of BufferInlines.h
--     under its name without the prefix; Buffer/Words the network byte order, Buffer/Capacity
--     `amqp_buffer_grow`, Buffer/IoVec the scatter lists and the block copy, Buffer/Contents the callbacks
--     of the pool, the reference count and the copy of a whole buffer; Buffer/Laws, Buffer/Bytes,
--     Buffer/IoVec/Proofs and Buffer/IoVec/Copy laws, Buffer/Tests runs and instances.
--   Codec/Errors, Codec/Flags: the error codes and the type flags.
--   Codec/MetaData: an entry of the table; Table the 52 entries, Lookup the binary search, Search its
--     proof.
--   Codec/State: `amqp_type_t` as a record in a store of objects, and the state monad in which
--     operations run; an outcome is a result, an abort with its cause, or `stuck` for a model that
--     has run out of fuel. Codec/State/Hoare is a program logic in which the one abort that is allowed
--     is an end that the source means, `not_implemented` or a misuse, with `Returns` beside it for a
--     code that returns, with no abort allowed.
--   Codec/Decode: Fixed, Variable, Compound the decoders and Run the dispatch; Sound what they keep to,
--     with a file for each of those and more for constructors, elements, arrays, described types and a
--     step of the recursion.
--   Codec/Encode: the constructor of a new object and the open containers; Fixed, Variable, Compound
--     the encoders.
--     Containers, ArrayConstructor, Overwrite and Completion are about the open containers and the
--     fields that are written when they are complete.
--   Codec/RoundTrip: Reading, Storing, Words and Writing are about single values, Scalar, Cases, Variable,
--     Data, Sized and DataTrip lead from an encoder to a decoder, and there is a file for each group of
--     types; PastEnd is about a read point behind the end. Codec/Samples has
--     states for runs, and Codec/Tests runs and instances.
--   Codec/Cleanup: what goes back with an object that is deallocated (LibAmqp/Codec/Type/Type.c); Frees,
--     Tree, Once and Whole about objects that form a tree, Stale about an empty list.
--   Frame: the header of a frame (LibAmqp/Transport/Frame), `decode_frame` up to its call of
--     `amqp_decode`, and `amqp_encode_frame` over a callback for the fields; Frame/Header its laws.
--     Frame/Performative the rest of Frame.c: the descriptor, the performative and the two kinds of frame,
--     with Laws by what the object of a frame is, and Empty about empty frames.
--   Memory/Mask: the map of free places in a block; Bytes, Laws and Whole what its operations do to it.
--   Memory/Pool: the pools of LibAmqp/Memory/Pool.c; Sizes, Fitting and Layout how a pool is laid
--     out, Chain, Vacate and Unlink the list of its blocks, Invariant what holds between two calls, Room,
--     NewBlock and Allocate the one call, Delete and Release the other, Objects a client's calls,
--     Pool/Tests runs and instances.
--   Connection/Reader: the reader of a connection (LibAmqp/Transport/Connection/IO/ConnectionRead.c) over a
--     socket that gives its bytes in pieces and a client whose callbacks it calls.
--   Connection/Frames: the frame reader (LibAmqp/Transport/Connection/ConnectionFrameReader.c) as such a
--     client. Spec says what a stream is to be cut into; Phase, Needed, Branches and Callback, OneRead,
--     Round and Stream are about a callback, a read, and the loop over reads; Split, Unique and
--     End about whole events.
--   Connection/Writer: the writer (LibAmqp/Transport/Connection/IO/ConnectionWrite.c) over a socket that
--     takes bytes as it likes; Invariant what holds between two requests, Cleanup and Rounds how it stops
--     and writes, Controlled and Served what each request does, Requests runs of them, Taking and Drain
--     an event loop over a socket that goes on taking bytes.
--   Connection/Negotiator: the protocol header (LibAmqp/Transport/Connection/Negotiator.c), with Version its
--     round trip; Connection/Negotiation: the two sides of ConnectionNegotiation.c beside it, with
--     Agreement about a client and a server. Connection/Transfer: one connection's writer against the
--     frame reader of another.
--
-- Choices. Numbers are native naturals, `size_t` arithmetic that can wrap has its modulus written out,
-- and a signed value is given by its bits. The union of an object is one number, its first eight bytes
-- on a little endian machine, of which the shorter values are the low bytes, and a separate list for a
-- uuid. Addresses are numbers, null is 0; a new object is at the next address and holds what was
-- there before, as the pool does not clear. The recursion of the decoder runs on fuel, one round more
-- than there are bytes left to read: each call has read a format code at least, so this is enough, and
-- the model is never stuck. Where the decoder reads without a test of its own, a value, a character or
-- a byte of a uuid, the model tests that the byte lies in front of the write point, and a read behind
-- it is a fault. The binary search runs on one round more than the table is long.
--
-- A pool stands by itself: its blocks are entries of a heap, and `malloc` and the destroyer, which may
-- give back other objects of the pool before it returns, are parameters. The codec's objects do not go
-- through it. The search along its list has as many rounds as its caller gives, more
-- than there are blocks; the halving loops end within thirteen.
--
-- A client's calls of the reader are carried out when its callback has returned, as each is the last
-- thing that the callback does. A connection that shuts down or fails stops its reader at once, as it
-- does with nothing left to write. The read buffer is one fragment of 4096 bytes, which nothing makes
-- longer: the `assert` of `amqp_buffer_write_io_vec` on the room in it is part of a read, and the
-- theorems about frames ask for a maximal frame size of at most 4097. The reader's loop runs on two rounds more than
-- there are bytes.
--
-- Not modelled: log messages and printing, `malloc` and the guards of Memory.c; the fields of
-- performatives, the rest of the connection, SASL, the event loop, threads and third party code.
pub mod Prelude
pub mod Buffer
pub mod Codec
pub mod Frame
pub mod Memory
pub mod Connection
