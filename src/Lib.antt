-- ===== src/Lib.antt =====
-- A model of pajamax, a gRPC server over HTTP/2, and what is proved of it.
--
-- A connection is one task. It reads the client's magic (handshake), then turns the bytes of its
-- socket into frames (handle_connection), runs each frame (process_frame), reads header blocks
-- with the HPACK decoder, and hands whole requests to the services. Services answer through a
-- channel to a writer task of the same connection, which owns the HPACK encoder.
--
-- Which file models what:
-- Outcome: how a call ends: `Result<_, Error>` of pajamax/src/error.rs, a panic, or `stuck`, which
-- stands for a loop of the model that ran out of fuel and for nothing in the code.
-- Http2 and below: pajamax/src/http2.rs. Frame kinds, flags, `FrameHeader::parse`, `Frame::parse`,
-- `strip_data_padding`, `strip_headers`, the `build_` functions and `handshake`. A write into
-- `output[start..]` is `write_at` on a list of bytes.
-- Hpack.Int: `decode_int` of pajamax/src/hpack_decoder.rs and `encode_int` of
-- pajamax/src/hpack_encoder.rs. Hpack.Decoder: the rest of hpack_decoder.rs; each arm of the loop
-- of `find_path_and_encoding` is a function `on_...`, and `Found` is its variables.
-- Huffman: pajamax/src/huffman/mod.rs, and both tables of huffman/table.rs entry by entry.
-- Connection.Process: `process_frame`, `resolve_route` and `decode_grpc_message` of
-- pajamax/src/connection.rs. `Conn` holds the local variables of `handle_connection` that
-- `process_frame` borrows, with a list of effects: the requests spawned and the jobs sent.
-- Connection.Feed: the loop of `handle_connection`. `round` is one turn of `while pos < len`,
-- `feed` the bytes of one read, `on_read` a read with its window credit, `serve` all reads.
-- Connection.Invariant: what holds of a connection after any reads. Connection.Credit: what does
-- not depend on where the reads are cut. Connection.Settings: SETTINGS of the client.
-- Hpack.Encoder: the headers written by pajamax/src/hpack_encoder.rs. Hpack.Encoder.Peer is a
-- reader of header blocks after RFC 7541, which the code does not have: what the bytes mean to a
-- client.
-- Response: `build_response` and `build_status` of pajamax/src/http2.rs, pajamax/src/status.rs,
-- and in Response.Writer the `writer_task` of pajamax/src/response_end.rs, over a list of jobs
-- with what each write ends with. Response.Client is a reader of frames and of gRPC messages that
-- stands for a client and takes frames of any length below 2^24, Response.Delivery the writes that
-- a client is owed.
-- Server: `ConnectionBalancer`, the accept task of `balanced_loop`, and `accept_loop` of
-- pajamax/src/connection.rs, over the sockets that are accepted and the tasks that end.
-- The tests and the concrete runs stand in the modules named Runs.
--
-- Numbers are natural numbers; where the code's width matters (`as u32`, `as u8`, the shifts of
-- the Huffman encoder's `u64`) the remainder is written out. Bytes are numbers, and a theorem that
-- needs them below 256 says so. The loops over a buffer run on fuel equal to its length, since
-- each round takes at least one byte, and so does the loop over SETTINGS; the handshake has 24
-- rounds, since each that goes on adds a byte to `total`; `encode_int` has ten rounds, enough for
-- a value below 2^64, and the inner loop of the Huffman encoder five, since at most 37 bits are
-- pending.
--
-- Parameters: the `route` methods of the services, which are generated code, and the decompressors
-- of flate2 and zstd (`Env`); and the encoding of a reply (prost), which is a function on the
-- output that the theorems take to append the message.
--
-- Not modelled: sockets and the runtime (compio), logging, allocation and capacity, the worker
-- loop of `balanced_loop`, the text of foreign errors, and the order in which spawned tasks run.
-- `Frame::process_headers` and `Frame::process_data` are unused copies of the strip functions.
-- Header tables are never evicted, as in the code. The code generator, dispatch mode, the setters
-- of the configuration and the examples are left out.
pub mod Prelude
pub mod Outcome
pub mod Http2
pub mod Hpack
pub mod Huffman
pub mod Connection
pub mod Response
pub mod Server
