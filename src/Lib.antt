-- ===== src/Lib.antt =====
-- A model of the core of rust-http2: HTTP/2 frames, HPACK header compression, flow-control windows,
-- streams, the codec that cuts and joins frames, and the state of a connection with its handlers, with
-- the theorems that make them correct. Paths are from the root of the repository.
--
-- How the parts interact: a connection receives octets; the codec cuts them into raw frames, parses
-- these into typed frames and joins blocks of headers, whose fragments go through the HPACK decoder,
-- whose table follows that of the peer's encoder. The connection hands each frame to its handler,
-- which changes windows, settings and the map of streams, and queues frames in answer. On the way out
-- a stream keeps a queue of headers and data, out of which commands are taken as the windows of the
-- stream and of the connection allow; the connection splits these into frames and queues them.
--
-- Frame: httpbis/src/solicit/frame. Frame/Header and Frame/Raw hold FrameHeader, RawFrame and their
--   functions of mod.rs; there is a module for each frame type, named as its file, with its from_raw,
--   get_header and serialize_into; Frame/HttpFrame is the enum of all frames. Frame/HeadersMulti is
--   HeadersMultiFrame of headers.rs, Frame/Decoded the enums of httpbis/src/solicit_misc.rs and of
--   decoded frames, Frame/FrameType the enum of frame_type.rs. Frame/Flags, Frame/Error,
--   Frame/Padding and Frame/Builder are what they share, Frame/ErrorCode is
--   httpbis/src/solicit/error_code.rs.
-- Hpack: httpbis/src/hpack. Integer holds encode_integer_into of encoder.rs and decode_integer of
--   decoder.rs; StaticTable, DynamicTable, HeaderTable, Huffman, Encoder and Decoder are the files and
--   structs of these names.
-- Window: httpbis/src/solicit/window_size.rs.
-- Error: httpbis/src/error.rs.
-- Stream: State is StreamState of httpbis/src/solicit/session.rs with close_local and close_remote of
--   httpbis/src/common/stream.rs; Queue is httpbis/src/common/stream_queue.rs; Outgoing is is_writable
--   and pop_outg of stream.rs; Closed is httpbis/src/common/closed_streams.rs; Map is
--   httpbis/src/common/stream_map.rs, a StreamMap with the operations of HttpStreamRef on the id of a
--   stream; Role is httpbis/src/common/client_or_server.rs and init_where.rs.
-- Codec: httpbis/src/codec. FramedRead and Join are HttpFramedRead and HttpFramedJoinContinuationRead
--   of http_framed_read.rs on the octets that have arrived, DecodeRead is HttpDecodeRead of
--   http_decode_read.rs; QueuedWrite is queued_write.rs.
-- Connection: httpbis/src/common/conn.rs; Read and Dispatch are the handlers of conn_read.rs, Write
--   is conn_write.rs; Headers is process_headers of httpbis/src/client/conn.rs and
--   httpbis/src/server/conn.rs, which the role of the connection chooses from.
-- Message: httpbis/src/solicit/header, the names and values of headers and their validation, with
--   httpbis/src/req_resp.rs and headers_place.rs.
-- Prelude: lists, tests and bits on native numbers, integers, and Outcome, what a call ends in.
-- Examples: the theorems at concrete inputs.
--
-- Conventions: an octet is a number; integers of a width are numbers with their wrap-around written
-- out; a usize is a number without a bound. A Result is an Outcome, with a panic as a case of its own;
-- a function that returns no Result and may panic gives an Option. A mutable object is a record that an
-- operation gives back; a buffer that is only appended to is the list of what is written.
--
-- Fuel: the loop of encode_integer_into has the value as its fuel, which a division by 128 makes
-- enough; that of decode_with_cb has the length of the buffer, which is enough because each round
-- consumes an octet; that of the joining reader has one more than the length of the buffer, of which
-- each round takes nine octets at least; that of write_all has two more than the number of octets, and
-- that of write_part_data their number, which are enough where the limit on frames is not 0. All other
-- loops are structural.
--
-- Not modelled: sockets, TLS, futures, channels and atomics, which are I/O and the scheduling of the
-- async runtime, with the windows that a connection shares with senders; user callbacks; the loop over
-- all writable streams in buffer_outg_conn; the requests that a client starts; the constructors of
-- headers of messages.
pub mod Prelude
pub mod Frame
pub mod Hpack
pub mod Window
pub mod Stream
pub mod Error
pub mod Codec
pub mod Connection
pub mod Examples
pub mod Message
