-- ===== src/Codec.antt =====
-- Frames to and from the octets of a connection, httpbis/src/codec: cutting frames off what was read,
-- joining the fragments of headers, and what is queued to be written.
pub mod FramedRead
pub mod Join
pub mod DecodeRead
pub mod QueuedWrite
