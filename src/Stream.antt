-- ===== src/Stream.antt =====
-- The streams of a connection, httpbis/src/common: their states, the queue of what is to be sent, the
-- step that takes the next frame out of it, the map of all streams, the record of the streams closed
-- last, and which side a stream belongs to.
pub mod State
pub mod Queue
pub mod Outgoing
pub mod Closed
pub mod Role
pub mod Map
