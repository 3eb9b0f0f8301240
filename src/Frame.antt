-- ===== src/Frame.antt =====
-- httpbis/src/solicit/frame: the HTTP/2 frames, a module for each file of that folder.
pub mod Error
pub mod Flags
pub mod Header
pub mod Builder
pub mod Raw
pub mod Padding
pub mod Data
pub mod ErrorCode
pub mod RstStream
pub mod WindowUpdate
pub mod Ping
pub mod Goaway
pub mod Continuation
pub mod Priority
pub mod Settings
pub mod Headers
pub mod HeadersMulti
pub mod PushPromise
pub mod HttpFrame
pub mod FrameType
pub mod Decoded
