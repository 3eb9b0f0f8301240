-- ===== src/Examples.antt =====
-- The theorems at concrete inputs.
pub mod Frames
pub mod Compression
pub mod Streams
pub mod Connections
pub mod Blocks
pub mod Messages
