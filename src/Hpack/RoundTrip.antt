-- ===== src/Hpack/RoundTrip.antt =====
-- What the encoder writes and the decoder reads back.
pub mod Strings
pub mod Fields
pub mod Headers
