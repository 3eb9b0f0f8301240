-- ===== src/Hpack.antt =====
-- httpbis/src/hpack: header compression, a module for each file of that folder. `Integer` holds the
-- integers of encoder.rs and decoder.rs.
pub mod Error
pub mod Integer
pub mod StaticTable
pub mod DynamicTable
pub mod HeaderTable
pub mod Huffman
pub mod Encoder
pub mod Decoder
pub mod RoundTrip
