-- ===== src/Frame/Builder.antt =====
-- What the frames write (httpbis/src/solicit/frame/builder.rs, httpbis/src/codec/write_buffer.rs).
-- The buffer is the sequence of its bytes; how `WriteBuffer` chunks them is left out.
use rust_http.Prelude.{ℕ, List, [], ◌∷◌, ◌++◌, replicate}
use rust_http.Frame.Header.{FrameHeader, pack_header, octet}

abbrev pub WriteBuffer : Type 0
WriteBuffer = List ℕ

-- `extend_from_slice`, which is also `write_slice`.
abbrev pub extend_from_slice : WriteBuffer → List ℕ → WriteBuffer
extend_from_slice b bytes = b ++ bytes

abbrev pub extend_from_bytes : WriteBuffer → List ℕ → WriteBuffer
extend_from_bytes b bytes = b ++ bytes

abbrev pub write_header : WriteBuffer → FrameHeader → WriteBuffer
write_header b header = b ++ pack_header header

abbrev pub write_padding : WriteBuffer → ℕ → WriteBuffer
write_padding b padding_length = b ++ replicate padding_length 0

abbrev pub write_u32 : WriteBuffer → ℕ → WriteBuffer
write_u32 b num = extend_from_slice b (octet num 24 ∷ octet num 16 ∷ octet num 8 ∷ octet num 0 ∷ [])
