-- ===== src/Frame/HeadersMulti.antt =====
-- `HeadersMultiFrame` of httpbis/src/solicit/frame/headers.rs: headers encoded into a HEADERS frame
-- and as many CONTINUATION frames as the limit on the size of a frame asks for. The tail of the write
-- buffer is the whole of it here, with offsets from its start. `none` is a panic; the loop of
-- `write_all` has fuel, and `diverged` where it runs out. The encoder writes its octets in pieces;
-- here they are written as one. A piece goes on in the frame that the one before it left open, which
-- `write_all` finishes only where an octet follows.
pub mod Split
use rust_http.Prelude.{
  ℕ, zero, suc, ◌+◌, ◌-◌, ◌%◌, ◌^◌, List, [], ◌∷◌, ◌++◌, length, take, drop, Option, none, some,
  min, leb, ltb, not, Bool, true, false, if◌then◌else◌,
}
use rust_http.Prelude.Outcome.{Outcome, ok, diverged, ◌>>=◌, ◌>>◌, or_panic, assert}
use mathlib.Core.Option
use rust_http.Frame.Flags
use rust_http.Frame.Flags.{Flags}
use rust_http.Frame.Header.{FrameHeader, pack_header, frame_header_len}
use rust_http.Frame.Builder.{WriteBuffer, extend_from_slice}
use rust_http.Frame.Headers.{
  HeadersFlag, StreamDependency, headers_flag, end_headers, headers_frame_type,
}
use rust_http.Frame.Continuation
use rust_http.Frame.Continuation.{continuation_frame_type}
use rust_http.Hpack.StaticTable.{Header}
use rust_http.Hpack.Encoder.{Encoder, encode_into}

-- What a function that cannot fail but may panic or run on ends in.
abbrev pub Run : Type 0 → Type 0
Run A = Outcome ⊥ A

pub data HeadersFrameType : Type 0 where
  headers continuation : HeadersFrameType

abbrev pub frame_type : HeadersFrameType → ℕ
frame_type headers = headers_frame_type
frame_type continuation = continuation_frame_type

abbrev pub flags_of : HeadersFrameType → Flags HeadersFlag → Bool → ℕ
flags_of headers header_flags true = (Flags.with header_flags end_headers).bits
flags_of headers header_flags false = header_flags.bits
flags_of continuation header_flags true = Continuation.bitmask Continuation.end_headers
flags_of continuation header_flags false = 0

abbrev pub make_flags : HeadersFrameType → Flags HeadersFlag → Bool → Run ℕ
make_flags t header_flags last =
    assert (not (Flags.is_set header_flags end_headers)) >> ok (flags_of t header_flags last)

-- `EncodeBufForHeadersMultiFrame`
pub record EncodeBuf : Type 0 where
  pub current_frame_type : HeadersFrameType
  pub current_frame_offset : ℕ
  pub stream_id : ℕ
  pub flags : Flags HeadersFlag
  pub builder : List ℕ
  pub max_frame_size : ℕ

-- `WriteBufferTailVec::patch_buf`
pub patch_buf : List ℕ → ℕ → List ℕ → Option (List ℕ)
patch_buf builder pos octets =
    if leb (pos + length octets) (length builder)
    then some (take pos builder ++ (octets ++ drop (pos + length octets) builder))
    else none

abbrev pub empty_header : FrameHeader
empty_header = record { payload_len = 0; frame_type = 0; flags = 0; stream_id = 0 }

abbrev pub open_frame : EncodeBuf → EncodeBuf
open_frame b = record b {
  current_frame_offset = length (b.builder);
  builder = extend_from_slice (b.builder) (pack_header empty_header);
}

-- The packed header of the current frame, of which `frame_length` octets are in the buffer.
abbrev pub final_header : EncodeBuf → ℕ → ℕ → List ℕ
final_header b frame_length flags = pack_header (record {
  payload_len = frame_length - frame_header_len;
  frame_type = frame_type (b.current_frame_type);
  flags = flags;
  stream_id = b.stream_id;
})

pub finish_frame : EncodeBuf → Bool → Run EncodeBuf
finish_frame b last = do
  let frame_length = (length b.builder - b.current_frame_offset) % 2 ^ 32
  assert (leb frame_header_len frame_length)
  flags ← make_flags b.current_frame_type b.flags last
  builder ←
      or_panic (patch_buf b.builder b.current_frame_offset (final_header b frame_length flags))
  ok (record b { builder = builder })

pub rem_in_current_frame : EncodeBuf → Run ℕ
rem_in_current_frame b = do
  let current_frame_len = length b.builder - b.current_frame_offset
  assert (leb frame_header_len current_frame_len)
  let current_frame_payload_len = current_frame_len - frame_header_len
  assert (leb current_frame_payload_len b.max_frame_size)
  ok (b.max_frame_size - current_frame_payload_len)

-- The rest of a round of the loop: the frame is full, and the next one is opened.
pub next_frame : (EncodeBuf → List ℕ → Run EncodeBuf) → EncodeBuf → List ℕ → Run EncodeBuf
next_frame loop b [] = ok b
next_frame loop b (x ∷ bytes) = do
  b ← finish_frame b false
  loop (record (open_frame b) { current_frame_type = continuation }) (x ∷ bytes)

pub write_all : ℕ → EncodeBuf → List ℕ → Run EncodeBuf
write_all zero b bytes = diverged
write_all (suc fuel) b bytes = do
  rem ← rem_in_current_frame b
  let copy_here = min (length bytes) rem
  next_frame (write_all fuel)
      (record b { builder = extend_from_slice b.builder (take copy_here bytes) })
      (drop copy_here bytes)

pub record HeadersMultiFrame : Type 0 where
  pub flags : Flags HeadersFlag
  pub stream_id : ℕ
  pub headers : List Header
  pub stream_dep : Option StreamDependency
  pub padding_len : ℕ
  pub max_frame_size : ℕ

-- The buffer at the start, behind what is there.
abbrev pub encode_buf : HeadersMultiFrame → WriteBuffer → EncodeBuf
encode_buf f builder = record {
  current_frame_type = headers;
  current_frame_offset = length builder;
  stream_id = f.stream_id;
  flags = f.flags;
  builder = builder;
  max_frame_size = f.max_frame_size;
}

-- The frames of the octets that the encoder wrote. Each round but the first takes an octet at least.
unfoldable pub write_frames : HeadersMultiFrame → List ℕ → WriteBuffer → Run WriteBuffer
write_frames f octets builder = do
  b ← write_all (2 + length octets) (open_frame (encode_buf f builder)) octets
  b ← finish_frame b true
  ok b.builder

-- `serialize_into`, with the encoder as an argument and a result.
unfoldable pub serialize_into :
    HeadersMultiFrame → Encoder → WriteBuffer → Run (Encoder × WriteBuffer)
serialize_into f encoder builder = do
  assert (not (Flags.is_set f.flags end_headers))
  (encoder, octets) ← or_panic (encode_into encoder f.headers)
  builder ← write_frames f octets builder
  ok (encoder, builder)
