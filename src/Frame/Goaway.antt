-- ===== src/Frame/Goaway.antt =====
-- The `GOAWAY` frame (httpbis/src/solicit/frame/goaway.rs).
pub mod RoundTrip
use rust_http.Prelude.{ℕ, ◌+◌, ◌%◌, ◌^◌, List, [], length, slice_from, ltb, ◌!=◌}
use rust_http.Prelude.Outcome.{ok, ◌>>=◌, ◌>>◌, reject_if, or_panic}
use rust_http.Frame.Error.{
  ParseFrameResult, internal_error, incorrect_payload_len, stream_id_must_be_non_zero,
}
use rust_http.Frame.Flags
use rust_http.Frame.Flags.{Flag, Flags, NoFlag}
use rust_http.Frame.Header.{FrameHeader, unpack_octets_4, parse_stream_id}
use rust_http.Frame.Raw
use rust_http.Frame.Raw.{RawFrame}
use rust_http.Frame.ErrorCode.{ErrorCode, ErrorCodeOrUnknown, of_error_code, to_error_code}
use rust_http.Frame.Builder.{WriteBuffer, extend_from_bytes, write_header, write_u32}

abbrev goaway_min_frame_len : ℕ
goaway_min_frame_len = 8

abbrev pub goaway_frame_type : ℕ
goaway_frame_type = 0x7

pub record GoawayFrame : Type 0 where
  pub last_stream_id : ℕ
  pub raw_error_code : ErrorCodeOrUnknown
  pub debug_bytes : List ℕ
  pub flags : Flags NoFlag

abbrev with_debug_data : ℕ → ErrorCode → List ℕ → GoawayFrame
with_debug_data last_stream_id error_code debug_bytes = record {
  last_stream_id = last_stream_id;
  raw_error_code = of_error_code error_code;
  debug_bytes = debug_bytes;
  flags = Flags.default;
}

abbrev pub new : ℕ → ErrorCode → GoawayFrame
new last_stream_id error_code = with_debug_data last_stream_id error_code []

abbrev pub error_code : GoawayFrame → ErrorCode
error_code f = to_error_code f.raw_error_code

unfoldable pub payload_len : GoawayFrame → ℕ
payload_len f = (goaway_min_frame_len + length f.debug_bytes % 2 ^ 32) % 2 ^ 32

unfoldable pub from_raw : RawFrame → ParseFrameResult GoawayFrame
from_raw raw_frame = do
  header ← or_panic (Raw.header raw_frame)
  reject_if (ltb header.payload_len goaway_min_frame_len) incorrect_payload_len
  reject_if (header.frame_type != goaway_frame_type) internal_error
  reject_if (header.stream_id != 0x0) stream_id_must_be_non_zero
  payload ← or_panic (Raw.payload raw_frame)
  last_stream_id ← or_panic (parse_stream_id payload)
  error ← or_panic (unpack_octets_4 32 payload 4)
  debug_bytes ← or_panic (slice_from goaway_min_frame_len payload)
  ok (record {
    last_stream_id = last_stream_id;
    raw_error_code = record { code = error };
    debug_bytes = debug_bytes;
    flags = Flags.new header.flags;
  })

unfoldable pub get_header : GoawayFrame → FrameHeader
get_header f = record {
  payload_len = payload_len f;
  frame_type = goaway_frame_type;
  flags = f.flags.bits;
  stream_id = 0;
}

unfoldable pub serialize_into : GoawayFrame → WriteBuffer → WriteBuffer
serialize_into f builder =
    let builder = write_header builder (get_header f) in
    let builder = write_u32 builder f.last_stream_id in
    let builder = write_u32 builder f.raw_error_code.code in extend_from_bytes builder f.debug_bytes
