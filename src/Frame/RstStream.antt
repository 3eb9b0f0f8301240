-- ===== src/Frame/RstStream.antt =====
-- The `RST_STREAM` frame (httpbis/src/solicit/frame/rst_stream.rs).
pub mod RoundTrip
use rust_http.Prelude.{ℕ, ◌==◌, ◌!=◌}
use rust_http.Prelude.Outcome.{ok, ◌>>=◌, ◌>>◌, reject_if, or_panic}
use rust_http.Frame.Error.{ParseFrameResult, internal_error, stream_id_must_be_non_zero}
use rust_http.Frame.Flags
use rust_http.Frame.Flags.{Flag, Flags, NoFlag}
use rust_http.Frame.Header.{FrameHeader, unpack_octets_4}
use rust_http.Frame.Raw
use rust_http.Frame.Raw.{RawFrame}
use rust_http.Frame.ErrorCode.{ErrorCode, ErrorCodeOrUnknown, of_error_code, to_error_code}
use rust_http.Frame.Builder.{WriteBuffer, write_header, write_u32}

abbrev rst_stream_frame_len : ℕ
rst_stream_frame_len = 4

abbrev pub rst_stream_frame_type : ℕ
rst_stream_frame_type = 0x3

pub record RstStreamFrame : Type 0 where
  pub raw_error_code : ErrorCodeOrUnknown
  pub stream_id : ℕ
  pub flags : Flags NoFlag

abbrev pub new : ℕ → ErrorCode → RstStreamFrame
new stream_id error_code = record {
  raw_error_code = of_error_code error_code;
  stream_id = stream_id;
  flags = Flags.default;
}

abbrev pub error_code : RstStreamFrame → ErrorCode
error_code f = to_error_code f.raw_error_code

unfoldable pub from_raw : RawFrame → ParseFrameResult RstStreamFrame
from_raw raw_frame = do
  header ← or_panic (Raw.header raw_frame)
  reject_if (header.payload_len != rst_stream_frame_len) internal_error
  reject_if (header.frame_type != rst_stream_frame_type) internal_error
  reject_if (header.stream_id == 0x0) stream_id_must_be_non_zero
  payload ← or_panic (Raw.payload raw_frame)
  error ← or_panic (unpack_octets_4 32 payload 0)
  ok (record {
    raw_error_code = record { code = error };
    stream_id = header.stream_id;
    flags = Flags.new header.flags;
  })

unfoldable pub get_header : RstStreamFrame → FrameHeader
get_header f = record {
  payload_len = rst_stream_frame_len;
  frame_type = rst_stream_frame_type;
  flags = f.flags.bits;
  stream_id = f.stream_id;
}

unfoldable pub serialize_into : RstStreamFrame → WriteBuffer → WriteBuffer
serialize_into f builder =
    let builder = write_header builder (get_header f) in write_u32 builder f.raw_error_code.code
