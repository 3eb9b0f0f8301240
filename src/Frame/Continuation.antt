-- ===== src/Frame/Continuation.antt =====
-- The `CONTINUATION` frame (httpbis/src/solicit/frame/continuation.rs).
pub mod RoundTrip
use rust_http.Prelude.{ℕ, ◌%◌, ◌^◌, Bool, List, [], ◌∷◌, length, ◌==◌, ◌!=◌}
use rust_http.Prelude.Outcome.{ok, ◌>>=◌, ◌>>◌, reject_if, or_panic}
use rust_http.Frame.Error.{ParseFrameResult, internal_error, stream_id_must_be_non_zero}
use rust_http.Frame.Flags
use rust_http.Frame.Flags.{Flag, Flags, NoFlag}
use rust_http.Frame.Header.{FrameHeader}
use rust_http.Frame.Raw
use rust_http.Frame.Raw.{RawFrame}
use rust_http.Frame.Builder.{WriteBuffer, extend_from_bytes, write_header}

abbrev pub continuation_frame_type : ℕ
continuation_frame_type = 0x9

pub data ContinuationFlag : Type 0 where
  end_headers : ContinuationFlag

abbrev pub bitmask : ContinuationFlag → ℕ
bitmask end_headers = 0x4

instance abbrev pub continuation_flag : Flag ContinuationFlag
continuation_flag = record { bitmask = bitmask; flags = end_headers ∷ [] }

pub record ContinuationFrame : Type 0 where
  pub flags : Flags ContinuationFlag
  pub stream_id : ℕ
  pub header_fragment : List ℕ

abbrev pub new : List ℕ → ℕ → ContinuationFrame
new fragment stream_id = record {
  flags = Flags.default;
  stream_id = stream_id;
  header_fragment = fragment;
}

unfoldable pub payload_len : ContinuationFrame → ℕ
payload_len f = length f.header_fragment % 2 ^ 32

abbrev pub is_headers_end : ContinuationFrame → Bool
is_headers_end f = Flags.is_set f.flags end_headers

unfoldable pub from_raw : RawFrame → ParseFrameResult ContinuationFrame
from_raw raw_frame = do
  header ← or_panic (Raw.header raw_frame)
  reject_if (header.frame_type != continuation_frame_type) internal_error
  payload ← or_panic (Raw.payload raw_frame)
  reject_if (header.payload_len != length payload) internal_error
  reject_if (header.stream_id == 0) stream_id_must_be_non_zero
  ok (record {
    flags = Flags.new header.flags;
    stream_id = header.stream_id;
    header_fragment = payload;
  })

unfoldable pub get_header : ContinuationFrame → FrameHeader
get_header f = record {
  payload_len = payload_len f;
  frame_type = continuation_frame_type;
  flags = f.flags.bits;
  stream_id = f.stream_id;
}

unfoldable pub serialize_into : ContinuationFrame → WriteBuffer → WriteBuffer
serialize_into f b = extend_from_bytes (write_header b (get_header f)) f.header_fragment
