-- ===== src/Frame/WindowUpdate.antt =====
-- The `WINDOW_UPDATE` frame (httpbis/src/solicit/frame/window_update.rs).
pub mod RoundTrip
use rust_http.Prelude.{ℕ, ◌||◌, bit_and, ltb, ◌!=◌}
use rust_http.Prelude.Outcome.{ok, ◌>>=◌, ◌>>◌, reject_if, or_panic}
use rust_http.Frame.Error.{
  ParseFrameResult, internal_error, incorrect_frame_length, window_update_increment_invalid,
}
use rust_http.Frame.Flags
use rust_http.Frame.Flags.{Flag, Flags, NoFlag}
use rust_http.Frame.Header.{FrameHeader, unpack_octets_4, not_u32}
use rust_http.Frame.Raw
use rust_http.Frame.Raw.{RawFrame}
use rust_http.Frame.Builder.{WriteBuffer, write_header, write_u32}

abbrev window_update_frame_len : ℕ
window_update_frame_len = 4

abbrev pub window_update_frame_type : ℕ
window_update_frame_type = 0x8

pub record WindowUpdateFrame : Type 0 where
  pub stream_id : ℕ
  pub increment : ℕ
  pub flags : Flags NoFlag

abbrev pub for_connection : ℕ → WindowUpdateFrame
for_connection increment = record { stream_id = 0; increment = increment; flags = Flags.default }

abbrev pub for_stream : ℕ → ℕ → WindowUpdateFrame
for_stream stream_id increment = record {
  stream_id = stream_id;
  increment = increment;
  flags = Flags.default;
}

unfoldable pub from_raw : RawFrame → ParseFrameResult WindowUpdateFrame
from_raw raw_frame = do
  header ← or_panic (Raw.header raw_frame)
  reject_if (header.payload_len != window_update_frame_len)
      (incorrect_frame_length header.payload_len)
  reject_if (header.frame_type != window_update_frame_type) internal_error
  payload ← or_panic (Raw.payload raw_frame)
  num ← or_panic (unpack_octets_4 32 payload 0)
  let increment = bit_and num (not_u32 0x8000_0000)
  reject_if (ltb increment 1 || ltb 0x7fff_ffff increment)
      (window_update_increment_invalid increment)
  ok (record {
    stream_id = header.stream_id;
    increment = increment;
    flags = Flags.new header.flags;
  })

-- The flags that are written are always 0.
unfoldable pub get_header : WindowUpdateFrame → FrameHeader
get_header f = record {
  payload_len = window_update_frame_len;
  frame_type = window_update_frame_type;
  flags = 0;
  stream_id = f.stream_id;
}

unfoldable pub serialize_into : WindowUpdateFrame → WriteBuffer → WriteBuffer
serialize_into f builder =
    let builder = write_header builder (get_header f) in write_u32 builder f.increment
