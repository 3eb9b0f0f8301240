-- ===== src/Frame/Ping.antt =====
-- The `PING` frame (httpbis/src/solicit/frame/ping.rs).
pub mod RoundTrip
use rust_http.Prelude.{ℕ, ◌/◌, ◌%◌, ◌^◌, Bool, [], ◌∷◌, bit_or, ◌!=◌}
use rust_http.Prelude.Outcome.{ok, ◌>>=◌, ◌>>◌, reject_if, or_panic}
use rust_http.Frame.Error.{
  ParseFrameResult, internal_error, incorrect_payload_len, stream_id_must_be_zero,
}
use rust_http.Frame.Flags
use rust_http.Frame.Flags.{Flag, Flags, NoFlag}
use rust_http.Frame.Header.{FrameHeader, unpack_octets_4, shift_left}
use rust_http.Frame.Raw
use rust_http.Frame.Raw.{RawFrame}
use rust_http.Frame.Builder.{WriteBuffer, write_header, write_u32}

abbrev ping_frame_len : ℕ
ping_frame_len = 8

abbrev pub ping_frame_type : ℕ
ping_frame_type = 0x6

pub data PingFlag : Type 0 where
  ack : PingFlag

abbrev pub bitmask : PingFlag → ℕ
bitmask ack = 0x1

instance abbrev ping_flag : Flag PingFlag
ping_flag = record { bitmask = bitmask; flags = ack ∷ [] }

pub record PingFrame : Type 0 where
  pub opaque_data : ℕ  -- u64
  pub flags : Flags PingFlag

abbrev pub new_ack : ℕ → PingFrame
new_ack opaque_data = record { opaque_data = opaque_data; flags = Flags.to_flags ack }

abbrev pub with_data : ℕ → PingFrame
with_data opaque_data = record { opaque_data = opaque_data; flags = Flags.default }

unfoldable pub is_ack : PingFrame → Bool
is_ack f = Flags.is_set f.flags ack

unfoldable pub from_raw : RawFrame → ParseFrameResult PingFrame
from_raw raw_frame = do
  header ← or_panic (Raw.header raw_frame)
  reject_if (header.payload_len != ping_frame_len) incorrect_payload_len
  reject_if (header.frame_type != ping_frame_type) internal_error
  reject_if (header.stream_id != 0x0) (stream_id_must_be_zero header.stream_id)
  payload ← or_panic (Raw.payload raw_frame)
  high ← or_panic (unpack_octets_4 64 payload 0)
  low ← or_panic (unpack_octets_4 64 payload 4)
  ok (record { opaque_data = bit_or (shift_left 64 high 32) low; flags = Flags.new header.flags })

unfoldable pub get_header : PingFrame → FrameHeader
get_header f = record {
  payload_len = ping_frame_len;
  frame_type = ping_frame_type;
  flags = f.flags.bits;
  stream_id = 0;
}

unfoldable pub serialize_into : PingFrame → WriteBuffer → WriteBuffer
serialize_into f builder =
    let builder = write_header builder (get_header f) in
    let builder = write_u32 builder (f.opaque_data / 2 ^ 32 % 2 ^ 32) in
    write_u32 builder (f.opaque_data % 2 ^ 32)
