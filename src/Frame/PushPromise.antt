-- ===== src/Frame/PushPromise.antt =====
-- The `PUSH_PROMISE` frame (httpbis/src/solicit/frame/push_promise.rs).
pub mod Wire
use rust_http.Prelude.{
  ℕ, ◌+◌, ◌-◌, ◌%◌, ◌^◌, List, [], ◌∷◌, length, slice_from, ◌!=◌, if◌then◌else◌,
}
use rust_http.Prelude.Outcome.{ok, ◌>>=◌, ◌>>◌, reject_if, or_panic}
use rust_http.Frame.Error.{ParseFrameResult, internal_error}
use rust_http.Frame.Flags
use rust_http.Frame.Flags.{Flag, Flags, NoFlag}
use rust_http.Frame.Header.{FrameHeader, unpack_octets_4}
use rust_http.Frame.Raw
use rust_http.Frame.Raw.{RawFrame}
use rust_http.Frame.Padding.{parse_padded_payload}
use rust_http.Frame.Builder.{
  WriteBuffer, extend_from_slice, extend_from_bytes, write_header, write_padding,
}

abbrev pub push_promise_frame_type : ℕ
push_promise_frame_type = 0x5

pub data PushPromiseFlag : Type 0 where
  end_headers padded : PushPromiseFlag

abbrev pub bitmask : PushPromiseFlag → ℕ
bitmask end_headers = 0x4
bitmask padded = 0x8

instance abbrev pub push_promise_flag : Flag PushPromiseFlag
push_promise_flag = record { bitmask = bitmask; flags = end_headers ∷ padded ∷ [] }

pub record PushPromiseFrame : Type 0 where
  pub flags : Flags PushPromiseFlag
  pub stream_id : ℕ
  pub promised_stream_id : ℕ
  pub header_fragment : List ℕ
  pub padding_len : ℕ

unfoldable pub payload_len : PushPromiseFrame → ℕ
payload_len f =
    let padding : ℕ = if Flags.is_set f.flags padded then 1 + f.padding_len else 0 in
    (length f.header_fragment % 2 ^ 32 + 4 + padding) % 2 ^ 32

-- `payload.slice(start..payload.len())`, whose `start` is `payload_len - buf.remaining()` for what
-- `get_u32` left of the unpadded payload.
unfoldable pub from_raw : RawFrame → ParseFrameResult PushPromiseFrame
from_raw raw_frame = do
  header ← or_panic (Raw.header raw_frame)
  reject_if (header.frame_type != push_promise_frame_type) internal_error
  raw_payload ← or_panic (Raw.payload raw_frame)
  reject_if (header.payload_len != length raw_payload) internal_error
  let flags : Flags PushPromiseFlag = Flags.new header.flags
  (payload, padding_len) ← parse_padded_payload raw_payload (Flags.is_set flags padded)
  promised_stream_id ← or_panic (unpack_octets_4 32 payload 0)
  let remaining = length payload - 4
  header_fragment ← or_panic (slice_from (header.payload_len - remaining) payload)
  ok (record {
    flags = flags;
    stream_id = header.stream_id;
    promised_stream_id = promised_stream_id;
    header_fragment = header_fragment;
    padding_len = padding_len;
  })

unfoldable pub get_header : PushPromiseFrame → FrameHeader
get_header f = record {
  payload_len = payload_len f;
  frame_type = push_promise_frame_type;
  flags = f.flags.bits;
  stream_id = f.stream_id;
}

-- The promised stream id is not written.
unfoldable pub serialize_into : PushPromiseFrame → WriteBuffer → WriteBuffer
serialize_into f b =
    let is_padded = Flags.is_set f.flags padded in
    let b = write_header b (get_header f) in
    let b = if is_padded then extend_from_slice b (f.padding_len ∷ []) else b in
    let b = extend_from_bytes b f.header_fragment in
    if is_padded then write_padding b f.padding_len else b
