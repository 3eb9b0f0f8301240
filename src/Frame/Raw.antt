-- ===== src/Frame/Raw.antt =====
-- `RawFrame` of httpbis/src/solicit/frame/mod.rs: a frame as it is on the wire.
pub mod Parse
use rust_http.Prelude.{ℕ, ◌+◌, Bool, List, take, drop, length, Option, none, some, ltb, leb}
use rust_http.Prelude.{if◌then◌else◌}
use rust_http.Prelude.Outcome.{Outcome, ok, ◌>>=◌, ◌>>◌, reject_if, or_panic}
use rust_http.Frame.Error.{
  ParseFrameError, ParseFrameResult, buf_must_be_at_least_9_bytes, incorrect_payload_len,
}
use rust_http.Frame.Header.{FrameHeader, unpack_header}
use rust_http.Frame.Builder.{WriteBuffer, write_header, extend_from_bytes}
use mathlib.Core.Option

pub record RawFrame : Type 0 where
  pub raw_content : List ℕ

-- `header()`: the transmuted first nine bytes; `none` is the failed assertion on the length.
pub header : RawFrame → Option FrameHeader
header raw_frame =
    if leb 9 (length raw_frame.raw_content)
    then unpack_header (take 9 raw_frame.raw_content)
    else none

-- `raw_content.slice(9..)`
pub payload : RawFrame → Option (List ℕ)
payload raw_frame =
    if leb 9 (length raw_frame.raw_content) then some (drop 9 raw_frame.raw_content) else none

pub parse : List ℕ → ParseFrameResult RawFrame
parse buf = do
  reject_if (ltb (length buf) 9) (buf_must_be_at_least_9_bytes (length buf))
  header ← or_panic (unpack_header (take 9 buf))
  reject_if (ltb (length (drop 9 buf)) header.payload_len) incorrect_payload_len
  ok (record { raw_content = take (9 + header.payload_len) buf })

-- `none` where `header` or `payload` panics.
unfoldable pub serialize_into : RawFrame → WriteBuffer → Option WriteBuffer
unfolding header payload
serialize_into raw_frame b =
    Option.bind (header raw_frame)
      λ h. Option.map (λ p. extend_from_bytes (write_header b h) p) (payload raw_frame)
