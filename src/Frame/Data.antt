-- ===== src/Frame/Data.antt =====
-- The `DATA` frame (httpbis/src/solicit/frame/data.rs).
pub mod RoundTrip
use rust_http.Prelude.{ℕ, ◌+◌, ◌%◌, ◌^◌, Bool, List, [], ◌∷◌, length, bit_and, ◌==◌, ◌!=◌}
use rust_http.Prelude.{if◌then◌else◌}
use rust_http.Prelude.Outcome.{ok, ◌>>=◌, ◌>>◌, reject_if, or_panic}
use rust_http.Frame.Error.{ParseFrameResult, internal_error, stream_id_must_be_non_zero}
use rust_http.Frame.Flags
use rust_http.Frame.Flags.{Flag, Flags}
use rust_http.Frame.Header.{FrameHeader}
use rust_http.Frame.Raw
use rust_http.Frame.Raw.{RawFrame}
use rust_http.Frame.Padding.{parse_padded_payload}
use rust_http.Frame.Builder.{
  WriteBuffer, extend_from_slice, extend_from_bytes, write_header, write_padding,
}

abbrev pub data_frame_type : ℕ
data_frame_type = 0x0

pub data DataFlag : Type 0 where
  end_stream padded : DataFlag

abbrev pub bitmask : DataFlag → ℕ
bitmask end_stream = 0x1
bitmask padded = 0x8

instance abbrev data_flag : Flag DataFlag
data_flag = record { bitmask = bitmask; flags = end_stream ∷ padded ∷ [] }

pub record DataFrame : Type 0 where
  pub flags : Flags DataFlag
  pub stream_id : ℕ
  pub body : List ℕ
  pub padding_len : ℕ

abbrev pub new : ℕ → DataFrame
new stream_id = record { flags = Flags.default; stream_id = stream_id; body = []; padding_len = 0 }

abbrev pub with_data : ℕ → List ℕ → DataFrame
with_data stream_id body = record {
  flags = Flags.default;
  stream_id = stream_id;
  body = body;
  padding_len = 0;
}

unfoldable pub is_padded : DataFrame → Bool
is_padded f = Flags.is_set f.flags padded

abbrev pub is_end_of_stream : DataFrame → Bool
is_end_of_stream f = Flags.is_set f.flags end_stream

-- `self.flags.0 |= flag.bitmask()`
abbrev pub set_flag : DataFrame → DataFlag → DataFrame
set_flag f flag = record f { flags = Flags.with f.flags flag }

abbrev pub set_padding : DataFrame → ℕ → DataFrame
set_padding f pad_len = record (set_flag f padded) { padding_len = pad_len }

unfoldable pub payload_len : DataFrame → ℕ
payload_len f =
    if is_padded f
    then (1 + length f.body % 2 ^ 32 + f.padding_len) % 2 ^ 32
    else length f.body % 2 ^ 32

unfoldable pub get_header : DataFrame → FrameHeader
get_header f = record {
  payload_len = payload_len f;
  frame_type = data_frame_type;
  flags = f.flags.bits;
  stream_id = f.stream_id;
}

unfoldable pub from_raw : RawFrame → ParseFrameResult DataFrame
from_raw raw_frame = do
  header ← or_panic (Raw.header raw_frame)
  reject_if (header.frame_type != data_frame_type) internal_error
  payload ← or_panic (Raw.payload raw_frame)
  reject_if (header.payload_len != length payload) internal_error
  reject_if (header.stream_id == 0x0) stream_id_must_be_non_zero
  let is_padded = bit_and header.flags (bitmask padded) != 0
  (body, padding_len) ← parse_padded_payload payload is_padded
  ok (record {
    flags = Flags.new header.flags;
    stream_id = header.stream_id;
    body = body;
    padding_len = padding_len;
  })

unfoldable pub serialize_into : DataFrame → WriteBuffer → WriteBuffer
serialize_into f b =
    let b = write_header b (get_header f) in
    if is_padded f
    then write_padding (extend_from_bytes (extend_from_slice b (f.padding_len ∷ [])) f.body)
        f.padding_len
    else extend_from_bytes b f.body
