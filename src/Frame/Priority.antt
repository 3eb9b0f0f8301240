-- ===== src/Frame/Priority.antt =====
-- The `PRIORITY` frame (httpbis/src/solicit/frame/priority.rs). Its `serialize_into` is `unimplemented!()`.
use rust_http.Prelude.{ℕ, Bool, List, [], ◌∷◌, drop, Option, none, some, bit_and, ◌==◌, ◌!=◌}
use rust_http.Prelude.Outcome.{ok, ◌>>=◌, ◌>>◌, reject_if, or_panic}
use rust_http.Frame.Error.{
  ParseFrameResult, internal_error, stream_id_must_be_non_zero, stream_dependency_on_itself,
  incorrect_frame_length, incorrect_flags,
}
use rust_http.Frame.Flags
use rust_http.Frame.Flags.{Flag, Flags, NoFlag}
use rust_http.Frame.Header.{FrameHeader, unpack_octets_4, not_u32}
use rust_http.Frame.Raw
use rust_http.Frame.Raw.{RawFrame}
use rust_http.Frame.Builder.{WriteBuffer}

abbrev pub priority_frame_type : ℕ
priority_frame_type = 0x2

pub record PriorityFrame : Type 0 where
  pub flags : Flags NoFlag
  pub stream_id : ℕ
  exclusive : Bool
  pub stream_dep : ℕ
  pub weight : ℕ

-- `payload.get_u8()` behind a `get_u32()`, and the assertion that nothing is left.
pub last_octet : List ℕ → Option ℕ
last_octet (weight ∷ []) = some weight
last_octet _ = none

unfoldable pub from_raw : RawFrame → ParseFrameResult PriorityFrame
from_raw raw_frame = do
  header ← or_panic (Raw.header raw_frame)
  reject_if (header.payload_len != 5) (incorrect_frame_length header.payload_len)
  reject_if (header.frame_type != priority_frame_type) internal_error
  reject_if (header.flags != 0) (incorrect_flags header.flags)
  reject_if (header.stream_id == 0) stream_id_must_be_non_zero
  payload ← or_panic (Raw.payload raw_frame)
  first ← or_panic (unpack_octets_4 32 payload 0)
  let exclusive = bit_and first 0x8000_0000 != 0
  let stream_dep = bit_and first (not_u32 0x8000_0000)
  weight ← or_panic (last_octet (drop 4 payload))
  reject_if (stream_dep == header.stream_id) (stream_dependency_on_itself header.stream_id)
  ok (record {
    flags = Flags.new header.flags;
    stream_id = header.stream_id;
    exclusive = exclusive;
    stream_dep = stream_dep;
    weight = weight;
  })

unfoldable pub get_header : PriorityFrame → FrameHeader
get_header f = record {
  payload_len = 5;
  frame_type = priority_frame_type;
  flags = f.flags.bits;
  stream_id = f.stream_id;
}

-- `unimplemented!()` panics.
unfoldable pub serialize_into : PriorityFrame → WriteBuffer → Option WriteBuffer
serialize_into f _builder = none
