-- ===== src/Frame/Headers.antt =====
-- The `HEADERS` frame (httpbis/src/solicit/frame/headers.rs).
pub mod RoundTrip
pub mod Short
use rust_http.Prelude.{
  ℕ, ◌+◌, ◌%◌, ◌^◌, Bool, true, false, List, [], ◌∷◌, length, slice_from, Option, none, some,
  bit_and, bit_or, ◌==◌, ◌!=◌, if◌then◌else◌,
}
use rust_http.Prelude.Outcome.{ok, ◌>>=◌, ◌>>◌, reject_if, or_panic}
use rust_http.Frame.Error.{
  ParseFrameResult, internal_error, stream_id_must_be_non_zero, stream_dependency_on_itself,
}
use mathlib.Core.Option
use rust_http.Frame.Flags
use rust_http.Frame.Flags.{Flag, Flags, NoFlag}
use rust_http.Frame.Header.{FrameHeader, unpack_octets_4, not_u32, octet}
use rust_http.Frame.Raw
use rust_http.Frame.Raw.{RawFrame}
use rust_http.Frame.Padding.{parse_padded_payload}
use rust_http.Frame.Builder.{
  WriteBuffer, extend_from_slice, extend_from_bytes, write_header, write_padding,
}

abbrev pub headers_frame_type : ℕ
headers_frame_type = 0x1

pub data HeadersFlag : Type 0 where
  end_stream end_headers padded priority : HeadersFlag

abbrev pub bitmask : HeadersFlag → ℕ
bitmask end_stream = 0x1
bitmask end_headers = 0x4
bitmask padded = 0x8
bitmask priority = 0x20

instance abbrev pub headers_flag : Flag HeadersFlag
headers_flag = record {
  bitmask = bitmask;
  flags = end_stream ∷ end_headers ∷ padded ∷ priority ∷ [];
}

pub record StreamDependency : Type 0 where
  pub stream_id : ℕ
  pub weight : ℕ
  pub is_exclusive : Bool

-- `StreamDependency::parse(&buf[..5])`; `none` is the panic on fewer than five octets.
pub parse_dependency : List ℕ → Option StreamDependency
parse_dependency (b0 ∷ b1 ∷ b2 ∷ b3 ∷ b4 ∷ _) =
    Option.map
      (λ id. record {
        stream_id = bit_and id (not_u32 (2 ^ 31));
        weight = b4;
        is_exclusive = bit_and b0 0x80 != 0;
      })
      (unpack_octets_4 32 (b0 ∷ b1 ∷ b2 ∷ b3 ∷ []) 0)
parse_dependency _ = none

pub serialize_dependency : StreamDependency → List ℕ
serialize_dependency dep =
    let e_bit : ℕ = if dep.is_exclusive then 0x80 else 0 in
    bit_or (octet dep.stream_id 24) e_bit
    ∷ octet dep.stream_id 16
    ∷ octet dep.stream_id 8
    ∷ octet dep.stream_id 0
    ∷ dep.weight
    ∷ []

pub record HeadersFrame : Type 0 where
  pub flags : Flags HeadersFlag
  pub stream_id : ℕ
  pub header_fragment : List ℕ
  pub stream_dep : Option StreamDependency
  pub padding_len : ℕ

abbrev pub new : List ℕ → ℕ → HeadersFrame
new fragment stream_id = record {
  flags = Flags.default;
  stream_id = stream_id;
  header_fragment = fragment;
  stream_dep = none;
  padding_len = 0;
}

abbrev with_dependency : List ℕ → ℕ → StreamDependency → HeadersFrame
with_dependency fragment stream_id stream_dep = record {
  flags = Flags.to_flags priority;
  stream_id = stream_id;
  header_fragment = fragment;
  stream_dep = some stream_dep;
  padding_len = 0;
}

abbrev pub is_headers_end : HeadersFrame → Bool
is_headers_end f = Flags.is_set f.flags end_headers

abbrev pub is_end_of_stream : HeadersFrame → Bool
is_end_of_stream f = Flags.is_set f.flags end_stream

abbrev pub set_flag : HeadersFrame → HeadersFlag → HeadersFrame
set_flag f flag = record f { flags = Flags.with f.flags flag }

abbrev pub set_padding : HeadersFrame → ℕ → HeadersFrame
set_padding f padding_len = record (set_flag f padded) { padding_len = padding_len }

unfoldable pub payload_len : HeadersFrame → ℕ
payload_len f =
    let padding : ℕ = if Flags.is_set f.flags padded then 1 + f.padding_len else 0 in
    let priority_len : ℕ = if Flags.is_set f.flags priority then 5 else 0 in
    (length f.header_fragment % 2 ^ 32 + priority_len + padding) % 2 ^ 32

unfoldable pub split_dependency :
    ℕ → List ℕ → Bool → ParseFrameResult (List ℕ × Option StreamDependency)
split_dependency stream_id actual false = ok (actual, none)
split_dependency stream_id actual true = do
  dep ← or_panic (parse_dependency actual)
  reject_if (dep.stream_id == stream_id) (stream_dependency_on_itself stream_id)
  fragment ← or_panic (slice_from 5 actual)
  ok (fragment, some dep)

unfoldable pub from_raw : RawFrame → ParseFrameResult HeadersFrame
unfolding split_dependency
from_raw raw_frame = do
  header ← or_panic (Raw.header raw_frame)
  reject_if (header.frame_type != headers_frame_type) internal_error
  payload ← or_panic (Raw.payload raw_frame)
  reject_if (header.payload_len != length payload) internal_error
  reject_if (header.stream_id == 0) stream_id_must_be_non_zero
  let flags : Flags HeadersFlag = Flags.new header.flags
  (actual, pad_len) ← parse_padded_payload payload (Flags.is_set flags padded)
  (fragment, stream_dep) ← split_dependency header.stream_id actual (Flags.is_set flags priority)
  ok (record {
    flags = flags;
    stream_id = header.stream_id;
    header_fragment = fragment;
    stream_dep = stream_dep;
    padding_len = pad_len;
  })

unfoldable pub get_header : HeadersFrame → FrameHeader
get_header f = record {
  payload_len = payload_len f;
  frame_type = headers_frame_type;
  flags = f.flags.bits;
  stream_id = f.stream_id;
}

-- The octets of the dependency; `none` is the panic on a priority flag with no dependency.
dependency_octets : HeadersFrame → Option (List ℕ)
dependency_octets f =
    if Flags.is_set f.flags priority then Option.map serialize_dependency f.stream_dep else some []

unfoldable pub serialize_into : HeadersFrame → WriteBuffer → Option WriteBuffer
unfolding dependency_octets
serialize_into f b =
    let is_padded = Flags.is_set f.flags padded in
    let b = write_header b (get_header f) in
    let b = if is_padded then extend_from_slice b (f.padding_len ∷ []) else b in
    Option.map
      (λ dep_buf.
        let b = extend_from_bytes (extend_from_slice b dep_buf) f.header_fragment in
        if is_padded then write_padding b f.padding_len else b)
      (dependency_octets f)
