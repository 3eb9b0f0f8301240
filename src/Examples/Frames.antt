-- ===== src/Examples/Frames.antt =====
-- Frames at concrete inputs.
use rust_http.Prelude.{ℕ, ◌≡◌, refl, arith, List, [], ◌∷◌, ◌++◌, some, ◌%◌}
use rust_http.Prelude.Outcome.{ok, panic}
use rust_http.Frame.ErrorCode.{
  from_u32, internal_error, from_u32_unknown, cancel, of_error_code, to_error_code, from_u32-to_u32,
}
use rust_http.Frame.Header.{FrameHeader, pack_header, unpack_header}
use rust_http.Frame.Header.RoundTrip.{
  IsWireHeader, unpack_header-pack_header, pack_header-unpack_header,
}
use rust_http.Frame.Flags
use rust_http.Frame.Raw
use rust_http.Frame.Raw.Parse.{raw_of, parse-pack_header}
use rust_http.Frame.Data
use rust_http.Frame.PushPromise
use rust_http.Frame.PushPromise.{PushPromiseFrame, PushPromiseFlag}
use rust_http.Frame.PushPromise.Wire
use rust_http.Frame.Headers
use rust_http.Frame.Headers.Short.{from_raw_short}
use rust_http.Frame.HttpFrame
use rust_http.Frame.HttpFrame.{HttpFrame, data_frame}
use rust_http.Frame.HttpFrame.RoundTrip.{IsWire, from_raw-serialize_into}

-- A padded `DATA` frame.
abbrev padded_data : HttpFrame
padded_data =
    data_frame
      (record { flags = record { bits = 9 }; stream_id = 3; body = 1 ∷ 2 ∷ []; padding_len = 4 })

padded_data-IsWire : IsWire padded_data
unfolding Data.is_padded Flags.is_set
padded_data-IsWire = record {
  stream_id_nonzero = omega arith;
  stream_id_fits = omega arith;
  flags_fit = omega arith;
  padding_fits = omega arith;
  padding_flagged = λ e. ground (arith, e);
  length_fits = omega arith;
}

from_raw-serialize_into_example :
    (octets : List ℕ) × (HttpFrame.serialize_into padded_data [] ≡ some octets)
    × (Raw.parse (octets ++ 0 ∷ 0 ∷ []) ≡ ok (record { raw_content = octets }))
    × (HttpFrame.from_raw (record { raw_content = octets }) ≡ ok padded_data)
from_raw-serialize_into_example =
    from_raw-serialize_into padded_data (0 ∷ 0 ∷ []) padded_data-IsWire

abbrev ping_header : FrameHeader
ping_header = record { payload_len = 2; frame_type = 6; flags = 1; stream_id = 5 }

abbrev header_fits : IsWireHeader ping_header
header_fits = record {
  payload_len_fits = omega arith;
  frame_type_fits = omega arith;
  flags_fit = omega arith;
  stream_id_fits = omega arith;
}

unpack_header-pack_header_example : unpack_header (pack_header ping_header) ≡ some ping_header
unpack_header-pack_header_example = unpack_header-pack_header ping_header header_fits

pack_header-unpack_header_example :
    (h : FrameHeader) × (unpack_header (0 ∷ 0 ∷ 8 ∷ 6 ∷ 1 ∷ 128 ∷ 0 ∷ 0 ∷ 5 ∷ []) ≡ some h)
    × IsWireHeader h
    × (pack_header h ≡ 0 ∷ 0 ∷ 8 ∷ 6 ∷ 1 ∷ 128 % 128 ∷ 0 ∷ 0 ∷ 5 ∷ [])
pack_header-unpack_header_example = pack_header-unpack_header 0 0 8 6 1 128 0 0 5 (
  omega arith,
  (
    omega arith,
    (
      omega arith,
      (omega arith, (omega arith, (omega arith, (omega arith, (omega arith, (omega arith, tt)))))),
    ),
  ),
)

parse-pack_header_example :
    Raw.parse (pack_header ping_header ++ 1 ∷ 2 ∷ 3 ∷ []) ≡ ok (raw_of ping_header (1 ∷ 2 ∷ []))
parse-pack_header_example = parse-pack_header ping_header (1 ∷ 2 ∷ 3 ∷ []) header_fits

abbrev promise : PushPromiseFrame
promise = record {
  flags = record { bits = 4 };
  stream_id = 1;
  promised_stream_id = 2;
  header_fragment = 130 ∷ [];
  padding_len = 0;
}

promise_fits : Wire.IsWire promise
promise_fits = record {
  stream_id_fits = omega arith;
  flags_fit = omega arith;
  length_fits = omega arith;
}

parse-serialize_into_example :
    Raw.parse (PushPromise.serialize_into promise [] ++ (0 ∷ 0 ∷ 0 ∷ 2 ∷ 9 ∷ []))
    ≡ ok (raw_of (PushPromise.get_header promise) (Wire.payload_of promise ++ (0 ∷ 0 ∷ 0 ∷ 2 ∷ [])))
parse-serialize_into_example =
    Wire.parse-serialize_into promise promise_fits (0 ∷ 0 ∷ 0 ∷ 2 ∷ 9 ∷ [])

-- A `PUSH_PROMISE` frame with the flag of padding, two octets of it, and a fragment of two.
abbrev promise_header : FrameHeader
promise_header = record { payload_len = 9; frame_type = 5; flags = 12; stream_id = 1 }

abbrev short_header : FrameHeader
short_header = record { payload_len = 2; frame_type = 1; flags = 0x20; stream_id = 1 }

abbrev short_fits : IsWireHeader short_header
short_fits = record {
  payload_len_fits = omega arith;
  frame_type_fits = omega arith;
  flags_fit = omega arith;
  stream_id_fits = omega arith;
}

abbrev promise_header_fits : IsWireHeader promise_header
promise_header_fits = record {
  payload_len_fits = omega arith;
  frame_type_fits = omega arith;
  flags_fit = omega arith;
  stream_id_fits = omega arith;
}

from_raw_padded_example :
    PushPromise.from_raw (raw_of promise_header (Wire.padded_payload 2 4 (130 ∷ 132 ∷ []))) ≡ panic
from_raw_padded_example =
    Wire.from_raw_padded promise_header 2 4 (130 ∷ 132 ∷ []) promise_header_fits refl
      (unfold Flags.is_set in refl) (omega arith) refl

from_raw_short_example : Headers.from_raw (raw_of short_header (0 ∷ 0 ∷ [])) ≡ panic
from_raw_short_example =
    from_raw_short short_header (0 ∷ 0 ∷ []) short_fits refl refl (λ e. ground (arith, e))
      (unfold Flags.is_set in refl) (unfold Flags.is_set in refl) (omega arith)

from_u32_unknown_example : from_u32 99 ≡ internal_error
from_u32_unknown_example = from_u32_unknown 99 (omega arith)

from_u32-to_u32_example : to_error_code (of_error_code cancel) ≡ cancel
from_u32-to_u32_example = from_u32-to_u32 cancel
