-- ===== src/Frame/Continuation/RoundTrip.antt =====
-- A `CONTINUATION` frame read back from what it writes.
use rust_http.Prelude.{◌<◌, ◌^◌, ◌≡◌, refl, arith, [], length}
use rust_http.Prelude.Outcome.{ok}
use rust_http.Frame.Header.RoundTrip.{IsWireHeader}
use rust_http.Frame.Raw.Parse.{header-raw_of, payload-raw_of, Written}
use rust_http.Frame.Continuation.{
  continuation_frame_type, ContinuationFrame, get_header, payload_len, from_raw, serialize_into,
}

pub record IsWire (f : ContinuationFrame) : Type 0 where
  pub stream_id_nonzero : 0 < f.stream_id
  pub stream_id_fits : f.stream_id < 2 ^ 31
  pub flags_fit : f.flags.bits < 256
  pub length_fits : length f.header_fragment < 2 ^ 24

module _ (f : ContinuationFrame) (v : IsWire f) where
  get_header-IsWireHeader : IsWireHeader (get_header f)
  unfolding get_header payload_len
  get_header-IsWireHeader = omega arith

  -- The octets of a frame with a stream, and with its fields in range, are parsed into the frame.
  pub from_raw-serialize_into : from_raw (record { raw_content = serialize_into f [] }) ≡ ok f
  unfolding from_raw serialize_into
  from_raw-serialize_into =
      rw (header-raw_of (get_header f) _ get_header-IsWireHeader, payload-raw_of (get_header f) _)
        (unfold get_header payload_len in ground arith)

  pub serialize_into-Written : Written (serialize_into f []) continuation_frame_type
  unfolding serialize_into get_header payload_len
  serialize_into-Written = record {
    h = get_header f;
    p = f.header_fragment;
    octets_eq = refl;
    fits = get_header-IsWireHeader;
    length_eq = omega arith;
    type_eq = refl;
  }
