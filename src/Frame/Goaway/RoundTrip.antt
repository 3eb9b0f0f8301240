-- ===== src/Frame/Goaway/RoundTrip.antt =====
-- A `GOAWAY` frame read back from what it writes.
use rust_http.Prelude.{
  ℕ, ◌+◌, ◌<◌, ◌^◌, ◌≡◌, refl, arith, List, [], ◌∷◌, length, slice_from, append_assoc,
}
use rust_http.Prelude.Outcome.{ok}
use rust_http.Frame.Header.{octet, unpack_octets_4}
use rust_http.Frame.Header.Octets.{parse_stream_id-octets, join-octets}
use rust_http.Frame.Header.RoundTrip.{IsWireHeader}
use rust_http.Frame.Raw.Parse.{header-raw_of, payload-raw_of, Written}
use rust_http.Frame.Goaway.{
  goaway_frame_type, GoawayFrame, get_header, payload_len, from_raw, serialize_into,
}

pub record IsWire (f : GoawayFrame) : Type 0 where
  last_stream_id_fits : f.last_stream_id < 2 ^ 31
  pub flags_fit : f.flags.bits < 256
  pub error_code_fits : f.raw_error_code.code < 2 ^ 32
  pub length_fits : 8 + length f.debug_bytes < 2 ^ 24

module _ (f : GoawayFrame) (v : IsWire f) where
  get_header-IsWireHeader : IsWireHeader (get_header f)
  unfolding get_header payload_len
  get_header-IsWireHeader = omega arith

  -- The octets of a frame whose fields are in range are parsed into the frame, debug data included.
  pub from_raw-serialize_into : from_raw (record { raw_content = serialize_into f [] }) ≡ ok f
  unfolding from_raw serialize_into
  from_raw-serialize_into = simp (append_assoc) (
      rw (header-raw_of (get_header f) _ get_header-IsWireHeader, payload-raw_of (get_header f) _)
        (unfold get_header payload_len unpack_octets_4 slice_from in
          ground (
            arith,
            join-octets f.raw_error_code.code,
            parse_stream_id-octets f.last_stream_id (
                octet f.raw_error_code.code 24
                ∷ octet f.raw_error_code.code 16
                ∷ octet f.raw_error_code.code 8
                ∷ octet f.raw_error_code.code 0
                ∷ f.debug_bytes),
          )))

  payload_of : List ℕ
  payload_of =
      octet f.last_stream_id 24
      ∷ octet f.last_stream_id 16
      ∷ octet f.last_stream_id 8
      ∷ octet f.last_stream_id 0
      ∷ octet f.raw_error_code.code 24
      ∷ octet f.raw_error_code.code 16
      ∷ octet f.raw_error_code.code 8
      ∷ octet f.raw_error_code.code 0
      ∷ f.debug_bytes

  pub serialize_into-Written : Written (serialize_into f []) goaway_frame_type
  unfolding serialize_into get_header payload_len payload_of
  serialize_into-Written = record {
    h = get_header f;
    p = payload_of;
    octets_eq = simp append_assoc;
    fits = get_header-IsWireHeader;
    length_eq = omega arith;
    type_eq = refl;
  }
