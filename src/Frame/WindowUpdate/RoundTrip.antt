-- ===== src/Frame/WindowUpdate/RoundTrip.antt =====
-- A `WINDOW_UPDATE` frame read back from what it writes.
use rust_http.Prelude.{◌<◌, ◌^◌, ◌≡◌, refl, arith, []}
use rust_http.Prelude.Bits.{bit_and_low}
use rust_http.Prelude.Outcome.{ok}
use rust_http.Frame.Header.Octets.{unpack-octets}
use rust_http.Frame.Header.RoundTrip.{IsWireHeader}
use rust_http.Frame.Raw.Parse.{header-raw_of, payload-raw_of, Written}
use rust_http.Frame.WindowUpdate.{
  window_update_frame_type, WindowUpdateFrame, get_header, from_raw, serialize_into,
}

pub record IsWire (f : WindowUpdateFrame) : Type 0 where
  pub stream_id_fits : f.stream_id < 2 ^ 31
  no_flags : f.flags.bits ≡ 0
  increment_positive : 0 < f.increment
  increment_fits : f.increment < 2 ^ 31

module _ (f : WindowUpdateFrame) (v : IsWire f) where
  get_header-IsWireHeader : IsWireHeader (get_header f)
  unfolding get_header
  get_header-IsWireHeader = omega arith

  -- The octets of a frame with no flags and a legal increment are parsed into the frame.
  pub from_raw-serialize_into : from_raw (record { raw_content = serialize_into f [] }) ≡ ok f
  unfolding from_raw serialize_into
  from_raw-serialize_into =
      rw (header-raw_of (get_header f) _ get_header-IsWireHeader, payload-raw_of (get_header f) _)
        (unfold get_header in
          ground (arith, unpack-octets f.increment [], bit_and_low 31 f.increment))

  pub serialize_into-Written : Written (serialize_into f []) window_update_frame_type
  unfolding serialize_into get_header
  serialize_into-Written = record {
    h = get_header f;
    p = _;
    octets_eq = refl;
    fits = get_header-IsWireHeader;
    length_eq = refl;
    type_eq = refl;
  }
