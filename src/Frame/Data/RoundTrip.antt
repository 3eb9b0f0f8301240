-- ===== src/Frame/Data/RoundTrip.antt =====
-- A `DATA` frame read back from what it writes.
use rust_http.Prelude.{
  ℕ, ◌+◌, ◌<◌, ◌^◌, ◌≡◌, refl, arith, false, inl, inr, List, [], ◌∷◌, ◌++◌, length, replicate,
  append_assoc, Bool-cases, if◌then◌else◌, ◌!=◌, bit_and,
}
use rust_http.Prelude.Outcome.{ok}
use rust_http.Frame.Flags
use rust_http.Frame.Header.{pack_header}
use rust_http.Frame.Header.RoundTrip.{IsWireHeader}
use rust_http.Frame.Raw.Parse.{header-raw_of, payload-raw_of, Written}
use rust_http.Frame.Padding.{parse_padded_payload, parse_padded_payload-padded, length-padded}
use rust_http.Frame.Data.{
  data_frame_type, DataFrame, is_padded, payload_len, get_header, from_raw, serialize_into,
}

-- A frame that fits its header; the padding length is stored only where the flag says so.
pub record IsWire (f : DataFrame) : Type 0 where
  pub stream_id_nonzero : 0 < f.stream_id
  pub stream_id_fits : f.stream_id < 2 ^ 31
  pub flags_fit : f.flags.bits < 256
  pub padding_fits : f.padding_len < 256
  pub padding_flagged : is_padded f ≡ false → f.padding_len ≡ 0
  pub length_fits : 1 + length f.body + f.padding_len < 2 ^ 24

-- The octets behind the header.
pub payload_of : DataFrame → List ℕ
payload_of f = if is_padded f then f.padding_len ∷ (f.body ++ replicate f.padding_len 0) else f.body

serialize_into-eq :
    (f : DataFrame) → serialize_into f [] ≡ pack_header (get_header f) ++ payload_of f
unfolding serialize_into payload_of
serialize_into-eq f = elim (Bool-cases (is_padded f)) [
  | inl p ↦ simp (p, append_assoc)
  | inr p ↦ simp p
]

get_header-IsWireHeader : (f : DataFrame) → IsWire f → IsWireHeader (get_header f)
unfolding get_header payload_len
get_header-IsWireHeader f v = ground arith

payload_len-eq : (f : DataFrame) → IsWire f → payload_len f ≡ length (payload_of f)
unfolding payload_len payload_of
payload_len-eq f v = ground (arith, length-padded f.body f.padding_len)

is_padded-bits : (f : DataFrame) → is_padded f ≡ (bit_and f.flags.bits 0x8 != 0)
unfolding is_padded Flags.is_set
is_padded-bits f = refl

parse_payload_of :
    (f : DataFrame)
    → IsWire f
    → parse_padded_payload (payload_of f) (is_padded f) ≡ ok (f.body, f.padding_len)
unfolding payload_of
parse_payload_of f v = elim (Bool-cases (is_padded f)) [
  | inl p ↦ rw p (parse_padded_payload-padded f.padding_len f.body)
  | inr p ↦ rw p (unfold parse_padded_payload in ground (arith, v.padding_flagged p))
]

-- The octets of a frame that fits its header are parsed into the frame: all fields, flags and
-- padding length included, come back.
pub from_raw-serialize_into :
    (f : DataFrame) → IsWire f → from_raw (record { raw_content = serialize_into f [] }) ≡ ok f
unfolding from_raw
from_raw-serialize_into f v =
    rw
      (
        serialize_into-eq f,
        header-raw_of (get_header f) (payload_of f) (get_header-IsWireHeader f v),
        payload-raw_of (get_header f) (payload_of f),
      )
      (unfold get_header in
        ground (arith, is_padded-bits f, payload_len-eq f v, parse_payload_of f v))

pub serialize_into-Written :
    (f : DataFrame) → IsWire f → Written (serialize_into f []) data_frame_type
unfolding get_header
serialize_into-Written f v = record {
  h = get_header f;
  p = payload_of f;
  octets_eq = serialize_into-eq f;
  fits = get_header-IsWireHeader f v;
  length_eq = payload_len-eq f v;
  type_eq = refl;
}
