-- ===== src/Frame/Ping/RoundTrip.antt =====
-- A `PING` frame read back from what it writes.
use rust_http.Prelude.{ℕ, ◌/◌, ◌%◌, ◌<◌, ◌^◌, ◌≡◌, refl, arith, [], ◌∷◌, append_assoc, bit_or}
use rust_http.Prelude.Bits.{bit_or_disjoint}
use rust_http.Prelude.Outcome.{ok}
use rust_http.Frame.Header.{octet, unpack_octets_4, shift_left}
use rust_http.Frame.Header.Octets.{join-octets_u64}
use rust_http.Frame.Header.RoundTrip.{IsWireHeader}
use rust_http.Frame.Raw.Parse.{header-raw_of, payload-raw_of, Written}
use rust_http.Frame.Ping.{ping_frame_type, PingFrame, get_header, from_raw, serialize_into}

pub record IsWire (f : PingFrame) : Type 0 where
  pub flags_fit : f.flags.bits < 256
  opaque_data_fits : f.opaque_data < 2 ^ 64

-- Two halves of 32 bits put together as the parser does.
join_halves :
    (n : ℕ) → n < 2 ^ 64 → bit_or (shift_left 64 (n / 2 ^ 32 % 2 ^ 32) 32) (n % 2 ^ 32) ≡ n
join_halves n h =
    ground (arith, bit_or_disjoint 32 (n / 2 ^ 32 % 2 ^ 32) (n % 2 ^ 32) (omega arith))

module _ (f : PingFrame) (v : IsWire f) where
  get_header-IsWireHeader : IsWireHeader (get_header f)
  unfolding get_header
  get_header-IsWireHeader = omega arith

  -- The octets of a frame whose payload is a 64-bit number are parsed into the frame.
  pub from_raw-serialize_into : from_raw (record { raw_content = serialize_into f [] }) ≡ ok f
  unfolding from_raw serialize_into
  from_raw-serialize_into =
      rw
        (
          append_assoc,
          header-raw_of (get_header f) _ get_header-IsWireHeader,
          payload-raw_of (get_header f) _,
        )
        (unfold get_header unpack_octets_4 in
          ground (
            arith,
            join-octets_u64 (f.opaque_data / 2 ^ 32 % 2 ^ 32),
            join-octets_u64 (f.opaque_data % 2 ^ 32),
            join_halves f.opaque_data,
          ))

  pub serialize_into-Written : Written (serialize_into f []) ping_frame_type
  unfolding serialize_into get_header
  serialize_into-Written = record {
    h = get_header f;
    p =
        octet (f.opaque_data / 2 ^ 32 % 2 ^ 32) 24
        ∷ octet (f.opaque_data / 2 ^ 32 % 2 ^ 32) 16
        ∷ octet (f.opaque_data / 2 ^ 32 % 2 ^ 32) 8
        ∷ octet (f.opaque_data / 2 ^ 32 % 2 ^ 32) 0
        ∷ octet (f.opaque_data % 2 ^ 32) 24
        ∷ octet (f.opaque_data % 2 ^ 32) 16
        ∷ octet (f.opaque_data % 2 ^ 32) 8
        ∷ octet (f.opaque_data % 2 ^ 32) 0
        ∷ [];
    octets_eq = simp append_assoc;
    fits = get_header-IsWireHeader;
    length_eq = refl;
    type_eq = refl;
  }
