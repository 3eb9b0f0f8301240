-- ===== src/Frame/Header.antt =====
-- The 9 octets in front of every frame (httpbis/src/solicit/frame/mod.rs).
-- A byte slice is a list of numbers; an index out of bounds is `none`, the panic of the source.
pub mod Octets
pub mod RoundTrip
use rust_http.Prelude.{ℕ, ◌-◌, ◌*◌, ◌/◌, ◌%◌, ◌^◌, ◌<◌, List, [], ◌∷◌, Option, none, some, drop}
use rust_http.Prelude.{bit_and, bit_or}
use mathlib.Core.Option

abbrev pub IsByte : ℕ → Type 0
IsByte b = b < 256

-- `(x as tip) << k`, for an integer type of `width` bits.
abbrev pub shift_left : ℕ → ℕ → ℕ → ℕ
shift_left width x k = x * 2 ^ k % 2 ^ width

abbrev pub join_octets_4 : ℕ → ℕ → ℕ → ℕ → ℕ → ℕ
join_octets_4 width a b c d =
    bit_or (bit_or (bit_or (shift_left width a 24) (shift_left width b 16)) (shift_left width c 8))
      (shift_left width d 0)

first_octets_4 : ℕ → List ℕ → Option ℕ
first_octets_4 width (a ∷ b ∷ c ∷ d ∷ _) = some (join_octets_4 width a b c d)
first_octets_4 width _ = none

-- The macro `unpack_octets_4!(buf, offset, tip)`; `width` is the number of bits of `tip`.
unfoldable pub unpack_octets_4 : ℕ → List ℕ → ℕ → Option ℕ
unfolding first_octets_4
unpack_octets_4 width buf offset = first_octets_4 width (drop offset buf)

-- `!x` on a u32.
abbrev pub not_u32 : ℕ → ℕ
not_u32 x = 2 ^ 32 - 1 - x

pub parse_stream_id : List ℕ → Option ℕ
parse_stream_id buf =
    Option.map (λ unpacked. bit_and unpacked (not_u32 0x8000_0000)) (unpack_octets_4 32 buf 0)

abbrev pub frame_header_len : ℕ
frame_header_len = 9

pub record FrameHeader : Type 0 where
  pub payload_len : ℕ  -- u32
  pub frame_type : ℕ  -- u8
  pub flags : ℕ  -- u8
  pub stream_id : ℕ  -- u32

-- `none` is the failed `assert_eq!(FRAME_HEADER_LEN, header.len())`.
pub unpack_header : List ℕ → Option FrameHeader
unpack_header (h0 ∷ h1 ∷ h2 ∷ h3 ∷ h4 ∷ h5 ∷ h6 ∷ h7 ∷ h8 ∷ []) =
    Option.map
      (λ stream_id. record {
        payload_len = bit_or (bit_or (shift_left 32 h0 16) (shift_left 32 h1 8)) h2;
        frame_type = h3;
        flags = h4;
        stream_id = stream_id;
      })
      (parse_stream_id (h5 ∷ h6 ∷ h7 ∷ h8 ∷ []))
unpack_header _ = none

-- `((x >> k) & 0x000000FF) as u8`
abbrev pub octet : ℕ → ℕ → ℕ
octet x k = bit_and (x / 2 ^ k) 0xff % 256

unfoldable pub pack_header : FrameHeader → List ℕ
pack_header header =
    octet header.payload_len 16
    ∷ octet header.payload_len 8
    ∷ octet header.payload_len 0
    ∷ header.frame_type
    ∷ header.flags
    ∷ octet header.stream_id 24
    ∷ octet header.stream_id 16
    ∷ octet header.stream_id 8
    ∷ octet header.stream_id 0
    ∷ []
