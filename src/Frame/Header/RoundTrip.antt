-- ===== src/Frame/Header/RoundTrip.antt =====
-- Packing a frame header and unpacking it are inverse.
use rust_http.Prelude.{ℕ, ◌+◌, ◌*◌, ◌/◌, ◌%◌, ◌^◌, ◌<◌, ◌≡◌, arith, [], ◌∷◌, some}
use rust_http.Prelude.{All}
use rust_http.Prelude.Bits.{bit_or_disjoint}
use rust_http.Frame.Header.{IsByte, FrameHeader, shift_left, unpack_header, pack_header, octet}
use rust_http.Frame.Header.Octets.{octet-eq, parse_stream_id-octets, parse_stream_id-eq}
use rust_http.Prelude.{bit_or}

-- A header whose fields fit their places on the wire.
pub record IsWireHeader (h : FrameHeader) : Type 0 where
  pub payload_len_fits : h.payload_len < 2 ^ 24
  pub frame_type_fits : h.frame_type < 256
  pub flags_fit : h.flags < 256
  pub stream_id_fits : h.stream_id < 2 ^ 31

join_octets_3 :
    (a b c : ℕ)
    → IsByte a
    → IsByte b
    → IsByte c
    → bit_or (bit_or (shift_left 32 a 16) (shift_left 32 b 8)) c ≡ a * 2 ^ 16 + b * 2 ^ 8 + c
join_octets_3 a b c ha hb hc =
    ground (arith, bit_or_disjoint 16 a (b * 2 ^ 8), bit_or_disjoint 8 (a * 2 ^ 8 + b) c)

join-octets_3 :
    (n : ℕ)
    → n < 2 ^ 24
    → bit_or (bit_or (shift_left 32 (octet n 16) 16) (shift_left 32 (octet n 8) 8)) (octet n 0) ≡ n
join-octets_3 n h =
    rw (octet-eq n 16, octet-eq n 8, octet-eq n 0)
      (omega (
        arith,
        join_octets_3 (n / 2 ^ 16 % 256) (n / 2 ^ 8 % 256) (n / 2 ^ 0 % 256) (omega arith)
            (omega arith) (omega arith),
      ))

-- Unpacking what was packed gives back every header whose fields fit their places: a length of 24
-- bits, a type and flags of 8, a stream id of 31.
pub unpack_header-pack_header :
    (h : FrameHeader) → IsWireHeader h → unpack_header (pack_header h) ≡ some h
unfolding unpack_header pack_header
unpack_header-pack_header h v =
    ground (arith, parse_stream_id-octets h.stream_id [], join-octets_3 h.payload_len)

-- What nine octets unpack to.
unpacked : ℕ → ℕ → ℕ → ℕ → ℕ → ℕ → ℕ → ℕ → ℕ → FrameHeader
unpacked a b c t f s0 s1 s2 s3 = record {
  payload_len = a * 2 ^ 16 + b * 2 ^ 8 + c;
  frame_type = t;
  flags = f;
  stream_id = s0 % 128 * 2 ^ 24 + s1 * 2 ^ 16 + s2 * 2 ^ 8 + s3;
}

module _ (a b c t f s0 s1 s2 s3 : ℕ)
    (v : All IsByte (a ∷ b ∷ c ∷ t ∷ f ∷ s0 ∷ s1 ∷ s2 ∷ s3 ∷ [])) where
  unpack_header-eq :
      unpack_header (a ∷ b ∷ c ∷ t ∷ f ∷ s0 ∷ s1 ∷ s2 ∷ s3 ∷ [])
      ≡ some (unpacked a b c t f s0 s1 s2 s3)
  unfolding unpack_header unpacked
  unpack_header-eq = ground (arith, parse_stream_id-eq s0 s1 s2 s3 [], join_octets_3 a b c)

  unpacked-IsWireHeader : IsWireHeader (unpacked a b c t f s0 s1 s2 s3)
  unfolding unpacked
  unpacked-IsWireHeader = omega arith

  pack_header-unpacked :
      pack_header (unpacked a b c t f s0 s1 s2 s3)
      ≡ a ∷ b ∷ c ∷ t ∷ f ∷ s0 % 128 ∷ s1 ∷ s2 ∷ s3 ∷ []
  unfolding unpacked pack_header
  pack_header-unpacked = simp octet-eq (ground arith)

  -- On nine octets unpacking succeeds, the header's fields fit their places, and packing it gives
  -- the octets back, but for the reserved top bit of the sixth, which is cleared.
  pub pack_header-unpack_header :
      (h : FrameHeader) × (unpack_header (a ∷ b ∷ c ∷ t ∷ f ∷ s0 ∷ s1 ∷ s2 ∷ s3 ∷ []) ≡ some h)
      × IsWireHeader h
      × (pack_header h ≡ a ∷ b ∷ c ∷ t ∷ f ∷ s0 % 128 ∷ s1 ∷ s2 ∷ s3 ∷ [])
  pack_header-unpack_header = (
    unpacked a b c t f s0 s1 s2 s3,
    unpack_header-eq,
    unpacked-IsWireHeader,
    pack_header-unpacked,
  )
