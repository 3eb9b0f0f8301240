-- ===== src/Frame/Header/Octets.antt =====
-- Octets put together and taken apart, in plain arithmetic.
use rust_http.Prelude.{ℕ, ◌+◌, ◌*◌, ◌/◌, ◌%◌, ◌^◌, ◌<◌, ◌≡◌, ap, arith, List, ◌∷◌}
use rust_http.Prelude.{some}
use rust_http.Prelude.Bits.{bit_or_disjoint, bit_and_low}
use rust_http.Frame.Header.{IsByte, join_octets_4, unpack_octets_4, parse_stream_id, octet}

pub octet-eq : (x k : ℕ) → octet x k ≡ x / 2 ^ k % 256
octet-eq x k = omega (arith, bit_and_low 8 (x / 2 ^ k))

-- On octets the joined number is the sum of the places, in 32 bits and in any wider type.
module _ (a b c d : ℕ) (ha : IsByte a) (hb : IsByte b) (hc : IsByte c) (hd : IsByte d) where
  pub join_octets_4-eq : join_octets_4 32 a b c d ≡ a * 2 ^ 24 + b * 2 ^ 16 + c * 2 ^ 8 + d
  join_octets_4-eq = ground (
    arith,
    bit_or_disjoint 24 a (b * 2 ^ 16),
    bit_or_disjoint 16 (a * 2 ^ 8 + b) (c * 2 ^ 8),
    bit_or_disjoint 8 (a * 2 ^ 16 + b * 2 ^ 8 + c) d,
  )

  join_octets_4-eq_u64 : join_octets_4 64 a b c d ≡ a * 2 ^ 24 + b * 2 ^ 16 + c * 2 ^ 8 + d
  join_octets_4-eq_u64 = ground (
    arith,
    bit_or_disjoint 24 a (b * 2 ^ 16),
    bit_or_disjoint 16 (a * 2 ^ 8 + b) (c * 2 ^ 8),
    bit_or_disjoint 8 (a * 2 ^ 16 + b * 2 ^ 8 + c) d,
  )

-- The four octets that `write_u32` writes.
pub join-octets :
    (n : ℕ) → n < 2 ^ 32 → join_octets_4 32 (octet n 24) (octet n 16) (octet n 8) (octet n 0) ≡ n
join-octets n h =
    rw (octet-eq n 24, octet-eq n 16, octet-eq n 8, octet-eq n 0)
      (omega (
        arith,
        join_octets_4-eq (n / 2 ^ 24 % 256) (n / 2 ^ 16 % 256) (n / 2 ^ 8 % 256) (n / 2 ^ 0 % 256)
            (omega arith) (omega arith) (omega arith) (omega arith),
      ))

pub join-octets_u64 :
    (n : ℕ) → n < 2 ^ 32 → join_octets_4 64 (octet n 24) (octet n 16) (octet n 8) (octet n 0) ≡ n
join-octets_u64 n h =
    rw (octet-eq n 24, octet-eq n 16, octet-eq n 8, octet-eq n 0)
      (omega (
        arith,
        join_octets_4-eq_u64 (n / 2 ^ 24 % 256) (n / 2 ^ 16 % 256) (n / 2 ^ 8 % 256)
            (n / 2 ^ 0 % 256) (omega arith) (omega arith) (omega arith) (omega arith),
      ))

pub unpack-octets :
    (n : ℕ) (rest : List ℕ)
    → n < 2 ^ 32
    → unpack_octets_4 32 (octet n 24 ∷ octet n 16 ∷ octet n 8 ∷ octet n 0 ∷ rest) 0 ≡ some n
unfolding unpack_octets_4
unpack-octets n rest h = ap some (join-octets n h)

pub parse_stream_id-octets :
    (n : ℕ) (rest : List ℕ)
    → n < 2 ^ 32
    → parse_stream_id (octet n 24 ∷ octet n 16 ∷ octet n 8 ∷ octet n 0 ∷ rest) ≡ some (n % 2 ^ 31)
unfolding parse_stream_id
parse_stream_id-octets n rest h = rw (unpack-octets n rest h) (ap some (bit_and_low 31 n))

pub parse_stream_id-eq :
    (a b c d : ℕ) (rest : List ℕ)
    → IsByte a
    → IsByte b
    → IsByte c
    → IsByte d
    → parse_stream_id (a ∷ b ∷ c ∷ d ∷ rest) ≡ some (a % 128 * 2 ^ 24 + b * 2 ^ 16 + c * 2 ^ 8 + d)
unfolding parse_stream_id unpack_octets_4
parse_stream_id-eq a b c d rest ha hb hc hd =
    rw (join_octets_4-eq a b c d ha hb hc hd)
      (ap some (omega (arith, bit_and_low 31 (a * 2 ^ 24 + b * 2 ^ 16 + c * 2 ^ 8 + d))))
