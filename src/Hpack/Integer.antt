-- ===== src/Hpack/Integer.antt =====
-- Integers with a prefix: `encode_integer_into` of httpbis/src/hpack/encoder.rs and
-- `decode_integer` of httpbis/src/hpack/decoder.rs.
-- An encoder's writer is only appended to: a function gives the octets that it writes.
pub mod RoundTrip
pub mod Bounds
use rust_http.Prelude.{
  ℕ, zero, suc, ◌+◌, ◌-◌, ◌*◌, ◌/◌, ◌%◌, ◌^◌, ◌||◌, List, [], ◌∷◌, bit_and, bit_or, ltb, leb, ◌==◌,
  ◌!=◌, if◌then◌else◌,
}
use rust_http.Prelude.Outcome.{Outcome, ok, err}
use rust_http.Hpack.Error.{
  DecoderError, IntegerDecodingError, integer_decoding_error, too_many_octets, invalid_prefix,
}

-- The low `prefix_size` bits: `(1u8 << prefix_size) - 1`, and 0xFF from 8 on.
unfoldable pub prefix_mask : ℕ → ℕ
prefix_mask prefix_size = if leb 8 prefix_size then 0xff else 2 ^ prefix_size - 1

-- The `while value >= 128` loop and the octet behind it. Each round divides the value by 128, so
-- `value` rounds are enough, and with no round left the value is 0.
pub encode_rest : ℕ → ℕ → List ℕ
encode_rest zero value = value % 256 ∷ []
encode_rest (suc fuel) value =
    let rest = encode_rest fuel (value / 128) in
    if leb 128 value then (value % 128 + 128) % 256 ∷ rest else value % 256 ∷ []

unfoldable pub encode_integer_into : ℕ → ℕ → ℕ → List ℕ
encode_integer_into value prefix_size leading_bits =
    let mask = prefix_mask prefix_size in
    let leading_bits = bit_and leading_bits (255 - mask) in
    if ltb value mask
    then bit_or leading_bits (value % 256) ∷ []
    else bit_or leading_bits mask ∷ encode_rest (value - mask) (value - mask)

abbrev integer_err : IntegerDecodingError → Outcome DecoderError (ℕ × ℕ)
integer_err e = err (integer_decoding_error e)

-- The loop over `buf[1..]`. The shift and the sums have no bound here; the limit of five octets keeps
-- the shift at 21 at most and the value below 2^28 above the prefix, so that none overflows.
unfoldable pub decode_rest : List ℕ → ℕ → ℕ → ℕ → Outcome DecoderError (ℕ × ℕ)
decode_rest [] value total m = integer_err IntegerDecodingError.not_enough_octets
decode_rest (b ∷ bs) value total m =
    let total' = total + 1 in
    let value' = value + bit_and b 127 * 2 ^ m in
    let more = decode_rest bs value' total' (m + 7) in
    if bit_and b 128 != 128
    then ok (value', total')
    else if total' == 5
    then integer_err too_many_octets
    else more

-- What follows the checks of the prefix and of the length.
unfoldable pub decode_prefixed : List ℕ → ℕ → Outcome DecoderError (ℕ × ℕ)
decode_prefixed [] mask = integer_err IntegerDecodingError.not_enough_octets
decode_prefixed (b ∷ bs) mask =
    let value = bit_and b mask in if ltb value mask then ok (value, 1) else decode_rest bs value 1 0

unfoldable pub decode_integer : List ℕ → ℕ → Outcome DecoderError (ℕ × ℕ)
decode_integer buf prefix_size =
    if ltb prefix_size 1 || ltb 8 prefix_size
    then integer_err invalid_prefix
    else decode_prefixed buf (prefix_mask prefix_size)
