-- ===== src/Hpack/RoundTrip/Strings.antt =====
-- Encoded strings decoded.
use rust_http.Prelude.{
  ℕ, ◌+◌, ◌-◌, ◌*◌, ◌/◌, ◌^◌, ◌<◌, ◌≡◌, refl, arith, inl, inr, List, [], ◌∷◌, ◌++◌, length, ltb,
  Bool-cases, ltb→lt, false, append_assoc, drop-append, take-append, length-append, slice_from-some,
  le→ltb_false,
}
use rust_http.Prelude.Bits.{bit_and_bit}
use rust_http.Prelude.Outcome.{ok}
use rust_http.Hpack.StaticTable.{Bytes}
use rust_http.Hpack.Integer.{encode_integer_into, encode_rest}
use rust_http.Hpack.Integer.RoundTrip.{
  IsPrefixSize, encode_small, encode_large, decode_integer-encode_integer_into,
}
use rust_http.Hpack.Encoder.{encode_string_literal}
use rust_http.Hpack.Decoder.{is_huffman, decode_octets, decode_string, decode_string_at}
use native.Mathlib.Nat.{one-le-pow}

-- An encoded integer starts with the leading bits, above a number that fits the prefix.
pub encode_integer_into-first :
    (v p l : ℕ)
    → IsPrefixSize p
    → l < 256
    → (x : ℕ) × (rest : List ℕ) × (encode_integer_into v p l ≡ (l / 2 ^ p * 2 ^ p + x) ∷ rest)
      × (x < 2 ^ p)
encode_integer_into-first v p l hp hl = elim (Bool-cases (ltb v (2 ^ p - 1))) [
  | inl e ↦ (
    v,
    [],
    encode_small v p l hp hl (ltb→lt v (2 ^ p - 1) e),
    omega (arith, ltb→lt v (2 ^ p - 1) e),
  )
  | inr e ↦ (
    2 ^ p - 1,
    encode_rest (v - (2 ^ p - 1)) (v - (2 ^ p - 1)),
    encode_large v p l hp hl (ground (arith, e)),
    omega (arith, one-le-pow p 2),
  )
]

-- A string that the protocol's integers can give the length of.
abbrev pub IsShort : Bytes → Type 0
IsShort s = length s < 127 + 2 ^ 28

not_huffman :
    (s : Bytes) (rest : List ℕ) → is_huffman (encode_integer_into (length s) 7 0 ++ rest) ≡ false
unfolding is_huffman
not_huffman s rest =
    let (x, xs, e, h) =
      encode_integer_into-first (length s) 7 0 (omega arith, omega arith) (omega arith) in
    rw e (ground (arith, bit_and_bit 7 x, h))

-- The octets behind a length, where the length does not have the bit of the Huffman code.
decode_octets-append :
    (before : List ℕ) (s : Bytes) (rest : List ℕ)
    → is_huffman (before ++ (s ++ rest)) ≡ false
    → decode_octets (before ++ (s ++ rest)) (length s) (length before)
      ≡ ok (s, length before + length s)
unfolding decode_octets
decode_octets-append before s rest h =
    let fits : ltb (length (before ++ (s ++ rest))) (length before + length s) ≡ false =
      le→ltb_false (length (before ++ (s ++ rest))) (length before + length s)
        (omega (arith, length-append before (s ++ rest), length-append s rest)) in
    rw (fits, h, drop-append before (s ++ rest), take-append s rest) refl

decode_string-encode_string_literal :
    (s : Bytes) (rest : List ℕ)
    → IsShort s
    → decode_string (encode_string_literal s ++ rest) ≡ ok (s, length (encode_string_literal s))
unfolding decode_string encode_string_literal
decode_string-encode_string_literal s rest h =
    let octets = encode_integer_into (length s) 7 0 in
    rw
      (
        append_assoc octets s rest,
        decode_integer-encode_integer_into (length s) 7 0 (omega arith, omega arith) (omega arith)
            (s ++ rest) (omega arith),
        decode_octets-append octets s rest (not_huffman s (s ++ rest)),
        length-append octets s,
      )
      refl

-- The same behind the octets consumed.
pub decode_string_at-encode_string_literal :
    (before : List ℕ) (s : Bytes) (rest : List ℕ)
    → IsShort s
    → decode_string_at (before ++ (encode_string_literal s ++ rest)) (length before)
      ≡ ok (s, length (encode_string_literal s))
unfolding decode_string_at
decode_string_at-encode_string_literal before s rest h =
    rw
      (
        slice_from-some (length before) (before ++ (encode_string_literal s ++ rest))
            (omega (arith, length-append before (encode_string_literal s ++ rest))),
        drop-append before (encode_string_literal s ++ rest),
      )
      (decode_string-encode_string_literal s rest h)
