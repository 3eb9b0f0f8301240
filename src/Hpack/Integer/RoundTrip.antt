-- ===== src/Hpack/Integer/RoundTrip.antt =====
-- Encoded integers decoded.
use rust_http.Prelude.{
  ℕ, zero, suc, ◌+◌, ◌-◌, ◌*◌, ◌/◌, ◌%◌, ◌^◌, ◌≤◌, ◌<◌, ◌≡◌, refl, ap, arith, List, [], ◌∷◌, ◌++◌,
  length, bit_and, bit_or, ltb, leb, lt→ltb, le→ltb_false, ltb→lt, leb→le, Bool-cases, inl, inr,
}
use rust_http.Prelude.Bits.{bit_and_low, bit_and_bit, bit_or_disjoint, same_below, same_below→eq}
use rust_http.Prelude.Outcome.{ok, err}
use rust_http.Hpack.Error.{integer_decoding_error, too_many_octets}
use rust_http.Hpack.Integer.{
  prefix_mask, encode_rest, encode_integer_into, decode_rest, decode_prefixed, decode_integer,
}
use native.Mathlib.Nat.{div-add-mod, pow-suc, one-le-pow, pow-le-pow_right}
use native.Mathlib.Numerals.{towards_suc}

pub two_pow_seven : (m : ℕ) → 2 ^ (m + 7) ≡ 128 * 2 ^ m
two_pow_seven m = simp towards_suc (omega arith)

-- The lowest seven bits of `w` and the rest, both counted from bit `m`.
seven_bits : (w m : ℕ) → w * 2 ^ m ≡ w % 128 * 2 ^ m + w / 128 * 2 ^ (m + 7)
seven_bits w m = omega (
  arith,
  ap (λ (t : ℕ). t * 2 ^ m) (div-add-mod w 128),
  ap (λ (t : ℕ). w / 128 * t) (two_pow_seven m),
)

-- One round on the last octet, and on one with the continuation bit.
decode_last :
    (w value total m : ℕ) (rest : List ℕ)
    → w < 128
    → decode_rest (w ∷ rest) value total m ≡ ok (value + w * 2 ^ m, total + 1)
unfolding decode_rest
decode_last w value total m rest h = ground (arith, bit_and_low 7 w, bit_and_bit 7 w)

decode_more :
    (g value total m : ℕ) (rest : List ℕ)
    → g < 128
    → total + 1 < 5
    → decode_rest ((g + 128) ∷ rest) value total m
      ≡ decode_rest rest (value + g * 2 ^ m) (total + 1) (m + 7)
unfolding decode_rest
decode_more g value total m rest h t =
    ground (arith, bit_and_low 7 (g + 128), bit_and_bit 7 (g + 128))

decode_too_many :
    (g value m : ℕ) (rest : List ℕ)
    → g < 128
    → decode_rest ((g + 128) ∷ rest) value 4 m ≡ err (integer_decoding_error too_many_octets)
unfolding decode_rest
decode_too_many g value m rest h = ground (arith, bit_and_low 7 (g + 128), bit_and_bit 7 (g + 128))

encode_rest_small : (fuel w : ℕ) → w < 128 → encode_rest fuel w ≡ w ∷ []
unfolding encode_rest
encode_rest_small zero w h = ground arith
encode_rest_small (suc fuel) w h = ground arith

encode_rest_large :
    (fuel w : ℕ) → 128 ≤ w → encode_rest (suc fuel) w ≡ (w % 128 + 128) ∷ encode_rest fuel (w / 128)
unfolding encode_rest
encode_rest_large fuel w h = ground arith

-- `k` octets are left of the five, and the value fits them.
decode-encode_rest :
    (k fuel w value total m : ℕ) (rest : List ℕ)
    → total + k ≡ 4
    → w < 128 ^ suc k
    → w ≤ fuel
    → decode_rest (encode_rest fuel w ++ rest) value total m
      ≡ ok (value + w * 2 ^ m, total + length (encode_rest fuel w))
decode-encode_rest zero fuel w value total m rest t small enough =
    rw (encode_rest_small fuel w (omega arith)) (decode_last w value total m rest (omega arith))
decode-encode_rest (suc k) zero w value total m rest t small enough =
    rw (encode_rest_small zero w (omega arith)) (decode_last w value total m rest (omega arith))
decode-encode_rest (suc k) (suc fuel) w value total m rest t small enough =
    elim (Bool-cases (ltb w 128)) [
      | inl e ↦
          rw (encode_rest_small (suc fuel) w (ltb→lt w 128 e))
            (decode_last w value total m rest (ltb→lt w 128 e))
      | inr e ↦ ground (
        arith,
        encode_rest_large fuel w,
        decode_more (w % 128) value total m (encode_rest fuel (w / 128) ++ rest),
        decode-encode_rest k fuel (w / 128) (value + w % 128 * 2 ^ m) (total + 1) (m + 7) rest
            (omega arith) (omega (arith, pow-suc 128 (suc k))),
        seven_bits w m,
      )
    ]

-- A value that needs a sixth octet is refused, whatever follows.
decode-encode_rest_large :
    (k fuel w value total m : ℕ) (rest : List ℕ)
    → total + k ≡ 4
    → 128 ^ suc k ≤ w
    → w ≤ fuel
    → decode_rest (encode_rest fuel w ++ rest) value total m
      ≡ err (integer_decoding_error too_many_octets)
decode-encode_rest_large k zero w value total m rest t large enough =
    absurd (omega (arith, one-le-pow (suc k) 128))
decode-encode_rest_large zero (suc fuel) w value total m rest t large enough =
    let e : total ≡ 4 = omega arith in
    rw (encode_rest_large fuel w (omega arith), e)
      (decode_too_many (w % 128) value m (encode_rest fuel (w / 128) ++ rest) (omega arith))
decode-encode_rest_large (suc k) (suc fuel) w value total m rest t large enough = ground (
  arith,
  encode_rest_large fuel w (omega (arith, pow-suc 128 (suc k), one-le-pow (suc k) 128)),
  decode_more (w % 128) value total m (encode_rest fuel (w / 128) ++ rest),
  decode-encode_rest_large k fuel (w / 128) (value + w % 128 * 2 ^ m) (total + 1) (m + 7) rest
      (omega arith) (omega (arith, pow-suc 128 (suc k))) (omega arith),
)

-- The prefix sizes that the protocol has.
abbrev pub IsPrefixSize : ℕ → Type 0
IsPrefixSize p = (1 ≤ p) × (p ≤ 8)

pub prefix_mask-eq : (p : ℕ) → IsPrefixSize p → prefix_mask p ≡ 2 ^ p - 1
unfolding prefix_mask
prefix_mask-eq p h = elim (Bool-cases (leb 8 p)) [
  | inl e ↦ rw e (let q : p ≡ 8 = omega (arith, leb→le 8 p e) in rw q)
  | inr e ↦ rw e
]

-- The leading bits that are kept are those above the prefix.
leading_table :
    (x : ℕ)
    → x < 9 * 256
    → bit_and (x % 256) (255 - (2 ^ (x / 256) - 1)) ≡ x % 256 / 2 ^ (x / 256) * 2 ^ (x / 256)
unfolding same_below
leading_table x h =
    same_below→eq (λ x. bit_and (x % 256) (255 - (2 ^ (x / 256) - 1)))
      (λ x. x % 256 / 2 ^ (x / 256) * 2 ^ (x / 256)) (9 * 256) x refl h

leading_bits_kept : (l p : ℕ) → l < 256 → p ≤ 8 → bit_and l (255 - (2 ^ p - 1)) ≡ l / 2 ^ p * 2 ^ p
leading_bits_kept l p hl hp =
    let q : (p * 256 + l) / 256 ≡ p = omega arith in
    let r : (p * 256 + l) % 256 ≡ l = omega arith in
    rw (q, r) at (leading_table (p * 256 + l) (omega arith))

-- The first octet: the leading bits above the prefix, and a number that fits it.
first_octet :
    (l p v : ℕ)
    → l < 256
    → p ≤ 8
    → v < 2 ^ p
    → bit_or (bit_and l (255 - (2 ^ p - 1))) v ≡ l / 2 ^ p * 2 ^ p + v
first_octet l p v hl hp hv = rw (leading_bits_kept l p hl hp) (bit_or_disjoint p (l / 2 ^ p) v hv)

two_pow_le : (p : ℕ) → p ≤ 8 → 2 ^ p ≤ 256
two_pow_le p h = omega (arith, pow-le-pow_right {n = 2} (omega arith) h)

-- The octets of an integer: the first, with the value cut to the prefix, and those behind it.
module _ (v p l : ℕ) (hp : IsPrefixSize p) (hl : l < 256) where
  pub encode_small : v < 2 ^ p - 1 → encode_integer_into v p l ≡ (l / 2 ^ p * 2 ^ p + v) ∷ []
  unfolding encode_integer_into
  encode_small h =
      let e : v % 256 ≡ v = omega (arith, two_pow_le p hp.1) in
      rw (prefix_mask-eq p hp, lt→ltb v (2 ^ p - 1) h, e, first_octet l p v hl hp.1 (omega arith))

  pub encode_large :
      2 ^ p - 1 ≤ v
      → encode_integer_into v p l
        ≡ (l / 2 ^ p * 2 ^ p + (2 ^ p - 1)) ∷ encode_rest (v - (2 ^ p - 1)) (v - (2 ^ p - 1))
  unfolding encode_integer_into
  encode_large h = rw (
    prefix_mask-eq p hp,
    le→ltb_false v (2 ^ p - 1) h,
    first_octet l p (2 ^ p - 1) hl hp.1 (omega (arith, one-le-pow p 2)),
  )

  -- The mask finds the value in the first octet.
  masked : (x : ℕ) → x < 2 ^ p → bit_and (l / 2 ^ p * 2 ^ p + x) (2 ^ p - 1) ≡ x
  masked x h = rw (bit_and_low p (l / 2 ^ p * 2 ^ p + x)) (grind arith)

  decode_small :
      (rest : List ℕ)
      → v < 2 ^ p - 1
      → decode_integer ((l / 2 ^ p * 2 ^ p + v) ∷ rest) p ≡ ok (v, 1)
  unfolding decode_integer decode_prefixed
  decode_small rest h = rw (prefix_mask-eq p hp, masked v (omega arith)) (ground arith)

  decode_large :
      (rest : List ℕ)
      → decode_integer ((l / 2 ^ p * 2 ^ p + (2 ^ p - 1)) ∷ rest) p
        ≡ decode_rest rest (2 ^ p - 1) 1 0
  unfolding decode_integer decode_prefixed
  decode_large rest =
      rw (prefix_mask-eq p hp, masked (2 ^ p - 1) (omega (arith, one-le-pow p 2))) (ground arith)

  -- For every prefix size and all leading bits, what was encoded is decoded to the value and to the
  -- number of octets it took, whatever follows, if the value is less than 2^28 above the prefix.
  pub decode_integer-encode_integer_into :
      (rest : List ℕ)
      → v < 2 ^ p - 1 + 2 ^ 28
      → decode_integer (encode_integer_into v p l ++ rest) p
        ≡ ok (v, length (encode_integer_into v p l))
  decode_integer-encode_integer_into rest h = elim (Bool-cases (ltb v (2 ^ p - 1))) [
    | inl e ↦
        rw (encode_small (ltb→lt v (2 ^ p - 1) e)) (decode_small rest (ltb→lt v (2 ^ p - 1) e))
    | inr e ↦ ground (
      arith,
      encode_large,
      decode_large (encode_rest (v - (2 ^ p - 1)) (v - (2 ^ p - 1)) ++ rest),
      decode-encode_rest 3 (v - (2 ^ p - 1)) (v - (2 ^ p - 1)) (2 ^ p - 1) 1 0 rest,
    )
  ]

  -- Any larger value is encoded to octets that the decoder refuses as too many.
  pub decode_integer-encode_integer_into_large :
      (rest : List ℕ)
      → 2 ^ p - 1 + 2 ^ 28 ≤ v
      → decode_integer (encode_integer_into v p l ++ rest) p
        ≡ err (integer_decoding_error too_many_octets)
  decode_integer-encode_integer_into_large rest h =
      rw
        (
          encode_large (omega arith),
          decode_large (encode_rest (v - (2 ^ p - 1)) (v - (2 ^ p - 1)) ++ rest),
        )
        (decode-encode_rest_large 3 (v - (2 ^ p - 1)) (v - (2 ^ p - 1)) (2 ^ p - 1) 1 0 rest refl
          (omega arith) (omega arith))
