-- ===== src/Hpack/Integer/Bounds.antt =====
-- What `decode_integer` can return, on any octets.
use rust_http.Prelude.{
  ℕ, ◌+◌, ◌-◌, ◌*◌, ◌^◌, ◌≤◌, ◌<◌, ◌≡◌, ◌≢◌, arith, List, [], ◌∷◌, length, bit_and,
}
use rust_http.Prelude.Bits.{bit_and_low}
use rust_http.Prelude.Outcome.{ok, panic, diverged}
use rust_http.Hpack.Integer.{prefix_mask, decode_rest, decode_prefixed, decode_integer}
use rust_http.Hpack.Integer.RoundTrip.{prefix_mask-eq, two_pow_seven}
use native.Mathlib.Nat.{one-le-pow, pow-le-pow_right, mod-lt}

low_seven : (b : ℕ) → bit_and b 127 < 128
low_seven b = omega (arith, bit_and_low 7 b)

scaled : (g m : ℕ) → g < 128 → g * 2 ^ m + 2 ^ m ≤ 2 ^ (m + 7)
scaled g m h = rw (two_pow_seven m) (grind arith)

masked-lt : (b p : ℕ) → bit_and b (2 ^ p - 1) < 2 ^ p
masked-lt b p = rw bit_and_low (mod-lt b (one-le-pow p 2 (omega arith)))

two_pow_mono : (i j : ℕ) → i ≤ j → 2 ^ i ≤ 2 ^ j
two_pow_mono i j h = pow-le-pow_right {n = 2} (omega arith) h

places : (m : ℕ) → m ≤ 21 → 2 ^ (m + 7) ≤ 2 ^ 28
places m h = two_pow_mono (m + 7) 28 (omega arith)

-- With bit `m` next, the value stays below its bound and what the octets can still add.
decode_rest_bounds :
    (buf : List ℕ) (value total m bound v n : ℕ)
    → decode_rest buf value total m ≡ ok (v, n)
    → total ≤ 4
    → m + 7 ≡ 7 * total
    → value + 1 ≤ bound + 2 ^ m
    → (v < bound + 2 ^ 28) × (total < n) × (n ≤ 5) × (n ≤ total + length buf)
unfolding decode_rest
decode_rest_bounds [] value total m bound v n e ht hm hv = cc
decode_rest_bounds (b ∷ bs) value total m bound v n e ht hm hv = ground (
  arith,
  scaled (bit_and b 127) m (low_seven b),
  places m,
  decode_rest_bounds bs (value + bit_and b 127 * 2 ^ m) (total + 1) (m + 7) bound v n,
)

decode_prefixed_bounds :
    (buf : List ℕ) (p v n : ℕ)
    → decode_prefixed buf (2 ^ p - 1) ≡ ok (v, n)
    → (v < 2 ^ p - 1 + 2 ^ 28) × (1 ≤ n) × (n ≤ 5) × (n ≤ length buf)
unfolding decode_prefixed
decode_prefixed_bounds [] p v n e = cc
decode_prefixed_bounds (b ∷ bs) p v n e = ground (
  arith,
  bit_and_low p b,
  one-le-pow p 2,
  masked-lt b p,
  decode_rest_bounds bs (bit_and b (2 ^ p - 1)) 1 0 (2 ^ p - 1) v n,
)

-- On any octets a decoded integer is less than 2^28 above the largest prefix, and takes one to five
-- of the octets that are there.
pub decode_integer_bounds :
    (buf : List ℕ) (p v n : ℕ)
    → decode_integer buf p ≡ ok (v, n)
    → (v < 2 ^ p - 1 + 2 ^ 28) × (1 ≤ n) × (n ≤ 5) × (n ≤ length buf)
unfolding decode_integer
decode_integer_bounds buf p v n e =
    ground (arith, prefix_mask-eq p, decode_prefixed_bounds buf p v n)

decode_rest_total :
    (buf : List ℕ) (value total m : ℕ)
    → (decode_rest buf value total m ≢ panic) × (decode_rest buf value total m ≢ diverged)
unfolding decode_rest
decode_rest_total [] value total m = (λ e. cc, λ e. cc)
decode_rest_total (b ∷ bs) value total m =
    let h = decode_rest_total bs (value + bit_and b 127 * 2 ^ m) (total + 1) (m + 7) in
    (λ e. ground (arith, h.0), λ e. ground (arith, h.1))

-- `decode_integer` never panics, and its loop ends.
pub decode_integer_total :
    (buf : List ℕ) (p : ℕ) → (decode_integer buf p ≢ panic) × (decode_integer buf p ≢ diverged)
unfolding decode_integer decode_prefixed
decode_integer_total [] p = (λ e. ground arith, λ e. ground arith)
decode_integer_total (b ∷ bs) p =
    let h = decode_rest_total bs (bit_and b (prefix_mask p)) 1 0 in
    (λ e. ground (arith, h.0), λ e. ground (arith, h.1))
