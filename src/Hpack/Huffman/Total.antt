-- ===== src/Hpack/Huffman/Total.antt =====
-- The Huffman decoder's loop ends.
use rust_http.Prelude.{
  ℕ, ◌+◌, ◌*◌, ◌%◌, ◌^◌, List, [], ◌∷◌, Bool, Option, none, some, if◌then◌else◌, Bool-cases, inl,
  inr, ◌==◌, ltb, true, false, not,
}
use rust_http.Prelude.Outcome.{ok, err, panic, ◌>>=◌, Any, Ends, Ends-bind, reject_if}
use rust_http.Hpack.Error.{eos_in_string, padding_too_large, invalid_padding}
use rust_http.Hpack.Huffman.{
  HuffmanDecoder, HuffmanCodeSymbol, symbol, end_of_string, find_symbol, decode_bits, eos_padding,
  check_padding, decode_with, decode,
}

decode_bits-Ends : (d : HuffmanDecoder) (bs : List Bool) (c l : ℕ) → Ends Any (decode_bits d bs c l)
unfolding decode_bits Ends
decode_bits-Ends d [] c l = tt
decode_bits-Ends d (b ∷ bs) c l =
    let c' = c * 2 % 2 ^ 32 + (if b then 1 else 0) in
    let found : (s : Option HuffmanCodeSymbol)
        → Ends Any (elim s [
          | none ↦ decode_bits d bs c' (l + 1)
          | some end_of_string ↦ err eos_in_string
          | some (symbol s) ↦ decode_bits d bs 0 0 >>= λ (rest, c, l). ok (s ∷ rest, c, l)
        ]) =
      λ s.
        elim s
          as (λ s. Ends Any (elim s [
            | none ↦ decode_bits d bs c' (l + 1)
            | some end_of_string ↦ err eos_in_string
            | some (symbol s) ↦ decode_bits d bs 0 0 >>= λ (rest, c, l). ok (s ∷ rest, c, l)
          ])) [
            | none ↦ decode_bits-Ends d bs c' (l + 1)
            | some end_of_string ↦ tt
            | some (symbol s) ↦
                Ends-bind Any (decode_bits d bs 0 0) _ (decode_bits-Ends d bs 0 0) (λ _ _. tt)
          ] in
    elim (Bool-cases (l == 255)) [
      | inl e ↦ rw e tt
      | inr e ↦ rw e (found (find_symbol (d.table) (l + 1) c'))
    ]

reject_if-Ends : {E : Type 0} (b : Bool) (e : E) → Ends Any (reject_if b e)
unfolding Ends
reject_if-Ends true e = tt
reject_if-Ends false e = tt

check_padding-Ends : (d : HuffmanDecoder) (c l : ℕ) → Ends Any (check_padding d c l)
unfolding check_padding
check_padding-Ends d c l =
    Ends-bind Any (reject_if (ltb 7 l) padding_too_large)
      (λ _. reject_if (not (eos_padding d c l)) invalid_padding)
      (reject_if-Ends (ltb 7 l) padding_too_large)
      (λ _ _. reject_if-Ends (not (eos_padding d c l)) invalid_padding)

decode_with-Ends : (d : HuffmanDecoder) (buf : List ℕ) → Ends Any (decode_with d buf)
unfolding decode_with Ends
decode_with-Ends d buf =
    Ends-bind Any (decode_bits d _ 0 0) _ (decode_bits-Ends d _ 0 0)
      (λ (r, c, l) _. Ends-bind Any (check_padding d c l) _ (check_padding-Ends d c l) (λ _ _. tt))

decode_new-Ends :
    (buf : List ℕ) (o : Option HuffmanDecoder)
    → Ends Any (elim o [ none ↦ panic | some d ↦ decode_with d buf ])
unfolding Ends
decode_new-Ends buf none = tt
decode_new-Ends buf (some d) = decode_with-Ends d buf

pub decode-Ends : (buf : List ℕ) → Ends Any (decode buf)
unfolding decode
decode-Ends buf = decode_new-Ends buf _
