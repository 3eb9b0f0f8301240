-- ===== src/Hpack/Huffman/Tests.antt =====
-- Texts under the Huffman code.
use rust_http.Prelude.{◌≡◌, refl, [], ◌∷◌}
use rust_http.Prelude.Outcome.{ok, err}
use rust_http.Hpack.Error.{invalid_padding, padding_too_large}
use rust_http.Hpack.Huffman.{
  insert_from, eos_from, from_table, find_symbol, octet_bits, bits, decode_bits, eos_padding,
  check_padding, decode_with, decode,
}

-- Two letters, of five and six bits, and five bits of padding.
two_letters : decode (0x1c ∷ 0x7f ∷ []) ≡ ok (97 ∷ 98 ∷ [])
unfolding decode decode_with check_padding eos_padding decode_bits bits octet_bits find_symbol
    from_table eos_from insert_from
two_letters = refl

-- A letter with padding of zeros.
zero_padding : decode (0x38 ∷ []) ≡ err invalid_padding
unfolding decode decode_with check_padding eos_padding decode_bits bits octet_bits find_symbol
    from_table eos_from insert_from
zero_padding = refl

-- A whole octet of padding.
long_padding : decode (0xff ∷ []) ≡ err padding_too_large
unfolding decode decode_with check_padding eos_padding decode_bits bits octet_bits find_symbol
    from_table eos_from insert_from
long_padding = refl
