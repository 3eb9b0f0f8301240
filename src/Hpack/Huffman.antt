-- ===== src/Hpack/Huffman.antt =====
-- `HuffmanDecoder` of httpbis/src/hpack/huffman.rs.
mod CodeTable
pub mod Total
mod Tests
use rust_http.Prelude.{
  ℕ, zero, suc, ◌+◌, ◌-◌, ◌*◌, ◌%◌, ◌^◌, List, [], ◌∷◌, ◌++◌, Option, none, some, bit_and, ltb,
  ◌==◌, ◌!=◌, ◌&&◌, if◌then◌else◌, Bool, true, false, not, length,
}
use rust_http.Prelude.Outcome.{Outcome, ok, err, panic, diverged, ◌>>=◌, ◌>>◌, reject_if}
use rust_http.Hpack.Error.{HuffmanDecoderError, padding_too_large, invalid_padding, eos_in_string}
use CodeTable.{huffman_code_table}

pub data HuffmanCodeSymbol : Type 0 where
  symbol : ℕ → HuffmanCodeSymbol
  end_of_string : HuffmanCodeSymbol

abbrev new_symbol : ℕ → HuffmanCodeSymbol
new_symbol s = if s == 256 then end_of_string else symbol (s % 256)

-- The maps from a length to the map from a code point of that length to its symbol are one list here,
-- of length, code point and symbol, with what was inserted last first.
pub record HuffmanDecoder : Type 0 where
  pub table : List (ℕ × ℕ × HuffmanCodeSymbol)
  eos_codepoint : ℕ × ℕ

-- The loop of `from_table` from symbol number `s` on.
insert_from : List (ℕ × ℕ) → ℕ → List (ℕ × ℕ × HuffmanCodeSymbol) → List (ℕ × ℕ × HuffmanCodeSymbol)
insert_from [] s inserted = inserted
insert_from ((code, code_len) ∷ codes) s inserted =
    insert_from codes (suc s) ((code_len, code, new_symbol s) ∷ inserted)

eos_from : List (ℕ × ℕ) → ℕ → Option (ℕ × ℕ)
eos_from [] s = none
eos_from (c ∷ codes) s = if s == 256 then some c else eos_from codes (suc s)

-- `none` is a panic: of the check of the table's length, or of the `unwrap`.
from_table : List (ℕ × ℕ) → Option HuffmanDecoder
from_table codes = if length codes != 257 then none else elim (eos_from codes 0) [
  | none ↦ none
  | some eos ↦ some (record { table = insert_from codes 0 []; eos_codepoint = eos })
]

find_symbol : List (ℕ × ℕ × HuffmanCodeSymbol) → ℕ → ℕ → Option HuffmanCodeSymbol
find_symbol [] code_len code = none
find_symbol ((l, c, s) ∷ rest) code_len code =
    if (l == code_len) && (c == code) then some s else find_symbol rest code_len code

-- `BitIterator`: the bits of an octet from position `pos` down, and of all octets.
octet_bits : ℕ → ℕ → List Bool
octet_bits b zero = (bit_and b 1 == 1) ∷ []
octet_bits b (suc pos) = (bit_and b (2 ^ suc pos) == 2 ^ suc pos) ∷ octet_bits b pos

pub bits : List ℕ → List Bool
bits [] = []
bits (b ∷ bs) = octet_bits b 7 ++ bits bs

-- The loop over the bits: a `u32` that loses its top bit to the shift, and a `u8` that may not pass
-- 255.
pub decode_bits : HuffmanDecoder → List Bool → ℕ → ℕ → Outcome HuffmanDecoderError (List ℕ × ℕ × ℕ)
decode_bits d [] current current_len = ok ([], current, current_len)
decode_bits d (b ∷ bs) current current_len =
    let current' = current * 2 % 2 ^ 32 + (if b then 1 else 0) in
    let current_len' = current_len + 1 in
    if current_len == 255 then panic else elim (find_symbol (d.table) current_len' current') [
      | none ↦ decode_bits d bs current' current_len'
      | some end_of_string ↦ err eos_in_string
      | some (symbol s) ↦ decode_bits d bs 0 0 >>= λ (rest, c, l). ok (s ∷ rest, c, l)
    ]

-- The padding is the leading bits of the code of the end of the string.
eos_padding : HuffmanDecoder → ℕ → ℕ → Bool
eos_padding d current current_len =
    let right_align_current =
      if current_len == 0 then 0 else current * 2 ^ (32 - current_len) % 2 ^ 32 in
    let right_align_eos = d.eos_codepoint.0 * 2 ^ (32 - d.eos_codepoint.1) % 2 ^ 32 in
    let mask =
      if current_len == 0 then 0 else (2 ^ current_len - 1) * 2 ^ (32 - current_len) % 2 ^ 32 in
    bit_and right_align_eos mask == right_align_current

-- The checks of the padding.
pub check_padding : HuffmanDecoder → ℕ → ℕ → Outcome HuffmanDecoderError (Unit {0})
check_padding d current current_len =
    reject_if (ltb 7 current_len) padding_too_large
    >> reject_if (not (eos_padding d current current_len)) invalid_padding

pub decode_with : HuffmanDecoder → List ℕ → Outcome HuffmanDecoderError (List ℕ)
decode_with d buf = decode_bits d (bits buf) 0 0 >>= λ (result, current, current_len).
    check_padding d current current_len >> ok result

-- `HuffmanDecoder::new().decode(buf)`
pub decode : List ℕ → Outcome HuffmanDecoderError (List ℕ)
decode buf = elim (from_table huffman_code_table) [ none ↦ panic | some d ↦ decode_with d buf ]
