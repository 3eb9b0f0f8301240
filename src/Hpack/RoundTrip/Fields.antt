-- ===== src/Hpack/RoundTrip/Fields.antt =====
-- Each representation of a header that the encoder writes is decoded to the header.
use rust_http.Prelude.{
  ℕ, suc, ◌+◌, ◌*◌, ◌/◌, ◌^◌, ◌<◌, ◌≡◌, refl, arith, List, [], ◌∷◌, ◌++◌, some, length, Bool, true,
  false, append_assoc, length-append, get_elem?,
}
use rust_http.Prelude.Bits.{bit_and_bit}
use rust_http.Prelude.Outcome.{ok}
use rust_http.Hpack.StaticTable.{Bytes, Header}
use rust_http.Hpack.Integer.{encode_integer_into, decode_integer, prefix_mask}
use rust_http.Hpack.Integer.RoundTrip.{decode_integer-encode_integer_into}
use rust_http.Hpack.HeaderTable.{HeaderTable, iter, add_header}
use rust_http.Hpack.HeaderTable.Index.{get_from_table-iter}
use rust_http.Hpack.Encoder.{
  encode_string_literal, encode_literal, encode_indexed_name, encode_indexed,
}
use rust_http.Hpack.Decoder.{
  Decoder, FieldRepresentation, indexed, literal_with_incremental_indexing,
  literal_without_indexing, field_representation, decode_field, decode_indexed, decode_literal,
  decode_name, get_from_table, ok_or_out_of_bounds,
}
use rust_http.Hpack.RoundTrip.Strings.{
  encode_integer_into-first, IsShort, decode_string_at-encode_string_literal,
}

-- The octets start a field of representation `f`, which the decoder, wherever it is in the block
-- and whatever follows, takes for the header, all octets consumed.
pub record Reads (d d' : Decoder) (h : Header) (f : FieldRepresentation) (octets : List ℕ)
    : Type 0 where
  pub first : ℕ
  pub others : List ℕ
  pub starts : octets ≡ first ∷ others
  pub represents : field_representation first ≡ f
  pub field :
      (b : Bool) (rest : List ℕ)
      → decode_field d b f (octets ++ rest) ≡ ok (d', h ∷ [], length octets)

found-ok :
    (d : Decoder) (i : ℕ) (h : Header)
    → i < 2 ^ 28
    → get_elem? (iter (d.header_table)) i ≡ some h
    → get_from_table d (suc i) ≡ ok h
unfolding get_from_table ok_or_out_of_bounds
found-ok d i h lt e = rw (get_from_table-iter (d.header_table) i (omega arith), e) refl

-- The representation of an index.
indexed_first : (x : ℕ) → x < 2 ^ 7 → field_representation (128 + x) ≡ indexed
unfolding field_representation
indexed_first x h = ground (arith, bit_and_bit 7 (128 + x))

without_first : (x : ℕ) → x < 2 ^ 4 → field_representation x ≡ literal_without_indexing
unfolding field_representation
without_first x h =
    ground (arith, bit_and_bit 7 x, bit_and_bit 6 x, bit_and_bit 5 x, bit_and_bit 4 x)

pub encode_indexed-Reads :
    (d : Decoder) (i : ℕ) (h : Header)
    → i < 2 ^ 28
    → get_elem? (iter (d.header_table)) i ≡ some h
    → Reads d d h indexed (encode_indexed (suc i))
unfolding encode_indexed decode_field decode_indexed
encode_indexed-Reads d i h lt e =
    let (x, xs, s, l) =
      encode_integer_into-first (suc i) 7 0x80 (omega arith, omega arith) (omega arith) in
    record {
      first = 128 + x;
      others = xs;
      starts = s;
      represents = indexed_first x l;
      field = λ b rest.
          rw
            (
              decode_integer-encode_integer_into (suc i) 7 0x80 (omega arith, omega arith)
                  (omega arith) rest (omega arith),
              found-ok d i h lt e,
            )
            refl;
    }

pub encode_indexed_name-Reads :
    (d : Decoder) (i : ℕ) (name v value : Bytes)
    → i < 2 ^ 28
    → get_elem? (iter (d.header_table)) i ≡ some (name, v)
    → IsShort value
    → Reads d d (name, value) literal_without_indexing (encode_indexed_name (suc i) value false)
unfolding encode_indexed_name decode_field decode_literal decode_name
encode_indexed_name-Reads d i name v value lt e short =
    let octets = encode_integer_into (suc i) 4 0 in
    let (x, xs, s, l) =
      encode_integer_into-first (suc i) 4 0 (omega arith, omega arith) (omega arith) in
    record {
      first = x;
      others = xs ++ encode_string_literal value;
      starts = let z : 0 / 2 ^ 4 * 2 ^ 4 + x ≡ x = omega arith in rw (s, z) refl;
      represents = without_first x l;
      field = λ b rest.
          rw
            (
              append_assoc octets (encode_string_literal value) rest,
              decode_integer-encode_integer_into (suc i) 4 0 (omega arith, omega arith)
                  (omega arith) (encode_string_literal value ++ rest) (omega arith),
              found-ok d i (name, v) lt e,
              decode_string_at-encode_string_literal octets value rest short,
              length-append octets (encode_string_literal value),
            )
            refl;
    }

-- The octet 0x40 is the index 0: a literal name follows.
zero_index : (rest : List ℕ) → decode_integer (0x40 ∷ rest) 6 ≡ ok (0, 1)
zero_index rest =
    let one : encode_integer_into 0 6 0x40 ≡ 0x40 ∷ [] =
      unfold encode_integer_into in unfold prefix_mask in refl in
    rw one at (
      decode_integer-encode_integer_into 0 6 0x40 (omega arith, omega arith) (omega arith) rest
        (omega arith))

literal-Reads :
    (d : Decoder) (name value : Bytes) (rest : List ℕ)
    → IsShort name
    → IsShort value
    → decode_literal d (encode_literal (name, value) true ++ rest) true
      ≡ ok ((name, value), length (encode_literal (name, value) true))
unfolding encode_literal decode_literal decode_name
literal-Reads d name value rest short_name short_value =
    let n = encode_string_literal name in
    let v = encode_string_literal value in
    let one : 1 + length n ≡ suc (length n) = omega arith in
    let all : suc (length n) + length v ≡ suc (length (n ++ v)) =
      omega (arith, length-append n v) in
    rw
      (
        append_assoc n v rest,
        zero_index (n ++ (v ++ rest)),
        decode_string_at-encode_string_literal (0x40 ∷ []) name (v ++ rest) short_name,
        one,
        decode_string_at-encode_string_literal (0x40 ∷ n) value rest short_value,
        all,
      )
      refl

pub encode_literal-Reads :
    (d : Decoder) (t : HeaderTable) (name value : Bytes)
    → add_header (d.header_table) name value ≡ some t
    → IsShort name
    → IsShort value
    → Reads d
        (record { header_table = t; max_size = d.max_size })
        (name, value)
        literal_with_incremental_indexing
        (encode_literal (name, value) true)
unfolding encode_literal decode_field field_representation
encode_literal-Reads d t name value a short_name short_value = record {
  first = 0x40;
  others = encode_string_literal name ++ encode_string_literal value;
  starts = refl;
  represents = refl;
  field = λ b rest. rw (literal-Reads d name value rest short_name short_value, a) refl;
}
