-- ===== src/Hpack/Encoder.antt =====
-- `Encoder` of httpbis/src/hpack/encoder.rs. The writer is only appended to: a function gives the
-- octets that it writes. `none` is a panic of the dynamic table.
use rust_http.Prelude.{
  ℕ, List, [], ◌∷◌, ◌++◌, Option, none, some, length, if◌then◌else◌, Bool, true, false,
}
use rust_http.Hpack.StaticTable.{Bytes, Header, static_table}
use rust_http.Hpack.HeaderTable.{
  HeaderTable, HeaderValueFound, found, name_only_found, with_static_table, find_header, add_header,
}
use rust_http.Hpack.Integer.{encode_integer_into}

pub record Encoder : Type 0 where
  pub header_table : HeaderTable

abbrev pub new : Encoder
new = record { header_table = with_static_table static_table }

unfoldable pub encode_string_literal : Bytes → List ℕ
encode_string_literal octet_str = encode_integer_into (length octet_str) 7 0 ++ octet_str

unfoldable pub encode_literal : Header → Bool → List ℕ
encode_literal (name, value) should_index =
    (if should_index then 0x40 else 0) ∷ (encode_string_literal name ++ encode_string_literal value)

unfoldable pub encode_indexed_name : ℕ → Bytes → Bool → List ℕ
encode_indexed_name index value should_index =
    let (mask, prefix) : ℕ × ℕ = if should_index then (0x40, 6) else (0, 4) in
    encode_integer_into index prefix mask ++ encode_string_literal value

unfoldable pub encode_indexed : ℕ → List ℕ
encode_indexed index = encode_integer_into index 7 0x80

-- `encode_header_into`, on what `find_header` gives.
unfoldable pub encode_found :
    Encoder → Header → Option (ℕ × HeaderValueFound) → Option (Encoder × List ℕ)
encode_found e (name, value) none = elim (add_header (e.header_table) name value) [
  | none ↦ none
  | some t ↦ some (record { header_table = t }, encode_literal (name, value) true)
]
encode_found e (name, value) (some (index, name_only_found)) =
    some (e, encode_indexed_name index value false)
encode_found e (name, value) (some (index, found)) = some (e, encode_indexed index)

unfoldable pub encode_header_into : Encoder → Header → Option (Encoder × List ℕ)
encode_header_into e header = encode_found e header (find_header (e.header_table) header)

unfoldable pub encode_into : Encoder → List Header → Option (Encoder × List ℕ)
encode_into e [] = some (e, [])
encode_into e (header ∷ headers) = elim (encode_header_into e header) [
  | none ↦ none
  | some (e', octets) ↦ elim (encode_into e' headers) [
    | none ↦ none
    | some (e'', rest) ↦ some (e'', octets ++ rest)
  ]
]
