-- ===== src/Examples/Compression.antt =====
-- Header compression at concrete inputs.
use rust_http.Prelude.{
  ℕ, ◌+◌, ◌-◌, ◌^◌, ◌≤◌, ◌<◌, ◌≡◌, ◌≢◌, refl, arith, List, [], ◌∷◌, ◌++◌, some, length, get_elem?,
}
use rust_http.Prelude.Outcome.{ok, err, diverged}
use rust_http.Hpack.StaticTable.{Header, static_table}
use rust_http.Hpack.DynamicTable
use rust_http.Hpack.DynamicTable.{DynamicTable}
use rust_http.Hpack.DynamicTable.Fitting.{
  total, IsSized, holding, add_header-fitting, set_max_table_size-fitting,
}
use rust_http.Hpack.HeaderTable.{HeaderTable, iter, get_from_table, find_header}
use rust_http.Hpack.HeaderTable.Find.{Found, find_header-Found}
use rust_http.Hpack.HeaderTable.Index.{get_from_table-iter}
use rust_http.Hpack.Encoder
use rust_http.Hpack.Encoder.{Encoder, encode_into}
use rust_http.Hpack.Decoder
use rust_http.Hpack.Decoder.{Decoder, decode, update_max_dynamic_size}
use rust_http.Hpack.Decoder.Total.{decode-ends}
use rust_http.Hpack.Decoder.SizeUpdate.{Updated, update_max_dynamic_size-Updated}
use rust_http.Hpack.Error.{integer_decoding_error, too_many_octets}
use rust_http.Hpack.Integer.{
  encode_integer_into, decode_integer, decode_prefixed, decode_rest, prefix_mask,
}
use rust_http.Hpack.Integer.Bounds.{decode_integer_bounds}
use rust_http.Hpack.Integer.RoundTrip.{
  decode_integer-encode_integer_into, decode_integer-encode_integer_into_large,
}
use rust_http.Hpack.RoundTrip.Headers.{IsValid, paired, decode-encode_into}

-- A header that is in the static table, one that has only its name there, and one twice that is new.
abbrev some_headers : List Header
some_headers =
    (58 ∷ 109 ∷ 101 ∷ 116 ∷ 104 ∷ 111 ∷ 100 ∷ [], 71 ∷ 69 ∷ 84 ∷ [])
    ∷ (58 ∷ 112 ∷ 97 ∷ 116 ∷ 104 ∷ [], 47 ∷ 97 ∷ [])
    ∷ (120 ∷ 45 ∷ 97 ∷ [], 49 ∷ [])
    ∷ (120 ∷ 45 ∷ 97 ∷ [], 49 ∷ [])
    ∷ []

new-IsValid : IsValid (Encoder.new.header_table)
new-IsValid = record {
  static = omega arith;
  sized = (unfold total in refl, omega arith);
  limited = omega arith;
}

decode-encode_into_example :
    (after : Encoder) × (octets : List ℕ) × (encode_into Encoder.new some_headers
      ≡ some (after, octets))
    × (decode (paired Encoder.new 4096) octets ≡ (paired after 4096, ok some_headers))
    × IsValid (after.header_table)
decode-encode_into_example = decode-encode_into Encoder.new 4096 some_headers new-IsValid (
  (omega arith, omega arith),
  ((omega arith, omega arith), ((omega arith, omega arith), ((omega arith, omega arith), tt))),
)

-- A table with room for two of the headers.
abbrev small_table : DynamicTable
small_table = record {
  table = (120 ∷ [], 49 ∷ []) ∷ (121 ∷ [], 50 ∷ []) ∷ [];
  size = 68;
  max_size = 70;
}

small_table-IsSized : IsSized small_table
unfolding total
small_table-IsSized = (refl, omega arith)

add_header-fitting_example :
    DynamicTable.add_header small_table (122 ∷ []) (51 ∷ [])
    ≡ some (holding ((122 ∷ [], 51 ∷ []) ∷ small_table.table) 70)
add_header-fitting_example = add_header-fitting small_table (122 ∷ []) (51 ∷ []) small_table-IsSized

set_max_table_size-fitting_example :
    DynamicTable.set_max_table_size small_table 40 ≡ some (holding (small_table.table) 40)
set_max_table_size-fitting_example = set_max_table_size-fitting small_table 40 small_table-IsSized

abbrev small_header_table : HeaderTable
small_header_table = record { static_table = static_table; dynamic_table = small_table }

find_header-Found_example :
    Found
      (iter small_header_table)
      (120 ∷ [], 49 ∷ [])
      (find_header small_header_table (120 ∷ [], 49 ∷ []))
find_header-Found_example = find_header-Found small_header_table (120 ∷ [], 49 ∷ [])

get_from_table-iter_example :
    get_from_table small_header_table 62 ≡ some (get_elem? (iter small_header_table) 61)
get_from_table-iter_example = get_from_table-iter small_header_table 61 (omega arith)

decode-ends_example : (decode Decoder.new (130 ∷ 32 ∷ [])).1 ≢ diverged
decode-ends_example = decode-ends Decoder.new (130 ∷ 32 ∷ [])

abbrev small_decoder : Decoder
small_decoder = record { header_table = small_header_table; max_size = 70 }

update_max_dynamic_size-Updated_example :
    update_max_dynamic_size small_decoder (63 ∷ [])
    ≡ Updated small_decoder (decode_integer (63 ∷ []) 5)
update_max_dynamic_size-Updated_example =
    update_max_dynamic_size-Updated small_decoder (63 ∷ []) small_table-IsSized

decode_integer-encode_integer_into_example :
    decode_integer (encode_integer_into 1337 5 0 ++ 7 ∷ []) 5
    ≡ ok (1337, length (encode_integer_into 1337 5 0))
decode_integer-encode_integer_into_example =
    decode_integer-encode_integer_into 1337 5 0 (omega arith, omega arith) (omega arith) (7 ∷ [])
      (omega arith)

decode_integer-encode_integer_into_large_example :
    decode_integer (encode_integer_into 268435487 5 0 ++ []) 5
    ≡ err (integer_decoding_error too_many_octets)
decode_integer-encode_integer_into_large_example =
    decode_integer-encode_integer_into_large 268435487 5 0 (omega arith, omega arith) (omega arith)
      [] (omega arith)

two_octets : decode_integer (31 ∷ 10 ∷ []) 5 ≡ ok (41, 2)
unfolding decode_integer decode_prefixed decode_rest prefix_mask
two_octets = refl

decode_integer_bounds_example : (41 < 2 ^ 5 - 1 + 2 ^ 28) × (1 ≤ 2) × (2 ≤ 5) × (2 ≤ 2)
decode_integer_bounds_example = decode_integer_bounds (31 ∷ 10 ∷ []) 5 41 2 two_octets
