-- ===== src/Hpack/Decoder.antt =====
-- `Decoder` of httpbis/src/hpack/decoder.rs. The callback of `decode_with_cb` is the list of the
-- headers that it is called with, which `decode` makes of it.
pub mod Total
pub mod SizeUpdate
use rust_http.Prelude.{
  ℕ, zero, suc, ◌+◌, ◌-◌, ◌*◌, ◌%◌, ◌^◌, List, [], ◌∷◌, ◌++◌, Option, none, some, length, take,
  drop, slice_from, bit_and, ltb, ◌==◌, ◌&&◌, if◌then◌else◌, Bool, true, false,
}
use rust_http.Prelude.Outcome.{Outcome, ok, err, panic, diverged, ◌>>=◌, or_panic}
use rust_http.Hpack.Error.{
  DecoderError, HuffmanDecoderError, StringDecodingError, not_enough_octets, huffman_decoder_error,
  string_decoding_error, header_index_out_of_bounds, invalid_max_dynamic_size,
  size_update_must_be_first_field,
}
use rust_http.Hpack.StaticTable.{Bytes, Header, static_table}
use rust_http.Hpack.DynamicTable
use rust_http.Hpack.HeaderTable
use rust_http.Hpack.HeaderTable.{HeaderTable}
use rust_http.Hpack.Integer.{decode_integer}
use rust_http.Hpack.Huffman

pub record Decoder : Type 0 where
  pub header_table : HeaderTable
  pub max_size : ℕ

abbrev pub with_static_table : List Header → Decoder
with_static_table static_table = record {
  header_table = HeaderTable.with_static_table static_table;
  max_size = 4096;
}

abbrev pub new : Decoder
new = with_static_table static_table

unfoldable pub set_max_table_size : Decoder → ℕ → Option Decoder
set_max_table_size d new_max_size =
    elim (DynamicTable.set_max_table_size (d.header_table.dynamic_table) new_max_size) [
      | none ↦ none
      | some t ↦ some (record {
        header_table = record { static_table = d.header_table.static_table; dynamic_table = t };
        max_size = new_max_size % 2 ^ 32;
      })
    ]

pub string_result : Outcome HuffmanDecoderError Bytes → Outcome DecoderError Bytes
string_result (ok res) = ok res
string_result (err e) = err (string_decoding_error (huffman_decoder_error e))
string_result panic = panic
string_result diverged = diverged

pub decode_huffman : List ℕ → Outcome DecoderError Bytes
decode_huffman raw_string = string_result (Huffman.decode raw_string)

-- `buf[0] & 128 == 128`; `buf` is not empty when an integer was decoded from it.
unfoldable pub is_huffman : List ℕ → Bool
is_huffman [] = false
is_huffman (b ∷ bs) = bit_and b 128 == 128

-- What follows the length: the octets of the string.
unfoldable pub decode_octets : List ℕ → ℕ → ℕ → Outcome DecoderError (Bytes × ℕ)
decode_octets buf len consumed =
    let raw_string = take len (drop consumed buf) in
    if ltb (length buf) (consumed + len)
    then err (string_decoding_error not_enough_octets)
    else if is_huffman buf
    then (decode_huffman raw_string >>= λ decoded. ok (decoded, consumed + len))
    else ok (raw_string, consumed + len)

unfoldable pub decode_string : List ℕ → Outcome DecoderError (Bytes × ℕ)
decode_string buf = decode_integer buf 7 >>= λ (len, consumed). decode_octets buf len consumed

pub data FieldRepresentation : Type 0 where
  indexed literal_with_incremental_indexing size_update literal_never_indexed
        literal_without_indexing :
      FieldRepresentation

unfoldable pub field_representation : ℕ → FieldRepresentation
field_representation octet =
    if bit_and octet 128 == 128
    then indexed
    else if bit_and octet 64 == 64
    then literal_with_incremental_indexing
    else if bit_and octet 32 == 32
    then size_update
    else if bit_and octet 16 == 16
    then literal_never_indexed
    else literal_without_indexing

unfoldable pub ok_or_out_of_bounds : Option (Option Header) → Outcome DecoderError Header
ok_or_out_of_bounds none = panic
ok_or_out_of_bounds (some none) = err header_index_out_of_bounds
ok_or_out_of_bounds (some (some h)) = ok h

unfoldable pub get_from_table : Decoder → ℕ → Outcome DecoderError Header
get_from_table d index = ok_or_out_of_bounds (HeaderTable.get_from_table (d.header_table) index)

unfoldable pub decode_indexed : Decoder → List ℕ → Outcome DecoderError (Header × ℕ)
decode_indexed d buf =
    decode_integer buf 7 >>= λ (index, consumed). get_from_table d index >>= λ h. ok (h, consumed)

-- `decode_string(&buf.slice(consumed..))`
unfoldable pub decode_string_at : List ℕ → ℕ → Outcome DecoderError (Bytes × ℕ)
decode_string_at buf consumed = or_panic (slice_from consumed buf) >>= decode_string

unfoldable pub decode_name : Decoder → List ℕ → ℕ → ℕ → Outcome DecoderError (Bytes × ℕ)
decode_name d buf zero consumed =
    decode_string_at buf consumed >>= λ (name, name_len). ok (name, consumed + name_len)
decode_name d buf (suc i) consumed =
    get_from_table d (suc i) >>= λ (name, value). ok (name, consumed)

unfoldable pub decode_literal : Decoder → List ℕ → Bool → Outcome DecoderError (Header × ℕ)
decode_literal d buf index =
    decode_integer buf (if index then 6 else 4) >>= λ (table_index, consumed).
    decode_name d buf table_index consumed >>= λ (name, consumed').
    decode_string_at buf consumed' >>= λ (value, value_len).
    ok ((name, value), consumed' + value_len)

-- `decode_integer(buf, 5).unwrap()`
pub unwrapped : Outcome DecoderError (ℕ × ℕ) → Outcome DecoderError (ℕ × ℕ)
unwrapped (ok r) = ok r
unwrapped (err e) = panic
unwrapped panic = panic
unwrapped diverged = diverged

abbrev with_dynamic_table : Decoder → DynamicTable.DynamicTable → Decoder
with_dynamic_table d t = record {
  header_table = record { static_table = d.header_table.static_table; dynamic_table = t };
  max_size = d.max_size;
}

pub update_max_dynamic_size : Decoder → List ℕ → Outcome DecoderError (Decoder × ℕ)
update_max_dynamic_size d buf = unwrapped (decode_integer buf 5) >>= λ (new_size, consumed).
    if ltb (d.max_size) new_size
    then err (invalid_max_dynamic_size (new_size % 2 ^ 32) (d.max_size))
    else (or_panic (DynamicTable.set_max_table_size (d.header_table.dynamic_table) new_size)
        >>= λ t. ok (with_dynamic_table d t, consumed))

-- One round of the loop, up to `buf.advance`: the state, the headers that the callback gets, and the
-- octets consumed. An error leaves the state as it was and calls nothing.
unfoldable pub decode_field :
    Decoder → Bool → FieldRepresentation → List ℕ → Outcome DecoderError (Decoder × List Header × ℕ)
decode_field d current_size_update indexed buf =
    decode_indexed d buf >>= λ (h, consumed). ok (d, h ∷ [], consumed)
decode_field d current_size_update literal_with_incremental_indexing buf =
    decode_literal d buf true >>= λ (h, consumed).
    or_panic (HeaderTable.add_header (d.header_table) (h.0) (h.1)) >>= λ t.
    ok (record { header_table = t; max_size = d.max_size }, h ∷ [], consumed)
decode_field d current_size_update literal_without_indexing buf =
    decode_literal d buf false >>= λ (h, consumed). ok (d, h ∷ [], consumed)
decode_field d current_size_update literal_never_indexed buf =
    decode_literal d buf false >>= λ (h, consumed). ok (d, h ∷ [], consumed)
decode_field d current_size_update size_update buf =
    if current_size_update
    then (update_max_dynamic_size d buf >>= λ (d', consumed). ok (d', [], consumed))
    else err size_update_must_be_first_field

pub still_size_update : FieldRepresentation → Bool → Bool
still_size_update size_update current_size_update = current_size_update
still_size_update _ current_size_update = false

-- What a call ends in: the state, the headers that the callback got, and the result.
abbrev pub Decoded : Type 0
Decoded = Decoder × List Header × Outcome DecoderError (Unit {0})

unfoldable pub after_headers : List Header → Decoded → Decoded
after_headers hs (d, hs', r) = (d, hs ++ hs', r)

-- What follows the match of a round: an error ends the call, and else the octets consumed are passed
-- and the loop goes on.
unfoldable pub after_field :
    (Decoder → Bool → List ℕ → Decoded)
    → Decoder
    → FieldRepresentation
    → Bool
    → List ℕ
    → Outcome DecoderError (Decoder × List Header × ℕ)
    → Decoded
after_field loop d f current_size_update buf (err e) = (d, [], err e)
after_field loop d f current_size_update buf panic = (d, [], panic)
after_field loop d f current_size_update buf diverged = (d, [], diverged)
after_field loop d f current_size_update buf (ok (d', hs, consumed)) =
    elim (slice_from consumed buf) [
      | none ↦ (d', hs, panic)
      | some rest ↦ after_headers hs (loop d' (still_size_update f current_size_update) rest)
    ]

-- The loop of `decode_with_cb`, of at most `fuel` rounds. Each round that goes on consumes an octet
-- at least, so that the length of `buf` is enough.
unfoldable pub decode_loop : ℕ → Decoder → Bool → List ℕ → Decoded
decode_loop fuel d current_size_update [] = (d, [], ok tt)
decode_loop zero d current_size_update (b ∷ bs) = (d, [], diverged)
decode_loop (suc fuel) d current_size_update (b ∷ bs) =
    after_field (decode_loop fuel) d (field_representation b) current_size_update (b ∷ bs)
      (decode_field d current_size_update (field_representation b) (b ∷ bs))

unfoldable pub decode_with_cb : Decoder → List ℕ → Decoded
decode_with_cb d buf = decode_loop (length buf) d true buf

unfoldable pub header_list : Decoded → Decoder × Outcome DecoderError (List Header)
header_list (d, hs, r) = (d, r >>= λ _. ok hs)

unfoldable pub decode : Decoder → List ℕ → Decoder × Outcome DecoderError (List Header)
decode d buf = header_list (decode_with_cb d buf)
