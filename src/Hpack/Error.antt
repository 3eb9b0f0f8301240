-- ===== src/Hpack/Error.antt =====
-- The errors of httpbis/src/hpack/decoder.rs and httpbis/src/hpack/huffman.rs.
use rust_http.Prelude.{ℕ}

pub data IntegerDecodingError : Type 0 where
  too_many_octets value_too_large not_enough_octets invalid_prefix : IntegerDecodingError

pub data HuffmanDecoderError : Type 0 where
  padding_too_large invalid_padding eos_in_string : HuffmanDecoderError

pub data StringDecodingError : Type 0 where
  not_enough_octets : StringDecodingError
  huffman_decoder_error : HuffmanDecoderError → StringDecodingError

pub data DecoderError : Type 0 where
  header_index_out_of_bounds : DecoderError
  integer_decoding_error : IntegerDecodingError → DecoderError
  string_decoding_error : StringDecodingError → DecoderError
  invalid_max_dynamic_size : ℕ → ℕ → DecoderError
  size_update_must_be_first_field : DecoderError
