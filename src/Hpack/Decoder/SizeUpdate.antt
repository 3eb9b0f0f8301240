-- ===== src/Hpack/Decoder/SizeUpdate.antt =====
-- The dynamic table size update.
use rust_http.Prelude.{ℕ, ◌≡◌, ◌%◌, ◌^◌, refl, inl, inr, List, ltb, if◌then◌else◌}
use rust_http.Prelude.Outcome.{Outcome, ok, err, panic, Outcome-cases}
use rust_http.Hpack.Error.{DecoderError, invalid_max_dynamic_size}
use rust_http.Hpack.DynamicTable.Fitting.{IsSized, holding, set_max_table_size-fitting}
use rust_http.Hpack.Integer.{decode_integer}
use rust_http.Hpack.Integer.Bounds.{decode_integer_total}
use rust_http.Hpack.Decoder.{Decoder, unwrapped, update_max_dynamic_size, with_dynamic_table}

-- What a size update ends in, by the integer at its start.
abbrev pub Updated : Decoder → Outcome DecoderError (ℕ × ℕ) → Outcome DecoderError (Decoder × ℕ)
Updated d (ok (size, n)) =
    if ltb (d.max_size) size
    then err (invalid_max_dynamic_size (size % 2 ^ 32) (d.max_size))
    else ok (with_dynamic_table d (holding (d.header_table.dynamic_table.table) size), n)
Updated d _ = panic

-- From a decoder whose table has the right size stored: a size within the limit leaves the newest
-- headers that fit it; one above the limit is an error; and where the integer cannot be decoded, the
-- size update is no error but a panic.
pub update_max_dynamic_size-Updated :
    (d : Decoder) (buf : List ℕ)
    → IsSized (d.header_table.dynamic_table)
    → update_max_dynamic_size d buf ≡ Updated d (decode_integer buf 5)
unfolding update_max_dynamic_size unwrapped
update_max_dynamic_size-Updated d buf h = elim (Outcome-cases (decode_integer buf 5)) [
  | inl (inl ((size, n), e)) ↦
      rw (e, set_max_table_size-fitting (d.header_table.dynamic_table) size h) refl
  | inl (inr (x, e)) ↦ rw e refl
  | inr (inl e) ↦ rw e refl
  | inr (inr e) ↦ absurd ((decode_integer_total buf 5).1 e)
]
