-- ===== src/Hpack/RoundTrip/Headers.antt =====
-- A block of headers encoded and decoded, the two tables staying the same.
use rust_http.Prelude.{
  ℕ, zero, suc, ◌+◌, ◌*◌, ◌^◌, ◌≤◌, ◌<◌, ◌≡◌, refl, arith, List, [], ◌∷◌, ◌++◌, Option, none, some,
  length, All, Bool, true, false, length-append, get_elem?, slice_from-some, drop-append,
}
use rust_http.Prelude.Outcome.{ok}
use rust_http.Hpack.StaticTable.{Bytes, Header}
use rust_http.Hpack.DynamicTable.Fitting.{
  total, IsSized, holding, holding-IsSized, add_header-fitting,
}
use rust_http.Hpack.HeaderTable.{
  HeaderTable, HeaderValueFound, found, name_only_found, iter, add_header, find_header,
}
use rust_http.Hpack.HeaderTable.Find.{Found, find_header-Found}
use rust_http.Hpack.Encoder.{
  Encoder, encode_found, encode_header_into, encode_into, encode_literal, encode_indexed_name,
  encode_indexed,
}
use rust_http.Hpack.Decoder.{
  Decoder, FieldRepresentation, indexed, literal_with_incremental_indexing,
  literal_without_indexing, field_representation, decode_field, after_field, still_size_update,
  after_headers, decode_loop, decode_with_cb, header_list, decode,
}
use rust_http.Hpack.RoundTrip.Strings.{IsShort}
use rust_http.Hpack.RoundTrip.Fields.{
  Reads, encode_indexed-Reads, encode_indexed_name-Reads, encode_literal-Reads,
}

-- The tables that the operations keep: no more static headers than the protocol's, the stored size
-- right, and a maximal size of 32 bits.
pub record IsValid (t : HeaderTable) : Type 0 where
  pub static : length (t.static_table) ≤ 61
  pub sized : IsSized (t.dynamic_table)
  pub limited : t.dynamic_table.max_size < 2 ^ 32

abbrev pub IsShortHeader : Header → Type 0
IsShortHeader h = IsShort (h.0) × IsShort (h.1)

-- Each header counts at least 32 octets, so that there are fewer than 2^27 of them.
length-total : (hs : List Header) → 32 * length hs ≤ total hs
unfolding total
length-total [] = omega arith
length-total (h ∷ hs) = omega (arith, length-total hs)

get_elem?-lt : (hs : List Header) (i : ℕ) (h : Header) → get_elem? hs i ≡ some h → i < length hs
get_elem?-lt [] i h e = ground (arith, e)
get_elem?-lt (x ∷ xs) zero h e = omega arith
get_elem?-lt (x ∷ xs) (suc i) h e = omega (arith, get_elem?-lt xs i h e)

index_lt :
    (t : HeaderTable) (i : ℕ) (h : Header) → IsValid t → get_elem? (iter t) i ≡ some h → i < 2 ^ 28
index_lt t i h w e = omega (
  arith,
  w.static,
  w.sized,
  w.limited,
  length-total (t.dynamic_table.table),
  get_elem?-lt (iter t) i h e,
  length-append (t.static_table) (t.dynamic_table.table),
)

-- The table with the header added: its newest headers that fit.
abbrev adding : HeaderTable → Header → HeaderTable
adding t h = record {
  static_table = t.static_table;
  dynamic_table = holding (h ∷ t.dynamic_table.table) (t.dynamic_table.max_size);
}

add_header-adding :
    (t : HeaderTable) (name value : Bytes)
    → IsValid t
    → add_header t name value ≡ some (adding t (name, value))
unfolding add_header
add_header-adding t name value w =
    rw (add_header, add_header-fitting (t.dynamic_table) name value (w.sized)) refl

adding-IsValid : (t : HeaderTable) (h : Header) → IsValid t → IsValid (adding t h)
adding-IsValid t h w = record {
  static = w.static;
  sized = holding-IsSized (h ∷ t.dynamic_table.table) (t.dynamic_table.max_size);
  limited = w.limited;
}

-- The decoder that has the same table as the encoder.
abbrev pub paired : Encoder → ℕ → Decoder
paired e m = record { header_table = e.header_table; max_size = m }

-- The header is written without a panic, the decoder reads it, and both have the same valid table.
record Sends (e : Encoder) (m : ℕ) (h : Header) (sent : Option (Encoder × List ℕ)) : Type 0 where
  after : Encoder
  octets : List ℕ
  f : FieldRepresentation
  result : sent ≡ some (after, octets)
  valid : IsValid (after.header_table)
  reads : Reads (paired e m) (paired after m) h f octets

encode_found-Sends :
    (e : Encoder) (m : ℕ) (h : Header) (r : Option (ℕ × HeaderValueFound))
    → IsValid (e.header_table)
    → IsShortHeader h
    → Found (iter (e.header_table)) h r
    → Sends e m h (encode_found e h r)
unfolding encode_found Found
encode_found-Sends e m (name, value) none w s q =
    let a = add_header-adding (e.header_table) name value w in
    record {
      after = record { header_table = adding (e.header_table) (name, value) };
      octets = encode_literal (name, value) true;
      f = literal_with_incremental_indexing;
      result = rw (encode_found, a) refl;
      valid = adding-IsValid (e.header_table) (name, value) w;
      reads =
          encode_literal-Reads (paired e m) (adding (e.header_table) (name, value)) name value a
            (s.0) (s.1);
    }
encode_found-Sends e m (name, value) (some (index, found)) w s (i, j, q) = record {
  after = e;
  octets = encode_indexed index;
  f = indexed;
  result = refl;
  valid = w;
  reads = rw j (
      encode_indexed-Reads (paired e m) i (name, value)
        (index_lt (e.header_table) i (name, value) w q) q);
}
encode_found-Sends e m (name, value) (some (index, name_only_found)) w s ((i, v, j, q), n) =
    record {
      after = e;
      octets = encode_indexed_name index value false;
      f = literal_without_indexing;
      result = refl;
      valid = w;
      reads = rw j (
          encode_indexed_name-Reads (paired e m) i name v value
            (index_lt (e.header_table) i (name, v) w q) q (s.1));
    }

-- The loop on a block that starts with octets that a field reads.
decode_loop-cons :
    (fuel : ℕ) (d d' d'' : Decoder) (h : Header) (f : FieldRepresentation) (x : ℕ)
    (xs rest : List ℕ) (hs : List Header) (b : Bool)
    → field_representation x ≡ f
    → decode_field d b f (x ∷ (xs ++ rest)) ≡ ok (d', h ∷ [], suc (length xs))
    → ((b : Bool) → decode_loop fuel d' b rest ≡ (d'', hs, ok tt))
    → decode_loop (suc fuel) d b (x ∷ (xs ++ rest)) ≡ (d'', h ∷ hs, ok tt)
unfolding decode_loop after_field after_headers
decode_loop-cons fuel d d' d'' h f x xs rest hs b r e k =
    rw
      (
        decode_loop,
        r,
        e,
        after_field,
        slice_from-some (suc (length xs)) (x ∷ (xs ++ rest)) (omega (arith, length-append xs rest)),
        drop-append xs rest,
        k (still_size_update (field_representation x) b),
      )
      refl

decode_loop-Reads :
    (fuel : ℕ) (d d' d'' : Decoder) (h : Header) (f : FieldRepresentation) (octets rest : List ℕ)
    (hs : List Header) (b : Bool)
    → Reads d d' h f octets
    → length octets + length rest ≤ fuel
    → ((fuel : ℕ) (b : Bool) → length rest ≤ fuel → decode_loop fuel d' b rest ≡ (d'', hs, ok tt))
    → decode_loop fuel d b (octets ++ rest) ≡ (d'', h ∷ hs, ok tt)
decode_loop-Reads zero d d' d'' h f octets rest hs b r enough k =
    absurd (omega (arith, rw (r.starts) at enough))
decode_loop-Reads (suc fuel) d d' d'' h f octets rest hs b r enough k =
    let e = r.starts in
    let n : length octets ≡ suc (length (r.others)) = rw e refl in
    rw e (
      decode_loop-cons fuel d d' d'' h f (r.first) (r.others) rest hs b (r.represents)
        (rw e at (r.field b rest)) (λ b. k fuel b (omega (arith, n))))

-- What a block of headers is sent as: `decode` reads all of them, and the tables stay the same.
record SendsAll (e : Encoder) (m : ℕ) (hs : List Header) : Type 0 where
  after : Encoder
  octets : List ℕ
  result : encode_into e hs ≡ some (after, octets)
  valid : IsValid (after.header_table)
  reads :
      (fuel : ℕ) (b : Bool)
      → length octets ≤ fuel
      → decode_loop fuel (paired e m) b octets ≡ (paired after m, hs, ok tt)

encode_into-SendsAll :
    (e : Encoder) (m : ℕ) (hs : List Header)
    → IsValid (e.header_table)
    → All IsShortHeader hs
    → SendsAll e m hs
unfolding encode_into encode_header_into
encode_into-SendsAll e m [] w s = record {
  after = e;
  octets = [];
  result = refl;
  valid = w;
  reads = λ fuel b enough. unfold decode_loop in refl;
}
encode_into-SendsAll e m (h ∷ hs) w s =
    let one =
      encode_found-Sends e m h (find_header (e.header_table) h) w (s.0)
        (find_header-Found (e.header_table) h) in
    let all = encode_into-SendsAll (one.after) m hs (one.valid) (s.1) in
    record {
      after = all.after;
      octets = one.octets ++ all.octets;
      result = rw (encode_into, encode_header_into, one.result, all.result) refl;
      valid = all.valid;
      reads = λ fuel b enough.
          decode_loop-Reads fuel (paired e m) (paired (one.after) m) (paired (all.after) m) h
            (one.f) (one.octets) (all.octets) hs b (one.reads)
            (omega (arith, length-append (one.octets) (all.octets))) (all.reads);
    }

-- Any headers with strings shorter than 2^28 + 127 octets are encoded without a panic, and a decoder
-- with the same table decodes the octets to those headers, in order, after which the two have the
-- same table again, and a valid one, so that the next block can follow.
pub decode-encode_into :
    (e : Encoder) (m : ℕ) (hs : List Header)
    → IsValid (e.header_table)
    → All IsShortHeader hs
    → (after : Encoder) × (octets : List ℕ) × (encode_into e hs ≡ some (after, octets))
      × (decode (paired e m) octets ≡ (paired after m, ok hs))
      × IsValid (after.header_table)
unfolding decode decode_with_cb header_list
decode-encode_into e m hs w s =
    let all = encode_into-SendsAll e m hs w s in
    (
      all.after,
      all.octets,
      all.result,
      rw (decode_with_cb, all.reads (length (all.octets)) true (omega arith)) refl,
      all.valid,
    )
