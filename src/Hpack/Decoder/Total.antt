-- ===== src/Hpack/Decoder/Total.antt =====
-- The decoder's loop ends: each round consumes an octet at least, and only octets that are there.
use rust_http.Prelude.{
  ℕ, zero, suc, ◌+◌, ◌≤◌, ◌≡◌, ◌≢◌, refl, arith, inl, inr, List, [], ◌∷◌, Option, none, some,
  length, drop, slice_from, slice_from-some, ltb, leb, Bool, true, false, Bool-cases, length-drop,
  leb→le,
}
use rust_http.Prelude.Outcome.{
  Outcome, ok, err, panic, diverged, or_panic, Any, Ends, Ends-bind, Ends-intro, or_panic-Ends,
  Ends-weaken,
}
use rust_http.Hpack.Error.{DecoderError, HuffmanDecoderError}
use rust_http.Hpack.StaticTable.{Bytes, Header}
use rust_http.Hpack.Huffman
use rust_http.Hpack.HeaderTable
use rust_http.Hpack.DynamicTable
use rust_http.Hpack.Huffman.Total.{decode-Ends}
use rust_http.Hpack.Integer.{decode_integer}
use rust_http.Hpack.Integer.Bounds.{decode_integer_bounds, decode_integer_total}
use rust_http.Hpack.Decoder.{
  Decoder, Decoded, string_result, ok_or_out_of_bounds, decode_huffman, is_huffman, decode_octets,
  decode_string, FieldRepresentation, indexed, literal_with_incremental_indexing, size_update,
  literal_never_indexed, literal_without_indexing, field_representation, get_from_table,
  decode_indexed, decode_string_at, decode_name, decode_literal, unwrapped, update_max_dynamic_size,
  decode_field, still_size_update, after_headers, after_field, with_dynamic_table, decode_loop,
  decode_with_cb, header_list, decode,
}

-- A result tells how many octets it took of `buf`: one at least, and only those there are.
abbrev Took : {A : Type 0} → List ℕ → A × ℕ → Type 0
Took buf (a, n) = (1 ≤ n) × (n ≤ length buf)

decode_integer-Ends : (buf : List ℕ) (p : ℕ) → Ends (Took buf) (decode_integer buf p)
decode_integer-Ends buf p =
    Ends-intro (Took buf) (decode_integer buf p) ((decode_integer_total buf p).1)
      (λ (v, n) e. let b = decode_integer_bounds buf p v n e in (b.1, b.3))

string_result-Ends :
    (o : Outcome HuffmanDecoderError Bytes) → Ends Any o → Ends Any (string_result o)
unfolding string_result Ends
string_result-Ends (ok res) h = tt
string_result-Ends (err e) h = tt
string_result-Ends panic h = tt
string_result-Ends diverged h = h

decode_huffman-Ends : (raw : List ℕ) → Ends Any (decode_huffman raw)
unfolding decode_huffman
decode_huffman-Ends raw = string_result-Ends (Huffman.decode raw) (decode-Ends raw)

decode_octets-Ends :
    (buf : List ℕ) (len consumed : ℕ)
    → 1 ≤ consumed
    → Ends (Took buf) (decode_octets buf len consumed)
unfolding decode_octets Ends
decode_octets-Ends buf len consumed h =
    let took : ltb (length buf) (consumed + len) ≡ false
        → Took {A = Bytes} buf ([], consumed + len) =
      λ e. (omega arith, ground (arith, e)) in
    elim (Bool-cases (ltb (length buf) (consumed + len))) [
      | inl e ↦ rw e (tt)
      | inr e ↦ elim (Bool-cases (is_huffman buf)) [
        | inl f ↦
            rw (e, f)
              (Ends-bind (Took buf) (decode_huffman _) _ (decode_huffman-Ends _) (λ a _. took e))
        | inr f ↦ rw (e, f) (took e)
      ]
    ]

decode_string-Ends : (buf : List ℕ) → Ends (Took buf) (decode_string buf)
unfolding decode_string
decode_string-Ends buf =
    Ends-bind (Took buf) (decode_integer buf 7) _ (decode_integer-Ends buf 7)
      (λ (len, consumed) t. decode_octets-Ends buf len consumed (t.0))

ok_or_out_of_bounds-Ends : (o : Option (Option Header)) → Ends Any (ok_or_out_of_bounds o)
unfolding ok_or_out_of_bounds Ends
ok_or_out_of_bounds-Ends none = tt
ok_or_out_of_bounds-Ends (some none) = tt
ok_or_out_of_bounds-Ends (some (some h)) = tt

get_from_table-Ends : (d : Decoder) (i : ℕ) → Ends Any (get_from_table d i)
unfolding get_from_table
get_from_table-Ends d i = ok_or_out_of_bounds-Ends _

decode_indexed-Ends : (d : Decoder) (buf : List ℕ) → Ends (Took buf) (decode_indexed d buf)
unfolding decode_indexed Ends
decode_indexed-Ends d buf =
    Ends-bind (Took buf) (decode_integer buf 7) _ (decode_integer-Ends buf 7)
      (λ (i, n) t. Ends-bind (Took buf) (get_from_table d i) _ (get_from_table-Ends d i) (λ h _. t))

-- A string behind the octets consumed.
decode_string_at-Ends :
    (buf : List ℕ) (consumed : ℕ)
    → Ends (λ (r : Bytes × ℕ). consumed + r.1 ≤ length buf) (decode_string_at buf consumed)
unfolding decode_string_at slice_from
decode_string_at-Ends buf consumed = elim (Bool-cases (leb consumed (length buf))) [
  | inl e ↦ rw e (
      Ends-weaken (decode_string (drop consumed buf)) (decode_string-Ends (drop consumed buf))
        (λ r t. omega (arith, t.1, length-drop consumed buf, leb→le consumed (length buf) e)))
  | inr e ↦ rw e (unfold Ends in tt)
]

decode_name-Ends :
    (d : Decoder) (buf : List ℕ) (i consumed : ℕ)
    → Took buf (i, consumed)
    → Ends (Took buf) (decode_name d buf i consumed)
unfolding decode_name Ends
decode_name-Ends d buf zero consumed t =
    Ends-bind (Took buf) (decode_string_at buf consumed) _ (decode_string_at-Ends buf consumed)
      (λ (name, n) h. (omega arith, h))
decode_name-Ends d buf (suc i) consumed t =
    Ends-bind (Took buf) (get_from_table d (suc i)) _ (get_from_table-Ends d (suc i)) (λ h _. t)

decode_literal-Ends :
    (d : Decoder) (buf : List ℕ) (index : Bool) → Ends (Took buf) (decode_literal d buf index)
unfolding decode_literal Ends
decode_literal-Ends d buf index =
    Ends-bind (Took buf) (decode_integer buf _) _ (decode_integer-Ends buf _) (λ (i, n) t.
      Ends-bind (Took buf) (decode_name d buf i n) _ (decode_name-Ends d buf i n t)
        (λ (name, n') t'.
          Ends-bind (Took buf) (decode_string_at buf n') _ (decode_string_at-Ends buf n')
            (λ (value, n'') h. (omega arith, h))))

unwrapped-Ends :
    (P : ℕ × ℕ → Type 0) (o : Outcome DecoderError (ℕ × ℕ)) → Ends P o → Ends P (unwrapped o)
unfolding unwrapped Ends
unwrapped-Ends P (ok r) h = h
unwrapped-Ends P (err e) h = tt
unwrapped-Ends P panic h = tt
unwrapped-Ends P diverged h = h

update_max_dynamic_size-Ends :
    (d : Decoder) (buf : List ℕ) → Ends (Took buf) (update_max_dynamic_size d buf)
unfolding update_max_dynamic_size Ends
update_max_dynamic_size-Ends d buf =
    Ends-bind (Took buf) (unwrapped (decode_integer buf 5)) _
      (unwrapped-Ends (Took buf) (decode_integer buf 5) (decode_integer-Ends buf 5))
      (λ (size, n) t. elim (Bool-cases (ltb (d.max_size) size)) [
        | inl e ↦ rw e tt
        | inr e ↦ rw e (
            Ends-bind (Took buf)
              (or_panic (DynamicTable.set_max_table_size (d.header_table.dynamic_table) size))
              (λ t. ok (with_dynamic_table d t, n)) (or_panic-Ends DecoderError _) (λ _ _. t))
      ])

abbrev TookField : List ℕ → Decoder × List Header × ℕ → Type 0
TookField buf (d, hs, n) = (1 ≤ n) × (n ≤ length buf)

decode_field-Ends :
    (d : Decoder) (first : Bool) (f : FieldRepresentation) (buf : List ℕ)
    → Ends (TookField buf) (decode_field d first f buf)
unfolding decode_field Ends
decode_field-Ends d first indexed buf =
    Ends-bind (TookField buf) (decode_indexed d buf) _ (decode_indexed-Ends d buf) (λ _ t. t)
decode_field-Ends d first literal_with_incremental_indexing buf =
    Ends-bind (TookField buf) (decode_literal d buf true) _ (decode_literal-Ends d buf true)
      (λ (h, n) t.
        Ends-bind (TookField buf) (or_panic (HeaderTable.add_header (d.header_table) (h.0) (h.1)))
          (λ t. ok (record { header_table = t; max_size = d.max_size }, h ∷ [], n))
          (or_panic-Ends DecoderError _) (λ _ _. t))
decode_field-Ends d first literal_without_indexing buf =
    Ends-bind (TookField buf) (decode_literal d buf false) _ (decode_literal-Ends d buf false)
      (λ _ t. t)
decode_field-Ends d first literal_never_indexed buf =
    Ends-bind (TookField buf) (decode_literal d buf false) _ (decode_literal-Ends d buf false)
      (λ _ t. t)
decode_field-Ends d true size_update buf =
    Ends-bind (TookField buf) (update_max_dynamic_size d buf) _ (update_max_dynamic_size-Ends d buf)
      (λ _ t. t)
decode_field-Ends d false size_update buf = tt

-- The result of a call is not that the fuel ran out.
abbrev Done : Decoded → Type 0
Done (d, hs, r) = r ≢ diverged

listed : (r : Decoded) → Done r → (header_list r).1 ≢ diverged
unfolding header_list
listed (d, hs, ok u) h = λ q. cc
listed (d, hs, err e) h = λ q. cc
listed (d, hs, panic) h = λ q. cc
listed (d, hs, diverged) h = absurd (h refl)

after_field-Done :
    (loop : Decoder → Bool → List ℕ → Decoded) (fuel : ℕ) (d : Decoder) (f : FieldRepresentation)
    (first : Bool) (buf : List ℕ) (o : Outcome DecoderError (Decoder × List Header × ℕ))
    → ((d' : Decoder) (next : Bool) (rest : List ℕ) → length rest ≤ fuel → Done (loop d' next rest))
    → length buf ≤ suc fuel
    → Ends (TookField buf) o
    → Done (after_field loop d f first buf o)
unfolding after_field Ends slice_from after_headers
after_field-Done loop fuel d f first buf (err e) ih h t = λ q. cc
after_field-Done loop fuel d f first buf panic ih h t = λ q. cc
after_field-Done loop fuel d f first buf diverged ih h t = absurd t
after_field-Done loop fuel d f first buf (ok (d', hs, n)) ih h t =
    rw (after_field, slice_from-some n buf (t.1), after_headers)
      (ih d' (still_size_update f first) (drop n buf) (omega (arith, t.0, length-drop n buf)))

decode_loop-Done :
    (fuel : ℕ) (d : Decoder) (first : Bool) (buf : List ℕ)
    → length buf ≤ fuel
    → Done (decode_loop fuel d first buf)
unfolding decode_loop
decode_loop-Done fuel d first [] h = λ q. cc
decode_loop-Done zero d first (b ∷ bs) h = absurd (omega arith)
decode_loop-Done (suc fuel) d first (b ∷ bs) h =
    after_field-Done (decode_loop fuel) fuel d (field_representation b) first (b ∷ bs) _
      (decode_loop-Done fuel) h (decode_field-Ends d first (field_representation b) (b ∷ bs))

-- From any state and on any octets `decode` ends: the length of the buffer is enough fuel for its loop.
pub decode-ends : (d : Decoder) (buf : List ℕ) → (decode d buf).1 ≢ diverged
unfolding decode decode_with_cb
decode-ends d buf =
    listed (decode_with_cb d buf) (decode_loop-Done (length buf) d true buf (omega arith))
