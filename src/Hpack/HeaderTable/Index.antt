-- ===== src/Hpack/HeaderTable/Index.antt =====
-- The index space of the header table.
use rust_http.Prelude.{
  ℕ, zero, suc, ◌+◌, ◌-◌, ◌%◌, ◌^◌, ◌≤◌, ◌<◌, ◌≡◌, refl, arith, inl, inr, List, [], ◌∷◌, ◌++◌, some,
  length, get_elem?, ltb, Bool-cases, ltb→lt, get_elem?-append_right,
}
use rust_http.Hpack.StaticTable.{Header, get_by_index}
use rust_http.Hpack.HeaderTable.{HeaderTable, iter, get_from_table}

get_elem?-append_left :
    (xs ys : List Header) (i : ℕ)
    → i < length xs
    → (h : Header) × (get_elem? xs i ≡ some h) × (get_elem? (xs ++ ys) i ≡ some h)
get_elem?-append_left [] ys i h = absurd (omega arith)
get_elem?-append_left (x ∷ xs) ys zero h = (x, refl, refl)
get_elem?-append_left (x ∷ xs) ys (suc i) h = get_elem?-append_left xs ys i (omega arith)

get_elem?-append_beyond :
    (xs ys : List Header) (i : ℕ)
    → length xs ≤ i
    → get_elem? (xs ++ ys) i ≡ get_elem? ys (i - length xs)
get_elem?-append_beyond xs ys i h =
    let e : length xs + (i - length xs) ≡ i = omega arith in
    rw e at (get_elem?-append_right xs ys (i - length xs))

-- An index that fits a `u32` finds the header at that place of the static table followed by the
-- dynamic one, counted from 1, or none beyond the end; it never panics.
pub get_from_table-iter :
    (t : HeaderTable) (i : ℕ) → i < 2 ^ 32 → get_from_table t (suc i) ≡ some (get_elem? (iter t) i)
unfolding get_from_table get_by_index
get_from_table-iter t i h =
    let m : i % 2 ^ 32 ≡ i = omega arith in
    elim (Bool-cases (ltb i (length (t.static_table)))) [
      | inl e ↦
          let (x, p, q) =
            get_elem?-append_left (t.static_table) (t.dynamic_table.table) i
              (ltb→lt i (length (t.static_table)) e) in
          rw (get_from_table, get_by_index, m, e, p, q) refl
      | inr e ↦
          rw
            (
              get_from_table,
              get_by_index,
              m,
              e,
              get_elem?-append_beyond (t.static_table) (t.dynamic_table.table) i
                  (ground (arith, e)),
            )
            refl
    ]
