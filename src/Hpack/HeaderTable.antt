-- ===== src/Hpack/HeaderTable.antt =====
-- `HeaderTable` of httpbis/src/hpack/mod.rs: the static and the dynamic table as one index space.
pub mod Index
pub mod Find
use rust_http.Prelude.{
  ℕ, zero, suc, ◌+◌, ◌-◌, ◌*◌, ◌%◌, ◌^◌, ◌≡◌, refl, ◌⊎◌, inl, inr, List, [], ◌∷◌, ◌++◌, Option,
  none, some, length, get_elem?, ltb, ◌==◌, ◌&&◌, if◌then◌else◌, Bool, true, false,
}
use rust_http.Hpack.StaticTable.{Bytes, Header, get_by_index}
use rust_http.Hpack.DynamicTable.{DynamicTable}
use rust_http.Hpack.DynamicTable

pub data HeaderValueFound : Type 0 where
  found name_only_found : HeaderValueFound

pub record HeaderTable : Type 0 where
  pub static_table : List Header
  pub dynamic_table : DynamicTable

abbrev pub with_static_table : List Header → HeaderTable
with_static_table static_table = record {
  static_table = static_table;
  dynamic_table = DynamicTable.new;
}

-- All headers, in the order of their indices.
abbrev pub iter : HeaderTable → List Header
iter t = t.static_table ++ t.dynamic_table.table

unfoldable pub add_header : HeaderTable → Bytes → Bytes → Option HeaderTable
add_header t name value = elim (DynamicTable.add_header (t.dynamic_table) name value) [
  | none ↦ none
  | some d ↦ some (record { static_table = t.static_table; dynamic_table = d })
]

-- The index of the space starts at 1, and goes through a `u32` cast. The result `none` is the panic
-- of `get_by_index`.
unfoldable pub get_from_table : HeaderTable → ℕ → Option (Option Header)
get_from_table t zero = some none
get_from_table t (suc real_index) = elim (get_by_index (t.static_table) (real_index % 2 ^ 32)) [
  | none ↦ none
  | some (inl h) ↦ some (some h)
  | some (inr dynamic_index) ↦ some (get_elem? (t.dynamic_table.table) dynamic_index)
]

-- `==` on octets.
pub bytes_eq : Bytes → Bytes → Bool
bytes_eq [] [] = true
bytes_eq [] (y ∷ ys) = false
bytes_eq (x ∷ xs) [] = false
bytes_eq (x ∷ xs) (y ∷ ys) = (x == y) && bytes_eq xs ys

-- The loop of `find_header`, with the number of headers passed and the index of the last one of them
-- that has the name.
pub find_from : Header → List Header → ℕ → Option ℕ → Option (ℕ × HeaderValueFound)
find_from header [] i none = none
find_from header [] i (some index) = some (index, name_only_found)
find_from (name, value) ((n, v) ∷ hs) i matching_name =
    let named = find_from (name, value) hs (suc i) (some (suc i)) in
    let other = find_from (name, value) hs (suc i) matching_name in
    if bytes_eq name n then (if bytes_eq value v then some (suc i, found) else named) else other

pub find_header : HeaderTable → Header → Option (ℕ × HeaderValueFound)
find_header t header = find_from header (iter t) 0 none
