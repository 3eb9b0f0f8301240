-- ===== src/Hpack/DynamicTable.antt =====
-- The dynamic table of httpbis/src/hpack/dynamic_table.rs. The list has the newest header first, as
-- the deque has. A `usize` subtraction below 0 is a panic, `none`, as in a build with checks.
pub mod Fitting
use rust_http.Prelude.{
  ℕ, ◌+◌, ◌-◌, ◌*◌, ◌≡◌, List, [], ◌∷◌, ◌++◌, Option, none, some, length, ltb, if◌then◌else◌, Bool,
  true, false,
}
use rust_http.Hpack.StaticTable.{Bytes, Header}
use mathlib.Core.List.{reverse}

pub record DynamicTable : Type 0 where
  pub table : List Header
  pub size : ℕ
  pub max_size : ℕ

abbrev pub new : DynamicTable
new = record { table = []; size = 0; max_size = 4096 }

-- `name.len() + value.len() + 32`
abbrev pub entry_size : Header → ℕ
entry_size (name, value) = length name + length value + 32

-- The loop of `consolidate_table`, on the headers with the last one first: while `size` is more than
-- `max_size`, the last header is popped; a table with none left is a panic.
pub pop_while : List Header → ℕ → ℕ → Option (List Header × ℕ)
pop_while [] size max_size = if ltb max_size size then none else some ([], size)
pop_while (h ∷ hs) size max_size =
    let popped = pop_while hs (size - entry_size h) max_size in
    if ltb max_size size
    then (if ltb size (entry_size h) then none else popped)
    else some (h ∷ hs, size)

pub consolidate_table : DynamicTable → Option DynamicTable
consolidate_table t = elim (pop_while (reverse (t.table)) (t.size) (t.max_size)) [
  | none ↦ none
  | some (rev, size) ↦ some (record { table = reverse rev; size = size; max_size = t.max_size })
]

pub set_max_table_size : DynamicTable → ℕ → Option DynamicTable
set_max_table_size t new_max_size =
    consolidate_table (record { table = t.table; size = t.size; max_size = new_max_size })

unfoldable pub add_header : DynamicTable → Bytes → Bytes → Option DynamicTable
add_header t name value = consolidate_table (record {
  table = (name, value) ∷ t.table;
  size = t.size + (length name + length value + 32);
  max_size = t.max_size;
})
