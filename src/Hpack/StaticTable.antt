-- ===== src/Hpack/StaticTable.antt =====
-- The static table of httpbis/src/hpack/static_table.rs. Texts are their ASCII octets.
use rust_http.Prelude.{
  ℕ, ◌-◌, ◌⊎◌, inl, inr, List, [], ◌∷◌, Option, none, some, length, get_elem?, ltb, if◌then◌else◌,
}

abbrev pub Bytes : Type 0
Bytes = List ℕ

abbrev pub Header : Type 0
Header = Bytes × Bytes

abbrev pub static_table : List Header
static_table =
    (58 ∷ 97 ∷ 117 ∷ 116 ∷ 104 ∷ 111 ∷ 114 ∷ 105 ∷ 116 ∷ 121 ∷ [], [])
    ∷ (58 ∷ 109 ∷ 101 ∷ 116 ∷ 104 ∷ 111 ∷ 100 ∷ [], 71 ∷ 69 ∷ 84 ∷ [])
    ∷ (58 ∷ 109 ∷ 101 ∷ 116 ∷ 104 ∷ 111 ∷ 100 ∷ [], 80 ∷ 79 ∷ 83 ∷ 84 ∷ [])
    ∷ (58 ∷ 112 ∷ 97 ∷ 116 ∷ 104 ∷ [], 47 ∷ [])
    ∷ (
      58 ∷ 112 ∷ 97 ∷ 116 ∷ 104 ∷ [],
      47 ∷ 105 ∷ 110 ∷ 100 ∷ 101 ∷ 120 ∷ 46 ∷ 104 ∷ 116 ∷ 109 ∷ 108 ∷ [],
    )
    ∷ (58 ∷ 115 ∷ 99 ∷ 104 ∷ 101 ∷ 109 ∷ 101 ∷ [], 104 ∷ 116 ∷ 116 ∷ 112 ∷ [])
    ∷ (58 ∷ 115 ∷ 99 ∷ 104 ∷ 101 ∷ 109 ∷ 101 ∷ [], 104 ∷ 116 ∷ 116 ∷ 112 ∷ 115 ∷ [])
    ∷ (58 ∷ 115 ∷ 116 ∷ 97 ∷ 116 ∷ 117 ∷ 115 ∷ [], 50 ∷ 48 ∷ 48 ∷ [])
    ∷ (58 ∷ 115 ∷ 116 ∷ 97 ∷ 116 ∷ 117 ∷ 115 ∷ [], 50 ∷ 48 ∷ 52 ∷ [])
    ∷ (58 ∷ 115 ∷ 116 ∷ 97 ∷ 116 ∷ 117 ∷ 115 ∷ [], 50 ∷ 48 ∷ 54 ∷ [])
    ∷ (58 ∷ 115 ∷ 116 ∷ 97 ∷ 116 ∷ 117 ∷ 115 ∷ [], 51 ∷ 48 ∷ 52 ∷ [])
    ∷ (58 ∷ 115 ∷ 116 ∷ 97 ∷ 116 ∷ 117 ∷ 115 ∷ [], 52 ∷ 48 ∷ 48 ∷ [])
    ∷ (58 ∷ 115 ∷ 116 ∷ 97 ∷ 116 ∷ 117 ∷ 115 ∷ [], 52 ∷ 48 ∷ 52 ∷ [])
    ∷ (58 ∷ 115 ∷ 116 ∷ 97 ∷ 116 ∷ 117 ∷ 115 ∷ [], 53 ∷ 48 ∷ 48 ∷ [])
    ∷ (97 ∷ 99 ∷ 99 ∷ 101 ∷ 112 ∷ 116 ∷ 45 ∷ [], [])
    ∷ (
      97 ∷ 99 ∷ 99 ∷ 101 ∷ 112 ∷ 116 ∷ 45 ∷ 101 ∷ 110 ∷ 99 ∷ 111 ∷ 100 ∷ 105 ∷ 110 ∷ 103 ∷ [],
      103 ∷ 122 ∷ 105 ∷ 112 ∷ 44 ∷ 32 ∷ 100 ∷ 101 ∷ 102 ∷ 108 ∷ 97 ∷ 116 ∷ 101 ∷ [],
    )
    ∷ (97 ∷ 99 ∷ 99 ∷ 101 ∷ 112 ∷ 116 ∷ 45 ∷ 108 ∷ 97 ∷ 110 ∷ 103 ∷ 117 ∷ 97 ∷ 103 ∷ 101 ∷ [], [])
    ∷ (97 ∷ 99 ∷ 99 ∷ 101 ∷ 112 ∷ 116 ∷ 45 ∷ 114 ∷ 97 ∷ 110 ∷ 103 ∷ 101 ∷ 115 ∷ [], [])
    ∷ (97 ∷ 99 ∷ 99 ∷ 101 ∷ 112 ∷ 116 ∷ [], [])
    ∷ (
      97 ∷ 99 ∷ 99 ∷ 101 ∷ 115 ∷ 115 ∷ 45 ∷ 99 ∷ 111 ∷ 110 ∷ 116 ∷ 114 ∷ 111 ∷ 108 ∷ 45 ∷ 97 ∷ 108
          ∷ 108 ∷ 111 ∷ 119 ∷ 45 ∷ 111 ∷ 114 ∷ 105 ∷ 103 ∷ 105 ∷ 110 ∷ [],
      [],
    )
    ∷ (97 ∷ 103 ∷ 101 ∷ [], [])
    ∷ (97 ∷ 108 ∷ 108 ∷ 111 ∷ 119 ∷ [], [])
    ∷ (97 ∷ 117 ∷ 116 ∷ 104 ∷ 111 ∷ 114 ∷ 105 ∷ 122 ∷ 97 ∷ 116 ∷ 105 ∷ 111 ∷ 110 ∷ [], [])
    ∷ (99 ∷ 97 ∷ 99 ∷ 104 ∷ 101 ∷ 45 ∷ 99 ∷ 111 ∷ 110 ∷ 116 ∷ 114 ∷ 111 ∷ 108 ∷ [], [])
    ∷ (
      99 ∷ 111 ∷ 110 ∷ 116 ∷ 101 ∷ 110 ∷ 116 ∷ 45 ∷ 100 ∷ 105 ∷ 115 ∷ 112 ∷ 111 ∷ 115 ∷ 105 ∷ 116
          ∷ 105 ∷ 111 ∷ 110 ∷ [],
      [],
    )
    ∷ (
      99 ∷ 111 ∷ 110 ∷ 116 ∷ 101 ∷ 110 ∷ 116 ∷ 45 ∷ 101 ∷ 110 ∷ 99 ∷ 111 ∷ 100 ∷ 105 ∷ 110 ∷ 103
          ∷ [],
      [],
    )
    ∷ (
      99 ∷ 111 ∷ 110 ∷ 116 ∷ 101 ∷ 110 ∷ 116 ∷ 45 ∷ 108 ∷ 97 ∷ 110 ∷ 103 ∷ 117 ∷ 97 ∷ 103 ∷ 101
          ∷ [],
      [],
    )
    ∷ (99 ∷ 111 ∷ 110 ∷ 116 ∷ 101 ∷ 110 ∷ 116 ∷ 45 ∷ 108 ∷ 101 ∷ 110 ∷ 103 ∷ 116 ∷ 104 ∷ [], [])
    ∷ (
      99 ∷ 111 ∷ 110 ∷ 116 ∷ 101 ∷ 110 ∷ 116 ∷ 45 ∷ 108 ∷ 111 ∷ 99 ∷ 97 ∷ 116 ∷ 105 ∷ 111 ∷ 110
          ∷ [],
      [],
    )
    ∷ (99 ∷ 111 ∷ 110 ∷ 116 ∷ 101 ∷ 110 ∷ 116 ∷ 45 ∷ 114 ∷ 97 ∷ 110 ∷ 103 ∷ 101 ∷ [], [])
    ∷ (99 ∷ 111 ∷ 110 ∷ 116 ∷ 101 ∷ 110 ∷ 116 ∷ 45 ∷ 116 ∷ 121 ∷ 112 ∷ 101 ∷ [], [])
    ∷ (99 ∷ 111 ∷ 111 ∷ 107 ∷ 105 ∷ 101 ∷ [], [])
    ∷ (100 ∷ 97 ∷ 116 ∷ 101 ∷ [], [])
    ∷ (101 ∷ 116 ∷ 97 ∷ 103 ∷ [], [])
    ∷ (101 ∷ 120 ∷ 112 ∷ 101 ∷ 99 ∷ 116 ∷ [], [])
    ∷ (101 ∷ 120 ∷ 112 ∷ 105 ∷ 114 ∷ 101 ∷ 115 ∷ [], [])
    ∷ (102 ∷ 114 ∷ 111 ∷ 109 ∷ [], [])
    ∷ (104 ∷ 111 ∷ 115 ∷ 116 ∷ [], [])
    ∷ (105 ∷ 102 ∷ 45 ∷ 109 ∷ 97 ∷ 116 ∷ 99 ∷ 104 ∷ [], [])
    ∷ (
      105 ∷ 102 ∷ 45 ∷ 109 ∷ 111 ∷ 100 ∷ 105 ∷ 102 ∷ 105 ∷ 101 ∷ 100 ∷ 45 ∷ 115 ∷ 105 ∷ 110 ∷ 99
          ∷ 101 ∷ [],
      [],
    )
    ∷ (105 ∷ 102 ∷ 45 ∷ 110 ∷ 111 ∷ 110 ∷ 101 ∷ 45 ∷ 109 ∷ 97 ∷ 116 ∷ 99 ∷ 104 ∷ [], [])
    ∷ (105 ∷ 102 ∷ 45 ∷ 114 ∷ 97 ∷ 110 ∷ 103 ∷ 101 ∷ [], [])
    ∷ (
      105 ∷ 102 ∷ 45 ∷ 117 ∷ 110 ∷ 109 ∷ 111 ∷ 100 ∷ 105 ∷ 102 ∷ 105 ∷ 101 ∷ 100 ∷ 45 ∷ 115 ∷ 105
          ∷ 110 ∷ 99 ∷ 101 ∷ [],
      [],
    )
    ∷ (108 ∷ 97 ∷ 115 ∷ 116 ∷ 45 ∷ 109 ∷ 111 ∷ 100 ∷ 105 ∷ 102 ∷ 105 ∷ 101 ∷ 100 ∷ [], [])
    ∷ (108 ∷ 105 ∷ 110 ∷ 107 ∷ [], [])
    ∷ (108 ∷ 111 ∷ 99 ∷ 97 ∷ 116 ∷ 105 ∷ 111 ∷ 110 ∷ [], [])
    ∷ (109 ∷ 97 ∷ 120 ∷ 45 ∷ 102 ∷ 111 ∷ 114 ∷ 119 ∷ 97 ∷ 114 ∷ 100 ∷ 115 ∷ [], [])
    ∷ (
      112 ∷ 114 ∷ 111 ∷ 120 ∷ 121 ∷ 45 ∷ 97 ∷ 117 ∷ 116 ∷ 104 ∷ 101 ∷ 110 ∷ 116 ∷ 105 ∷ 99 ∷ 97
          ∷ 116 ∷ 101 ∷ [],
      [],
    )
    ∷ (
      112 ∷ 114 ∷ 111 ∷ 120 ∷ 121 ∷ 45 ∷ 97 ∷ 117 ∷ 116 ∷ 104 ∷ 111 ∷ 114 ∷ 105 ∷ 122 ∷ 97 ∷ 116
          ∷ 105 ∷ 111 ∷ 110 ∷ [],
      [],
    )
    ∷ (114 ∷ 97 ∷ 110 ∷ 103 ∷ 101 ∷ [], [])
    ∷ (114 ∷ 101 ∷ 102 ∷ 101 ∷ 114 ∷ 101 ∷ 114 ∷ [], [])
    ∷ (114 ∷ 101 ∷ 102 ∷ 114 ∷ 101 ∷ 115 ∷ 104 ∷ [], [])
    ∷ (114 ∷ 101 ∷ 116 ∷ 114 ∷ 121 ∷ 45 ∷ 97 ∷ 102 ∷ 116 ∷ 101 ∷ 114 ∷ [], [])
    ∷ (115 ∷ 101 ∷ 114 ∷ 118 ∷ 101 ∷ 114 ∷ [], [])
    ∷ (115 ∷ 101 ∷ 116 ∷ 45 ∷ 99 ∷ 111 ∷ 111 ∷ 107 ∷ 105 ∷ 101 ∷ [], [])
    ∷ (
      115 ∷ 116 ∷ 114 ∷ 105 ∷ 99 ∷ 116 ∷ 45 ∷ 116 ∷ 114 ∷ 97 ∷ 110 ∷ 115 ∷ 112 ∷ 111 ∷ 114 ∷ 116
          ∷ 45 ∷ 115 ∷ 101 ∷ 99 ∷ 117 ∷ 114 ∷ 105 ∷ 116 ∷ 121 ∷ [],
      [],
    )
    ∷ (
      116 ∷ 114 ∷ 97 ∷ 110 ∷ 115 ∷ 102 ∷ 101 ∷ 114 ∷ 45 ∷ 101 ∷ 110 ∷ 99 ∷ 111 ∷ 100 ∷ 105 ∷ 110
          ∷ 103 ∷ [],
      [],
    )
    ∷ (117 ∷ 115 ∷ 101 ∷ 114 ∷ 45 ∷ 97 ∷ 103 ∷ 101 ∷ 110 ∷ 116 ∷ [], [])
    ∷ (118 ∷ 97 ∷ 114 ∷ 121 ∷ [], [])
    ∷ (118 ∷ 105 ∷ 97 ∷ [], [])
    ∷ (
      119 ∷ 119 ∷ 119 ∷ 45 ∷ 97 ∷ 117 ∷ 116 ∷ 104 ∷ 101 ∷ 110 ∷ 116 ∷ 105 ∷ 99 ∷ 97 ∷ 116 ∷ 101
          ∷ [],
      [],
    )
    ∷ []

-- `Ok` the entry, or `Err` the index that is left for the dynamic table. The indexing is behind a
-- test of the bound, so the last case, the panic of an index out of bounds, is not reached.
unfoldable pub get_by_index : List Header → ℕ → Option (Header ⊎ ℕ)
get_by_index table index =
    if ltb index (length table)
    then elim (get_elem? table index) [ none ↦ none | some h ↦ some (inl h) ]
    else some (inr (index - length table))
