-- ===== src/Hpack/DynamicTable/Fitting.antt =====
-- What the dynamic table promises: it keeps the newest headers, as many as fit the maximal size.
use rust_http.Prelude.{
  ℕ, ◌+◌, ◌-◌, ◌≤◌, ◌<◌, ◌≡◌, refl, sym, arith, List, [], ◌∷◌, ◌++◌, some, length, ltb, leb,
  if◌then◌else◌, inl, inr, Bool-cases, le→ltb_false, ltb→lt, leb→le, le→leb,
}
use rust_http.Hpack.StaticTable.{Bytes, Header}
use rust_http.Hpack.DynamicTable.{
  DynamicTable, entry_size, pop_while, consolidate_table, set_max_table_size, add_header,
}
use mathlib.Core.List.{reverse, reverse-cons, reverse-reverse}

-- The sum of the sizes of the headers.
unfoldable pub total : List Header → ℕ
total [] = 0
total (h ∷ hs) = entry_size h + total hs

-- The longest initial part of the headers whose total is at most `max_size`.
pub fitting : ℕ → List Header → List Header
fitting max_size [] = []
fitting max_size (h ∷ hs) =
    if leb (entry_size h) max_size then h ∷ fitting (max_size - entry_size h) hs else []

total-append : (xs ys : List Header) → total (xs ++ ys) ≡ total xs + total ys
unfolding total
total-append [] ys = omega arith
total-append (x ∷ xs) ys = omega (arith, total-append xs ys)

-- Whatever the headers, those kept fit; and when all fit, all are kept.
total-fitting : (m : ℕ) (xs : List Header) → total (fitting m xs) ≤ m
unfolding total fitting
total-fitting m [] = omega arith
total-fitting m (h ∷ hs) = ground (arith, total-fitting (m - entry_size h) hs)

fitting-all : (m : ℕ) (xs : List Header) → total xs ≤ m → fitting m xs ≡ xs
unfolding total fitting
fitting-all m [] h = refl
fitting-all m (x ∷ xs) h =
    rw (le→leb (entry_size x) m (omega arith), fitting-all (m - entry_size x) xs (omega arith)) refl

-- A last header that does not fit has no part in what is kept.
fitting-last :
    (m : ℕ) (xs : List Header) (x : Header)
    → m < total (xs ++ x ∷ [])
    → fitting m (xs ++ x ∷ []) ≡ fitting m xs
unfolding total fitting
fitting-last m [] x h = ground arith
fitting-last m (y ∷ ys) x h = elim (Bool-cases (leb (entry_size y) m)) [
  | inl e ↦
      rw (e, fitting-last (m - entry_size y) ys x (omega (arith, leb→le (entry_size y) m e))) refl
  | inr e ↦ rw e refl
]

-- What `pop_while` leaves of headers whose total is the size.
abbrev Fits : ℕ → List Header → List Header → Type 0
Fits m rev xs = pop_while rev (total xs) m ≡ some (reverse (fitting m xs), total (fitting m xs))

pop_while-last :
    (m : ℕ) (h : Header) (hs xs : List Header)
    → reverse (xs ++ h ∷ []) ≡ h ∷ hs
    → Fits m hs xs
    → Fits m (h ∷ hs) (xs ++ h ∷ [])
unfolding pop_while
pop_while-last m h hs xs r ih =
    let t : total (xs ++ h ∷ []) ≡ total xs + entry_size h =
      unfold total in omega (arith, total-append xs (h ∷ [])) in
    let back : total xs + entry_size h - entry_size h ≡ total xs = omega arith in
    elim (Bool-cases (ltb m (total (xs ++ h ∷ [])))) [
      | inl e ↦
          rw
            (
              e,
              fitting-last m xs h (ltb→lt m (total (xs ++ h ∷ [])) e),
              t,
              back,
              le→ltb_false (total xs + entry_size h) (entry_size h) (omega arith),
            )
            ih
      | inr e ↦ rw (e, fitting-all m (xs ++ h ∷ []) (ground (arith, e)), r) refl
    ]

pop_while-fitting : (m : ℕ) (rev : List Header) → Fits m rev (reverse rev)
pop_while-fitting m [] =
    unfold pop_while in unfold total fitting in rw (le→ltb_false m 0 (omega arith)) refl
pop_while-fitting m (h ∷ hs) = rw (reverse-cons h hs) (
    pop_while-last m h hs (reverse hs) (rw (sym (reverse-cons h hs)) (reverse-reverse (h ∷ hs)))
      (pop_while-fitting m hs))

-- The stored size is the total of the headers, and at most the maximal size.
abbrev pub IsSized : DynamicTable → Type 0
IsSized t = (t.size ≡ total (t.table)) × (t.size ≤ t.max_size)

-- The table that holds what fits of the headers.
abbrev pub holding : List Header → ℕ → DynamicTable
holding hs m = record { table = fitting m hs; size = total (fitting m hs); max_size = m }

consolidate_table-fitting :
    (hs : List Header) (m : ℕ)
    → consolidate_table (record { table = hs; size = total hs; max_size = m }) ≡ some (holding hs m)
unfolding consolidate_table
consolidate_table-fitting hs m =
    let e = pop_while-fitting m (reverse hs) in
    rw (consolidate_table, rw (reverse-reverse hs) at e, reverse-reverse (fitting m hs)) refl

-- From a table whose stored size is right, adding a header does not panic, and leaves the longest
-- initial part of the new header and the old ones that fits: no header at all if the new one does not.
pub add_header-fitting :
    (t : DynamicTable) (name value : Bytes)
    → IsSized t
    → add_header t name value ≡ some (holding ((name, value) ∷ t.table) (t.max_size))
unfolding add_header
add_header-fitting t name value h =
    let s : t.size + (length name + length value + 32) ≡ total ((name, value) ∷ t.table) =
      unfold total in omega (arith, h.0) in
    rw s (consolidate_table-fitting ((name, value) ∷ t.table) (t.max_size))

-- A new maximal size does not panic, and leaves the longest initial part that fits it.
pub set_max_table_size-fitting :
    (t : DynamicTable) (m : ℕ) → IsSized t → set_max_table_size t m ≡ some (holding (t.table) m)
unfolding set_max_table_size
set_max_table_size-fitting t m h = rw (h.0) (consolidate_table-fitting (t.table) m)

pub holding-IsSized : (hs : List Header) (m : ℕ) → IsSized (holding hs m)
holding-IsSized hs m = (refl, total-fitting m hs)
