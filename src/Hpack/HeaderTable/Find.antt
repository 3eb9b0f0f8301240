-- ===== src/Hpack/HeaderTable/Find.antt =====
-- What a search of the header table finds.
use rust_http.Prelude.{
  ℕ, zero, suc, ◌≡◌, ◌≢◌, refl, sym, ap, arith, ◌⊎◌, inl, inr, List, [], ◌∷◌, ◌++◌, Option, none,
  some, length, get_elem?, true, false, Bool-cases, ==_iff, append-nil, append_assoc, length-append,
}
use rust_http.Hpack.StaticTable.{Bytes, Header}
use rust_http.Hpack.HeaderTable.{
  HeaderTable, HeaderValueFound, found, name_only_found, iter, bytes_eq, find_from, find_header,
}

bytes_eq→eq : (xs ys : Bytes) → bytes_eq xs ys ≡ true → xs ≡ ys
unfolding bytes_eq
bytes_eq→eq [] [] e = refl
bytes_eq→eq [] (y ∷ ys) e = cc
bytes_eq→eq (x ∷ xs) [] e = cc
bytes_eq→eq (x ∷ xs) (y ∷ ys) e = grind (arith, bytes_eq→eq xs ys, ==_iff x y)

bytes_eq_refl : (xs : Bytes) → bytes_eq xs xs ≡ true
unfolding bytes_eq
bytes_eq_refl [] = refl
bytes_eq_refl (x ∷ xs) = ground (arith, bytes_eq_refl xs)

-- What each result says of the headers `hs` that a search has passed.
unfoldable pub Found : List Header → Header → Option (ℕ × HeaderValueFound) → Type 0
Found hs h none = (i : ℕ) (v : Bytes) → get_elem? hs i ≢ some (h.0, v)
Found hs h (some (index, found)) = (i : ℕ) × (index ≡ suc i) × (get_elem? hs i ≡ some h)
Found hs h (some (index, name_only_found)) =
    ((i : ℕ) × (v : Bytes) × (index ≡ suc i) × (get_elem? hs i ≡ some (h.0, v)))
    × ((i : ℕ) → get_elem? hs i ≢ some h)

-- The search goes on from a state in which `passed` headers hold no such header, and `matching_name`
-- is the index of one with the name, or there is none.
abbrev Passed : List Header → Header → Option ℕ → Type 0
Passed hs h none = Found hs h none
Passed hs h (some index) = Found hs h (some (index, name_only_found))

snoc-length :
    (passed : List Header) (x : Header) (hs : List Header)
    → get_elem? (passed ++ x ∷ hs) (length passed) ≡ some x
snoc-length [] x hs = refl
snoc-length (y ∷ ys) x hs = snoc-length ys x hs

snoc-elem :
    (passed : List Header) (x : Header) (i : ℕ) (h : Header)
    → get_elem? (passed ++ x ∷ []) i ≡ some h
    → ((i ≡ length passed) × (x ≡ h)) ⊎ (get_elem? passed i ≡ some h)
snoc-elem [] x zero h e = ground (arith, e)
snoc-elem [] x (suc i) h e = cc
snoc-elem (y ∷ ys) x zero h e = inr e
snoc-elem (y ∷ ys) x (suc i) h e = elim (snoc-elem ys x i h e) [
  | inl p ↦ inl (ap suc (p.0), p.1)
  | inr p ↦ inr p
]

elem-snoc :
    (passed : List Header) (x : Header) (i : ℕ) (h : Header)
    → get_elem? passed i ≡ some h
    → get_elem? (passed ++ x ∷ []) i ≡ some h
elem-snoc [] x i h e = cc
elem-snoc (y ∷ ys) x zero h e = e
elem-snoc (y ∷ ys) x (suc i) h e = elem-snoc ys x i h e

-- One header more was passed: it has another name, or the name and another value.
pass_other :
    (passed : List Header) (h x : Header) (m : Option ℕ)
    → h.0 ≢ x.0
    → Passed passed h m
    → Passed (passed ++ x ∷ []) h m
unfolding Found
pass_other passed h x none n p = λ i v e. elim (snoc-elem passed x i (h.0, v) e) [
  | inl q ↦ n (sym (ap (λ t. t.0) (q.1)))
  | inr q ↦ p i v q
]
pass_other passed h x (some index) n ((i, v, q, e), p) = (
  (i, v, q, elem-snoc passed x i (h.0, v) e),
  λ j e. elim (snoc-elem passed x j h e) [ inl q ↦ n (sym (ap (λ t. t.0) (q.1))) | inr q ↦ p j q ],
)

not-Passed :
    (passed : List Header) (h : Header) (m : Option ℕ)
    → Passed passed h m
    → (i : ℕ) → get_elem? passed i ≢ some h
unfolding Found
not-Passed passed h none p i e = p i (h.1) e
not-Passed passed h (some index) p i e = p.1 i e

pass_named :
    (passed : List Header) (name value v : Bytes) (m : Option ℕ)
    → value ≢ v
    → Passed passed (name, value) m
    → Passed (passed ++ (name, v) ∷ []) (name, value) (some (suc (length passed)))
unfolding Found
pass_named passed name value v m n p = (
  (length passed, v, refl, snoc-length passed (name, v) []),
  λ i e. elim (snoc-elem passed (name, v) i (name, value) e) [
    | inl q ↦ n (sym (ap (λ t. t.1) (q.1)))
    | inr q ↦ not-Passed passed (name, value) m p i q
  ],
)

bytes_neq : (xs ys : Bytes) → bytes_eq xs ys ≡ false → xs ≢ ys
bytes_neq xs ys e q = let r = bytes_eq_refl xs in ground (arith, e, q, r)

find_from-Found :
    (passed hs : List Header) (h : Header) (m : Option ℕ)
    → Passed passed h m
    → Found (passed ++ hs) h (find_from h hs (length passed) m)
unfolding find_from Found
find_from-Found passed [] h none p = rw (append-nil passed) p
find_from-Found passed [] h (some index) p = rw (append-nil passed) p
find_from-Found passed ((n, v) ∷ hs) (name, value) m p =
    let ih = find_from-Found (passed ++ (n, v) ∷ []) hs (name, value) in
    let a : (passed ++ (n, v) ∷ []) ++ hs ≡ passed ++ (n, v) ∷ hs =
      append_assoc passed ((n, v) ∷ []) hs in
    let l : length (passed ++ (n, v) ∷ []) ≡ suc (length passed) =
      omega (arith, length-append passed ((n, v) ∷ [])) in
    elim (Bool-cases (bytes_eq name n)) [
      | inl e ↦ elim (Bool-cases (bytes_eq value v)) [
        | inl f ↦
            rw (find_from, e, f)
              (
                length passed,
                refl,
                rw (bytes_eq→eq name n e, bytes_eq→eq value v f) (snoc-length passed (n, v) hs),
              )
        | inr f ↦
            rw (find_from, e, f)
              (rw (a, l) at
                (ih (some (suc (length passed))) (
                  rw (sym (bytes_eq→eq name n e))
                    (pass_named passed name value v m (bytes_neq value v f) p))))
      ]
      | inr e ↦
          rw (find_from, e)
            (rw (a, l) at (ih m (pass_other passed (name, value) (n, v) m (bytes_neq name n e) p)))
    ]

-- A search of the table finds the header itself where it is anywhere in the table; if not, it gives
-- the index of a header with the name and another value; and no index only where no header has
-- the name. The indices are those of the index space.
pub find_header-Found : (t : HeaderTable) (h : Header) → Found (iter t) h (find_header t h)
unfolding find_header Found
find_header-Found t h = find_from-Found [] (iter t) h none (λ i v e. ground (arith, e))
