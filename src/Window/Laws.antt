-- ===== src/Window/Laws.antt =====
-- When an operation on a window succeeds, and with what.
use rust_http.Prelude.{
  ℕ, ◌-◌, ◌≤◌, ◌^◌, ◌≡◌, ◌↔◌, arith, none, some, if◌then◌else◌, lt→ltb, le→ltb_false,
}
use rust_http.Prelude.Int.{ℤ, pos, negsuc, ◌+ℤ◌, ◌-ℤ◌, ◌≤ℤ◌, ltb_ℤ, +ℤ_cancel}
use rust_http.Window.{
  max_window_size, min_window_size, checked, try_add, try_increase, try_decrease,
  try_decrease_to_non_negative, unsigned, as_u32, as_i32, eq_ℤ,
}

abbrev IsI32 : ℤ → Type 0
IsI32 w = (negsuc 0x7fffffff ≤ℤ w) × (w ≤ℤ pos 0x7fffffff)

in_window :
    (s r : ℤ)
    → (elim (checked s) [ none ↦ none | some r ↦ if ltb_ℤ r min_window_size then none else some r ]
        ≡ some r)
      ↔ ((r ≡ s) × (min_window_size ≤ℤ r) × (r ≤ℤ pos max_window_size))
unfolding checked
in_window s r = ground arith

not_negative :
    (s r : ℤ)
    → (elim (checked s) [ none ↦ none | some r ↦ if ltb_ℤ r (pos 0) then none else some r ]
        ≡ some r)
      ↔ ((r ≡ s) × (pos 0 ≤ℤ r) × (r ≤ℤ pos max_window_size))
unfolding checked
not_negative s r = ground arith

-- `try_add` gives the sum, where it is within the bounds of a window, and fails otherwise.
pub try_add_iff :
    (w delta r : ℤ)
    → (try_add w delta ≡ some r)
      ↔ ((r ≡ w +ℤ delta) × (min_window_size ≤ℤ r) × (r ≤ℤ pos max_window_size))
unfolding try_add
try_add_iff w delta r = in_window (w +ℤ delta) r

-- `try_increase` gives the sum, where the increment is one that the protocol allows and the sum within
-- the bounds of a window, and fails otherwise.
pub try_increase_iff :
    (w : ℤ) (delta : ℕ) (r : ℤ)
    → (try_increase w delta ≡ some r) ↔ (
        (r ≡ w +ℤ pos delta)
        × (1 ≤ delta)
        × (delta ≤ max_window_size)
        × (min_window_size ≤ℤ r)
        × (r ≤ℤ pos max_window_size))
unfolding try_increase
try_increase_iff w delta r = ground (arith, try_add_iff w (pos delta) r)

-- `try_decrease_to_non_negative` gives the difference, where it is from 0 to the largest size, and
-- fails otherwise.
pub try_decrease_to_non_negative_iff :
    (w delta r : ℤ)
    → (try_decrease_to_non_negative w delta ≡ some r)
      ↔ ((r ≡ w -ℤ delta) × (pos 0 ≤ℤ r) × (r ≤ℤ pos max_window_size))
unfolding try_decrease_to_non_negative
try_decrease_to_non_negative_iff w delta r = not_negative (w -ℤ delta) r

-- What an increase adds, a decrease by the same amount takes away.
pub try_decrease-try_increase :
    (w : ℤ) (delta : ℕ) (r : ℤ)
    → IsI32 w
    → try_increase w delta ≡ some r
    → try_decrease r (pos delta) ≡ some w
unfolding try_decrease checked
try_decrease-try_increase w delta r i e =
    let back : r -ℤ pos delta ≡ w =
      rw (((try_increase_iff w delta r).0 e).0) (+ℤ_cancel w (pos delta)) in
    rw back (ground (arith, i))

-- The assertion of `unsigned` holds for every size, a negative one too.
pub unsigned_total : (w : ℤ) → IsI32 w → (n : ℕ) × (unsigned w ≡ some n)
unfolding unsigned as_u32 as_i32 eq_ℤ
unsigned_total (pos n) i =
    (n, rw (unsigned, as_i32, lt→ltb n (2 ^ 31) (omega (arith, i))) (ground arith))
unsigned_total (negsuc n) i = (
  2 ^ 32 - 1 - n,
  let back : 2 ^ 32 - 1 - (2 ^ 32 - 1 - n) ≡ n = omega (arith, i) in
      rw (unsigned, as_i32, le→ltb_false (2 ^ 32 - 1 - n) (2 ^ 31) (omega (arith, i)), back)
        (ground arith),
)
