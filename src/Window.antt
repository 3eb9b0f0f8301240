-- ===== src/Window.antt =====
-- Flow-control windows: httpbis/src/solicit/window_size.rs. A size is an integer of 32 bits, whose
-- bounds are written out. An operation gives the new size; `none` is `Err(())`, which leaves the size
-- as it was.
pub mod Laws
use rust_http.Prelude.{
  ℕ, ◌+◌, ◌-◌, ◌*◌, ◌≤◌, ◌^◌, Option, none, some, Bool, true, false, not, ◌&&◌, ◌||◌, ltb, ◌==◌,
  if◌then◌else◌,
}
use rust_http.Prelude.Int.{ℤ, pos, negsuc, ◌+ℤ◌, ◌-ℤ◌, ◌≤ℤ◌, ltb_ℤ}

abbrev pub max_window_size : ℕ
max_window_size = 0x7fffffff

abbrev max_window_size_inc : ℕ
max_window_size_inc = 0x7fffffff

-- `0 - MAX_WINDOW_SIZE`
abbrev pub min_window_size : ℤ
min_window_size = negsuc 0x7ffffffe

-- The result of an operation that checks for overflow of an `i32`.
unfoldable pub checked : ℤ → Option ℤ
checked r = if ltb_ℤ r (negsuc 0x7fffffff) || ltb_ℤ (pos 0x7fffffff) r then none else some r

unfoldable pub try_add : ℤ → ℤ → Option ℤ
try_add w delta = elim (checked (w +ℤ delta)) [
  | none ↦ none
  | some r ↦ if ltb_ℤ r min_window_size then none else some r
]

unfoldable pub try_increase : ℤ → ℕ → Option ℤ
try_increase w delta =
    if ltb max_window_size_inc delta || (delta == 0) then none else try_add w (pos delta)

pub try_decrease : ℤ → ℤ → Option ℤ
try_decrease w delta = checked (w -ℤ delta)

pub try_decrease_to_non_negative : ℤ → ℤ → Option ℤ
try_decrease_to_non_negative w delta = elim (checked (w -ℤ delta)) [
  | none ↦ none
  | some new ↦ if ltb_ℤ new (pos 0) then none else some new
]

-- The casts between `i32` and `u32`.
pub as_u32 : ℤ → ℕ
as_u32 (pos n) = n
as_u32 (negsuc n) = 2 ^ 32 - 1 - n

unfoldable pub as_i32 : ℕ → ℤ
as_i32 n = if ltb n (2 ^ 31) then pos n else negsuc (2 ^ 32 - 1 - n)

unfoldable pub eq_ℤ : ℤ → ℤ → Bool
eq_ℤ (pos m) (pos n) = m == n
eq_ℤ (pos m) (negsuc n) = false
eq_ℤ (negsuc m) (pos n) = false
eq_ℤ (negsuc m) (negsuc n) = m == n

-- `none` is the failure of the assertion.
pub unsigned : ℤ → Option ℕ
unsigned w = let r = as_u32 w in if eq_ℤ (as_i32 r) w then some r else none

-- `NonNegativeWindowSize::new`; `none` is the failed assertion.
abbrev pub new_non_negative : ℤ → Option ℤ
new_non_negative size = if ltb_ℤ size (pos 0) then none else some size
