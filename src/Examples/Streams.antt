-- ===== src/Examples/Streams.antt =====
-- Windows and streams at concrete inputs.
use rust_http.Prelude.{ℕ, ◌≤◌, ◌≡◌, ◌↔◌, refl, arith, [], ◌∷◌, none, some}
use rust_http.Prelude.Int.{pos, negsuc, ◌+ℤ◌, ◌-ℤ◌, ◌≤ℤ◌}
use rust_http.Window.{
  max_window_size, min_window_size, try_add, try_increase, try_decrease_to_non_negative,
}
use rust_http.Window.Laws.{try_add_iff, try_increase_iff, try_decrease_to_non_negative_iff}
use rust_http.Stream.State.{open_state}
use rust_http.Stream.Queue.{data_part}
use rust_http.Stream.Outgoing.{HttpStreamCommon, pop_outg_impl, pop_outg}
use rust_http.Stream.Outgoing.Delivery.{StepDelivers, queued}
use rust_http.Stream.Outgoing.Pop.{pop_outg_impl-Delivers}
use rust_http.Stream.Outgoing.Assertions.{Stuck, pop_outg_panic_iff}
use rust_http.Stream.Outgoing.EndOfStream.{EndsProperly, pop_outg_impl-EndsProperly}
use rust_http.Frame.ErrorCode.{no_error}
use rust_http.Stream.Closed.{ClosedStreams, add, has}
use rust_http.Stream.Closed.Invariant.{IsValid, IsNodup, recent, add-IsValid}

-- Three octets are queued, and the window has room for two.
abbrev narrow : HttpStreamCommon ℕ
narrow = record {
  state = open_state;
  out_window_size = pos 2;
  outgoing = record { queue = data_part (1 ∷ 2 ∷ 3 ∷ []) ∷ []; end = none; size = 3 };
}

pop_outg_impl-Delivers_example : StepDelivers narrow (pos 10) (pop_outg_impl narrow (pos 10))
pop_outg_impl-Delivers_example =
    pop_outg_impl-Delivers narrow (pos 10) (omega arith) (omega arith) (unfold queued in refl)

-- Empty data is queued, and the stream's window is empty.
abbrev stuck : HttpStreamCommon ℕ
stuck = record {
  state = open_state;
  out_window_size = pos 0;
  outgoing = record { queue = data_part [] ∷ []; end = none; size = 0 };
}

pop_outg_panic_iff_example : (pop_outg stuck (pos 10) ≡ none) ↔ Stuck stuck (pos 10)
pop_outg_panic_iff_example =
    pop_outg_panic_iff stuck (pos 10) (omega arith) (omega arith) (omega arith)
      (unfold queued in refl)

-- The last frame of a message.
abbrev ending : HttpStreamCommon ℕ
ending = record {
  state = open_state;
  out_window_size = pos 2;
  outgoing = record { queue = data_part (1 ∷ []) ∷ []; end = some no_error; size = 1 };
}

pop_outg_impl-EndsProperly_example : EndsProperly (pop_outg_impl ending (pos 10))
pop_outg_impl-EndsProperly_example = pop_outg_impl-EndsProperly ending (pos 10)

abbrev two_closed : ClosedStreams
two_closed = record { set = 3 ∷ 1 ∷ []; lru = 1 ∷ 3 ∷ [] }

two_closed-IsValid : IsValid two_closed
unfolding has IsNodup
two_closed-IsValid = record {
  same = λ x. ground arith;
  nodup = (refl, (refl, tt));
  bounded = omega arith;
}

add-IsValid_example :
    (s : ClosedStreams) × (add two_closed 5 ≡ some s) × IsValid s × (s.lru ≡ recent two_closed 5)
add-IsValid_example = add-IsValid two_closed 5 two_closed-IsValid

try_add_iff_example : (try_add (pos 5) (negsuc 9) ≡ some (negsuc 4)) ↔ (
    (negsuc 4 ≡ pos 5 +ℤ negsuc 9)
    × (min_window_size ≤ℤ negsuc 4)
    × (negsuc 4 ≤ℤ pos max_window_size))
try_add_iff_example = try_add_iff (pos 5) (negsuc 9) (negsuc 4)

try_increase_iff_example : (try_increase (pos 5) 7 ≡ some (pos 12)) ↔ (
    (pos 12 ≡ pos 5 +ℤ pos 7)
    × (1 ≤ 7)
    × (7 ≤ max_window_size)
    × (min_window_size ≤ℤ pos 12)
    × (pos 12 ≤ℤ pos max_window_size))
try_increase_iff_example = try_increase_iff (pos 5) 7 (pos 12)

try_decrease_to_non_negative_iff_example :
    (try_decrease_to_non_negative (pos 5) (pos 2) ≡ some (pos 3))
    ↔ ((pos 3 ≡ pos 5 -ℤ pos 2) × (pos 0 ≤ℤ pos 3) × (pos 3 ≤ℤ pos max_window_size))
try_decrease_to_non_negative_iff_example = try_decrease_to_non_negative_iff (pos 5) (pos 2) (pos 3)
