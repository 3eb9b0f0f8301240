-- ===== src/Stream/Outgoing.antt =====
-- `is_writable` and `pop_outg` of httpbis/src/common/stream.rs: the next frame of a stream, within the
-- windows of the stream and of the connection. Of the stream's record only what these use is kept.
-- The outer `none` is a panic.
pub mod Delivery
pub mod Pop
pub mod Assertions
pub mod EndOfStream
use rust_http.Prelude.{
  ℕ, ◌+◌, ◌-◌, ◌*◌, ◌%◌, ◌^◌, ◌≤◌, ◌≡◌, refl, List, [], ◌∷◌, ◌++◌, Option, none, some, length, take,
  drop, ltb, ◌==◌, ◌&&◌, ◌||◌, not, if◌then◌else◌, Bool, true, false,
}
use rust_http.Prelude.Int.{ℤ, pos, negsuc, pos_part, ltb_ℤ}
use rust_http.Frame.ErrorCode.{ErrorCode, no_error}
use rust_http.Window.{try_decrease_to_non_negative, as_i32, eq_ℤ}
use rust_http.Stream.State.{StreamState, is_closed_local, close_local}
use rust_http.Stream.Queue.{
  DataOrHeaders, headers, data_part, StreamQueue, push_front, pop_front, end_if_empty,
}

pub data HttpStreamCommand (H : Type 0) : Type 0 where
  headers_command : H → Bool → HttpStreamCommand H
  data_command : List ℕ → Bool → HttpStreamCommand H
  rst : ErrorCode → HttpStreamCommand H

abbrev from_part : {H : Type 0} → DataOrHeaders H → Bool → HttpStreamCommand H
from_part (data_part d) last = data_command d last
from_part (headers h) last = headers_command h last

pub record HttpStreamCommon (H : Type 0) : Type 0 where
  pub state : StreamState
  pub out_window_size : ℤ
  pub outgoing : StreamQueue H

-- `end() == Some(ErrorCode::NoError)`
abbrev pub is_no_error : Option ErrorCode → Bool
is_no_error (some no_error) = true
is_no_error _ = false

abbrev pub end_command : {H : Type 0} → ErrorCode → HttpStreamCommand H
end_command no_error = data_command [] true
end_command e = rst e

abbrev pub min_ℤ : ℤ → ℤ → ℤ
min_ℤ a b = if ltb_ℤ b a then b else a

-- `out_window_size.size() <= 0 || conn_out_window_size.size() <= 0`
pub blocked : ℤ → ℤ → Bool
blocked window conn = not (ltb_ℤ (pos 0) window) || not (ltb_ℤ (pos 0) conn)

-- What a step ends in: the stream, the size of the connection's window, and a command to send.
abbrev pub Popped : Type 0 → Type 0
Popped H = HttpStreamCommon H × ℤ × Option (HttpStreamCommand H)

module _ {H : Type 0} where
  unfoldable pub writable_front : List (DataOrHeaders H) → Option ErrorCode → StreamState → ℤ → Bool
  writable_front [] none state window = false
  writable_front [] (some e) state window = not (is_closed_local state)
  writable_front (headers h ∷ rest) e state window = true
  writable_front (data_part d ∷ rest) e state window = (length d == 0) || ltb_ℤ (pos 0) window

  unfoldable pub is_writable : HttpStreamCommon H → Bool
  is_writable s = writable_front (s.outgoing.queue) (s.outgoing.end) (s.state) (s.out_window_size)

  -- The stream after its side was closed, if that was the last frame.
  abbrev pub sent : HttpStreamCommon H → ℤ → StreamQueue H → HttpStreamCommon H
  sent s window q = record {
    state = if is_no_error (end_if_empty q) then close_local (s.state) else s.state;
    out_window_size = window;
    outgoing = q;
  }

  pub pop_end : HttpStreamCommon H → ℤ → Option ErrorCode → Option (Popped H)
  pop_end s conn none = some (s, conn, none)
  pop_end s conn (some e) =
      if is_closed_local (s.state)
      then some (s, conn, none)
      else some (
        record {
          state = close_local (s.state);
          out_window_size = s.out_window_size;
          outgoing = s.outgoing;
        },
        conn,
        some (end_command e),
      )

  -- The data sent, with `q` what is left of the queue.
  pub send_piece : HttpStreamCommon H → ℤ → List ℕ → StreamQueue H → Option (Popped H)
  send_piece s conn piece q =
      let size = as_i32 (length piece % 2 ^ 32) in
      elim (try_decrease_to_non_negative (s.out_window_size) size) [
        | none ↦ none
        | some window ↦ elim (try_decrease_to_non_negative conn size) [
          | none ↦ none
          | some conn' ↦
              some
                (sent s window q, conn', some (data_command piece (is_no_error (end_if_empty q))))
        ]
      ]

  -- Data popped from the queue `q`: what is beyond the smaller window goes back to its front.
  pub send_data : HttpStreamCommon H → ℤ → List ℕ → StreamQueue H → Option (Popped H)
  send_data s conn octets q =
      let max_window = pos_part (min_ℤ (s.out_window_size) conn) in
      if ltb max_window (length octets)
      then send_piece s conn (take max_window octets)
          (push_front q (data_part (drop max_window octets)))
      else send_piece s conn octets q

  abbrev pub send_popped :
      HttpStreamCommon H → ℤ → Option (Option (DataOrHeaders H × StreamQueue H)) → Option (Popped H)
  send_popped s conn none = none
  send_popped s conn (some none) = none
  send_popped s conn (some (some (headers h, q))) = some (
    sent s (s.out_window_size) q,
    conn,
    some (from_part (headers h) (is_no_error (end_if_empty q))),
  )
  send_popped s conn (some (some (data_part d, q))) = send_data s conn d q

  -- The step, by what is at the front of the queue.
  pub pop_next : HttpStreamCommon H → ℤ → List (DataOrHeaders H) → Option (Popped H)
  pop_next s conn [] = pop_end s conn (s.outgoing.end)
  pop_next s conn (headers h ∷ rest) = send_popped s conn (pop_front (s.outgoing))
  pop_next s conn (data_part d ∷ rest) =
      if blocked (s.out_window_size) conn
      then some (s, conn, none)
      else send_popped s conn (pop_front (s.outgoing))

  pub pop_outg_impl : HttpStreamCommon H → ℤ → Option (Popped H)
  pop_outg_impl s conn = pop_next s conn (s.outgoing.queue)

  -- The assertions of a build with them: a command only from a writable stream, and none only from
  -- one that is not writable, or with an empty window of the connection.
  pub check_popped : Bool → ℤ → Option (Popped H) → Option (Popped H)
  check_popped writable conn none = none
  check_popped writable conn (some (s, conn', some command)) =
      if writable then some (s, conn', some command) else none
  check_popped writable conn (some (s, conn', none)) =
      if not writable || eq_ℤ conn (pos 0) then some (s, conn', none) else none

  pub pop_outg : HttpStreamCommon H → ℤ → Option (Popped H)
  pop_outg s conn = check_popped (is_writable s) conn (pop_outg_impl s conn)
