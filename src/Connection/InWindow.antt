-- ===== src/Connection/InWindow.antt =====
-- The window of the connection for what is received.
use rust_http.Prelude.{
  ℕ, ◌+◌, ◌-◌, ◌≤◌, ◌<◌, ◌^◌, ◌≡◌, refl, sym, arith, none, some, ◌⊎◌, inl, inr, Bool, true, false,
  Bool-cases, if◌then◌else◌, ltb, lt→ltb,
}
use rust_http.Prelude.Int.{pos, ◌+ℤ◌, ◌-ℤ◌, ltb_ℤ}
use rust_http.Prelude.Outcome.{ok}
use rust_http.Window.{try_increase, try_decrease_to_non_negative, as_i32}
use rust_http.Window.Laws.{try_increase_iff, try_decrease_to_non_negative_iff}
use rust_http.Frame.FrameType
use rust_http.Frame.FrameType.{HttpFrameType}
use rust_http.Frame.ErrorCode.{ErrorCode, stream_closed}
use rust_http.Stream.Closed.{contains}
use rust_http.Stream.State.{
  StreamState, idle, reserved_local, reserved_remote, open_state, half_closed_remote,
  half_closed_local, closed,
}
use rust_http.Frame.Data
use rust_http.Frame.Data.{DataFrame}
use rust_http.Stream.Map.{get_mut, remove_stream}
use rust_http.Frame.Goaway
use rust_http.Frame.RstStream
use rust_http.Stream.Role.{init_where}
use rust_http.Codec.QueuedWrite.{QueuedWrite, queue_not_goaway, queue_goaway}
use rust_http.Connection.{
  Conn, stream_state_idle_or_closed, last_stream_id, send_rst_stream, allowed_idle, allowed_closed,
  decrease_in_window, send_error, stream_state, get_stream_maybe_send_error,
}
use rust_http.Connection.Read.{refill, data_for, process_data_frame}

pub as_i32_small : (n : ℕ) → n < 2 ^ 31 → as_i32 n ≡ pos n
unfolding as_i32
as_i32_small n h = rw (lt→ltb n (2 ^ 31) h) refl

pos_sub : (w n : ℕ) → n ≤ w → pos w -ℤ pos n ≡ pos (w - n)
unfolding ◌-ℤ◌
pos_sub w n h = ground (arith, h)

pos_add : (w n : ℕ) → pos w +ℤ pos n ≡ pos (w + n)
unfolding ◌+ℤ◌
pos_add w n = ground arith

-- What is left of the window, and whether it is filled up.
abbrev refilled : ℕ → ℕ
refilled left = if ltb left 32767 then left + 65535 else left

decreased :
    (c : Conn) (w n : ℕ)
    → c.in_window_size ≡ pos w
    → n ≤ w
    → w < 2 ^ 31
    → decrease_in_window c n ≡ ok (record c { in_window_size = pos (w - n) })
unfolding decrease_in_window
decreased c w n e h b =
    let d : try_decrease_to_non_negative (c.in_window_size) (as_i32 n) ≡ some (pos (w - n)) =
      rw (e, as_i32_small n (omega arith))
        ((try_decrease_to_non_negative_iff (pos w) (pos n) (pos (w - n))).1
          (sym (pos_sub w n h), omega arith, omega arith)) in
    rw (lt→ltb n 0x8000_0000 (omega arith), d) refl

refill-low :
    (c : Conn) (left : ℕ)
    → c.in_window_size ≡ pos left
    → left < 32767
    → refill c ≡ ok (record c { in_window_size = pos (left + 65535) }, some 65535)
unfolding refill
refill-low c left e h =
    let i : try_increase (c.in_window_size) 65535 ≡ some (pos (left + 65535)) = rw e (
      (try_increase_iff (pos left) 65535 (pos (left + 65535))).1
        (sym (pos_add left 65535), omega arith, omega arith, omega arith, omega arith)) in
    let low : ltb_ℤ (c.in_window_size) (pos 32767) ≡ true =
      rw e (lt→ltb (left + 0) 32767 (omega arith)) in
    rw (low, i) refl

removed-missing :
    (c : Conn) (id : ℕ) (b : Bool) (e : ErrorCode)
    → get_mut (c.streams) id ≡ none
    → get_mut ((if b then c else send_rst_stream c id e).streams) id ≡ none
unfolding remove_stream
removed-missing c id true e h = h
removed-missing c id false e h = rw h h

-- A stream that is not there does not come to be there.
pub send_error-missing :
    (c : Conn) (id : ℕ) (t : HttpFrameType) (state : StreamState)
    → get_mut (c.streams) id ≡ none
    → get_mut ((send_error c id t state).streams) id ≡ none
unfolding send_error
send_error-missing c id t idle h = elim (Bool-cases (allowed_idle t)) [
  | inl e ↦ rw e h
  | inr e ↦ rw e h
]
send_error-missing c id t half_closed_remote h =
    removed-missing c id (allowed_closed t) stream_closed h
send_error-missing c id t closed h = elim (Bool-cases (allowed_closed t)) [
  | inl e ↦ rw e h
  | inr e ↦ elim (Bool-cases (contains (c.peer_closed_streams) id)) [
    | inl k ↦ rw (e, k) h
    | inr k ↦ rw (e, k) (removed-missing c id false stream_closed h)
  ]
]
send_error-missing c id t reserved_local h = h
send_error-missing c id t reserved_remote h = h
send_error-missing c id t open_state h = h
send_error-missing c id t half_closed_local h = h

-- The connection with the window filled up.
abbrev pub with_window : Conn → ℕ → Conn
with_window c w = record c { in_window_size = pos w }

-- The handler comes to what the connection does for a frame on a stream that is not there.
process_data_frame-missing :
    (c : Conn) (f : DataFrame) (w : ℕ)
    → c.in_window_size ≡ pos w
    → Data.payload_len f ≤ w
    → w < 2 ^ 31
    → w < 32767 + Data.payload_len f
    → get_mut (c.streams) (f.stream_id) ≡ none
    → process_data_frame c f
      ≡ ok (
        send_error
            (with_window c (w - Data.payload_len f + 65535))
            (f.stream_id)
            FrameType.data_frame
            (stream_state c (f.stream_id)),
        false,
      )
unfolding process_data_frame get_stream_maybe_send_error data_for send_error last_stream_id
process_data_frame-missing c f w e h b low missing =
    let n = Data.payload_len f in
    let filled : Conn = with_window c (w - n + 65535) in
    rw
      (
        decreased c w n e h b,
        refill-low (with_window c (w - n)) (w - n) refl (omega arith),
        send_error-missing filled (f.stream_id) FrameType.data_frame (stream_state c (f.stream_id))
            missing,
      )
      refl

-- The queue afterwards: a GOAWAY frame or a reset behind what was queued, and nothing else.
abbrev pub Answered : Conn → QueuedWrite → ℕ → Type 0
Answered c q id =
    (q ≡ queue_goaway (c.queued_write) (Goaway.new (c.last_peer_stream_id) stream_closed))
    ⊎ (q
        ≡ queue_not_goaway (c.queued_write)
            (RstStream.serialize_into (RstStream.new id stream_closed)))

pub missing_state :
    (c : Conn) (id : ℕ)
    → get_mut (c.streams) id ≡ none
    → stream_state c id ≡ stream_state_idle_or_closed c id
missing_state c id h = rw h refl

closed-Answered :
    (c : Conn) (id : ℕ) → Answered c ((send_error c id FrameType.data_frame closed).queued_write) id
unfolding send_error
closed-Answered c id = elim (Bool-cases (contains (c.peer_closed_streams) id)) [
  | inl by_peer ↦ rw by_peer (inl refl)
  | inr by_us ↦ rw by_us (inr refl)
]

send_error-Answered :
    (c : Conn) (id : ℕ)
    → get_mut (c.streams) id ≡ none
    → Answered c ((send_error c id FrameType.data_frame (stream_state c id)).queued_write) id
unfolding send_error
send_error-Answered c id h =
    elim (Bool-cases (ltb (last_stream_id c (init_where (c.role) id)) id)) [
      | inl idle_still ↦ rw (missing_state c id h, idle_still) (inl refl)
      | inr over ↦ rw (missing_state c id h, over) (closed-Answered c id)
    ]

either-in_window :
    (c : Conn) (b : Bool) (x y : Conn)
    → x.in_window_size ≡ c.in_window_size
    → y.in_window_size ≡ c.in_window_size
    → (if b then x else y).in_window_size ≡ c.in_window_size
either-in_window c true x y h k = h
either-in_window c false x y h k = k

send_error-in_window :
    (c : Conn) (id : ℕ) (t : HttpFrameType) (state : StreamState)
    → (send_error c id t state).in_window_size ≡ c.in_window_size
unfolding send_error
send_error-in_window c id t idle = either-in_window c (allowed_idle t) c _ refl refl
send_error-in_window c id t half_closed_remote = either-in_window c (allowed_closed t) c _ refl refl
send_error-in_window c id t closed =
    either-in_window c (allowed_closed t) c _ refl
      (either-in_window c (contains (c.peer_closed_streams) id) _ _ refl refl)
send_error-in_window c id t reserved_local = refl
send_error-in_window c id t reserved_remote = refl
send_error-in_window c id t open_state = refl
send_error-in_window c id t half_closed_local = refl

-- Where the data fits the window of the connection but leaves less than 32767 of it, and its stream
-- is not in the map, the handler gives no stream and the window of the connection is what is left and
-- 65535 more; but all that is queued is a GOAWAY frame or a reset of the stream, with STREAM_CLOSED,
-- so that the peer is not told of the addition.
pub process_data_frame_untold :
    (c : Conn) (f : DataFrame) (w : ℕ)
    → c.in_window_size ≡ pos w
    → Data.payload_len f ≤ w
    → w < 2 ^ 31
    → w < 32767 + Data.payload_len f
    → get_mut (c.streams) (f.stream_id) ≡ none
    → (c' : Conn) × (process_data_frame c f ≡ ok (c', false))
      × (c'.in_window_size ≡ pos (w - Data.payload_len f + 65535))
      × Answered c (c'.queued_write) (f.stream_id)
unfolding last_stream_id
process_data_frame_untold c f w e h b low missing =
    let filled : Conn = with_window c (w - Data.payload_len f + 65535) in
    (
      send_error filled (f.stream_id) FrameType.data_frame (stream_state filled (f.stream_id)),
      process_data_frame-missing c f w e h b low missing,
      send_error-in_window filled (f.stream_id) FrameType.data_frame
          (stream_state filled (f.stream_id)),
      send_error-Answered filled (f.stream_id) missing,
    )
