-- ===== src/Connection/Invariant/Handlers.antt =====
-- The handlers one by one.
use rust_http.Prelude.{
  ℕ, ◌≡◌, refl, arith, List, Option, none, some, inl, inr, Bool, Bool-cases, ltb, length,
}
use rust_http.Prelude.Outcome.{ok, bind-ok}
use rust_http.Frame.ErrorCode.{ErrorCode}
use rust_http.Frame.FrameType.{HttpFrameType}
use rust_http.Frame.FrameType
use rust_http.Frame.Data
use rust_http.Frame.Data.{DataFrame}
use rust_http.Frame.Ping
use rust_http.Frame.Ping.{PingFrame}
use rust_http.Hpack.StaticTable.{Header}
use rust_http.Stream.Outgoing.{HttpStreamCommon}
use rust_http.Stream.Map.{get_mut}
use rust_http.Connection.{
  Conn, Incoming, send_frame_and_notify, send_rst_stream, stream_state, decrease_in_window,
  get_stream_maybe_send_error,
}
use rust_http.Connection.Read.{
  refill, receive_octets, receive_data, notify_conn, data_received, data_for, process_data_frame,
  process_ping_ack, process_ping,
}
use rust_http.Connection.Invariant.{
  Keeps, Keeps-refl, Keeps-trans, send-Keeps, send_rst_stream-Keeps, send_error-Keeps,
}

-- The fields that the handlers keep valid.
abbrev pub Same : Conn → Conn → Type 0
Same c c' =
    (c'.streams ≡ c.streams)
    × (c'.peer_closed_streams ≡ c.peer_closed_streams)
    × (c'.queued_write ≡ c.queued_write)

-- The fields that are neither of the map, of the closed streams nor of the queue do not matter.
pub same-Keeps :
    (c c' : Conn)
    → c'.streams ≡ c.streams
    → c'.peer_closed_streams ≡ c.peer_closed_streams
    → c'.queued_write ≡ c.queued_write
    → Keeps c c'
same-Keeps c c' s p q = record {
  valid = λ v. record { streams = rw s (v.streams); closed = rw p (v.closed) };
  silent = λ _. q;
}

pub Same-Keeps : (c c' : Conn) → Same c c' → Keeps c c'
Same-Keeps c c' s = same-Keeps c c' (s.0) (s.1) (s.2)

decrease_in_window-Same : (c c' : Conn) (n : ℕ) → decrease_in_window c n ≡ ok c' → Same c c'
unfolding decrease_in_window
decrease_in_window-Same c c' n e = ground (arith, e)

refill-Same : (c c' : Conn) (o : Option ℕ) → refill c ≡ ok (c', o) → Same c c'
unfolding refill
refill-Same c c' o e = ground (arith, e)

receive_octets-Same :
    (c c' : Conn) (f : DataFrame) (i : Incoming) (o : Option ErrorCode)
    → receive_octets c f i ≡ ok (c', o)
    → Same c c'
unfolding receive_octets
receive_octets-Same c c' f i o e = ground (arith, e)

receive_data-Same :
    (c c' : Conn) (f : DataFrame) (i : Incoming) (rem : Option ℕ) (o : Option ErrorCode)
    → receive_data c f i rem ≡ ok (c', o)
    → Same c c'
unfolding receive_data
receive_data-Same c c' f i none o e = receive_octets-Same c c' f i o e
receive_data-Same c c' f i (some rem) o e = elim (Bool-cases (ltb rem (length (f.body)))) [
  | inl b ↦ ground (arith, rw b at e)
  | inr b ↦ receive_octets-Same c c' f _ o (rw b at e)
]

pub get_stream-Keeps :
    (c : Conn) (id : ℕ) (t : HttpFrameType) → Keeps c ((get_stream_maybe_send_error c id t).0)
unfolding get_stream_maybe_send_error
get_stream-Keeps c id t = send_error-Keeps c id t (stream_state c id)

-- The stream that is given is the one of the map.
pub get_stream-found :
    (c : Conn) (id : ℕ) (t : HttpFrameType)
    → (get_stream_maybe_send_error c id t).1
      ≡ get_mut ((get_stream_maybe_send_error c id t).0.streams) id
unfolding get_stream_maybe_send_error
get_stream-found c id t = refl

notify_conn-Keeps : (c : Conn) (o : Option ℕ) → Keeps c (notify_conn c o)
notify_conn-Keeps c none = Keeps-refl c
notify_conn-Keeps c (some n) = send-Keeps c _

data_received-Keeps :
    (c c' : Conn) (id : ℕ) (o : Option ℕ) (error : Option ErrorCode) (b : Bool)
    → data_received id o (c, error) ≡ ok (c', b)
    → Keeps c c'
unfolding data_received
data_received-Keeps c c' id o (some error) b e =
    let q : send_rst_stream (notify_conn c o) id error ≡ c' = ground (arith, e) in
    rw (← q)
      (Keeps-trans (notify_conn-Keeps c o) (send_rst_stream-Keeps (notify_conn c o) id error))
data_received-Keeps c c' id o none b e =
    let q : notify_conn c o ≡ c' = ground (arith, e) in rw (← q) (notify_conn-Keeps c o)

data_for-Keeps :
    (c c' : Conn) (f : DataFrame) (o : Option ℕ) (s : Option (HttpStreamCommon (List Header)))
    (b : Bool)
    → data_for f o (c, s) ≡ ok (c', b)
    → Keeps c c'
unfolding data_for
data_for-Keeps c c' f o none b e = let q : c ≡ c' = ground (arith, e) in rw (← q) (Keeps-refl c)
data_for-Keeps c c' f o (some s) b e =
    let i = c.incoming (f.stream_id) in
    let ((c1, error), e1, e2) =
      bind-ok (receive_data c f i (i.in_rem_content_length)) (data_received (f.stream_id) o) (c', b)
        e in
    Keeps-trans (Same-Keeps c c1 (receive_data-Same c c1 f i (i.in_rem_content_length) error e1))
      (data_received-Keeps c1 c' (f.stream_id) o error b e2)

pub process_data_frame-Keeps :
    (c c' : Conn) (f : DataFrame) (b : Bool) → process_data_frame c f ≡ ok (c', b) → Keeps c c'
unfolding process_data_frame
process_data_frame-Keeps c c' f b e =
    let (c1, e1, r1) = bind-ok (decrease_in_window c (Data.payload_len f)) _ (c', b) e in
    let ((c2, o), e2, r2) = bind-ok (refill c1) _ (c', b) r1 in
    let found = get_stream_maybe_send_error c2 (f.stream_id) FrameType.data_frame in
    Keeps-trans (Same-Keeps c c1 (decrease_in_window-Same c c1 (Data.payload_len f) e1)) (
      Keeps-trans (Same-Keeps c1 c2 (refill-Same c1 c2 o e2)) (
        Keeps-trans (get_stream-Keeps c2 (f.stream_id) FrameType.data_frame)
          (data_for-Keeps (found.0) c' f o (found.1) b r2)))

ping_ack-Keeps :
    (c c' : Conn) (o : Option ℕ) (f : PingFrame) → process_ping_ack c o f ≡ ok c' → Keeps c c'
unfolding process_ping_ack
ping_ack-Keeps c c' none f e = Same-Keeps c c' (ground (arith, e))
ping_ack-Keeps c c' (some n) f e = Same-Keeps c c' (ground (arith, e))

pub process_ping-Keeps : (c c' : Conn) (f : PingFrame) → process_ping c f ≡ ok c' → Keeps c c'
unfolding process_ping
process_ping-Keeps c c' f e = elim (Bool-cases (Ping.is_ack f)) [
  | inl a ↦ ping_ack-Keeps c c' (c.ping_sent) f (rw a at e)
  | inr n ↦
      let q : send_frame_and_notify c (Ping.serialize_into (Ping.new_ack (f.opaque_data))) ≡ c' =
        ground (arith, rw n at e) in
      rw (← q) (send-Keeps c _)
]
