-- ===== src/Connection/Invariant/Frames.antt =====
-- The handler of a frame of any type.
use rust_http.Prelude.{◌≡◌, ap, ◌∙◌, arith, inl, inr, Bool, true, false, Bool-cases}
use rust_http.Prelude.Outcome.{ok, bind-ok}
use rust_http.Frame.FrameType.{HttpFrameType}
use rust_http.Frame.FrameType
use rust_http.Connection.{Conn, get_stream_maybe_send_error}
use rust_http.Connection.Read.{raise_window, process_stream_window_update_frame}
use rust_http.Connection.Invariant.{IsValid, Keeps, Keeps-refl, Keeps-trans}
use rust_http.Connection.Invariant.Handlers.{
  get_stream-Keeps, get_stream-found, process_data_frame-Keeps, process_ping-Keeps,
}
use rust_http.Frame.Decoded.{
  HttpFrameDecoded, HttpFrameStream, HttpFrameConn, HttpFrameClassified, stream_frame, conn_frame,
  unknown_frame, get_stream_id, is_end_of_stream, classify,
}
use rust_http.Connection.Invariant.{IsSilent}
use rust_http.Connection.Read.{process_goaway}
use rust_http.Connection.Dispatch.{
  process_conn_frame, beyond, handle, process_stream_frame, process_classified, process_http_frame,
}
use rust_http.Connection.Invariant.Headers.{process_headers-Keeps}
use rust_http.Connection.Invariant.Changes.{
  ok_injective, process_settings-Keeps, conn_window-Keeps, raise_window-Keeps, rst_stream-Keeps,
  ended-Keeps,
}

abbrev is_goaway : HttpFrameConn → Bool
is_goaway (HttpFrameConn.goaway f) = true
is_goaway _ = false

conn_frame-Keeps :
    (c c' : Conn) (f : HttpFrameConn)
    → is_goaway f ≡ false
    → process_conn_frame c f ≡ ok c'
    → Keeps c c'
unfolding process_conn_frame
conn_frame-Keeps c c' (HttpFrameConn.settings f) n e = process_settings-Keeps c c' f e
conn_frame-Keeps c c' (HttpFrameConn.ping f) n e = process_ping-Keeps c c' f e
conn_frame-Keeps c c' (HttpFrameConn.goaway f) n e = absurd (cc n)
conn_frame-Keeps c c' (HttpFrameConn.window_update f) n e = conn_window-Keeps c c' f e

conn_frame-IsSilent :
    (c c' : Conn) (f : HttpFrameConn) → process_conn_frame c f ≡ ok c' → IsSilent c c'
unfolding process_conn_frame process_goaway
conn_frame-IsSilent c c' (HttpFrameConn.settings f) e = (process_settings-Keeps c c' f e).silent
conn_frame-IsSilent c c' (HttpFrameConn.ping f) e = (process_ping-Keeps c c' f e).silent
conn_frame-IsSilent c c' (HttpFrameConn.goaway f) e = λ _. ground (arith, e)
conn_frame-IsSilent c c' (HttpFrameConn.window_update f) e = (conn_window-Keeps c c' f e).silent

abbrev pub is_goaway_frame : HttpFrameDecoded → Bool
is_goaway_frame (HttpFrameDecoded.goaway f) = true
is_goaway_frame _ = false

abbrev is_goaway_class : HttpFrameClassified → Bool
is_goaway_class (conn_frame f) = is_goaway f
is_goaway_class _ = false

is_goaway-classify : (f : HttpFrameDecoded) → is_goaway_class (classify f) ≡ is_goaway_frame f
is_goaway-classify f = ground arith

handle-Keeps : (c c' : Conn) (f : HttpFrameStream) (b : Bool) → handle c f ≡ ok (c', b) → Keeps c c'
unfolding handle process_stream_window_update_frame
handle-Keeps c c' (HttpFrameStream.data_frame f) b e = process_data_frame-Keeps c c' f b e
handle-Keeps c c' (HttpFrameStream.headers f) b e =
    process_headers-Keeps c c' (f.stream_id) _ (f.headers) b e
handle-Keeps c c' (HttpFrameStream.priority f) b e =
    let q : c ≡ c' = ground (arith, e) in rw (← q) (Keeps-refl c)
handle-Keeps c c' (HttpFrameStream.rst_stream f) b e = rst_stream-Keeps c c' f b e
handle-Keeps c c' (HttpFrameStream.push_promise f) b e = absurd (ground (arith, e))
handle-Keeps c c' (HttpFrameStream.window_update f) b e =
    let found = get_stream_maybe_send_error c (f.stream_id) FrameType.window_update in
    let q : (raise_window f found).0 ≡ c' = ap (λ p. p.0) (ok_injective e) in
    rw (← q) (
      Keeps-trans (get_stream-Keeps c (f.stream_id) FrameType.window_update) (
        raise_window-Keeps (found.0) f (found.1)
          (get_stream-found c (f.stream_id) FrameType.window_update)))

process_stream_frame-Keeps :
    (c c' : Conn) (f : HttpFrameStream) → process_stream_frame c f ≡ ok c' → Keeps c c'
unfolding process_stream_frame
process_stream_frame-Keeps c c' f e =
    elim (Bool-cases (beyond c (get_stream_id f) (c.goaway_sent))) [
      | inl b ↦ let q : c ≡ c' = ground (arith, rw b at e) in rw (← q) (Keeps-refl c)
      | inr b ↦
          let ((c1, found), e1, r) = bind-ok (handle c f) _ c' (rw b at e) in
          Keeps-trans (handle-Keeps c c1 f found e1)
            (ended-Keeps c1 c' (get_stream_id f) (is_end_of_stream f) found r)
    ]

classified-Keeps :
    (c c' : Conn) (f : HttpFrameClassified)
    → is_goaway_class f ≡ false
    → process_classified c f ≡ ok c'
    → Keeps c c'
unfolding process_classified
classified-Keeps c c' (conn_frame f) n e = conn_frame-Keeps c c' f n e
classified-Keeps c c' (stream_frame f) n e = process_stream_frame-Keeps c c' f e
classified-Keeps c c' (unknown_frame f) n e =
    let q : c ≡ c' = ground (arith, e) in rw (← q) (Keeps-refl c)

classified-IsSilent :
    (c c' : Conn) (f : HttpFrameClassified) → process_classified c f ≡ ok c' → IsSilent c c'
unfolding process_classified
classified-IsSilent c c' (conn_frame f) e = conn_frame-IsSilent c c' f e
classified-IsSilent c c' (stream_frame f) e = (process_stream_frame-Keeps c c' f e).silent
classified-IsSilent c c' (unknown_frame f) e = λ _. ground (arith, e)

-- Of a client and of a server the handler of a frame of any type but GOAWAY keeps the map of streams
-- valid, with the set of writable streams in step with it, and the record of the streams closed by
-- the peer valid.
pub process_http_frame-IsValid :
    (c c' : Conn) (f : HttpFrameDecoded)
    → is_goaway_frame f ≡ false
    → process_http_frame c f ≡ ok c'
    → IsValid c
    → IsValid c'
unfolding process_http_frame
process_http_frame-IsValid c c' f n e =
    (classified-Keeps c c' (classify f) (is_goaway-classify f ∙ n) e).valid

-- Of a client and of a server the handler of a frame of any type queues nothing once a GOAWAY frame is
-- queued.
pub process_http_frame-silent :
    (c c' : Conn) (f : HttpFrameDecoded)
    → process_http_frame c f ≡ ok c'
    → c.queued_write.goaway_queued ≡ true
    → c'.queued_write ≡ c.queued_write
unfolding process_http_frame
process_http_frame-silent c c' f e = classified-IsSilent c c' (classify f) e
