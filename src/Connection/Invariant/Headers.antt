-- ===== src/Connection/Invariant/Headers.antt =====
-- The handlers of headers of a client and of a server.
use rust_http.Prelude.{
  ℕ, ◌≡◌, refl, Option, none, some, inl, inr, leb, Bool, true, false, Bool-cases, Option-cases,
}
use rust_http.Prelude.Outcome.{Outcome, ok, err, panic, diverged, or_panic, bind-ok}
use rust_http.Error.{Error}
use rust_http.Window.{new_non_negative, as_i32}
use rust_http.Frame.ErrorCode.{protocol_error}
use rust_http.Frame.FrameType
use rust_http.Stream.Role.{ClientOrServer, client, server, init_where, is_locally}
use rust_http.Stream.Map
use rust_http.Stream.Map.Reach as Steps
use rust_http.Message.{Headers, HeadersPlace, HeaderResult, request, response, validate}
use rust_http.Connection.{
  Conn, Incoming, InMessageStage, set_incoming, new_stream_data, get_stream_maybe_send_error,
  new_stream,
}
use rust_http.Connection.Headers.{
  Looked, refused, place_of, status_1xx, client_accepted, client_validated, client_headers,
  new_stream_from_client, server_accepted, server_validated, server_place, headers_of,
  process_headers,
}
use rust_http.Connection.Invariant.{
  Keeps, Keeps-refl, Keeps-trans, streams-Keeps, send_rst_stream-Keeps,
}
use rust_http.Connection.Invariant.Changes.{ok_injective}
use rust_http.Connection.Invariant.Handlers.{Same-Keeps, get_stream-Keeps}

refused-Keeps : (c : Conn) (id : ℕ) → Keeps c ((refused c id).0)
refused-Keeps c id = send_rst_stream-Keeps c id protocol_error

-- The result of a handler that always gives one.
given-Keeps :
    (c c' : Conn) (b : Bool) (r : Conn × Bool)
    → Path (Outcome Error (Conn × Bool)) (ok r) (ok (c', b))
    → Keeps c (r.0)
    → Keeps c c'
given-Keeps c c' b r e k = let q : r.0 ≡ c' = cc e in rw (← q) k

client_accepted-Keeps :
    (c : Conn) (id : ℕ) (place : HeadersPlace) (hs : Headers) (o : Option Bool)
    → Keeps c ((client_accepted c id place hs o).0)
unfolding client_accepted
client_accepted-Keeps c id place hs none = refused-Keeps c id
client_accepted-Keeps c id place hs (some b) = Same-Keeps c _ (refl, refl, refl)

client_validated-Keeps :
    (c c' : Conn) (id : ℕ) (end_stream : Bool) (hs : Headers) (place : HeadersPlace)
    (r : HeaderResult (Unit {0})) (b : Bool)
    → client_validated c id end_stream hs place r ≡ ok (c', b)
    → Keeps c c'
unfolding client_validated
client_validated-Keeps c c' id end_stream hs place (ok u) b e =
    let (o, _, q) = bind-ok (status_1xx place end_stream hs) _ (c', b) e in
    given-Keeps c c' b (client_accepted c id place hs o) q (client_accepted-Keeps c id place hs o)
client_validated-Keeps c c' id end_stream hs place (err x) b e =
    given-Keeps c c' b (refused c id) e (refused-Keeps c id)
client_validated-Keeps c c' id end_stream hs place panic b e = absurd (cc e)
client_validated-Keeps c c' id end_stream hs place diverged b e = absurd (cc e)

client_headers-Keeps :
    (found : Looked) (c' : Conn) (id : ℕ) (end_stream : Bool) (hs : Headers) (b : Bool)
    → client_headers found id end_stream hs ≡ ok (c', b)
    → Keeps (found.0) c'
unfolding client_headers
client_headers-Keeps (c, none) c' id end_stream hs b e =
    given-Keeps c c' b (c, false) e (Keeps-refl c)
client_headers-Keeps (c, some s) c' id end_stream hs b e =
    let (place, _, q) = bind-ok (place_of ((c.incoming id).in_message_stage)) _ (c', b) e in
    client_validated-Keeps c c' id end_stream hs place (validate hs response place) b q

new_stream_data-Keeps :
    (c c' : Conn) (id : ℕ) (n : Option ℕ) (stage : InMessageStage)
    → new_stream_data c id n stage ≡ ok c'
    → Keeps c c'
unfolding new_stream_data
new_stream_data-Keeps c c' id n stage e =
    let (w, _, q) =
      bind-ok
        (or_panic {E = Error} (new_non_negative (as_i32 (c.our_settings_sent.initial_window_size))))
        _ c' e in
    elim (Option-cases (Map.insert (c.streams) id (new_stream c))) [
      | inl none_left ↦ absurd (cc (rw none_left at q))
      | inr (m, i) ↦
          let i_new : Incoming = record {
            in_window_size = w;
            in_rem_content_length = n;
            in_message_stage = stage;
          } in
          let stored : Conn = record c { streams = m } in
          let r : set_incoming stored id i_new ≡ c' = ok_injective (rw i at q) in
          rw (← r) (
            Keeps-trans (streams-Keeps c m (Steps.inserted (c.streams) m id (new_stream c) i))
              (Same-Keeps stored (set_incoming stored id i_new) (refl, refl, refl)))
    ]

new_stream_from_client-Keeps :
    (c c' : Conn) (id : ℕ) (hs : Headers) → new_stream_from_client c id hs ≡ ok c' → Keeps c c'
unfolding new_stream_from_client
new_stream_from_client-Keeps c c' id hs e =
    elim (Bool-cases (is_locally (init_where (c.role) id))) [
      | inl l ↦ absurd (cc (rw l at e))
      | inr p ↦ elim (Bool-cases (leb id (c.last_peer_stream_id))) [
        | inl old ↦ absurd (cc (rw (p, old) at e))
        | inr new ↦
            let started : Conn = record c { last_peer_stream_id = id } in
            Keeps-trans (Same-Keeps c started (refl, refl, refl))
              (new_stream_data-Keeps started c' id _ _ (rw (p, new) at e))
      ]
    ]

server_accepted-Keeps :
    (found : Looked) (c' : Conn) (id : ℕ) (end_stream : Bool) (hs : Headers) (b : Bool)
    → server_accepted found id end_stream hs ≡ ok (c', b)
    → Keeps (found.0) c'
unfolding server_accepted
server_accepted-Keeps (c, none) c' id end_stream hs b e =
    let (c1, e1, q) = bind-ok (new_stream_from_client c id hs) _ (c', b) e in
    given-Keeps c c' b (c1, true) q (new_stream_from_client-Keeps c c1 id hs e1)
server_accepted-Keeps (c, some s) c' id true hs b e = given-Keeps c c' b (c, true) e (Keeps-refl c)
server_accepted-Keeps (c, some s) c' id false hs b e =
    given-Keeps c c' b (refused c id) e (refused-Keeps c id)

server_validated-Keeps :
    (found : Looked) (c' : Conn) (id : ℕ) (end_stream : Bool) (hs : Headers)
    (r : HeaderResult (Unit {0})) (b : Bool)
    → server_validated found id end_stream hs r ≡ ok (c', b)
    → Keeps (found.0) c'
unfolding server_validated
server_validated-Keeps found c' id end_stream hs (ok u) b e =
    server_accepted-Keeps found c' id end_stream hs b e
server_validated-Keeps found c' id end_stream hs (err x) b e =
    given-Keeps (found.0) c' b (refused (found.0) id) e (refused-Keeps (found.0) id)
server_validated-Keeps found c' id end_stream hs panic b e = absurd (cc e)
server_validated-Keeps found c' id end_stream hs diverged b e = absurd (cc e)

headers_of-Keeps :
    (role : ClientOrServer) (found : Looked) (c' : Conn) (id : ℕ) (end_stream : Bool) (hs : Headers)
    (b : Bool)
    → headers_of role found id end_stream hs ≡ ok (c', b)
    → Keeps (found.0) c'
headers_of-Keeps client found c' id end_stream hs b e =
    client_headers-Keeps found c' id end_stream hs b e
headers_of-Keeps server found c' id end_stream hs b e =
    server_validated-Keeps found c' id end_stream hs (validate hs request (server_place (found.1)))
      b e

pub process_headers-Keeps :
    (c c' : Conn) (id : ℕ) (end_stream : Bool) (hs : Headers) (b : Bool)
    → process_headers c id end_stream hs ≡ ok (c', b)
    → Keeps c c'
unfolding process_headers
process_headers-Keeps c c' id end_stream hs b e =
    Keeps-trans (get_stream-Keeps c id FrameType.headers) (
      headers_of-Keeps (c.role) (get_stream_maybe_send_error c id FrameType.headers) c' id
        end_stream hs b e)
