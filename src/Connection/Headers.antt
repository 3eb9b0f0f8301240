-- ===== src/Connection/Headers.antt =====
-- `process_headers` of httpbis/src/client/conn.rs and httpbis/src/server/conn.rs. What the handlers
-- of the user do with the headers does not touch the connection: their results are dropped, and a
-- panic of the server's handler is caught.
use rust_http.Prelude.{ℕ, List, Option, none, some, leb, ◌&&◌, Bool, true, false, if◌then◌else◌}
use rust_http.Prelude.Outcome.{Outcome, ok, err, panic, diverged, ◌>>=◌, or_panic}
use rust_http.Error.{
  Error, internal_error, initiated_stream_with_server_id_from_client, stream_id_le_existing_stream,
}
use rust_http.Frame.ErrorCode.{protocol_error}
use rust_http.Frame.FrameType
use rust_http.Hpack.StaticTable.{Header}
use rust_http.Stream.Role.{ClientOrServer, client, server, init_where, is_locally}
use rust_http.Stream.Outgoing.{HttpStreamCommon}
use rust_http.Message
use rust_http.Message.{Headers, HeadersPlace, HeaderResult, request, response, validate}
use rust_http.Message.Values.{status, content_length}
use rust_http.Connection
use rust_http.Connection.{
  Conn, Incoming, InMessageStage, set_incoming, send_rst_stream, new_stream_data,
  get_stream_maybe_send_error,
}

-- A stream that was looked up, after the connection answered for one that is not there.
abbrev pub Looked : Type 0
Looked = Conn × Option (HttpStreamCommon (List Header))

abbrev pub refused : Conn → ℕ → Conn × Bool
refused c stream_id = (send_rst_stream c stream_id protocol_error, false)

-- The place of headers of a stream of the client.
abbrev pub place_of : InMessageStage → Outcome Error HeadersPlace
place_of Connection.initial = ok Message.initial
place_of Connection.after_initial_headers = ok Message.trailing
place_of Connection.after_trailing_headers = err internal_error

abbrev pub is_1xx : ℕ → Bool
is_1xx n = leb 100 n && leb n 199

-- Whether the status is 1xx; `none` where the stream is reset.
unfoldable pub status_1xx : HeadersPlace → Bool → Headers → Outcome Error (Option Bool)
status_1xx Message.initial end_stream headers =
    or_panic (status headers) >>= λ n. ok (if is_1xx n && end_stream then none else some (is_1xx n))
status_1xx Message.trailing end_stream headers = ok (if end_stream then some false else none)

abbrev pub stage_after : HeadersPlace → Bool → InMessageStage
stage_after Message.initial false = Connection.after_initial_headers
stage_after Message.initial true = Connection.initial
stage_after Message.trailing _ = Connection.after_trailing_headers

abbrev pub with_content_length : Incoming → Option ℕ → Incoming
with_content_length i none = i
with_content_length i (some n) = record i { in_rem_content_length = some n }

unfoldable pub client_accepted : Conn → ℕ → HeadersPlace → Headers → Option Bool → Conn × Bool
client_accepted c stream_id place headers none = refused c stream_id
client_accepted c stream_id place headers (some is_1xx) = (
  set_incoming c stream_id
      (record (with_content_length (c.incoming stream_id) (content_length headers)) {
        in_message_stage = stage_after place is_1xx;
      }),
  true,
)

unfoldable pub client_validated :
    Conn → ℕ → Bool → Headers → HeadersPlace → HeaderResult (Unit {0}) → Outcome Error (Conn × Bool)
client_validated c stream_id end_stream headers place (ok _) =
    status_1xx place end_stream headers >>= λ is_1xx.
    ok (client_accepted c stream_id place headers is_1xx)
client_validated c stream_id end_stream headers place (err e) = ok (refused c stream_id)
client_validated c stream_id end_stream headers place panic = panic
client_validated c stream_id end_stream headers place diverged = diverged

unfoldable pub client_headers : Looked → ℕ → Bool → Headers → Outcome Error (Conn × Bool)
client_headers (c, none) stream_id end_stream headers = ok (c, false)
client_headers (c, some s) stream_id end_stream headers =
    place_of ((c.incoming stream_id).in_message_stage) >>= λ place.
    client_validated c stream_id end_stream headers place (validate headers response place)

unfoldable pub new_stream_from_client : Conn → ℕ → Headers → Outcome Error Conn
new_stream_from_client c stream_id headers =
    if is_locally (init_where (c.role) stream_id)
    then err (initiated_stream_with_server_id_from_client stream_id)
    else if leb stream_id (c.last_peer_stream_id)
    then err (stream_id_le_existing_stream stream_id (c.last_peer_stream_id))
    else new_stream_data (record c { last_peer_stream_id = stream_id }) stream_id
        (content_length headers) Connection.after_initial_headers

unfoldable pub server_accepted : Looked → ℕ → Bool → Headers → Outcome Error (Conn × Bool)
server_accepted (c, none) stream_id end_stream headers =
    new_stream_from_client c stream_id headers >>= λ c. ok (c, true)
server_accepted (c, some s) stream_id end_stream headers =
    ok (if end_stream then (c, true) else refused c stream_id)

unfoldable pub server_validated :
    Looked → ℕ → Bool → Headers → HeaderResult (Unit {0}) → Outcome Error (Conn × Bool)
server_validated found stream_id end_stream headers (ok _) =
    server_accepted found stream_id end_stream headers
server_validated found stream_id end_stream headers (err e) = ok (refused (found.0) stream_id)
server_validated found stream_id end_stream headers panic = panic
server_validated found stream_id end_stream headers diverged = diverged

-- The place of headers of a stream of the server.
abbrev pub server_place : Option (HttpStreamCommon (List Header)) → HeadersPlace
server_place none = Message.initial
server_place (some s) = Message.trailing

abbrev pub server_headers : Looked → ℕ → Bool → Headers → Outcome Error (Conn × Bool)
server_headers found stream_id end_stream headers =
    server_validated found stream_id end_stream headers
      (validate headers request (server_place (found.1)))

abbrev pub headers_of : ClientOrServer → Looked → ℕ → Bool → Headers → Outcome Error (Conn × Bool)
headers_of client = client_headers
headers_of server = server_headers

-- What is given is the connection, and whether the stream is given with it.
unfoldable pub process_headers : Conn → ℕ → Bool → Headers → Outcome Error (Conn × Bool)
process_headers c stream_id end_stream headers =
    headers_of (c.role) (get_stream_maybe_send_error c stream_id FrameType.headers) stream_id
      end_stream headers
