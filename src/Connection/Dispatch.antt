-- ===== src/Connection/Dispatch.antt =====
-- From a frame to its handler, httpbis/src/common/conn_read.rs.
use rust_http.Prelude.{
  ℕ, List, Option, none, some, ltb, not, ◌&&◌, Bool, true, false, if◌then◌else◌,
}
use rust_http.Prelude.Outcome.{Outcome, ok, err, ◌>>=◌}
use rust_http.Error.{Error, not_implemented}
use rust_http.Frame.Flags
use rust_http.Frame.Headers
use rust_http.Frame.Headers.{headers_flag}
use rust_http.Frame.Goaway.{GoawayFrame}
use rust_http.Frame.Decoded.{
  HttpFrameDecoded, HttpFrameStream, HttpFrameConn, HttpFrameClassified, stream_frame, conn_frame,
  unknown_frame, get_stream_id, is_end_of_stream, classify,
}
use rust_http.Hpack.StaticTable.{Header}
use rust_http.Stream.Role.{init_where, is_locally}
use rust_http.Stream.Outgoing.{HttpStreamCommon}
use rust_http.Stream.Map
use rust_http.Stream.Map.{get_mut, has_stream}
use rust_http.Connection.{Conn}
use rust_http.Connection.Headers.{process_headers}
use rust_http.Connection.Read.{
  process_data_frame, process_rst_stream_frame, process_stream_window_update_frame,
  process_settings, process_ping, process_goaway, process_conn_window_update, closed_by_peer,
}

unfoldable pub process_conn_frame : Conn → HttpFrameConn → Outcome Error Conn
process_conn_frame c (HttpFrameConn.settings f) = process_settings c f
process_conn_frame c (HttpFrameConn.ping f) = process_ping c f
process_conn_frame c (HttpFrameConn.goaway f) = process_goaway c f
process_conn_frame c (HttpFrameConn.window_update f) = process_conn_window_update c f

-- A frame of a stream of the peer beyond the last stream of a GOAWAY frame that was sent.
abbrev pub beyond : Conn → ℕ → Option GoawayFrame → Bool
beyond c stream_id none = false
beyond c stream_id (some f) =
    not (is_locally (init_where (c.role) stream_id)) && ltb (f.last_stream_id) stream_id

abbrev pub close_found : Conn → ℕ → Option (HttpStreamCommon (List Header)) → Conn
close_found c stream_id none = c
close_found c stream_id (some s) = record c { streams = Map.close_remote (c.streams) stream_id s }

-- What is done after the handler: the stream it gives is closed remotely, where the frame ends it.
unfoldable pub ended : ℕ → Bool → Conn × Bool → Outcome Error Conn
ended stream_id false (c, found) = ok c
ended stream_id true (c, found) =
    closed_by_peer (if found then close_found c stream_id (get_mut (c.streams) stream_id) else c)
      stream_id

unfoldable pub handle : Conn → HttpFrameStream → Outcome Error (Conn × Bool)
handle c (HttpFrameStream.data_frame f) = process_data_frame c f
handle c (HttpFrameStream.headers f) =
    process_headers c (f.stream_id) (Flags.is_set (f.flags) Headers.end_stream) (f.headers)
handle c (HttpFrameStream.priority f) = ok (c, has_stream (get_mut (c.streams) (f.stream_id)))
handle c (HttpFrameStream.rst_stream f) = process_rst_stream_frame c f
handle c (HttpFrameStream.push_promise f) = err not_implemented
handle c (HttpFrameStream.window_update f) = ok (process_stream_window_update_frame c f)

unfoldable pub process_stream_frame : Conn → HttpFrameStream → Outcome Error Conn
process_stream_frame c frame =
    if beyond c (get_stream_id frame) (c.goaway_sent)
    then ok c
    else handle c frame >>= ended (get_stream_id frame) (is_end_of_stream frame)

unfoldable pub process_classified : Conn → HttpFrameClassified → Outcome Error Conn
process_classified c (conn_frame f) = process_conn_frame c f
process_classified c (stream_frame f) = process_stream_frame c f
process_classified c (unknown_frame f) = ok c

unfoldable pub process_http_frame : Conn → HttpFrameDecoded → Outcome Error Conn
process_http_frame c frame = process_classified c (classify frame)
