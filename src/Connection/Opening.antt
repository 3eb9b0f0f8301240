-- ===== src/Connection/Opening.antt =====
-- The streams that a client opens on a server.
use rust_http.Prelude.{ℕ, ◌<◌, ◌≡◌, some, false}
use rust_http.Prelude.Outcome.{Outcome}
use rust_http.Error.{Error}
use rust_http.Frame.FrameType
use rust_http.Stream.Role.{init_where, is_locally}
use rust_http.Stream.Map
use rust_http.Stream.Map.{get_mut}
use rust_http.Message.{Headers}
use rust_http.Message.Values.{content_length}
use rust_http.Connection.{Conn, new_stream, after_initial_headers}

-- A stream that the peer may open next is opened: it is in the map, empty and open, with the window
-- that the peer's settings say, after its initial headers, and it is the last one of the peer.
abbrev pub Opened : Conn → Conn → ℕ → Headers → Type 0
Opened c c' id headers =
    (is_locally (init_where (c.role) id) ≡ false)
    × (c.last_peer_stream_id < id)
    × (c'.last_peer_stream_id ≡ id)
    × (get_mut (c'.streams) id ≡ some (new_stream c))
    × ((c'.incoming id).in_message_stage ≡ after_initial_headers)
    × ((c'.incoming id).in_rem_content_length ≡ content_length headers)
