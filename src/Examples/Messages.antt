-- ===== src/Examples/Messages.antt =====
-- Headers of messages at concrete inputs.
use rust_http.Prelude.{◌≡◌, refl, none, [], ◌∷◌, take}
use rust_http.Prelude.Outcome.{ok}
use rust_http.Message
use rust_http.Message.{Header, pseudo, regular, method, scheme, path, request, initial, validate}
use rust_http.Prelude.Int.{pos}
use rust_http.Stream.Role.{server}
use mathlib.Core.Option
use rust_http.Window
use rust_http.Stream.Map
use rust_http.Stream.Outgoing
use rust_http.Stream.Closed
use rust_http.Message.Values
use rust_http.Connection.Headers
use rust_http.Connection
use rust_http.Connection.{Conn, init, new_stream, set_incoming}
use rust_http.Message.Accepted.{Allowed, validate-Allowed}

-- A request for `/a`.
abbrev some_request : Message.Headers
some_request = record {
  headers =
      record { name = pseudo method; value = 71 ∷ 69 ∷ 84 ∷ [] }
      ∷ record { name = pseudo path; value = 47 ∷ 97 ∷ [] }
      ∷ record { name = pseudo scheme; value = 104 ∷ 116 ∷ 116 ∷ 112 ∷ [] }
      ∷ record {
        name = regular (116 ∷ 101 ∷ []);
        value = 116 ∷ 114 ∷ 97 ∷ 105 ∷ 108 ∷ 101 ∷ 114 ∷ 115 ∷ [];
      }
      ∷ [];
  pseudo_count = 3;
}

some_request-validated : validate some_request request initial ≡ ok tt
unfolding validate Message.check_pseudos Message.check_pseudo Message.validate_header
    Message.same_octets Message.check_regulars Message.check_required
some_request-validated = refl

validate-Allowed_example : Allowed request initial (take 3 (some_request.headers))
validate-Allowed_example = validate-Allowed some_request request initial some_request-validated

-- The connection of a server at its start, and after the request on stream 1.
abbrev started : Conn
started = init server

abbrev requested : Conn
requested =
    set_incoming
      (record started {
        streams = record { map = (1, new_stream started) ∷ []; writable_streams = [] };
        last_peer_stream_id = 1;
      })
      1
      (record {
        in_window_size = pos 65535;
        in_rem_content_length = none;
        in_message_stage = Connection.after_initial_headers;
      })
