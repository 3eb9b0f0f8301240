-- ===== src/Stream/Role.antt =====
-- Which side a stream id belongs to: httpbis/src/client_or_server.rs, httpbis/src/common/init_where.rs
-- and `init_where` of httpbis/src/common/types.rs.
use rust_http.Prelude.{ℕ, ◌%◌, Bool, true, false, ◌==◌, if◌then◌else◌}

pub data ClientOrServer : Type 0 where
  client server : ClientOrServer

pub data InitWhere : Type 0 where
  locally peer : InitWhere

abbrev pub first_stream_id : ClientOrServer → ℕ
first_stream_id client = 1
first_stream_id server = 2

abbrev pub who_initiated_stream : ℕ → ClientOrServer
who_initiated_stream stream_id = if stream_id % 2 == 0 then server else client

abbrev same_side : ClientOrServer → ClientOrServer → Bool
same_side client client = true
same_side server server = true
same_side _ _ = false

-- `T::init_where`, with `T::CLIENT_OR_SERVER` as its argument.
abbrev pub init_where : ClientOrServer → ℕ → InitWhere
init_where me stream_id = if same_side (who_initiated_stream stream_id) me then locally else peer

-- `init_where(stream_id) == InitWhere::Locally`
abbrev pub is_locally : InitWhere → Bool
is_locally locally = true
is_locally peer = false
