-- ===== src/Connection.antt =====
-- The state of a connection, httpbis/src/common/conn.rs. The fields of a stream that only the reading
-- side uses are kept by stream id in `incoming`, of which only the entries of streams in the map are
-- looked at. What is not kept: the socket, the channels, and the windows shared with senders. A
-- function whose result is always `Ok` gives the connection.
pub mod Read
pub mod Headers
pub mod Dispatch
pub mod Invariant
pub mod Write
pub mod InWindow
pub mod StreamIds
pub mod PeerSettings
pub mod Opening
use rust_http.Prelude.{
  ℕ, ◌+◌, ◌%◌, ◌^◌, List, [], Option, none, some, ltb, ◌==◌, not, ◌||◌, ◌&&◌, Bool, true, false,
  if◌then◌else◌,
}
use rust_http.Prelude.Int.{ℤ, pos}
use rust_http.Prelude.Outcome.{Outcome, ok, err, ◌>>=◌, ◌>>◌, assert, or_panic, ok_or}
use rust_http.Error.{Error, window_size_overflow, stream_in_window_overflow}
use rust_http.Window.{try_increase, try_decrease_to_non_negative, new_non_negative, as_i32}
use rust_http.Frame.ErrorCode.{ErrorCode, flow_control_error, stream_closed}
use rust_http.Frame.FrameType.{
  HttpFrameType, data_frame, headers, priority, rst_stream, settings, push_promise, ping, goaway,
  window_update, continuation,
}
use rust_http.Frame.RstStream
use rust_http.Frame.Goaway
use rust_http.Frame.Goaway.{GoawayFrame}
use rust_http.Frame.WindowUpdate
use rust_http.Frame.Settings.{HttpSettings, HttpSetting}
use rust_http.Frame.Settings
use rust_http.Hpack.StaticTable.{Header}
use rust_http.Hpack.Encoder
use rust_http.Hpack.Encoder.{Encoder}
use rust_http.Stream.State.{
  StreamState, idle, reserved_local, reserved_remote, open_state, half_closed_remote,
  half_closed_local, closed,
}
use rust_http.Stream.Role.{ClientOrServer, InitWhere, locally, peer, init_where, first_stream_id}
use rust_http.Stream.Queue
use rust_http.Stream.Outgoing.{HttpStreamCommon}
use rust_http.Stream.Map
use rust_http.Stream.Map.{StreamMap, get_mut, get_stream_state, remove_stream}
use rust_http.Stream.Closed
use rust_http.Stream.Closed.{ClosedStreams, contains}
use rust_http.Codec.QueuedWrite
use rust_http.Codec.QueuedWrite.{QueuedWrite, queue_not_goaway, queue_goaway}

pub data InMessageStage : Type 0 where
  initial after_initial_headers after_trailing_headers : InMessageStage

-- The fields of `HttpStreamCommon` of the reading side.
pub record Incoming : Type 0 where
  pub in_window_size : ℤ
  pub in_rem_content_length : Option ℕ
  pub in_message_stage : InMessageStage

pub record Conn : Type 0 where
  pub role : ClientOrServer
  pub streams : StreamMap (List Header)
  pub incoming : ℕ → Incoming
  pub peer_closed_streams : ClosedStreams
  pub last_local_stream_id : ℕ
  pub last_peer_stream_id : ℕ
  pub goaway_sent : Option GoawayFrame
  pub goaway_received : Option GoawayFrame
  pub ping_sent : Option ℕ
  pub out_window_size : ℤ
  pub in_window_size : ℤ
  pub queued_write : QueuedWrite
  pub encoder : Encoder
  pub peer_settings : HttpSettings
  pub our_settings_ack : HttpSettings
  pub our_settings_sent : HttpSettings

abbrev pub default_settings : HttpSettings
default_settings = record {
  header_table_size = 4096;
  enable_push = true;
  max_concurrent_streams = 0xffff_ffff;
  initial_window_size = 65535;
  max_frame_size = 16384;
  max_header_list_size = 0xffff_ffff;
}

-- The connection that `init` starts with.
abbrev pub init : ClientOrServer → Conn
init role = record {
  role = role;
  streams = Map.new;
  incoming = λ _. record {
    in_window_size = pos 0;
    in_rem_content_length = none;
    in_message_stage = initial;
  };
  peer_closed_streams = Closed.new;
  last_local_stream_id = 0;
  last_peer_stream_id = 0;
  goaway_sent = none;
  goaway_received = none;
  ping_sent = none;
  out_window_size = pos 65535;
  in_window_size = pos 65535;
  queued_write = QueuedWrite.new;
  encoder = Encoder.new;
  peer_settings = default_settings;
  our_settings_ack = default_settings;
  our_settings_sent = Settings.apply default_settings (Settings.enable_push false);
}

abbrev pub set_incoming : Conn → ℕ → Incoming → Conn
set_incoming c id i = record c { incoming = λ j. if j == id then i else c.incoming j }

-- The frame is given as the function that serializes it.
abbrev pub send_frame_and_notify : Conn → (List ℕ → List ℕ) → Conn
send_frame_and_notify c frame = record c { queued_write = queue_not_goaway (c.queued_write) frame }

abbrev pub send_goaway : Conn → ErrorCode → Conn
send_goaway c error_code = record c {
  queued_write = queue_goaway (c.queued_write) (Goaway.new (c.last_peer_stream_id) error_code);
}

abbrev pub send_flow_control_error : Conn → Conn
send_flow_control_error c = send_goaway c flow_control_error

abbrev pub send_rst_stream : Conn → ℕ → ErrorCode → Conn
send_rst_stream c stream_id error_code =
    send_frame_and_notify (record c { streams = remove_stream (c.streams) stream_id })
      (RstStream.serialize_into (RstStream.new stream_id error_code))

abbrev pub next_local_stream_id : Conn → ℕ × Conn
next_local_stream_id c =
    let id : ℕ =
      if c.last_local_stream_id == 0
      then first_stream_id (c.role)
      else (c.last_local_stream_id + 2) % 2 ^ 32 in
    (id, record c { last_local_stream_id = id })

abbrev pub new_stream : Conn → HttpStreamCommon (List Header)
new_stream c = record {
  state = open_state;
  out_window_size = as_i32 (c.peer_settings.initial_window_size);
  outgoing = Queue.new;
}

-- `HttpStreamCommon::new` and `StreamMap::insert`; it panics on the assertion on the window, and on a
-- stream that exists.
unfoldable pub new_stream_data : Conn → ℕ → Option ℕ → InMessageStage → Outcome Error Conn
new_stream_data c stream_id in_rem_content_length in_message_stage = do
  in_window ← or_panic (new_non_negative (as_i32 c.our_settings_sent.initial_window_size))
  streams ← or_panic (Map.insert c.streams stream_id (new_stream c))
  ok (
      set_incoming (record c { streams = streams }) stream_id
        (record {
          in_window_size = in_window;
          in_rem_content_length = in_rem_content_length;
          in_message_stage = in_message_stage;
        }))

pub decrease_in_window : Conn → ℕ → Outcome Error Conn
decrease_in_window c size =
    assert (ltb size 0x8000_0000)
    >> (ok_or (try_decrease_to_non_negative (c.in_window_size) (as_i32 size)) window_size_overflow
        >>= λ w. ok (record c { in_window_size = w }))

-- `stream_state_idle_or_closed` with the conversion to a stream state.
unfoldable pub last_stream_id : Conn → InitWhere → ℕ
last_stream_id c locally = c.last_local_stream_id
last_stream_id c peer = c.last_peer_stream_id

abbrev pub stream_state_idle_or_closed : Conn → ℕ → StreamState
stream_state_idle_or_closed c stream_id =
    if ltb (last_stream_id c (init_where (c.role) stream_id)) stream_id then idle else closed

abbrev pub state_or : Option StreamState → StreamState → StreamState
state_or (some state) other = state
state_or none other = other

abbrev pub stream_state : Conn → ℕ → StreamState
stream_state c stream_id =
    state_or (get_stream_state (c.streams) stream_id) (stream_state_idle_or_closed c stream_id)

abbrev pub allowed_idle : HttpFrameType → Bool
allowed_idle headers = true
allowed_idle priority = true
allowed_idle push_promise = true
allowed_idle _ = false

-- The frames that a side that is closed remotely still takes.
abbrev pub allowed_closed : HttpFrameType → Bool
allowed_closed window_update = true
allowed_closed priority = true
allowed_closed rst_stream = true
allowed_closed _ = false

unfoldable pub send_error : Conn → ℕ → HttpFrameType → StreamState → Conn
send_error c stream_id frame_type idle =
    if allowed_idle frame_type then c else send_goaway c stream_closed
send_error c stream_id frame_type half_closed_remote =
    if allowed_closed frame_type then c else send_rst_stream c stream_id stream_closed
send_error c stream_id frame_type closed =
    if allowed_closed frame_type
    then c
    else if contains (c.peer_closed_streams) stream_id
    then send_goaway c stream_closed
    else send_rst_stream c stream_id stream_closed
send_error c stream_id frame_type _ = c

unfoldable pub get_stream_maybe_send_error :
    Conn → ℕ → HttpFrameType → Conn × Option (HttpStreamCommon (List Header))
get_stream_maybe_send_error c stream_id frame_type =
    let c = send_error c stream_id frame_type (stream_state c stream_id) in
    (c, get_mut (c.streams) stream_id)

-- The window of the stream raised, which the peer is told.
pub raised : Conn → ℕ → ℕ → Option ℤ → Outcome Error Conn
raised c stream_id increase none =
    err (stream_in_window_overflow stream_id ((c.incoming stream_id).in_window_size) increase)
raised c stream_id increase (some w) = ok (
    send_frame_and_notify
      (set_incoming c stream_id (record (c.incoming stream_id) { in_window_size = w }))
      (WindowUpdate.serialize_into (WindowUpdate.for_stream stream_id increase)))

pub increase_in_window : Conn → ℕ → ℕ → Outcome Error Conn
increase_in_window c stream_id increase =
    if Map.has_stream (get_mut (c.streams) stream_id)
    then raised c stream_id increase (try_increase ((c.incoming stream_id).in_window_size) increase)
    else ok c
