-- ===== src/Connection/Read.antt =====
-- The handlers of what is received, httpbis/src/common/conn_read.rs. A handler that may give a reference
-- to a stream says whether it does; the stream is then that of the frame. What the user's handlers do
-- with what is received is left out.
use rust_http.Prelude.{
  ℕ, ◌-◌, List, [], ◌∷◌, length, Option, none, some, ltb, ◌==◌, not, Bool, true, false,
  if◌then◌else◌,
}
use rust_http.Prelude.Int.{ℤ, pos, ◌-ℤ◌, ltb_ℤ}
use rust_http.Prelude.Outcome.{Outcome, ok, err, ◌>>=◌, ◌>>◌, assert, or_panic, ok_or}
use rust_http.Error.{
  Error, code_error, conn_in_window_overflow, ping_ack_opaque_data_mismatch, goaway_after_goaway,
}
use rust_http.Window.{try_increase, try_decrease_to_non_negative, as_i32, eq_ℤ, max_window_size}
use rust_http.Frame.ErrorCode.{ErrorCode, flow_control_error, protocol_error}
use rust_http.Frame.FrameType.{HttpFrameType}
use rust_http.Frame.FrameType
use rust_http.Frame.Data
use rust_http.Frame.Data.{DataFrame}
use rust_http.Frame.Headers.{headers_flag}
use rust_http.Frame.RstStream.{RstStreamFrame}
use rust_http.Frame.Settings
use rust_http.Frame.Settings.{
  SettingsFrame, HttpSetting, header_table_size, enable_push, max_concurrent_streams,
  initial_window_size, max_frame_size, max_header_list_size,
}
use rust_http.Frame.Ping
use rust_http.Frame.Ping.{PingFrame}
use rust_http.Frame.Goaway.{GoawayFrame}
use rust_http.Frame.WindowUpdate
use rust_http.Frame.WindowUpdate.{WindowUpdateFrame}
use rust_http.Hpack.StaticTable.{Header}
use rust_http.Stream.Outgoing.{HttpStreamCommon}
use rust_http.Stream.Map
use rust_http.Stream.Map.{StreamMap, get_mut, has_stream}
use rust_http.Stream.Closed
use rust_http.Connection.{
  Conn, Incoming, InMessageStage, after_initial_headers, set_incoming, send_frame_and_notify,
  send_flow_control_error, send_rst_stream, decrease_in_window, get_stream_maybe_send_error,
}

abbrev is_after_initial_headers : InMessageStage → Bool
is_after_initial_headers after_initial_headers = true
is_after_initial_headers _ = false

-- The window of the connection is filled up when less than half of it is left; the increment is to be
-- told to the peer.
unfoldable pub refill : Conn → Outcome Error (Conn × Option ℕ)
refill c =
    if ltb_ℤ (c.in_window_size) (pos 32767)
    then (do
      w ←
          ok_or (try_increase c.in_window_size 65535)
            (conn_in_window_overflow c.in_window_size 65535)
      ok (record c { in_window_size = w }, some 65535))
    else ok (c, none)

-- The data of a stream is within its content length, if it has one.
unfoldable pub receive_octets :
    Conn → DataFrame → Incoming → Outcome Error (Conn × Option ErrorCode)
receive_octets c frame i = do
  assert (is_after_initial_headers i.in_message_stage)
  w ←
      ok_or (try_decrease_to_non_negative i.in_window_size (as_i32 (Data.payload_len frame)))
        (code_error flow_control_error)
  ok (set_incoming c frame.stream_id (record i { in_window_size = w }), none)

-- The body of the loop, for a stream that is there: an error to reset the stream with, if any.
unfoldable pub receive_data :
    Conn → DataFrame → Incoming → Option ℕ → Outcome Error (Conn × Option ErrorCode)
receive_data c frame i none = receive_octets c frame i
receive_data c frame i (some rem) =
    if ltb rem (length (frame.body))
    then ok (c, some protocol_error)
    else receive_octets c frame
        (record i { in_rem_content_length = some (rem - length (frame.body)) })

abbrev pub notify_conn : Conn → Option ℕ → Conn
notify_conn c none = c
notify_conn c (some increment) =
    send_frame_and_notify c (WindowUpdate.serialize_into (WindowUpdate.for_connection increment))

-- The end of the handler, for a stream that was there; without an error it still has to be.
unfoldable pub data_received : ℕ → Option ℕ → Conn × Option ErrorCode → Outcome Error (Conn × Bool)
data_received stream_id increment (c, some error) =
    ok (send_rst_stream (notify_conn c increment) stream_id error, false)
data_received stream_id increment (c, none) = do
  assert (has_stream (get_mut c.streams stream_id))
  ok (notify_conn c increment, true)

-- Without a stream the handler returns at once: the increment of the window is not told to the peer.
unfoldable pub data_for :
    DataFrame
    → Option ℕ
    → Conn × Option (HttpStreamCommon (List Header))
    → Outcome Error (Conn × Bool)
data_for frame increment (c, none) = ok (c, false)
data_for frame increment (c, some s) =
    let i = c.incoming (frame.stream_id) in
    receive_data c frame i (i.in_rem_content_length) >>= data_received (frame.stream_id) increment

unfoldable pub process_data_frame : Conn → DataFrame → Outcome Error (Conn × Bool)
process_data_frame c frame = do
  c ← decrease_in_window c (Data.payload_len frame)
  (c, increment_conn) ← refill c
  data_for frame increment_conn (get_stream_maybe_send_error c frame.stream_id FrameType.data_frame)

unfoldable pub process_ping_ack : Conn → Option ℕ → PingFrame → Outcome Error Conn
process_ping_ack c none frame = ok c
process_ping_ack c (some opaque_data) frame =
    if opaque_data == frame.opaque_data
    then ok (record c { ping_sent = none })
    else err (ping_ack_opaque_data_mismatch opaque_data (frame.opaque_data))

unfoldable pub process_ping : Conn → PingFrame → Outcome Error Conn
process_ping c frame =
    if Ping.is_ack frame
    then process_ping_ack c (c.ping_sent) frame
    else ok (send_frame_and_notify c (Ping.serialize_into (Ping.new_ack (frame.opaque_data))))

unfoldable pub goaway_after : Option GoawayFrame → Outcome Error (Unit {0})
goaway_after none = ok tt
goaway_after (some f) = err goaway_after_goaway

unfoldable pub process_goaway : Conn → GoawayFrame → Outcome Error Conn
process_goaway c frame = do
  goaway_after c.goaway_received
  let removed = Map.remove_local_streams_with_id_gt c.role c.streams frame.last_stream_id
  ok (record c { goaway_received = some frame; streams = removed.1 })

unfoldable pub process_settings_ack : Conn → SettingsFrame → Outcome Error Conn
process_settings_ack c frame =
    assert (Settings.is_ack frame) >> ok (record c { our_settings_ack = c.our_settings_sent })

-- The change of the windows of all streams, if there is one; `none` is its panic.
unfoldable pub change_windows : Conn → ℤ → Outcome Error Conn
change_windows c delta = if eq_ℤ delta (pos 0) then ok c else (do
  streams ← or_panic (Map.add_out_window c.streams delta)
  ok (record c { streams = streams }))

-- What a setting does before it is stored.
unfoldable pub before_setting : Conn → HttpSetting → Outcome Error Conn
before_setting c (initial_window_size new_size) =
    change_windows c (as_i32 new_size -ℤ as_i32 (c.peer_settings.initial_window_size))
before_setting c _ = ok c

-- Too large a window size ends the loop and the handler, with a GOAWAY frame.
abbrev pub too_large : HttpSetting → Bool
too_large (initial_window_size new_size) = ltb max_window_size new_size
too_large _ = false

unfoldable pub apply_settings : Conn → List HttpSetting → Outcome Error Conn
apply_settings c [] = ok (send_frame_and_notify c (Settings.serialize_into Settings.new_ack))
apply_settings c (setting ∷ settings) =
    if too_large setting then ok (send_flow_control_error c) else (do
      c ← before_setting c setting
      apply_settings (record c { peer_settings = Settings.apply c.peer_settings setting }) settings)

unfoldable pub process_settings_req : Conn → SettingsFrame → Outcome Error Conn
process_settings_req c frame =
    assert (not (Settings.is_ack frame)) >> apply_settings c (frame.settings)

unfoldable pub process_settings : Conn → SettingsFrame → Outcome Error Conn
process_settings c frame =
    if Settings.is_ack frame then process_settings_ack c frame else process_settings_req c frame

unfoldable pub window_raised :
    Conn → WindowUpdateFrame → Option (StreamMap (List Header)) → Conn × Bool
window_raised c frame none = (send_rst_stream c (frame.stream_id) flow_control_error, false)
window_raised c frame (some streams) = (record c { streams = streams }, true)

unfoldable pub raise_window :
    WindowUpdateFrame → Conn × Option (HttpStreamCommon (List Header)) → Conn × Bool
raise_window frame (c, none) = (c, false)
raise_window frame (c, some s) =
    window_raised c frame
      (Map.try_increase_window_size (c.streams) (frame.stream_id) s (frame.increment))

unfoldable pub process_stream_window_update_frame : Conn → WindowUpdateFrame → Conn × Bool
process_stream_window_update_frame c frame =
    raise_window frame (get_stream_maybe_send_error c (frame.stream_id) FrameType.window_update)

abbrev pub conn_window_raised : Conn → Option ℤ → Conn
conn_window_raised c none = send_flow_control_error c
conn_window_raised c (some w) = record c { out_window_size = w }

unfoldable pub process_conn_window_update : Conn → WindowUpdateFrame → Outcome Error Conn
process_conn_window_update c frame =
    assert (frame.stream_id == 0)
    >> ok (conn_window_raised c (try_increase (c.out_window_size) (frame.increment)))

unfoldable pub reset_stream : Conn × Option (HttpStreamCommon (List Header)) → ℕ → Conn
reset_stream (c, none) stream_id = c
reset_stream (c, some s) stream_id = record c {
  streams = (Map.rst_received_remove (c.streams) stream_id s).0;
}

-- `peer_closed_streams.add`
unfoldable pub closed_by_peer : Conn → ℕ → Outcome Error Conn
closed_by_peer c stream_id = do
  closed ← or_panic (Closed.add c.peer_closed_streams stream_id)
  ok (record c { peer_closed_streams = closed })

unfoldable pub process_rst_stream_frame : Conn → RstStreamFrame → Outcome Error (Conn × Bool)
process_rst_stream_frame c frame = do
  let c =
      reset_stream (get_stream_maybe_send_error c frame.stream_id FrameType.rst_stream)
        frame.stream_id
  c ← closed_by_peer c frame.stream_id
  ok (c, false)
