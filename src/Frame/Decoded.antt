-- ===== src/Frame/Decoded.antt =====
-- Frames after their headers were decoded: `HttpFrameDecoded` of httpbis/src/solicit/frame/mod.rs,
-- `HeadersDecodedFrame` of headers.rs, and the classes of httpbis/src/solicit_misc.rs.
use rust_http.Prelude.{ℕ, Option, Bool, true, false, ◌!=◌, if◌then◌else◌}
use rust_http.Frame.Flags
use rust_http.Frame.Flags.{Flags}
use rust_http.Frame.Data
use rust_http.Frame.Data.{DataFrame}
use rust_http.Frame.Headers.{HeadersFlag, StreamDependency, headers_flag, end_stream}
use rust_http.Frame.Priority.{PriorityFrame}
use rust_http.Frame.RstStream.{RstStreamFrame}
use rust_http.Frame.Settings.{SettingsFrame}
use rust_http.Frame.PushPromise.{PushPromiseFrame}
use rust_http.Frame.Ping.{PingFrame}
use rust_http.Frame.Goaway.{GoawayFrame}
use rust_http.Frame.WindowUpdate.{WindowUpdateFrame}
use rust_http.Frame.Raw.{RawFrame}
use rust_http.Message.{Headers}

pub record HeadersDecodedFrame : Type 0 where
  pub flags : Flags HeadersFlag
  pub stream_id : ℕ
  pub headers : Headers
  pub stream_dep : Option StreamDependency
  pub padding_len : ℕ

pub data HttpFrameDecoded : Type 0 where
  data_frame : DataFrame → HttpFrameDecoded
  headers : HeadersDecodedFrame → HttpFrameDecoded
  priority : PriorityFrame → HttpFrameDecoded
  rst_stream : RstStreamFrame → HttpFrameDecoded
  settings : SettingsFrame → HttpFrameDecoded
  push_promise : PushPromiseFrame → HttpFrameDecoded
  ping : PingFrame → HttpFrameDecoded
  goaway : GoawayFrame → HttpFrameDecoded
  window_update : WindowUpdateFrame → HttpFrameDecoded
  unknown : RawFrame → HttpFrameDecoded

-- Frames of a stream.
pub data HttpFrameStream : Type 0 where
  data_frame : DataFrame → HttpFrameStream
  headers : HeadersDecodedFrame → HttpFrameStream
  priority : PriorityFrame → HttpFrameStream
  rst_stream : RstStreamFrame → HttpFrameStream
  push_promise : PushPromiseFrame → HttpFrameStream
  window_update : WindowUpdateFrame → HttpFrameStream

-- Frames of the connection.
pub data HttpFrameConn : Type 0 where
  settings : SettingsFrame → HttpFrameConn
  ping : PingFrame → HttpFrameConn
  goaway : GoawayFrame → HttpFrameConn
  window_update : WindowUpdateFrame → HttpFrameConn

pub data HttpFrameClassified : Type 0 where
  stream_frame : HttpFrameStream → HttpFrameClassified
  conn_frame : HttpFrameConn → HttpFrameClassified
  unknown_frame : RawFrame → HttpFrameClassified

abbrev pub get_stream_id : HttpFrameStream → ℕ
get_stream_id (data_frame f) = f.stream_id
get_stream_id (headers f) = f.stream_id
get_stream_id (priority f) = f.stream_id
get_stream_id (rst_stream f) = f.stream_id
get_stream_id (push_promise f) = f.stream_id
get_stream_id (window_update f) = f.stream_id

abbrev pub is_end_of_stream : HttpFrameStream → Bool
is_end_of_stream (headers f) = Flags.is_set (f.flags) end_stream
is_end_of_stream (data_frame f) = Data.is_end_of_stream f
is_end_of_stream (priority f) = false
is_end_of_stream (window_update f) = false
is_end_of_stream (rst_stream f) = true
is_end_of_stream (push_promise f) = false

-- `HttpFrameClassified::from`
abbrev pub classify : HttpFrameDecoded → HttpFrameClassified
classify (data_frame f) = stream_frame (data_frame f)
classify (headers f) = stream_frame (headers f)
classify (priority f) = stream_frame (priority f)
classify (rst_stream f) = stream_frame (rst_stream f)
classify (settings f) = conn_frame (settings f)
classify (push_promise f) = stream_frame (push_promise f)
classify (ping f) = conn_frame (ping f)
classify (goaway f) = conn_frame (goaway f)
classify (window_update f) =
    if f.stream_id != 0 then stream_frame (window_update f) else conn_frame (window_update f)
classify (unknown f) = unknown_frame f
