-- ===== src/Frame/HttpFrame.antt =====
-- `HttpFrame` (httpbis/src/solicit/frame/mod.rs): a frame of any type.
pub mod RoundTrip
pub mod Total
use rust_http.Prelude.{ℕ, Option, some, ◌==◌, if◌then◌else◌}
use rust_http.Prelude.Outcome.{ok, ◌>>=◌, or_panic}
use rust_http.Frame.Error.{ParseFrameResult}
use rust_http.Frame.Builder.{WriteBuffer}
use rust_http.Frame.Raw
use rust_http.Frame.Raw.{RawFrame}
use rust_http.Frame.Data
use rust_http.Frame.Headers
use rust_http.Frame.Priority
use rust_http.Frame.RstStream
use rust_http.Frame.Settings
use rust_http.Frame.PushPromise
use rust_http.Frame.Ping
use rust_http.Frame.Goaway
use rust_http.Frame.WindowUpdate
use rust_http.Frame.Continuation
use mathlib.Core.Option

pub data HttpFrame : Type 0 where
  data_frame : Data.DataFrame → HttpFrame
  headers : Headers.HeadersFrame → HttpFrame
  priority : Priority.PriorityFrame → HttpFrame
  rst_stream : RstStream.RstStreamFrame → HttpFrame
  settings : Settings.SettingsFrame → HttpFrame
  push_promise : PushPromise.PushPromiseFrame → HttpFrame
  ping : Ping.PingFrame → HttpFrame
  goaway : Goaway.GoawayFrame → HttpFrame
  window_update : WindowUpdate.WindowUpdateFrame → HttpFrame
  continuation : Continuation.ContinuationFrame → HttpFrame
  unknown : RawFrame → HttpFrame

abbrev wrap : {A : Type 0} → (A → HttpFrame) → ParseFrameResult A → ParseFrameResult HttpFrame
wrap c r = r >>= λ f. ok (c f)

-- `HttpFrame::parse_frame` is the `from_raw` of the frame's type.
unfoldable pub parse_typed : ℕ → RawFrame → ParseFrameResult HttpFrame
parse_typed frame_type raw_frame =
    if frame_type == Data.data_frame_type
    then wrap data_frame (Data.from_raw raw_frame)
    else if frame_type == Headers.headers_frame_type
    then wrap headers (Headers.from_raw raw_frame)
    else if frame_type == Priority.priority_frame_type
    then wrap priority (Priority.from_raw raw_frame)
    else if frame_type == RstStream.rst_stream_frame_type
    then wrap rst_stream (RstStream.from_raw raw_frame)
    else if frame_type == Settings.settings_frame_type
    then wrap settings (Settings.from_raw raw_frame)
    else if frame_type == PushPromise.push_promise_frame_type
    then wrap push_promise (PushPromise.from_raw raw_frame)
    else if frame_type == Ping.ping_frame_type
    then wrap ping (Ping.from_raw raw_frame)
    else if frame_type == Goaway.goaway_frame_type
    then wrap goaway (Goaway.from_raw raw_frame)
    else if frame_type == WindowUpdate.window_update_frame_type
    then wrap window_update (WindowUpdate.from_raw raw_frame)
    else if frame_type == Continuation.continuation_frame_type
    then wrap continuation (Continuation.from_raw raw_frame)
    else ok (unknown raw_frame)

unfoldable pub from_raw : RawFrame → ParseFrameResult HttpFrame
from_raw raw_frame = do
  header ← or_panic (Raw.header raw_frame)
  parse_typed header.frame_type raw_frame

-- `none` where `header()` of an unknown frame panics.
abbrev get_stream_id : HttpFrame → Option ℕ
get_stream_id (data_frame f) = some f.stream_id
get_stream_id (headers f) = some f.stream_id
get_stream_id (priority f) = some f.stream_id
get_stream_id (rst_stream f) = some f.stream_id
get_stream_id (settings f) = some 0
get_stream_id (push_promise f) = some f.stream_id
get_stream_id (ping f) = some 0
get_stream_id (goaway f) = some 0
get_stream_id (window_update f) = some f.stream_id
get_stream_id (continuation f) = some f.stream_id
get_stream_id (unknown f) = Option.map (λ h. h.stream_id) (Raw.header f)

-- `none` is a panic.
unfoldable pub serialize_into : HttpFrame → WriteBuffer → Option WriteBuffer
serialize_into (data_frame f) b = some (Data.serialize_into f b)
serialize_into (headers f) b = Headers.serialize_into f b
serialize_into (priority f) b = Priority.serialize_into f b
serialize_into (rst_stream f) b = some (RstStream.serialize_into f b)
serialize_into (settings f) b = some (Settings.serialize_into f b)
serialize_into (push_promise f) b = some (PushPromise.serialize_into f b)
serialize_into (ping f) b = some (Ping.serialize_into f b)
serialize_into (goaway f) b = some (Goaway.serialize_into f b)
serialize_into (window_update f) b = some (WindowUpdate.serialize_into f b)
serialize_into (continuation f) b = some (Continuation.serialize_into f b)
serialize_into (unknown f) b = Raw.serialize_into f b
