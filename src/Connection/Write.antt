-- ===== src/Connection/Write.antt =====
-- What is written, httpbis/src/common/conn_write.rs: commands of streams become frames in the queue.
-- Data that is not sent yet is what is left of it, in place of a position in all of it. The loop of
-- `write_part_data` has fuel, and `diverged` where it runs out.
pub mod Data
use rust_http.Prelude.{
  ℕ, zero, suc, List, [], ◌∷◌, length, take, drop, Option, none, some, leb, ltb, ◌==◌, ◌&&◌, Bool,
  true, false, if◌then◌else◌,
}
use rust_http.Prelude.Int.{ℤ}
use rust_http.Prelude.Outcome.{Outcome, ok, err, panic, diverged, ◌>>=◌, ◌>>◌, or_panic}
use mathlib.Core.Option
use rust_http.Error.{Error}
use rust_http.Frame.ErrorCode.{ErrorCode}
use rust_http.Frame.Flags
use rust_http.Frame.Flags.{Flags}
use rust_http.Frame.Data as DataFrames
use rust_http.Frame.Data.{DataFrame}
use rust_http.Frame.Headers
use rust_http.Frame.Headers.{HeadersFlag, headers_flag}
use rust_http.Frame.HeadersMulti
use rust_http.Frame.HeadersMulti.{HeadersMultiFrame, Run}
use rust_http.Frame.RstStream
use rust_http.Hpack.StaticTable.{Header}
use rust_http.Hpack.Encoder.{Encoder}
use rust_http.Stream.Queue.{DataOrHeaders}
use rust_http.Stream.Outgoing.{
  HttpStreamCommon, HttpStreamCommand, headers_command, data_command, rst,
}
use rust_http.Stream.Map
use rust_http.Stream.Map.{StreamMap, get_mut, pop_outg_maybe_remove, has_stream, PoppedFrom}
use rust_http.Codec.QueuedWrite
use rust_http.Codec.QueuedWrite.{QueuedWrite, queue_not_goaway, queued_bytes_len}
use rust_http.Connection.{Conn, increase_in_window}

-- A frame of data, with END_STREAM where it is asked for.
abbrev pub data_frame : ℕ → List ℕ → Bool → DataFrame
data_frame stream_id piece end_stream =
    if end_stream
    then DataFrames.set_flag (DataFrames.with_data stream_id piece) DataFrames.end_stream
    else DataFrames.with_data stream_id piece

abbrev pub queue_data : QueuedWrite → ℕ → List ℕ → Bool → QueuedWrite
queue_data q stream_id piece end_stream =
    queue_not_goaway q (DataFrames.serialize_into (data_frame stream_id piece end_stream))

-- `end == data.len()`
unfoldable pub is_last : ℕ → List ℕ → Bool
is_last max_frame_size octets = leb (length octets) max_frame_size

-- The loop, on the data that is left.
unfoldable pub write_pieces : ℕ → ℕ → ℕ → Bool → QueuedWrite → List ℕ → Run QueuedWrite
write_pieces fuel max_frame_size stream_id end_stream q [] = ok q
write_pieces zero max_frame_size stream_id end_stream q (x ∷ octets) = diverged
write_pieces (suc fuel) max_frame_size stream_id end_stream q (x ∷ octets) =
    write_pieces fuel max_frame_size stream_id end_stream
      (queue_data q stream_id (take max_frame_size (x ∷ octets))
        (is_last max_frame_size (x ∷ octets) && end_stream))
      (drop max_frame_size (x ∷ octets))

-- With an empty frame where the data is empty and the stream ends.
unfoldable pub queue_pieces : ℕ → ℕ → Bool → QueuedWrite → List ℕ → Run QueuedWrite
queue_pieces max_frame_size stream_id true q [] = ok (queue_data q stream_id [] true)
queue_pieces max_frame_size stream_id end_stream q octets =
    write_pieces (length octets) max_frame_size stream_id end_stream q octets

unfoldable pub write_part_data : Conn → ℕ → List ℕ → Bool → Run Conn
write_part_data c stream_id octets end_stream = do
  q ← queue_pieces c.peer_settings.max_frame_size stream_id end_stream c.queued_write octets
  ok (record c { queued_write = q })

-- What `write_part_headers` queues.
abbrev pub headers_block : Conn → ℕ → List Header → Bool → HeadersMultiFrame
headers_block c stream_id headers end_stream = record {
  flags = if end_stream then Flags.with Flags.default Headers.end_stream else Flags.default;
  stream_id = stream_id;
  headers = headers;
  stream_dep = none;
  padding_len = 0;
  max_frame_size = c.peer_settings.max_frame_size;
}

-- After a GOAWAY frame the headers are not encoded either.
unfoldable pub write_part_headers : Conn → ℕ → List Header → Bool → Run Conn
write_part_headers c stream_id headers end_stream =
    if c.queued_write.goaway_queued then ok c else (do
      (encoder, buf) ←
          HeadersMulti.serialize_into (headers_block c stream_id headers end_stream) c.encoder
            c.queued_write.buf
      ok (record c { encoder = encoder; queued_write = record c.queued_write { buf = buf } }))

abbrev pub write_part_rst : Conn → ℕ → ErrorCode → Conn
write_part_rst c stream_id error_code = record c {
  queued_write =
      queue_not_goaway (c.queued_write)
        (RstStream.serialize_into (RstStream.new stream_id error_code));
}

unfoldable pub write_part : Conn → ℕ → HttpStreamCommand (List Header) → Run Conn
write_part c stream_id (data_command octets end_stream) =
    write_part_data c stream_id octets end_stream
write_part c stream_id (headers_command headers end_stream) =
    write_part_headers c stream_id headers end_stream
write_part c stream_id (rst error_code) = ok (write_part_rst c stream_id error_code)

abbrev pub has_write_buffer_capacity : Conn → Bool
has_write_buffer_capacity c = ltb (queued_bytes_len (c.queued_write)) 0x8000

-- The connection after the step of the stream, the command if there is one, and whether the stream is
-- still there. `none` is a panic: of `unwrap` on the stream, of a check, or of the step.
abbrev pub Command : Type 0
Command = Conn × Option (HttpStreamCommand (List Header)) × Bool

abbrev pub after_pop : Conn → PoppedFrom (List Header) → Command
after_pop c r = (record c { streams = r.0.0; out_window_size = r.1 }, r.2, has_stream (r.0.1))

unfoldable pub pop_outg_for_stream : Conn → ℕ → Option Command
pop_outg_for_stream c stream_id = Option.bind (get_mut (c.streams) stream_id) (λ s.
    Option.map (after_pop c) (pop_outg_maybe_remove (c.streams) stream_id s (c.out_window_size)))

unfoldable pub process_stream_end : Conn → ℕ → ErrorCode → Conn
process_stream_end c stream_id error_code = elim (get_mut (c.streams) stream_id) [
  | none ↦ c
  | some s ↦ record c { streams = Map.close_outgoing (c.streams) stream_id s error_code }
]

unfoldable pub process_stream_enqueue : Conn → ℕ → DataOrHeaders (List Header) → Bool → Conn
process_stream_enqueue c stream_id content last = elim (get_mut (c.streams) stream_id) [
  | none ↦ c
  | some s ↦ record c { streams = Map.push_back_part (c.streams) stream_id s content last }
]
