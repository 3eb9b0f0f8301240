-- ===== src/Codec/QueuedWrite.antt =====
-- `QueuedWrite` of httpbis/src/codec/queued_write.rs, with the buffer of `HttpFramedWrite` of
-- httpbis/src/codec/http_framed_write.rs: the octets that are to be written. A frame is given as the
-- function that serializes it. Flushing to the socket takes octets off the front, and is left out.
use rust_http.Prelude.{ℕ, [], length, Bool, true, false, ◌&&◌, ◌==◌, if◌then◌else◌}
use rust_http.Frame.Builder.{WriteBuffer}
use rust_http.Frame.Goaway
use rust_http.Frame.Goaway.{GoawayFrame}

pub record QueuedWrite : Type 0 where
  pub buf : WriteBuffer
  pub goaway_queued : Bool

abbrev pub new : QueuedWrite
new = record { buf = []; goaway_queued = false }

abbrev pub queued_bytes_len : QueuedWrite → ℕ
queued_bytes_len q = length (q.buf)

unfoldable pub queue_not_goaway : QueuedWrite → (WriteBuffer → WriteBuffer) → QueuedWrite
queue_not_goaway q serialize_into =
    if q.goaway_queued then q else record q { buf = serialize_into (q.buf) }

-- The frame is queued behind what is queued already.
unfoldable pub queue_goaway : QueuedWrite → GoawayFrame → QueuedWrite
queue_goaway q frame =
    if q.goaway_queued
    then q
    else record { buf = Goaway.serialize_into frame (q.buf); goaway_queued = true }

abbrev pub goaway_queued_and_flushed : QueuedWrite → Bool
goaway_queued_and_flushed q = q.goaway_queued && (queued_bytes_len q == 0)
