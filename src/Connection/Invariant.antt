-- ===== src/Connection/Invariant.antt =====
-- What every handler of a frame keeps: the map of streams and the record of closed ones stay valid,
-- and after a GOAWAY frame was queued nothing else is.
pub mod Handlers
pub mod Changes
pub mod Headers
pub mod Frames
use rust_http.Prelude.{
  ℕ, ◌≡◌, refl, sym, ap, ◌∙◌, arith, List, [], ◌∷◌, Option, none, some, inl, inr, Bool, true, false,
  Bool-cases, Option-cases, if◌then◌else◌, not, ltb,
}
use mathlib.Core.Option
use rust_http.Prelude.Int.{ℤ, pos}
use rust_http.Prelude.Outcome.{
  Outcome, ok, err, panic, diverged, ◌>>=◌, assert, or_panic, ok_or, Ends, Ends-bind, Ends-weaken,
  Any,
}
use rust_http.Error.{Error}
use rust_http.Frame.ErrorCode.{ErrorCode, stream_closed}
use rust_http.Frame.Goaway.{GoawayFrame}
use rust_http.Frame.FrameType.{HttpFrameType}
use rust_http.Hpack.StaticTable.{Header}
use rust_http.Stream.State.{
  StreamState, idle, reserved_local, reserved_remote, open_state, half_closed_remote,
  half_closed_local, closed,
}
use rust_http.Stream.Outgoing.{HttpStreamCommon}
use rust_http.Stream.Map
use rust_http.Stream.Map.{StreamMap, get_mut, remove_stream, lookup}
use rust_http.Stream.Map.Synced as Synced
use rust_http.Stream.Map.Reach as Steps
use rust_http.Stream.Closed
use rust_http.Stream.Closed.{contains}
use rust_http.Stream.Closed.Invariant as ClosedInvariant
use rust_http.Codec.QueuedWrite.{QueuedWrite, queue_not_goaway, queue_goaway}
use rust_http.Connection.{
  Conn, send_frame_and_notify, send_goaway, send_rst_stream, send_error, stream_state,
  get_stream_maybe_send_error, allowed_idle, allowed_closed,
}

pub record IsValid (c : Conn) : Type 0 where
  pub streams : Synced.IsValid (c.streams)
  pub closed : ClosedInvariant.IsValid (c.peer_closed_streams)

-- After the GOAWAY frame the queue stays as it is.
abbrev pub IsSilent : Conn → Conn → Type 0
IsSilent c c' = c.queued_write.goaway_queued ≡ true → c'.queued_write ≡ c.queued_write

pub record Keeps (c c' : Conn) : Type 0 where
  pub valid : IsValid c → IsValid c'
  pub silent : IsSilent c c'

pub Keeps-refl : (c : Conn) → Keeps c c
Keeps-refl c = record { valid = λ v. v; silent = λ _. refl }

pub Keeps-trans : {a b c : Conn} → Keeps a b → Keeps b c → Keeps a c
Keeps-trans k l = record {
  valid = λ v. l.valid (k.valid v);
  silent = λ g. l.silent (rw (k.silent g) g) ∙ k.silent g;
}

queue_not_goaway_silent :
    (q : QueuedWrite) (f : List ℕ → List ℕ) → q.goaway_queued ≡ true → queue_not_goaway q f ≡ q
unfolding queue_not_goaway
queue_not_goaway_silent q f g = rw (queue_not_goaway, g) refl

queue_goaway_silent :
    (q : QueuedWrite) (f : GoawayFrame) → q.goaway_queued ≡ true → queue_goaway q f ≡ q
unfolding queue_goaway
queue_goaway_silent q f g = rw g refl

pub send-Keeps : (c : Conn) (f : List ℕ → List ℕ) → Keeps c (send_frame_and_notify c f)
send-Keeps c f = record {
  valid = λ v. record { streams = v.streams; closed = v.closed };
  silent = λ g. queue_not_goaway_silent (c.queued_write) f g;
}

pub send_goaway-Keeps : (c : Conn) (e : ErrorCode) → Keeps c (send_goaway c e)
send_goaway-Keeps c e = record {
  valid = λ v. record { streams = v.streams; closed = v.closed };
  silent = λ g. queue_goaway_silent (c.queued_write) _ g;
}

-- A step of the map.
pub streams-Keeps :
    (c : Conn) (m : StreamMap (List Header))
    → Steps.Step (c.streams) m
    → Keeps c (record c { streams = m })
streams-Keeps c m step = record {
  valid = λ v. record { streams = Steps.Step-IsValid step (v.streams); closed = v.closed };
  silent = λ _. refl;
}

pub send_rst_stream-Keeps : (c : Conn) (id : ℕ) (e : ErrorCode) → Keeps c (send_rst_stream c id e)
send_rst_stream-Keeps c id e =
    Keeps-trans (streams-Keeps c (remove_stream (c.streams) id) (Steps.removed (c.streams) id))
      (send-Keeps (record c { streams = remove_stream (c.streams) id }) _)

if-Keeps : (c : Conn) (b : Bool) (x y : Conn) → Keeps c x → Keeps c y → Keeps c (if b then x else y)
if-Keeps c true x y k l = k
if-Keeps c false x y k l = l

pub send_error-Keeps :
    (c : Conn) (id : ℕ) (t : HttpFrameType) (state : StreamState)
    → Keeps c (send_error c id t state)
unfolding send_error
send_error-Keeps c id t idle =
    if-Keeps c (allowed_idle t) c _ (Keeps-refl c) (send_goaway-Keeps c stream_closed)
send_error-Keeps c id t half_closed_remote =
    if-Keeps c (allowed_closed t) c _ (Keeps-refl c) (send_rst_stream-Keeps c id stream_closed)
send_error-Keeps c id t closed = if-Keeps c (allowed_closed t) c _ (Keeps-refl c) (
    if-Keeps c (contains (c.peer_closed_streams) id) _ _ (send_goaway-Keeps c stream_closed)
      (send_rst_stream-Keeps c id stream_closed))
send_error-Keeps c id t reserved_local = Keeps-refl c
send_error-Keeps c id t reserved_remote = Keeps-refl c
send_error-Keeps c id t open_state = Keeps-refl c
send_error-Keeps c id t half_closed_local = Keeps-refl c
