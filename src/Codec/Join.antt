-- ===== src/Codec/Join.antt =====
-- `HttpFramedJoinContinuationRead` of httpbis/src/codec/http_framed_read.rs: CONTINUATION frames are
-- joined with the HEADERS or PUSH_PROMISE frame before them. After an error the connection is given
-- up, so that an error has no state.
pub mod Polls
pub mod Total
pub mod Blocks
pub mod Whole
use rust_http.Prelude.{
  ℕ, suc, zero, List, length, ◌++◌, Option, none, some, ◌!=◌, Bool, true, false, get_elem?,
  if◌then◌else◌,
}
use rust_http.Prelude.Outcome.{Outcome, ok, err, diverged, ◌>>=◌, or_panic}
use rust_http.Error.{
  Error, expecting_continuation_got, expecting_continuation_got_different_stream_id,
  continuation_frame_without_headers,
}
use rust_http.Frame.Headers
use rust_http.Frame.Headers.{HeadersFrame, headers_flag}
use rust_http.Frame.Flags
use rust_http.Frame.PushPromise
use rust_http.Frame.PushPromise.{PushPromiseFrame, push_promise_flag}
use rust_http.Frame.Continuation
use rust_http.Frame.Continuation.{ContinuationFrame}
use rust_http.Frame.HttpFrame
use rust_http.Frame.HttpFrame.{HttpFrame}
use rust_http.Codec.FramedRead.{poll_http_frame}

pub data ContinuableFrame : Type 0 where
  headers : HeadersFrame → ContinuableFrame
  push_promise : PushPromiseFrame → ContinuableFrame

pub record Continuable : Type 0 where
  pub header_fragment : List ℕ
  pub frame : ContinuableFrame

-- `Continuable::headers` and `Continuable::push_promise`
abbrev pub of_headers : HeadersFrame → Continuable
of_headers header = record { header_fragment = header.header_fragment; frame = headers header }

abbrev pub of_push_promise : PushPromiseFrame → Continuable
of_push_promise p = record { header_fragment = p.header_fragment; frame = push_promise p }

abbrev pub with_fragment : List ℕ → ContinuableFrame → HttpFrame
with_fragment fragment (headers f) = HttpFrame.headers (record f { header_fragment = fragment })
with_fragment fragment (push_promise f) =
    HttpFrame.push_promise (record f { header_fragment = fragment })

abbrev pub into_frame : Continuable → HttpFrame
into_frame c = with_fragment (c.header_fragment) (c.frame)

abbrev pub extend_header_fragment : Continuable → List ℕ → Continuable
extend_header_fragment c bytes = record {
  header_fragment = c.header_fragment ++ bytes;
  frame = c.frame;
}

abbrev pub ended : ContinuableFrame → ContinuableFrame
ended (headers f) = headers (record f { flags = Flags.with (f.flags) Headers.end_headers })
ended (push_promise f) =
    push_promise (record f { flags = Flags.with (f.flags) PushPromise.end_headers })

abbrev pub set_end_headers : Continuable → Continuable
set_end_headers c = record { header_fragment = c.header_fragment; frame = ended (c.frame) }

abbrev pub stream_of : ContinuableFrame → ℕ
stream_of (headers f) = f.stream_id
stream_of (push_promise f) = f.stream_id

abbrev pub get_stream_id : Continuable → ℕ
get_stream_id c = stream_of (c.frame)

-- What a frame leads to: a frame to give back, with nothing left to continue, or a block of headers
-- that goes on.
pub data Joined : Type 0 where
  complete : HttpFrame → Joined
  more : Continuable → Joined

-- `HttpFrame::frame_type` as a number; `none` is the panic on an unknown frame without a header.
abbrev pub frame_type : HttpFrame → Option ℕ
frame_type (HttpFrame.data_frame f) = some 0x0
frame_type (HttpFrame.headers f) = some 0x1
frame_type (HttpFrame.priority f) = some 0x2
frame_type (HttpFrame.rst_stream f) = some 0x3
frame_type (HttpFrame.settings f) = some 0x4
frame_type (HttpFrame.push_promise f) = some 0x5
frame_type (HttpFrame.ping f) = some 0x6
frame_type (HttpFrame.goaway f) = some 0x7
frame_type (HttpFrame.window_update f) = some 0x8
frame_type (HttpFrame.continuation f) = some 0x9
frame_type (HttpFrame.unknown f) = get_elem? (f.raw_content) 3

unfoldable pub continue_with : Continuable → ContinuationFrame → Joined
continue_with h c =
    let extended = extend_header_fragment h (c.header_fragment) in
    if Continuation.is_headers_end c
    then complete (into_frame (set_end_headers extended))
    else more extended

unfoldable pub join : Option Continuable → HttpFrame → Outcome Error Joined
join none (HttpFrame.headers h) =
    if Flags.is_set (h.flags) Headers.end_headers
    then ok (complete (HttpFrame.headers h))
    else ok (more (of_headers h))
join none (HttpFrame.push_promise p) =
    if Flags.is_set (p.flags) PushPromise.end_headers
    then ok (complete (HttpFrame.push_promise p))
    else ok (more (of_push_promise p))
join none (HttpFrame.continuation c) = err continuation_frame_without_headers
join none f = ok (complete f)
join (some h) (HttpFrame.continuation c) =
    if get_stream_id h != c.stream_id
    then err (expecting_continuation_got_different_stream_id (get_stream_id h) (c.stream_id))
    else ok (continue_with h c)
join (some h) f = or_panic (frame_type f) >>= λ t. err (expecting_continuation_got t)

-- What a poll ends in: a frame, or `none` where it is pending, and the state for the next poll.
pub record Polled : Type 0 where
  pub frame : Option HttpFrame
  pub header_opt : Option Continuable
  pub buf : List ℕ

unfoldable pub joined :
    (Option Continuable → List ℕ → Outcome Error Polled) → List ℕ → Joined → Outcome Error Polled
joined loop rest (complete f) = ok (record { frame = some f; header_opt = none; buf = rest })
joined loop rest (more h) = loop (some h) rest

unfoldable pub after :
    (Option Continuable → List ℕ → Outcome Error Polled)
    → Option Continuable
    → List ℕ
    → Option (HttpFrame × List ℕ)
    → Outcome Error Polled
after loop header_opt buf none = ok (record { frame = none; header_opt = header_opt; buf = buf })
after loop header_opt buf (some (f, rest)) = join header_opt f >>= joined loop rest

-- The loop, on fuel.
unfoldable pub poll_loop : ℕ → ℕ → Option Continuable → List ℕ → Outcome Error Polled
poll_loop zero max_frame_size header_opt buf = diverged
poll_loop (suc fuel) max_frame_size header_opt buf =
    poll_http_frame max_frame_size buf >>= after (poll_loop fuel max_frame_size) header_opt buf

-- Each round takes at least nine octets off the buffer.
unfoldable pub poll_joined : ℕ → Option Continuable → List ℕ → Outcome Error Polled
poll_joined max_frame_size header_opt buf =
    poll_loop (suc (length buf)) max_frame_size header_opt buf
