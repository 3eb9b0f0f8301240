-- ===== src/Frame/HttpFrame/Total.antt =====
-- No parser of a frame runs on: each gives a frame, an error, or panics.
use rust_http.Prelude.{
  [], ◌∷◌, ◌≢◌, arith, List, Bool, true, false, ℕ, bit_and, ◌!=◌, if◌then◌else◌, Option-cases, inl,
  inr,
}
use rust_http.Prelude.Outcome.{diverged, bind_ends, or_panic_ends, reject_if_ends, ok_ends}
use rust_http.Frame.Error.{ParseFrameResult}
use rust_http.Frame.Padding.{parse_padded_payload}
use rust_http.Frame.Raw
use rust_http.Frame.Raw.{RawFrame}
use rust_http.Frame.Data
use rust_http.Frame.Headers
use rust_http.Frame.Priority
use rust_http.Frame.RstStream
use rust_http.Frame.Settings
use rust_http.Frame.PushPromise
use rust_http.Frame.Ping
use rust_http.Frame.Goaway
use rust_http.Frame.WindowUpdate
use rust_http.Frame.Continuation
use rust_http.Frame.HttpFrame.{
  HttpFrame, data_frame, headers, priority, rst_stream, settings, push_promise, ping, goaway,
  window_update, continuation, wrap, parse_typed, from_raw,
}

data_ends : (raw : RawFrame) → Data.from_raw raw ≢ diverged
unfolding Data.from_raw parse_padded_payload
data_ends raw = λ e. ground (arith, e)

headers_ends : (raw : RawFrame) → Headers.from_raw raw ≢ diverged
unfolding Headers.from_raw parse_padded_payload Headers.split_dependency
headers_ends raw = λ e. ground (arith, e)

priority_ends : (raw : RawFrame) → Priority.from_raw raw ≢ diverged
unfolding Priority.from_raw
priority_ends raw = λ e. ground (arith, e)

rst_stream_ends : (raw : RawFrame) → RstStream.from_raw raw ≢ diverged
unfolding RstStream.from_raw
rst_stream_ends raw = λ e. ground (arith, e)

from_id_ends : (id val : ℕ) → Settings.from_id id val ≢ diverged
unfolding Settings.from_id
from_id_ends id val = λ e. ground (arith, e)

parse_chunks_ends : (payload : List ℕ) → Settings.parse_chunks payload ≢ diverged
unfolding Settings.parse_chunks Settings.parse_setting
parse_chunks_ends [] = (ok_ends _)
parse_chunks_ends (i0 ∷ i1 ∷ v0 ∷ v1 ∷ v2 ∷ v3 ∷ rest) =
    bind_ends (bind_ends (or_panic_ends _) (λ val. from_id_ends _ val))
      (λ _. bind_ends (parse_chunks_ends rest) (λ _. (ok_ends _)))
parse_chunks_ends _ = λ e. cc e

read_settings_ends :
    (b : Bool) (n : ℕ) (payload : List ℕ) → Settings.read_settings b n payload ≢ diverged
unfolding Settings.read_settings Settings.parse_payload
read_settings_ends true n payload = bind_ends (reject_if_ends _ _) (λ _. (ok_ends _))
read_settings_ends false n payload = bind_ends (reject_if_ends _ _) (λ _. parse_chunks_ends payload)

settings_ends : (raw : RawFrame) → Settings.from_raw raw ≢ diverged
unfolding Settings.from_raw
settings_ends raw = elim (Option-cases (Raw.payload raw)) [
  | inl n ↦ λ e. ground (arith, e, n)
  | inr p ↦ elim (Option-cases (Raw.header raw)) [
    | inl n ↦ λ e. ground (arith, e, n)
    | inr h ↦ λ e. ground (
      arith,
      e,
      p.1,
      h.1,
      read_settings_ends (bit_and h.0.flags (Settings.bitmask Settings.ack) != 0) (h.0.payload_len)
          (p.0),
    )
  ]
]

push_promise_ends : (raw : RawFrame) → PushPromise.from_raw raw ≢ diverged
unfolding PushPromise.from_raw parse_padded_payload
push_promise_ends raw = λ e. ground (arith, e)

ping_ends : (raw : RawFrame) → Ping.from_raw raw ≢ diverged
unfolding Ping.from_raw
ping_ends raw = λ e. ground (arith, e)

goaway_ends : (raw : RawFrame) → Goaway.from_raw raw ≢ diverged
unfolding Goaway.from_raw
goaway_ends raw = λ e. ground (arith, e)

window_update_ends : (raw : RawFrame) → WindowUpdate.from_raw raw ≢ diverged
unfolding WindowUpdate.from_raw
window_update_ends raw = λ e. ground (arith, e)

continuation_ends : (raw : RawFrame) → Continuation.from_raw raw ≢ diverged
unfolding Continuation.from_raw
continuation_ends raw = λ e. ground (arith, e)

if_ends :
    {A : Type 0} (b : Bool) {x y : ParseFrameResult A}
    → x ≢ diverged
    → y ≢ diverged
    → (if b then x else y) ≢ diverged
if_ends true h k = h
if_ends false h k = k

wrap_ends :
    {A : Type 0} (c : A → HttpFrame) {r : ParseFrameResult A} → r ≢ diverged → wrap c r ≢ diverged
wrap_ends c h = bind_ends h (λ _. ok_ends _)

typed_ends : (t : ℕ) (raw : RawFrame) → parse_typed t raw ≢ diverged
unfolding parse_typed
typed_ends t raw = if_ends _ (wrap_ends data_frame (data_ends raw)) (
    if_ends _ (wrap_ends headers (headers_ends raw)) (
      if_ends _ (wrap_ends priority (priority_ends raw)) (
        if_ends _ (wrap_ends rst_stream (rst_stream_ends raw)) (
          if_ends _ (wrap_ends settings (settings_ends raw)) (
            if_ends _ (wrap_ends push_promise (push_promise_ends raw)) (
              if_ends _ (wrap_ends ping (ping_ends raw)) (
                if_ends _ (wrap_ends goaway (goaway_ends raw)) (
                  if_ends _ (wrap_ends window_update (window_update_ends raw))
                    (if_ends _ (wrap_ends continuation (continuation_ends raw)) (ok_ends _))))))))))

-- Parsing gives a frame, an error or a panic, whatever the octets are.
pub from_raw_ends : (raw : RawFrame) → from_raw raw ≢ diverged
unfolding from_raw
from_raw_ends raw = elim (Option-cases (Raw.header raw)) [
  | inl n ↦ λ e. ground (arith, e, n)
  | inr h ↦ rw (h.1) (typed_ends (h.0.frame_type) raw)
]
