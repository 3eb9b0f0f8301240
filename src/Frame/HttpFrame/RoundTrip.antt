-- ===== src/Frame/HttpFrame/RoundTrip.antt =====
-- A frame of any type that the library writes is read back.
use rust_http.Prelude.{ℕ, ◌<◌, ◌≡◌, refl, ap, arith, List, [], ◌++◌, length, some}
use mathlib.Core.Option
use rust_http.Prelude.Outcome.{ok}
use rust_http.Frame.Header.{FrameHeader}
use rust_http.Frame.Header.RoundTrip.{IsWireHeader}
use rust_http.Frame.Raw
use rust_http.Frame.Raw.{RawFrame}
use rust_http.Frame.Raw.Parse.{
  raw_of, Written, header-Written, parse-Written, header-raw_of, payload-raw_of,
}
use rust_http.Frame.Data
use rust_http.Frame.Data.RoundTrip as DataWire
use rust_http.Frame.Headers.RoundTrip as HeadersWire
use rust_http.Frame.RstStream
use rust_http.Frame.RstStream.RoundTrip as RstStreamWire
use rust_http.Frame.Settings
use rust_http.Frame.Settings.RoundTrip as SettingsWire
use rust_http.Frame.Ping
use rust_http.Frame.Ping.RoundTrip as PingWire
use rust_http.Frame.Goaway
use rust_http.Frame.Goaway.RoundTrip as GoawayWire
use rust_http.Frame.WindowUpdate
use rust_http.Frame.WindowUpdate.RoundTrip as WindowUpdateWire
use rust_http.Frame.Continuation
use rust_http.Frame.Continuation.RoundTrip as ContinuationWire
use rust_http.Frame.HttpFrame.{
  HttpFrame, data_frame, headers, priority, rst_stream, settings, push_promise, ping, goaway,
  window_update, continuation, unknown, parse_typed, from_raw, serialize_into,
}

-- A frame whose type is none of the known ones.
pub record IsWireUnknown (raw : RawFrame) : Type 0 where
  pub h : FrameHeader
  pub p : List ℕ
  raw_eq : raw ≡ raw_of h p
  pub fits : IsWireHeader h
  pub length_eq : h.payload_len ≡ length p
  type_unknown : 9 < h.frame_type

-- The frames that can be written: all but `PRIORITY`, which has no serializer, and `PUSH_PROMISE`.
abbrev pub IsWire : HttpFrame → Type 0
IsWire (data_frame f) = DataWire.IsWire f
IsWire (headers f) = HeadersWire.IsWire f
IsWire (priority f) = ⊥
IsWire (rst_stream f) = RstStreamWire.IsWire f
IsWire (settings f) = SettingsWire.IsWire f
IsWire (push_promise f) = ⊥
IsWire (ping f) = PingWire.IsWire f
IsWire (goaway f) = GoawayWire.IsWire f
IsWire (window_update f) = WindowUpdateWire.IsWire f
IsWire (continuation f) = ContinuationWire.IsWire f
IsWire (unknown raw) = IsWireUnknown raw

-- What it takes to have a frame written and read back.
record IsReadBack (f : HttpFrame) (octets : List ℕ) : Type 0 where
  frame_type : ℕ
  serialized : serialize_into f [] ≡ some octets
  written : Written octets frame_type
  parsed : parse_typed frame_type (record { raw_content = octets }) ≡ ok f

serialize_unknown :
    (raw : RawFrame) → IsWireUnknown raw → serialize_into (unknown raw) [] ≡ some raw.raw_content
unfolding serialize_into Raw.serialize_into Option.bind
serialize_unknown raw u = rw (u.raw_eq, header-raw_of u.h u.p u.fits, payload-raw_of u.h u.p)

parse_unknown : (t : ℕ) (raw : RawFrame) → 9 < t → parse_typed t raw ≡ ok (unknown raw)
unfolding parse_typed
parse_unknown t raw h = ground arith

read_back : (f : HttpFrame) → IsWire f → (octets : List ℕ) × IsReadBack f octets
unfolding serialize_into parse_typed
read_back (data_frame f) v = (
  Data.serialize_into f [],
  record {
    frame_type = 0x0;
    serialized = refl;
    written = DataWire.serialize_into-Written f v;
    parsed = rw (DataWire.from_raw-serialize_into f v);
  },
)
read_back (headers f) v = (
  HeadersWire.written_octets f v,
  record {
    frame_type = 0x1;
    serialized = HeadersWire.serialize_into-eq f v;
    written = HeadersWire.written_octets-Written f v;
    parsed = rw (HeadersWire.from_raw-written_octets f v);
  },
)
read_back (priority f) v = absurd v
read_back (rst_stream f) v = (
  RstStream.serialize_into f [],
  record {
    frame_type = 0x3;
    serialized = refl;
    written = RstStreamWire.serialize_into-Written f v;
    parsed = rw (RstStreamWire.from_raw-serialize_into f v);
  },
)
read_back (settings f) v = (
  Settings.serialize_into f [],
  record {
    frame_type = 0x4;
    serialized = refl;
    written = SettingsWire.serialize_into-Written f v;
    parsed = rw (SettingsWire.from_raw-serialize_into f v);
  },
)
read_back (push_promise f) v = absurd v
read_back (ping f) v = (
  Ping.serialize_into f [],
  record {
    frame_type = 0x6;
    serialized = refl;
    written = PingWire.serialize_into-Written f v;
    parsed = rw (PingWire.from_raw-serialize_into f v);
  },
)
read_back (goaway f) v = (
  Goaway.serialize_into f [],
  record {
    frame_type = 0x7;
    serialized = refl;
    written = GoawayWire.serialize_into-Written f v;
    parsed = rw (GoawayWire.from_raw-serialize_into f v);
  },
)
read_back (window_update f) v = (
  WindowUpdate.serialize_into f [],
  record {
    frame_type = 0x8;
    serialized = refl;
    written = WindowUpdateWire.serialize_into-Written f v;
    parsed = rw (WindowUpdateWire.from_raw-serialize_into f v);
  },
)
read_back (continuation f) v = (
  Continuation.serialize_into f [],
  record {
    frame_type = 0x9;
    serialized = refl;
    written = ContinuationWire.serialize_into-Written f v;
    parsed = rw (ContinuationWire.from_raw-serialize_into f v);
  },
)
read_back (unknown raw) v = (
  raw.raw_content,
  record {
    frame_type = v.h.frame_type;
    serialized = serialize_unknown raw v;
    written = record {
      h = v.h;
      p = v.p;
      octets_eq = ap (λ r. r.raw_content) v.raw_eq;
      fits = v.fits;
      length_eq = v.length_eq;
      type_eq = refl;
    };
    parsed = parse_unknown v.h.frame_type raw v.type_unknown;
  },
)

-- Every frame of a type that has a working serializer and whose fields fit is written without a
-- panic; the raw parser cuts just its octets off the front of a buffer, whatever follows; and
-- these octets are parsed into the same frame.
pub from_raw-serialize_into :
    (f : HttpFrame) (rest : List ℕ)
    → IsWire f
    → (octets : List ℕ) × (serialize_into f [] ≡ some octets)
      × (Raw.parse (octets ++ rest) ≡ ok (record { raw_content = octets }))
      × (from_raw (record { raw_content = octets }) ≡ ok f)
unfolding from_raw
from_raw-serialize_into f rest v =
    let (octets, r) = read_back f v in
    (
      octets,
      r.serialized,
      parse-Written r.written rest,
      rw (header-Written r.written, r.written.type_eq) r.parsed,
    )
