-- ===== src/Codec/Join/Blocks/Frames.antt =====
-- The frames of a block of headers, cut off the front of a buffer one by one.
use rust_http.Prelude.{
  ℕ, ◌+◌, ◌^◌, ◌≤◌, ◌<◌, ◌≡◌, refl, arith, List, ◌++◌, length, none, some, Bool, true, false,
}
use rust_http.Prelude.Outcome.{ok}
use rust_http.Frame.Flags
use rust_http.Frame.Flags.{Flags}
use rust_http.Frame.Header.{FrameHeader}
use rust_http.Frame.Header.RoundTrip.{IsWireHeader}
use rust_http.Frame.Raw.Parse.{
  Written, header-Written, header-raw_of, payload-raw_of, length-raw_of,
}
use rust_http.Frame.Padding.{parse_padded_payload}
use rust_http.Frame.Headers
use rust_http.Frame.Headers.{HeadersFlag, HeadersFrame, headers_flag}
use rust_http.Frame.Continuation
use rust_http.Frame.Continuation.{ContinuationFrame, continuation_flag}
use rust_http.Frame.HttpFrame.{HttpFrame, from_raw, parse_typed}
use rust_http.Frame.HeadersMulti.{HeadersFrameType, headers, continuation, frame_type, flags_of}
use rust_http.Frame.HeadersMulti.Split.{frame_octets}
use rust_http.Codec.FramedRead.{poll_http_frame}
use rust_http.Codec.FramedRead.Wire.{poll_http_frame-Written}

-- The flags of a block: END_STREAM or none.
abbrev pub block_flags : Bool → Flags HeadersFlag
block_flags true = record { bits = 0x1 }
block_flags false = record { bits = 0 }

abbrev pub headers_frame : ℕ → Flags HeadersFlag → List ℕ → HeadersFrame
headers_frame stream_id flags fragment = record {
  flags = flags;
  stream_id = stream_id;
  header_fragment = fragment;
  stream_dep = none;
  padding_len = 0;
}

abbrev pub with_end : Bool → Bool → Flags HeadersFlag
with_end end_stream last = record { bits = flags_of headers (block_flags end_stream) last }

type_fits : (t : HeadersFrameType) → frame_type t < 256
type_fits headers = omega arith
type_fits continuation = omega arith

flags_fit :
    (t : HeadersFrameType) (end_stream last : Bool) → flags_of t (block_flags end_stream) last < 256
flags_fit headers true true = omega arith
flags_fit headers true false = omega arith
flags_fit headers false true = omega arith
flags_fit headers false false = omega arith
flags_fit continuation end_stream true = omega arith
flags_fit continuation end_stream false = omega arith

not_padded :
    (end_stream last : Bool) → Flags.is_set (with_end end_stream last) Headers.padded ≡ false
unfolding Flags.is_set
not_padded true true = refl
not_padded true false = refl
not_padded false true = refl
not_padded false false = refl

not_priority :
    (end_stream last : Bool) → Flags.is_set (with_end end_stream last) Headers.priority ≡ false
unfolding Flags.is_set
not_priority true true = refl
not_priority true false = refl
not_priority false true = refl
not_priority false false = refl

pub ended_set :
    (end_stream : Bool) → Flags.is_set (with_end end_stream true) Headers.end_headers ≡ true
unfolding Flags.is_set
ended_set true = refl
ended_set false = refl

pub not_ended :
    (end_stream : Bool) → Flags.is_set (with_end end_stream false) Headers.end_headers ≡ false
unfolding Flags.is_set
not_ended true = refl
not_ended false = refl

pub length-frame_octets :
    (stream_id : ℕ) (flags : Flags HeadersFlag) (t : HeadersFrameType) (last : Bool)
    (piece : List ℕ)
    → length (frame_octets stream_id flags t last piece) ≡ 9 + length piece
unfolding frame_octets
length-frame_octets stream_id flags t last piece = length-raw_of _ piece

module _ (stream_id : ℕ) (nonzero : 0 < stream_id) (fits : stream_id < 2 ^ 31) where
  abbrev block_header : Bool → HeadersFrameType → Bool → List ℕ → FrameHeader
  block_header end_stream t last piece = record {
    payload_len = length piece;
    frame_type = frame_type t;
    flags = flags_of t (block_flags end_stream) last;
    stream_id = stream_id;
  }

  block_header-IsWireHeader :
      (end_stream : Bool) (t : HeadersFrameType) (last : Bool) (piece : List ℕ)
      → length piece < 2 ^ 24
      → IsWireHeader (block_header end_stream t last piece)
  block_header-IsWireHeader end_stream t last piece h = record {
    payload_len_fits = h;
    frame_type_fits = type_fits t;
    flags_fit = flags_fit t end_stream last;
    stream_id_fits = fits;
  }

  frame_octets-Written :
      (end_stream : Bool) (t : HeadersFrameType) (last : Bool) (piece : List ℕ)
      → length piece < 2 ^ 24
      → Written (frame_octets stream_id (block_flags end_stream) t last piece) (frame_type t)
  unfolding frame_octets
  frame_octets-Written end_stream t last piece h = record {
    h = block_header end_stream t last piece;
    p = piece;
    octets_eq = refl;
    fits = block_header-IsWireHeader end_stream t last piece h;
    length_eq = refl;
    type_eq = refl;
  }

  -- The parser of HEADERS on a block's first frame: neither padding nor a dependency.
  from_raw-first :
      (end_stream last : Bool) (piece : List ℕ)
      → length piece < 2 ^ 24
      → Headers.from_raw (record {
        raw_content = frame_octets stream_id (block_flags end_stream) headers last piece;
      })
        ≡ ok (headers_frame stream_id (with_end end_stream last) piece)
  unfolding Headers.from_raw frame_octets Headers.split_dependency parse_padded_payload
  from_raw-first end_stream last piece h =
      let b = block_header end_stream headers last piece in
      rw
        (
          header-raw_of b piece (block_header-IsWireHeader end_stream headers last piece h),
          payload-raw_of b piece,
          not_padded end_stream last,
          not_priority end_stream last,
        )
        (ground (arith, nonzero))

  pub poll_headers :
      (max : ℕ) (end_stream last : Bool) (piece rest : List ℕ)
      → max < 2 ^ 24
      → length piece ≤ max
      → poll_http_frame max
          (frame_octets stream_id (block_flags end_stream) headers last piece ++ rest)
        ≡ ok (
            some
              (HttpFrame.headers (headers_frame stream_id (with_end end_stream last) piece), rest))
  unfolding frame_octets-Written
  poll_headers max end_stream last piece rest small h =
      let w = frame_octets-Written end_stream headers last piece (omega arith) in
      poll_http_frame-Written max w _ rest
        (omega (arith, length-frame_octets stream_id (block_flags end_stream) headers last piece))
        (unfold from_raw parse_typed in
          rw (header-Written w) (rw (from_raw-first end_stream last piece (omega arith)) refl))

  -- A CONTINUATION frame of the block.
  abbrev pub continuation_frame : Bool → List ℕ → ContinuationFrame
  continuation_frame last piece = record {
    flags = record { bits = flags_of continuation (block_flags false) last };
    stream_id = stream_id;
    header_fragment = piece;
  }

  from_raw-next :
      (end_stream last : Bool) (piece : List ℕ)
      → length piece < 2 ^ 24
      → Continuation.from_raw (record {
        raw_content = frame_octets stream_id (block_flags end_stream) continuation last piece;
      })
        ≡ ok (continuation_frame last piece)
  unfolding Continuation.from_raw frame_octets
  from_raw-next end_stream last piece h =
      let b = block_header end_stream continuation last piece in
      rw
        (
          header-raw_of b piece (block_header-IsWireHeader end_stream continuation last piece h),
          payload-raw_of b piece,
        )
        (elim last [ true ↦ ground (arith, nonzero) | false ↦ ground (arith, nonzero) ])

  pub poll_continuation :
      (max : ℕ) (end_stream last : Bool) (piece rest : List ℕ)
      → max < 2 ^ 24
      → length piece ≤ max
      → poll_http_frame max
          (frame_octets stream_id (block_flags end_stream) continuation last piece ++ rest)
        ≡ ok (some (HttpFrame.continuation (continuation_frame last piece), rest))
  unfolding frame_octets-Written
  poll_continuation max end_stream last piece rest small h =
      let w = frame_octets-Written end_stream continuation last piece (omega arith) in
      poll_http_frame-Written max w _ rest
        (omega
          (arith, length-frame_octets stream_id (block_flags end_stream) continuation last piece))
        (unfold from_raw parse_typed in
          rw (header-Written w) (rw (from_raw-next end_stream last piece (omega arith)) refl))
