-- ===== src/Codec/Join/Blocks.antt =====
-- A block of headers that was written in several frames is joined into one again.
pub mod Frames
use rust_http.Prelude.{
  ℕ, zero, suc, ◌+◌, ◌%◌, ◌^◌, ◌≤◌, ◌<◌, ◌≡◌, refl, sym, ap, ◌∙◌, arith, List, [], ◌∷◌, ◌++◌, All,
  length, Option, none, some, ◌!=◌, Bool, true, false, if◌then◌else◌, append_assoc, append-nil,
  length-append,
}
use rust_http.Prelude.Outcome.{Outcome, ok, ◌>>=◌}
use rust_http.Error.{Error}
use rust_http.Frame.Flags
use rust_http.Frame.Flags.{Flags}
use rust_http.Frame.Header.{FrameHeader, pack_header}
use rust_http.Frame.Header.RoundTrip.{IsWireHeader}
use rust_http.Frame.Raw.Parse.{
  Written, header-Written, header-raw_of, payload-raw_of, length-raw_of,
}
use rust_http.Frame.Padding.{parse_padded_payload}
use rust_http.Frame.Headers
use rust_http.Frame.Headers.{HeadersFlag, HeadersFrame, headers_flag}
use rust_http.Frame.Headers.RoundTrip as HeadersWire
use rust_http.Frame.Continuation
use rust_http.Frame.Continuation.{ContinuationFrame, continuation_flag}
use rust_http.Frame.Continuation.RoundTrip as ContinuationWire
use rust_http.Frame.HttpFrame
use rust_http.Frame.HttpFrame.{HttpFrame, from_raw, parse_typed}
use rust_http.Frame.HeadersMulti.{
  HeadersMultiFrame, serialize_into, HeadersFrameType, headers, continuation, frame_type, flags_of,
}
use rust_http.Frame.HeadersMulti.Split.{frame_octets, frames_octets, write_frames-split}
use rust_http.Frame.HeadersMulti.Split
use rust_http.Hpack.StaticTable.{Header}
use rust_http.Hpack.Encoder.{Encoder}
use rust_http.Hpack.Decoder.{decode}
use rust_http.Hpack.DynamicTable.Fitting.{IsSized}
use rust_http.Hpack.RoundTrip.Headers.{IsValid, IsShortHeader, paired, decode-encode_into}
use rust_http.Codec.FramedRead.{poll_http_frame}
use rust_http.Codec.FramedRead.Wire.{poll_http_frame-Written}
use rust_http.Codec.Join
use rust_http.Codec.Join.{
  Continuable, of_headers, into_frame, set_end_headers, join, joined, after, Polled, poll_loop,
  poll_joined,
}
use rust_http.Codec.Join.Blocks.Frames.{
  block_flags, headers_frame, with_end, ended_set, not_ended, length-frame_octets, poll_headers,
  poll_continuation, continuation_frame,
}

abbrev pub given : HttpFrame → List ℕ → Polled
given f rest = record { frame = some f; header_opt = none; buf = rest }

module _ (stream_id : ℕ) where
  -- The frame that the fragments of a block come to.
  abbrev pub block : Bool → List ℕ → HttpFrame
  block end_stream fragment =
      HttpFrame.headers (headers_frame stream_id (with_end end_stream true) fragment)

  -- A block that goes on: its first frame, and the fragments so far.
  abbrev going : Bool → List ℕ → List ℕ → Continuable
  going end_stream first fragment = record {
    header_fragment = fragment;
    frame = Join.headers (headers_frame stream_id (with_end end_stream false) first);
  }

module _ (stream_id : ℕ) (nonzero : 0 < stream_id) (fits : stream_id < 2 ^ 31) where
  -- Each frame has nine octets at least.
  length-frames_octets :
      (end_stream : Bool) (t : HeadersFrameType) (piece : List ℕ) (pieces : List (List ℕ))
      → 2 + length pieces
        ≤ length (Split.frames_octets stream_id (block_flags end_stream) t piece pieces)
  unfolding frames_octets
  length-frames_octets end_stream t piece [] =
      omega (arith, length-frame_octets stream_id (block_flags end_stream) t true piece)
  length-frames_octets end_stream t piece (next ∷ pieces) = omega (
    arith,
    length-append (frame_octets stream_id (block_flags end_stream) t false piece)
        (frames_octets stream_id (block_flags end_stream) continuation next pieces),
    length-frame_octets stream_id (block_flags end_stream) t false piece,
    length-frames_octets end_stream continuation next pieces,
  )

  same_stream : (stream_id != stream_id) ≡ false
  same_stream = ground arith

  poll_pieces :
      (fuel max : ℕ) (end_stream : Bool) (first fragment piece : List ℕ) (pieces : List (List ℕ))
      (rest : List ℕ)
      → max < 2 ^ 24
      → All (λ p. length p ≤ max) (piece ∷ pieces)
      → length pieces < fuel
      → poll_loop fuel max
          (some (going stream_id end_stream first fragment))
          (Split.frames_octets stream_id (block_flags end_stream) continuation piece pieces ++ rest)
        ≡ ok (given (block stream_id end_stream (fragment ++ (piece ++ Split.joined pieces))) rest)
  unfolding poll_loop after join joined Join.continue_with frames_octets Flags.is_set
  poll_pieces zero max end_stream first fragment piece pieces rest small h enough =
      absurd (omega arith)
  poll_pieces (suc fuel) max end_stream first fragment piece [] rest small h enough =
      rw
        (
          poll_continuation stream_id nonzero fits max end_stream true piece rest small (h.0),
          same_stream,
          append-nil piece,
        )
        refl
  poll_pieces (suc fuel) max end_stream first fragment piece (next ∷ pieces) rest small h enough =
      let behind : List ℕ =
        frames_octets stream_id (block_flags end_stream) continuation next pieces ++ rest in
      rw
        (
          append_assoc (frame_octets stream_id (block_flags end_stream) continuation false piece),
          poll_continuation stream_id nonzero fits max end_stream false piece behind small (h.0),
          same_stream,
        )
        (poll_pieces fuel max end_stream first (fragment ++ piece) next pieces rest small (h.1)
            (omega arith)
          ∙ rw (append_assoc fragment piece (next ++ Split.joined pieces)) refl)

  -- The frames of a block, whatever follows them.
  pub poll_joined-frames_octets :
      (max : ℕ) (end_stream : Bool) (piece : List ℕ) (pieces : List (List ℕ)) (rest : List ℕ)
      → max < 2 ^ 24
      → All (λ p. length p ≤ max) (piece ∷ pieces)
      → poll_joined max none
          (Split.frames_octets stream_id (block_flags end_stream) headers piece pieces ++ rest)
        ≡ ok (given (block stream_id end_stream (piece ++ Split.joined pieces)) rest)
  unfolding poll_joined poll_loop after join joined frames_octets
  poll_joined-frames_octets max end_stream piece [] rest small h =
      rw
        (
          poll_headers stream_id nonzero fits max end_stream true piece rest small (h.0),
          ended_set end_stream,
          append-nil piece,
        )
        refl
  poll_joined-frames_octets max end_stream piece (next ∷ pieces) rest small h =
      let behind : List ℕ =
        frames_octets stream_id (block_flags end_stream) continuation next pieces ++ rest in
      let first : List ℕ = frame_octets stream_id (block_flags end_stream) headers false piece in
      rw
        (
          append_assoc (frame_octets stream_id (block_flags end_stream) headers false piece),
          poll_headers stream_id nonzero fits max end_stream false piece behind small (h.0),
          not_ended end_stream,
        )
        (poll_pieces (length (first ++ behind)) max end_stream piece piece next pieces rest small
          (h.1)
          (omega (
            arith,
            length-append first behind,
            length-append
                (frames_octets stream_id (block_flags end_stream) continuation next pieces) rest,
            length-frames_octets end_stream continuation next pieces,
          )))

-- What `write_part_headers` hands to the writer.
abbrev pub block_of : ℕ → ℕ → Bool → List Header → HeadersMultiFrame
block_of stream_id max_frame_size end_stream hs = record {
  flags = block_flags end_stream;
  stream_id = stream_id;
  headers = hs;
  stream_dep = none;
  padding_len = 0;
  max_frame_size = max_frame_size;
}

no_end : (end_stream : Bool) → Flags.is_set (block_flags end_stream) Headers.end_headers ≡ false
unfolding Flags.is_set
no_end true = refl
no_end false = refl

within_more :
    (m n : ℕ) (ps : List (List ℕ)) → m ≤ n → All (λ p. length p ≤ m) ps → All (λ p. length p ≤ n) ps
within_more m n [] h a = tt
within_more m n (p ∷ ps) h a = (omega (arith, h, a.0), within_more m n ps h (a.1))

-- Over the wire: where the encoder's table is valid, the strings of the headers are short, the stream
-- and the limit on the size of a frame are within the protocol, the writer ends without a panic, and
-- a reader whose limit is no smaller gives, whatever follows the octets, one HEADERS frame with the
-- stream and its END_STREAM flag, of whose fragment a decoder with the same table reads the headers;
-- the tables are the same and valid afterwards.
pub poll-serialize_into :
    (e : Encoder) (m stream_id frame_limit max : ℕ) (end_stream : Bool) (hs : List Header)
    → IsValid (e.header_table)
    → All IsShortHeader hs
    → 0 < stream_id
    → stream_id < 2 ^ 31
    → 1 ≤ frame_limit
    → frame_limit ≤ max
    → max < 2 ^ 24
    → (after : Encoder) × (octets : List ℕ) × (fragment : List ℕ) × (serialize_into
          (block_of stream_id frame_limit end_stream hs)
          e
          []
        ≡ ok (after, octets))
      × ((rest : List ℕ)
          → poll_joined max none (octets ++ rest)
            ≡ ok (given (block stream_id end_stream fragment) rest))
      × (decode (paired e m) fragment ≡ (paired after m, ok hs))
      × IsValid (after.header_table)
unfolding serialize_into
poll-serialize_into e m stream_id frame_limit max end_stream hs w s nz fits one le small =
    let (after, fragment, encoded, decoded, valid) = decode-encode_into e m hs w s in
    let (piece, pieces, whole, within, written) =
      write_frames-split (block_of stream_id frame_limit end_stream hs) fragment []
        (no_end end_stream) one (omega arith) in
    (
      after,
      Split.frames_octets stream_id (block_flags end_stream) headers piece pieces,
      fragment,
      rw (no_end end_stream, encoded, written) refl,
      λ rest.
          poll_joined-frames_octets stream_id nz fits max end_stream piece pieces rest small
            (within_more frame_limit max (piece ∷ pieces) le within)
          ∙ rw whole refl,
      decoded,
      valid,
    )
