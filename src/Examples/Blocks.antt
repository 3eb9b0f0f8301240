-- ===== src/Examples/Blocks.antt =====
-- Blocks of headers on the wire at concrete inputs.
use rust_http.Prelude.{ℕ, ◌≡◌, ◌≢◌, refl, arith, List, [], ◌∷◌, ◌++◌, none, some, false, true}
use rust_http.Prelude.Outcome.{ok, diverged}
use rust_http.Hpack.StaticTable.{Header}
use rust_http.Hpack.DynamicTable.Fitting.{total}
use rust_http.Hpack.Encoder
use rust_http.Hpack.Encoder.{Encoder}
use rust_http.Hpack.Decoder.{decode}
use rust_http.Hpack.RoundTrip.Headers.{IsValid, paired}
use rust_http.Frame.HeadersMulti.{serialize_into}
use rust_http.Codec.FramedRead
use rust_http.Codec.Join
use rust_http.Codec.Join.{Continuable, Polled, poll_joined}
use rust_http.Codec.Join.Polls.{resume, poll_joined-append}
use rust_http.Codec.Join.Whole.{IsWhole, poll_joined-IsWhole}
use rust_http.Codec.Join.Total.{poll_joined_ends}
use rust_http.Frame.HeadersMulti
use rust_http.Frame.HeadersMulti.Split.{frames_octets}
use rust_http.Codec.Join.Blocks.Frames.{block_flags}
use rust_http.Codec.Join.Blocks.{
  poll_joined-frames_octets, block, block_of, given, poll-serialize_into,
}

abbrev two_headers : List Header
two_headers =
    (58 ∷ 109 ∷ 101 ∷ 116 ∷ 104 ∷ 111 ∷ 100 ∷ [], 71 ∷ 69 ∷ 84 ∷ [])
    ∷ (120 ∷ 45 ∷ 97 ∷ [], 49 ∷ [])
    ∷ []

start-IsValid : IsValid (Encoder.new.header_table)
start-IsValid = record {
  static = omega arith;
  sized = (unfold total in refl, omega arith);
  limited = omega arith;
}

-- Frames of two octets at most.
poll-serialize_into_example :
    (after : Encoder) × (octets : List ℕ) × (fragment : List ℕ) × (serialize_into
        (block_of 5 2 true two_headers)
        Encoder.new
        []
      ≡ ok (after, octets))
    × ((rest : List ℕ)
        → poll_joined 16384 none (octets ++ rest) ≡ ok (given (block 5 true fragment) rest))
    × (decode (paired Encoder.new 4096) fragment ≡ (paired after 4096, ok two_headers))
    × IsValid (after.header_table)
poll-serialize_into_example =
    poll-serialize_into Encoder.new 4096 5 2 16384 true two_headers start-IsValid
      ((omega arith, omega arith), ((omega arith, omega arith), tt)) (omega arith) (omega arith)
      (omega arith) (omega arith) (omega arith)

-- A HEADERS frame of stream 5 with one octet, whose block goes on.
abbrev first_frame : List ℕ
first_frame = 0 ∷ 0 ∷ 1 ∷ 1 ∷ 0 ∷ 0 ∷ 0 ∷ 0 ∷ 5 ∷ 130 ∷ []

poll_joined_ends_example : poll_joined 16384 none first_frame ≢ diverged
poll_joined_ends_example = poll_joined_ends 16384 none first_frame

-- The first octets of its header.
abbrev half_header : List ℕ
half_header = 0 ∷ 0 ∷ 1 ∷ 1 ∷ []

abbrev pending : Polled
pending = record { frame = none; header_opt = none; buf = half_header }

half_header-pending : poll_joined 16384 none half_header ≡ ok pending
unfolding poll_joined Join.poll_loop FramedRead.poll_http_frame FramedRead.poll_raw_frame
    FramedRead.parse_cut Join.after
half_header-pending = refl

poll_joined-append_example :
    poll_joined 16384 none (half_header ++ (0 ∷ 4 ∷ 0 ∷ 0 ∷ 0 ∷ 5 ∷ 130 ∷ []))
    ≡ resume 16384 pending (0 ∷ 4 ∷ 0 ∷ 0 ∷ 0 ∷ 5 ∷ 130 ∷ [])
poll_joined-append_example =
    poll_joined-append 16384 none half_header (0 ∷ 4 ∷ 0 ∷ 0 ∷ 0 ∷ 5 ∷ 130 ∷ []) pending
      half_header-pending

-- A HEADERS frame and a CONTINUATION frame that ends its block.
abbrev two_frames : List ℕ
two_frames =
    frames_octets 5 (block_flags false) HeadersMulti.headers (130 ∷ []) ((132 ∷ []) ∷ []) ++ []

two_frames-joined :
    poll_joined 16384 none two_frames ≡ ok (given (block 5 false (130 ∷ 132 ∷ [])) [])
two_frames-joined =
    poll_joined-frames_octets 5 (omega arith) (omega arith) 16384 false (130 ∷ []) ((132 ∷ []) ∷ [])
      [] (omega arith) (omega arith, (omega arith, tt))

poll_joined-IsWhole_example : IsWhole (some (block 5 false (130 ∷ 132 ∷ [])))
poll_joined-IsWhole_example =
    poll_joined-IsWhole 16384 none two_frames (given (block 5 false (130 ∷ 132 ∷ [])) [])
      two_frames-joined
