-- ===== src/Codec/FramedRead.antt =====
-- `HttpFramedRead` of httpbis/src/codec/http_framed_read.rs. What the socket gave so far is the list
-- of octets; a poll that finds too few of them is pending, which is `none`. Filling the buffer from
-- the socket is left out.
pub mod Wire
use rust_http.Prelude.{ℕ, ◌+◌, List, take, drop, length, Option, none, some, ltb, if◌then◌else◌}
use rust_http.Prelude.Outcome.{Outcome, ok, err, ◌>>=◌, or_panic}
use rust_http.Error.{Error, code_error, parsed}
use rust_http.Frame.ErrorCode.{frame_size_error}
use rust_http.Frame.Header.{FrameHeader, frame_header_len, unpack_header}
use rust_http.Frame.Raw.{RawFrame}
use rust_http.Frame.HttpFrame.{HttpFrame, from_raw}

-- The frame, and the octets behind it.
unfoldable pub cut_frame : ℕ → List ℕ → FrameHeader → Outcome Error (Option (RawFrame × List ℕ))
cut_frame max_frame_size buf header =
    let total_len = frame_header_len + header.payload_len in
    if ltb max_frame_size (header.payload_len)
    then err (code_error frame_size_error)
    else if ltb (length buf) total_len
    then ok none
    else ok (some (record { raw_content = take total_len buf }, drop total_len buf))

unfoldable pub poll_raw_frame : ℕ → List ℕ → Outcome Error (Option (RawFrame × List ℕ))
poll_raw_frame max_frame_size buf =
    if ltb (length buf) frame_header_len
    then ok none
    else or_panic (unpack_header (take frame_header_len buf)) >>= cut_frame max_frame_size buf

unfoldable pub parse_cut : Option (RawFrame × List ℕ) → Outcome Error (Option (HttpFrame × List ℕ))
parse_cut none = ok none
parse_cut (some (frame, rest)) = parsed (from_raw frame) >>= λ f. ok (some (f, rest))

unfoldable pub poll_http_frame : ℕ → List ℕ → Outcome Error (Option (HttpFrame × List ℕ))
poll_http_frame max_frame_size buf = poll_raw_frame max_frame_size buf >>= parse_cut
