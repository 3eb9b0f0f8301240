-- ===== src/Codec/DecodeRead.antt =====
-- `HttpDecodeRead` of httpbis/src/codec/http_decode_read.rs: the fragments of headers are decoded and
-- the headers validated.
use rust_http.Prelude.{ℕ, List, [], ◌∷◌, Option, none, some}
use rust_http.Prelude.Outcome.{Outcome, ok, err, panic, diverged, ◌>>=◌}
use rust_http.Error.{Error}
use rust_http.Frame.ErrorCode.{ErrorCode, compression_error, protocol_error}
use rust_http.Frame.Headers.{HeadersFrame}
use rust_http.Frame.HttpFrame.{HttpFrame}
use rust_http.Frame.Decoded
use rust_http.Frame.Decoded.{HttpFrameDecoded}
use rust_http.Hpack.StaticTable as Table
use rust_http.Hpack.Error.{DecoderError}
use rust_http.Hpack.Decoder as Hpack
use rust_http.Hpack.Decoder.{Decoder}
use rust_http.Message.{Header, Headers, HeaderResult, new_validate, from_vec_pseudo_first}
use rust_http.Codec.Join.{Continuable, poll_joined}

pub data HttpFrameDecodedOrGoaway : Type 0 where
  frame : HttpFrameDecoded → HttpFrameDecodedOrGoaway
  send_goaway : ErrorCode → HttpFrameDecodedOrGoaway
  send_rst : ℕ → ErrorCode → HttpFrameDecodedOrGoaway

-- The octets that have arrived and were not cut yet, the block that goes on, and the decoder.
pub record HttpDecodeRead : Type 0 where
  pub buf : List ℕ
  pub header_opt : Option Continuable
  pub decoder : Decoder

abbrev pub new : HttpDecodeRead
new = record { buf = []; header_opt = none; decoder = Hpack.new }

unfoldable pub validate_all : List Table.Header → HeaderResult (List Header)
validate_all [] = ok []
validate_all ((name, value) ∷ hs) = do
  h ← new_validate name value
  rest ← validate_all hs
  ok (h ∷ rest)

abbrev pub message_headers : List Table.Header → HeaderResult Headers
message_headers hs = validate_all hs >>= from_vec_pseudo_first

unfoldable pub validated :
    HeadersFrame → HeaderResult Headers → Outcome Error HttpFrameDecodedOrGoaway
validated f (ok headers) = ok (
    frame (
      Decoded.headers (record {
        flags = f.flags;
        stream_id = f.stream_id;
        headers = headers;
        stream_dep = f.stream_dep;
        padding_len = f.padding_len;
      })))
validated f (err e) = ok (send_goaway protocol_error)
validated f panic = panic
validated f diverged = diverged

unfoldable pub decoded :
    HeadersFrame → Outcome DecoderError (List Table.Header) → Outcome Error HttpFrameDecodedOrGoaway
decoded f (ok hs) = validated f (message_headers hs)
decoded f (err e) = ok (send_goaway compression_error)
decoded f panic = panic
decoded f diverged = diverged

-- The decoder changes whether its headers are accepted or not. A CONTINUATION frame is
-- `unreachable!`.
unfoldable pub decode_frame : Decoder → HttpFrame → Decoder × Outcome Error HttpFrameDecodedOrGoaway
decode_frame d (HttpFrame.headers f) =
    let r = Hpack.decode d (f.header_fragment) in (r.0, decoded f (r.1))
decode_frame d (HttpFrame.data_frame f) = (d, ok (frame (Decoded.data_frame f)))
decode_frame d (HttpFrame.priority f) = (d, ok (frame (Decoded.priority f)))
decode_frame d (HttpFrame.rst_stream f) = (d, ok (frame (Decoded.rst_stream f)))
decode_frame d (HttpFrame.settings f) = (d, ok (frame (Decoded.settings f)))
decode_frame d (HttpFrame.push_promise f) = (d, ok (frame (Decoded.push_promise f)))
decode_frame d (HttpFrame.ping f) = (d, ok (frame (Decoded.ping f)))
decode_frame d (HttpFrame.goaway f) = (d, ok (frame (Decoded.goaway f)))
decode_frame d (HttpFrame.window_update f) = (d, ok (frame (Decoded.window_update f)))
decode_frame d (HttpFrame.continuation f) = (d, panic)
decode_frame d (HttpFrame.unknown f) = (d, ok (frame (Decoded.unknown f)))

-- `none` is a pending poll.
abbrev pub Poll : Type 0
Poll = Outcome Error (HttpDecodeRead × Option HttpFrameDecodedOrGoaway)

unfoldable pub after_poll : Decoder → List ℕ → Option Continuable → Option HttpFrame → Poll
after_poll d buf header_opt none =
    ok (record { buf = buf; header_opt = header_opt; decoder = d }, none)
after_poll d buf header_opt (some f) =
    let r = decode_frame d f in
    r.1 >>= λ given. ok (record { buf = buf; header_opt = header_opt; decoder = r.0 }, some given)

unfoldable pub poll_decoded : ℕ → HttpDecodeRead → Poll
poll_decoded max_frame_size r = poll_joined max_frame_size (r.header_opt) (r.buf) >>= λ p.
    after_poll (r.decoder) (p.buf) (p.header_opt) (p.frame)
