-- ===== src/Frame/Headers/Short.antt =====
-- `HEADERS` frames whose payload has no room for the dependency that their flags announce.
use rust_http.Prelude.{ℕ, ◌<◌, ◌≡◌, ◌≢◌, arith, List, [], ◌∷◌, length, true, false, refl, none}
use rust_http.Prelude.Outcome.{panic}
use rust_http.Frame.Flags
use rust_http.Frame.Header.{FrameHeader}
use rust_http.Frame.Header.RoundTrip.{IsWireHeader}
use rust_http.Frame.Raw.Parse.{raw_of, header-raw_of, payload-raw_of}
use rust_http.Frame.Padding.{parse_padded_payload}
use rust_http.Frame.Headers.{
  HeadersFlag, headers_flag, padded, priority, headers_frame_type, from_raw, parse_dependency,
}

parse_dependency_short : (p : List ℕ) → length p < 5 → parse_dependency p ≡ none
unfolding parse_dependency
parse_dependency_short [] h = refl
parse_dependency_short (a ∷ []) h = refl
parse_dependency_short (a ∷ b ∷ []) h = refl
parse_dependency_short (a ∷ b ∷ c ∷ []) h = refl
parse_dependency_short (a ∷ b ∷ c ∷ d ∷ []) h = refl
parse_dependency_short (a ∷ b ∷ c ∷ d ∷ e ∷ rest) h = absurd (omega (arith, h))

-- A HEADERS frame with the priority flag, not padded, of a stream that is not 0, whose header fits
-- the wire and whose payload is shorter than the five octets of a dependency, is no error to the
-- parser: it panics.
pub from_raw_short :
    (h : FrameHeader) (p : List ℕ)
    → IsWireHeader h
    → h.frame_type ≡ headers_frame_type
    → h.payload_len ≡ length p
    → h.stream_id ≢ 0
    → Flags.is_set {F = HeadersFlag} (Flags.new h.flags) padded ≡ false
    → Flags.is_set {F = HeadersFlag} (Flags.new h.flags) priority ≡ true
    → length p < 5
    → from_raw (raw_of h p) ≡ panic
unfolding from_raw parse_padded_payload
from_raw_short h p v t l s np pr short =
    rw (header-raw_of h p v, payload-raw_of h p, t, l, np, pr)
      (ground (arith, parse_dependency_short p short, s))
