-- ===== src/Frame/Raw/Parse.antt =====
-- A frame that was written as a packed header and its payload is read back from the front of a
-- buffer.
use rust_http.Prelude.{
  ℕ, ◌+◌, ◌<◌, ◌≡◌, refl, arith, List, ◌++◌, length, take, drop, some, leb, le→leb, le→ltb_false,
  true, Bool-cases, inl, inr, if◌then◌else◌, ltb, ltb→lt, ◌≤◌, sym, length-take, take-append-drop,
  append_assoc, length-append, take-append,
}
use rust_http.Prelude.Outcome.{ok, err}
use rust_http.Frame.Error.{incorrect_payload_len}
use rust_http.Frame.Header.{FrameHeader, pack_header}
use rust_http.Frame.Header.RoundTrip.{IsWireHeader, unpack_header-pack_header}
use rust_http.Frame.Raw.{RawFrame, header, payload, parse}

-- A raw frame of a header and a payload.
abbrev pub raw_of : FrameHeader → List ℕ → RawFrame
raw_of h p = record { raw_content = pack_header h ++ p }

module _ (h : FrameHeader) (p : List ℕ) where
  pub length-raw_of : length (pack_header h ++ p) ≡ 9 + length p
  unfolding pack_header
  length-raw_of = omega arith

  pub take-raw_of : take 9 (pack_header h ++ p) ≡ pack_header h
  unfolding pack_header
  take-raw_of = refl

  drop-raw_of : drop 9 (pack_header h ++ p) ≡ p
  unfolding pack_header
  drop-raw_of = refl

  long_enough : leb 9 (length (pack_header h ++ p)) ≡ true
  long_enough = le→leb 9 _ (omega (arith, length-raw_of))

  pub payload-raw_of : payload (raw_of h p) ≡ some p
  unfolding payload
  payload-raw_of = rw (long_enough, drop-raw_of)

  pub header-raw_of : IsWireHeader h → header (raw_of h p) ≡ some h
  unfolding header
  header-raw_of v = rw (long_enough, take-raw_of) (unpack_header-pack_header h v)

take_frame :
    (h : FrameHeader) (p rest : List ℕ)
    → take (9 + length p) (pack_header h ++ (p ++ rest)) ≡ pack_header h ++ p
take_frame h p rest =
    rw (← append_assoc (pack_header h) p rest, ← length-raw_of h p)
      (take-append (pack_header h ++ p) rest)

-- A buffer that starts with a packed header and as many octets as the header says is parsed into
-- these octets, whatever follows.
pub parse-raw_of :
    (h : FrameHeader) (p rest : List ℕ)
    → IsWireHeader h
    → h.payload_len ≡ length p
    → parse (pack_header h ++ (p ++ rest)) ≡ ok (raw_of h p)
unfolding parse
parse-raw_of h p rest v e = rw (
  le→ltb_false (length (pack_header h ++ (p ++ rest))) 9
      (omega (arith, length-raw_of h (p ++ rest))),
  take-raw_of h (p ++ rest),
  unpack_header-pack_header h v,
  drop-raw_of h (p ++ rest),
  e,
  le→ltb_false (length (p ++ rest)) (length p) (omega (arith, length-append p rest)),
  take_frame,
)

-- Octets that are a packed header of the given type and a payload of the announced length.
pub record Written (octets : List ℕ) (frame_type : ℕ) : Type 0 where
  pub h : FrameHeader
  pub p : List ℕ
  pub octets_eq : octets ≡ pack_header h ++ p
  pub fits : IsWireHeader h
  pub length_eq : h.payload_len ≡ length p
  pub type_eq : h.frame_type ≡ frame_type

-- Such octets in front of others are parsed into a raw frame that holds just these.
pub parse-Written :
    {octets : List ℕ} {frame_type : ℕ} (w : Written octets frame_type) (rest : List ℕ)
    → parse (octets ++ rest) ≡ ok (record { raw_content = octets })
parse-Written w rest = rw (w.octets_eq, append_assoc) (parse-raw_of w.h w.p rest w.fits w.length_eq)

pub header-Written :
    {octets : List ℕ} {frame_type : ℕ} (w : Written octets frame_type)
    → header (record { raw_content = octets }) ≡ some w.h
header-Written w = rw w.octets_eq (header-raw_of w.h w.p w.fits)

-- A payload shorter than announced is refused.
parse_short :
    (h : FrameHeader) (p : List ℕ)
    → IsWireHeader h
    → length p < h.payload_len
    → parse (pack_header h ++ p) ≡ err incorrect_payload_len
unfolding parse
parse_short h p v e =
    rw
      (
        le→ltb_false (length (pack_header h ++ p)) 9 (omega (arith, length-raw_of h p)),
        take-raw_of h p,
        unpack_header-pack_header h v,
        drop-raw_of h p,
      )
      (ground arith)

-- What is parsed of a buffer that starts with a packed header whose fields fit: where no fewer octets
-- follow than it says, the header and as many of them, and otherwise the buffer is refused.
pub parse-pack_header :
    (h : FrameHeader) (p : List ℕ)
    → IsWireHeader h
    → parse (pack_header h ++ p) ≡ (
        if ltb (length p) (h.payload_len)
        then err incorrect_payload_len
        else ok (raw_of h (take (h.payload_len) p)))
parse-pack_header h p v = elim (Bool-cases (ltb (length p) (h.payload_len))) [
  | inl fewer ↦ rw fewer (parse_short h p v (ltb→lt (length p) (h.payload_len) fewer))
  | inr enough ↦
      let n = h.payload_len in
      let whole : h.payload_len ≤ length p = ground (arith, enough) in
      let found : parse (pack_header h ++ (take n p ++ drop n p)) ≡ ok (raw_of h (take n p)) =
        parse-raw_of h (take n p) (drop n p) v (sym (length-take n p whole)) in
      rw enough (rw (take-append-drop n p) at found)
]
