-- ===== src/Frame/PushPromise/Wire.antt =====
-- `PUSH_PROMISE` frames on the wire: the serializer and the parser each miscount four octets or the
-- padding.
use rust_http.Prelude.{
  ℕ, suc, ◌+◌, ◌<◌, ◌^◌, ◌≡◌, arith, true, inl, inr, List, [], ◌∷◌, ◌++◌, length, drop, slice_from,
  replicate, append_assoc, Bool-cases, some, none, if◌then◌else◌, leb, ltb, take, take-append_long,
  length-append, refl,
}
use rust_http.Prelude.Outcome.{ok, err, panic}
use rust_http.Frame.Error.{incorrect_payload_len}
use rust_http.Frame.Flags
use rust_http.Frame.Header.{pack_header, octet, FrameHeader}
use rust_http.Frame.Header.Octets.{unpack-octets}
use rust_http.Frame.Header.RoundTrip.{IsWireHeader}
use rust_http.Frame.Raw
use rust_http.Frame.Raw.{RawFrame}
use rust_http.Frame.Raw.Parse.{raw_of, header-raw_of, payload-raw_of}
use rust_http.Frame.Padding.{parse_padded_payload-padded, length-padded}
use rust_http.Frame.Raw.Parse.{parse-pack_header}
use rust_http.Frame.PushPromise.{
  PushPromiseFrame, PushPromiseFlag, push_promise_flag, push_promise_frame_type, padded, get_header,
  payload_len, from_raw, serialize_into,
}

pub record IsWire (f : PushPromiseFrame) : Type 0 where
  pub stream_id_fits : f.stream_id < 2 ^ 31
  pub flags_fit : f.flags.bits < 256
  pub length_fits : 5 + length f.header_fragment + f.padding_len < 2 ^ 24

-- The octets that are written behind the header.
pub payload_of : PushPromiseFrame → List ℕ
payload_of f =
    if Flags.is_set f.flags padded
    then f.padding_len ∷ (f.header_fragment ++ replicate f.padding_len 0)
    else f.header_fragment

module _ (f : PushPromiseFrame) (v : IsWire f) where
  length-payload_of : length (payload_of f) + 4 ≡ payload_len f
  unfolding payload_len payload_of
  length-payload_of = ground (arith, length-padded f.header_fragment f.padding_len)

  get_header-IsWireHeader : IsWireHeader (get_header f)
  unfolding get_header payload_len
  get_header-IsWireHeader = ground arith

  serialize_into-eq : serialize_into f [] ≡ pack_header (get_header f) ++ payload_of f
  unfolding serialize_into payload_of
  serialize_into-eq = elim (Bool-cases (Flags.is_set f.flags padded)) [
    | inl p ↦ simp (p, append_assoc)
    | inr p ↦ simp p
  ]

  header_says : (get_header f).payload_len ≡ length (payload_of f) + 4
  unfolding get_header
  header_says = omega (arith, length-payload_of)

  short_by_four :
      (rest : List ℕ)
      → ltb (length (payload_of f ++ rest)) ((get_header f).payload_len) ≡ ltb (length rest) 4
  short_by_four rest = ground (arith, header_says, length-append (payload_of f) rest)

  -- Where the stream id, the flags and the length of a PUSH_PROMISE frame fit the wire, its header
  -- counts the four octets of the promised stream id, which are not written: the frame that the raw
  -- parser cuts off takes the next four octets of the buffer with it, and where fewer follow, the
  -- octets are refused.
  pub parse-serialize_into :
      (rest : List ℕ)
      → Raw.parse (serialize_into f [] ++ rest) ≡ (
          if ltb (length rest) 4
          then err incorrect_payload_len
          else ok (raw_of (get_header f) (payload_of f ++ take 4 rest)))
  parse-serialize_into rest =
      rw
        (
          serialize_into-eq,
          append_assoc (pack_header (get_header f)) (payload_of f) rest,
          parse-pack_header (get_header f) (payload_of f ++ rest) get_header-IsWireHeader,
          short_by_four rest,
          header_says,
          take-append_long 4 (payload_of f) rest,
        )
        refl

-- A well-formed padded payload: the promised stream id, a fragment and the padding.
pub padded_payload : ℕ → ℕ → List ℕ → List ℕ
padded_payload pad id fragment =
    pad ∷ ((octet id 24 ∷ octet id 16 ∷ octet id 8 ∷ octet id 0 ∷ fragment) ++ replicate pad 0)

slice-fragment :
    (a b c d pad : ℕ) (fragment : List ℕ)
    → slice_from (5 + pad) (a ∷ b ∷ c ∷ d ∷ fragment)
      ≡ (if leb (suc pad) (length fragment) then some (drop (suc pad) fragment) else none)
unfolding slice_from
slice-fragment a b c d pad fragment =
    let e : 5 + pad ≡ suc (suc (suc (suc (suc pad)))) = omega arith in rw e (ground arith)

module _ (h : FrameHeader) (pad id : ℕ) (fragment : List ℕ) (v : IsWireHeader h)
    (is_push_promise : h.frame_type ≡ push_promise_frame_type)
    (is_padded : Flags.is_set {F = PushPromiseFlag} (Flags.new h.flags) padded ≡ true)
    (id_fits : id < 2 ^ 32) (length_eq : h.payload_len ≡ 5 + length fragment + pad) where
  -- Of a well-formed padded frame the parser drops the first `1 + pad` octets of the fragment, and
  -- panics where the fragment is shorter.
  pub from_raw_padded : from_raw (raw_of h (padded_payload pad id fragment)) ≡ (
      if leb (suc pad) (length fragment)
      then ok (record {
        flags = Flags.new h.flags;
        stream_id = h.stream_id;
        promised_stream_id = id;
        header_fragment = drop (suc pad) fragment;
        padding_len = pad;
      })
      else panic)
  unfolding from_raw padded_payload
  from_raw_padded =
      rw
        (
          header-raw_of h (padded_payload pad id fragment) v,
          payload-raw_of h (padded_payload pad id fragment),
          is_push_promise,
          is_padded,
          length_eq,
        )
        (ground (
          arith,
          length-padded (octet id 24 ∷ octet id 16 ∷ octet id 8 ∷ octet id 0 ∷ fragment) pad,
          parse_padded_payload-padded pad
              (octet id 24 ∷ octet id 16 ∷ octet id 8 ∷ octet id 0 ∷ fragment),
          unpack-octets id fragment id_fits,
          slice-fragment (octet id 24) (octet id 16) (octet id 8) (octet id 0) pad fragment,
        ))
