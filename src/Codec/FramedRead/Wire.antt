-- ===== src/Codec/FramedRead/Wire.antt =====
-- What `poll_http_frame` cuts off the front of the buffer.
use rust_http.Prelude.{
  ℕ, ◌+◌, ◌≤◌, ◌≡◌, refl, ap, arith, List, ◌++◌, take, drop, length, Option, none, some, ltb,
  le→ltb_false, Bool-cases, inl, inr, length-append, length-drop, drop-append, take-append,
  take-append_short, drop-append_short,
}
use rust_http.Prelude.Outcome.{ok, or_panic, bind-ok, or_panic-ok}
use rust_http.Error.{Error, parsed, parsed-ok}
use rust_http.Frame.Header.{FrameHeader, unpack_header}
use rust_http.Frame.Header.RoundTrip.{unpack_header-pack_header}
use rust_http.Frame.Raw.{RawFrame}
use rust_http.Frame.Raw.Parse.{Written, length-raw_of, take-raw_of}
use rust_http.Frame.HttpFrame.{HttpFrame, from_raw}
use rust_http.Codec.FramedRead.{cut_frame, poll_raw_frame, parse_cut, poll_http_frame}

-- A frame is cut off: the header in front is whole, within the limit, and its payload is there.
pub record Cut (max : ℕ) (buf : List ℕ) : Type 0 where
  pub h : FrameHeader
  pub long : 9 ≤ length buf
  pub header_eq : unpack_header (take 9 buf) ≡ some h
  pub within : h.payload_len ≤ max
  pub there : 9 + h.payload_len ≤ length buf

module _ {max : ℕ} {buf : List ℕ} where
  abbrev pub raw_of_cut : Cut max buf → RawFrame
  raw_of_cut c = record { raw_content = take (9 + c.h.payload_len) buf }

  abbrev pub rest_of_cut : Cut max buf → List ℕ
  rest_of_cut c = drop (9 + c.h.payload_len) buf

  pub poll_raw_frame-Cut :
      (c : Cut max buf) → poll_raw_frame max buf ≡ ok (some (raw_of_cut c, rest_of_cut c))
  unfolding poll_raw_frame cut_frame
  poll_raw_frame-Cut c =
      rw
        (
          le→ltb_false (length buf) 9 (c.long),
          c.header_eq,
          le→ltb_false max (c.h.payload_len) (c.within),
          le→ltb_false (length buf) (9 + c.h.payload_len) (c.there),
        )
        refl

cut_frame-ok :
    (max : ℕ) (buf : List ℕ) (h : FrameHeader) (r : RawFrame × List ℕ)
    → cut_frame max buf h ≡ ok (some r)
    → (h.payload_len ≤ max)
      × (9 + h.payload_len ≤ length buf)
      × (r ≡ (record { raw_content = take (9 + h.payload_len) buf }, drop (9 + h.payload_len) buf))
unfolding cut_frame
cut_frame-ok max buf h r e = ground (arith, e)

Cut-poll_raw_frame :
    (max : ℕ) (buf : List ℕ) (r : RawFrame × List ℕ)
    → poll_raw_frame max buf ≡ ok (some r)
    → (c : Cut max buf) × (r ≡ (raw_of_cut c, rest_of_cut c))
unfolding poll_raw_frame
Cut-poll_raw_frame max buf r e = elim (Bool-cases (ltb (length buf) 9)) [
  | inl short ↦ absurd (ground (arith, e, short))
  | inr long ↦
      let (h, he, cut) =
        bind-ok (or_panic (unpack_header (take 9 buf))) (cut_frame max buf) (some r)
          (rw long at e) in
      let (within, there, q) = cut_frame-ok max buf h r cut in
      (
        record {
          h = h;
          long = ground (arith, long);
          header_eq = or_panic-ok Error (unpack_header (take 9 buf)) h he;
          within = within;
          there = there;
        },
        q,
      )
]

-- The same with more octets behind.
Cut-append : {max : ℕ} {buf : List ℕ} (more : List ℕ) → Cut max buf → Cut max (buf ++ more)
Cut-append {buf = buf} more c = record {
  h = c.h;
  long = omega (arith, c.long, length-append buf more);
  header_eq = rw (take-append_short 9 buf more (c.long)) (c.header_eq);
  within = c.within;
  there = omega (arith, c.there, length-append buf more);
}

-- Where a frame was cut off and parsed.
record Parsed (max : ℕ) (buf : List ℕ) (f : HttpFrame) (rest : List ℕ) : Type 0 where
  c : Cut max buf
  rest_eq : rest ≡ rest_of_cut c
  parsed_eq : from_raw (raw_of_cut c) ≡ ok f

parse_cut-ok :
    (o : Option (RawFrame × List ℕ)) (f : HttpFrame) (rest : List ℕ)
    → parse_cut o ≡ ok (some (f, rest))
    → (raw : RawFrame) × (o ≡ some (raw, rest)) × (from_raw raw ≡ ok f)
unfolding parse_cut
parse_cut-ok none f rest e = absurd (ground (arith, e))
parse_cut-ok (some (raw, behind)) f rest e =
    let (g, ge, q) =
      bind-ok (parsed (from_raw raw)) (λ f. ok (some (f, behind))) (some (f, rest)) e in
    (raw, ground (arith, q), rw (parsed-ok (from_raw raw) g ge) (ground (arith, q)))

Parsed-poll :
    (max : ℕ) (buf : List ℕ) (f : HttpFrame) (rest : List ℕ)
    → poll_http_frame max buf ≡ ok (some (f, rest))
    → Parsed max buf f rest
unfolding poll_http_frame
Parsed-poll max buf f rest e =
    let (o, oe, q) = bind-ok (poll_raw_frame max buf) parse_cut (some (f, rest)) e in
    let (raw, re, pe) = parse_cut-ok o f rest q in
    let (c, ce) = Cut-poll_raw_frame max buf (raw, rest) (rw (← re) oe) in
    record { c = c; rest_eq = ap (λ p. p.1) ce; parsed_eq = rw (← ap (λ p. p.0) ce) pe }

poll-Parsed :
    {max : ℕ} {buf : List ℕ} {f : HttpFrame} {rest : List ℕ}
    → Parsed max buf f rest
    → poll_http_frame max buf ≡ ok (some (f, rest))
unfolding poll_http_frame parse_cut
poll-Parsed p = rw (poll_raw_frame-Cut (p.c), p.parsed_eq, p.rest_eq) refl

Cut-Written :
    {octets : List ℕ} {frame_type : ℕ} (max : ℕ) (w : Written octets frame_type)
    → length octets ≤ 9 + max
    → Cut max octets
Cut-Written {octets} max w fits =
    let total : length octets ≡ 9 + length (w.p) = rw (w.octets_eq) (length-raw_of (w.h) (w.p)) in
    record {
      h = w.h;
      long = omega (arith, total);
      header_eq =
          rw (w.octets_eq, take-raw_of (w.h) (w.p)) (unpack_header-pack_header (w.h) (w.fits));
      within = omega (arith, total, w.length_eq, fits);
      there = omega (arith, total, w.length_eq);
    }

-- A written frame that is not larger than the limit is cut off, whatever follows.
pub poll_http_frame-Written :
    {octets : List ℕ} {frame_type : ℕ} (max : ℕ) (w : Written octets frame_type) (f : HttpFrame)
    (rest : List ℕ)
    → length octets ≤ 9 + max
    → from_raw (record { raw_content = octets }) ≡ ok f
    → poll_http_frame max (octets ++ rest) ≡ ok (some (f, rest))
unfolding Cut-append Cut-Written
poll_http_frame-Written {octets} max w f rest fits e =
    let total : 9 + w.h.payload_len ≡ length octets =
      rw (w.octets_eq) (omega (arith, w.length_eq, length-raw_of (w.h) (w.p))) in
    poll-Parsed (record {
      c = Cut-append rest (Cut-Written max w fits);
      rest_eq = rw (total, drop-append octets rest) refl;
      parsed_eq = rw (total, take-append octets rest) e;
    })

-- Where a frame is cut off, at least nine octets of the buffer are gone.
pub poll_http_frame_shorter :
    (max : ℕ) (buf : List ℕ) (f : HttpFrame) (rest : List ℕ)
    → poll_http_frame max buf ≡ ok (some (f, rest))
    → length rest + 9 ≤ length buf
poll_http_frame_shorter max buf f rest e =
    let p = Parsed-poll max buf f rest e in
    rw (p.rest_eq) (omega (arith, length-drop (9 + p.c.h.payload_len) buf, p.c.there))

-- A frame that was cut off is cut off with more octets behind it too.
pub poll_http_frame-append :
    (max : ℕ) (buf more : List ℕ) (f : HttpFrame) (rest : List ℕ)
    → poll_http_frame max buf ≡ ok (some (f, rest))
    → poll_http_frame max (buf ++ more) ≡ ok (some (f, rest ++ more))
unfolding Parsed-poll Cut-append
poll_http_frame-append max buf more f rest e =
    let p = Parsed-poll max buf f rest e in
    poll-Parsed (record {
      c = Cut-append more (p.c);
      rest_eq = rw (p.rest_eq, drop-append_short (9 + p.c.h.payload_len) buf more (p.c.there)) refl;
      parsed_eq = rw (take-append_short (9 + p.c.h.payload_len) buf more (p.c.there)) (p.parsed_eq);
    })
