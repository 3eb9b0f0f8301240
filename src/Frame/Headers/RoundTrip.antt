-- ===== src/Frame/Headers/RoundTrip.antt =====
-- A `HEADERS` frame read back from what it writes.
use rust_http.Prelude.{
  ℕ, ◌+◌, ◌*◌, ◌/◌, ◌%◌, ◌<◌, ◌^◌, ◌≡◌, ◌≢◌, refl, arith, Bool, true, false, inl, inr, List, [],
  ◌∷◌, ◌++◌, length, slice_from, replicate, append_assoc, length-append, Bool-cases, Option, some,
  none, if◌then◌else◌, bit_or,
}
use rust_http.Prelude.Bits.{set_top_bit, bit_or-zero, bit_and_low, bit_and_bit}
use rust_http.Prelude.Outcome.{ok}
use mathlib.Core.Option
use rust_http.Frame.Flags
use rust_http.Frame.Header.{pack_header, octet, unpack_octets_4}
use rust_http.Frame.Header.Octets.{octet-eq, join_octets_4-eq}
use rust_http.Frame.Header.RoundTrip.{IsWireHeader}
use rust_http.Frame.Raw.Parse.{header-raw_of, payload-raw_of, Written}
use rust_http.Frame.Padding.{parse_padded_payload, parse_padded_payload-padded, length-padded}
use rust_http.Frame.Headers.{
  headers_frame_type, HeadersFrame, headers_flag, StreamDependency, priority, padded,
  parse_dependency, serialize_dependency, split_dependency, dependency_octets, get_header,
  payload_len, from_raw, serialize_into,
}

record IsWireDependency (stream_id : ℕ) (d : StreamDependency) : Type 0 where
  dependency_fits : d.stream_id < 2 ^ 31
  not_itself : d.stream_id ≢ stream_id
  weight_fits : d.weight < 256

-- What is stored is what the flags announce.
abbrev IsFlagged : Bool → ℕ → Option StreamDependency → Type 0
IsFlagged true stream_id (some d) = IsWireDependency stream_id d
IsFlagged true stream_id none = ⊥
IsFlagged false stream_id (some d) = ⊥
IsFlagged false stream_id none = Unit {0}

pub record IsWire (f : HeadersFrame) : Type 0 where
  pub stream_id_nonzero : 0 < f.stream_id
  pub stream_id_fits : f.stream_id < 2 ^ 31
  pub flags_fit : f.flags.bits < 256
  pub padding_fits : f.padding_len < 256
  pub padding_flagged : Flags.is_set f.flags padded ≡ false → f.padding_len ≡ 0
  dependency_flagged : IsFlagged (Flags.is_set f.flags priority) f.stream_id f.stream_dep
  pub length_fits : 6 + length f.header_fragment + f.padding_len < 2 ^ 24

-- The first octet: the exclusive bit above seven bits of the stream id.
first_octet :
    (b : Bool) (n : ℕ)
    → n < 2 ^ 31
    → bit_or (octet n 24) (if b then 0x80 else 0) ≡ n / 2 ^ 24 + (if b then 0x80 else 0)
first_octet true n h =
    rw (octet-eq n 24) (omega (arith, set_top_bit (n / 2 ^ 24 % 256) (omega arith)))
first_octet false n h = rw (octet-eq n 24, bit_or-zero) (omega arith)

parse-serialize_dependency :
    (d : StreamDependency) (rest : List ℕ)
    → d.stream_id < 2 ^ 31
    → d.weight < 256
    → parse_dependency (serialize_dependency d ++ rest) ≡ some d
unfolding parse_dependency serialize_dependency unpack_octets_4
parse-serialize_dependency d rest h w =
    let n = d.stream_id in
    let hi : ℕ = if d.is_exclusive then 0x80 else 0 in
    rw (first_octet d.is_exclusive n h, octet-eq n 16, octet-eq n 8, octet-eq n 0)
      (ground (
        arith,
        join_octets_4-eq (n / 2 ^ 24 + hi) (n / 2 ^ 16 % 256) (n / 2 ^ 8 % 256) (n / 2 ^ 0 % 256),
        bit_and_low 31 (n + hi * 2 ^ 24),
        bit_and_bit 7 (n / 2 ^ 24 + hi),
      ))

dep_octets : Option StreamDependency → List ℕ
dep_octets (some d) = serialize_dependency d
dep_octets none = []

-- The octets behind the header, with `padded` a test of the flags.
payload_of : HeadersFrame → List ℕ
payload_of f =
    let content = dep_octets f.stream_dep ++ f.header_fragment in
    if Flags.is_set f.flags padded
    then f.padding_len ∷ (content ++ replicate f.padding_len 0)
    else content

length-dep_octets :
    (b : Bool) (stream_id : ℕ) (d : Option StreamDependency)
    → IsFlagged b stream_id d
    → length (dep_octets d) ≡ (if b then 5 else 0)
unfolding dep_octets serialize_dependency
length-dep_octets true stream_id (some d) h = refl
length-dep_octets true stream_id none h = absurd h
length-dep_octets false stream_id (some d) h = absurd h
length-dep_octets false stream_id none h = refl

map-dep_octets :
    (b : Bool) (stream_id : ℕ) (d : Option StreamDependency)
    → IsFlagged b stream_id d
    → (if b then Option.map serialize_dependency d else some []) ≡ some (dep_octets d)
unfolding dep_octets
map-dep_octets true stream_id (some d) h = refl
map-dep_octets true stream_id none h = absurd h
map-dep_octets false stream_id (some d) h = absurd h
map-dep_octets false stream_id none h = refl

slice-dependency :
    (d : StreamDependency) (fragment : List ℕ)
    → slice_from 5 (serialize_dependency d ++ fragment) ≡ some fragment
unfolding serialize_dependency slice_from
slice-dependency d fragment = ground arith

split-dep_octets :
    (b : Bool) (stream_id : ℕ) (d : Option StreamDependency) (fragment : List ℕ)
    → IsFlagged b stream_id d
    → split_dependency stream_id (dep_octets d ++ fragment) b ≡ ok (fragment, d)
unfolding dep_octets split_dependency
split-dep_octets true stream_id (some d) fragment h =
    rw
      (
        parse-serialize_dependency d fragment h.dependency_fits h.weight_fits,
        slice-dependency d fragment,
      )
      (ground (arith, h.not_itself))
split-dep_octets true stream_id none fragment h = absurd h
split-dep_octets false stream_id (some d) fragment h = absurd h
split-dep_octets false stream_id none fragment h = refl

module _ (f : HeadersFrame) (v : IsWire f) where
  length-payload_of : payload_len f ≡ length (payload_of f)
  unfolding payload_len payload_of
  length-payload_of = ground (
    arith,
    length-dep_octets (Flags.is_set f.flags priority) f.stream_id f.stream_dep v.dependency_flagged,
    length-append (dep_octets f.stream_dep) f.header_fragment,
    length-padded (dep_octets f.stream_dep ++ f.header_fragment) f.padding_len,
  )

  get_header-IsWireHeader : IsWireHeader (get_header f)
  unfolding get_header payload_len
  get_header-IsWireHeader = ground arith

  pub written_octets : List ℕ
  written_octets = pack_header (get_header f) ++ payload_of f

  pub serialize_into-eq : serialize_into f [] ≡ some written_octets
  unfolding serialize_into payload_of dependency_octets written_octets
  serialize_into-eq =
      rw
        (map-dep_octets (Flags.is_set f.flags priority) f.stream_id f.stream_dep
          v.dependency_flagged)
        (elim (Bool-cases (Flags.is_set f.flags padded)) [
          | inl p ↦ simp (p, append_assoc)
          | inr p ↦ simp (p, append_assoc)
        ])

  parse_payload_of :
      parse_padded_payload (payload_of f) (Flags.is_set f.flags padded)
      ≡ ok (dep_octets f.stream_dep ++ f.header_fragment, f.padding_len)
  unfolding payload_of
  parse_payload_of = elim (Bool-cases (Flags.is_set f.flags padded)) [
    | inl p ↦ rw p (parse_padded_payload-padded f.padding_len _)
    | inr p ↦ rw p (unfold parse_padded_payload in ground (arith, v.padding_flagged p))
  ]

  pub from_raw-written_octets : from_raw (record { raw_content = written_octets }) ≡ ok f
  unfolding from_raw written_octets
  from_raw-written_octets =
      rw
        (
          header-raw_of (get_header f) (payload_of f) get_header-IsWireHeader,
          payload-raw_of (get_header f) (payload_of f),
        )
        (unfold get_header in
          ground (
            arith,
            length-payload_of,
            parse_payload_of,
            split-dep_octets (Flags.is_set f.flags priority) f.stream_id f.stream_dep
                f.header_fragment v.dependency_flagged,
          ))

  -- A frame whose flags announce what it stores is written without a panic, and its octets are
  -- parsed into the frame: fragment, dependency, padding length and flags come back.
  pub from_raw-serialize_into :
      (octets : List ℕ) × (serialize_into f [] ≡ some octets)
      × (from_raw (record { raw_content = octets }) ≡ ok f)
  from_raw-serialize_into = (written_octets, serialize_into-eq, from_raw-written_octets)

  pub written_octets-Written : Written written_octets headers_frame_type
  unfolding get_header written_octets
  written_octets-Written = record {
    h = get_header f;
    p = payload_of f;
    octets_eq = refl;
    fits = get_header-IsWireHeader;
    length_eq = length-payload_of;
    type_eq = refl;
  }
