-- ===== src/Message/Accepted.antt =====
-- What headers are accepted.
use rust_http.Prelude.{
  ℕ, ◌+◌, ◌^◌, ◌≤◌, ◌≡◌, refl, arith, List, [], ◌∷◌, All, take, drop, Option, none, some, not, true,
  false, Bool-cases, inl, inr, if◌then◌else◌,
}
use rust_http.Prelude.Outcome.{ok, ◌>>=◌, assert, reject_if, or_panic, bind-ok}
use rust_http.Message.{
  PseudoHeaderName, method, scheme, authority, path, status, pseudo_header_name, is_pseudo, Header,
  Headers, RequestOrResponse, HeadersPlace, initial, trailing, HeaderError, same_name, bit, index,
  contains, pseudo_headers_in_trailers, more_than_one_pseudo_header, empty_value, insert,
  check_pseudo, check_pseudos, check_regulars, check_required, complete, required_headers,
  validate_header, validate, is_trailing, empty_path,
}

-- How often a pseudo header is there.
abbrev pub same : PseudoHeaderName → Option PseudoHeaderName → ℕ
same n none = 0
same n (some p) = if same_name p n then 1 else 0

abbrev pub occurrences : PseudoHeaderName → List Header → ℕ
occurrences n [] = 0
occurrences n (h ∷ hs) = same n (pseudo_header_name (h.name)) + occurrences n hs

bit-insert :
    (mask : ℕ) (p n : PseudoHeaderName)
    → contains mask p ≡ false
    → bit (mask + 2 ^ index p) n ≡ bit mask n + same n (some p)
bit-insert mask p n h = ground (arith, h)

or_panic-some :
    {A : Type 0} (o : Option A) (a : A) → or_panic {E = HeaderError} o ≡ ok a → o ≡ some a
or_panic-some none a e = absurd (ground (arith, e))
or_panic-some (some b) a e = ground (arith, e)

-- The end of the check, once the name is known.
inserted-bit :
    (mask mask' : ℕ) (p n : PseudoHeaderName) (value : List ℕ)
    → (reject_if (not ((insert mask p).1)) (more_than_one_pseudo_header p) >>= λ _.
        reject_if (empty_path p value) (empty_value p) >>= λ _. ok ((insert mask p).0))
      ≡ ok mask'
    → bit mask' n ≡ bit mask n + same n (some p)
inserted-bit mask mask' p n value e = elim (Bool-cases (contains mask p)) [
  | inl there ↦ absurd (ground (arith, rw there at e))
  | inr fresh ↦ elim (Bool-cases (empty_path p value)) [
    | inl empty ↦ absurd (ground (arith, rw (fresh, empty) at e))
    | inr full ↦
        let q : mask + 2 ^ index p ≡ mask' = ground (arith, rw (fresh, full) at e) in
        rw (← q) (bit-insert mask p n fresh)
  ]
]

-- A pseudo header that is accepted sets its bit, which was not set.
check_pseudo-bit :
    (side : RequestOrResponse) (place : HeadersPlace) (mask mask' : ℕ) (h : Header)
    (n : PseudoHeaderName)
    → check_pseudo side place mask h ≡ ok mask'
    → bit mask' n ≡ bit mask n + same n (pseudo_header_name (h.name))
unfolding check_pseudo
check_pseudo-bit side place mask mask' h n e =
    let (_, _, e1) = bind-ok (assert (is_pseudo (h.name))) _ mask' e in
    let (_, _, e2) = bind-ok (validate_header h side) _ mask' e1 in
    let (p, pe, e3) = bind-ok (or_panic (pseudo_header_name (h.name))) _ mask' e2 in
    let (_, _, e4) =
      bind-ok (reject_if (is_trailing place) pseudo_headers_in_trailers) _ mask' e3 in
    rw (or_panic-some (pseudo_header_name (h.name)) p pe) (inserted-bit mask mask' p n (h.value) e4)

check_pseudos-bit :
    (side : RequestOrResponse) (place : HeadersPlace) (mask mask' : ℕ) (hs : List Header)
    (n : PseudoHeaderName)
    → check_pseudos side place mask hs ≡ ok mask'
    → bit mask' n ≡ bit mask n + occurrences n hs
unfolding check_pseudos
check_pseudos-bit side place mask mask' [] n e =
    let q : mask ≡ mask' = ground (arith, e) in rw (← q) (omega arith)
check_pseudos-bit side place mask mask' (h ∷ hs) n e =
    let (m, me, r) = bind-ok (check_pseudo side place mask h) _ mask' e in
    omega (
      arith,
      check_pseudo-bit side place mask m h n me,
      check_pseudos-bit side place m mask' hs n r,
    )

check_required-All :
    (mask : ℕ) (ns : List PseudoHeaderName)
    → check_required mask ns ≡ ok tt
    → All (λ n. contains mask n ≡ true) ns
unfolding check_required
check_required-All mask [] e = tt
check_required-All mask (n ∷ ns) e = elim (Bool-cases (contains mask n)) [
  | inl c ↦ (c, check_required-All mask ns (rw c at e))
  | inr c ↦ absurd (ground (arith, rw c at e))
]

set_once :
    (mask : ℕ) (n : PseudoHeaderName) (k : ℕ)
    → bit mask n ≡ bit 0 n + k
    → contains mask n ≡ true
    → k ≡ 1
set_once mask n k e c = ground (arith, e, c)

no_pseudo_in_trailers :
    (side : RequestOrResponse) (mask mask' : ℕ) (hs : List Header)
    → check_pseudos side trailing mask hs ≡ ok mask'
    → hs ≡ []
unfolding check_pseudos check_pseudo
no_pseudo_in_trailers side mask mask' [] e = refl
no_pseudo_in_trailers side mask mask' (h ∷ hs) e =
    let (m, me, r) = bind-ok (check_pseudo side trailing mask h) _ mask' e in
    let (_, _, e1) = bind-ok (assert (is_pseudo (h.name))) _ m me in
    let (_, _, e2) = bind-ok (validate_header h side) _ m e1 in
    let (p, pe, e3) = bind-ok (or_panic (pseudo_header_name (h.name))) _ m e2 in
    absurd (ground (arith, e3))

bit_bound : (mask : ℕ) (n : PseudoHeaderName) → bit mask n ≤ 1
bit_bound mask n = omega arith

clear : (n : PseudoHeaderName) → bit 0 n ≡ 0
clear method = refl
clear scheme = refl
clear authority = refl
clear path = refl
clear status = refl

-- How often pseudo headers are there in accepted ones: the required ones once and no other twice in
-- the initial headers, and none in trailers.
abbrev pub Allowed : RequestOrResponse → HeadersPlace → List Header → Type 0
Allowed side initial hs =
    All (λ n. occurrences n hs ≡ 1) (required_headers side)
    × ((n : PseudoHeaderName) → occurrences n hs ≤ 1)
Allowed side trailing hs = hs ≡ []

counted_once :
    (mask : ℕ) (hs : List Header) (ns : List PseudoHeaderName)
    → ((n : PseudoHeaderName) → bit mask n ≡ bit 0 n + occurrences n hs)
    → All (λ n. contains mask n ≡ true) ns
    → All (λ n. occurrences n hs ≡ 1) ns
counted_once mask hs [] e a = tt
counted_once mask hs (n ∷ ns) e a =
    (set_once mask n (occurrences n hs) (e n) (a.0), counted_once mask hs ns e (a.1))

complete-Allowed :
    (side : RequestOrResponse) (place : HeadersPlace) (mask : ℕ) (hs : List Header)
    → check_pseudos side place 0 hs ≡ ok mask
    → complete side place mask ≡ ok tt
    → Allowed side place hs
complete-Allowed side initial mask hs e c =
    let counted = λ (n : PseudoHeaderName). check_pseudos-bit side initial 0 mask hs n e in
    (
      counted_once mask hs (required_headers side) counted
          (check_required-All mask (required_headers side) c),
      λ n. omega (arith, counted n, clear n, bit_bound mask n),
    )
complete-Allowed side trailing mask hs e c = no_pseudo_in_trailers side 0 mask hs e

-- Headers that are accepted as the initial ones of a request or a response have each required pseudo
-- header once among their pseudo headers, the ones that `pseudo_count` counts, and no other one twice;
-- ones that are accepted as trailers have none counted.
pub validate-Allowed :
    (hs : Headers) (side : RequestOrResponse) (place : HeadersPlace)
    → validate hs side place ≡ ok tt
    → Allowed side place (take (hs.pseudo_count) (hs.headers))
unfolding validate
validate-Allowed hs side place e =
    let first : List Header = take (hs.pseudo_count) (hs.headers) in
    let (mask, me, e1) = bind-ok (check_pseudos side place 0 first) _ tt e in
    let (_, _, e2) = bind-ok (check_regulars side (drop (hs.pseudo_count) (hs.headers))) _ tt e1 in
    complete-Allowed side place mask first me e2
