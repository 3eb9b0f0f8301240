-- ===== src/Message.antt =====
-- The headers of a message, httpbis/src/solicit/header: names and values and their validation. A
-- `RegularHeaderName` and a `HeaderValue` are their octets.
pub mod Accepted
pub mod Values
use rust_http.Prelude.{
  ℕ, suc, ◌+◌, ◌/◌, ◌%◌, ◌^◌, List, [], ◌∷◌, length, take, drop, Option, none, some, ltb, leb, ◌==◌,
  not, ◌&&◌, ◌||◌, Bool, true, false, if◌then◌else◌,
}
use rust_http.Prelude.Outcome.{Outcome, ok, err, panic, ◌>>=◌, ◌>>◌, assert, reject_if, or_panic}

pub data RequestOrResponse : Type 0 where
  request response : RequestOrResponse

pub data HeadersPlace : Type 0 where
  initial trailing : HeadersPlace

pub data PseudoHeaderName : Type 0 where
  method scheme authority path status : PseudoHeaderName

-- A name of a connection-specific header is given by its octets.
pub data HeaderError : Type 0 where
  unknown_pseudo_header : HeaderError
  empty_name : HeaderError
  empty_value : PseudoHeaderName → HeaderError
  incorrect_char_in_name : HeaderError
  incorrect_char_in_value : HeaderError
  header_name_not_ascii : HeaderError
  header_value_not_ascii : HeaderError
  unexpected_pseudo_header : PseudoHeaderName → HeaderError
  pseudo_headers_in_trailers : HeaderError
  pseudo_headers_after_regular_headers : HeaderError
  more_than_one_pseudo_header : PseudoHeaderName → HeaderError
  missing_pseudo_header : PseudoHeaderName → HeaderError
  connection_specific_header : List ℕ → HeaderError
  te_can_only_contain_trailer : HeaderError

abbrev pub HeaderResult : Type 0 → Type 0
HeaderResult A = Outcome HeaderError A

-- Equality of octets.
unfoldable pub same_octets : List ℕ → List ℕ → Bool
same_octets [] [] = true
same_octets (x ∷ xs) (y ∷ ys) = (x == y) && same_octets xs ys
same_octets _ _ = false

-- The number of a variant.
abbrev pub index : PseudoHeaderName → ℕ
index method = 0
index scheme = 1
index authority = 2
index path = 3
index status = 4

abbrev pub same_name : PseudoHeaderName → PseudoHeaderName → Bool
same_name a b = index a == index b

-- `:method`, `:scheme`, `:authority`, `:path`, `:status`
abbrev pub name_of : PseudoHeaderName → List ℕ
name_of method = 58 ∷ 109 ∷ 101 ∷ 116 ∷ 104 ∷ 111 ∷ 100 ∷ []
name_of scheme = 58 ∷ 115 ∷ 99 ∷ 104 ∷ 101 ∷ 109 ∷ 101 ∷ []
name_of authority = 58 ∷ 97 ∷ 117 ∷ 116 ∷ 104 ∷ 111 ∷ 114 ∷ 105 ∷ 116 ∷ 121 ∷ []
name_of path = 58 ∷ 112 ∷ 97 ∷ 116 ∷ 104 ∷ []
name_of status = 58 ∷ 115 ∷ 116 ∷ 97 ∷ 116 ∷ 117 ∷ 115 ∷ []

unfoldable pub parse_pseudo : List ℕ → HeaderResult PseudoHeaderName
parse_pseudo value =
    if same_octets value (name_of method)
    then ok method
    else if same_octets value (name_of scheme)
    then ok scheme
    else if same_octets value (name_of authority)
    then ok authority
    else if same_octets value (name_of path)
    then ok path
    else if same_octets value (name_of status)
    then ok status
    else err unknown_pseudo_header

abbrev pub req_or_resp : PseudoHeaderName → RequestOrResponse
req_or_resp status = response
req_or_resp _ = request

-- `PseudoHeaderNameSet`: the mask; setting a bit that is not set is an addition.
abbrev pub bit : ℕ → PseudoHeaderName → ℕ
bit headers_mask value = headers_mask / 2 ^ index value % 2

abbrev pub contains : ℕ → PseudoHeaderName → Bool
contains headers_mask value = not (bit headers_mask value == 0)

abbrev pub insert : ℕ → PseudoHeaderName → ℕ × Bool
insert headers_mask value = (
  if contains headers_mask value then headers_mask else headers_mask + 2 ^ index value,
  not (contains headers_mask value),
)

abbrev pub is_in : ℕ → List ℕ → Bool
is_in b [] = false
is_in b (x ∷ xs) = (b == x) || is_in b xs

-- `()<>@,;:\"/[]?={}`, space and tab
abbrev pub bad_chars : List ℕ
bad_chars =
    40 ∷ 41 ∷ 60 ∷ 62 ∷ 64 ∷ 44 ∷ 59 ∷ 58 ∷ 92 ∷ 34 ∷ 47 ∷ 91 ∷ 93 ∷ 63 ∷ 61 ∷ 123 ∷ 125 ∷ 32 ∷ 9
    ∷ []

unfoldable pub check_name_char : ℕ → HeaderResult (Unit {0})
check_name_char b =
    if ltb 127 b
    then err header_name_not_ascii
    else reject_if (((ltb b 32 || (b == 127)) || (leb 65 b && leb b 90)) || is_in b bad_chars)
        incorrect_char_in_name

unfoldable pub check_all : (ℕ → HeaderResult (Unit {0})) → List ℕ → HeaderResult (Unit {0})
check_all check [] = ok tt
check_all check (b ∷ bs) = check b >> check_all check bs

unfoldable pub regular_from_bytes : List ℕ → HeaderResult (List ℕ)
regular_from_bytes [] = err empty_name
regular_from_bytes (b ∷ bs) = check_all check_name_char (b ∷ bs) >> ok (b ∷ bs)

unfoldable pub check_value_char : ℕ → HeaderResult (Unit {0})
check_value_char b =
    if ltb 127 b
    then err header_value_not_ascii
    else reject_if ((ltb b 32 || ltb 126 b) && not (b == 9)) incorrect_char_in_value

-- `HeaderValue::from_bytes`
unfoldable pub value_from_bytes : List ℕ → HeaderResult (List ℕ)
value_from_bytes bs = check_all check_value_char bs >> ok bs

-- `From<Bytes> for HeaderValue`, with its `unwrap`.
unfoldable pub value_from : HeaderResult (List ℕ) → HeaderResult (List ℕ)
value_from (err e) = panic
value_from r = r

pub data HeaderName : Type 0 where
  pseudo : PseudoHeaderName → HeaderName
  regular : List ℕ → HeaderName

-- `connection`, `keep-alive`, `proxy-connection`, `transfer-encoding`, `upgrade`
abbrev pub connection_specific_headers : List (List ℕ)
connection_specific_headers =
    (99 ∷ 111 ∷ 110 ∷ 110 ∷ 101 ∷ 99 ∷ 116 ∷ 105 ∷ 111 ∷ 110 ∷ [])
    ∷ (107 ∷ 101 ∷ 101 ∷ 112 ∷ 45 ∷ 97 ∷ 108 ∷ 105 ∷ 118 ∷ 101 ∷ [])
    ∷ (112 ∷ 114 ∷ 111 ∷ 120 ∷ 121 ∷ 45 ∷ 99 ∷ 111 ∷ 110 ∷ 110 ∷ 101 ∷ 99 ∷ 116 ∷ 105 ∷ 111 ∷ 110
        ∷ [])
    ∷ (116 ∷ 114 ∷ 97 ∷ 110 ∷ 115 ∷ 102 ∷ 101 ∷ 114 ∷ 45 ∷ 101 ∷ 110 ∷ 99 ∷ 111 ∷ 100 ∷ 105 ∷ 110
        ∷ 103 ∷ [])
    ∷ (117 ∷ 112 ∷ 103 ∷ 114 ∷ 97 ∷ 100 ∷ 101 ∷ [])
    ∷ []

unfoldable pub not_connection_specific : List (List ℕ) → List ℕ → HeaderResult (Unit {0})
not_connection_specific [] name = ok tt
not_connection_specific (s ∷ ss) name =
    reject_if (same_octets name s) (connection_specific_header s) >> not_connection_specific ss name

unfoldable pub name_new_validate : List ℕ → HeaderResult HeaderName
name_new_validate [] = err empty_name
name_new_validate (b ∷ bs) =
    if b == 58
    then (parse_pseudo (b ∷ bs) >>= λ p. ok (pseudo p))
    else (not_connection_specific connection_specific_headers (b ∷ bs)
        >> (regular_from_bytes (b ∷ bs) >>= λ r. ok (regular r)))

abbrev pub name_octets : HeaderName → List ℕ
name_octets (pseudo p) = name_of p
name_octets (regular r) = r

abbrev pub pseudo_header_name : HeaderName → Option PseudoHeaderName
pseudo_header_name (pseudo p) = some p
pseudo_header_name (regular r) = none

abbrev pub is_pseudo : HeaderName → Bool
is_pseudo (pseudo p) = true
is_pseudo (regular r) = false

pub record Header : Type 0 where
  pub name : HeaderName
  pub value : List ℕ

-- `Header::new_validate`
unfoldable pub new_validate : List ℕ → List ℕ → HeaderResult Header
new_validate name value = do
  name ← name_new_validate name
  value ← value_from (value_from_bytes value)
  ok (record { name = name; value = value })

abbrev pub same_side : RequestOrResponse → RequestOrResponse → Bool
same_side request request = true
same_side response response = true
same_side _ _ = false

abbrev pub expected : RequestOrResponse → Option PseudoHeaderName → HeaderResult (Unit {0})
expected side none = ok tt
expected side (some h) =
    reject_if (not (same_side (req_or_resp h) side)) (unexpected_pseudo_header h)

-- `te` and `trailers`
abbrev pub wrong_te : RequestOrResponse → Header → Bool
wrong_te side h =
    (same_side side request && same_octets (name_octets (h.name)) (116 ∷ 101 ∷ []))
    && not (same_octets (h.value) (116 ∷ 114 ∷ 97 ∷ 105 ∷ 108 ∷ 101 ∷ 114 ∷ 115 ∷ []))

-- `Header::validate`
unfoldable pub validate_header : Header → RequestOrResponse → HeaderResult (Unit {0})
validate_header h side =
    expected side (pseudo_header_name (h.name))
    >> reject_if (wrong_te side h) te_can_only_contain_trailer

pub record Headers : Type 0 where
  pub headers : List Header
  pub pseudo_count : ℕ

-- The loop of `from_vec_pseudo_first`, which counts the pseudo headers.
unfoldable pub count_pseudo : Bool → ℕ → List Header → HeaderResult ℕ
count_pseudo saw_regular_header count [] = ok count
count_pseudo saw_regular_header count (h ∷ hs) =
    if is_pseudo (h.name)
    then (reject_if saw_regular_header pseudo_headers_after_regular_headers
        >> count_pseudo saw_regular_header (suc count) hs)
    else count_pseudo true count hs

unfoldable pub from_vec_pseudo_first : List Header → HeaderResult Headers
from_vec_pseudo_first hs =
    count_pseudo false 0 hs >>= λ count. ok (record { headers = hs; pseudo_count = count })

abbrev pub is_trailing : HeadersPlace → Bool
is_trailing trailing = true
is_trailing initial = false

abbrev pub empty_path : PseudoHeaderName → List ℕ → Bool
empty_path header_name value = same_name header_name path && (length value == 0)

-- A pseudo header, which gives the mask after it.
unfoldable pub check_pseudo : RequestOrResponse → HeadersPlace → ℕ → Header → HeaderResult ℕ
check_pseudo side place met h = do
  assert (is_pseudo h.name)
  validate_header h side
  header_name ← or_panic (pseudo_header_name h.name)
  reject_if (is_trailing place) pseudo_headers_in_trailers
  let (met, fresh) = insert met header_name
  reject_if (not fresh) (more_than_one_pseudo_header header_name)
  reject_if (empty_path header_name h.value) (empty_value header_name)
  ok met

unfoldable pub check_pseudos : RequestOrResponse → HeadersPlace → ℕ → List Header → HeaderResult ℕ
check_pseudos side place met [] = ok met
check_pseudos side place met (h ∷ hs) =
    check_pseudo side place met h >>= λ met. check_pseudos side place met hs

unfoldable pub check_regulars : RequestOrResponse → List Header → HeaderResult (Unit {0})
check_regulars side [] = ok tt
check_regulars side (h ∷ hs) =
    validate_header h side >> (assert (not (is_pseudo (h.name))) >> check_regulars side hs)

abbrev pub required_headers : RequestOrResponse → List PseudoHeaderName
required_headers request = method ∷ scheme ∷ path ∷ []
required_headers response = status ∷ []

unfoldable pub check_required : ℕ → List PseudoHeaderName → HeaderResult (Unit {0})
check_required met [] = ok tt
check_required met (n ∷ ns) =
    reject_if (not (contains met n)) (missing_pseudo_header n) >> check_required met ns

abbrev pub complete : RequestOrResponse → HeadersPlace → ℕ → HeaderResult (Unit {0})
complete side initial met = check_required met (required_headers side)
complete side trailing met = ok tt

-- `Headers::validate`
unfoldable pub validate : Headers → RequestOrResponse → HeadersPlace → HeaderResult (Unit {0})
validate hs side place = do
  met ← check_pseudos side place 0 (take hs.pseudo_count hs.headers)
  check_regulars side (drop hs.pseudo_count hs.headers)
  complete side place met
