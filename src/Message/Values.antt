-- ===== src/Message/Values.antt =====
-- The lookups of httpbis/src/solicit/header/mod.rs: `get_opt`, `status` and `content_length`. The
-- conversion of a value to a `str` is left out: a value that is not UTF-8 has an octet above 127, which
-- is no digit either.
use rust_http.Prelude.{
  ℕ, ◌+◌, ◌-◌, ◌*◌, ◌^◌, List, [], ◌∷◌, take, drop, Option, none, some, leb, ◌==◌, ◌&&◌,
  if◌then◌else◌,
}
use mathlib.Core.Option
use rust_http.Message.{Header, Headers, name_octets, same_octets}

-- `from_str` of an unsigned integer that is at most `max`, after the sign.
unfoldable pub parse_digits : ℕ → ℕ → List ℕ → Option ℕ
parse_digits max acc [] = some acc
parse_digits max acc (b ∷ bs) =
    let next : ℕ = acc * 10 + (b - 48) in
    let rest : Option ℕ = parse_digits max next bs in
    if (leb 48 b && leb b 57) && leb next max then rest else none

-- `from_str`, which takes a `+` before the digits.
unfoldable pub parse_unsigned : ℕ → List ℕ → Option ℕ
parse_unsigned max [] = none
parse_unsigned max (b ∷ []) = parse_digits max 0 (b ∷ [])
parse_unsigned max (b ∷ c ∷ bs) = parse_digits max 0 (if b == 43 then c ∷ bs else b ∷ c ∷ bs)

unfoldable pub find_value : List ℕ → List Header → Option (List ℕ)
find_value name [] = none
find_value name (h ∷ hs) =
    let rest = find_value name hs in
    if same_octets (name_octets (h.name)) name then some (h.value) else rest

-- A name that starts with `:` is looked up among the pseudo headers.
abbrev pub searched : Headers → List ℕ → List Header
searched hs [] = drop (hs.pseudo_count) (hs.headers)
searched hs (b ∷ name) =
    if b == 58 then take (hs.pseudo_count) (hs.headers) else drop (hs.pseudo_count) (hs.headers)

abbrev pub get_opt : Headers → List ℕ → Option (List ℕ)
get_opt hs name = find_value name (searched hs name)

-- `:status`
abbrev pub status_name : List ℕ
status_name = 58 ∷ 115 ∷ 116 ∷ 97 ∷ 116 ∷ 117 ∷ 115 ∷ []

-- `content-length`
abbrev pub content_length_name : List ℕ
content_length_name =
    99 ∷ 111 ∷ 110 ∷ 116 ∷ 101 ∷ 110 ∷ 116 ∷ 45 ∷ 108 ∷ 101 ∷ 110 ∷ 103 ∷ 116 ∷ 104 ∷ []

-- `none` is the panic of `unwrap`.
unfoldable pub status : Headers → Option ℕ
status hs = Option.bind (get_opt hs status_name) (parse_unsigned (2 ^ 32 - 1))

unfoldable pub content_length : Headers → Option ℕ
content_length hs = Option.bind (get_opt hs content_length_name) (parse_unsigned (2 ^ 64 - 1))
