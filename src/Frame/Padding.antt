-- ===== src/Frame/Padding.antt =====
-- `parse_padded_payload` of httpbis/src/solicit/frame/mod.rs.
use rust_http.Prelude.{
  ℕ, suc, ◌+◌, ◌-◌, ◌≡◌, arith, Bool, true, false, List, [], ◌∷◌, ◌++◌, take, drop, length,
  replicate, leb, length-append, length-replicate, take-append,
}
use rust_http.Prelude.Outcome.{ok, err}
use rust_http.Frame.Error.{ParseFrameResult, protocol_error}
use rust_http.Prelude.{if◌then◌else◌}

-- `payload.slice(1..payload.len() - pad_len)`, for `pad_len < payload.len()`.
padded_content : ℕ → List ℕ → ParseFrameResult (List ℕ × ℕ)
padded_content pad_len payload =
    if leb (length payload) pad_len
    then err protocol_error
    else ok (drop 1 (take (length payload - pad_len) payload), pad_len)

unfoldable pub parse_padded_payload : List ℕ → Bool → ParseFrameResult (List ℕ × ℕ)
unfolding padded_content
parse_padded_payload payload false = ok (payload, 0)
parse_padded_payload [] true = err protocol_error
parse_padded_payload (pad_len ∷ rest) true = padded_content pad_len (pad_len ∷ rest)

pub length-padded :
    (content : List ℕ) (n : ℕ) → length (content ++ replicate n 0) ≡ length content + n
length-padded content n =
    let z : ℕ = 0 in omega (arith, length-append content (replicate n z), length-replicate n z)

-- What was padded on writing loses its padding on reading.
pub parse_padded_payload-padded :
    (n : ℕ) (content : List ℕ)
    → parse_padded_payload (n ∷ (content ++ replicate n 0)) true ≡ ok (content, n)
unfolding parse_padded_payload
parse_padded_payload-padded n content =
    let e : suc (length (content ++ replicate n 0)) - n ≡ suc (length content) =
      omega (arith, length-padded content n) in
    rw (e, take-append content (replicate n 0)) (ground (arith, length-padded content n))
