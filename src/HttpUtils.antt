-- ===== src/HttpUtils.antt =====
-- src/core/http_utils.cpp: the encoding of URLs, the escaping of JSON text, patterns of paths, and
-- the address of a client behind proxies. What inet_pton takes for an address is a parameter.
pub mod Urls
pub mod Json
pub mod Authorization
pub mod Headers
pub mod Proxies
mod Tests
use libapostol.Prelude.{
  ℕ, zero, suc, ◌+◌, ◌-◌, ◌*◌, ◌/◌, ◌%◌, ◌^◌, bit_or, Bool, true, false, not, ◌&&◌, ◌||◌, Option,
  none, some, List, [], ◌∷◌, ◌++◌, Bytes, bytes_eq, length, get_or, take, drop, any, is_empty, ltb,
  leb, ◌==◌, if◌then◌else◌,
}

-- The characters that need no escape in a URL.
abbrev pub is_unreserved : ℕ → Bool
is_unreserved c =
    (leb b'A' c && leb c b'Z')
    || (leb b'a' c && leb c b'z')
    || (leb b'0' c && leb c b'9')
    || c == b'-'
    || c == b'_'
    || c == b'.'
    || c == b'~'

-- One digit of `{:02X}`
abbrev pub hex_digit : ℕ → ℕ
hex_digit v = if ltb v 10 then b'0' + v else b'A' + (v - 10)

unfoldable pub url_encode : Bytes → Bytes
url_encode [] = []
url_encode (c ∷ cs) =
    let rest = url_encode cs in
    if is_unreserved c then c ∷ rest else b'%' ∷ hex_digit (c / 16) ∷ hex_digit (c % 16) ∷ rest

-- -1 is `none`
unfoldable pub hex_val : ℕ → Option ℕ
hex_val c =
    if leb b'0' c && leb c b'9'
    then some (c - b'0')
    else if leb b'A' c && leb c b'F'
    then some (c - b'A' + 10)
    else if leb b'a' c && leb c b'f'
    then some (c - b'a' + 10)
    else none

-- The character of two digits, when both are hexadecimal.
unfoldable pub hex_pair : ℕ → ℕ → Option ℕ
hex_pair h l = elim (hex_val h) [
  | none ↦ none
  | some hi ↦ elim (hex_val l) [ none ↦ none | some lo ↦ some (bit_or (hi * 2 ^ 4) lo) ]
]

-- A character that stands for itself, `+` for a blank.
abbrev pub plain : ℕ → ℕ
plain c = if c == b'+' then b' ' else c

unfoldable pub url_decode : Bytes → Bytes
url_decode [] = []
url_decode (c ∷ []) = plain c ∷ []
url_decode (c ∷ h ∷ []) = plain c ∷ url_decode (h ∷ [])
url_decode (c ∷ h ∷ l ∷ cs) =
    let after = url_decode cs in
    let next = url_decode (h ∷ l ∷ cs) in
    if c == b'%'
    then elim (hex_pair h l) [ none ↦ c ∷ next | some value ↦ value ∷ after ]
    else plain c ∷ next

unfoldable pub json_escape : Bytes → Bytes
json_escape [] = []
json_escape (c ∷ cs) =
    let rest = json_escape cs in
    if c == b'"'
    then b'\\' ∷ b'"' ∷ rest
    else if c == b'\\'
    then b'\\' ∷ b'\\' ∷ rest
    else if c == b'\n'
    then b'\\' ∷ b'n' ∷ rest
    else if c == b'\r'
    then b'\\' ∷ b'r' ∷ rest
    else if c == b'\t'
    then b'\\' ∷ b't' ∷ rest
    else c ∷ rest
