-- ===== src/HttpUtils/Authorization.antt =====
-- parse_authorization: the header `Authorization`, of the schemes Bearer and Basic.
pub mod RoundTrip
use libapostol.Prelude.{
  ℕ, zero, suc, ◌+◌, ◌-◌, Bool, true, false, ◌&&◌, ◌||◌, Option, none, some, List, [], ◌∷◌, Bytes,
  codes, find, length, get_or, take, drop, is_empty, ltb, ◌==◌, if◌then◌else◌,
}
use libapostol.Base64.{base64_decode}

-- Authorization::Schema; `no_schema` is the code's `none`.
pub data Schema : Type 0 where
  no_schema bearer basic : Schema

pub record Authorization : Type 0 where
  pub schema : Schema
  pub username : Bytes
  pub password : Bytes
  pub token : Bytes

abbrev pub empty_authorization : Authorization
empty_authorization = record { schema = no_schema; username = []; password = []; token = [] }

unfoldable pub skip_spaces : Bytes → Bytes
skip_spaces [] = []
skip_spaces (c ∷ cs) = let rest = skip_spaces cs in if c == b' ' then rest else c ∷ cs

-- The characters one by one, each a capital or not.
unfoldable pub starts_with : Bytes → Bytes → Bool
starts_with [] value = true
starts_with (l ∷ ls) [] = false
starts_with (l ∷ ls) (c ∷ cs) = (c == l - 32 || c == l) && starts_with ls cs

-- The scheme's name, a blank, and at least one character more.
abbrev pub is_bearer : Bytes → Bool
is_bearer value =
    ltb 7 (length value) && starts_with (codes "bearer") value && get_or value 6 0 == b' '

abbrev pub is_basic : Bytes → Bool
is_basic value =
    ltb 6 (length value) && starts_with (codes "basic") value && get_or value 5 0 == b' '

-- What the decoded credentials give.
abbrev pub credentials : Bytes → Authorization
credentials decoded = elim (find b':' decoded) [
  | none ↦ record { schema = basic; username = decoded; password = []; token = [] }
  | some colon ↦ record {
    schema = basic;
    username = take colon decoded;
    password = drop (suc colon) decoded;
    token = [];
  }
]

unfoldable pub parse_authorization : Bytes → Authorization
parse_authorization header_value =
    let value = skip_spaces header_value in
    if is_empty value
    then empty_authorization
    else if is_bearer value
    then record { schema = bearer; username = []; password = []; token = drop 7 value }
    else if is_basic value
    then elim (base64_decode (drop 6 value)) [
      | none ↦ empty_authorization
      | some decoded ↦ credentials decoded
    ]
    else empty_authorization
