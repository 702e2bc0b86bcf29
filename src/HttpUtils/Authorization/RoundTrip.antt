-- ===== src/HttpUtils/Authorization/RoundTrip.antt =====
-- Reading the credentials that a client writes for the scheme Basic.
use libapostol.Prelude.{
  ℕ, ◌<◌, ◌≡◌, ◌∙◌, refl, true, false, some, [], ◌∷◌, ◌++◌, Bytes, codes, IsByte, All, All-append,
  Avoids, find-first, take-whole, drop-past-char, length, arith,
}
use libapostol.Base64.{base64_encode, base64_decode}
use libapostol.Base64.RoundTrip.{decode-encode}
use libapostol.HttpUtils.Authorization.{
  basic, is_bearer, is_basic, credentials, skip_spaces, starts_with, parse_authorization,
}

credentials-join :
    (user password : Bytes)
    → Avoids b':' user
    → credentials (user ++ (b':' ∷ password))
      ≡ record { schema = basic; username = user; password = password; token = [] }
credentials-join user password h = rw (
  find-first b':' user password h,
  take-whole user (b':' ∷ password),
  drop-past-char b':' user password,
  credentials,
)

length-base64_encode : (c : ℕ) (s : Bytes) → 0 < length (base64_encode (c ∷ s))
unfolding base64_encode
length-base64_encode c [] = omega arith
length-base64_encode c (d ∷ []) = omega arith
length-base64_encode c (d ∷ e ∷ s) = omega arith

not_bearer : (value : Bytes) → is_bearer (codes "Basic " ++ value) ≡ false
unfolding starts_with
not_bearer value = ground arith

yes_basic : (value : Bytes) → 0 < length value → is_basic (codes "Basic " ++ value) ≡ true
unfolding starts_with
yes_basic value h = ground arith

no_spaces : (value : Bytes) → skip_spaces (codes "Basic " ++ value) ≡ codes "Basic " ++ value
unfolding skip_spaces
no_spaces value = refl

-- The header before the credentials are decoded.
parse-basic :
    (value decoded : Bytes)
    → 0 < length value
    → base64_decode value ≡ some decoded
    → parse_authorization (codes "Basic " ++ value) ≡ credentials decoded
unfolding parse_authorization
parse-basic value decoded h e = rw (no_spaces value, not_bearer value, yes_basic value h, e)

encoded_some : (user password : Bytes) → 0 < length (base64_encode (user ++ (b':' ∷ password)))
encoded_some [] password = length-base64_encode b':' password
encoded_some (c ∷ user) password = length-base64_encode c (user ++ (b':' ∷ password))

-- The header `Basic` with the Base64 of a user name without a colon, a colon and a password, all of
-- bytes, gives that name and that password.
pub parse_authorization-base64_encode :
    (user password : Bytes)
    → All IsByte user
    → All IsByte password
    → Avoids b':' user
    → parse_authorization (codes "Basic " ++ base64_encode (user ++ (b':' ∷ password)))
      ≡ record { schema = basic; username = user; password = password; token = [] }
parse_authorization-base64_encode user password hu hp clean =
    parse-basic (base64_encode (user ++ (b':' ∷ password))) (user ++ (b':' ∷ password))
      (encoded_some user password)
      (decode-encode (user ++ (b':' ∷ password))
        (All-append IsByte user (b':' ∷ password) hu (omega arith, hp)))
    ∙ credentials-join user password clean
