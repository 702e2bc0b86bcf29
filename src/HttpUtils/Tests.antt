-- ===== src/HttpUtils/Tests.antt =====
-- Runs of the helpers, with a stand-in for inet_pton that takes any text with a dot.
use libapostol.Prelude.{
  ℕ, ◌≡◌, refl, arith, Bool, false, some, [], ◌∷◌, ◌++◌, Bytes, codes, any, ◌==◌, find,
}
use libapostol.HttpUtils.{url_encode, url_decode, hex_val, hex_pair, json_escape}
use libapostol.Base64.{base64_encode}
use libapostol.HttpUtils.Authorization.{parse_authorization, basic}
use libapostol.HttpUtils.Authorization.RoundTrip.{parse_authorization-base64_encode}
use libapostol.HttpUtils.Urls.{url_decode-url_encode}
use libapostol.HttpUtils.Json.{read_string, read_string-json_escape}
use libapostol.HttpUtils.Headers.{
  trim_start, trim_end, strip_port, clean_element, ip_literal, first_forwarded_from,
  first_forwarded, get_real_ip,
}
use libapostol.HttpUtils.Proxies.{first_literal, first_forwarded-join}

abbrev dotted : Bytes → Bool
dotted value = any (λ (c : ℕ). c == b'.') value

abbrev never : Bytes → Bool
never value = false

cleaned :
    (clean_element (codes "\t[fe80::1%eth0]:80 ") ≡ codes "fe80::1")
    × (clean_element (codes " 1.2.3.4:80") ≡ codes "1.2.3.4")
    × (get_real_ip dotted never [] (codes "unknown, 1.2.3.4:80") (codes "::1") ≡ codes "1.2.3.4")
    × (get_real_ip dotted never [] (codes "unknown") (codes "::1") ≡ codes "::1")
unfolding find trim_start trim_end strip_port clean_element ip_literal first_forwarded_from
    first_forwarded get_real_ip
cleaned = (refl, refl, refl, refl)

decoded :
    (url_encode (codes "a b/~") ≡ codes "a%20b%2F~")
    × (url_decode (codes "a+b%2f%4") ≡ codes "a b/%4")
    × (json_escape (codes "a\"\n") ≡ codes "a\\\"\\n")
unfolding url_encode url_decode hex_val hex_pair json_escape
decoded = (refl, refl, refl)

url_decode-url_encode_example : url_decode (url_encode (codes "50% +")) ≡ codes "50% +"
url_decode-url_encode_example = url_decode-url_encode (codes "50% +") (omega arith)

read_string-json_escape_example :
    read_string (json_escape (codes "a\"b") ++ codes "\"}") ≡ some (codes "a\"b", codes "}")
read_string-json_escape_example =
    read_string-json_escape (codes "a\"b") (codes "}") (refl, (refl, (refl, tt)))

first_forwarded-join_example :
    first_forwarded dotted never (codes "unknown,1.2.3.4")
    ≡ first_literal dotted never (codes "unknown" ∷ codes "1.2.3.4" ∷ [])
first_forwarded-join_example =
    first_forwarded-join dotted never (codes "unknown") (codes "1.2.3.4" ∷ []) (omega arith)

parse_authorization-base64_encode_example :
    parse_authorization (codes "Basic " ++ base64_encode (codes "joe" ++ codes ":a:b"))
    ≡ record { schema = basic; username = codes "joe"; password = codes "a:b"; token = [] }
parse_authorization-base64_encode_example =
    parse_authorization-base64_encode (codes "joe") (codes "a:b") (omega arith) (omega arith)
      (omega arith)
