-- ===== src/Base64/Tests.antt =====
-- Runs of the encoder and the decoder.
use libapostol.Prelude.{◌≡◌, ◌↔◌, refl, arith, false, some, none, [], ◌∷◌, codes, all}
use libapostol.Base64.{base64_encode, base64_decode, encode_at}
use libapostol.Base64.RoundTrip.{decode-encode}
use libapostol.Base64.Errors.{significant, in_alphabet, decode-none_iff}

rfc_vectors :
    (base64_encode (codes "foobar") ≡ codes "Zm9vYmFy")
    × (base64_encode (codes "fooba") ≡ codes "Zm9vYmE=")
    × (base64_encode (codes "foob") ≡ codes "Zm9vYg==")
    × (base64_decode (codes "Zm9v YmE=!") ≡ some (codes "fooba"))
    × (base64_decode (codes "Zm9v!") ≡ none)
unfolding base64_encode encode_at base64_decode
rfc_vectors = (refl, refl, refl, refl, refl)

decode-encode_example :
    base64_decode (base64_encode (0 ∷ 255 ∷ 128 ∷ 7 ∷ [])) ≡ some (0 ∷ 255 ∷ 128 ∷ 7 ∷ [])
decode-encode_example = decode-encode (0 ∷ 255 ∷ 128 ∷ 7 ∷ []) (omega arith)

decode-none_iff_example :
    (base64_decode (codes "Zm 9v!") ≡ none)
    ↔ (all in_alphabet (significant (codes "Zm 9v!")) ≡ false)
decode-none_iff_example = decode-none_iff (codes "Zm 9v!") (omega arith)
