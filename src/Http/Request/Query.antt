-- ===== src/Http/Request/Query.antt =====
-- The parameters of a query that was written by encoding names and values.
use libapostol.Prelude.{
  ℕ, zero, suc, ◌/◌, ◌%◌, ◌≤◌, ◌<◌, ◌≡◌, ◌≢◌, ◌⊎◌, refl, true, false, List, [], ◌∷◌, ◌++◌, Bytes,
  IsByte, Avoids, find-none, find-first, take-whole, drop-past-char, length, length-append, All,
  All-append, arith, Bool-cases, is_empty, inl, inr,
}
use libapostol.HttpUtils.{is_unreserved, hex_digit, url_encode}
use libapostol.HttpUtils.Urls.{url_decode-url_encode}
use libapostol.Http.Response.{Field}
use libapostol.Http.Request.{query_part, parse_query_from, parse_query}

-- A query with the given parameters.
abbrev pub part_text : Field → Bytes
part_text p = url_encode p.0 ++ (b'=' ∷ url_encode p.1)

abbrev pub query_text : List Field → Bytes
query_text [] = []
query_text (p ∷ []) = part_text p
query_text (p ∷ q ∷ ps) = part_text p ++ (b'&' ∷ query_text (q ∷ ps))

abbrev pub IsText : Field → Type 0
IsText p = All IsByte p.0 × All IsByte p.1

abbrev IsMark : ℕ → Type 0
IsMark x = (x ≡ b'&') ⊎ (x ≡ b'=')

kept-apart : (x c : ℕ) → IsMark x → is_unreserved c ≡ true → c ≢ x
kept-apart x c m h = ground arith

digit-apart : (x v : ℕ) → IsMark x → v < 16 → hex_digit v ≢ x
digit-apart x v m h = ground arith

percent-apart : (x : ℕ) → IsMark x → ◌≢◌ {A = ℕ} b'%' x
percent-apart x m = ground arith

url_encode-Avoids : (x : ℕ) (s : Bytes) → IsMark x → All IsByte s → Avoids x (url_encode s)
unfolding url_encode
url_encode-Avoids x [] m h = tt
url_encode-Avoids x (c ∷ cs) m h = elim (Bool-cases (is_unreserved c)) [
  | inl kept ↦ simp kept (kept-apart x c m kept, url_encode-Avoids x cs m h.1)
  | inr escaped ↦ simp escaped (
    percent-apart x m,
    (
      digit-apart x (c / 16) m (omega (arith, h.0)),
      (digit-apart x (c % 16) m (omega arith), url_encode-Avoids x cs m h.1),
    ),
  )
]

part-Avoids : (p : Field) → IsText p → Avoids b'&' (part_text p)
part-Avoids (k, v) h =
    All-append (λ (c : ℕ). c ≢ b'&') (url_encode k) (b'=' ∷ url_encode v)
      (url_encode-Avoids b'&' k (inl refl) h.0)
      (omega arith, url_encode-Avoids b'&' v (inl refl) h.1)

nonempty : (xs ys : Bytes) (c : ℕ) → is_empty (xs ++ (c ∷ ys)) ≡ false
nonempty [] ys c = refl
nonempty (x ∷ xs) ys c = refl

query_part-text :
    (p : Field) (rest : List Field) → IsText p → query_part (part_text p) rest ≡ p ∷ rest
unfolding query_part
query_part-text (k, v) rest h = rw (
  nonempty (url_encode k) (url_encode v) b'=',
  query_part,
  find-first b'=' (url_encode k) (url_encode v) (url_encode-Avoids b'=' k (inr refl) h.0),
  take-whole (url_encode k) (b'=' ∷ url_encode v),
  drop-past-char b'=' (url_encode k) (url_encode v),
  url_decode-url_encode k h.0,
  url_decode-url_encode v h.1,
)

parse_query_from-text :
    (fuel : ℕ) (ps : List Field)
    → All IsText ps
    → length (query_text ps) ≤ fuel
    → parse_query_from fuel (query_text ps) ≡ ps
unfolding parse_query_from
parse_query_from-text zero [] h l = refl
parse_query_from-text (suc fuel) [] h l = refl
parse_query_from-text zero ((k, v) ∷ []) h l =
    absurd (omega (arith, length-append (url_encode k) (b'=' ∷ url_encode v)))
parse_query_from-text zero (p ∷ q ∷ ps) h l =
    absurd (omega (arith, length-append (part_text p) (b'&' ∷ query_text (q ∷ ps))))
parse_query_from-text (suc fuel) ((k, v) ∷ []) h l = rw (
  nonempty (url_encode k) (url_encode v) b'=',
  find-none b'&' (part_text (k, v)) (part-Avoids (k, v) h.0),
  query_part-text (k, v) [] h.0,
)
parse_query_from-text (suc fuel) (p ∷ q ∷ ps) h l = rw (
  nonempty (part_text p) (query_text (q ∷ ps)) b'&',
  find-first b'&' (part_text p) (query_text (q ∷ ps)) (part-Avoids p h.0),
  take-whole (part_text p) (b'&' ∷ query_text (q ∷ ps)),
  drop-past-char b'&' (part_text p) (query_text (q ∷ ps)),
  parse_query_from-text fuel (q ∷ ps) h.1
      (omega (arith, length-append (part_text p) (b'&' ∷ query_text (q ∷ ps)))),
  query_part-text p (q ∷ ps) h.0,
)

-- Parsing the query that is written from parameters, their names and values encoded, gives these
-- parameters in their order, whatever bytes they hold.
pub parse_query-text : (ps : List Field) → All IsText ps → parse_query (query_text ps) ≡ ps
unfolding parse_query
parse_query-text ps h = parse_query_from-text (length (query_text ps)) ps h (omega arith)
