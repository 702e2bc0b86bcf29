-- ===== src/Http/Request.antt =====
-- HttpRequest as the handlers read it: headers, the options of Connection, parameters and cookies; and
-- the texts that parameters and cookies come from. The decoding of the URL is that of http_utils.cpp,
-- of which http.cpp has a copy.
pub mod Query
pub mod KeepAlive
pub mod Length
use libapostol.Prelude.{
  ℕ, zero, suc, ◌+◌, ◌-◌, ◌*◌, ◌%◌, ◌^◌, leb, ◌==◌, Bool, true, false, not, ◌&&◌, ◌||◌, Option,
  none, some, List, [], ◌∷◌, Bytes, codes, bytes_eq, find, length, take, drop, is_empty,
  if◌then◌else◌,
}
use libapostol.HttpUtils.{url_decode}
use libapostol.HttpUtils.Headers.{trim_start, trim_end}
use libapostol.Http.Response.{Field, same_text}

pub record HttpRequest : Type 0 where
  pub method : Bytes
  pub path : Bytes
  pub query : Bytes
  pub version : Bytes
  pub headers : List Field
  pub params : List Field
  pub cookies : List Field
  pub body : Bytes

-- The first field whose name is the same in any case.
unfoldable pub header_in : List Field → Bytes → Bytes
header_in [] name = []
header_in ((k, v) ∷ headers) name =
    let rest = header_in headers name in if same_text k name then v else rest

abbrev pub header : HttpRequest → Bytes → Bytes
header req name = header_in req.headers name

unfoldable pub field_or : List Field → Bytes → Bytes → Bytes
field_or [] name default = default
field_or ((k, v) ∷ fields) name default =
    let rest = field_or fields name default in if bytes_eq k name then v else rest

abbrev pub param : HttpRequest → Bytes → Bytes → Bytes
param req name default = field_or req.params name default

abbrev pub cookie : HttpRequest → Bytes → Bytes → Bytes
cookie req name default = field_or req.cookies name default

-- The options seen so far: `close`, and `keep-alive`.
pub record Options : Type 0 where
  pub close : Bool
  pub keep : Bool

abbrev pub see : Bytes → Options → Options
see token o =
    if same_text token (codes "close")
    then record o { close = true }
    else if same_text token (codes "keep-alive")
    then record o { keep = true }
    else o

-- One element of the list; one of blanks only is passed over.
abbrev pub see_element : Bytes → Options → Options
see_element element o =
    if is_empty (trim_start element) then o else see (trim_end (trim_start element)) o

-- The loop over a list; a round takes a character at least, or is the last.
unfoldable pub see_list : ℕ → Bytes → Options → Options
see_list zero list o = o
see_list (suc fuel) list o = if is_empty list then o else elim (find b',' list) [
  | none ↦ see_element list o
  | some comma ↦ see_list fuel (drop (suc comma) list) (see_element (take comma list) o)
]

-- The loop over the headers.
unfoldable pub see_headers : List Field → Options → Options
see_headers [] o = o
see_headers ((k, v) ∷ headers) o =
    see_headers headers (if same_text k (codes "Connection") then see_list (length v) v o else o)

unfoldable pub keep_alive : HttpRequest → Bool
keep_alive req =
    let o = see_headers req.headers (record { close = false; keep = false }) in
    if o.close then false else if bytes_eq req.version (codes "HTTP/1.1") then true else o.keep

-- The loop over the digits; `size_t` has 64 bits.
unfoldable pub length_from : ℕ → Bytes → ℕ
length_from val [] = val
length_from val (c ∷ cs) =
    let rest = length_from ((val * 10 + (c - b'0')) % 2 ^ 64) cs in
    if not (leb b'0' c && leb c b'9') then 0 else rest

unfoldable pub content_length : HttpRequest → ℕ
content_length req =
    let h = header req (codes "Content-Length") in if is_empty h then 0 else length_from 0 h

-- One part of a query; an empty one is passed over.
unfoldable pub query_part : Bytes → List Field → List Field
query_part part rest = if is_empty part then rest else elim (find b'=' part) [
  | none ↦ (url_decode part, []) ∷ rest
  | some eq ↦ (url_decode (take eq part), url_decode (drop (suc eq) part)) ∷ rest
]

-- The loop of `parse_query`, on the length of the query.
unfoldable pub parse_query_from : ℕ → Bytes → List Field
parse_query_from zero q = []
parse_query_from (suc fuel) q = if is_empty q then [] else elim (find b'&' q) [
  | none ↦ query_part q []
  | some amp ↦ query_part (take amp q) (parse_query_from fuel (drop (suc amp) q))
]

unfoldable pub parse_query : Bytes → List Field
parse_query q = parse_query_from (length q) q

unfoldable pub skip_blanks : Bytes → Bytes
skip_blanks [] = []
skip_blanks (c ∷ cs) = let rest = skip_blanks cs in if c == b' ' then rest else c ∷ cs

unfoldable pub drop_blanks_at_end : Bytes → Bytes
drop_blanks_at_end [] = []
drop_blanks_at_end (c ∷ cs) =
    let rest = drop_blanks_at_end cs in if c == b' ' && is_empty rest then [] else c ∷ rest

-- One part of a Cookie header.
unfoldable pub cookie_part : Bytes → List Field → List Field
cookie_part part rest =
    let text = drop_blanks_at_end part in
    if is_empty text then rest else elim (find b'=' text) [
      | none ↦ (text, []) ∷ rest
      | some eq ↦ (take eq text, drop (suc eq) text) ∷ rest
    ]

-- The loop of `parse_cookies`; blanks before a part are skipped.
unfoldable pub parse_cookies_from : ℕ → Bytes → List Field
parse_cookies_from zero v = []
parse_cookies_from (suc fuel) v =
    if is_empty v
    then []
    else (let text = skip_blanks v in
        elim (find b';' text) [
          | none ↦ cookie_part text []
          | some semi ↦
              cookie_part (take semi text) (parse_cookies_from fuel (drop (suc semi) text))
        ])

unfoldable pub parse_cookies : Bytes → List Field
parse_cookies v = parse_cookies_from (length v) v
