-- ===== src/Http/Tests.antt =====
-- Runs of requests and responses.
use libapostol.Prelude.{
  ◌++◌, ◌≡◌, ◌&&◌, ◌||◌, refl, arith, true, false, not, some, List, [], ◌∷◌, map, Bytes, codes, any,
  bytes_eq, find, decimal_from,
}
use libapostol.HttpUtils.{url_decode, hex_val, hex_pair}
use libapostol.HttpUtils.Headers.{trim_start, trim_end}
use libapostol.Http.Status.{HttpStatus}
use libapostol.Http.Response.{
  fresh, header_safe, header_name_ok, set_status_enum, replace_header, set_header, add_header,
  set_body, session, cookie_text, same_text, header_lines, has_content_length, serialize,
}
use libapostol.Http.Response.Safety.{Call, status_enum, header, added, content, perform_all}
use libapostol.Http.Response.Reading.{read_response}
use libapostol.Http.Response.RoundTrip.{
  status_line, sent_fields, sent_body, read_response-perform_all,
}
use libapostol.Http.Request.{
  HttpRequest, see_list, see_headers, keep_alive, query_part, parse_query_from, parse_query,
  skip_blanks, drop_blanks_at_end, cookie_part, parse_cookies_from, parse_cookies,
}
use libapostol.Http.Request.Query.{query_text, parse_query-text}
use libapostol.Http.Request.KeepAlive.{Listed, written, names, keep_alive-written}

-- A redirect whose target tries to end its line.
abbrev calls : List Call
calls =
    status_enum HttpStatus.found
    ∷ header (codes "Location") (codes "/x\r\nSet-Cookie: a=b")
    ∷ added (codes "Bad name") (codes "v")
    ∷ content (codes "ok") (codes "text/plain")
    ∷ []

redirected :
    serialize (perform_all calls fresh)
    ≡ codes
        "HTTP/1.1 302 Found\r\nLocation: /x\r\nContent-Type: text/plain\r\nContent-Length: 2\r\n\r\nok"
unfolding set_status_enum header_safe header_name_ok replace_header set_header add_header set_body
    bytes_eq decimal_from header_lines has_content_length serialize same_text
redirected = refl

read_response-perform_all_example :
    read_response
      (perform_all calls fresh).suppress_body
      (serialize (perform_all calls fresh) ++ codes "HTTP/1.1 ")
    ≡ some (
      status_line (perform_all calls fresh),
      (
        sent_fields (perform_all calls fresh),
        (sent_body (perform_all calls fresh), codes "HTTP/1.1 "),
      ),
    )
read_response-perform_all_example = read_response-perform_all calls (codes "HTTP/1.1 ")

cookies :
    (cookie_text (record {
      name = codes "s";
      value = codes "1";
      path = codes "/";
      max_age = session;
      http_only = true;
      same_site = codes "Lax";
      secure = false;
      domain = [];
    })
      ≡ codes "s=1; Path=/; HttpOnly; SameSite=Lax")
    × (parse_cookies (codes " a=1;  b ; c=x=y")
        ≡ (codes "a", codes "1") ∷ (codes "b", []) ∷ (codes "c", codes "x=y") ∷ [])
    × (parse_query (codes "a=1&&b%20c") ≡ (codes "a", codes "1") ∷ (codes "b c", []) ∷ [])
unfolding cookie_text parse_cookies parse_cookies_from cookie_part drop_blanks_at_end skip_blanks
    find parse_query parse_query_from query_part url_decode hex_val hex_pair
cookies = (refl, refl, refl)

abbrev request_of : List (Bytes × Bytes) → HttpRequest
request_of headers = record {
  method = codes "GET";
  path = codes "/";
  query = [];
  version = codes "HTTP/1.1";
  headers = headers;
  params = [];
  cookies = [];
  body = [];
}

abbrev listed : List Listed
listed = (codes "connection", (codes "TE", codes " Close" ∷ [])) ∷ []

closing : keep_alive (request_of (map written listed)) ≡ false
unfolding keep_alive see_headers see_list same_text find trim_start trim_end
closing = refl

keep_alive-written_example : keep_alive (request_of (map written listed)) ≡ (
    not (any (names (codes "close")) listed)
    && (bytes_eq (codes "HTTP/1.1") (codes "HTTP/1.1") || any (names (codes "keep-alive")) listed))
keep_alive-written_example =
    keep_alive-written (request_of (map written listed)) listed refl (omega arith)

parse_query-text_example :
    parse_query (query_text ((codes "q", codes "a&b=c") ∷ (codes "n", []) ∷ []))
    ≡ (codes "q", codes "a&b=c") ∷ (codes "n", []) ∷ []
parse_query-text_example =
    parse_query-text ((codes "q", codes "a&b=c") ∷ (codes "n", []) ∷ []) (omega arith)
