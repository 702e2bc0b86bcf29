-- ===== src/Http/Response.antt =====
-- HttpResponse: its setters and `serialize`. A status code is a natural number here. The moves of
-- the C++ code are copies, and a setter returns the response it changed.
pub mod Safety
pub mod Reading
pub mod RoundTrip
use libapostol.Prelude.{
  ℕ, zero, suc, ◌+◌, ltb, leb, ◌==◌, Bool, true, false, not, ◌&&◌, ◌||◌, List, [], ◌∷◌, ◌++◌, Bytes,
  codes, bytes_eq, decimal, length, any, all, is_empty, if◌then◌else◌,
}
use libapostol.Http.Status.{HttpStatus, code_of, status_text}

abbrev pub Field : Type 0
Field = Bytes × Bytes

pub record HttpResponse : Type 0 where
  pub status_code : ℕ
  pub status_text : Bytes
  pub headers : List Field
  pub body : Bytes
  pub suppress_body : Bool
  pub deferred : Bool

-- A new response, and what `clear` leaves.
abbrev pub fresh : HttpResponse
fresh = record {
  status_code = 200;
  status_text = codes "OK";
  headers = [];
  body = [];
  suppress_body = false;
  deferred = false;
}

abbrev pub is_control : ℕ → Bool
is_control c = c == 0x7f || (ltb c 0x20 && not (c == b'\t'))

unfoldable pub header_safe : Bytes → Bytes
header_safe [] = []
header_safe (c ∷ cs) = let rest = header_safe cs in if is_control c then [] else c ∷ rest

unfoldable pub header_name_ok : Bytes → Bool
header_name_ok name =
    if is_empty name
    then false
    else all (λ (c : ℕ). not (leb c 0x20 || leb 0x7f c || c == b':')) name

unfoldable pub set_status : HttpResponse → ℕ → Bytes → HttpResponse
set_status r code text = record r { status_code = code; status_text = header_safe text }

unfoldable pub set_status_enum : HttpResponse → HttpStatus → HttpResponse
set_status_enum r s = record r { status_code = code_of s; status_text = status_text s }

-- The first header of the name gets the value, or a new one is added.
unfoldable pub replace_header : List Field → Bytes → Bytes → List Field
replace_header [] name value = (name, value) ∷ []
replace_header ((k, v) ∷ headers) name value =
    let rest = replace_header headers name value in
    if bytes_eq k name then (k, value) ∷ headers else (k, v) ∷ rest

unfoldable pub set_header : HttpResponse → Bytes → Bytes → HttpResponse
set_header r name value =
    if not (header_name_ok name)
    then r
    else record r { headers = replace_header r.headers name (header_safe value) }

unfoldable pub add_header : HttpResponse → Bytes → Bytes → HttpResponse
add_header r name value =
    if not (header_name_ok name)
    then r
    else record r { headers = r.headers ++ ((name, header_safe value) ∷ []) }

unfoldable pub remove_headers : List Field → Bytes → List Field
remove_headers [] name = []
remove_headers ((k, v) ∷ headers) name =
    let rest = remove_headers headers name in if bytes_eq k name then rest else (k, v) ∷ rest

unfoldable pub del_header : HttpResponse → Bytes → HttpResponse
del_header r name = record r { headers = remove_headers r.headers name }

unfoldable pub set_body : HttpResponse → Bytes → Bytes → HttpResponse
set_body r body content_type =
    set_header (record r { body = body }) (codes "Content-Type") content_type

unfoldable pub set_close : HttpResponse → Bool → HttpResponse
set_close r close = if close then set_header r (codes "Connection") (codes "close") else r

-- The arguments of `set_cookie`; the sign of the age is apart from its size.
pub data MaxAge : Type 0 where
  session expired : MaxAge
  seconds : ℕ → MaxAge

pub record Cookie : Type 0 where
  pub name : Bytes
  pub value : Bytes
  pub path : Bytes
  pub max_age : MaxAge
  pub http_only : Bool
  pub same_site : Bytes
  pub secure : Bool
  pub domain : Bytes

abbrev pub age_text : MaxAge → Bytes
age_text session = []
age_text expired = codes "; Max-Age=0"
age_text (seconds n) = codes "; Max-Age=" ++ decimal n

unfoldable pub cookie_text : Cookie → Bytes
cookie_text c =
    c.name
    ++ (b'='
        ∷ (c.value
            ++ ((if not (is_empty c.path) then codes "; Path=" ++ c.path else [])
                ++ (age_text c.max_age
                    ++ ((if not (is_empty c.domain) then codes "; Domain=" ++ c.domain else [])
                        ++ ((if c.http_only then codes "; HttpOnly" else [])
                            ++ ((if not (is_empty c.same_site)
                                  then codes "; SameSite=" ++ c.same_site
                                  else [])
                                ++ (if c.secure then codes "; Secure" else []))))))))

unfoldable pub set_cookie : HttpResponse → Cookie → HttpResponse
set_cookie r c = add_header r (codes "Set-Cookie") (cookie_text c)

abbrev pub clear : HttpResponse → HttpResponse
clear r = fresh

abbrev pub suppress : HttpResponse → HttpResponse
suppress r = record r { suppress_body = true }

abbrev pub set_deferred : HttpResponse → Bool → HttpResponse
set_deferred r d = record r { deferred = d }

abbrev pub lower_ascii : ℕ → ℕ
lower_ascii c = if leb b'A' c && leb c b'Z' then c + 32 else c

-- Two texts that differ in the case of letters at most.
unfoldable pub same_text : Bytes → Bytes → Bool
same_text [] [] = true
same_text (x ∷ xs) (y ∷ ys) = lower_ascii x == lower_ascii y && same_text xs ys
same_text _ _ = false

unfoldable pub header_lines : List Field → Bytes → Bytes
header_lines [] rest = rest
header_lines ((k, v) ∷ headers) rest =
    k ++ (b':' ∷ b' ' ∷ (v ++ (b'\r' ∷ b'\n' ∷ header_lines headers rest)))

unfoldable pub has_content_length : HttpResponse → Bool
has_content_length r =
    r.suppress_body && any (λ (h : Field). same_text h.0 (codes "Content-Length")) r.headers

-- The field of the length that `serialize` adds.
abbrev pub length_field : HttpResponse → List Field
length_field r =
    if has_content_length r then [] else (codes "Content-Length", decimal (length r.body)) ∷ []

unfoldable pub serialize : HttpResponse → Bytes
serialize r =
    codes "HTTP/1.1 "
    ++ (decimal r.status_code
        ++ (b' '
            ∷ (r.status_text
                ++ (b'\r'
                    ∷ b'\n'
                    ∷ header_lines r.headers (
                        header_lines (length_field r)
                          (b'\r' ∷ b'\n' ∷ (if not r.suppress_body then r.body else [])))))))
