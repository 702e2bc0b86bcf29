-- ===== src/Http/Response/Safety.antt =====
-- No setter lets a control character into the head of a response.
use libapostol.Prelude.{
  ℕ, ◌≡◌, refl, Bool, true, false, not, all, List, [], ◌∷◌, Bytes, codes, bytes_eq, All, All-append,
  arith, Bool-cases, inl, inr,
}
use libapostol.Http.Status.{HttpStatus, status_text}
use libapostol.Http.Response.{
  Field, HttpResponse, fresh, is_control, header_safe, header_name_ok, set_status, set_status_enum,
  replace_header, set_header, add_header, remove_headers, del_header, set_body, set_close, Cookie,
  cookie_text, set_cookie, clear, suppress, set_deferred,
}

-- No control characters, a tab aside.
abbrev pub IsPlain : Bytes → Type 0
IsPlain text = All (λ (c : ℕ). is_control c ≡ false) text

abbrev pub IsField : Field → Type 0
IsField h = (header_name_ok h.0 ≡ true) × IsPlain h.1

pub record IsSafe (r : HttpResponse) : Type 0 where
  pub reason : IsPlain r.status_text
  pub fields : All IsField r.headers

header_safe-IsPlain : (value : Bytes) → IsPlain (header_safe value)
unfolding header_safe
header_safe-IsPlain [] = tt
header_safe-IsPlain (c ∷ cs) = elim (Bool-cases (is_control c)) [
  | inl control ↦ simp control tt
  | inr plain ↦ simp plain (refl, header_safe-IsPlain cs)
]

replace_header-All :
    (headers : List Field) (name value : Bytes)
    → IsField (name, value)
    → All IsField headers
    → All IsField (replace_header headers name value)
unfolding replace_header
replace_header-All [] name value f h = (f, tt)
replace_header-All ((k, v) ∷ headers) name value f h = elim (Bool-cases (bytes_eq k name)) [
  | inl same ↦ simp same ((h.0.0, f.1), h.1)
  | inr other ↦ simp other (h.0, replace_header-All headers name value f h.1)
]

remove_headers-All :
    (headers : List Field) (name : Bytes)
    → All IsField headers
    → All IsField (remove_headers headers name)
unfolding remove_headers
remove_headers-All [] name h = tt
remove_headers-All ((k, v) ∷ headers) name h = elim (Bool-cases (bytes_eq k name)) [
  | inl same ↦ simp same (remove_headers-All headers name h.1)
  | inr other ↦ simp other (h.0, remove_headers-All headers name h.1)
]

set_header-IsSafe :
    (r : HttpResponse) (name value : Bytes) → IsSafe r → IsSafe (set_header r name value)
unfolding set_header
set_header-IsSafe r name value h = elim (Bool-cases (header_name_ok name)) [
  | inl good ↦ simp good (record {
    reason = h.reason;
    fields =
        replace_header-All r.headers name (header_safe value) (good, header_safe-IsPlain value)
          h.fields;
  })
  | inr bad ↦ simp bad h
]

add_header-IsSafe :
    (r : HttpResponse) (name value : Bytes) → IsSafe r → IsSafe (add_header r name value)
unfolding add_header
add_header-IsSafe r name value h = elim (Bool-cases (header_name_ok name)) [
  | inl good ↦ simp good (record {
    reason = h.reason;
    fields =
        All-append IsField r.headers ((name, header_safe value) ∷ []) h.fields
          ((good, header_safe-IsPlain value), tt);
  })
  | inr bad ↦ simp bad h
]

-- A text that is seen to be plain.
all-IsPlain : (text : Bytes) → all (λ (c : ℕ). not (is_control c)) text ≡ true → IsPlain text
all-IsPlain [] h = tt
all-IsPlain (c ∷ cs) h = (ground arith, all-IsPlain cs (ground arith))

reason_plain : (s : HttpStatus) → all (λ (c : ℕ). not (is_control c)) (status_text s) ≡ true
reason_plain HttpStatus.switching_protocols = refl
reason_plain _ = refl

-- The calls of a handler on its response.
pub data Call : Type 0 where
  status : ℕ → Bytes → Call
  status_enum : HttpStatus → Call
  header added : Bytes → Bytes → Call
  without : Bytes → Call
  content : Bytes → Bytes → Call
  close_after defer : Bool → Call
  cookie : Cookie → Call
  cleared suppressed : Call

abbrev pub perform : Call → HttpResponse → HttpResponse
perform (status code text) r = set_status r code text
perform (status_enum s) r = set_status_enum r s
perform (header name value) r = set_header r name value
perform (added name value) r = add_header r name value
perform (without name) r = del_header r name
perform (content body content_type) r = set_body r body content_type
perform (close_after c) r = set_close r c
perform (defer d) r = set_deferred r d
perform (cookie c) r = set_cookie r c
perform cleared r = clear r
perform suppressed r = suppress r

abbrev pub perform_all : List Call → HttpResponse → HttpResponse
perform_all [] r = r
perform_all (c ∷ cs) r = perform_all cs (perform c r)

pub fresh-IsSafe : IsSafe fresh
fresh-IsSafe = record { reason = all-IsPlain (codes "OK") refl; fields = tt }

perform-IsSafe : (c : Call) (r : HttpResponse) → IsSafe r → IsSafe (perform c r)
unfolding set_status set_status_enum del_header set_body set_close set_cookie
perform-IsSafe (status code text) r h = record {
  reason = header_safe-IsPlain text;
  fields = h.fields;
}
perform-IsSafe (status_enum s) r h = record {
  reason = all-IsPlain (status_text s) (reason_plain s);
  fields = h.fields;
}
perform-IsSafe (header name value) r h = set_header-IsSafe r name value h
perform-IsSafe (added name value) r h = add_header-IsSafe r name value h
perform-IsSafe (without name) r h = record {
  reason = h.reason;
  fields = remove_headers-All r.headers name h.fields;
}
perform-IsSafe (content body content_type) r h =
    set_header-IsSafe (record r { body = body }) (codes "Content-Type") content_type
      (record { reason = h.reason; fields = h.fields })
perform-IsSafe (close_after true) r h = set_header-IsSafe r (codes "Connection") (codes "close") h
perform-IsSafe (close_after false) r h = h
perform-IsSafe (defer d) r h = record { reason = h.reason; fields = h.fields }
perform-IsSafe (cookie c) r h = add_header-IsSafe r (codes "Set-Cookie") (cookie_text c) h
perform-IsSafe cleared r h = fresh-IsSafe
perform-IsSafe suppressed r h = record { reason = h.reason; fields = h.fields }

-- Whatever a handler calls, the reason phrase and every header of its response hold no control
-- character but a tab, and every header has a name that is a token.
pub perform_all-IsSafe : (cs : List Call) (r : HttpResponse) → IsSafe r → IsSafe (perform_all cs r)
perform_all-IsSafe [] r h = h
perform_all-IsSafe (c ∷ cs) r h = perform_all-IsSafe cs (perform c r) (perform-IsSafe c r h)
