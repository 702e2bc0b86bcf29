-- ===== src/Http/Response/RoundTrip.antt =====
-- A serialized response is read back whole.
use mathlib.Core.Path.{subst}
use libapostol.Prelude.{
  Bool, append-nil, sym, ◌≢◌, ◌∙◌, none, any, false, digits_value-decimal, Option-cases, ℕ, suc,
  ◌+◌, ◌≤◌, ◌≡◌, refl, ap, append_assoc, true, not, some, List, [], ◌∷◌, ◌++◌, Bytes, codes,
  decimal, decimal_from-IsDigit, length, length-append, All, All-append, arith, Bool-cases,
  if◌then◌else◌, inl, inr,
}
use libapostol.Http.Response.{
  Field, HttpResponse, fresh, header_name_ok, has_content_length, header_lines, length_field,
  serialize, same_text,
}
use libapostol.Http.Response.Safety.{
  IsPlain, IsField, IsSafe, fresh-IsSafe, Call, perform_all, perform_all-IsSafe,
}
use libapostol.Http.Response.Reading.{
  is_length, last_length, last_length-snoc, read_body, read_body-whole, IsInLine, read_line-crlf,
  read_response, plain-IsInLine, digits-IsPlain, IsInLine-append, read_fields-lines,
}

-- The status line of a response, the fields on the wire, and the body on the wire.
abbrev pub status_line : HttpResponse → Bytes
status_line r = codes "HTTP/1.1 " ++ (decimal r.status_code ++ (b' ' ∷ r.status_text))

-- The length of the body comes last; where no body is sent, a Content-Length of the handler stands
-- instead.
abbrev pub with_length : Bool → List Field → ℕ → List Field
with_length false headers n = headers ++ ((codes "Content-Length", decimal n) ∷ [])
with_length true headers n = elim (last_length headers) [
  | none ↦ headers ++ ((codes "Content-Length", decimal n) ∷ [])
  | some own ↦ headers
]

abbrev pub sent_fields : HttpResponse → List Field
sent_fields r = with_length r.suppress_body r.headers (length r.body)

abbrev pub sent_body : HttpResponse → Bytes
sent_body r = if not r.suppress_body then r.body else []

header_lines-append :
    (xs ys : List Field) (rest : Bytes)
    → header_lines xs (header_lines ys rest) ≡ header_lines (xs ++ ys) rest
unfolding header_lines
header_lines-append [] ys rest = refl
header_lines-append ((k, v) ∷ xs) ys rest =
    ap (λ t. k ++ (b':' ∷ b' ' ∷ (v ++ (b'\r' ∷ b'\n' ∷ t)))) (header_lines-append xs ys rest)

length-header_lines :
    (xs : List Field) (rest : Bytes) → length xs + length rest ≤ length (header_lines xs rest)
unfolding header_lines
length-header_lines [] rest = omega arith
length-header_lines ((k, v) ∷ xs) rest = omega (
  arith,
  length-header_lines xs rest,
  length-append k (b':' ∷ b' ' ∷ (v ++ (b'\r' ∷ b'\n' ∷ header_lines xs rest))),
  length-append v (b'\r' ∷ b'\n' ∷ header_lines xs rest),
)

length_name_ok : header_name_ok (codes "Content-Length") ≡ true
unfolding header_name_ok
length_name_ok = refl

length_field-All : (r : HttpResponse) → All IsField (length_field r)
length_field-All r = elim (Bool-cases (has_content_length r)) [
  | inl own ↦ simp own tt
  | inr added ↦ simp added (
    (
      length_name_ok,
      digits-IsPlain (decimal (length r.body))
          (decimal_from-IsDigit (suc (length r.body)) (length r.body)),
    ),
    tt,
  )
]

status_line-IsInLine : (r : HttpResponse) → IsPlain r.status_text → IsInLine (status_line r)
unfolding IsInLine
status_line-IsInLine r h =
    IsInLine-append (codes "HTTP/1.1 ") (decimal r.status_code ++ (b' ' ∷ r.status_text))
      (omega arith)
      (IsInLine-append (decimal r.status_code) (b' ' ∷ r.status_text)
        (plain-IsInLine (decimal r.status_code) (
          digits-IsPlain (decimal r.status_code)
            (decimal_from-IsDigit (suc r.status_code) r.status_code)))
        ((omega arith, omega arith), plain-IsInLine r.status_text h))

header_lines-behind :
    (headers : List Field) (rest next : Bytes)
    → header_lines headers rest ++ next ≡ header_lines headers (rest ++ next)
unfolding header_lines
header_lines-behind [] rest next = refl
header_lines-behind ((k, v) ∷ headers) rest next =
    append_assoc k (b':' ∷ b' ' ∷ (v ++ (b'\r' ∷ b'\n' ∷ header_lines headers rest))) next
    ∙ ap (λ (t : Bytes). k ++ (b':' ∷ b' ' ∷ t))
        (append_assoc v (b'\r' ∷ b'\n' ∷ header_lines headers rest) next
          ∙ ap (λ (t : Bytes). v ++ (b'\r' ∷ b'\n' ∷ t)) (header_lines-behind headers rest next))

own_length : (headers : List Field) → any is_length headers ≡ true → last_length headers ≢ none
unfolding last_length
own_length [] h e = cc h
own_length (x ∷ headers) h e = elim (Option-cases (last_length headers)) [
  | inl f ↦ own_length headers (ground (arith, h, e, f)) f
  | inr (n, f) ↦ absurd (ground (arith, e, f))
]

no_length : (headers : List Field) → any is_length headers ≡ false → last_length headers ≡ none
unfolding last_length
no_length [] h = refl
no_length (x ∷ headers) h = rw (no_length headers (ground (arith, h))) (ground (arith, h))

with_length-added :
    (headers : List Field) (n : ℕ)
    → last_length headers ≡ none
    → with_length true headers n ≡ headers ++ ((codes "Content-Length", decimal n) ∷ [])
with_length-added headers n e = rw (e, with_length) refl

with_length-own :
    (headers : List Field) (n own : ℕ)
    → last_length headers ≡ some own
    → with_length true headers n ≡ headers
with_length-own headers n own e = rw (e, with_length) refl

length_field-added :
    (r : HttpResponse)
    → has_content_length r ≡ false
    → length_field r ≡ (codes "Content-Length", decimal (length r.body)) ∷ []
length_field-added r e = rw e refl

length_field-own : (r : HttpResponse) → has_content_length r ≡ true → length_field r ≡ []
length_field-own r e = rw e refl

sent_fields-parts : (r : HttpResponse) → sent_fields r ≡ r.headers ++ length_field r
unfolding has_content_length
sent_fields-parts r =
    let fields : Bool → List Field = λ b. with_length b r.headers (length r.body) in
    let behind : List Field → List Field = λ fs. r.headers ++ fs in
    elim (Bool-cases r.suppress_body) [
      | inr sends ↦ ap fields sends ∙ ap behind (sym (length_field-added r (ground (arith, sends))))
      | inl quiet ↦ elim (Bool-cases (any is_length r.headers)) [
        | inr free ↦
            ap fields quiet
            ∙ with_length-added r.headers (length r.body) (no_length r.headers free)
            ∙ ap behind (sym (length_field-added r (ground (arith, free))))
        | inl own ↦ elim (Option-cases (last_length r.headers)) [
          | inl none_there ↦ absurd (own_length r.headers own none_there)
          | inr (n, there) ↦
              ap fields quiet
              ∙ with_length-own r.headers (length r.body) n there
              ∙ sym (append-nil r.headers)
              ∙ ap behind (sym (length_field-own r (ground (arith, quiet, own))))
        ]
      ]
    ]

-- `serialize` as a status line, lines of fields, and a body, before what follows.
serialize-fields :
    (r : HttpResponse)
    → serialize r
      ≡ status_line r
        ++ (b'\r' ∷ b'\n' ∷ header_lines (sent_fields r) (b'\r' ∷ b'\n' ∷ sent_body r))
unfolding serialize
serialize-fields r = rw (
  sent_fields-parts r,
  header_lines-append r.headers (length_field r) (b'\r' ∷ b'\n' ∷ sent_body r),
  append_assoc (decimal r.status_code) (b' ' ∷ r.status_text)
      (b'\r' ∷ b'\n' ∷ header_lines (r.headers ++ length_field r) (b'\r' ∷ b'\n' ∷ sent_body r)),
)

serialize-parts :
    (r : HttpResponse) (next : Bytes)
    → serialize r ++ next
      ≡ status_line r
        ++ (b'\r' ∷ b'\n' ∷ header_lines (sent_fields r) (b'\r' ∷ b'\n' ∷ (sent_body r ++ next)))
serialize-parts r next =
    ap (λ (t : Bytes). t ++ next) (serialize-fields r)
    ∙ append_assoc (status_line r)
        (b'\r' ∷ b'\n' ∷ header_lines (sent_fields r) (b'\r' ∷ b'\n' ∷ sent_body r)) next
    ∙ ap (λ (t : Bytes). status_line r ++ (b'\r' ∷ b'\n' ∷ t))
        (header_lines-behind (sent_fields r) (b'\r' ∷ b'\n' ∷ sent_body r) next)

length_named : is_length (codes "Content-Length", []) ≡ true
unfolding same_text
length_named = refl

read_body-with_length :
    (bodiless : Bool) (headers : List Field) (body next : Bytes)
    → read_body bodiless
        (with_length bodiless headers (length body))
        ((if not bodiless then body else []) ++ next)
      ≡ some ((if not bodiless then body else []), next)
unfolding read_body
read_body-with_length true headers body next = refl
read_body-with_length false headers body next =
    read_body-whole (with_length false headers (length body)) body next (
      last_length-snoc headers (codes "Content-Length", decimal (length body)) length_named
      ∙ ap some (digits_value-decimal (length body)))

read_response-serialize :
    (r : HttpResponse) (next : Bytes)
    → IsSafe r
    → read_response r.suppress_body (serialize r ++ next)
      ≡ some (status_line r, (sent_fields r, (sent_body r, next)))
unfolding read_response
read_response-serialize r next h =
    let tail : Bytes = header_lines (sent_fields r) (b'\r' ∷ b'\n' ∷ (sent_body r ++ next)) in
    rw (
      serialize-parts r next,
      read_line-crlf (status_line r) tail (status_line-IsInLine r h.reason),
      read_response,
      read_fields-lines (length tail) (sent_fields r) (sent_body r ++ next)
          (subst (All IsField) (sym (sent_fields-parts r))
            (All-append IsField r.headers (length_field r) h.fields (length_field-All r)))
          (omega
            (arith, length-header_lines (sent_fields r) (b'\r' ∷ b'\n' ∷ (sent_body r ++ next)))),
      read_body-with_length r.suppress_body r.headers r.body next,
    )

-- Whatever a handler calls on a new response, with whatever texts, and whatever follows on the
-- connection: a client that goes by the last Content-Length, even one that takes a bare LF for the end of
-- a line, reads the status line, the headers of the response in their order, then the length of the body
-- unless the body is suppressed and the handler gave a length, and exactly the body, which is empty if it
-- is suppressed; it goes on at what follows.
pub read_response-perform_all :
    (cs : List Call) (next : Bytes)
    → read_response (perform_all cs fresh).suppress_body (serialize (perform_all cs fresh) ++ next)
      ≡ some (
        status_line (perform_all cs fresh),
        (sent_fields (perform_all cs fresh), (sent_body (perform_all cs fresh), next)),
      )
read_response-perform_all cs next =
    read_response-serialize (perform_all cs fresh) next (perform_all-IsSafe cs fresh fresh-IsSafe)
