-- ===== src/Http/Response/Reading.antt =====
-- What a client reads of a serialized response.
use libapostol.Prelude.{
  codes, digits_value, length-append, ℕ, zero, suc, ◌<◌, ◌≡◌, ◌≢◌, refl, sym, append_assoc, Bool,
  true, false, not, ◌&&◌, ◌||◌, Option, none, some, List, [], ◌∷◌, ◌++◌, Bytes, find, Avoids,
  find-first, take-whole, IsDigit, length, take, drop, leb, All, All-append, all, arith, is_empty,
  ◌==◌, if◌then◌else◌,
}
use libapostol.Http.Response.{Field, header_name_ok, header_lines, same_text}
use libapostol.Http.Response.Safety.{IsPlain, IsField}

abbrev prepend : ℕ → Option (Bytes × Bytes) → Option (Bytes × Bytes)
prepend c none = none
prepend c (some (line, rest)) = some (c ∷ line, rest)

-- A line ends at CR LF, and for a lenient reader at a bare LF too.
unfoldable pub read_line : Bytes → Option (Bytes × Bytes)
read_line [] = none
read_line (c ∷ []) = if c == b'\n' then some ([], []) else none
read_line (c ∷ d ∷ cs) =
    let next = read_line (d ∷ cs) in
    if c == b'\n'
    then some ([], d ∷ cs)
    else if c == b'\r' && d == b'\n'
    then some ([], cs)
    else prepend c next

-- A field line: a name, a colon and a blank, a value.
unfoldable pub read_field : Bytes → Option Field
read_field line = elim (find b':' line) [
  | none ↦ none
  | some colon ↦ some (take colon line, drop (suc (suc colon)) line)
]

-- The fields up to the empty line, and what is behind it.
unfoldable pub read_fields : ℕ → Bytes → Option (List Field × Bytes)
read_fields zero text = none
read_fields (suc fuel) text = elim (read_line text) [
  | none ↦ none
  | some (line, rest) ↦ if is_empty line then some ([], rest) else elim (read_field line) [
    | none ↦ none
    | some h ↦ elim (read_fields fuel rest) [
      | none ↦ none
      | some (headers, body) ↦ some (h ∷ headers, body)
    ]
  ]
]

abbrev pub is_length : Field → Bool
is_length h = same_text h.0 (codes "Content-Length")

-- What the last Content-Length says, if there is one.
unfoldable pub last_length : List Field → Option ℕ
last_length [] = none
last_length (h ∷ headers) =
    let own = if is_length h then some (digits_value 0 h.1) else none in
    elim (last_length headers) [ none ↦ own | some n ↦ some n ]

-- The body and what follows it: none of a response that is known to have no body, as to HEAD; else as
-- many bytes as the last Content-Length says.
unfoldable pub read_body : Bool → List Field → Bytes → Option (Bytes × Bytes)
read_body bodiless headers text = if bodiless then some ([], text) else elim (last_length headers) [
  | none ↦ none
  | some n ↦ if leb n (length text) then some (take n text, drop n text) else none
]

-- One response of a connection: the status line, the fields, the body, and the bytes behind it.
unfoldable pub read_response : Bool → Bytes → Option (Bytes × (List Field × (Bytes × Bytes)))
read_response bodiless text = elim (read_line text) [
  | none ↦ none
  | some (line, rest) ↦ elim (read_fields (length rest) rest) [
    | none ↦ none
    | some (headers, tail) ↦ elim (read_body bodiless headers tail) [
      | none ↦ none
      | some parts ↦ some (line, (headers, parts))
    ]
  ]
]

pub last_length-snoc :
    (headers : List Field) (h : Field)
    → is_length h ≡ true
    → last_length (headers ++ (h ∷ [])) ≡ some (digits_value 0 h.1)
unfolding last_length
last_length-snoc [] h e = rw e refl
last_length-snoc (x ∷ headers) h e = rw (last_length-snoc headers h e) refl

drop-whole : (xs ys : Bytes) → drop (length xs) (xs ++ ys) ≡ ys
drop-whole [] ys = refl
drop-whole (x ∷ xs) ys = drop-whole xs ys

pub read_body-whole :
    (headers : List Field) (body next : Bytes)
    → last_length headers ≡ some (length body)
    → read_body false headers (body ++ next) ≡ some (body, next)
unfolding read_body
read_body-whole headers body next e =
    let fits : leb (length body) (length (body ++ next)) ≡ true =
      ground (arith, length-append body next) in
    rw (e, read_body, fits, take-whole body next, drop-whole body next)

unfoldable pub IsInLine : Bytes → Type 0
IsInLine text = All (λ (c : ℕ). (c ≢ b'\r') × (c ≢ b'\n')) text

pub read_line-crlf :
    (line rest : Bytes)
    → IsInLine line
    → read_line (line ++ (b'\r' ∷ b'\n' ∷ rest)) ≡ some (line, rest)
unfolding read_line IsInLine
read_line-crlf [] rest h = refl
read_line-crlf (c ∷ []) rest h = ground arith
read_line-crlf (c ∷ d ∷ cs) rest h = ground (arith, read_line-crlf (d ∷ cs) rest h.1)

pub plain-IsInLine : (text : Bytes) → IsPlain text → IsInLine text
unfolding IsInLine
plain-IsInLine [] h = tt
plain-IsInLine (c ∷ cs) h = (ground arith, plain-IsInLine cs h.1)

pub digits-IsPlain : (text : Bytes) → All IsDigit text → IsPlain text
digits-IsPlain [] h = tt
digits-IsPlain (c ∷ cs) h = (ground arith, digits-IsPlain cs h.1)

abbrev token : ℕ → Bool
token c = not (leb c 0x20 || leb 0x7f c || c == b':')

tokens-IsInLine : (name : Bytes) → all token name ≡ true → IsInLine name × Avoids b':' name
unfolding IsInLine
tokens-IsInLine [] h = (tt, tt)
tokens-IsInLine (c ∷ cs) h =
    let (lines, colons) = tokens-IsInLine cs (ground arith) in
    ((ground arith, lines), (ground arith, colons))

name-parts :
    (name : Bytes)
    → header_name_ok name ≡ true
    → IsInLine name × Avoids b':' name × (is_empty name ≡ false)
unfolding header_name_ok
name-parts [] h = cc h
name-parts (c ∷ cs) h = let (lines, colons) = tokens-IsInLine (c ∷ cs) h in (lines, colons, refl)

pub IsInLine-append : (xs ys : Bytes) → IsInLine xs → IsInLine ys → IsInLine (xs ++ ys)
unfolding IsInLine
IsInLine-append xs ys h k = All-append (λ (c : ℕ). (c ≢ b'\r') × (c ≢ b'\n')) xs ys h k

abbrev field_line : Field → Bytes
field_line h = h.0 ++ (b':' ∷ b' ' ∷ h.1)

separated : (v : Bytes) → IsInLine v → IsInLine (b':' ∷ b' ' ∷ v)
unfolding IsInLine
separated v h = ((omega arith, omega arith), ((omega arith, omega arith), h))

field-IsInLine : (h : Field) → IsField h → IsInLine (field_line h)
field-IsInLine (k, v) f =
    let (lines, _, _) = name-parts k f.0 in
    IsInLine-append k (b':' ∷ b' ' ∷ v) lines (separated v (plain-IsInLine v f.1))

drop-two : (k v : Bytes) (c d : ℕ) → drop (suc (suc (length k))) (k ++ (c ∷ d ∷ v)) ≡ v
drop-two [] v c d = refl
drop-two (x ∷ k) v c d = drop-two k v c d

read_field-line : (h : Field) → IsField h → read_field (field_line h) ≡ some h
unfolding read_field
read_field-line (k, v) f =
    let (_, colons, _) = name-parts k f.0 in
    rw (
      find-first b':' k (b' ' ∷ v) colons,
      read_field,
      take-whole k (b':' ∷ b' ' ∷ v),
      drop-two k v b':' b' ',
    )

is_empty-append : (xs : Bytes) (c : ℕ) (ys : Bytes) → is_empty (xs ++ (c ∷ ys)) ≡ false
is_empty-append [] c ys = refl
is_empty-append (x ∷ xs) c ys = refl

-- One field line before the rest of the head.
read_fields-step :
    (fuel : ℕ) (h : Field) (rest : Bytes) (headers : List Field) (body : Bytes)
    → IsField h
    → read_fields fuel rest ≡ some (headers, body)
    → read_fields (suc fuel) (field_line h ++ (b'\r' ∷ b'\n' ∷ rest)) ≡ some (h ∷ headers, body)
unfolding read_fields
read_fields-step fuel h rest headers body f e = rw (
  read_line-crlf (field_line h) rest (field-IsInLine h f),
  read_fields,
  is_empty-append h.0 b':' (b' ' ∷ h.1),
  read_field-line h f,
  e,
)

lines-step :
    (h : Field) (headers : List Field) (rest : Bytes)
    → header_lines (h ∷ headers) rest ≡ field_line h ++ (b'\r' ∷ b'\n' ∷ header_lines headers rest)
unfolding header_lines
lines-step (k, v) headers rest =
    sym (append_assoc k (b':' ∷ b' ' ∷ v) (b'\r' ∷ b'\n' ∷ header_lines headers rest))

empty_line :
    (fuel : ℕ) (body : Bytes)
    → read_fields (suc fuel) (header_lines [] (b'\r' ∷ b'\n' ∷ body)) ≡ some ([], body)
unfolding read_fields header_lines read_line
empty_line fuel body = refl

pub read_fields-lines :
    (fuel : ℕ) (headers : List Field) (body : Bytes)
    → All IsField headers
    → length headers < fuel
    → read_fields fuel (header_lines headers (b'\r' ∷ b'\n' ∷ body)) ≡ some (headers, body)
read_fields-lines zero headers body h l = absurd (omega arith)
read_fields-lines (suc fuel) [] body h l = empty_line fuel body
read_fields-lines (suc fuel) (f ∷ headers) body h l =
    rw (lines-step f headers (b'\r' ∷ b'\n' ∷ body)) (
      read_fields-step fuel f (header_lines headers (b'\r' ∷ b'\n' ∷ body)) headers body h.0
        (read_fields-lines fuel headers body h.1 (omega arith)))
