-- ===== src/HttpUtils/Json.antt =====
-- The escaping of JSON text, beside a reader of strings by RFC 8259.
use libapostol.Prelude.{
  ltb, ◌&&◌, not, All, ℕ, ◌≡◌, refl, false, ◌||◌, ◌⊎◌, Option, none, some, inl, inr, [], ◌∷◌, ◌++◌,
  Bytes, arith, Bool-cases, ◌==◌, if◌then◌else◌,
}
use libapostol.HttpUtils.{json_escape}

-- The character that a two-character escape stands for; escapes by number are not read.
abbrev pub escaped : ℕ → Option ℕ
escaped c =
    if c == b'"' || c == b'\\' || c == b'/'
    then some c
    else if c == b'b'
    then some 8
    else if c == b'f'
    then some 12
    else if c == b'n'
    then some b'\n'
    else if c == b'r'
    then some b'\r'
    else if c == b't'
    then some b'\t'
    else none

abbrev prepend : Option ℕ → Option (Bytes × Bytes) → Option (Bytes × Bytes)
prepend (some c) (some (text, rest)) = some (c ∷ text, rest)
prepend _ _ = none

-- Reading a string behind its opening quote: the text up to the closing quote, and what follows it. A
-- raw control character ends the reading with an error.
unfoldable pub read_string : Bytes → Option (Bytes × Bytes)
read_string [] = none
read_string (c ∷ []) = if c == b'"' then some ([], []) else none
read_string (c ∷ d ∷ cs) =
    let after = read_string cs in
    let next = read_string (d ∷ cs) in
    if c == b'"'
    then some ([], d ∷ cs)
    else if c == b'\\'
    then prepend (escaped d) after
    else if ltb c 0x20
    then none
    else prepend (some c) next

read_string-escape :
    (d value : ℕ) (ts text rest : Bytes)
    → escaped d ≡ some value
    → read_string ts ≡ some (text, rest)
    → read_string (b'\\' ∷ d ∷ ts) ≡ some (value ∷ text, rest)
unfolding read_string
read_string-escape d value ts text rest e r = rw (e, r)

read_string-plain :
    (c : ℕ) (ts text rest : Bytes)
    → (c == b'"') ≡ false
    → (c == b'\\') ≡ false
    → ltb c 0x20 ≡ false
    → read_string ts ≡ some (text, rest)
    → read_string (c ∷ ts) ≡ some (c ∷ text, rest)
unfolding read_string
read_string-plain c [] text rest e f g r = cc r
read_string-plain c (t ∷ ts) text rest e f g r = rw (e, f, g, r)

-- No control character, or one of the three that have an escape of the code.
abbrev pub IsWritten : ℕ → Type 0
IsWritten c = (ltb c 0x20 && not (c == b'\n' || c == b'\r' || c == b'\t')) ≡ false

-- What the code writes for one character.
json_escape-cases :
    (c : ℕ) (cs : Bytes)
    → IsWritten c
    → ((d : ℕ) × (escaped d ≡ some c) × (json_escape (c ∷ cs) ≡ b'\\' ∷ d ∷ json_escape cs))
      ⊎ (((c == b'"') ≡ false)
          × ((c == b'\\') ≡ false)
          × (ltb c 0x20 ≡ false)
          × (json_escape (c ∷ cs) ≡ c ∷ json_escape cs))
unfolding json_escape
json_escape-cases c cs w = elim (Bool-cases (c == b'"')) [
  | inl e1 ↦ inl (b'"', ground arith, rw e1)
  | inr e1 ↦ elim (Bool-cases (c == b'\\')) [
    | inl e2 ↦ inl (b'\\', ground arith, rw (e1, e2))
    | inr e2 ↦ elim (Bool-cases (c == b'\n')) [
      | inl e3 ↦ inl (b'n', ground arith, rw (e1, e2, e3))
      | inr e3 ↦ elim (Bool-cases (c == b'\r')) [
        | inl e4 ↦ inl (b'r', ground arith, rw (e1, e2, e3, e4))
        | inr e4 ↦ elim (Bool-cases (c == b'\t')) [
          | inl e5 ↦ inl (b't', ground arith, rw (e1, e2, e3, e4, e5))
          | inr e5 ↦ inr (e1, e2, ground (arith, w, e3, e4, e5), rw (e1, e2, e3, e4, e5))
        ]
      ]
    ]
  ]
]

json_escape-empty : (rest : Bytes) → read_string (json_escape [] ++ (b'"' ∷ rest)) ≡ some ([], rest)
unfolding json_escape read_string
json_escape-empty [] = refl
json_escape-empty (x ∷ rest) = refl

-- For a text whose control characters below 0x20 are line feeds, carriage returns and tabs: a reader of
-- strings that takes no raw control character ends, for what `json_escape` writes between quotes, at the
-- closing quote and has read the text.
pub read_string-json_escape :
    (s rest : Bytes)
    → All IsWritten s
    → read_string (json_escape s ++ (b'"' ∷ rest)) ≡ some (s, rest)
read_string-json_escape [] rest w = json_escape-empty rest
read_string-json_escape (c ∷ cs) rest w =
    let ih = read_string-json_escape cs rest w.1 in
    elim (json_escape-cases c cs w.0) [
      | inl (d, means, e) ↦
          rw e (read_string-escape d c (json_escape cs ++ (b'"' ∷ rest)) cs rest means ih)
      | inr (no_quote, no_slash, no_control, e) ↦ rw e (
          read_string-plain c (json_escape cs ++ (b'"' ∷ rest)) cs rest no_quote no_slash no_control
            ih)
    ]
