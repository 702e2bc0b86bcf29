-- ===== src/PgUtils/Quoting.antt =====
-- Quoted values and names, read as PostgreSQL reads them.
use libapostol.Prelude.{
  ℕ, ◌≡◌, refl, ap, sym, ◌∙◌, Bool, false, ◌==◌, ◌||◌, Option, none, some, [], ◌∷◌, ◌++◌, Bytes,
  arith, inl, inr, Bool-cases, if◌then◌else◌, append_assoc,
}
use libapostol.PgUtils.{quote_chars, pq_quote_literal, double_quotes, pq_quote_ident}

abbrev prepend : ℕ → Option (Bytes × Bytes) → Option (Bytes × Bytes)
prepend c none = none
prepend c (some (text, rest)) = some (c ∷ text, rest)

-- Whether a text goes on with a given character.
abbrev pub begins_with : ℕ → Bytes → Bool
begins_with q [] = false
begins_with q (c ∷ cs) = c == q

-- Behind the opening quote of a string with escapes: two quotes are a quote, a backslash before a quote
-- or a backslash is that character, any other escape is not read, a lone quote ends the string.
unfoldable pub read_escaped : Bytes → Option (Bytes × Bytes)
read_escaped [] = none
read_escaped (c ∷ []) = if c == b'\'' then some ([], []) else none
read_escaped (c ∷ d ∷ cs) =
    let after = read_escaped cs in
    let next = read_escaped (d ∷ cs) in
    if c == b'\''
    then if d == b'\'' then prepend d after else some ([], d ∷ cs)
    else if c == b'\\'
    then if d == b'\'' || d == b'\\' then prepend d after else none
    else prepend c next

unfoldable pub read_literal : Bytes → Option (Bytes × Bytes)
read_literal (e ∷ q ∷ cs) =
    let text = read_escaped cs in if e == b'E' then if q == b'\'' then text else none else none
read_literal _ = none

-- Behind the opening quote of a name: two quotes are a quote, a lone quote ends the name.
unfoldable pub read_quoted : Bytes → Option (Bytes × Bytes)
read_quoted [] = none
read_quoted (c ∷ []) = if c == b'"' then some ([], []) else none
read_quoted (c ∷ d ∷ cs) =
    let after = read_quoted cs in
    let next = read_quoted (d ∷ cs) in
    if c == b'"' then if d == b'"' then prepend d after else some ([], d ∷ cs) else prepend c next

unfoldable pub read_ident : Bytes → Option (Bytes × Bytes)
read_ident (q ∷ cs) = let text = read_quoted cs in if q == b'"' then text else none
read_ident [] = none

read_escaped-end :
    (rest : Bytes) → begins_with b'\'' rest ≡ false → read_escaped (b'\'' ∷ rest) ≡ some ([], rest)
unfolding read_escaped
read_escaped-end [] h = refl
read_escaped-end (c ∷ rest) h = ground (arith, h)

read_escaped-plain :
    (c : ℕ) (ts text rest : Bytes)
    → (c == b'\'') ≡ false
    → (c == b'\\') ≡ false
    → read_escaped ts ≡ some (text, rest)
    → read_escaped (c ∷ ts) ≡ some (c ∷ text, rest)
unfolding read_escaped
read_escaped-plain c [] text rest e f r = cc r
read_escaped-plain c (t ∷ ts) text rest e f r = rw (e, f, r)

read_escaped-chars :
    (val rest : Bytes)
    → begins_with b'\'' rest ≡ false
    → read_escaped (quote_chars val ++ (b'\'' ∷ rest)) ≡ some (val, rest)
unfolding quote_chars read_escaped
read_escaped-chars [] rest h = read_escaped-end rest h
read_escaped-chars (c ∷ cs) rest h =
    let more = read_escaped-chars cs rest h in
    elim (Bool-cases (c == b'\'')) [
      | inl quote ↦
          rw quote
            (ap (prepend b'\'') more ∙ ap (λ (x : ℕ). some (x ∷ cs, rest)) (ground (arith, quote)))
      | inr e ↦ elim (Bool-cases (c == b'\\')) [
        | inl backslash ↦
            rw (e, backslash)
              (ap (prepend b'\\') more
                ∙ ap (λ (x : ℕ). some (x ∷ cs, rest)) (ground (arith, backslash)))
        | inr f ↦ rw (e, f) (read_escaped-plain c _ cs rest e f more)
      ]
    ]

-- PostgreSQL reads what pq_quote_literal writes for a value, followed by anything but a quote, as that
-- value, and goes on behind it.
pub read_literal-pq_quote_literal :
    (val rest : Bytes)
    → begins_with b'\'' rest ≡ false
    → read_literal (pq_quote_literal val ++ rest) ≡ some (val, rest)
unfolding read_literal
read_literal-pq_quote_literal val rest h =
    ap read_escaped (append_assoc (quote_chars val) (b'\'' ∷ []) rest)
    ∙ read_escaped-chars val rest h

read_quoted-end :
    (rest : Bytes) → begins_with b'"' rest ≡ false → read_quoted (b'"' ∷ rest) ≡ some ([], rest)
unfolding read_quoted
read_quoted-end [] h = refl
read_quoted-end (c ∷ rest) h = ground (arith, h)

read_quoted-plain :
    (c : ℕ) (ts text rest : Bytes)
    → (c == b'"') ≡ false
    → read_quoted ts ≡ some (text, rest)
    → read_quoted (c ∷ ts) ≡ some (c ∷ text, rest)
unfolding read_quoted
read_quoted-plain c [] text rest e r = cc r
read_quoted-plain c (t ∷ ts) text rest e r = rw (e, r)

read_quoted-chars :
    (name rest : Bytes)
    → begins_with b'"' rest ≡ false
    → read_quoted (double_quotes name ++ (b'"' ∷ rest)) ≡ some (name, rest)
unfolding double_quotes read_quoted
read_quoted-chars [] rest h = read_quoted-end rest h
read_quoted-chars (c ∷ cs) rest h =
    let more = read_quoted-chars cs rest h in
    elim (Bool-cases (c == b'"')) [
      | inl quote ↦
          let same : b'"' ≡ c = ground (arith, quote) in
          rw (quote, sym same) (ap (prepend b'"') more)
      | inr e ↦ rw e (read_quoted-plain c _ cs rest e more)
    ]

-- PostgreSQL reads what pq_quote_ident writes for a name, followed by anything but a double quote, as
-- that name, and goes on behind it.
pub read_ident-pq_quote_ident :
    (name rest : Bytes)
    → begins_with b'"' rest ≡ false
    → read_ident (pq_quote_ident name ++ rest) ≡ some (name, rest)
unfolding read_ident
read_ident-pq_quote_ident name rest h =
    ap read_quoted (append_assoc (double_quotes name) (b'"' ∷ []) rest)
    ∙ read_quoted-chars name rest h
