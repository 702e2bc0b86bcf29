-- ===== src/Http/Request/KeepAlive.antt =====
-- The options of the Connection headers.
use libapostol.Prelude.{
  ℕ, zero, suc, ◌≤◌, ◌≡◌, refl, ap, ◌∙◌, Bool, true, false, not, ◌&&◌, ◌||◌, List, [], ◌∷◌, ◌++◌,
  map, Bytes, codes, bytes_eq, Avoids, find-none, find-first, take-whole, drop-past-char, length,
  length-append, All, any, arith, Bool-cases, is_empty, if◌then◌else◌, inl, inr,
}
use libapostol.HttpUtils.Headers.{trim_start, trim_end}
use libapostol.HttpUtils.Proxies.{join_commas}
use libapostol.Http.Response.{Field, same_text}
use libapostol.Http.Request.{
  HttpRequest, Options, see, see_element, see_list, see_headers, keep_alive,
}

-- A header field by the elements of its list.
abbrev pub Listed : Type 0
Listed = Bytes × (Bytes × List Bytes)

abbrev pub written : Listed → Field
written l = (l.0, join_commas l.1.0 l.1.1)

-- Whether an option stands in a field: one of Connection that has it as an element, in any case, with
-- blanks around it.
abbrev pub names : Bytes → Listed → Bool
names option l =
    same_text l.0 (codes "Connection")
    && any (λ (e : Bytes). same_text (trim_end (trim_start e)) option) (l.1.0 ∷ l.1.1)

abbrev see_all : List Bytes → Options → Options
see_all [] o = o
see_all (e ∷ es) o = see_all es (see_element e o)

nonempty : (e t : Bytes) → is_empty (e ++ (b',' ∷ t)) ≡ false
nonempty [] t = refl
nonempty (c ∷ cs) t = refl

see_list-join :
    (fuel : ℕ) (e : Bytes) (es : List Bytes) (o : Options)
    → All (Avoids b',') (e ∷ es)
    → length (join_commas e es) ≤ fuel
    → see_list fuel (join_commas e es) o ≡ see_all (e ∷ es) o
unfolding see_list trim_start
see_list-join zero [] [] o h l = refl
see_list-join zero (c ∷ cs) [] o h l = absurd (omega arith)
see_list-join zero e (f ∷ fs) o h l =
    absurd (omega (arith, length-append e (b',' ∷ join_commas f fs)))
see_list-join (suc fuel) [] [] o h l = refl
see_list-join (suc fuel) (c ∷ cs) [] o h l = rw (find-none b',' (c ∷ cs) h.0)
see_list-join (suc fuel) e (f ∷ fs) o h l = rw (
  nonempty e (join_commas f fs),
  find-first b',' e (join_commas f fs) h.0,
  take-whole e (b',' ∷ join_commas f fs),
  drop-past-char b',' e (join_commas f fs),
  see_list-join fuel f fs (see_element e o) h.1
      (omega (arith, length-append e (b',' ∷ join_commas f fs))),
)

exclusive :
    (t : Bytes) → same_text t (codes "close") ≡ true → same_text t (codes "keep-alive") ≡ false
unfolding same_text
exclusive [] h = refl
exclusive (c ∷ cs) h = ground arith

see-options :
    (t : Bytes) (o : Options)
    → see t o ≡ record {
      close = o.close || same_text t (codes "close");
      keep = o.keep || same_text t (codes "keep-alive");
    }
see-options t o = elim (Bool-cases (same_text t (codes "close"))) [
  | inl close ↦ simp (close, exclusive t close) (ground arith)
  | inr other ↦ ground arith
]

-- What an option set becomes by seeing texts of which some are `close`, some `keep-alive`.
abbrev with_options : Bool → Bool → Options → Options
with_options close keep o = record { close = o.close || close; keep = o.keep || keep }

of_trimmed :
    (t : Bytes) (o : Options)
    → (if is_empty t then o else see (trim_end t) o)
      ≡ with_options
          (same_text (trim_end t) (codes "close"))
          (same_text (trim_end t) (codes "keep-alive"))
          o
unfolding trim_end same_text
of_trimmed [] o = ground arith
of_trimmed (c ∷ cs) o = see-options (trim_end (c ∷ cs)) o

abbrev is_option : Bytes → Bytes → Bool
is_option option e = same_text (trim_end (trim_start e)) option

with_options-twice :
    (a b c d : Bool) (o : Options)
    → with_options c d (with_options a b o) ≡ with_options (a || c) (b || d) o
with_options-twice a b c d o = ground arith

see_all-options :
    (es : List Bytes) (o : Options)
    → see_all es o
      ≡ with_options
          (any (is_option (codes "close")) es)
          (any (is_option (codes "keep-alive")) es)
          o
see_all-options [] o = ground arith
see_all-options (e ∷ es) o =
    see_all-options es (see_element e o)
    ∙ (ap
          (with_options (any (is_option (codes "close")) es)
            (any (is_option (codes "keep-alive")) es))
          (of_trimmed (trim_start e) o)
        ∙ with_options-twice (is_option (codes "close") e) (is_option (codes "keep-alive") e)
            (any (is_option (codes "close")) es) (any (is_option (codes "keep-alive")) es) o)

abbrev pub NoCommas : Listed → Type 0
NoCommas l = All (Avoids b',') (l.1.0 ∷ l.1.1)

-- One header field.
see-written :
    (l : Listed) (o : Options)
    → NoCommas l
    → (if same_text l.0 (codes "Connection")
        then see_list (length (written l).1) (written l).1 o
        else o)
      ≡ with_options (names (codes "close") l) (names (codes "keep-alive") l) o
see-written (k, (e, es)) o h = elim (Bool-cases (same_text k (codes "Connection"))) [
  | inl connection ↦ simp connection (
      see_list-join (length (join_commas e es)) e es o h (omega arith) ∙ see_all-options (e ∷ es) o)
  | inr other ↦ simp other (ground arith)
]

see_headers-written :
    (ls : List Listed) (o : Options)
    → All NoCommas ls
    → see_headers (map written ls) o
      ≡ with_options (any (names (codes "close")) ls) (any (names (codes "keep-alive")) ls) o
unfolding see_headers
see_headers-written [] o h = ground arith
see_headers-written (l ∷ ls) o h =
    ap (see_headers (map written ls)) (see-written l o h.0)
    ∙ (see_headers-written ls
          (with_options (names (codes "close") l) (names (codes "keep-alive") l) o) h.1
        ∙ with_options-twice (names (codes "close") l) (names (codes "keep-alive") l)
            (any (names (codes "close")) ls) (any (names (codes "keep-alive")) ls) o)

-- For headers whose values are lists of elements, none with a comma of its own: the connection is kept
-- exactly when no Connection field names `close`, and either the version is HTTP/1.1 or one of them
-- names `keep-alive`.
pub keep_alive-written :
    (req : HttpRequest) (ls : List Listed)
    → req.headers ≡ map written ls
    → All NoCommas ls
    → keep_alive req ≡ (
        not (any (names (codes "close")) ls)
        && (bytes_eq req.version (codes "HTTP/1.1") || any (names (codes "keep-alive")) ls))
unfolding keep_alive
keep_alive-written req ls e h =
    let seen = see_headers-written ls (record { close = false; keep = false }) h in
    rw (ap (λ t. see_headers t (record { close = false; keep = false })) e ∙ seen, keep_alive)
      (ground arith)
