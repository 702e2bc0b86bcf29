-- ===== src/RouteManager/Captures.antt =====
-- What the parameters of a pattern capture.
use libapostol.Prelude.{
  ◌-◌, ◌≡◌, ◌≢◌, refl, ◌∙◌, true, some, inl, inr, List, [], ◌∷◌, Bytes, bytes_eq, bytes_eq_iff,
  length, take, All, arith, Bool-cases, if◌then◌else◌,
}
use libapostol.RouteManager.{
  PathParams, set_param, param, split_path, is_param, param_name, match_segments, has_wildcard,
  match_parts, match_route,
}

-- The segments before a wildcard at the end, or all of them.
abbrev pub fixed : List Bytes → List Bytes
fixed pat = if has_wildcard pat then take (length pat - 1) pat else pat

-- A pattern with the values in place of its parameters.
abbrev pub fill : PathParams → List Bytes → List Bytes
fill params [] = []
fill params (seg ∷ pat) =
    (if is_param seg then param params (param_name seg) else seg) ∷ fill params pat

abbrev pub IsUnused : Bytes → List Bytes → Type 0
IsUnused name pat = All (λ (seg : Bytes). is_param seg ≡ true → param_name seg ≢ name) pat

-- No two parameters of a pattern have one name.
abbrev pub HasDistinctNames : List Bytes → Type 0
HasDistinctNames [] = Unit
HasDistinctNames (seg ∷ pat) =
    (is_param seg ≡ true → IsUnused (param_name seg) pat) × HasDistinctNames pat

param-set_param :
    (params : PathParams) (name value : Bytes) → param (set_param name value params) name ≡ value
unfolding param set_param
param-set_param [] name value = ground (arith, bytes_eq_iff name name)
param-set_param ((key, old) ∷ params) name value = ground (arith, param-set_param params name value)

param-set_param-other :
    (params : PathParams) (name other value : Bytes)
    → name ≢ other
    → param (set_param name value params) other ≡ param params other
unfolding param set_param
param-set_param-other [] name other value apart = ground (arith, bytes_eq_iff name other)
param-set_param-other ((key, old) ∷ params) name other value apart = ground (
  arith,
  param-set_param-other params name other value apart,
  bytes_eq_iff key name,
  bytes_eq_iff key other,
)

-- A name that the pattern does not use keeps its value.
param-match_segments :
    (pat path : List Bytes) (params found : PathParams) (name : Bytes)
    → IsUnused name pat
    → match_segments pat path params ≡ some found
    → param found name ≡ param params name
unfolding match_segments
param-match_segments [] path params found name h e = cc e
param-match_segments (seg ∷ pat) [] params found name h e = cc e
param-match_segments (seg ∷ pat) (part ∷ path) params found name h e =
    elim (Bool-cases (is_param seg)) [
      | inl captures ↦
          param-match_segments pat path (set_param (param_name seg) part params) found name h.1
            (rw captures at e)
          ∙ param-set_param-other params (param_name seg) name part (h.0 captures)
      | inr literal ↦ elim (Bool-cases (bytes_eq seg part)) [
        | inl same ↦ param-match_segments pat path params found name h.1 (rw (literal, same) at e)
        | inr other ↦ cc (rw (literal, other) at e)
      ]
    ]

fill-match_segments :
    (pat path : List Bytes) (params found : PathParams)
    → HasDistinctNames pat
    → match_segments pat path params ≡ some found
    → fill found pat ≡ take (length pat) path
unfolding match_segments
fill-match_segments [] path params found h e = refl
fill-match_segments (seg ∷ pat) [] params found h e = cc e
fill-match_segments (seg ∷ pat) (part ∷ path) params found h e = elim (Bool-cases (is_param seg)) [
  | inl captures ↦
      let e' = rw captures at e in
      let value =
        param-match_segments pat path (set_param (param_name seg) part params) found
          (param_name seg) (h.0 captures) e' in
      let rest =
        fill-match_segments pat path (set_param (param_name seg) part params) found h.1 e' in
      rw (captures, value, param-set_param params (param_name seg) part, rest)
  | inr literal ↦ elim (Bool-cases (bytes_eq seg part)) [
    | inl same ↦ rw (
      literal,
      fill-match_segments pat path params found h.1 (rw (literal, same) at e),
      (bytes_eq_iff seg part).0 same,
    )
    | inr other ↦ cc (rw (literal, other) at e)
  ]
]

match_parts-fixed :
    (pat path : List Bytes) (params : PathParams)
    → match_parts pat path ≡ some params
    → match_segments (fixed pat) path [] ≡ some params
unfolding match_parts
match_parts-fixed pat path params e = ground arith

-- Filling a pattern with what it captured gives back the segments of the path, up to the wildcard if
-- the pattern has one, for a pattern with distinct names.
pub match_route-fill :
    (pattern path : Bytes) (params : PathParams)
    → HasDistinctNames (fixed (split_path pattern))
    → match_route pattern path ≡ some params
    → fill params (fixed (split_path pattern))
      ≡ take (length (fixed (split_path pattern))) (split_path path)
unfolding match_route
match_route-fill pattern path params h e =
    fill-match_segments (fixed (split_path pattern)) (split_path path) [] params h
      (match_parts-fixed (split_path pattern) (split_path path) params e)
