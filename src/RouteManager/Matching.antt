-- ===== src/RouteManager/Matching.antt =====
-- Matching a pattern: which paths fit it, and what the parameters capture.
use libapostol.Prelude.{
  ◌-◌, ◌≡◌, ◌≢◌, ◌↔◌, ◌⊎◌, inl, inr, refl, Bool, true, false, not, Option, none, some, List, [],
  ◌∷◌, Bytes, bytes_eq, bytes_eq_iff, length, take, is_empty, leb, ◌==◌, None, arith, Bool-cases,
  if◌then◌else◌,
}
use libapostol.RouteManager.{
  PathParams, set_param, split_path, is_param, param_name, match_segments, star, has_wildcard,
  match_parts, match_route,
}

-- A path fits a pattern: a parameter takes any segment, any other segment of the pattern itself, and
-- a star at the end of the pattern at least one segment.
abbrev pub Fits : List Bytes → List Bytes → Type 0
Fits [] [] = Unit
Fits [] (part ∷ path) = None
Fits (seg ∷ pat) [] = None
Fits (seg ∷ pat) (part ∷ path) =
    ((seg ≡ star) × (pat ≡ [])) ⊎ (((is_param seg ≡ true) ⊎ (seg ≡ part)) × Fits pat path)

-- `match_parts` from parameters on.
abbrev match_from : List Bytes → List Bytes → PathParams → Option PathParams
match_from pat path params =
    if has_wildcard pat
    then if leb (length path) (length pat - 1)
      then none
      else match_segments (take (length pat - 1) pat) path params
    else if not (length pat == length path)
    then none
    else match_segments pat path params

match_from-cons :
    (seg next part : Bytes) (pat path : List Bytes) (params : PathParams)
    → match_from (seg ∷ next ∷ pat) (part ∷ path) params ≡ (
        if is_param seg
        then match_from (next ∷ pat) path (set_param (param_name seg) part params)
        else if bytes_eq seg part
        then match_from (next ∷ pat) path params
        else none)
unfolding match_segments has_wildcard
match_from-cons seg next part pat path params = ground arith

abbrev Found : Option PathParams → Type 0
Found o = (found : PathParams) × (o ≡ some found)

-- The choice that the loop makes for one segment.
choice_iff :
    {F : Type 0} (p : Bool) (seg part : Bytes) (captured rest : Option PathParams)
    → Found captured ↔ F
    → Found rest ↔ F
    → Found (if p then captured else if bytes_eq seg part then rest else none)
      ↔ (((p ≡ true) ⊎ (seg ≡ part)) × F)
choice_iff true seg part captured rest (to, from) q = (λ m. (inl refl, to m), λ f. from f.1)
choice_iff false seg part captured rest q (to, from) = elim (Bool-cases (bytes_eq seg part)) [
  | inl same ↦ simp same (λ m. (inr ((bytes_eq_iff seg part).0 same), to m), λ f. from f.1)
  | inr other ↦ simp other (
    λ m. cc (m.1),
    λ f. elim f.0 [ inl e ↦ cc e | inr e ↦ cc (other, (bytes_eq_iff seg part).1 e) ],
  )
]

no_pattern :
    (part : Bytes) (path : List Bytes) (params : PathParams)
    → match_from [] (part ∷ path) params ≡ none
unfolding has_wildcard
no_pattern part path params = ground arith

no_path :
    (seg : Bytes) (pat : List Bytes) (params : PathParams) → match_from (seg ∷ pat) [] params ≡ none
no_path seg pat params = ground arith

last_segment :
    (seg part : Bytes) (path : List Bytes) (params : PathParams)
    → match_from (seg ∷ []) (part ∷ path) params ≡ (
        if bytes_eq seg star
        then some params
        else if is_empty path
        then if is_param seg
          then some (set_param (param_name seg) part params)
          else if bytes_eq seg part
          then some params
          else none
        else none)
unfolding match_segments has_wildcard
last_segment seg part [] params = ground arith
last_segment seg part (next ∷ path) params = ground arith

in_place :
    (seg part : Bytes) (path : List Bytes) (params : PathParams)
    → seg ≢ star
    → Found (
        if is_empty path
        then if is_param seg
          then some (set_param (param_name seg) part params)
          else if bytes_eq seg part
          then some params
          else none
        else none)
      ↔ Fits (seg ∷ []) (part ∷ path)
in_place seg part [] params plain =
    let (to, from) =
      choice_iff {F = Unit} (is_param seg) seg part (some (set_param (param_name seg) part params))
        (some params) (λ m. tt, λ u. (set_param (param_name seg) part params, refl))
        (λ m. tt, λ u. (params, refl)) in
    (λ m. inr (to m), elim [ inl h ↦ absurd (plain h.0) | inr h ↦ from h ])
in_place seg part (next ∷ path) params plain =
    (λ m. cc (m.1), elim [ inl h ↦ absurd (plain h.0) | inr h ↦ elim h.1 [ ] ])

last-Fits :
    (seg part : Bytes) (path : List Bytes) (params : PathParams)
    → Found (match_from (seg ∷ []) (part ∷ path) params) ↔ Fits (seg ∷ []) (part ∷ path)
last-Fits seg part path params =
    let (to, from) = bytes_eq_iff seg star in
    rw (last_segment seg part path params) (elim (Bool-cases (bytes_eq seg star)) [
      | inl wild ↦ simp wild (λ m. inl (to wild, refl), λ f. (params, refl))
      | inr other ↦ simp other (in_place seg part path params (λ e. cc (other, from e)))
    ])

match_from-Fits :
    (pat path : List Bytes) (params : PathParams)
    → Found (match_from pat path params) ↔ Fits pat path
unfolding match_segments has_wildcard
match_from-Fits [] [] params = (λ m. tt, λ f. (params, refl))
match_from-Fits [] (part ∷ path) params =
    (λ m. cc (m.1, no_pattern part path params), λ f. elim f [ ])
match_from-Fits (seg ∷ pat) [] params = (λ m. cc (m.1, no_path seg pat params), λ f. elim f [ ])
match_from-Fits (seg ∷ []) (part ∷ path) params = last-Fits seg part path params
match_from-Fits (seg ∷ next ∷ pat) (part ∷ path) params =
    let (to, from) =
      choice_iff (is_param seg) seg part _ _
        (match_from-Fits (next ∷ pat) path (set_param (param_name seg) part params))
        (match_from-Fits (next ∷ pat) path params) in
    rw (match_from-cons seg next part pat path params)
      (λ m. inr (to m), elim [ inl h ↦ cc (h.1) | inr h ↦ from h ])

-- A path matches a pattern exactly when its segments fit the pattern's.
pub match_route-Fits :
    (pattern path : Bytes)
    → ((params : PathParams) × (match_route pattern path ≡ some params))
      ↔ Fits (split_path pattern) (split_path path)
unfolding match_route match_parts
match_route-Fits pattern path = match_from-Fits (split_path pattern) (split_path path) []
