-- ===== src/RouteManager.antt =====
-- src/core/route_manager.cpp, include/apostol/route_manager.hpp: routes, patterns with parameters
-- and wildcards, and the dispatch by priority. The fields of a route that only the OpenAPI document
-- shows, and the builder that sets them, are left out.
pub mod Segments
pub mod Matching
pub mod Captures
pub mod Priority
pub mod Lookup
mod Tests
use libapostol.Prelude.{
  find, ℕ, zero, suc, ◌+◌, ◌-◌, Bool, true, false, not, ◌&&◌, Option, none, some, List, [], ◌∷◌,
  ◌++◌, Bytes, bytes_eq, length, get_or, take, drop, any, is_empty, ltb, leb, ◌==◌, if◌then◌else◌,
}

-- PathParams: a map by name, one entry for each name.
abbrev pub PathParams : Type 0
PathParams = List (Bytes × Bytes)

-- `params[name] = value`
unfoldable pub set_param : Bytes → Bytes → PathParams → PathParams
set_param name value [] = (name, value) ∷ []
set_param name value ((key, old) ∷ params) =
    let rest = set_param name value params in
    if bytes_eq key name then (key, value) ∷ params else (key, old) ∷ rest

-- PathParams::operator[]: an empty value for a name that is missing
unfoldable pub param : PathParams → Bytes → Bytes
param [] name = []
param ((key, value) ∷ params) name =
    let rest = param params name in if bytes_eq key name then value else rest

unfoldable pub has : PathParams → Bytes → Bool
has params name = any (λ (entry : Bytes × Bytes). bytes_eq entry.0 name) params

-- The loop of `split_path`, from `start` on; every round takes a character at least, so the fuel is
-- enough when it is the number of characters.
unfoldable pub split_from : ℕ → Bytes → List Bytes
split_from zero rest = []
split_from (suc fuel) rest = if is_empty rest then [] else elim (find b'/' rest) [
  | none ↦ rest ∷ []
  | some pos ↦
      let more = split_from fuel (drop (suc pos) rest) in
      if ltb 0 pos then take pos rest ∷ more else more
]

unfoldable pub split_path : Bytes → List Bytes
split_path path =
    let rest = if not (is_empty path) && get_or path 0 0 == b'/' then drop 1 path else path in
    split_from (length path) rest

unfoldable pub is_param : Bytes → Bool
is_param seg = leb 2 (length seg) && get_or seg 0 0 == b'{' && get_or seg (length seg - 1) 0 == b'}'

abbrev pub param_name : Bytes → Bytes
param_name seg = take (length seg - 2) (drop 1 seg)

-- The loop over the segments of the pattern; the guards before it see to it that the path has as
-- many.
unfoldable pub match_segments : List Bytes → List Bytes → PathParams → Option PathParams
match_segments [] path params = some params
match_segments (seg ∷ pat) [] params = none
match_segments (seg ∷ pat) (part ∷ path) params =
    let captured = match_segments pat path (set_param (param_name seg) part params) in
    let rest = match_segments pat path params in
    if is_param seg then captured else if bytes_eq seg part then rest else none

abbrev pub star : Bytes
star = b'*' ∷ []

unfoldable pub has_wildcard : List Bytes → Bool
has_wildcard pat = not (is_empty pat) && bytes_eq (get_or pat (length pat - 1) []) star

-- `match_route`, on the segments of the pattern and of the path
unfoldable pub match_parts : List Bytes → List Bytes → Option PathParams
match_parts pat path =
    if has_wildcard pat
    then if leb (length path) (length pat - 1)
      then none
      else match_segments (take (length pat - 1) pat) path []
    else if not (length pat == length path)
    then none
    else match_segments pat path []

unfoldable pub match_route : Bytes → Bytes → Option PathParams
match_route pattern path = match_parts (split_path pattern) (split_path path)

pub data Kind : Type 0 where
  exact : Kind
  parametric : Kind
  wildcard : Kind

unfoldable pub classify : Bytes → Kind
classify pattern =
    if any (λ (c : ℕ). c == b'*') pattern
    then wildcard
    else if any (λ (c : ℕ). c == b'{') pattern
    then parametric
    else exact

abbrev pub same_kind : Kind → Kind → Bool
same_kind exact exact = true
same_kind parametric parametric = true
same_kind wildcard wildcard = true
same_kind _ _ = false

-- What the dispatch reads of a request is its method and its path; `Req` and `Resp` are the rest.
-- The loop of `set_base_path`; it shortens the path, so its length is enough fuel.
unfoldable pub strip_slashes : ℕ → Bytes → Bytes
strip_slashes zero base = base
strip_slashes (suc fuel) base =
    let shorter = strip_slashes fuel (take (length base - 1) base) in
    if ltb 1 (length base) && get_or base (length base - 1) 0 == b'/' then shorter else base

pub record HttpRequest (Req : Type 0) : Type 0 where
  pub method : Bytes
  pub path : Bytes
  pub rest : Req

-- A handler may change the response.
pub record RouteEntry (Req Resp : Type 0) : Type 0 where
  pub method : Bytes
  pub pattern : Bytes
  pub handler : HttpRequest Req → Resp → PathParams → Resp

pub record RouteManager (Req Resp : Type 0) : Type 0 where
  pub base_path : Bytes
  pub routes : List (RouteEntry Req Resp)

abbrev pub passes : List Kind
passes = exact ∷ parametric ∷ wildcard ∷ []

module _ {Req Resp : Type 0} where
  abbrev pub effective : RouteManager Req Resp → RouteEntry Req Resp → Bytes
  effective rm entry = rm.base_path ++ entry.pattern

  -- The loop over the routes in one pass.
  unfoldable pub find_route :
      RouteManager Req Resp
      → HttpRequest Req
      → Kind
      → List (RouteEntry Req Resp)
      → Option (RouteEntry Req Resp × PathParams)
  find_route rm req pass [] = none
  find_route rm req pass (entry ∷ routes) =
      let rest = find_route rm req pass routes in
      if not (same_kind (classify (effective rm entry)) pass)
      then rest
      else if not (bytes_eq entry.method req.method)
      then rest
      else elim (match_route (effective rm entry) req.path) [
        | none ↦ rest
        | some params ↦ some (entry, params)
      ]

  -- The loop over the passes.
  unfoldable pub find_in_passes :
      RouteManager Req Resp
      → HttpRequest Req
      → List Kind
      → Option (RouteEntry Req Resp × PathParams)
  find_in_passes rm req [] = none
  find_in_passes rm req (pass ∷ passes) = elim (find_route rm req pass rm.routes) [
    | none ↦ find_in_passes rm req passes
    | some found ↦ some found
  ]

  unfoldable pub dispatch : RouteManager Req Resp → HttpRequest Req → Resp → Bool × Resp
  dispatch rm req resp = elim (find_in_passes rm req passes) [
    | none ↦ (false, resp)
    | some found ↦ (true, found.0.handler req resp found.1)
  ]

  unfoldable pub has_route : RouteManager Req Resp → Bytes → Bool
  has_route rm path =
      any
        (λ (entry : RouteEntry Req Resp). elim (match_route (effective rm entry) path) [
          | none ↦ false
          | some params ↦ true
        ])
        rm.routes

  unfoldable pub add_route :
      RouteManager Req Resp
      → Bytes
      → Bytes
      → (HttpRequest Req → Resp → PathParams → Resp)
      → RouteManager Req Resp
  add_route rm method pattern handler = record {
    base_path = rm.base_path;
    routes = rm.routes ++ (record { method = method; pattern = pattern; handler = handler } ∷ []);
  }

  unfoldable pub set_base_path : RouteManager Req Resp → Bytes → RouteManager Req Resp
  set_base_path rm base = record {
    base_path = strip_slashes (length base) base;
    routes = rm.routes;
  }
