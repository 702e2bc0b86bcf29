-- ===== src/RouteManager/Tests.antt =====
-- Runs of the dispatch.
use libapostol.Prelude.{
  find, ◌≡◌, ◌↔◌, ◌⊎◌, refl, true, false, some, List, [], ◌∷◌, Bytes, codes, bytes_eq, take, length,
  All,
}
use libapostol.RouteManager.{
  PathParams, set_param, param, split_from, split_path, is_param, match_segments, has_wildcard,
  match_parts, match_route, classify, HttpRequest, RouteEntry, RouteManager, find_route,
  find_in_passes, dispatch, add_route, strip_slashes, set_base_path,
}
use libapostol.RouteManager.Matching.{Fits, match_route-Fits}
use libapostol.RouteManager.Captures.{fixed, fill, match_route-fill}
use libapostol.RouteManager.Priority.{IsChosen, Misses, dispatch-IsChosen}

-- A handler of the tests puts its name and what it was given as `id` on the response.
abbrev answer : Bytes → HttpRequest Unit → List Bytes → PathParams → List Bytes
answer name req resp params = name ∷ param params (codes "id") ∷ resp

abbrev empty_manager : RouteManager Unit (List Bytes)
empty_manager = record { base_path = []; routes = [] }

abbrev manager : RouteManager Unit (List Bytes)
manager = record {
  base_path = codes "/api";
  routes =
      record { method = codes "GET"; pattern = codes "/*"; handler = answer (codes "any") }
      ∷ record { method = codes "GET"; pattern = codes "/u/{id}"; handler = answer (codes "user") }
      ∷ record { method = codes "GET"; pattern = codes "/u/me"; handler = answer (codes "me") }
      ∷ [];
}

abbrev get : Bytes → HttpRequest Unit
get path = record { method = codes "GET"; path = path; rest = tt }

priority :
    (dispatch manager (get (codes "/api/u/me")) [] ≡ (true, codes "me" ∷ [] ∷ []))
    × (dispatch manager (get (codes "/api//u/7/")) [] ≡ (true, codes "user" ∷ codes "7" ∷ []))
    × (dispatch manager (get (codes "/api/x/y/z")) [] ≡ (true, codes "any" ∷ [] ∷ []))
    × (dispatch manager (get (codes "/api")) [] ≡ (false, []))
unfolding set_param param find split_from split_path is_param match_segments has_wildcard
    match_parts match_route classify find_route find_in_passes dispatch bytes_eq
priority = (refl, refl, refl, refl)

built :
    set_base_path (add_route empty_manager (codes "GET") (codes "/x") (answer [])) (codes "/api//")
    ≡ record {
      base_path = codes "/api";
      routes = record { method = codes "GET"; pattern = codes "/x"; handler = answer [] } ∷ [];
    }
unfolding strip_slashes set_base_path add_route param
built = refl

match_route-Fits_example :
    ((params : PathParams) × (match_route (codes "/u/{id}/*") (codes "/u/7/a/b") ≡ some params))
    ↔ Fits (split_path (codes "/u/{id}/*")) (split_path (codes "/u/7/a/b"))
match_route-Fits_example = match_route-Fits (codes "/u/{id}/*") (codes "/u/7/a/b")

captured : match_route (codes "/u/{id}") (codes "/u/7") ≡ some ((codes "id", codes "7") ∷ [])
unfolding set_param find split_from split_path is_param match_segments has_wildcard match_parts
    match_route bytes_eq
captured = refl

match_route-fill_example :
    fill ((codes "id", codes "7") ∷ []) (fixed (split_path (codes "/u/{id}")))
    ≡ take (length (fixed (split_path (codes "/u/{id}")))) (split_path (codes "/u/7"))
unfolding find split_from split_path is_param has_wildcard bytes_eq
match_route-fill_example =
    match_route-fill (codes "/u/{id}") (codes "/u/7") ((codes "id", codes "7") ∷ [])
      ((λ e. cc e), ((λ _. tt), tt)) captured

dispatch-IsChosen_example :
    ((entry : RouteEntry Unit (List Bytes)) × (params : PathParams) × IsChosen manager
        (get (codes "/api/u/me"))
        entry
        params
      × (dispatch manager (get (codes "/api/u/me")) []
          ≡ (true, entry.handler (get (codes "/api/u/me")) [] params)))
    ⊎ (All (Misses manager (get (codes "/api/u/me"))) manager.routes
        × (dispatch manager (get (codes "/api/u/me")) [] ≡ (false, [])))
dispatch-IsChosen_example = dispatch-IsChosen manager (get (codes "/api/u/me")) []
