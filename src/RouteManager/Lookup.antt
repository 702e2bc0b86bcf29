-- ===== src/RouteManager/Lookup.antt =====
-- `has_route` beside the dispatch.
use libapostol.Prelude.{
  ◌≡◌, refl, Bool, true, false, none, some, inl, inr, List, [], ◌∷◌, ◌++◌, Bytes, any, All, arith,
}
use libapostol.RouteManager.{
  HttpRequest, RouteEntry, RouteManager, effective, dispatch, has_route, match_route,
}
use libapostol.RouteManager.Priority.{Misses, dispatch-IsChosen}

abbrev matches : {Req Resp : Type 0} → RouteManager Req Resp → Bytes → RouteEntry Req Resp → Bool
matches rm path entry = elim (match_route (effective rm entry) path) [
  | none ↦ false
  | some params ↦ true
]

any-append :
    {A : Type 0} (p : A → Bool) (before after : List A) (x : A)
    → p x ≡ true
    → any p (before ++ (x ∷ after)) ≡ true
any-append p [] after x h = rw h
any-append p (y ∷ before) after x h = ground (arith, any-append p before after x h)

none-match :
    {Req Resp : Type 0} (rm : RouteManager Req Resp) (req : HttpRequest Req)
    (routes : List (RouteEntry Req Resp))
    → All (λ (e : RouteEntry Req Resp). e.method ≡ req.method) routes
    → All (Misses rm req) routes
    → any (matches rm req.path) routes ≡ false
none-match rm req [] h m = refl
none-match rm req (entry ∷ routes) h m = elim m.0 [
  | inl other ↦ absurd (other h.0)
  | inr missed ↦
      let fails : matches rm req.path entry ≡ false = rw (missed, matches) in
      rw (fails, none-match rm req routes h.1 m.1)
]

-- For routes that all have the request's method, `has_route` tells whether `dispatch` will find one.
has_route-dispatch :
    {Req Resp : Type 0} (rm : RouteManager Req Resp) (req : HttpRequest Req) (resp : Resp)
    → All (λ (e : RouteEntry Req Resp). e.method ≡ req.method) rm.routes
    → has_route rm req.path ≡ (dispatch rm req resp).0
unfolding has_route
has_route-dispatch rm req resp h = elim (dispatch-IsChosen rm req resp) [
  | inr (missed, e) ↦ rw e (none-match rm req rm.routes h missed)
  | inl (entry, params, c, e) ↦
      rw (e, c.listed)
        (any-append (matches rm req.path) c.before c.after entry (rw (c.matched, matches)))
]
