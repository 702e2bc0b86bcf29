-- ===== src/RouteManager/Priority.antt =====
-- Which route a request is dispatched to.
use libapostol.Prelude.{
  ℕ, suc, ◌≤◌, ◌<◌, ◌≡◌, ◌≢◌, ◌↔◌, ◌⊎◌, refl, ap, sym, ◌∙◌, true, false, Option, none, some, inl,
  inr, List, [], ◌∷◌, ◌++◌, bytes_eq, bytes_eq_iff, All, All-zip, All-split, All-always, arith,
  Bool-cases, Option-cases,
}
use libapostol.RouteManager.{
  PathParams, Kind, exact, parametric, wildcard, classify, same_kind, HttpRequest, RouteEntry,
  RouteManager, effective, find_route, find_in_passes, passes, dispatch, match_route,
}

abbrev pub rank : Kind → ℕ
rank exact = 0
rank parametric = 1
rank wildcard = 2

rank-cases : (k l : Kind) → rank k ≤ rank l → (rank k < rank l) ⊎ (k ≡ l)
rank-cases k l h = ground arith

rank-last : (k : Kind) → rank k ≤ rank wildcard
rank-last k = ground arith

module _ {Req Resp : Type 0} (rm : RouteManager Req Resp) (req : HttpRequest Req) where
  abbrev pub rank_of : RouteEntry Req Resp → ℕ
  rank_of entry = rank (classify (effective rm entry))

  -- A route does not serve the request: another method, or a path that does not match.
  abbrev pub Misses : RouteEntry Req Resp → Type 0
  Misses entry = (entry.method ≢ req.method) ⊎ (match_route (effective rm entry) req.path ≡ none)

  -- The chosen route serves the request, no route of a lower rank does, and none of the same rank
  -- that was added before it.
  pub record IsChosen (entry : RouteEntry Req Resp) (params : PathParams) : Type 0 where
    pub before : List (RouteEntry Req Resp)
    pub after : List (RouteEntry Req Resp)
    pub listed : rm.routes ≡ before ++ (entry ∷ after)
    pub method : entry.method ≡ req.method
    pub matched : match_route (effective rm entry) req.path ≡ some params
    pub earlier : All (λ (e : RouteEntry Req Resp). rank_of e ≤ rank_of entry → Misses e) before
    pub later : All (λ (e : RouteEntry Req Resp). rank_of e < rank_of entry → Misses e) after

  -- No route of a kind serves the request.
  abbrev MissesKind : Kind → RouteEntry Req Resp → Type 0
  MissesKind pass entry = classify (effective rm entry) ≡ pass → Misses entry

  same_kind_iff : (k l : Kind) → (same_kind k l ≡ true) ↔ (k ≡ l)
  same_kind_iff k l = ground arith

  -- One round of the loop over the routes.
  round-cases :
      (pass : Kind) (entry : RouteEntry Req Resp) (routes : List (RouteEntry Req Resp))
      → (MissesKind pass entry
          × (find_route rm req pass (entry ∷ routes) ≡ find_route rm req pass routes))
        ⊎ ((params : PathParams) × (classify (effective rm entry) ≡ pass)
            × (entry.method ≡ req.method)
            × (match_route (effective rm entry) req.path ≡ some params)
            × (find_route rm req pass (entry ∷ routes) ≡ some (entry, params)))
  unfolding find_route
  round-cases pass entry routes =
      let (kind_to, kind_from) = same_kind_iff (classify (effective rm entry)) pass in
      let (name_to, name_from) = bytes_eq_iff entry.method req.method in
      elim (Bool-cases (same_kind (classify (effective rm entry)) pass)) [
        | inr other ↦ inl (λ same. cc (other, kind_from same), rw other)
        | inl same ↦ elim (Bool-cases (bytes_eq entry.method req.method)) [
          | inr differs ↦ inl (λ _. inl (λ e. cc (differs, name_from e)), rw (same, differs))
          | inl agrees ↦ elim (Option-cases (match_route (effective rm entry) req.path)) [
            | inl missed ↦ inl (λ _. inr missed, rw (same, agrees, missed))
            | inr (params, matched) ↦
                inr (params, kind_to same, name_to agrees, matched, rw (same, agrees, matched))
          ]
        ]
      ]

  find_route-none :
      (pass : Kind) (routes : List (RouteEntry Req Resp))
      → find_route rm req pass routes ≡ none
      → All (MissesKind pass) routes
  find_route-none pass [] e = tt
  find_route-none pass (entry ∷ routes) e = elim (round-cases pass entry routes) [
    | inl (missed, same) ↦ (missed, find_route-none pass routes (sym same ∙ e))
    | inr (params, _, _, _, found) ↦ cc (e, found)
  ]

  abbrev IsFound : Kind → List (RouteEntry Req Resp) → RouteEntry Req Resp → PathParams → Type 0
  IsFound pass routes entry params =
      (before : List (RouteEntry Req Resp)) × (after : List (RouteEntry Req Resp)) × (routes
        ≡ before ++ (entry ∷ after))
      × All (MissesKind pass) before
      × (classify (effective rm entry) ≡ pass)
      × (entry.method ≡ req.method)
      × (match_route (effective rm entry) req.path ≡ some params)

  find_route-IsFound :
      (pass : Kind) (routes : List (RouteEntry Req Resp)) (entry : RouteEntry Req Resp)
      (params : PathParams)
      → find_route rm req pass routes ≡ some (entry, params)
      → IsFound pass routes entry params
  unfolding find_route
  find_route-IsFound pass [] entry params e = cc e
  find_route-IsFound pass (first ∷ routes) entry params e = elim (round-cases pass first routes) [
    | inl (missed, same) ↦
        let (before, after, listed, missing, kind, method, matched) =
          find_route-IsFound pass routes entry params (sym same ∙ e) in
        (
          first ∷ before,
          after,
          ap (λ t. first ∷ t) listed,
          (missed, missing),
          kind,
          method,
          matched,
        )
    | inr (values, kind, method, matched, found) ↦
        let e1 : first ≡ entry = cc (e, found) in
        let e2 : values ≡ params = cc (e, found) in
        ([], routes, rw e1, tt, rw (← e1) kind, rw (← e1) method, rw (← e1, ← e2) matched)
  ]

  -- No route of a kind before this one serves the request.
  abbrev MissesLower : Kind → RouteEntry Req Resp → Type 0
  MissesLower pass entry = rank_of entry < rank pass → Misses entry

  find_route-IsChosen :
      (pass : Kind) (entry : RouteEntry Req Resp) (params : PathParams)
      → All (MissesLower pass) rm.routes
      → find_route rm req pass rm.routes ≡ some (entry, params)
      → IsChosen entry params
  find_route-IsChosen pass entry params lower e =
      let (before, after, listed, missing, kind, method, matched) =
        find_route-IsFound pass rm.routes entry params e in
      let (low_before, low_rest) =
        All-split (MissesLower pass) before (entry ∷ after) (rw listed at lower) in
      record {
        before = before;
        after = after;
        listed = listed;
        method = method;
        matched = matched;
        earlier = rw kind (
            All-zip (MissesKind pass) (MissesLower pass) (λ e. rank_of e ≤ rank pass → Misses e)
              (λ e same lower h. elim (rank-cases (classify (effective rm e)) pass h) [
                | inl less ↦ lower less
                | inr kinds ↦ same kinds
              ])
              before missing low_before);
        later = rw kind low_rest.1;
      }

  below :
      (pass next : Kind)
      → rank next ≡ suc (rank pass)
      → All (MissesLower pass) rm.routes
      → find_route rm req pass rm.routes ≡ none
      → All (MissesLower next) rm.routes
  below pass next up lower e =
      All-zip (MissesLower pass) (MissesKind pass) (MissesLower next)
        (λ x low same h. elim (rank-cases (classify (effective rm x)) pass (omega (arith, h, up))) [
          | inl less ↦ low less
          | inr kinds ↦ same kinds
        ])
        rm.routes lower (find_route-none pass rm.routes e)

  below_exact : All (MissesLower exact) rm.routes
  below_exact = All-always (MissesLower exact) (λ e h. absurd (omega (arith, h))) rm.routes

  -- What the passes choose.
  Chosen : Option (RouteEntry Req Resp × PathParams) → Type 0
  Chosen none = All Misses rm.routes
  Chosen (some (entry, params)) = IsChosen entry params

  pass-some :
      (pass : Kind) (others : List Kind) (found : RouteEntry Req Resp × PathParams)
      → find_route rm req pass rm.routes ≡ some found
      → find_in_passes rm req (pass ∷ others) ≡ some found
  unfolding find_in_passes
  pass-some pass others found e = rw (e, find_in_passes)

  pass-none :
      (pass : Kind) (others : List Kind)
      → find_route rm req pass rm.routes ≡ none
      → find_in_passes rm req (pass ∷ others) ≡ find_in_passes rm req others
  unfolding find_in_passes
  pass-none pass others e = rw (find_in_passes, e)

  no_passes : find_in_passes rm req [] ≡ none
  unfolding find_in_passes
  no_passes = refl

  -- The passes from one on, when those before it chose nothing.
  wildcard-Chosen :
      All (MissesLower wildcard) rm.routes → Chosen (find_in_passes rm req (wildcard ∷ []))
  unfolding Chosen
  wildcard-Chosen lower = elim (Option-cases (find_route rm req wildcard rm.routes)) [
    | inr ((entry, params), found) ↦
        rw (pass-some wildcard [] (entry, params) found)
          (find_route-IsChosen wildcard entry params lower found)
    | inl missed ↦
        rw (pass-none wildcard [] missed, no_passes)
          (All-zip (MissesLower wildcard) (MissesKind wildcard) Misses
            (λ x low same.
              elim (rank-cases (classify (effective rm x)) wildcard
                (rank-last (classify (effective rm x)))) [
                  | inl less ↦ low less
                  | inr kinds ↦ same kinds
                ])
            rm.routes lower (find_route-none wildcard rm.routes missed))
  ]

  parametric-Chosen :
      All (MissesLower parametric) rm.routes
      → Chosen (find_in_passes rm req (parametric ∷ wildcard ∷ []))
  unfolding Chosen
  parametric-Chosen lower = elim (Option-cases (find_route rm req parametric rm.routes)) [
    | inr ((entry, params), found) ↦
        rw (pass-some parametric (wildcard ∷ []) (entry, params) found)
          (find_route-IsChosen parametric entry params lower found)
    | inl missed ↦
        rw (pass-none parametric (wildcard ∷ []) missed)
          (wildcard-Chosen (below parametric wildcard refl lower missed))
  ]

  passes-Chosen : Chosen (find_in_passes rm req passes)
  unfolding Chosen
  passes-Chosen = elim (Option-cases (find_route rm req exact rm.routes)) [
    | inr ((entry, params), found) ↦
        rw (pass-some exact (parametric ∷ wildcard ∷ []) (entry, params) found)
          (find_route-IsChosen exact entry params below_exact found)
    | inl missed ↦
        rw (pass-none exact (parametric ∷ wildcard ∷ []) missed)
          (parametric-Chosen (below exact parametric refl below_exact missed))
  ]

  -- Either `dispatch` runs the handler of the chosen route once, with what its pattern captured, and
  -- returns true; or no route serves the request, and it returns false with the response untouched.
  pub dispatch-IsChosen :
      (resp : Resp)
      → ((entry : RouteEntry Req Resp) × (params : PathParams) × IsChosen entry params
          × (dispatch rm req resp ≡ (true, entry.handler req resp params)))
        ⊎ (All Misses rm.routes × (dispatch rm req resp ≡ (false, resp)))
  unfolding dispatch Chosen
  dispatch-IsChosen resp = elim (Option-cases (find_in_passes rm req passes)) [
    | inl nothing ↦ inr (rw nothing at passes-Chosen, rw (nothing, dispatch))
    | inr ((entry, params), found) ↦
        inl (entry, params, rw found at passes-Chosen, rw (found, dispatch))
  ]
