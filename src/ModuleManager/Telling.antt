-- ===== src/ModuleManager/Telling.antt =====
-- Which modules the loops of the manager call, where a module is enabled or not once for all.
use libapostol.Prelude.{
  ◌≡◌, ◌⊎◌, refl, ap, ap₂, sym, ◌∙◌, Bool, true, false, List, [], ◌∷◌, ◌++◌, Bytes, map, append-nil,
  append_assoc, if◌then◌else◌, Bool-cases, inl, inr,
}
use mathlib.Core.Path.{subst}
use mathlib.Core.List.{map-append}
use libapostol.Http.Request.{HttpRequest}
use libapostol.Http.Response.{HttpResponse}
use libapostol.ModuleManager.{
  Module, Call, executed, Scene, ModuleManager, after_call, execute_all, execute,
}

-- Whether a module is enabled does not depend on the world.
abbrev pub Fixed : {W : Type 0} → List (Module W) → Type 0
Fixed {W} [] = true ≡ true
Fixed {W} (m ∷ ms) = ((w w' : W) → m.enabled w ≡ m.enabled w') × Fixed ms

abbrev pub enabled_names : {W : Type 0} → W → List (Module W) → List Bytes
enabled_names w [] = []
enabled_names w (m ∷ ms) =
    let rest = enabled_names w ms in if m.enabled w then m.name ∷ rest else rest

module _ {W : Type 0} where
  enabled_names-Fixed :
      (ms : List (Module W)) (w w' : W) → Fixed ms → enabled_names w ms ≡ enabled_names w' ms
  enabled_names-Fixed [] w w' h = refl
  enabled_names-Fixed (m ∷ ms) w w' (h, hs) =
      ap₂ (λ (on : Bool) (rest : List Bytes). if on then m.name ∷ rest else rest) (h w w')
        (enabled_names-Fixed ms w w' hs)

  -- Each enabled module, asked in its turn, declines: from a response and a world to those that the
  -- last one leaves.
  pub Declined : List (Module W) → HttpRequest → HttpResponse → W → HttpResponse → W → Type 0
  Declined [] req resp w resp' w' = (resp' ≡ resp) × (w' ≡ w)
  Declined (m ∷ ms) req resp w resp' w' =
      ((m.enabled w ≡ false) × Declined ms req resp w resp' w')
      ⊎ ((m.enabled w ≡ true)
          × ((m.execute req resp w).2 ≡ false)
          × Declined ms req (m.execute req resp w).1 (m.execute req resp w).0 resp' w')

  -- A module took the request: the enabled modules before it were asked and declined, it was asked with
  -- what they left, none behind it was asked, and the response and the world are what it left.
  pub record Served (ms : List (Module W)) (req : HttpRequest) (start : HttpResponse)
      (s s' : Scene W) (resp' : HttpResponse) : Type 0 where
    pub before : List (Module W)
    pub server : Module W
    pub behind : List (Module W)
    pub parts : ms ≡ before ++ (server ∷ behind)
    pub asked :
        s'.calls ≡ s.calls ++ map executed (enabled_names s.world before ++ (server.name ∷ []))
    pub world : W
    pub enabled : server.enabled world ≡ true
    pub resp : HttpResponse
    pub declined : Declined before req start s.world resp world
    pub serves : server.execute req resp world ≡ (s'.world, resp', true)

  prefix_Fixed : (before rest : List (Module W)) → Fixed (before ++ rest) → Fixed before
  prefix_Fixed [] rest h = refl
  prefix_Fixed (m ∷ ms) rest (h, hs) = (h, prefix_Fixed ms rest hs)

  more_Served :
      (m : Module W) (ms : List (Module W)) (req : HttpRequest) (start further : HttpResponse)
      (s t u : Scene W) (resp' : HttpResponse) (names : List Bytes)
      → ((xs : List (Module W)) (r : HttpResponse) (w : W)
          → Declined xs req further t.world r w
          → Declined (m ∷ xs) req start s.world r w)
      → t.calls ≡ s.calls ++ map executed names
      → ((before : List (Module W))
          → Fixed before
          → names ++ enabled_names t.world before ≡ enabled_names s.world (m ∷ before))
      → Fixed ms
      → Served ms req further t u resp'
      → Served (m ∷ ms) req start s u resp'
  more_Served m ms req start further s t u resp' names g e f fixed h = record {
    before = m ∷ h.before;
    server = h.server;
    behind = h.behind;
    parts = ap (λ (xs : List (Module W)). m ∷ xs) h.parts;
    asked =
        h.asked
        ∙ ap
            (λ (cs : List Call).
              cs ++ map executed (enabled_names t.world h.before ++ (h.server.name ∷ [])))
            e
        ∙ append_assoc s.calls (map executed names) _
        ∙ ap (λ (cs : List Call). s.calls ++ cs) (sym (map-append executed names _))
        ∙ ap (λ (ns : List Bytes). s.calls ++ map executed ns)
            (sym (append_assoc names (enabled_names t.world h.before) (h.server.name ∷ [])))
        ∙ ap (λ (ns : List Bytes). s.calls ++ map executed (ns ++ (h.server.name ∷ [])))
            (f h.before (prefix_Fixed h.before _ (subst Fixed h.parts fixed)));
    world = h.world;
    enabled = h.enabled;
    resp = h.resp;
    declined = g h.before h.resp h.world h.declined;
    serves = h.serves;
  }

  -- The outcome of a request.
  pub Outcome :
      List (Module W)
      → HttpRequest
      → HttpResponse
      → Scene W
      → Scene W × HttpResponse × Bool
      → Type 0
  Outcome ms req start s out =
      ((out.2 ≡ true) × Served ms req start s out.0 out.1)
      ⊎ ((out.2 ≡ false)
          × Declined ms req start s.world out.1 out.0.world
          × (out.0.calls ≡ s.calls ++ map executed (enabled_names s.world ms)))

  more_Outcome :
      (m : Module W) (ms : List (Module W)) (req : HttpRequest) (start further : HttpResponse)
      (s t : Scene W) (out : Scene W × HttpResponse × Bool) (names : List Bytes)
      → ((xs : List (Module W)) (r : HttpResponse) (w : W)
          → Declined xs req further t.world r w
          → Declined (m ∷ xs) req start s.world r w)
      → t.calls ≡ s.calls ++ map executed names
      → ((before : List (Module W))
          → Fixed before
          → names ++ enabled_names t.world before ≡ enabled_names s.world (m ∷ before))
      → Fixed ms
      → Outcome ms req further t out
      → Outcome (m ∷ ms) req start s out
  unfolding Outcome
  more_Outcome m ms req start further s t out names g e f fixed o = elim o [
    | inl (yes_it, served) ↦
        inl (yes_it, more_Served m ms req start further s t out.0 out.1 names g e f fixed served)
    | inr (no_one, all_declined, asked) ↦ inr (
      no_one,
      g ms out.1 out.0.world all_declined,
      asked
          ∙ ap (λ (cs : List Call). cs ++ map executed (enabled_names t.world ms)) e
          ∙ append_assoc s.calls (map executed names) _
          ∙ ap (λ (cs : List Call). s.calls ++ cs) (sym (map-append executed names _))
          ∙ ap (λ (ns : List Bytes). s.calls ++ map executed ns) (f ms fixed),
    )
  ]

  execute_all-off :
      (m : Module W) (ms : List (Module W)) (req : HttpRequest) (resp : HttpResponse) (s : Scene W)
      → m.enabled s.world ≡ false
      → execute_all (m ∷ ms) req resp s ≡ execute_all ms req resp s
  unfolding execute_all
  execute_all-off m ms req resp s off = rw off refl

  execute_all-done :
      (m : Module W) (ms : List (Module W)) (req : HttpRequest) (resp : HttpResponse) (s : Scene W)
      → m.enabled s.world ≡ true
      → (m.execute req resp s.world).2 ≡ true
      → execute_all (m ∷ ms) req resp s ≡ (
        after_call (executed m.name) (m.execute req resp s.world).0 s,
        (m.execute req resp s.world).1,
        true,
      )
  unfolding execute_all
  execute_all-done m ms req resp s on done = rw (on, done) refl

  execute_all-declined :
      (m : Module W) (ms : List (Module W)) (req : HttpRequest) (resp : HttpResponse) (s : Scene W)
      → m.enabled s.world ≡ true
      → (m.execute req resp s.world).2 ≡ false
      → execute_all (m ∷ ms) req resp s
        ≡ execute_all ms req
            (m.execute req resp s.world).1
            (after_call (executed m.name) (m.execute req resp s.world).0 s)
  unfolding execute_all
  execute_all-declined m ms req resp s on declined = rw (on, declined) refl

  enabled_names-off :
      (m : Module W) (ms : List (Module W)) (w : W)
      → m.enabled w ≡ false
      → enabled_names w ms ≡ enabled_names w (m ∷ ms)
  enabled_names-off m ms w off = rw off refl

  enabled_names-on :
      (m : Module W) (ms : List (Module W)) (w : W)
      → m.enabled w ≡ true
      → m.name ∷ enabled_names w ms ≡ enabled_names w (m ∷ ms)
  enabled_names-on m ms w on = rw on refl

  first_Served :
      (m : Module W) (ms : List (Module W)) (req : HttpRequest) (resp : HttpResponse) (s : Scene W)
      → m.enabled s.world ≡ true
      → (m.execute req resp s.world).2 ≡ true
      → Served
          (m ∷ ms)
          req
          resp
          s
          (after_call (executed m.name) (m.execute req resp s.world).0 s)
          (m.execute req resp s.world).1
  unfolding Declined
  first_Served m ms req resp s on done = record {
    before = [];
    server = m;
    behind = ms;
    parts = refl;
    asked = refl;
    world = s.world;
    enabled = on;
    resp = resp;
    declined = (refl, refl);
    serves =
        ap (λ (b : Bool). ((m.execute req resp s.world).0, (m.execute req resp s.world).1, b)) done;
  }

  execute_all-Outcome :
      (ms : List (Module W)) (req : HttpRequest) (resp : HttpResponse) (s : Scene W)
      → Fixed ms
      → Outcome ms req resp s (execute_all ms req resp s)
  unfolding execute_all Outcome Declined
  execute_all-Outcome [] req resp s h = inr (refl, (refl, refl), sym (append-nil s.calls))
  execute_all-Outcome (m ∷ ms) req resp s (h, hs) =
      let out = m.execute req resp s.world in
      let next = after_call (executed m.name) out.0 s in
      elim (Bool-cases (m.enabled s.world)) [
        | inr off ↦
            subst (Outcome (m ∷ ms) req resp s) (sym (execute_all-off m ms req resp s off)) (
              more_Outcome m ms req resp resp s s _ [] (λ xs r w d. inl (off, d))
                (sym (append-nil s.calls)) (λ before fixed. enabled_names-off m before s.world off)
                hs (execute_all-Outcome ms req resp s hs))
        | inl on ↦ elim (Bool-cases out.2) [
          | inl done ↦
              subst (Outcome (m ∷ ms) req resp s) (sym (execute_all-done m ms req resp s on done))
                (inl (refl, first_Served m ms req resp s on done))
          | inr declined ↦
              subst (Outcome (m ∷ ms) req resp s)
                (sym (execute_all-declined m ms req resp s on declined))
                (more_Outcome m ms req resp out.1 s next _ (m.name ∷ [])
                  (λ xs r w d. inr (on, declined, d)) refl
                  (λ before fixed.
                    ap (λ (ns : List Bytes). m.name ∷ ns)
                      (enabled_names-Fixed before next.world s.world fixed)
                    ∙ enabled_names-on m before s.world on)
                  hs (execute_all-Outcome ms req out.1 next hs))
        ]
      ]

  -- Where a module is enabled or not once for all: a request that comes before the manager is quiesced is
  -- offered to the enabled modules in the order of their registration, each with what those before it
  -- left; either all before some module decline, it takes the request, none behind it is asked, the
  -- answer is what it left and execute returns true; or all decline, each asked once, the answer is what
  -- they left and execute returns false.
  pub execute-Outcome :
      (req : HttpRequest) (resp : HttpResponse) (mm : ModuleManager W)
      → mm.is_stopped ≡ false
      → Fixed mm.modules
      → Outcome mm.modules req resp mm.scene
          ((execute req resp mm).0.scene, (execute req resp mm).1, (execute req resp mm).2)
  unfolding execute
  execute-Outcome req resp mm e h =
      rw (e, execute) (execute_all-Outcome mm.modules req resp mm.scene h)
