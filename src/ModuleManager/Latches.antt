-- ===== src/ModuleManager/Latches.antt =====
-- What the manager calls after a stop has begun, and after it is quiesced.
use libapostol.Prelude.{
  ℕ, ◌≡◌, refl, ap, sym, ◌∙◌, Bool, true, false, ◌||◌, Option, none, some, List, [], ◌∷◌, ◌++◌,
  Bytes, map, all, append-nil, append_assoc, arith, Bool-cases, inl, inr,
}
use libapostol.Http.Request.{HttpRequest}
use libapostol.Http.Response.{HttpResponse}
use libapostol.ModuleManager.{
  Module, Call, executed, beat, started, told, ended, Scene, ModuleManager, after_call, add_module,
  execute_all, execute, each_enabled, heartbeat, on_start, report, tell_all, stopping, quiesce,
  on_stop,
}

-- What may be called of a manager, in any order.
pub data Operation (W : Type 0) : Type 0 where
  adds : Module W → Operation W
  serves : HttpRequest → HttpResponse → Operation W
  beats : ℕ → Operation W
  starts quiesces ends : Operation W
  stops : Bool → Operation W

abbrev pub step : {W : Type 0} → Operation W → ModuleManager W → ModuleManager W
step (adds m) mm = add_module m mm
step (serves req resp) mm = (execute req resp mm).0
step (beats now) mm = heartbeat now mm
step starts mm = on_start mm
step quiesces mm = quiesce mm
step ends mm = on_stop mm
step (stops on_error) mm = stopping on_error mm

abbrev pub run : {W : Type 0} → List (Operation W) → ModuleManager W → ModuleManager W
run [] mm = mm
run (o ∷ os) mm = run os (step o mm)

-- The calls that may be made once a stop has begun, and once the manager is quiesced.
abbrev pub while_stopping : Call → Bool
while_stopping (beat _) = false
while_stopping (told _) = false
while_stopping _ = true

abbrev pub while_stopped : Call → Bool
while_stopped (executed _) = false
while_stopped (beat _) = false
while_stopped _ = true

-- What one or more operations add.
record Latched {W : Type 0} (mm mm' : ModuleManager W) : Type 0 where
  pub new : List Call
  pub grown : mm'.scene.calls ≡ mm.scene.calls ++ new
  pub keeps_stopping : mm.is_stopping ≡ true → mm'.is_stopping ≡ true
  pub keeps_stopped : mm.is_stopped ≡ true → mm'.is_stopped ≡ true
  pub stopping_calls : mm.is_stopping ≡ true → all while_stopping new ≡ true
  pub stopped_calls : mm.is_stopped ≡ true → all while_stopped new ≡ true

-- The calls of modules between two moments of a manager, each of a kind that is allowed.
pub record Adds {W : Type 0} (allows : Call → Bool) (mm mm' : ModuleManager W) : Type 0 where
  pub new : List Call
  pub grown : mm'.scene.calls ≡ mm.scene.calls ++ new
  pub allowed : all allows new ≡ true

-- A scene with calls of one kind more.
record Grown {W : Type 0} (call : Bytes → Call) (s s' : Scene W) : Type 0 where
  names : List Bytes
  grown : s'.calls ≡ s.calls ++ map call names

all-map :
    (p : Call → Bool) (call : Bytes → Call) (names : List Bytes)
    → ((n : Bytes) → p (call n) ≡ true)
    → all p (map call names) ≡ true
all-map p call [] h = refl
all-map p call (n ∷ names) h = rw (h n) (all-map p call names h)

all-append :
    (p : Call → Bool) (xs ys : List Call)
    → all p xs ≡ true
    → all p ys ≡ true
    → all p (xs ++ ys) ≡ true
all-append p [] ys h k = k
all-append p (x ∷ xs) ys h k = elim (Bool-cases (p x)) [
  | inl e ↦ rw e (all-append p xs ys (ground (arith, h, e)) k)
  | inr e ↦ absurd (ground (arith, h, e))
]

module _ {W : Type 0} where
  more_Grown :
      (call : Bytes → Call) (name : Bytes) (s t u : Scene W)
      → t.calls ≡ s.calls ++ (call name ∷ [])
      → Grown call t u
      → Grown call s u
  more_Grown call name s t u e g = record {
    names = name ∷ g.names;
    grown =
        g.grown
        ∙ ap (λ (cs : List Call). cs ++ map call g.names) e
        ∙ append_assoc s.calls (call name ∷ []) (map call g.names);
  }

  same_Grown : (call : Bytes → Call) (s : Scene W) → Grown call s s
  same_Grown call s = record { names = []; grown = sym (append-nil s.calls) }

  each_enabled-Grown :
      (act : Module W → W → W) (call : Bytes → Call) (ms : List (Module W)) (s : Scene W)
      → Grown call s (each_enabled act call ms s)
  unfolding each_enabled
  each_enabled-Grown act call [] s = same_Grown call s
  each_enabled-Grown act call (m ∷ ms) s = elim (Bool-cases (m.enabled s.world)) [
    | inl on ↦ rw on (
        more_Grown call m.name s _ _ refl
          (each_enabled-Grown act call ms (after_call (call m.name) (act m s.world) s)))
    | inr off ↦ rw off (each_enabled-Grown act call ms s)
  ]

  pub report-calls :
      (on_error : Bool) (name : Bytes) (what : Option Bytes) (s : Scene W)
      → (report on_error name what s).calls ≡ s.calls
  report-calls true name none s = refl
  report-calls true name (some what) s = refl
  report-calls false name what s = refl

  tell_all-Grown :
      (on_error : Bool) (ms : List (Module W)) (s : Scene W) → Grown told s (tell_all on_error ms s)
  unfolding tell_all
  tell_all-Grown on_error [] s = same_Grown told s
  tell_all-Grown on_error (m ∷ ms) s =
      let out = m.on_stopping s.world in
      let next = report on_error m.name out.1 (after_call (told m.name) out.0 s) in
      elim (Bool-cases (m.enabled s.world)) [
        | inl on ↦ rw on (
            more_Grown told m.name s next _ (report-calls on_error m.name out.1 _)
              (tell_all-Grown on_error ms next))
        | inr off ↦ rw off (tell_all-Grown on_error ms s)
      ]

  execute_all-Grown :
      (ms : List (Module W)) (req : HttpRequest) (resp : HttpResponse) (s : Scene W)
      → Grown executed s (execute_all ms req resp s).0
  unfolding execute_all
  execute_all-Grown [] req resp s = same_Grown executed s
  execute_all-Grown (m ∷ ms) req resp s =
      let out = m.execute req resp s.world in
      let next = after_call (executed m.name) out.0 s in
      elim (Bool-cases (m.enabled s.world)) [
        | inr off ↦ rw off (execute_all-Grown ms req resp s)
        | inl on ↦ elim (Bool-cases out.2) [
          | inl done ↦
              rw (on, done) (more_Grown executed m.name s next next refl (same_Grown executed next))
          | inr declined ↦
              rw (on, declined)
                (more_Grown executed m.name s next _ refl (execute_all-Grown ms req out.1 next))
        ]
      ]

  same_Latched : (mm : ModuleManager W) → Latched mm mm
  same_Latched mm = record {
    new = [];
    grown = sym (append-nil mm.scene.calls);
    keeps_stopping = λ h. h;
    keeps_stopped = λ h. h;
    stopping_calls = λ h. refl;
    stopped_calls = λ h. refl;
  }

  -- Calls of one kind, with latches that are not taken back.
  Grown-Latched :
      (call : Bytes → Call) (mm mm' : ModuleManager W)
      → Grown call mm.scene mm'.scene
      → (mm.is_stopping ≡ true
          → (mm'.is_stopping ≡ true) × ((n : Bytes) → while_stopping (call n) ≡ true))
      → (mm.is_stopped ≡ true
          → (mm'.is_stopped ≡ true) × ((n : Bytes) → while_stopped (call n) ≡ true))
      → Latched mm mm'
  Grown-Latched call mm mm' g h k = record {
    new = map call g.names;
    grown = g.grown;
    keeps_stopping = λ e. (h e).0;
    keeps_stopped = λ e. (k e).0;
    stopping_calls = λ e. all-map while_stopping call g.names (h e).1;
    stopped_calls = λ e. all-map while_stopped call g.names (k e).1;
  }

  execute-Latched :
      (req : HttpRequest) (resp : HttpResponse) (mm : ModuleManager W)
      → Latched mm (execute req resp mm).0
  unfolding execute
  execute-Latched req resp mm = elim (Bool-cases mm.is_stopped) [
    | inl off ↦ simp off (same_Latched mm)
    | inr on ↦ simp on (
        Grown-Latched executed mm _ (execute_all-Grown mm.modules req resp mm.scene)
          (λ e. (e, λ n. refl)) (λ e. absurd (ground (arith, e, on))))
  ]

  heartbeat-Latched : (now : ℕ) (mm : ModuleManager W) → Latched mm (heartbeat now mm)
  unfolding heartbeat
  heartbeat-Latched now mm = elim (Bool-cases (mm.is_stopping || mm.is_stopped)) [
    | inl off ↦ simp off (same_Latched mm)
    | inr on ↦ simp on (
        Grown-Latched beat mm _ (each_enabled-Grown (λ m. m.heartbeat now) beat mm.modules mm.scene)
          (λ e. absurd (ground (arith, e, on))) (λ e. absurd (ground (arith, e, on))))
  ]

  stopping-Latched : (on_error : Bool) (mm : ModuleManager W) → Latched mm (stopping on_error mm)
  unfolding stopping
  stopping-Latched on_error mm = elim (Bool-cases mm.is_stopping) [
    | inl off ↦ simp off (same_Latched mm)
    | inr on ↦ simp on (
        Grown-Latched told mm _ (tell_all-Grown on_error mm.modules mm.scene)
          (λ e. absurd (ground (arith, e, on))) (λ e. (e, λ n. refl)))
  ]

  step-Latched : (o : Operation W) (mm : ModuleManager W) → Latched mm (step o mm)
  step-Latched (adds m) mm =
      Grown-Latched started mm (add_module m mm) (same_Grown started mm.scene) (λ e. (e, λ n. refl))
        (λ e. (e, λ n. refl))
  step-Latched (serves req resp) mm = execute-Latched req resp mm
  step-Latched (beats now) mm = heartbeat-Latched now mm
  step-Latched starts mm =
      Grown-Latched started mm (on_start mm)
        (each_enabled-Grown (λ m. m.on_start) started mm.modules mm.scene) (λ e. (e, λ n. refl))
        (λ e. (e, λ n. refl))
  step-Latched quiesces mm =
      Grown-Latched started mm (quiesce mm) (same_Grown started mm.scene) (λ e. (e, λ n. refl))
        (λ e. (refl, λ n. refl))
  step-Latched ends mm =
      Grown-Latched ended mm (on_stop mm)
        (each_enabled-Grown (λ m. m.on_stop) ended mm.modules mm.scene) (λ e. (e, λ n. refl))
        (λ e. (refl, λ n. refl))
  step-Latched (stops on_error) mm = stopping-Latched on_error mm

  -- Any operations, one after the other.
  run-Latched : (os : List (Operation W)) (mm : ModuleManager W) → Latched mm (run os mm)
  run-Latched [] mm = same_Latched mm
  run-Latched (o ∷ os) mm =
      let first = step-Latched o mm in
      let rest = run-Latched os (step o mm) in
      record {
        new = first.new ++ rest.new;
        grown =
            rest.grown
            ∙ ap (λ (cs : List Call). cs ++ rest.new) first.grown
            ∙ append_assoc mm.scene.calls first.new rest.new;
        keeps_stopping = λ e. rest.keeps_stopping (first.keeps_stopping e);
        keeps_stopped = λ e. rest.keeps_stopped (first.keeps_stopped e);
        stopping_calls = λ e.
            all-append while_stopping first.new rest.new (first.stopping_calls e)
              (rest.stopping_calls (first.keeps_stopping e));
        stopped_calls = λ e.
            all-append while_stopped first.new rest.new (first.stopped_calls e)
              (rest.stopped_calls (first.keeps_stopped e));
      }

  stopping-is_stopping :
      (on_error : Bool) (mm : ModuleManager W) → (stopping on_error mm).is_stopping ≡ true
  unfolding stopping
  stopping-is_stopping on_error mm = elim (Bool-cases mm.is_stopping) [
    | inl on ↦ simp on refl
    | inr off ↦ simp off refl
  ]

  -- Whatever was called of a manager before, with whatever modules, and whatever is called after: once
  -- stopping was called no module gets a heartbeat or is told of the stop again; once quiesce or on_stop
  -- was called none gets a request or a heartbeat.
  pub run-Adds :
      (on_error : Bool) (os : List (Operation W)) (mm : ModuleManager W)
      → Adds while_stopping (stopping on_error mm) (run os (stopping on_error mm))
        × Adds while_stopped (quiesce mm) (run os (quiesce mm))
        × Adds while_stopped (on_stop mm) (run os (on_stop mm))
  run-Adds on_error os mm =
      let told_all = run-Latched os (stopping on_error mm) in
      let quiet = run-Latched os (quiesce mm) in
      let over = run-Latched os (on_stop mm) in
      (
        record {
          new = told_all.new;
          grown = told_all.grown;
          allowed = told_all.stopping_calls (stopping-is_stopping on_error mm);
        },
        record { new = quiet.new; grown = quiet.grown; allowed = quiet.stopped_calls refl },
        record { new = over.new; grown = over.grown; allowed = over.stopped_calls refl },
      )
