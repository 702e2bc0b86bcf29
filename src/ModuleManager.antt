-- ===== src/ModuleManager.antt =====
-- src/core/module.cpp, include/apostol/module.hpp: the class ModuleManager. Modules are code of the
-- applications, a parameter: each acts on a world that they share, and on_stopping() may throw. What
-- else they throw goes through the manager, and is left out.
pub mod Latches
pub mod Telling
pub mod Busy
mod Tests
use libapostol.Prelude.{
  ℕ, Bool, true, false, not, ◌&&◌, ◌||◌, Option, none, some, List, [], ◌∷◌, ◌++◌, Bytes, codes,
  is_empty, if◌then◌else◌,
}
use libapostol.Http.Request.{HttpRequest}
use libapostol.Http.Response.{HttpResponse}

-- `on_stopping` gives the text of what it throws, if it throws.
pub record Module (W : Type 0) : Type 0 where
  pub name : Bytes
  pub title : Bytes
  pub enabled : W → Bool
  pub execute : HttpRequest → HttpResponse → W → W × HttpResponse × Bool
  pub heartbeat : ℕ → W → W
  pub on_start : W → W
  pub on_stopping : W → W × Option Bytes
  pub busy : W → Bool
  pub on_stop : W → W

-- A call of a module, by its name.
pub data Call : Type 0 where
  executed beat started told ended : Bytes → Call

-- The world of the modules, the calls of the modules so far, and the reports of on_error.
pub record Scene (W : Type 0) : Type 0 where
  pub world : W
  pub calls : List Call
  pub reports : List (Bytes × Bytes)

pub record ModuleManager (W : Type 0) : Type 0 where
  pub modules : List (Module W)
  pub is_stopping : Bool
  pub is_stopped : Bool
  pub scene : Scene W

abbrev pub after_call : {W : Type 0} → Call → W → Scene W → Scene W
after_call c w s = record s { world = w; calls = s.calls ++ (c ∷ []) }

abbrev pub add_module : {W : Type 0} → Module W → ModuleManager W → ModuleManager W
add_module m mm = record mm { modules = mm.modules ++ (m ∷ []) }

unfoldable pub execute_all :
    {W : Type 0}
    → List (Module W)
    → HttpRequest
    → HttpResponse
    → Scene W
    → Scene W × HttpResponse × Bool
execute_all [] req resp s = (s, resp, false)
execute_all (m ∷ ms) req resp s =
    let out = m.execute req resp s.world in
    let told_it = after_call (executed m.name) out.0 s in
    let skipped = execute_all ms req resp s in
    let declined = execute_all ms req out.1 told_it in
    if not (m.enabled s.world) then skipped else if out.2 then (told_it, out.1, true) else declined

unfoldable pub execute :
    {W : Type 0}
    → HttpRequest
    → HttpResponse
    → ModuleManager W
    → ModuleManager W × HttpResponse × Bool
execute req resp mm =
    if mm.is_stopped
    then (mm, resp, false)
    else (let out = execute_all mm.modules req resp mm.scene in
        (record mm { scene = out.0 }, out.1, out.2))

-- A loop that calls each enabled module.
unfoldable pub each_enabled :
    {W : Type 0} → (Module W → W → W) → (Bytes → Call) → List (Module W) → Scene W → Scene W
each_enabled act call [] s = s
each_enabled act call (m ∷ ms) s =
    each_enabled act call ms
      (if m.enabled s.world then after_call (call m.name) (act m s.world) s else s)

unfoldable pub heartbeat : {W : Type 0} → ℕ → ModuleManager W → ModuleManager W
heartbeat now mm =
    if mm.is_stopping || mm.is_stopped
    then mm
    else record mm { scene = each_enabled (λ m. m.heartbeat now) beat mm.modules mm.scene }

abbrev pub on_start : {W : Type 0} → ModuleManager W → ModuleManager W
on_start mm = record mm { scene = each_enabled (λ m. m.on_start) started mm.modules mm.scene }

-- A module that throws is reported, if there is a handler for it.
abbrev pub report : {W : Type 0} → Bool → Bytes → Option Bytes → Scene W → Scene W
report true name (some what) s = record s { reports = s.reports ++ ((name, what) ∷ []) }
report _ _ _ s = s

unfoldable pub tell_all : {W : Type 0} → Bool → List (Module W) → Scene W → Scene W
tell_all on_error [] s = s
tell_all on_error (m ∷ ms) s =
    let out = m.on_stopping s.world in
    tell_all on_error ms (
      if m.enabled s.world
      then report on_error m.name out.1 (after_call (told m.name) out.0 s)
      else s)

unfoldable pub stopping : {W : Type 0} → Bool → ModuleManager W → ModuleManager W
stopping on_error mm =
    if mm.is_stopping
    then mm
    else record mm { is_stopping = true; scene = tell_all on_error mm.modules mm.scene }

abbrev pub quiesce : {W : Type 0} → ModuleManager W → ModuleManager W
quiesce mm = record mm { is_stopped = true }

abbrev pub on_stop : {W : Type 0} → ModuleManager W → ModuleManager W
on_stop mm = record mm {
  is_stopped = true;
  scene = each_enabled (λ m. m.on_stop) ended mm.modules mm.scene;
}

abbrev pub stopped : {W : Type 0} → ModuleManager W → Bool
stopped mm = mm.is_stopping || mm.is_stopped

abbrev pub is_busy : {W : Type 0} → W → Module W → Bool
is_busy w m = m.enabled w && m.busy w

unfoldable pub busy_in : {W : Type 0} → W → List (Module W) → Bool
busy_in w [] = false
busy_in w (m ∷ ms) = if is_busy w m then true else busy_in w ms

abbrev pub busy : {W : Type 0} → ModuleManager W → Bool
busy mm = busy_in mm.scene.world mm.modules

-- A text with one more element, behind a comma when it is not the first.
abbrev pub with_element : Bytes → Bytes → Bytes
with_element result text = if is_empty result then text else result ++ (codes ", " ++ text)

unfoldable pub busy_names_from : {W : Type 0} → W → Bytes → List (Module W) → Bytes
busy_names_from w result [] = result
busy_names_from w result (m ∷ ms) =
    busy_names_from w (if is_busy w m then with_element result m.name else result) ms

abbrev pub busy_names : {W : Type 0} → ModuleManager W → Bytes
busy_names mm = busy_names_from mm.scene.world [] mm.modules

unfoldable pub titles_from : {W : Type 0} → W → Bytes → List (Module W) → Bytes
titles_from w result [] = result
titles_from w result (m ∷ ms) =
    titles_from w
      (if m.enabled w then with_element result (b'"' ∷ (m.title ++ (b'"' ∷ []))) else result) ms

abbrev pub module_names : {W : Type 0} → ModuleManager W → Bytes
module_names mm = titles_from mm.scene.world [] mm.modules
