-- ===== src/ModuleManager/Tests.antt =====
-- A manager of three modules: one is off, one throws when it is told of a stop and declines requests,
-- one counts the requests it takes.
use libapostol.Prelude.{ℕ, suc, ◌≡◌, refl, true, false, none, some, List, [], ◌∷◌, Bytes, codes}
use libapostol.Http.Request.{HttpRequest}
use libapostol.Http.Response.{fresh}
use libapostol.ModuleManager.{
  Module, executed, told, ended, ModuleManager, execute_all, execute, each_enabled, heartbeat,
  tell_all, stopping, quiesce, on_stop,
}
use libapostol.ModuleManager.Latches.{
  Operation, serves, beats, quiesces, ends, stops, run, Adds, while_stopping, while_stopped,
  run-Adds,
}
use libapostol.ModuleManager.Telling.{Outcome, execute-Outcome}

-- The world is the number of the requests that were taken.
abbrev idle_module : Bytes → Module ℕ
idle_module name = record {
  name = name;
  title = name;
  enabled = λ w. true;
  execute = λ req resp w. (w, resp, false);
  heartbeat = λ now w. w;
  on_start = λ w. w;
  on_stopping = λ w. (w, none);
  busy = λ w. false;
  on_stop = λ w. w;
}

abbrev off : Module ℕ
off = record (idle_module (codes "off")) { enabled = λ w. false }

abbrev throwing : Module ℕ
throwing = record (idle_module (codes "throwing")) { on_stopping = λ w. (w, some (codes "no")) }

abbrev counting : Module ℕ
counting = record (idle_module (codes "counting")) { execute = λ req resp w. (suc w, resp, true) }

abbrev manager : ModuleManager ℕ
manager = record {
  modules = off ∷ throwing ∷ counting ∷ [];
  is_stopping = false;
  is_stopped = false;
  scene = record { world = 0; calls = []; reports = [] };
}

abbrev req : HttpRequest
req = record {
  method = codes "GET";
  path = codes "/";
  query = [];
  version = codes "HTTP/1.1";
  headers = [];
  params = [];
  cookies = [];
  body = [];
}

abbrev life : List (Operation ℕ)
life =
    serves req fresh
    ∷ stops true
    ∷ beats 1
    ∷ serves req fresh
    ∷ quiesces
    ∷ serves req fresh
    ∷ ends
    ∷ []

life-calls :
    (run life manager).scene.calls
    ≡ executed (codes "throwing")
      ∷ executed (codes "counting")
      ∷ told (codes "throwing")
      ∷ told (codes "counting")
      ∷ executed (codes "throwing")
      ∷ executed (codes "counting")
      ∷ ended (codes "throwing")
      ∷ ended (codes "counting")
      ∷ []
unfolding execute execute_all heartbeat each_enabled stopping tell_all
life-calls = refl

run-Adds_example :
    Adds while_stopping (stopping true manager) (run life (stopping true manager))
    × Adds while_stopped (quiesce manager) (run life (quiesce manager))
    × Adds while_stopped (on_stop manager) (run life (on_stop manager))
run-Adds_example = run-Adds true life manager

execute-Outcome_example : Outcome manager.modules req fresh manager.scene (
  (execute req fresh manager).0.scene,
  (execute req fresh manager).1,
  (execute req fresh manager).2,
)
execute-Outcome_example =
    execute-Outcome req fresh manager refl
      ((λ w w'. refl), ((λ w w'. refl), ((λ w w'. refl), refl)))
