-- ===== src/Tests/Ready.antt =====
-- The theorem on the task of a registration (system/common_src/GrapeRegistry.cpp) for a grape that is
-- owned by a server, whose engine logs the closures that it ran.
use celte_system.Prelude.{ℕ, ◌≡◌, refl, true, false, List, [], ◌∷◌, ◌++◌, none, some, contains}
use celte_system.Prelude.HashMap.{assoc_map}
use celte_system.Prelude.Assoc
use celte_system.Prelude.Json.{text_json}
use celte_system.Rpc.Builder.{on_scope, type_name}
use celte_system.Rpc.Stub.Calls.{delegate}
use celte_system.Peer.Executors.{advance_grape_task}
use celte_system.Peer.Ready.{Registry, ready_task, advance-ready_task}
use celte_system.Tests.GrapeContainers.{grape, server}
use celte_system.Tests.Reactors.{bind, session, blank}

abbrev logged : ℕ → List ℕ → List ℕ
logged task ran = ran ++ (task ∷ [])

abbrev registered : Registry (List ℕ) (List ℕ)
registered = record {
  process = blank;
  holders = server;
  executors = record {
    engine_tasks = ("grape.1", []) ∷ [];
    system_tasks = [];
    io_tasks = [];
    engine = [];
  };
}

advance-ready_task_example :
    let q =
      ready_task bind true (λ id. id) session "sn.1" "grape.1" none true registered "grape.1" 1 9 in
    let once = (advance_grape_task logged q.executors "grape.1").0 in
    (delegate q.process (on_scope session "grape.1").scope "Grape_call_RPCHandler"
      ≡ some (bind 1 "Grape_call_RPCHandler"))
    × (once.engine ≡ 9 ∷ [])
    × ((advance_grape_task logged once "grape.1").1 ≡ false)
unfolding Assoc.find contains type_name
advance-ready_task_example =
    advance-ready_task bind (λ id. id) session "sn.1" "grape.1" logged none true registered grape
      "grape.1" "Grape_call_RPCHandler" 1 9 refl refl refl refl
