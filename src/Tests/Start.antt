-- ===== src/Tests/Start.antt =====
-- The theorem on the start of the peer service (system/common_src/PeerService.cpp,
-- system/common_src/Runtime.cpp) of a server in a process that serves nothing yet.
use celte_system.Prelude.{ℕ, ◌≡◌, refl, true, String, List, [], ◌∷◌, none, some, contains}
use celte_system.Prelude.HashMap.{assoc_map}
use celte_system.Prelude.Assoc
use celte_system.Prelude.Json.{text_json}
use celte_system.Rpc.Builder.{type_name}
use celte_system.Rpc.Stub.Calls.{delegate}
use celte_system.Runtime.Start.{
  Started, is_stored, task_runs, constructed, run_steps, events_of_start, run_steps-order,
}
use celte_system.Tests.Reactors.{bind, session, blank}
use celte_system.Topics

run_steps-order_example :
    let run = run_steps bind true session "sn.1" ([], some true) in
    let handler : String = type_name "Global" "RPCHandler" in
    (run (task_runs ∷ is_stored ∷ []) (constructed blank) ≡ none)
    × (x : Started (List ℕ)) × (run (is_stored ∷ task_runs ∷ []) (constructed blank) ≡ some x)
    × (x.events ≡ events_of_start true ([], some true))
    × (delegate x.process (Topics.rpc session "sn.1") "PeerService_call_AssignGrape"
        ≡ some (bind 0 "PeerService_call_AssignGrape"))
    × (delegate x.process (Topics.global_rpc session) handler ≡ some (bind 1 handler))
unfolding contains type_name Assoc.find
run_steps-order_example =
    run_steps-order bind session "sn.1" ([], some true) true blank "PeerService_call_AssignGrape"
      refl refl refl
