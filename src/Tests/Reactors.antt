-- ===== src/Tests/Reactors.antt =====
-- The theorems on reactors (system/common_src/Grape.cpp, system/common_src/Container.cpp) in a process
-- whose state lists the objects that were called.
use celte_system.Prelude.{
  ℕ, ◌≡◌, refl, true, false, String, List, [], ◌∷◌, none, some, ◌==◌, ◌&&◌, contains,
}
use celte_system.Prelude.HashMap.{assoc_map}
use celte_system.Prelude.Assoc
use celte_system.Prelude.Json.{text_json}
use celte_system.Rpc.LruSet.Defs.{init}
use celte_system.Rpc.Stub.Defs.{Process, Handler, Cell, Outcome}
use celte_system.Rpc.Stub.Calls.{delegate}
use celte_system.Rpc.Builder.{on_peer, on_scope}
use celte_system.Topics
use celte_system.Peer.Reactors.{init_grape, init_container}
use celte_system.Peer.Reactors.Laws.{container_names, init_container-again, init_grape-calls}

abbrev pub bind : ℕ → String → Handler (List ℕ)
bind instance_number name json st = (instance_number ∷ st, Outcome.returns json)

abbrev pub session : String
session = "non-persistent://public/s1/"

abbrev pub blank : Process (List ℕ)
blank = record {
  methods = [];
  running_tasks = init 100;
  promises = [];
  cells = λ n. Cell.pending;
  next_cell = 0;
  user = [];
  outbox = [];
}

init_container-again_example :
    let name : String = "Container_call_TakeAuthority" in
    let q = init_container bind session (init_container bind session blank "c1" 1) "c1" 2 in
    (delegate q (Topics.rpc session "c1") name ≡ some (bind 1 name))
    × ((scope' name' : String)
        → (Topics.rpc session "c1" == scope' && contains name' container_names) ≡ false
        → delegate q scope' name' ≡ delegate blank scope' name')
unfolding contains Assoc.find
init_container-again_example =
    init_container-again bind session blank "c1" "Container_call_TakeAuthority" 1 2 refl refl

init_grape-calls_example :
    let q = init_grape bind true session blank "g1" true 1 in
    (delegate q (on_peer session "g1").scope "Grape_call_Ping" ≡ some (bind 1 "Grape_call_Ping"))
    × (delegate q (on_scope session "g1").scope "Grape_call_Ping" ≡ none)
unfolding contains Assoc.find
init_grape-calls_example = init_grape-calls bind session blank "g1" true 1 "Grape_call_Ping"
