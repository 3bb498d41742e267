-- ===== src/Tests/Remote.antt =====
-- The theorem on the subscriptions of remote grapes (system/common_src/GrapeRegistry.cpp,
-- system/common_src/Grape.cpp) for two servers: the owner of grape.1 asks that of grape.2, which knows
-- grape.1 and nothing else.
use celte_system.Prelude.{◌≡◌, refl, true, false, [], ◌∷◌, ◌++◌, some, contains}
use celte_system.Prelude.Assoc
use celte_system.Prelude.HashMap.{assoc_map, find}
use celte_system.Peer.Containers.{container_exists}
use celte_system.Peer.Grapes.{Grape, Grapes, GrapeCall, blank_grape, set_remote_grape_subscription}
use celte_system.Peer.GrapeContainers.{Holder, Server}
use celte_system.Peer.Remote.{
  IoTask, answer_calls, run_io_tasks, set_remote_grape_subscription-order,
}
use celte_system.Tests.GrapeContainers.{grape, server}

abbrev second : Grape
second = record blank_grape { id = "grape.2" }

abbrev asker : Grapes
asker = record { grapes = ("grape.2", second) ∷ []; assigned_grape = "grape.1"; calls = [] }

abbrev proxy : Holder
proxy = record grape { is_locally_owned = false }

abbrev other : Server
other = record server { grapes = ("grape.1", proxy) ∷ [] }

set_remote_grape_subscription-order_example :
    let gs' =
      set_remote_grape_subscription
        (set_remote_grape_subscription asker "grape.1" "grape.2" "c" true)
        "grape.1"
        "grape.2"
        "c"
        false in
    let run = run_io_tasks (λ id. id) "uuid" other in
    ((g' : Grape) × (find gs'.grapes "grape.2" ≡ some g')
      × (contains "c" g'.proxy_subscriptions ≡ false))
    × (first last : GrapeCall) × (gs'.calls ≡ asker.calls ++ (first ∷ last ∷ []))
    × (t u : IoTask) × (answer_calls [] (first ∷ last ∷ []) ≡ t ∷ u ∷ [])
    × ((s' : Server) × (run (t ∷ u ∷ []) ≡ some s')
        × (container_exists s'.peer.containers "c" ≡ false))
    × (s' : Server) × (run (u ∷ t ∷ []) ≡ some s')
    × (container_exists s'.peer.containers "c" ≡ true)
unfolding Assoc.find contains
set_remote_grape_subscription-order_example =
    set_remote_grape_subscription-order (λ id. id) "uuid" asker second other proxy "grape.1"
      "grape.2" "c" refl refl refl refl refl refl refl
