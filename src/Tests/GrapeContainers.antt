-- ===== src/Tests/GrapeContainers.antt =====
-- The theorem on the containers of grapes at a small input.
use celte_system.Prelude.{
  ◌≡◌, refl, true, false, String, List, [], ◌∷◌, ◌++◌, Option, none, some, contains,
}
use celte_system.Prelude.Assoc.{Assoc}
use celte_system.Prelude.HashMap.{assoc_map, find}
use celte_system.Peer.Containers.{container_is_locally_owned}
use celte_system.Peer.GrapeContainers.{
  Holder, Server, get_native_handle, get_existing_owned_containers, container_create_and_attach,
  unsubscribe_grape_from_container,
}
use celte_system.Peer.GrapeContainers.Laws.{container_create_and_attach-owned}

abbrev pub grape : Holder
grape = record {
  id = "grape.1";
  is_locally_owned = true;
  subscriptions = [];
  owned_containers = [];
}

abbrev pub server : Server
server = record {
  grapes = ("grape.1", grape) ∷ [];
  peer = record {
    entities = [];
    containers = [];
    ghosts = record { ett_props = []; next_update = []; reads = 0 };
    engine_tasks = [];
    hooks = [];
    sent = [];
    scheduled = [];
    services = [];
  };
  loads = [];
  proxied = [];
}

container_create_and_attach-owned_example :
    (s' : Server) × (g' : Holder) × (container_create_and_attach
        (λ id. id)
        "uuid"
        server
        "grape.1"
        "c"
      ≡ some (s', "c"))
    × (find s'.grapes "grape.1" ≡ some g')
    × (container_is_locally_owned s'.peer.containers "c" ≡ true)
    × (contains "c" (get_existing_owned_containers g') ≡ true)
    × (get_native_handle g' "c" ≡ none)
    × (unsubscribe_grape_from_container s' "grape.1" "c" ≡ s')
unfolding celte_system.Prelude.Assoc.find celte_system.Prelude.contains
container_create_and_attach-owned_example =
    container_create_and_attach-owned (λ id. id) "uuid" server "grape.1" "c" grape refl refl refl
      refl refl
