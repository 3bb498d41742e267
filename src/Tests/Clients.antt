-- ===== src/Tests/Clients.antt =====
-- The theorem on clients (system/common_src/PeerService.cpp) at a small input.
use celte_system.Prelude.{true, String, List, [], ◌∷◌}
use celte_system.Prelude.HashMap.{assoc_map}
use celte_system.Peer.Clients.{ClientData, Clients}

abbrev guest : ClientData
guest = record {
  last_seen = 0;
  is_locally_owned = true;
  current_owner_grape = "";
  remote_client_subscriptions = "west" ∷ [];
}

abbrev lobby : Clients
lobby = record { clients = ("client.1", guest) ∷ []; calls = []; called_back = []; accepted = [] }
