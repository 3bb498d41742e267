-- ===== src/Peer/Connections.antt =====
-- The requests of PeerService between servers and clients (system/common_src/PeerService.cpp) that are
-- not about the client registry. What a remote call comes to is an argument; a callback of the engine is
-- a number.
use celte_system.Prelude.{
  ℕ, ◌+◌, ◌<◌, ◌≤◌, ◌≡◌, Bool, true, false, String, List, [], ◌∷◌, ◌++◌, Option, none, some,
}
use celte_system.Prelude.Assoc.{Assoc}
use celte_system.Prelude.HashMap.{HashMap}
use celte_system.Prelude.Polling.{poll, poll-first, poll-never}
use celte_system.Rpc.Retry.{Result, value, gave_up, logic_error, hangs}
use celte_system.Peer.State.{Peer}
use celte_system.Peer.Subscriptions.{subscribe, unsubscribe}

-- ConnectClientToThisNode: the tasks for the engine after the call of ForceConnectToNode, and
-- `none` where it throws or does not come back.
unfoldable connect_client_to_this_node : Result Bool → ℕ → List ℕ → Option (List ℕ)
connect_client_to_this_node (value true) callback tasks = some (tasks ++ (callback ∷ []))
connect_client_to_this_node (value false) callback tasks = some tasks
connect_client_to_this_node (gave_up e) callback tasks = some tasks
connect_client_to_this_node logic_error callback tasks = none
connect_client_to_this_node hangs callback tasks = none

-- RequestSpawnPosition of a server: `hook` is onGetClientInitialGrape, with `none` for one that the
-- engine has not set, and the result is `none` for its exception. `dump` prints a document.
unfoldable request_spawn_position :
    (dump : Assoc String → String) (hook : Option (String → String)) → String → Option String
request_spawn_position dump none client_id = none
request_spawn_position dump (some hook) client_id =
    some (dump (("grapeId", hook client_id) ∷ ("clientId", client_id) ∷ []))

-- Ping of PeerService and of Grape.
abbrev ping : Bool
ping = true

-- The loop of ForceConnectToNode in a client, on fuel: `grape_exists n` is what the registry says
-- after n sleeps of 10 milliseconds. The result is the number of sleeps.
unfoldable force_connect_to_node : (fuel : ℕ) → (grape_exists : ℕ → Bool) → ℕ → Option ℕ
force_connect_to_node fuel grape_exists n = poll fuel grape_exists n

-- A client answers as soon as the engine has registered the grape, and not before.
force_connect_to_node-first :
    (fuel k n : ℕ) (grape_exists : ℕ → Bool)
    → ((i : ℕ) → n ≤ i → i < n + k → grape_exists i ≡ false)
    → grape_exists (n + k) ≡ true
    → k ≤ fuel
    → force_connect_to_node fuel grape_exists n ≡ some (n + k)
unfolding force_connect_to_node
force_connect_to_node-first = poll-first

-- Where the engine never registers the grape, the client does not answer, whatever the fuel.
force_connect_to_node-never :
    (fuel n : ℕ) (grape_exists : ℕ → Bool)
    → ((i : ℕ) → grape_exists i ≡ false)
    → force_connect_to_node fuel grape_exists n ≡ none
unfolding force_connect_to_node
force_connect_to_node-never = poll-never

module _ ⦃h : HashMap⦄ (tp_rpc : String → String) where
  -- The subscriptions of the peer service of a client, and the loads of entities that it asks for.
  pub record ClientSide : Type 0 where
    pub peer : Peer
    pub subscriptions : List String
    pub loads : List (String × String)

  -- SubscribeClientToContainer of a client; `none` is an exception.
  unfoldable subscribe_this_client :
      (uuid : String)
      → ClientSide
      → (container_id owner_grape_id : String) → Option (ClientSide × Bool)
  subscribe_this_client uuid c container_id owner_grape_id =
      elim (subscribe false tp_rpc uuid c.peer c.subscriptions container_id false) [
        | none ↦ none
        | some done ↦ some (
          record {
            peer = done.peer;
            subscriptions = done.subscriptions;
            loads = c.loads ++ ((owner_grape_id, container_id) ∷ []);
          },
          true,
        )
      ]

  -- UnsubscribeClientFromContainer of a client.
  unfoldable unsubscribe_this_client : ClientSide → String → ClientSide × Bool
  unsubscribe_this_client c container_id =
      let (peer, subscriptions) = unsubscribe false c.peer c.subscriptions container_id in
      (record c { peer = peer; subscriptions = subscriptions }, true)
