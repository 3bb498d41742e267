-- ===== src/Peer/Clients.antt =====
-- ClientRegistry (system/include/ClientRegistry.hpp, system/server_src/ClientRegistry.cpp) and what
-- PeerService does with it in a server (system/common_src/PeerService.cpp): accepting clients and
-- subscribing them to containers.
use celte_system.Prelude.{
  ℕ, Bool, true, false, not, String, List, [], ◌∷◌, ◌++◌, none, some, if◌then◌else◌, ◌&&◌, contains,
  insert, remove,
}
use celte_system.Rpc.Retry.{Result, value, gave_up, logic_error, hangs}
use celte_system.Prelude.HashMap.{HashMap, Map, find, put, erase}

pub record ClientData : Type 0 where
  pub last_seen : ℕ
  pub is_locally_owned : Bool
  pub current_owner_grape : String
  pub remote_client_subscriptions : List String

-- The calls that are made on a client.
pub data ClientCall : Type 0 where
  subscribe_client : (client_id container_id : String) (callback : ℕ) → ClientCall
  unsubscribe_client : (client_id container_id : String) → ClientCall

-- Whether a call on a client came back with true.
abbrev pub is_accepted : Result Bool → Bool
is_accepted (value b) = b
is_accepted (gave_up e) = false
is_accepted logic_error = false
is_accepted hangs = false

module _ ⦃h : HashMap⦄ where
  -- `calls` are those that the tasks make, and `called_back` the callbacks that were called.
  -- `accepted` holds the clients for which the hook onAcceptNewClient was queued, with their spawners.
  pub record Clients : Type 0 where
    pub clients : Map ClientData
    pub calls : List ClientCall
    pub called_back : List ℕ
    pub accepted : List (String × String)

  -- RegisterClient: the insertion keeps a client that is there.
  unfoldable register_client : (now : ℕ) → Clients → (client_id grape_id : String) → Bool → Clients
  register_client now cs client_id grape_id is_locally_owned = elim (find cs.clients client_id) [
    | some c ↦ cs
    | none ↦ record cs {
      clients = put cs.clients client_id (record {
        last_seen = now;
        is_locally_owned = is_locally_owned;
        current_owner_grape = grape_id;
        remote_client_subscriptions = [];
      });
    }
  ]

  unfoldable pub forget_client : Clients → String → Clients
  forget_client cs client_id = record cs { clients = erase cs.clients client_id }

  -- AcceptNewClient, where `assigned` tells whether the assigned grape is registered. The source
  -- gives RegisterClient the text "" for isLocallyOwned, which is converted to true.
  unfoldable accept_new_client : (now : ℕ) (assigned : Bool) → Clients → String → String → Clients
  accept_new_client now assigned cs client_id spawner_id =
      let registered = register_client now cs client_id "" true in
      if assigned
      then record registered { accepted = registered.accepted ++ ((client_id, spawner_id) ∷ []) }
      else registered

  -- SubscribeClientToContainer: `ready` tells whether the assigned grape is registered and the
  -- container is owned here, and `callback` is `then`. The call on the client is made by a task.
  unfoldable pub subscribe_client_to_container :
      (ready : Bool) → Clients → (client_id container_id : String) → (callback : ℕ) → Clients
  subscribe_client_to_container ready cs client_id container_id callback =
      elim (find cs.clients client_id) [
        | none ↦ cs
        | some c ↦
            if not ready
            then cs
            else if contains container_id c.remote_client_subscriptions
            then record cs { called_back = cs.called_back ++ (callback ∷ []) }
            else record cs {
              clients = put cs.clients client_id (record c {
                remote_client_subscriptions = insert container_id c.remote_client_subscriptions;
              });
              calls = cs.calls ++ (subscribe_client client_id container_id callback ∷ []);
            }
      ]

  -- The end of a call on a client, with what it came to: a failure or an answer of false is logged.
  unfoldable pub call_ended : Result Bool → ClientCall → Clients → Clients
  call_ended answer (subscribe_client client_id container_id callback) cs =
      if is_accepted answer
      then record cs { called_back = cs.called_back ++ (callback ∷ []) }
      else cs
  call_ended answer (unsubscribe_client client_id container_id) cs = cs

  unfoldable pub unsubscribe_client_from_container :
      (ready : Bool) → Clients → String → String → Clients
  unsubscribe_client_from_container ready cs client_id container_id =
      elim (find cs.clients client_id) [
        | none ↦ cs
        | some c ↦
            if ready && contains container_id c.remote_client_subscriptions
            then record cs {
              clients = put cs.clients client_id (record c {
                remote_client_subscriptions = remove container_id c.remote_client_subscriptions;
              });
              calls = cs.calls ++ (unsubscribe_client client_id container_id ∷ []);
            }
            else cs
      ]

  abbrev pub is_subscribed : Clients → String → String → Bool
  is_subscribed cs client_id container_id = elim (find cs.clients client_id) [
    | none ↦ false
    | some c ↦ contains container_id c.remote_client_subscriptions
  ]
