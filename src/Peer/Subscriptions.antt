-- ===== src/Peer/Subscriptions.antt =====
-- ContainerSubscriptionComponent (system/include/ContainerSubscriptionComponent.hpp,
-- system/common_src/ContainerSubscriptionComponent.cpp) and ContainerRegistry::UpdateRefCount
-- (system/common_src/Container.cpp). The subscriptions of a component are a list without order.
pub mod Laws
use celte_system.Prelude.{
  ℕ, ◌+◌, ◌-◌, Bool, true, false, not, String, List, [], ◌∷◌, ◌++◌, Option, none, some,
  if◌then◌else◌, ◌==◌, ◌&&◌, ◌||◌, eqb, contains, insert, remove,
}
use celte_system.Prelude.HashMap.{HashMap, find, erase}
use celte_system.Peer.State.{Cell, Peer}
use celte_system.Peer.Containers.{with_container, create_container_if_not_exists}
use celte_system.Peer.Entities.{delete_entities_in_container}

-- When the callback of a subscription is called: at once, by the task of WaitForNetworkReady, or not
-- at all.
pub data OnReady : Type 0 where
  now : OnReady
  network_ready : OnReady
  never : OnReady

module _ ⦃h : HashMap⦄ where
  -- What Subscribe leaves: the peer, the subscriptions, the returned id, and the callback.
  pub record Subscribed : Type 0 where
    pub peer : Peer
    pub subscriptions : List String
    pub id : Option String
    pub on_ready : OnReady

  -- The cell of a new container, after the locked part of Subscribe.
  abbrev pub subscribed_cell : (server is_locally_owned : Bool) → Cell → Cell
  subscribed_cell server is_locally_owned cell = record cell {
    ref_count = cell.ref_count + 1;
    is_locally_owned = server && is_locally_owned;
  }

  -- The three reactors of Container::__initRPCs.
  abbrev pub init_rpcs : (String → String) → String → List String
  init_rpcs tp_rpc id = tp_rpc id ∷ tp_rpc id ∷ tp_rpc id ∷ []

  -- Subscribe, where `uuid` is the id that is generated for an empty one: `none` is an exception.
  unfoldable pub subscribe :
      (server : Bool) (tp_rpc : String → String) (uuid : String)
      → Peer
      → List String
      → String
      → Bool
      → Option Subscribed
  subscribe server tp_rpc uuid p subs container_id is_locally_owned =
      if contains container_id subs
      then some (record { peer = p; subscriptions = subs; id = none; on_ready = now })
      else elim (create_container_if_not_exists p.containers container_id uuid) [
        | none ↦ none
        | some (cs, id, was_created) ↦ some (record {
          peer =
              if was_created
              then record p {
                containers = with_container cs id (subscribed_cell server is_locally_owned);
                services = p.services ++ init_rpcs tp_rpc id;
              }
              else record p { containers = cs };
          subscriptions = insert id subs;
          id = some id;
          on_ready = if was_created then network_ready else never;
        })
      ]

  -- UpdateRefCount. The trash bin destroys the container in a task of the system.
  unfoldable pub update_ref_count : (server : Bool) → Peer → String → Peer
  update_ref_count server p container_id = elim (find p.containers container_id) [
    | none ↦ p
    | some cell ↦
        let deleted = delete_entities_in_container p container_id in
        if not server || eqb cell.use_count 1
        then record deleted { containers = erase deleted.containers container_id }
        else p
  ]

  -- Unsubscribe. The count is 2 after the Subscribe that creates the container, which is removed
  -- below when it has fallen to 1.
  unfoldable pub unsubscribe : (server : Bool) → Peer → List String → String → Peer × List String
  unsubscribe server p subs container_id =
      let released = record p {
        containers =
            with_container p.containers container_id
              (λ cell. record cell { ref_count = cell.ref_count - 1 });
      } in
      if contains container_id subs
      then (update_ref_count server released container_id, remove container_id subs)
      else (p, subs)
