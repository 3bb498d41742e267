-- ===== src/Peer/GrapeContainers/Laws.antt =====
-- What becomes of a container that a grape of this server creates (system/common_src/Grape.cpp,
-- system/common_src/GrapeRegistry.cpp).
use celte_system.Prelude.{
  ◌≡◌, refl, ap, ◌∙◌, true, false, String, none, some, is_some, ◌==◌, eq_iff, arith, contains,
  insert,
}
use celte_system.Prelude.Assoc
use celte_system.Prelude.Assoc.{find-put, contains-keys}
use celte_system.Prelude.HashMap.{HashMap, find, put, find-put as find-put_map}
use celte_system.Peer.State.{Peer}
use celte_system.Peer.Containers.{container_is_locally_owned, new_cell}
use celte_system.Peer.Subscriptions.{subscribed_cell}
use celte_system.Peer.Subscriptions.Laws.{first_peer, subscribe-first}
use celte_system.Peer.GrapeContainers.{
  Holder, Server, get_native_handle, get_existing_owned_containers, subscribe_to_container, store,
  container_create_and_attach, unsubscribe_grape_from_container,
}

module _ ⦃h : HashMap⦄ (tp_rpc : String → String) (uuid : String) where
  abbrev created_holder : Holder → String → Holder
  created_holder g id = record g {
    subscriptions = insert id g.subscriptions;
    owned_containers = Assoc.put g.owned_containers id none;
  }

  abbrev created_peer : Peer → String → Peer
  created_peer p id = first_peer true tp_rpc uuid p id true

  subscribe_to_container-owned :
      (s : Server) (g : Holder) (id : String)
      → contains id g.subscriptions ≡ false
      → id == "" ≡ false
      → find s.peer.containers id ≡ none
      → subscribe_to_container tp_rpc uuid s g id true
        ≡ some (record s { peer = created_peer s.peer id }, created_holder g id, some id)
  unfolding subscribe_to_container
  subscribe_to_container-owned s g id new named missing =
      rw
        (
          subscribe-first true tp_rpc uuid s.peer g.subscriptions id true new named missing,
          subscribe_to_container,
        )
        refl

  abbrev pub created : Server → String → Holder → String → Server
  created s grape_id g id = record s {
    peer = created_peer s.peer id;
    grapes = put s.grapes grape_id (created_holder g id);
  }

  create-owned :
      (s : Server) (grape_id id : String) (g : Holder)
      → find s.grapes grape_id ≡ some g
      → g.is_locally_owned ≡ true
      → contains id g.subscriptions ≡ false
      → id == "" ≡ false
      → find s.peer.containers id ≡ none
      → container_create_and_attach tp_rpc uuid s grape_id id ≡ some (created s grape_id g id, id)
  unfolding container_create_and_attach store
  create-owned s grape_id id g known owned new named missing =
      let done =
        ap (λ b. subscribe_to_container tp_rpc uuid s g id b) owned
        ∙ subscribe_to_container-owned s g id new named missing in
      rw (known, done, container_create_and_attach) refl

  created-owned :
      (p : Peer) (id : String) → container_is_locally_owned (created_peer p id).containers id ≡ true
  unfolding container_is_locally_owned
  created-owned p id = ground (
    arith,
    eq_iff id id,
    find-put_map (put p.containers id new_cell) id id (subscribed_cell true true new_cell),
  )

  unsubscribe_grape-owned :
      (s : Server) (grape_id id : String) (g : Holder)
      → find s.grapes grape_id ≡ some g
      → container_is_locally_owned s.peer.containers id ≡ true
      → unsubscribe_grape_from_container s grape_id id ≡ s
  unfolding unsubscribe_grape_from_container
  unsubscribe_grape-owned s grape_id id g known mine =
      rw (known, mine, unsubscribe_grape_from_container) refl

  -- A grape that is owned here creates a container under an id that neither it nor this peer has:
  -- the id is returned, the container is there and owned here, the grape lists it among its owned
  -- containers, without a handle yet, and to unsubscribe the grape from it changes nothing.
  pub container_create_and_attach-owned :
      (s : Server) (grape_id id : String) (g : Holder)
      → find s.grapes grape_id ≡ some g
      → g.is_locally_owned ≡ true
      → contains id g.subscriptions ≡ false
      → id == "" ≡ false
      → find s.peer.containers id ≡ none
      → (s' : Server) × (g' : Holder) × (container_create_and_attach tp_rpc uuid s grape_id id
          ≡ some (s', id))
        × (find s'.grapes grape_id ≡ some g')
        × (container_is_locally_owned s'.peer.containers id ≡ true)
        × (contains id (get_existing_owned_containers g') ≡ true)
        × (get_native_handle g' id ≡ none)
        × (unsubscribe_grape_from_container s' grape_id id ≡ s')
  unfolding get_existing_owned_containers get_native_handle
  container_create_and_attach-owned s grape_id id g known owned new named missing =
      let there : find (created s grape_id g id).grapes grape_id ≡ some (created_holder g id) =
        ground (
          arith,
          eq_iff grape_id grape_id,
          find-put_map s.grapes grape_id grape_id (created_holder g id),
        ) in
      let mine = created-owned s.peer id in
      let listed : Assoc.find (created_holder g id).owned_containers id ≡ some none =
        ground (arith, eq_iff id id, find-put g.owned_containers id id none) in
      (
        created s grape_id g id,
        created_holder g id,
        create-owned s grape_id id g known owned new named missing,
        there,
        mine,
        contains-keys (created_holder g id).owned_containers id ∙ ap is_some listed,
        rw (listed, get_native_handle) refl,
        unsubscribe_grape-owned (created s grape_id g id) grape_id id (created_holder g id) there
            mine,
      )
