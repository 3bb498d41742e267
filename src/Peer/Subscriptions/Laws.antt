-- ===== src/Peer/Subscriptions/Laws.antt =====
-- What one component does to the containers, and what that does to another component
-- (system/common_src/ContainerSubscriptionComponent.cpp).
use celte_system.Prelude.{
  ◌≡◌, ◌∙◌, ◌-◌, ap, refl, Bool, true, false, String, List, ◌++◌, none, some, eqb, if◌then◌else◌,
  ◌==◌, ◌&&◌, eq_iff, arith, Bool-cases, inl, inr, contains, insert, remove, contains-insert,
  contains-remove,
}
use celte_system.Prelude.HashMap.{HashMap, find, put, erase, find-put, find-erase}
use celte_system.Peer.State.{Cell, Peer}
use celte_system.Peer.Containers.{
  new_cell, with_container, create_container_if_not_exists, container_exists,
  container_is_locally_owned,
}
use celte_system.Peer.Entities.{delete_entities_in_container}
use celte_system.Peer.Deletes.{after_delete, find-delete_entities_in_container}
use celte_system.Peer.Subscriptions.{
  Subscribed, subscribe, subscribed_cell, init_rpcs, update_ref_count, unsubscribe, network_ready,
  never,
}

module _ ⦃h : HashMap⦄ (server : Bool) (tp_rpc : String → String) (uuid : String) where
  -- The peer after the first subscription to a container.
  abbrev pub first_peer : Peer → String → Bool → Peer
  first_peer p c owned = record p {
    containers = put (put p.containers c new_cell) c (subscribed_cell server owned new_cell);
    services = p.services ++ init_rpcs tp_rpc c;
  }

  pub subscribe-first :
      (p : Peer) (subs : List String) (c : String) (owned : Bool)
      → contains c subs ≡ false
      → c == "" ≡ false
      → find p.containers c ≡ none
      → subscribe server tp_rpc uuid p subs c owned
        ≡ some (record {
          peer = first_peer p c owned;
          subscriptions = insert c subs;
          id = some c;
          on_ready = network_ready;
        })
  unfolding subscribe create_container_if_not_exists with_container
  subscribe-first p subs c owned new named missing =
      ground (arith, eq_iff c c, find-put p.containers c c new_cell)

  subscribe-second :
      (p : Peer) (subs : List String) (c : String) (owned : Bool)
      → contains c subs ≡ false
      → container_exists p.containers c ≡ true
      → subscribe server tp_rpc uuid p subs c owned
        ≡ some (record { peer = p; subscriptions = insert c subs; id = some c; on_ready = never })
  unfolding subscribe create_container_if_not_exists
  subscribe-second p subs c owned new there = ground arith

module _ ⦃h : HashMap⦄ (server : Bool) where
  abbrev released : Peer → String → Cell → Peer
  released p c cell = record p {
    containers = put p.containers c (record cell { ref_count = cell.ref_count - 1 });
  }

  unsubscribe-removed :
      (p : Peer) (subs : List String) (c : String) (cell : Cell)
      → contains c subs ≡ true
      → find p.containers c ≡ some cell
      → eqb cell.use_count 1 ≡ true
      → unsubscribe server p subs c ≡ (
        record (delete_entities_in_container (released p c cell) c) {
          containers = erase (delete_entities_in_container (released p c cell) c).containers c;
        },
        remove c subs,
      )
  unfolding unsubscribe update_ref_count with_container
  unsubscribe-removed p subs c cell member found alone = elim (Bool-cases server) [
    | inl is_server ↦ ground (
      arith,
      eq_iff c c,
      find-put p.containers c c (record cell { ref_count = cell.ref_count - 1 }),
    )
    | inr is_client ↦ ground (
      arith,
      eq_iff c c,
      find-put p.containers c c (record cell { ref_count = cell.ref_count - 1 }),
    )
  ]

  delete-containers :
      (p : Peer) (c : String) → (delete_entities_in_container p c).containers ≡ p.containers
  unfolding delete_entities_in_container
  delete-containers p c = refl

  -- When no other pointer to a container is held, the first component that unsubscribes from it
  -- removes it from the registry and deletes its entities.
  pub unsubscribe-last :
      (p : Peer) (subs : List String) (c : String) (cell : Cell)
      → contains c subs ≡ true
      → find p.containers c ≡ some cell
      → eqb cell.use_count 1 ≡ true
      → let r = unsubscribe server p subs c in
        (contains c r.1 ≡ false)
        × ((d : String) → find r.0.containers d ≡ (if c == d then none else find p.containers d))
        × ((j : String) → find r.0.entities j ≡ after_delete (find p.entities j) c)
  unsubscribe-last p subs c cell member found alone =
      let q = released p c cell in
      let rest = λ (d : String).
        ap (λ cs. find (erase cs c) d) (delete-containers q c) ∙ find-erase q.containers c d in
      rw (unsubscribe-removed p subs c cell member found alone) (
        ground (arith, eq_iff c c, contains-remove c c subs),
        λ d. ground (
          arith,
          eq_iff c d,
          rest d,
          find-put p.containers c d (record cell { ref_count = cell.ref_count - 1 }),
        ),
        find-delete_entities_in_container q c,
      )

module _ ⦃h : HashMap⦄ (server : Bool) (tp_rpc : String → String) (uuid : String) where
  -- A component that subscribes to a container with an id, to which another component has
  -- subscribed as the first of this peer, gets its id, its callback is not called, and when the
  -- other component unsubscribes the container is removed, though it is still among the
  -- subscriptions of the second component.
  pub unsubscribe-subscribe-shared :
      (p : Peer) (subs others : List String) (c : String) (owned : Bool)
      → contains c subs ≡ false
      → contains c others ≡ false
      → c == "" ≡ false
      → find p.containers c ≡ none
      → (a : Subscribed) × (b : Subscribed) × (subscribe server tp_rpc uuid p subs c owned ≡ some a)
        × (subscribe server tp_rpc uuid a.peer others c owned ≡ some b)
        × (b.id ≡ some c)
        × (b.on_ready ≡ never)
        × (contains c b.subscriptions ≡ true)
        × (find (unsubscribe server b.peer a.subscriptions c).0.containers c ≡ none)
  unsubscribe-subscribe-shared p subs others c owned new other_new named missing =
      let q = first_peer server tp_rpc uuid p c owned in
      let cell = subscribed_cell server owned new_cell in
      let found : find q.containers c ≡ some cell =
        ground (arith, eq_iff c c, find-put (put p.containers c new_cell) c c cell) in
      let member : contains c (insert c subs) ≡ true =
        ground (arith, eq_iff c c, contains-insert c c subs) in
      let (_, gone, _) = unsubscribe-last server q (insert c subs) c cell member found refl in
      (
        _,
        _,
        subscribe-first server tp_rpc uuid p subs c owned new named missing,
        subscribe-second server tp_rpc uuid q others c owned other_new (ground (arith, found)),
        refl,
        refl,
        ground (arith, eq_iff c c, contains-insert c c others),
        ground (arith, gone c, eq_iff c c),
      )

  -- A component that subscribes to a container with an id, which is not among its subscriptions
  -- and which this peer does not have, gets its id, waits for the network, and owns the container
  -- as it asked where it is a server; when it unsubscribes, the container and the subscription are
  -- gone and the entities of the container are marked as deleted.
  pub unsubscribe-subscribe :
      (p : Peer) (subs : List String) (c : String) (owned : Bool)
      → contains c subs ≡ false
      → c == "" ≡ false
      → find p.containers c ≡ none
      → (a : Subscribed) × (subscribe server tp_rpc uuid p subs c owned ≡ some a)
        × (a.id ≡ some c)
        × (a.on_ready ≡ network_ready)
        × (contains c a.subscriptions ≡ true)
        × (container_is_locally_owned a.peer.containers c ≡ server && owned)
        × (let r = unsubscribe server a.peer a.subscriptions c in
            (contains c r.1 ≡ false)
            × ((d : String) → find r.0.containers d ≡ find p.containers d)
            × ((j : String) → find r.0.entities j ≡ after_delete (find p.entities j) c))
  unfolding container_is_locally_owned
  unsubscribe-subscribe p subs c owned new named missing =
      let q = first_peer server tp_rpc uuid p c owned in
      let cell = subscribed_cell server owned new_cell in
      let found : find q.containers c ≡ some cell =
        ground (arith, eq_iff c c, find-put (put p.containers c new_cell) c c cell) in
      let member : contains c (insert c subs) ≡ true =
        ground (arith, eq_iff c c, contains-insert c c subs) in
      let (left, gone, marked) =
        unsubscribe-last server q (insert c subs) c cell member found refl in
      (
        _,
        subscribe-first server tp_rpc uuid p subs c owned new named missing,
        refl,
        refl,
        member,
        ground (arith, found),
        (
          left,
          λ d. ground (
            arith,
            gone d,
            eq_iff c d,
            find-put (put p.containers c new_cell) c d cell,
            find-put p.containers c d new_cell,
          ),
          marked,
        ),
      )
