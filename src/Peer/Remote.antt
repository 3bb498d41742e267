-- ===== src/Peer/Remote.antt =====
-- The subscriptions of a grape to the containers of another server, from SetRemoteGrapeSubscription of
-- the one server (system/common_src/GrapeRegistry.cpp) to SubscribeToContainer and
-- UnsubscribeFromContainer of the other (system/common_src/Grape.cpp). Both methods answer true at once
-- and leave a task to the threads of the system; the order in which these run is a list of tasks.
use celte_system.Prelude.{
  ◌≡◌, refl, ap, ◌∙◌, Bool, true, false, String, List, [], ◌∷◌, ◌++◌, Option, none, some, ◌==◌,
  eq_iff, arith, is_some, contains, insert, remove, contains-insert, contains-remove,
}
use mathlib.Core.List.{append_assoc}
use celte_system.Prelude.HashMap.{HashMap, find, put, find-put}
use celte_system.Peer.Containers.{container_exists, container_is_locally_owned, new_cell}
use celte_system.Peer.Subscriptions.{subscribed_cell, unsubscribe}
use celte_system.Peer.Subscriptions.Laws.{first_peer, subscribe-first, unsubscribe-last}
use celte_system.Peer.Grapes.{
  Grape, Grapes, GrapeCall, subscribe_to_container, unsubscribe_from_container,
  set_remote_grape_subscription,
}
use celte_system.Peer.GrapeContainers
use celte_system.Peer.GrapeContainers.{Holder, Server, store, unsubscribe_grape_from_container}

pub data IoTask : Type 0 where
  subscribe_task : (owner_of_container_id container_id : String) → IoTask
  unsubscribe_task : (owner_of_container_id container_id : String) → IoTask

-- Grape::SubscribeToContainer and Grape::UnsubscribeFromContainer, for the call of another server: the
-- tasks, and the answer.
unfoldable pub answer_call : List IoTask → GrapeCall → List IoTask × Bool
answer_call tasks (subscribe_to_container grape_id owner container_id) =
    (tasks ++ (subscribe_task owner container_id ∷ []), true)
answer_call tasks (unsubscribe_from_container grape_id owner container_id) =
    (tasks ++ (unsubscribe_task owner container_id ∷ []), true)

unfoldable pub answer_calls : List IoTask → List GrapeCall → List IoTask
answer_calls tasks [] = tasks
answer_calls tasks (c ∷ cs) = answer_calls (answer_call tasks c).0 cs

module _ ⦃h : HashMap⦄ where
  -- The registry of the server that asks, after its two calls.
  abbrev asked : Grapes → (owner grape_id c : String) → Grape → Grapes
  asked gs owner grape_id c g =
      let added = record g { proxy_subscriptions = insert c g.proxy_subscriptions } in
      record gs {
        grapes =
            put (put gs.grapes grape_id added) grape_id
              (record added { proxy_subscriptions = remove c added.proxy_subscriptions });
        calls =
            (gs.calls ++ (subscribe_to_container grape_id owner c ∷ []))
            ++ (unsubscribe_from_container grape_id owner c ∷ []);
      }

  set-set_remote_grape_subscription :
      (gs : Grapes) (g : Grape) (owner grape_id c : String)
      → find gs.grapes grape_id ≡ some g
      → grape_id == gs.assigned_grape ≡ false
      → contains c g.proxy_subscriptions ≡ false
      → set_remote_grape_subscription
          (set_remote_grape_subscription gs owner grape_id c true)
          owner
          grape_id
          c
          false
        ≡ asked gs owner grape_id c g
  unfolding set_remote_grape_subscription
  set-set_remote_grape_subscription gs g owner grape_id c known away fresh =
      let added = record g { proxy_subscriptions = insert c g.proxy_subscriptions } in
      let once = record gs {
        grapes = put gs.grapes grape_id added;
        calls = gs.calls ++ (subscribe_to_container grape_id owner c ∷ []);
      } in
      let first : set_remote_grape_subscription gs owner grape_id c true ≡ once = ground arith in
      let member : contains c added.proxy_subscriptions ≡ true =
        ground (arith, eq_iff c c, contains-insert c c g.proxy_subscriptions) in
      let there : find once.grapes grape_id ≡ some added =
        ground (arith, eq_iff grape_id grape_id, find-put gs.grapes grape_id grape_id added) in
      ap (λ x. set_remote_grape_subscription x owner grape_id c false) first
      ∙ rw (away, there, member, set_remote_grape_subscription) refl

module _ ⦃h : HashMap⦄ (tp_rpc : String → String) (uuid : String) where
  -- A task on the grape of the owner, as this server knows it; `none` is an exception.
  unfoldable pub run_io_task : Server → IoTask → Option Server
  run_io_task s (subscribe_task owner container_id) = elim (find s.grapes owner) [
    | none ↦ some s
    | some g ↦ elim (GrapeContainers.subscribe_to_container tp_rpc uuid s g container_id false) [
      | none ↦ none
      | some done ↦ some (store tp_rpc owner done).0
    ]
  ]
  run_io_task s (unsubscribe_task owner container_id) =
      some (unsubscribe_grape_from_container s owner container_id)

  unfoldable pub run_io_tasks : Server → List IoTask → Option Server
  run_io_tasks s [] = some s
  run_io_tasks s (t ∷ ts) = elim (run_io_task s t) [ none ↦ none | some s' ↦ run_io_tasks s' ts ]

  abbrev remote_holder : Holder → String → Holder
  remote_holder g c = record g { subscriptions = insert c g.subscriptions }

  abbrev remote_server : Server → (owner : String) → Holder → String → Server
  remote_server s owner g c = record s {
    peer = first_peer true tp_rpc uuid s.peer c false;
    grapes = put s.grapes owner (remote_holder g c);
    loads = s.loads ++ ((g.id, c) ∷ []);
  }

  subscribe-new :
      (s : Server) (owner c : String) (g : Holder)
      → find s.grapes owner ≡ some g
      → contains c g.subscriptions ≡ false
      → c == "" ≡ false
      → find s.peer.containers c ≡ none
      → run_io_task s (subscribe_task owner c) ≡ some (remote_server s owner g c)
  unfolding run_io_task GrapeContainers.subscribe_to_container store
  subscribe-new s owner c g known new named missing =
      rw
        (
          known,
          subscribe-first true tp_rpc uuid s.peer g.subscriptions c false new named missing,
          run_io_task,
        )
        refl

  unsubscribe-subscribed :
      (s : Server) (owner c : String) (g : Holder)
      → (s' : Server) × (run_io_task (remote_server s owner g c) (unsubscribe_task owner c)
          ≡ some s')
        × (find s'.peer.containers c ≡ none)
  unfolding run_io_task unsubscribe_grape_from_container container_is_locally_owned
  unsubscribe-subscribed s owner c g =
      let t = remote_server s owner g c in
      let cell = subscribed_cell true false new_cell in
      let subs = insert c g.subscriptions in
      let there : find t.grapes owner ≡ some (remote_holder g c) =
        ground (arith, eq_iff owner owner, find-put s.grapes owner owner (remote_holder g c)) in
      let found : find t.peer.containers c ≡ some cell =
        ground (arith, eq_iff c c, find-put (put s.peer.containers c new_cell) c c cell) in
      let foreign : container_is_locally_owned t.peer.containers c ≡ false =
        ground (arith, found) in
      let member : contains c subs ≡ true =
        ground (arith, eq_iff c c, contains-insert c c g.subscriptions) in
      let (_, gone, _) = unsubscribe-last true t.peer subs c cell member found refl in
      let (peer, subscriptions) = unsubscribe true t.peer subs c in
      (
        record t {
          peer = peer;
          grapes =
              put t.grapes owner (record (remote_holder g c) { subscriptions = subscriptions });
        },
        ap some (rw (there, foreign, unsubscribe_grape_from_container) refl),
        ground (arith, gone c, eq_iff c c),
      )

  -- A task to unsubscribe from a container that was not subscribed.
  abbrev rewritten : Server → (owner : String) → Holder → Server
  rewritten s owner g = record s { grapes = put s.grapes owner g }

  unsubscribe-new :
      (s : Server) (owner c : String) (g : Holder)
      → find s.grapes owner ≡ some g
      → contains c g.subscriptions ≡ false
      → find s.peer.containers c ≡ none
      → run_io_task s (unsubscribe_task owner c) ≡ some (rewritten s owner g)
  unfolding run_io_task unsubscribe_grape_from_container unsubscribe container_is_locally_owned
  unsubscribe-new s owner c g known new missing =
      let foreign : container_is_locally_owned s.peer.containers c ≡ false =
        ground (arith, missing) in
      ap some (rw (known, foreign, new, unsubscribe, unsubscribe_grape_from_container) refl)

  -- A server asks another to subscribe a grape to a container and then to unsubscribe it, where the
  -- grape was not subscribed, and the other server knows the grape of the owner and has neither the
  -- container, which has an id, nor that subscription. It makes two calls and then holds the grape
  -- for unsubscribed. The other server answers both and has two tasks: where these run in the order
  -- of the calls it does not have the container afterwards, and where they run in the other order
  -- it has.
  pub set_remote_grape_subscription-order :
      (gs : Grapes) (g : Grape) (s : Server) (b : Holder) (owner grape_id c : String)
      → find gs.grapes grape_id ≡ some g
      → grape_id == gs.assigned_grape ≡ false
      → contains c g.proxy_subscriptions ≡ false
      → find s.grapes owner ≡ some b
      → contains c b.subscriptions ≡ false
      → c == "" ≡ false
      → find s.peer.containers c ≡ none
      → let gs' =
          set_remote_grape_subscription
            (set_remote_grape_subscription gs owner grape_id c true)
            owner
            grape_id
            c
            false in
        ((g' : Grape) × (find gs'.grapes grape_id ≡ some g')
          × (contains c g'.proxy_subscriptions ≡ false))
        × (first second : GrapeCall) × (gs'.calls ≡ gs.calls ++ (first ∷ second ∷ []))
        × (t u : IoTask) × (answer_calls [] (first ∷ second ∷ []) ≡ t ∷ u ∷ [])
        × ((s' : Server) × (run_io_tasks s (t ∷ u ∷ []) ≡ some s')
            × (container_exists s'.peer.containers c ≡ false))
        × (s' : Server) × (run_io_tasks s (u ∷ t ∷ []) ≡ some s')
        × (container_exists s'.peer.containers c ≡ true)
  unfolding run_io_tasks answer_calls answer_call
  set_remote_grape_subscription-order gs g s b owner grape_id c known away fresh there new named
        missing =
      let path = set-set_remote_grape_subscription gs g owner grape_id c known away fresh in
      let added = record g { proxy_subscriptions = insert c g.proxy_subscriptions } in
      let removed = record added { proxy_subscriptions = remove c added.proxy_subscriptions } in
      let back = rewritten s owner b in
      let known_back : find back.grapes owner ≡ some b =
        ground (arith, eq_iff owner owner, find-put s.grapes owner owner b) in
      let cell = subscribed_cell true false new_cell in
      let (s', unsubscribed, gone) = unsubscribe-subscribed s owner c b in
      (
        (
          removed,
          ap (λ (x : Grapes). find x.grapes grape_id) path
              ∙ ground (
                arith,
                eq_iff grape_id grape_id,
                find-put (put gs.grapes grape_id added) grape_id grape_id removed,
              ),
          ground (arith, eq_iff c c, contains-remove c c added.proxy_subscriptions),
        ),
        subscribe_to_container grape_id owner c,
        unsubscribe_from_container grape_id owner c,
        ap (λ (x : Grapes). x.calls) path
            ∙ append_assoc gs.calls (subscribe_to_container grape_id owner c ∷ [])
                (unsubscribe_from_container grape_id owner c ∷ []),
        subscribe_task owner c,
        unsubscribe_task owner c,
        refl,
        (
          s',
          rw (subscribe-new s owner c b there new named missing, unsubscribed, run_io_tasks) refl,
          ap is_some gone,
        ),
        remote_server back owner b c,
        rw
            (
              unsubscribe-new s owner c b there new missing,
              subscribe-new back owner c b known_back new named missing,
              run_io_tasks,
            )
            refl,
        ground (arith, eq_iff c c, find-put (put s.peer.containers c new_cell) c c cell),
      )
