-- ===== src/Peer/Transfer.antt =====
-- AuthorityTransfer (system/include/AuthorityTransfer.hpp, system/common_src/AuthorityTransfer.cpp),
-- the methods of Container that are called remotely (system/common_src/Container.cpp), and the tasks
-- that the engine runs.
use celte_system.Prelude.{
  ℕ, ◌+◌, Bool, true, false, not, String, [], ◌∷◌, ◌++◌, Option, none, some, if◌then◌else◌, ◌==◌,
  ◌&&◌, ◌||◌, map,
}
use celte_system.Prelude.Assoc.{Assoc}
use celte_system.Prelude.HashMap.{HashMap, find, put}
use celte_system.Ghost.Defs.{apply_update, peek_properties}
use celte_system.Peer.State.{
  Entity, Task, delete_entity, invalidate_entity, instantiate_entity, on_delete_entity, Items,
  Order, take_authority, drop_authority, Peer, push_task_to_engine, poll_engine_task, call_hook,
  send,
}
use celte_system.Peer.Containers.{container_exists, register_new_owned_entity, remove_owned_entity}
use celte_system.Peer.Entities.{
  with_entity, set_entity_valid, is_entity_registered, engine_call_instantiate, unregister_entity,
}

-- args["g"]: an entity without properties gives the text "{}", which is a document with one member
-- without a key.
unfoldable pub ghost_items : Option (Assoc String) → Items
ghost_items none = ("", some "{}") ∷ []
ghost_items (some props) = map (λ kv. (kv.0, some kv.1)) props

module _ ⦃h : HashMap⦄ where
  -- The guard of TransferAuthority for an entity that is there.
  abbrev pub is_refused : Entity → String → Bool → Bool
  is_refused e to ignore_no_move =
      (e.quarantine || not e.is_valid) || ((e.owner_container_id == to) && not ignore_no_move)

  -- __notifyTakeAuthority and __notifyDrop
  abbrev notify : Peer → Order → Peer
  notify p order =
      send (send p (take_authority order.to_container_id order))
        (drop_authority order.from_container_id order)

  -- TransferAuthority: `uuid` is the id of the procedure, and `now` the time at which the order is
  -- made, in milliseconds.
  unfoldable pub transfer_authority :
      (server : Bool) (uuid : String) (now : ℕ)
      → Peer
      → (entity_id to payload : String) (ignore_no_move : Bool) → Peer
  transfer_authority server uuid now p entity_id to payload ignore_no_move =
      elim (find p.entities entity_id) [
        | none ↦ p
        | some e ↦
            let (ghosts, ghost) = peek_properties p.ghosts entity_id in
            let marked = put p.entities entity_id (record e { quarantine = true }) in
            if is_refused e to ignore_no_move
            then p
            else if server
            then notify (record p { entities = marked; ghosts = ghosts })
                (record {
                  entity_id = entity_id;
                  to_container_id = to;
                  from_container_id = e.owner_container_id;
                  procedure_id = uuid;
                  when = now + 2000;
                  payload = payload;
                  ghost = ghost_items ghost;
                })
            else record p { entities = marked }
      ]

  unfoldable pub exec_take_order : (server : Bool) → Peer → Order → Peer
  exec_take_order server p order =
      let moved = record p {
        entities =
            with_entity p.entities order.entity_id
              (λ e. record e { owner_container_id = order.to_container_id; quarantine = false });
      } in
      let queued =
        if is_entity_registered moved.entities order.entity_id
        then moved
        else push_task_to_engine moved
            (instantiate_entity order.entity_id order.payload order.to_container_id order.ghost) in
      if server
      then record queued {
        containers =
            register_new_owned_entity queued.containers order.to_container_id order.entity_id;
      }
      else queued

  -- ExecDropOrder: the order waits for its time in the clock.
  unfoldable exec_drop_order : Peer → Order → Peer
  exec_drop_order p order =
      if order.from_container_id == order.to_container_id
      then p
      else record p { scheduled = p.scheduled ++ ((order.when, order) ∷ []) }

  -- __execDropOrderImpl
  unfoldable pub exec_drop_order_impl : (server : Bool) → Peer → Entity → Order → Peer
  exec_drop_order_impl server p e order =
      let there = container_exists p.containers order.to_container_id in
      let marked = if there then p else record p {
        entities =
            put p.entities order.entity_id (record e { is_valid = false; quarantine = true });
      } in
      let removed =
        if server && not (order.from_container_id == order.to_container_id)
        then record marked {
          containers =
              remove_owned_entity marked.containers order.from_container_id order.entity_id;
        }
        else marked in
      if container_exists removed.containers order.to_container_id
      then removed
      else push_task_to_engine removed (delete_entity order.entity_id e.payload)

  -- The task that ExecDropOrder gives to the clock.
  unfoldable pub run_drop_order : (server : Bool) → Peer → Order → Peer
  run_drop_order server p order = elim (find p.entities order.entity_id) [
    | none ↦ p
    | some e ↦ exec_drop_order_impl server p e order
  ]

  -- Container::TakeAuthority and Container::DropAuthority, where `parse` reads an order: false is
  -- the exception for a text that it does not read.
  unfoldable container_take_authority :
      (server : Bool) (parse : String → Option Order) → Peer → String → Peer × Bool
  container_take_authority server parse p args = elim (parse args) [
    | none ↦ (p, false)
    | some order ↦ (exec_take_order server p order, true)
  ]

  unfoldable container_drop_authority :
      (parse : String → Option Order) → Peer → String → Peer × Bool
  container_drop_authority parse p args = elim (parse args) [
    | none ↦ (p, false)
    | some order ↦ (exec_drop_order p order, true)
  ]

  -- Container::DeleteEntity
  unfoldable container_delete : Peer → String → String → Peer
  container_delete p id payload = push_task_to_engine p (invalidate_entity id payload)

  module _ (server : Bool) (tp_peer tp_rpc : String → String) (readings : ℕ → ℕ) where
    -- What the engine does with a task: false is an exception.
    unfoldable pub run_task : Peer → Task → Peer × Bool
    run_task p (delete_entity id payload) =
        unregister_entity (call_hook p (on_delete_entity id payload)) id
    run_task p (invalidate_entity id payload) = (
      call_hook (record p { entities = set_entity_valid p.entities id false })
          (on_delete_entity id payload),
      true,
    )
    run_task p (instantiate_entity id payload container_id ghost) =
        let p' = engine_call_instantiate server tp_peer tp_rpc p id payload container_id in
        (record p' { ghosts = (apply_update readings p'.ghosts id ghost).0 }, true)

    -- One task of the queue, where there is one.
    unfoldable pub run_next_task : Peer → Peer × Bool
    run_next_task p =
        let (p', polled) = poll_engine_task p in
        elim polled [ none ↦ (p', true) | some t ↦ run_task p' t ]

    -- AdvanceTopLevelExecutorTask: whether a task was run, with `none` for an exception of it.
    unfoldable advance_top_level_executor_task : Peer → Peer × Option Bool
    advance_top_level_executor_task p =
        let (p', polled) = poll_engine_task p in
        elim polled [
          | none ↦ (p', some false)
          | some t ↦ let (q, runs) = run_task p' t in (q, if runs then some true else none)
        ]
