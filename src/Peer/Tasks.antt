-- ===== src/Peer/Tasks.antt =====
-- What the tasks of the engine do to the registry of entities, up to the last step of a deletion or
-- of a take order (system/common_src/ETTRegistry.cpp, system/common_src/AuthorityTransfer.cpp).
use celte_system.Prelude.{
  ℕ, ◌≡◌, ◌∙◌, ap, sym, refl, Bool, true, false, not, String, [], ◌∷◌, ◌++◌, none, some,
  if◌then◌else◌, ◌==◌, ◌&&◌, eq_iff, arith, Bool-cases, inl, inr,
}
use celte_system.Prelude.HashMap.{HashMap, Map, find, put, erase, find-put, find-erase}
use celte_system.Ghost.Defs.{try_remove_entity}
use celte_system.Peer.State.{
  Cell, Items, Entity, Order, Task, delete_entity, instantiate_entity, on_delete_entity,
  on_instantiate_entity, Peer, push_task_to_engine, poll_engine_task,
}
use celte_system.Peer.Containers.{container_exists, register_new_owned_entity, remove_owned_entity}
use celte_system.Peer.Entities.{
  new_entity, with_entity, unregister_entity, delete_entities_in_container, register_entity,
  engine_call_instantiate,
}
use celte_system.Peer.Transfer.{
  exec_take_order, run_drop_order, exec_drop_order_impl, run_task, run_next_task,
}
use celte_system.Peer.Moves.{exists-remove}
use celte_system.Peer.Deletes.{find-delete_entities_in_container, deleted}

module _ ⦃h : HashMap⦄ (server : Bool) (tp_peer tp_rpc : String → String) (readings : ℕ → ℕ) where
  abbrev run : Peer → Task → Peer × Bool
  run = run_task server tp_peer tp_rpc readings

  run-delete_entity :
      (p : Peer) (id payload : String) (e : Entity)
      → find p.entities id ≡ some e
      → e.is_valid ≡ false
      → run p (delete_entity id payload) ≡ (
        record p {
          entities = erase p.entities id;
          ghosts = try_remove_entity p.ghosts id;
          hooks = p.hooks ++ (on_delete_entity id payload ∷ []);
        },
        true,
      )
  unfolding run_task unregister_entity
  run-delete_entity p id payload e present invalid = ground arith

  -- After the entities of a container were deleted, the delete task of one of them calls the hook,
  -- throws nothing, takes this entity and its properties out and leaves the other entities.
  run_task-delete_entities_in_container :
      (p : Peer) (c id payload : String) (e : Entity)
      → find p.entities id ≡ some e
      → e.owner_container_id == c ≡ true
      → let q = delete_entities_in_container p c in
        let r = run_task server tp_peer tp_rpc readings q (delete_entity id payload) in
        (r.1 ≡ true)
        × (r.0.hooks ≡ q.hooks ++ (on_delete_entity id payload ∷ []))
        × (r.0.ghosts ≡ try_remove_entity q.ghosts id)
        × ((j : String) → find r.0.entities j ≡ (if id == j then none else find q.entities j))
  run_task-delete_entities_in_container p c id payload e present inside =
      let q = delete_entities_in_container p c in
      let marked : find q.entities id ≡ some (deleted e) =
        ground (arith, find-delete_entities_in_container p c id) in
      rw (run-delete_entity q id payload (deleted e) marked refl)
        (refl, refl, refl, λ j. find-erase q.entities id j)

  run_next_task-push :
      (p : Peer) (t : Task)
      → p.engine_tasks ≡ []
      → run_next_task server tp_peer tp_rpc readings (push_task_to_engine p t) ≡ run p t
  unfolding run_next_task poll_engine_task push_task_to_engine
  run_next_task-push p t empty =
      ap
        (λ ts.
          run_next_task server tp_peer tp_rpc readings (record p { engine_tasks = ts ++ (t ∷ []) }))
        empty
      ∙ ap (λ ts. run (record p { engine_tasks = ts }) t) (sym empty)

  abbrev after_drop : Peer → Order → Map Cell
  after_drop p o =
      if server && not (o.from_container_id == o.to_container_id)
      then remove_owned_entity p.containers o.from_container_id o.entity_id
      else p.containers

  run_drop_order-queued :
      (p : Peer) (o : Order) (e : Entity)
      → find p.entities o.entity_id ≡ some e
      → container_exists p.containers o.to_container_id ≡ false
      → run_drop_order server p o
        ≡ push_task_to_engine
            (record p {
              entities = put p.entities o.entity_id (deleted e);
              containers = after_drop p o;
            })
            (delete_entity o.entity_id e.payload)
  unfolding run_drop_order exec_drop_order_impl push_task_to_engine
  run_drop_order-queued p o e present gone =
      elim (Bool-cases (server && not (o.from_container_id == o.to_container_id))) [
        | inl removes ↦
            ground
              (arith, exists-remove p.containers o.from_container_id o.entity_id o.to_container_id)
        | inr keeps ↦ ground arith
      ]

  -- On a peer without the target container, a drop order and then the task that it queues call the
  -- delete hook once, throw nothing and take the entity out, where the queue was empty.
  run_drop_order-absent :
      (p : Peer) (o : Order) (e : Entity)
      → find p.entities o.entity_id ≡ some e
      → container_exists p.containers o.to_container_id ≡ false
      → p.engine_tasks ≡ []
      → let r = run_next_task server tp_peer tp_rpc readings (run_drop_order server p o) in
        (r.1 ≡ true)
        × (r.0.hooks ≡ p.hooks ++ (on_delete_entity o.entity_id e.payload ∷ []))
        × (r.0.engine_tasks ≡ [])
        × ((j : String)
            → find r.0.entities j ≡ (if o.entity_id == j then none else find p.entities j))
  run_drop_order-absent p o e present gone empty =
      let q = record p {
        entities = put p.entities o.entity_id (deleted e);
        containers = after_drop p o;
      } in
      let t = delete_entity o.entity_id e.payload in
      let marked : find q.entities o.entity_id ≡ some (deleted e) = ground (
        arith,
        eq_iff o.entity_id o.entity_id,
        find-put p.entities o.entity_id o.entity_id (deleted e),
      ) in
      let path =
        ap (run_next_task server tp_peer tp_rpc readings) (run_drop_order-queued p o e present gone)
        ∙ run_next_task-push q t empty
        ∙ run-delete_entity q o.entity_id e.payload (deleted e) marked refl in
      rw path (
        refl,
        refl,
        empty,
        λ j. ground (
          arith,
          eq_iff o.entity_id j,
          find-erase q.entities o.entity_id j,
          find-put p.entities o.entity_id j (deleted e),
        ),
      )

  exec_take_order-queued :
      (p : Peer) (o : Order)
      → find p.entities o.entity_id ≡ none
      → exec_take_order server p o
        ≡ push_task_to_engine
            (record p {
              containers =
                  if server
                  then register_new_owned_entity p.containers o.to_container_id o.entity_id
                  else p.containers;
            })
            (instantiate_entity o.entity_id o.payload o.to_container_id o.ghost)
  unfolding exec_take_order with_entity push_task_to_engine
  exec_take_order-queued p o missing = elim (Bool-cases server) [
    | inl is_server ↦ ground arith
    | inr is_client ↦ ground arith
  ]

  run-instantiate_entity :
      (p : Peer) (id payload c : String) (ghost : Items)
      → find p.entities id ≡ none
      → let r = run p (instantiate_entity id payload c ghost) in
        (r.1 ≡ true)
        × (r.0.hooks ≡ p.hooks ++ (on_instantiate_entity id payload ∷ []))
        × (r.0.engine_tasks ≡ p.engine_tasks)
        × (r.0.entities ≡ put p.entities id (new_entity c))
  unfolding run_task engine_call_instantiate register_entity
  run-instantiate_entity p id payload c ghost missing =
      (refl, ground arith, ground arith, ground arith)

  -- Where the entity is not known and no task waits, a take order and then the task that it queues
  -- call the instantiate hook once and register the entity as a valid one of the target container,
  -- and leave the other entities.
  pub exec_take_order-absent :
      (p : Peer) (o : Order)
      → find p.entities o.entity_id ≡ none
      → p.engine_tasks ≡ []
      → let r = run_next_task server tp_peer tp_rpc readings (exec_take_order server p o) in
        (r.1 ≡ true)
        × (r.0.hooks ≡ p.hooks ++ (on_instantiate_entity o.entity_id o.payload ∷ []))
        × (r.0.engine_tasks ≡ [])
        × ((j : String)
            → find r.0.entities j ≡ (
                if o.entity_id == j
                then some (new_entity o.to_container_id)
                else find p.entities j))
  exec_take_order-absent p o missing empty =
      let q = record p {
        containers =
            if server
            then register_new_owned_entity p.containers o.to_container_id o.entity_id
            else p.containers;
      } in
      let t = instantiate_entity o.entity_id o.payload o.to_container_id o.ghost in
      let path =
        ap (run_next_task server tp_peer tp_rpc readings) (exec_take_order-queued p o missing)
        ∙ run_next_task-push q t empty in
      let (done, hooks, tasks, entities) =
        run-instantiate_entity q o.entity_id o.payload o.to_container_id o.ghost missing in
      rw path (
        done,
        hooks,
        tasks ∙ empty,
        λ j.
            ap (λ es. find es j) entities
            ∙ find-put p.entities o.entity_id j (new_entity o.to_container_id),
      )
