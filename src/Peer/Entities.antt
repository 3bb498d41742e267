-- ===== src/Peer/Entities.antt =====
-- ETTRegistry (system/include/ETTRegistry.hpp, system/common_src/ETTRegistry.cpp). `server` tells the
-- build with CELTE_SERVER_MODE_ENABLED from that of a client; in a result with a Bool, false is an
-- exception.
use celte_system.Prelude.{
  ℕ, Bool, true, false, String, List, [], ◌∷◌, ◌++◌, Option, none, some, is_some, value_or,
  if◌then◌else◌, ◌==◌, ◌&&◌, map,
}
use celte_system.Prelude.Assoc
use celte_system.Prelude.Assoc.{Assoc}
use celte_system.Prelude.HashMap.{HashMap, Map, find, put, erase, keys, empty}
use celte_system.Ghost.Defs.{try_remove_entity, apply_update, peek_properties}
use celte_system.Peer.State.{
  Entity, Task, on_instantiate_entity, container_delete_entity, delete_entity, Items, Peer,
  call_hook, send,
}
use celte_system.Peer.Containers.{container_is_locally_owned, remove_owned_entity, owned_entities}

-- The entity that EngineCallInstantiate registers: the defaults of system/include/Entity.hpp.
abbrev pub new_entity : String → Entity
new_entity owner = record {
  owner_container_id = owner;
  quarantine = false;
  is_valid = true;
  engine_tasks = [];
  ett_native_handle = none;
  payload = "";
}

module _ ⦃h : HashMap⦄ where
  abbrev pub Entities : Type 0
  Entities = Map Entity

  -- RunWithLock
  unfoldable pub with_entity : Entities → String → (Entity → Entity) → Entities
  with_entity es id f = elim (find es id) [ none ↦ es | some e ↦ put es id (f e) ]

  unfoldable pub get_entity_owner_container : Entities → String → String
  get_entity_owner_container es id = elim (find es id) [ none ↦ "" | some e ↦ e.owner_container_id ]

  unfoldable pub set_entity_owner_container : Entities → String → String → Entities
  set_entity_owner_container es id owner =
      with_entity es id (λ e. record e { owner_container_id = owner })

  unfoldable is_entity_quarantined : Entities → String → Bool
  is_entity_quarantined es id = elim (find es id) [ none ↦ false | some e ↦ e.quarantine ]

  unfoldable set_entity_quarantined : Entities → String → Bool → Entities
  set_entity_quarantined es id b = with_entity es id (λ e. record e { quarantine = b })

  unfoldable is_entity_valid : Entities → String → Bool
  is_entity_valid es id = elim (find es id) [ none ↦ false | some e ↦ e.is_valid ]

  unfoldable pub set_entity_valid : Entities → String → Bool → Entities
  set_entity_valid es id b = with_entity es id (λ e. record e { is_valid = b })

  unfoldable set_entity_native_handle : Entities → String → ℕ → Entities
  set_entity_native_handle es id handle =
      with_entity es id (λ e. record e { ett_native_handle = some handle })

  unfoldable get_entity_native_handle : Entities → String → Option ℕ
  get_entity_native_handle es id = elim (find es id) [ none ↦ none | some e ↦ e.ett_native_handle ]

  unfoldable save_entity_payload : Entities → String → String → Entities × Bool
  save_entity_payload es id payload = elim (find es id) [
    | none ↦ (es, false)
    | some e ↦ (put es id (record e { payload = payload }), true)
  ]

  unfoldable pub get_entity_payload : Entities → String → Option String
  get_entity_payload es id = elim (find es id) [ none ↦ none | some e ↦ some e.payload ]

  -- ETTRegistry::PushTaskToEngine and ETTRegistry::PollEngineTask
  unfoldable push_entity_task : Entities → String → ℕ → Entities
  push_entity_task es id task =
      with_entity es id (λ e. record e { engine_tasks = e.engine_tasks ++ (task ∷ []) })

  unfoldable poll_entity_task : Entities → String → Entities × Option ℕ
  poll_entity_task es id = elim (find es id) [
    | none ↦ (es, none)
    | some e ↦ elim e.engine_tasks [
      | [] ↦ (es, none)
      | t ∷ ts ↦ (put es id (record e { engine_tasks = ts }), some t)
    ]
  ]

  -- AdvanceEntityTask, where `body` is what a closure does to the engine: whether one was run.
  unfoldable advance_entity_task :
      {S : Type 0} (body : ℕ → S → S) → Entities → S → String → Entities × S × Bool
  advance_entity_task body es s id =
      let (polled, task) = poll_entity_task es id in
      elim task [ none ↦ (polled, s, false) | some t ↦ (polled, body t s, true) ]

  -- GetOwnedEntitiesNativeHandles, for the entities that a container owns.
  unfoldable native_handles : Entities → List String → List ℕ
  native_handles es [] = []
  native_handles es (id ∷ ids) =
      let rest = native_handles es ids in
      elim (get_entity_native_handle es id) [ none ↦ rest | some handle ↦ handle ∷ rest ]

  abbrev get_owned_entities_native_handles : Peer → String → List ℕ
  get_owned_entities_native_handles p container_id =
      native_handles p.entities (owned_entities p.containers container_id)

  abbrev pub is_entity_registered : Entities → String → Bool
  is_entity_registered es id = is_some (find es id)

  unfoldable clear : Entities → Entities
  clear es = empty Entity

  module _ (server : Bool) (tp_peer tp_rpc : String → String) where
    -- Entity::initRPCService; `tp_peer` and `tp_rpc` are the names of topics of Topics.cpp.
    unfoldable pub init_rpc_service : Peer → String → String → List String
    init_rpc_service p id owner =
        if server && container_is_locally_owned p.containers owner
        then p.services ++ (tp_peer id ∷ tp_rpc id ∷ [])
        else p.services ++ (tp_rpc id ∷ [])

    unfoldable pub register_entity : Peer → String → Entity → Peer × Bool
    register_entity p id e = elim (find p.entities id) [
      | some old ↦ (p, false)
      | none ↦ (
        record p {
          entities = put p.entities id e;
          services = init_rpc_service p id e.owner_container_id;
        },
        true,
      )
    ]

    unfoldable pub engine_call_instantiate : Peer → String → String → String → Peer
    engine_call_instantiate p id payload owner =
        let (p', new) = register_entity p id (new_entity owner) in
        elim new [
          | false ↦ record p { entities = set_entity_owner_container p.entities id owner }
          | true ↦ call_hook p' (on_instantiate_entity id payload)
        ]

    -- The callback of LoadExistingEntities: `parse` gives payload and ghost of an entity, or `none`
    -- where it throws. An exception in ApplyUpdate leaves what was applied and skips the hook.
    unfoldable pub load_entities :
        (ℕ → ℕ) → (String → Option (String × Items)) → Peer → String → Assoc String → Peer
    load_entities readings parse p container_id [] = p
    load_entities readings parse p container_id ((id, text) ∷ rest) = elim (parse text) [
      | none ↦ load_entities readings parse p container_id rest
      | some (payload, ghost) ↦
          let (ghosts, done) = apply_update readings p.ghosts id ghost in
          let applied = record p { ghosts = ghosts } in
          let loaded =
            if done then engine_call_instantiate applied id payload container_id else applied in
          load_entities readings parse loaded container_id rest
    ]

  unfoldable pub unregister_entity : Peer → String → Peer × Bool
  unregister_entity p id = elim (find p.entities id) [
    | none ↦ (p, true)
    | some e ↦ if e.is_valid then (p, false) else (
      record p { entities = erase p.entities id; ghosts = try_remove_entity p.ghosts id },
      true,
    )
  ]

  unfoldable is_entity_locally_owned : Bool → Peer → String → Bool
  is_entity_locally_owned server p id =
      server && container_is_locally_owned p.containers (get_entity_owner_container p.entities id)

  unfoldable forget_entity_native_handle : Bool → Peer → String → Peer
  forget_entity_native_handle server p id = record p {
    containers =
        if server
        then remove_owned_entity p.containers (get_entity_owner_container p.entities id) id
        else p.containers;
    entities = with_entity p.entities id (λ e. record e { ett_native_handle = none });
  }

  -- SendEntityDeleteOrder, in a server.
  unfoldable pub send_entity_delete_order : Peer → String → Peer
  send_entity_delete_order p id = elim (find p.entities id) [
    | none ↦ p
    | some e ↦
        let marked = record p {
          entities = put p.entities id (record e { quarantine = true; is_valid = false });
        } in
        if e.is_valid
        then if container_is_locally_owned p.containers e.owner_container_id
          then send marked (container_delete_entity e.owner_container_id id e.payload)
          else marked
        else p
  ]

  -- The body of the loop of DeleteEntitiesInContainer up to its inner loop.
  unfoldable pub mark_deleted : Entities → Assoc String → String → String → Entities × Assoc String
  mark_deleted es to_delete container_id id = elim (find es id) [
    | none ↦ (es, to_delete)
    | some e ↦
        if e.owner_container_id == container_id
        then (
          put es id (record e { is_valid = false; quarantine = true }),
          Assoc.insert to_delete id e.payload,
        )
        else (es, to_delete)
  ]

  abbrev pub delete_task : String × String → Task
  delete_task (id, payload) = delete_entity id payload

  -- The loop of DeleteEntitiesInContainer.
  unfoldable pub delete_entities :
      Entities → Assoc String → List Task → String → List String → Entities × List Task
  delete_entities es to_delete tasks container_id [] = (es, tasks)
  delete_entities es to_delete tasks container_id (id ∷ ids) =
      let (es', to_delete') = mark_deleted es to_delete container_id id in
      delete_entities es' to_delete' (tasks ++ map delete_task to_delete') container_id ids

  unfoldable pub delete_entities_in_container : Peer → String → Peer
  delete_entities_in_container p container_id =
      let (es, tasks) =
        delete_entities p.entities [] p.engine_tasks container_id (keys p.entities) in
      record p { entities = es; engine_tasks = tasks }

  -- GetExistingEntities, before the documents are dumped: payload and ghost of each entity.
  -- PeekProperties takes the properties without a key out of the store.
  unfoldable pub existing_entities :
      Peer → String → List String → Peer × Assoc (String × Assoc String)
  existing_entities p container_id [] = (p, [])
  existing_entities p container_id (id ∷ ids) = elim (find p.entities id) [
    | none ↦ existing_entities p container_id ids
    | some e ↦
        let (ghosts, ghost) = peek_properties p.ghosts id in
        let here = e.owner_container_id == container_id in
        let next = if here then record p { ghosts = ghosts } else p in
        let (p', etts) = existing_entities next container_id ids in
        (
          p',
          if here
              then (id, (value_or (get_entity_payload p.entities id) "{}", value_or ghost []))
                ∷ etts
              else etts,
        )
  ]

  unfoldable pub get_existing_entities : Peer → String → Peer × Assoc (String × Assoc String)
  get_existing_entities p container_id = existing_entities p container_id (keys p.entities)
