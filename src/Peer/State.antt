-- ===== src/Peer/State.antt =====
-- The state of a peer: the entities (system/include/Entity.hpp, system/include/ETTRegistry.hpp), the
-- containers (system/include/Container.hpp), the tasks that wait for the engine
-- (system/include/Executor.hpp), the hooks that were called in the engine, the remote calls that were
-- sent, and the drop orders that the clock holds.
use celte_system.Prelude.{ℕ, Bool, String, List, [], ◌∷◌, ◌++◌, Option, none, some}
use celte_system.Prelude.Assoc.{Assoc}
use celte_system.Prelude.HashMap.{HashMap, Map}
use celte_system.Ghost.Defs.{Ghosts}

-- `engine_tasks` holds the closures that wait in the executor of the entity, by number.
pub record Entity : Type 0 where
  pub owner_container_id : String
  pub quarantine : Bool
  pub is_valid : Bool
  pub engine_tasks : List ℕ
  pub ett_native_handle : Option ℕ
  pub payload : String

-- ContainerRefCell and its Container. `use_count` is that of the shared pointer to the container.
pub record Cell : Type 0 where
  pub ref_count : ℕ
  pub use_count : ℕ
  pub is_locally_owned : Bool
  pub owned_entities : List String

-- The members of a json object, with `none` for a member that is no text.
abbrev pub Items : Type 0
Items = Assoc (Option String)

-- The arguments of ContainerTakeAuthority and ContainerDropAuthority: e, t, f, p, w, payload, g.
pub record Order : Type 0 where
  pub entity_id : String
  pub to_container_id : String
  pub from_container_id : String
  pub procedure_id : String
  pub when : ℕ
  pub payload : String
  pub ghost : Items

-- The closures that are pushed to the engine.
pub data Task : Type 0 where
  -- ETTRegistry::DeleteEntitiesInContainer and __execDropOrderImpl
  delete_entity : (id payload : String) → Task
  -- Container::DeleteEntity
  invalidate_entity : (id payload : String) → Task
  -- AuthorityTransfer::ExecTakeOrder
  instantiate_entity : (id payload container_id : String) (ghost : Items) → Task

pub data Hook : Type 0 where
  on_instantiate_entity : (id payload : String) → Hook
  on_delete_entity : (id payload : String) → Hook

-- A call of a method of the containers on a scope.
pub data Message : Type 0 where
  take_authority : (scope : String) (order : Order) → Message
  drop_authority : (scope : String) (order : Order) → Message
  container_delete_entity : (scope id payload : String) → Message

module _ ⦃h : HashMap⦄ where
  pub record Peer : Type 0 where
    pub entities : Map Entity
    pub containers : Map Cell
    pub ghosts : Ghosts
    pub engine_tasks : List Task
    pub hooks : List Hook
    pub sent : List Message
    pub scheduled : List (ℕ × Order)
    -- The topic of each reactor that was subscribed.
    pub services : List String

  unfoldable pub push_task_to_engine : Peer → Task → Peer
  push_task_to_engine p t = record p { engine_tasks = p.engine_tasks ++ (t ∷ []) }

  unfoldable pub poll_engine_task : Peer → Peer × Option Task
  poll_engine_task p = elim p.engine_tasks [
    | [] ↦ (p, none)
    | t ∷ ts ↦ (record p { engine_tasks = ts }, some t)
  ]

  -- RUNTIME.Hooks(), as far as the registries call them.
  abbrev pub call_hook : Peer → Hook → Peer
  call_hook p hook = record p { hooks = p.hooks ++ (hook ∷ []) }

  -- fire_and_forget
  abbrev pub send : Peer → Message → Peer
  send p m = record p { sent = p.sent ++ (m ∷ []) }
