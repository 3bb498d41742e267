-- ===== src/Peer/Ready.antt =====
-- The task that RegisterGrape leaves to the scheduler for its callback (system/common_src/GrapeRegistry.cpp):
-- it subscribes the reactors of the grape, fetches the containers of one that is not owned here, and
-- leaves the callback to the engine. The parts of a grape stand in Peer/Reactors, Peer/GrapeContainers
-- and Peer/Executors.
use celte_system.Prelude.{
  arith, ℕ, ◌≡◌, Bool, true, false, String, List, [], ◌∷◌, Option, none, some, if◌then◌else◌, ◌&&◌,
  not, contains,
}
use celte_system.Prelude.HashMap.{HashMap, find, put}
use celte_system.Prelude.Json.{Json}
use celte_system.Rpc.Stub.Defs.{Process, Handler}
use celte_system.Rpc.Stub.Calls.{delegate}
use celte_system.Rpc.Builder.{on_scope, type_name}
use celte_system.Topics
use celte_system.Peer.Reactors.{init_grape, grape_scope_methods}
use celte_system.Peer.Reactors.Laws.{names, init_grape-calls}
use celte_system.Peer.GrapeContainers.{Holder, Server, fetch_existing_containers}
use celte_system.Peer.Executors.{
  Executors, push_task_to_engine, advance_grape_task, advance_times, push_all, run_in_order,
  advance_times-push_all,
}

module _ ⦃h : HashMap⦄ ⦃j : Json⦄ where
  pub record Registry (S E : Type 0) : Type 0 where
    pub process : Process S
    pub holders : Server
    pub executors : Executors E

  module _ {S E : Type 0} (bind : ℕ → String → Handler S) (server : Bool) (tp_rpc : String → String)
      (default_scope uuid assigned_grape : String) where
    -- `address` is the number of the grape as an object, `owned_containers` the answer of its owner
    -- and `on_ready` the callback.
    unfoldable pub ready_task :
        (owned_containers : Option (List String)) (is_locally_owned : Bool)
        → Registry S E
        → (grape_id : String) (address on_ready : ℕ) → Registry S E
    ready_task owned_containers is_locally_owned r grape_id address on_ready =
        elim (find r.holders.grapes grape_id) [
          | none ↦ r
          | some g ↦
              let (fetched, g') =
                fetch_existing_containers tp_rpc uuid assigned_grape owned_containers r.holders g in
              record r {
                process =
                    init_grape bind server default_scope r.process g.id g.is_locally_owned address;
                holders =
                    if server && not is_locally_owned
                    then record fetched { grapes = put fetched.grapes grape_id g' }
                    else r.holders;
                executors = push_task_to_engine r.executors grape_id on_ready;
              }
        ]

  module _ {S E : Type 0} (bind : ℕ → String → Handler S) (tp_rpc : String → String)
      (default_scope uuid assigned_grape : String) (body : ℕ → E → E) where
    -- Where a server knows a grape, for which no task waits, and did not serve a method of its
    -- scope: after the task of its registration the grape answers this method, and the next time
    -- that the engine advances the grape it runs the callback, and nothing else the time after it.
    pub advance-ready_task :
        (owned_containers : Option (List String)) (is_locally_owned : Bool) (r : Registry S E)
        (g : Holder) (grape_id name : String) (address on_ready : ℕ)
        → find r.holders.grapes grape_id ≡ some g
        → find r.executors.engine_tasks grape_id ≡ some []
        → contains name (names "Grape" grape_scope_methods) ≡ true
        → delegate r.process (Topics.rpc default_scope g.id) name ≡ none
        → let q =
            ready_task bind true tp_rpc default_scope uuid assigned_grape owned_containers
              is_locally_owned r grape_id address on_ready in
          let once = (advance_grape_task body q.executors grape_id).0 in
          (delegate q.process (on_scope default_scope g.id).scope name ≡ some (bind address name))
          × (once.engine ≡ body on_ready r.executors.engine)
          × ((advance_grape_task body once grape_id).1 ≡ false)
    unfolding type_name ready_task advance_times push_all run_in_order
    advance-ready_task owned_containers is_locally_owned r g grape_id name address on_ready known
          idle serves fresh =
        let (_, answered) =
          init_grape-calls bind default_scope r.process g.id g.is_locally_owned address name in
        let answers : delegate
              (init_grape bind true default_scope r.process g.id g.is_locally_owned address)
              (on_scope default_scope g.id).scope name
            ≡ some (bind address name) =
          ground (arith, answered) in
        let (runs, ends, _) =
          advance_times-push_all body (on_ready ∷ []) r.executors grape_id idle in
        rw (known, ready_task) (answers, runs, ends)
