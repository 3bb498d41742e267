-- ===== src/Peer/Executors.antt =====
-- The executors of grapes (system/include/Executor.hpp, system/common_src/Executor.cpp), reached through
-- GrapeRegistry (system/include/GrapeRegistry.hpp) and AdvanceGrapeTask of the engine
-- (system/common_src/exports.cpp). A closure is a number, and `body` is what it does to the engine.
use celte_system.Prelude.{
  ℕ, zero, suc, ◌≡◌, refl, ap, sym, ◌∙◌, Bool, true, false, String, List, [], ◌∷◌, ◌++◌, Option,
  none, some, ◌==◌, eq_iff, arith, length,
}
use mathlib.Core.List.{append-nil, append_assoc}
use celte_system.Prelude.HashMap.{HashMap, Map, find, put, find-put}

module _ ⦃h : HashMap⦄ where
  -- `system_tasks` and `io_tasks` are those that were handed to the schedulers of the runtime.
  pub record Executors (S : Type 0) : Type 0 where
    pub engine_tasks : Map (List ℕ)
    pub system_tasks : List ℕ
    pub io_tasks : List ℕ
    pub engine : S

  module _ {S : Type 0} where
    unfoldable push_task_to_system : Executors S → String → ℕ → Executors S
    push_task_to_system x grape_id task = elim (find x.engine_tasks grape_id) [
      | none ↦ x
      | some tasks ↦ record x { system_tasks = x.system_tasks ++ (task ∷ []) }
    ]

    unfoldable push_io_task_to_system : Executors S → String → ℕ → Executors S
    push_io_task_to_system x grape_id task = elim (find x.engine_tasks grape_id) [
      | none ↦ x
      | some tasks ↦ record x { io_tasks = x.io_tasks ++ (task ∷ []) }
    ]

    unfoldable pub push_task_to_engine : Executors S → String → ℕ → Executors S
    push_task_to_engine x grape_id task = elim (find x.engine_tasks grape_id) [
      | none ↦ x
      | some tasks ↦ record x { engine_tasks = put x.engine_tasks grape_id (tasks ++ (task ∷ [])) }
    ]

    unfoldable pub poll_engine_task : Executors S → String → Executors S × Option ℕ
    poll_engine_task x grape_id = elim (find x.engine_tasks grape_id) [
      | none ↦ (x, none)
      | some [] ↦ (x, none)
      | some (task ∷ rest) ↦
          (record x { engine_tasks = put x.engine_tasks grape_id rest }, some task)
    ]

    unfoldable pub push_all : Executors S → String → List ℕ → Executors S
    push_all x grape_id [] = x
    push_all x grape_id (t ∷ ts) = push_all (push_task_to_engine x grape_id t) grape_id ts

    module _ (body : ℕ → S → S) where
      -- AdvanceGrapeTask: whether a task was run.
      unfoldable pub advance_grape_task : Executors S → String → Executors S × Bool
      advance_grape_task x grape_id =
          let (polled, task) = poll_engine_task x grape_id in
          elim task [
            | none ↦ (polled, false)
            | some t ↦ (record polled { engine = body t polled.engine }, true)
          ]

      -- The engine after it advanced the grape so often.
      unfoldable pub advance_times : ℕ → Executors S → String → Executors S
      advance_times zero x grape_id = x
      advance_times (suc n) x grape_id = advance_times n (advance_grape_task x grape_id).0 grape_id

      unfoldable pub run_in_order : List ℕ → S → S
      run_in_order [] s = s
      run_in_order (t ∷ ts) s = run_in_order ts (body t s)

      advance-cons :
          (x : Executors S) (grape_id : String) (t : ℕ) (rest : List ℕ)
          → find x.engine_tasks grape_id ≡ some (t ∷ rest)
          → advance_grape_task x grape_id ≡ (
            record x { engine_tasks = put x.engine_tasks grape_id rest; engine = body t x.engine },
            true,
          )
      unfolding advance_grape_task poll_engine_task
      advance-cons x grape_id t rest e = ground arith

      advance-nil :
          (x : Executors S) (grape_id : String)
          → find x.engine_tasks grape_id ≡ some []
          → advance_grape_task x grape_id ≡ (x, false)
      unfolding advance_grape_task poll_engine_task
      advance-nil x grape_id e = ground arith

      -- Where tasks wait for a grape, the engine that advances it as often as they are runs them in
      -- their order, after which there is none, and the tasks of the other grapes wait on.
      advance_times-runs :
          (ts : List ℕ) (x : Executors S) (grape_id : String)
          → find x.engine_tasks grape_id ≡ some ts
          → let x' = advance_times (length ts) x grape_id in
            (x'.engine ≡ run_in_order ts x.engine)
            × ((advance_grape_task x' grape_id).1 ≡ false)
            × ((other : String)
                → grape_id == other ≡ false
                → find x'.engine_tasks other ≡ find x.engine_tasks other)
      unfolding advance_times run_in_order
      advance_times-runs [] x grape_id e =
          (refl, ap (λ (r : Executors S × Bool). r.1) (advance-nil x grape_id e), λ other ne. refl)
      advance_times-runs (t ∷ ts) x grape_id e =
          let x₁ = record x {
            engine_tasks = put x.engine_tasks grape_id ts;
            engine = body t x.engine;
          } in
          let there : find x₁.engine_tasks grape_id ≡ some ts =
            ground
              (arith, find-put x.engine_tasks grape_id grape_id ts, eq_iff grape_id grape_id) in
          let step : (advance_grape_task x grape_id).0 ≡ x₁ =
            ap (λ (r : Executors S × Bool). r.0) (advance-cons x grape_id t ts e) in
          let (runs, ends, others) = advance_times-runs ts x₁ grape_id there in
          let path = ap (λ y. advance_times (length ts) y grape_id) step in
          (
            ap (λ (y : Executors S). y.engine) path ∙ runs,
            ap (λ (y : Executors S). (advance_grape_task y grape_id).1) path ∙ ends,
            λ other ne.
                ap (λ (y : Executors S). find y.engine_tasks other) path
                ∙ others other ne
                ∙ ground (arith, find-put x.engine_tasks grape_id other ts),
          )

      -- The tasks that are pushed for a known grape come after those that wait for it, the tasks of
      -- the other grapes wait on, and the engine runs none of them.
      push_all-tasks :
          (ts waiting : List ℕ) (x : Executors S) (grape_id : String)
          → find x.engine_tasks grape_id ≡ some waiting
          → let x' = push_all x grape_id ts in
            (find x'.engine_tasks grape_id ≡ some (waiting ++ ts))
            × (x'.engine ≡ x.engine)
            × ((other : String)
                → grape_id == other ≡ false
                → find x'.engine_tasks other ≡ find x.engine_tasks other)
      unfolding push_all push_task_to_engine
      push_all-tasks [] waiting x grape_id e =
          (e ∙ ap some (sym (append-nil waiting)), refl, λ other ne. refl)
      push_all-tasks (t ∷ ts) waiting x grape_id e =
          let x₁ = record x { engine_tasks = put x.engine_tasks grape_id (waiting ++ (t ∷ [])) } in
          let there : find x₁.engine_tasks grape_id ≡ some (waiting ++ (t ∷ [])) = ground (
            arith,
            find-put x.engine_tasks grape_id grape_id (waiting ++ (t ∷ [])),
            eq_iff grape_id grape_id,
          ) in
          let step : push_task_to_engine x grape_id t ≡ x₁ = ground arith in
          let (tasks, engine, others) = push_all-tasks ts (waiting ++ (t ∷ [])) x₁ grape_id there in
          let path = ap (λ y. push_all y grape_id ts) step in
          (
            ap (λ (y : Executors S). find y.engine_tasks grape_id) path
                ∙ tasks
                ∙ ap some (append_assoc waiting (t ∷ []) ts),
            ap (λ (y : Executors S). y.engine) path ∙ engine,
            λ other ne.
                ap (λ (y : Executors S). find y.engine_tasks other) path
                ∙ others other ne
                ∙ ground (arith, find-put x.engine_tasks grape_id other (waiting ++ (t ∷ []))),
          )

      -- Where no task waits for a known grape, the tasks that are then pushed for it run in the order
      -- in which they were pushed when the engine advances the grape as often as they are, the next
      -- call finds none, and the tasks of the other grapes wait on.
      pub advance_times-push_all :
          (ts : List ℕ) (x : Executors S) (grape_id : String)
          → find x.engine_tasks grape_id ≡ some []
          → let x' = advance_times (length ts) (push_all x grape_id ts) grape_id in
            (x'.engine ≡ run_in_order ts x.engine)
            × ((advance_grape_task x' grape_id).1 ≡ false)
            × ((other : String)
                → grape_id == other ≡ false
                → find x'.engine_tasks other ≡ find x.engine_tasks other)
      advance_times-push_all ts x grape_id e =
          let (tasks, engine, kept) = push_all-tasks ts [] x grape_id e in
          let (runs, ends, others) =
            advance_times-runs ts (push_all x grape_id ts) grape_id tasks in
          (runs ∙ ap (run_in_order ts) engine, ends, λ other ne. others other ne ∙ kept other ne)
