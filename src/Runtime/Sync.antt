-- ===== src/Runtime/Sync.antt =====
-- The tasks that run in the engine's frame: ScheduleSyncTask, Tick and __advanceSyncTasks
-- (system/include/Runtime.hpp, system/common_src/Runtime.cpp). A task is a number, and `body` gives what
-- it does: the new state of the engine, the tasks that it schedules itself, and whether it then throws.
-- What other threads schedule during a tick is not modelled.
use celte_system.Prelude.{
  ℕ, zero, suc, ◌+◌, ◌-◌, ◌≤◌, ◌<◌, ◌≡◌, refl, sym, ap, ◌∙◌, Bool, true, false, ◌||◌, List, [], ◌∷◌,
  ◌++◌, Option, none, some, if◌then◌else◌, length, arith, Bool-cases, Option-cases, inl, inr,
}
use mathlib.Core.List.{append-nil, append_assoc}

abbrev pub is_nil : List ℕ → Bool
is_nil [] = true
is_nil (t ∷ ts) = false

module _ {S : Type 0} (body : ℕ → S → S × List ℕ × Bool) where
  pub record Runtime : Type 0 where
    pub engine : S
    pub sync_tasks : List ℕ

  unfoldable pub schedule_sync_task : Runtime → ℕ → Runtime
  schedule_sync_task r task = record r { sync_tasks = r.sync_tasks ++ (task ∷ []) }

  unfoldable pub schedule_all : Runtime → List ℕ → Runtime
  schedule_all r [] = r
  schedule_all r (t ∷ ts) = schedule_all (schedule_sync_task r t) ts

  -- One round of the loop, after try_pop, and whether an exception leaves it.
  unfoldable pub run_sync_task : Runtime → ℕ → List ℕ → Runtime × Bool
  run_sync_task r t rest =
      let (engine, scheduled, throws) = body t r.engine in
      (schedule_all (record { engine = engine; sync_tasks = rest }) scheduled, throws)

  -- __advanceSyncTasks, on fuel, and whether it ends by an exception; `none` is a loop that has not
  -- ended.
  unfoldable pub advance_sync_tasks : ℕ → Runtime → Option (Runtime × Bool)
  advance_sync_tasks zero r = elim r.sync_tasks [ [] ↦ some (r, false) | t ∷ rest ↦ none ]
  advance_sync_tasks (suc fuel) r = elim r.sync_tasks [
    | [] ↦ some (r, false)
    | t ∷ rest ↦
        let (next, throws) = run_sync_task r t rest in
        let more = advance_sync_tasks fuel next in if throws then some (next, true) else more
  ]

  -- A tick by generations, as it is meant: the tasks of a generation run in order, and those that
  -- they schedule are the next generation. The third component is what a task that throws leaves of
  -- its generation.
  unfoldable pub run_generation : List ℕ → S → S × List ℕ × Option (List ℕ)
  run_generation [] e = (e, [], none)
  run_generation (t ∷ ts) e =
      let (engine, scheduled, throws) = body t e in
      let (last, more, left) = run_generation ts engine in
      if throws then (engine, scheduled, some ts) else (last, scheduled ++ more, left)

  -- So many generations at most.
  unfoldable pub generations : ℕ → S → List ℕ → Option (Runtime × Bool)
  generations n e [] = some (record { engine = e; sync_tasks = [] }, false)
  generations zero e (t ∷ ts) = none
  generations (suc n) e (t ∷ ts) =
      let (last, scheduled, left) = run_generation (t ∷ ts) e in
      let more = generations n last scheduled in
      elim left [
        | none ↦ more
        | some rest ↦ some (record { engine = last; sync_tasks = rest ++ scheduled }, true)
      ]

  engine-schedule_all :
      (r : Runtime) (ts : List ℕ) → schedule_all r ts ≡ record r { sync_tasks = r.sync_tasks ++ ts }
  unfolding schedule_all schedule_sync_task
  engine-schedule_all r [] = ap (λ q. record r { sync_tasks = q }) (sym (append-nil r.sync_tasks))
  engine-schedule_all r (t ∷ ts) =
      engine-schedule_all (schedule_sync_task r t) ts
      ∙ ap (λ q. record r { sync_tasks = q }) (append_assoc r.sync_tasks (t ∷ []) ts)

  -- What is left to do after a generation, with the tasks `ys` that were scheduled before it.
  abbrev settle : ℕ → List ℕ → S × List ℕ × Option (List ℕ) → Option (Runtime × Bool)
  settle fuel ys (e, scheduled, none) =
      advance_sync_tasks fuel (record { engine = e; sync_tasks = ys ++ scheduled })
  settle fuel ys (e, scheduled, some rest) =
      some (record { engine = e; sync_tasks = rest ++ (ys ++ scheduled) }, true)

  settle-append :
      (fuel : ℕ) (ys new : List ℕ) (g : S × List ℕ × Option (List ℕ))
      → settle fuel (ys ++ new) g ≡ settle fuel ys (g.0, new ++ g.1, g.2)
  settle-append fuel ys new (e, scheduled, none) =
      ap (λ q. advance_sync_tasks fuel (record { engine = e; sync_tasks = q }))
        (append_assoc ys new scheduled)
  settle-append fuel ys new (e, scheduled, some rest) =
      ap (λ q. some (record { engine = e; sync_tasks = rest ++ q }, true))
        (append_assoc ys new scheduled)

  advance-generation :
      (xs ys : List ℕ) (fuel : ℕ) (e : S)
      → advance_sync_tasks (length xs + fuel) (record { engine = e; sync_tasks = xs ++ ys })
        ≡ settle fuel ys (run_generation xs e)
  unfolding advance_sync_tasks run_generation run_sync_task
  advance-generation [] ys fuel e =
      let same : length {A = ℕ} [] + fuel ≡ fuel = omega arith in
      ap (λ n. advance_sync_tasks n (record { engine = e; sync_tasks = ys })) same
      ∙ ap (λ q. advance_sync_tasks fuel (record { engine = e; sync_tasks = q }))
          (sym (append-nil ys))
  advance-generation (t ∷ xs) ys fuel e =
      let (engine, new, throws) = body t e in
      let scheduled =
        engine-schedule_all (record { engine = engine; sync_tasks = xs ++ ys }) new
        ∙ ap (λ q. record { engine = engine; sync_tasks = q }) (append_assoc xs ys new) in
      let round : suc (length xs) + fuel ≡ suc (length xs + fuel) = omega arith in
      ap (λ n. advance_sync_tasks n (record { engine = e; sync_tasks = t ∷ (xs ++ ys) })) round
      ∙ elim (Bool-cases throws) [
        | inl thrown ↦ rw thrown (ap (λ r. some (r, true)) scheduled)
        | inr calm ↦ rw calm (
            ap (advance_sync_tasks (length xs + fuel)) scheduled
            ∙ advance-generation xs (ys ++ new) fuel engine
            ∙ settle-append fuel ys new (run_generation xs engine))
      ]

  unfoldable pub total : (ℕ → ℕ) → List ℕ → ℕ
  total weight [] = 0
  total weight (t ∷ ts) = weight t + total weight ts

  total-append :
      (weight : ℕ → ℕ) (xs ys : List ℕ)
      → total weight (xs ++ ys) ≡ total weight xs + total weight ys
  unfolding total
  total-append weight [] ys = omega arith
  total-append weight (x ∷ xs) ys = omega (arith, total-append weight xs ys)

  module _ (weight : ℕ → ℕ) (lighter : (t : ℕ) (e : S) → total weight (body t e).1 < weight t) where
    length-total : (xs : List ℕ) (e : S) → length xs ≤ total weight xs
    unfolding total
    length-total [] e = omega arith
    length-total (x ∷ xs) e = omega (arith, lighter x e, length-total xs e)

    -- A generation that ends schedules less than it weighs.
    generation-lighter :
        (xs : List ℕ) (e : S)
        → (run_generation xs e).2 ≡ none
        → total weight (run_generation xs e).1 + length xs ≤ total weight xs
    unfolding total run_generation
    generation-lighter [] e ended = omega arith
    generation-lighter (t ∷ xs) e ended =
        let (engine, new, throws) = body t e in
        let light = lighter t e in
        let sum = total-append weight new (run_generation xs engine).1 in
        elim (Bool-cases throws) [
          | inl thrown ↦ absurd (ground (arith, thrown, ended))
          | inr calm ↦
              let rest = generation-lighter xs engine (ground (arith, calm, ended)) in
              rw calm (omega (arith, light, sum, rest))
        ]

    advance-nil :
        (fuel : ℕ) (e : S)
        → advance_sync_tasks fuel (record { engine = e; sync_tasks = [] })
          ≡ some (record { engine = e; sync_tasks = [] }, false)
    unfolding advance_sync_tasks
    advance-nil zero e = refl
    advance-nil (suc fuel) e = refl

    abbrev Ticks : (fuel n : ℕ) → S → List ℕ → Type 0
    Ticks fuel n e q =
        (r : Runtime) × (throws : Bool) × (advance_sync_tasks fuel
            (record { engine = e; sync_tasks = q })
          ≡ some (r, throws))
        × (generations n e q ≡ some (r, throws))
        × ((throws || is_nil r.sync_tasks) ≡ true)

    generation-Ticks :
        (fuel rest n : ℕ) (e : S) (t : ℕ) (ts : List ℕ)
        → fuel ≡ length (t ∷ ts) + rest
        → (run_generation (t ∷ ts) e).2 ≡ none
        → Ticks rest n (run_generation (t ∷ ts) e).0 (run_generation (t ∷ ts) e).1
        → Ticks fuel (suc n) e (t ∷ ts)
    unfolding generations
    generation-Ticks fuel rest n e t ts enough ended (r, throws, advances, same, empty) =
        let q = t ∷ ts in
        let settled : settle rest [] (run_generation q e)
            ≡ advance_sync_tasks rest
                (record { engine = (run_generation q e).0; sync_tasks = (run_generation q e).1 }) =
          ap (λ l. settle rest [] ((run_generation q e).0, (run_generation q e).1, l)) ended in
        (
          r,
          throws,
          ap (λ k. advance_sync_tasks k (record { engine = e; sync_tasks = q })) enough
              ∙ ap
                  (λ x.
                    advance_sync_tasks (length q + rest) (record { engine = e; sync_tasks = x }))
                  (sym (append-nil q))
              ∙ advance-generation q [] rest e
              ∙ settled
              ∙ advances,
          rw (ended, generations) same,
          empty,
        )

    thrown-Ticks :
        (fuel rest n : ℕ) (e : S) (t : ℕ) (ts left : List ℕ)
        → fuel ≡ length (t ∷ ts) + rest
        → (run_generation (t ∷ ts) e).2 ≡ some left
        → Ticks fuel (suc n) e (t ∷ ts)
    unfolding generations
    thrown-Ticks fuel rest n e t ts left enough thrown =
        let q = t ∷ ts in
        let (last, scheduled, _) = run_generation q e in
        (
          record { engine = last; sync_tasks = left ++ scheduled },
          true,
          ap (λ k. advance_sync_tasks k (record { engine = e; sync_tasks = q })) enough
              ∙ ap
                  (λ x.
                    advance_sync_tasks (length q + rest) (record { engine = e; sync_tasks = x }))
                  (sym (append-nil q))
              ∙ advance-generation q [] rest e
              ∙ ap (λ l. settle rest [] (last, scheduled, l)) thrown,
          rw (thrown, generations) refl,
          refl,
        )

    all-Ticks :
        (fuel n : ℕ) (e : S) (q : List ℕ)
        → total weight q ≤ fuel
        → total weight q ≤ n
        → Ticks fuel n e q
    unfolding total generations
    all-Ticks fuel n e [] enough deep =
        (record { engine = e; sync_tasks = [] }, false, advance-nil fuel e, refl, refl)
    all-Ticks fuel zero e (t ∷ ts) enough deep = absurd (omega (arith, lighter t e, deep))
    all-Ticks fuel (suc n) e (t ∷ ts) enough deep =
        let q = t ∷ ts in
        let rest = fuel - length q in
        let long = length-total q e in
        let split : fuel ≡ length q + rest = omega (arith, long, enough) in
        elim (Option-cases (run_generation q e).2) [
          | inl ended ↦
              let light = generation-lighter q e ended in
              generation-Ticks fuel rest n e t ts split ended (
                all-Ticks rest n (run_generation q e).0 (run_generation q e).1
                  (omega (arith, light, enough, split)) (omega (arith, light, deep)))
          | inr (left, thrown) ↦ thrown-Ticks fuel rest n e t ts left split thrown
        ]

  -- Where each task weighs more than all the tasks that it schedules, a tick ends, and the total weight
  -- of the queue is enough fuel. It leaves the engine and the queue as the generations of its tasks,
  -- run in order, leave them, up to the first task that throws: the exception then leaves the tick
  -- with the rest of its generation and what was scheduled waiting, and otherwise the queue is empty.
  pub advance_sync_tasks-generations :
      (weight : ℕ → ℕ)
      → ((t : ℕ) (e : S) → total weight (body t e).1 < weight t)
      → (fuel : ℕ) (r : Runtime) → total weight r.sync_tasks ≤ fuel
      → (r' : Runtime) × (throws : Bool) × (advance_sync_tasks fuel r ≡ some (r', throws))
        × (generations fuel r.engine r.sync_tasks ≡ some (r', throws))
        × ((throws || is_nil r'.sync_tasks) ≡ true)
  advance_sync_tasks-generations weight lighter fuel r enough =
      all-Ticks weight lighter fuel fuel r.engine r.sync_tasks enough enough

  -- A tick does not end where the task that waits schedules itself anew each time and throws nothing,
  -- whatever the fuel.
  advance_sync_tasks-loops :
      (task : ℕ)
      → ((e : S) → (body task e).1 ≡ task ∷ [])
      → ((e : S) → (body task e).2 ≡ false)
      → (fuel : ℕ) (e : S)
      → advance_sync_tasks fuel (record { engine = e; sync_tasks = task ∷ [] }) ≡ none
  unfolding advance_sync_tasks run_sync_task
  advance_sync_tasks-loops task again calm zero e = refl
  advance_sync_tasks-loops task again calm (suc fuel) e =
      let (engine, scheduled, throws) = body task e in
      rw (calm e) (
        ap (advance_sync_tasks fuel) (
          engine-schedule_all (record { engine = engine; sync_tasks = [] }) scheduled
          ∙ ap (λ q. record { engine = engine; sync_tasks = q }) (again e))
        ∙ advance_sync_tasks-loops task again calm fuel engine)
