-- ===== src/Tests/Runtime.antt =====
-- The theorems on the runtime, its schedulers and the inputs at small inputs.
use celte_system.Prelude.{
  ℕ, zero, suc, ◌+◌, ◌-◌, ◌<◌, ◌≤◌, ◌≡◌, ◌≢◌, refl, ap, ◌∙◌, ltb, Bool, true, false, String, List,
  [], ◌∷◌, ◌++◌, Option, none, some, length, contains, if◌then◌else◌, ◌||◌, arith,
}
use celte_system.Prelude.Assoc
use celte_system.Prelude.Assoc.{Assoc}
use celte_system.Prelude.HashMap.{assoc_map}
use celte_system.Rpc.Retry.{Future, never, ready_after}
use celte_system.Runtime.Scheduler.{
  Scheduler, init, count, enqueue, Steps, stay, step, counts, enqueues, Inv, Steps-Inv,
}
use celte_system.Runtime.Sync.{
  Runtime, advance_sync_tasks, generations, is_nil, total, advance_sync_tasks-generations,
}
use celte_system.Peer.Inputs.{DataInput, CircularBuffer, newest, Inputs, handle_inputs, kept}
use celte_system.Peer.Inputs.Laws.{kept-handle_inputs}

-- A task of the scheduler for computations was counted and handed over, and another one was counted.
abbrev counted_once : Scheduler
counted_once = count init

abbrev waiting : Scheduler
waiting = count (enqueue 0 5 counted_once)

waiting-Steps : Steps false init waiting
unfolding count
waiting-Steps = step init counted_once waiting (counts init) (
    step counted_once (enqueue 0 5 counted_once) waiting (enqueues counted_once 0 5 refl) (
      step (enqueue 0 5 counted_once) waiting waiting (counts (enqueue 0 5 counted_once))
        (stay waiting)))

Steps-Inv_example : Inv false waiting
Steps-Inv_example = Steps-Inv false waiting waiting-Steps

-- Task 1 schedules a task 0 and a task 2. Task 0 counts in the engine, and task 2 throws.
abbrev body : ℕ → ℕ → ℕ × List ℕ × Bool
body zero engine = (suc engine, [], false)
body (suc zero) engine = (engine, zero ∷ 2 ∷ [], false)
body (suc (suc n)) engine = (engine, [], true)

abbrev weight : ℕ → ℕ
weight zero = 1
weight (suc zero) = 3
weight (suc (suc n)) = 1

body-lighter : (t e : ℕ) → total body weight (body t e).1 < weight t
unfolding total
body-lighter zero e = omega arith
body-lighter (suc zero) e = omega arith
body-lighter (suc (suc n)) e = omega arith

advance_sync_tasks-generations_example :
    let r : Runtime body = record { engine = 0; sync_tasks = 1 ∷ 0 ∷ [] } in
    (r' : Runtime body) × (throws : Bool) × (advance_sync_tasks body 4 r ≡ some (r', throws))
    × (generations body 4 0 (1 ∷ 0 ∷ []) ≡ some (r', throws))
    × ((throws || is_nil r'.sync_tasks) ≡ true)
unfolding total
advance_sync_tasks-generations_example =
    advance_sync_tasks-generations body weight body-lighter 4
      (record { engine = 0; sync_tasks = 1 ∷ 0 ∷ [] }) (omega arith)

-- One grape answers its second ping, the other one never.
abbrev network : String → ℕ → Future (Option Bool)
network g zero = never 5
network g (suc n) = if contains g ("grape.1" ∷ []) then ready_after 5 20 (some true) else never 5

-- A ring as its capacity and its elements.
abbrev tail : List DataInput → List DataInput
tail [] = []
tail (x ∷ xs) = xs

abbrev room : ℕ × List DataInput → List DataInput
room (n, xs) = if ltb (length xs) n then xs else tail xs

abbrev push_ring : ℕ × List DataInput → DataInput → ℕ × List DataInput
push_ring b x = (b.0, room b ++ (x ∷ []))

push_ring-free :
    (b : ℕ × List DataInput) (x : DataInput)
    → length b.1 < b.0
    → (push_ring b x).1 ≡ b.1 ++ (x ∷ [])
push_ring-free (n, xs) x lt = ap (λ (ys : List DataInput). ys ++ (x ∷ [])) (ground (arith, lt))

push_ring-full :
    (b : ℕ × List DataInput) (x oldest : DataInput) (others : List DataInput)
    → b.1 ≡ oldest ∷ others
    → length b.1 ≡ b.0
    → (push_ring b x).1 ≡ others ++ (x ∷ [])
push_ring-full (n, []) x oldest others e full = cc
push_ring-full (n, y ∷ ys) x oldest others e full =
    let kept : room (n, y ∷ ys) ≡ ys = ground (arith, full) in
    let same : ys ≡ others = cc in ap (λ (zs : List DataInput). zs ++ (x ∷ [])) (kept ∙ same)

instance abbrev list_ring : CircularBuffer DataInput
list_ring = record {
  Buffer = ℕ × List DataInput;
  make = λ n. (n, []);
  capacity = λ b. b.0;
  items = λ b. b.1;
  push_back = push_ring;
  capacity-make = λ n. refl;
  items-make = λ n. refl;
  capacity-push_back = λ b x. refl;
  items-push_back_free = push_ring-free;
  items-push_back_full = push_ring-full;
}

abbrev pressed : DataInput
pressed = record { status = true; timestamp = 5; x = 0; y = 0 }

abbrev players : List (String × Inputs)
players = ("player", []) ∷ []

kept-handle_inputs_example :
    (kept (handle_inputs players "player" "jump" (pressed ∷ pressed ∷ [])) "player" "jump"
      ≡ newest 10 (pressed ∷ pressed ∷ []))
    × (length
          (kept (handle_inputs players "player" "jump" (pressed ∷ pressed ∷ [])) "player" "jump")
        ≤ 10)
unfolding celte_system.Prelude.Assoc.find
kept-handle_inputs_example =
    kept-handle_inputs players "player" "jump" [] pressed (pressed ∷ []) refl refl
