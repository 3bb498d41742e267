-- ===== src/Runtime/Scheduler.antt =====
-- AsyncTaskScheduler and AsyncIOTaskScheduler (system/include/AsyncTaskScheduler.hpp,
-- system/common_src/AsyncTaskScheduler.cpp) in a server: what the threads do, in any order. Each use of
-- an atomic counter and each use of the queue is a step of its own. The counter of pending tasks is an
-- int of 32 bits, taken modulo 2 ^ 32, and those of the waits have 64 bits; times are in nanoseconds.
-- A task need not return: the step for its end is there for each running task, and no theorem says
-- that it is taken.
use celte_system.Prelude.{
  if◌then◌else◌, ℕ, suc, ◌+◌, ◌-◌, ◌%◌, ◌^◌, ◌≤◌, ◌≡◌, refl, ap, Bool, true, false, List, [], ◌∷◌,
  ◌++◌, length, length-append, arith,
}

-- How many threads have counted a task in Schedule and not handed it over (`entering`), or are in the
-- handler of an exception (`failing`); the schedule times of the tasks that wait for a thread; the
-- waits of the tasks that a thread has taken and not added; how many have added their wait and not
-- counted it (`counting`), run, or have returned and are still counted (`returned`); how many are done;
-- and how many were counted and lost by an exception. `stopped` is the state of the io_service.
pub record Scheduler : Type 0 where
  pub pending : ℕ
  pub total_wait_ns : ℕ
  pub total_wait_count : ℕ
  pub entering : ℕ
  pub failing : ℕ
  pub queued : List ℕ
  pub waits : List ℕ
  pub counting : ℕ
  pub running : ℕ
  pub returned : ℕ
  pub done : ℕ
  pub lost : ℕ
  pub stopped : Bool

abbrev pub init : Scheduler
init = record {
  pending = 0;
  total_wait_ns = 0;
  total_wait_count = 0;
  entering = 0;
  failing = 0;
  queued = [];
  waits = [];
  counting = 0;
  running = 0;
  returned = 0;
  done = 0;
  lost = 0;
  stopped = false;
}

-- fetch_add(1) and fetch_sub(1) on the counter of pending tasks.
abbrev increment : ℕ → ℕ
increment n = (n + 1) % 2 ^ 32

abbrev decrement : ℕ → ℕ
decrement n = (n + (2 ^ 32 - 1)) % 2 ^ 32

-- Schedule, up to its fetch_add.
unfoldable pub count : Scheduler → Scheduler
count s = record s { pending = increment s.pending; entering = s.entering + 1 }

-- group.run or post, with the schedule time.
unfoldable pub enqueue : (others schedule_time : ℕ) → Scheduler → Scheduler
enqueue others schedule_time s = record s {
  entering = others;
  queued = s.queued ++ (schedule_time ∷ []);
}

-- group.run throws, and the exception is caught. post throws, and the exception is passed on.
unfoldable pub run_throws : (others : ℕ) → Scheduler → Scheduler
run_throws others s = record s { entering = others; failing = s.failing + 1 }

unfoldable pub take_back : (others : ℕ) → Scheduler → Scheduler
take_back others s = record s { failing = others; pending = decrement s.pending }

unfoldable pub post_throws : (others : ℕ) → Scheduler → Scheduler
post_throws others s = record s { entering = others; lost = s.lost + 1 }

-- A thread takes up the task that was scheduled at `schedule_time`; `rest` are the others.
unfoldable pub start : (schedule_time now : ℕ) (rest : List ℕ) → Scheduler → Scheduler
start schedule_time now rest s = record s { queued = rest; waits = (now - schedule_time) ∷ s.waits }

unfoldable pub add_wait : (wait_ns : ℕ) (rest : List ℕ) → Scheduler → Scheduler
add_wait wait_ns rest s = record s {
  waits = rest;
  total_wait_ns = (s.total_wait_ns + wait_ns) % 2 ^ 64;
  counting = s.counting + 1;
}

unfoldable pub add_count : (others : ℕ) → Scheduler → Scheduler
add_count others s = record s {
  counting = others;
  total_wait_count = (s.total_wait_count + 1) % 2 ^ 64;
  running = s.running + 1;
}

-- The function of a running task has returned or thrown.
unfoldable pub return : (others : ℕ) → Scheduler → Scheduler
return others s = record s { running = others; returned = s.returned + 1 }

unfoldable pub finish : (others : ℕ) → Scheduler → Scheduler
finish others s = record s { returned = others; pending = decrement s.pending; done = s.done + 1 }

-- AsyncIOTaskScheduler::Wait, up to the join.
unfoldable pub stop : Scheduler → Scheduler
stop s = record s { stopped = true }

-- `io` tells AsyncIOTaskScheduler from AsyncTaskScheduler.
pub data Step (io : Bool) : Scheduler → Scheduler → Type 0 where
  counts : (s : Scheduler) → Step io s (count s)
  enqueues :
      (s : Scheduler) (others schedule_time : ℕ)
      → s.entering ≡ suc others
      → Step io s (enqueue others schedule_time s)
  run_fails :
      (s : Scheduler) (others : ℕ)
      → io ≡ false
      → s.entering ≡ suc others
      → Step io s (run_throws others s)
  takes_back :
      (s : Scheduler) (others : ℕ) → s.failing ≡ suc others → Step io s (take_back others s)
  post_fails :
      (s : Scheduler) (others : ℕ)
      → io ≡ true
      → s.entering ≡ suc others
      → Step io s (post_throws others s)
  starts :
      (s : Scheduler) (before after : List ℕ) (schedule_time now : ℕ)
      → s.stopped ≡ false
      → s.queued ≡ before ++ (schedule_time ∷ after)
      → Step io s (start schedule_time now (before ++ after) s)
  adds_wait :
      (s : Scheduler) (before after : List ℕ) (wait_ns : ℕ)
      → s.waits ≡ before ++ (wait_ns ∷ after)
      → Step io s (add_wait wait_ns (before ++ after) s)
  adds_count :
      (s : Scheduler) (others : ℕ) → s.counting ≡ suc others → Step io s (add_count others s)
  returns : (s : Scheduler) (others : ℕ) → s.running ≡ suc others → Step io s (return others s)
  finishes : (s : Scheduler) (others : ℕ) → s.returned ≡ suc others → Step io s (finish others s)
  stops : (s : Scheduler) → io ≡ true → Step io s (stop s)

pub data Steps (io : Bool) : Scheduler → Scheduler → Type 0 where
  stay : (s : Scheduler) → Steps io s s
  step : (s t u : Scheduler) → Step io s t → Steps io t u → Steps io s u

-- The tasks that a thread has taken up and that are not done.
abbrev pub under_way : Scheduler → ℕ
under_way s = length s.waits + s.counting + s.running + s.returned

-- What the counters are at every moment.
pub record Inv (io : Bool) (s : Scheduler) : Type 0 where
  pub counted :
      s.pending ≡ (s.entering + s.failing + s.lost + length s.queued + under_way s) % 2 ^ 32
  pub waited : s.total_wait_count ≡ (s.running + s.returned + s.done) % 2 ^ 64
  -- Only the scheduler for input and output loses tasks, and only the other one catches.
  pub one_kind : (if io then s.failing else s.lost) ≡ 0

Inv-Step : (io : Bool) (s t : Scheduler) → Step io s t → Inv io s → Inv io t
unfolding count enqueue run_throws take_back post_throws start add_wait add_count return finish stop
Inv-Step io _ _ (counts s) i = record {
  counted = omega (arith, i.counted);
  waited = i.waited;
  one_kind = i.one_kind;
}
Inv-Step io _ _ (enqueues s others schedule_time e) i = record {
  counted = omega (arith, i.counted, e, length-append s.queued (schedule_time ∷ []));
  waited = i.waited;
  one_kind = i.one_kind;
}
Inv-Step io _ _ (run_fails s others compute e) i = record {
  counted = omega (arith, i.counted, e);
  waited = i.waited;
  one_kind = ground (arith, compute, i.one_kind);
}
Inv-Step io _ _ (takes_back s others e) i = record {
  counted = omega (arith, i.counted, e);
  waited = i.waited;
  one_kind = ground (arith, i.one_kind, e);
}
Inv-Step io _ _ (post_fails s others is_io e) i = record {
  counted = omega (arith, i.counted, e);
  waited = i.waited;
  one_kind = ground (arith, is_io, i.one_kind);
}
Inv-Step io _ _ (starts s before after schedule_time now on e) i = record {
  counted = omega (
    arith,
    i.counted,
    ap length e,
    length-append before after,
    length-append before (schedule_time ∷ after),
  );
  waited = i.waited;
  one_kind = i.one_kind;
}
Inv-Step io _ _ (adds_wait s before after wait_ns e) i = record {
  counted = omega (
    arith,
    i.counted,
    ap length e,
    length-append before after,
    length-append before (wait_ns ∷ after),
  );
  waited = i.waited;
  one_kind = i.one_kind;
}
Inv-Step io _ _ (adds_count s others e) i = record {
  counted = omega (arith, i.counted, e);
  waited = omega (arith, i.waited);
  one_kind = i.one_kind;
}
Inv-Step io _ _ (returns s others e) i = record {
  counted = omega (arith, i.counted, e);
  waited = omega (arith, i.waited, e);
  one_kind = i.one_kind;
}
Inv-Step io _ _ (finishes s others e) i = record {
  counted = omega (arith, i.counted, e);
  waited = omega (arith, i.waited, e);
  one_kind = i.one_kind;
}
Inv-Step io _ _ (stops s is_io) i = record {
  counted = i.counted;
  waited = i.waited;
  one_kind = i.one_kind;
}

Inv-Steps : (io : Bool) (s t : Scheduler) → Steps io s t → Inv io s → Inv io t
Inv-Steps io _ _ (stay s) i = i
Inv-Steps io _ _ (step s t u first rest) i = Inv-Steps io t u rest (Inv-Step io s t first i)

-- At every moment, whatever the threads have done in whatever order: the counter of pending tasks is,
-- modulo 2 ^ 32, the number of tasks that wait or that a thread has taken up and not done, and of those
-- that a thread has counted and not handed over or not yet taken back, and of those that were lost;
-- the scheduler for input and output takes none back, and the other one loses none. The counter of
-- waits is, modulo 2 ^ 64, the number of tasks whose function was called.
pub Steps-Inv : (io : Bool) (s : Scheduler) → Steps io init s → Inv io s
Steps-Inv true s path =
    Inv-Steps true init s path (record { counted = refl; waited = refl; one_kind = refl })
Steps-Inv false s path =
    Inv-Steps false init s path (record { counted = refl; waited = refl; one_kind = refl })

-- The tasks that a thread has taken up, whether they are done or not.
abbrev taken_up : Scheduler → ℕ
taken_up s = under_way s + s.done

-- After the scheduler for input and output is stopped, no task that waits is taken up any more.
Steps-stopped :
    (io : Bool) (s t : Scheduler)
    → Steps io s t
    → s.stopped ≡ true
    → (taken_up t ≡ taken_up s) × (length s.queued ≤ length t.queued)
unfolding count enqueue run_throws take_back post_throws start add_wait add_count return finish stop
Steps-stopped io _ _ (stay s) off = (refl, omega arith)
Steps-stopped io _ u (step _ _ _ (counts s) rest) off = Steps-stopped io (count s) u rest off
Steps-stopped io _ u (step _ _ _ (enqueues s others schedule_time e) rest) off =
    let (same, more) = Steps-stopped io (enqueue others schedule_time s) u rest off in
    (same, omega (arith, more, length-append s.queued (schedule_time ∷ [])))
Steps-stopped io _ u (step _ _ _ (run_fails s others compute e) rest) off =
    Steps-stopped io (run_throws others s) u rest off
Steps-stopped io _ u (step _ _ _ (takes_back s others e) rest) off =
    Steps-stopped io (take_back others s) u rest off
Steps-stopped io _ u (step _ _ _ (post_fails s others is_io e) rest) off =
    Steps-stopped io (post_throws others s) u rest off
Steps-stopped io _ u (step _ _ _ (starts s before after schedule_time now on e) rest) off = cc
Steps-stopped io _ u (step _ _ _ (adds_wait s before after wait_ns e) rest) off =
    let (same, more) = Steps-stopped io (add_wait wait_ns (before ++ after) s) u rest off in
    (
      omega (
        arith,
        same,
        ap length e,
        length-append before after,
        length-append before (wait_ns ∷ after),
      ),
      more,
    )
Steps-stopped io _ u (step _ _ _ (adds_count s others e) rest) off =
    let (same, more) = Steps-stopped io (add_count others s) u rest off in
    (omega (arith, same, e), more)
Steps-stopped io _ u (step _ _ _ (returns s others e) rest) off =
    let (same, more) = Steps-stopped io (return others s) u rest off in
    (omega (arith, same, e), more)
Steps-stopped io _ u (step _ _ _ (finishes s others e) rest) off =
    let (same, more) = Steps-stopped io (finish others s) u rest off in
    (omega (arith, same, e), more)
Steps-stopped io _ u (step _ _ _ (stops s is_io) rest) off = Steps-stopped io (stop s) u rest refl
