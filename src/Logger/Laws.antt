-- ===== src/Logger/Laws.antt =====
-- What the logger's thread does with its queue (system/common_src/Logger.cpp), and the key of the
-- messages.
use Prim.Native.String.{◌++◌ as ◌++ₛ◌}
use celte_system.Prelude.{
  ℕ, zero, suc, ◌+◌, ◌≡◌, refl, ap, ◌∙◌, Bool, true, false, String, List, [], ◌∷◌, ◌++◌, Option,
  none, some, value_or, length, arith, Option-cases, inl, inr,
}
use mathlib.Core.List.{append_assoc}
use celte_system.Config
use celte_system.Config.{Config}
use celte_system.Logger.{
  Redis, RedisTask, push_log, set_kvp, get_kvp, get_kvp_async, idle, waiting, Logger, LogLevel,
  RedisThreadContext, push_task, set_redis_kvp, get_redis_kvp, run_task, pop_task, work, log, reply,
  log_level_to_string, set_cell, create_redis_context, init,
}

-- The constructor leaves a running context without tasks, and without the key that it has read.
context-init :
    (stoi : String → Option ℕ) (connects : String → ℕ → Bool) (env : String → Option String)
    (config : Config) (uuid : String) (context : RedisThreadContext)
    → init stoi connects env config uuid ≡ some context
    → context ≡ record { running = true; uuid = uuid; redis_key = ""; task_queue = [] }
unfolding init create_redis_context
context-init stoi connects env config uuid context e =
    elim (Option-cases (stoi (value_or (Config.get env config "CELTE_REDIS_PORT") "6379"))) [
      | inl f ↦ ground (arith, f)
      | inr (port, f) ↦ ground (arith, f)
    ]

-- A task that does not wait for another one.
unfoldable pub is_plain : RedisTask → Bool
is_plain (push_log key text) = true
is_plain (set_kvp key value) = true
is_plain (get_kvp key cell) = true
is_plain (get_kvp_async key callback) = false

abbrev ArePlain : List RedisTask → Type 0
ArePlain [] = Unit
ArePlain (t ∷ ts) = (is_plain t ≡ true) × ArePlain ts

module _ ⦃redis : Redis⦄ where
  -- The store after the command of one task.
  unfoldable pub command : String → RedisTask → redis.Store → redis.Store
  command session_id (push_log key text) s = reply s (redis.rpush s key text)
  command session_id (set_kvp key value) s = reply s (redis.set s (session_id ++ₛ key) value)
  command session_id (get_kvp key cell) s = s
  command session_id (get_kvp_async key callback) s = s

  unfoldable pub commands : String → List RedisTask → redis.Store → redis.Store
  commands session_id [] s = s
  commands session_id (t ∷ ts) s = commands session_id ts (command session_id t s)

  abbrev pub works : ℕ → Logger → Logger
  works zero l = l
  works (suc n) l = works n (work l)

  -- The thread runs, is between two tasks and has these tasks before it.
  pub record Ready (l : Logger) (queue : List RedisTask) : Type 0 where
    pub running : l.context.running ≡ true
    pub between : l.worker ≡ idle
    pub queued : l.context.task_queue ≡ queue

  abbrev after_pop : Logger → List RedisTask → Logger
  after_pop l rest = record l { context = record l.context { task_queue = rest } }

  work-Ready :
      (l : Logger) (t : RedisTask) (rest : List RedisTask)
      → Ready l (t ∷ rest)
      → work l ≡ run_task t (after_pop l rest)
  unfolding work pop_task
  work-Ready l t rest r = ground (arith, r.running, r.between, r.queued)

  run_task-plain :
      (t : RedisTask) (l : Logger)
      → is_plain t ≡ true
      → ((run_task t l).context ≡ l.context)
        × ((run_task t l).worker ≡ l.worker)
        × ((run_task t l).session_id ≡ l.session_id)
        × ((run_task t l).store ≡ command l.session_id t l.store)
  unfolding run_task is_plain command set_cell
  run_task-plain (push_log key text) l p = (refl, refl, refl, refl)
  run_task-plain (set_kvp key value) l p = (refl, refl, refl, refl)
  run_task-plain (get_kvp key cell) l p = (refl, refl, refl, refl)
  run_task-plain (get_kvp_async key callback) l p = cc

  -- A thread that runs and does not wait is through with a queue of tasks that do not wait after as
  -- many steps, and has sent their commands in the order of the queue.
  pub works-commands :
      (q rest : List RedisTask) (l : Logger)
      → ArePlain q
      → Ready l (q ++ rest)
      → Ready (works (length q) l) rest
        × ((works (length q) l).session_id ≡ l.session_id)
        × ((works (length q) l).store ≡ commands l.session_id q l.store)
  unfolding commands
  works-commands [] rest l plain r = (r, refl, refl)
  works-commands (t ∷ q) rest l plain r =
      let e = work-Ready l t (q ++ rest) r in
      let (context, worker, session, store) = run_task-plain t (after_pop l (q ++ rest)) plain.0 in
      let next : Ready (work l) (q ++ rest) = record {
        running =
            ap (λ (x : Logger). x.context.running) e
            ∙ ap (λ (x : RedisThreadContext). x.running) context
            ∙ r.running;
        between = ap (λ (x : Logger). x.worker) e ∙ worker ∙ r.between;
        queued =
            ap (λ (x : Logger). x.context.task_queue) e
            ∙ ap (λ (x : RedisThreadContext). x.task_queue) context;
      } in
      let (ready, same, done) = works-commands q rest (work l) plain.1 next in
      let kept = ap (λ (x : Logger). x.session_id) e ∙ session in
      (
        ready,
        same ∙ kept,
        done
            ∙ ap (λ s. commands s q (work l).store) kept
            ∙ ap (commands l.session_id q) (ap (λ (x : Logger). x.store) e ∙ store),
      )

  -- What Log sends, seen from the logger's context.
  abbrev pub log_text : Logger → String → String → String → String
  log_text l now level message =
      (((((now ++ₛ " [") ++ₛ level) ++ₛ "] ") ++ₛ l.context.uuid) ++ₛ " ") ++ₛ message

  -- The first warning of a logger whose constructor has succeeded goes to the list with the empty
  -- key, whatever key the configuration has.
  pub log-init :
      (stoi : String → Option ℕ) (connects : String → ℕ → Bool) (env : String → Option String)
      (config : Config) (uuid : String) (l : Logger) (now message : String)
      → init stoi connects env config uuid ≡ some l.context
      → l.worker ≡ idle
      → (work (log l now LogLevel.warning message)).store
        ≡ reply l.store (redis.rpush l.store "" (log_text l now "WARNING" message))
  unfolding log push_task log_level_to_string command commands is_plain
  log-init stoi connects env config uuid l now message e between =
      let c = context-init stoi connects env config uuid l.context e in
      let pushed = log l now LogLevel.warning message in
      let (_, _, done) =
        works-commands (push_log l.context.redis_key (log_text l now "WARNING" message) ∷ []) []
          pushed (refl, tt)
          (record {
            running = ap (λ (x : RedisThreadContext). x.running) c;
            between = between;
            queued =
                ap
                  (λ (x : RedisThreadContext).
                    x.task_queue
                    ++ (push_log l.context.redis_key (log_text l now "WARNING" message) ∷ []))
                  c;
          }) in
      done
      ∙ ap (λ k. reply l.store (redis.rpush l.store k (log_text l now "WARNING" message)))
          (ap (λ (x : RedisThreadContext). x.redis_key) c)

  works-add : (m n : ℕ) (l : Logger) → works (m + n) l ≡ works n (works m l)
  works-add zero n l = let e : 0 + n ≡ n = omega arith in ap (λ k. works k l) e
  works-add (suc m) n l =
      let e : suc m + n ≡ suc (m + n) = omega arith in
      ap (λ k. works k l) e ∙ works-add m n (work l)

  get_after_set :
      (accepts : (s : redis.Store) (k v : String)
        → (s' : redis.Store) × (redis.set s k v ≡ some s') × (redis.get s' k ≡ some v))
      (l : Logger) (key v : String) (cell : ℕ)
      → Ready l (set_kvp key v ∷ get_kvp key cell ∷ [])
      → (works 2 l).cells cell ≡ some (some v)
  unfolding run_task set_cell reply
  get_after_set accepts l key v cell r =
      let first = work-Ready l (set_kvp key v) (get_kvp key cell ∷ []) r in
      let l₁ = run_task (set_kvp key v) (after_pop l (get_kvp key cell ∷ [])) in
      let ready : Ready l₁ (get_kvp key cell ∷ []) = record {
        running = r.running;
        between = r.between;
        queued = refl;
      } in
      let second = work-Ready l₁ (get_kvp key cell) [] ready in
      let (s, set, found) = accepts l.store (l.session_id ++ₛ key) v in
      ap (λ (x : Logger). (work x).cells cell) first
      ∙ ap (λ (x : Logger). x.cells cell) second
      ∙ ground (arith, set, found)

  -- A value that is set is read back by the next read of its key, once the thread has worked
  -- through the queue: where redis accepts the value and answers with it, the thread runs and does
  -- not wait, and no task before it waits.
  pub get-set_redis_kvp :
      (accepts : (s : redis.Store) (k v : String)
        → (s' : redis.Store) × (redis.set s k v ≡ some s') × (redis.get s' k ≡ some v))
      (l : Logger) (q : List RedisTask) (key v : String)
      → ArePlain q
      → Ready l q
      → let (asked, cell) = get_redis_kvp (set_redis_kvp l key v) key in
        (works (length q + 2) asked).cells cell ≡ some (some v)
  unfolding get_redis_kvp set_redis_kvp push_task
  get-set_redis_kvp accepts l q key v plain r =
      let (asked, cell) = get_redis_kvp (set_redis_kvp l key v) key in
      let rest = set_kvp key v ∷ get_kvp key l.next_cell ∷ [] in
      let ready : Ready asked (q ++ rest) = record {
        running = r.running;
        between = r.between;
        queued =
            append_assoc l.context.task_queue (set_kvp key v ∷ []) (get_kvp key l.next_cell ∷ [])
            ∙ ap (λ x. x ++ rest) r.queued;
      } in
      let (done, _, _) = works-commands q rest asked plain ready in
      ap (λ (x : Logger). x.cells l.next_cell) (works-add (length q) 2 asked)
      ∙ get_after_set accepts (works (length q) asked) key v l.next_cell done

  -- What other threads and the thread itself do.
  pub data Event : Type 0 where
    pushes : RedisTask → Event
    asks : (key : String) → Event
    works_once : Event

  unfoldable pub happen : List Event → Logger → Logger
  happen [] l = l
  happen (pushes t ∷ es) l = happen es (push_task l t)
  happen (asks key ∷ es) l = happen es (get_redis_kvp l key).0
  happen (works_once ∷ es) l = happen es (work l)

  happen-waiting :
      (es : List Event) (l : Logger) (cell callback : ℕ)
      → l.worker ≡ waiting cell callback
      → l.cells cell ≡ none
      → ((happen es l).worker ≡ waiting cell callback)
        × ((happen es l).called ≡ l.called)
        × ((happen es l).store ≡ l.store)
  unfolding happen get_redis_kvp push_task work
  happen-waiting [] l cell callback w c = (w, refl, refl)
  happen-waiting (pushes t ∷ es) l cell callback w c =
      happen-waiting es (push_task l t) cell callback w c
  happen-waiting (asks key ∷ es) l cell callback w c =
      happen-waiting es (get_redis_kvp l key).0 cell callback w c
  happen-waiting (works_once ∷ es) l cell callback w c =
      let stays : work l ≡ l = ground (arith, w, c) in
      rw (stays, happen) (happen-waiting es l cell callback w c)

  -- Once the thread has taken up an asynchronous read, its callback is never called and no command
  -- is sent to redis any more, whatever is pushed and however often the thread works: it waits for
  -- a task that stands behind it in its own queue.
  pub get_redis_kvp_async-stuck :
      (l : Logger) (key : String) (callback : ℕ) (rest : List RedisTask) (es : List Event)
      → Ready l (get_kvp_async key callback ∷ rest)
      → l.cells l.next_cell ≡ none
      → ((happen es (work l)).called ≡ l.called) × ((happen es (work l)).store ≡ l.store)
  unfolding run_task get_redis_kvp push_task
  get_redis_kvp_async-stuck l key callback rest es r free =
      let e = work-Ready l (get_kvp_async key callback) rest r in
      let (_, called, store) =
        happen-waiting es (work l) l.next_cell callback (ap (λ (x : Logger). x.worker) e)
          (ap (λ (x : Logger). x.cells l.next_cell) e ∙ free) in
      (called ∙ ap (λ (x : Logger). x.called) e, store ∙ ap (λ (x : Logger). x.store) e)
