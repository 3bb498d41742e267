-- ===== src/Logger.antt =====
-- The logger (system/include/Logger.hpp, system/common_src/Logger.cpp): the queue of tasks for redis
-- and the thread that runs them. Redis is an interface; the clock's reading is an argument. A call
-- that waits for its result gets a cell, which holds the result once `done` is set.
pub mod Laws
use Prim.Native.String.{◌++◌ as ◌++ₛ◌}
use celte_system.Prelude.{
  ℕ, suc, Bool, true, false, String, List, [], ◌∷◌, ◌++◌, Option, none, some, eqb, value_or,
  if◌then◌else◌, ◌≡◌,
}
use celte_system.Config
use celte_system.Config.{Config, or_else}

-- The server behind hiredis: `none` is a NULL reply. The text of the reply to GET is empty where the
-- key is not set (a nil reply has no text and length 0).
pub record Redis : Type 1 where
  pub Store : Type 0
  pub rpush : Store → String → String → Option Store
  pub set : Store → String → String → Option Store
  pub get : Store → String → Option String

pub data LogLevel : Type 0 where
  debug warning error fatal : LogLevel

unfoldable pub log_level_to_string : LogLevel → String
log_level_to_string debug = "DEBUG"
log_level_to_string warning = "WARNING"
log_level_to_string error = "ERROR"
log_level_to_string fatal = "FATAL"

-- The closures in the queue. Callbacks and cells are numbers.
pub data RedisTask : Type 0 where
  push_log : (key text : String) → RedisTask
  set_kvp : (key value : String) → RedisTask
  get_kvp : (key : String) (cell : ℕ) → RedisTask
  get_kvp_async : (key : String) (callback : ℕ) → RedisTask

-- What the thread does: it is between two tasks, or inside a task that waits for a cell.
pub data Worker : Type 0 where
  idle : Worker
  waiting : (cell callback : ℕ) → Worker

pub record RedisThreadContext : Type 0 where
  pub running : Bool
  pub uuid : String
  pub redis_key : String
  pub task_queue : List RedisTask

abbrev make_context : RedisThreadContext
make_context = record { running = false; uuid = ""; redis_key = ""; task_queue = [] }

unfoldable pub create_redis_context : Bool → String → RedisThreadContext → Option RedisThreadContext
create_redis_context connects uuid context =
    if connects then some (record context { running = true; uuid = uuid }) else none

-- Logger::Logger. The port must be a number, or std::stoi throws; `connects` is what redisConnect
-- does, and `none` is a throw or the exit of the process.
unfoldable pub init :
    (stoi : String → Option ℕ) (connects : String → ℕ → Bool) (env : String → Option String)
    → Config
    → (uuid : String) → Option RedisThreadContext
init stoi connects env config uuid =
    elim (stoi (value_or (Config.get env config "CELTE_REDIS_PORT") "6379")) [
      | none ↦ none
      | some port ↦
          let host = value_or (Config.get env config "CELTE_REDIS_HOST") "localhost" in
          let first : RedisThreadContext = record make_context {
            uuid = uuid;
            redis_key = value_or (Config.get env config "CELTE_REDIS_KEY") "logs";
          } in
          -- _context is made anew here.
          let context = make_context in create_redis_context (connects host port) uuid context
    ]

module _ ⦃redis : Redis⦄ where
  pub record Logger : Type 0 where
    pub context : RedisThreadContext
    pub store : redis.Store
    pub worker : Worker
    -- The result in a cell, once it is done.
    pub cells : ℕ → Option (Option String)
    pub next_cell : ℕ
    -- The calls of callbacks: its number, whether there is a value, and the value.
    pub called : List (ℕ × Bool × String)
    pub session_id : String

  unfoldable pub push_task : Logger → RedisTask → Logger
  push_task l task = record l {
    context = record l.context { task_queue = l.context.task_queue ++ (task ∷ []) };
  }

  -- Logger::Log
  unfoldable pub log : Logger → String → LogLevel → String → Logger
  log l now level message = push_task l (
      push_log l.context.redis_key (
        (((((now ++ₛ " [") ++ₛ log_level_to_string level) ++ₛ "] ") ++ₛ l.context.uuid) ++ₛ " ")
        ++ₛ message))

  unfoldable pub set_redis_kvp : Logger → String → String → Logger
  set_redis_kvp l key value = push_task l (set_kvp key value)

  -- GetRedisKVP up to its wait: the new state and the cell that it waits for.
  unfoldable pub get_redis_kvp : Logger → String → Logger × ℕ
  get_redis_kvp l key =
      (push_task (record l { next_cell = suc l.next_cell }) (get_kvp key l.next_cell), l.next_cell)

  unfoldable get_redis_kvp_async : Logger → String → ℕ → Logger
  get_redis_kvp_async l key callback = push_task l (get_kvp_async key callback)

  -- The command fails without a reply, and the store stays.
  unfoldable pub reply : redis.Store → Option redis.Store → redis.Store
  reply before none = before
  reply before (some after) = after

  unfoldable pub set_cell : Logger → ℕ → Option String → Logger
  set_cell l cell result = record l { cells = λ i. if eqb i cell then some result else l.cells i }

  -- The body of a task, up to its wait.
  unfoldable pub run_task : RedisTask → Logger → Logger
  run_task (push_log key text) l = record l { store = reply l.store (redis.rpush l.store key text) }
  run_task (set_kvp key value) l = record l {
    store = reply l.store (redis.set l.store (l.session_id ++ₛ key) value);
  }
  run_task (get_kvp key cell) l = set_cell l cell (redis.get l.store (l.session_id ++ₛ key))
  run_task (get_kvp_async key callback) l =
      let (waits, cell) = get_redis_kvp l key in record waits { worker = waiting cell callback }

  -- popTask: the first task of the queue, if there is one.
  unfoldable pub pop_task : Logger → Logger
  pop_task l = elim l.context.task_queue [
    | [] ↦ l
    | task ∷ rest ↦ run_task task (record l { context = record l.context { task_queue = rest } })
  ]

  -- The end of the wait in GetRedisKVPAsync, where the cell is done.
  unfoldable pub call_back : ℕ → Option String → Logger → Logger
  call_back callback (some value) l = record l {
    worker = idle;
    called = l.called ++ ((callback, true, value) ∷ []);
  }
  call_back callback none l = record l {
    worker = idle;
    called = l.called ++ ((callback, false, "") ∷ []);
  }

  -- One step of the thread, sendThreadWorker.
  unfoldable pub work : Logger → Logger
  work l = elim l.worker [
    | idle ↦ if l.context.running then pop_task l else l
    | waiting cell callback ↦ elim (l.cells cell) [
      | none ↦ l
      | some result ↦ call_back callback result l
    ]
  ]
