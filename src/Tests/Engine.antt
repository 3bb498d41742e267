-- ===== src/Tests/Engine.antt =====
-- The theorems on the engine's procedures, the configuration and the logger at small inputs.
use Prim.Native.Char.{Char}
use celte_system.Prelude.{
  ℕ, ◌+◌, ◌≡◌, ◌≢◌, refl, Bool, true, false, String, List, [], ◌∷◌, ◌++◌, Option, none, some,
  length, if◌then◌else◌, ◌==◌, eq_iff, ap, arith,
}
use celte_system.Prelude.Assoc
use celte_system.Prelude.Assoc.{find-put}
use celte_system.Prelude.HashMap.{assoc_map}
use celte_system.Prelude.Json.{text_json, dump}
use celte_system.Rpc.LruSet.Defs.{init}
use celte_system.Rpc.LruSet.Refine.{init-IsValid}
use celte_system.Rpc.Stub.Defs.{Process, RpRequest, Cell, try_handle_request}
use celte_system.Rpc.Stub.Answers.{CanHandle}
use celte_system.Rpc.Builder.{Writing, Effect}
use celte_system.Rpc.Custom.{CustomRpc, register_rpc, subscribe, call_rpc}
use celte_system.Rpc.Custom.Laws.{topic_of, call_rpc-register_rpc}
use celte_system.Config
use celte_system.Config.{Config, get-init, get-set, or_else, last_entry, default_of}
use celte_system.Logger.{
  Redis, RedisTask, push_log, set_kvp, get_kvp, get_kvp_async, idle, Logger, LogLevel,
  RedisThreadContext, set_redis_kvp, get_redis_kvp, work, log, reply,
}
use celte_system.Logger.Laws.{
  Event, pushes, works_once, happen, works, Ready, commands, log_text, log-init, works-commands,
  get-set_redis_kvp, get_redis_kvp_async-stuck,
}

-- Two texts in one: each character of the first behind an x, and the second behind an e.
unfoldable put_pair : String → String → String
put_pair String.[] b = String.◌∷◌ "e" b
put_pair (String.◌∷◌ c a) b = String.◌∷◌ "x" (String.◌∷◌ c (put_pair a b))

unfoldable cons_first : Char → Option (String × String) → Option (String × String)
cons_first c none = none
cons_first c (some (a, b)) = some (String.◌∷◌ c a, b)

unfoldable get_pair : String → Option (String × String)
get_pair String.[] = none
get_pair (String.◌∷◌ m String.[]) =
    if String.◌∷◌ m String.[] == "e" then some (String.[], String.[]) else none
get_pair (String.◌∷◌ m (String.◌∷◌ c s)) =
    let rest = get_pair s in
    if String.◌∷◌ m String.[] == "e" then some (String.[], String.◌∷◌ c s) else cons_first c rest

get_pair-put_pair : (a b : String) → get_pair (put_pair a b) ≡ some (a, b)
unfolding get_pair put_pair cons_first
get_pair-put_pair String.[] String.[] = refl
get_pair-put_pair String.[] (String.◌∷◌ c b) = refl
get_pair-put_pair (String.◌∷◌ c a) b = ap (cons_first c) (get_pair-put_pair a b)

abbrev get_texts : Option String → Option (String × String)
get_texts none = none
get_texts (some s) = get_pair s

abbrev engine_object : CustomRpc
engine_object = record { rpcs = []; called = [] }

abbrev caller : Process CustomRpc
caller = record {
  methods = [];
  running_tasks = init 100;
  promises = [];
  cells = λ n. Cell.pending;
  next_cell = 0;
  user = engine_object;
  outbox = [];
}

abbrev callee : Process CustomRpc
callee = record caller { user = register_rpc (register_rpc engine_object "jump" 7) "jump" 8 }

callee-CanHandle : CanHandle callee "id"
unfolding init celte_system.Prelude.contains
callee-CanHandle = record { valid = init-IsValid 100; room = omega arith; fresh = refl }

abbrev texts : String → String → String
texts x y = dump (some (put_pair x y))

call_rpc-register_rpc_example :
    let topic = topic_of false "non-persistent://public/default/" "player" in
    (r : RpRequest) × (call_rpc texts Writing.accepted "non-persistent://public/default/" "Entity"
        false "player" caller "id" "jump" "now"
      ≡ (record caller { outbox = [] ++ ((topic, r) ∷ []) }, Effect.nothing))
    × (b' : Process CustomRpc) × (try_handle_request
          (subscribe get_texts (λ v. "invalid pair") "Entity" callee topic)
          topic
          r
        ≡ some b')
    × (b'.user.called ≡ [] ++ ((7, "now") ∷ []))
    × (b'.outbox ≡ [])
unfolding celte_system.Prelude.Assoc.find
call_rpc-register_rpc_example =
    call_rpc-register_rpc get_texts (λ v. "invalid pair") (λ x y. some (put_pair x y))
      get_pair-put_pair caller callee "non-persistent://public/default/" "Entity" "player" false
      "id" "jump" "now" 7 8 engine_object refl refl refl callee-CanHandle

abbrev home_env : String → Option String
home_env key =
    if key == "HOME" then some "/root" else if key == "CELTE_REDIS_KEY" then some "env" else none

abbrev file : String → Option (List (String × String))
file path = some (("A", "1") ∷ ("A", "2") ∷ [])

get-init_example :
    (c : Config) × (Config.init home_env file ≡ some c)
    × ((key : String)
        → Config.get home_env c key
          ≡ or_else
              (last_entry (("A", "1") ∷ ("A", "2") ∷ []) key)
              (or_else (default_of key) (home_env key)))
get-init_example = get-init home_env file "/root" (("A", "1") ∷ ("A", "2") ∷ []) refl refl

-- A redis with one list and its keys.
abbrev set_key : List (String × String) → String → String → List (String × String)
set_key s k v = Assoc.put s k v

instance abbrev small_redis : Redis
small_redis = record {
  Store = List (String × String);
  rpush = λ s key text. some ((key, text) ∷ s);
  set = λ s key value. some (Assoc.put s key value);
  get = λ s key. Assoc.find s key;
}

abbrev logger : List RedisTask → Logger
logger queue = record {
  context = record { running = true; uuid = "sn.1"; redis_key = ""; task_queue = queue };
  store = [];
  worker = idle;
  cells = λ n. none;
  next_cell = 0;
  called = [];
  session_id = "default";
}

logger-Ready : (queue : List RedisTask) → Ready (logger queue) queue
logger-Ready queue = record { running = refl; between = refl; queued = refl }

abbrev stoi : String → Option ℕ
stoi s = if s == "6379" then some 6379 else none

abbrev blank_config : Config
blank_config = record {
  config = [];
  session_id = "default";
  default_scope_name = "non-persistent://public/default/";
}

small_redis-accepts :
    (s : List (String × String)) (k v : String)
    → (s' : List (String × String)) × (some (Assoc.put s k v) ≡ some s')
      × (Assoc.find s' k ≡ some v)
small_redis-accepts s k v = (Assoc.put s k v, refl, ground (arith, find-put s k k v, eq_iff k k))

get-set_redis_kvp_example :
    let (asked, cell) =
      get_redis_kvp (set_redis_kvp (logger (push_log "logs" "a" ∷ [])) "k" "v") "k" in
    (works (length (push_log "logs" "a" ∷ []) + 2) asked).cells cell ≡ some (some "v")
unfolding celte_system.Logger.Laws.is_plain
get-set_redis_kvp_example =
    get-set_redis_kvp small_redis-accepts (logger (push_log "logs" "a" ∷ []))
      (push_log "logs" "a" ∷ []) "k" "v" (refl, tt) (logger-Ready (push_log "logs" "a" ∷ []))
