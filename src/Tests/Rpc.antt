-- ===== src/Tests/Rpc.antt =====
-- The theorems on remote calls (system/include/CRPC.hpp, system/common_src/CRPC.cpp) at small inputs.
use celte_system.Prelude.{
  ◌+◌, ℕ, zero, suc, ◌*◌, ◌≤◌, ◌≡◌, ◌≢◌, refl, true, false, String, List, [], ◌∷◌, ◌++◌, Option,
  none, some, arith, take, contains, remove, IsDistinct, eq_iff,
}
use celte_system.Prelude.Assoc
use celte_system.Prelude.HashMap.{find, assoc_map}
use celte_system.Prelude.Json.{text_json}
use celte_system.Rpc.LruSet.Defs.{LruSet, init, add}
use celte_system.Rpc.LruSet.Refine.{IsValid, key_list, add-key_list, init-IsValid}
use celte_system.Rpc.LruSet.Once.{run_all, run_all-IsDistinct}
use celte_system.Rpc.LruSet.Race.{Shared, returned, start, interleave, interleave-twice}
use celte_system.Rpc.Stub.Defs.{
  Process, RpRequest, Cell, Outcome, Handler, call, call_request, invoke, try_handle_request,
}
use celte_system.Rpc.Stub.Once.{handle_all, handle-duplicate}
use celte_system.Rpc.Stub.Answers.{CanHandle, response, answer_of}
use celte_system.Rpc.Stub.Calls.{call-answer, call_self-pending}
use celte_system.Rpc.Retry
use celte_system.Rpc.Retry.{Future, never, ready_after}
use celte_system.Rpc.Retry.Laws.{Outcome as Outcome-of, call-Outcome}
use celte_system.Rpc.ProducerPool.{Env, Pool}

add-key_list_example :
    (t : LruSet) × (add (init 2) "c" ≡ some t)
    × IsValid t
    × (t.capacity ≡ 2)
    × (key_list t ≡ take 2 ("c" ∷ remove "c" (key_list (init 2))))
unfolding init
add-key_list_example = add-key_list (init 2) "c" (init-IsValid 2) (omega arith)

run_all-IsDistinct_example :
    (t : LruSet) × (log : List String) × (run_all (init 3) ("a" ∷ "b" ∷ "a" ∷ []) []
      ≡ some (t, log))
    × IsDistinct log
    × ((j : String)
        → contains j ("a" ∷ "b" ∷ "a" ∷ []) ≡ true
        → contains j (key_list (init 3)) ≡ false
        → contains j log ≡ true)
unfolding init
run_all-IsDistinct_example =
    run_all-IsDistinct (init 3) ("a" ∷ "b" ∷ "a" ∷ []) (init-IsValid 3) (omega arith) (omega arith)

-- A handler that counts its runs and returns its argument.
abbrev echo : Handler ℕ
echo v st = (suc st, Outcome.returns v)

abbrev served_methods : Assoc.Assoc (Handler ℕ)
served_methods = ("Grape_call_Ping", echo) ∷ []

abbrev peer : Process ℕ
peer = record {
  methods = ("grape.1", served_methods) ∷ [];
  running_tasks = init 100;
  promises = [];
  cells = λ n. Cell.pending;
  next_cell = 0;
  user = 0;
  outbox = [];
}

peer-CanHandle : CanHandle peer "id1"
unfolding init contains
peer-CanHandle = record { valid = init-IsValid 100; room = omega arith; fresh = refl }

abbrev ping : RpRequest
ping = call_request "peer.a" "Grape_call_Ping" "id1" "t0"

handle-duplicate_example :
    (q : Process ℕ) × (handle_all peer (("grape.1", ping) ∷ ("grape.1", ping) ∷ []) ≡ some q)
    × ((scope' : String) (r' : RpRequest)
        → r'.rpc_id ≡ "id1"
        → try_handle_request q scope' r' ≡ some q)
unfolding init contains
handle-duplicate_example =
    handle-duplicate peer "grape.1" ping (("grape.1", ping) ∷ []) (init-IsValid 100) refl
      (omega arith)

own_ne : ◌≢◌ {A = String} "peer.a" ""
own_ne = ground (arith, eq_iff "peer.a" "")

id_ne : ◌≢◌ {A = String} "id1" ""
id_ne = ground (arith, eq_iff "id1" "")

peer-serves : find peer.methods "grape.1" ≡ some served_methods
unfolding Assoc.find
peer-serves = refl

call-answer_example :
    let out = (invoke served_methods ping 0).1 in
    (b' : Process ℕ) × (a' : Process ℕ) × (try_handle_request peer "grape.1" ping ≡ some b')
    × (b'.user ≡ (invoke served_methods ping 0).0)
    × (b'.outbox ≡ [] ++ ("peer.a", response ping out) ∷ [])
    × (try_handle_request
          (call peer "peer.a" "grape.1" "Grape_call_Ping" "id1" "t0").0
          "peer.a"
          (response ping out)
        ≡ some a')
    × (a'.cells (call peer "peer.a" "grape.1" "Grape_call_Ping" "id1" "t0").1
        ≡ Cell.value (answer_of out))
    × (Assoc.find a'.promises "id1" ≡ none)
    × (a'.user ≡ 0)
call-answer_example =
    call-answer peer peer "peer.a" "grape.1" "Grape_call_Ping" "id1" "t0" served_methods
      peer-CanHandle peer-CanHandle own_ne id_ne peer-serves

call_self-pending_example :
    let out = (invoke served_methods ping 0).1 in
    let p₁ = call peer "peer.a" "grape.1" "Grape_call_Ping" "id1" "t0" in
    (q : Process ℕ) × (try_handle_request p₁.0 "grape.1" ping ≡ some q)
    × (q.user ≡ (invoke served_methods ping 0).0)
    × (try_handle_request q "peer.a" (response ping out) ≡ some q)
    × (q.cells p₁.1 ≡ Cell.pending)
    × (Assoc.find q.promises "id1" ≡ some p₁.1)
call_self-pending_example =
    call_self-pending peer "peer.a" "grape.1" "Grape_call_Ping" "id1" "t0" served_methods
      peer-CanHandle own_ne peer-serves

-- The first attempt is lost, the second is answered after 30 ms.
abbrev flaky : ℕ → Future (Option String)
flaky zero = never 5
flaky (suc n) = ready_after 5 30 (some "pong")

call-Outcome_example :
    Outcome-of
      (λ v. false)
      (λ v. v)
      1000
      0
      3
      flaky
      (Retry.call (λ v. false) (λ v. v) false 1000 3 flaky)
    × ((Retry.call (λ v. false) (λ v. v) false 1000 3 flaky).elapsed ≤ 20 + 4 * 1000)
call-Outcome_example = call-Outcome (λ v. false) (λ v. v) 1000 3 flaky (omega arith)

abbrev pool : Pool
pool = record { producers = ("peer.b", 5) ∷ []; sent = [] }

abbrev env : Env
env = record { now = 90_000; serializes = true; creates = true }

interleave-twice_example :
    ((x : Shared) × (interleave "id" (true ∷ true ∷ true ∷ false ∷ []) (start (init 2) []) ≡ some x)
      × (x.executed ≡ [] ++ ("id" ∷ []))
      × (x.first ≡ returned true)
      × (x.second ≡ returned false))
    × ((y : Shared) × (interleave "id"
            (true ∷ false ∷ true ∷ true ∷ false ∷ false ∷ [])
            (start (init 2) [])
          ≡ some y)
        × (y.executed ≡ ([] ++ ("id" ∷ [])) ++ ("id" ∷ []))
        × (y.first ≡ returned true)
        × (y.second ≡ returned true))
unfolding init celte_system.Prelude.contains
interleave-twice_example = interleave-twice (init 2) "id" [] (init-IsValid 2) (omega arith) refl
