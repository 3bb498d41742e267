-- ===== src/Rpc/Stub/Answers.antt =====
-- A call, its execution and its answer (system/include/CRPC.hpp, system/common_src/CRPC.cpp).
use celte_system.Prelude.{
  ℕ, ◌<◌, ◌≡◌, ◌≢◌, refl, true, false, String, [], ◌∷◌, ◌++◌, none, some, arith, contains, ap, ◌∙◌,
  eq_iff,
}
use celte_system.Prelude.Assoc
use celte_system.Prelude.Assoc.{Assoc, find-put, find-erase}
use celte_system.Prelude.HashMap.{HashMap, find}
use celte_system.Prelude.Json.{Json, Value, null, parse-dump}
use celte_system.Rpc.LruSet.Refine.{IsValid, key_list}
use celte_system.Rpc.Stub.Defs.{
  Process, RpRequest, Outcome, Cell, Handler, call_request, response_request, response_of, invoke,
  respond, call, solve_promise, handle, handle_call, handle_response, set_cell, try_handle_request,
}
use celte_system.Rpc.Stub.Once.{try_handle-fresh}
use celte_system.Rpc.LruSet.Once.{contains_of_take}

module _ ⦃h : HashMap⦄ ⦃j : Json⦄ where
  -- What the caller's future holds: the value, or null for every kind of failure.
  abbrev pub answer_of : Outcome → Value
  answer_of (Outcome.returns v) = v
  answer_of (Outcome.out_of_range e) = null
  answer_of (Outcome.json_error e) = null
  answer_of (Outcome.std_error e) = null

  abbrev pub response : RpRequest → Outcome → RpRequest
  response r out = response_request r (response_of out).0 (response_of out).1

  module _ {S : Type 0} where
    handle-call :
        (p : Process S) (scope : String) (r : RpRequest) (ms : Assoc (Handler S))
        → r.responds_to ≡ ""
        → r.response_topic ≢ ""
        → find p.methods scope ≡ some ms
        → handle scope r p ≡ record p {
          user = (invoke ms r p.user).0;
          outbox = p.outbox ++ (r.response_topic, response r (invoke ms r p.user).1) ∷ [];
        }
    unfolding handle handle_call respond
    handle-call p scope r ms call topic found =
        rw (found, handle_call, handle)
          (ground (arith, eq_iff r.responds_to "", eq_iff r.response_topic ""))

    handle-response :
        (p : Process S) (scope : String) (r : RpRequest) (out : Outcome) (n : ℕ)
        → r.rpc_id ≢ ""
        → Assoc.find p.promises r.rpc_id ≡ some n
        → handle scope (response r out) p ≡ record (set_cell p n (Cell.value (answer_of out))) {
          promises = Assoc.erase p.promises r.rpc_id;
        }
    unfolding handle handle_response solve_promise response_of
    handle-response p scope r (Outcome.returns v) n id waits =
        ground (arith, eq_iff r.rpc_id "", parse-dump v)
    handle-response p scope r (Outcome.out_of_range e) n id waits =
        ground (arith, eq_iff r.rpc_id "")
    handle-response p scope r (Outcome.json_error e) n id waits = ground (arith, eq_iff r.rpc_id "")
    handle-response p scope r (Outcome.std_error e) n id waits = ground (arith, eq_iff r.rpc_id "")

    -- The task set is well formed and does not know the id.
    pub record CanHandle (p : Process S) (id : String) : Type 0 where
      pub valid : IsValid p.running_tasks
      pub room : 0 < p.running_tasks.capacity
      pub fresh : contains id (key_list p.running_tasks) ≡ false

    -- A process that gets a call for a scope that it serves runs the handler once and sends one
    -- message to the topic of the caller, which carries the id and the outcome.
    pub served :
        (p : Process S) (own scope name id args : String) (ms : Assoc (Handler S))
        → CanHandle p id
        → own ≢ ""
        → find p.methods scope ≡ some ms
        → let r = call_request own name id args in
          (q : Process S) × (try_handle_request p scope r ≡ some q)
          × (q.user ≡ (invoke ms r p.user).0)
          × (q.outbox ≡ p.outbox ++ (own, response r (invoke ms r p.user).1) ∷ [])
          × (q.cells ≡ p.cells)
          × (q.promises ≡ p.promises)
          × IsValid q.running_tasks
          × (0 < q.running_tasks.capacity)
          × (contains id (key_list q.running_tasks) ≡ true)
    served p own scope name id args ms c topic found =
        let r = call_request own name id args in
        let (q, e, m, same) = try_handle-fresh p scope r c.valid c.room c.fresh in
        let done = handle-call p scope r ms refl topic found in
        (
          q,
          e,
          ap (λ (x : Process S). x.user) same ∙ ap (λ (x : Process S). x.user) done,
          ap (λ (x : Process S). x.outbox) same ∙ ap (λ (x : Process S). x.outbox) done,
          ap (λ (x : Process S). x.cells) same ∙ ap (λ (x : Process S). x.cells) done,
          ap (λ (x : Process S). x.promises) same ∙ ap (λ (x : Process S). x.promises) done,
          m.valid,
          omega (arith, m.capacity, c.room),
          contains_of_take id 1 (key_list q.running_tasks) (m.recent.0),
        )

    -- A response for a promise that is waited for resolves it, and only the table forgets it.
    pub resolved :
        (p : Process S) (scope : String) (r : RpRequest) (out : Outcome) (n : ℕ)
        → CanHandle p r.rpc_id
        → r.rpc_id ≢ ""
        → Assoc.find p.promises r.rpc_id ≡ some n
        → (q : Process S) × (try_handle_request p scope (response r out) ≡ some q)
          × (q.cells n ≡ Cell.value (answer_of out))
          × (Assoc.find q.promises r.rpc_id ≡ none)
          × (q.user ≡ p.user)
    unfolding set_cell
    resolved p scope r out n c id waits =
        let (q, e, m, same) = try_handle-fresh p scope (response r out) c.valid c.room c.fresh in
        let done = handle-response p scope r out n id waits in
        (
          q,
          e,
          ap (λ (x : Process S). x.cells n) same
              ∙ ap (λ (x : Process S). x.cells n) done
              ∙ ground arith,
          ap (λ (x : Process S). Assoc.find x.promises r.rpc_id) same
              ∙ ap (λ (x : Process S). Assoc.find x.promises r.rpc_id) done
              ∙ ground (arith, find-erase p.promises r.rpc_id r.rpc_id, eq_iff r.rpc_id r.rpc_id),
          ap (λ (x : Process S). x.user) same ∙ ap (λ (x : Process S). x.user) done,
        )
