-- ===== src/Rpc/Stub/Defs.antt =====
-- RPCCallerStub and RPCCalleeStub (system/include/CRPC.hpp, system/common_src/CRPC.cpp): one process
-- with the methods that it registered, the ids that it has seen, the promises that it waits for, and
-- the messages that it handed to its producers. Handlers act on a state of type S. A promise is a
-- cell with a number, since the future keeps it alive after the table of promises forgot it.
use celte_system.Prelude.{
  ℕ, suc, Bool, true, false, not, String, List, [], ◌∷◌, ◌++◌, Option, none, some, eqb,
  if◌then◌else◌, ◌==◌,
}
use celte_system.Prelude.Assoc
use celte_system.Prelude.Assoc.{Assoc}
use celte_system.Prelude.HashMap.{HashMap, Map, find, put}
use celte_system.Prelude.Json.{Json, Value, null, of_string, dump, parse, parse_error}
use celte_system.Rpc.LruSet.Defs.{LruSet, run}

-- req::RPRequest
pub record RpRequest : Type 0 where
  pub name : String
  pub responds_to : String
  pub response_topic : String
  pub rpc_id : String
  pub args : String
  pub error_status : Bool

-- The request of a call, with the topic on which the caller listens for the answer.
abbrev pub call_request : String → String → String → String → RpRequest
call_request own_topic method_name rpc_id args = record {
  name = method_name;
  responds_to = "";
  response_topic = own_topic;
  rpc_id = rpc_id;
  args = args;
  error_status = false;
}

-- How a handler ends: with a value, or by an exception of one of the three kinds that are caught.
pub data Outcome ⦃j : Json⦄ : Type 0 where
  returns : Value → Outcome
  out_of_range json_error std_error : String → Outcome

pub data Cell ⦃j : Json⦄ : Type 0 where
  pending broken destroyed : Cell
  value : Value → Cell

module _ ⦃h : HashMap⦄ ⦃j : Json⦄ where
  abbrev pub Handler : Type 0 → Type 0
  Handler S = Value → S → S × Outcome

  pub record Process (S : Type 0) : Type 0 where
    pub methods : Map (Assoc (Handler S))
    pub running_tasks : LruSet
    pub promises : Assoc ℕ
    pub cells : ℕ → Cell
    pub next_cell : ℕ
    pub user : S
    pub outbox : List (String × RpRequest)

  -- The response carries the id of the call twice.
  abbrev pub response_request : RpRequest → Value → Bool → RpRequest
  response_request request response is_error = record {
    name = request.name;
    responds_to = request.rpc_id;
    response_topic = "";
    rpc_id = request.rpc_id;
    args = dump response;
    error_status = is_error;
  }

  -- The value of the response and whether it is an error.
  unfoldable pub response_of : Outcome → Value × Bool
  response_of (returns v) = (v, false)
  response_of (out_of_range e) = (of_string "method not found", true)
  response_of (json_error e) = (of_string e, true)
  response_of (std_error e) = (of_string e, true)

  module _ {S : Type 0} where
    unfoldable pub set_cell : Process S → ℕ → Cell → Process S
    set_cell p n c = record p { cells = λ i. if eqb i n then c else p.cells i }

    -- ApachePulsarRPCProducerPool::write, seen from the stubs.
    abbrev pub write : Process S → String → RpRequest → Process S
    write p topic request = record p { outbox = p.outbox ++ (topic, request) ∷ [] }

    -- RPCCalleeStub::register_method: a name that is there keeps its delegate.
    unfoldable pub register_method : Process S → String → String → Handler S → Process S
    register_method p scope name delegate = elim (find p.methods scope) [
      | none ↦ record p { methods = put p.methods scope ((name, delegate) ∷ []) }
      | some ms ↦ elim (Assoc.find ms name) [
        | none ↦ record p { methods = put p.methods scope (Assoc.put ms name delegate) }
        | some _ ↦ p
      ]
    ]

    unfoldable pub unregister_method : Process S → String → String → Process S
    unregister_method p scope name = elim (find p.methods scope) [
      | none ↦ p
      | some ms ↦ record p { methods = put p.methods scope (Assoc.erase ms name) }
    ]

    -- RPCCallerStub::call: a new promise under the id, and the request.
    unfoldable pub call : Process S → String → String → String → String → String → Process S × ℕ
    call p own_topic scope method_name rpc_id args = (
      write
          (record (set_cell p p.next_cell pending) {
            promises = Assoc.put p.promises rpc_id p.next_cell;
            next_cell = suc p.next_cell;
          })
          scope (call_request own_topic method_name rpc_id args),
      p.next_cell,
    )

    unfoldable pub solve_promise : Process S → String → Value → Process S
    solve_promise p rpc_id response = elim (Assoc.find p.promises rpc_id) [
      | none ↦ p
      | some n ↦ record (set_cell p n (value response)) { promises = Assoc.erase p.promises rpc_id }
    ]

    unfoldable forget_promise : Process S → String → Process S
    forget_promise p rpc_id = elim (Assoc.find p.promises rpc_id) [
      | none ↦ p
      | some n ↦ record (set_cell p n destroyed) { promises = Assoc.erase p.promises rpc_id }
    ]

    unfoldable pub handle_response : Process S → RpRequest → Process S
    handle_response p request =
        if request.error_status
        then solve_promise p request.responds_to null
        else elim (parse request.args) [
          | none ↦ solve_promise p request.responds_to null
          | some args ↦ solve_promise p request.responds_to args
        ]

    -- The body of the try block: at(name), parse(args), handler(args).
    unfoldable pub invoke : Assoc (Handler S) → RpRequest → S → S × Outcome
    invoke ms request st = elim (Assoc.find ms request.name) [
      | none ↦ (st, out_of_range "at")
      | some handler ↦ elim (parse request.args) [
        | none ↦ (st, json_error (parse_error request.args))
        | some args ↦ handler args st
      ]
    ]

    unfoldable pub respond : Process S → RpRequest → Value × Bool → Process S
    respond p request (response, is_error) =
        if request.response_topic == ""
        then p
        else write p request.response_topic (response_request request response is_error)

    unfoldable pub handle_call : String → RpRequest → Process S → Process S
    handle_call scope request p = elim (find p.methods scope) [
      | none ↦ p
      | some ms ↦
          let (st, out) = invoke ms request p.user in
          respond (record p { user = st }) request (response_of out)
    ]

    -- The task that try_handle_request hands to the task manager.
    unfoldable pub handle : String → RpRequest → Process S → Process S
    handle scope request p =
        if not (request.responds_to == "")
        then handle_response p request
        else handle_call scope request p

    unfoldable pub try_handle_request : Process S → String → RpRequest → Option (Process S)
    try_handle_request p scope request =
        elim (run p.running_tasks request.rpc_id (handle scope request) p) [
          | none ↦ none
          | some (t, q, _) ↦ some (record q { running_tasks = t })
        ]
