-- ===== src/Rpc/Typed/Forget.antt =====
-- A typed call that waits for no answer (system/include/CRPC.hpp, system/common_src/CRPC.cpp).
use celte_system.Prelude.{◌≡◌, ap, ◌∙◌, String, some}
use celte_system.Prelude.Assoc
use celte_system.Prelude.Assoc.{Assoc}
use celte_system.Prelude.HashMap.{HashMap, find}
use celte_system.Prelude.Json.{Json}
use celte_system.Rpc.Builder.{forget_request}
use celte_system.Rpc.Stub.Defs.{
  Process, Handler, Outcome, handle, handle_call, respond, try_handle_request,
}
use celte_system.Rpc.Stub.Answers.{CanHandle}
use celte_system.Rpc.Stub.Once.{try_handle-fresh}
use celte_system.Rpc.Typed.{JsonArrays, Params, Tuple, RetType, Method, serialize, build_delegate}
use celte_system.Rpc.Typed.Laws.{invoke-typed}

module _ ⦃j : Json⦄ ⦃arrays : JsonArrays⦄ ⦃h : HashMap⦄ {S : Type 0} where
  handle-forget :
      (ps : Params) (r : RetType) (func : Method S ps r) (p : Process S) (scope name id : String)
      (args : Tuple ps) (ms : Assoc (Handler S))
      → find p.methods scope ≡ some ms
      → Assoc.find ms name ≡ some (build_delegate ps r func)
      → handle scope (forget_request name id (serialize ps args)) p
        ≡ record p { user = (func args p.user).0 }
  unfolding handle handle_call respond
  handle-forget ps r func p scope name id args ms found method =
      rw (found, handle_call, handle)
        (ap (λ (x : S × Outcome). record p { user = x.0 })
          (invoke-typed ps r func ms "" name id args p.user method))

  -- A process that is new to the id of such a call runs the method once on the arguments that the
  -- caller serialized, and sends nothing.
  pub try_handle-forget :
      (ps : Params) (r : RetType) (func : Method S ps r) (p : Process S) (scope name id : String)
      (args : Tuple ps) (ms : Assoc (Handler S))
      → CanHandle p id
      → find p.methods scope ≡ some ms
      → Assoc.find ms name ≡ some (build_delegate ps r func)
      → (q : Process S) × (try_handle_request p scope (forget_request name id (serialize ps args))
          ≡ some q)
        × (q.user ≡ (func args p.user).0)
        × (q.outbox ≡ p.outbox)
  try_handle-forget ps r func p scope name id args ms c found method =
      let (q, e, m, same) =
        try_handle-fresh p scope (forget_request name id (serialize ps args)) c.valid c.room
          c.fresh in
      let done = handle-forget ps r func p scope name id args ms found method in
      (
        q,
        e,
        ap (λ (x : Process S). x.user) same ∙ ap (λ (x : Process S). x.user) done,
        ap (λ (x : Process S). x.outbox) same ∙ ap (λ (x : Process S). x.outbox) done,
      )
