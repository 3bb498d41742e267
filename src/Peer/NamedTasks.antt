-- ===== src/Peer/NamedTasks.antt =====
-- The named tasks that a server pushes to the engine of the owner of a grape: CMIInstantiate and
-- ProxyTakeAuthority of Grape (system/common_src/Grape.cpp, system/common_src/AuthorityTransfer.cpp)
-- with the functions of the engine that call and pop them (system/common_src/exports.cpp).
use celte_system.Prelude.{
  ◌≡◌, ap, ◌∙◌, Bool, true, String, [], ◌∷◌, ◌++◌, Option, some, arith, refl, eq_iff,
}
use celte_system.Prelude.Assoc
use celte_system.Prelude.Assoc.{Assoc}
use celte_system.Prelude.HashMap.{HashMap, find, find-put}
use celte_system.Prelude.Json.{Json}
use celte_system.Rpc.Builder.{
  Writing, Effect, on_peer, on_fail_log_error, with_timeout, retry, fire_and_forget,
  call_fire_and_forget, stub_fire_and_forget, report, type_name, forget_request,
}
use celte_system.Rpc.Stub.Defs.{Process, RpRequest, Handler, try_handle_request}
use celte_system.Rpc.Stub.Answers.{CanHandle}
use celte_system.Rpc.Typed.{
  JsonArrays, Codec, Params, param, end, Tuple, void, typed, Method, completes, serialize,
  build_delegate,
}
use celte_system.Rpc.Typed.Forget.{try_handle-forget}
use celte_system.Peer.Grapes.{
  Args, Grape, Grapes, push_named_task, with_grape, push_named_task_to_engine,
  pop_named_task_from_engine,
}
use celte_system.Peer.Grapes.Laws.{named_tasks, push_named_task-named_tasks, pop-nonempty}
use celte_system.Topics

module _ ⦃j : Json⦄ (text : Codec String) where
  abbrev pub three_texts : Params
  three_texts = param String text (param String text (param String text end))

  abbrev pub four_texts : Params
  four_texts = param String text three_texts

module _ ⦃h : HashMap⦄ ⦃j : Json⦄ ⦃arrays : JsonArrays⦄ (text : Codec String) where
  -- Grape::CMIInstantiate of the grape `id`.
  unfoldable pub cmi_instantiate : (id : String) → Method Grapes (four_texts text) void
  cmi_instantiate id (cmi_id, (prefab_id, (payload, (client_id, rest)))) gs = (
    push_named_task_to_engine gs id "CMIInstantiate"
        (cmi_id ∷ prefab_id ∷ payload ∷ client_id ∷ []),
    completes tt,
  )

  -- Grape::ProxyTakeAuthority, with __rp_proxyTakeAuthority.
  unfoldable pub proxy_take_authority :
      (bool : Codec Bool) → (id : String) → Method Grapes (three_texts text) (typed Bool bool)
  proxy_take_authority bool id (entity_id, (from_container_id, (payload, rest))) gs = (
    push_named_task_to_engine gs id "proxyTakeAuthority"
        (entity_id ∷ from_container_id ∷ payload ∷ []),
    completes true,
  )

  module _ {S : Type 0} (default_scope : String) where
    -- CallCMIInstantiate of the engine.
    unfoldable pub call_cmi_instantiate :
        Writing
        → Process S
        → (rpc_id grape_id : String) → Tuple (four_texts text)
        → Process S × Effect
    call_cmi_instantiate w p rpc_id grape_id args =
        fire_and_forget (on_fail_log_error (on_peer default_scope grape_id)) w p
          (type_name "Grape" "CMIInstantiate") rpc_id (serialize (four_texts text) args)

    -- AuthorityTransfer::ProxyTakeAuthority
    unfoldable call_proxy_take_authority :
        Writing
        → Process S
        → (rpc_id grape_id : String) → Tuple (three_texts text)
        → Process S × Effect
    call_proxy_take_authority w p rpc_id grape_id args =
        call_fire_and_forget
          (retry (with_timeout (on_fail_log_error (on_peer default_scope grape_id)) 1000) 3) w p
          (type_name "Grape" "ProxyTakeAuthority") rpc_id (serialize (three_texts text) args)

module _ ⦃h : HashMap⦄ where
  -- PopCMIInstantiate and PopAssignmentByProxy of the engine.
  unfoldable pub pop_cmi_instantiate : Grapes → String → Grapes × Option Args
  pop_cmi_instantiate gs grape_id = pop_named_task_from_engine gs grape_id "CMIInstantiate"

  unfoldable pop_assignment_by_proxy : Grapes → String → Grapes × Option Args
  pop_assignment_by_proxy gs grape_id = pop_named_task_from_engine gs grape_id "proxyTakeAuthority"

  pop-push_named_task_to_engine :
      (gs : Grapes) (grape_id name : String) (args : Args) (g : Grape)
      → find gs.grapes grape_id ≡ some g
      → named_tasks g name ≡ []
      → (pop_named_task_from_engine
          (push_named_task_to_engine gs grape_id name args)
          grape_id
          name).1
        ≡ some args
  unfolding pop_named_task_from_engine push_named_task_to_engine with_grape
  pop-push_named_task_to_engine gs grape_id name args g known empty =
      let g' = push_named_task g name args in
      let waiting : named_tasks g' name ≡ args ∷ [] =
        ground (arith, push_named_task-named_tasks g name name args, eq_iff name name) in
      let (popped, others) = pop-nonempty g' name args [] waiting in
      ground (arith, find-put gs.grapes grape_id grape_id g', eq_iff grape_id grape_id, popped)

module _ ⦃h : HashMap⦄ ⦃j : Json⦄ ⦃arrays : JsonArrays⦄ (text : Codec String) {S : Type 0}
    (default_scope : String) (a : Process S) (b : Process Grapes) (rpc_id grape_id : String)
    (ms : Assoc (Handler Grapes)) (g : Grape) (new : CanHandle b rpc_id)
    (served : find b.methods (Topics.peer default_scope grape_id) ≡ some ms)
    (known : find b.user.grapes grape_id ≡ some g) where
  -- Where the server of a grape knows the grape, serves CMIInstantiate for it and has no such task
  -- waiting, and it is new to the id of the call: one message leaves the peer whose engine calls
  -- CallCMIInstantiate, and after the server got it, without an answer, its engine pops exactly the
  -- arguments of that call.
  pub pop-call_cmi_instantiate :
      (cmi_id prefab_id payload client_id : String)
      → Assoc.find ms (type_name "Grape" "CMIInstantiate")
        ≡ some (build_delegate (four_texts text) void (cmi_instantiate text grape_id))
      → named_tasks g "CMIInstantiate" ≡ []
      → let called =
          call_cmi_instantiate text default_scope Writing.accepted a rpc_id grape_id
            (cmi_id, (prefab_id, (payload, (client_id, tt)))) in
        (request : RpRequest) × (b' : Process Grapes) × (called.0.outbox
          ≡ a.outbox ++ ((Topics.peer default_scope grape_id, request) ∷ []))
        × (try_handle_request b (Topics.peer default_scope grape_id) request ≡ some b')
        × (b'.outbox ≡ b.outbox)
        × ((pop_cmi_instantiate b'.user grape_id).1
            ≡ some (cmi_id ∷ prefab_id ∷ payload ∷ client_id ∷ []))
  unfolding call_cmi_instantiate fire_and_forget report stub_fire_and_forget on_fail_log_error
      on_peer Topics.peer pop_cmi_instantiate cmi_instantiate
  pop-call_cmi_instantiate cmi_id prefab_id payload client_id method empty =
      let args : Tuple (four_texts text) = (cmi_id, (prefab_id, (payload, (client_id, tt)))) in
      let name = type_name "Grape" "CMIInstantiate" in
      let (b', e, user, silent) =
        try_handle-forget (four_texts text) void (cmi_instantiate text grape_id) b
          (Topics.peer default_scope grape_id) name rpc_id args ms new served method in
      (
        forget_request name rpc_id (serialize (four_texts text) args),
        b',
        refl,
        e,
        silent,
        ap (λ gs. (pop_named_task_from_engine gs grape_id "CMIInstantiate").1) user
            ∙ pop-push_named_task_to_engine b.user grape_id "CMIInstantiate"
                (cmi_id ∷ prefab_id ∷ payload ∷ client_id ∷ []) g known empty,
      )
