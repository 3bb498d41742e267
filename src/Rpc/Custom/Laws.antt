-- ===== src/Rpc/Custom/Laws.antt =====
-- Calls of the functions that the engine registered, from the caller's interface to the run of the
-- function (system/common_src/exports.cpp, system/include/CustomRPC.hpp).
use Prim.Native.String.{◌++◌ as ◌++ₛ◌, count}
use Prim.Native.Nat.{ℕ}
use text.Mathlib.TextLemmas.{length-append}
use celte_system.Prelude.{
  ◌≡◌, ◌≢◌, refl, ap, ◌∙◌, Bool, true, false, String, [], ◌∷◌, ◌++◌, Option, none, some,
  if◌then◌else◌, eq_iff, arith,
}
use celte_system.Prelude.Assoc
use celte_system.Prelude.Assoc.{Assoc, find-put}
use celte_system.Prelude.HashMap.{HashMap, find, put, find-put as find-put_map}
use celte_system.Prelude.Json.{Json, Value, dump, parse-dump}
use celte_system.Rpc.Stub.Defs.{
  Process, Handler, RpRequest, register_method, try_handle_request, handle, handle_call, invoke,
  respond,
}
use celte_system.Rpc.Stub.Once.{try_handle-fresh}
use celte_system.Rpc.Stub.Answers.{CanHandle}
use celte_system.Rpc.Builder.{
  Writing, Effect, on_peer, on_scope, on_fail_log_error, fire_and_forget, stub_fire_and_forget,
  report, type_name, forget_request,
}
use celte_system.Rpc.Custom.{
  CustomRpc, register_rpc, rpc_handler, build_delegate, subscribe, call_rpc, call_global_rpc,
}
use celte_system.Topics

-- Of two registrations of a new name, the first is the one that is run.
rpc_handler-register_rpc :
    (c : CustomRpc) (name args : String) (f g : ℕ)
    → Assoc.find c.rpcs name ≡ none
    → (rpc_handler name args (register_rpc (register_rpc c name f) name g)).called
      ≡ c.called ++ ((f, args) ∷ [])
unfolding rpc_handler register_rpc
rpc_handler-register_rpc c name args f g fresh =
    ground (arith, find-put c.rpcs name name f, eq_iff name name)

abbrev pub topic_of : Bool → String → String → String
topic_of is_private d id = if is_private then Topics.peer d id else Topics.rpc d id

module _ ⦃h : HashMap⦄ ⦃j : Json⦄ where
  module _ {S : Type 0} where
    call_rpc-sends :
        (serialize : String → String → String) (d cls : String) (is_private : Bool) (id : String)
        (p : Process S) (rpc_id name args : String)
        → call_rpc serialize Writing.accepted d cls is_private id p rpc_id name args ≡ (
          record p {
            outbox =
                p.outbox
                ++ ((
                  topic_of is_private d id,
                  forget_request (type_name cls "RPCHandler") rpc_id (serialize name args),
                )
                    ∷ []);
          },
          Effect.nothing,
        )
    unfolding call_rpc fire_and_forget stub_fire_and_forget report on_fail_log_error on_peer
        on_scope Topics.peer Topics.rpc
    call_rpc-sends serialize d cls true id p rpc_id name args = refl
    call_rpc-sends serialize d cls false id p rpc_id name args = refl

    invoke-forget :
        (method rpc_id : String) (v : Value) (f : Handler S) (st : S)
        → invoke ((method, f) ∷ []) (forget_request method rpc_id (dump v)) st ≡ f v st
    unfolding invoke Assoc.find
    invoke-forget method rpc_id v f st = ground (arith, eq_iff method method, parse-dump v)

    -- A request without a response topic runs its method on the state and does nothing else.
    handle-forget :
        (p : Process S) (topic method rpc_id : String) (v : Value) (f : Handler S)
        → find p.methods topic ≡ some ((method, f) ∷ [])
        → handle topic (forget_request method rpc_id (dump v)) p
          ≡ record p { user = (f v p.user).0 }
    unfolding handle handle_call respond
    handle-forget p topic method rpc_id v f served =
        rw (served, handle_call) (rw (invoke-forget method rpc_id v f p.user) refl)

  module _ (get_to : Value → Option (String × String)) (what : Value → String)
      (pair : String → String → Value)
      (get_to-pair : (a b : String) → get_to (pair a b) ≡ some (a, b)) where
    abbrev subscribed : Process CustomRpc → String → String → Process CustomRpc
    subscribed p cls topic = record p {
      methods =
          put p.methods topic
            ((type_name cls "RPCHandler", build_delegate get_to what rpc_handler) ∷ []);
    }

    subscribe-fresh :
        (p : Process CustomRpc) (cls topic : String)
        → find p.methods topic ≡ none
        → subscribe get_to what cls p topic ≡ subscribed p cls topic
    unfolding subscribe register_method
    subscribe-fresh p cls topic fresh = ground (arith, fresh)

    handle-subscribed :
        (p : Process CustomRpc) (cls topic rpc_id name args : String)
        → handle topic
            (forget_request (type_name cls "RPCHandler") rpc_id (dump (pair name args)))
            (subscribed p cls topic)
          ≡ record (subscribed p cls topic) { user = rpc_handler name args p.user }
    unfolding build_delegate
    handle-subscribed p cls topic rpc_id name args =
        handle-forget (subscribed p cls topic) topic (type_name cls "RPCHandler") rpc_id
          (pair name args) (build_delegate get_to what rpc_handler)
          (ground (
            arith,
            eq_iff topic topic,
            find-put_map p.methods topic topic
                ((type_name cls "RPCHandler", build_delegate get_to what rpc_handler) ∷ []),
          ))
        ∙ rw (get_to-pair name args, build_delegate) refl

    -- Two functions are registered under a new name of an object whose class is subscribed on the
    -- topic of its id, for private or for public calls. A call of that name to that id, where the
    -- producer accepts it, sends one message, and the process of the object, which has not seen the
    -- id of the request, runs the first function once with the arguments and answers nothing.
    pub call_rpc-register_rpc :
        {S : Type 0} (a : Process S) (b : Process CustomRpc) (d cls id : String) (is_private : Bool)
        (rpc_id name args : String) (f g : ℕ) (c : CustomRpc)
        → Assoc.find c.rpcs name ≡ none
        → b.user ≡ register_rpc (register_rpc c name f) name g
        → find b.methods (topic_of is_private d id) ≡ none
        → CanHandle b rpc_id
        → let topic = topic_of is_private d id in
          let serialize : String → String → String = λ x y. dump (pair x y) in
          (r : RpRequest) × (call_rpc serialize Writing.accepted d cls is_private id a rpc_id name
              args
            ≡ (record a { outbox = a.outbox ++ ((topic, r) ∷ []) }, Effect.nothing))
          × (b' : Process CustomRpc) × (try_handle_request
                (subscribe get_to what cls b topic)
                topic
                r
              ≡ some b')
          × (b'.user.called ≡ c.called ++ ((f, args) ∷ []))
          × (b'.outbox ≡ b.outbox)
    call_rpc-register_rpc a b d cls id is_private rpc_id name args f g c fresh user unserved can =
        let topic = topic_of is_private d id in
        let r = forget_request (type_name cls "RPCHandler") rpc_id (dump (pair name args)) in
        let q = subscribed b cls topic in
        let (b', e, _, same) = try_handle-fresh q topic r can.valid can.room can.fresh in
        let done = handle-subscribed b cls topic rpc_id name args in
        (
          r,
          call_rpc-sends (λ x y. dump (pair x y)) d cls is_private id a rpc_id name args,
          b',
          ap (λ x. try_handle_request x topic r) (subscribe-fresh b cls topic unserved) ∙ e,
          ap (λ (x : Process CustomRpc). x.user.called)
                (same
                  ∙ ap (λ (x : Process CustomRpc). record x { running_tasks = b'.running_tasks })
                      done)
              ∙ ap (λ x. (rpc_handler name args x).called) user
              ∙ rpc_handler-register_rpc c name args f g fresh,
          ap (λ (x : Process CustomRpc). x.outbox)
              (same
                ∙ ap (λ (x : Process CustomRpc). record x { running_tasks = b'.running_tasks })
                    done),
        )

module _ ⦃h : HashMap⦄ ⦃j : Json⦄ {S : Type 0} where
  -- A call of a global procedure goes to a topic that is not the one on which the global object is
  -- subscribed, in every session.
  pub call_global_rpc-elsewhere :
      (serialize : String → String → String) (d : String) (a : Process S)
      (rpc_id name args : String)
      → (topic : String) × (r : RpRequest) × (call_global_rpc serialize Writing.accepted d a rpc_id
            name args
          ≡ (record a { outbox = a.outbox ++ ((topic, r) ∷ []) }, Effect.nothing))
        × (topic ≢ Topics.global_rpc d)
  unfolding call_global_rpc Topics.rpc Topics.global_rpc
  call_global_rpc-elsewhere serialize d a rpc_id name args = (
    Topics.rpc d (Topics.global_rpc d),
    forget_request (type_name "Global" "RPCHandler") rpc_id (serialize name args),
    call_rpc-sends serialize d "Global" false (Topics.global_rpc d) a rpc_id name args,
    λ e. omega (
      arith,
      ap count e,
      length-append (d ++ₛ (d ++ₛ "global.rpc")) ".rpc",
      length-append d (d ++ₛ "global.rpc"),
      length-append d "global.rpc",
    ),
  )
