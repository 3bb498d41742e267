-- ===== src/Peer/Disconnect.antt =====
-- How a server disconnects a client: ForceDisconnectClient of Runtime (system/common_src/Runtime.cpp) with
-- the methods of Grape that are called (system/common_src/Grape.cpp) and the hooks of the engine
-- (system/include/HookTable.hpp). Whether the engine has set a hook is an argument: one that is not set
-- throws.
use celte_system.Prelude.{
  ◌≡◌, ap, ◌∙◌, refl, Bool, true, String, List, [], ◌∷◌, ◌++◌, none, some, if◌then◌else◌, ◌==◌,
  arith,
}
use celte_system.Prelude.Assoc
use celte_system.Prelude.Assoc.{Assoc}
use celte_system.Prelude.HashMap.{HashMap, find, find-erase}
use celte_system.Prelude.Json.{Json}
use celte_system.Rpc.Builder.{
  Writing, on_scope, on_fail_log_error, fire_and_forget, stub_fire_and_forget, report, type_name,
  forget_request,
}
use celte_system.Rpc.Stub.Defs.{Process, RpRequest, Handler, try_handle_request}
use celte_system.Rpc.Stub.Answers.{CanHandle}
use celte_system.Rpc.Typed.{
  JsonArrays, Codec, Params, param, end, typed, Method, Completion, completes, throws_std_error,
  serialize, build_delegate,
}
use celte_system.Rpc.Typed.Forget.{try_handle-forget}
use celte_system.Runtime.Connect.{force_disconnect_client}
use celte_system.Peer.Clients.{Clients, forget_client}
use celte_system.Topics

-- A call of the hooks of the engine about a client.
pub data ClientHook : Type 0 where
  on_client_request_disconnect : (client_id : String) → ClientHook
  on_client_disconnect : (client_id payload : String) → ClientHook

module _ ⦃h : HashMap⦄ where
  -- The clients of a peer service, and the hooks that were called.
  pub record Side : Type 0 where
    pub clients : Clients
    pub hooks : List ClientHook

  -- A hook of HookTable: UNIMPLEMENTED throws where the engine has not set it.
  unfoldable pub call_hook : (is_set : Bool) → Side → ClientHook → Side × Completion Bool
  call_hook is_set s hook =
      if is_set
      then (record s { hooks = s.hooks ++ (hook ∷ []) }, completes true)
      else (s, throws_std_error "Missing hook")

  -- Grape::RequestClientDisconnect
  unfoldable request_client_disconnect : (is_set : Bool) → Side → String → Side × Completion Bool
  request_client_disconnect is_set s client_id =
      call_hook is_set s (on_client_request_disconnect client_id)

  -- Grape::__cleanupClientData
  unfoldable pub cleanup_client_data : (server : Bool) → Side → String → Side
  cleanup_client_data server s client_id =
      if server then record s { clients = forget_client s.clients client_id } else s

  -- Grape::ExecClientDisconnect: where the hook throws, the client is not forgotten.
  unfoldable pub exec_client_disconnect :
      (server is_set : Bool) → Side → (client_id payload : String) → Side × Completion Bool
  exec_client_disconnect server is_set s client_id payload =
      let (called, done) = call_hook is_set s (on_client_disconnect client_id payload) in
      if is_set then (cleanup_client_data server called client_id, done) else (called, done)

module _ ⦃h : HashMap⦄ ⦃j : Json⦄ ⦃arrays : JsonArrays⦄ (text : Codec String)
    (bool : Codec Bool) where
  abbrev pub two_texts : Params
  two_texts = param String text (param String text end)

  -- The method that the reactor of ExecClientDisconnect calls.
  unfoldable pub disconnect_method :
      (server is_set : Bool) → Method Side two_texts (typed Bool bool)
  disconnect_method server is_set (client_id, (payload, rest)) s =
      exec_client_disconnect server is_set s client_id payload

  module _ {S : Type 0} (default_scope : String) (a : Process S) (b : Process Side)
      (rpc_id grape_id : String) (ms : Assoc (Handler Side)) (is_set : Bool)
      (new : CanHandle b rpc_id)
      (served : find b.methods (Topics.rpc default_scope grape_id) ≡ some ms)
      (method : Assoc.find ms (type_name "Grape" "ExecClientDisconnect")
        ≡ some (build_delegate two_texts (typed Bool bool) (disconnect_method true is_set))) where
    -- A server forces a client out, and sends one message. A server that serves the grape and is new
    -- to the id of the call gets it and sends no answer: where its engine has set the hook, the hook
    -- is called once, with the payload, the client is forgotten and the other clients stay; where it
    -- has not, nothing changes.
    pub force_disconnect_client-find :
        (client_id payload other : String)
        → let serialized = λ (x y : String). serialize two_texts (x, (y, tt)) in
          let sent =
            force_disconnect_client serialized Writing.accepted default_scope grape_id rpc_id
              client_id payload a in
          (request : RpRequest) × (b' : Process Side) × (sent.0.outbox
            ≡ a.outbox ++ ((Topics.rpc default_scope grape_id, request) ∷ []))
          × (try_handle_request b (Topics.rpc default_scope grape_id) request ≡ some b')
          × (b'.outbox ≡ b.outbox)
          × (b'.user.hooks ≡ (
              if is_set
              then b.user.hooks ++ (on_client_disconnect client_id payload ∷ [])
              else b.user.hooks))
          × (find b'.user.clients.clients other ≡ (
              if is_set
              then (if client_id == other then none else find b.user.clients.clients other)
              else find b.user.clients.clients other))
    unfolding force_disconnect_client fire_and_forget report stub_fire_and_forget on_fail_log_error
        on_scope Topics.rpc disconnect_method exec_client_disconnect call_hook cleanup_client_data
        forget_client
    force_disconnect_client-find client_id payload other =
        let name = type_name "Grape" "ExecClientDisconnect" in
        let (b', e, user, silent) =
          try_handle-forget two_texts (typed Bool bool) (disconnect_method true is_set) b
            (Topics.rpc default_scope grape_id) name rpc_id (client_id, (payload, tt)) ms new served
            method in
        (
          forget_request name rpc_id (serialize two_texts (client_id, (payload, tt))),
          b',
          refl,
          e,
          silent,
          ap (λ (s : Side). s.hooks) user ∙ ground arith,
          ap (λ (s : Side). find s.clients.clients other) user
              ∙ ground (arith, find-erase b.user.clients.clients client_id other),
        )
