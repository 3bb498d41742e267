-- ===== src/Rpc/Custom.antt =====
-- The remote procedures that the engine defines: CustomRPCTemplate (system/include/CustomRPC.hpp), the
-- delegates that call methods of an object (system/include/CRPC.hpp), and the RPC interface for the
-- engine (system/common_src/exports.cpp). A function of the engine is a number, and `called` lists its
-- runs.
pub mod Laws
use celte_system.Prelude.{
  ℕ, Bool, true, false, String, List, [], ◌∷◌, ◌++◌, Option, none, some, eqb, leb, is_some,
  if◌then◌else◌, ◌==◌, ◌&&◌,
}
use celte_system.Prelude.Assoc
use celte_system.Prelude.Assoc.{Assoc}
use celte_system.Prelude.HashMap.{HashMap}
use celte_system.Prelude.Json.{Json, Value, null}
use celte_system.Rpc.Stub.Defs.{Process, Handler, Outcome, register_method}
use celte_system.Rpc.Builder.{
  Writing, Effect, on_peer, on_scope, on_fail_log_error, fire_and_forget, type_name,
}
use celte_system.Topics

-- An object that derives from CustomRPCTemplate.
pub record CustomRpc : Type 0 where
  pub rpcs : Assoc ℕ
  pub called : List (ℕ × String)

-- RegisterRPC: the first function of a name stays.
unfoldable pub register_rpc : CustomRpc → String → ℕ → CustomRpc
register_rpc c name func = elim (Assoc.find c.rpcs name) [
  | none ↦ record c { rpcs = Assoc.put c.rpcs name func }
  | some _ ↦ c
]

-- Handler, which is RPCHandler of entities, grapes, the global object and the peer service.
unfoldable pub rpc_handler : String → String → CustomRpc → CustomRpc
rpc_handler name args c = elim (Assoc.find c.rpcs name) [
  | none ↦ c
  | some func ↦ record c { called = c.called ++ ((func, args) ∷ []) }
]

-- The numbers of the filters: 0 is for all peers, 1 for servers, from 2 on for clients. A negative
-- number, which nobody accepts, is not modelled.
unfoldable filter_accepts : (server : Bool) → ℕ → Bool
filter_accepts server filter =
    if eqb filter 0 then true else if server then eqb filter 1 else leb 2 filter

-- RegisterGlobalRPC, RegisterGrapeRPC and RegisterEntityRPC on the object that they look up.
unfoldable register_filtered : (server : Bool) → ℕ → CustomRpc → String → ℕ → CustomRpc
register_filtered server filter c name func =
    if filter_accepts server filter then register_rpc c name func else c

-- RegisterClientRPC
unfoldable register_client_rpc :
    (client_mode_enabled : Bool) (own_uuid client_id : String) → CustomRpc → String → ℕ → CustomRpc
register_client_rpc client_mode_enabled own_uuid client_id c name func =
    if client_mode_enabled && (own_uuid == client_id) then register_rpc c name func else c

module _ ⦃h : HashMap⦄ ⦃j : Json⦄ where
  -- FunctionClassifier<void, Args>::build_delegate for a method of two texts that does not throw;
  -- `get_to` is `none` where json::get_to throws, and `what` is then the text of the exception.
  unfoldable pub build_delegate :
      {S : Type 0}
      → (Value → Option (String × String))
      → (what : Value → String) → (String → String → S → S)
      → Handler S
  build_delegate get_to what func jargs st = elim (get_to jargs) [
    | none ↦ (st, Outcome.json_error (what jargs))
    | some (a, b) ↦ (func a b st, Outcome.returns null)
  ]

  -- RPCHandlerReactor::subscribe of the class.
  unfoldable pub subscribe :
      (get_to : Value → Option (String × String)) (what : Value → String) (bound_class : String)
      → Process CustomRpc
      → String
      → Process CustomRpc
  subscribe get_to what bound_class p topic =
      register_method p topic (type_name bound_class "RPCHandler")
        (build_delegate get_to what rpc_handler)

  -- The callers, with the answer of the registries to their guard; `serialize` is __serialize__ of
  -- the name and the arguments, `rpc_id` the uuid.
  module _ {S : Type 0} (serialize : String → String → String) (w : Writing)
      (default_scope : String) where
    unfoldable pub call_rpc :
        String → Bool → String → Process S → String → String → String → Process S × Effect
    call_rpc bound_class is_private id p rpc_id name args =
        let target = if is_private then on_peer default_scope id else on_scope default_scope id in
        fire_and_forget (on_fail_log_error target) w p (type_name bound_class "RPCHandler") rpc_id
          (serialize name args)

    unfoldable pub call_global_rpc : Process S → String → String → String → Process S × Effect
    call_global_rpc p rpc_id name args =
        call_rpc "Global" false (Topics.global_rpc default_scope) p rpc_id name args

    unfoldable call_grape_rpc :
        Bool → Bool → String → Process S → String → String → String → Process S × Effect
    call_grape_rpc grape_exists is_private grape_id p rpc_id name args =
        if grape_exists
        then call_rpc "Grape" is_private grape_id p rpc_id name args
        else (p, Effect.nothing)

    unfoldable call_entity_rpc :
        Bool → Bool → Bool → String → Process S → String → String → String → Process S × Effect
    call_entity_rpc is_registered is_locally_owned is_private entity_id p rpc_id name args =
        if is_registered && is_locally_owned
        then call_rpc "Entity" is_private entity_id p rpc_id name args
        else (p, Effect.nothing)

    unfoldable call_client_rpc :
        (server : Bool) → String → Process S → String → String → String → Process S × Effect
    call_client_rpc server client_id p rpc_id name args =
        if server
        then call_rpc "PeerService" true client_id p rpc_id name args
        else (p, Effect.nothing)
