-- ===== src/Peer/Reactors.antt =====
-- The reactors that objects subscribe for their remote methods: REGISTER_RPC_REACTOR
-- (system/include/CRPC.hpp) with Grape::initRPCService (system/common_src/Grape.cpp),
-- Entity::initRPCService (system/common_src/ETTRegistry.cpp), the constructors and destructors of
-- Container (system/common_src/Container.cpp) and Global (system/common_src/GlobalRPC.cpp), and those
-- of PeerService (system/common_src/PeerService.cpp). An object is a number, its address, and the
-- delegate of its method of a name is an argument.
pub mod Laws
use celte_system.Prelude.{Bool, true, false, String, List, [], ◌∷◌, if◌then◌else◌, ◌&&◌, ℕ}
use celte_system.Prelude.HashMap.{HashMap}
use celte_system.Prelude.Json.{Json}
use celte_system.Rpc.Stub.Defs.{Process, Handler, register_method, unregister_method}
use celte_system.Rpc.Builder.{type_name}
use celte_system.Topics

-- The methods of a grape that its owner serves for others, and those that every peer serves.
abbrev pub grape_peer_methods : List String
grape_peer_methods =
    "GetExistingEntities" ∷ "GetExistingOwnedContainers" ∷ "SubscribeToContainer"
    ∷ "UnsubscribeFromContainer" ∷ "ProxyTakeAuthority" ∷ "RequestClientDisconnect" ∷ "Ping"
    ∷ "CMIInstantiate" ∷ "RPCHandler" ∷ []

abbrev pub grape_scope_methods : List String
grape_scope_methods = "RPCHandler" ∷ "ExecClientDisconnect" ∷ []

abbrev pub container_methods : List String
container_methods = "TakeAuthority" ∷ "DropAuthority" ∷ "DeleteEntity" ∷ []

abbrev pub server_methods : List String
server_methods = "AssignGrape" ∷ "RequestSpawnPosition" ∷ "AcceptNewClient" ∷ "RPCHandler" ∷ []

abbrev pub client_methods : List String
client_methods =
    "ForceConnectToNode" ∷ "SubscribeClientToContainer" ∷ "UnsubscribeClientFromContainer" ∷ "Ping"
    ∷ "RPCHandler" ∷ []

module _ ⦃h : HashMap⦄ ⦃j : Json⦄ {S : Type 0} (bind : ℕ → String → Handler S) where
  -- The reactor's subscribe: the method with this name of the object `instance`.
  unfoldable pub subscribe : (bound_class method_name : String) → Process S → String → ℕ → Process S
  subscribe bound_class method_name p topic instance_number =
      let name = type_name bound_class method_name in
      register_method p topic name (bind instance_number name)

  unfoldable pub subscribe_all :
      (bound_class : String) → List String → Process S → String → ℕ → Process S
  subscribe_all bound_class [] p topic instance_number = p
  subscribe_all bound_class (m ∷ ms) p topic instance_number =
      subscribe_all bound_class ms (subscribe bound_class m p topic instance_number) topic
        instance_number

  module _ (server : Bool) (default_scope : String) where
    -- Grape::initRPCService
    unfoldable pub init_grape :
        Process S → (id : String) → (is_locally_owned : Bool) → ℕ → Process S
    init_grape p id is_locally_owned instance_number =
        let owned =
          if server && is_locally_owned
          then subscribe_all "Grape" grape_peer_methods p (Topics.peer default_scope id)
              instance_number
          else p in
        subscribe_all "Grape" grape_scope_methods owned (Topics.rpc default_scope id)
          instance_number

    -- Entity::initRPCService
    unfoldable init_entity : Process S → (id : String) → (owned_here : Bool) → ℕ → Process S
    init_entity p id owned_here instance_number =
        let owned =
          if server && owned_here
          then subscribe "Entity" "RPCHandler" p (Topics.peer default_scope id) instance_number
          else p in
        subscribe "Entity" "RPCHandler" owned (Topics.rpc default_scope id) instance_number

    -- PeerService::__initPeerRPCs
    unfoldable pub init_peer : Process S → (uuid : String) → ℕ → Process S
    init_peer p uuid instance_number =
        if server
        then subscribe_all "PeerService" server_methods p (Topics.rpc default_scope uuid)
            instance_number
        else subscribe_all "PeerService" client_methods p (Topics.peer default_scope uuid)
            instance_number

  module _ (default_scope : String) where
    -- Container::__initRPCs
    unfoldable pub init_container : Process S → (id : String) → ℕ → Process S
    init_container p id instance_number =
        subscribe_all "Container" container_methods p (Topics.rpc default_scope id) instance_number

    -- Global::Global
    unfoldable pub init_global : Process S → ℕ → Process S
    init_global p instance_number =
        subscribe "Global" "RPCHandler" p (Topics.global_rpc default_scope) instance_number

module _ ⦃h : HashMap⦄ ⦃j : Json⦄ {S : Type 0} where
  -- The reactor's unsubscribe.
  unfoldable pub unsubscribe : (bound_class method_name : String) → Process S → String → Process S
  unsubscribe bound_class method_name p topic =
      unregister_method p topic (type_name bound_class method_name)

  unfoldable pub unsubscribe_all :
      (bound_class : String) → List String → Process S → String → Process S
  unsubscribe_all bound_class [] p topic = p
  unsubscribe_all bound_class (m ∷ ms) p topic =
      unsubscribe_all bound_class ms (unsubscribe bound_class m p topic) topic

  -- Container::~Container
  unfoldable pub destroy_container :
      (default_scope : String) → Process S → (id : String) → Process S
  destroy_container default_scope p id =
      unsubscribe_all "Container" container_methods p (Topics.rpc default_scope id)
