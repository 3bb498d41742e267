-- ===== src/Runtime/Start.antt =====
-- How the peer service of a process comes up: the constructor of PeerService
-- (system/common_src/PeerService.cpp) and the callbacks that Runtime gives it
-- (system/common_src/Runtime.cpp). The constructor leaves a task to the scheduler, so that a thread may
-- run it before or after Runtime stores the new service; the order is a list of steps. The service is
-- object 0 and the object of the global procedures object 1. The clock that starts here is not
-- modelled.
use celte_system.Prelude.{
  ◌≡◌, refl, Bool, true, false, String, List, [], ◌∷◌, ◌++◌, Option, none, some, if◌then◌else◌,
  arith, eq_iff, contains, ℕ,
}
use celte_system.Prelude.HashMap.{HashMap}
use celte_system.Prelude.Json.{Json}
use celte_system.Rpc.Stub.Defs.{Process, Handler}
use celte_system.Rpc.Stub.Calls.{delegate}
use celte_system.Rpc.Builder.{type_name}
use celte_system.Runtime.Connect.{Event, on_connected_server, on_connected_client}
use celte_system.Peer.Reactors.{
  server_methods, client_methods, subscribe_all, init_peer, init_global,
}
use celte_system.Peer.Reactors.Laws.{names, delegate-subscribe, delegate-subscribe_all}
use celte_system.Topics

pub data Step : Type 0 where
  -- Runtime stores the result of make_unique in _peerService.
  is_stored : Step
  -- A thread of the scheduler runs the task of the constructor.
  task_runs : Step

-- PeerService::__waitNetworkReady
abbrev wait_network_ready : Bool
wait_network_ready = true

-- The topic on which the service takes its calls.
abbrev pub service_topic : (server : Bool) (default_scope uuid : String) → String
service_topic server default_scope uuid =
    if server then Topics.rpc default_scope uuid else Topics.peer default_scope uuid

abbrev pub service_methods : (server : Bool) → List String
service_methods server = if server then server_methods else client_methods

abbrev pub events_of_start : (server : Bool) → List Event × Option Bool → List Event
events_of_start server master =
    if server then on_connected_server true master else on_connected_client true

module _ ⦃h : HashMap⦄ ⦃j : Json⦄ where
  pub record Started (S : Type 0) : Type 0 where
    pub process : Process S
    pub peer_service : Bool
    pub has_global_rpc : Bool
    pub events : List Event

  -- The process when the constructor has left its task.
  abbrev pub constructed : {S : Type 0} → Process S → Started S
  constructed p = record { process = p; peer_service = false; has_global_rpc = false; events = [] }

  module _ {S : Type 0} (bind : ℕ → String → Handler S) (server : Bool)
      (default_scope uuid : String) (master : List Event × Option Bool) where
    -- PeerService::InitGlobalRPC, called through _peerService: `none` is the undefined behaviour of
    -- a null pointer.
    abbrev init_global_rpc : Started S → Option (Started S)
    init_global_rpc x =
        if x.peer_service
        then some (
            if x.has_global_rpc then x else record x {
              process = init_global bind default_scope x.process 1;
              has_global_rpc = true;
            })
        else none

    -- The callbacks of Connect in a server and of __connectToCluster in a client.
    abbrev on_ready : (connected : Bool) → Started S → Option (Started S)
    on_ready connected x =
        let fresh =
          if server then on_connected_server connected master else on_connected_client connected in
        let reported = record x { events = x.events ++ fresh } in
        if server
        then (if connected then init_global_rpc reported else some reported)
        else init_global_rpc reported

    -- The task of the constructor.
    abbrev service_task : Started S → Option (Started S)
    service_task x =
        if wait_network_ready
        then on_ready true
            (record x { process = init_peer bind server default_scope x.process uuid 0 })
        else on_ready false x

    unfoldable pub run_steps : List Step → Started S → Option (Started S)
    run_steps [] x = some x
    run_steps (is_stored ∷ steps) x = run_steps steps (record x { peer_service = true })
    run_steps (task_runs ∷ steps) x = elim (service_task x) [
      | none ↦ none
      | some x' ↦ run_steps steps x'
    ]

  module _ {S : Type 0} (bind : ℕ → String → Handler S) (default_scope uuid : String)
      (master : List Event × Option Bool) where
    -- After the task of the constructor, the object that answers a method of the service.
    delegate-init_peer :
        (server : Bool) (p : Process S) (name : String)
        → contains name (names "PeerService" (service_methods server)) ≡ true
        → delegate p (service_topic server default_scope uuid) name ≡ none
        → delegate
            (init_peer bind server default_scope p uuid 0)
            (service_topic server default_scope uuid)
            name
          ≡ some (bind 0 name)
    unfolding init_peer
    delegate-init_peer true p name serves fresh =
        let topic = Topics.rpc default_scope uuid in
        ground (
          arith,
          eq_iff topic topic,
          delegate-subscribe_all bind 0 "PeerService" server_methods p topic topic name,
        )
    delegate-init_peer false p name serves fresh =
        let topic = Topics.peer default_scope uuid in
        ground (
          arith,
          eq_iff topic topic,
          delegate-subscribe_all bind 0 "PeerService" client_methods p topic topic name,
        )

    -- The object of the global procedures is subscribed after the methods of the service.
    delegate-init_global :
        (server : Bool) (p : Process S)
        → delegate p (Topics.global_rpc default_scope) (type_name "Global" "RPCHandler") ≡ none
        → delegate
            (init_global bind default_scope (init_peer bind server default_scope p uuid 0) 1)
            (Topics.global_rpc default_scope)
            (type_name "Global" "RPCHandler")
          ≡ some (bind 1 (type_name "Global" "RPCHandler"))
    unfolding init_global init_peer contains type_name
    delegate-init_global true p fresh =
        let topic = Topics.global_rpc default_scope in
        let name = type_name "Global" "RPCHandler" in
        let own = Topics.rpc default_scope uuid in
        let p₁ = subscribe_all bind "PeerService" server_methods p own 0 in
        ground (
          arith,
          eq_iff topic topic,
          delegate-subscribe bind 1 "Global" "RPCHandler" p₁ topic topic name,
          delegate-subscribe_all bind 0 "PeerService" server_methods p own topic name,
        )
    delegate-init_global false p fresh =
        let topic = Topics.global_rpc default_scope in
        let name = type_name "Global" "RPCHandler" in
        let own = Topics.peer default_scope uuid in
        let p₁ = subscribe_all bind "PeerService" client_methods p own 0 in
        ground (
          arith,
          eq_iff topic topic,
          delegate-subscribe bind 1 "Global" "RPCHandler" p₁ topic topic name,
          delegate-subscribe_all bind 0 "PeerService" client_methods p own topic name,
        )

    kept-init_global :
        (p : Process S) (topic name : String) (f : Handler S)
        → delegate p topic name ≡ some f
        → delegate (init_global bind default_scope p 1) topic name ≡ some f
    unfolding init_global
    kept-init_global p topic name f e = ground (
      arith,
      delegate-subscribe bind 1 "Global" "RPCHandler" p (Topics.global_rpc default_scope) topic
          name,
    )

    -- A process that did not serve the method of the peer service, nor the global procedures, starts
    -- its peer service. Where the task of the constructor runs before the service is stored, the
    -- behaviour is undefined. Where it runs afterwards, the engine is told what the callback for a
    -- connection tells it, and nothing else, a call of the method on the topic of the service is
    -- answered by the service, and a call of the global procedures by their object.
    pub run_steps-order :
        (server : Bool) (p : Process S) (name : String)
        → contains name (names "PeerService" (service_methods server)) ≡ true
        → delegate p (service_topic server default_scope uuid) name ≡ none
        → delegate p (Topics.global_rpc default_scope) (type_name "Global" "RPCHandler") ≡ none
        → let run = run_steps bind server default_scope uuid master in
          let topic = service_topic server default_scope uuid in
          let handler = type_name "Global" "RPCHandler" in
          (run (task_runs ∷ is_stored ∷ []) (constructed p) ≡ none)
          × (x : Started S) × (run (is_stored ∷ task_runs ∷ []) (constructed p) ≡ some x)
          × (x.events ≡ events_of_start server master)
          × (delegate x.process topic name ≡ some (bind 0 name))
          × (delegate x.process (Topics.global_rpc default_scope) handler ≡ some (bind 1 handler))
    unfolding run_steps
    run_steps-order true p name serves fresh fresh_global =
        let p₁ = init_peer bind true default_scope p uuid 0 in
        (
          refl,
          record {
            process = init_global bind default_scope p₁ 1;
            peer_service = true;
            has_global_rpc = true;
            events = events_of_start true master;
          },
          refl,
          refl,
          kept-init_global p₁ (service_topic true default_scope uuid) name (bind 0 name)
              (delegate-init_peer true p name serves fresh),
          delegate-init_global true p fresh_global,
        )
    run_steps-order false p name serves fresh fresh_global =
        let p₁ = init_peer bind false default_scope p uuid 0 in
        (
          refl,
          record {
            process = init_global bind default_scope p₁ 1;
            peer_service = true;
            has_global_rpc = true;
            events = events_of_start false master;
          },
          refl,
          refl,
          kept-init_global p₁ (service_topic false default_scope uuid) name (bind 0 name)
              (delegate-init_peer false p name serves fresh),
          delegate-init_global false p fresh_global,
        )
