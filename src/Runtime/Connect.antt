-- ===== src/Runtime/Connect.antt =====
-- How a peer enters and leaves the cluster (system/common_src/Runtime.cpp). The master and the broker
-- answer through arguments, and the hooks that are called are logged in order.
use Prim.Native.String.{◌++◌ as ◌++ₛ◌}
use celte_system.Prelude.{
  Bool, true, false, String, List, [], ◌∷◌, ◌++◌, Option, none, some, ◌≡◌, ◌≢◌, refl, sym, ap, ◌∙◌,
  value_or, if◌then◌else◌, map, ◌==◌, arith,
}
use mathlib.Core.List.{append_assoc, append-nil}
use celte_system.Prelude.HashMap.{HashMap}
use celte_system.Prelude.Json.{Json}
use celte_system.Config
use celte_system.Config.{Config, set_session_id}
use celte_system.Rpc.Stub.Defs.{Process, RpRequest}
use celte_system.Rpc.Builder.{
  Writing, Effect, on_peer, on_scope, on_fail_log_error, with_timeout, retry, fire_and_forget,
  call_fire_and_forget, stub_fire_and_forget, report, type_name, forget_request,
}
use celte_system.Topics

-- make_uuid; `node_id` is the variable CELTE_NODE_ID, `id` the random uuid.
unfoldable make_uuid : (server : Bool) (node_id : Option String) (id : String) → String
make_uuid true (some node_id) id = node_id
make_uuid true none id = "sn." ++ₛ id
make_uuid false node_id id = "cl." ++ₛ id

pub data Event : Type 0 where
  global_rpc_initialized metrics_started replication_started : Event
  connection_failed connection_success : Event
  initialization_payload : String → Event

-- A member of the answer of the master: reading it may throw.
pub data Field : Type 0 where
  unreadable absent : Field
  text : String → Field
  other : Field

pub record Reply : Type 0 where
  pub message : Field
  pub payload : Field

pub record NodeInfo : Type 0 where
  pub id : String
  pub pid : String
  pub ready : Bool
  pub session_id : String

abbrev node_info : (String → Option String) → Config → String → NodeInfo
node_info env config uuid = record {
  id = uuid;
  pid = value_or (Config.get env config "CELTE_NODE_PID") "unknown-parent";
  ready = true;
  session_id = config.session_id;
}

-- The end of __connectToMaster: the events, and the result with `none` for an exception.
unfoldable accept_payload : Field → List Event × Option Bool
accept_payload unreadable = ([], none)
accept_payload absent = ([], some false)
accept_payload (text payload) = (initialization_payload payload ∷ [], some true)
accept_payload other = ([], none)

unfoldable read_reply : Reply → List Event × Option Bool
read_reply r = elim r.message [
  | unreadable ↦ ([], none)
  | absent ↦ ([], some false)
  | text message ↦ if message == "Node accepted" then accept_payload r.payload else ([], some false)
  | other ↦ ([], some false)
]

-- __connectToMaster. HttpClient::Post gives a text in any case; `parse` is `none` where
-- json::parse throws.
unfoldable connect_to_master :
    (post : String → NodeInfo → String) (parse : String → Option Reply)
    (master_host master_port : String)
    → NodeInfo
    → List Event × Option Bool
connect_to_master post parse master_host master_port info =
    elim (parse
      (post (((("http://" ++ₛ master_host) ++ₛ ":") ++ₛ master_port) ++ₛ "/server/connect") info)) [
        | none ↦ ([], some false)
        | some reply ↦ read_reply reply
      ]

-- The try block of the callback of Connect.
unfoldable pub failures : List Event × Option Bool → List Event
failures (events, none) = events ++ (connection_failed ∷ [])
failures (events, some false) = events ++ (connection_failed ∷ [])
failures (events, some true) = events

-- The callback of Connect in a server, when the peer service is there; `master` is what
-- __connectToMaster does.
unfoldable pub on_connected_server : Bool → List Event × Option Bool → List Event
on_connected_server connected master =
    if connected
    then (global_rpc_initialized ∷ failures master)
      ++ (metrics_started ∷ replication_started ∷ connection_success ∷ [])
    else connection_failed ∷ []

-- The callback of __connectToCluster in a client.
unfoldable pub on_connected_client : Bool → List Event
on_connected_client connected =
    global_rpc_initialized ∷ (if connected then connection_success ∷ [] else connection_failed ∷ [])

-- Connect of a server, up to its callback: the configuration and the address of the broker.
unfoldable connect_server : (String → Option String) → Config → Config × String
connect_server env config =
    let host = value_or (Config.get env config "CELTE_PULSAR_HOST") "localhost" in
    let port = value_or (Config.get env config "CELTE_PULSAR_PORT") "6650" in
    let session_id = value_or (Config.get env config "CELTE_SESSION_ID") "default" in
    (set_session_id config session_id, (host ++ₛ ":") ++ₛ port)

abbrev disconnect_message :
    (String → String) → String → String → String × String → String × RpRequest
disconnect_message serialize default_scope own_uuid (grape, rpc_id) = (
  Topics.peer default_scope grape,
  forget_request (type_name "Grape" "RequestClientDisconnect") rpc_id (serialize own_uuid),
)

module _ ⦃h : HashMap⦄ ⦃j : Json⦄ {S : Type 0} where
  -- Disconnect of a client, whose grapes are given with the uuid of each request; `serialize` is
  -- __serialize__.
  unfoldable disconnect :
      (serialize : String → String) (w : Writing) (default_scope own_uuid : String)
      → List (String × String)
      → Process S
      → Process S
  disconnect serialize w default_scope own_uuid [] p = p
  disconnect serialize w default_scope own_uuid ((grape, rpc_id) ∷ grapes) p =
      disconnect serialize w default_scope own_uuid grapes
        (call_fire_and_forget
          (retry (with_timeout (on_fail_log_error (on_peer default_scope grape)) 10000) 10) w p
          (type_name "Grape" "RequestClientDisconnect") rpc_id (serialize own_uuid)).0

  -- ForceDisconnectClient of a server.
  unfoldable pub force_disconnect_client :
      (serialize : String → String → String) (w : Writing)
      (default_scope assigned_grape rpc_id client_id payload : String)
      → Process S
      → Process S × Effect
  force_disconnect_client serialize w default_scope assigned_grape rpc_id client_id payload p =
      fire_and_forget (on_fail_log_error (on_scope default_scope assigned_grape)) w p
        (type_name "Grape" "ExecClientDisconnect") rpc_id (serialize client_id payload)

  -- A client that leaves, where the producer accepts, tells each grape it knows, on the topic on
  -- which the server of the grape listens and in the order of the registry, and does nothing else.
  disconnect-outbox :
      (serialize : String → String) (default_scope own_uuid : String)
      (grapes : List (String × String)) (p : Process S)
      → disconnect serialize Writing.accepted default_scope own_uuid grapes p ≡ record p {
        outbox = p.outbox ++ map (disconnect_message serialize default_scope own_uuid) grapes;
      }
  unfolding disconnect call_fire_and_forget report stub_fire_and_forget retry with_timeout
      on_fail_log_error on_peer Topics.peer
  disconnect-outbox serialize default_scope own_uuid [] p =
      ap (λ (o : List (String × RpRequest)). record p { outbox = o }) (sym (append-nil p.outbox))
  disconnect-outbox serialize default_scope own_uuid ((grape, rpc_id) ∷ grapes) p =
      let message = disconnect_message serialize default_scope own_uuid (grape, rpc_id) in
      disconnect-outbox serialize default_scope own_uuid grapes
        (record p { outbox = p.outbox ++ (message ∷ []) })
      ∙ ap (λ (o : List (String × RpRequest)). record p { outbox = o })
          (append_assoc p.outbox (message ∷ [])
            (map (disconnect_message serialize default_scope own_uuid) grapes))

-- When the peer service of a server is there, the success hook is called last, whatever the master
-- answers; where the master does not accept the node, or reading its answer throws, the failure
-- hook is called before, and metrics and replication start all the same.
on_connected_server-refused :
    (master : List Event × Option Bool)
    → master.1 ≢ some true
    → on_connected_server true master
      ≡ (global_rpc_initialized ∷ [])
        ++ (master.0
            ++ (connection_failed ∷ metrics_started ∷ replication_started ∷ connection_success
                ∷ []))
unfolding on_connected_server failures
on_connected_server-refused (events, none) refused =
    ap (λ (es : List Event). global_rpc_initialized ∷ es)
      (append_assoc events (connection_failed ∷ [])
        (metrics_started ∷ replication_started ∷ connection_success ∷ []))
on_connected_server-refused (events, some false) refused =
    ap (λ (es : List Event). global_rpc_initialized ∷ es)
      (append_assoc events (connection_failed ∷ [])
        (metrics_started ∷ replication_started ∷ connection_success ∷ []))
on_connected_server-refused (events, some true) refused = absurd (refused refl)

-- A node that the master accepts with a payload gets the payload, then metrics and replication
-- start, and the success hook is called.
connect_to_master-reply :
    (post : String → NodeInfo → String) (parse : String → Option Reply) (host port : String)
    (info : NodeInfo) (payload : String)
    → parse (post (((("http://" ++ₛ host) ++ₛ ":") ++ₛ port) ++ₛ "/server/connect") info)
      ≡ some (record { message = text "Node accepted"; payload = text payload })
    → on_connected_server true (connect_to_master post parse host port info)
      ≡ global_rpc_initialized
        ∷ initialization_payload payload
        ∷ metrics_started
        ∷ replication_started
        ∷ connection_success
        ∷ []
unfolding on_connected_server failures connect_to_master read_reply accept_payload
connect_to_master-reply post parse host port info payload e = ground (arith, e)
