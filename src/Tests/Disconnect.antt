-- ===== src/Tests/Disconnect.antt =====
-- The theorem on the disconnection of clients (system/common_src/Runtime.cpp,
-- system/common_src/Grape.cpp) for a server that owns one grape and has two clients.
use celte_system.Prelude.{
  ℕ, ◌≡◌, refl, Bool, true, String, [], ◌∷◌, ◌++◌, none, some, if◌then◌else◌, ◌==◌,
}
use celte_system.Prelude.Assoc
use celte_system.Prelude.Assoc.{Assoc}
use celte_system.Prelude.HashMap.{assoc_map, find}
use celte_system.Rpc.Builder.{Writing, type_name}
use celte_system.Rpc.Stub.Defs.{Process, RpRequest, Handler, try_handle_request}
use celte_system.Rpc.Typed.{build_delegate, typed, serialize}
use celte_system.Tests.Written.{
  written_json, written_arrays, text_codec, bool_codec, serving, serving-CanHandle,
}
use celte_system.Topics
use celte_system.Runtime.Connect.{force_disconnect_client}
use celte_system.Peer.Clients.{ClientData}
use celte_system.Peer.Disconnect.{
  Side, on_client_disconnect, two_texts, disconnect_method, force_disconnect_client-find,
}

abbrev session : String
session = "non-persistent://public/s1/"

abbrev fresh_client : ClientData
fresh_client = record {
  last_seen = 0;
  is_locally_owned = true;
  current_owner_grape = "";
  remote_client_subscriptions = [];
}

abbrev side : Side
side = record {
  clients = record {
    clients = ("c1", fresh_client) ∷ ("c2", fresh_client) ∷ [];
    calls = [];
    called_back = [];
    accepted = [];
  };
  hooks = [];
}

abbrev grape_methods : Assoc (Handler Side)
grape_methods =
    (
      "Grape_call_ExecClientDisconnect",
      build_delegate (two_texts text_codec bool_codec) (typed Bool bool_codec)
          (disconnect_method text_codec bool_codec true true),
    )
    ∷ []

abbrev server : Process Side
server = serving "non-persistent://public/s1/g1.rpc" grape_methods side

abbrev caller : Process ℕ
caller = serving "" [] 0

force_disconnect_client-find_example :
    let params = two_texts text_codec bool_codec in
    let serialized = λ (x y : String). serialize params (x, (y, tt)) in
    let sent =
      force_disconnect_client serialized Writing.accepted session "g1" "id1" "c1" "{}" caller in
    (request : RpRequest) × (b' : Process Side) × (sent.0.outbox
      ≡ [] ++ ((Topics.rpc session "g1", request) ∷ []))
    × (try_handle_request server (Topics.rpc session "g1") request ≡ some b')
    × (b'.outbox ≡ [])
    × (b'.user.hooks ≡ (if true then [] ++ (on_client_disconnect "c1" "{}" ∷ []) else []))
    × (find b'.user.clients.clients "c2" ≡ (
        if true
        then (if "c1" == "c2" then none else find side.clients.clients "c2")
        else find side.clients.clients "c2"))
unfolding Assoc.find Topics.rpc type_name
force_disconnect_client-find_example =
    force_disconnect_client-find text_codec bool_codec session caller server "id1" "g1"
      grape_methods true (serving-CanHandle "non-persistent://public/s1/g1.rpc" grape_methods side)
      refl refl "c1" "{}" "c2"
