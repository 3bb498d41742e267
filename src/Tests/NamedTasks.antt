-- ===== src/Tests/NamedTasks.antt =====
-- The theorem on named tasks of the engine (system/common_src/exports.cpp, system/common_src/Grape.cpp)
-- for a server that owns one grape.
use celte_system.Prelude.{ℕ, ◌≡◌, refl, true, String, [], ◌∷◌, ◌++◌, some}
use celte_system.Prelude.Assoc
use celte_system.Prelude.Assoc.{Assoc}
use celte_system.Prelude.HashMap.{assoc_map}
use celte_system.Rpc.Builder.{Writing, type_name}
use celte_system.Rpc.Stub.Defs.{Process, RpRequest, Handler, try_handle_request}
use celte_system.Rpc.Typed.{build_delegate, void}
use celte_system.Tests.Written.{
  written_json, written_arrays, text_codec, serving, serving-CanHandle,
}
use celte_system.Topics
use celte_system.Peer.Grapes.{Grape, Grapes, blank_grape}
use celte_system.Peer.NamedTasks.{
  four_texts, cmi_instantiate, call_cmi_instantiate, pop_cmi_instantiate, pop-call_cmi_instantiate,
}

abbrev session : String
session = "non-persistent://public/s1/"

abbrev owned : Grape
owned = record blank_grape { id = "g1"; is_locally_owned = true }

abbrev owner_methods : Assoc (Handler Grapes)
owner_methods =
    (
      "Grape_call_CMIInstantiate",
      build_delegate (four_texts text_codec) void (cmi_instantiate text_codec "g1"),
    )
    ∷ []

abbrev owner : Process Grapes
owner =
    serving "non-persistent://public/s1/g1" owner_methods
      (record { grapes = ("g1", owned) ∷ []; assigned_grape = "g1"; calls = [] })

abbrev caller : Process ℕ
caller = serving "" [] 0

pop-call_cmi_instantiate_example :
    let called =
      call_cmi_instantiate text_codec session Writing.accepted caller "id1" "g1"
        ("cmi", ("tree", ("{}", ("client", tt)))) in
    (request : RpRequest) × (b' : Process Grapes) × (called.0.outbox
      ≡ [] ++ ((Topics.peer session "g1", request) ∷ []))
    × (try_handle_request owner (Topics.peer session "g1") request ≡ some b')
    × (b'.outbox ≡ [])
    × ((pop_cmi_instantiate b'.user "g1").1 ≡ some ("cmi" ∷ "tree" ∷ "{}" ∷ "client" ∷ []))
unfolding Assoc.find Topics.peer type_name
pop-call_cmi_instantiate_example =
    pop-call_cmi_instantiate text_codec session caller owner "id1" "g1" owner_methods owned
      (serving-CanHandle "non-persistent://public/s1/g1" owner_methods owner.user) refl refl "cmi"
      "tree" "{}" "client" refl refl
