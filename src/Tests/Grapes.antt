-- ===== src/Tests/Grapes.antt =====
-- The theorems on the registry of grapes (system/common_src/GrapeRegistry.cpp) at small inputs.
use celte_system.Prelude.{◌≡◌, refl, Bool, true, false, String, List, [], ◌∷◌, Option, none, some}
use celte_system.Prelude.HashMap.{find, assoc_map}
use celte_system.Peer.Grapes.{Grape, Grapes, blank_grape, register_grape, assign_grape}
use celte_system.Peer.Grapes.Laws.{push_all, pop_all, pop_all-push_all, register_grape-assigned}

-- A grape with one client to accept.
abbrev busy_grape : Grape
busy_grape = record blank_grape { named_tasks_queues = ("accept", ("client.1" ∷ []) ∷ []) ∷ [] }

pop_all-push_all_example :
    pop_all
      (push_all busy_grape "accept" (("client.2" ∷ []) ∷ ("client.3" ∷ []) ∷ []))
      "accept"
      (("client.1" ∷ []) ∷ ("client.2" ∷ []) ∷ ("client.3" ∷ []) ∷ [])
    ≡ some ("client.1" ∷ []) ∷ some ("client.2" ∷ []) ∷ some ("client.3" ∷ []) ∷ []
unfolding celte_system.Prelude.Assoc.find
pop_all-push_all_example =
    pop_all-push_all busy_grape "accept" (("client.2" ∷ []) ∷ ("client.3" ∷ []) ∷ [])

abbrev no_grapes : Grapes
no_grapes = record { grapes = []; assigned_grape = ""; calls = [] }

register_grape-assigned_example :
    let r = register_grape true (assign_grape no_grapes "lobby") "lobby" true in
    (r.1 ≡ false)
    × (find r.0.grapes "lobby" ≡ some blank_grape)
    × ((owned : Bool) → register_grape true r.0 "lobby" owned ≡ (r.0, false))
unfolding celte_system.Prelude.Assoc.find
register_grape-assigned_example = register_grape-assigned no_grapes "lobby" "lobby" refl refl

abbrev two_grapes : Grapes
two_grapes = record {
  grapes = ("forest", record blank_grape { id = "forest" }) ∷ [];
  assigned_grape = "lobby";
  calls = [];
}
