-- ===== src/Tests/Ghost.antt =====
-- The theorems on the ghost system (system/common_src/GhostSystem.cpp) at small inputs.
use celte_system.Prelude.{
  ℕ, suc, ◌+◌, ◌<◌, ◌≡◌, refl, true, false, ◌&&◌, String, List, [], ◌∷◌, Option, none, some, arith,
  if◌then◌else◌, ◌==◌, not,
}
use celte_system.Prelude.Assoc
use celte_system.Prelude.Assoc.{Assoc}
use celte_system.Prelude.HashMap.{assoc_map}
use celte_system.Tests.Written.{texts, nth}
use celte_system.Ghost.Replicate.{packets_for, upload_round, poll-upload_round}
use celte_system.Ghost.Defs.{
  PropertyInfo, Ghosts, update_property_state, poll_property_update, fetch_next_update, Update,
  update_of, handle_replication_packet, set, fetch_all, process_update,
}
use celte_system.Ghost.Store.{no_ghosts, no_ghosts-IsValid, update_property_state-IsValid}
use celte_system.Ghost.Seen.{poll-update_property_state}

-- A clock that moves at each call.
abbrev ticks : ℕ → ℕ
ticks n = n

ticks-strict : (n : ℕ) → ticks n < ticks (suc n)
ticks-strict n = omega arith

abbrev world : Ghosts
world = update_property_state ticks no_ghosts "container.1" true "player" "health" "100"

poll-update_property_state_example :
    let updated = update_property_state ticks world "container.1" true "player" "health" "90" in
    let polled = poll_property_update ticks updated "player" "health" in
    (polled.1 ≡ some "90")
    × ((poll_property_update ticks polled.0 "player" "health").1 ≡ none)
    × ((poll_property_update ticks polled.0 "player" "mana").1
        ≡ (poll_property_update ticks world "player" "mana").1)
unfolding celte_system.Prelude.Assoc.find celte_system.Prelude.Assoc.put celte_system.Ghost.Defs.set
    update_property_state
poll-update_property_state_example =
    poll-update_property_state ticks ticks-strict world "container.1" "player" "health" "90"
      "player" "mana"
      (update_property_state-IsValid ticks ticks-strict no_ghosts "container.1" true "player"
        "health" "100" (no_ghosts-IsValid ticks))
      refl refl refl

-- A clock that stands still.
abbrev stopped : ℕ → ℕ
stopped n = 5

abbrev fresh : PropertyInfo
fresh = record { value = "100"; last_update = 5; last_sync = 5 }

abbrev new_world : Ghosts
new_world = record {
  ett_props = ("player", ("health", fresh) ∷ []) ∷ [];
  next_update = [];
  reads = 3;
}

-- The documents of one property of one entity.
abbrev dump_one : Update → String
dump_one ((eid, (key, value) ∷ []) ∷ []) = texts (eid ∷ key ∷ value ∷ [])
dump_one u = ""

abbrev parse_one : String → Option (Assoc (Assoc (Option String)))
parse_one s = elim (nth s 0) [
  | none ↦ none
  | some eid ↦ elim (nth s 1) [ none ↦ none | some key ↦ some ((eid, (key, nth s 2) ∷ []) ∷ []) ]
]

abbrev server : Ghosts
server = (upload_round (λ container. true) world).0

-- The clock of the client.
abbrev later_ticks : ℕ → ℕ
later_ticks n = n + 50

later_ticks-strict : (n : ℕ) → later_ticks n < later_ticks (suc n)
later_ticks-strict n = omega arith

poll-upload_round_example :
    let updated = update_property_state ticks server "container.1" true "player" "health" "90" in
    let (left, packets) = upload_round (λ container. true) updated in
    (u : Update) × (packets_for packets "container.1" ≡ u ∷ [])
    × (update_of left "container.1" ≡ [])
    × ((poll_property_update later_ticks
          (handle_replication_packet later_ticks parse_one no_ghosts (dump_one u))
          "player"
          "health").1
        ≡ some "90")
unfolding Assoc.find Assoc.put set update_property_state upload_round fetch_next_update fetch_all
    process_update Assoc.keys
poll-upload_round_example =
    poll-upload_round ticks later_ticks later_ticks-strict dump_one parse_one (λ container. true)
      server no_ghosts "container.1" "player" "health" "90" refl refl refl refl
      (no_ghosts-IsValid later_ticks) refl refl
