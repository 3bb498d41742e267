-- ===== src/Tests/Peer.antt =====
-- The theorems on the registries and on transfers of authority (system/common_src/ETTRegistry.cpp,
-- system/common_src/AuthorityTransfer.cpp) at small inputs.
use celte_system.Prelude.{
  ℕ, ◌+◌, ◌*◌, ◌≡◌, refl, sym, ap, subst, Bool, Bool-cases, inl, inr, true, false, String, List, [],
  ◌∷◌, ◌++◌, Option, none, some, arith, if◌then◌else◌, ◌==◌, eq_iff, length, contains,
}
use celte_system.Prelude.Assoc
use celte_system.Prelude.Assoc.{Assoc}
use celte_system.Prelude.HashMap.{find, assoc_map}
use celte_system.Ghost.Defs.{peek_properties}
use celte_system.Peer.State.{Items}
use celte_system.Peer.Entities.{get_existing_entities, existing_entities}
use celte_system.Peer.Loading.{existing_documents, load_existing_entities}
use celte_system.Peer.Loading.Laws.{owned_by, as_loaded, find-load_existing_entities}
use celte_system.Ghost.Store.{no_ghosts}
use celte_system.Peer.State.{
  Entity, Cell, Order, Peer, take_authority, drop_authority, on_instantiate_entity,
}
use celte_system.Peer.Containers.{
  remove_owned_entity, with_container, container_is_locally_owned, new_cell, owned_entities,
}
use celte_system.Peer.Entities.{new_entity}
use celte_system.Peer.Transfer.{
  exec_drop_order_impl, transfer_authority, exec_take_order, run_drop_order, run_next_task,
}
use celte_system.Peer.Moves.{owns, order_of, transfer_authority-twice, transfer_authority-take-drop}
use celte_system.Peer.Owned.{IsListed, exec_take_order-IsListed, run_drop_order-IsListed}
use celte_system.Peer.Deletes.{after_delete}
use celte_system.Peer.Tasks.{exec_take_order-absent}
use celte_system.Peer.Subscriptions.{Subscribed, subscribe, unsubscribe, network_ready, never}
use celte_system.Peer.Subscriptions.Laws.{unsubscribe-subscribe, unsubscribe-subscribe-shared}

abbrev east_cell : Cell
east_cell = record new_cell { is_locally_owned = true; owned_entities = "player" ∷ [] }

-- A server that owns the container east, knows west, and has one entity, in east.
abbrev world : Peer
world = record {
  entities = ("player", new_entity "east") ∷ [];
  containers = ("east", east_cell) ∷ ("west", new_cell) ∷ [];
  ghosts = no_ghosts;
  engine_tasks = [];
  hooks = [];
  sent = [];
  scheduled = [];
  services = [];
}

-- A transfer of the entity to a container, with the payload {}.
abbrev order_to : String → Order
order_to to = order_of world (new_entity "east") "player" to "{}" "p1" 1000

transfer_authority-twice_example :
    let started = transfer_authority true "p1" 1000 world "player" "west" "{}" false in
    transfer_authority true "p2" 1500 started "player" "north" "{}" true ≡ started
unfolding celte_system.Prelude.Assoc.find
transfer_authority-twice_example =
    transfer_authority-twice true "p1" "p2" 1000 1500 world (new_entity "east") "player" "west"
      "north" "{}" "{}" false true refl refl

transfer_authority-take-drop_example :
    let o = order_to "west" in
    let started = transfer_authority true "p1" 1000 world "player" "west" "{}" false in
    let finished = run_drop_order true (exec_take_order true started o) o in
    (started.sent ≡ take_authority "west" o ∷ drop_authority "east" o ∷ [])
    × (find finished.entities "player" ≡ some (new_entity "west"))
    × (owns finished.containers "west" "player" ≡ true)
    × (owns finished.containers "east" "player" ≡ false)
    × (finished.engine_tasks ≡ [])
    × ((j : String) → "player" == j ≡ false → find finished.entities j ≡ find world.entities j)
unfolding celte_system.Prelude.Assoc.find
transfer_authority-take-drop_example =
    transfer_authority-take-drop world (new_entity "east") "player" "west" "{}" "p1" 1000 false refl
      refl refl refl

-- The owner of an entity, where one without an entity is in east.
abbrev owner_or_east : Option Entity → String
owner_or_east none = "east"
owner_or_east (some e) = e.owner_container_id

world-IsListed : IsListed world
unfolding celte_system.Prelude.Assoc.find owned_entities contains
world-IsListed id e found there = elim (Bool-cases ("player" == id)) [
  | inl hit ↦
      let owner : "east" ≡ e.owner_container_id =
        subst
          (λ b. owner_or_east (if b then some (new_entity "east") else none) ≡ e.owner_container_id)
          hit (ap owner_or_east found) in
      subst (λ c. owns world.containers c id ≡ true) owner (ground (arith, hit))
  | inr miss ↦ absurd (ground (arith, miss, found))
]

exec_take_order-IsListed_example : IsListed (exec_take_order true world (order_to "west"))
exec_take_order-IsListed_example = exec_take_order-IsListed world (order_to "west") world-IsListed

-- The entity belongs to east again when the order of its move to west takes effect.
run_drop_order-IsListed_example :
    (owns (run_drop_order true world (order_to "west")).containers "west" "player" ≡ false)
    × (owns (run_drop_order true world (order_to "west")).containers "east" "player" ≡ false)
unfolding celte_system.Prelude.Assoc.find celte_system.Prelude.Assoc.put contains owned_entities
    run_drop_order exec_drop_order_impl remove_owned_entity with_container
run_drop_order-IsListed_example =
    run_drop_order-IsListed world (order_to "west") "player" (new_entity "east") "west" "player"
      world-IsListed refl refl

abbrev crowd : Peer
crowd = record world {
  entities = ("a", new_entity "east") ∷ ("b", new_entity "east") ∷ ("c", new_entity "east") ∷ [];
}

crowd-east :
    (j : String) (e : Entity)
    → find crowd.entities j ≡ some e
    → e.owner_container_id == "east" ≡ true
unfolding celte_system.Prelude.Assoc.find
crowd-east j e found =
    let owner : owner_or_east (find crowd.entities j) ≡ "east" =
      ground (arith, eq_iff "a" j, eq_iff "b" j, eq_iff "c" j) in
    subst (λ o. owner_or_east o == "east" ≡ true) found
      (subst (λ c. c == "east" ≡ true) (sym owner) refl)

abbrev guest : Peer
guest = record world { entities = ("player", new_entity "west") ∷ [] }

abbrev topic : String → String
topic id = id

abbrev clock : ℕ → ℕ
clock n = n

abbrev tree_order : Order
tree_order = record (order_to "west") { entity_id = "tree" }

exec_take_order-absent_example :
    let r = run_next_task true topic topic clock (exec_take_order true world tree_order) in
    (r.1 ≡ true)
    × (r.0.hooks ≡ on_instantiate_entity "tree" "{}" ∷ [])
    × (r.0.engine_tasks ≡ [])
    × ((j : String)
        → find r.0.entities j
          ≡ (if "tree" == j then some (new_entity "west") else find world.entities j))
unfolding celte_system.Prelude.Assoc.find
exec_take_order-absent_example =
    exec_take_order-absent true topic topic clock world tree_order refl refl

unsubscribe-subscribe_example :
    (a : Subscribed) × (subscribe true topic "u1" world [] "north" true ≡ some a)
    × (a.id ≡ some "north")
    × (a.on_ready ≡ network_ready)
    × (contains "north" a.subscriptions ≡ true)
    × (container_is_locally_owned a.peer.containers "north" ≡ true)
    × (let r = unsubscribe true a.peer a.subscriptions "north" in
        (contains "north" r.1 ≡ false)
        × ((d : String) → find r.0.containers d ≡ find world.containers d)
        × ((j : String) → find r.0.entities j ≡ after_delete (find world.entities j) "north"))
unfolding celte_system.Prelude.Assoc.find contains
unsubscribe-subscribe_example =
    unsubscribe-subscribe true topic "u1" world [] "north" true refl refl refl

unsubscribe-subscribe-shared_example :
    (a : Subscribed) × (b : Subscribed) × (subscribe false topic "u1" world [] "north" false
      ≡ some a)
    × (subscribe false topic "u1" a.peer ("east" ∷ []) "north" false ≡ some b)
    × (b.id ≡ some "north")
    × (b.on_ready ≡ never)
    × (contains "north" b.subscriptions ≡ true)
    × (find (unsubscribe false b.peer a.subscriptions "north").0.containers "north" ≡ none)
unfolding celte_system.Prelude.Assoc.find contains
unsubscribe-subscribe-shared_example =
    unsubscribe-subscribe-shared false topic "u1" world [] ("east" ∷ []) "north" false refl refl
      refl refl

-- The document of an entity without properties is its payload.
abbrev dump_payload : String × Assoc String → String
dump_payload (payload, members) = payload

abbrev parse_payload : String → Option (String × Items)
parse_payload text = some (text, [])

abbrev client_world : Peer
client_world = record world { entities = ("tree", new_entity "west") ∷ []; containers = [] }

abbrev same_name : String → String
same_name id = id

find-load_existing_entities_example :
    let (p', documents) = existing_documents dump_payload world "east" in
    let q' =
      load_existing_entities false same_name same_name
        (λ n. n)
        parse_payload
        client_world
        "east"
        (some documents) in
    (find q'.entities "player" ≡ (
      if owned_by (find world.entities "player") "east"
      then as_loaded "east" (find client_world.entities "player")
      else find client_world.entities "player"))
    × (p'.entities ≡ world.entities)
unfolding Assoc.find Assoc.keys get_existing_entities existing_entities peek_properties Assoc.erase
find-load_existing_entities_example =
    find-load_existing_entities false same_name same_name (λ n. n) dump_payload parse_payload world
      client_world "east" "player" (refl, tt)
