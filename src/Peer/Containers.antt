-- ===== src/Peer/Containers.antt =====
-- ContainerRegistry (system/include/Container.hpp, system/common_src/Container.cpp), less UpdateRefCount.
use celte_system.Prelude.{
  Bool, true, false, String, List, [], Option, none, some, is_some, if◌then◌else◌, ◌==◌, insert,
  remove,
}
use celte_system.Prelude.HashMap.{HashMap, Map, find, put}
use celte_system.Peer.State.{Cell}

-- ContainerRefCell::ContainerRefCell. The source does not initialize is_locally_owned here: Subscribe
-- writes it before it is read.
abbrev pub new_cell : Cell
new_cell = record { ref_count = 1; use_count = 1; is_locally_owned = false; owned_entities = [] }

module _ ⦃h : HashMap⦄ where
  abbrev pub Containers : Type 0
  Containers = Map Cell

  -- RunWithLock
  unfoldable pub with_container : Containers → String → (Cell → Cell) → Containers
  with_container cs id f = elim (find cs id) [ none ↦ cs | some c ↦ put cs id (f c) ]

  -- CreateContainerIfNotExists, where `uuid` is the id that is generated for an empty one: `none`
  -- is an exception.
  unfoldable pub create_container_if_not_exists :
      Containers → String → String → Option (Containers × String × Bool)
  create_container_if_not_exists cs id uuid = elim (find cs id) [
    | some c ↦ some (cs, id, false)
    | none ↦
        let container_id = if id == "" then uuid else id in
        elim (find cs container_id) [
          | some c ↦ none
          | none ↦ some (put cs container_id new_cell, container_id, true)
        ]
  ]

  abbrev pub container_exists : Containers → String → Bool
  container_exists cs id = is_some (find cs id)

  unfoldable pub container_is_locally_owned : Containers → String → Bool
  container_is_locally_owned cs id = elim (find cs id) [
    | none ↦ false
    | some c ↦ c.is_locally_owned
  ]

  unfoldable pub register_new_owned_entity : Containers → String → String → Containers
  register_new_owned_entity cs container_id entity_id =
      with_container cs container_id
        (λ c. record c { owned_entities = insert entity_id c.owned_entities })

  unfoldable pub remove_owned_entity : Containers → String → String → Containers
  remove_owned_entity cs container_id entity_id =
      with_container cs container_id
        (λ c. record c { owned_entities = remove entity_id c.owned_entities })

  -- The entities of a container, in no order that the code relies on.
  unfoldable pub owned_entities : Containers → String → List String
  owned_entities cs id = elim (find cs id) [ none ↦ [] | some c ↦ c.owned_entities ]
