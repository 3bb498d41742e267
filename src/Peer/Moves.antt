-- ===== src/Peer/Moves.antt =====
-- Transfers of authority from the order to the last drop
-- (system/common_src/AuthorityTransfer.cpp).
use celte_system.Prelude.{
  ℕ, ◌+◌, ◌≡◌, ◌∙◌, ap, refl, Bool, true, false, not, String, [], ◌∷◌, ◌++◌, some, is_some, ◌==◌,
  ◌&&◌, ◌||◌, eq_iff, arith, Option-cases, inl, inr, contains, insert, remove, contains-insert,
  contains-remove,
}
use celte_system.Prelude.HashMap.{HashMap, Map, find, put, find-put}
use celte_system.Ghost.Defs.{peek_properties}
use celte_system.Peer.State.{Entity, Cell, Order, Peer, take_authority, drop_authority}
use celte_system.Peer.Containers.{
  with_container, owned_entities, register_new_owned_entity, remove_owned_entity, container_exists,
}
use celte_system.Peer.Entities.{with_entity}
use celte_system.Peer.Transfer.{
  ghost_items, is_refused, transfer_authority, exec_take_order, run_drop_order,
  exec_drop_order_impl,
}

module _ ⦃h : HashMap⦄ where
  abbrev pub owns : Map Cell → String → String → Bool
  owns cs c id = contains id (owned_entities cs c)

  pub owns-register :
      (cs : Map Cell) (c id d j : String)
      → owns (register_new_owned_entity cs c id) d j
        ≡ ((is_some (find cs c) && ((c == d) && (id == j))) || owns cs d j)
  unfolding register_new_owned_entity with_container owned_entities
  owns-register cs c id d j = elim (Option-cases (find cs c)) [
    | inl e ↦ ground (arith, eq_iff c d, eq_iff id j)
    | inr (cell, e) ↦ ground (
      arith,
      eq_iff c d,
      eq_iff id j,
      contains-insert id j cell.owned_entities,
      find-put cs c d (record cell { owned_entities = insert id cell.owned_entities }),
    )
  ]

  pub owns-remove :
      (cs : Map Cell) (c id d j : String)
      → owns (remove_owned_entity cs c id) d j ≡ (not ((c == d) && (id == j)) && owns cs d j)
  unfolding remove_owned_entity with_container owned_entities contains
  owns-remove cs c id d j = elim (Option-cases (find cs c)) [
    | inl e ↦ ground (arith, eq_iff c d, eq_iff id j)
    | inr (cell, e) ↦ ground (
      arith,
      eq_iff c d,
      eq_iff id j,
      contains-remove id j cell.owned_entities,
      find-put cs c d (record cell { owned_entities = remove id cell.owned_entities }),
    )
  ]

  pub exists-register :
      (cs : Map Cell) (c id d : String)
      → container_exists (register_new_owned_entity cs c id) d ≡ container_exists cs d
  unfolding register_new_owned_entity with_container
  exists-register cs c id d = elim (Option-cases (find cs c)) [
    | inl e ↦ ground arith
    | inr (cell, e) ↦ ground (
      arith,
      eq_iff c d,
      find-put cs c d (record cell { owned_entities = insert id cell.owned_entities }),
    )
  ]

  pub exists-remove :
      (cs : Map Cell) (c id d : String)
      → container_exists (remove_owned_entity cs c id) d ≡ container_exists cs d
  unfolding remove_owned_entity with_container
  exists-remove cs c id d = elim (Option-cases (find cs c)) [
    | inl e ↦ ground arith
    | inr (cell, e) ↦ ground (
      arith,
      eq_iff c d,
      find-put cs c d (record cell { owned_entities = remove id cell.owned_entities }),
    )
  ]

  -- While a transfer of an entity is under way, any other one leaves the peer as it is.
  pub transfer_authority-twice :
      (server : Bool) (uuid other_uuid : String) (now later : ℕ) (p : Peer) (e : Entity)
      (id to other payload other_payload : String) (ignore other_ignore : Bool)
      → find p.entities id ≡ some e
      → is_refused e to ignore ≡ false
      → let started = transfer_authority server uuid now p id to payload ignore in
        transfer_authority server other_uuid later started id other other_payload other_ignore
        ≡ started
  unfolding transfer_authority
  transfer_authority-twice server uuid other_uuid now later p e id to other payload other_payload
        ignore other_ignore present accepted =
      elim server [
        | true ↦
            ground (arith, eq_iff id id, find-put p.entities id id (record e { quarantine = true }))
        | false ↦
            ground (arith, eq_iff id id, find-put p.entities id id (record e { quarantine = true }))
      ]

  -- The order that TransferAuthority sends.
  abbrev pub order_of : Peer → Entity → (id to payload uuid : String) → ℕ → Order
  order_of p e id to payload uuid now = record {
    entity_id = id;
    to_container_id = to;
    from_container_id = e.owner_container_id;
    procedure_id = uuid;
    when = now + 2000;
    payload = payload;
    ghost = ghost_items (peek_properties p.ghosts id).1;
  }

  abbrev pub taken : Entity → String → Entity
  taken e to = record e { owner_container_id = to; quarantine = false }

  exec_take_order-present :
      (p : Peer) (o : Order) (e : Entity)
      → find p.entities o.entity_id ≡ some e
      → exec_take_order true p o ≡ record p {
        entities = put p.entities o.entity_id (taken e o.to_container_id);
        containers = register_new_owned_entity p.containers o.to_container_id o.entity_id;
      }
  unfolding exec_take_order with_entity
  exec_take_order-present p o e present = ground (
    arith,
    eq_iff o.entity_id o.entity_id,
    find-put p.entities o.entity_id o.entity_id (taken e o.to_container_id),
  )

  pub run_drop_order-present :
      (p : Peer) (o : Order) (e : Entity)
      → find p.entities o.entity_id ≡ some e
      → container_exists p.containers o.to_container_id ≡ true
      → o.from_container_id == o.to_container_id ≡ false
      → run_drop_order true p o
        ≡ record p { containers = remove_owned_entity p.containers o.from_container_id o.entity_id }
  unfolding run_drop_order exec_drop_order_impl
  run_drop_order-present p o e present there moves =
      ground (arith, exists-remove p.containers o.from_container_id o.entity_id o.to_container_id)

  -- The peer while the transfer is under way.
  abbrev started : Peer → Entity → Order → Peer
  started p e o = record p {
    entities = put p.entities o.entity_id (record e { quarantine = true });
    ghosts = (peek_properties p.ghosts o.entity_id).0;
    sent =
        (p.sent ++ (take_authority o.to_container_id o ∷ []))
        ++ (drop_authority o.from_container_id o ∷ []);
  }

  transfer_authority-started :
      (p : Peer) (e : Entity) (id to payload uuid : String) (now : ℕ) (ignore : Bool)
      → find p.entities id ≡ some e
      → is_refused e to ignore ≡ false
      → transfer_authority true uuid now p id to payload ignore
        ≡ started p e (order_of p e id to payload uuid now)
  unfolding transfer_authority
  transfer_authority-started p e id to payload uuid now ignore present accepted = ground arith

  -- The containers of the peer when the transfer is complete.
  abbrev finished_containers : Peer → Order → Map Cell
  finished_containers p o =
      remove_owned_entity (register_new_owned_entity p.containers o.to_container_id o.entity_id)
        o.from_container_id o.entity_id

  take-drop :
      (p : Peer) (e : Entity) (o : Order)
      → container_exists p.containers o.to_container_id ≡ true
      → o.from_container_id == o.to_container_id ≡ false
      → run_drop_order true (exec_take_order true (started p e o) o) o ≡ record (started p e o) {
        entities = put (started p e o).entities o.entity_id (taken e o.to_container_id);
        containers = finished_containers p o;
      }
  take-drop p e o there moves =
      let marked = record e { quarantine = true } in
      let was : find (started p e o).entities o.entity_id ≡ some marked = ground (
        arith,
        eq_iff o.entity_id o.entity_id,
        find-put p.entities o.entity_id o.entity_id marked,
      ) in
      let next = record (started p e o) {
        entities = put (started p e o).entities o.entity_id (taken e o.to_container_id);
        containers = register_new_owned_entity p.containers o.to_container_id o.entity_id;
      } in
      let now_there : find next.entities o.entity_id ≡ some (taken e o.to_container_id) = ground (
        arith,
        eq_iff o.entity_id o.entity_id,
        find-put (started p e o).entities o.entity_id o.entity_id (taken e o.to_container_id),
      ) in
      ap (λ q. run_drop_order true q o) (exec_take_order-present (started p e o) o marked was)
      ∙ run_drop_order-present next o (taken e o.to_container_id) now_there
          (exists-register p.containers o.to_container_id o.entity_id o.to_container_id ∙ there)
          moves

  -- On a server that has the target container, an accepted transfer to another container sends one
  -- take order and one drop order, and once both are carried out the entity belongs to the target,
  -- is free for the next transfer, is listed by the target and no more by the source, and neither
  -- the other entities nor the tasks of the engine have changed.
  pub transfer_authority-take-drop :
      (p : Peer) (e : Entity) (id to payload uuid : String) (now : ℕ) (ignore : Bool)
      → find p.entities id ≡ some e
      → is_refused e to ignore ≡ false
      → e.owner_container_id == to ≡ false
      → container_exists p.containers to ≡ true
      → let o = order_of p e id to payload uuid now in
        let started = transfer_authority true uuid now p id to payload ignore in
        let finished = run_drop_order true (exec_take_order true started o) o in
        (started.sent
          ≡ (p.sent ++ (take_authority to o ∷ [])) ++ (drop_authority e.owner_container_id o ∷ []))
        × (find finished.entities id
            ≡ some (record e { owner_container_id = to; quarantine = false }))
        × (owns finished.containers to id ≡ true)
        × (owns finished.containers e.owner_container_id id ≡ false)
        × (finished.engine_tasks ≡ p.engine_tasks)
        × ((j : String) → id == j ≡ false → find finished.entities j ≡ find p.entities j)
  transfer_authority-take-drop p e id to payload uuid now ignore present accepted moves there =
      let o = order_of p e id to payload uuid now in
      let begun = transfer_authority-started p e id to payload uuid now ignore present accepted in
      let marked = put p.entities id (record e { quarantine = true }) in
      let path =
        ap (λ q. run_drop_order true (exec_take_order true q o) o) begun
        ∙ take-drop p e o there moves in
      let found = λ (j : String). find-put marked id j (taken e to) in
      rw (path, begun)
        (
          refl,
          ground (arith, eq_iff id id, found id),
          ground (
            arith,
            eq_iff to to,
            eq_iff id id,
            owns-register p.containers to id to id,
            owns-remove (register_new_owned_entity p.containers to id) e.owner_container_id id to
                id,
          ),
          ground (
            arith,
            eq_iff e.owner_container_id e.owner_container_id,
            eq_iff id id,
            owns-remove (register_new_owned_entity p.containers to id) e.owner_container_id id
                e.owner_container_id id,
          ),
          refl,
          λ j other.
              ground (arith, found j, find-put p.entities id j (record e { quarantine = true })),
        )
