-- ===== src/Peer/Owned.antt =====
-- Whether a container lists the entities that belong to it, through take orders and drop orders
-- (system/common_src/AuthorityTransfer.cpp).
use celte_system.Prelude.{
  ◌≡◌, refl, ap, sym, ◌∙◌, true, false, not, is_some, ◌&&◌, String, none, some, if◌then◌else◌, ◌==◌,
  eq_iff, arith, Bool-cases, Option-cases, inl, inr,
}
use celte_system.Prelude.HashMap.{HashMap, find, find-put}
use celte_system.Peer.State.{Entity, Order, Peer, push_task_to_engine}
use celte_system.Peer.Containers.{container_exists, register_new_owned_entity, remove_owned_entity}
use celte_system.Peer.Entities.{with_entity, is_entity_registered, get_entity_owner_container}
use celte_system.Peer.Transfer.{exec_take_order, run_drop_order, exec_drop_order_impl}
use celte_system.Peer.Moves.{
  owns, owns-register, owns-remove, exists-register, exists-remove, taken, run_drop_order-present,
}

module _ ⦃h : HashMap⦄ where
  -- Each container of this peer lists the entities that belong to it.
  abbrev pub IsListed : Peer → Type 0
  IsListed p =
      (id : String) (e : Entity)
      → find p.entities id ≡ some e
      → container_exists p.containers e.owner_container_id ≡ true
      → owns p.containers e.owner_container_id id ≡ true

  take-containers :
      (p : Peer) (o : Order)
      → (exec_take_order true p o).containers
        ≡ register_new_owned_entity p.containers o.to_container_id o.entity_id
  unfolding exec_take_order push_task_to_engine
  take-containers p o =
      elim (Bool-cases (
        is_entity_registered (with_entity p.entities o.entity_id (λ e. taken e o.to_container_id))
          o.entity_id)) [ inl e₀ ↦ ground arith | inr e₁ ↦ ground arith ]

  take-find :
      (p : Peer) (o : Order) (j : String)
      → find (exec_take_order true p o).entities j ≡ elim (find p.entities o.entity_id) [
        | none ↦ find p.entities j
        | some e ↦ if o.entity_id == j then some (taken e o.to_container_id) else find p.entities j
      ]
  unfolding exec_take_order with_entity push_task_to_engine
  take-find p o j = elim (Option-cases (find p.entities o.entity_id)) [
    | inl e₀ ↦ ground arith
    | inr (e, e₁) ↦ ground (
      arith,
      eq_iff o.entity_id o.entity_id,
      find-put p.entities o.entity_id o.entity_id (taken e o.to_container_id),
      find-put p.entities o.entity_id j (taken e o.to_container_id),
    )
  ]

  -- On a server, a take order keeps the containers listing the entities that belong to them.
  pub exec_take_order-IsListed :
      (p : Peer) (o : Order) → IsListed p → IsListed (exec_take_order true p o)
  exec_take_order-IsListed p o listed id e found there =
      let cs = p.containers in
      elim (Option-cases (find p.entities o.entity_id)) [
        | inl e₀ ↦ ground (
          arith,
          take-containers p o,
          take-find p o id,
          listed id e,
          owns-register cs o.to_container_id o.entity_id e.owner_container_id id,
          exists-register cs o.to_container_id o.entity_id e.owner_container_id,
        )
        | inr (old, e₁) ↦ ground (
          arith,
          take-containers p o,
          take-find p o id,
          listed id e,
          eq_iff o.entity_id id,
          eq_iff o.to_container_id e.owner_container_id,
          owns-register cs o.to_container_id o.entity_id e.owner_container_id id,
          exists-register cs o.to_container_id o.entity_id e.owner_container_id,
        )
      ]

  -- On a server that has the target container, a drop order that comes when the entity belongs to
  -- the dropping container again takes it out of the list of this container, to which it still
  -- belongs.
  run_drop_order-stale :
      (p : Peer) (o : Order) (e : Entity)
      → find p.entities o.entity_id ≡ some e
      → e.owner_container_id ≡ o.from_container_id
      → o.from_container_id == o.to_container_id ≡ false
      → container_exists p.containers o.to_container_id ≡ true
      → (get_entity_owner_container (run_drop_order true p o).entities o.entity_id
          ≡ o.from_container_id)
        × (owns (run_drop_order true p o).containers o.from_container_id o.entity_id ≡ false)
  unfolding get_entity_owner_container
  run_drop_order-stale p o e present back moves there =
      rw (run_drop_order-present p o e present there moves) (
        ground arith,
        ground (
          arith,
          eq_iff o.from_container_id o.from_container_id,
          eq_iff o.entity_id o.entity_id,
          owns-remove p.containers o.from_container_id o.entity_id o.from_container_id o.entity_id,
        ),
      )

  drop-containers :
      (p : Peer) (o : Order) (e : Entity)
      → find p.entities o.entity_id ≡ some e
      → (run_drop_order true p o).containers ≡ (
          if o.from_container_id == o.to_container_id
          then p.containers
          else remove_owned_entity p.containers o.from_container_id o.entity_id)
  unfolding run_drop_order exec_drop_order_impl push_task_to_engine
  drop-containers p o e present =
      ground (arith, exists-remove p.containers o.from_container_id o.entity_id o.to_container_id)

  abbrev dropped : Peer → Order → Entity → Entity
  dropped p o e =
      if container_exists p.containers o.to_container_id
      then e
      else record e { is_valid = false; quarantine = true }

  drop-find :
      (p : Peer) (o : Order) (e : Entity) (j : String)
      → find p.entities o.entity_id ≡ some e
      → find (run_drop_order true p o).entities j
        ≡ (if o.entity_id == j then some (dropped p o e) else find p.entities j)
  unfolding run_drop_order exec_drop_order_impl push_task_to_engine
  drop-find p o e j present = ground (
    arith,
    eq_iff o.entity_id j,
    exists-remove p.containers o.from_container_id o.entity_id o.to_container_id,
    find-put p.entities o.entity_id j (record e { is_valid = false; quarantine = true }),
  )

  drop-missing :
      (p : Peer) (o : Order) → find p.entities o.entity_id ≡ none → run_drop_order true p o ≡ p
  unfolding run_drop_order
  drop-missing p o missing = ground arith

  -- What a container lists after a drop order.
  drop-owns :
      (p : Peer) (o : Order) (c j : String)
      → owns (run_drop_order true p o).containers c j
        ≡ owns p.containers c j
          && not (
              is_some (find p.entities o.entity_id)
              && (not (o.from_container_id == o.to_container_id)
                  && ((o.from_container_id == c) && (o.entity_id == j))))
  drop-owns p o c j = elim (Option-cases (find p.entities o.entity_id)) [
    | inl e₀ ↦ ground (arith, drop-missing p o)
    | inr (old, e₁) ↦ ground (
      arith,
      drop-containers p o old,
      owns-remove p.containers o.from_container_id o.entity_id c j,
    )
  ]

  drop-exists :
      (p : Peer) (o : Order) (c : String)
      → container_exists (run_drop_order true p o).containers c ≡ container_exists p.containers c
  drop-exists p o c = elim (Option-cases (find p.entities o.entity_id)) [
    | inl e₀ ↦ ground (arith, drop-missing p o)
    | inr (old, e₁) ↦ ground (
      arith,
      drop-containers p o old,
      exists-remove p.containers o.from_container_id o.entity_id c,
    )
  ]

  drop-owner :
      (p : Peer) (o : Order) (id : String) (e : Entity)
      → find (run_drop_order true p o).entities id ≡ some e
      → (old : Entity) × (find p.entities id ≡ some old)
        × (old.owner_container_id ≡ e.owner_container_id)
  drop-owner p o id e found = elim (Option-cases (find p.entities o.entity_id)) [
    | inl e₀ ↦ (e, ground (arith, drop-missing p o), refl)
    | inr (old, e₁) ↦ elim (Bool-cases (o.entity_id == id)) [
      | inl same ↦
          (old, ground (arith, eq_iff o.entity_id id), ground (arith, drop-find p o old id))
      | inr other ↦ (e, ground (arith, drop-find p o old id), refl)
    ]
  ]

  -- Where each container of a server lists the entities that belong to it, a drop order takes an
  -- entity that is here off the list of the container that drops it, if the order is between two
  -- different containers, and changes no list otherwise. After it each container that is here lists
  -- an entity that belongs to it, but for the dropped entity where it belongs to the container that
  -- drops it, which is then not listed.
  pub run_drop_order-IsListed :
      (p : Peer) (o : Order) (id : String) (e : Entity) (c j : String)
      → IsListed p
      → find (run_drop_order true p o).entities id ≡ some e
      → container_exists (run_drop_order true p o).containers e.owner_container_id ≡ true
      → let q = run_drop_order true p o in
        let moves = not (o.from_container_id == o.to_container_id) in
        (owns q.containers c j
          ≡ owns p.containers c j
            && not (
                is_some (find p.entities o.entity_id)
                && (moves && ((o.from_container_id == c) && (o.entity_id == j)))))
        × (owns q.containers e.owner_container_id id
            ≡ not (moves && ((o.from_container_id == e.owner_container_id) && (o.entity_id == id))))
  run_drop_order-IsListed p o id e c j listed found there =
      let (old, before, same) = drop-owner p o id e found in
      let stood = listed id old before (
        ap (container_exists p.containers) same
        ∙ sym (drop-exists p o e.owner_container_id)
        ∙ there) in
      (
        drop-owns p o c j,
        ground (
          arith,
          drop-owns p o e.owner_container_id id,
          ap (λ d. owns p.containers d id) (sym same) ∙ stood,
          eq_iff o.entity_id id,
        ),
      )
