-- ===== src/Peer/Deletes.antt =====
-- How entities leave and enter a peer: delete orders, the deletion of the entities of a container,
-- and the tasks of take and drop orders (system/common_src/ETTRegistry.cpp,
-- system/common_src/AuthorityTransfer.cpp).
use celte_system.Prelude.{
  ℕ, suc, ◌+◌, ◌*◌, ◌≡◌, ◌∙◌, ap, refl, true, false, String, List, [], ◌∷◌, ◌++◌, Option, none,
  some, if◌then◌else◌, ◌==◌, eq_iff, arith, Bool-cases, Option-cases, inl, inr, length,
  length-append, contains, IsDistinct, map,
}
use celte_system.Prelude.Assoc
use celte_system.Prelude.Assoc.{Assoc}
use celte_system.Prelude.HashMap.{
  HashMap, Map, find, put, keys, find-put, contains-keys, keys-IsDistinct,
}
use celte_system.Peer.State.{Entity, Task, Peer}
use celte_system.Peer.Containers.{container_is_locally_owned}
use celte_system.Peer.Entities.{
  mark_deleted, delete_entities, delete_entities_in_container, delete_task,
  send_entity_delete_order,
}

module _ ⦃h : HashMap⦄ where
  abbrev pub deleted : Entity → Entity
  deleted e = record e { is_valid = false; quarantine = true }

  -- What deleting a container leaves of an entity.
  abbrev pub after_delete : Option Entity → String → Option Entity
  after_delete none c = none
  after_delete (some e) c = some (if e.owner_container_id == c then deleted e else e)

  mark_deleted-find :
      (es : Map Entity) (td : Assoc String) (c id j : String)
      → find (mark_deleted es td c id).0 j
        ≡ (if id == j then after_delete (find es j) c else find es j)
  unfolding mark_deleted
  mark_deleted-find es td c id j = elim (Option-cases (find es id)) [
    | inl e₀ ↦ ground (arith, eq_iff id j)
    | inr (e, e₁) ↦
        ground (arith, eq_iff id j, eq_iff e.owner_container_id c, find-put es id j (deleted e))
  ]

  after_delete-twice :
      (o : Option Entity) (c : String) → after_delete (after_delete o c) c ≡ after_delete o c
  after_delete-twice none c = refl
  after_delete-twice (some e) c = ground (arith, eq_iff e.owner_container_id c)

  delete_entities-find :
      (es : Map Entity) (td : Assoc String) (tasks : List Task) (c : String) (ids : List String)
      (j : String)
      → find (delete_entities es td tasks c ids).0 j
        ≡ (if contains j ids then after_delete (find es j) c else find es j)
  unfolding delete_entities contains
  delete_entities-find es td tasks c [] j = refl
  delete_entities-find es td tasks c (id ∷ ids) j =
      let es' = (mark_deleted es td c id).0 in
      let td' = (mark_deleted es td c id).1 in
      ground (
        arith,
        eq_iff id j,
        mark_deleted-find es td c id j,
        after_delete-twice (find es j) c,
        delete_entities-find es' td' (tasks ++ map delete_task td') c ids j,
      )

  -- Deleting the entities of a container marks each of them as invalid and quarantined and leaves
  -- the others.
  pub find-delete_entities_in_container :
      (p : Peer) (c j : String)
      → find (delete_entities_in_container p c).entities j ≡ after_delete (find p.entities j) c
  unfolding delete_entities_in_container
  find-delete_entities_in_container p c j = elim (Option-cases (find p.entities j)) [
    | inl e₀ ↦
        ground (arith, delete_entities-find p.entities [] p.engine_tasks c (keys p.entities) j)
    | inr (e, e₁) ↦ ground (
      arith,
      contains-keys p.entities j,
      delete_entities-find p.entities [] p.engine_tasks c (keys p.entities) j,
    )
  ]

  length-map-delete_task : (td : Assoc String) → length (map delete_task td) ≡ length td
  length-map-delete_task [] = refl
  length-map-delete_task (kv ∷ td) = omega (arith, length-map-delete_task td)

  -- Every entity of `ids` is in the container and not yet among those to delete.
  abbrev AllIn : Map Entity → Assoc String → String → List String → Type 0
  AllIn es td c ids =
      (j : String)
      → contains j ids ≡ true
      → ((e : Entity) × (find es j ≡ some e) × (e.owner_container_id == c ≡ true))
        × (Assoc.find td j ≡ none)

  mark_deleted-inside :
      (es : Map Entity) (td : Assoc String) (c id : String) (e : Entity)
      → find es id ≡ some e
      → e.owner_container_id == c ≡ true
      → mark_deleted es td c id ≡ (put es id (deleted e), Assoc.insert td id e.payload)
  unfolding mark_deleted
  mark_deleted-inside es td c id e present inside = ground arith

  AllIn-next :
      (es : Map Entity) (td : Assoc String) (c id : String) (ids : List String) (e : Entity)
      → contains id ids ≡ false
      → AllIn es td c (id ∷ ids)
      → AllIn (put es id (deleted e)) (Assoc.insert td id e.payload) c ids
  unfolding contains
  AllIn-next es td c id ids e new all j here =
      let other : id == j ≡ false = ground (arith, eq_iff id j) in
      let ((f, found, inside), absent) = all j (ground (arith, eq_iff id j)) in
      let unmarked = (all id (ground (arith, eq_iff id id))).1 in
      (
        (f, ground (arith, find-put es id j (deleted e)), inside),
        ground (arith, Assoc.find-insert td id j e.payload),
      )

  sum_step :
      (t a m n b : ℕ)
      → a ≡ t + suc m
      → b ≡ suc m
      → 2 * a + n * (n + 1) + 2 * (b * n) ≡ 2 * t + suc n * (suc n + 1) + 2 * (m * suc n)
  sum_step t a m n b p q = rw (p, q) (grind arith)

  delete_entities-length :
      (es : Map Entity) (td : Assoc String) (tasks : List Task) (c : String) (ids : List String)
      → IsDistinct ids
      → AllIn es td c ids
      → 2 * length (delete_entities es td tasks c ids).1
        ≡ 2 * length tasks + length ids * (length ids + 1) + 2 * (length td * length ids)
  unfolding delete_entities contains
  delete_entities-length es td tasks c [] distinct all = omega arith
  delete_entities-length es td tasks c (id ∷ ids) distinct all =
      let ((e, found, inside), absent) = all id (ground (arith, eq_iff id id)) in
      let td' = Assoc.insert td id e.payload in
      let next =
        delete_entities-length (put es id (deleted e)) td' (tasks ++ map delete_task td') c ids
          distinct.1 (AllIn-next es td c id ids e distinct.0 all) in
      ap (λ md. 2 * length (delete_entities md.0 md.1 (tasks ++ map delete_task md.1) c ids).1)
        (mark_deleted-inside es td c id e found inside)
      ∙ next
      ∙ sum_step (length tasks) (length (tasks ++ map delete_task td')) (length td) (length ids)
          (length td')
          (length-append tasks (map delete_task td')
            ∙ ap (λ k. length tasks + k)
                (length-map-delete_task td' ∙ Assoc.length-insert td id e.payload absent))
          (Assoc.length-insert td id e.payload absent)

  -- Where all n entities of a peer are in a container, deleting its entities queues
  -- 1 + 2 + ... + n tasks for the engine.
  length-delete_entities_in_container :
      (p : Peer) (c : String)
      → ((j : String) (e : Entity) → find p.entities j ≡ some e → e.owner_container_id == c ≡ true)
      → 2 * length (delete_entities_in_container p c).engine_tasks
        ≡ 2 * length p.engine_tasks + length (keys p.entities) * (length (keys p.entities) + 1)
  unfolding delete_entities_in_container
  length-delete_entities_in_container p c inside =
      let all : AllIn p.entities [] c (keys p.entities) = λ j here.
        elim (Option-cases (find p.entities j)) [
          | inl e₀ ↦ absurd (ground (arith, contains-keys p.entities j))
          | inr (e, e₁) ↦ ((e, e₁, inside j e e₁), Assoc.find-nil j)
        ] in
      omega (
        arith,
        delete_entities-length p.entities [] p.engine_tasks c (keys p.entities)
            (keys-IsDistinct p.entities) all,
      )

  -- A second delete order for an entity leaves the peer as it is.
  send_entity_delete_order-twice :
      (p : Peer) (id : String)
      → send_entity_delete_order (send_entity_delete_order p id) id ≡ send_entity_delete_order p id
  unfolding send_entity_delete_order
  send_entity_delete_order-twice p id = elim (Option-cases (find p.entities id)) [
    | inl e₀ ↦ ground arith
    | inr (e, e₁) ↦
        elim (Bool-cases (container_is_locally_owned p.containers e.owner_container_id)) [
          | inl mine ↦ ground (arith, eq_iff id id, find-put p.entities id id (deleted e))
          | inr foreign ↦ ground (arith, eq_iff id id, find-put p.entities id id (deleted e))
        ]
  ]

  -- A delete order for a valid entity whose container is not owned here sends nothing and marks the
  -- entity as invalid and quarantined.
  send_entity_delete_order-foreign :
      (p : Peer) (id : String) (e : Entity)
      → find p.entities id ≡ some e
      → e.is_valid ≡ true
      → container_is_locally_owned p.containers e.owner_container_id ≡ false
      → ((send_entity_delete_order p id).sent ≡ p.sent)
        × (find (send_entity_delete_order p id).entities id
            ≡ some (record e { quarantine = true; is_valid = false }))
  unfolding send_entity_delete_order
  send_entity_delete_order-foreign p id e present valid foreign =
      ground (arith, eq_iff id id, find-put p.entities id id (deleted e))
