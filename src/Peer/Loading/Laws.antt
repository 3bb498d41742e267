-- ===== src/Peer/Loading/Laws.antt =====
-- What a peer has after it loaded the entities of a container (system/common_src/ETTRegistry.cpp).
use celte_system.Prelude.{
  ℕ, ◌≡◌, ap, ◌∙◌, refl, Bool, true, false, String, List, [], ◌∷◌, Option, none, some, map,
  if◌then◌else◌, ◌==◌, ◌&&◌, eq_iff, arith, Option-cases, Bool-cases, inl, inr, contains,
}
use celte_system.Prelude.Assoc.{Assoc}
use celte_system.Prelude.HashMap.{HashMap, find, keys, contains-keys, find-put}
use celte_system.Ghost.Defs.{props_of, Properties, set, set_all, apply_update, peek_properties}
use celte_system.Peer.State.{Items, Entity, Peer}
use celte_system.Peer.Entities.{
  new_entity, with_entity, set_entity_owner_container, register_entity, engine_call_instantiate,
  load_entities, existing_entities, get_existing_entities,
}
use celte_system.Peer.Loading.{existing_documents, load_existing_entities}

-- The members of an entity's ghost, as a document gives them.
abbrev pub items : Assoc String → Items
items members = map (λ (m : String × String). (m.0, some m.1)) members

-- An entity after it was loaded into a container.
abbrev pub as_loaded : String → Option Entity → Option Entity
as_loaded container_id none = some (new_entity container_id)
as_loaded container_id (some e) = some (record e { owner_container_id = container_id })

abbrev pub ids : {V : Type 0} → List (String × V) → List String
ids [] = []
ids ((id, v) ∷ rest) = id ∷ ids rest

module _ ⦃h : HashMap⦄ where
  set_all-items :
      (readings : ℕ → ℕ) (props : Properties) (n : ℕ) (members : Assoc String)
      → (set_all readings props n (items members)).2 ≡ true
  unfolding set_all
  set_all-items readings props n [] = refl
  set_all-items readings props n ((key, v) ∷ members) =
      let (props', n', changed) = set readings props n key v in
      set_all-items readings props' n' members

  abbrev pub owned_by : Option Entity → String → Bool
  owned_by none container_id = false
  owned_by (some e) container_id = e.owner_container_id == container_id

  -- The documents are those of the entities of the container.
  ids-existing_entities :
      (p : Peer) (container_id : String) (ks : List String) (j : String)
      → contains j (ids (existing_entities p container_id ks).1)
        ≡ contains j ks && owned_by (find p.entities j) container_id
  unfolding existing_entities contains
  ids-existing_entities p container_id [] j = refl
  ids-existing_entities p container_id (k ∷ ks) j = elim (Option-cases (find p.entities k)) [
    | inl e ↦ ground (arith, eq_iff k j, ids-existing_entities p container_id ks j)
    | inr (x, e) ↦ elim (Bool-cases (x.owner_container_id == container_id)) [
      | inl here ↦ ground (
        arith,
        eq_iff k j,
        ids-existing_entities (record p { ghosts = (peek_properties p.ghosts k).0 }) container_id ks
            j,
      )
      | inr away ↦ ground (arith, eq_iff k j, ids-existing_entities p container_id ks j)
    ]
  ]

  listed :
      (p : Peer) (container_id j : String)
      → contains j (ids (existing_entities p container_id (keys p.entities)).1)
        ≡ owned_by (find p.entities j) container_id
  listed p container_id j = elim (Option-cases (find p.entities j)) [
    | inl e ↦ ground (
      arith,
      contains-keys p.entities j,
      ids-existing_entities p container_id (keys p.entities) j,
    )
    | inr (x, e) ↦ ground (
      arith,
      contains-keys p.entities j,
      ids-existing_entities p container_id (keys p.entities) j,
    )
  ]

  entities-existing_entities :
      (p : Peer) (container_id : String) (ks : List String)
      → (existing_entities p container_id ks).0.entities ≡ p.entities
  unfolding existing_entities
  entities-existing_entities p container_id [] = refl
  entities-existing_entities p container_id (k ∷ ks) = elim (Option-cases (find p.entities k)) [
    | inl e ↦ ground (arith, entities-existing_entities p container_id ks)
    | inr (x, e) ↦ elim (Bool-cases (x.owner_container_id == container_id)) [
      | inl here ↦ ground (
        arith,
        entities-existing_entities (record p { ghosts = (peek_properties p.ghosts k).0 })
            container_id ks,
      )
      | inr away ↦ ground (arith, entities-existing_entities p container_id ks)
    ]
  ]

  module _ (server : Bool) (tp_peer tp_rpc : String → String) (readings : ℕ → ℕ) where
    find-engine_call_instantiate :
        (p : Peer) (id payload container_id j : String)
        → find (engine_call_instantiate server tp_peer tp_rpc p id payload container_id).entities j
          ≡ (if id == j then as_loaded container_id (find p.entities id) else find p.entities j)
    unfolding engine_call_instantiate register_entity set_entity_owner_container with_entity
    find-engine_call_instantiate p id payload container_id j =
        elim (Option-cases (find p.entities id)) [
          | inl e ↦ ground (arith, eq_iff id j, find-put p.entities id j (new_entity container_id))
          | inr (x, e) ↦ ground (
            arith,
            eq_iff id j,
            find-put p.entities id j (record x { owner_container_id = container_id }),
          )
        ]

    module _ (dump : String × Assoc String → String)
        (parse : String → Option (String × Items)) where
      -- The parser reads each of the documents back.
      abbrev pub AreRead : List (String × (String × Assoc String)) → Type 0
      AreRead [] = Unit {0}
      AreRead ((id, (payload, members)) ∷ rest) =
          (parse (dump (payload, members)) ≡ some (payload, items members)) × AreRead rest

      abbrev pub dumped : List (String × (String × Assoc String)) → Assoc String
      dumped etts = map (λ (e : String × (String × Assoc String)). (e.0, dump e.1)) etts

      find-load_entities :
          (p : Peer) (container_id : String) (etts : List (String × (String × Assoc String)))
          (j : String)
          → AreRead etts
          → find
              (load_entities server tp_peer tp_rpc readings parse p container_id
                (dumped etts)).entities
              j
            ≡ (if contains j (ids etts)
                then as_loaded container_id (find p.entities j)
                else find p.entities j)
      unfolding load_entities apply_update contains
      find-load_entities p container_id [] j read = refl
      find-load_entities p container_id ((id, (payload, members)) ∷ rest) j read =
          let ghosts = (apply_update readings p.ghosts id (items members)).0 in
          let applied = record p { ghosts = ghosts } in
          let next =
            engine_call_instantiate server tp_peer tp_rpc applied id payload container_id in
          elim (Option-cases (find p.entities j)) [
            | inl e ↦ ground (
              arith,
              eq_iff id j,
              read.0,
              set_all-items readings (props_of p.ghosts id) p.ghosts.reads members,
              find-engine_call_instantiate applied id payload container_id j,
              find-load_entities next container_id rest j read.1,
            )
            | inr (x, e) ↦ ground (
              arith,
              eq_iff id j,
              read.0,
              set_all-items readings (props_of p.ghosts id) p.ghosts.reads members,
              find-engine_call_instantiate applied id payload container_id j,
              find-load_entities next container_id rest j read.1,
            )
          ]

      -- After a peer loaded the entities of a container from another, where its parser reads the
      -- documents back: each entity that belongs to the container there is registered here as one
      -- of the container, with what it had here before and otherwise as a new one, every other
      -- entity is as it was, and the other peer has the entities that it had.
      pub find-load_existing_entities :
          (p q : Peer) (container_id j : String)
          → AreRead (get_existing_entities p container_id).1
          → let (p', documents) = existing_documents dump p container_id in
            let q' =
              load_existing_entities server tp_peer tp_rpc readings parse q container_id
                (some documents) in
            (find q'.entities j ≡ (
              if owned_by (find p.entities j) container_id
              then as_loaded container_id (find q.entities j)
              else find q.entities j))
            × (p'.entities ≡ p.entities)
      unfolding existing_documents load_existing_entities get_existing_entities
      find-load_existing_entities p q container_id j read =
          let etts = (existing_entities p container_id (keys p.entities)).1 in
          (
            find-load_entities q container_id etts j read
                ∙ ap
                    (λ b.
                      if b then as_loaded container_id (find q.entities j) else find q.entities j)
                    (listed p container_id j),
            entities-existing_entities p container_id (keys p.entities),
          )
