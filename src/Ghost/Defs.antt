-- ===== src/Ghost/Defs.antt =====
-- The state and the operations of GhostSystem (system/include/GhostSystem.hpp,
-- system/common_src/GhostSystem.cpp). The clock is `readings`: the value that the n-th call of
-- high_resolution_clock::now gives; the state counts the calls. A json object is the association
-- list of its members; in a document from the network a member that is no text is `none`, and its
-- conversion throws.
use celte_system.Prelude.{
  ℕ, ◌+◌, Bool, true, false, String, List, [], ◌∷◌, Option, none, some, ltb, if◌then◌else◌, ◌==◌,
  value_or, not, ◌||◌, map,
}
use celte_system.Prelude.Assoc
use celte_system.Prelude.Assoc.{Assoc}
use celte_system.Prelude.HashMap.{HashMap, Map, find, put, erase, keys}

pub record PropertyInfo : Type 0 where
  pub value : String
  pub last_update : ℕ
  pub last_sync : ℕ

abbrev pub Properties : Type 0
Properties = Assoc PropertyInfo

-- Entity id to the new values of its properties.
abbrev pub Update : Type 0
Update = Assoc (Assoc String)

module _ (readings : ℕ → ℕ) where
  -- Properties::Set after `n` calls of the clock: the properties, the number of calls, and whether
  -- the value changed. A new entry reads the clock twice for its default members.
  unfoldable pub set : Properties → ℕ → String → String → Properties × ℕ × Bool
  set props n key value = elim (Assoc.find props key) [
    | none ↦ (
      Assoc.put props key
          (record { value = value; last_update = readings (n + 2); last_sync = readings (n + 1) }),
      n + 3,
      true,
    )
    | some info ↦ if info.value == value then (props, n, false) else (
      Assoc.put props key (record info { value = value; last_update = readings n }),
      n + 1,
      true,
    )
  ]

  -- Properties::AcknowledgeSync
  unfoldable pub acknowledge_sync : Properties → ℕ → String → Properties × ℕ
  acknowledge_sync props n key = elim (Assoc.find props key) [
    | none ↦ (props, n)
    | some info ↦ (Assoc.put props key (record info { last_sync = readings n }), n + 1)
  ]

-- Properties::Get
unfoldable pub get : Properties → String → Option String
get props key = elim (Assoc.find props key) [
  | none ↦ none
  | some info ↦ if ltb info.last_sync info.last_update then some info.value else none
]

module _ ⦃h : HashMap⦄ where
  pub record Ghosts : Type 0 where
    pub ett_props : Map Properties
    pub next_update : Map Update
    pub reads : ℕ

  -- __withPropertyLock finds or inserts the properties of the entity.
  abbrev pub props_of : Ghosts → String → Properties
  props_of g eid = value_or (find g.ett_props eid) []

  abbrev pub update_of : Ghosts → String → Update
  update_of g container = value_or (find g.next_update container) []

  -- nextUpdate[eid][key] = value
  abbrev pub write_update : Update → String → String → String → Update
  write_update u eid key value =
      Assoc.put u eid (Assoc.put (value_or (Assoc.find u eid) []) key value)

  -- Writes the properties back and puts a changed value into the next update of the container.
  abbrev pub schedule : Ghosts → String → String → String → String → Properties × ℕ × Bool → Ghosts
  schedule g container_id eid key value (props, n, changed) = record {
    ett_props = put g.ett_props eid props;
    next_update =
        if changed
        then put g.next_update container_id (write_update (update_of g container_id) eid key value)
        else g.next_update;
    reads = n;
  }

  unfoldable pub try_remove_entity : Ghosts → String → Ghosts
  try_remove_entity g eid = record g { ett_props = erase g.ett_props eid }

  module _ (readings : ℕ → ℕ) where
    -- `container_id` is the owner of the entity, and `locally_owned` whether this peer owns it.
    unfoldable pub update_property_state :
        Ghosts → String → Bool → String → String → String → Ghosts
    update_property_state g container_id locally_owned eid key value =
        if container_id == "" || not locally_owned
        then g
        else schedule g container_id eid key value (set readings (props_of g eid) g.reads key value)

    -- The loop of ApplyUpdate over the members of one entity: false is an exception.
    unfoldable pub set_all : Properties → ℕ → Assoc (Option String) → Properties × ℕ × Bool
    set_all props n [] = (props, n, true)
    set_all props n ((key, none) ∷ members) = (props, n, false)
    set_all props n ((key, some v) ∷ members) =
        let (props', n', _) = set readings props n key v in set_all props' n' members

    unfoldable pub apply_update : Ghosts → String → Assoc (Option String) → Ghosts × Bool
    apply_update g eid members =
        let (props, n, done) = set_all (props_of g eid) g.reads members in
        (record g { ett_props = put g.ett_props eid props; reads = n }, done)

    -- ApplyUpdate of a document, which stops at the first exception.
    unfoldable pub apply_document : Ghosts → Assoc (Assoc (Option String)) → Ghosts
    apply_document g [] = g
    apply_document g ((eid, members) ∷ rest) =
        let (g', done) = apply_update g eid members in
        elim done [ true ↦ apply_document g' rest | false ↦ g' ]

    -- HandleReplicationPacket: `parse` is the parser of the documents, `none` where it throws.
    unfoldable pub handle_replication_packet :
        (String → Option (Assoc (Assoc (Option String)))) → Ghosts → String → Ghosts
    handle_replication_packet parse g packet = elim (parse packet) [
      | none ↦ g
      | some document ↦ apply_document g document
    ]

    unfoldable pub poll_property_update : Ghosts → String → String → Ghosts × Option String
    poll_property_update g eid key = elim (get (props_of g eid) key) [
      | none ↦ (record g { ett_props = put g.ett_props eid (props_of g eid) }, none)
      | some v ↦
          let (props, n) = acknowledge_sync readings (props_of g eid) g.reads key in
          (record g { ett_props = put g.ett_props eid props; reads = n }, some v)
    ]

  -- The properties without the one whose key is empty.
  abbrev peeked : Ghosts → String → Properties
  peeked g eid = Assoc.erase (props_of g eid) ""

  abbrev pub value_of : String × PropertyInfo → String × String
  value_of (key, info) = (key, info.value)

  unfoldable pub peek_properties : Ghosts → String → Ghosts × Option (Assoc String)
  peek_properties g eid = (
    record g { ett_props = put g.ett_props eid (peeked g eid) },
    elim (peeked g eid) [ [] ↦ none | p ∷ ps ↦ some (map value_of (p ∷ ps)) ],
  )

  -- The loop of FetchNextUpdate: what was scheduled for each container is taken out.
  unfoldable pub fetch_all : Map Update → List String → Map Update × Assoc Update
  fetch_all next [] = (next, [])
  fetch_all next (container ∷ rest) = elim (find next container) [
    | none ↦ fetch_all next rest
    | some u ↦
        let (next', update) = fetch_all (put next container []) rest in
        (next', (container, u) ∷ update)
  ]

  unfoldable pub fetch_next_update : Ghosts → Ghosts × Assoc Update
  fetch_next_update g =
      let (next, update) = fetch_all g.next_update (keys g.next_update) in
      (record g { next_update = next }, update)

-- ProcessUpdate and ReplicateData: a packet for each container that has something new and whose
-- writer stream is there.
unfoldable pub process_update : (String → Bool) → Assoc Update → Assoc Update
process_update has_writer [] = []
process_update has_writer ((container, []) ∷ rest) = process_update has_writer rest
process_update has_writer ((container, e ∷ es) ∷ rest) =
    let packets = process_update has_writer rest in
    if has_writer container then (container, e ∷ es) ∷ packets else packets
