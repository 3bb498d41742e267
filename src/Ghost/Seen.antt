-- ===== src/Ghost/Seen.antt =====
-- A new value is seen by the engine once, and goes into the next replication packet once
-- (system/common_src/GhostSystem.cpp).
use celte_system.Prelude.{
  ℕ, suc, ◌≤◌, ◌<◌, ◌≡◌, ap, ◌∙◌, String, [], ◌∷◌, List, Bool, true, false, not, ◌&&◌, Option, none,
  some, is_some, if◌then◌else◌, ◌==◌, eq_iff, value_or, arith, Option-cases, inl, inr, contains,
}
use celte_system.Prelude.Assoc
use celte_system.Prelude.Assoc.{Assoc, find-put, find-nil}
use celte_system.Prelude.HashMap.{
  HashMap, Map, find, put, keys, contains-keys, find-put as find-put_map,
}
use celte_system.Ghost.Defs.{
  PropertyInfo, Properties, Update, set, get, Ghosts, props_of, poll_property_update,
  update_property_state, fetch_all, fetch_next_update, update_of, write_update,
}
use celte_system.Ghost.Poll.{differs}
use celte_system.Ghost.Store.{
  IsValid, pending, stored, poll_property_update-pending, update_property_state-pending,
  update_property_state-IsValid, poll_property_update-IsValid,
}

module _ ⦃h : HashMap⦄ (readings : ℕ → ℕ) (strict : (n : ℕ) → readings n < readings (suc n)) where
  -- Where each reading of the clock is later than the one before and all times in the store are
  -- past, a new value that is set for an owned entity of a container with an id is what the next
  -- poll of the property gives, the poll after that gives nothing, and a poll of any other
  -- property gives what it gave before.
  pub poll-update_property_state :
      (g : Ghosts) (container eid key value e j : String)
      → IsValid readings g
      → container == "" ≡ false
      → differs (stored g eid key) value ≡ true
      → (eid == e) && (key == j) ≡ false
      → let updated = update_property_state readings g container true eid key value in
        let polled = poll_property_update readings updated eid key in
        (polled.1 ≡ some value)
        × ((poll_property_update readings polled.0 eid key).1 ≡ none)
        × ((poll_property_update readings polled.0 e j).1 ≡ (poll_property_update readings g e j).1)
  poll-update_property_state g container eid key value e j valid named new other =
      let valid₁ =
        update_property_state-IsValid readings strict g container true eid key value valid in
      let g₁ = update_property_state readings g container true eid key value in
      let valid₂ = poll_property_update-IsValid readings strict g₁ eid key valid₁ in
      let g₂ = (poll_property_update readings g₁ eid key).0 in
      ground (
        arith,
        eq_iff eid eid,
        eq_iff key key,
        eq_iff eid e,
        eq_iff key j,
        update_property_state-pending readings strict g container true eid key value eid key valid,
        update_property_state-pending readings strict g container true eid key value e j valid,
        poll_property_update-pending readings strict g₁ eid key eid key valid₁,
        poll_property_update-pending readings strict g₁ eid key e j valid₁,
        poll_property_update-pending readings strict g₂ eid key eid key valid₂,
        poll_property_update-pending readings strict g₂ e j e j valid₂,
        poll_property_update-pending readings strict g e j e j valid,
      )

module _ ⦃h : HashMap⦄ (readings : ℕ → ℕ) where
  pub poll_property_update-get :
      (g : Ghosts) (eid key : String)
      → (poll_property_update readings g eid key).1 ≡ pending g eid key
  unfolding poll_property_update
  poll_property_update-get g eid key = elim (Option-cases (pending g eid key)) [
    | inl e ↦ ground arith
    | inr (v, e) ↦ ground arith
  ]

  set-stored :
      (g : Ghosts) (container eid key value : String) (info : PropertyInfo)
      → container == "" ≡ false
      → stored g eid key ≡ some info
      → info.value == value ≡ false
      → stored (update_property_state readings g container true eid key value) eid key
        ≡ some (record info { value = value; last_update = readings g.reads })
  unfolding update_property_state set
  set-stored g container eid key value info named present new = ground (
    arith,
    eq_iff key key,
    eq_iff eid eid,
    find-put (props_of g eid) key key
        (record info { value = value; last_update = readings g.reads }),
    find-put_map g.ett_props eid eid (set readings (props_of g eid) g.reads key value).0,
  )

  get-late :
      (g : Ghosts) (eid key : String) (info : PropertyInfo)
      → stored g eid key ≡ some info
      → info.last_update ≤ info.last_sync
      → pending g eid key ≡ none
  unfolding get
  get-late g eid key info present late = ground arith

  -- When the clock reads no later than the last synchronization of the property, a new value is
  -- stored and a poll does not give it.
  update_property_state-missed :
      (g : Ghosts) (container eid key value : String) (info : PropertyInfo)
      → container == "" ≡ false
      → stored g eid key ≡ some info
      → info.value == value ≡ false
      → readings g.reads ≤ info.last_sync
      → let updated = update_property_state readings g container true eid key value in
        (stored updated eid key
          ≡ some (record info { value = value; last_update = readings g.reads }))
        × ((poll_property_update readings updated eid key).1 ≡ none)
  update_property_state-missed g container eid key value info named present new late =
      let now = set-stored g container eid key value info named present new in
      let g₁ = update_property_state readings g container true eid key value in
      (
        now,
        poll_property_update-get g₁ eid key
            ∙ get-late g₁ eid key (record info { value = value; last_update = readings g.reads })
                now late,
      )

module _ ⦃h : HashMap⦄ where
  fetch_all-find :
      (next : Map Update) (ks : List String) (c : String)
      → (find (fetch_all next ks).0 c
          ≡ (if contains c ks && is_some (find next c) then some [] else find next c))
        × (Assoc.find (fetch_all next ks).1 c ≡ (if contains c ks then find next c else none))
  unfolding fetch_all contains Assoc.find
  fetch_all-find next [] c = ground arith
  fetch_all-find next (k ∷ ks) c = elim (Option-cases (find next k)) [
    | inl e ↦ ground (arith, eq_iff k c, fetch_all-find next ks c)
    | inr (u, e) ↦
        ground (arith, eq_iff k c, find-put_map next k c [], fetch_all-find (put next k []) ks c)
  ]

  -- What is fetched for a container is what was scheduled for it, and nothing remains.
  pub fetch_next_update-find :
      (g : Ghosts) (c : String)
      → (Assoc.find (fetch_next_update g).1 c ≡ find g.next_update c)
        × (update_of (fetch_next_update g).0 c ≡ [])
  unfolding fetch_next_update
  fetch_next_update-find g c =
      ground
        (arith, contains-keys g.next_update c, fetch_all-find g.next_update (keys g.next_update) c)

  abbrev value_in : Update → String → String → Option String
  value_in u eid key = Assoc.find (value_or (Assoc.find u eid) []) key

  -- The value of a property in what FetchNextUpdate gives for a container.
  abbrev pub fetched : Ghosts → String → String → String → Option String
  fetched g container eid key =
      value_in (value_or (Assoc.find (fetch_next_update g).1 container) []) eid key

  fetched-update_of : (g : Ghosts) (c e j : String) → fetched g c e j ≡ value_in (update_of g c) e j
  fetched-update_of g c e j =
      ap (λ found. value_in (value_or found []) e j) (fetch_next_update-find g c).0

  value_in-write_update :
      (u : Update) (eid key value e j : String)
      → value_in (write_update u eid key value) e j
        ≡ (if (eid == e) && (key == j) then some value else value_in u e j)
  value_in-write_update u eid key value e j = ground (
    arith,
    eq_iff eid e,
    eq_iff key j,
    find-put u eid e (Assoc.put (value_or (Assoc.find u eid) []) key value),
    find-put (value_or (Assoc.find u eid) []) key j value,
  )

module _ (readings : ℕ → ℕ) where
  set-differs :
      (props : Properties) (n : ℕ) (key value : String)
      → (set readings props n key value).2 ≡ differs (Assoc.find props key) value
  unfolding set
  set-differs props n key value = elim (Option-cases (Assoc.find props key)) [
    | inl e ↦ ground arith
    | inr (info, e) ↦ ground (arith, eq_iff info.value value)
  ]

module _ ⦃h : HashMap⦄ (readings : ℕ → ℕ) where
  pub update_of-update :
      (g : Ghosts) (container : String) (owned : Bool) (eid key value c : String)
      → update_of (update_property_state readings g container owned eid key value) c ≡ (
          if (container == c)
            && ((owned && not (container == "")) && differs (stored g eid key) value)
          then write_update (update_of g c) eid key value
          else update_of g c)
  unfolding update_property_state
  update_of-update g container owned eid key value c = ground (
    arith,
    eq_iff container c,
    eq_iff container "",
    set-differs readings (props_of g eid) g.reads key value,
    find-put_map g.next_update container c (write_update (update_of g container) eid key value),
  )

  -- After an update of a property, what is fetched for any container and property is the new
  -- value at the container of an owned entity and this property, where the value differs from
  -- the stored one, and elsewhere what would have been fetched before; a second fetch gives
  -- nothing.
  fetch-update_property_state :
      (g : Ghosts) (container : String) (owned : Bool) (eid key value c e j : String)
      → let updated = update_property_state readings g container owned eid key value in
        (fetched updated c e j ≡ (
          if ((container == c) && ((eid == e) && (key == j)))
            && ((owned && not (container == "")) && differs (stored g eid key) value)
          then some value
          else fetched g c e j))
        × (fetched (fetch_next_update updated).0 c e j ≡ none)
  fetch-update_property_state g container owned eid key value c e j =
      let updated = update_property_state readings g container owned eid key value in
      let left = (fetch_next_update updated).0 in
      (
        ground (
          arith,
          eq_iff container c,
          eq_iff container "",
          eq_iff eid e,
          eq_iff key j,
          fetched-update_of updated c e j,
          fetched-update_of g c e j,
          update_of-update g container owned eid key value c,
          value_in-write_update (update_of g c) eid key value e j,
        ),
        ground (
          arith,
          fetched-update_of left c e j,
          fetch_next_update-find updated c,
          find-nil {V = Assoc String} e,
          find-nil {V = String} j,
        ),
      )
