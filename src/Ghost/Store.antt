-- ===== src/Ghost/Store.antt =====
-- The poll and the update of a property on the whole store of the ghost system
-- (system/common_src/GhostSystem.cpp).
use celte_system.Prelude.{
  ℕ, suc, ◌<◌, ◌≤◌, ◌≡◌, ap, ◌∙◌, String, [], Bool, not, ◌&&◌, Option, none, some, if◌then◌else◌,
  ◌==◌, eq_iff, value_or, arith, Bool-cases, Option-cases, inl, inr, ◌||◌,
}
use celte_system.Prelude.Assoc
use celte_system.Prelude.Assoc.{find-put, find-nil}
use celte_system.Prelude.HashMap.{HashMap, Map, empty, find-empty, put, find-put as find-put_map}
use celte_system.Ghost.Defs.{
  PropertyInfo, Properties, Update, set, get, acknowledge_sync, Ghosts, props_of,
  poll_property_update, update_property_state, schedule,
}
use celte_system.Ghost.Poll.{
  differs, IsPast, IsPast-mono, le-set, le-acknowledge_sync, get-set, get-acknowledge_sync,
  set-IsPast, acknowledge_sync-IsPast,
}

module _ ⦃h : HashMap⦄ where
  -- What a poll of a property would give.
  abbrev pub pending : Ghosts → String → String → Option String
  pending g eid key = get (props_of g eid) key

  abbrev pub stored : Ghosts → String → String → Option PropertyInfo
  stored g eid key = Assoc.find (props_of g eid) key

  -- A store without entities.
  abbrev pub no_ghosts : Ghosts
  no_ghosts = record { ett_props = empty Properties; next_update = empty Update; reads = 0 }

module _ ⦃h : HashMap⦄ (readings : ℕ → ℕ) where
  -- Every time in the store was read in the past.
  abbrev pub IsValid : Ghosts → Type 0
  IsValid g = (eid : String) → IsPast readings (props_of g eid) g.reads

  pub no_ghosts-IsValid : IsValid no_ghosts
  no_ghosts-IsValid e key info present =
      let missing : stored no_ghosts e key ≡ none =
        ap (λ found. Assoc.find (value_or found []) key) (find-empty e) ∙ find-nil key in
      ground (arith, missing, present)

module _ ⦃h : HashMap⦄ (readings : ℕ → ℕ) (strict : (n : ℕ) → readings n < readings (suc n)) where
  stored-put :
      (g : Ghosts) (eid e : String) (props : Properties) (next : Map Update) (n : ℕ)
      → props_of (record { ett_props = put g.ett_props eid props; next_update = next; reads = n }) e
        ≡ (if eid == e then props else props_of g e)
  stored-put g eid e props next n = ground (arith, find-put_map g.ett_props eid e props)

  put-IsValid :
      (g : Ghosts) (eid : String) (props : Properties) (next : Map Update) (n : ℕ)
      → g.reads ≤ n
      → IsPast readings props n
      → IsValid readings g
      → IsValid readings
          (record { ett_props = put g.ett_props eid props; next_update = next; reads = n })
  put-IsValid g eid props next n le past valid e = elim (Bool-cases (eid == e)) [
    | inl hit ↦ rw (stored-put g eid e props next n, hit) past
    | inr miss ↦
        rw (stored-put g eid e props next n, miss)
          (IsPast-mono readings strict (props_of g e) g.reads n le (valid e))
  ]

  pub poll_property_update-pending :
      (g : Ghosts) (eid key e j : String)
      → IsValid readings g
      → ((poll_property_update readings g eid key).1 ≡ pending g eid key)
        × (pending (poll_property_update readings g eid key).0 e j
            ≡ (if (eid == e) && (key == j) then none else pending g e j))
  unfolding poll_property_update
  poll_property_update-pending g eid key e j valid = elim (Option-cases (pending g eid key)) [
    | inl e₀ ↦
        ground (arith, eq_iff eid e, eq_iff key j, find-put_map g.ett_props eid e (props_of g eid))
    | inr (v, e₁) ↦ ground (
      arith,
      eq_iff eid e,
      eq_iff key j,
      get-acknowledge_sync readings strict (props_of g eid) g.reads key j (valid eid),
      find-put_map g.ett_props eid e (acknowledge_sync readings (props_of g eid) g.reads key).0,
    )
  ]

  pub poll_property_update-IsValid :
      (g : Ghosts) (eid key : String)
      → IsValid readings g
      → IsValid readings (poll_property_update readings g eid key).0
  unfolding poll_property_update
  poll_property_update-IsValid g eid key valid = elim (Option-cases (pending g eid key)) [
    | inl e₀ ↦
        rw (e₀, poll_property_update)
          (put-IsValid g eid (props_of g eid) g.next_update g.reads (omega arith) (valid eid) valid)
    | inr (v, e₁) ↦
        rw (e₁, poll_property_update)
          (put-IsValid g eid (acknowledge_sync readings (props_of g eid) g.reads key).0
            g.next_update (acknowledge_sync readings (props_of g eid) g.reads key).1
            (le-acknowledge_sync readings strict (props_of g eid) g.reads key)
            (acknowledge_sync-IsPast readings strict (props_of g eid) g.reads key (valid eid))
            valid)
  ]

  pub update_property_state-pending :
      (g : Ghosts) (container : String) (owned : Bool) (eid key value e j : String)
      → IsValid readings g
      → pending (update_property_state readings g container owned eid key value) e j ≡ (
          if ((eid == e) && (key == j))
            && ((owned && not (container == "")) && differs (stored g eid key) value)
          then some value
          else pending g e j)
  unfolding update_property_state
  update_property_state-pending g container owned eid key value e j valid = ground (
    arith,
    eq_iff eid e,
    eq_iff key j,
    eq_iff container "",
    get-set readings strict (props_of g eid) g.reads key j value (valid eid),
    find-put_map g.ett_props eid e (set readings (props_of g eid) g.reads key value).0,
  )

  pub update_property_state-IsValid :
      (g : Ghosts) (container : String) (owned : Bool) (eid key value : String)
      → IsValid readings g
      → IsValid readings (update_property_state readings g container owned eid key value)
  unfolding update_property_state
  update_property_state-IsValid g container owned eid key value valid =
      elim (Bool-cases (container == "" || not owned)) [
        | inl guard ↦ rw (guard, update_property_state) valid
        | inr pass ↦
            rw (pass, update_property_state)
              (put-IsValid g eid (set readings (props_of g eid) g.reads key value).0
                (schedule g container eid key value
                  (set readings (props_of g eid) g.reads key value)).next_update
                (set readings (props_of g eid) g.reads key value).1
                (le-set readings strict (props_of g eid) g.reads key value)
                (set-IsPast readings strict (props_of g eid) g.reads key value (valid eid)) valid)
      ]
