-- ===== src/Ghost/Replicate.antt =====
-- From the change of a property in a server to the poll of the engine of a peer that is subscribed to
-- the container (system/common_src/GhostSystem.cpp). `dump` and `parse` are those of the documents, and
-- the two peers have clocks of their own.
use celte_system.Prelude.{
  List, refl, is_some, contains, IsDistinct, if◌then◌else◌, ℕ, suc, ◌<◌, ◌≡◌, ap, ◌∙◌, String, [],
  ◌∷◌, Bool, true, false, Option, some, map, ◌==◌, eq_iff, arith, Option-cases, inl, inr,
}
use celte_system.Prelude.Assoc
use celte_system.Prelude.Assoc.{Assoc}
use celte_system.Prelude.HashMap.{
  HashMap, Map, find, put, keys, contains-keys, keys-IsDistinct, find-put as find-put_map,
}
use celte_system.Ghost.Defs.{
  Update, Ghosts, props_of, set, update_property_state, poll_property_update, fetch_next_update,
  update_of, write_update, process_update, handle_replication_packet, apply_document, fetch_all,
  apply_update, set_all,
}
use celte_system.Ghost.Poll.{differs, get-set}
use celte_system.Ghost.Store.{IsValid, pending, stored}
use celte_system.Ghost.Seen.{fetch_next_update-find, update_of-update, poll_property_update-get}

module _ ⦃h : HashMap⦄ where
  -- A round of the loop of StartReplicationUploadWorker: what is left, and the packet for each
  -- container.
  unfoldable pub upload_round : (has_writer : String → Bool) → Ghosts → Ghosts × Assoc Update
  upload_round has_writer g =
      let (left, update) = fetch_next_update g in (left, process_update has_writer update)

  -- A text of an update as the member of a document.
  abbrev texts : Assoc String → Assoc (Option String)
  texts members = map (λ (m : String × String). (m.0, some m.1)) members

  abbrev pub document : Update → Assoc (Assoc (Option String))
  document u = map (λ (e : String × Assoc String). (e.0, texts e.1)) u

  -- All packets for a container.
  abbrev pub packets_for : Assoc Update → String → List Update
  packets_for [] c = []
  packets_for ((d, u) ∷ rest) c = let more = packets_for rest c in if d == c then u ∷ more else more

  abbrev nonempty : List Update → List Update
  nonempty [] = []
  nonempty ([] ∷ us) = nonempty us
  nonempty ((e ∷ es) ∷ us) = (e ∷ es) ∷ nonempty us

  packets_for-process_update :
      (has_writer : String → Bool) (us : Assoc Update) (c : String)
      → has_writer c ≡ true
      → packets_for (process_update has_writer us) c ≡ nonempty (packets_for us c)
  unfolding process_update
  packets_for-process_update has_writer [] c writes = refl
  packets_for-process_update has_writer ((d, []) ∷ us) c writes =
      ground (arith, eq_iff d c, packets_for-process_update has_writer us c writes)
  packets_for-process_update has_writer ((d, u ∷ more) ∷ us) c writes =
      ground (arith, eq_iff d c, packets_for-process_update has_writer us c writes)

  fetch_all-missing :
      (next : Map Update) (ks : List String) (c : String)
      → contains c ks ≡ false
      → packets_for (fetch_all next ks).1 c ≡ []
  unfolding fetch_all contains
  fetch_all-missing next [] c absent = refl
  fetch_all-missing next (k ∷ ks) c absent = elim (Option-cases (find next k)) [
    | inl e ↦ ground (arith, eq_iff k c, fetch_all-missing next ks c)
    | inr (u, e) ↦ ground (arith, eq_iff k c, fetch_all-missing (put next k []) ks c)
  ]

  fetch_all-one :
      (next : Map Update) (ks : List String) (c : String) (u : Update)
      → IsDistinct ks
      → contains c ks ≡ true
      → find next c ≡ some u
      → packets_for (fetch_all next ks).1 c ≡ u ∷ []
  unfolding fetch_all contains
  fetch_all-one next [] c u distinct there found = cc
  fetch_all-one next (k ∷ ks) c u distinct there found = elim (Option-cases (find next k)) [
    | inl e ↦ ground (arith, eq_iff k c, fetch_all-one next ks c u distinct.1)
    | inr (v, e) ↦ ground (
      arith,
      eq_iff k c,
      distinct.0,
      find-put_map next k c [],
      fetch_all-missing (put next k []) ks c,
      fetch_all-one (put next k []) ks c u distinct.1,
    )
  ]

  upload_round-one :
      (has_writer : String → Bool) (g : Ghosts) (c : String) (e : String × Assoc String)
      (es : Update)
      → find g.next_update c ≡ some (e ∷ es)
      → has_writer c ≡ true
      → packets_for (upload_round has_writer g).1 c ≡ (e ∷ es) ∷ []
  unfolding upload_round fetch_next_update
  upload_round-one has_writer g c e es waiting writes =
      let there : contains c (keys g.next_update) ≡ true =
        contains-keys g.next_update c ∙ ap is_some waiting in
      packets_for-process_update has_writer (fetch_next_update g).1 c writes
      ∙ ap nonempty (
          fetch_all-one g.next_update (keys g.next_update) c (e ∷ es)
            (keys-IsDistinct g.next_update) there waiting)

  upload_round-find :
      (has_writer : String → Bool) (g : Ghosts) (c : String) (e : String × Assoc String)
      (es : Update)
      → update_of g c ≡ e ∷ es
      → has_writer c ≡ true
      → (packets_for (upload_round has_writer g).1 c ≡ (e ∷ es) ∷ [])
        × (update_of (upload_round has_writer g).0 c ≡ [])
  unfolding upload_round
  upload_round-find has_writer g c e es scheduled writes =
      let (_, left) = fetch_next_update-find g c in
      let waiting : find g.next_update c ≡ some (e ∷ es) =
        elim (Option-cases (find g.next_update c)) [
          | inl missing ↦ absurd (ground (arith, missing, scheduled))
          | inr (u, there) ↦ ground (arith, there, scheduled)
        ] in
      (upload_round-one has_writer g c e es waiting writes, left)

  write_update-nil :
      (u : Update) (eid key value : String)
      → u ≡ []
      → write_update u eid key value ≡ (eid, (key, value) ∷ []) ∷ []
  unfolding Assoc.find Assoc.put
  write_update-nil u eid key value e = ap (λ x. write_update x eid key value) e

module _ ⦃h : HashMap⦄ (readings : ℕ → ℕ) (strict : (n : ℕ) → readings n < readings (suc n)) where
  pending-handle_replication_packet :
      (parse : String → Option (Assoc (Assoc (Option String)))) (packet : String) (g : Ghosts)
      (eid key value : String)
      → parse packet ≡ some (document ((eid, (key, value) ∷ []) ∷ []))
      → IsValid readings g
      → differs (stored g eid key) value ≡ true
      → pending (handle_replication_packet readings parse g packet) eid key ≡ some value
  unfolding handle_replication_packet apply_document apply_update set_all
  pending-handle_replication_packet parse packet g eid key value parsed valid new =
      let props = (set readings (props_of g eid) g.reads key value).0 in
      ground (
        arith,
        eq_iff eid eid,
        eq_iff key key,
        find-put_map g.ett_props eid eid props,
        get-set readings strict (props_of g eid) g.reads key key value (valid eid),
      )

module _ ⦃h : HashMap⦄ (readings readings' : ℕ → ℕ)
    (strict' : (n : ℕ) → readings' n < readings' (suc n)) (dump : Update → String)
    (parse : String → Option (Assoc (Assoc (Option String)))) where
  -- A server sets a property of an owned entity to a new value, where nothing else waits for the
  -- container and its writer stream is there. The next round of the upload sends one packet for the
  -- container and leaves nothing for it, and a peer that handles this packet gives the value at its
  -- next poll, where its parser reads the document back, the value is new to it, its clock moves at
  -- each reading and its times are past.
  pub poll-upload_round :
      (has_writer : String → Bool) (g client : Ghosts) (container eid key value : String)
      → container == "" ≡ false
      → differs (stored g eid key) value ≡ true
      → update_of g container ≡ []
      → has_writer container ≡ true
      → IsValid readings' client
      → differs (stored client eid key) value ≡ true
      → parse (dump ((eid, (key, value) ∷ []) ∷ []))
        ≡ some (document ((eid, (key, value) ∷ []) ∷ []))
      → let updated = update_property_state readings g container true eid key value in
        let (left, packets) = upload_round has_writer updated in
        (u : Update) × (packets_for packets container ≡ u ∷ [])
        × (update_of left container ≡ [])
        × ((poll_property_update readings'
              (handle_replication_packet readings' parse client (dump u))
              eid
              key).1
            ≡ some value)
  poll-upload_round has_writer g client container eid key value named new idle writes valid unseen
        parsed =
      let updated = update_property_state readings g container true eid key value in
      let scheduled : update_of updated container ≡ (eid, (key, value) ∷ []) ∷ [] = ground (
        arith,
        eq_iff container container,
        update_of-update readings g container true eid key value container,
        write_update-nil (update_of g container) eid key value idle,
      ) in
      let (sent, left) =
        upload_round-find has_writer updated container (eid, (key, value) ∷ []) [] scheduled
          writes in
      let u : Update = (eid, (key, value) ∷ []) ∷ [] in
      (
        u,
        sent,
        left,
        poll_property_update-get readings'
              (handle_replication_packet readings' parse client (dump u)) eid key
            ∙ pending-handle_replication_packet readings' strict' parse (dump u) client eid key
                value parsed valid unseen,
      )
