-- ===== src/Peer/Loading.antt =====
-- How a peer loads the entities of a container from the server of a grape: GetExistingEntities there and
-- LoadExistingEntities here (system/common_src/ETTRegistry.cpp). `dump` and `parse` are those of the
-- document of one entity.
pub mod Laws
use celte_system.Prelude.{ℕ, Bool, String, List, [], ◌∷◌, Option, none, some, map}
use celte_system.Prelude.Assoc.{Assoc}
use celte_system.Prelude.HashMap.{HashMap}
use celte_system.Peer.State.{Items, Peer}
use celte_system.Peer.Entities.{get_existing_entities, load_entities}

module _ ⦃h : HashMap⦄ where
  -- GetExistingEntities with its documents.
  unfoldable pub existing_documents :
      (dump : String × Assoc String → String) → Peer → String → Peer × Assoc String
  existing_documents dump p container_id =
      let (p', etts) = get_existing_entities p container_id in
      (p', map (λ (e : String × (String × Assoc String)). (e.0, dump e.1)) etts)

  -- LoadExistingEntities, where the call comes to `answer`: the callback runs where there is one.
  unfoldable pub load_existing_entities :
      (server : Bool) (tp_peer tp_rpc : String → String) (readings : ℕ → ℕ)
      (parse : String → Option (String × Items))
      → Peer
      → (container_id : String) → Option (Assoc String)
      → Peer
  load_existing_entities server tp_peer tp_rpc readings parse p container_id none = p
  load_existing_entities server tp_peer tp_rpc readings parse p container_id (some entities) =
      load_entities server tp_peer tp_rpc readings parse p container_id entities
