-- ===== src/Peer/GrapeContainers.antt =====
-- The containers of grapes in a server: Grape::__subscribeToContainer and what GrapeRegistry builds on
-- it (system/include/Grape.hpp, system/common_src/Grape.cpp, system/include/GrapeRegistry.hpp,
-- system/common_src/GrapeRegistry.cpp). What is fetched from other peers in tasks is logged in `loads`,
-- and `services` of the peer holds the reactors; `none` is an exception.
pub mod Laws
use celte_system.Prelude.{
  ℕ, Bool, true, false, not, String, List, [], ◌∷◌, ◌++◌, Option, none, some, value_or,
  if◌then◌else◌, ◌==◌, ◌≡◌, arith, eq_iff, Option-cases, inl, inr,
}
use celte_system.Prelude.Assoc
use celte_system.Prelude.Assoc.{Assoc}
use celte_system.Prelude.HashMap.{HashMap, Map, find, put, find-put}
use celte_system.Peer.State.{Peer}
use celte_system.Peer.Containers.{container_is_locally_owned}
use celte_system.Peer.Entities.{get_entity_owner_container, get_entity_payload}
use celte_system.Peer.Subscriptions.{Subscribed, OnReady, subscribe, unsubscribe}

-- The part of a Grape that is about containers.
pub record Holder : Type 0 where
  pub id : String
  pub is_locally_owned : Bool
  pub subscriptions : List String
  pub owned_containers : Assoc (Option ℕ)

unfoldable pub get_native_handle : Holder → String → Option ℕ
get_native_handle g container_id = elim (Assoc.find g.owned_containers container_id) [
  | none ↦ none
  | some handle ↦ handle
]

unfoldable set_native_handle : Holder → String → ℕ → Holder
set_native_handle g container_id handle = record g {
  owned_containers = Assoc.put g.owned_containers container_id (some handle);
}

-- GetExistingOwnedContainers
unfoldable pub get_existing_owned_containers : Holder → List String
get_existing_owned_containers g = Assoc.keys g.owned_containers

module _ ⦃h : HashMap⦄ where
  pub record Server : Type 0 where
    pub grapes : Map Holder
    pub peer : Peer
    -- The calls of LoadExistingEntities: a grape and a container.
    pub loads : List (String × String)
    -- The calls of Grape::ProxyTakeAuthority: a grape, the entity, its container and its payload.
    pub proxied : List (String × String × String × String)

  -- GrapeRegistry::SetOwnedContainerNativeHandle
  unfoldable set_owned_container_native_handle : Map Holder → String → String → ℕ → Map Holder
  set_owned_container_native_handle grapes owner_grape_id container_id handle =
      elim (find grapes owner_grape_id) [
        | none ↦ grapes
        | some g ↦ put grapes owner_grape_id (set_native_handle g container_id handle)
      ]

  -- GrapeRegistry::GetOwnedContainerNativeHandle
  unfoldable get_owned_container_native_handle : Map Holder → String → String → Option ℕ
  get_owned_container_native_handle grapes owner_grape_id container_id =
      elim (find grapes owner_grape_id) [ none ↦ none | some g ↦ get_native_handle g container_id ]

  -- The handle of a container is what the engine set last for it through the same grape.
  get-set_owned_container_native_handle :
      (grapes : Map Holder) (g : Holder) (grape_id c d : String) (handle : ℕ)
      → find grapes grape_id ≡ some g
      → get_owned_container_native_handle
          (set_owned_container_native_handle grapes grape_id c handle)
          grape_id
          d
        ≡ (if c == d then some handle else get_owned_container_native_handle grapes grape_id d)
  unfolding set_owned_container_native_handle get_owned_container_native_handle set_native_handle
      get_native_handle
  get-set_owned_container_native_handle grapes g grape_id c d handle there =
      let g' = set_native_handle g c handle in
      elim (Option-cases (Assoc.find g.owned_containers d)) [
        | inl e ↦ ground (
          arith,
          there,
          find-put grapes grape_id grape_id g',
          eq_iff grape_id grape_id,
          Assoc.find-put g.owned_containers c d (some handle),
        )
        | inr (x, e) ↦ ground (
          arith,
          there,
          find-put grapes grape_id grape_id g',
          eq_iff grape_id grape_id,
          Assoc.find-put g.owned_containers c d (some handle),
        )
      ]

  module _ (tp_rpc : String → String) where
    -- __subscribeToContainer on the grape `g` of the registry.
    unfoldable pub subscribe_to_container :
        (uuid : String) → Server → Holder → String → Bool → Option (Server × Holder × Option String)
    subscribe_to_container uuid s g container_id is_locally_owned =
        elim (subscribe true tp_rpc uuid s.peer g.subscriptions container_id is_locally_owned) [
          | none ↦ none
          | some done ↦
              let s' = record s { peer = done.peer } in
              let g' = record g { subscriptions = done.subscriptions } in
              elim done.id [
                | none ↦ some (s', g', none)
                | some id ↦
                    if is_locally_owned
                    then some (
                      s',
                      record g' { owned_containers = Assoc.put g.owned_containers id none },
                      some id,
                    )
                    else some
                        (record s' { loads = s.loads ++ ((g.id, container_id) ∷ []) }, g', some id)
              ]
        ]

    -- The grape is written back through its accessor.
    unfoldable pub store : String → Server × Holder × Option String → Server × Option String
    store grape_id (s, g, id) = (record s { grapes = put s.grapes grape_id g }, id)

    unfoldable pub container_create_and_attach :
        (uuid : String) → Server → (grape_id id : String) → Option (Server × String)
    container_create_and_attach uuid s grape_id id = elim (find s.grapes grape_id) [
      | none ↦ some (s, "error-bad-grape")
      | some g ↦ elim (subscribe_to_container uuid s g id g.is_locally_owned) [
        | none ↦ none
        | some done ↦ let (s', final) = store grape_id done in some (s', value_or final id)
      ]
    ]

    unfoldable subscribe_grape_to_container :
        (uuid : String) → Server → (grape_id container_id : String) → Option (Server × Bool)
    subscribe_grape_to_container uuid s grape_id container_id = elim (find s.grapes grape_id) [
      | none ↦ some (s, false)
      | some g ↦ elim (subscribe_to_container uuid s g container_id false) [
        | none ↦ none
        | some done ↦ let (s', final) = store grape_id done in some (s', true)
      ]
    ]

    -- fetchExistingContainers on the containers that the owner of the grape answers. An exception
    -- of a subscription ends the loop and is caught; the grape keeps what was done before.
    unfoldable pub fetch_containers :
        (uuid : String) → Server → Holder → List String → Server × Holder
    fetch_containers uuid s g [] = (s, g)
    fetch_containers uuid s g (c ∷ cs) = elim (subscribe_to_container uuid s g c false) [
      | none ↦ (s, g)
      | some (s', g', id) ↦ fetch_containers uuid s' g' cs
    ]

    unfoldable pub fetch_existing_containers :
        (uuid assigned_grape : String) → Option (List String) → Server → Holder → Server × Holder
    fetch_existing_containers uuid assigned_grape answer s g =
        if g.id == assigned_grape then (s, g) else fetch_containers uuid s g (value_or answer [])

  -- __unsubscribeFromContainer and UnsubscribeGrapeFromContainer.
  unfoldable pub unsubscribe_grape_from_container :
      Server → (grape_id container_id : String) → Server
  unsubscribe_grape_from_container s grape_id container_id = elim (find s.grapes grape_id) [
    | none ↦ s
    | some g ↦
        let (peer, subscriptions) = unsubscribe true s.peer g.subscriptions container_id in
        if container_is_locally_owned s.peer.containers container_id then s else record s {
          peer = peer;
          grapes = put s.grapes grape_id (record g { subscriptions = subscriptions });
        }
  ]

  unfoldable proxy_take_authority : Server → (grape_id entity_id : String) → Server
  proxy_take_authority s grape_id entity_id =
      let from = get_entity_owner_container s.peer.entities entity_id in
      let payload = value_or (get_entity_payload s.peer.entities entity_id) "{}" in
      if not (container_is_locally_owned s.peer.containers from)
      then s
      else elim (find s.grapes grape_id) [
        | none ↦ s
        | some g ↦
            if g.is_locally_owned
            then s
            else record s { proxied = s.proxied ++ ((grape_id, entity_id, from, payload) ∷ []) }
      ]
