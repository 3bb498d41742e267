-- ===== src/Peer/Grapes.antt =====
-- GrapeRegistry and the queues of Grape (system/include/GrapeRegistry.hpp,
-- system/common_src/GrapeRegistry.cpp, system/include/Grape.hpp), with PeerService::AssignGrape
-- (system/common_src/PeerService.cpp). The arguments of a named task are a list of texts.
use celte_system.Prelude.{
  ℕ, Bool, true, false, not, String, List, [], ◌∷◌, ◌++◌, Option, none, some, is_some, value_or,
  if◌then◌else◌, ◌==◌, ◌&&◌, contains, insert, remove,
}
use celte_system.Prelude.Assoc
use celte_system.Prelude.Assoc.{Assoc}
use celte_system.Prelude.HashMap.{HashMap, Map, find, put, erase, keys}
pub mod Laws

abbrev pub Args : Type 0
Args = List String

pub record Grape : Type 0 where
  pub id : String
  pub is_locally_owned : Bool
  pub proxy_subscriptions : List String
  pub named_tasks_queues : Assoc (List Args)

-- The calls that SetRemoteGrapeSubscription makes on another grape.
pub data GrapeCall : Type 0 where
  subscribe_to_container : (grape_id owner_of_container_id container_id : String) → GrapeCall
  unsubscribe_from_container : (grape_id owner_of_container_id container_id : String) → GrapeCall

-- A grape as the hash map creates it.
abbrev pub blank_grape : Grape
blank_grape = record {
  id = "";
  is_locally_owned = false;
  proxy_subscriptions = [];
  named_tasks_queues = [];
}

-- Grape::pushNamedTaskToEngine
unfoldable pub push_named_task : Grape → String → Args → Grape
push_named_task g name args = record g {
  named_tasks_queues =
      Assoc.put g.named_tasks_queues name
        (value_or (Assoc.find g.named_tasks_queues name) [] ++ (args ∷ []));
}

-- Grape::popNamedTaskFromEngine
unfoldable pub pop_named_task : Grape → String → Grape × Option Args
pop_named_task g name = elim (Assoc.find g.named_tasks_queues name) [
  | none ↦ (g, none)
  | some [] ↦ (g, none)
  | some (args ∷ rest) ↦
      (record g { named_tasks_queues = Assoc.put g.named_tasks_queues name rest }, some args)
]

module _ ⦃h : HashMap⦄ where
  -- `assigned_grape` is that of the runtime, and `calls` what was called on other grapes.
  pub record Grapes : Type 0 where
    pub grapes : Map Grape
    pub assigned_grape : String
    pub calls : List GrapeCall

  -- RegisterGrape, less the task that calls onReady: false is an exception. The grape is in the map
  -- before the second test.
  unfoldable pub register_grape : (server : Bool) → Grapes → String → Bool → Grapes × Bool
  register_grape server gs grape_id is_locally_owned = elim (find gs.grapes grape_id) [
    | some g ↦ (gs, false)
    | none ↦
        if server && (is_locally_owned && not (gs.assigned_grape == ""))
        then (record gs { grapes = put gs.grapes grape_id blank_grape }, false)
        else (
          record gs {
            grapes =
                put gs.grapes grape_id
                  (record blank_grape { id = grape_id; is_locally_owned = is_locally_owned });
            assigned_grape = if server && is_locally_owned then grape_id else gs.assigned_grape;
          },
          true,
        )
  ]

  unfoldable unregister_grape : Grapes → String → Grapes
  unregister_grape gs grape_id = record gs { grapes = erase gs.grapes grape_id }

  -- PeerService::AssignGrape, less the hook that it queues.
  unfoldable pub assign_grape : Grapes → String → Grapes
  assign_grape gs grape_id = record gs { assigned_grape = grape_id }

  unfoldable pub with_grape : Grapes → String → (Grape → Grape) → Grapes
  with_grape gs grape_id f = elim (find gs.grapes grape_id) [
    | none ↦ gs
    | some g ↦ record gs { grapes = put gs.grapes grape_id (f g) }
  ]

  abbrev pub grape_exists : Grapes → String → Bool
  grape_exists gs grape_id = is_some (find gs.grapes grape_id)

  unfoldable is_grape_locally_owned : Grapes → String → Bool
  is_grape_locally_owned gs grape_id = elim (find gs.grapes grape_id) [
    | none ↦ false
    | some g ↦ g.is_locally_owned
  ]

  unfoldable get_grape_id : Grapes → String → String
  get_grape_id gs grape_id = elim (find gs.grapes grape_id) [ none ↦ "" | some g ↦ g.id ]

  unfoldable set_grape_locally_owned : Grapes → String → Bool → Grapes
  set_grape_locally_owned gs grape_id is_locally_owned =
      with_grape gs grape_id (λ g. record g { is_locally_owned = is_locally_owned })

  unfoldable get_known_grapes : Grapes → List String
  get_known_grapes gs = keys gs.grapes

  unfoldable pub push_named_task_to_engine : Grapes → String → String → Args → Grapes
  push_named_task_to_engine gs grape_id name args =
      with_grape gs grape_id (λ g. push_named_task g name args)

  unfoldable pub pop_named_task_from_engine : Grapes → String → String → Grapes × Option Args
  pop_named_task_from_engine gs grape_id name = elim (find gs.grapes grape_id) [
    | none ↦ (gs, none)
    | some g ↦
        let (g', args) = pop_named_task g name in
        (record gs { grapes = put gs.grapes grape_id g' }, args)
  ]

  unfoldable pub set_remote_grape_subscription :
      Grapes → (owner_of_container_id grape_id container_id : String) → Bool → Grapes
  set_remote_grape_subscription gs owner grape_id container_id wants =
      let update = λ (g : Grape) (subs : List String) (call : GrapeCall). record gs {
        grapes = put gs.grapes grape_id (record g { proxy_subscriptions = subs });
        calls = gs.calls ++ (call ∷ []);
      } in
      if grape_id == gs.assigned_grape then gs else elim (find gs.grapes grape_id) [
        | none ↦ gs
        | some g ↦
            let subscribed = contains container_id g.proxy_subscriptions in
            if wants && not subscribed
            then update g (insert container_id g.proxy_subscriptions)
                (subscribe_to_container grape_id owner container_id)
            else if not wants && subscribed
            then update g (remove container_id g.proxy_subscriptions)
                (unsubscribe_from_container grape_id owner container_id)
            else gs
      ]
