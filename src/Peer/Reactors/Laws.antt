-- ===== src/Peer/Reactors/Laws.antt =====
-- Which object answers a remote method (system/include/CRPC.hpp, system/common_src/Grape.cpp,
-- system/common_src/Container.cpp).
use celte_system.Prelude.{
  ℕ, ◌≡◌, ap, ◌∙◌, Bool, true, false, String, List, [], ◌∷◌, Option, none, some, if◌then◌else◌,
  ◌==◌, ◌&&◌, arith, eq_iff, Option-cases, inl, inr, contains,
}
use celte_system.Prelude.HashMap.{HashMap}
use celte_system.Prelude.Json.{Json}
use celte_system.Rpc.Stub.Defs.{Process, Handler}
use celte_system.Rpc.Stub.Calls.{delegate, delegate-register_method, delegate-unregister_method}
use celte_system.Rpc.Builder.{type_name, on_peer, on_scope}
use celte_system.Topics
use celte_system.Peer.Reactors.{
  grape_peer_methods, grape_scope_methods, container_methods, subscribe, subscribe_all, unsubscribe,
  unsubscribe_all, init_grape, init_container, destroy_container,
}

-- The names under which a class registers its methods.
abbrev pub names : String → List String → List String
names bound_class [] = []
names bound_class (m ∷ ms) = type_name bound_class m ∷ names bound_class ms

-- The names that the methods have in the requests of other peers.
abbrev pub grape_peer_names : List String
grape_peer_names =
    "Grape_call_GetExistingEntities" ∷ "Grape_call_GetExistingOwnedContainers"
    ∷ "Grape_call_SubscribeToContainer" ∷ "Grape_call_UnsubscribeFromContainer"
    ∷ "Grape_call_ProxyTakeAuthority" ∷ "Grape_call_RequestClientDisconnect" ∷ "Grape_call_Ping"
    ∷ "Grape_call_CMIInstantiate" ∷ "Grape_call_RPCHandler" ∷ []

abbrev pub grape_scope_names : List String
grape_scope_names = "Grape_call_RPCHandler" ∷ "Grape_call_ExecClientDisconnect" ∷ []

abbrev pub container_names : List String
container_names =
    "Container_call_TakeAuthority" ∷ "Container_call_DropAuthority" ∷ "Container_call_DeleteEntity"
    ∷ []

abbrev pub or_else {ℓ} : {A : Type ℓ} → Option A → Option A → Option A
or_else none b = b
or_else (some a) b = some a

module _ ⦃h : HashMap⦄ ⦃j : Json⦄ {S : Type 0} where
  module _ (bind : ℕ → String → Handler S) (instance_number : ℕ) where
    -- The delegate that the object gives for a name on a topic that it subscribes.
    abbrev pub offered : (topic : String) → List String → (scope name : String) → Option (Handler S)
    offered topic served scope name =
        if topic == scope && contains name served then some (bind instance_number name) else none

    pub delegate-subscribe :
        (bound_class m : String) (p : Process S) (topic scope name : String)
        → delegate (subscribe bind bound_class m p topic instance_number) scope name
          ≡ or_else (delegate p scope name) (
              if topic == scope && (type_name bound_class m == name)
              then some (bind instance_number name)
              else none)
    unfolding subscribe
    delegate-subscribe bound_class m p topic scope name =
        let n = type_name bound_class m in
        let law = delegate-register_method p topic n scope name (bind instance_number n) in
        elim (Option-cases (delegate p scope name)) [
          | inl e ↦ ground (arith, law, eq_iff topic scope, eq_iff n name)
          | inr (f, e) ↦ ground (arith, law, eq_iff topic scope, eq_iff n name)
        ]

    pub delegate-subscribe_all :
        (bound_class : String) (ms : List String) (p : Process S) (topic scope name : String)
        → delegate (subscribe_all bind bound_class ms p topic instance_number) scope name
          ≡ or_else (delegate p scope name) (offered topic (names bound_class ms) scope name)
    unfolding subscribe_all contains
    delegate-subscribe_all bound_class [] p topic scope name =
        elim (Option-cases (delegate p scope name)) [
          | inl e ↦ ground arith
          | inr (f, e) ↦ ground arith
        ]
    delegate-subscribe_all bound_class (m ∷ ms) p topic scope name =
        let p₁ = subscribe bind bound_class m p topic instance_number in
        let ih = delegate-subscribe_all bound_class ms p₁ topic scope name in
        let law = delegate-subscribe bound_class m p topic scope name in
        elim (Option-cases (delegate p scope name)) [
          | inl e ↦ ground (arith, ih, law)
          | inr (f, e) ↦ ground (arith, ih, law)
        ]

  delegate-unsubscribe_all :
      (bound_class : String) (ms : List String) (p : Process S) (topic scope name : String)
      → delegate (unsubscribe_all bound_class ms p topic) scope name ≡ (
          if topic == scope && contains name (names bound_class ms)
          then none
          else delegate p scope name)
  unfolding unsubscribe_all unsubscribe contains
  delegate-unsubscribe_all bound_class [] p topic scope name = ground arith
  delegate-unsubscribe_all bound_class (m ∷ ms) p topic scope name =
      let p₁ = unsubscribe bound_class m p topic in
      ground (
        arith,
        delegate-unsubscribe_all bound_class ms p₁ topic scope name,
        delegate-unregister_method p topic (type_name bound_class m) scope name,
        eq_iff topic scope,
        eq_iff (type_name bound_class m) name,
      )

  module _ (bind : ℕ → String → Handler S) where
    -- The methods of the container that the process serves.
    abbrev served : Process S → (default_scope id name : String) → Option (Handler S)
    served p default_scope id name = delegate p (Topics.rpc default_scope id) name

    -- Where a container is created again under its id while its earlier object is still there, and
    -- TakeAuthority, DropAuthority or DeleteEntity of it was not served before: the calls of this
    -- method run on the earlier object and not on the new one, and all that is not one of these
    -- three methods of the container stays as it was.
    pub init_container-again :
        (default_scope : String) (p : Process S) (id name : String) (i i' : ℕ)
        → contains name container_names ≡ true
        → served p default_scope id name ≡ none
        → let q =
            init_container bind default_scope (init_container bind default_scope p id i) id i' in
          (served q default_scope id name ≡ some (bind i name))
          × ((scope' name' : String)
              → (Topics.rpc default_scope id == scope' && contains name' container_names) ≡ false
              → delegate q scope' name' ≡ delegate p scope' name')
    unfolding init_container type_name
    init_container-again default_scope p id name i i' serves fresh =
        let topic = Topics.rpc default_scope id in
        let p₁ = subscribe_all bind "Container" container_methods p topic i in
        (
          ground (
            arith,
            eq_iff topic topic,
            delegate-subscribe_all bind i "Container" container_methods p topic topic name,
            delegate-subscribe_all bind i' "Container" container_methods p₁ topic topic name,
          ),
          λ scope' name' other. elim (Option-cases (delegate p scope' name')) [
            | inl e ↦ ground (
              arith,
              delegate-subscribe_all bind i "Container" container_methods p topic scope' name',
              delegate-subscribe_all bind i' "Container" container_methods p₁ topic scope' name',
            )
            | inr (f, e) ↦ ground (
              arith,
              delegate-subscribe_all bind i "Container" container_methods p topic scope' name',
              delegate-subscribe_all bind i' "Container" container_methods p₁ topic scope' name',
            )
          ],
        )

    -- The destructor of a container leaves no object that answers a method of it.
    destroy_container-none :
        (default_scope : String) (p : Process S) (id name : String)
        → contains name container_names ≡ true
        → served (destroy_container default_scope p id) default_scope id name ≡ none
    unfolding destroy_container type_name
    destroy_container-none default_scope p id name serves =
        let topic = Topics.rpc default_scope id in
        ground (
          arith,
          eq_iff topic topic,
          delegate-unsubscribe_all "Container" container_methods p topic topic name,
        )

  module _ (bind : ℕ → String → Handler S) (default_scope : String) where
    abbrev own_topic : String → String
    own_topic = Topics.peer default_scope

    abbrev all_topic : String → String
    all_topic = Topics.rpc default_scope

    delegate-init_grape :
        (p : Process S) (id : String) (owned : Bool) (i : ℕ) (scope name : String)
        → delegate (init_grape bind true default_scope p id owned i) scope name
          ≡ or_else
              (or_else (delegate p scope name) (
                if owned
                then offered bind i (own_topic id) (names "Grape" grape_peer_methods) scope name
                else none))
              (offered bind i (all_topic id) (names "Grape" grape_scope_methods) scope name)
    unfolding init_grape
    delegate-init_grape p id true i scope name =
        let owned = subscribe_all bind "Grape" grape_peer_methods p (own_topic id) i in
        delegate-subscribe_all bind i "Grape" grape_scope_methods owned (all_topic id) scope name
        ∙ ap
            (λ o.
              or_else o
                (offered bind i (all_topic id) (names "Grape" grape_scope_methods) scope name))
            (delegate-subscribe_all bind i "Grape" grape_peer_methods p (own_topic id) scope name)
    delegate-init_grape p id false i scope name = elim (Option-cases (delegate p scope name)) [
      | inl e ↦ ground (
        arith,
        delegate-subscribe_all bind i "Grape" grape_scope_methods p (all_topic id) scope name,
      )
      | inr (f, e) ↦ ground (
        arith,
        delegate-subscribe_all bind i "Grape" grape_scope_methods p (all_topic id) scope name,
      )
    ]

    init_grape-peer :
        (p : Process S) (id : String) (owned : Bool) (i : ℕ) (name : String)
        → delegate (init_grape bind true default_scope p id owned i) (own_topic id) name
          ≡ or_else
              (delegate p (own_topic id) name)
              (if owned && contains name grape_peer_names then some (bind i name) else none)
    unfolding type_name
    init_grape-peer p id owned i name =
        let law = delegate-init_grape p id owned i (own_topic id) name in
        let apart = Topics.peer-ne-rpc default_scope id in
        elim (Option-cases (delegate p (own_topic id) name)) [
          | inl e ↦ ground (
            arith,
            law,
            eq_iff (own_topic id) (own_topic id),
            eq_iff (all_topic id) (own_topic id),
            apart,
          )
          | inr (f, e) ↦ ground (
            arith,
            law,
            eq_iff (own_topic id) (own_topic id),
            eq_iff (all_topic id) (own_topic id),
            apart,
          )
        ]

    init_grape-scope :
        (p : Process S) (id : String) (owned : Bool) (i : ℕ) (name : String)
        → delegate (init_grape bind true default_scope p id owned i) (all_topic id) name
          ≡ or_else
              (delegate p (all_topic id) name)
              (if contains name grape_scope_names then some (bind i name) else none)
    unfolding type_name
    init_grape-scope p id owned i name =
        let law = delegate-init_grape p id owned i (all_topic id) name in
        let apart = Topics.peer-ne-rpc default_scope id in
        elim (Option-cases (delegate p (all_topic id) name)) [
          | inl e ↦ ground (
            arith,
            law,
            eq_iff (all_topic id) (all_topic id),
            eq_iff (own_topic id) (all_topic id),
            apart,
          )
          | inr (f, e) ↦ ground (
            arith,
            law,
            eq_iff (all_topic id) (all_topic id),
            eq_iff (own_topic id) (all_topic id),
            apart,
          )
        ]

    -- After a server initialized a grape: where it is owned here, a call on the peer of the grape is
    -- answered by the grape for each of the nine methods of `grape_peer_names` that was not served
    -- before, and every other call on the peer is answered as before; where it is not owned here, no
    -- call on the peer is answered otherwise than before. A call on the scope of the grape is answered
    -- by the grape for each of the two methods of `grape_scope_names` that was not served before, and
    -- every other call on the scope as before, wherever the grape is owned.
    pub init_grape-calls :
        (p : Process S) (id : String) (owned : Bool) (i : ℕ) (name : String)
        → let q = init_grape bind true default_scope p id owned i in
          (delegate q (on_peer default_scope id).scope name
            ≡ or_else
                (delegate p (own_topic id) name)
                (if owned && contains name grape_peer_names then some (bind i name) else none))
          × (delegate q (on_scope default_scope id).scope name
              ≡ or_else
                  (delegate p (all_topic id) name)
                  (if contains name grape_scope_names then some (bind i name) else none))
    unfolding on_peer on_scope Topics.peer Topics.rpc type_name
    init_grape-calls p id owned i name =
        (init_grape-peer p id owned i name, init_grape-scope p id owned i name)

    -- Where an owned grape is initialized, and later another object of the same grape, the calls on
    -- the peer of the grape go on to run on the first object, also when that is destroyed.
    init_grape-again :
        (p : Process S) (id name : String) (owned' : Bool) (i i' : ℕ)
        → contains name (names "Grape" grape_peer_methods) ≡ true
        → delegate p (own_topic id) name ≡ none
        → let q = init_grape bind true default_scope p id true i in
          delegate (init_grape bind true default_scope q id owned' i') (own_topic id) name
          ≡ some (bind i name)
    init_grape-again p id name owned' i i' serves fresh =
        let q = init_grape bind true default_scope p id true i in
        ground (
          arith,
          delegate-init_grape p id true i (own_topic id) name,
          delegate-init_grape q id owned' i' (own_topic id) name,
          eq_iff (own_topic id) (own_topic id),
        )
