-- ===== src/Peer/Grapes/Laws.antt =====
-- The registration of grapes, the queues of named tasks, and the subscriptions of remote grapes
-- (system/common_src/GrapeRegistry.cpp, system/include/Grape.hpp).
use celte_system.Prelude.{
  ◌≡◌, ◌∙◌, ap, refl, Bool, true, false, String, List, [], ◌∷◌, ◌++◌, Option, none, some, value_or,
  if◌then◌else◌, ◌==◌, eq_iff, arith, Bool-cases, Option-cases, inl, inr, insert, remove, map, sym,
  contains-insert, contains-remove,
}
use mathlib.Core.List.{append-nil, append_assoc}
use celte_system.Prelude.Assoc
use celte_system.Prelude.Assoc.{Assoc, find-put}
use celte_system.Prelude.HashMap.{HashMap, find, find-put as find-put_map}
use celte_system.Peer.Grapes.{
  Args, Grape, Grapes, blank_grape, push_named_task, pop_named_task, register_grape, assign_grape,
  set_remote_grape_subscription,
}

-- The tasks that wait under a name.
abbrev pub named_tasks : Grape → String → List Args
named_tasks g name = value_or (Assoc.find g.named_tasks_queues name) []

-- A pushed task comes after those that wait under its name, and no other queue changes.
pub push_named_task-named_tasks :
    (g : Grape) (name n : String) (args : Args)
    → named_tasks (push_named_task g name args) n
      ≡ (if name == n then named_tasks g name ++ (args ∷ []) else named_tasks g n)
unfolding push_named_task
push_named_task-named_tasks g name n args =
    ground (
      arith,
      eq_iff name n,
      find-put g.named_tasks_queues name n (named_tasks g name ++ (args ∷ [])),
    )

queue-found :
    (g : Grape) (name : String) (args : Args) (rest : List Args)
    → named_tasks g name ≡ args ∷ rest
    → Assoc.find g.named_tasks_queues name ≡ some (args ∷ rest)
queue-found g name args rest waiting = elim (Option-cases (Assoc.find g.named_tasks_queues name)) [
  | inl e₀ ↦ absurd (ground (arith, e₀, waiting))
  | inr (q, e₁) ↦ ground (arith, e₁, waiting)
]

pub pop-nonempty :
    (g : Grape) (name : String) (args : Args) (rest : List Args)
    → named_tasks g name ≡ args ∷ rest
    → ((pop_named_task g name).1 ≡ some args)
      × ((n : String)
          → named_tasks (pop_named_task g name).0 n ≡ (if name == n then rest else named_tasks g n))
unfolding pop_named_task
pop-nonempty g name args rest waiting =
    rw (queue-found g name args rest waiting, pop_named_task)
      (refl, λ n. ground (arith, eq_iff name n, find-put g.named_tasks_queues name n rest))

pub push_all : Grape → String → List Args → Grape
push_all g name [] = g
push_all g name (args ∷ more) = push_all (push_named_task g name args) name more

-- The results of as many pops as the list is long.
pub pop_all : Grape → String → List Args → List (Option Args)
pop_all g name [] = []
pop_all g name (x ∷ xs) = (pop_named_task g name).1 ∷ pop_all (pop_named_task g name).0 name xs

push_all-named_tasks :
    (g : Grape) (name : String) (xs : List Args)
    → named_tasks (push_all g name xs) name ≡ named_tasks g name ++ xs
unfolding push_all
push_all-named_tasks g name [] = sym (append-nil (named_tasks g name))
push_all-named_tasks g name (x ∷ xs) =
    push_all-named_tasks (push_named_task g name x) name xs
    ∙ ap (λ q. q ++ xs)
        (ground (arith, eq_iff name name, push_named_task-named_tasks g name name x))
    ∙ append_assoc (named_tasks g name) (x ∷ []) xs

pop_all-named_tasks :
    (g : Grape) (name : String) (q : List Args)
    → named_tasks g name ≡ q
    → pop_all g name q ≡ map some q
unfolding pop_all
pop_all-named_tasks g name [] waiting = refl
pop_all-named_tasks g name (x ∷ xs) waiting =
    let (head, tail) = pop-nonempty g name x xs waiting in
    let rest =
      pop_all-named_tasks (pop_named_task g name).0 name xs
        (ground (arith, tail name, eq_iff name name)) in
    ap (λ o. o ∷ pop_all (pop_named_task g name).0 name xs) head ∙ ap (λ l. some x ∷ l) rest

-- After tasks were pushed under a name, popping this name gives those that waited before and then
-- the pushed ones, in the order in which they were pushed.
pub pop_all-push_all :
    (g : Grape) (name : String) (xs : List Args)
    → pop_all (push_all g name xs) name (named_tasks g name ++ xs)
      ≡ map some (named_tasks g name ++ xs)
pop_all-push_all g name xs =
    pop_all-named_tasks (push_all g name xs) name (named_tasks g name ++ xs)
      (push_all-named_tasks g name xs)

module _ ⦃h : HashMap⦄ where
  -- On a server to which a grape was assigned, the registration of a grape that is owned here and
  -- that it does not know throws an exception, and the grape is registered afterwards all the same,
  -- without its id and not as owned here, so that a second registration throws as well.
  pub register_grape-assigned :
      (gs : Grapes) (assigned grape_id : String)
      → assigned == "" ≡ false
      → find gs.grapes grape_id ≡ none
      → let r = register_grape true (assign_grape gs assigned) grape_id true in
        (r.1 ≡ false)
        × (find r.0.grapes grape_id ≡ some blank_grape)
        × ((owned : Bool) → register_grape true r.0 grape_id owned ≡ (r.0, false))
  unfolding register_grape assign_grape
  register_grape-assigned gs assigned grape_id named missing =
      let found = find-put_map gs.grapes grape_id grape_id blank_grape in
      (
        ground arith,
        ground (arith, found, eq_iff grape_id grape_id),
        λ owned. ground (arith, found, eq_iff grape_id grape_id),
      )

  -- To set the subscription of a grape to what was just set changes nothing and calls nothing.
  set_remote_grape_subscription-twice :
      (gs : Grapes) (owner grape_id container_id : String) (wants : Bool)
      → let once = set_remote_grape_subscription gs owner grape_id container_id wants in
        set_remote_grape_subscription once owner grape_id container_id wants ≡ once
  unfolding set_remote_grape_subscription
  set_remote_grape_subscription-twice gs owner grape_id container_id wants =
      elim (Option-cases (find gs.grapes grape_id)) [
        | inl e₀ ↦ ground (arith, eq_iff grape_id gs.assigned_grape)
        | inr (g, e₁) ↦
            let subs = g.proxy_subscriptions in
            let added = record g { proxy_subscriptions = insert container_id subs } in
            let removed = record g { proxy_subscriptions = remove container_id subs } in
            elim (Bool-cases wants) [
              | inl subscribes ↦ ground (
                arith,
                eq_iff grape_id gs.assigned_grape,
                eq_iff grape_id grape_id,
                eq_iff container_id container_id,
                contains-insert container_id container_id subs,
                find-put_map gs.grapes grape_id grape_id added,
              )
              | inr unsubscribes ↦ ground (
                arith,
                eq_iff grape_id gs.assigned_grape,
                eq_iff grape_id grape_id,
                eq_iff container_id container_id,
                contains-remove container_id container_id subs,
                find-put_map gs.grapes grape_id grape_id removed,
              )
            ]
      ]
