-- ===== src/Rpc/LruSet/Race.antt =====
-- UniqueTaskManager::run by two threads (system/include/CRPC.hpp): `contains` and `add` are atomic
-- each, and another thread may come between them.
use celte_system.Prelude.{
  ℕ, zero, suc, ◌<◌, ◌≡◌, refl, ap, ◌∙◌, Bool, true, false, String, List, [], ◌∷◌, ◌++◌, Option,
  none, some, if◌then◌else◌, eq_iff, arith, contains, remove, take,
}
use celte_system.Prelude.HashMap.{HashMap}
use celte_system.Rpc.LruSet.Defs.{LruSet, add, has}
use celte_system.Rpc.LruSet.Refine.{IsValid, key_list, has-key_list, add-key_list}

-- Where a thread is in run.
pub data Pc : Type 0 where
  at_contains at_add at_task : Pc
  returned : Bool → Pc

contains_first :
    (n : ℕ) (id : String) (xs : List String) → 0 < n → contains id (take n (id ∷ xs)) ≡ true
unfolding contains
contains_first zero id xs pos = absurd (omega (arith, pos))
contains_first (suc n) id xs pos = ground (arith, eq_iff id id)

module _ ⦃h : HashMap⦄ where
  -- The set, the ids whose tasks ran, in order, and the two threads, which run the same id.
  pub record Shared : Type 0 where
    pub running_tasks : LruSet
    pub executed : List String
    pub first : Pc
    pub second : Pc

  -- One step of a thread; `none` is an undefined behaviour of the set.
  unfoldable pub advance : String → LruSet → List String → Pc → Option (LruSet × List String × Pc)
  advance id s log at_contains =
      if has s id then some (s, log, returned false) else some (s, log, at_add)
  advance id s log at_add = elim (add s id) [ none ↦ none | some t ↦ some (t, log, at_task) ]
  advance id s log at_task = some (s, log ++ (id ∷ []), returned true)
  advance id s log (returned b) = some (s, log, returned b)

  unfoldable pub advance_first : String → Shared → Option Shared
  advance_first id s = elim (advance id s.running_tasks s.executed s.first) [
    | none ↦ none
    | some (t, log, pc) ↦ some (record s { running_tasks = t; executed = log; first = pc })
  ]

  unfoldable pub advance_second : String → Shared → Option Shared
  advance_second id s = elim (advance id s.running_tasks s.executed s.second) [
    | none ↦ none
    | some (t, log, pc) ↦ some (record s { running_tasks = t; executed = log; second = pc })
  ]

  -- A schedule says which thread is next: true is the first one.
  unfoldable pub interleave : String → List Bool → Shared → Option Shared
  interleave id [] s = some s
  interleave id (true ∷ bs) s = elim (advance_first id s) [
    | none ↦ none
    | some t ↦ interleave id bs t
  ]
  interleave id (false ∷ bs) s = elim (advance_second id s) [
    | none ↦ none
    | some t ↦ interleave id bs t
  ]

  abbrev pub start : LruSet → List String → Shared
  start s log = record {
    running_tasks = s;
    executed = log;
    first = at_contains;
    second = at_contains;
  }

  has_added :
      (s t : LruSet) (id : String)
      → IsValid t
      → 0 < s.capacity
      → key_list t ≡ take s.capacity (id ∷ remove id (key_list s))
      → has t id ≡ true
  has_added s t id v pos keys =
      has-key_list t id v
      ∙ ap (contains id) keys
      ∙ contains_first s.capacity id (remove id (key_list s)) pos

  one_after_the_other :
      (s t : LruSet) (id : String) (log : List String)
      → has s id ≡ false
      → add s id ≡ some t
      → has t id ≡ true
      → interleave id (true ∷ true ∷ true ∷ false ∷ []) (start s log)
        ≡ some (record {
          running_tasks = t;
          executed = log ++ (id ∷ []);
          first = returned true;
          second = returned false;
        })
  unfolding interleave advance_first advance_second advance
  one_after_the_other s t id log missing added there = ground (arith, missing, added, there)

  interleaved :
      (s t u : LruSet) (id : String) (log : List String)
      → has s id ≡ false
      → add s id ≡ some t
      → add t id ≡ some u
      → interleave id (true ∷ false ∷ true ∷ true ∷ false ∷ false ∷ []) (start s log)
        ≡ some (record {
          running_tasks = u;
          executed = (log ++ (id ∷ [])) ++ (id ∷ []);
          first = returned true;
          second = returned true;
        })
  unfolding interleave advance_first advance_second advance
  interleaved s t u id log missing added again = ground (arith, missing, added, again)

  -- Two threads run the same id, which is not remembered, in a well-formed set with room. One after
  -- the other they execute its task once. Where the second tests the set before the first has added
  -- the id, both execute it.
  pub interleave-twice :
      (s : LruSet) (id : String) (log : List String)
      → IsValid s
      → 0 < s.capacity
      → contains id (key_list s) ≡ false
      → ((x : Shared) × (interleave id (true ∷ true ∷ true ∷ false ∷ []) (start s log) ≡ some x)
          × (x.executed ≡ log ++ (id ∷ []))
          × (x.first ≡ returned true)
          × (x.second ≡ returned false))
        × ((y : Shared) × (interleave id
                (true ∷ false ∷ true ∷ true ∷ false ∷ false ∷ [])
                (start s log)
              ≡ some y)
            × (y.executed ≡ (log ++ (id ∷ [])) ++ (id ∷ []))
            × (y.first ≡ returned true)
            × (y.second ≡ returned true))
  interleave-twice s id log v pos new =
      let (t, added, w, same, keys) = add-key_list s id v pos in
      let (u, again, _, _, _) = add-key_list t id w (omega (arith, same, pos)) in
      let missing : has s id ≡ false = has-key_list s id v ∙ new in
      let there : has t id ≡ true = has_added s t id w pos keys in
      (
        (
          record {
            running_tasks = t;
            executed = log ++ (id ∷ []);
            first = returned true;
            second = returned false;
          },
          one_after_the_other s t id log missing added there,
          refl,
          refl,
          refl,
        ),
        (
          record {
            running_tasks = u;
            executed = (log ++ (id ∷ [])) ++ (id ∷ []);
            first = returned true;
            second = returned true;
          },
          interleaved s t u id log missing added again,
          refl,
          refl,
          refl,
        ),
      )
