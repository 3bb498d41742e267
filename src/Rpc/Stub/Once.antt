-- ===== src/Rpc/Stub/Once.antt =====
-- Requests that repeat an id (system/common_src/CRPC.cpp, try_handle_request).
use celte_system.Prelude.{
  ℕ, suc, ◌<◌, ◌≤◌, ◌+◌, ◌≡◌, refl, true, false, String, List, [], ◌∷◌, Option, none, some, arith,
  length, contains, ap, subst, ◌∙◌, sym,
}
use celte_system.Prelude.HashMap.{HashMap}
use celte_system.Prelude.Json.{Json}
use celte_system.Rpc.LruSet.Refine.{IsValid, key_list}
use celte_system.Rpc.LruSet.Once.{
  Ran, run-Ran, IsRecent, IsRecent-suc, IsRecent-add, IsRecent-run, contains_of_take,
}
use celte_system.Rpc.Stub.Defs.{Process, RpRequest, handle, try_handle_request}

module _ ⦃h : HashMap⦄ ⦃j : Json⦄ {S : Type 0} where
  -- A batch of messages, each with the scope that it arrives on.
  unfoldable pub handle_all : Process S → List (String × RpRequest) → Option (Process S)
  handle_all p [] = some p
  handle_all p ((scope, r) ∷ rs) = elim (try_handle_request p scope r) [
    | none ↦ none
    | some q ↦ handle_all q rs
  ]

  -- An id is among the `n` that were remembered last.
  pub record Remembers (p : Process S) (limit n : ℕ) (id : String) : Type 0 where
    pub valid : IsValid p.running_tasks
    pub capacity : p.running_tasks.capacity ≡ limit
    pub recent : IsRecent n (key_list p.running_tasks) (id ∷ [])

  -- The first message with an id is handled, and the id is remembered.
  pub try_handle-fresh :
      (p : Process S) (scope : String) (r : RpRequest)
      → IsValid p.running_tasks
      → 0 < p.running_tasks.capacity
      → contains r.rpc_id (key_list p.running_tasks) ≡ false
      → (q : Process S) × (try_handle_request p scope r ≡ some q)
        × Remembers q p.running_tasks.capacity 1 r.rpc_id
        × (q ≡ record (handle scope r p) { running_tasks = q.running_tasks })
  unfolding try_handle_request
  try_handle-fresh p scope r v pos new =
      elim (run-Ran p.running_tasks r.rpc_id (handle scope r) p v pos) [
        | Ran.skipped old e ↦ cc
        | Ran.executed t _ e w same keys ↦ (
          record (handle scope r p) { running_tasks = t },
          rw (e, try_handle_request),
          record {
            valid = w;
            capacity = same;
            recent =
                subst (λ ks. IsRecent 1 ks (r.rpc_id ∷ [])) (sym keys)
                  (IsRecent-run 0 p.running_tasks.capacity r.rpc_id (key_list p.running_tasks) []
                    pos tt);
          },
          refl,
        )
      ]

  try_handle-Remembers :
      (p : Process S) (scope : String) (r : RpRequest) (limit n : ℕ) (id : String)
      → n < limit
      → Remembers p limit n id
      → (q : Process S) × (try_handle_request p scope r ≡ some q) × Remembers q limit (suc n) id
  unfolding try_handle_request
  try_handle-Remembers p scope r limit n id room m =
      elim (run-Ran p.running_tasks r.rpc_id (handle scope r) p m.valid (omega arith)) [
        | Ran.skipped old e ↦ (
          p,
          rw (e, try_handle_request),
          record {
            valid = m.valid;
            capacity = m.capacity;
            recent = IsRecent-suc n (key_list p.running_tasks) (id ∷ []) m.recent;
          },
        )
        | Ran.executed t _ e w same keys ↦ (
          record (handle scope r p) { running_tasks = t },
          rw (e, try_handle_request),
          record {
            valid = w;
            capacity = same ∙ m.capacity;
            recent =
                subst (λ ks. IsRecent (suc n) ks (id ∷ [])) (sym keys)
                  (IsRecent-add n p.running_tasks.capacity r.rpc_id (key_list p.running_tasks)
                    (id ∷ []) (omega arith) m.recent);
          },
        )
      ]

  handle_all-Remembers :
      (p : Process S) (rs : List (String × RpRequest)) (limit n : ℕ) (id : String)
      → n + length rs ≤ limit
      → Remembers p limit n id
      → (q : Process S) × (handle_all p rs ≡ some q) × Remembers q limit (n + length rs) id
  unfolding handle_all
  handle_all-Remembers p [] limit n id room m =
      (p, refl, subst (λ (i : ℕ). Remembers p limit i id) (omega arith) m)
  handle_all-Remembers p ((scope, r) ∷ rs) limit n id room m =
      let (q, e, w) = try_handle-Remembers p scope r limit n id (omega arith) m in
      let (last, f, z) = handle_all-Remembers q rs limit (suc n) id (omega arith) w in
      (last, rw (e, handle_all) f, subst (λ (i : ℕ). Remembers last limit i id) (omega arith) z)

  pub try_handle_remembered :
      (p : Process S) (scope : String) (r : RpRequest)
      → IsValid p.running_tasks
      → 0 < p.running_tasks.capacity
      → contains r.rpc_id (key_list p.running_tasks) ≡ true
      → try_handle_request p scope r ≡ some p
  unfolding try_handle_request
  try_handle_remembered p scope r v pos old =
      elim (run-Ran p.running_tasks r.rpc_id (handle scope r) p v pos) [
        | Ran.skipped _ e ↦ rw (e, try_handle_request)
        | Ran.executed t new _ _ _ _ ↦ cc
      ]

  -- After a message was handled and fewer than `capacity` others came in, every message with its
  -- id changes nothing: no handler runs, no promise is resolved, nothing is sent. It does not
  -- matter on which scope it arrives, nor whether it is a call or a response.
  pub handle-duplicate :
      (p : Process S) (scope : String) (r : RpRequest) (rs : List (String × RpRequest))
      → IsValid p.running_tasks
      → contains r.rpc_id (key_list p.running_tasks) ≡ false
      → length rs < p.running_tasks.capacity
      → (q : Process S) × (handle_all p ((scope, r) ∷ rs) ≡ some q)
        × ((scope' : String) (r' : RpRequest)
            → r'.rpc_id ≡ r.rpc_id
            → try_handle_request q scope' r' ≡ some q)
  unfolding handle_all
  handle-duplicate p scope r rs v new room =
      let limit : ℕ = p.running_tasks.capacity in
      let (q, e, w, _) = try_handle-fresh p scope r v (omega arith) new in
      let (last, f, m) = handle_all-Remembers q rs limit 1 r.rpc_id (omega arith) w in
      (
        last,
        rw (e, handle_all) f,
        λ scope' r' same. try_handle_remembered last scope' r' m.valid (omega (arith, m.capacity)) (
            ap (λ i. contains i (key_list last.running_tasks)) same
            ∙ contains_of_take r.rpc_id (1 + length rs) (key_list last.running_tasks) (m.recent.0)),
      )
