-- ===== src/Rpc/Stub/Calls.antt =====
-- Whole calls between two processes, and of a process to itself (system/include/CRPC.hpp,
-- system/common_src/CRPC.cpp).
use celte_system.Prelude.{
  ℕ, ◌≡◌, ◌≢◌, String, [], ◌∷◌, ◌++◌, Option, none, some, arith, ap, ◌∙◌, eq_iff, Option-cases, inl,
  inr, if◌then◌else◌, ◌==◌,
}
use celte_system.Prelude.Assoc
use celte_system.Prelude.Assoc.{Assoc, find-put, find-erase}
use celte_system.Prelude.HashMap.{HashMap, find, find-put as find-put_map}
use celte_system.Prelude.Json.{Json}
use celte_system.Rpc.Stub.Defs.{
  Process, Cell, Handler, call_request, invoke, call, set_cell, try_handle_request, register_method,
  unregister_method,
}
use celte_system.Rpc.Stub.Once.{try_handle_remembered}
use celte_system.Rpc.Stub.Answers.{CanHandle, served, resolved, response, answer_of}

module _ ⦃h : HashMap⦄ ⦃j : Json⦄ where
  module _ {S T : Type 0} where
    -- A calls a method on a scope that B serves. Where both are new to the id, B runs its handler
    -- once and sends one message, and when A gets it the promise of the call holds the value that
    -- the handler returned, or null if the method is missing, the arguments do not parse or the
    -- handler throws. The id is then free again, and A's own state is untouched.
    pub call-answer :
        (a : Process S) (b : Process T) (own scope name id args : String) (ms : Assoc (Handler T))
        → CanHandle a id
        → CanHandle b id
        → own ≢ ""
        → id ≢ ""
        → find b.methods scope ≡ some ms
        → let r = call_request own name id args in
          let out = (invoke ms r b.user).1 in
          let n = (call a own scope name id args).1 in
          (b' : Process T) × (a' : Process S) × (try_handle_request b scope r ≡ some b')
          × (b'.user ≡ (invoke ms r b.user).0)
          × (b'.outbox ≡ b.outbox ++ (own, response r out) ∷ [])
          × (try_handle_request (call a own scope name id args).0 own (response r out) ≡ some a')
          × (a'.cells n ≡ Cell.value (answer_of out))
          × (Assoc.find a'.promises id ≡ none)
          × (a'.user ≡ a.user)
    unfolding call set_cell
    call-answer a b own scope name id args ms ca cb topic nonempty found =
        let r = call_request own name id args in
        let (b', e, user, sent, _, _, _, _, _) =
          served b own scope name id args ms cb topic found in
        let a₁ = (call a own scope name id args).0 in
        let ca₁ : CanHandle a₁ id = record { valid = ca.valid; room = ca.room; fresh = ca.fresh } in
        let (a', f, cell, free, kept) =
          resolved a₁ own r (invoke ms r b.user).1 a.next_cell ca₁ nonempty
            (ground (arith, find-put a.promises id id a.next_cell, eq_iff id id)) in
        (b', a', e, user, sent, f, cell, free, kept)

  module _ {S : Type 0} where
    -- A process that calls a scope which it serves itself never gets the answer: the handler runs,
    -- the answer is sent, and when it comes back it is taken for a repeated request, since it
    -- carries the id of the call. The promise stays pending.
    pub call_self-pending :
        (p : Process S) (own scope name id args : String) (ms : Assoc (Handler S))
        → CanHandle p id
        → own ≢ ""
        → find p.methods scope ≡ some ms
        → let r = call_request own name id args in
          let out = (invoke ms r p.user).1 in
          let n = (call p own scope name id args).1 in
          (q : Process S) × (try_handle_request (call p own scope name id args).0 scope r ≡ some q)
          × (q.user ≡ (invoke ms r p.user).0)
          × (try_handle_request q own (response r out) ≡ some q)
          × (q.cells n ≡ Cell.pending)
          × (Assoc.find q.promises id ≡ some n)
    unfolding call set_cell
    call_self-pending p own scope name id args ms c topic found =
        let r = call_request own name id args in
        let p₁ = (call p own scope name id args).0 in
        let c₁ : CanHandle p₁ id = record { valid = c.valid; room = c.room; fresh = c.fresh } in
        let (q, e, user, _, cells, promises, valid, room, old) =
          served p₁ own scope name id args ms c₁ topic found in
        (
          q,
          e,
          user,
          try_handle_remembered q own (response r (invoke ms r p.user).1) valid room old,
          ap (λ (f : ℕ → Cell). f p.next_cell) cells ∙ ground arith,
          ap (λ (m : Assoc ℕ). Assoc.find m id) promises
              ∙ ground (arith, find-put p.promises id id p.next_cell, eq_iff id id),
        )

    -- The delegate of a method, if the scope and the name are registered.
    abbrev pub delegate : Process S → String → String → Option (Handler S)
    delegate p scope name = elim (find p.methods scope) [
      | none ↦ none
      | some ms ↦ Assoc.find ms name
    ]

    -- Registration adds a name that is missing and never replaces a delegate that is there, also
    -- not one whose instance is gone; every other name keeps what it had.
    pub delegate-register_method :
        (p : Process S) (scope name scope' name' : String) (f : Handler S)
        → delegate (register_method p scope name f) scope' name' ≡ (
            if scope == scope'
            then (if name == name'
                then (elim (delegate p scope name) [ none ↦ some f | some g ↦ some g ])
                else delegate p scope' name')
            else delegate p scope' name')
    unfolding register_method Assoc.find
    delegate-register_method p scope name scope' name' f =
        elim (Option-cases (find p.methods scope)) [
          | inl e ↦ ground (
            arith,
            find-put_map p.methods scope scope' ((name, f) ∷ []),
            eq_iff scope scope',
            eq_iff name name',
          )
          | inr (ms, e) ↦ ground (
            arith,
            find-put_map p.methods scope scope' (Assoc.put ms name f),
            eq_iff scope scope',
            eq_iff name name',
            find-put ms name name' f,
          )
        ]

    -- After a name is unregistered it can be registered anew; nothing else changes.
    pub delegate-unregister_method :
        (p : Process S) (scope name scope' name' : String)
        → delegate (unregister_method p scope name) scope' name' ≡ (
            if scope == scope'
            then (if name == name' then none else delegate p scope' name')
            else delegate p scope' name')
    unfolding unregister_method
    delegate-unregister_method p scope name scope' name' =
        elim (Option-cases (find p.methods scope)) [
          | inl e ↦ ground (arith, eq_iff scope scope', eq_iff name name')
          | inr (ms, e) ↦ ground (
            arith,
            find-put_map p.methods scope scope' (Assoc.erase ms name),
            eq_iff scope scope',
            eq_iff name name',
            find-erase ms name name',
          )
        ]
