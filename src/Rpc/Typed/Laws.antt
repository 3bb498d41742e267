-- ===== src/Rpc/Typed/Laws.antt =====
-- A remote call with the types of the method (system/include/CRPC.hpp).
use celte_system.Prelude.{
  ℕ, zero, suc, ◌+◌, ◌<◌, ◌≤◌, ◌≡◌, ◌≢◌, refl, ap, sym, ◌∙◌, false, String, List, [], ◌∷◌, ◌++◌,
  none, some, arith, length, Option-cases, inl, inr,
}
use celte_system.Prelude.Assoc
use celte_system.Prelude.Assoc.{Assoc}
use celte_system.Prelude.HashMap.{HashMap, find}
use celte_system.Prelude.Json.{Json, Value, null, is_null, dump, parse-dump}
use celte_system.Rpc.Stub.Defs.{
  Process, Cell, Handler, Outcome, call_request, invoke, try_handle_request,
}
use celte_system.Rpc.Stub.Answers.{CanHandle, response, answer_of}
use celte_system.Rpc.Stub.Calls.{call-answer}
use celte_system.Rpc.Retry.{read_response, answered, failed, remote_error}
use celte_system.Rpc.Typed.{
  JsonArrays, Codec, Params, end, param, Tuple, RetType, typed, Completion, completes, Method,
  elements, serialize, get_tuple, json_result, outcome, deserialize, build_delegate, call_typed,
  get_elem?, arity, document,
}

module _ ⦃j : Json⦄ ⦃arrays : JsonArrays⦄ where
  get_tuple-at :
      (ps : Params) (args : Tuple ps) (n : ℕ) (v : Value)
      → ((i : ℕ) → arrays.at v (n + i) ≡ get_elem? (elements ps args) i)
      → get_tuple ps n v ≡ some args
  unfolding get_tuple
  get_tuple-at end args n v h = refl
  get_tuple-at (param A c ps) (a, args) n v h =
      let here : arrays.at v n ≡ some (c.to_json a) = ap (arrays.at v) (omega arith) ∙ h 0 in
      let rest : get_tuple ps (suc n) v ≡ some args =
        get_tuple-at ps args (suc n) v (λ i. ap (arrays.at v) (omega arith) ∙ h (suc i)) in
      ground (arith, here, c.get_to-to_json a, rest)

  -- What a caller serializes is what a delegate for the same types gets.
  get_tuple-serialize :
      (ps : Params) (args : Tuple ps) → get_tuple ps 0 (arrays.array (elements ps args)) ≡ some args
  get_tuple-serialize ps args = get_tuple-at ps args 0 (arrays.array (elements ps args)) (λ i.
      ap (arrays.at (arrays.array (elements ps args))) (omega arith)
      ∙ arrays.at-array (elements ps args) i)

  get_elem?-some :
      {A : Type 0} (xs : List A) (i : ℕ) (x : A) → get_elem? xs i ≡ some x → i < length xs
  get_elem?-some [] i x e = cc
  get_elem?-some (y ∷ xs) zero x e = omega arith
  get_elem?-some (y ∷ xs) (suc i) x e = omega (arith, get_elem?-some xs i x e)

  -- A delegate that wants more arguments than there are elements gets none.
  get_tuple-short :
      (ps : Params) (n : ℕ) (v : Value) (vs : List Value)
      → ((i : ℕ) → arrays.at v i ≡ get_elem? vs i)
      → n ≤ length vs
      → length vs < n + arity ps
      → get_tuple ps n v ≡ none
  unfolding get_tuple
  get_tuple-short end n v vs h le lt = absurd (omega (arith, le, lt))
  get_tuple-short (param A c ps) n v vs h le lt = elim (Option-cases (get_elem? vs n)) [
    | inl e ↦ ground (arith, h n)
    | inr (x, e) ↦
        let rest : get_tuple ps (suc n) v ≡ none =
          get_tuple-short ps (suc n) v vs h (omega (arith, get_elem?-some vs n x e))
            (omega (arith, lt)) in
        elim (Option-cases (c.get_to x)) [
          | inl f ↦ ground (arith, h n)
          | inr (a, f) ↦ ground (arith, h n)
        ]
  ]

  deserialize-dump :
      {R : Type 0} (c : Codec R) (r : R) → deserialize c (dump (c.to_json r)) ≡ some r
  unfolding deserialize
  deserialize-dump c r = ground (arith, parse-dump (c.to_json r), c.get_to-to_json r)

  module _ ⦃h : HashMap⦄ {S : Type 0} where
    -- The delegate of a method runs it on the arguments that a caller of the same types serialized.
    pub invoke-typed :
        (ps : Params) (r : RetType) (func : Method S ps r) (ms : Assoc (Handler S))
        (own name id : String) (args : Tuple ps) (st : S)
        → Assoc.find ms name ≡ some (build_delegate ps r func)
        → invoke ms (call_request own name id (serialize ps args)) st
          ≡ ((func args st).0, outcome r (func args st).1)
    unfolding invoke build_delegate serialize
    invoke-typed end r func ms own name id args st e = ground (arith, parse-dump null)
    invoke-typed (param A c ps) r func ms own name id args st e = ground (
      arith,
      parse-dump (arrays.array (elements (param A c ps) args)),
      get_tuple-serialize (param A c ps) args,
    )

    invoke-short :
        (ps qs : Params) (r : RetType) (func : Method S ps r) (ms : Assoc (Handler S))
        (own name id : String) (args : Tuple qs) (st : S)
        → Assoc.find ms name ≡ some (build_delegate ps r func)
        → length (elements qs args) < arity ps
        → invoke ms (call_request own name id (serialize qs args)) st
          ≡ (st, Outcome.json_error (arrays.tuple_error ps (document qs args)))
    unfolding invoke build_delegate serialize
    invoke-short end qs r func ms own name id args st e lt = absurd (omega (arith, lt))
    invoke-short (param A c ps) end r func ms own name id args st e lt = ground (
      arith,
      parse-dump null,
      get_tuple-short (param A c ps) 0 null [] arrays.at-null (omega arith) (omega arith),
    )
    invoke-short (param A c ps) (param B d qs) r func ms own name id args st e lt =
        let vs = elements (param B d qs) args in
        ground (
          arith,
          parse-dump (arrays.array vs),
          get_tuple-short (param A c ps) 0 (arrays.array vs) vs (arrays.at-array vs) (omega arith)
              (omega (arith, lt)),
        )

  module _ ⦃h : HashMap⦄ {S T : Type 0} where
    -- Where the caller hands over fewer arguments than the method takes, B does not run the method,
    -- and A reads the answer as an error of the remote, after any time.
    pub call_typed-too_few :
        (ps qs : Params) (r : RetType) (func : Method T ps r) (R : Type 0) (c : Codec R)
        (a : Process S) (b : Process T) (own scope name id : String) (args : Tuple qs)
        (ms : Assoc (Handler T))
        → CanHandle a id
        → CanHandle b id
        → own ≢ ""
        → id ≢ ""
        → find b.methods scope ≡ some ms
        → Assoc.find ms name ≡ some (build_delegate ps r func)
        → length (elements qs args) < arity ps
        → let request = call_request own name id (serialize qs args) in
          let answer =
            response request (Outcome.json_error (arrays.tuple_error ps (document qs args))) in
          let (called, n) = call_typed qs a own scope name id args in
          (b' : Process T) × (a' : Process S) × (v : Value) × (try_handle_request b scope request
            ≡ some b')
          × (b'.user ≡ b.user)
          × (b'.outbox ≡ b.outbox ++ (own, answer) ∷ [])
          × (try_handle_request called own answer ≡ some a')
          × (a'.cells n ≡ Cell.value v)
          × ((t : ℕ)
              → read_response is_null (λ w. deserialize c (dump w)) t v ≡ failed remote_error t)
    unfolding call_typed read_response
    call_typed-too_few ps qs r func R c a b own scope name id args ms ca cb topic nonempty found
          method lt =
        let request = call_request own name id (serialize qs args) in
        let ran = invoke-short ps qs r func ms own name id args b.user method lt in
        let (b', a', e, user, sent, f, cell, free, kept) =
          call-answer a b own scope name id (serialize qs args) ms ca cb topic nonempty found in
        (
          b',
          a',
          null,
          e,
          user ∙ ap (λ (x : T × Outcome). x.0) ran,
          sent ∙ ap (λ (x : T × Outcome). b.outbox ++ (own, response request x.1) ∷ []) ran,
          ap
                (λ (x : T × Outcome).
                  try_handle_request (call_typed qs a own scope name id args).0 own
                    (response request x.1))
                (sym ran)
              ∙ f,
          cell ∙ ap (λ (x : T × Outcome). Cell.value (answer_of x.1)) ran,
          λ t. ground (arith, j.is_null-null),
        )

    -- A calls a method of B with arguments of the types of the method, which returns a value of type
    -- R and not null. Where both are new to the id, B runs the method once on these arguments, and
    -- sends one message; when A gets it, the document that the promise of the call holds is read as
    -- the value that the method returned, after any time.
    pub call_typed-answer :
        (ps : Params) (R : Type 0) (c : Codec R) (func : Method T ps (typed R c)) (a : Process S)
        (b : Process T) (own scope name id : String) (args : Tuple ps) (ms : Assoc (Handler T))
        (st : T) (result : R)
        → CanHandle a id
        → CanHandle b id
        → own ≢ ""
        → id ≢ ""
        → find b.methods scope ≡ some ms
        → Assoc.find ms name ≡ some (build_delegate ps (typed R c) func)
        → func args b.user ≡ (st, completes result)
        → is_null (c.to_json result) ≡ false
        → let request = call_request own name id (serialize ps args) in
          let answer = response request (Outcome.returns (c.to_json result)) in
          let (called, n) = call_typed ps a own scope name id args in
          (b' : Process T) × (a' : Process S) × (v : Value) × (try_handle_request b scope request
            ≡ some b')
          × (b'.user ≡ st)
          × (b'.outbox ≡ b.outbox ++ (own, answer) ∷ [])
          × (try_handle_request called own answer ≡ some a')
          × (a'.cells n ≡ Cell.value v)
          × ((t : ℕ) → read_response is_null (λ w. deserialize c (dump w)) t v ≡ answered result t)
    unfolding call_typed outcome json_result read_response
    call_typed-answer ps R c func a b own scope name id args ms st result ca cb topic nonempty found
          method runs filled =
        let request = call_request own name id (serialize ps args) in
        let ran : invoke ms request b.user ≡ (st, Outcome.returns (c.to_json result)) =
          invoke-typed ps (typed R c) func ms own name id args b.user method
          ∙ ap (λ (x : T × Completion R). (x.0, outcome (typed R c) x.1)) runs in
        let (b', a', e, user, sent, f, cell, free, kept) =
          call-answer a b own scope name id (serialize ps args) ms ca cb topic nonempty found in
        (
          b',
          a',
          c.to_json result,
          e,
          user ∙ ap (λ (x : T × Outcome). x.0) ran,
          sent ∙ ap (λ (x : T × Outcome). b.outbox ++ (own, response request x.1) ∷ []) ran,
          ap
                (λ (x : T × Outcome).
                  try_handle_request (call_typed ps a own scope name id args).0 own
                    (response request x.1))
                (sym ran)
              ∙ f,
          cell ∙ ap (λ (x : T × Outcome). Cell.value (answer_of x.1)) ran,
          λ t. ground (arith, deserialize-dump c result),
        )
