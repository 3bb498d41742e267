-- ===== src/Rpc/Typed.antt =====
-- The types of remote methods (system/include/CRPC.hpp): the serialization of arguments and results,
-- and the delegates that FunctionClassifier builds from a method with the types of its signature.
pub mod Laws
pub mod Forget
use celte_system.Prelude.{
  ℕ, zero, suc, ◌+◌, ◌≡◌, ◌≢◌, refl, ap, sym, ◌∙◌, Bool, true, false, String, List, [], ◌∷◌, ◌++◌,
  Option, none, some, arith, subst,
}
use celte_system.Prelude.Assoc
use celte_system.Prelude.Assoc.{Assoc}
use celte_system.Prelude.HashMap.{HashMap, find}
use celte_system.Prelude.Json.{Json, Value, null, is_null, dump, parse, parse-dump}
use celte_system.Rpc.Stub.Defs.{
  Process, Cell, Handler, Outcome, call_request, call, invoke, try_handle_request, register_method,
}
use celte_system.Rpc.Stub.Answers.{CanHandle, response}
use celte_system.Rpc.Stub.Calls.{call-answer}
use celte_system.Rpc.Retry.{read_response, Attempt, answered}

abbrev pub get_elem? {ℓ} : {A : Type ℓ} → List A → ℕ → Option A
get_elem? [] i = none
get_elem? (x ∷ xs) zero = some x
get_elem? (x ∷ xs) (suc i) = get_elem? xs i

-- The conversions of a C++ type: to_json, and get_to, which is `none` where it throws.
pub record Codec ⦃j : Json⦄ (A : Type 0) : Type 0 where
  pub to_json : A → Value
  pub get_to : Value → Option A
  pub get_to-to_json : (a : A) → get_to (to_json a) ≡ some a

-- How the body of a method ends: with a value, or by an exception of one of the kinds that
-- _handle_call tells apart.
pub data Completion (A : Type 0) : Type 0 where
  completes : A → Completion A
  throws_out_of_range throws_json_error throws_std_error : String → Completion A

module _ ⦃j : Json⦄ where
  -- The types Args of a method.
  pub data Params : Type 1 where
    end : Params
    param : (A : Type 0) → Codec A → Params → Params

  -- What the code relies on of nlohmann::json for arrays: `array` is the document after a push_back of
  -- each element, and `at` is `none` where the library throws. `tuple_error` is what e.what() says of
  -- the exception that get_to throws for a tuple of these types and a document.
  pub record JsonArrays : Type 1 where
    pub array : List Value → Value
    pub at : Value → ℕ → Option Value
    pub tuple_error : Params → Value → String
    pub at-array : (vs : List Value) (i : ℕ) → at (array vs) i ≡ get_elem? vs i
    pub at-null : (i : ℕ) → at null i ≡ none

  -- std::tuple<Args...>
  abbrev pub Tuple : Params → Type 0
  Tuple end = Unit {0}
  Tuple (param A c ps) = A × Tuple ps

  abbrev pub arity : Params → ℕ
  arity end = 0
  arity (param A c ps) = suc (arity ps)

  -- The type that a method returns.
  pub data RetType : Type 1 where
    void : RetType
    typed : (R : Type 0) → Codec R → RetType

  abbrev pub Returned : RetType → Type 0
  Returned void = Unit {0}
  Returned (typed R c) = R

  abbrev pub Method : Type 0 → Params → RetType → Type 0
  Method S ps r = Tuple ps → S → S × Completion (Returned r)

  abbrev pub elements : (ps : Params) → Tuple ps → List Value
  elements end args = []
  elements (param A c ps) (a, args) = c.to_json a ∷ elements ps args

  module _ ⦃arrays : JsonArrays⦄ where
    -- The document of the arguments: without any no element is pushed, and it stays null.
    abbrev pub document : (ps : Params) → Tuple ps → Value
    document end args = null
    document (param A c ps) args = arrays.array (elements (param A c ps) args)

    -- __serialize__
    unfoldable pub serialize : (ps : Params) → Tuple ps → String
    serialize ps args = dump (document ps args)

    -- json::get_to for a tuple, from the n-th element on.
    unfoldable pub get_tuple : (ps : Params) → ℕ → Value → Option (Tuple ps)
    get_tuple end n v = some tt
    get_tuple (param A c ps) n v = elim (arrays.at v n) [
      | none ↦ none
      | some e ↦ elim (c.get_to e) [
        | none ↦ none
        | some a ↦ elim (get_tuple ps (suc n) v) [ none ↦ none | some args ↦ some (a, args) ]
      ]
    ]

    -- The json of a result: that of a void method is null.
    unfoldable pub json_result : (r : RetType) → Returned r → Value
    json_result void result = null
    json_result (typed R c) result = c.to_json result

    unfoldable pub outcome : (r : RetType) → Completion (Returned r) → Outcome
    outcome r (completes result) = Outcome.returns (json_result r result)
    outcome r (throws_out_of_range e) = Outcome.out_of_range e
    outcome r (throws_json_error e) = Outcome.json_error e
    outcome r (throws_std_error e) = Outcome.std_error e

    -- __deserialize__
    unfoldable pub deserialize : {R : Type 0} → Codec R → String → Option R
    deserialize c str = elim (parse str) [ none ↦ none | some v ↦ c.get_to v ]

    module _ ⦃h : HashMap⦄ {S : Type 0} where
      abbrev finish : (r : RetType) → S × Completion (Returned r) → S × Outcome
      finish r (st, done) = (st, outcome r done)

      -- FunctionClassifier::build_delegate: a method without parameters does not look at the json.
      unfoldable pub build_delegate : (ps : Params) (r : RetType) → Method S ps r → Handler S
      build_delegate end r func jargs st = finish r (func tt st)
      build_delegate (param A c ps) r func jargs st = elim (get_tuple (param A c ps) 0 jargs) [
        | none ↦ (st, Outcome.json_error (arrays.tuple_error (param A c ps) jargs))
        | some args ↦ finish r (func args st)
      ]

      -- RPCCalleeStub::register_method
      unfoldable pub register_typed :
          (ps : Params) (r : RetType)
          → Process S
          → (scope name : String) → Method S ps r
          → Process S
      register_typed ps r p scope name func =
          register_method p scope name (build_delegate ps r func)

      -- RPCCallerStub::call with its arguments.
      unfoldable pub call_typed :
          (ps : Params) → Process S → (own scope name id : String) → Tuple ps → Process S × ℕ
      call_typed ps p own scope name id args = call p own scope name id (serialize ps args)
