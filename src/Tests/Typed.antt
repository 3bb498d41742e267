-- ===== src/Tests/Typed.antt =====
-- The theorems on typed calls (system/include/CRPC.hpp) with documents that are null, texts and arrays,
-- each written as one text.
use celte_system.Prelude.{ℕ, suc, ◌≡◌, ◌≢◌, refl, String, [], ◌∷◌, ◌++◌, some, arith, eq_iff}
use Prim.Native.String.{◌++◌ as ◌++ₛ◌}
use celte_system.Prelude.Assoc
use celte_system.Tests.Written.{
  written_json, written_arrays, text_codec, serving, serving-CanHandle,
}
use celte_system.Prelude.HashMap.{assoc_map, find}
use celte_system.Prelude.Json.{Value, is_null, dump}
use celte_system.Rpc.Stub.Defs.{Process, Cell, Outcome, Handler, call_request, try_handle_request}
use celte_system.Rpc.Stub.Answers.{CanHandle, response}
use celte_system.Rpc.Retry.{read_response, answered, failed, remote_error}
use celte_system.Rpc.Typed.{
  Params, param, end, typed, Method, completes, build_delegate, serialize, call_typed, deserialize,
}
use celte_system.Rpc.Typed.Laws.{call_typed-answer, call_typed-too_few}

-- A method of two texts that joins them, on a state that counts the calls.
abbrev two_texts : Params
two_texts = param String text_codec (param String text_codec end)

abbrev joined : Method ℕ two_texts (typed String text_codec)
joined (a, (b, rest)) st = (suc st, completes (a ++ₛ b))

abbrev join_methods : Assoc.Assoc (Handler ℕ)
join_methods = ("Grape_call_Join", build_delegate two_texts (typed String text_codec) joined) ∷ []

abbrev peer : Process ℕ
peer = serving "grape.1" join_methods 0

peer-CanHandle : CanHandle peer "id1"
peer-CanHandle = serving-CanHandle "grape.1" join_methods 0

peer-serves : find peer.methods "grape.1" ≡ some join_methods
unfolding Assoc.find
peer-serves = refl

serves-join :
    Assoc.find join_methods "Grape_call_Join"
    ≡ some (build_delegate two_texts (typed String text_codec) joined)
unfolding Assoc.find
serves-join = refl

own_ne : ◌≢◌ {A = String} "peer.a" ""
own_ne = ground (arith, eq_iff "peer.a" "")

id_ne : ◌≢◌ {A = String} "id1" ""
id_ne = ground (arith, eq_iff "id1" "")

call_typed-answer_example :
    let request =
      call_request "peer.a" "Grape_call_Join" "id1" (serialize two_texts ("ab", ("c", tt))) in
    let answer = response request (Outcome.returns (text_codec.to_json "abc")) in
    let (called, n) =
      call_typed two_texts peer "peer.a" "grape.1" "Grape_call_Join" "id1" ("ab", ("c", tt)) in
    (b' : Process ℕ) × (a' : Process ℕ) × (v : Value) × (try_handle_request peer "grape.1" request
      ≡ some b')
    × (b'.user ≡ 1)
    × (b'.outbox ≡ [] ++ ("peer.a", answer) ∷ [])
    × (try_handle_request called "peer.a" answer ≡ some a')
    × (a'.cells n ≡ Cell.value v)
    × ((t : ℕ)
        → read_response is_null (λ w. deserialize text_codec (dump w)) t v ≡ answered "abc" t)
call_typed-answer_example =
    call_typed-answer two_texts String text_codec joined peer peer "peer.a" "grape.1"
      "Grape_call_Join" "id1" ("ab", ("c", tt)) join_methods 1 "abc" peer-CanHandle peer-CanHandle
      own_ne id_ne peer-serves serves-join refl refl

call_typed-too_few_example :
    let one = param String text_codec end in
    let request = call_request "peer.a" "Grape_call_Join" "id1" (serialize one ("ab", tt)) in
    let answer = response request (Outcome.json_error "invalid tuple") in
    let (called, n) = call_typed one peer "peer.a" "grape.1" "Grape_call_Join" "id1" ("ab", tt) in
    (b' : Process ℕ) × (a' : Process ℕ) × (v : Value) × (try_handle_request peer "grape.1" request
      ≡ some b')
    × (b'.user ≡ 0)
    × (b'.outbox ≡ [] ++ ("peer.a", answer) ∷ [])
    × (try_handle_request called "peer.a" answer ≡ some a')
    × (a'.cells n ≡ Cell.value v)
    × ((t : ℕ)
        → read_response is_null (λ w. deserialize text_codec (dump w)) t v ≡ failed remote_error t)
call_typed-too_few_example =
    call_typed-too_few two_texts (param String text_codec end) (typed String text_codec) joined
      String text_codec peer peer "peer.a" "grape.1" "Grape_call_Join" "id1" ("ab", tt) join_methods
      peer-CanHandle peer-CanHandle own_ne id_ne peer-serves serves-join (omega arith)
