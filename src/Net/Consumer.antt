-- ===== src/Net/Consumer.antt =====
-- The consumers of remote calls: RPCCalleeStub::_init_consumer and
-- RPCCallerStub::StartListeningForAnswers (system/common_src/CRPC.cpp). `client` is the broker: the
-- outcome of its n-th call of subscribe. What a consumer does with a message is in Rpc/CallStub.
use celte_system.Prelude.{
  ℕ, zero, suc, ◌+◌, ◌≤◌, ◌<◌, ◌≡◌, ◌∙◌, Bool, true, false, Option, none, some, arith, inl, inr,
}
use celte_system.Prelude.Polling.{poll, poll-first, poll-never}
use celte_system.Net.ReaderStream.{Attempt, result_ok, result_error, throws, Attempt-cases}

abbrev pub is_ok : Attempt → Bool
is_ok result_ok = true
is_ok result_error = false
is_ok throws = false

-- StartListeningForAnswers calls once and drops the result; an exception is not caught. The first
-- component is whether it returns, the second whether the answers will come.
unfoldable start_listening_for_answers : Attempt → Bool × Bool
start_listening_for_answers result_ok = (true, true)
start_listening_for_answers result_error = (true, false)
start_listening_for_answers throws = (false, false)

module _ (client : ℕ → Attempt) where
  -- The loop of _init_consumer, on fuel, after `n` calls: the number of calls that failed before
  -- the one that succeeded. An exception counts as an error.
  unfoldable init_consumer : (fuel n : ℕ) → Option ℕ
  init_consumer zero n = none
  init_consumer (suc fuel) n = elim (client n) [
    | result_ok ↦ some n
    | result_error ↦ init_consumer fuel (n + 1)
    | throws ↦ init_consumer fuel (n + 1)
  ]

  init_consumer-poll :
      (fuel n : ℕ) → init_consumer (suc fuel) n ≡ poll fuel (λ i. is_ok (client i)) n
  unfolding init_consumer poll
  init_consumer-poll zero n = elim (Attempt-cases (client n)) [
    | inl ok ↦ ground arith
    | inr (inl failed) ↦ ground arith
    | inr (inr thrown) ↦ ground arith
  ]
  init_consumer-poll (suc fuel) n = elim (Attempt-cases (client n)) [
    | inl ok ↦ ground arith
    | inr (inl failed) ↦ ground (arith, init_consumer-poll fuel (n + 1))
    | inr (inr thrown) ↦ ground (arith, init_consumer-poll fuel (n + 1))
  ]

  -- The consumer of a topic is there as soon as a call succeeds, whatever the calls before threw.
  init_consumer-first :
      (k n : ℕ)
      → ((i : ℕ) → n ≤ i → i < n + k → is_ok (client i) ≡ false)
      → is_ok (client (n + k)) ≡ true
      → init_consumer (suc k) n ≡ some (n + k)
  init_consumer-first k n before at =
      init_consumer-poll k n ∙ poll-first k k n (λ i. is_ok (client i)) before at (omega arith)

  -- A broker that refuses every call holds the registration of a method for ever.
  init_consumer-never :
      (fuel : ℕ) → ((i : ℕ) → is_ok (client i) ≡ false) → init_consumer (suc fuel) 0 ≡ none
  init_consumer-never fuel refused =
      init_consumer-poll fuel 0 ∙ poll-never fuel 0 (λ i. is_ok (client i)) refused
