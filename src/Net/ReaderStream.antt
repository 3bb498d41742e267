-- ===== src/Net/ReaderStream.antt =====
-- The loop of ReaderStream::__subscribe (system/include/ReaderStream.hpp). `client` is the broker: the
-- outcome of its n-th call of subscribe.
use celte_system.Prelude.{
  ℕ, zero, suc, ◌+◌, ◌≤◌, ◌≡◌, ◌≢◌, ◌⊎◌, refl, Bool, true, false, Option, none, some, arith, inl,
  inr,
}

pub data Attempt : Type 0 where
  result_ok : Attempt
  result_error : Attempt
  throws : Attempt

module _ (client : ℕ → Attempt) where
  -- The loop after `n` calls, with `retry` left: whether it has subscribed, and the number of
  -- calls. An exception goes on without a change of `retry`. `none` is out of fuel.
  unfoldable pub subscribe_loop : (fuel n retry : ℕ) → Option (Bool × ℕ)
  subscribe_loop fuel n zero = some (false, n)
  subscribe_loop zero n (suc retry) = none
  subscribe_loop (suc fuel) n (suc retry) = elim (client n) [
    | result_ok ↦ some (true, n + 1)
    | result_error ↦ subscribe_loop fuel (n + 1) retry
    | throws ↦ subscribe_loop fuel (n + 1) (suc retry)
  ]

  -- __subscribe starts with 10 retries.
  abbrev pub subscribe : ℕ → Option (Bool × ℕ)
  subscribe fuel = subscribe_loop fuel 0 10

  -- Whether one of the `k` calls from the n-th one on succeeds.
  abbrev pub succeeds : (n k : ℕ) → Bool
  succeeds n zero = false
  succeeds n (suc k) = elim (client n) [
    | result_ok ↦ true
    | result_error ↦ succeeds (n + 1) k
    | throws ↦ succeeds (n + 1) k
  ]

pub Attempt-cases : (a : Attempt) → (a ≡ result_ok) ⊎ ((a ≡ result_error) ⊎ (a ≡ throws))
Attempt-cases result_ok = inl refl
Attempt-cases result_error = inr (inl refl)
Attempt-cases throws = inr (inr refl)

module _ (client : ℕ → Attempt) where
  loop-calm :
      (n k : ℕ)
      → ((m : ℕ) → client m ≢ throws)
      → (m : ℕ) × (subscribe_loop client k n k ≡ some (succeeds client n k, m)) × (m ≤ n + k)
  unfolding subscribe_loop
  loop-calm n zero calm = (n, refl, omega arith)
  loop-calm n (suc k) calm = elim (Attempt-cases (client n)) [
    | inl ok ↦ (n + 1, ground arith, omega arith)
    | inr (inl failed) ↦
        let (m, rest, bound) = loop-calm (n + 1) k calm in
        (m, ground (arith, rest), omega (arith, bound))
    | inr (inr thrown) ↦ absurd (calm n thrown)
  ]

  -- Where no call of the broker's client throws, subscribing ends after at most ten calls, and has
  -- succeeded exactly if one of the first ten calls would.
  pub subscribe-calm :
      ((m : ℕ) → client m ≢ throws)
      → (calls : ℕ) × (subscribe client 10 ≡ some (succeeds client 0 10, calls)) × (calls ≤ 10)
  subscribe-calm calm = loop-calm 0 10 calm

  loop-throws :
      (fuel n retry : ℕ)
      → ((m : ℕ) → client m ≡ throws)
      → subscribe_loop client fuel n (suc retry) ≡ none
  unfolding subscribe_loop
  loop-throws zero n retry storm = refl
  loop-throws (suc fuel) n retry storm =
      let next = loop-throws fuel (n + 1) retry storm in ground (arith, storm n)

  -- Where every call of the broker's client throws, subscribing does not end, whatever the fuel.
  subscribe-throws : (fuel : ℕ) → ((m : ℕ) → client m ≡ throws) → subscribe client fuel ≡ none
  subscribe-throws fuel storm = loop-throws fuel 0 9 storm
