-- ===== src/Prelude/Polling.antt =====
-- A loop that sleeps until a test holds: `test n` is the test after n sleeps, and the result is the
-- number of sleeps, or `none` for a loop that is out of fuel.
use Prim.Native.Nat.{ℕ, zero, suc, ◌+◌, ◌≤◌, ◌<◌}
use mathlib.Core.Path.{◌≡◌, ap, sym, ◌∙◌}
use mathlib.Core.Bool.{Bool, true, false}
use mathlib.Core.Option.{Option, none, some}
use native.Mathlib.Omega.{arith}
use celte_system.Prelude.Tests.{if◌then◌else◌}

unfoldable pub poll : (fuel : ℕ) → (test : ℕ → Bool) → ℕ → Option ℕ
poll zero test n = if test n then some n else none
poll (suc fuel) test n = let rest = poll fuel test (suc n) in if test n then some n else rest

poll-now : (fuel n : ℕ) (test : ℕ → Bool) → test n ≡ true → poll fuel test n ≡ some n
unfolding poll
poll-now zero n test at = ground arith
poll-now (suc fuel) n test at = ground arith

-- The loop ends at the first test that holds.
pub poll-first :
    (fuel k n : ℕ) (test : ℕ → Bool)
    → ((i : ℕ) → n ≤ i → i < n + k → test i ≡ false)
    → test (n + k) ≡ true
    → k ≤ fuel
    → poll fuel test n ≡ some (n + k)
unfolding poll
poll-first fuel zero n test before at le =
    let e : n + 0 ≡ n = omega arith in poll-now fuel n test (ap test (sym e) ∙ at) ∙ ap some (sym e)
poll-first zero (suc k) n test before at le = absurd (omega (arith, le))
poll-first (suc fuel) (suc k) n test before at le =
    let e : suc n + k ≡ n + suc k = omega arith in
    let missing : test n ≡ false = before n (omega arith) (omega arith) in
    rw missing (
      poll-first fuel k (suc n) test (λ i lo hi. before i (omega (arith, lo)) (omega (arith, hi)))
        (ap test e ∙ at) (omega (arith, le))
      ∙ ap some e)

-- Where no test holds, the loop does not end, whatever the fuel.
pub poll-never :
    (fuel n : ℕ) (test : ℕ → Bool) → ((i : ℕ) → test i ≡ false) → poll fuel test n ≡ none
unfolding poll
poll-never zero n test missing = ground (arith, missing n)
poll-never (suc fuel) n test missing = rw (missing n, poll) (poll-never fuel (suc n) test missing)
