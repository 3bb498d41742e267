-- ===== src/Rpc/Retry.antt =====
-- CRPCBuilder::CallObject (system/include/CRPC.hpp): a call with a timeout and retries. What the
-- network does to each attempt is the argument `futures`; times are in milliseconds.
pub mod Laws
use celte_system.Prelude.{
  ℕ, zero, suc, ◌+◌, Bool, true, false, Option, none, some, ltb, leb, if◌then◌else◌,
}

-- What becomes of one attempt: RPCCallerStub::call fails, or the promise is set to `A` some time after
-- it, or it is never set. Each begins with the time that RPCCallerStub::call takes itself, with its
-- lock and the making of a producer, which no timeout of the call bounds.
pub data Future {ℓ} (A : Type ℓ) : Type ℓ where
  exception : (sending : ℕ) → Future A
  ready_after : (sending delay : ℕ) → A → Future A
  never : (sending : ℕ) → Future A

pub data Failure : Type 0 where
  not_sent timed_out remote_error bad_response : Failure

-- How an attempt ends, and how long it held the thread; `stuck` is wait() on a promise never set.
pub data Attempt {ℓ} (R : Type ℓ) : Type ℓ where
  answered : R → ℕ → Attempt R
  failed : Failure → ℕ → Attempt R
  stuck : Attempt R

pub data Result {ℓ} (R : Type ℓ) : Type ℓ where
  value : R → Result R
  -- The fail callback ran with this status, and nullopt is returned.
  gave_up : Failure → Result R
  -- std::logic_error
  logic_error : Result R
  hangs : Result R

pub record Run {ℓ} (R : Type ℓ) : Type ℓ where
  pub result : Result R
  pub attempts : ℕ
  pub elapsed : ℕ

-- `deserialize` is `none` where it throws, `is_null` is the test of the response for null.
module _ {ℓ κ} {A : Type ℓ} {R : Type κ} (is_null : A → Bool) (deserialize : A → Option R) where
  unfoldable pub read_response : ℕ → A → Attempt R
  read_response t json =
      if is_null json
      then failed remote_error t
      else elim (deserialize json) [ none ↦ failed bad_response t | some r ↦ answered r t ]

  -- One round of __call_impl. A timeout of 0 waits without end.
  unfoldable pub attempt : ℕ → Future A → Attempt R
  attempt timeout (exception sending) = failed not_sent sending
  attempt timeout (ready_after sending t json) =
      if ltb 0 timeout
      then (if leb t timeout
          then read_response (sending + t) json
          else failed timed_out (sending + timeout))
      else read_response (sending + t) json
  attempt timeout (never sending) =
      if ltb 0 timeout then failed timed_out (sending + timeout) else stuck

  -- __call_impl and __handle_failure, after `n` attempts and `spent` milliseconds; the first
  -- argument is _retry.
  unfoldable pub call_impl : ℕ → ℕ → (ℕ → Future A) → ℕ → ℕ → Run R
  call_impl zero timeout futures n spent = elim (attempt timeout (futures n)) [
    | answered r t ↦ record { result = value r; attempts = suc n; elapsed = spent + t }
    | failed e t ↦ record { result = gave_up e; attempts = suc n; elapsed = spent + t }
    | stuck ↦ record { result = hangs; attempts = suc n; elapsed = spent }
  ]
  call_impl (suc retry) timeout futures n spent = elim (attempt timeout (futures n)) [
    | answered r t ↦ record { result = value r; attempts = suc n; elapsed = spent + t }
    | failed e t ↦ call_impl retry timeout futures (suc n) (spent + t)
    | stuck ↦ record { result = hangs; attempts = suc n; elapsed = spent }
  ]

  -- CallObject::call
  unfoldable pub call : Bool → ℕ → ℕ → (ℕ → Future A) → Run R
  call called_on_multiple_peers timeout retry futures =
      if called_on_multiple_peers
      then record { result = logic_error; attempts = 0; elapsed = 0 }
      else call_impl retry timeout futures 0 0
