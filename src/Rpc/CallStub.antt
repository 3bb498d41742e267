-- ===== src/Rpc/CallStub.antt =====
-- The classes that REGISTER_RPC_CALL_STUB defines, CallObject::call_async, and the listeners of the
-- stubs (system/include/CRPC.hpp, system/common_src/CRPC.cpp).
use celte_system.Prelude.{
  ℕ, ◌+◌, ◌≤◌, ◌≡◌, refl, Bool, true, false, String, Option, none, some, if◌then◌else◌, arith,
}
use celte_system.Prelude.HashMap.{HashMap}
use celte_system.Prelude.Json.{Json}
use celte_system.Rpc.Stub.Defs.{Process, RpRequest, try_handle_request}
use celte_system.Rpc.Retry
use celte_system.Rpc.Retry.{
  Future, Failure, Result, Run, value, gave_up, logic_error, hangs, call_impl,
}
use celte_system.Rpc.Retry.Laws.{call-Outcome, sending_time}
use celte_system.Rpc.Builder.{
  Effect, CallObject, Writing, on_peer, on_scope, on_fail_do, with_timeout, retry, fire_and_forget,
}

-- Call##bound_class##method_name::Options; the default fail callback is number 0.
pub record Options : Type 0 where
  pub timeout : ℕ
  pub retry : ℕ
  pub fail_callback : ℕ

abbrev default_options : Options
default_options = record { timeout = 1000; retry = 0; fail_callback = 0 }

-- The call that call_on_peer and call_async_on_peer make; `none` is the exception for options that
-- are not set.
unfoldable object_on_peer : Option Options → (default_scope peer : String) → Option CallObject
object_on_peer none default_scope peer = none
object_on_peer (some o) default_scope peer = some (
    retry (with_timeout (on_fail_do (on_peer default_scope peer) o.fail_callback) o.timeout)
      o.retry)

module _ {A R : Type 0} (is_null : A → Bool) (deserialize : A → Option R) where
  -- CallObject::call on the futures that the network gives.
  abbrev run_object : CallObject → (ℕ → Future A) → Run R
  run_object c futures =
      Retry.call is_null deserialize c.called_on_multiple_peers c.timeout c.retry futures

  unfoldable call_on_peer :
      Option Options → (default_scope peer : String) → (ℕ → Future A) → Option (Run R)
  call_on_peer options default_scope peer futures =
      elim (object_on_peer options default_scope peer) [
        | none ↦ none
        | some c ↦ some (run_object c futures)
      ]

  -- How call_async ends: it throws at once, or its task calls the callback, or it does not.
  pub data Async : Type 0 where
    throws_at_once : Async
    calls_back : R → Async
    fails : Effect → Async
    stays : Async

  -- call_async; `what` is the text of the exception of a failure.
  unfoldable call_async : (what : Failure → String) → CallObject → (ℕ → Future A) → Async
  call_async what c futures =
      if c.called_on_multiple_peers
      then throws_at_once
      else elim (call_impl is_null deserialize c.retry c.timeout futures 0 0).result [
        | value r ↦ calls_back r
        | gave_up e ↦ fails (c.fail_callback (some (what e)))
        | logic_error ↦ stays
        | hangs ↦ stays
      ]

  -- call_async_on_peer
  unfoldable call_async_on_peer :
      (what : Failure → String)
      → Option Options
      → (default_scope peer : String) → (ℕ → Future A)
      → Option Async
  call_async_on_peer what options default_scope peer futures =
      elim (object_on_peer options default_scope peer) [
        | none ↦ none
        | some c ↦ some (call_async what c futures)
      ]

  -- A call with the default options comes back a second after its sending at the latest.
  call_on_peer-default :
      (default_scope peer : String) (futures : ℕ → Future A)
      → (run : Run R) × (call_on_peer (some default_options) default_scope peer futures ≡ some run)
        × (run.elapsed ≤ sending_time (futures 0) + 1000)
  unfolding call_on_peer object_on_peer on_peer on_fail_do with_timeout retry
  call_on_peer-default default_scope peer futures =
      let (_, time) = call-Outcome is_null deserialize 1000 0 futures (omega arith) in
      (Retry.call is_null deserialize false 1000 0 futures, refl, omega (arith, time))

module _ ⦃h : HashMap⦄ ⦃j : Json⦄ {S : Type 0} where
  -- The message listener of a consumer: `parse` is none where the message is no request. The
  -- result is whether the message is acknowledged, and the process with `none` for an undefined
  -- state.
  unfoldable callee_listener :
      (parse : String → Option RpRequest) → String → Process S → String → Bool × Option (Process S)
  callee_listener parse scope p message = elim (parse message) [
    | none ↦ (true, some p)
    | some request ↦ (true, try_handle_request p scope request)
  ]

  -- The listener for answers acknowledges only what it can parse.
  unfoldable caller_listener :
      (parse : String → Option RpRequest) → String → Process S → String → Bool × Option (Process S)
  caller_listener parse own_topic p message = elim (parse message) [
    | none ↦ (false, some p)
    | some request ↦ (true, try_handle_request p own_topic request)
  ]

  unfoldable fire_and_forget_on_peer :
      Option Options
      → (default_scope peer : String) → Writing
      → Process S
      → (method_name rpc_id args : String) → Option (Process S × Effect)
  fire_and_forget_on_peer none default_scope peer w p method_name rpc_id args = none
  fire_and_forget_on_peer (some o) default_scope peer w p method_name rpc_id args = some (
      fire_and_forget (on_fail_do (on_peer default_scope peer) o.fail_callback) w p method_name
        rpc_id args)

  unfoldable fire_and_forget_on_scope :
      Option Options
      → (default_scope scope : String) → Writing
      → Process S
      → (method_name rpc_id args : String) → Option (Process S × Effect)
  fire_and_forget_on_scope none default_scope scope w p method_name rpc_id args = none
  fire_and_forget_on_scope (some o) default_scope scope w p method_name rpc_id args = some (
      fire_and_forget (on_fail_do (on_scope default_scope scope) o.fail_callback) w p method_name
        rpc_id args)
