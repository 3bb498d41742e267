-- ===== src/Rpc/Builder.antt =====
-- CRPCBuilder (system/include/CRPC.hpp): the policies through which a call is built, its topic, and
-- fire_and_forget. The uuid of a request is an argument, and so is what becomes of the write.
use Prim.Native.String.{◌++◌ as ◌++ₛ◌}
use celte_system.Prelude.{ℕ, Bool, true, false, String, Option, none, some, if◌then◌else◌}
use celte_system.Prelude.HashMap.{HashMap}
use celte_system.Prelude.Json.{Json}
use celte_system.Rpc.Stub.Defs.{Process, RpRequest, write}

-- CStatus: the text of the exception, if there is one.
abbrev CStatus : Type 0
CStatus = Option String

-- What a fail callback does.
pub data Effect : Type 0 where
  nothing : Effect
  logged : String → Effect
  rethrown : String → Effect
  called : (callback : ℕ) (status : CStatus) → Effect

abbrev FailCallback : Type 0
FailCallback = CStatus → Effect

pub record FailHandlingPolicy : Type 0 where
  pub scope : String
  pub called_on_multiple_peers : Bool

pub record TimeoutPolicy : Type 0 where
  pub scope : String
  pub called_on_multiple_peers : Bool
  pub fail_callback : FailCallback

pub record RetryPolicy : Type 0 where
  pub scope : String
  pub called_on_multiple_peers : Bool
  pub timeout : ℕ
  pub fail_callback : FailCallback

pub record CallObject : Type 0 where
  pub scope : String
  pub called_on_multiple_peers : Bool
  pub timeout : ℕ
  pub retry : ℕ
  pub fail_callback : FailCallback

-- The first argument of both is tp::default_scope().
unfoldable pub on_peer : String → String → FailHandlingPolicy
on_peer default_scope peer = record {
  scope = default_scope ++ₛ peer;
  called_on_multiple_peers = false;
}

unfoldable pub on_scope : String → String → FailHandlingPolicy
on_scope default_scope scope = record {
  scope = (default_scope ++ₛ scope) ++ₛ ".rpc";
  called_on_multiple_peers = true;
}

abbrev with_callback : FailHandlingPolicy → FailCallback → TimeoutPolicy
with_callback p callback = record {
  scope = p.scope;
  called_on_multiple_peers = p.called_on_multiple_peers;
  fail_callback = callback;
}

unfoldable pub on_fail_do : FailHandlingPolicy → ℕ → TimeoutPolicy
on_fail_do p callback = with_callback p (called callback)

unfoldable pub log_error : FailCallback
log_error none = nothing
log_error (some e) = logged ("Remote call failed: " ++ₛ e)

unfoldable pub on_fail_log_error : FailHandlingPolicy → TimeoutPolicy
on_fail_log_error p = with_callback p log_error

unfoldable on_fail_ignore : FailHandlingPolicy → TimeoutPolicy
on_fail_ignore p = with_callback p (λ status. nothing)

unfoldable rethrow_if : Bool → FailCallback
rethrow_if condition none = nothing
rethrow_if condition (some e) = if condition then rethrown e else nothing

unfoldable on_fail_throw : FailHandlingPolicy → TimeoutPolicy
on_fail_throw p = with_callback p (rethrow_if true)

unfoldable on_fail_throw_if : FailHandlingPolicy → Bool → TimeoutPolicy
on_fail_throw_if p condition = with_callback p (rethrow_if condition)

unfoldable pub with_timeout : TimeoutPolicy → ℕ → RetryPolicy
with_timeout p timeout = record {
  scope = p.scope;
  called_on_multiple_peers = p.called_on_multiple_peers;
  timeout = timeout;
  fail_callback = p.fail_callback;
}

unfoldable pub retry : RetryPolicy → ℕ → CallObject
retry p times = record {
  scope = p.scope;
  called_on_multiple_peers = p.called_on_multiple_peers;
  timeout = p.timeout;
  retry = times;
  fail_callback = p.fail_callback;
}

-- TypeIdentifier::name of a registered method.
unfoldable pub type_name : String → String → String
type_name bound_class method_name = (bound_class ++ₛ "_call_") ++ₛ method_name

-- What becomes of ApachePulsarRPCProducerPool::write, with the exception's own text.
pub data Writing : Type 0 where
  accepted refused : Writing
  throws : String → Writing

-- make_exception_ptr of a `const std::exception &` copies only the base class, so that the text of
-- a caught exception is lost.
abbrev sliced : String → String
sliced what = "std::exception"

abbrev pub forget_request : String → String → String → RpRequest
forget_request method_name rpc_id args = record {
  name = method_name;
  responds_to = "";
  response_topic = "";
  rpc_id = rpc_id;
  args = args;
  error_status = false;
}

module _ ⦃h : HashMap⦄ ⦃j : Json⦄ {S : Type 0} where
  -- RPCCallerStub::fire_and_forget
  unfoldable pub stub_fire_and_forget :
      Writing → Process S → String → String → String → String → Process S × CStatus
  stub_fire_and_forget accepted p scope method_name rpc_id args =
      (write p scope (forget_request method_name rpc_id args), none)
  stub_fire_and_forget refused p scope method_name rpc_id args =
      (p, some ("Failed to write to topic " ++ₛ scope))
  stub_fire_and_forget (throws what) p scope method_name rpc_id args = (p, some (sliced what))

  -- The fail callback is called only where there is an error.
  unfoldable pub report : FailCallback → Process S × CStatus → Process S × Effect
  report callback (p, none) = (p, nothing)
  report callback (p, some e) = (p, callback (some e))

  -- TimeoutPolicy::fire_and_forget
  unfoldable pub fire_and_forget :
      TimeoutPolicy → Writing → Process S → String → String → String → Process S × Effect
  fire_and_forget t w p method_name rpc_id args =
      report t.fail_callback (stub_fire_and_forget w p t.scope method_name rpc_id args)

  -- CallObject::fire_and_forget
  unfoldable pub call_fire_and_forget :
      CallObject → Writing → Process S → String → String → String → Process S × Effect
  call_fire_and_forget c w p method_name rpc_id args =
      report c.fail_callback (stub_fire_and_forget w p c.scope method_name rpc_id args)
