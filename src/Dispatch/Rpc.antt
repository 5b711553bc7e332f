-- ===== src/Dispatch/Rpc.antt =====
-- src/dispatch/rpc.rs: requests, responses, codes of errors, and the names of the methods.
use aros_kernel.Prelude.{
  ℕ, String, ◌≡◌, ◌↔◌, refl, true, Option, none, some, arith, if◌then◌else◌, ◌==◌, string_eq,
}
use aros_kernel.Prelude.Int.{ℤ, negsuc}

pub record JsonRpcRequest (Value : Type 0) : Type 0 where
  pub jsonrpc : String
  pub method : String
  pub params : Option Value
  pub id : Value

-- `number` makes a JSON number.
unfoldable pub new :
    {Value : Type 0} → (ℕ → Value) → String → Option Value → ℕ → JsonRpcRequest Value
new number method params id = record {
  jsonrpc = "2.0";
  method = method;
  params = params;
  id = number id;
}

-- `details` is the field `data`.
pub record JsonRpcError (Value : Type 0) : Type 0 where
  pub code : ℤ
  pub message : String
  pub details : Option Value

pub record JsonRpcResponse (Value : Type 0) : Type 0 where
  pub jsonrpc : String
  pub result : Option Value
  pub error : Option (JsonRpcError Value)
  pub id : Value

unfoldable pub success : {Value : Type 0} → Value → Value → JsonRpcResponse Value
success id result = record { jsonrpc = "2.0"; result = some result; error = none; id = id }

unfoldable pub error : {Value : Type 0} → Value → ℤ → String → Option Value → JsonRpcResponse Value
error id code message details = record {
  jsonrpc = "2.0";
  result = none;
  error = some (record { code = code; message = message; details = details });
  id = id;
}

-- -32700, and so on.
abbrev pub error_parse : ℤ
error_parse = negsuc 32699

abbrev pub error_invalid_request : ℤ
error_invalid_request = negsuc 32599

abbrev pub error_method_not_found : ℤ
error_method_not_found = negsuc 32600

abbrev pub error_invalid_params : ℤ
error_invalid_params = negsuc 32601

abbrev pub error_internal : ℤ
error_internal = negsuc 32602

abbrev pub error_permission_denied : ℤ
error_permission_denied = negsuc 31999

abbrev pub error_budget_exceeded : ℤ
error_budget_exceeded = negsuc 32000

abbrev pub error_security_zone : ℤ
error_security_zone = negsuc 32001

abbrev pub error_envelope_version : ℤ
error_envelope_version = negsuc 32002

pub data RpcMethod : Type 0 where
  task_submit task_progress task_complete task_cancel loop_trigger ping : RpcMethod

unfoldable pub as_str : RpcMethod → String
as_str task_submit = "task.submit"
as_str task_progress = "task.progress"
as_str task_complete = "task.complete"
as_str task_cancel = "task.cancel"
as_str loop_trigger = "loop.trigger"
as_str ping = "ping"

unfoldable pub from_str : String → Option RpcMethod
from_str s =
    if s == "task.submit"
    then some task_submit
    else if s == "task.progress"
    then some task_progress
    else if s == "task.complete"
    then some task_complete
    else if s == "task.cancel"
    then some task_cancel
    else if s == "loop.trigger"
    then some loop_trigger
    else if s == "ping"
    then some ping
    else none

from_str-as_str : (m : RpcMethod) → from_str (as_str m) ≡ some m
unfolding from_str as_str
from_str-as_str task_submit = refl
from_str-as_str task_progress = refl
from_str-as_str task_complete = refl
from_str-as_str task_cancel = refl
from_str-as_str loop_trigger = refl
from_str-as_str ping = refl

named-as_str : (s : String) (m : RpcMethod) → from_str s ≡ some m → (s == as_str m) ≡ true
unfolding from_str as_str
named-as_str s m h = ground arith

-- A text is read as a method exactly if it is the name of that method.
from_str_iff : (s : String) (m : RpcMethod) → (from_str s ≡ some m) ↔ (s ≡ as_str m)
from_str_iff s m =
    (λ h. (string_eq.beq_iff s (as_str m)).0 (named-as_str s m h), λ e. rw e (from_str-as_str m))
