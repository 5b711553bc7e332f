-- ===== src/Dispatch/Contracts.antt =====
-- src/dispatch/contracts.rs: the triggers that the loops send each other.
use aros_kernel.Prelude.{ℕ, String, Bool, Option, none, some}
use aros_kernel.Prelude.Float.{F64}
use aros_kernel.Envelope.{TaskEnvelope}
use aros_kernel.Supervisor.Process.{ProcessId}

pub data TriggerKind (Value : Type 0) : Type 0 where
  task_dispatch : TaskEnvelope → TriggerKind Value
  task_progress : (task_id dag_id phase : String) (detail : Option Value) → TriggerKind Value
  task_complete :
      (task_id dag_id output : String) (tokens_used : ℕ) (duration_secs : F64) → TriggerKind Value
  task_failed : (task_id dag_id error : String) (retryable : Bool) → TriggerKind Value
  task_cancel : (task_id reason : String) → TriggerKind Value
  meta_cycle_request : (trigger_source : String) → TriggerKind Value
  meta_cycle_authorized : (cycle_id : String) → TriggerKind Value
  meta_cycle_complete :
      (cycle_id : String) (policy_changed : Bool) (drift_score : F64) → TriggerKind Value
  ping pong : TriggerKind Value

pub record LoopTrigger (Value : Type 0) : Type 0 where
  pub seq : ℕ
  pub source : ProcessId
  pub target : ProcessId
  pub kind : TriggerKind Value
  pub trace_parent : Option String

unfoldable pub new :
    {Value : Type 0} → ℕ → (source target : ProcessId) → TriggerKind Value → LoopTrigger Value
new seq source target kind = record {
  seq = seq;
  source = source;
  target = target;
  kind = kind;
  trace_parent = none;
}

unfoldable pub with_trace : {Value : Type 0} → String → LoopTrigger Value → LoopTrigger Value
with_trace trace_parent t = record t { trace_parent = some trace_parent }

pub data TriggerError : Type 0 where
  target_not_running : ProcessId → TriggerError
  rejected dispatch : String → TriggerError
