-- ===== src/Supervisor/Triggers.antt =====
-- src/supervisor/handler.rs: the triggers of the loops, and the routing of all requests. The store
-- is any `StateStore` over a type `S`. That its lock is poisoned, which takes a panic of another
-- thread, is left out.
pub mod Routing
pub mod Cycle
pub mod Counter
pub mod History
pub mod Registry
mod Examples
use aros_kernel.Prelude.{
  ℕ, String, Bool, true, false, not, ◌&&◌, Option, none, some, List, any, if◌then◌else◌, ◌==◌,
  add64, string_eq,
}
use aros_kernel.Prelude.Float.{F64}
use aros_kernel.Prelude.Result.{Result, ok, err}
use aros_kernel.Dispatch.Rpc.{
  RpcMethod, task_submit, task_progress, task_complete, loop_trigger, ping,
}
use aros_kernel.Dispatch.Rpc
use aros_kernel.Dispatch.Contracts.{
  LoopTrigger, TriggerKind, meta_cycle_request, meta_cycle_complete,
}
use aros_kernel.Dispatch.Contracts
use aros_kernel.Store.Acl.{StateStore, StoreError}
use aros_kernel.Supervisor.Process.{ProcessId, id_eq, kernel, loop1_agentic, running, state_eq}
use aros_kernel.Supervisor.Health.{ProcessHealth, HealthStatus}
use aros_kernel.Supervisor.Kernel.{KernelSupervisor, health}
use aros_kernel.Supervisor.Tasks.{
  KernelRequestHandler, Json, RpcError, Reply, get, handle_task_submit, handle_task_progress,
  handle_task_complete,
}

-- All that `KernelRequestHandler` shares: the supervisor, the governor and the registry (`tasks`),
-- the store, and the counter of triggers.
pub record Kernel (S : Type 0) : Type 0 where
  pub supervisor : KernelSupervisor
  pub tasks : KernelRequestHandler
  pub state_store : S
  pub trigger_seq : ℕ

unfoldable pub new : {S : Type 0} → KernelSupervisor → KernelRequestHandler → S → Kernel S
new supervisor tasks state_store = record {
  supervisor = supervisor;
  tasks = tasks;
  state_store = state_store;
  trigger_seq = 1;
}

-- `authorized seq` carries the identifier "cycle-{seq}".
pub data Answer : Type 0 where
  pong : Answer
  task : Reply → Answer
  authorized : (seq : ℕ) → Answer
  persisted : (cycle_id : String) (drift_score : F64) (policy_updated : Bool) → Answer
  cancel_forwarded : (task_id : String) → Answer
  routed : (seq : ℕ) (target : ProcessId) → Answer

-- Each case stands for a code and a text, as those of `RpcError` do.
pub data Fault : Type 0 where
  in_task : RpcError → Fault
  missing_params : Fault
  missing_task_id : Fault
  invalid_trigger serialization : (e : String) → Fault
  source_not_running target_not_running : ProcessId → Fault
  write_failed : StoreError → Fault
  unknown_task : (task_id : String) → Fault

-- What the JSON library and the standard library offer: triggers as values, texts as bytes.
pub record TriggerJson (Value : Type 0) : Type 0 where
  pub json : Json Value
  pub encode_trigger : LoopTrigger Value → Result Value String
  pub decode_trigger : Value → Result (LoopTrigger Value) String
  pub drift_bytes : F64 → List ℕ
  pub text_bytes : String → List ℕ

abbrev pub Handled : Type 0 → Type 0
Handled S = Result Answer Fault × Kernel S

-- `fetch_add`: the old number, and the handler with the next one.
unfoldable pub next_seq : {S : Type 0} → Kernel S → ℕ × Kernel S
next_seq k = (k.trigger_seq, record k { trigger_seq = add64 k.trigger_seq 1 })

unfoldable pub is_live : ProcessId → HealthStatus → Bool
is_live id h =
    any (λ (p : ProcessHealth). p.id == id && state_eq p.state running) h.active_processes

module _ {S Value : Type 0} (store : StateStore S) (wire : TriggerJson Value) where
  -- `put(key, value)?` and what follows it.
  unfoldable pub put_then : String → List ℕ → (Kernel S → Handled S) → Kernel S → Handled S
  put_then key value next k =
      let (answer, left) = store.put key value k.state_store in
      let written = record k { state_store = left } in
      elim answer [ err e ↦ (err (write_failed e), written) | ok _ ↦ next written ]

  unfoldable pub complete_cycle : String → Bool → F64 → Kernel S → Handled S
  unfolding put_then
  complete_cycle cycle_id policy_changed drift_score =
      let done : Kernel S → Handled S =
        λ k. (ok (persisted cycle_id drift_score policy_changed), k) in
      put_then "sie/identity/last_drift" (wire.drift_bytes drift_score) (
        put_then "sie/meta/last_cycle" (wire.text_bytes cycle_id) (
          if policy_changed
          then put_then "sie/policy/head" (wire.text_bytes cycle_id) done
          else done))

  -- The `match` on the kind of a trigger.
  unfoldable pub route : LoopTrigger Value → Kernel S → Handled S
  unfolding complete_cycle next_seq
  route trigger k = elim trigger.kind [
    | meta_cycle_request trigger_source ↦ let (seq, k) = next_seq k in (ok (authorized seq), k)
    | meta_cycle_complete cycle_id policy_changed drift_score ↦
        complete_cycle cycle_id policy_changed drift_score k
    | Contracts.task_cancel task_id reason ↦ elim (get task_id k.tasks.task_registry) [
      | some path ↦ (ok (cancel_forwarded task_id), k)
      | none ↦ (err (unknown_task task_id), k)
    ]
    | _ ↦ (ok (routed trigger.seq trigger.target), k)
  ]

  -- From the reading of the health on.
  unfoldable pub check_route : ℕ → LoopTrigger Value → Kernel S → Handled S
  unfolding route is_live
  check_route now trigger k =
      let (status, supervisor) = health now k.supervisor in
      let k = record k { supervisor = supervisor } in
      if not (is_live trigger.source status)
      then (err (source_not_running trigger.source), k)
      else if not (trigger.target == kernel) && not (is_live trigger.target status)
      then (err (target_not_running trigger.target), k)
      else route trigger k

  unfoldable pub handle_loop_trigger : ℕ → Option Value → Kernel S → Handled S
  unfolding check_route
  handle_loop_trigger now none k = (err missing_params, k)
  handle_loop_trigger now (some params) k = elim (wire.decode_trigger params) [
    | err e ↦ (err (invalid_trigger e), k)
    | ok trigger ↦ check_route now trigger k
  ]

  -- A request on tasks works on the governor and the registry.
  unfoldable pub on_tasks :
      (KernelRequestHandler → Result Reply RpcError × KernelRequestHandler) → Kernel S → Handled S
  on_tasks f k =
      let (answer, tasks) = f k.tasks in
      let k = record k { tasks = tasks } in
      elim answer [ ok reply ↦ (ok (task reply), k) | err e ↦ (err (in_task e), k) ]

  -- `unwrap_or("requested")`
  abbrev pub reason_of : Value → String
  reason_of params = elim (wire.json.get_str "reason" params) [ none ↦ "requested" | some r ↦ r ]

  unfoldable pub handle_task_cancel : ℕ → Option Value → Kernel S → Handled S
  unfolding handle_loop_trigger next_seq Contracts.new
  handle_task_cancel now none k = (err missing_params, k)
  handle_task_cancel now (some params) k = elim (wire.json.get_str "task_id" params) [
    | none ↦ (err missing_task_id, k)
    | some task_id ↦
        let (seq, k) = next_seq k in
        let trigger =
          Contracts.new seq kernel loop1_agentic
            (Contracts.task_cancel task_id (reason_of params)) in
        elim (wire.encode_trigger trigger) [
          | err e ↦ (err (serialization e), k)
          | ok value ↦ handle_loop_trigger now (some value) k
        ]
  ]

  unfoldable pub handle : ℕ → RpcMethod → Option Value → Kernel S → Handled S
  unfolding handle_loop_trigger handle_task_cancel on_tasks
  handle now ping params k = (ok pong, k)
  handle now task_submit params k = on_tasks (handle_task_submit wire.json params) k
  handle now task_progress params k = on_tasks (handle_task_progress wire.json params) k
  handle now task_complete params k = on_tasks (handle_task_complete wire.json params) k
  handle now Rpc.task_cancel params k = handle_task_cancel now params k
  handle now loop_trigger params k = handle_loop_trigger now params k
