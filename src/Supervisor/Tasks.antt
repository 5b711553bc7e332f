-- ===== src/Supervisor/Tasks.antt =====
-- src/supervisor/handler.rs: the registry of tasks, and the requests that submit, report and end
-- a task. The JSON values are a type `Value`, read by the functions of its library: `get_str` and
-- `get_u64` look up a field of that type, and `decode` reads an envelope. A path is a text.
pub mod Requests
pub mod Overlap
use aros_kernel.Prelude.{
  ℕ, String, Bool, true, false, Option, none, some, List, [], ◌∷◌, length, if◌then◌else◌, ltb,
  string_eq,
}
use aros_kernel.Prelude.Map.{lookup, insert, remove}
use aros_kernel.Prelude.Result.{Result, ok, err}
use aros_kernel.Envelope.{TaskEnvelope, EnvelopeError, validate, p1_normal}
use aros_kernel.Governor.{ResourceGovernor, check_admission, task_started, task_ended, tokens_used}
use aros_kernel.Governor.Decision.{AdmissionDecision, Reason, admitted, queued, throttled, shed}

-- The field `tasks` of `TaskRegistry`.
abbrev pub TaskRegistry : Type 0
TaskRegistry = List (String × String)

unfoldable pub register : String → String → TaskRegistry → TaskRegistry
register task_id socket_path tasks = insert task_id socket_path tasks

-- The removed path, and the registry that is left.
unfoldable pub remove_task : String → TaskRegistry → Option String × TaskRegistry
remove_task task_id tasks = (lookup task_id tasks, remove task_id tasks)

unfoldable pub get : String → TaskRegistry → Option String
get task_id tasks = lookup task_id tasks

unfoldable pub active_count : TaskRegistry → ℕ
active_count tasks = length tasks

-- The part of `KernelRequestHandler` that these requests use.
pub record KernelRequestHandler : Type 0 where
  pub governor : ResourceGovernor
  pub task_registry : TaskRegistry

pub data Reply : Type 0 where
  acknowledged completed task_admitted : (task_id : String) → Reply
  task_queued : (task_id : String) (reason : Reason) → Reply

-- Each case stands for a code and a text.
pub data RpcError : Type 0 where
  missing_params : RpcError
  missing_field : (name : String) → RpcError
  invalid_envelope : (e : String) → RpcError
  envelope_rejected : (e : EnvelopeError) → RpcError
  unknown_task : (task_id : String) → RpcError
  budget_throttled budget_shed : (reason : Reason) → RpcError

-- What a JSON library offers the handler.
pub record Json (Value : Type 0) : Type 0 where
  pub get_str : String → Value → Option String
  pub get_u64 : String → Value → Option ℕ
  pub decode : Value → Result TaskEnvelope String

-- `ok_or` for a field.
abbrev pub required : String → Option String → Result String RpcError
required name none = err (missing_field name)
required name (some text) = ok text

module _ {Value : Type 0} (json : Json Value) where
  unfoldable pub handle_task_progress :
      Option Value → KernelRequestHandler → Result Reply RpcError × KernelRequestHandler
  handle_task_progress none h = (err missing_params, h)
  handle_task_progress (some params) h = elim (required "task_id" (json.get_str "task_id" params)) [
    | err e ↦ (err e, h)
    | ok task_id ↦ elim (required "dag_id" (json.get_str "dag_id" params)) [
      | err e ↦ (err e, h)
      | ok dag_id ↦ elim (required "phase" (json.get_str "phase" params)) [
        | err e ↦ (err e, h)
        | ok phase ↦ elim (get task_id h.task_registry) [
          | none ↦ (err (unknown_task task_id), h)
          | some path ↦ (ok (acknowledged task_id), h)
        ]
      ]
    ]
  ]

  -- `unwrap_or(0)`
  abbrev pub tokens_of : Value → ℕ
  tokens_of params = elim (json.get_u64 "tokens_used" params) [ none ↦ 0 | some n ↦ n ]

  -- What the completion does to the governor, for a task of any tier.
  unfoldable pub released : ℕ → ResourceGovernor → ResourceGovernor
  released count g =
      let ended = task_ended p1_normal 0 g in
      if ltb 0 count then tokens_used p1_normal count ended else ended

  unfoldable pub handle_task_complete :
      Option Value → KernelRequestHandler → Result Reply RpcError × KernelRequestHandler
  handle_task_complete none h = (err missing_params, h)
  handle_task_complete (some params) h = elim (required "task_id" (json.get_str "task_id" params)) [
    | err e ↦ (err e, h)
    | ok task_id ↦ elim (required "dag_id" (json.get_str "dag_id" params)) [
      | err e ↦ (err e, h)
      | ok dag_id ↦
          let (socket_path, rest) = remove_task task_id h.task_registry in
          let removed = record h { task_registry = rest } in
          elim socket_path [
            | none ↦ (err (unknown_task task_id), removed)
            | some path ↦ (
              ok (completed task_id),
              record removed { governor = released (tokens_of params) h.governor },
            )
          ]
    ]
  ]

  -- The answer to a decision; only an admitted task is started.
  unfoldable pub answer :
      TaskEnvelope
      → KernelRequestHandler
      → AdmissionDecision
      → Result Reply RpcError × KernelRequestHandler
  answer e h admitted = (
    ok (task_admitted e.task_id),
    record h { governor = task_started e.priority e.resource_budget.max_rss_mb h.governor },
  )
  answer e h (queued reason) = (ok (task_queued e.task_id reason), h)
  answer e h (throttled reason) = (err (budget_throttled reason), h)
  answer e h (shed reason) = (err (budget_shed reason), h)

  -- The decision and its answer are two steps, with no lock held between them; here they follow each
  -- other at once.
  unfoldable pub handle_task_submit :
      Option Value → KernelRequestHandler → Result Reply RpcError × KernelRequestHandler
  handle_task_submit none h = (err missing_params, h)
  handle_task_submit (some params) h = elim (json.decode params) [
    | err e ↦ (err (invalid_envelope e), h)
    | ok envelope ↦ elim (validate envelope) [
      | err e ↦ (err (envelope_rejected e), h)
      | ok _ ↦ answer envelope h (
          check_admission envelope.priority envelope.resource_budget.max_rss_mb
            envelope.resource_budget.max_tokens h.governor)
    ]
  ]
