-- ===== src/Supervisor/Triggers/Registry.antt =====
-- src/supervisor/handler.rs: no request fills the registry of tasks.
use mathlib.Core.Path.{subst}
use aros_kernel.Prelude.{
  ℕ, String, ◌+◌, ◌*◌, ◌<◌, length, u64_max, ◌≡◌, refl, sym, ap, ◌∙◌, Option, none, some, List, [],
  ◌∷◌, arith, Option-cases, string_eq, inl, inr,
}
use aros_kernel.Prelude.Map.{lookup, remove}
use aros_kernel.Prelude.Result.{Result-cases}
use aros_kernel.Dispatch.Rpc.{
  RpcMethod, task_submit, task_progress, task_complete, loop_trigger, ping,
}
use aros_kernel.Dispatch.Rpc
use aros_kernel.Envelope.{TaskEnvelope, validate}
use aros_kernel.Governor.Decision.{AdmissionDecision, admitted, queued, throttled, shed}
use aros_kernel.Store.Acl.{StateStore}
use aros_kernel.Governor.{check_admission}
use aros_kernel.Governor.Within.{IsWithin}
use aros_kernel.Supervisor.Tasks.{
  KernelRequestHandler, Json, get, answer, remove_task, handle_task_submit, handle_task_progress,
  handle_task_complete,
}
use aros_kernel.Supervisor.Tasks.Requests.{Decodes, handle_task_submit-IsWithin}
use aros_kernel.Supervisor.Triggers.{Kernel, TriggerJson, handle}
use aros_kernel.Supervisor.Triggers.History.{serve, on_registry, handle-Step}

module _ {Value : Type 0} (json : Json Value) where
  progress_keeps :
      (params : Option Value) (h : KernelRequestHandler)
      → (handle_task_progress json params h).1 ≡ h
  unfolding handle_task_progress
  progress_keeps none h = refl
  progress_keeps (some v) h = elim (Option-cases (json.get_str "task_id" v)) [
    | inl a ↦ ground arith
    | inr (id, a) ↦ elim (Option-cases (json.get_str "dag_id" v)) [
      | inl b ↦ ground arith
      | inr (dag, b) ↦ elim (Option-cases (json.get_str "phase" v)) [
        | inl c ↦ ground arith
        | inr (phase, c) ↦ elim (Option-cases (get id h.task_registry)) [
          | inl d ↦ ground arith
          | inr (p, d) ↦ ground arith
        ]
      ]
    ]
  ]

  nothing_registered :
      (id : String) (h : KernelRequestHandler)
      → h.task_registry ≡ []
      → remove_task id h.task_registry ≡ (none, h.task_registry)
  unfolding remove_task lookup remove
  nothing_registered id h e = rw e refl

  complete_unregistered :
      (params : Option Value) (h : KernelRequestHandler)
      → h.task_registry ≡ []
      → (handle_task_complete json params h).1 ≡ h
  unfolding handle_task_complete
  complete_unregistered none h e = refl
  complete_unregistered (some v) h e = elim (Option-cases (json.get_str "task_id" v)) [
    | inl a ↦ ground arith
    | inr (id, a) ↦ elim (Option-cases (json.get_str "dag_id" v)) [
      | inl b ↦ ground arith
      | inr (dag, b) ↦
          rw (a, b, ap (λ r. r.0) (nothing_registered id h e), handle_task_complete)
            (ap (λ r. record h { task_registry = r }) (ap (λ r. r.1) (nothing_registered id h e)))
    ]
  ]

  answer_keeps :
      (e : TaskEnvelope) (h : KernelRequestHandler) (d : AdmissionDecision)
      → (answer json e h d).1.task_registry ≡ h.task_registry
  unfolding answer
  answer_keeps e h admitted = refl
  answer_keeps e h (queued r) = refl
  answer_keeps e h (throttled r) = refl
  answer_keeps e h (shed r) = refl

  submit_registers_none :
      (params : Option Value) (h : KernelRequestHandler)
      → (handle_task_submit json params h).1.task_registry ≡ h.task_registry
  unfolding handle_task_submit
  submit_registers_none none h = refl
  submit_registers_none (some v) h = elim (Result-cases (json.decode v)) [
    | inr (e, a) ↦ rw (a, handle_task_submit) refl
    | inl (envelope, a) ↦ elim (Result-cases (validate envelope)) [
      | inr (e, b) ↦ rw (a, b, handle_task_submit) refl
      | inl (u, b) ↦
          rw (a, b, handle_task_submit)
            (answer_keeps envelope h (
              check_admission envelope.priority envelope.resource_budget.max_rss_mb
                envelope.resource_budget.max_tokens h.governor))
    ]
  ]

-- No task is registered, and no slots and no memory are overdrawn.
abbrev pub Idle : KernelRequestHandler → Type 0
Idle h = (h.task_registry ≡ []) × IsWithin h.governor

module _ {S Value : Type 0} (store : StateStore S) (wire : TriggerJson Value)
    (decodes : Decodes wire.json) where
  on_registry-Idle :
      (method : RpcMethod) (params : Option Value) (h : KernelRequestHandler)
      → Idle h
      → Idle (on_registry store wire method params h)
  on_registry-Idle task_submit none h i = unfold handle_task_submit in i
  on_registry-Idle task_submit (some v) h (e, w) = (
    submit_registers_none wire.json (some v) h ∙ e,
    handle_task_submit-IsWithin wire.json v h decodes w,
  )
  on_registry-Idle task_progress params h i = rw (progress_keeps wire.json params h) i
  on_registry-Idle task_complete params h i = rw (complete_unregistered wire.json params h i.0) i
  on_registry-Idle Rpc.task_cancel params h i = i
  on_registry-Idle loop_trigger params h i = i
  on_registry-Idle ping params h i = i

  -- From a start with no task registered and no slots or memory overdrawn, whatever is asked, of any
  -- method and one request after the other, each answered before the next is taken up: no task is
  -- ever registered, and neither the slots and the memory of a tier nor the memory of the system are
  -- ever overdrawn. The requests are fewer than the counter of triggers can number, and the decoder
  -- gives the memory of an envelope the range of its type.
  pub serve-Idle :
      (requests : List (ℕ × RpcMethod × Option Value)) (k : Kernel S)
      → k.trigger_seq + 2 * length requests < u64_max
      → Idle k.tasks
      → Idle (serve store wire requests k).1.tasks
  unfolding serve
  serve-Idle [] k fits i = i
  serve-Idle ((now, method, params) ∷ requests) k fits i =
      let r = handle store wire now method params k in
      let c = handle-Step store wire now method params k (omega arith) in
      serve-Idle requests r.1 (omega (arith, c.bounded))
        (subst Idle (sym c.tasks) (on_registry-Idle method params k.tasks i))
