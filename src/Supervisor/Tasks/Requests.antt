-- ===== src/Supervisor/Tasks/Requests.antt =====
-- src/supervisor/handler.rs: what the requests on tasks do to the governor and the registry.
use aros_kernel.Prelude.{
  String, string_eq, ◌≤◌, ◌≡◌, ◌↔◌, inl, inr, refl, ap, ◌∙◌, none, some, [], ◌∷◌, arith, sym,
  u32_max, Option-cases, beq_self,
}
use aros_kernel.Prelude.Map.{lookup, remove, lookup-remove}
use aros_kernel.Prelude.Result.{Result, ok, err, Result-cases}
use aros_kernel.Envelope.{TaskEnvelope, EnvelopeError, validate}
use aros_kernel.Envelope.Validation.{IsWellFormed, validate_iff}
use aros_kernel.Governor.{ResourceGovernor, check_admission}
use aros_kernel.Governor.Decision.{AdmissionDecision, admitted, queued, throttled, shed}
use aros_kernel.Governor.Within.{IsWithin}
use aros_kernel.Governor.Admission.{MayStart, check_admission_iff, admit_start-IsWithin}
use aros_kernel.Supervisor.Tasks.{
  KernelRequestHandler, Reply, task_admitted, RpcError, invalid_envelope, envelope_rejected,
  TaskRegistry, unknown_task, Json, remove_task, answer, handle_task_complete, handle_task_submit,
}

-- The decoder gives the memory of an envelope the range of its type, `u32`.
pub record Decodes {Value : Type 0} (json : Json Value) : Type 0 where
  pub rss_fits :
      (v : Value) (e : TaskEnvelope) → json.decode v ≡ ok e → e.resource_budget.max_rss_mb ≤ u32_max

abbrev pub decision_on : TaskEnvelope → ResourceGovernor → AdmissionDecision
decision_on e g =
    check_admission e.priority e.resource_budget.max_rss_mb e.resource_budget.max_tokens g

remove-absent : (k : String) (m : TaskRegistry) → lookup k m ≡ none → remove k m ≡ m
unfolding lookup remove
remove-absent k [] gone = refl
remove-absent k ((j, w) ∷ m) gone = ground (arith, remove-absent k m)

lookup-removed : (k : String) (m : TaskRegistry) → lookup k (remove k m) ≡ none
lookup-removed k m = ground (arith, lookup-remove k k m, beq_self k)

module _ {Value : Type 0} (json : Json Value) where
  answer-IsWithin :
      (e : TaskEnvelope) (h : KernelRequestHandler) (d : AdmissionDecision)
      → IsWithin h.governor
      → e.resource_budget.max_rss_mb ≤ u32_max
      → decision_on e h.governor ≡ d
      → IsWithin (answer json e h d).1.governor
  unfolding answer
  answer-IsWithin e h admitted w fits decided =
      admit_start-IsWithin h.governor e.priority e.resource_budget.max_rss_mb
        e.resource_budget.max_tokens w fits decided
  answer-IsWithin e h (queued r) w fits decided = w
  answer-IsWithin e h (throttled r) w fits decided = w
  answer-IsWithin e h (shed r) w fits decided = w

  submit_unreadable :
      (v : Value) (h : KernelRequestHandler) (x : String)
      → json.decode v ≡ err x
      → handle_task_submit json (some v) h ≡ (err (invalid_envelope x), h)
  unfolding handle_task_submit
  submit_unreadable v h x bad = rw (bad, handle_task_submit)

  submit_rejected :
      (v : Value) (h : KernelRequestHandler) (e : TaskEnvelope) (f : EnvelopeError)
      → json.decode v ≡ ok e
      → validate e ≡ err f
      → handle_task_submit json (some v) h ≡ (err (envelope_rejected f), h)
  unfolding handle_task_submit
  submit_rejected v h e f good bad = rw (good, bad, handle_task_submit)

  submit_decided :
      (v : Value) (h : KernelRequestHandler) (e : TaskEnvelope)
      → json.decode v ≡ ok e
      → validate e ≡ ok tt
      → handle_task_submit json (some v) h ≡ answer json e h (decision_on e h.governor)
  unfolding handle_task_submit
  submit_decided v h e good fine = rw (good, fine, handle_task_submit)

  -- Whatever is submitted, no slots and no memory are overdrawn afterwards, if none were before, no
  -- other request comes between the decision and its answer, and the decoder gives the memory of an envelope the range of its type.
  pub handle_task_submit-IsWithin :
      (v : Value) (h : KernelRequestHandler)
      → Decodes json
      → IsWithin h.governor
      → IsWithin (handle_task_submit json (some v) h).1.governor
  handle_task_submit-IsWithin v h d w = elim (Result-cases (json.decode v)) [
    | inr (x, bad) ↦ rw (submit_unreadable v h x bad) w
    | inl (e, good) ↦ elim (Result-cases (validate e)) [
      | inr (f, bad) ↦ rw (submit_rejected v h e f good bad) w
      | inl (u, fine) ↦
          rw (submit_decided v h e good fine)
            (answer-IsWithin e h (decision_on e h.governor) w (d.rss_fits v e good) refl)
    ]
  ]

  answer_admitted :
      (e : TaskEnvelope) (h : KernelRequestHandler) (d : AdmissionDecision)
      → ((answer json e h d).0 ≡ ok (task_admitted e.task_id)) ↔ (d ≡ admitted)
  unfolding answer
  answer_admitted e h admitted = (λ x. refl, λ x. refl)
  answer_admitted e h (queued r) = (λ x. absurd (ground arith), λ x. absurd (ground arith))
  answer_admitted e h (throttled r) = (λ x. absurd (ground arith), λ x. absurd (ground arith))
  answer_admitted e h (shed r) = (λ x. absurd (ground arith), λ x. absurd (ground arith))

  -- A task of any priority, the critical one included, whose envelope can be read is admitted
  -- exactly if the envelope is well formed, with a warning threshold from 0 to 1 or not a number, and
  -- the governor, where no slots and no memory are overdrawn, has room for the memory and the tokens
  -- of its budget. No other request comes between the decision and its answer.
  pub handle_task_submit_iff :
      (v : Value) (e : TaskEnvelope) (h : KernelRequestHandler)
      → json.decode v ≡ ok e
      → e.resource_budget.max_rss_mb ≤ u32_max
      → IsWithin h.governor
      → ((handle_task_submit json (some v) h).0 ≡ ok (task_admitted e.task_id)) ↔ (
          IsWellFormed e
          × MayStart h.governor e.priority e.resource_budget.max_rss_mb
              e.resource_budget.max_tokens)
  handle_task_submit_iff v e h good fits w = (to, from)
    where
      room :
          (decision_on e h.governor ≡ admitted)
          ↔ MayStart h.governor e.priority e.resource_budget.max_rss_mb e.resource_budget.max_tokens
      room =
          check_admission_iff h.governor e.priority e.resource_budget.max_rss_mb
            e.resource_budget.max_tokens w fits

      to :
          (handle_task_submit json (some v) h).0 ≡ ok (task_admitted e.task_id)
          → IsWellFormed e
            × MayStart h.governor e.priority e.resource_budget.max_rss_mb
                e.resource_budget.max_tokens
      to done = elim (Result-cases (validate e)) [
        | inr (f, bad) ↦
            absurd (refused f (sym (ap (λ r. r.0) (submit_rejected v h e f good bad)) ∙ done))
        | inl (u, fine) ↦ (
          (validate_iff e).0 fine,
          room.0 (
              (answer_admitted e h (decision_on e h.governor)).0
                (sym (ap (λ r. r.0) (submit_decided v h e good fine)) ∙ done)),
        )
      ]
        where
          refused :
              (f : EnvelopeError)
              → ¬ (
                  ◌≡◌ {A = Result Reply RpcError}
                    (err (envelope_rejected f))
                    (ok (task_admitted e.task_id)))
          refused f q = cc

      from :
          IsWellFormed e
            × MayStart h.governor e.priority e.resource_budget.max_rss_mb
                e.resource_budget.max_tokens
          → (handle_task_submit json (some v) h).0 ≡ ok (task_admitted e.task_id)
      from (formed, may) =
          ap (λ r. r.0) (submit_decided v h e good ((validate_iff e).1 formed))
          ∙ (answer_admitted e h (decision_on e h.governor)).1 (room.1 may)

  -- A completion that is not refused names a registered task, and then takes it away.
  complete_cases :
      (v : Value) (h : KernelRequestHandler) (r : Reply)
      → (handle_task_complete json (some v) h).0 ≡ ok r
      → (id : String) × (dag : String) × (json.get_str "task_id" v ≡ some id)
        × (json.get_str "dag_id" v ≡ some dag)
        × ((handle_task_complete json (some v) h).1.task_registry ≡ remove id h.task_registry)
  unfolding handle_task_complete remove_task
  complete_cases v h r done = elim (Option-cases (json.get_str "task_id" v)) [
    | inl gone ↦ absurd (ground arith)
    | inr (id, has_id) ↦ elim (Option-cases (json.get_str "dag_id" v)) [
      | inl gone ↦ absurd (ground arith)
      | inr (dag, has_dag) ↦ elim (Option-cases (lookup id h.task_registry)) [
        | inl gone ↦ absurd (ground arith)
        | inr (path, here) ↦ (id, dag, has_id, has_dag, ground arith)
      ]
    ]
  ]

  complete_unknown :
      (v : Value) (h : KernelRequestHandler) (id dag : String)
      → json.get_str "task_id" v ≡ some id
      → json.get_str "dag_id" v ≡ some dag
      → lookup id h.task_registry ≡ none
      → handle_task_complete json (some v) h ≡ (err (unknown_task id), h)
  unfolding handle_task_complete remove_task
  complete_unknown v h id dag has_id has_dag gone =
      ground (arith, remove-absent id h.task_registry gone)

  -- A task is completed once: when the completion of a task succeeds, the same request then meets
  -- an unknown task, and changes nothing.
  pub handle_task_complete_once :
      (v : Value) (h : KernelRequestHandler) (r : Reply)
      → (handle_task_complete json (some v) h).0 ≡ ok r
      → (id : String) × (json.get_str "task_id" v ≡ some id)
        × (handle_task_complete json (some v) (handle_task_complete json (some v) h).1
            ≡ (err (unknown_task id), (handle_task_complete json (some v) h).1))
  handle_task_complete_once v h r done =
      let (id, dag, has_id, has_dag, taken) = complete_cases v h r done in
      (
        id,
        has_id,
        complete_unknown v (handle_task_complete json (some v) h).1 id dag has_id has_dag
            (ap (lookup id) taken ∙ lookup-removed id h.task_registry),
      )
