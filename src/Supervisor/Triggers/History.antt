-- ===== src/Supervisor/Triggers/History.antt =====
-- src/supervisor/handler.rs: the requests that one handler serves, one after the other.
use aros_kernel.Prelude.{
  ℕ, suc, ◌+◌, ◌*◌, ◌≤◌, ◌<◌, ◌≡◌, refl, sym, ◌∙◌, Option, List, [], ◌∷◌, length, arith, u64_max,
  string_eq, inl, inr,
}
use aros_kernel.Prelude.Result.{Result, ok, err, Result-cases}
use aros_kernel.Dispatch.Rpc.{
  RpcMethod, task_submit, task_progress, task_complete, loop_trigger, ping,
}
use aros_kernel.Dispatch.Rpc
use aros_kernel.Store.Acl.{StateStore}
use aros_kernel.Supervisor.Tasks.{
  KernelRequestHandler, Reply, RpcError, handle_task_submit, handle_task_progress,
  handle_task_complete,
}
use aros_kernel.Supervisor.Triggers.{
  Kernel, Handled, Answer, Fault, pong, task, authorized, persisted, cancel_forwarded, routed,
  TriggerJson, on_tasks, handle,
}
use aros_kernel.Supervisor.Triggers.Counter.{
  Counts, quiet, handle_loop_trigger-Counts, handle_task_cancel-Counts,
}

module _ {S Value : Type 0} (store : StateStore S) (wire : TriggerJson Value) where
  -- Requests that arrive one after the other, each with its time, its method and its parameters.
  unfoldable pub serve :
      List (ℕ × RpcMethod × Option Value) → Kernel S → List (Result Answer Fault) × Kernel S
  serve [] k = ([], k)
  serve ((now, method, params) ∷ requests) k =
      let (answer, k') = handle store wire now method params k in
      let (answers, k'') = serve requests k' in (answer ∷ answers, k'')

  abbrev pub numbers : List (Result Answer Fault) → List ℕ
  numbers [] = []
  numbers (ok (authorized seq) ∷ answers) = seq ∷ numbers answers
  numbers (_ ∷ answers) = numbers answers

  -- Each number is larger than all before it, and at least `from`.
  abbrev pub Ascending : ℕ → List ℕ → Type 0
  Ascending from [] = Unit
  Ascending from (n ∷ ns) = (from ≤ n) × Ascending (suc n) ns

  -- What a request does to the registry and the governor.
  abbrev pub on_registry : RpcMethod → Option Value → KernelRequestHandler → KernelRequestHandler
  on_registry task_submit params h = (handle_task_submit wire.json params h).1
  on_registry task_progress params h = (handle_task_progress wire.json params h).1
  on_registry task_complete params h = (handle_task_complete wire.json params h).1
  on_registry _ params h = h

  pub record Step (k : Kernel S) (method : RpcMethod) (params : Option Value) (r : Handled S)
      : Type 0 where
    pub grows : k.trigger_seq ≤ r.1.trigger_seq
    pub bounded : r.1.trigger_seq ≤ k.trigger_seq + 2
    pub given :
        (seq : ℕ) → r.0 ≡ ok (authorized seq) → (k.trigger_seq ≤ seq) × (seq < r.1.trigger_seq)
    pub tasks : r.1.tasks ≡ on_registry method params k.tasks

  on_tasks-quiet :
      (f : KernelRequestHandler → Result Reply RpcError × KernelRequestHandler) (k : Kernel S)
      → ((on_tasks store wire f k).1.trigger_seq ≡ k.trigger_seq)
        × ((on_tasks store wire f k).1.tasks ≡ (f k.tasks).1)
        × ((seq : ℕ) → ¬ ((on_tasks store wire f k).0 ≡ ok (authorized seq)))
  unfolding on_tasks
  on_tasks-quiet f k = elim (Result-cases (f k.tasks).0) [
    | inl (reply, fine) ↦ rw (fine, on_tasks) (refl, refl, λ seq h. absurd (ground arith))
    | inr (e, bad) ↦ rw (bad, on_tasks) (refl, refl, λ seq h. absurd (ground arith))
  ]

  Step-on_tasks :
      (method : RpcMethod) (params : Option Value)
      (f : KernelRequestHandler → Result Reply RpcError × KernelRequestHandler) (k : Kernel S)
      → (f k.tasks).1 ≡ on_registry method params k.tasks
      → Step k method params (on_tasks store wire f k)
  Step-on_tasks method params f k same =
      let (kept, tasks, silent) = on_tasks-quiet f k in
      record {
        grows = omega arith;
        bounded = omega arith;
        given = λ seq h. absurd (silent seq h);
        tasks = tasks ∙ same;
      }

  Step-Counts :
      (method : RpcMethod) (params : Option Value) (n : ℕ) (k : Kernel S) (r : Handled S)
      → n ≤ 2
      → on_registry method params k.tasks ≡ k.tasks
      → Counts store wire n k r
      → Step k method params r
  Step-Counts method params n k r few same c = record {
    grows = c.grows;
    bounded = omega (arith, c.bounded);
    given = c.given;
    tasks = c.same_tasks ∙ sym same;
  }

  pub handle-Step :
      (now : ℕ) (method : RpcMethod) (params : Option Value) (k : Kernel S)
      → suc k.trigger_seq < u64_max
      → Step k method params (handle store wire now method params k)
  unfolding handle
  handle-Step now ping params k fits =
      Step-Counts ping params 0 k (ok pong, k) (omega arith) refl
        (quiet store wire k k (ok pong) refl refl (λ seq h. absurd (ground arith)))
  handle-Step now task_submit params k fits =
      Step-on_tasks task_submit params (handle_task_submit wire.json params) k refl
  handle-Step now task_progress params k fits =
      Step-on_tasks task_progress params (handle_task_progress wire.json params) k refl
  handle-Step now task_complete params k fits =
      Step-on_tasks task_complete params (handle_task_complete wire.json params) k refl
  handle-Step now Rpc.task_cancel params k fits =
      Step-Counts Rpc.task_cancel params 2 k _ (omega arith) refl
        (handle_task_cancel-Counts store wire now params k fits)
  handle-Step now loop_trigger params k fits =
      Step-Counts loop_trigger params 1 k _ (omega arith) refl
        (handle_loop_trigger-Counts store wire now params k (omega arith))

  lower : (from next : ℕ) (ns : List ℕ) → from ≤ next → Ascending next ns → Ascending from ns
  lower from next [] le up = tt
  lower from next (n ∷ ns) le up = (omega (arith, up.0), up.1)

  numbers-cons :
      (answer : Result Answer Fault) (answers : List (Result Answer Fault)) (from next : ℕ)
      → from ≤ next
      → ((seq : ℕ) → answer ≡ ok (authorized seq) → (from ≤ seq) × (seq < next))
      → Ascending next (numbers answers)
      → Ascending from (numbers (answer ∷ answers))
  numbers-cons (err f) answers from next le given up = lower from next (numbers answers) le up
  numbers-cons (ok pong) answers from next le given up = lower from next (numbers answers) le up
  numbers-cons (ok (task r)) answers from next le given up = lower from next (numbers answers) le up
  numbers-cons (ok (persisted a b c)) answers from next le given up =
      lower from next (numbers answers) le up
  numbers-cons (ok (cancel_forwarded a)) answers from next le given up =
      lower from next (numbers answers) le up
  numbers-cons (ok (routed a b)) answers from next le given up =
      lower from next (numbers answers) le up
  numbers-cons (ok (authorized seq)) answers from next le given up =
      let (a, b) = given seq refl in (a, lower (suc seq) next (numbers answers) (omega arith) up)

  -- The numbers of the meta cycles that a handler authorizes ascend, so that no two cycles share
  -- one, while its counter does not reach the end of its 64 bits. A request takes two numbers at most.
  pub serve-Ascending :
      (requests : List (ℕ × RpcMethod × Option Value)) (k : Kernel S)
      → k.trigger_seq + 2 * length requests < u64_max
      → Ascending k.trigger_seq (numbers (serve requests k).0)
  unfolding serve
  serve-Ascending [] k fits = tt
  serve-Ascending ((now, method, params) ∷ requests) k fits =
      let r = handle store wire now method params k in
      let c = handle-Step now method params k (omega arith) in
      numbers-cons r.0 (serve requests r.1).0 k.trigger_seq r.1.trigger_seq c.grows c.given
        (serve-Ascending requests r.1 (omega (arith, c.bounded)))
