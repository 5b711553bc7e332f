-- ===== src/Supervisor/Triggers/Counter.antt =====
-- src/supervisor/handler.rs: the counter that numbers the triggers, and what leaves the tasks alone.
use aros_kernel.Prelude.{
  ℕ, suc, ◌+◌, ◌≤◌, ◌<◌, String, ◌≡◌, inl, inr, refl, ◌∙◌, Bool, true, false, Option, none, some,
  List, arith, u64_max, add64, Option-cases, Bool-cases, string_eq, if◌then◌else◌, not, ◌&&◌, ◌==◌,
}
use aros_kernel.Prelude.Float.{F64}
use aros_kernel.Prelude.Result.{Result, ok, err, Result-cases}
use aros_kernel.Dispatch.Contracts.{
  LoopTrigger, TriggerKind, meta_cycle_request, meta_cycle_complete,
}
use aros_kernel.Dispatch.Contracts
use aros_kernel.Store.Acl.{StateStore}
use aros_kernel.Supervisor.Process.{id_eq, kernel, loop1_agentic}
use aros_kernel.Supervisor.Health.{HealthStatus}
use aros_kernel.Supervisor.Kernel.{KernelSupervisor, health}
use aros_kernel.Supervisor.Tasks.{get}
use aros_kernel.Supervisor.Triggers.{
  Kernel, Handled, Answer, Fault, authorized, missing_params, missing_task_id, serialization,
  reason_of, persisted, routed, source_not_running, target_not_running, is_live, TriggerJson,
  next_seq, put_then, complete_cycle, route, check_route, handle_loop_trigger, handle_task_cancel,
}

module _ {S Value : Type 0} (store : StateStore S) (wire : TriggerJson Value) where
  -- What a step that gives out at most `n` numbers does to the counter.
  pub record Counts (n : ℕ) (k : Kernel S) (r : Handled S) : Type 0 where
    pub grows : k.trigger_seq ≤ r.1.trigger_seq
    pub bounded : r.1.trigger_seq ≤ k.trigger_seq + n
    pub given :
        (seq : ℕ) → r.0 ≡ ok (authorized seq) → (k.trigger_seq ≤ seq) × (seq < r.1.trigger_seq)
    pub same_tasks : r.1.tasks ≡ k.tasks

  -- A step that gives out no number and keeps the counter and the tasks.
  pub quiet :
      (k k' : Kernel S) (a : Result Answer Fault)
      → k'.trigger_seq ≡ k.trigger_seq
      → k'.tasks ≡ k.tasks
      → ((seq : ℕ) → ¬ (a ≡ ok (authorized seq)))
      → Counts 0 k (a, k')
  quiet k k' a same tasks silent = record {
    grows = omega arith;
    bounded = omega arith;
    given = λ seq h. absurd (silent seq h);
    same_tasks = tasks;
  }

  put_then-Counts :
      (key : String) (value : List ℕ) (next : Kernel S → Handled S) (base k : Kernel S)
      → k.trigger_seq ≡ base.trigger_seq
      → k.tasks ≡ base.tasks
      → ((k' : Kernel S)
          → k'.trigger_seq ≡ base.trigger_seq
          → k'.tasks ≡ base.tasks
          → Counts 0 base (next k'))
      → Counts 0 base (put_then store wire key value next k)
  unfolding put_then
  put_then-Counts key value next base k same tasks then_next =
      elim (Result-cases (store.put key value k.state_store).0) [
        | inl (u, fine) ↦ rw (fine, put_then) (then_next _ same tasks)
        | inr (e, bad) ↦
            rw (bad, put_then) (quiet base _ _ same tasks (λ seq h. absurd (ground arith)))
      ]

  -- The end of `complete_cycle`.
  abbrev last : String → Bool → F64 → Kernel S → Handled S
  last id changed drift =
      let done : Kernel S → Handled S = λ k. (ok (persisted id drift changed), k) in
      if changed then put_then store wire "sie/policy/head" (wire.text_bytes id) done else done

  last-Counts :
      (id : String) (changed : Bool) (drift : F64) (base k : Kernel S)
      → k.trigger_seq ≡ base.trigger_seq
      → k.tasks ≡ base.tasks
      → Counts 0 base (last id changed drift k)
  last-Counts id false drift base k s t =
      quiet base k (ok (persisted id drift false)) s t (λ seq h. absurd (ground arith))
  last-Counts id true drift base k s t =
      put_then-Counts "sie/policy/head" (wire.text_bytes id)
        (λ k. (ok (persisted id drift true), k)) base k s t
        λ k' s' t'.
          quiet base k' (ok (persisted id drift true)) s' t' (λ seq h. absurd (ground arith))

  complete_cycle-Counts :
      (id : String) (changed : Bool) (drift : F64) (k : Kernel S)
      → Counts 0 k (complete_cycle store wire id changed drift k)
  unfolding complete_cycle
  complete_cycle-Counts id changed drift k =
      put_then-Counts "sie/identity/last_drift" (wire.drift_bytes drift)
        (put_then store wire "sie/meta/last_cycle" (wire.text_bytes id) (last id changed drift)) k k
        refl refl
        λ k₁ s₁ t₁.
          put_then-Counts "sie/meta/last_cycle" (wire.text_bytes id) (last id changed drift) k k₁ s₁
            t₁ (last-Counts id changed drift k)

  pub weaken : (n : ℕ) (k : Kernel S) (r : Handled S) → Counts 0 k r → Counts n k r
  weaken n k r c = record {
    grows = c.grows;
    bounded = omega (arith, c.bounded);
    given = c.given;
    same_tasks = c.same_tasks;
  }

  route-Counts :
      (t : LoopTrigger Value) (k : Kernel S)
      → k.trigger_seq < u64_max
      → Counts 1 k (route store wire t k)
  unfolding route next_seq
  route-Counts t k fits = by_kind t.kind refl
    where
      kept : Counts 1 k (ok (routed t.seq t.target), k)
      kept = weaken 1 k _ (quiet k k _ refl refl (λ seq h. absurd (ground arith)))

      by_kind : (kind : TriggerKind Value) → t.kind ≡ kind → Counts 1 k (route store wire t k)
      by_kind (meta_cycle_request source) e =
          rw (e, route)
            (record {
              grows = omega arith;
              bounded = omega arith;
              given = λ seq h. ground arith;
              same_tasks = refl;
            })
      by_kind (meta_cycle_complete id changed drift) e =
          rw (e, route) (weaken 1 k _ (complete_cycle-Counts id changed drift k))
      by_kind (Contracts.task_cancel id reason) e =
          elim (Option-cases (get id k.tasks.task_registry)) [
            | inl gone ↦
                rw (e, gone, route)
                  (weaken 1 k _ (quiet k k _ refl refl (λ seq h. absurd (ground arith))))
            | inr (path, here) ↦
                rw (e, here, route)
                  (weaken 1 k _ (quiet k k _ refl refl (λ seq h. absurd (ground arith))))
          ]
      by_kind (Contracts.task_dispatch x) e = rw (e, route) kept
      by_kind (Contracts.task_progress a b c d) e = rw (e, route) kept
      by_kind (Contracts.task_complete a b c d f) e = rw (e, route) kept
      by_kind (Contracts.task_failed a b c d) e = rw (e, route) kept
      by_kind (Contracts.meta_cycle_authorized a) e = rw (e, route) kept
      by_kind Contracts.ping e = rw (e, route) kept
      by_kind Contracts.pong e = rw (e, route) kept

  pub rebase :
      (n : ℕ) (k k' : Kernel S) (r : Handled S)
      → k'.trigger_seq ≡ k.trigger_seq
      → k'.tasks ≡ k.tasks
      → Counts n k' r
      → Counts n k r
  rebase n k k' r s t c = record {
    grows = omega (arith, c.grows);
    bounded = omega (arith, c.bounded);
    given = λ seq h. let (a, b) = c.given seq h in (omega arith, b);
    same_tasks = c.same_tasks ∙ t;
  }

  -- The refreshed health changes neither.
  check_route-Counts :
      (now : ℕ) (t : LoopTrigger Value) (k : Kernel S)
      → k.trigger_seq < u64_max
      → Counts 1 k (check_route store wire now t k)
  unfolding check_route
  check_route-Counts now t k fits = elim (Bool-cases (is_live t.source h.0)) [
    | inr off ↦
        rw (off, check_route)
          (weaken 1 k _ (
            quiet k k' (err (source_not_running t.source)) refl refl
              (λ seq h. absurd (ground arith))))
    | inl on ↦ elim (Bool-cases (not (t.target == kernel) && not (is_live t.target h.0))) [
      | inl off ↦
          rw (on, off, check_route)
            (weaken 1 k _ (
              quiet k k' (err (target_not_running t.target)) refl refl
                (λ seq h. absurd (ground arith))))
      | inr through ↦
          rw (on, through, check_route) (rebase 1 k k' _ refl refl (route-Counts t k' fits))
    ]
  ]
    where
      h : HealthStatus × KernelSupervisor
      h = health now k.supervisor

      k' : Kernel S
      k' = record k { supervisor = h.1 }

  pub handle_loop_trigger-Counts :
      (now : ℕ) (params : Option Value) (k : Kernel S)
      → k.trigger_seq < u64_max
      → Counts 1 k (handle_loop_trigger store wire now params k)
  unfolding handle_loop_trigger
  handle_loop_trigger-Counts now none k fits =
      weaken 1 k _ (quiet k k _ refl refl (λ seq h. absurd (ground arith)))
  handle_loop_trigger-Counts now (some v) k fits = elim (Result-cases (wire.decode_trigger v)) [
    | inr (e, bad) ↦
        rw (bad, handle_loop_trigger)
          (weaken 1 k _ (quiet k k _ refl refl (λ seq h. absurd (ground arith))))
    | inl (t, good) ↦ rw (good, handle_loop_trigger) (check_route-Counts now t k fits)
  ]

  -- A cancellation takes a number of its own.
  pub handle_task_cancel-Counts :
      (now : ℕ) (params : Option Value) (k : Kernel S)
      → suc k.trigger_seq < u64_max
      → Counts 2 k (handle_task_cancel store wire now params k)
  unfolding handle_task_cancel next_seq
  handle_task_cancel-Counts now none k fits =
      weaken 2 k _ (quiet k k (err missing_params) refl refl (λ seq h. absurd (ground arith)))
  handle_task_cancel-Counts now (some v) k fits =
      elim (Option-cases (wire.json.get_str "task_id" v)) [
        | inl gone ↦
            rw (gone, handle_task_cancel)
              (weaken 2 k _
                (quiet k k (err missing_task_id) refl refl (λ seq h. absurd (ground arith))))
        | inr (id, here) ↦ elim (Result-cases (wire.encode_trigger (trigger id))) [
          | inr (e, bad) ↦
              rw (here, bad, handle_task_cancel)
                (later (err (serialization e), k')
                  (weaken 1 k' _ (
                    quiet k' k' (err (serialization e)) refl refl
                      (λ seq h. absurd (ground arith)))))
          | inl (value, good) ↦
              rw (here, good, handle_task_cancel)
                (later _ (handle_loop_trigger-Counts now (some value) k' (omega arith)))
        ]
      ]
    where
      k' : Kernel S
      k' = record k { trigger_seq = add64 k.trigger_seq 1 }

      trigger : String → LoopTrigger Value
      trigger id =
          Contracts.new k.trigger_seq kernel loop1_agentic
            (Contracts.task_cancel id (reason_of store wire v))

      later : (r : Handled S) → Counts 1 k' r → Counts 2 k r
      later r c = record {
        grows = omega (arith, c.grows);
        bounded = omega (arith, c.bounded);
        given = λ seq h. let (a, b) = c.given seq h in (omega arith, b);
        same_tasks = c.same_tasks;
      }
