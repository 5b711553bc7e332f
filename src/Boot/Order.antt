-- ===== src/Boot/Order.antt =====
-- src/main.rs: what the processes are after a start and after a shutdown.
use mathlib.Core.Path.{subst}
use aros_kernel.Prelude.{
  false, ◌&&◌, ℕ, ◌+◌, ◌≡◌, ◌≢◌, ◌⊎◌, inl, inr, refl, sym, ap, ◌∙◌, true, List, [], ◌∷◌, arith, In,
  some, Bool-cases,
}
use aros_kernel.Prelude.Map.{lookup, insert, modify}
use aros_kernel.Prelude.Result.{ok, err}
use aros_kernel.Supervisor.Process.{
  state_eq, ProcessId, id_eq, init, ProcessState, running, stopping, stopped, failed,
  invalid_transition, ChildHandle,
}
use aros_kernel.Supervisor.Health.{healthy, compute, level_of, is_running}
use aros_kernel.Supervisor.Kernel.{
  KernelSupervisor, update_state, health, refresh_health, new, register, all_healthy, new_handle,
  is_child_running, enter_state, health_of,
}
use aros_kernel.Supervisor.Kernel.Update.{ChildIn, update_state_frame, update_entered}
use aros_kernel.Boot.{
  Outcome, attempt, register_all, start_all, stop_all, boot_order, boot_sequence, shutdown_order,
  graceful_shutdown,
}

-- Every process is registered, and in a state that `P` allows.
abbrev pub EveryChild : (ProcessState → Type 0) → KernelSupervisor → Type 0
EveryChild P sv =
    (id : ProcessId) → (h : ChildHandle) × (lookup id sv.children ≡ some h) × P h.state

attempt_ok :
    (r : Outcome) (next : KernelSupervisor → Outcome) → r.0 ≡ ok tt → attempt r next ≡ next r.1
attempt_ok (ok tt, sv) next h = refl
attempt_ok (err e, sv) next h = absurd (ground arith)

id-cases : (a b : ProcessId) → (a ≡ b) ⊎ (a ≢ b)
id-cases a b = elim (Bool-cases (id_eq.beq a b)) [
  | inl same ↦ inl ((id_eq.beq_iff a b).0 same)
  | inr other ↦ inr (λ e. ground (arith, id_eq.beq_iff a b))
]

other_than_failed : (state : ProcessState) → state ≢ failed → state_eq state failed ≡ false
other_than_failed state fine = elim (Bool-cases (state_eq state failed)) [
  | inl same ↦ absurd (fine (ground arith))
  | inr other ↦ other
]

module _ (now : ℕ) (id : ProcessId) (state : ProcessState) (sv : KernelSupervisor) where
  -- A report of a state other than failed of a process that may enter it.
  entered :
      (h : ChildHandle)
      → lookup id sv.children ≡ some h
      → state ≢ failed
      → (h.state ≢ stopped) ⊎ (state ≢ running)
      → ((update_state now id state sv).0 ≡ ok tt)
        × ChildIn state id (update_state now id state sv).1
  entered h here fine may = elim (Bool-cases (state_eq h.state stopped && state_eq state running)) [
    | inl refused ↦ absurd (elim may [ inl on ↦ on (ground arith) | inr off ↦ off (ground arith) ])
    | inr taken ↦ update_entered now id state sv h here taken (other_than_failed state fine)
  ]

  -- The others stay as they are.
  kept :
      {s : ProcessState} (other : ProcessId)
      → id ≢ other
      → ChildIn s other sv
      → ChildIn s other (update_state now id state sv).1
  kept other apart c = record {
    child = c.child;
    found = update_state_frame now id other state sv apart ∙ c.found;
    state_is = c.state_is;
  }

  EveryChild-entered :
      (P : ProcessState → Type 0)
      → P state
      → ChildIn state id (update_state now id state sv).1
      → EveryChild P sv
      → EveryChild P (update_state now id state sv).1
  EveryChild-entered P p c every other = elim (id-cases id other) [
    | inl same ↦
        subst
          (λ x.
            (h : ChildHandle) × (lookup x (update_state now id state sv).1.children ≡ some h)
            × P h.state)
          same (c.child, c.found, subst P (sym c.state_is) p)
    | inr apart ↦
        let (h, here, q) = every other in
        (h, update_state_frame now id other state sv apart ∙ here, q)
  ]

  ChildIn-entered :
      (s : ProcessState) (other : ProcessId)
      → s ≡ state
      → ChildIn state id (update_state now id state sv).1
      → (id ≡ other) ⊎ ChildIn s other sv
      → ChildIn s other (update_state now id state sv).1
  ChildIn-entered s other right c why = elim (id-cases id other) [
    | inl same ↦
        subst (λ x. ChildIn s x (update_state now id state sv).1) same
          (subst (λ x. ChildIn x id (update_state now id state sv).1) (sym right) c)
    | inr apart ↦ elim why [ inl same ↦ absurd (apart same) | inr was ↦ kept other apart was ]
  ]

running-not-failed : running ≢ failed
running-not-failed e = absurd (ground arith)

running-not-stopped : running ≢ stopped
running-not-stopped e = absurd (ground arith)

stopping-not-failed : stopping ≢ failed
stopping-not-failed e = absurd (ground arith)

stopping-not-running : stopping ≢ running
stopping-not-running e = absurd (ground arith)

stopped-not-failed : stopped ≢ failed
stopped-not-failed e = absurd (ground arith)

stopped-not-running : stopped ≢ running
stopped-not-running e = absurd (ground arith)

-- What is asked of a process before a start.
abbrev pub NotStopped : ProcessState → Type 0
NotStopped s = s ≢ stopped

abbrev AnyState : ProcessState → Type 0
AnyState s = Unit

In-boot_order : (id : ProcessId) → In id boot_order
In-boot_order id = ground arith

In-shutdown_order : (id : ProcessId) → In id shutdown_order
In-shutdown_order id = ground arith

stays_stopped :
    (now : ℕ) (id : ProcessId) (sv : KernelSupervisor)
    → ChildIn stopped id sv
    → update_state now id running sv ≡ (err (invalid_transition id stopped running), sv)
unfolding update_state
stays_stopped now id sv c = let here = c.found in let state = c.state_is in ground arith

health-children : (now : ℕ) (sv : KernelSupervisor) → (health now sv).1.children ≡ sv.children
unfolding health refresh_health
health-children now sv = refl

module _ (clock : ℕ → ℕ) where
  start_all_step :
      (at : ℕ) (pid : ProcessId) (pids : List ProcessId) (sv : KernelSupervisor)
      → (update_state (clock at) pid running sv).0 ≡ ok tt
      → start_all clock at (pid ∷ pids) sv
        ≡ start_all clock (at + 1) pids (update_state (clock at) pid running sv).1
  unfolding start_all
  start_all_step at pid pids sv h =
      attempt_ok (update_state (clock at) pid running sv) (start_all clock (at + 1) pids) h

  start_all-runs :
      (at : ℕ) (pids : List ProcessId) (sv : KernelSupervisor)
      → EveryChild NotStopped sv
      → ((start_all clock at pids sv).0 ≡ ok tt)
        × ((id : ProcessId)
            → In id pids ⊎ ChildIn running id sv
            → ChildIn running id (start_all clock at pids sv).1)
  start_all-runs at [] sv every =
      unfold start_all in (refl, λ id. elim [ inl i ↦ absurd i | inr c ↦ c ])
  start_all-runs at (pid ∷ pids) sv every =
      let (h, here, live) = every pid in
      let (answer, c) = entered (clock at) pid running sv h here running-not-failed (inl live) in
      let (rest, runs) =
        start_all-runs (at + 1) pids (update_state (clock at) pid running sv).1
          (EveryChild-entered (clock at) pid running sv NotStopped running-not-stopped c every) in
      rw (start_all_step at pid pids sv answer) (
        rest,
        λ id. elim [
          | inl (inl same) ↦
              runs id
                (inr (ChildIn-entered (clock at) pid running sv running id refl c (inl (sym same))))
          | inl (inr i) ↦ runs id (inl i)
          | inr was ↦
              runs id (inr (ChildIn-entered (clock at) pid running sv running id refl c (inr was)))
        ],
      )

  abbrev drained : ℕ → ProcessId → KernelSupervisor → KernelSupervisor
  drained at pid sv = (update_state (clock at) pid stopping sv).1

  stop_all_step :
      (at : ℕ) (pid : ProcessId) (pids : List ProcessId) (sv : KernelSupervisor)
      → (update_state (clock at) pid stopping sv).0 ≡ ok tt
      → (update_state (clock (at + 1)) pid stopped (drained at pid sv)).0 ≡ ok tt
      → stop_all clock at (pid ∷ pids) sv
        ≡ stop_all clock
            (at + 2)
            pids
            (update_state (clock (at + 1)) pid stopped (drained at pid sv)).1
  unfolding stop_all
  stop_all_step at pid pids sv h k =
      attempt_ok (update_state (clock at) pid stopping sv)
        (λ draining.
          attempt (update_state (clock (at + 1)) pid stopped draining)
            (stop_all clock (at + 2) pids))
        h
      ∙ attempt_ok (update_state (clock (at + 1)) pid stopped (drained at pid sv))
          (stop_all clock (at + 2) pids) k

  stop_all-stops :
      (at : ℕ) (pids : List ProcessId) (sv : KernelSupervisor)
      → EveryChild AnyState sv
      → ((stop_all clock at pids sv).0 ≡ ok tt)
        × ((id : ProcessId)
            → In id pids ⊎ ChildIn stopped id sv
            → ChildIn stopped id (stop_all clock at pids sv).1)
  stop_all-stops at [] sv every =
      unfold stop_all in (refl, λ id. elim [ inl i ↦ absurd i | inr c ↦ c ])
  stop_all-stops at (pid ∷ pids) sv every =
      let (h, here, _) = every pid in
      let (answer, c) =
        entered (clock at) pid stopping sv h here stopping-not-failed (inr stopping-not-running) in
      let every' = EveryChild-entered (clock at) pid stopping sv AnyState tt c every in
      let (answer', d) =
        entered (clock (at + 1)) pid stopped (drained at pid sv) c.child c.found stopped-not-failed
          (inr stopped-not-running) in
      let (rest, stops) =
        stop_all-stops (at + 2) pids
          (update_state (clock (at + 1)) pid stopped (drained at pid sv)).1
          (EveryChild-entered (clock (at + 1)) pid stopped (drained at pid sv) AnyState tt d
            every') in
      rw (stop_all_step at pid pids sv answer answer') (
        rest,
        λ id. elim [
          | inl (inl same) ↦ stops id (
              inr (
                ChildIn-entered (clock (at + 1)) pid stopped (drained at pid sv) stopped id refl d
                  (inl (sym same))))
          | inl (inr i) ↦ stops id (inl i)
          | inr was ↦ elim (id-cases pid id) [
            | inl same ↦ stops id (
                inr (
                  ChildIn-entered (clock (at + 1)) pid stopped (drained at pid sv) stopped id refl d
                    (inl same)))
            | inr apart ↦ stops id (
                inr (
                  kept (clock (at + 1)) pid stopped (drained at pid sv) id apart
                    (kept (clock at) pid stopping sv id apart was)))
          ]
        ],
      )

  booted :
      (at : ℕ) (sv : KernelSupervisor)
      → (start_all clock at boot_order sv).0 ≡ ok tt
      → boot_sequence clock at sv
        ≡ (ok tt, (health (clock (at + 7)) (start_all clock at boot_order sv).1).1)
  unfolding boot_sequence
  booted at sv h =
      attempt_ok (start_all clock at boot_order sv)
        (λ started. (ok tt, (health (clock (at + 7)) started).1)) h

  boot_refused :
      (at : ℕ) (sv : KernelSupervisor)
      → ChildIn stopped init sv
      → boot_sequence clock at sv ≡ (err (invalid_transition init stopped running), sv)
  unfolding boot_sequence start_all
  boot_refused at sv c = rw (stays_stopped (clock at) init sv c) refl

  -- A start of registered processes, none of which was stopped, succeeds, and every process of
  -- the kernel then runs.
  pub boot_runs_all :
      (at : ℕ) (sv : KernelSupervisor)
      → EveryChild NotStopped sv
      → ((boot_sequence clock at sv).0 ≡ ok tt)
        × EveryChild (λ s. s ≡ running) (boot_sequence clock at sv).1
  boot_runs_all at sv every =
      let (answer, runs) = start_all-runs at boot_order sv every in
      rw (booted at sv answer) (
        refl,
        λ id.
            let c = runs id (inl (In-boot_order id)) in
            (
              c.child,
              ap (lookup id) (health-children (clock (at + 7)) (start_all clock at boot_order sv).1)
                  ∙ c.found,
              c.state_is,
            ),
      )

  -- A shutdown of registered processes succeeds, whatever states they are in; every process is
  -- stopped then, and a start is refused at the first of them and changes nothing.
  pub shutdown_stops_all :
      (at later : ℕ) (sv : KernelSupervisor)
      → EveryChild (λ _. Unit) sv
      → ((graceful_shutdown clock at sv).0 ≡ ok tt)
        × EveryChild (λ s. s ≡ stopped) (graceful_shutdown clock at sv).1
        × (boot_sequence clock later (graceful_shutdown clock at sv).1
            ≡ (err (invalid_transition init stopped running), (graceful_shutdown clock at sv).1))
  shutdown_stops_all at later sv every =
      let (answer, stops) = stop_all-stops at shutdown_order sv every in
      (
        unfold graceful_shutdown in answer,
        λ id.
            let c = stops id (inl (In-shutdown_order id)) in
            unfold graceful_shutdown in (c.child, c.found, c.state_is),
        boot_refused later (graceful_shutdown clock at sv).1
            (unfold graceful_shutdown in stops init (inl (In-shutdown_order init))),
      )

  -- The daemon registers its processes and starts them without an error, and reports then that all
  -- of them are healthy.
  boot_from_new :
      (at start now : ℕ)
      → ((boot_sequence clock at (register_all clock (new start))).0 ≡ ok tt)
        × (all_healthy (boot_sequence clock at (register_all clock (new start))).1 ≡ true)
        × ((health now (boot_sequence clock at (register_all clock (new start))).1).0.status
            ≡ healthy)
  unfolding boot_sequence register_all register start_all update_state health refresh_health new
      all_healthy lookup insert new_handle modify is_child_running enter_state compute level_of
      is_running health_of
  boot_from_new at start now = (refl, refl, refl)
