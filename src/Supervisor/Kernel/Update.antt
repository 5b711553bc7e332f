-- ===== src/Supervisor/Kernel/Update.antt =====
-- src/supervisor/kernel.rs: what `update_state` does to the process and to the others.
use mathlib.Core.Path.{subst}
use aros_kernel.Supervisor.Process.Window.{recent, record_restart_limits}
use aros_kernel.Prelude.{
  ℕ, ◌≤◌, ◌<◌, sym, length, u32_max, ◌≡◌, ◌≢◌, ◌⊎◌, inl, inr, ap, ◌∙◌, true, false, ◌&&◌, none,
  some, arith, Bool-cases, Option-cases,
}
use aros_kernel.Prelude.Map.{lookup, modify, lookup-modify}
use aros_kernel.Prelude.Result.{ok, err, Result-cases}
use aros_kernel.Supervisor.Process.{
  ProcessId, id_eq, ProcessState, running, stopped, failed, restarting, state_eq,
  max_restarts_exceeded, process_not_found, invalid_transition, ChildHandle,
}
use aros_kernel.Supervisor.Kernel.{
  KernelSupervisor, refresh_health, fail_handle, handle_failure, enter_state, update_state,
}

-- The window of the handle has room for one more restart, or is full.
abbrev HasRoom : ℕ → ChildHandle → Type 0
HasRoom now h = recent now h.restart_tracker < h.restart_tracker.policy.max_restarts

abbrev IsFull : ℕ → ChildHandle → Type 0
IsFull now h = h.restart_tracker.policy.max_restarts ≤ recent now h.restart_tracker

-- What a failed process becomes, with the answer.
fail_handle_cases :
    (now : ℕ) (id : ProcessId) (h : ChildHandle)
    → length h.restart_tracker.restart_times ≤ u32_max
    → (HasRoom now h
        × ((fail_handle now id h).0 ≡ ok tt)
        × ((fail_handle now id h).1.state ≡ restarting))
      ⊎ (IsFull now h
          × ((fail_handle now id h).0 ≡ err (max_restarts_exceeded id))
          × ((fail_handle now id h).1.state ≡ h.state))
unfolding fail_handle
fail_handle_cases now id h short = elim (record_restart_limits now h.restart_tracker short) [
  | inl (refused, full) ↦ inr (full, ground arith, ground arith)
  | inr (granted, added, room) ↦ inl (room, ground arith, ground arith)
]

-- The state of the child `id` after an operation.
pub record ChildIn (state : ProcessState) (id : ProcessId) (sv : KernelSupervisor) : Type 0 where
  pub child : ChildHandle
  pub found : lookup id sv.children ≡ some child
  pub state_is : child.state ≡ state

-- The window of the process `id` has room for one more restart, or is full.
pub record Restartable (now : ℕ) (id : ProcessId) (sv : KernelSupervisor) : Type 0 where
  pub child : ChildHandle
  pub found : lookup id sv.children ≡ some child
  pub has_room : recent now child.restart_tracker < child.restart_tracker.policy.max_restarts

pub record Exhausted (now : ℕ) (id : ProcessId) (sv : KernelSupervisor) : Type 0 where
  pub child : ChildHandle
  pub found : lookup id sv.children ≡ some child
  pub full : child.restart_tracker.policy.max_restarts ≤ recent now child.restart_tracker

handle_failure_cases :
    (now : ℕ) (id : ProcessId) (h : ChildHandle) (sv : KernelSupervisor)
    → lookup id sv.children ≡ some h
    → h.state ≡ failed
    → length h.restart_tracker.restart_times ≤ u32_max
    → (HasRoom now h
        × ((handle_failure now id sv).0 ≡ ok tt)
        × ChildIn restarting id (handle_failure now id sv).1)
      ⊎ (IsFull now h
          × ((handle_failure now id sv).0 ≡ err (max_restarts_exceeded id))
          × ChildIn failed id (handle_failure now id sv).1)
unfolding handle_failure
handle_failure_cases now id h sv here bad short = elim (fail_handle_cases now id h short) [
  | inl (room, answer, state) ↦ inl (
    room,
    ground arith,
    record {
      child = (fail_handle now id h).1;
      found = ground (
        arith,
        lookup-modify id id (λ _. (fail_handle now id h).1) sv.children,
        id_eq.beq_iff id id,
      );
      state_is = state;
    },
  )
  | inr (full, answer, state) ↦ inr (
    full,
    ground arith,
    record {
      child = (fail_handle now id h).1;
      found = ground (
        arith,
        lookup-modify id id (λ _. (fail_handle now id h).1) sv.children,
        id_eq.beq_iff id id,
      );
      state_is = ground arith;
    },
  )
]

enter_state_state : (state : ProcessState) (h : ChildHandle) → (enter_state state h).state ≡ state
unfolding enter_state
enter_state_state state h = ground arith

handle_failure_frame :
    (now : ℕ) (id other : ProcessId) (sv : KernelSupervisor)
    → id ≢ other
    → lookup other (handle_failure now id sv).1.children ≡ lookup other sv.children
unfolding handle_failure
handle_failure_frame now id other sv apart = elim (Option-cases (lookup id sv.children)) [
  | inl gone ↦ ground arith
  | inr (h, here) ↦ ground (
    arith,
    lookup-modify id other (λ _. (fail_handle now id h).1) sv.children,
    id_eq.beq_iff id other,
  )
]

-- The supervisor once the state is assigned.
abbrev entered : ProcessId → ProcessState → KernelSupervisor → KernelSupervisor
entered id state sv = record sv { children = modify id (enter_state state) sv.children }

lookup-entered :
    (id : ProcessId) (state : ProcessState) (sv : KernelSupervisor) (h : ChildHandle)
    → lookup id sv.children ≡ some h
    → lookup id (entered id state sv).children ≡ some (enter_state state h)
lookup-entered id state sv h here =
    ground (arith, lookup-modify id id (enter_state state) sv.children, id_eq.beq_iff id id)

module _ (now : ℕ) (id : ProcessId) (state : ProcessState) (sv : KernelSupervisor) where
  update_unknown :
      lookup id sv.children ≡ none → update_state now id state sv ≡ (err (process_not_found id), sv)
  unfolding update_state
  update_unknown gone = ground arith

  module _ (h : ChildHandle) (here : lookup id sv.children ≡ some h) where
    update_refused :
        (state_eq h.state stopped && state_eq state running) ≡ true
        → update_state now id state sv ≡ (err (invalid_transition id stopped running), sv)
    unfolding update_state
    update_refused refused = ground arith

    pub update_entered :
        (state_eq h.state stopped && state_eq state running) ≡ false
        → state_eq state failed ≡ false
        → ((update_state now id state sv).0 ≡ ok tt)
          × ChildIn state id (update_state now id state sv).1
    unfolding update_state refresh_health
    update_entered taken fine = (
      ground arith,
      record {
        child = enter_state state h;
        found = ground (arith, lookup-entered id state sv h here);
        state_is = enter_state_state state h;
      },
    )

    children_entered :
        (state_eq h.state stopped && state_eq state running) ≡ false
        → state_eq state failed ≡ false
        → (update_state now id state sv).1.children ≡ (entered id state sv).children
    unfolding update_state refresh_health
    children_entered taken fine = ground arith

    children_failed :
        (state_eq h.state stopped && state_eq state running) ≡ false
        → state_eq state failed ≡ true
        → (update_state now id state sv).1.children
          ≡ (handle_failure now id (entered id state sv)).1.children
    unfolding update_state refresh_health
    children_failed taken bad =
        ground (arith, Result-cases (handle_failure now id (entered id state sv)).0)

    entered_tracker :
        (state_eq state failed) ≡ true → (enter_state state h).restart_tracker ≡ h.restart_tracker
    unfolding enter_state
    entered_tracker bad = ground arith

    update_failed :
        (state_eq h.state stopped && state_eq state running) ≡ false
        → state_eq state failed ≡ true
        → length h.restart_tracker.restart_times ≤ u32_max
        → (Restartable now id sv
            × ((update_state now id state sv).0 ≡ ok tt)
            × ChildIn restarting id (update_state now id state sv).1)
          ⊎ (Exhausted now id sv
              × ((update_state now id state sv).0 ≡ err (max_restarts_exceeded id))
              × ChildIn failed id (update_state now id state sv).1)
    unfolding update_state refresh_health
    update_failed taken bad short =
        elim (handle_failure_cases now id (enter_state state h) (entered id state sv)
          (lookup-entered id state sv h here) (ground (arith, enter_state_state state h))
          (subst (λ t. length t.restart_times ≤ u32_max) (sym (entered_tracker bad)) short)) [
            | inl (room, answer, c) ↦ inl (
              record {
                child = h;
                found = here;
                has_room =
                    subst (λ t. recent now t < t.policy.max_restarts) (entered_tracker bad) room;
              },
              ground arith,
              record { child = c.child; found = ground (arith, c.found); state_is = c.state_is },
            )
            | inr (full, answer, c) ↦ inr (
              record {
                child = h;
                found = here;
                full = subst (λ t. t.policy.max_restarts ≤ recent now t) (entered_tracker bad) full;
              },
              ground arith,
              record { child = c.child; found = ground (arith, c.found); state_is = c.state_is },
            )
          ]

entered_frame :
    (id other : ProcessId) (state : ProcessState) (sv : KernelSupervisor)
    → id ≢ other
    → lookup other (entered id state sv).children ≡ lookup other sv.children
entered_frame id other state sv apart =
    ground (arith, lookup-modify id other (enter_state state) sv.children, id_eq.beq_iff id other)

-- Whatever is reported of one process, the entries of the others stay as they are.
pub update_state_frame :
    (now : ℕ) (id other : ProcessId) (state : ProcessState) (sv : KernelSupervisor)
    → id ≢ other
    → lookup other (update_state now id state sv).1.children ≡ lookup other sv.children
update_state_frame now id other state sv apart = elim (Option-cases (lookup id sv.children)) [
  | inl gone ↦ ap (λ r. lookup other r.1.children) (update_unknown now id state sv gone)
  | inr (h, here) ↦ elim (Bool-cases (state_eq h.state stopped && state_eq state running)) [
    | inl refused ↦
        ap (λ r. lookup other r.1.children) (update_refused now id state sv h here refused)
    | inr taken ↦ elim (Bool-cases (state_eq state failed)) [
      | inl bad ↦
          ap (lookup other) (children_failed now id state sv h here taken bad)
          ∙ (handle_failure_frame now id other (entered id state sv) apart
              ∙ entered_frame id other state sv apart)
      | inr fine ↦
          ap (lookup other) (children_entered now id state sv h here taken fine)
          ∙ entered_frame id other state sv apart
    ]
  ]
]

-- Where the process has restarted no more often than a 32-bit number counts, a report of its state
-- has one of four outcomes. It is refused and changes nothing, where the process is unknown; or where
-- it is stopped and said to run. It is neither of these and not of a failure, and is the new state of
-- the process. Or it is of a failure: then the process restarts where its window of restarts has
-- room, and otherwise it stays failed and the answer is an error.
pub update_state_outcomes :
    (now : ℕ) (id : ProcessId) (state : ProcessState) (sv : KernelSupervisor)
    → ((h : ChildHandle)
        → lookup id sv.children ≡ some h
        → length h.restart_tracker.restart_times ≤ u32_max)
    → ((lookup id sv.children ≡ none)
        × (update_state now id state sv ≡ (err (process_not_found id), sv)))
      ⊎ (ChildIn stopped id sv
          × (state ≡ running)
          × (update_state now id state sv ≡ (err (invalid_transition id stopped running), sv)))
      ⊎ ((state ≢ failed)
          × ¬ (ChildIn stopped id sv × (state ≡ running))
          × ((update_state now id state sv).0 ≡ ok tt)
          × ChildIn state id (update_state now id state sv).1)
      ⊎ ((state ≡ failed)
          × ((Restartable now id sv
                × ((update_state now id state sv).0 ≡ ok tt)
                × ChildIn restarting id (update_state now id state sv).1)
              ⊎ (Exhausted now id sv
                  × ((update_state now id state sv).0 ≡ err (max_restarts_exceeded id))
                  × ChildIn failed id (update_state now id state sv).1)))
update_state_outcomes now id state sv short = elim (Option-cases (lookup id sv.children)) [
  | inl gone ↦ inl (gone, update_unknown now id state sv gone)
  | inr (h, here) ↦ elim (Bool-cases (state_eq h.state stopped && state_eq state running)) [
    | inl refused ↦ inr (
        inl (
          record { child = h; found = here; state_is = ground arith },
          ground arith,
          update_refused now id state sv h here refused,
        ))
    | inr taken ↦ elim (Bool-cases (state_eq state failed)) [
      | inl bad ↦
          inr (
            inr (inr (ground arith, update_failed now id state sv h here taken bad (short h here))))
      | inr fine ↦
          let (answer, c) = update_entered now id state sv h here taken fine in
          inr (inr (inl (ground arith, not_refused h here taken, answer, c)))
    ]
  ]
]
  where
    not_refused :
        (h : ChildHandle)
        → lookup id sv.children ≡ some h
        → (state_eq h.state stopped && state_eq state running) ≡ false
        → ¬ (ChildIn stopped id sv × (state ≡ running))
    not_refused h here taken (c, runs) = ground (arith, c.found, c.state_is)
