-- ===== src/Supervisor/Health/Level.antt =====
-- src/supervisor/health.rs: what each level of health says of the processes.
use aros_kernel.Prelude.{
  any_iff, ◌≡◌, ◌≢◌, ◌↔◌, ◌⊎◌, inl, inr, refl, ap, true, false, List, [], ◌∷◌, In, all, any,
  all_iff, arith, Bool-cases,
}
use aros_kernel.Supervisor.Process.{starting, running, failed, restarting, state_eq}
use aros_kernel.Supervisor.Health.{
  healthy, recovering, ProcessHealth, is_running, is_failed, is_restarting, level_of,
}

abbrev IsRestarting : ProcessHealth → Type 0
IsRestarting p = (p.state ≡ restarting) ⊎ (p.state ≡ starting)

is_running_state : (p : ProcessHealth) → is_running p ≡ true → p.state ≡ running
unfolding is_running
is_running_state p h = ground arith

is_failed_state : (p : ProcessHealth) → is_failed p ≡ true → p.state ≡ failed
unfolding is_failed
is_failed_state p h = ground arith

failed_is_failed : (p : ProcessHealth) → p.state ≡ failed → is_failed p ≡ true
unfolding is_failed
failed_is_failed p h = ground arith

is_restarting_state : (p : ProcessHealth) → is_restarting p ≡ true → IsRestarting p
unfolding is_restarting
is_restarting_state p h = ground arith

restarting_is_restarting : (p : ProcessHealth) → IsRestarting p → is_restarting p ≡ true
unfolding is_restarting
restarting_is_restarting p h = ground arith

not_both : (p : ProcessHealth) → IsRestarting p → p.state ≢ running
not_both p kind h = ground arith

module _ (q : ProcessHealth) (qs : List ProcessHealth) where
  running_of_healthy : level_of (q ∷ qs) ≡ healthy → all is_running (q ∷ qs) ≡ true
  unfolding level_of
  running_of_healthy h = ground arith

  healthy_of_running : all is_running (q ∷ qs) ≡ true → level_of (q ∷ qs) ≡ healthy
  unfolding level_of
  healthy_of_running h = ground arith

  tests_of_recovering :
      level_of (q ∷ qs) ≡ recovering
      → (any is_failed (q ∷ qs) ≡ false) × (any is_restarting (q ∷ qs) ≡ true)
  unfolding level_of
  tests_of_recovering h = ground arith

  recovering_of_tests :
      all is_running (q ∷ qs) ≡ false
      → any is_failed (q ∷ qs) ≡ false
      → any is_restarting (q ∷ qs) ≡ true
      → level_of (q ∷ qs) ≡ recovering
  unfolding level_of
  recovering_of_tests a b c = ground arith

-- A kernel is healthy exactly where every process runs. It recovers exactly where some process
-- starts or restarts and none failed. It is degraded otherwise.
level_of_iff :
    (ps : List ProcessHealth)
    → ((level_of ps ≡ healthy) ↔ ((p : ProcessHealth) → In p ps → p.state ≡ running))
      × ((level_of ps ≡ recovering) ↔ (
          ((p : ProcessHealth) × In p ps × IsRestarting p)
          × ((p : ProcessHealth) → In p ps → p.state ≢ failed)))
unfolding level_of is_running
level_of_iff [] = (
  (λ h p here. absurd here, λ h. refl),
  (λ h. absurd (ground arith), λ ((p, here, _), _). absurd here),
)
level_of_iff (q ∷ qs) = ((all_running, of_all_running), (a_restart, of_a_restart))
  where
    ps : List ProcessHealth
    ps = q ∷ qs

    all_running : level_of ps ≡ healthy → (p : ProcessHealth) → In p ps → p.state ≡ running
    all_running h p here =
        is_running_state p ((all_iff is_running ps).0 (running_of_healthy q qs h) p here)

    of_all_running : ((p : ProcessHealth) → In p ps → p.state ≡ running) → level_of ps ≡ healthy
    of_all_running h =
        healthy_of_running q qs
          ((all_iff is_running ps).1 (λ p here. ap (λ s. state_eq s running) (h p here)))

    a_restart :
        level_of ps ≡ recovering
        → ((p : ProcessHealth) × In p ps × IsRestarting p)
          × ((p : ProcessHealth) → In p ps → p.state ≢ failed)
    a_restart h =
        let (no_failure, restarts) = tests_of_recovering q qs h in
        let (p, here, holds) = (any_iff is_restarting ps).0 restarts in
        (
          (p, here, is_restarting_state p holds),
          λ x there bad.
              ground
                (arith, no_failure, (any_iff is_failed ps).1 (x, there, failed_is_failed x bad)),
        )

    of_a_restart :
        ((p : ProcessHealth) × In p ps × IsRestarting p)
          × ((p : ProcessHealth) → In p ps → p.state ≢ failed)
        → level_of ps ≡ recovering
    of_a_restart ((p, here, kind), sound) = elim (Bool-cases (any is_failed ps)) [
      | inl bad ↦
          let (x, there, holds) = (any_iff is_failed ps).0 bad in
          absurd (sound x there (is_failed_state x holds))
      | inr fine ↦ elim (Bool-cases (all is_running ps)) [
        | inl runs ↦
            absurd (not_both p kind (is_running_state p ((all_iff is_running ps).0 runs p here)))
        | inr stalls ↦
            recovering_of_tests q qs stalls fine
              ((any_iff is_restarting ps).1 (p, here, restarting_is_restarting p kind))
      ]
    ]
