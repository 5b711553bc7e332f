-- ===== src/Agent.antt =====
-- src/agent/lifecycle.rs: the life of an agent. The text of an error is a constructor.
use aros_kernel.Prelude.{◌≡◌, ◌↔◌, refl, Bool, true, false, arith}
use aros_kernel.Prelude.Result.{Result, ok, err}

pub data AgentState : Type 0 where
  idle busy done failed : AgentState

pub data TransitionError : Type 0 where
  can_only_start_from_idle can_only_complete_from_busy can_only_fail_from_busy : TransitionError

unfoldable pub can_execute : AgentState → Bool
can_execute idle = true
can_execute _ = false

unfoldable pub transition_to_busy : AgentState → Result AgentState TransitionError
transition_to_busy idle = ok busy
transition_to_busy _ = err can_only_start_from_idle

unfoldable pub transition_to_done : AgentState → Result AgentState TransitionError
transition_to_done busy = ok done
transition_to_done _ = err can_only_complete_from_busy

unfoldable pub transition_to_failed : AgentState → Result AgentState TransitionError
transition_to_failed busy = ok failed
transition_to_failed _ = err can_only_fail_from_busy

unfoldable pub reset : AgentState → AgentState
reset _ = idle

-- What an agent is asked to do.
pub data Action : Type 0 where
  start complete fail renew : Action

unfoldable pub perform : Action → AgentState → Result AgentState TransitionError
perform start s = transition_to_busy s
perform complete s = transition_to_done s
perform fail s = transition_to_failed s
perform renew s = ok (reset s)

-- The moves of the life of an agent.
pub data Move : AgentState → Action → AgentState → Type 0 where
  starts : Move idle start busy
  completes : Move busy complete done
  fails : Move busy fail failed
  renews : (s : AgentState) → Move s renew idle

Move-of : (a : Action) (s t : AgentState) → perform a s ≡ ok t → Move s a t
unfolding perform transition_to_busy transition_to_done transition_to_failed reset
Move-of start idle busy h = starts
Move-of complete busy done h = completes
Move-of fail busy failed h = fails
Move-of renew s idle h = renews s
Move-of a s t h = absurd (ground arith)

perform_of : {s : AgentState} {a : Action} {t : AgentState} → Move s a t → perform a s ≡ ok t
unfolding perform transition_to_busy transition_to_done transition_to_failed reset
perform_of starts = refl
perform_of completes = refl
perform_of fails = refl
perform_of (renews s) = refl

-- The transitions implement the moves and no other ones: an action succeeds exactly where a move
-- allows it, with the state that the move gives.
pub perform_iff : (a : Action) (s t : AgentState) → (perform a s ≡ ok t) ↔ Move s a t
perform_iff a s t = (Move-of a s t, perform_of)

-- An agent is free to execute exactly where it can be started.
pub can_execute_iff :
    (s : AgentState) → (can_execute s ≡ true) ↔ ((t : AgentState) × (perform start s ≡ ok t))
unfolding can_execute perform transition_to_busy
can_execute_iff idle = (λ h. (busy, refl), λ e. refl)
can_execute_iff busy = (λ h. absurd (ground arith), λ e. absurd (ground arith))
can_execute_iff done = (λ h. absurd (ground arith), λ e. absurd (ground arith))
can_execute_iff failed = (λ h. absurd (ground arith), λ e. absurd (ground arith))
