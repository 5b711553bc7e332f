-- ===== src/Adapter/Circuit/Cycle.antt =====
-- src/adapter/circuit_breaker.rs: how a breaker opens, stays open, and closes again.
use aros_kernel.Prelude.{
  ℕ, suc, ◌+◌, ◌-◌, ◌≤◌, ◌<◌, ◌≡◌, refl, true, false, List, [], ◌∷◌, ◌++◌, length, arith, All,
  u32_max,
}
use aros_kernel.Adapter.Circuit.{
  closed, half_open, opened, CircuitBreaker, state, record_success, record_failure, transition,
  allows_request, Event, success, failure, asked, step, run,
}

abbrev time_of : Event → ℕ
time_of (success now) = now
time_of (failure now) = now
time_of (asked now) = now

-- At the event, the time since the last change of the breaker is still too short.
abbrev pub Early : CircuitBreaker → Event → Type 0
Early b e = time_of e - b.last_state_change < b.config.open_duration

-- A breaker that is as open as another.
record OpenSince (b c : CircuitBreaker) : Type 0 where
  still : c.state ≡ opened
  since : c.last_state_change ≡ b.last_state_change
  config : c.config ≡ b.config

step-OpenSince :
    (e : Event) (b c : CircuitBreaker) → OpenSince b c → Early b e → OpenSince b (step e c)
unfolding step record_success record_failure state
step-OpenSince (success t) b c o e = record {
  still = ground (arith, o);
  since = ground (arith, o);
  config = ground (arith, o);
}
step-OpenSince (failure t) b c o e = record {
  still = ground (arith, o);
  since = ground (arith, o);
  config = ground (arith, o);
}
step-OpenSince (asked t) b c o e = record {
  still = ground (arith, o);
  since = ground (arith, o);
  config = ground (arith, o);
}

run-OpenSince :
    (es : List Event) (b c : CircuitBreaker)
    → OpenSince b c
    → All (Early b) es
    → OpenSince b (run es c)
unfolding run
run-OpenSince [] b c o all = o
run-OpenSince (e ∷ es) b c o (first, rest) =
    run-OpenSince es b (step e c) (step-OpenSince e b c o first) rest

refuses :
    (now : ℕ) (b c : CircuitBreaker)
    → OpenSince b c
    → now - b.last_state_change < b.config.open_duration
    → (allows_request now c).0 ≡ false
unfolding allows_request state
refuses now b c o early = ground (arith, o)

-- Until its time is over an open breaker refuses every request, whatever happens to it.
pub refuses_until :
    (es : List Event) (b : CircuitBreaker) (now : ℕ)
    → b.state ≡ opened
    → All (Early b) es
    → now - b.last_state_change < b.config.open_duration
    → (allows_request now (run es b)).0 ≡ false
refuses_until es b now o all early =
    refuses now b (run es b)
      (run-OpenSince es b b (record { still = o; since = refl; config = refl }) all) early

-- Events of one kind at the given times.
abbrev pub each : (ℕ → Event) → List ℕ → List Event
each kind [] = []
each kind (t ∷ ts) = kind t ∷ each kind ts

failures_below :
    (ts : List ℕ) (b : CircuitBreaker)
    → b.state ≡ closed
    → b.config.failure_threshold ≤ u32_max
    → b.consecutive_failures + length ts < b.config.failure_threshold
    → (run (each failure ts) b).state ≡ closed
unfolding run step record_failure
failures_below [] b c few room = c
failures_below (t ∷ ts) b c few room = ground (arith, failures_below ts (record_failure t b))

-- Further failures leave a closed breaker closed until its count is one below the threshold, and
-- the failure that reaches the threshold opens it, at its time.
pub opens_at_threshold :
    (ts : List ℕ) (t : ℕ) (b : CircuitBreaker)
    → b.state ≡ closed
    → b.config.failure_threshold ≤ u32_max
    → b.consecutive_failures + suc (length ts) ≡ b.config.failure_threshold
    → ((run (each failure ts) b).state ≡ closed)
      × ((run (each failure (ts ++ (t ∷ []))) b).state ≡ opened)
      × ((run (each failure (ts ++ (t ∷ []))) b).last_state_change ≡ t)
unfolding run step record_failure transition
opens_at_threshold [] t b c few reach = (c, ground arith, ground arith)
opens_at_threshold (s ∷ ts) t b c few reach =
    ground (arith, opens_at_threshold ts t (record_failure s b))

probes_close :
    (ts : List ℕ) (t : ℕ) (b : CircuitBreaker)
    → b.state ≡ half_open
    → b.config.probe_success_count ≤ u32_max
    → b.consecutive_successes + suc (length ts) ≡ b.config.probe_success_count
    → (run (each success (ts ++ (t ∷ []))) b).state ≡ closed
unfolding run step record_success transition
probes_close [] t b c few reach = ground arith
probes_close (s ∷ ts) t b c few reach = ground (arith, probes_close ts t (record_success s b))

-- Fewer successes than that leave a breaker that probes as it is.
still_probes :
    (ts : List ℕ) (b : CircuitBreaker)
    → b.state ≡ half_open
    → b.config.probe_success_count ≤ u32_max
    → b.consecutive_successes + length ts < b.config.probe_success_count
    → (run (each success ts) b).state ≡ half_open
unfolding run step record_success
still_probes [] b c few room = c
still_probes (t ∷ ts) b c few room = ground (arith, still_probes ts (record_success t b))

-- An open breaker whose time is over lets a request through. It stays half open over one success
-- fewer than its configuration asks for and closes at the next; a failure as the first answer opens
-- it again, at its time.
pub recovers :
    (ts : List ℕ) (t now : ℕ) (b : CircuitBreaker)
    → b.state ≡ opened
    → b.last_state_change + b.config.open_duration ≤ now
    → b.config.probe_success_count ≤ u32_max
    → suc (length ts) ≡ b.config.probe_success_count
    → ((allows_request now b).0 ≡ true)
      × ((run (each success ts) (state now b)).state ≡ half_open)
      × ((run (each success (ts ++ (t ∷ []))) (state now b)).state ≡ closed)
      × ((record_failure t (state now b)).state ≡ opened)
      × ((record_failure t (state now b)).last_state_change ≡ t)
unfolding allows_request state transition record_failure
recovers ts t now b o late few reach = (
  ground arith,
  ground (arith, still_probes ts (state now b)),
  ground (arith, probes_close ts t (state now b)),
  ground arith,
  ground arith,
)
