-- ===== src/Adapter/Circuit/Invariant.antt =====
-- src/adapter/circuit_breaker.rs: the counters that a breaker can have.
use aros_kernel.Prelude.{ℕ, ◌≤◌, ◌<◌, ◌≡◌, refl, String, List, [], ◌∷◌, arith, u32_max}
use aros_kernel.Adapter.Circuit.{
  closed, half_open, CircuitBreakerConfig, CircuitBreaker, new, recovering, state, record_success,
  record_failure, transition, Event, success, failure, asked, step, run,
}

-- A configuration whose limits can be reached.
pub record IsUsable (c : CircuitBreakerConfig) : Type 0 where
  pub some_failure : 0 < c.failure_threshold
  pub few_failures : c.failure_threshold ≤ u32_max
  pub some_probe : 0 < c.probe_success_count
  pub few_probes : c.probe_success_count ≤ u32_max

-- A closed breaker has seen too few failures to opened, a probing one too few successes to close
-- and no failure, and no success is counted outside of probing.
pub record IsValid (b : CircuitBreaker) : Type 0 where
  pub usable : IsUsable b.config
  pub below_threshold : b.state ≡ closed → b.consecutive_failures < b.config.failure_threshold
  pub still_probing : b.state ≡ half_open → b.consecutive_successes < b.config.probe_success_count
  pub unfailed_probe : b.state ≡ half_open → b.consecutive_failures ≡ 0
  pub no_stray_success : b.state ≡ closed → b.consecutive_successes ≡ 0

step-IsValid : (e : Event) (b : CircuitBreaker) → IsValid b → IsValid (step e b)
unfolding step record_success record_failure state transition
step-IsValid (success now) b v = record {
  usable = ground (arith, v.usable);
  below_threshold = λ h. ground (arith, v.usable, v);
  still_probing = λ h. ground (arith, v.usable, v);
  unfailed_probe = λ h. ground (arith, v.usable, v);
  no_stray_success = λ h. ground (arith, v.usable, v);
}
step-IsValid (failure now) b v = record {
  usable = ground (arith, v.usable);
  below_threshold = λ h. ground (arith, v.usable, v);
  still_probing = λ h. ground (arith, v.usable, v);
  unfailed_probe = λ h. ground (arith, v.usable, v);
  no_stray_success = λ h. ground (arith, v.usable, v);
}
step-IsValid (asked now) b v = record {
  usable = ground (arith, v.usable);
  below_threshold = λ h. ground (arith, v.usable, v);
  still_probing = λ h. ground (arith, v.usable, v);
  unfailed_probe = λ h. ground (arith, v.usable, v);
  no_stray_success = λ h. ground (arith, v.usable, v);
}

-- No sequence of successes, failures and questions, whenever they happen, takes a breaker out of
-- the states that its two limits allow.
pub run-IsValid : (es : List Event) (b : CircuitBreaker) → IsValid b → IsValid (run es b)
unfolding run
run-IsValid [] b v = v
run-IsValid (e ∷ es) b v = run-IsValid es (step e b) (step-IsValid e b v)

pub new-IsValid :
    (id : String) (c : CircuitBreakerConfig) (now : ℕ) → IsUsable c → IsValid (new id c now)
unfolding new
new-IsValid id c now u = record {
  usable = u;
  below_threshold = λ h. u.some_failure;
  still_probing = λ h. ground arith;
  unfailed_probe = λ h. ground arith;
  no_stray_success = λ h. refl;
}

pub recovering-IsValid :
    (id : String) (c : CircuitBreakerConfig) (now : ℕ) → IsUsable c → IsValid (recovering id c now)
unfolding recovering
recovering-IsValid id c now u = record {
  usable = u;
  below_threshold = λ h. ground arith;
  still_probing = λ h. u.some_probe;
  unfailed_probe = λ h. refl;
  no_stray_success = λ h. ground arith;
}
