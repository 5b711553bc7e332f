-- ===== src/Adapter/Circuit.antt =====
-- src/adapter/circuit_breaker.rs: the breaker of a provider. An `Instant` and a `Duration` are
-- numbers of nanoseconds; the clock that `Instant::now` reads is an argument `now`.
pub mod Invariant
pub mod Cycle
use aros_kernel.Prelude.{
  ℕ, ◌-◌, String, Bool, true, false, ◌&&◌, List, [], ◌∷◌, if◌then◌else◌, leb, add32,
}

pub data CircuitState : Type 0 where
  closed half_open opened : CircuitState

abbrev pub circuit_eq : CircuitState → CircuitState → Bool
circuit_eq closed closed = true
circuit_eq half_open half_open = true
circuit_eq opened opened = true
circuit_eq _ _ = false

pub record CircuitBreakerConfig : Type 0 where
  pub failure_threshold : ℕ
  pub open_duration : ℕ
  pub probe_success_count : ℕ

abbrev pub default_circuit_config : CircuitBreakerConfig
default_circuit_config = record {
  failure_threshold = 3;
  open_duration = 30_000_000_000;
  probe_success_count = 2;
}

pub record CircuitBreaker : Type 0 where
  pub provider_id : String
  pub state : CircuitState
  pub config : CircuitBreakerConfig
  pub consecutive_failures : ℕ
  pub consecutive_successes : ℕ
  pub last_state_change : ℕ

unfoldable pub new : String → CircuitBreakerConfig → ℕ → CircuitBreaker
new provider_id config now = record {
  provider_id = provider_id;
  state = closed;
  config = config;
  consecutive_failures = 0;
  consecutive_successes = 0;
  last_state_change = now;
}

unfoldable pub recovering : String → CircuitBreakerConfig → ℕ → CircuitBreaker
recovering provider_id config now = record {
  provider_id = provider_id;
  state = half_open;
  config = config;
  consecutive_failures = 0;
  consecutive_successes = 0;
  last_state_change = now;
}

unfoldable pub transition : ℕ → CircuitState → CircuitBreaker → CircuitBreaker
transition now new_state b = record b {
  state = new_state;
  last_state_change = now;
  consecutive_failures = 0;
  consecutive_successes = 0;
}

-- The answer is the state of the breaker that `state` leaves.
unfoldable pub state : ℕ → CircuitBreaker → CircuitBreaker
state now b =
    if circuit_eq b.state opened && leb b.config.open_duration (now - b.last_state_change)
    then transition now half_open b
    else b

-- Both counters are `u32`.
unfoldable pub record_success : ℕ → CircuitBreaker → CircuitBreaker
record_success now b = elim b.state [
  | closed ↦ record b { consecutive_failures = 0 }
  | half_open ↦
      let successes = add32 b.consecutive_successes 1 in
      let probed = record b { consecutive_failures = 0; consecutive_successes = successes } in
      if leb b.config.probe_success_count successes then transition now closed probed else probed
  | opened ↦ record b { consecutive_failures = 0 }
]

unfoldable pub record_failure : ℕ → CircuitBreaker → CircuitBreaker
record_failure now b =
    let failures = add32 b.consecutive_failures 1 in
    let failed = record b { consecutive_successes = 0; consecutive_failures = failures } in
    elim b.state [
      | closed ↦
          if leb b.config.failure_threshold failures then transition now opened failed else failed
      | half_open ↦ transition now opened failed
      | opened ↦ failed
    ]

unfoldable pub allows_request : ℕ → CircuitBreaker → Bool × CircuitBreaker
allows_request now b =
    let answered = state now b in
    elim answered.state [
      | closed ↦ (true, answered)
      | half_open ↦ (true, answered)
      | opened ↦ (false, answered)
    ]

-- What can happen to a breaker, with the time at which it does.
pub data Event : Type 0 where
  success failure asked : (now : ℕ) → Event

unfoldable pub step : Event → CircuitBreaker → CircuitBreaker
step (success now) b = record_success now b
step (failure now) b = record_failure now b
step (asked now) b = state now b

unfoldable pub run : List Event → CircuitBreaker → CircuitBreaker
run [] b = b
run (e ∷ es) b = run es (step e b)
