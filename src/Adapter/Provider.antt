-- ===== src/Adapter/Provider.antt =====
-- src/adapter/provider.rs: the providers with their breakers, and the health of mod.rs that they
-- add up to. The clock is an argument `now`; a read of the health asks all breakers at one time.
pub mod Projection
pub mod Registered
mod Examples
use aros_kernel.Prelude.{
  ℕ, String, Bool, true, false, Option, none, some, List, [], ◌∷◌, if◌then◌else◌, all, any, map,
  string_eq,
}
use aros_kernel.Prelude.Map.{lookup, insert, modify}
use aros_kernel.Adapter.Config.{ProviderConfig}
use aros_kernel.Adapter.Circuit
use aros_kernel.Adapter.Circuit.{
  CircuitState, opened, circuit_eq, CircuitBreakerConfig, CircuitBreaker,
}

pub record ProviderRegistry : Type 0 where
  pub providers : List ProviderConfig
  pub circuit_breakers : List (String × CircuitBreaker)

-- `collect` into the map: a later provider of the same name replaces an earlier one.
unfoldable pub collect :
    (String → CircuitBreaker)
    → List ProviderConfig
    → List (String × CircuitBreaker)
    → List (String × CircuitBreaker)
collect breaker [] found = found
collect breaker (p ∷ ps) found = collect breaker ps (insert p.id (breaker p.id) found)

unfoldable pub new : ℕ → List ProviderConfig → CircuitBreakerConfig → ProviderRegistry
unfolding collect
new now providers cb_config = record {
  providers = providers;
  circuit_breakers = collect (λ id. Circuit.new id cb_config now) providers [];
}

unfoldable pub recovering : ℕ → List ProviderConfig → CircuitBreakerConfig → ProviderRegistry
unfolding collect
recovering now providers cb_config = record {
  providers = providers;
  circuit_breakers = collect (λ id. Circuit.recovering id cb_config now) providers [];
}

abbrev pub circuit_breaker : String → ProviderRegistry → Option CircuitBreaker
circuit_breaker provider_id r = lookup provider_id r.circuit_breakers

unfoldable pub is_available : ℕ → String → ProviderRegistry → Bool × ProviderRegistry
is_available now provider_id r = elim (lookup provider_id r.circuit_breakers) [
  | none ↦ (false, r)
  | some cb ↦ (
    (Circuit.allows_request now cb).0,
    record r {
      circuit_breakers =
          modify provider_id (λ b. (Circuit.allows_request now b).1) r.circuit_breakers;
    },
  )
]

unfoldable pub record_success : ℕ → String → ProviderRegistry → ProviderRegistry
record_success now provider_id r = record r {
  circuit_breakers = modify provider_id (Circuit.record_success now) r.circuit_breakers;
}

unfoldable pub record_failure : ℕ → String → ProviderRegistry → ProviderRegistry
record_failure now provider_id r = record r {
  circuit_breakers = modify provider_id (Circuit.record_failure now) r.circuit_breakers;
}

pub record ProviderHealth : Type 0 where
  pub provider_id : String
  pub circuit_state : CircuitState
  pub latency_avg_ms : ℕ

pub data AdapterStatus : Type 0 where
  healthy degraded all_providers_down : AdapterStatus

pub record AdapterHealth : Type 0 where
  pub providers : List ProviderHealth
  pub status : AdapterStatus

-- Every breaker, after it is asked for its state.
unfoldable pub ask_all : ℕ → List (String × CircuitBreaker) → List (String × CircuitBreaker)
ask_all now [] = []
ask_all now ((id, cb) ∷ breakers) = (id, Circuit.state now cb) ∷ ask_all now breakers

abbrev pub health_of : String × CircuitBreaker → ProviderHealth
health_of (id, cb) = record { provider_id = id; circuit_state = cb.state; latency_avg_ms = 0 }

abbrev pub is_open : ProviderHealth → Bool
is_open p = circuit_eq p.circuit_state opened

unfoldable pub status_of : List ProviderHealth → AdapterStatus
status_of providers =
    if all is_open providers
    then all_providers_down
    else if any is_open providers
    then degraded
    else healthy

unfoldable pub health : ℕ → ProviderRegistry → AdapterHealth × ProviderRegistry
unfolding ask_all status_of
health now r =
    let asked = ask_all now r.circuit_breakers in
    let providers = map health_of asked in
    (
      record { providers = providers; status = status_of providers },
      record r { circuit_breakers = asked },
    )
