-- ===== src/Adapter/Examples.antt =====
-- A breaker and two providers, and the theorems about src/adapter at them.
use aros_kernel.Prelude.{◌≤◌, ◌≡◌, ◌⊎◌, refl, true, false, none, [], ◌∷◌, arith, In}
use aros_kernel.Prelude.Result.{ok, err}
use aros_kernel.Envelope.{green, yellow, red}
use aros_kernel.Adapter.Circuit.{
  closed, half_open, opened, CircuitBreaker, default_circuit_config, new, state, record_failure,
  allows_request, success, failure, asked, run,
}
use aros_kernel.Adapter.Circuit.Invariant.{IsUsable, IsValid, run-IsValid, new-IsValid}
use aros_kernel.Adapter.Circuit.Cycle.{refuses_until, recovers, each}
use aros_kernel.Adapter.Config.{opus, sonnet, haiku, ProviderConfig, AdapterRequest}
use aros_kernel.Adapter.Resolver.{no_provider_available, degradation, resolve}
use aros_kernel.Adapter.Resolver.Choice.{IsSuitable, resolve_outcomes}

default-IsUsable : IsUsable default_circuit_config
default-IsUsable = record {
  some_failure = omega arith;
  few_failures = omega arith;
  some_probe = omega arith;
  few_probes = omega arith;
}

abbrev fresh : CircuitBreaker
fresh = record {
  provider_id = "local";
  state = closed;
  config = default_circuit_config;
  consecutive_failures = 0;
  consecutive_successes = 0;
  last_state_change = 7;
}

abbrev tripped : CircuitBreaker
tripped = record fresh { state = opened }

run-IsValid_example : IsValid (
    run (failure 8 ∷ success 9 ∷ failure 10 ∷ asked 11 ∷ []) (new "local" default_circuit_config 7))
run-IsValid_example =
    run-IsValid (failure 8 ∷ success 9 ∷ failure 10 ∷ asked 11 ∷ [])
      (new "local" default_circuit_config 7)
      (new-IsValid "local" default_circuit_config 7 default-IsUsable)

refuses_until_example : (allows_request 30 (run (failure 8 ∷ asked 20 ∷ []) tripped)).0 ≡ false
refuses_until_example =
    refuses_until (failure 8 ∷ asked 20 ∷ []) tripped 30 refl (omega arith, (omega arith, tt))
      (omega arith)

recovers_example :
    ((allows_request 30_000_000_007 tripped).0 ≡ true)
    × ((run (each success (30_000_000_008 ∷ [])) (state 30_000_000_007 tripped)).state ≡ half_open)
    × ((run
          (each success (30_000_000_008 ∷ 30_000_000_009 ∷ []))
          (state 30_000_000_007 tripped)).state
        ≡ closed)
    × ((record_failure 30_000_000_009 (state 30_000_000_007 tripped)).state ≡ opened)
    × ((record_failure 30_000_000_009 (state 30_000_000_007 tripped)).last_state_change
        ≡ 30_000_000_009)
recovers_example =
    recovers (30_000_000_008 ∷ []) 30_000_000_009 30_000_000_007 tripped refl (omega arith)
      (omega arith) refl

abbrev cloud : ProviderConfig
cloud = record {
  id = "cloud";
  endpoint = "";
  models = [];
  fallback_rank = 1;
  zone_allowlist = green ∷ yellow ∷ [];
  capabilities = record {
    max_context = 200_000;
    tool_use = true;
    vision = true;
    streaming = true;
    max_quality_tier = opus;
  };
}

abbrev local : ProviderConfig
local = record {
  id = "local";
  endpoint = "";
  models = [];
  fallback_rank = 3;
  zone_allowlist = green ∷ yellow ∷ red ∷ [];
  capabilities = record {
    max_context = 32_000;
    tool_use = true;
    vision = false;
    streaming = true;
    max_quality_tier = sonnet;
  };
}

-- A request in the red zone.
abbrev secret : AdapterRequest
secret = record {
  security_zone = red;
  capabilities = record {
    min_context = 8_000;
    supports_streaming = false;
    tool_use = false;
    vision = false;
    min_quality_tier = haiku;
  };
  require_different_provider = false;
}

resolve_outcomes_example :
    ((p : ProviderConfig) × (resolve secret (cloud ∷ local ∷ []) ("local" ∷ []) none
        ≡ ok (record { config = p; degradation_level = degradation p.fallback_rank }))
      × In p (cloud ∷ local ∷ [])
      × IsSuitable secret ("local" ∷ []) none p
      × ((q : ProviderConfig)
          → In q (cloud ∷ local ∷ [])
          → IsSuitable secret ("local" ∷ []) none q
          → p.fallback_rank ≤ q.fallback_rank))
    ⊎ ((resolve secret (cloud ∷ local ∷ []) ("local" ∷ []) none ≡ err (no_provider_available red))
        × ((q : ProviderConfig)
            → In q (cloud ∷ local ∷ [])
            → IsSuitable secret ("local" ∷ []) none q
            → ⊥))
resolve_outcomes_example = resolve_outcomes secret (cloud ∷ local ∷ []) ("local" ∷ []) none
