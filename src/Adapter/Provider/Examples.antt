-- ===== src/Adapter/Provider/Examples.antt =====
-- Two providers behind one registry, and the theorems about src/adapter/provider.rs at them.
use aros_kernel.Prelude.{
  String, ◌≡◌, ◌↔◌, refl, true, false, some, none, List, [], ◌∷◌, if◌then◌else◌, string_eq,
}
use aros_kernel.Prelude.Map.{lookup, insert, modify}
use aros_kernel.Envelope.{green}
use aros_kernel.Adapter.Config.{opus, ProviderConfig}
use aros_kernel.Adapter.Circuit
use aros_kernel.Adapter.Circuit.{CircuitBreakerConfig}
use aros_kernel.Adapter.Provider.{
  new, is_available, record_success, record_failure, circuit_breaker, health, all_providers_down,
  degraded,
}
use aros_kernel.Adapter.Provider.Projection.{
  Request, succeeded, failed, questioned, reported, events_for,
}
use aros_kernel.Adapter.Provider.Registered.{
  is_registered, served, breaker_of_each, down_iff_unavailable,
}

abbrev provider : String → ProviderConfig
provider id = record {
  id = id;
  endpoint = "https://example.com";
  models = "model-1" ∷ [];
  fallback_rank = 1;
  zone_allowlist = green ∷ [];
  capabilities = record {
    max_context = 100_000;
    tool_use = true;
    vision = false;
    streaming = true;
    max_quality_tier = opus;
  };
}

abbrev two : List ProviderConfig
two = provider "a" ∷ provider "b" ∷ []

-- One failure opens a breaker.
abbrev strict : CircuitBreakerConfig
strict = record { failure_threshold = 1; open_duration = 1_000; probe_success_count = 1 }

abbrev calls : List Request
calls = failed 8 "a" ∷ questioned 9 "b" ∷ succeeded 9 "b" ∷ reported 10 ∷ []

one_down : (health 10 (served 7 two strict calls)).0.status ≡ degraded
unfolding health new record_failure record_success modify is_available lookup insert Circuit.state
    Circuit.record_failure Circuit.new Circuit.transition Circuit.record_success
    Circuit.allows_request
one_down = refl

both_down : (health 10 (served 7 two strict (failed 9 "b" ∷ calls))).0.status ≡ all_providers_down
unfolding health new record_failure record_success modify is_available lookup insert Circuit.state
    Circuit.record_failure Circuit.new Circuit.transition Circuit.record_success
    Circuit.allows_request
both_down = refl

breaker_of_each_example : circuit_breaker "a" (served 7 two strict calls) ≡ (
    if is_registered "a" two
    then some (Circuit.run (events_for "a" calls) (Circuit.new "a" strict 7))
    else none)
breaker_of_each_example = breaker_of_each 7 two strict calls "a"

down_iff_unavailable_example :
    ((health 11 (served 7 two strict calls)).0.status ≡ all_providers_down)
    ↔ ((k : String) → (is_available 11 k (served 7 two strict calls)).0 ≡ false)
down_iff_unavailable_example = down_iff_unavailable 7 two strict calls 11
