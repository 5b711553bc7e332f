-- ===== src/Adapter/Provider/Registered.antt =====
-- src/adapter/provider.rs: the registries that a list of providers gives.
use aros_kernel.Prelude.{
  ℕ, String, ◌≡◌, ◌↔◌, refl, ap, ◌∙◌, Bool, false, none, some, List, [], ◌∷◌, arith, inl, inr,
  if◌then◌else◌, any, string_eq, ◌==◌, Bool-cases,
}
use aros_kernel.Prelude.Map.{
  lookup, insert, lookup-insert, UniqueKeys, UniqueKeys-insert, UniqueKeys-modify,
}
use aros_kernel.Adapter.Circuit
use aros_kernel.Adapter.Circuit.{CircuitBreaker, CircuitBreakerConfig, allows_request}
use aros_kernel.Adapter.Config.{ProviderConfig}
use aros_kernel.Adapter.Provider.{
  ProviderRegistry, new, is_available, record_success, record_failure, health, ask_all,
  all_providers_down, collect,
}
use aros_kernel.Adapter.Provider.Projection.{
  Request, succeeded, failed, questioned, reported, serve, serve_all, events_for, run_at,
  serve_all-lookup, lookup-ask_all, health_down_iff,
}

-- Some provider has the name.
abbrev pub is_registered : String → List ProviderConfig → Bool
is_registered k ps = any (λ p. p.id == k) ps

lookup-collect :
    (f : String → CircuitBreaker) (ps : List ProviderConfig) (m : List (String × CircuitBreaker))
    (k : String)
    → lookup k (collect f ps m) ≡ (if is_registered k ps then some (f k) else lookup k m)
unfolding collect
lookup-collect f [] m k = refl
lookup-collect f (p ∷ ps) m k = elim (Bool-cases (p.id == k)) [
  | inl same ↦
      lookup-collect f ps (insert p.id (f p.id) m) k
      ∙ ground (arith, lookup-insert p.id k (f p.id) m, ap f ((string_eq.beq_iff p.id k).0 same))
  | inr other ↦
      lookup-collect f ps (insert p.id (f p.id) m) k
      ∙ ground (arith, lookup-insert p.id k (f p.id) m)
]

collect-UniqueKeys :
    (f : String → CircuitBreaker) (ps : List ProviderConfig) (m : List (String × CircuitBreaker))
    → UniqueKeys m
    → UniqueKeys (collect f ps m)
unfolding collect
collect-UniqueKeys f [] m u = u
collect-UniqueKeys f (p ∷ ps) m u =
    collect-UniqueKeys f ps (insert p.id (f p.id) m) (UniqueKeys-insert p.id (f p.id) m u)

ask_all-UniqueKeys :
    (now : ℕ) (m : List (String × CircuitBreaker)) → UniqueKeys m → UniqueKeys (ask_all now m)
unfolding ask_all
ask_all-UniqueKeys now [] u = u
ask_all-UniqueKeys now ((j, b) ∷ m) u =
    (lookup-ask_all now j m ∙ rw (u.0, run_at) refl, ask_all-UniqueKeys now m u.1)

serve-UniqueKeys :
    (q : Request) (r : ProviderRegistry)
    → UniqueKeys r.circuit_breakers
    → UniqueKeys (serve q r).circuit_breakers
unfolding record_success record_failure is_available health
serve-UniqueKeys (succeeded now id) r u =
    UniqueKeys-modify id (Circuit.record_success now) r.circuit_breakers u
serve-UniqueKeys (failed now id) r u =
    UniqueKeys-modify id (Circuit.record_failure now) r.circuit_breakers u
serve-UniqueKeys (questioned now id) r u =
    ground (arith, UniqueKeys-modify id (λ b. (allows_request now b).1) r.circuit_breakers u)
serve-UniqueKeys (reported now) r u = ask_all-UniqueKeys now r.circuit_breakers u

serve_all-UniqueKeys :
    (qs : List Request) (r : ProviderRegistry)
    → UniqueKeys r.circuit_breakers
    → UniqueKeys (serve_all qs r).circuit_breakers
serve_all-UniqueKeys [] r u = u
serve_all-UniqueKeys (q ∷ qs) r u = serve_all-UniqueKeys qs (serve q r) (serve-UniqueKeys q r u)

module _ (start : ℕ) (ps : List ProviderConfig) (cb_config : CircuitBreakerConfig)
    (qs : List Request) where
  abbrev pub served : ProviderRegistry
  served = serve_all qs (new start ps cb_config)

  -- A new registry is one breaker for each name of its providers: after any requests, whatever
  -- names they carry, the breaker of a provider is a new breaker after the successes, failures and
  -- questions that concern this provider, and there is no breaker for any other name.
  pub breaker_of_each :
      (k : String)
      → lookup k served.circuit_breakers ≡ (
          if is_registered k ps
          then some (Circuit.run (events_for k qs) (Circuit.new k cb_config start))
          else none)
  unfolding new lookup
  breaker_of_each k =
      serve_all-lookup qs k (new start ps cb_config)
      ∙ (ap (run_at (events_for k qs))
            (lookup-collect (λ id. Circuit.new id cb_config start) ps [] k)
          ∙ ground arith)

  -- After any requests, a registry that started as new reports all providers down exactly where it
  -- has no provider available at the time of the report.
  pub down_iff_unavailable :
      (now : ℕ)
      → ((health now served).0.status ≡ all_providers_down)
        ↔ ((k : String) → (is_available now k served).0 ≡ false)
  down_iff_unavailable now =
      health_down_iff now served (serve_all-UniqueKeys qs (new start ps cb_config) new-UniqueKeys)
    where
      new-UniqueKeys : UniqueKeys (new start ps cb_config).circuit_breakers
      new-UniqueKeys =
          unfold new in collect-UniqueKeys (λ id. Circuit.new id cb_config start) ps [] tt
