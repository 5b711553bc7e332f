-- ===== src/Adapter/Provider/Projection.antt =====
-- src/adapter/provider.rs: the registry as one breaker for each provider.
use aros_kernel.Prelude.{
  ℕ, String, ◌≡◌, ◌↔◌, refl, ap, ◌∙◌, true, false, Option, none, some, List, [], ◌∷◌, arith, inl,
  inr, if◌then◌else◌, all, map, string_eq, ◌==◌, Bool-cases, Option-cases,
}
use aros_kernel.Prelude.Map.{lookup, lookup-modify, UniqueKeys}
use aros_kernel.Adapter.Circuit
use aros_kernel.Adapter.Circuit.{
  opened, closed, half_open, CircuitBreaker, CircuitBreakerConfig, Event, success, failure, asked,
  state, allows_request,
}
use aros_kernel.Adapter.Provider.{
  ProviderRegistry, is_available, record_success, record_failure, health, ask_all, health_of,
  is_open, status_of, all_providers_down,
}

-- What can happen to a registry, with the time at which it does.
pub data Request : Type 0 where
  succeeded failed questioned : (now : ℕ) (provider_id : String) → Request
  reported : (now : ℕ) → Request

abbrev pub serve : Request → ProviderRegistry → ProviderRegistry
serve (succeeded now id) r = record_success now id r
serve (failed now id) r = record_failure now id r
serve (questioned now id) r = (is_available now id r).1
serve (reported now) r = (health now r).1

abbrev pub serve_all : List Request → ProviderRegistry → ProviderRegistry
serve_all [] r = r
serve_all (q ∷ qs) r = serve_all qs (serve q r)

-- What the requests mean for one provider: those that name it, and each report.
abbrev pub events_for : String → List Request → List Event
events_for k [] = []
events_for k (succeeded now id ∷ qs) =
    if id == k then success now ∷ events_for k qs else events_for k qs
events_for k (failed now id ∷ qs) =
    if id == k then failure now ∷ events_for k qs else events_for k qs
events_for k (questioned now id ∷ qs) =
    if id == k then asked now ∷ events_for k qs else events_for k qs
events_for k (reported now ∷ qs) = asked now ∷ events_for k qs

-- The events at the breaker, if there is one.
abbrev pub run_at : List Event → Option CircuitBreaker → Option CircuitBreaker
run_at es none = none
run_at es (some b) = some (Circuit.run es b)

allows_request-state : (now : ℕ) (b : CircuitBreaker) → (allows_request now b).1 ≡ state now b
unfolding allows_request
allows_request-state now b = ground arith

pub lookup-ask_all :
    (now : ℕ) (k : String) (m : List (String × CircuitBreaker))
    → lookup k (ask_all now m) ≡ run_at (asked now ∷ []) (lookup k m)
unfolding lookup ask_all Circuit.run Circuit.step
lookup-ask_all now k [] = refl
lookup-ask_all now k ((j, b) ∷ m) = ground (arith, lookup-ask_all now k m)

serve-lookup :
    (q : Request) (k : String) (r : ProviderRegistry)
    → lookup k (serve q r).circuit_breakers
      ≡ run_at (events_for k (q ∷ [])) (lookup k r.circuit_breakers)
unfolding record_success record_failure is_available health Circuit.run Circuit.step
serve-lookup (succeeded now id) k r =
    ground (arith, lookup-modify id k (Circuit.record_success now) r.circuit_breakers)
serve-lookup (failed now id) k r =
    ground (arith, lookup-modify id k (Circuit.record_failure now) r.circuit_breakers)
serve-lookup (questioned now id) k r = elim (Option-cases (lookup k r.circuit_breakers)) [
  | inl gone ↦ ground (
    arith,
    lookup-modify id k (λ b. (allows_request now b).1) r.circuit_breakers,
    string_eq.beq_iff id k,
  )
  | inr (b, here) ↦ ground (
    arith,
    lookup-modify id k (λ b. (allows_request now b).1) r.circuit_breakers,
    allows_request-state now b,
    string_eq.beq_iff id k,
  )
]
serve-lookup (reported now) k r = lookup-ask_all now k r.circuit_breakers

run_at-cons :
    (q : Request) (qs : List Request) (k : String) (o : Option CircuitBreaker)
    → run_at (events_for k qs) (run_at (events_for k (q ∷ [])) o) ≡ run_at (events_for k (q ∷ qs)) o
unfolding Circuit.run
run_at-cons q qs k none = refl
run_at-cons (succeeded now id) qs k (some b) = ground arith
run_at-cons (failed now id) qs k (some b) = ground arith
run_at-cons (questioned now id) qs k (some b) = ground arith
run_at-cons (reported now) qs k (some b) = refl

-- A registry is one breaker for each of its providers: after any requests, whatever providers they
-- name, the breaker of a provider is as the successes, failures and questions that concern this
-- provider leave it, and no provider is added or lost.
pub serve_all-lookup :
    (qs : List Request) (k : String) (r : ProviderRegistry)
    → lookup k (serve_all qs r).circuit_breakers
      ≡ run_at (events_for k qs) (lookup k r.circuit_breakers)
unfolding Circuit.run
serve_all-lookup [] k r = elim (Option-cases (lookup k r.circuit_breakers)) [
  | inl gone ↦ rw (gone, run_at) refl
  | inr (b, here) ↦ rw (here, run_at) refl
]
serve_all-lookup (q ∷ qs) k r =
    serve_all-lookup qs k (serve q r)
    ∙ (ap (run_at (events_for k qs)) (serve-lookup q k r)
        ∙ run_at-cons q qs k (lookup k r.circuit_breakers))

module _ (now : ℕ) where
  open_refuses :
      (id : String) (b : CircuitBreaker)
      → (is_open (health_of (id, state now b)) ≡ true) ↔ ((allows_request now b).0 ≡ false)
  unfolding allows_request
  open_refuses id b = ground arith

  all_refuse :
      (m : List (String × CircuitBreaker))
      → all is_open (map health_of (ask_all now m)) ≡ true
      → (k : String) (b : CircuitBreaker) → lookup k m ≡ some b
      → (allows_request now b).0 ≡ false
  unfolding lookup ask_all
  all_refuse [] h k b here = absurd (ground arith)
  all_refuse ((j, w) ∷ m) h k b here = elim (Bool-cases (j == k)) [
    | inl same ↦ ground (arith, open_refuses j w)
    | inr other ↦ all_refuse m (ground arith) k b (ground arith)
  ]

  refuse_all :
      (m : List (String × CircuitBreaker))
      → UniqueKeys m
      → ((k : String) (b : CircuitBreaker) → lookup k m ≡ some b → (allows_request now b).0 ≡ false)
      → all is_open (map health_of (ask_all now m)) ≡ true
  unfolding lookup ask_all
  refuse_all [] u h = refl
  refuse_all ((j, w) ∷ m) u h =
      let first = (open_refuses j w).1 (h j w (ground (arith, string_eq.beq_iff j j))) in
      let rest = refuse_all m u.1 (λ k b here. h k b (ground (arith, string_eq.beq_iff j k))) in
      ground arith

-- The health of a registry, which has one breaker for each name, is that all providers are down
-- exactly where it holds none available at that time.
pub health_down_iff :
    (now : ℕ) (r : ProviderRegistry)
    → UniqueKeys r.circuit_breakers
    → ((health now r).0.status ≡ all_providers_down)
      ↔ ((k : String) → (is_available now k r).0 ≡ false)
unfolding health status_of is_available
health_down_iff now r u = (
  λ h k.
      let all_open : all is_open (map health_of (ask_all now r.circuit_breakers)) ≡ true =
        ground arith in
      elim (Option-cases (lookup k r.circuit_breakers)) [
        | inl gone ↦ ground arith
        | inr (b, here) ↦ ground (arith, all_refuse now r.circuit_breakers all_open k b here)
      ],
  λ h.
      let all_open = refuse_all now r.circuit_breakers u (λ k b here. ground (arith, h k)) in
      ground arith,
)
