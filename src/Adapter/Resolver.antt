-- ===== src/Adapter/Resolver.antt =====
-- src/adapter/resolver.rs: the choice of a provider for a request. The text of the reason, which
-- repeats the request, is left out of the error.
pub mod Choice
use aros_kernel.Prelude.{
  ℕ, String, Bool, true, false, not, ◌&&◌, Option, none, some, List, [], ◌∷◌, map, if◌then◌else◌,
  ltb, leb, Eq, ◌==◌, string_eq, filter, contains, first,
}
use aros_kernel.Prelude.Result.{Result, ok, err}
use aros_kernel.Envelope.{SecurityZone, zone_eq}
use aros_kernel.Adapter.Config.{
  QualityTier, tier_rank, ProviderCapabilities, ProviderConfig, CapabilityReq, AdapterRequest,
  DegradationLevel, undegraded, mild, significant,
}

pub record ResolvedProvider : Type 0 where
  pub config : ProviderConfig
  pub degradation_level : DegradationLevel

pub data ResolveError : Type 0 where
  no_provider_available : (zone : SecurityZone) → ResolveError

unfoldable pub zone_allows : SecurityZone → List SecurityZone → Bool
zone_allows zone allowlist = contains allowlist zone

-- The tests of the source in their order, each with an early `false`.
unfoldable pub meets_capabilities : CapabilityReq → ProviderConfig → Bool
meets_capabilities req provider =
    let caps = provider.capabilities in
    if ltb caps.max_context req.min_context
    then false
    else if req.supports_streaming && not caps.streaming
    then false
    else if req.tool_use && not caps.tool_use
    then false
    else if req.vision && not caps.vision
    then false
    else if ltb (tier_rank caps.max_quality_tier) (tier_rank req.min_quality_tier)
    then false
    else true

-- Step 4: the adversarial constraint.
unfoldable pub differs : AdapterRequest → Option String → ProviderConfig → Bool
differs req last_provider_id p =
    if req.require_different_provider
    then (elim last_provider_id [ none ↦ true | some last ↦ not (last == p.id) ])
    else true

unfoldable pub degradation : ℕ → DegradationLevel
degradation rank = if leb rank 1 then undegraded else if leb rank 2 then mild else significant

unfoldable pub degrade : ProviderConfig → ProviderConfig × DegradationLevel
degrade p = (p, degradation p.fallback_rank)

unfoldable pub insert_by_rank :
    ProviderConfig × DegradationLevel
    → List (ProviderConfig × DegradationLevel)
    → List (ProviderConfig × DegradationLevel)
insert_by_rank c [] = c ∷ []
insert_by_rank (p, d) ((q, e) ∷ cs) =
    if leb p.fallback_rank q.fallback_rank
    then (p, d) ∷ (q, e) ∷ cs
    else (q, e) ∷ insert_by_rank (p, d) cs

-- `sort_by_key` is stable, as this sort is.
unfoldable pub sort_by_rank :
    List (ProviderConfig × DegradationLevel) → List (ProviderConfig × DegradationLevel)
sort_by_rank [] = []
sort_by_rank (c ∷ cs) = insert_by_rank c (sort_by_rank cs)

unfoldable pub resolve :
    AdapterRequest
    → List ProviderConfig
    → List String
    → Option String
    → Result ResolvedProvider ResolveError
resolve req providers available_ids last_provider_id =
    let zoned = filter (λ p. zone_allows req.security_zone p.zone_allowlist) providers in
    let capable = filter (meets_capabilities req.capabilities) zoned in
    let healthy = filter (λ p. contains available_ids p.id) capable in
    let different = filter (differs req last_provider_id) healthy in
    elim (first (sort_by_rank (map degrade different))) [
      | none ↦ err (no_provider_available req.security_zone)
      | some c ↦ ok (record { config = c.0; degradation_level = c.1 })
    ]
