-- ===== src/Adapter/Config.antt =====
-- src/adapter/config.rs, src/adapter/request.rs and src/adapter/mod.rs: what a provider offers and
-- what a request asks for, as far as the choice of a provider reads it.
use aros_kernel.Prelude.{ℕ, String, Bool, List}
use aros_kernel.Envelope.{SecurityZone}

pub data QualityTier : Type 0 where
  haiku sonnet opus : QualityTier

-- The derived order of `QualityTier` is the order of its cases.
abbrev pub tier_rank : QualityTier → ℕ
tier_rank haiku = 0
tier_rank sonnet = 1
tier_rank opus = 2

pub record ProviderCapabilities : Type 0 where
  pub max_context : ℕ
  pub tool_use : Bool
  pub vision : Bool
  pub streaming : Bool
  pub max_quality_tier : QualityTier

pub record ProviderConfig : Type 0 where
  pub id : String
  pub endpoint : String
  pub models : List String
  pub fallback_rank : ℕ
  pub zone_allowlist : List SecurityZone
  pub capabilities : ProviderCapabilities

pub record CapabilityReq : Type 0 where
  pub min_context : ℕ
  pub supports_streaming : Bool
  pub tool_use : Bool
  pub vision : Bool
  pub min_quality_tier : QualityTier

-- The fields of `AdapterRequest` that `resolve` reads.
pub record AdapterRequest : Type 0 where
  pub security_zone : SecurityZone
  pub capabilities : CapabilityReq
  pub require_different_provider : Bool

pub data DegradationLevel : Type 0 where
  undegraded mild significant : DegradationLevel
