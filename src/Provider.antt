-- ===== src/Provider.antt =====
-- src/computeconnect/providers.py: a provider as it is registered and as placement sees it. The
-- registry is in Provider/Registry.antt.
pub mod Registry
pub mod Snapshot
pub mod Health
pub mod Freshness
pub mod Privacy
mod Tests
use compute_connect.Prelude.{ℕ, ℤ, String, Bool, List}
use compute_connect.Engine.{Engine, ModelInfo}

-- Quality and speed are floats in the source, here whole numbers of ten-thousandths.
pub record ProviderSpec : Type 0 where
  pub id : String
  pub placement_class : String
  pub engine : Engine
  pub capabilities : List String
  pub max_concurrency : ℤ
  pub estimated_quality : ℤ
  pub estimated_tokens_per_second : ℤ

pub record ProviderSnapshot : Type 0 where
  pub spec : ProviderSpec
  pub healthy : Bool
  pub detail : String
  pub models : List ModelInfo
  pub active_runs : ℕ
  pub taken_at : ℤ
