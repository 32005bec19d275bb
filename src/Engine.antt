-- ===== src/Engine.antt =====
-- src/computeconnect/engines.py: the models that an engine lists, and the data of the two engines.
pub mod Stream
pub mod Conforming
pub mod Choices
pub mod Listening
pub mod Simulated
pub mod Probing
pub mod Sample
mod Tests
use compute_connect.Prelude.{ℤ, String, Bool, Option, List}
use compute_connect.Json.{Fields}

pub record ModelInfo : Type 0 where
  pub id : String
  pub context_tokens : ℤ
  pub capabilities : List String
  pub loaded : Bool
  pub metadata : Fields

-- What the constructors of the two engine classes store. Times are in ten-thousandths of a second.
pub record LlamaCppEngine : Type 0 where
  pub base_url : String
  pub capability_tags : List String
  pub timeout : ℤ
  pub stream_timeout : ℤ

pub record SimulatedCloudEngine : Type 0 where
  pub token_delay : ℤ
  pub response_tokens : ℤ
  pub fail_health : Bool
  pub fail_after_tokens : Option ℤ
  pub models : List ModelInfo

pub data Engine : Type 0 where
  llama_cpp : LlamaCppEngine → Engine
  simulated_cloud : SimulatedCloudEngine → Engine

-- the class attribute `name`
unfoldable pub name : Engine → String
name (llama_cpp e) = "llama.cpp"
name (simulated_cloud e) = "simulated-cloud"
