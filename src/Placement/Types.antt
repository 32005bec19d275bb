-- ===== src/Placement/Types.antt =====
-- placement.py: the records that the stages of placement exchange. Times are whole numbers of
-- ten-thousandths of a second. A message that the source formats is the constructor of `Reason` that
-- holds the values it formats.
use compute_connect.Prelude.{ℕ, ℤ, String, Bool, Option, List}
use compute_connect.Json.{Value, Fields, PyText}
use compute_connect.Engine.{ModelInfo}
use compute_connect.Provider.{ProviderSnapshot}
use compute_connect.Privacy.{ResolvedPrivacy}

pub data Stage : Type 0 where
  privacy stale health capability model context : Stage

pub data Reason : Type 0 where
  cloud_not_permitted : String → Bool → Reason
  snapshot_too_old : ℤ → ℤ → Reason
  provider_detail : String → Reason
  missing_capabilities : List Value → Reason
  model_not_served : Value → Reason
  needs_tokens : ℤ → ℤ → Reason

pub record Rejection : Type 0 where
  pub provider_id : String
  pub stage : Stage
  pub reason : Reason

pub record CandidateSet : Type 0 where
  pub privacy : ResolvedPrivacy
  pub candidates : List ProviderSnapshot
  pub rejections : List Rejection

pub record WorkloadSpec : Type 0 where
  pub model : Value
  pub required_capabilities : List Value
  pub context_tokens : ℤ
  pub max_output_tokens : ℤ
  pub latency_preference : PyText
  pub quality_preference : PyText
  pub metadata : Fields

-- The clock reading `now` and the ceiling `max_snapshot_age`, the keyword arguments.
pub record Clock : Type 0 where
  pub now : ℤ
  pub max_snapshot_age : Option ℤ

abbrev pub Pair : Type 0
Pair = ProviderSnapshot × ModelInfo

pub record Considered : Type 0 where
  pub provider_id : String
  pub placement_class : String
  pub estimated_tokens_per_second : ℤ
  pub estimated_quality : ℤ
  pub estimated_queue_seconds : ℤ

pub record Rationale : Type 0 where
  pub provider_id : String
  pub placement_class : String
  pub model : String
  pub privacy : ResolvedPrivacy
  pub rejected : List Rejection
  pub active_runs : ℕ
  pub estimated_queue_seconds : ℤ
  pub estimated_tokens_per_second : ℤ
  pub estimated_quality : ℤ
  pub latency_preference : PyText
  pub quality_preference : PyText
  pub considered : List Considered

pub record Placement : Type 0 where
  pub provider : ProviderSnapshot
  pub model : ModelInfo
  pub rationale : Rationale

-- The only code and detail that the source ever fills in are the defaults of the two fields.
pub record PlacementRefusal : Type 0 where
  pub code : String
  pub privacy : ResolvedPrivacy
  pub rejections : List Rejection
  pub detail : String

pub data Outcome : Type 0 where
  placed : Placement → Outcome
  refused : PlacementRefusal → Outcome
