-- ===== src/Placement/Select.antt =====
-- placement.py, `select_placement` and `estimate`.
use compute_connect.Prelude.{
  ℤ, String, Bool, true, false, Option, none, some, List, [], ◌∷◌, map, sort,
}
use compute_connect.Engine.{name}
use compute_connect.Placement.Types.{
  Rejection, CandidateSet, WorkloadSpec, Clock, Pair, Considered, Rationale, PlacementRefusal,
  Outcome, placed, refused,
}
use compute_connect.Placement.Judge.{judge_all}
use compute_connect.Placement.Rank.{before, queue_seconds}

unfoldable pub consider : Pair → Considered
consider (s, m) = record {
  provider_id = s.spec.id;
  placement_class = s.spec.placement_class;
  estimated_tokens_per_second = s.spec.estimated_tokens_per_second;
  estimated_quality = s.spec.estimated_quality;
  estimated_queue_seconds = queue_seconds s;
}

-- the dict of a successful placement
unfoldable pub explain : CandidateSet → WorkloadSpec → List Rejection → List Pair → Pair → Rationale
explain candidates workload rejections ranked (snap, m) = record {
  provider_id = snap.spec.id;
  placement_class = snap.spec.placement_class;
  model = m.id;
  privacy = candidates.privacy;
  rejected = rejections;
  active_runs = snap.active_runs;
  estimated_queue_seconds = queue_seconds snap;
  estimated_tokens_per_second = snap.spec.estimated_tokens_per_second;
  estimated_quality = snap.spec.estimated_quality;
  latency_preference = workload.latency_preference;
  quality_preference = workload.quality_preference;
  considered = map consider ranked;
}

unfoldable pub refuse : CandidateSet → List Rejection → PlacementRefusal
refuse candidates rejections = record {
  code = "no_compliant_provider";
  privacy = candidates.privacy;
  rejections = rejections;
  detail = "no provider satisfies privacy, health, capability, and fit constraints";
}

-- what follows the loop: the refusal, or the first of the ranked pairs
unfoldable pub conclude : CandidateSet → WorkloadSpec → List Rejection → List Pair → Outcome
conclude candidates workload rejections [] = refused (refuse candidates rejections)
conclude candidates workload rejections (best ∷ others) = placed (record {
  provider = best.0;
  model = best.1;
  rationale = explain candidates workload rejections (best ∷ others) best;
})

unfoldable pub select_placement : CandidateSet → WorkloadSpec → Clock → Outcome
select_placement candidates workload clock =
    let tally =
      judge_all clock workload candidates.candidates
        (record { rejections = candidates.rejections; eligible = [] }) in
    conclude candidates workload tally.rejections (sort (before workload) tally.eligible)

pub data EstimateReason : Type 0 where
  refusal : PlacementRefusal → EstimateReason
  rationale : Rationale → EstimateReason

pub record Estimate : Type 0 where
  pub eligible : Bool
  pub selected_model : Option String
  pub runtime : Option String
  pub loaded : Bool
  pub estimated_queue_seconds : Option ℤ
  pub estimated_tokens_per_second : Option ℤ
  pub estimated_quality : Option ℤ
  pub reason : EstimateReason

unfoldable pub report : Outcome → Estimate
report (refused r) = record {
  eligible = false;
  selected_model = none;
  runtime = none;
  loaded = false;
  estimated_queue_seconds = none;
  estimated_tokens_per_second = none;
  estimated_quality = none;
  reason = refusal r;
}
report (placed p) = record {
  eligible = true;
  selected_model = some p.model.id;
  runtime = some (name p.provider.spec.engine);
  loaded = p.model.loaded;
  estimated_queue_seconds = some (queue_seconds p.provider);
  estimated_tokens_per_second = some p.provider.spec.estimated_tokens_per_second;
  estimated_quality = some p.provider.spec.estimated_quality;
  reason = rationale p.rationale;
}

unfoldable pub estimate : CandidateSet → WorkloadSpec → Clock → Estimate
estimate candidates workload clock = report (select_placement candidates workload clock)
