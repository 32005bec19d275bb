-- ===== src/Placement/Rank.antt =====
-- placement.py, `_queue_seconds` and `_rank`: how eligible pairs are ordered.
use compute_connect.Prelude.{
  ℤ, pos, ◌+ℤ◌, ◌-ℤ◌, ◌*ℤ◌, neg, leb_ℤ, String, Bool, true, false, not, List, [], ◌∷◌, str_eq,
  if◌then◌else◌, lower_in,
}
use compute_connect.Json.{PyText, text, rendered}
use compute_connect.Provider.{ProviderSnapshot}
use compute_connect.Placement.Types.{WorkloadSpec, Pair}
use compute_connect.Placement.Order.{RankKey, rank_leb}

-- `_QUEUE_SECONDS_PER_BACKLOGGED_RUN`, 30 seconds
abbrev pub queue_seconds_per_backlogged_run : ℤ
queue_seconds_per_backlogged_run = pos 300000

abbrev pub low_latency : List String
low_latency = "low" ∷ "low_latency" ∷ "lowest" ∷ "fast" ∷ "fastest" ∷ "interactive" ∷ "latency" ∷ []

abbrev pub high_quality : List String
high_quality = "high" ∷ "highest" ∷ "best" ∷ "max" ∷ "quality" ∷ []

unfoldable pub queue_seconds : ProviderSnapshot → ℤ
queue_seconds snap =
    let backlog = pos snap.active_runs -ℤ snap.spec.max_concurrency +ℤ pos 1 in
    if leb_ℤ backlog (pos 0) then pos 0 else backlog *ℤ queue_seconds_per_backlogged_run

-- `str(preference or "").lower() in words`
unfoldable pub asks_for : PyText → List String → Bool
asks_for (text s) words = lower_in s words
asks_for (rendered v) words = false

unfoldable pub bit : Bool → ℤ
bit true = pos 1
bit false = pos 0

unfoldable pub want_fast : WorkloadSpec → Bool
want_fast workload = asks_for workload.latency_preference low_latency

unfoldable pub want_quality : WorkloadSpec → Bool
want_quality workload = asks_for workload.quality_preference high_quality

unfoldable pub preference : WorkloadSpec → Pair → ℤ × ℤ
preference workload (snap, m) =
    if want_quality workload
    then (neg snap.spec.estimated_quality, neg snap.spec.estimated_tokens_per_second)
    else if want_fast workload
    then (neg snap.spec.estimated_tokens_per_second, queue_seconds snap)
    else (bit (not m.loaded), queue_seconds snap)

unfoldable pub rank : WorkloadSpec → Pair → RankKey
rank workload (snap, m) = record {
  local_first = not (str_eq snap.spec.placement_class "local");
  first_preference = (preference workload (snap, m)).0;
  second_preference = (preference workload (snap, m)).1;
  not_loaded = not m.loaded;
  queue = queue_seconds snap;
  id = snap.spec.id;
}

abbrev pub before : WorkloadSpec → Pair → Pair → Bool
before workload a b = rank_leb (rank workload a) (rank workload b)
