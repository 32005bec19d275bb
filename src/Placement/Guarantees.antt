-- ===== src/Placement/Guarantees.antt =====
-- placement.py: what a caller of `filter_candidates` and `select_placement` can rely on.

use compute_connect.Prelude.{◌≡◌, ◌↔◌, List, Memᴰ, true}
use compute_connect.Engine.{ModelInfo}
use compute_connect.Provider.{ProviderSnapshot}
use compute_connect.Privacy.{ResolvedPrivacy}
use compute_connect.Placement.Types.{WorkloadSpec, Clock, Placement, Outcome, placed}
use compute_connect.Placement.Judge.{model_key}
use compute_connect.Placement.Order.{model_leb}
use compute_connect.Placement.Rank.{before}
use compute_connect.Placement.Filter.{filter_candidates}
use compute_connect.Placement.Select.{select_placement}
use compute_connect.Placement.Candidates.{candidates_iff}
use compute_connect.Placement.Fit.{Fits}
use compute_connect.Placement.Eligible.{judge-eligible, judge-total}
use compute_connect.Placement.Choice.{select_placement-placed, select_placement-total}

-- What may serve a workload: a snapshot that the tier allows, with one of its models that fits.
pub record Serves (snaps : List ProviderSnapshot) (privacy : ResolvedPrivacy) (w : WorkloadSpec)
    (clock : Clock) (s : ProviderSnapshot) (m : ModelInfo) : Type 0 where
  pub known : Memᴰ s snaps
  pub allowed : s.spec.placement_class ≡ "cloud" → privacy.cloud_permitted ≡ true
  pub fits : Fits clock w s m

module _ (snaps : List ProviderSnapshot) (privacy : ResolvedPrivacy) (w : WorkloadSpec)
    (clock : Clock) where
  abbrev outcome : Outcome
  outcome = select_placement (filter_candidates snaps privacy) w clock

  -- A placement is on a snapshot that the privacy tier allows, and on a model of it that fits the
  -- workload in every respect.
  pub placed-Serves :
      {p : Placement}
      → select_placement (filter_candidates snaps privacy) w clock ≡ placed p
      → Serves snaps privacy w clock p.provider p.model
  placed-Serves {p} e =
      let (m, j, _) = select_placement-placed (filter_candidates snaps privacy) w clock e in
      let (k, a) = (candidates_iff privacy snaps p.provider).0 m in
      record { known = k; allowed = a; fits = (judge-eligible clock w p.provider j).0 }

  -- A workload is placed exactly when some allowed snapshot has a model that fits.
  pub placed_iff :
      ((p : Placement) × (select_placement (filter_candidates snaps privacy) w clock ≡ placed p))
      ↔ ((s : ProviderSnapshot) × (m : ModelInfo) × Serves snaps privacy w clock s m)
  placed_iff = (
    λ (p, e). (p.provider, p.model, placed-Serves e),
    λ (s, m, h).
        select_placement-total (filter_candidates snaps privacy) w clock
          ((candidates_iff privacy snaps s).1 (h.known, h.allowed)) h.fits,
  )

  -- No allowed pair that fits is better than the placement: on each snapshot that could serve the
  -- workload there is a preferred model, with which it ranks no earlier than the placed pair.
  pub placed-least :
      {p : Placement} {s : ProviderSnapshot} {m : ModelInfo}
      → select_placement (filter_candidates snaps privacy) w clock ≡ placed p
      → Serves snaps privacy w clock s m
      → (n : ModelInfo) × Serves snaps privacy w clock s n
        × (model_leb (model_key n) (model_key m) ≡ true)
        × (before w (p.provider, p.model) (s, n) ≡ true)
  placed-least {p} {s} {m} e h =
      let (n, j) = judge-total clock w s h.fits in
      let (f, best) = judge-eligible clock w s j in
      let (_, _, least) = select_placement-placed (filter_candidates snaps privacy) w clock e in
      (
        n,
        record { known = h.known; allowed = h.allowed; fits = f },
        best m h.fits,
        least s n ((candidates_iff privacy snaps s).1 (h.known, h.allowed)) j,
      )
