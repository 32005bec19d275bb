-- ===== src/Placement/Filter.antt =====
-- placement.py, stage 1: every provider that the privacy tier forbids is removed.
use compute_connect.Prelude.{String, Bool, true, false, not, ◌&&◌, List, [], ◌∷◌, ◌++◌, str_eq, any}
use compute_connect.Provider.{ProviderSnapshot}
use compute_connect.Privacy.{ResolvedPrivacy}
use compute_connect.Placement.Types.{Stage, cloud_not_permitted, Rejection, CandidateSet}

-- `CandidateSet.contains`
unfoldable pub contains : CandidateSet → String → Bool
contains set provider_id = any (λ s. str_eq s.spec.id provider_id) set.candidates

-- the test of `filter_candidates`
unfoldable pub is_forbidden : ResolvedPrivacy → ProviderSnapshot → Bool
is_forbidden privacy snap = str_eq snap.spec.placement_class "cloud" && not privacy.cloud_permitted

unfoldable pub cloud_rejection : ResolvedPrivacy → ProviderSnapshot → Rejection
cloud_rejection privacy snap = record {
  provider_id = snap.spec.id;
  stage = Stage.privacy;
  reason = cloud_not_permitted privacy.effective privacy.assumed;
}

-- the loop over the snapshots, with its two lists
unfoldable pub filter_loop :
    ResolvedPrivacy → List ProviderSnapshot → List ProviderSnapshot → List Rejection → CandidateSet
filter_loop privacy [] kept rejected = record {
  privacy = privacy;
  candidates = kept;
  rejections = rejected;
}
filter_loop privacy (snap ∷ rest) kept rejected = elim (is_forbidden privacy snap) [
  | true ↦ filter_loop privacy rest kept (rejected ++ cloud_rejection privacy snap ∷ [])
  | false ↦ filter_loop privacy rest (kept ++ snap ∷ []) rejected
]

unfoldable pub filter_candidates : List ProviderSnapshot → ResolvedPrivacy → CandidateSet
filter_candidates snapshots privacy = filter_loop privacy snapshots [] []
