-- ===== src/Placement/Candidates.antt =====
-- placement.py, `filter_candidates`: what is kept and what is rejected.
use mathlib.Core.List.{append_assoc, append-nil}
use compute_connect.Prelude.{
  Bool, true, not, ◌≡◌, refl, ◌∙◌, ap, ◌↔◌, List, [], ◌∷◌, ◌++◌, map, str_eq, eq_iff, Bool-cases,
  select, Memᴰ, mem-select_of, of_mem-select, length, arith, ◌+◌, suc, inl, inr,
}
use compute_connect.Provider.{ProviderSnapshot}
use compute_connect.Privacy.{ResolvedPrivacy}
use compute_connect.Placement.Types.{CandidateSet, Rejection}
use compute_connect.Placement.Filter.{is_forbidden, cloud_rejection, filter_loop, filter_candidates}

module _ (privacy : ResolvedPrivacy) where
  abbrev pub is_allowed : ProviderSnapshot → Bool
  is_allowed snap = not (is_forbidden privacy snap)

  -- the two lists that the loop adds, as comprehensions
  abbrev filtered : List ProviderSnapshot → List ProviderSnapshot → List Rejection → CandidateSet
  filtered snaps kept rejected = record {
    privacy = privacy;
    candidates = kept ++ select is_allowed snaps;
    rejections = rejected ++ map (cloud_rejection privacy) (select (is_forbidden privacy) snaps);
  }

  filter_loop-filtered :
      (snaps kept : List ProviderSnapshot) (rejected : List Rejection)
      → filter_loop privacy snaps kept rejected ≡ filtered snaps kept rejected
  unfolding filter_loop
  filter_loop-filtered [] kept rejected = simp (append-nil)
  filter_loop-filtered (s ∷ ss) kept rejected = elim (Bool-cases (is_forbidden privacy s)) [
    | inl e ↦
        rw (e, filter_loop)
          (filter_loop-filtered ss kept (rejected ++ cloud_rejection privacy s ∷ [])
            ∙ simp append_assoc)
    | inr e ↦
        rw (e, filter_loop) (filter_loop-filtered ss (kept ++ s ∷ []) rejected ∙ simp append_assoc)
  ]

  pub candidates-filter_candidates :
      (snaps : List ProviderSnapshot)
      → (filter_candidates snaps privacy).candidates ≡ select is_allowed snaps
  unfolding filter_candidates
  candidates-filter_candidates snaps = ap (λ c. c.candidates) (filter_loop-filtered snaps [] [])

  pub rejections-filter_candidates :
      (snaps : List ProviderSnapshot)
      → (filter_candidates snaps privacy).rejections
        ≡ map (cloud_rejection privacy) (select (is_forbidden privacy) snaps)
  unfolding filter_candidates
  rejections-filter_candidates snaps = ap (λ c. c.rejections) (filter_loop-filtered snaps [] [])

  pub privacy-filter_candidates :
      (snaps : List ProviderSnapshot) → (filter_candidates snaps privacy).privacy ≡ privacy
  unfolding filter_candidates
  privacy-filter_candidates snaps = ap (λ c. c.privacy) (filter_loop-filtered snaps [] [])

  is_allowed_iff :
      (s : ProviderSnapshot)
      → (is_allowed s ≡ true) ↔ (s.spec.placement_class ≡ "cloud" → privacy.cloud_permitted ≡ true)
  unfolding is_forbidden
  is_allowed_iff s = elim (Bool-cases (str_eq s.spec.placement_class "cloud")) [
    | inl e ↦ rw e (λ h _. ground arith, λ h. rw (h ((eq_iff s.spec.placement_class "cloud").0 e)))
    | inr e ↦ rw e (λ _ c. cc (e, (eq_iff s.spec.placement_class "cloud").1 c), λ _. refl)
  ]

  -- A provider is a candidate exactly when it is one of the snapshots and, if it is a cloud
  -- provider, cloud is permitted.
  pub candidates_iff :
      (snaps : List ProviderSnapshot) (s : ProviderSnapshot)
      → Memᴰ s (filter_candidates snaps privacy).candidates
        ↔ (Memᴰ s snaps × (s.spec.placement_class ≡ "cloud" → privacy.cloud_permitted ≡ true))
  candidates_iff snaps s = (
    λ m.
        let n = of_mem-select is_allowed snaps (rw (candidates-filter_candidates snaps) at m) in
        (n.0, (is_allowed_iff s).0 n.1),
    λ h.
        rw (candidates-filter_candidates snaps)
          (mem-select_of is_allowed snaps h.0 ((is_allowed_iff s).1 h.1)),
  )

  length-select :
      (snaps : List ProviderSnapshot)
      → length (select is_allowed snaps) + length (select (is_forbidden privacy) snaps)
        ≡ length snaps
  length-select [] = omega arith
  length-select (s ∷ ss) = ground (arith, length-select ss)

  length-map : (ss : List ProviderSnapshot) → length (map (cloud_rejection privacy) ss) ≡ length ss
  length-map [] = refl
  length-map (s ∷ ss) = ap suc (length-map ss)

  -- Every snapshot is either a candidate or has a rejection of its own.
  pub length-filter_candidates :
      (snaps : List ProviderSnapshot)
      → length (filter_candidates snaps privacy).candidates
          + length (filter_candidates snaps privacy).rejections
        ≡ length snaps
  length-filter_candidates snaps =
      rw (candidates-filter_candidates snaps, rejections-filter_candidates snaps, length-map)
        (length-select snaps)
