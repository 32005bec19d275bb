-- ===== src/Placement/Preference.antt =====
-- placement.py, `_rank`: what the order of eligible pairs means for the provider that is placed.
use compute_connect.Prelude.{
  ◌≡◌, ap, Bool, true, false, not, ℤ, neg, neg_parts, ◌≤ℤ◌, arith, str_eq, eq_iff, List,
}
use compute_connect.Engine.{ModelInfo}
use compute_connect.Provider.{ProviderSnapshot}
use compute_connect.Privacy.{ResolvedPrivacy}
use compute_connect.Placement.Types.{WorkloadSpec, Clock, Pair, Placement, placed}
use compute_connect.Placement.Order.{local_first_of_rank_leb, first_preference_of_rank_leb}
use compute_connect.Placement.Rank.{before, rank, preference, want_quality, want_fast}
use compute_connect.Placement.Filter.{filter_candidates}
use compute_connect.Placement.Select.{select_placement}
use compute_connect.Placement.Guarantees.{Serves, placed-least}

neg_anti : (a b : ℤ) → neg a ≤ℤ neg b → b ≤ℤ a
neg_anti a b h = omega (arith, neg_parts a, neg_parts b)

preference_quality :
    (w : WorkloadSpec) (a : Pair)
    → want_quality w ≡ true
    → (preference w a).0 ≡ neg a.0.spec.estimated_quality
unfolding preference
preference_quality w a q = rw q

preference_speed :
    (w : WorkloadSpec) (a : Pair)
    → want_quality w ≡ false
    → want_fast w ≡ true
    → (preference w a).0 ≡ neg a.0.spec.estimated_tokens_per_second
unfolding preference
preference_speed w a q f = rw (q, f)

module _ (w : WorkloadSpec) (a b : Pair) (h : before w a b ≡ true) where
  local_of_before : b.0.spec.placement_class ≡ "local" → a.0.spec.placement_class ≡ "local"
  unfolding rank
  local_of_before e =
      let n =
        local_first_of_rank_leb (rank w a) (rank w b) h
          (ap not ((eq_iff b.0.spec.placement_class "local").1 e)) in
      (eq_iff a.0.spec.placement_class "local").0 (not_false n)
    where
      not_false : {x : Bool} → not x ≡ false → x ≡ true
      not_false {x} e = ground arith

  module _ (same : a.0.spec.placement_class ≡ b.0.spec.placement_class) where
    first_preference_of_before : (preference w a).0 ≤ℤ (preference w b).0
    unfolding rank
    first_preference_of_before =
        first_preference_of_rank_leb (rank w a) (rank w b) h (ap (λ c. not (str_eq c "local")) same)

    quality_of_before :
        want_quality w ≡ true → b.0.spec.estimated_quality ≤ℤ a.0.spec.estimated_quality
    quality_of_before q =
        neg_anti a.0.spec.estimated_quality b.0.spec.estimated_quality
          (rw (preference_quality w a q, preference_quality w b q) at first_preference_of_before)

    speed_of_before :
        want_quality w ≡ false
        → want_fast w ≡ true
        → b.0.spec.estimated_tokens_per_second ≤ℤ a.0.spec.estimated_tokens_per_second
    speed_of_before q f =
        neg_anti a.0.spec.estimated_tokens_per_second b.0.spec.estimated_tokens_per_second
          (rw (preference_speed w a q f, preference_speed w b q f) at first_preference_of_before)

module _ {snaps : List ProviderSnapshot} {privacy : ResolvedPrivacy} {w : WorkloadSpec}
    {clock : Clock} {p : Placement} {s : ProviderSnapshot} {m : ModelInfo}
    (e : select_placement (filter_candidates snaps privacy) w clock ≡ placed p)
    (h : Serves snaps privacy w clock s m) where
  -- Where an allowed local provider could serve the workload, a local provider is placed.
  pub local_first : s.spec.placement_class ≡ "local" → p.provider.spec.placement_class ≡ "local"
  local_first c =
      let (n, _, _, b) = placed-least snaps privacy w clock e h in
      local_of_before w (p.provider, p.model) (s, n) b c

  -- Where the workload asks for quality, no provider of the same class that could serve it has a
  -- higher estimated quality than the one placed.
  pub highest_quality :
      p.provider.spec.placement_class ≡ s.spec.placement_class
      → want_quality w ≡ true
      → s.spec.estimated_quality ≤ℤ p.provider.spec.estimated_quality
  highest_quality c q =
      let (n, _, _, b) = placed-least snaps privacy w clock e h in
      quality_of_before w (p.provider, p.model) (s, n) b c q

  -- Where the workload asks for low latency and not for quality, no provider of the same class that
  -- could serve it has a higher estimated speed than the one placed.
  pub highest_speed :
      p.provider.spec.placement_class ≡ s.spec.placement_class
      → want_quality w ≡ false
      → want_fast w ≡ true
      → s.spec.estimated_tokens_per_second ≤ℤ p.provider.spec.estimated_tokens_per_second
  highest_speed c q f =
      let (n, _, _, b) = placed-least snaps privacy w clock e h in
      speed_of_before w (p.provider, p.model) (s, n) b c q f
