-- ===== src/Placement/Choice.antt =====
-- placement.py, `select_placement`: which pair is placed, and when a placement is refused.
use mathlib.Core.List.Memᴰ
use compute_connect.Prelude.{
  ◌≡◌, refl, sym, ap, ◌⊎◌, ◌↔◌, inl, inr, List, [], ◌∷◌, Memᴰ, true, sort, mem-sort, of_mem-sort,
  sort-HeadIsLeast, HeadIsLeast,
}
use compute_connect.Engine.{ModelInfo}
use compute_connect.Provider.{ProviderSnapshot}
use compute_connect.Placement.Types.{
  WorkloadSpec, Clock, Pair, CandidateSet, Rejection, Placement, PlacementRefusal, Outcome, placed,
  refused,
}
use compute_connect.Placement.Order.{rank_leb-IsTotal}
use compute_connect.Placement.Judge.{eligible, judge, Tally, judge_all}
use compute_connect.Placement.Rank.{before, rank}
use compute_connect.Placement.Select.{conclude, select_placement}
use compute_connect.Placement.Fit.{Fits}
use compute_connect.Placement.Eligible.{judge-total}
use compute_connect.Placement.Eligibles.{mem-judge_all}

abbrev chosen : Placement → Pair
chosen p = (p.provider, p.model)

abbrev chosen_or : Pair → Outcome → Pair
chosen_or d (placed p) = chosen p
chosen_or d (refused r) = d

module _ (c : CandidateSet) (w : WorkloadSpec) (clock : Clock) where
  abbrev tally : Tally
  tally = judge_all clock w c.candidates (record { rejections = c.rejections; eligible = [] })

  -- the pairs to choose from
  mem-tally :
      {p : Pair}
      → Memᴰ p tally.eligible ↔ (Memᴰ p.0 c.candidates × (judge clock w p.0 ≡ eligible p.1))
  mem-tally =
      let all =
        mem-judge_all clock w c.candidates (record { rejections = c.rejections; eligible = [] }) in
      (λ m. elim (all.0 m) [ inl k ↦ absurd (Memᴰ.not-nil k) | inr h ↦ h ], λ h. all.1 (inr h))

  conclude-placed :
      {p : Placement} (rs : List Rejection) (ps : List Pair)
      → conclude c w rs ps ≡ placed p
      → HeadIsLeast (before w) ps
      → Memᴰ (chosen p) ps × ((q : Pair) → Memᴰ q ps → before w (chosen p) q ≡ true)
  unfolding conclude
  conclude-placed rs [] e h = cc
  conclude-placed {p} rs (best ∷ others) e h =
      let q : chosen p ≡ best = sym (ap (chosen_or best) e) in (Memᴰ.head q, λ r m. rw q (h r m))

  conclude-refused :
      {r : PlacementRefusal} (rs : List Rejection) (ps : List Pair)
      → conclude c w rs ps ≡ refused r
      → ps ≡ []
  unfolding conclude
  conclude-refused rs [] e = refl
  conclude-refused rs (best ∷ others) e = cc

  conclude-total :
      (rs : List Rejection) (ps : List Pair)
      → ((p : Placement) × (conclude c w rs ps ≡ placed p))
        ⊎ ((r : PlacementRefusal) × (conclude c w rs ps ≡ refused r))
  unfolding conclude
  conclude-total rs [] = inr (_, refl)
  conclude-total rs (best ∷ others) = inl (_, refl)

  -- What is placed is a candidate with the model for which it is eligible, and ranks no later than
  -- any other eligible candidate.
  pub select_placement-placed :
      {p : Placement}
      → select_placement c w clock ≡ placed p
      → Memᴰ p.provider c.candidates
        × (judge clock w p.provider ≡ eligible p.model)
        × ((s : ProviderSnapshot) (m : ModelInfo)
            → Memᴰ s c.candidates
            → judge clock w s ≡ eligible m
            → before w (p.provider, p.model) (s, m) ≡ true)
  unfolding select_placement
  select_placement-placed e =
      let sorted = sort-HeadIsLeast (before w) (rank_leb-IsTotal (rank w)) tally.eligible in
      let (m, least) = conclude-placed tally.rejections (sort (before w) tally.eligible) e sorted in
      let (k, j) = mem-tally.0 (of_mem-sort (before w) tally.eligible m) in
      (k, j, λ s n i h. least (s, n) (mem-sort (before w) tally.eligible (mem-tally.1 (i, h))))

  pub select_placement-total :
      {s : ProviderSnapshot} {m : ModelInfo}
      → Memᴰ s c.candidates
      → Fits clock w s m
      → (p : Placement) × (select_placement c w clock ≡ placed p)
  unfolding select_placement
  select_placement-total {s} {m} i f =
      let (n, h) = judge-total clock w s f in
      let k = mem-sort (before w) tally.eligible (mem-tally.1 (i, h)) in
      elim (conclude-total tally.rejections (sort (before w) tally.eligible)) [
        | inl found ↦ found
        | inr (r, e) ↦ absurd (Memᴰ.not-nil (rw (conclude-refused _ _ e) at k))
      ]
