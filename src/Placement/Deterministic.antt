-- ===== src/Placement/Deterministic.antt =====
-- placement.py, `select_placement`: the choice does not depend on the order of registration.

use compute_connect.Prelude.{◌≡◌, sym, ◌∙◌, ap, List, Memᴰ, SameMembers}
use compute_connect.Engine.{ModelInfo}
use compute_connect.Provider.{ProviderSnapshot}
use compute_connect.Privacy.{ResolvedPrivacy}
use compute_connect.Placement.Types.{WorkloadSpec, Clock, Placement, placed}
use compute_connect.Placement.Order.{rank_leb_antisymm}
use compute_connect.Placement.Judge.{eligible, judge}
use compute_connect.Placement.Rank.{rank}
use compute_connect.Placement.Filter.{filter_candidates}
use compute_connect.Placement.Select.{select_placement}
use compute_connect.Placement.Candidates.{candidates_iff}
use compute_connect.Placement.Guarantees.{Serves, placed-Serves, placed_iff}
use compute_connect.Placement.Choice.{select_placement-placed}

-- No two providers share an identifier.
pub record HasDistinctIds (snaps : List ProviderSnapshot) : Type 0 where
  pub unique :
      (s t : ProviderSnapshot) → Memᴰ s snaps → Memᴰ t snaps → s.spec.id ≡ t.spec.id → s ≡ t

eligible_injective : (m n : ModelInfo) → eligible m ≡ eligible n → m ≡ n
eligible_injective m n e = cc

module _ (privacy : ResolvedPrivacy) (w : WorkloadSpec) (clock : Clock)
    {xs ys : List ProviderSnapshot} (same : SameMembers xs ys) {p q : Placement}
    (ex : select_placement (filter_candidates xs privacy) w clock ≡ placed p)
    (ey : select_placement (filter_candidates ys privacy) w clock ≡ placed q) where
  carry :
      {us vs : List ProviderSnapshot} {s : ProviderSnapshot}
      → ((t : ProviderSnapshot) → Memᴰ t us → Memᴰ t vs)
      → Memᴰ s (filter_candidates us privacy).candidates
      → Memᴰ s (filter_candidates vs privacy).candidates
  carry {us} {vs} {s} f m =
      let (k, a) = (candidates_iff privacy us s).0 m in (candidates_iff privacy vs s).1 (f s k, a)

  same_id : p.provider.spec.id ≡ q.provider.spec.id
  unfolding rank
  same_id =
      let (mp, jp, least_p) = select_placement-placed (filter_candidates xs privacy) w clock ex in
      let (mq, jq, least_q) = select_placement-placed (filter_candidates ys privacy) w clock ey in
      rank_leb_antisymm (rank w (p.provider, p.model)) (rank w (q.provider, q.model))
        (least_p q.provider q.model (carry same.back mq) jq)
        (least_q p.provider p.model (carry same.forth mp) jp)

  same_choice : HasDistinctIds xs → (p.provider ≡ q.provider) × (p.model ≡ q.model)
  same_choice d =
      let (mp, jp, _) = select_placement-placed (filter_candidates xs privacy) w clock ex in
      let (mq, jq, _) = select_placement-placed (filter_candidates ys privacy) w clock ey in
      let kp = ((candidates_iff privacy xs p.provider).0 mp).0 in
      let kq = same.back q.provider ((candidates_iff privacy ys q.provider).0 mq).0 in
      let e = d.unique p.provider q.provider kp kq same_id in
      (e, eligible_injective p.model q.model (sym jp ∙ ap (judge clock w) e ∙ jq))

-- The same snapshots in another order are placed too, on the same provider and the same model, if no
-- two of them share an identifier.
pub select_placement_comm :
    (privacy : ResolvedPrivacy) (w : WorkloadSpec) (clock : Clock) {xs ys : List ProviderSnapshot}
    {p : Placement}
    → HasDistinctIds xs
    → SameMembers xs ys
    → select_placement (filter_candidates xs privacy) w clock ≡ placed p
    → (q : Placement) × (select_placement (filter_candidates ys privacy) w clock ≡ placed q)
      × (p.provider ≡ q.provider)
      × (p.model ≡ q.model)
select_placement_comm privacy w clock {xs} {ys} {p} d same ex =
    let h = placed-Serves xs privacy w clock ex in
    let there : Serves ys privacy w clock p.provider p.model = record {
      known = same.forth p.provider h.known;
      allowed = h.allowed;
      fits = h.fits;
    } in
    let (q, ey) = (placed_iff ys privacy w clock).1 (p.provider, p.model, there) in
    let (e, f) = same_choice privacy w clock same ex ey d in (q, ey, e, f)
