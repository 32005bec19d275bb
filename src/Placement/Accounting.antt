-- ===== src/Placement/Accounting.antt =====
-- placement.py: no provider disappears between the stages.
use mathlib.Core.List.{append_assoc, append-nil, map-append, Permᴰ}
use mathlib.Core.List.Permᴰ
use compute_connect.Prelude.{
  String, Bool, ◌≡◌, refl, sym, ap, List, [], ◌∷◌, ◌++◌, map, sort, select, inl, inr, Bool-cases,
  subst,
}
use compute_connect.Prelude.Sort.{insert_sorted}
use compute_connect.Provider.{ProviderSnapshot}
use compute_connect.Privacy.{ResolvedPrivacy}
use compute_connect.Placement.Types.{
  WorkloadSpec, Clock, Pair, CandidateSet, Rejection, Considered, Outcome, placed, refused,
}
use compute_connect.Placement.Judge.{Tally, judge_all, note, judge, Verdict, rejected, eligible}
use compute_connect.Placement.Rank.{before}
use compute_connect.Placement.Filter.{filter_candidates, is_forbidden, cloud_rejection}
use compute_connect.Placement.Select.{conclude, explain, consider, refuse, select_placement}
use compute_connect.Placement.Candidates.{
  is_allowed, candidates-filter_candidates, rejections-filter_candidates,
}

abbrev pub snapshot_ids : List ProviderSnapshot → List String
snapshot_ids = map (λ (s : ProviderSnapshot). s.spec.id)

abbrev pub rejected_ids : List Rejection → List String
rejected_ids = map (λ (r : Rejection). r.provider_id)

abbrev pub considered_ids : List Considered → List String
considered_ids = map (λ (c : Considered). c.provider_id)

-- the providers that an answer reports, by their ids: as rejected, or as considered
abbrev pub reported : Outcome → List String
reported (placed p) = rejected_ids p.rationale.rejected ++ considered_ids p.rationale.considered
reported (refused r) = rejected_ids r.rejections

abbrev pair_ids : List Pair → List String
pair_ids = map (λ (p : Pair). p.0.spec.id)

considered_ids-consider : (ps : List Pair) → considered_ids (map consider ps) ≡ pair_ids ps
unfolding consider
considered_ids-consider [] = refl
considered_ids-consider ((s, m) ∷ ps) = ap (λ ids. s.spec.id ∷ ids) (considered_ids-consider ps)

reported-conclude :
    (c : CandidateSet) (w : WorkloadSpec) (rs : List Rejection) (ps : List Pair)
    → reported (conclude c w rs ps) ≡ rejected_ids rs ++ pair_ids ps
unfolding conclude explain refuse
reported-conclude c w rs [] = sym (append-nil (rejected_ids rs))
reported-conclude c w rs (p ∷ ps) =
    ap (λ ids. rejected_ids rs ++ ids) (considered_ids-consider (p ∷ ps))

insert_sorted-Perm :
    {A : Type 0} (le : A → A → Bool) (x : A) (ys : List A) → Permᴰ (insert_sorted le x ys) (x ∷ ys)
unfolding insert_sorted
insert_sorted-Perm le x [] = Permᴰ.refl (x ∷ [])
insert_sorted-Perm le x (y ∷ ys) = elim (Bool-cases (le x y)) [
  | inl e ↦ rw e (Permᴰ.refl (x ∷ y ∷ ys))
  | inr e ↦ rw e (Permᴰ.trans (Permᴰ.cons refl (insert_sorted-Perm le x ys)) (Permᴰ.swap refl refl))
]

sort-Perm : {A : Type 0} (le : A → A → Bool) (xs : List A) → Permᴰ (sort le xs) xs
unfolding sort
sort-Perm le [] = Permᴰ.nil
sort-Perm le (x ∷ xs) =
    Permᴰ.trans (insert_sorted-Perm le x (sort le xs)) (Permᴰ.cons refl (sort-Perm le xs))

-- the id of one more provider behind those of two lists
add_first : (x : String) (as_ bs : List String) → Permᴰ ((as_ ++ x ∷ []) ++ bs) (x ∷ (as_ ++ bs))
add_first x as_ bs = rw (append_assoc as_ (x ∷ []) bs) (Permᴰ.middle x as_ bs)

add_last : (x : String) (as_ bs : List String) → Permᴰ (as_ ++ (bs ++ x ∷ [])) (x ∷ (as_ ++ bs))
add_last x as_ bs =
    Permᴰ.trans (Permᴰ.append_left as_ (Permᴰ.append_comm bs (x ∷ []))) (Permᴰ.middle x as_ bs)

abbrev tally_ids : Tally → List String
tally_ids t = rejected_ids t.rejections ++ pair_ids t.eligible

note-Perm :
    (s : ProviderSnapshot) (v : Verdict) (t : Tally)
    → Permᴰ (tally_ids (note s v t)) (s.spec.id ∷ tally_ids t)
unfolding note
note-Perm s (rejected _ _) t =
    rw (map-append (λ (r : Rejection). r.provider_id) t.rejections _)
      (add_first s.spec.id (rejected_ids t.rejections) (pair_ids t.eligible))
note-Perm s (eligible m) t =
    rw (map-append (λ (p : Pair). p.0.spec.id) t.eligible _)
      (add_last s.spec.id (rejected_ids t.rejections) (pair_ids t.eligible))

judge_all-Perm :
    (clock : Clock) (w : WorkloadSpec) (ss : List ProviderSnapshot) (t : Tally)
    → Permᴰ (tally_ids (judge_all clock w ss t)) (snapshot_ids ss ++ tally_ids t)
unfolding judge_all
judge_all-Perm clock w [] t = Permᴰ.refl (tally_ids t)
judge_all-Perm clock w (s ∷ ss) t =
    Permᴰ.trans (judge_all-Perm clock w ss (note s (judge clock w s) t)) (
      Permᴰ.trans (Permᴰ.append_left (snapshot_ids ss) (note-Perm s (judge clock w s) t))
        (Permᴰ.middle s.spec.id (snapshot_ids ss) (tally_ids t)))

partition-Perm :
    (privacy : ResolvedPrivacy) (ss : List ProviderSnapshot)
    → Permᴰ
        (snapshot_ids (select (is_allowed privacy) ss)
          ++ rejected_ids (map (cloud_rejection privacy) (select (is_forbidden privacy) ss)))
        (snapshot_ids ss)
unfolding cloud_rejection
partition-Perm privacy [] = Permᴰ.nil
partition-Perm privacy (s ∷ ss) = elim (Bool-cases (is_forbidden privacy s)) [
  | inl e ↦ rw e (
      Permᴰ.trans (Permᴰ.middle s.spec.id (snapshot_ids (select (is_allowed privacy) ss)) _)
        (Permᴰ.cons refl (partition-Perm privacy ss)))
  | inr e ↦ rw e (Permᴰ.cons refl (partition-Perm privacy ss))
]

-- Every answer accounts for each provider once: the ids of the rejections and of the considered
-- providers are, up to order and with their multiplicity, the ids of the snapshots.
pub reported-select_placement :
    (snaps : List ProviderSnapshot) (privacy : ResolvedPrivacy) (w : WorkloadSpec) (clock : Clock)
    → Permᴰ
        (reported (select_placement (filter_candidates snaps privacy) w clock))
        (snapshot_ids snaps)
unfolding select_placement
reported-select_placement snaps privacy w clock =
    let c = filter_candidates snaps privacy in
    let tally =
      judge_all clock w c.candidates (record { rejections = c.rejections; eligible = [] }) in
    let ranked = Permᴰ.map (λ (p : Pair). p.0.spec.id) (sort-Perm (before w) tally.eligible) in
    let judged =
      judge_all-Perm clock w c.candidates (record { rejections = c.rejections; eligible = [] }) in
    let kept : Permᴰ (snapshot_ids c.candidates ++ (rejected_ids c.rejections ++ []))
        (snapshot_ids snaps) =
      rw
        (
          append-nil (rejected_ids c.rejections),
          candidates-filter_candidates privacy snaps,
          rejections-filter_candidates privacy snaps,
        )
        (partition-Perm privacy snaps) in
    subst (λ ids. Permᴰ ids (snapshot_ids snaps))
      (sym (reported-conclude c w tally.rejections (sort (before w) tally.eligible)))
      (Permᴰ.trans (Permᴰ.append_left (rejected_ids tally.rejections) ranked)
        (Permᴰ.trans judged kept))
