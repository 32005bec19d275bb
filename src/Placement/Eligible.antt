-- ===== src/Placement/Eligible.antt =====
-- placement.py, the loop of `select_placement`: a provider is eligible exactly when it fits, and then
-- with the preferred one of the models that fit.
use compute_connect.Prelude.{
  Bool, true, false, ◌&&◌, ◌≡◌, refl, sym, ◌∙◌, ◌↔◌, List, [], ◌∷◌, Memᴰ, arith, sort-HeadIsLeast,
  HeadIsLeast,
}
use compute_connect.Json.{truthy}
use compute_connect.Engine.{ModelInfo}
use compute_connect.Provider.{ProviderSnapshot}
use compute_connect.Placement.Types.{WorkloadSpec, Clock}
use compute_connect.Placement.Order.{model_leb, model_leb-IsTotal}
use compute_connect.Placement.Judge.{
  eligible, is_stale, missing, requested_models, model_key, fitting, is_empty, judge_fit, pick,
  judge,
}
use compute_connect.Placement.Fit.{
  Fits, is_stale_iff, is_empty_iff, missing_iff, requested_iff, has_room_iff, fitting_iff,
}

not_empty :
    {m : ModelInfo} (w : WorkloadSpec) (ms : List ModelInfo)
    → Memᴰ m ms
    → (truthy w.model && is_empty ms) ≡ false
unfolding is_empty
not_empty w [] k = elim k [ ]
not_empty w (n ∷ ns) k = and_false (truthy w.model)
  where
    and_false : (b : Bool) → (b && false) ≡ false
    and_false b = ground arith

module _ (clock : Clock) (w : WorkloadSpec) (s : ProviderSnapshot) where
  -- the tests of the loop's body, passed
  record Passes : Type 0 where
    fresh : is_stale clock s ≡ false
    healthy : s.healthy ≡ true
    capable : is_empty (missing w s) ≡ true
    served : (truthy w.model && is_empty (requested_models w s)) ≡ false

  judge_of_passes : Passes → judge clock w s ≡ judge_fit w s
  unfolding judge
  judge_of_passes p = simp (p.fresh, p.healthy, p.capable, p.served)

  passes_of_eligible : {m : ModelInfo} → judge clock w s ≡ eligible m → Passes
  unfolding judge
  passes_of_eligible h = ground arith

  passes_of_fits : {m : ModelInfo} → Fits clock w s m → Passes
  passes_of_fits {m} f = record {
    fresh = (is_stale_iff clock s).1 f.fresh;
    healthy = f.healthy;
    capable = (is_empty_iff (missing w s)).1 ((missing_iff w s).1 f.capable);
    served = not_empty w (requested_models w s) ((requested_iff w s m).1 (f.served, f.named));
  }

  preferred : ModelInfo → ModelInfo → Bool
  preferred a b = model_leb (model_key a) (model_key b)

  pick-least :
      {m : ModelInfo} (ms : List ModelInfo)
      → pick w s ms ≡ eligible m
      → HeadIsLeast preferred ms
      → Memᴰ m ms × ((n : ModelInfo) → Memᴰ n ms → preferred m n ≡ true)
  unfolding pick
  pick-least [] e h = cc
  pick-least {m} (n ∷ ns) e h = let p : m ≡ n = cc in (Memᴰ.head p, λ k i. rw p (h k i))

  pick-total :
      {m : ModelInfo} (ms : List ModelInfo)
      → Memᴰ m ms
      → (n : ModelInfo) × (pick w s ms ≡ eligible n)
  unfolding pick
  pick-total [] i = elim i [ ]
  pick-total (n ∷ ns) i = (n, refl)

  judge_fit-Fits_iff : (m : ModelInfo) → Fits clock w s m ↔ (Passes × Memᴰ m (fitting w s))
  judge_fit-Fits_iff m = (
    λ f. (
      passes_of_fits f,
      (fitting_iff w s m).1
          ((requested_iff w s m).1 (f.served, f.named), (has_room_iff w s m).1 f.room),
    ),
    λ (p, i).
        let (r, room) = (fitting_iff w s m).0 i in
        let (served, named) = (requested_iff w s m).0 r in
        record {
          fresh = (is_stale_iff clock s).0 p.fresh;
          healthy = p.healthy;
          capable = (missing_iff w s).0 ((is_empty_iff (missing w s)).0 p.capable);
          served = served;
          named = named;
          room = (has_room_iff w s m).0 room;
        },
  )

  fit_of_judge :
      {m : ModelInfo} → Passes → judge clock w s ≡ eligible m → pick w s (fitting w s) ≡ eligible m
  unfolding judge_fit
  fit_of_judge p e = sym (judge_of_passes p) ∙ e

  -- The model of an eligible provider fits, and no other model that fits comes before it: loaded
  -- models come first, then larger windows, then smaller identifiers.
  pub judge-eligible :
      {m : ModelInfo}
      → judge clock w s ≡ eligible m
      → Fits clock w s m
        × ((n : ModelInfo) → Fits clock w s n → model_leb (model_key m) (model_key n) ≡ true)
  unfolding preferred
  judge-eligible {m} e =
      let p = passes_of_eligible e in
      let sorted : HeadIsLeast preferred (fitting w s) =
        unfold fitting in sort-HeadIsLeast preferred (model_leb-IsTotal model_key) _ in
      let (i, least) = pick-least {m = m} (fitting w s) (fit_of_judge p e) sorted in
      ((judge_fit-Fits_iff m).1 (p, i), λ n f. least n ((judge_fit-Fits_iff n).0 f).1)

  -- A provider with a model that fits is eligible.
  pub judge-total :
      {m : ModelInfo} → Fits clock w s m → (n : ModelInfo) × (judge clock w s ≡ eligible n)
  judge-total {m} f =
      let (p, i) = (judge_fit-Fits_iff m).0 f in
      let (n, e) = pick-total (fitting w s) i in (n, judge_of_passes p ∙ unfold judge_fit in e)
