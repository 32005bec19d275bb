-- ===== src/Placement/Tests.antt =====
-- Tests of placement on a fleet of a local and a cloud provider, and the theorems at that fleet.
use mathlib.Core.List.{Permᴰ}
use mathlib.Core.List.Memᴰ
use compute_connect.Prelude.{
  length, pos, ◌+ℤ◌, ◌-ℤ◌, ◌*ℤ◌, neg, true, false, ◌≡◌, refl, ◌↔◌, List, [], ◌∷◌, Memᴰ, String,
  some, SameMembers, sort, lower_in, str_in, strip, is_blank, arith, ◌≢◌, eq_iff, sym, ap, ◌∙◌,
}
use compute_connect.Json.{null, str, end, text, truthy, is_text}
use compute_connect.Engine.{ModelInfo, llama_cpp}
use compute_connect.Provider.{ProviderSnapshot}
use compute_connect.Privacy.{ResolvedPrivacy, resolve_privacy_tier}
use compute_connect.Placement.Types.{WorkloadSpec, Clock, Placement, placed, refused}
use compute_connect.Placement.Order.{model_leb, compare_model, rank_leb, compare_rank}
use compute_connect.Placement.Filter.{is_forbidden, cloud_rejection, filter_loop, filter_candidates}
use compute_connect.Placement.Judge.{
  is_stale, missing, requested_models, needed, has_room, largest_window, model_key, fitting,
  is_empty, pick, judge_fit, judge, note, judge_all,
}
use compute_connect.Placement.Rank.{
  before, queue_seconds, asks_for, bit, want_fast, want_quality, preference, rank,
}
use compute_connect.Placement.Select.{consider, explain, refuse, conclude, select_placement}
use compute_connect.Placement.Eligible.{judge-eligible}
use compute_connect.Placement.Guarantees.{Serves, placed_iff, placed-least}
use compute_connect.Placement.Deterministic.{HasDistinctIds, select_placement_comm}
use compute_connect.Placement.Accounting.{reported, snapshot_ids, reported-select_placement}

program : Unit {0}
unfolding filter_candidates filter_loop is_forbidden cloud_rejection is_stale missing
    requested_models needed has_room largest_window model_key fitting is_empty pick judge_fit judge
    note judge_all queue_seconds asks_for bit want_fast want_quality preference rank consider
    explain refuse conclude select_placement model_leb compare_model rank_leb compare_rank sort
    lower_in truthy is_text ◌+ℤ◌ ◌-ℤ◌ ◌*ℤ◌ neg resolve_privacy_tier strip str_in is_blank
program = tt

abbrev big : ModelInfo
big = record {
  id = "big";
  context_tokens = pos 32768;
  capabilities = "generate" ∷ [];
  loaded = true;
  metadata = end;
}

abbrev small : ModelInfo
small = record big { id = "small"; context_tokens = pos 2048 }

abbrev homely : ProviderSnapshot
homely = record {
  spec = record {
    id = "homely";
    placement_class = "local";
    engine = llama_cpp (record {
      base_url = "http://127.0.0.1:8080";
      capability_tags = [];
      timeout = pos 100000;
      stream_timeout = pos 3000000;
    });
    capabilities = "generate" ∷ [];
    max_concurrency = pos 2;
    estimated_quality = pos 6000;
    estimated_tokens_per_second = pos 120000;
  };
  healthy = true;
  detail = "ok";
  models = small ∷ big ∷ [];
  active_runs = 0;
  taken_at = pos 1000;
}

abbrev quick : ProviderSnapshot
quick = record homely {
  spec = record homely.spec {
    id = "quick";
    estimated_quality = pos 5500;
    estimated_tokens_per_second = pos 900000;
  };
}

abbrev cloudy : ProviderSnapshot
cloudy = record homely {
  spec = record homely.spec {
    id = "cloudy";
    placement_class = "cloud";
    estimated_quality = pos 9000;
  };
}

abbrev fleet : List ProviderSnapshot
fleet = cloudy ∷ homely ∷ quick ∷ []

abbrev workload : WorkloadSpec
workload = record {
  model = null;
  required_capabilities = str "generate" ∷ [];
  context_tokens = pos 4000;
  max_output_tokens = pos 1000;
  latency_preference = text "normal";
  quality_preference = text "good_enough";
  metadata = end;
}

abbrev clock : Clock
clock = record { now = pos 2000; max_snapshot_age = some (pos 300000) }

abbrev late : Clock
late = record clock { now = pos 302000 }

abbrev public : ResolvedPrivacy
public = resolve_privacy_tier (str "public")

abbrev secret : ResolvedPrivacy
secret = resolve_privacy_tier null

-- what is placed where the three providers are ranked in the order `a`, `b`, `c`
abbrev placement_on :
    WorkloadSpec → ProviderSnapshot → ProviderSnapshot → ProviderSnapshot → Placement
placement_on w a b c = record {
  provider = a;
  model = big;
  rationale =
      explain (filter_candidates fleet public) w [] ((a, big) ∷ (b, big) ∷ (c, big) ∷ []) (a, big);
}

places_local_by_id :
    select_placement (filter_candidates fleet public) workload clock
    ≡ placed (placement_on workload homely quick cloudy)
unfolding program
places_local_by_id = refl

abbrev interactive : WorkloadSpec
interactive = record workload { latency_preference = text "Interactive" }

places_the_fastest :
    select_placement (filter_candidates fleet public) interactive clock
    ≡ placed (placement_on interactive quick homely cloudy)
unfolding program
places_the_fastest = refl

abbrev best : WorkloadSpec
best = record workload { quality_preference = text "best" }

places_the_best_local :
    select_placement (filter_candidates fleet public) best clock
    ≡ placed (placement_on best homely quick cloudy)
unfolding program
places_the_best_local = refl

refuses_cloud_by_default :
    select_placement (filter_candidates (cloudy ∷ []) secret) workload clock
    ≡ refused (refuse (filter_candidates (cloudy ∷ []) secret) (cloud_rejection secret cloudy ∷ []))
unfolding program
refuses_cloud_by_default = refl

refuses_stale :
    length (reported (select_placement (filter_candidates fleet public) workload late)) ≡ 3
unfolding program
refuses_stale = refl

homely_served : Serves fleet public workload clock homely big
unfolding program
homely_served = record {
  known = Memᴰ.tail (Memᴰ.head refl);
  allowed = λ e. refl;
  fits = (judge-eligible clock workload homely refl).0;
}

placed_iff_example :
    ((p : Placement) × (select_placement (filter_candidates fleet secret) workload clock
        ≡ placed p))
    ↔ ((s : ProviderSnapshot) × (m : ModelInfo) × Serves fleet secret workload clock s m)
placed_iff_example = placed_iff fleet secret workload clock

placed-least_example :
    (n : ModelInfo) × Serves fleet public workload clock homely n
    × (model_leb (model_key n) (model_key big) ≡ true)
    × (before workload (homely, big) (homely, n) ≡ true)
placed-least_example =
    placed-least fleet public workload clock {p = placement_on workload homely quick cloudy}
      {s = homely} {m = big} places_local_by_id homely_served

quick_served : Serves fleet public best clock quick big
unfolding program
quick_served = record {
  known = Memᴰ.tail (Memᴰ.tail (Memᴰ.head refl));
  allowed = λ e. refl;
  fits = (judge-eligible clock best quick refl).0;
}

asks_for_quality : want_quality best ≡ true
unfolding program
asks_for_quality = refl

homely-Serves-interactive : Serves fleet public interactive clock homely big
unfolding program
homely-Serves-interactive = record {
  known = Memᴰ.tail (Memᴰ.head refl);
  allowed = λ e. refl;
  fits = (judge-eligible clock interactive homely refl).0;
}

asks_for_speed : (want_quality interactive ≡ false) × (want_fast interactive ≡ true)
unfolding program
asks_for_speed = (refl, refl)

reported-select_placement_example :
    Permᴰ
      (reported (select_placement (filter_candidates fleet secret) workload clock))
      (snapshot_ids fleet)
reported-select_placement_example = reported-select_placement fleet secret workload clock

abbrev pair : List ProviderSnapshot
pair = cloudy ∷ homely ∷ []

abbrev pair_reversed : List ProviderSnapshot
pair_reversed = homely ∷ cloudy ∷ []

reversed : {v a b : ProviderSnapshot} → Memᴰ v (a ∷ b ∷ []) → Memᴰ v (b ∷ a ∷ [])
reversed (Memᴰ.head e) = Memᴰ.tail (Memᴰ.head e)
reversed (Memᴰ.tail m) = Memᴰ.head (Memᴰ.eq_of_singleton m)

same_pair : SameMembers pair pair_reversed
same_pair = record { forth = λ v m. reversed m; back = λ v m. reversed m }

ids_differ : ◌≢◌ {A = String} "cloudy" "homely"
ids_differ = ground (arith, eq_iff "cloudy" "homely")

id_of : ProviderSnapshot → String
id_of s = s.spec.id

distinct : {s t : ProviderSnapshot} → Memᴰ s pair → Memᴰ t pair → s.spec.id ≡ t.spec.id → s ≡ t
unfolding id_of
distinct (Memᴰ.head p) (Memᴰ.head q) e = p ∙ sym q
distinct (Memᴰ.head p) (Memᴰ.tail n) e =
    absurd (ids_differ (sym (ap id_of p) ∙ e ∙ ap id_of (Memᴰ.eq_of_singleton n)))
distinct (Memᴰ.tail m) (Memᴰ.head q) e =
    absurd (ids_differ (sym (ap id_of q) ∙ sym e ∙ ap id_of (Memᴰ.eq_of_singleton m)))
distinct (Memᴰ.tail m) (Memᴰ.tail n) e = Memᴰ.eq_of_singleton m ∙ sym (Memᴰ.eq_of_singleton n)

distinct_pair : HasDistinctIds pair
distinct_pair = record { unique = λ s t m n e. distinct m n e }

abbrev placement_on_pair : Placement
placement_on_pair = record {
  provider = homely;
  model = big;
  rationale =
      explain (filter_candidates pair public) workload [] ((homely, big) ∷ (cloudy, big) ∷ [])
        (homely, big);
}

places_pair :
    select_placement (filter_candidates pair public) workload clock ≡ placed placement_on_pair
unfolding program
places_pair = refl

select_placement_comm_example :
    (q : Placement) × (select_placement (filter_candidates pair_reversed public) workload clock
      ≡ placed q)
    × (homely ≡ q.provider)
    × (big ≡ q.model)
select_placement_comm_example =
    select_placement_comm public workload clock {p = placement_on_pair} distinct_pair same_pair
      places_pair
