-- ===== src/Control/Tests.antt =====
-- Tests of `generate` on a service with one cloud provider, and the theorems at that service.

use compute_connect.Prelude.{
  pos, ◌+ℤ◌, ◌-ℤ◌, ◌*ℤ◌, neg, true, false, ◌≡◌, refl, [], ◌∷◌, some, sort, lower_in, str_in, strip,
  is_blank,
}
use compute_connect.Json.{
  Value, null, str, obj, int, end, field, truthy, is_text, fields_get, get, or_else, to_text, ok,
  err, attribute_error, arr, item, no_item, to_list,
}
use compute_connect.Number.{to_int, to_float}
use compute_connect.Provider.Registry.{
  probed, reached, listed, status_of, has, emit_health_transition, refresh,
}
use compute_connect.Provider.Snapshot.{is_expired, visit, take_all, snapshot}
use compute_connect.Privacy.{
  resolve_privacy_tier, resolve_privacy_precedence, strictness, strictest, supplied,
}
use compute_connect.Privacy.Precedence.{IsSignal}
use compute_connect.Placement.Order.{model_leb, compare_model, rank_leb, compare_rank}
use compute_connect.Placement.Filter.{is_forbidden, cloud_rejection, filter_loop, filter_candidates}
use compute_connect.Placement.Judge.{
  is_stale, missing, requested_models, needed, has_room, largest_window, model_key, fitting,
  is_empty, pick, judge_fit, judge, note, judge_all,
}
use compute_connect.Placement.Rank.{
  queue_seconds, asks_for, bit, want_fast, want_quality, preference, rank,
}
use compute_connect.Placement.Select.{
  consider, explain, refuse, select_placement, Estimate, estimate, report,
}
use compute_connect.Placement.Select
use compute_connect.Runs.Registry.{
  cancel, load_from, create, trim, finished_ids, remove_all, journal_run, active_count,
}
use compute_connect.Dict
use compute_connect.Bus
use compute_connect.Bus.{publish, truncate_reason, text_or_empty, shortened, prefix}
use compute_connect.App.{int_field, float_field, as_bad_numeric}
use compute_connect.Control.{
  started, bad_field, prompt_required, candidates_resolved, generate_workload,
  emit_generation_refused, conclude, place, is_prompt_missing, tiers, generate_fields,
  handle_generate,
}
use compute_connect.Control.Estimate.{
  estimated, Agree, to_tuple, estimate_workload, answer_estimate, handle_estimate,
  handle_estimate-Agree,
}
use compute_connect.Control.Queries.{health_status}
use compute_connect.Control.Health.{IsHealth, health_status-IsHealth}
use compute_connect.Control.RunQueries.{
  CancelAnswer, handle_cancel_run, handle_cancel_run-CancelAnswer,
}
use compute_connect.Control.Sample.{api, instant, asking, workload, seen, placement, run, after}
use compute_connect.Control.Placing.{Handled, handle_generate-Handled, handle_generate-private}

program : Unit {0}
unfolding filter_candidates filter_loop is_forbidden cloud_rejection is_stale missing
    requested_models needed has_room largest_window model_key fitting is_empty pick judge_fit judge
    note judge_all queue_seconds asks_for bit want_fast want_quality preference rank consider
    explain refuse Select.conclude select_placement model_leb compare_model rank_leb compare_rank
    sort lower_in truthy is_text ◌+ℤ◌ ◌-ℤ◌ ◌*ℤ◌ neg resolve_privacy_tier resolve_privacy_precedence
    strictness strictest supplied strip str_in is_blank fields_get get or_else to_text to_int
    to_float int_field float_field as_bad_numeric probed reached listed status_of has
    emit_health_transition refresh is_expired visit take_all snapshot create trim finished_ids
    remove_all journal_run active_count Dict.put Dict.get Dict.remove Bus.init publish
    candidates_resolved generate_workload emit_generation_refused conclude place is_prompt_missing
    generate_fields handle_generate to_tuple estimate_workload answer_estimate handle_estimate
    estimate report to_list
program = tt

starts_on_cloud :
    handle_generate api instant null (some (obj asking)) ≡ (after, ok (started run placement))
unfolding program
starts_on_cloud = refl

-- a stricter header narrows the permissive body, and no run is created
header_narrows :
    (handle_generate api instant (str "local_only") (some (obj asking))).0.runs ≡ api.runs
unfolding program
header_narrows = refl

refuses_bad_input :
    ((handle_generate api instant null (some (obj end))).1 ≡ ok prompt_required)
    × ((handle_generate api instant null (some (int (pos 1)))).1 ≡ err attribute_error)
    × ((handle_generate api instant null
          (some (obj (field "max_output_tokens" (str "x") asking)))).1
        ≡ ok (bad_field "max_output_tokens" (str "x")))
unfolding program
refuses_bad_input = (refl, refl, refl)

handle_generate-Handled_example :
    Handled api instant
      (resolve_privacy_precedence (tiers null asking))
      asking
      (handle_generate api instant null (some (obj asking)))
handle_generate-Handled_example = handle_generate-Handled api instant null asking

handle_generate-private_example :
    (run.provider_id ≡ "c")
    × ((v : Value) × IsSignal v (tiers null asking))
    × ((v : Value)
        → IsSignal v (tiers null asking)
        → (resolve_privacy_tier v).cloud_permitted ≡ true)
handle_generate-private_example =
    handle_generate-private api instant null asking {run = run} {p = placement} starts_on_cloud refl

workload_read : generate_workload instant.numerals asking ≡ ok workload
unfolding program
workload_read = refl

nothing_required : truthy (fields_get asking "required_capabilities") ≡ false
unfolding program
nothing_required = refl

prompt_given : is_prompt_missing asking ≡ false
unfolding program
prompt_given = refl

handle_estimate-Agree_example :
    ((handle_estimate api instant null (some (obj asking))).0.runs ≡ api.runs)
    × (e : Estimate) × ((handle_estimate api instant null (some (obj asking))).1 ≡ ok (estimated e))
    × Agree e (handle_generate api instant null (some (obj asking))).1
handle_estimate-Agree_example =
    handle_estimate-Agree api instant null asking workload nothing_required workload_read
      prompt_given

-- a capability that no provider has is refused by the estimate
requires_more :
    (handle_estimate api instant null
      (some (obj (field "required_capabilities" (arr (item (str "vision") no_item)) asking)))).1
    ≡ ok (
        estimated (
          report (
            select_placement
              (filter_candidates (seen ∷ []) (resolve_privacy_tier (str "public")))
              (record workload { required_capabilities = str "vision" ∷ [] })
              (record { now = pos 201; max_snapshot_age = some (pos 350000) }))))
unfolding program
requires_more = refl

health_status-IsHealth_example : IsHealth (seen ∷ []) (health_status (seen ∷ []))
health_status-IsHealth_example = health_status-IsHealth (seen ∷ [])

handle_cancel_run-CancelAnswer_example :
    CancelAnswer after "run_1"
      (handle_cancel_run after "run_1").0
      (handle_cancel_run after "run_1").1
handle_cancel_run-CancelAnswer_example = handle_cancel_run-CancelAnswer after "run_1"

asks_to_cancel :
    ((handle_cancel_run after "run_1").1.status_code ≡ 200)
    × ((handle_cancel_run after "run_2").1.status_code ≡ 404)
unfolding program handle_cancel_run cancel load_from
asks_to_cancel = (refl, refl)
