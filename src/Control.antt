-- ===== src/Control.antt =====
-- app.py, `ComputeConnectAPI.generate` up to the response that it returns: the control plane's
-- placement of one request. The response is in Session/Generate.antt.
use compute_connect.Prelude.{
  ℕ, ℤ, pos, String, Bool, true, false, Option, none, some, List, [], ◌∷◌, if◌then◌else◌, is_blank,
}
use compute_connect.Json.{
  Value, null, str, obj, Fields, end, field, PyText, text, rendered, to_text, PyError, type_error,
  value_error, overflow_error, attribute_error, bad_numeric_field, Result, ok, err, ◌>>=◌, or_else,
  fields_get, Float,
}
use compute_connect.Number.{Numerals}
use compute_connect.Privacy.{ResolvedPrivacy, resolve_privacy_precedence}
use compute_connect.Provider.{ProviderSnapshot}
use compute_connect.Provider.Registry.{Texts}
use compute_connect.Provider.Snapshot.{ProviderRegistry, Probes, snapshot}
use compute_connect.Placement.Types.{
  CandidateSet, WorkloadSpec, Clock, Placement, PlacementRefusal, Outcome, placed, refused,
}
use compute_connect.Placement.Filter.{filter_candidates}
use compute_connect.Placement.Select.{select_placement}
use compute_connect.Runs.Run.{Run, generate}
use compute_connect.Runs.Registry.{Registry, create, active_count}
use compute_connect.Bus.{Event, publish, truncate_reason, reason_max_chars}
use compute_connect.App.{int_field, float_field}
pub mod Placing
pub mod Estimate
pub mod Sample
pub mod Queries
pub mod RunQueries
pub mod Health
mod Tests

-- The bus is the one that the provider registry publishes to.
pub record Api : Type 0 where
  pub registry : ProviderRegistry
  pub runs : Registry
  pub max_snapshot_age : Option ℤ

-- what the world answers while one request is handled: the clock at the snapshot, the placement and
-- the creation of the run, and the fresh ids
pub record Instant : Type 0 where
  pub numerals : Numerals
  pub texts : Texts
  pub probes : Probes
  pub snapshot_now : ℤ
  pub place_now : ℤ
  pub event_id : String
  pub event_ts : ℤ
  pub run_id : String
  pub run_now : ℤ

pub data Reply : Type 0 where
  invalid_json prompt_required : Reply
  bad_field : String → Value → Reply
  refusal : Value → PlacementRefusal → Reply
  started : Run → Placement → Reply

abbrev pub snapshots : Api → Instant → ProviderRegistry × List ProviderSnapshot
snapshots api i = snapshot api.registry i.texts i.probes none i.snapshot_now (active_count api.runs)

-- `_candidates_resolved`
unfoldable pub candidates_resolved : Api → Instant → ResolvedPrivacy → Api × CandidateSet
candidates_resolved api i privacy =
    (record api { registry = (snapshots api i).0 }, filter_candidates (snapshots api i).1 privacy)

unfoldable pub generate_workload : Numerals → Fields → Result WorkloadSpec
generate_workload numerals fs =
    int_field numerals (obj fs) "max_output_tokens" (pos 0) >>= λ max_output_tokens.
    int_field numerals (obj fs) "context_tokens" (pos 0) >>= λ context_tokens.
    float_field numerals (obj fs) "temperature" (pos 0) >>= λ temperature. ok (record {
      model = or_else (fields_get fs "model") null;
      required_capabilities = [];
      context_tokens = context_tokens;
      max_output_tokens = max_output_tokens;
      latency_preference = to_text (or_else (fields_get fs "latency_preference") (str "normal"));
      quality_preference =
          to_text (or_else (fields_get fs "quality_preference") (str "good_enough"));
      metadata = end;
    })

unfoldable pub refused_event : Instant → ResolvedPrivacy → PlacementRefusal → Event
refused_event i privacy r = record {
  event_type = "compute.generation.refused";
  event_id = i.event_id;
  ts = i.event_ts;
  outcome = some "denied";
  actor = some "computeconnect";
  privacy_tier = some privacy.effective;
  entity_id = none;
  task_id = none;
  payload =
      field "reason" (str (truncate_reason (some r.code) reason_max_chars))
        (field "privacy_tier" (str privacy.effective) end);
}

-- `_emit_generation_refused`
unfoldable pub emit_generation_refused : Api → Instant → ResolvedPrivacy → PlacementRefusal → Api
emit_generation_refused api i privacy r = record api {
  registry = record api.registry {
    bus = publish api.registry.bus true (refused_event i privacy r);
  };
}

unfoldable pub conclude :
    Api → Instant → ResolvedPrivacy → WorkloadSpec → Outcome → Api × Result Reply
conclude api i privacy w (refused r) =
    (emit_generation_refused api i privacy r, ok (refusal w.model r))
conclude api i privacy w (placed p) =
    let created =
      create api.runs i.run_id i.run_now p.provider.spec.id (some p.model.id) generate in
    (record api { runs = created.0 }, ok (started created.1 p))

abbrev pub clock_of : Api → Instant → Clock
clock_of api i = record { now = i.place_now; max_snapshot_age = api.max_snapshot_age }

-- the `try` around the workload, and the placement after it
unfoldable pub place :
    Api → Instant → ResolvedPrivacy → CandidateSet → Result WorkloadSpec → Api × Result Reply
place api i privacy candidates (ok w) =
    conclude api i privacy w (select_placement candidates w (clock_of api i))
place api i privacy candidates (err (bad_numeric_field key raw)) = (api, ok (bad_field key raw))
place api i privacy candidates (err attribute_error) = (api, err attribute_error)
place api i privacy candidates (err type_error) = (api, err type_error)
place api i privacy candidates (err value_error) = (api, err value_error)
place api i privacy candidates (err overflow_error) = (api, err overflow_error)

abbrev pub is_blank_text : PyText → Bool
is_blank_text (text s) = is_blank s
is_blank_text (rendered v) = false

-- `not str(body.get("prompt") or "").strip()`
unfoldable pub is_prompt_missing : Fields → Bool
is_prompt_missing fs = is_blank_text (to_text (or_else (fields_get fs "prompt") (str "")))

abbrev pub tiers : Value → Fields → List Value
tiers header fs = header ∷ fields_get fs "privacy_tier" ∷ []

-- the handler, past the check of the prompt
unfoldable pub generate_fields : Api → Instant → Value → Fields → Api × Result Reply
unfolding candidates_resolved
generate_fields api i header fs =
    let privacy = resolve_privacy_precedence (tiers header fs) in
    let resolved = candidates_resolved api i privacy in
    place resolved.0 i privacy resolved.1 (generate_workload i.numerals fs)

abbrev pub as_object : Value → Option Fields
as_object (obj fs) = some fs
as_object _ = none

-- The handler, for the X-Privacy-Tier header (null where it is absent) and the decoded body (none
-- where it is no JSON).
unfoldable pub handle_generate : Api → Instant → Value → Option Value → Api × Result Reply
unfolding is_prompt_missing generate_fields
handle_generate api i header none = (api, ok invalid_json)
handle_generate api i header (some body) = elim (as_object body) [
  | none ↦ (api, err attribute_error)
  | some fs ↦
      if is_prompt_missing fs then (api, ok prompt_required) else generate_fields api i header fs
]
