-- ===== src/Chat.antt =====
-- app.py, `ComputeConnectAPI.v1_chat_completions`: the request up to its placement. What follows is in
-- Chat/Complete.antt and Session/Sse.antt.
use compute_connect.Prelude.{
  ℕ, ℤ, pos, String, Bool, true, false, not, ◌||◌, ◌&&◌, Option, none, some, List, [], ◌∷◌,
  if◌then◌else◌, any,
}
use compute_connect.Json.{
  Value, null, str, int, arr, obj, Items, no_item, item, Fields, end, to_text, PyError, type_error,
  value_error, overflow_error, attribute_error, bad_numeric_field, Result, ok, err, ◌>>=◌, or_else,
  fields_get, truthy, is_text, Float,
}
use compute_connect.Number.{Numerals, to_int}
use compute_connect.Engine.{ModelInfo}
use compute_connect.Privacy.{ResolvedPrivacy, resolve_privacy_precedence}
use compute_connect.Provider.{ProviderSnapshot}
use compute_connect.Provider.Registry.{Texts}
use compute_connect.Provider.Snapshot.{ProviderRegistry, Probes, snapshot, known_but_unhealthy}
use compute_connect.Placement.Types.{
  CandidateSet, WorkloadSpec, Placement, PlacementRefusal, Outcome, placed, refused,
}
use compute_connect.Placement.Select.{select_placement}
use compute_connect.Runs.Run.{Run, openai}
use compute_connect.Runs.Registry.{create, active_count}
use compute_connect.App.{as_bad_numeric, float_field}
use compute_connect.Control.{
  Api, Instant, candidates_resolved, emit_generation_refused, clock_of, tiers, as_object,
}
pub mod Complete
pub mod Refusal
pub mod Accepting
pub mod Usage
pub mod Closing
pub mod Answering
mod Tests

-- What the world answers while one request is handled: as for `generate`, and for the second snapshot
-- that a refusal takes.
pub record ChatInstant : Type 0 where
  pub first : Instant
  pub second_probes : Probes
  pub second_now : ℤ

-- The message of an error, with the values that the source formats into it.
pub data Message : Type 0 where
  invalid_body fields_required : Message
  not_under_tier known_unhealthy not_found : Value → PlacementRefusal → Message
  bad_field : String → Value → Message
  upstream_failed : String → Message

-- `_openai_error`
pub record OpenaiError : Type 0 where
  pub message : Message
  pub err_type : String
  pub status_code : ℕ
  pub code : Option String

abbrev pub openai_error : Message → String → ℕ → Option String → OpenaiError
openai_error message err_type status_code code = record {
  message = message;
  err_type = err_type;
  status_code = status_code;
  code = code;
}

-- what the handler has decided when a run is created
pub record Accepted : Type 0 where
  pub run : Run
  pub placement : Placement
  pub messages : Items
  pub max_tokens : ℤ
  pub temperature : Float
  pub stream : Bool

pub data Decision : Type 0 where
  answered : OpenaiError → Decision
  accepted : Accepted → Decision

-- `str(v)`
unfoldable pub text_of : Texts → Value → String
text_of texts (str s) = s
text_of texts v = texts.str_of v

unfoldable pub chat_workload : Texts → Fields → WorkloadSpec
unfolding text_of
chat_workload texts fs = record {
  model = str (text_of texts (fields_get fs "model"));
  required_capabilities = [];
  context_tokens = pos 0;
  max_output_tokens = pos 0;
  latency_preference = to_text (or_else (fields_get fs "latency_preference") (str "normal"));
  quality_preference = to_text (or_else (fields_get fs "quality_preference") (str "good_enough"));
  metadata = end;
}

-- `isinstance(messages, list)` and not empty: the messages
abbrev pub message_list : Value → Option Items
message_list (arr (item m ms)) = some (item m ms)
message_list _ = none

-- `any(model_name == m.id for s in … for m in s.models)`
unfoldable pub is_listed : Value → List ProviderSnapshot → Bool
is_listed name snaps =
    any (λ (s : ProviderSnapshot). any (λ (m : ModelInfo). is_text name m.id) s.models) snaps

-- the three answers to a refusal
unfoldable pub refusal_error :
    Texts → ProviderRegistry → List ProviderSnapshot → Bool → Value → PlacementRefusal → OpenaiError
unfolding is_listed text_of
refusal_error texts registry snaps cloud_permitted name r =
    if is_listed name snaps
    then openai_error (not_under_tier name r) "privacy_refusal" 403 (some r.code)
    else if known_but_unhealthy registry (text_of texts name) cloud_permitted
    then openai_error (known_unhealthy name r) "service_unavailable" 503
        (some "model_temporarily_unavailable")
    else openai_error (not_found name r) "invalid_request_error" 404 (some "model_not_found")

abbrev pub second_snapshot : Api → ChatInstant → ProviderRegistry × List ProviderSnapshot
second_snapshot api i =
    snapshot api.registry i.first.texts i.second_probes none i.second_now (active_count api.runs)

-- a refusal: the event, the second snapshot, and the error
unfoldable pub refuse_chat :
    Api → ChatInstant → ResolvedPrivacy → Value → PlacementRefusal → Api × Result Decision
unfolding refusal_error
refuse_chat api i privacy name r =
    let told = emit_generation_refused api i.first privacy r in
    let second = second_snapshot told i in
    (
      record told { registry = second.0 },
      ok (answered (refusal_error i.first.texts second.0 second.1 privacy.cloud_permitted name r)),
    )

-- `body.get("max_tokens") or body.get("max_completion_tokens") or 2048` as an int
unfoldable pub chat_max_tokens : Numerals → Fields → Result ℤ
chat_max_tokens numerals fs =
    let limit =
      or_else (fields_get fs "max_tokens")
        (or_else (fields_get fs "max_completion_tokens") (int (pos 2048))) in
    as_bad_numeric "max_tokens" (fields_get fs "max_tokens") (to_int numerals limit)

pub record Limits : Type 0 where
  pub max_tokens : ℤ
  pub temperature : Float

unfoldable pub chat_limits : Numerals → Fields → Result Limits
unfolding chat_max_tokens
chat_limits numerals fs = chat_max_tokens numerals fs >>= λ max_tokens.
    float_field numerals (obj fs) "temperature" (pos 0) >>= λ temperature.
    ok (record { max_tokens = max_tokens; temperature = temperature })

-- the numeric fields are read after the placement, and then the run is created
unfoldable pub accept :
    Api → ChatInstant → Fields → Items → Placement → Result Limits → Api × Result Decision
accept api i fs messages p (ok limits) =
    let created =
      create api.runs i.first.run_id i.first.run_now p.provider.spec.id (some p.model.id) openai in
    (
      record api { runs = created.0 },
      ok (
          accepted (record {
            run = created.1;
            placement = p;
            messages = messages;
            max_tokens = limits.max_tokens;
            temperature = limits.temperature;
            stream = truthy (fields_get fs "stream");
          })),
    )
accept api i fs messages p (err (bad_numeric_field key raw)) =
    (api, ok (answered (openai_error (bad_field key raw) "invalid_request_error" 400 none)))
accept api i fs messages p (err attribute_error) = (api, err attribute_error)
accept api i fs messages p (err type_error) = (api, err type_error)
accept api i fs messages p (err value_error) = (api, err value_error)
accept api i fs messages p (err overflow_error) = (api, err overflow_error)

unfoldable pub conclude_chat :
    Api → ChatInstant → ResolvedPrivacy → Fields → Items → Outcome → Api × Result Decision
conclude_chat api i privacy fs messages (refused r) =
    refuse_chat api i privacy (fields_get fs "model") r
conclude_chat api i privacy fs messages (placed p) =
    accept api i fs messages p (chat_limits i.first.numerals fs)

unfoldable pub chat_fields : Api → ChatInstant → Value → Fields → Items → Api × Result Decision
chat_fields api i header fs messages =
    let privacy = resolve_privacy_precedence (tiers header fs) in
    let resolved = candidates_resolved api i.first privacy in
    conclude_chat resolved.0 i privacy fs messages
      (select_placement resolved.1 (chat_workload i.first.texts fs) (clock_of resolved.0 i.first))

abbrev pub required_error : OpenaiError
required_error = openai_error fields_required "invalid_request_error" 400 none

-- the checks of `messages` and `model`
unfoldable pub chat_request :
    Api → ChatInstant → Value → Fields → Option Items → Api × Result Decision
unfolding chat_fields
chat_request api i header fs none = (api, ok (answered required_error))
chat_request api i header fs (some messages) =
    if truthy (fields_get fs "model")
    then chat_fields api i header fs messages
    else (api, ok (answered required_error))

-- the handler up to the response, for the header and the decoded body as in `handle_generate`
unfoldable pub handle_chat : Api → ChatInstant → Value → Option Value → Api × Result Decision
unfolding chat_request
handle_chat api i header none =
    (api, ok (answered (openai_error invalid_body "invalid_request_error" 400 none)))
handle_chat api i header (some body) = elim (as_object body) [
  | none ↦ (api, err attribute_error)
  | some fs ↦ chat_request api i header fs (message_list (fields_get fs "messages"))
]
