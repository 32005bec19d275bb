-- ===== src/Control/Estimate.antt =====
-- app.py, `ComputeConnectAPI.route_estimate`, and its agreement with `generate`.
use compute_connect.Prelude.{pos, String, true, false, Option, none, some, List, [], ◌∷◌, ◌≡◌, refl}
use compute_connect.Json.{
  bind_inv, Value, null, str, arr, obj, int, float, bool, no_item, Fields, end, field, to_text,
  type_error, value_error, overflow_error, attribute_error, bad_numeric_field, Result, ok, err,
  ◌>>=◌, or_else, fields_get, to_list, truthy,
}
use compute_connect.Number.{Numerals}
use compute_connect.Privacy.{ResolvedPrivacy, resolve_privacy_precedence}
use compute_connect.Placement.Types.{
  CandidateSet, WorkloadSpec, Placement, PlacementRefusal, Outcome, placed, refused,
}
use compute_connect.Placement.Select.{Estimate, estimate, report, select_placement}
use compute_connect.Runs.Run.{Run}
use compute_connect.Runs.Registry.{create}
use compute_connect.App.{int_field, float_field}
use compute_connect.Control.{
  Api, Instant, Reply, refusal, started, candidates_resolved, generate_workload, conclude, clock_of,
  place, is_prompt_missing, tiers, generate_fields, as_object, handle_generate,
}

-- a text as the list of its characters, each a text
unfoldable pub characters : String → List Value
characters String.[] = []
characters (String.◌∷◌ c s) = str (String.◌∷◌ c String.[]) ∷ characters s

unfoldable pub field_names : Fields → List Value
field_names end = []
field_names (field k v fs) = str k ∷ field_names fs

-- `tuple(v)`
unfoldable pub to_tuple : Value → Result (List Value)
unfolding characters field_names
to_tuple (arr vs) = ok (to_list vs)
to_tuple (str s) = ok (characters s)
to_tuple (obj fs) = ok (field_names fs)
to_tuple null = err type_error
to_tuple (bool b) = err type_error
to_tuple (int n) = err type_error
to_tuple (float f) = err type_error

unfoldable pub estimate_workload : Numerals → Fields → Result WorkloadSpec
estimate_workload numerals fs =
    to_tuple (or_else (fields_get fs "required_capabilities") (arr no_item)) >>= λ required.
    int_field numerals (obj fs) "context_tokens" (pos 0) >>= λ context_tokens.
    int_field numerals (obj fs) "max_output_tokens" (pos 0) >>= λ max_output_tokens. ok (record {
      model = or_else (fields_get fs "model") null;
      required_capabilities = required;
      context_tokens = context_tokens;
      max_output_tokens = max_output_tokens;
      latency_preference = to_text (or_else (fields_get fs "latency_preference") (str "normal"));
      quality_preference =
          to_text (or_else (fields_get fs "quality_preference") (str "good_enough"));
      metadata = end;
    })

pub data EstimateReply : Type 0 where
  not_json : EstimateReply
  refused_field : String → Value → EstimateReply
  estimated : Estimate → EstimateReply

unfoldable pub answer_estimate :
    Api → Instant → CandidateSet → Result WorkloadSpec → Result EstimateReply
answer_estimate api i candidates (ok w) = ok (estimated (estimate candidates w (clock_of api i)))
answer_estimate api i candidates (err (bad_numeric_field key raw)) = ok (refused_field key raw)
answer_estimate api i candidates (err attribute_error) = err attribute_error
answer_estimate api i candidates (err type_error) = err type_error
answer_estimate api i candidates (err value_error) = err value_error
answer_estimate api i candidates (err overflow_error) = err overflow_error

-- the handler, for the header and the decoded body as in `handle_generate`
unfoldable pub handle_estimate : Api → Instant → Value → Option Value → Api × Result EstimateReply
unfolding candidates_resolved
handle_estimate api i header none = (api, ok not_json)
handle_estimate api i header (some body) = elim (as_object body) [
  | none ↦ (api, err attribute_error)
  | some fs ↦
      let resolved = candidates_resolved api i (resolve_privacy_precedence (tiers header fs)) in
      (resolved.0, answer_estimate resolved.0 i resolved.1 (estimate_workload i.numerals fs))
]

-- the workload of `generate` is the one of an estimate that requires no capability
same_workload :
    (numerals : Numerals) (fs : Fields) (w : WorkloadSpec)
    → truthy (fields_get fs "required_capabilities") ≡ false
    → generate_workload numerals fs ≡ ok w
    → estimate_workload numerals fs ≡ ok w
unfolding generate_workload estimate_workload to_tuple or_else to_list
same_workload numerals fs w none_required e =
    let (m, em, e1) = bind_inv (int_field numerals (obj fs) "max_output_tokens" (pos 0)) _ e in
    let (c, ec, e2) = bind_inv (int_field numerals (obj fs) "context_tokens" (pos 0)) _ e1 in
    let (t, et, e3) = bind_inv (float_field numerals (obj fs) "temperature" (pos 0)) _ e2 in
    rw (none_required, ec, em) e3

-- What the two handlers say of the same request at the same instant.
pub data Agree : Estimate → Result Reply → Type 0 where
  both_place :
      {e : Estimate} {run : Run} {p : Placement}
      → e.eligible ≡ true
      → e.selected_model ≡ some p.model.id
      → run.provider_id ≡ p.provider.spec.id
      → Agree e (ok (started run p))
  both_refuse :
      {e : Estimate} {m : Value} {r : PlacementRefusal}
      → e.eligible ≡ false
      → Agree e (ok (refusal m r))

report-Agree :
    (api : Api) (i : Instant) (privacy : ResolvedPrivacy) (w : WorkloadSpec) (o : Outcome)
    → Agree (report o) (conclude api i privacy w o).1
unfolding report conclude create
report-Agree api i privacy w (placed p) = both_place refl refl refl
report-Agree api i privacy w (refused r) = both_refuse refl

-- An estimate creates no run and foretells what `generate` does with the same fields at the same
-- instant: where it is eligible, a run starts on the model that it selects, and otherwise the request
-- is refused. The body has a prompt, numeric fields that can be read and no required capabilities,
-- which `generate` ignores.
pub handle_estimate-Agree :
    (api : Api) (i : Instant) (header : Value) (fs : Fields) (w : WorkloadSpec)
    → truthy (fields_get fs "required_capabilities") ≡ false
    → generate_workload i.numerals fs ≡ ok w
    → is_prompt_missing fs ≡ false
    → ((handle_estimate api i header (some (obj fs))).0.runs ≡ api.runs)
      × (e : Estimate) × ((handle_estimate api i header (some (obj fs))).1 ≡ ok (estimated e))
      × Agree e (handle_generate api i header (some (obj fs))).1
unfolding handle_estimate handle_generate generate_fields candidates_resolved answer_estimate place
    estimate
handle_estimate-Agree api i header fs w none_required g p =
    let privacy = resolve_privacy_precedence (tiers header fs) in
    let after = candidates_resolved api i privacy in
    (
      refl,
      estimate after.1 w (clock_of after.0 i),
      rw (same_workload i.numerals fs w none_required g) refl,
      rw (p, g)
          (report-Agree after.0 i privacy w (select_placement after.1 w (clock_of after.0 i))),
    )
