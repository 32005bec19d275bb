-- ===== src/Chat/Accepting.antt =====
-- app.py, `v1_chat_completions`: which run the handler creates, and where it may run.
use compute_connect.Prelude.{pos, [], some, none, ◌≡◌, refl, ap, ◌⊎◌, inl, inr, Bool-cases, Option}
use compute_connect.Json.{
  Value, obj, str, end, to_text, or_else, Fields, Items, fields_get, truthy, PyError, type_error,
  value_error, overflow_error, attribute_error, bad_numeric_field, Result, ok, err,
}
use compute_connect.Privacy.{ResolvedPrivacy, resolve_privacy_precedence}
use compute_connect.Placement.Types.{WorkloadSpec, Placement, Outcome, placed, refused}
use compute_connect.Placement.Filter.{filter_candidates}
use compute_connect.Placement.Select.{select_placement}
use compute_connect.Placement.Guarantees.{Serves, placed-Serves}
use compute_connect.Runs.Run.{openai, new_run}
use compute_connect.Runs.Registry.{create}
use compute_connect.Control.{
  Api, snapshots, candidates_resolved, clock_of, tiers, emit_generation_refused,
}
use compute_connect.Chat.{
  ChatInstant, OpenaiError, Accepted, Decision, answered, accepted, chat_workload, text_of,
  message_list, refuse_chat, Limits, chat_limits, accept, conclude_chat, chat_fields, handle_chat,
  chat_request,
}

-- the workload of a request: the model that it names, no capability, no token, and its preferences
abbrev pub requested : ChatInstant → Fields → WorkloadSpec
requested i fs = record {
  model = str (text_of i.first.texts (fields_get fs "model"));
  required_capabilities = [];
  context_tokens = pos 0;
  max_output_tokens = pos 0;
  latency_preference = to_text (or_else (fields_get fs "latency_preference") (str "normal"));
  quality_preference = to_text (or_else (fields_get fs "quality_preference") (str "good_enough"));
  metadata = end;
}

-- a run was created for a placement that serves the request's model under the request's tier
pub record IsAccepted (api : Api) (i : ChatInstant) (privacy : ResolvedPrivacy) (fs : Fields)
    (after : Api) (decision : Result Decision) : Type 0 where
  pub chosen : Accepted
  pub serves :
      Serves
        (snapshots api i.first).1
        privacy
        (requested i fs)
        (clock_of api i.first)
        chosen.placement.provider
        chosen.placement.model
  pub selected :
      select_placement
        (filter_candidates (snapshots api i.first).1 privacy)
        (requested i fs)
        (clock_of api i.first)
      ≡ placed chosen.placement
  pub decided : decision ≡ ok (accepted chosen)
  pub of_placement :
      chosen.run
      ≡ new_run i.first.run_id chosen.placement.provider.spec.id
          (some chosen.placement.model.id)
          openai
          i.first.run_now
  pub created :
      after.runs
      ≡ (create api.runs i.first.run_id i.first.run_now chosen.placement.provider.spec.id
          (some chosen.placement.model.id)
          openai).0

pub data IsDeclined : Result Decision → Type 0 where
  was_answered : {e : OpenaiError} → IsDeclined (ok (answered e))
  has_raised : {e : PyError} → IsDeclined (err e)

abbrev pub ChatHandled :
    Api → ChatInstant → ResolvedPrivacy → Fields → Api × Result Decision → Type 0
ChatHandled api i privacy fs r =
    IsAccepted api i privacy fs r.0 r.1 ⊎ ((r.0.runs ≡ api.runs) × IsDeclined r.1)

module _ (api : Api) (i : ChatInstant) (privacy : ResolvedPrivacy) (fs : Fields) where
  accept_cases :
      (messages : Items) (p : Placement) (limits : Result Limits)
      → select_placement
          (filter_candidates (snapshots api i.first).1 privacy)
          (requested i fs)
          (clock_of api i.first)
        ≡ placed p
      → ChatHandled api i privacy fs
          (accept (candidates_resolved api i.first privacy).0 i fs messages p limits)
  unfolding accept create candidates_resolved
  accept_cases messages p (ok limits) e = inl (record {
    chosen = _;
    serves =
        placed-Serves (snapshots api i.first).1 privacy (requested i fs) (clock_of api i.first) e;
    selected = e;
    decided = refl;
    of_placement = refl;
    created = refl;
  })
  accept_cases messages p (err (bad_numeric_field key raw)) _ = inr (refl, was_answered)
  accept_cases messages p (err attribute_error) _ = inr (refl, has_raised)
  accept_cases messages p (err type_error) _ = inr (refl, has_raised)
  accept_cases messages p (err value_error) _ = inr (refl, has_raised)
  accept_cases messages p (err overflow_error) _ = inr (refl, has_raised)

  outcome_cases :
      (messages : Items) (o : Outcome)
      → select_placement
          (filter_candidates (snapshots api i.first).1 privacy)
          (requested i fs)
          (clock_of api i.first)
        ≡ o
      → ChatHandled api i privacy fs
          (conclude_chat (candidates_resolved api i.first privacy).0 i privacy fs messages o)
  unfolding conclude_chat candidates_resolved refuse_chat emit_generation_refused
  outcome_cases messages (refused r) e = inr (refl, was_answered)
  outcome_cases messages (placed p) e = accept_cases messages p (chat_limits i.first.numerals fs) e

requested-chat_workload :
    (i : ChatInstant) (fs : Fields) → requested i fs ≡ chat_workload i.first.texts fs
unfolding chat_workload
requested-chat_workload i fs = refl

request_cases :
    (api : Api) (i : ChatInstant) (header : Value) (fs : Fields) (messages : Option Items)
    → ChatHandled api i
        (resolve_privacy_precedence (tiers header fs))
        fs
        (chat_request api i header fs messages)
unfolding chat_request chat_fields candidates_resolved
request_cases api i header fs none = inr (refl, was_answered)
request_cases api i header fs (some messages) = elim (Bool-cases (truthy (fields_get fs "model"))) [
  | inl t ↦
      let privacy = resolve_privacy_precedence (tiers header fs) in
      let same =
        ap
          (λ w.
            select_placement (filter_candidates (snapshots api i.first).1 privacy) w
              (clock_of api i.first))
          (requested-chat_workload i fs) in
      rw t (outcome_cases api i privacy fs messages _ same)
  | inr t ↦ rw t (inr (refl, was_answered))
]

-- `v1_chat_completions` creates exactly the run that it goes on with, for the placement that
-- `select_placement` finds, under the stricter of the request's tiers, for the workload that names the
-- request's model and its preferences; so its provider and its model serve that model. Where it answers or raises
-- anything else, no run has changed.
pub handle_chat-ChatHandled :
    (api : Api) (i : ChatInstant) (header : Value) (fs : Fields)
    → ChatHandled api i
        (resolve_privacy_precedence (tiers header fs))
        fs
        (handle_chat api i header (some (obj fs)))
unfolding handle_chat
handle_chat-ChatHandled api i header fs =
    request_cases api i header fs (message_list (fields_get fs "messages"))
