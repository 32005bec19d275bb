-- ===== src/Control/RunQueries.antt =====
-- app.py: the handlers `cancel_run` and `run_metadata`, with `Run.to_dict` of runs.py.
use compute_connect.Prelude.{
  ℕ, ℤ, String, true, false, Option, none, some, [], ◌∷◌, ◌≡◌, refl, inl, inr, ◌∙◌, Option-cases,
  Bool-cases, eq_refl,
}
use compute_connect.Json.{Value, null, bool, str, float, finite, obj, Fields, end, field}
use compute_connect.Dict
use compute_connect.Dict.{Dict, get-modify}
use compute_connect.Runs.Run.{Run, is_terminal, Surface, generate, openai}
use compute_connect.Runs.Registry.{
  Registry, load_from, get, cancel, request_cancel, CancelStatus, cancelling, already_finished,
  not_found,
}
use compute_connect.Session.{state_text}
use compute_connect.Control.{Api}
use compute_connect.Control.Queries.{Json, json}

abbrev pub status_text : CancelStatus → String
status_text cancelling = "cancelling"
status_text already_finished = "already_finished"
status_text not_found = "not_found"

abbrev pub status_code_of : CancelStatus → ℕ
status_code_of not_found = 404
status_code_of _ = 200

-- `cancel_run`
unfoldable pub handle_cancel_run : Api → String → Api × Json
handle_cancel_run api run_id =
    let result = cancel api.runs run_id in
    (
      record api { runs = result.0 },
      record {
        status_code = status_code_of result.1;
        content =
            obj (field "run_id" (str run_id) (field "status" (str (status_text result.1)) end));
      },
    )

abbrev pub surface_text : Surface → String
surface_text generate = "generate"
surface_text openai = "openai"

abbrev pub text_or_null : Option String → Value
text_or_null none = null
text_or_null (some s) = str s

abbrev pub time_or_null : Option ℤ → Value
time_or_null none = null
time_or_null (some t) = float (finite t)

abbrev pub fields_of : Dict Value → Fields
fields_of [] = end
fields_of ((k, v) ∷ d) = field k v (fields_of d)

-- `Run.to_dict`
unfoldable pub run_dict : Run → Value
run_dict r = obj (
    field "run_id" (str r.id) (
      field "provider_id" (str r.provider_id) (
        field "model" (text_or_null r.model) (
          field "surface" (str (surface_text r.surface)) (
            field "state" (str (state_text r.state)) (
              field "cancel_requested" (bool r.cancel_requested) (
                field "created_at" (float (finite r.created_at)) (
                  field "finished_at" (time_or_null r.finished_at)
                    (field "metrics" (obj (fields_of r.metrics)) end)))))))))

abbrev pub run_answer : Option Run → Json
run_answer none = record {
  status_code = 404;
  content = obj (field "error" (str "run not found") end);
}
run_answer (some r) = json (run_dict r)

-- `run_metadata`
unfoldable pub handle_run_metadata : Api → String → Json
handle_run_metadata api run_id = run_answer (get api.runs run_id)

-- the answer of status 200 that tells the status of the run
abbrev pub told : String → String → Json
told run_id status = json (obj (field "run_id" (str run_id) (field "status" (str status) end)))

-- What an answer to `cancel_run` means, of the service before and after.
pub data CancelAnswer (api : Api) (run_id : String) (after : Api) (answer : Json) : Type 0 where
  asked :
      (run : Run)
      → Dict.get api.runs.runs run_id ≡ some run
      → is_terminal run.state ≡ false
      → get after.runs run_id ≡ some (request_cancel run)
      → answer ≡ told run_id "cancelling"
      → CancelAnswer api run_id after answer
  over :
      (run : Run)
      → Dict.get api.runs.runs run_id ≡ some run
      → is_terminal run.state ≡ true
      → after.runs ≡ api.runs
      → answer ≡ told run_id "already_finished"
      → CancelAnswer api run_id after answer
  recorded :
      (run : Run)
      → Dict.get api.runs.runs run_id ≡ none
      → load_from api.runs.journal run_id ≡ some run
      → after.runs ≡ api.runs
      → answer ≡ told run_id "already_finished"
      → CancelAnswer api run_id after answer
  missing :
      get api.runs run_id ≡ none
      → after.runs ≡ api.runs
      → answer.status_code ≡ 404
      → answer.status_code ≡ (handle_run_metadata api run_id).status_code
      → CancelAnswer api run_id after answer

get-request_cancel :
    (reg : Registry) (run_id : String) (run : Run)
    → Dict.get reg.runs run_id ≡ some run
    → get (record reg { runs = Dict.modify reg.runs run_id request_cancel }) run_id
      ≡ some (request_cancel run)
unfolding get
get-request_cancel reg run_id run e =
    let found : Dict.get (Dict.modify reg.runs run_id request_cancel) run_id
        ≡ some (request_cancel run) =
      get-modify reg.runs run_id run_id request_cancel ∙ rw (eq_refl run_id, e) refl in
    rw (found, get) refl

-- what `cancel` returns, with what `get` finds
data Cancelled (reg : Registry) (run_id : String) : Type 0 where
  was_asked :
      (run : Run)
      → Dict.get reg.runs run_id ≡ some run
      → is_terminal run.state ≡ false
      → cancel reg run_id
        ≡ (record reg { runs = Dict.modify reg.runs run_id request_cancel }, cancelling)
      → Cancelled reg run_id
  was_over :
      (run : Run)
      → Dict.get reg.runs run_id ≡ some run
      → is_terminal run.state ≡ true
      → cancel reg run_id ≡ (reg, already_finished)
      → Cancelled reg run_id
  was_recorded :
      (run : Run)
      → Dict.get reg.runs run_id ≡ none
      → load_from reg.journal run_id ≡ some run
      → cancel reg run_id ≡ (reg, already_finished)
      → Cancelled reg run_id
  was_missing : get reg run_id ≡ none → cancel reg run_id ≡ (reg, not_found) → Cancelled reg run_id

cancel-Cancelled : (reg : Registry) (run_id : String) → Cancelled reg run_id
unfolding get cancel
cancel-Cancelled reg run_id = elim (Option-cases (Dict.get reg.runs run_id)) [
  | inl e ↦ elim (Option-cases (load_from reg.journal run_id)) [
    | inl f ↦ was_missing (rw (e, get) f) (rw (e, cancel, f) refl)
    | inr (run, f) ↦ was_recorded run e f (rw (e, cancel, f) refl)
  ]
  | inr (run, e) ↦ elim (Bool-cases (is_terminal run.state)) [
    | inl t ↦ was_over run e t (rw (e, cancel, t) refl)
    | inr t ↦ was_asked run e t (rw (e, cancel, t) refl)
  ]
]

-- A request to cancel a run that is in memory and active asks it to stop, and is answered so; where the
-- run in memory is terminal, or the run is only in the journal, no run changes and the answer is that it
-- has already finished; where it is unknown no run changes; and the answer is 404 only where the run is unknown, as is then the answer to a request for
-- the run itself.
pub handle_cancel_run-CancelAnswer :
    (api : Api) (run_id : String)
    → CancelAnswer api run_id (handle_cancel_run api run_id).0 (handle_cancel_run api run_id).1
unfolding handle_cancel_run handle_run_metadata
handle_cancel_run-CancelAnswer api run_id = elim (cancel-Cancelled api.runs run_id) [
  | was_asked run e t c ↦ rw c (asked run e t (get-request_cancel api.runs run_id run e) refl)
  | was_over run e t c ↦ rw c (over run e t refl refl)
  | was_recorded run e l c ↦ rw c (recorded run e l refl refl)
  | was_missing g c ↦ rw c (missing g refl refl (rw g refl))
]
