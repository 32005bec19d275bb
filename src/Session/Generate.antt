-- ===== src/Session/Generate.antt =====
-- app.py, `_generate_stream`: the response of `generate`, the text that it yields and what it does to
-- the run. The clock readings and the wire form of the placement's rationale are arguments.
use compute_connect.Prelude.{
  ℕ, ℤ, pos, ◌-ℤ◌, String, Bool, true, false, ◌&&◌, Option, none, some, List, [], ◌∷◌, ◌++◌, length,
  if◌then◌else◌, is_nonempty, ◌==◌, str_eq,
}
use Prim.Native.String.{◌++◌ as append}
use compute_connect.Json.{
  Value, str, int, float, finite, arr, obj, Items, no_item, item, end, field,
}
use compute_connect.Dict.{Dict}
use compute_connect.Wire.{Codes, codes, escape, quoted, dumps, NumberTexts}
use compute_connect.Engine
use compute_connect.Privacy.{ResolvedPrivacy}
use compute_connect.Placement.Types.{Placement}
use compute_connect.Runs.Run.{Run, RunState}
use compute_connect.Runs.Registry.{finish}
use compute_connect.Control.{Api}
use compute_connect.Session.{
  Happening, Progress, no_progress, ended, gone, waiting, Outcome, read_all, Sink, state_text,
  Stamp, output_chars, placed_event, emit_generation_placed,
}

-- what a session of `_generate_stream` is given
pub record Session : Type 0 where
  pub run : Run
  pub placement : Placement
  pub privacy : ResolvedPrivacy
  pub rationale : Value
  pub sink : Sink
  pub started : ℤ
  pub measured_at : ℤ
  pub finished_at : ℤ
  pub answered_at : ℤ
  pub stamp : Stamp
  pub texts : NumberTexts

abbrev pub marker : String
marker = "[truncated: model was still reasoning; increase max_tokens]"

unfoldable pub fallback_text : Sink → String
fallback_text sink = append marker (append "\n\n" sink.reasoning)

abbrev pub is_succeeded : RunState → Bool
is_succeeded RunState.succeeded = true
is_succeeded _ = false

abbrev pub is_length : Option String → Bool
is_length none = false
is_length (some s) = str_eq s "length"

-- the condition for the marker: a run that succeeded in reasoning only, and ran out of tokens
unfoldable pub needs_marker : RunState → ℕ → Sink → Bool
needs_marker status chars sink =
    is_succeeded status && chars == 0 && is_nonempty sink.reasoning && is_length sink.finish_reason

-- `persisted_chars`
unfoldable pub persisted_chars : RunState → ℕ → Sink → ℕ
unfolding needs_marker fallback_text
persisted_chars status chars sink =
    if needs_marker status chars sink then length (codes (fallback_text sink)) else chars

-- the metrics that the run keeps
abbrev pub kept_metrics : ℕ → ℕ → ℤ → Dict Value
kept_metrics chunks chars duration =
    ("chunks", int (pos chunks))
    ∷ ("output_chars", int (pos chars))
    ∷ ("duration_seconds", float (finite duration))
    ∷ []

-- a reason is given only where the run did not succeed
abbrev pub reason_of : RunState → Option String → Option String
reason_of RunState.succeeded warning = none
reason_of _ warning = warning

-- the `finally`: the run is finished and the event is published
unfoldable pub close : Session → Api → Progress → RunState → Option String → Api
unfolding persisted_chars
close session api p status warning =
    let chars = persisted_chars status p.chars session.sink in
    let duration = session.measured_at -ℤ session.started in
    let run_id = session.run.id in
    let runs =
      finish api.runs run_id status session.finished_at (kept_metrics p.chunks chars duration) in
    emit_generation_placed (record api { runs = runs })
      (placed_event session.stamp run_id session.placement session.privacy status duration
        (reason_of status warning) (output_chars chars))

-- the first chunk
unfoldable pub opening : Session → Codes
opening session =
    codes "{\"run_id\": "
    ++ (quoted (codes session.run.id)
        ++ (codes ", \"model\": "
            ++ (quoted (codes session.placement.model.id)
                ++ (codes ", \"runtime\": "
                    ++ (quoted (codes (Engine.name session.placement.provider.spec.engine))
                        ++ codes ", \"output\": \"")))))

-- the chunks of the loop
unfoldable pub delta_chunks : List String → Codes
delta_chunks [] = []
delta_chunks (s ∷ ss) = escape (codes s) ++ delta_chunks ss

unfoldable pub text_items : List String → Items
text_items [] = no_item
text_items (s ∷ ss) = item (str s) (text_items ss)

abbrev pub marker_warning : String
marker_warning =
    "reasoning truncated by max_output_tokens before any content was produced; output carries a marker plus the raw reasoning"

abbrev pub warning_list : Option String → List String
warning_list none = []
warning_list (some w) = w ∷ []

abbrev pub warnings : Bool → Option String → List String
warnings marked warning = warning_list warning ++ (if marked then marker_warning ∷ [] else [])

unfoldable pub final_metrics : Session → ℕ → ℕ → Value
final_metrics session chunks chars = obj (
    field "run_id" (str session.run.id) (
      field "provider_id" (str session.placement.provider.spec.id) (
        field "placement_class" (str session.placement.provider.spec.placement_class) (
          field "chunks" (int (pos chunks)) (
            field "output_chars" (int (pos chars)) (
              field "duration_seconds" (float (finite (session.answered_at -ℤ session.started))) (
                field "estimated_cost_usd" (float (finite (pos 0)))
                  (field "rationale" session.rationale end))))))))

-- the last chunk
unfoldable pub closing : Session → ℕ → ℕ → RunState → List String → Codes
closing session chunks chars status notes =
    codes "\", \"status\": "
    ++ (dumps session.texts (str (state_text status))
        ++ (codes ", \"metrics\": "
            ++ (dumps session.texts (final_metrics session chunks chars)
                ++ (codes ", \"warnings\": "
                    ++ (dumps session.texts (arr (text_items notes))
                        ++ (codes ", \"reasoning_content\": "
                            ++ (dumps session.texts (str session.sink.reasoning) ++ codes "}")))))))

-- the service after a session and the text that was yielded
pub record Served : Type 0 where
  pub api : Api
  pub body : Codes

-- what follows the `finally`
unfoldable pub finale : Session → Progress → RunState → Option String → Codes
unfolding needs_marker fallback_text
finale session p status warning =
    let marked = needs_marker status p.chars session.sink in
    let fallback = codes (fallback_text session.sink) in
    (if marked then escape fallback else [])
    ++ closing session p.chunks (if marked then length fallback else p.chars) status
        (warnings marked warning)

-- the session from its loop on
unfoldable pub after_loop : Session → Api → Outcome → Served
after_loop session api o = elim o.ending [
  | ended status warning ↦ record {
    api = close session api o.progress status warning;
    body =
        opening session
        ++ (delta_chunks o.progress.parts ++ finale session o.progress status warning);
  }
  | gone ↦ record {
    api = close session api o.progress RunState.disconnected none;
    body = opening session ++ delta_chunks o.progress.parts;
  }
  | waiting ↦ record { api = api; body = opening session ++ delta_chunks o.progress.parts }
]

-- The client may go away while the first chunk is sent, before the loop; otherwise the loop reads the
-- happenings.
pub data Visit : Type 0 where
  left_at_opening : Visit
  stayed : List Happening → Visit

unfoldable pub generate_stream : Session → Api → Visit → Served
unfolding after_loop
generate_stream session api left_at_opening = record { api = api; body = opening session }
generate_stream session api (stayed happenings) =
    after_loop session api (read_all no_progress happenings)
