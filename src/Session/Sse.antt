-- ===== src/Session/Sse.antt =====
-- app.py, `_openai_sse`: the streamed response of the inference layer.
use compute_connect.Prelude.{ℤ, pos, ◌-ℤ◌, ◌*ℤ◌, String, none, List, [], ◌∷◌, ◌++◌}
use Prim.Native.String.{◌++◌ as append}
use compute_connect.Json.{Value, null, str, int, arr, obj, no_item, item, Fields, end, field}
use compute_connect.Dict.{Dict}
use compute_connect.Wire.{Codes, codes, dumps, NumberTexts}
use compute_connect.Privacy.{ResolvedPrivacy}
use compute_connect.Placement.Types.{Placement}
use compute_connect.Runs.Run.{Run, RunState}
use compute_connect.Runs.Registry.{finish}
use compute_connect.Control.{Api}
use compute_connect.Session.{
  Progress, no_progress, ended, gone, waiting, Outcome, read_all, Stamp, Counts, usage, nothing,
  placed_event, emit_generation_placed,
}
use compute_connect.Session.Generate.{Served, Visit, left_at_opening, stayed}

-- `created` is the time of the start in whole seconds, the other times are in ten-thousandths
pub record SseSession : Type 0 where
  pub run : Run
  pub placement : Placement
  pub privacy : ResolvedPrivacy
  pub real_usage : Fields
  pub created : ℤ
  pub finished_at : ℤ
  pub emitted_at : ℤ
  pub stamp : Stamp
  pub texts : NumberTexts

-- the payload of `chunk(delta, finish)`
unfoldable pub payload : SseSession → Fields → Value → Value
payload session delta reason = obj (
    field "id" (str (append "chatcmpl-" session.run.id)) (
      field "object" (str "chat.completion.chunk") (
        field "created" (int session.created) (
          field "model" (str session.placement.model.id) (
            field "choices"
              (arr (
                item
                  (obj (
                    field "index" (int (pos 0))
                      (field "delta" (obj delta) (field "finish_reason" reason end))))
                  no_item))
              end)))))

unfoldable pub sse_line : Codes → Codes
sse_line s = codes "data: " ++ (s ++ codes "\n\n")

unfoldable pub chunk : SseSession → Fields → Value → Codes
unfolding payload sse_line
chunk session delta reason = sse_line (dumps session.texts (payload session delta reason))

unfoldable pub content_chunks : SseSession → List String → Codes
unfolding chunk
content_chunks session [] = []
content_chunks session (s ∷ ss) =
    chunk session (field "content" (str s) end) null ++ content_chunks session ss

-- `real_usage or None`, of which the event takes the three counts
abbrev pub usage_counts : Fields → Counts
usage_counts end = nothing
usage_counts (field k v fs) = usage (field k v fs)

-- `time.time() - created`
abbrev pub elapsed : SseSession → ℤ
elapsed session = session.emitted_at -ℤ session.created *ℤ pos 10000

unfoldable pub close_sse : SseSession → Api → Progress → RunState → Api
close_sse session api p status =
    let run_id = session.run.id in
    let metrics : Dict Value = ("chunks", int (pos p.chunks)) ∷ [] in
    emit_generation_placed
      (record api { runs = finish api.runs run_id status session.finished_at metrics })
      (placed_event session.stamp run_id session.placement session.privacy status (elapsed session)
        none (usage_counts session.real_usage))

-- `finish`; the statuses that the loop ends with are the first three
abbrev pub finish_text : RunState → String
finish_text RunState.succeeded = "stop"
finish_text RunState.cancelled = "cancelled"
finish_text RunState.failed = "error"
finish_text _ = ""

unfoldable pub first_chunk : SseSession → Codes
unfolding chunk
first_chunk session = chunk session (field "role" (str "assistant") end) null

unfoldable pub last_chunks : SseSession → RunState → Codes
unfolding chunk sse_line
last_chunks session status =
    chunk session end (str (finish_text status)) ++ sse_line (codes "[DONE]")

unfoldable pub after_sse_loop : SseSession → Api → Outcome → Served
unfolding first_chunk content_chunks last_chunks close_sse
after_sse_loop session api o =
    let read = first_chunk session ++ content_chunks session o.progress.parts in
    elim o.ending [
      | ended status warning ↦ record {
        api = close_sse session api o.progress status;
        body = read ++ last_chunks session status;
      }
      | gone ↦ record { api = close_sse session api o.progress RunState.disconnected; body = read }
      | waiting ↦ record { api = api; body = read }
    ]

unfoldable pub openai_sse : SseSession → Api → Visit → Served
unfolding after_sse_loop first_chunk
openai_sse session api left_at_opening = record { api = api; body = first_chunk session }
openai_sse session api (stayed happenings) =
    after_sse_loop session api (read_all no_progress happenings)
