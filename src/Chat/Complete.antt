-- ===== src/Chat/Complete.antt =====
-- app.py, `v1_chat_completions` without `stream`: the pieces are read to the end, and one completion is
-- sent.
use compute_connect.Prelude.{
  ℕ, ◌+◌, ◌/◌, ℤ, pos, ◌+ℤ◌, ◌-ℤ◌, String, Bool, true, false, ◌&&◌, Option, none, some, List, [],
  ◌∷◌, ◌++◌, length, if◌then◌else◌, is_nonempty, ltb,
}
use Prim.Native.String.{◌++◌ as append}
use compute_connect.Json.{
  Value, str, int, arr, obj, Items, no_item, item, Fields, end, field, attribute_error, Result, ok,
  err, ◌>>=◌, fields_get,
}
use compute_connect.Number.{Numerals, to_int}
use compute_connect.Dict.{Dict}
use compute_connect.Upstream.{Next}
use compute_connect.Wire.{codes}
use compute_connect.Privacy.{ResolvedPrivacy}
use compute_connect.Placement.Types.{Placement}
use compute_connect.Provider.Registry.{Texts, has}
use compute_connect.Runs.Run.{Run, RunState}
use compute_connect.Runs.Registry.{finish}
use compute_connect.Control.{Api}
use compute_connect.Session.{
  Happening, replied, client_gone, Sink, Stamp, Counts, usage, nothing, placed_event,
  emit_generation_placed,
}
use compute_connect.Session.Generate.{marker, is_length}
use compute_connect.Session.Reading.{joined}
use compute_connect.Chat.{OpenaiError, openai_error, upstream_failed, text_of}

pub record Completion : Type 0 where
  pub run : Run
  pub placement : Placement
  pub privacy : ResolvedPrivacy
  pub messages : Items
  pub real_usage : Fields
  pub sink : Sink
  pub numerals : Numerals
  pub texts : Texts
  pub started : ℤ
  pub finished_at : ℤ
  pub emitted_at : ℤ
  pub created : ℤ
  pub stamp : Stamp

pub record Usage : Type 0 where
  pub prompt_tokens : ℤ
  pub completion_tokens : ℤ
  pub total_tokens : ℤ

abbrev pub get_or : Fields → String → Value → Value
get_or fs k default = if has fs k then fields_get fs k else default

-- `len(str(m.get("content", ""))) // 4` for one message
unfoldable pub message_tokens : Texts → Value → Result ℕ
unfolding text_of
message_tokens texts (obj fs) =
    ok (length (codes (text_of texts (get_or fs "content" (str "")))) / 4)
message_tokens texts _ = err attribute_error

-- the sum over the messages
unfoldable pub prompt_estimate : Texts → Items → Result ℕ
unfolding message_tokens
prompt_estimate texts no_item = ok 0
prompt_estimate texts (item m ms) =
    message_tokens texts m >>= λ n. prompt_estimate texts ms >>= λ k. ok (n + k)

-- `max(1, len(text) // 4)`
unfoldable pub completion_estimate : String → ℕ
completion_estimate s = let n = length (codes s) / 4 in if ltb 1 n then n else 1

unfoldable pub real_counts : Numerals → Fields → Result Usage
real_counts numerals us = to_int numerals (fields_get us "prompt_tokens") >>= λ prompt.
    to_int numerals (fields_get us "completion_tokens") >>= λ completion.
    to_int numerals (get_or us "total_tokens" (int (prompt +ℤ completion))) >>= λ total.
    ok (record { prompt_tokens = prompt; completion_tokens = completion; total_tokens = total })

unfoldable pub estimated_counts : Texts → Items → String → Result Usage
unfolding prompt_estimate completion_estimate
estimated_counts texts messages reply = prompt_estimate texts messages >>= λ prompt. ok (record {
  prompt_tokens = pos prompt;
  completion_tokens = pos (completion_estimate reply);
  total_tokens = pos (prompt + completion_estimate reply);
})

-- the real usage is trusted only if it has both counts
unfoldable pub usage_of : Completion → String → Result Usage
unfolding real_counts estimated_counts
usage_of c reply =
    if has c.real_usage "prompt_tokens" && has c.real_usage "completion_tokens"
    then real_counts c.numerals c.real_usage
    else estimated_counts c.texts c.messages reply

unfoldable pub usage_fields : Usage → Fields
usage_fields u = field "prompt_tokens" (int u.prompt_tokens) (
    field "completion_tokens" (int u.completion_tokens)
      (field "total_tokens" (int u.total_tokens) end))

-- empty content, reasoning, and the upstream ran out of tokens
unfoldable pub is_truncated : String → Sink → Bool
is_truncated content sink =
    (if is_nonempty content then false else true)
    && is_nonempty sink.reasoning
    && is_length sink.finish_reason

unfoldable pub content_of : String → Sink → String
unfolding is_truncated
content_of content sink = if is_truncated content sink then marker else content

abbrev pub plain_reason : RunState → String
plain_reason RunState.succeeded = "stop"
plain_reason _ = "cancelled"

unfoldable pub reason_for : String → Sink → RunState → String
unfolding is_truncated
reason_for content sink status = if is_truncated content sink then "length" else plain_reason status

unfoldable pub message_fields : String → Sink → Fields
unfolding content_of
message_fields content sink = field "role" (str "assistant") (
    field "content" (str (content_of content sink)) (
      if is_nonempty sink.reasoning
      then field "reasoning_content" (str sink.reasoning) end
      else end))

unfoldable pub completion_body : Completion → RunState → String → Usage → Value
unfolding message_fields reason_for usage_fields
completion_body c status reply u = obj (
    field "id" (str (append "chatcmpl-" c.run.id)) (
      field "object" (str "chat.completion") (
        field "created" (int c.created) (
          field "model" (str c.placement.model.id) (
            field "choices"
              (arr (
                item
                  (obj (
                    field "index" (int (pos 0)) (
                      field "message" (obj (message_fields reply c.sink))
                        (field "finish_reason" (str (reason_for reply c.sink status)) end))))
                  no_item))
              (field "usage" (obj (usage_fields u)) end))))))

pub data Completed : Type 0 where
  failed_with : OpenaiError → Completed
  completed : Value → Completed
  unanswered : Completed

abbrev pub chat_event : Completion → RunState → Option String → Counts → Api → Api
chat_event c status reason counts api = emit_generation_placed api (
    placed_event c.stamp c.run.id c.placement c.privacy status (c.emitted_at -ℤ c.started) reason
      counts)

unfoldable pub finish_chat : Completion → Api → RunState → Dict Value → Api
finish_chat c api status metrics = record api {
  runs = finish api.runs c.run.id status c.finished_at metrics;
}

-- `except Exception`: the run fails, and the answer is a 502
unfoldable pub fail_chat : Completion → Api → String → Api × Result Completed
unfolding finish_chat
fail_chat c api exc = (
  chat_event c RunState.failed (some exc) nothing
      (finish_chat c api RunState.failed (("error", str exc) ∷ [])),
  ok (failed_with (openai_error (upstream_failed exc) "upstream_error" 502 none)),
)

-- what follows `runs.finish`: the usage may raise
unfoldable pub answer_chat :
    Completion → Api → RunState → String → Result Usage → Api × Result Completed
answer_chat c api status reply (err e) = (api, err e)
answer_chat c api status reply (ok u) = (
  chat_event c status none (usage (usage_fields u)) api,
  ok (completed (completion_body c status reply u)),
)

abbrev pub chat_metrics : ℕ → Dict Value
chat_metrics n = ("chunks", int (pos n)) ∷ []

-- how the reading ends: with a status and the pieces, by an exception, or because the handler's task is
-- cancelled; or it has not ended yet
pub data ChatEnd : Type 0 where
  all_read : RunState → List String → ChatEnd
  broke : String → ChatEnd
  left : ChatEnd
  unfinished : ChatEnd

-- the `while True` of the handler
unfoldable pub read_parts : List String → List Happening → ChatEnd
read_parts parts [] = unfinished
read_parts parts (client_gone ∷ hs) = left
read_parts parts (replied (Next.item s) ∷ hs) = read_parts (parts ++ s ∷ []) hs
read_parts parts (replied Next.finished ∷ hs) = all_read RunState.succeeded parts
read_parts parts (replied Next.cancelled ∷ hs) = all_read RunState.cancelled parts
read_parts parts (replied (Next.raised exc) ∷ hs) = broke exc

-- A task that is cancelled finishes no run: `except Exception` does not catch its exception.
unfoldable pub conclude_reading : Completion → Api → ChatEnd → Api × Result Completed
unfolding fail_chat answer_chat finish_chat usage_of
conclude_reading c api (all_read status parts) =
    answer_chat c (finish_chat c api status (chat_metrics (length parts))) status (joined parts)
      (usage_of c (joined parts))
conclude_reading c api (broke exc) = fail_chat c api exc
conclude_reading c api left = (api, ok unanswered)
conclude_reading c api unfinished = (api, ok unanswered)

unfoldable pub complete_chat : Completion → Api → List Happening → Api × Result Completed
unfolding conclude_reading read_parts
complete_chat c api hs = conclude_reading c api (read_parts [] hs)
