-- ===== src/Engine/Stream.antt =====
-- src/computeconnect/engines.py: `LlamaCppEngine.stream_chat`, from the response on. What httpx delivers,
-- `json.loads`, `str` of an exception and `dict.update` of a list are arguments.
use Prim.Native.Char.{code}
use Prim.Native.String.{◌++◌ as append}
use compute_connect.Prelude.{
  ℕ, String, Bool, ◌&&◌, Option, none, some, List, [], ◌∷◌, ◌++◌, str_eq, strip, is_nonempty, ◌==◌,
  if◌then◌else◌,
}
use compute_connect.Json.{
  Value, null, str, arr, obj, Items, no_item, item, Fields, end, field, PyError, attribute_error,
  type_error, value_error, Result, ok, err, truthy, or_else, fields_get,
}
use compute_connect.Provider.Registry.{has}
use compute_connect.Upstream.{Ending, exhausted, failed}

-- what the response brings: a line, or an exception of httpx
pub data Received : Type 0 where
  line : String → Received
  broken : String → Received

-- the request raises, the answer is no 200, or the lines come
pub data Response : Type 0 where
  unreachable : String → Response
  rejected : ℕ → String → Response
  streaming : List Received → Response

pub record Tools : Type 0 where
  pub json_loads : String → Option Value
  pub exception_text : PyError → String
  pub rejected_text : ℕ → String → String
  pub update_of : Items → Result Fields

-- which of the two sinks the caller passes
pub record Sinks : Type 0 where
  pub usage : Bool
  pub reasoning : Bool

-- what was yielded, and the two sinks; null is a finish reason that was not set
pub record Heard : Type 0 where
  pub pieces : List Value
  pub reasoning : String
  pub finish_reason : Value
  pub usage : Fields

abbrev pub nothing_heard : Heard
nothing_heard = record { pieces = []; reasoning = ""; finish_reason = null; usage = end }

pub data Hearing : Type 0 where
  go_on : Heard → Hearing
  finished : Heard → Hearing
  stopped : Heard → PyError → Hearing

-- the rest of a chunk is read only where the part before it raised nothing
abbrev pub and_then : Hearing → (Heard → Hearing) → Hearing
and_then (go_on h) continue = continue h
and_then (finished h) continue = finished h
and_then (stopped h e) continue = stopped h e

unfoldable pub add_content : Value → Heard → Heard
add_content v h = if truthy v then record h { pieces = h.pieces ++ v ∷ [] } else h

unfoldable pub note_finish : Sinks → Value → Heard → Heard
note_finish sinks v h = if truthy v && sinks.reasoning then record h { finish_reason = v } else h

-- `text + reasoning`, which takes a text only
unfoldable pub add_reasoning : Value → Heard → Hearing
add_reasoning (str s) h = go_on (record h { reasoning = append h.reasoning s })
add_reasoning _ h = stopped h type_error

unfoldable pub note_reasoning : Sinks → Value → Heard → Hearing
unfolding add_reasoning
note_reasoning sinks v h = if truthy v && sinks.reasoning then add_reasoning v h else go_on h

unfoldable pub hear_delta : Sinks → Value → Value → Heard → Hearing
unfolding add_content note_reasoning note_finish
hear_delta sinks (obj ds) reason h =
    and_then
      (note_reasoning sinks (fields_get ds "reasoning_content")
        (add_content (fields_get ds "content") h))
      (λ h'. go_on (note_finish sinks reason h'))
hear_delta sinks _ reason h = stopped h attribute_error

-- one `choice`
unfoldable pub hear_choice : Sinks → Value → Heard → Hearing
unfolding hear_delta
hear_choice sinks (obj fs) h =
    hear_delta sinks (or_else (fields_get fs "delta") (obj end)) (fields_get fs "finish_reason") h
hear_choice sinks _ h = stopped h attribute_error

unfoldable pub hear_all : Sinks → Items → Heard → Hearing
unfolding hear_choice
hear_all sinks no_item h = go_on h
hear_all sinks (item c cs) h = and_then (hear_choice sinks c h) (λ h'. hear_all sinks cs h')

-- what iterating over the value of `choices` does: the items of a text or a dict have no `get`
unfoldable pub hear_choices : Sinks → Value → Heard → Hearing
unfolding hear_all
hear_choices sinks (arr cs) h = hear_all sinks cs h
hear_choices sinks (obj end) h = go_on h
hear_choices sinks (obj (field k v fs)) h = stopped h attribute_error
hear_choices sinks (str s) h = if is_nonempty s then stopped h attribute_error else go_on h
hear_choices sinks _ h = stopped h type_error

abbrev pub updated : Heard → Result Fields → Hearing
updated h (ok fs) = go_on (record h { usage = fs })
updated h (err e) = stopped (record h { usage = end }) e

-- the sink is cleared, and then updated with what the chunk reports
unfoldable pub update_usage : Tools → Value → Heard → Hearing
update_usage tools (obj fs) h = updated h (ok fs)
update_usage tools (arr no_item) h = updated h (ok end)
update_usage tools (arr (item v vs)) h = updated h (tools.update_of (item v vs))
update_usage tools (str s) h = updated h (if is_nonempty s then err value_error else ok end)
update_usage tools _ h = updated h (err type_error)

unfoldable pub hear_usage : Tools → Sinks → Value → Heard → Hearing
unfolding update_usage
hear_usage tools sinks null h = go_on h
hear_usage tools sinks v h = if sinks.usage then update_usage tools v h else go_on h

-- `chunk.get("choices", [])`
abbrev pub choices_of : Fields → Value
choices_of fs = if has fs "choices" then fields_get fs "choices" else arr no_item

unfoldable pub hear_chunk : Tools → Sinks → Value → Heard → Hearing
unfolding hear_choices hear_usage
hear_chunk tools sinks (obj fs) h =
    and_then (hear_choices sinks (choices_of fs) h)
      (λ h'. hear_usage tools sinks (fields_get fs "usage") h')
hear_chunk tools sinks _ h = stopped h attribute_error

-- what stands behind a prefix
unfoldable pub after_prefix : String → String → Option String
after_prefix String.[] s = some s
after_prefix (String.◌∷◌ c p) String.[] = none
after_prefix (String.◌∷◌ c p) (String.◌∷◌ d s) =
    let rest = after_prefix p s in if code c == code d then rest else none

-- the data of a line that starts with `data:`
unfoldable pub data_of : String → Option String
unfolding after_prefix
data_of s = elim (after_prefix "data:" s) [ none ↦ none | some rest ↦ some (strip rest) ]

abbrev pub hear_parsed : Tools → Sinks → Option Value → Heard → Hearing
hear_parsed tools sinks none h = go_on h
hear_parsed tools sinks (some v) h = hear_chunk tools sinks v h

abbrev pub hear_data : Tools → Sinks → Option String → Heard → Hearing
hear_data tools sinks none h = go_on h
hear_data tools sinks (some sent) h =
    if str_eq sent "[DONE]" then finished h else hear_parsed tools sinks (tools.json_loads sent) h

-- one line of the response
unfoldable pub hear_line : Tools → Sinks → String → Heard → Hearing
unfolding data_of hear_chunk
hear_line tools sinks s h = hear_data tools sinks (data_of s) h

-- what a stream has given when it ends
pub record Told : Type 0 where
  pub heard : Heard
  pub ending : Ending

abbrev pub tell : Tools → Hearing → (Heard → Told) → Told
tell tools (go_on h) continue = continue h
tell tools (finished h) continue = record { heard = h; ending = exhausted }
tell tools (stopped h e) continue = record { heard = h; ending = failed (tools.exception_text e) }

-- the loop over the lines
unfoldable pub listen : Tools → Sinks → List Received → Heard → Told
unfolding hear_line
listen tools sinks [] h = record { heard = h; ending = exhausted }
listen tools sinks (broken exc ∷ rs) h = record { heard = h; ending = failed exc }
listen tools sinks (line s ∷ rs) h =
    tell tools (hear_line tools sinks s h) (λ h'. listen tools sinks rs h')

-- `stream_chat`
unfoldable pub stream_chat : Tools → Sinks → Response → Told
unfolding listen
stream_chat tools sinks (unreachable exc) = record { heard = nothing_heard; ending = failed exc }
stream_chat tools sinks (rejected status detail) = record {
  heard = nothing_heard;
  ending = failed (tools.rejected_text status detail);
}
stream_chat tools sinks (streaming rs) = listen tools sinks rs nothing_heard
