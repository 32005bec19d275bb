-- ===== src/Engine/Sample.antt =====
-- The stream of a real server: a chunk with an index and an empty delta, one with a text and reasoning, the
-- chunk of the usage without a choice, and a line that carries no data. It is the data of the tests.
use compute_connect.Prelude.{
  true, pos, some, none, [], ◌∷◌, List, refl, inl, strip, str_eq, if◌then◌else◌,
}
use compute_connect.Json.{
  Value, null, str, int, arr, obj, no_item, item, Fields, end, field, value_error, err, fields_get,
}
use compute_connect.Provider.Registry.{has}
use compute_connect.Upstream.{exhausted}
use compute_connect.Engine.Stream.{Received, line, Tools, Sinks, data_of, after_prefix}
use compute_connect.Engine.Conforming.{
  Report, IsChunk, no_choice, a_choice, Conforms, carries, noise, done,
}

-- a chunk with an id, and one choice with an index
abbrev chunk_with : Value → Value → Value
chunk_with delta reason = obj (
    field "id" (str "chatcmpl-1") (
      field "choices"
        (arr (
          item
            (obj (
              field "index" (int (pos 0)) (field "delta" delta (field "finish_reason" reason end))))
            no_item))
        end))

abbrev opening_chunk : Value
opening_chunk = chunk_with (obj end) null

abbrev speaking : Value
speaking =
    chunk_with (obj (field "content" (str "Hi") (field "reasoning_content" (str "hm") end)))
      (str "stop")

abbrev counts : Fields
counts = field "prompt_tokens" (int (pos 1)) end

abbrev counting : Value
counting = obj (field "choices" (arr no_item) (field "usage" (obj counts) end))

abbrev pub opened : Report
opened = record {
  choices = record { content = none; reasoning = none; finish_reason = none } ∷ [];
  usage = none;
}

abbrev pub spoke : Report
spoke = record {
  choices = record { content = some "Hi"; reasoning = some "hm"; finish_reason = some "stop" } ∷ [];
  usage = none;
}

abbrev pub counted : Report
counted = record { choices = []; usage = some counts }

abbrev pub tools : Tools
tools = record {
  json_loads = λ t.
      if str_eq t "o"
      then some opening_chunk
      else (if str_eq t "s" then some speaking else (if str_eq t "u" then some counting else none));
  exception_text = λ e. "error";
  rejected_text = λ status detail. detail;
  update_of = λ vs. err value_error;
}

abbrev pub both_sinks : Sinks
both_sinks = record { usage = true; reasoning = true }

abbrev pub lines : List Received
lines =
    line "data: o"
    ∷ line "data: s"
    ∷ line ": ping"
    ∷ line "data: u"
    ∷ line "data: [DONE]"
    ∷ line "data: s"
    ∷ []

abbrev pub reports : List Report
reports = opened ∷ spoke ∷ counted ∷ []

opening_chunk-IsChunk : IsChunk opening_chunk opened
unfolding fields_get has
opening_chunk-IsChunk = record {
  fs = _;
  items = _;
  chunk = refl;
  listed = refl;
  choices =
      a_choice
        (record {
          fs = _;
          ds = end;
          choice = refl;
          delta = inl refl;
          content = refl;
          reasoning = refl;
          finish_reason = refl;
        })
        no_choice;
  usage = refl;
}

speaking-IsChunk : IsChunk speaking spoke
unfolding fields_get has
speaking-IsChunk = record {
  fs = _;
  items = _;
  chunk = refl;
  listed = refl;
  choices =
      a_choice
        (record {
          fs = _;
          ds = _;
          choice = refl;
          delta = inl refl;
          content = refl;
          reasoning = refl;
          finish_reason = refl;
        })
        no_choice;
  usage = refl;
}

counting-IsChunk : IsChunk counting counted
unfolding fields_get has
counting-IsChunk = record {
  fs = _;
  items = no_item;
  chunk = refl;
  listed = refl;
  choices = no_choice;
  usage = refl;
}

pub lines-Conforms : Conforms tools lines reports exhausted
unfolding data_of after_prefix strip
lines-Conforms =
    carries "data: o" opened ("o", refl, refl, (opening_chunk, refl, opening_chunk-IsChunk))
      (carries "data: s" spoke ("s", refl, refl, (speaking, refl, speaking-IsChunk))
        (noise ": ping" (inl refl) (
          carries "data: u" counted ("u", refl, refl, (counting, refl, counting-IsChunk))
            (done "data: [DONE]" (line "data: s" ∷ []) refl))))
