-- ===== src/Engine/Tests.antt =====
-- Tests of the engines, and the theorem on a stream with a line that carries no data.
use compute_connect.Prelude.{map, none, true, pos, false, some, [], ◌∷◌, ◌≡◌, refl, strip}
use compute_connect.Json.{null, str, obj, end, field, fields_get, or_else, truthy}
use compute_connect.Number.{to_int}
use compute_connect.Provider.Registry.{has, returned}
use compute_connect.Upstream.{exhausted, failed}
use compute_connect.Chat.{text_of}
use compute_connect.Engine.{SimulatedCloudEngine}
use compute_connect.Engine.Stream.{
  line, streaming, nothing_heard, data_of, after_prefix, stream_chat, listen, hear_line, hear_chunk,
  hear_choices, hear_all, hear_choice, hear_delta, add_content, note_reasoning, add_reasoning,
  note_finish, hear_usage, update_usage,
}
use compute_connect.Engine.Conforming.{
  or_null, all_choices, contents, all_reasoning, last_finish, last_usage,
}
use compute_connect.Engine.Listening.{stream_chat-Conforms}
use compute_connect.Engine.Sample.{both_sinks, tools, lines, reports, lines-Conforms}
use compute_connect.Engine.Probing.{
  body_text, llama_health, first_chars, listed_model, listed_models, models_of, parse_models,
}
use compute_connect.Engine.Simulated.{speak, speak_tokens, token_count}

program : Unit {0}
unfolding data_of after_prefix strip stream_chat listen hear_line hear_chunk hear_choices hear_all
    hear_choice hear_delta add_content note_reasoning add_reasoning note_finish hear_usage
    update_usage fields_get or_else truthy has llama_health first_chars listed_model listed_models
    models_of parse_models to_int text_of speak speak_tokens token_count
program = tt

stream_chat-Conforms_example : stream_chat tools both_sinks (streaming lines) ≡ record {
  heard = record {
    pieces = map str (contents (all_choices reports));
    reasoning = all_reasoning (all_choices reports);
    finish_reason = or_null (last_finish none (all_choices reports));
    usage = last_usage end reports;
  };
  ending = exhausted;
}
stream_chat-Conforms_example =
    stream_chat-Conforms tools both_sinks lines reports exhausted lines-Conforms

-- a usage that is no dict raises only where the caller asks for the usage
malformed_usage :
    (stream_chat
        (record tools { json_loads = λ t. some (obj (field "usage" (str "x") end)) })
        both_sinks
        (streaming (line "data: c" ∷ []))
      ≡ record { heard = nothing_heard; ending = failed "error" })
    × (stream_chat
          (record tools { json_loads = λ t. some (obj (field "usage" (str "x") end)) })
          (record { usage = false; reasoning = true })
          (streaming (line "data: c" ∷ []))
        ≡ record { heard = nothing_heard; ending = exhausted })
unfolding program
malformed_usage = (refl, refl)

-- a chunk whose `choices` is null ends the stream in a TypeError
stops_on_null :
    stream_chat
      (record tools { json_loads = λ t. some (obj (field "choices" null end)) })
      both_sinks
      (streaming (line "data: c" ∷ []))
    ≡ record { heard = nothing_heard; ending = failed "error" }
unfolding program
stops_on_null = refl

reads_plain_health :
    llama_health (body_text " OK\n")
    ≡ returned (obj (field "status" (str "ok") (field "raw" (str "OK") end)))
unfolding program
reads_plain_health = refl

abbrev cloud : SimulatedCloudEngine
cloud = record {
  token_delay = pos 50;
  response_tokens = pos 3;
  fail_health = false;
  fail_after_tokens = some (pos 1);
  models = [];
}

breaks_off : speak_tokens (λ i. "n") cloud (pos 2) ≡ record {
  pieces = "sim-token-n " ∷ [];
  ending = failed "simulated mid-stream provider failure";
}
unfolding program
breaks_off = refl
