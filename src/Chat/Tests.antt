-- ===== src/Chat/Tests.antt =====
-- Tests of a chat completion on the service of Control/Sample.antt, and the theorems at it.
use compute_connect.Prelude.{ap, Memᴰ, pos, true, false, ◌&&◌, some, [], ◌∷◌, ◌≡◌, refl}
use compute_connect.Number.{to_int}
use compute_connect.Json.{
  is_text, err, type_error, fields_get, Value, null, str, int, obj, arr, item, no_item, end, field,
  Fields, ok, Items,
}
use compute_connect.Dict
use compute_connect.Privacy.{resolve_privacy_precedence, resolve_privacy_tier}
use compute_connect.Runs.Run.{RunState, is_terminal}
use compute_connect.Runs.Registry.{close_run, create, trim, finished_ids, remove_all, journal_run}
use compute_connect.Provider.Registry.{has}
use compute_connect.Control.{tiers}
use compute_connect.Control.Sample.{seen, api, after, run, placement, instant, run_found}
use compute_connect.Session.{no_progress, read_all}
use compute_connect.Session.Reading.{joined}
use compute_connect.Session.Closing.{final_status}
use compute_connect.Session.Sample.{sink, stamp, two_pieces}
use compute_connect.Placement.Types.{PlacementRefusal}
use compute_connect.Provider.{ProviderSnapshot}
use mathlib.Core.List.Memᴰ
use compute_connect.Chat.{is_listed, ChatInstant, refusal_error, handle_chat, text_of}
use compute_connect.Chat.Refusal.{Lists, IsForbidden, IsRefusal, refusal_error-IsRefusal}
use compute_connect.Chat.Accepting.{ChatHandled, handle_chat-ChatHandled}
use compute_connect.Chat.Complete.{
  Completion, Usage, usage_of, all_read, read_parts, chat_metrics, complete_chat, completed,
  completion_body, completion_estimate, prompt_estimate, message_tokens, estimated_counts,
  real_counts, conclude_reading, answer_chat, finish_chat,
}
use compute_connect.Chat.Closing.{chat_close, complete_chat-closes}
use compute_connect.Chat.Answering.{IsCompletion, complete_chat-completed}

program : Unit {0}
unfolding fields_get read_parts usage_of estimated_counts real_counts prompt_estimate message_tokens
    text_of completion_estimate joined has complete_chat conclude_reading answer_chat finish_chat
    create trim finished_ids remove_all journal_run Dict.put Dict.get Dict.remove
program = tt

abbrev messages : Items
messages = item (obj (field "content" (str "0123456789") end)) no_item

abbrev completion : Completion
completion = record {
  run = run;
  placement = placement;
  privacy = resolve_privacy_tier (str "public");
  messages = messages;
  real_usage = field "prompt_tokens" (int (pos 9)) end;
  sink = sink;
  numerals = instant.numerals;
  texts = instant.texts;
  started = pos 300;
  finished_at = pos 391;
  emitted_at = pos 392;
  created = pos 0;
  stamp = stamp;
}

abbrev counted : Usage
counted = record { prompt_tokens = pos 2; completion_tokens = pos 1; total_tokens = pos 3 }

estimates : usage_of completion "Hello" ≡ ok counted
unfolding program
estimates = refl

one_missing :
    (has completion.real_usage "prompt_tokens" && has completion.real_usage "completion_tokens")
    ≡ false
unfolding program
one_missing = refl

reads_pieces : read_parts [] two_pieces ≡ all_read RunState.succeeded ("He" ∷ "llo" ∷ [])
unfolding program
reads_pieces = refl

closes_so : chat_close (read_parts [] two_pieces) ≡ some (RunState.succeeded, chat_metrics 2)
unfolding program
closes_so = refl

complete_chat-closes_example :
    (Dict.get (complete_chat completion after two_pieces).0.runs.runs completion.run.id
      ≡ some (close_run RunState.succeeded completion.finished_at (chat_metrics 2) run))
    × (is_terminal RunState.succeeded ≡ true)
    × (final_status (read_all no_progress two_pieces).ending ≡ some RunState.succeeded)
complete_chat-closes_example =
    complete_chat-closes completion after two_pieces run RunState.succeeded (chat_metrics 2)
      run_found refl closes_so

abbrev sent : Value
sent = completion_body completion RunState.succeeded "Hello" counted

sends_it : (complete_chat completion after two_pieces).1 ≡ ok (completed sent)
unfolding program
sends_it = refl

abbrev malformed : Completion
malformed = record completion {
  real_usage = field "prompt_tokens" null (field "completion_tokens" (int (pos 5)) end);
}

-- a usage block with both keys, of which one is null, raises once the run is finished; no event is
-- published
raises_on_malformed_usage :
    ((complete_chat malformed after two_pieces).1 ≡ err type_error)
    × ((complete_chat malformed after two_pieces).0.registry.bus ≡ after.registry.bus)
unfolding program to_int
raises_on_malformed_usage = (refl, refl)

complete_chat-completed_example : IsCompletion completion two_pieces sent
complete_chat-completed_example = complete_chat-completed completion after two_pieces sent sends_it

abbrev chat_instant : ChatInstant
chat_instant = record { first = instant; second_probes = instant.probes; second_now = pos 210 }

abbrev asking : Fields
asking = field "model" (str "m") (field "messages" (arr messages) end)

handle_chat-ChatHandled_example :
    ChatHandled api chat_instant
      (resolve_privacy_precedence (tiers null asking))
      asking
      (handle_chat api chat_instant null (some (obj asking)))
handle_chat-ChatHandled_example = handle_chat-ChatHandled api chat_instant null asking

abbrev refusal : PlacementRefusal
refusal = record {
  code = "privacy_constraint";
  privacy = resolve_privacy_tier null;
  rejections = [];
  detail = "";
}

only_cloud : (s : ProviderSnapshot) → Memᴰ s (seen ∷ []) → Lists (str "m") s → IsForbidden false s
only_cloud s m listed =
    (ap (λ (p : ProviderSnapshot). p.spec.placement_class) (Memᴰ.eq_of_singleton m), refl)

-- a provider that the tier allows is refused for another reason, as an old snapshot or a small window:
-- the answer is 403 all the same
tells_of_tier :
    (refusal_error instant.texts api.registry (seen ∷ []) true (str "m") refusal).status_code ≡ 403
unfolding refusal_error is_listed is_text
tells_of_tier = refl

refusal_error-IsRefusal_example :
    IsRefusal instant.texts api.registry
      (seen ∷ [])
      false
      (str "m")
      refusal
      (refusal_error instant.texts api.registry (seen ∷ []) false (str "m") refusal)
refusal_error-IsRefusal_example =
    refusal_error-IsRefusal instant.texts api.registry (seen ∷ []) false (str "m") refusal
      only_cloud
