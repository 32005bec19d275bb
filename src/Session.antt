-- ===== src/Session.antt =====
-- app.py: what the three generating handlers share: the loop that reads the upstream, and the event
-- that is published when a run ends. What `next` returns, and when the client goes away, is a list
-- of happenings.
use compute_connect.Prelude.{
  ℕ, ◌+◌, ℤ, pos, ◌-ℤ◌, String, Bool, true, false, Option, none, some, List, [], ◌∷◌, ◌++◌, length,
  if◌then◌else◌, is_nonempty,
}
use Prim.Native.String.{◌++◌ as append}
use compute_connect.Chat.{text_of}
use compute_connect.Json.{
  Value, obj, Items, no_item, item, truthy, str, int, float, finite, Fields, end, field, fields_get,
}
use compute_connect.Provider.Registry.{Texts, has}
use compute_connect.Wire.{Codes, codes, escape}
use compute_connect.Upstream.{Next, finished, cancelled, raised}
use compute_connect.Privacy.{ResolvedPrivacy}
use compute_connect.Placement.Types.{Placement}
use compute_connect.Runs.Run.{Run, RunState}
use compute_connect.Bus.{Event, publish, truncate_reason, reason_max_chars}
use compute_connect.Control.{Api}
pub mod Generate
pub mod Reading
pub mod Body
pub mod Closing
pub mod Sse
pub mod SseClosing
pub mod Streamed
pub mod Incremental
pub mod Sample
mod Tests

pub data Happening : Type 0 where
  replied : Next String → Happening
  client_gone : Happening

-- what the handler has counted, and the pieces that it has read
pub record Progress : Type 0 where
  pub chunks : ℕ
  pub chars : ℕ
  pub parts : List String

abbrev pub no_progress : Progress
no_progress = record { chunks = 0; chars = 0; parts = [] }

-- `chunks += 1`, `chars += len(item)`
abbrev pub count_item : Progress → String → Progress
count_item p s = record {
  chunks = p.chunks + 1;
  chars = p.chars + length (codes s);
  parts = p.parts ++ s ∷ [];
}

-- how the loop ends: with a status and a warning, or because the client went away; or it has not
-- ended yet
pub data End : Type 0 where
  ended : RunState → Option String → End
  gone : End
  waiting : End

pub record Outcome : Type 0 where
  pub progress : Progress
  pub ending : End

-- the `while True` with its `except` clauses
unfoldable pub read_all : Progress → List Happening → Outcome
read_all p [] = record { progress = p; ending = waiting }
read_all p (client_gone ∷ more) = record { progress = p; ending = gone }
read_all p (replied (Next.item s) ∷ more) = read_all (count_item p s) more
read_all p (replied finished ∷ more) = record {
  progress = p;
  ending = ended RunState.succeeded none;
}
read_all p (replied cancelled ∷ more) = record {
  progress = p;
  ending = ended RunState.cancelled (some "run cancelled by request");
}
read_all p (replied (raised exc) ∷ more) = record {
  progress = p;
  ending = ended RunState.failed (some (append "upstream engine error: " exc));
}

-- `reasoning_sink`, as it stands when the loop has ended
pub record Sink : Type 0 where
  pub reasoning : String
  pub finish_reason : Option String

-- the text of a state, as the source writes it
abbrev pub state_text : RunState → String
state_text RunState.running = "running"
state_text RunState.succeeded = "succeeded"
state_text RunState.failed = "failed"
state_text RunState.cancelled = "cancelled"
state_text RunState.refused = "refused"
state_text RunState.disconnected = "disconnected"
state_text RunState.interrupted = "interrupted"

-- `_RUN_STATE_TO_OUTCOME.get(status, "unknown")`
abbrev pub bus_outcome : RunState → String
bus_outcome RunState.succeeded = "succeeded"
bus_outcome RunState.failed = "failed"
bus_outcome RunState.cancelled = "cancelled"
bus_outcome RunState.disconnected = "cancelled"
bus_outcome _ = "unknown"

-- the id and the time that `publish` stamps on an event
pub record Stamp : Type 0 where
  pub event_id : String
  pub ts : ℤ

-- `reason`, where it is given and not empty
unfoldable pub with_reason : Option String → Fields → Fields
with_reason none fs = fs
with_reason (some s) fs =
    if is_nonempty s
    then field "reason" (str (truncate_reason (some s) reason_max_chars)) fs
    else fs

-- the counts of an event: the usage where there is one, and otherwise the number of characters
pub data Counts : Type 0 where
  usage : Fields → Counts
  output_chars : ℕ → Counts
  nothing : Counts

-- `if key in usage: payload[key] = usage[key]`
unfoldable pub add_count : Fields → String → Fields → Fields
add_count us k fs = if has us k then field k (fields_get us k) fs else fs

unfoldable pub with_counts : Counts → Fields → Fields
unfolding add_count
with_counts (usage us) fs =
    add_count us "prompt_tokens" (add_count us "completion_tokens" (add_count us "total_tokens" fs))
with_counts (output_chars n) fs = field "output_chars" (int (pos n)) fs
with_counts nothing fs = fs

unfoldable pub placed_event :
    Stamp → String → Placement → ResolvedPrivacy → RunState → ℤ → Option String → Counts → Event
unfolding with_reason with_counts
placed_event stamp run_id placement privacy status duration reason counts = record {
  event_type = "compute.generation.placed";
  event_id = stamp.event_id;
  ts = stamp.ts;
  outcome = some (bus_outcome status);
  actor = some "computeconnect";
  privacy_tier = some privacy.effective;
  entity_id = some run_id;
  task_id = none;
  payload = field "provider_id" (str placement.provider.spec.id) (
      field "placement_class" (str placement.provider.spec.placement_class) (
        field "selected_model" (str placement.model.id) (
          field "privacy_tier" (str privacy.effective) (
            field "elapsed_seconds" (float (finite duration))
              (with_counts counts (with_reason reason end))))));
}

-- `_emit_generation_placed`
unfoldable pub emit_generation_placed : Api → Event → Api
emit_generation_placed api event = record api {
  registry = record api.registry { bus = publish api.registry.bus true event };
}

abbrev role_message : String → String → Value
role_message role content = obj (field "role" (str role) (field "content" (str content) end))

-- `_messages_from_generate`
unfoldable pub messages_from_generate : Texts → Fields → Items
messages_from_generate texts body =
    let prompt = if has body "prompt" then fields_get body "prompt" else str "" in
    let user = item (role_message "user" (text_of texts prompt)) no_item in
    if truthy (fields_get body "context")
    then item (role_message "system" (text_of texts (fields_get body "context"))) user
    else user
