-- ===== src/Bus.antt =====
-- src/computeconnect/buspublish.py: the best-effort publisher. The events that `publish` schedules
-- are kept in their order; sending them, and the retry or loss of one, is httpx's and is not
-- modelled. The fresh id and the clock reading of an event are arguments.
use Prim.Native.Char.{Char, code}
use Prim.Native.String.{count, ◌++◌ as append}
use compute_connect.Prelude.{
  ℕ, zero, suc, ◌-◌, ℤ, String, Bool, true, false, ◌&&◌, Option, none, some, List, [], ◌∷◌, ◌++◌,
  if◌then◌else◌, leb, ◌==◌, is_nonempty,
}
use compute_connect.Json.{Value, Fields}
pub mod Reasons
mod Tests

-- The body that `publish` posts, less the constant `source_product`.
pub record Event : Type 0 where
  pub event_type : String
  pub event_id : String
  pub ts : ℤ
  pub outcome : Option String
  pub actor : Option String
  pub privacy_tier : Option String
  pub entity_id : Option String
  pub task_id : Option String
  pub payload : Fields

pub record BusPublisher : Type 0 where
  pub enabled : Bool
  pub bus_url : String
  pub token : Option String
  pub scheduled : List Event

-- `bool(s)` of an optional text
abbrev pub is_set : Option String → Bool
is_set none = false
is_set (some s) = is_nonempty s

-- the first n characters
unfoldable pub prefix : ℕ → String → String
prefix zero s = String.[]
prefix (suc n) String.[] = String.[]
prefix (suc n) (String.◌∷◌ c s) = String.◌∷◌ c (prefix n s)

-- `s[:-1]`
unfoldable pub without_last : String → String
without_last s = prefix (count s - 1) s

-- `s[: limit - 1]`: for a limit of 0 the index is -1
unfoldable pub shortened : ℕ → String → String
unfolding prefix without_last
shortened zero s = without_last s
shortened (suc n) s = prefix n s

abbrev pub reason_max_chars : ℕ
reason_max_chars = 200

unfoldable pub text_or_empty : Option String → String
text_or_empty none = ""
text_or_empty (some s) = s

unfoldable pub truncate_reason : Option String → ℕ → String
unfolding text_or_empty shortened
truncate_reason text limit =
    let s = text_or_empty text in if leb (count s) limit then s else append (shortened limit s) "…"

abbrev is_slash : Char → Bool
is_slash c = code c == b'/'

slash_cons : Char → String → String
slash_cons c String.[] = if is_slash c then String.[] else String.◌∷◌ c String.[]
slash_cons c (String.◌∷◌ d s) = String.◌∷◌ c (String.◌∷◌ d s)

-- `s.rstrip("/")`
unfoldable pub rstrip_slashes : String → String
unfolding slash_cons
rstrip_slashes String.[] = String.[]
rstrip_slashes (String.◌∷◌ c s) = slash_cons c (rstrip_slashes s)

-- `BusPublisher.__init__`
unfoldable pub init : Option String → Option String → BusPublisher
init bus_url token = record {
  enabled = is_set bus_url && is_set token;
  bus_url = rstrip_slashes (text_or_empty bus_url);
  token = token;
  scheduled = [];
}

-- `publish`, where the event loop runs or not
unfoldable pub publish : BusPublisher → Bool → Event → BusPublisher
publish bus loop_running event =
    if bus.enabled && loop_running
    then record bus { scheduled = bus.scheduled ++ event ∷ [] }
    else bus
