-- ===== src/Provider/Registry.antt =====
-- src/computeconnect/providers.py: the registry's cache and what a probe does to it. The registered
-- ids are distinct, so that the entry `_cache[spec.id]` is kept beside its spec. What the engine and
-- the clock answer during a probe is an argument, as is `str(v)` for a value that is no text.
use Prim.Native.String.{◌++◌ as append}
use compute_connect.Prelude.{
  ℤ, pos, String, Bool, true, false, not, ◌||◌, Option, none, some, List, [], ◌∷◌, str_eq, str_in,
  if◌then◌else◌,
}
use compute_connect.Json.{Value, str, Fields, end, field, fields_get}
use compute_connect.Engine.{ModelInfo}
use compute_connect.Provider.{ProviderSpec}
use compute_connect.Bus.{BusPublisher, Event, publish, truncate_reason, reason_max_chars}

pub data Classification : Type 0 where
  healthy degraded offline : Classification

pub record CacheEntry : Type 0 where
  pub taken_at : ℤ
  pub healthy : Bool
  pub detail : String
  pub models : List ModelInfo
  pub last_known_models : List ModelInfo
  pub classification : Option Classification

abbrev pub never_probed : CacheEntry
never_probed = record {
  taken_at = pos 0;
  healthy = false;
  detail = "never probed";
  models = [];
  last_known_models = [];
  classification = none;
}

-- what an awaited call returns, or the text of the exception that it raises
pub data Answer {ℓ} (A : Type ℓ) : Type ℓ where
  returned : A → Answer A
  raised : String → Answer A

-- One probe of an engine: the answers of `health()` and of `list_models()`, the clock after them,
-- and the id and time that `publish` would stamp on an event.
pub record Probe : Type 0 where
  pub health : Answer Value
  pub list_models : Answer (List ModelInfo)
  pub now : ℤ
  pub event_id : String
  pub ts : ℤ

-- `str(v)`, and the text of the exception that `.get` raises on a value that is no dict
pub record Texts : Type 0 where
  pub str_of : Value → String
  pub no_get : Value → String

unfoldable pub has : Fields → String → Bool
has end k = false
has (field j v fs) k = str_eq j k || has fs k

-- `str(health.get("status", "unknown"))`
unfoldable pub status_of : Texts → Fields → String
status_of texts fs =
    if has fs "status"
    then (elim (fields_get fs "status") [ str s ↦ s | v ↦ texts.str_of v ])
    else "unknown"

abbrev pub went_offline : String → CacheEntry → CacheEntry
went_offline exc entry = record entry {
  healthy = false;
  detail = append "unreachable: " exc;
  models = [];
  classification = some offline;
}

abbrev pub went_degraded : String → CacheEntry → CacheEntry
went_degraded status entry = record entry {
  healthy = false;
  detail = append "engine " status;
  models = [];
  classification = some degraded;
}

abbrev pub came_up : String → List ModelInfo → CacheEntry → CacheEntry
came_up status models entry = record entry {
  healthy = true;
  detail = status;
  models = models;
  last_known_models = models;
  classification = some healthy;
}

unfoldable pub listed : String → Answer (List ModelInfo) → CacheEntry → CacheEntry
listed status (returned models) entry = came_up status models entry
listed status (raised exc) entry = went_offline exc entry

unfoldable pub reached : Texts → Fields → Probe → CacheEntry → CacheEntry
unfolding status_of listed
reached texts fs probe entry =
    let status = status_of texts fs in
    if str_in status ("unreachable" ∷ "down" ∷ "error" ∷ [])
    then went_degraded status entry
    else listed status probe.list_models entry

-- the `try` of `_refresh`
unfoldable pub probed : Texts → Probe → CacheEntry → CacheEntry
unfolding reached
probed texts probe entry = elim probe.health [
  | raised exc ↦ went_offline exc entry
  | returned v ↦ elim v [
    | Value.obj fs ↦ reached texts fs probe entry
    | w ↦ went_offline (texts.no_get w) entry
  ]
]

abbrev pub health_event_type : Classification → String
health_event_type offline = "provider.offline"
health_event_type degraded = "provider.degraded"
health_event_type healthy = "provider.recovered"

abbrev pub same_classification : Classification → Classification → Bool
same_classification healthy healthy = true
same_classification degraded degraded = true
same_classification offline offline = true
same_classification _ _ = false

abbrev pub is_healthy : Classification → Bool
is_healthy healthy = true
is_healthy _ = false

-- `current == previous or (previous is None and current == "healthy")` is what is not published
abbrev pub is_news : Option Classification → Classification → Bool
is_news none current = not (is_healthy current)
is_news (some previous) current = not (same_classification current previous)

unfoldable pub transition_event : ProviderSpec → CacheEntry → Classification → Probe → Event
transition_event spec entry current probe = record {
  event_type = health_event_type current;
  event_id = probe.event_id;
  ts = probe.ts;
  outcome = none;
  actor = some "computeconnect-provider-registry";
  privacy_tier = some "public";
  entity_id = some spec.id;
  task_id = none;
  payload = field "provider_id" (str spec.id) (
      field "placement_class" (str spec.placement_class)
        (field "reason" (str (truncate_reason (some entry.detail) reason_max_chars)) end));
}

unfoldable pub emit_health_transition :
    ProviderSpec → CacheEntry → Option Classification → Probe → BusPublisher → BusPublisher
emit_health_transition spec entry previous probe bus = elim entry.classification [
  | none ↦ bus
  | some current ↦
      if is_news previous current
      then publish bus true (transition_event spec entry current probe)
      else bus
]

unfoldable pub refresh :
    Texts → ProviderSpec → Probe → CacheEntry → BusPublisher → CacheEntry × BusPublisher
refresh texts spec probe entry bus =
    let entry' = record (probed texts probe entry) { taken_at = probe.now } in
    (entry', emit_health_transition spec entry' entry.classification probe bus)
