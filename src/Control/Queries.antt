-- ===== src/Control/Queries.antt =====
-- app.py: the handlers `health`, `models`, `models_loaded`, `cancel_run`, `run_metadata` and `v1_models`,
-- with `ModelInfo.wire` of engines.py and `Run.to_dict` of runs.py. A provider's id is registered once, so
-- that a dict by ids has an entry for each.
use compute_connect.Prelude.{
  ℕ, pos, String, Bool, true, false, not, ◌&&◌, ◌==◌, Option, none, some, List, [], ◌∷◌, ◌++◌,
  length, select, str_eq, if◌then◌else◌,
}
use compute_connect.Json.{
  Value, bool, str, int, arr, obj, Items, no_item, item, Fields, end, field, truncate,
}
use compute_connect.Engine
use compute_connect.Engine.{ModelInfo}
use compute_connect.Provider.{ProviderSnapshot}
use compute_connect.Runs.Registry.{Registry}
use compute_connect.Chat.Complete.{get_or}
use compute_connect.Session.Generate.{text_items}
use compute_connect.Control.{Api, Instant, snapshots}

-- `JSONResponse`
pub record Json : Type 0 where
  pub status_code : ℕ
  pub content : Value

abbrev pub json : Value → Json
json v = record { status_code = 200; content = v }

abbrev pub healthy_ones : List ProviderSnapshot → List ProviderSnapshot
healthy_ones = select (λ (s : ProviderSnapshot). s.healthy)

-- the `status` of the health answer
unfoldable pub health_status : List ProviderSnapshot → String
health_status snaps =
    if length (healthy_ones snaps) == length snaps && not (length snaps == 0)
    then "ok"
    else if not (length (healthy_ones snaps) == 0)
    then "degraded"
    else "down"

unfoldable pub provider_health : ProviderSnapshot → Value
provider_health s = obj (
    field "healthy" (bool s.healthy) (
      field "detail" (str s.detail) (
        field "placement_class" (str s.spec.placement_class) (
          field "runtime" (str (Engine.name s.spec.engine)) (
            field "models" (int (pos (length s.models)))
              (field "active_runs" (int (pos s.active_runs)) end))))))

unfoldable pub provider_healths : List ProviderSnapshot → Fields
unfolding provider_health
provider_healths [] = end
provider_healths (s ∷ ss) = field s.spec.id (provider_health s) (provider_healths ss)

abbrev is_there {ℓ} : {A : Type ℓ} → Option A → Bool
is_there none = false
is_there (some a) = true

unfoldable pub health_body : String → Registry → List ProviderSnapshot → Value
unfolding health_status provider_healths
health_body version runs snaps = obj (
    field "status" (str (health_status snaps)) (
      field "service" (str "computeconnect") (
        field "version" (str version) (
          field "persistence"
            (obj (
              field "run_journal" (bool (is_there runs.journal)) (
                field "reconciled_runs_on_start" (int (pos (length runs.reconciled_run_ids))) end)))
            (field "providers" (obj (provider_healths snaps)) end)))))

abbrev pub after_snapshot : Api → Instant → Api
after_snapshot api i = record api { registry = (snapshots api i).0 }

-- `health`
unfoldable pub handle_health : String → Api → Instant → Api × Json
unfolding health_body
handle_health version api i =
    (after_snapshot api i, json (health_body version api.runs (snapshots api i).1))

-- `d[key] = value`
unfoldable pub fields_put : Fields → String → Value → Fields
fields_put end k v = field k v end
fields_put (field j w fs) k v = if str_eq j k then field j v fs else field j w (fields_put fs k v)

-- `ModelInfo.wire`, with the provider written into its metadata
unfoldable pub model_wire : ProviderSnapshot → ModelInfo → Value
unfolding fields_put
model_wire s m = obj (
    field "id" (str m.id) (
      field "runtime" (get_or m.metadata "runtime" (str "unknown")) (
        field "capabilities" (arr (text_items m.capabilities)) (
          field "context_tokens" (int m.context_tokens) (
            field "loaded" (bool m.loaded) (
              field "metadata"
                (obj (
                  fields_put (fields_put m.metadata "provider_id" (str s.spec.id)) "placement_class"
                    (str s.spec.placement_class)))
                end))))))

unfoldable pub snapshot_models : Bool → ProviderSnapshot → List ModelInfo → List Value
unfolding model_wire
snapshot_models loaded_only s [] = []
snapshot_models loaded_only s (m ∷ ms) =
    let rest = snapshot_models loaded_only s ms in
    if loaded_only && not m.loaded then rest else model_wire s m ∷ rest

-- the two loops of `_models_payload`
unfoldable pub all_models : Bool → List ProviderSnapshot → List Value
unfolding snapshot_models
all_models loaded_only [] = []
all_models loaded_only (s ∷ ss) =
    snapshot_models loaded_only s s.models ++ all_models loaded_only ss

abbrev pub items_of : List Value → Items
items_of [] = no_item
items_of (v ∷ vs) = item v (items_of vs)

-- `models`, and with `loaded_only` `models_loaded`
unfoldable pub handle_models : Bool → Api → Instant → Api × Json
unfolding all_models
handle_models loaded_only api i = (
  after_snapshot api i,
  json (obj (field "models" (arr (items_of (all_models loaded_only (snapshots api i).1))) end)),
)

unfoldable pub openai_model : ProviderSnapshot → ModelInfo → Value
openai_model s m = obj (
    field "id" (str m.id) (
      field "object" (str "model")
        (field "created" (int (truncate s.taken_at)) (field "owned_by" (str s.spec.id) end))))

unfoldable pub openai_models_of : ProviderSnapshot → List ModelInfo → List Value
unfolding openai_model
openai_models_of s [] = []
openai_models_of s (m ∷ ms) = openai_model s m ∷ openai_models_of s ms

unfoldable pub openai_models : List ProviderSnapshot → List Value
unfolding openai_models_of
openai_models [] = []
openai_models (s ∷ ss) = openai_models_of s s.models ++ openai_models ss

-- `v1_models`
unfoldable pub handle_v1_models : Api → Instant → Api × Json
unfolding openai_models
handle_v1_models api i = (
  after_snapshot api i,
  json (
      obj (
        field "object" (str "list")
          (field "data" (arr (items_of (openai_models (snapshots api i).1))) end))),
)
