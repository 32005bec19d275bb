-- ===== src/App.antt =====
-- src/computeconnect/app.py: the application's configuration, the numeric fields of a request, and
-- the construction of the application with its loopback guard. The middleware is in App/Auth.antt.
-- Of a Starlette application only the token of its middleware is kept.
use compute_connect.Prelude.{
  ℤ, pos, leb_ℤ, String, Bool, true, false, not, ◌&&◌, Option, none, some, List, [], ◌∷◌, ◌++◌, map,
  str_in, if◌then◌else◌,
}
use compute_connect.Json.{
  Value, null, str, int, float, Float, finite, inf, minus_inf, nan, Fields, end, PyError,
  type_error, value_error, overflow_error, attribute_error, bad_numeric_field, Result, ok, err,
  ◌>>=◌, truthy, or_else, fields_get, get,
}
use compute_connect.Number.{Numerals, to_int, to_float, max_float, times, plus}
use compute_connect.Engine.{
  Engine, ModelInfo, LlamaCppEngine, SimulatedCloudEngine, llama_cpp, simulated_cloud,
}
use compute_connect.Bus.{rstrip_slashes}
use compute_connect.Provider.{ProviderSpec}
use compute_connect.Provider.Snapshot.{has_duplicates}
pub mod Auth
pub mod Guard
pub mod Building
pub mod Numeric
pub mod Ceiling
mod Tests

-- What a configuration file may set freely is kept as the value that it gives; null is None.
pub record AppConfig : Type 0 where
  pub providers : List ProviderSpec
  pub snapshot_ttl : Float
  pub max_snapshot_age : Value
  pub run_journal_path : Value
  pub token : Value
  pub bus_url : Value
  pub bus_token : Value

abbrev pub is_none : Value → Bool
is_none null = true
is_none _ = false

-- `f <= 0`
abbrev pub is_not_positive : Float → Bool
is_not_positive (finite n) = leb_ℤ n (pos 0)
is_not_positive minus_inf = true
is_not_positive inf = false
is_not_positive nan = false

unfoldable pub effective_max_snapshot_age : AppConfig → Value
effective_max_snapshot_age config =
    if not (is_none config.max_snapshot_age)
    then config.max_snapshot_age
    else (if is_not_positive config.snapshot_ttl
        then null
        else float
            (max_float (times (pos 6) config.snapshot_ttl) (plus (pos 300000) config.snapshot_ttl)))

abbrev pub sim_cloud_capabilities : List String
sim_cloud_capabilities = "completion" ∷ "chat" ∷ "generate" ∷ "cloud-batch" ∷ []

-- `LlamaCppEngine(base_url)`
unfoldable pub new_llama_cpp : String → Engine
unfolding rstrip_slashes
new_llama_cpp base_url = llama_cpp (record {
  base_url = rstrip_slashes base_url;
  capability_tags = "completion" ∷ "chat" ∷ "generate" ∷ [];
  timeout = pos 100000;
  stream_timeout = pos 3000000;
})

-- `SimulatedCloudEngine()`
abbrev pub new_simulated_cloud : Engine
new_simulated_cloud = simulated_cloud (record {
  token_delay = pos 50;
  response_tokens = pos 32;
  fail_health = false;
  fail_after_tokens = none;
  models =
      record {
        id = "sim-cloud-large";
        context_tokens = pos 131072;
        capabilities = sim_cloud_capabilities;
        loaded = true;
        metadata =
            Fields.field "runtime" (Value.str "simulated-cloud")
              (Fields.field "region" (Value.str "sim-earth-1") end);
      }
      ∷ [];
})

abbrev pub sim_cloud : ProviderSpec
sim_cloud = record {
  id = "sim-cloud";
  placement_class = "cloud";
  engine = new_simulated_cloud;
  capabilities = sim_cloud_capabilities;
  max_concurrency = pos 8;
  estimated_quality = pos 9000;
  estimated_tokens_per_second = pos 800000;
}

unfoldable pub local_llamacpp : String → ProviderSpec
local_llamacpp upstream_url = record {
  id = "local-llamacpp";
  placement_class = "local";
  engine = new_llama_cpp upstream_url;
  capabilities = "completion" ∷ "chat" ∷ "generate" ∷ "code" ∷ "summarize" ∷ [];
  max_concurrency = pos 2;
  estimated_quality = pos 6000;
  estimated_tokens_per_second = pos 120000;
}

unfoldable pub build_default_config : String → Bool → Float → Value → AppConfig
build_default_config upstream_url include_sim_cloud snapshot_ttl run_journal_path = record {
  providers =
      local_llamacpp upstream_url ∷ [] ++ (if include_sim_cloud then sim_cloud ∷ [] else []);
  snapshot_ttl = snapshot_ttl;
  max_snapshot_age = null;
  run_journal_path = run_journal_path;
  token = null;
  bus_url = null;
  bus_token = null;
}

-- `except (TypeError, ValueError): raise _BadNumericField(key, body.get(key))`
unfoldable pub as_bad_numeric {ℓ} : {A : Type ℓ} → String → Value → Result A → Result A
as_bad_numeric key raw (ok a) = ok a
as_bad_numeric key raw (err type_error) = err (bad_numeric_field key raw)
as_bad_numeric key raw (err value_error) = err (bad_numeric_field key raw)
as_bad_numeric key raw (err attribute_error) = err attribute_error
as_bad_numeric key raw (err overflow_error) = err overflow_error
as_bad_numeric key raw (err (bad_numeric_field k v)) = err (bad_numeric_field key raw)

-- `_int_field`
unfoldable pub int_field : Numerals → Value → String → ℤ → Result ℤ
int_field numerals body key default =
    get body key >>= λ raw. as_bad_numeric key raw (to_int numerals (or_else raw (int default)))

-- `_float_field`, for a default in ten-thousandths
unfoldable pub float_field : Numerals → Value → String → ℤ → Result Float
float_field numerals body key default = get body key >>= λ raw.
    as_bad_numeric key raw (to_float numerals (or_else raw (float (finite default))))

abbrev pub loopback_hosts : List String
loopback_hosts = "127.0.0.1" ∷ "::1" ∷ "localhost" ∷ []

pub record App : Type 0 where
  pub config : AppConfig
  pub token : Value

-- `_BearerAuthMiddleware.__init__`: `token or None`
abbrev pub middleware_token : Value → Value
middleware_token token = or_else token null

-- a bind that is refused without a token
unfoldable pub is_exposed : Option String → Bool
is_exposed none = false
is_exposed (some host) = not (str_in host loopback_hosts)

-- What the construction of `ComputeConnectAPI` raises: the error with which the journal cannot be
-- opened, AttributeError for a bus_url that is no text, and ValueError for ids that are declared twice.
pub data BuildError : Type 0 where
  journal_failed : String → BuildError
  bus_url_no_text : BuildError
  duplicate_ids : BuildError

-- what `create_app` raises or returns
pub data Built : Type 0 where
  exposed_host : Built
  unbuilt : BuildError → Built
  built : App → Built

-- The error of `RunJournal(path)` and of its `reconcile`, if they raise one: sqlite3 is an argument.
abbrev pub OpenJournal : Type 0
OpenJournal = Value → Option String

-- `(bus_url or "").rstrip` is no attribute
unfoldable pub has_no_rstrip : Value → Bool
has_no_rstrip (str s) = false
has_no_rstrip v = truthy v

-- `ComputeConnectAPI.__init__` once the journal is open
unfoldable pub after_journal : AppConfig → Option String → Option BuildError
after_journal config (some exc) = some (journal_failed exc)
after_journal config none =
    if has_no_rstrip config.bus_url
    then some bus_url_no_text
    else if has_duplicates (map (λ (p : ProviderSpec). p.id) config.providers)
    then some duplicate_ids
    else none

-- `ComputeConnectAPI.__init__`: what it raises
unfoldable pub construct : OpenJournal → AppConfig → Option BuildError
unfolding after_journal
construct open_journal config =
    after_journal config
      (if truthy config.run_journal_path then open_journal config.run_journal_path else none)

unfoldable pub finish_app : AppConfig → Option BuildError → Built
finish_app config (some e) = unbuilt e
finish_app config none = built (record { config = config; token = middleware_token config.token })

-- `create_app` from its guard on: the configuration is given
unfoldable pub create_app : OpenJournal → AppConfig → Option String → Built
unfolding construct finish_app
create_app open_journal config host =
    if is_exposed host && not (truthy config.token)
    then exposed_host
    else finish_app config (construct open_journal config)
