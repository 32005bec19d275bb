-- ===== src/Config/Load.antt =====
-- config.py: `app_config_from_dict`, `_read_file` and `load_app_config`.
use compute_connect.Prelude.{
  String, Bool, ◌||◌, Option, none, some, List, [], ◌∷◌, ◌++◌, str_eq, strip, is_nonempty,
  if◌then◌else◌,
}
use compute_connect.Json.{
  Value, null, float, str, obj, Fields, end, Float, truthy, or_else, fields_get,
}
use compute_connect.Number.{Numerals, to_float}
use compute_connect.Provider.{ProviderSpec}
use compute_connect.Provider.Registry.{Texts}
use compute_connect.App.{OpenJournal, AppConfig, build_default_config, sim_cloud}
use compute_connect.Chat.Complete.{get_or}
use compute_connect.Config.{
  Loaded, loaded, failed, unreadable, yaml_missing, ◌>>=◌, lift, declared_providers, as_mapping,
}

-- the arguments of `load_app_config` besides the path
pub record Arguments : Type 0 where
  pub upstream_url : String
  pub include_sim_cloud : Bool
  pub snapshot_ttl : Float
  pub run_journal_path : Option String
  pub token : Option String
  pub bus_url : Option String
  pub bus_token : Option String

-- what the world answers while a configuration is loaded; `yaml_load` is none where PyYAML is missing
pub record World : Type 0 where
  pub numerals : Numerals
  pub texts : Texts
  pub environ : String → Option String
  pub read_text : String → Option String
  pub yaml_load : Option (String → Loaded Value)
  pub json_loads : String → Loaded Value
  pub open_journal : OpenJournal

-- a text or None
abbrev pub of_option : Option String → Value
of_option none = null
of_option (some s) = str s

-- `a if a is not None else b`
abbrev pub unless_none : Option String → Option String → Option String
unless_none (some s) other = some s
unless_none none other = other

-- what the file sets, and the argument where it sets nothing
unfoldable pub setting : Fields → String → Option String → Value
setting raw key argument = or_else (fields_get raw key) (of_option argument)

-- the configuration of a file that declares no provider
unfoldable pub default_fleet : Fields → Arguments → Float → AppConfig
unfolding setting
default_fleet raw a ttl =
    record (build_default_config a.upstream_url a.include_sim_cloud ttl
      (setting raw "run_journal" a.run_journal_path)) {
        max_snapshot_age = fields_get raw "max_snapshot_age";
        token = setting raw "token" a.token;
        bus_url = setting raw "bus_url" a.bus_url;
        bus_token = setting raw "bus_token" a.bus_token;
      }

unfoldable pub declared_fleet : Fields → Arguments → Float → List ProviderSpec → AppConfig
unfolding setting
declared_fleet raw a ttl providers = record {
  providers = providers;
  snapshot_ttl = ttl;
  max_snapshot_age = fields_get raw "max_snapshot_age";
  run_journal_path = setting raw "run_journal" a.run_journal_path;
  token = setting raw "token" a.token;
  bus_url = setting raw "bus_url" a.bus_url;
  bus_token = setting raw "bus_token" a.bus_token;
}

-- `if not providers`
unfoldable pub fleet : Fields → Arguments → Float → List ProviderSpec → AppConfig
unfolding default_fleet declared_fleet
fleet raw a ttl [] = default_fleet raw a ttl
fleet raw a ttl (p ∷ ps) = declared_fleet raw a ttl (p ∷ ps)

unfoldable pub with_sim_cloud : Fields → List ProviderSpec → List ProviderSpec
with_sim_cloud raw ps =
    if truthy (fields_get raw "include_sim_cloud") then ps ++ sim_cloud ∷ [] else ps

unfoldable pub app_config_from_dict : World → Fields → Arguments → Loaded AppConfig
unfolding fleet with_sim_cloud
app_config_from_dict w raw a =
    as_mapping (or_else (fields_get raw "providers") (obj end)) >>= λ entries.
    declared_providers w.numerals w.texts entries >>= λ ps.
    lift (to_float w.numerals (get_or raw "snapshot_ttl" (float a.snapshot_ttl))) >>= λ ttl.
    loaded (fleet raw a ttl (with_sim_cloud raw ps))

-- `s.endswith(t)`
unfoldable pub ends_with : String → String → Bool
ends_with String.[] t = str_eq String.[] t
ends_with (String.◌∷◌ c s) t = str_eq (String.◌∷◌ c s) t || ends_with s t

abbrev pub parse_yaml : World → String → Loaded Value
parse_yaml w text = elim w.yaml_load [
  | none ↦ failed yaml_missing
  | some load ↦ load text >>= λ v. loaded (or_else v (obj end))
]

-- `_read_file`
unfoldable pub read_file : World → String → Loaded Value
unfolding ends_with
read_file w path = elim (w.read_text path) [
  | none ↦ failed unreadable
  | some text ↦
      if ends_with path ".yaml" || ends_with path ".yml"
      then parse_yaml w text
      else if is_nonempty (strip text)
      then w.json_loads text
      else loaded (obj end)
]

-- the arguments, with the environment's where they are None
unfoldable pub with_environment : World → Arguments → Arguments
with_environment w a = record a {
  token = unless_none a.token (w.environ "COMPUTECONNECT_TOKEN");
  bus_url = unless_none a.bus_url (w.environ "COMPUTECONNECT_BUS_URL");
  bus_token = unless_none a.bus_token (w.environ "COMPUTECONNECT_BUS_TOKEN");
}

-- `path or os.environ.get(CONFIG_ENV)`, none where it is empty
unfoldable pub config_path : World → Option String → Option String
config_path w path = nonempty (or_environ path)
  where
    nonempty : Option String → Option String
    nonempty none = none
    nonempty (some s) = if is_nonempty s then some s else none

    or_environ : Option String → Option String
    or_environ none = w.environ "COMPUTECONNECT_CONFIG"
    or_environ (some s) = if is_nonempty s then some s else w.environ "COMPUTECONNECT_CONFIG"

-- without a file
unfoldable pub plain_config : Arguments → AppConfig
plain_config a =
    record (build_default_config a.upstream_url a.include_sim_cloud a.snapshot_ttl
      (of_option a.run_journal_path)) {
        token = of_option a.token;
        bus_url = of_option a.bus_url;
        bus_token = of_option a.bus_token;
      }

-- with or without the file of `path`, for arguments that hold the environment's
unfoldable pub load_path : World → Arguments → Option String → Loaded AppConfig
unfolding plain_config app_config_from_dict read_file
load_path w a none = loaded (plain_config a)
load_path w a (some path) =
    read_file w path >>= λ v. as_mapping v >>= λ raw. app_config_from_dict w raw a

unfoldable pub load_app_config : World → Option String → Arguments → Loaded AppConfig
unfolding load_path with_environment config_path
load_app_config w path a = load_path w (with_environment w a) (config_path w path)
