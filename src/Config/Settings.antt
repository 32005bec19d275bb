-- ===== src/Config/Settings.antt =====
-- config.py: where a setting comes from, and which settings a configuration never loses.
use compute_connect.Prelude.{
  String, true, false, Option, none, some, List, [], ◌∷◌, ◌≡◌, refl, ap, subst, ◌∙◌, inl, inr,
  Bool-cases,
}
use compute_connect.Json.{Value, str, obj, Fields, end, float, Float, truthy, or_else, fields_get}
use compute_connect.Number.{to_float}
use compute_connect.Provider.{ProviderSpec}
use compute_connect.App.{AppConfig, build_default_config}
use compute_connect.Chat.Complete.{get_or}
use compute_connect.Config.{Loaded, loaded, failed, ◌>>=◌, lift, declared_providers, as_mapping}
use compute_connect.Config.Load.{
  Arguments, World, of_option, unless_none, setting, default_fleet, declared_fleet, fleet,
  with_sim_cloud, app_config_from_dict, read_file, with_environment, config_path, plain_config,
  load_path, load_app_config,
}

pub loaded_inv {ℓ κ} :
    {X : Type ℓ} {Y : Type κ} (m : Loaded X) (f : X → Loaded Y) {y : Y}
    → (m >>= f) ≡ loaded y
    → (x : X) × (m ≡ loaded x) × (f x ≡ loaded y)
loaded_inv (loaded x) f e = (x, refl, e)
loaded_inv (failed exc) f e = cc

-- the settings of a configuration that a file may replace are those of `raw`, or else the arguments
pub record HasSettings (raw : Fields) (a : Arguments) (config : AppConfig) : Type 0 where
  pub token : config.token ≡ setting raw "token" a.token
  pub bus_url : config.bus_url ≡ setting raw "bus_url" a.bus_url
  pub bus_token : config.bus_token ≡ setting raw "bus_token" a.bus_token
  pub run_journal : config.run_journal_path ≡ setting raw "run_journal" a.run_journal_path
  pub max_age : config.max_snapshot_age ≡ fields_get raw "max_snapshot_age"

fleet-HasSettings :
    (raw : Fields) (a : Arguments) (ttl : Float) (ps : List ProviderSpec)
    → HasSettings raw a (fleet raw a ttl ps)
unfolding fleet default_fleet declared_fleet build_default_config
fleet-HasSettings raw a ttl [] = record {
  token = refl;
  bus_url = refl;
  bus_token = refl;
  run_journal = refl;
  max_age = refl;
}
fleet-HasSettings raw a ttl (p ∷ ps) = record {
  token = refl;
  bus_url = refl;
  bus_token = refl;
  run_journal = refl;
  max_age = refl;
}

-- the steps of a file that is loaded
pub record IsBuilt (w : World) (raw : Fields) (a : Arguments) (config : AppConfig) : Type 0 where
  pub entries : Fields
  pub declared : List ProviderSpec
  pub ttl : Float
  pub mapping : as_mapping (or_else (fields_get raw "providers") (obj end)) ≡ loaded entries
  pub parsed : declared_providers w.numerals w.texts entries ≡ loaded declared
  pub config_of : fleet raw a ttl (with_sim_cloud raw declared) ≡ config

pub app_config_from_dict-IsBuilt :
    (w : World) (raw : Fields) (a : Arguments) (config : AppConfig)
    → app_config_from_dict w raw a ≡ loaded config
    → IsBuilt w raw a config
unfolding app_config_from_dict
app_config_from_dict-IsBuilt w raw a config e =
    let (entries, m, e1) =
      loaded_inv (as_mapping (or_else (fields_get raw "providers") (obj end))) _ e in
    let (ps, p, e2) = loaded_inv (declared_providers w.numerals w.texts entries) _ e1 in
    let (ttl, t, e3) =
      loaded_inv (lift (to_float w.numerals (get_or raw "snapshot_ttl" (float a.snapshot_ttl)))) _
        e2 in
    record { entries = entries; declared = ps; ttl = ttl; mapping = m; parsed = p; config_of = cc }

app_config_from_dict-HasSettings :
    (w : World) (raw : Fields) (a : Arguments) (config : AppConfig)
    → app_config_from_dict w raw a ≡ loaded config
    → HasSettings raw a config
app_config_from_dict-HasSettings w raw a config e =
    let b = app_config_from_dict-IsBuilt w raw a config e in
    subst (HasSettings raw a) b.config_of
      (fleet-HasSettings raw a b.ttl (with_sim_cloud raw b.declared))

-- the mapping that a configuration is read from: a file's, or none
abbrev pub ReadFrom : World → Arguments → Option String → Fields → Type 0
ReadFrom w a none raw = raw ≡ end
ReadFrom w a (some path) raw = read_file w path ≡ loaded (obj raw)

mapping_of : (v : Value) {raw : Fields} → as_mapping v ≡ loaded raw → v ≡ obj raw
mapping_of (obj fs) e = cc
mapping_of _ e = cc

load_path-HasSettings :
    (w : World) (a : Arguments) (path : Option String) (config : AppConfig)
    → load_path w a path ≡ loaded config
    → (raw : Fields) × ReadFrom w a path raw × HasSettings raw a config
unfolding load_path plain_config setting build_default_config or_else truthy fields_get
load_path-HasSettings w a none config e = (
  end,
  refl,
  let same : plain_config a ≡ config = cc in
      subst (HasSettings end a) same (record {
        token = refl;
        bus_url = refl;
        bus_token = refl;
        run_journal = refl;
        max_age = refl;
      }),
)
load_path-HasSettings w a (some path) config e =
    let (v, r, e1) = loaded_inv (read_file w path) _ e in
    let (raw, m, e2) = loaded_inv (as_mapping v) _ e1 in
    (raw, r ∙ ap loaded (mapping_of v m), app_config_from_dict-HasSettings w raw a config e2)

load_app_config-HasSettings :
    (w : World) (path : Option String) (a : Arguments) (config : AppConfig)
    → load_app_config w path a ≡ loaded config
    → (raw : Fields) × ReadFrom w (with_environment w a) (config_path w path) raw
      × HasSettings raw (with_environment w a) config
unfolding load_app_config
load_app_config-HasSettings w path a config e =
    load_path-HasSettings w (with_environment w a) (config_path w path) config e

-- where a setting comes from, of what the file, the argument and the environment hold
pub data Source (file : Value) (argument environment : Option String) (v : Value) : Type 0 where
  from_file : truthy file ≡ true → v ≡ file → Source file argument environment v
  from_argument :
      (s : String)
      → truthy file ≡ false
      → argument ≡ some s
      → v ≡ str s
      → Source file argument environment v
  from_environment :
      truthy file ≡ false
      → argument ≡ none
      → v ≡ of_option environment
      → Source file argument environment v

setting-Source :
    (raw : Fields) (key : String) (argument environment : Option String)
    → Source
        (fields_get raw key)
        argument
        environment
        (setting raw key (unless_none argument environment))
unfolding setting or_else
setting-Source raw key argument environment = elim (Bool-cases (truthy (fields_get raw key))) [
  | inl t ↦ rw t (from_file t refl)
  | inr t ↦ rw t (given t argument refl)
]
  where
    given :
        truthy (fields_get raw key) ≡ false
        → (o : Option String) → argument ≡ o
        → Source (fields_get raw key) argument environment (of_option (unless_none o environment))
    given t none e = from_environment t e refl
    given t (some s) e = from_argument s t e refl

-- In a configuration that is loaded, the token and the two settings of the event bus are each the one of
-- the file, if the file sets one that is not empty, else the argument, if one is given, else the one of
-- the environment, if there is one.
pub load_app_config-Source :
    (w : World) (path : Option String) (a : Arguments) (config : AppConfig)
    → load_app_config w path a ≡ loaded config
    → (raw : Fields) × ReadFrom w (with_environment w a) (config_path w path) raw
      × Source (fields_get raw "token") a.token (w.environ "COMPUTECONNECT_TOKEN") config.token
      × Source
          (fields_get raw "bus_url")
          a.bus_url
          (w.environ "COMPUTECONNECT_BUS_URL")
          config.bus_url
      × Source
          (fields_get raw "bus_token")
          a.bus_token
          (w.environ "COMPUTECONNECT_BUS_TOKEN")
          config.bus_token
unfolding with_environment
load_app_config-Source w path a config e =
    let (raw, r, h) = load_app_config-HasSettings w path a config e in
    (
      raw,
      r,
      rw (h.token) (setting-Source raw "token" a.token (w.environ "COMPUTECONNECT_TOKEN")),
      rw (h.bus_url) (setting-Source raw "bus_url" a.bus_url (w.environ "COMPUTECONNECT_BUS_URL")),
      rw (h.bus_token)
          (setting-Source raw "bus_token" a.bus_token (w.environ "COMPUTECONNECT_BUS_TOKEN")),
    )
