-- ===== src/Config.antt =====
-- src/computeconnect/config.py: providers and settings from a configuration file. What a file system,
-- `json.loads`, PyYAML and the environment answer are arguments. A provider has finite estimates and
-- texts for capabilities: a file that sets others is `unrepresented` here.
use Prim.Native.Char.{Char}
use compute_connect.Prelude.{
  ℤ, pos, String, Bool, true, false, ◌||◌, Option, none, some, List, [], ◌∷◌, ◌++◌, str_eq, str_in,
  lower_in, strip, is_nonempty, if◌then◌else◌,
}
use compute_connect.Json.{
  Value, null, bool, int, float, str, arr, obj, Items, no_item, item, Fields, end, field, Float,
  finite, inf, minus_inf, nan, PyError, attribute_error, type_error, Result, ok, err, truthy,
  or_else, fields_get,
}
use compute_connect.Number.{Numerals, to_int, to_float}
use compute_connect.Engine.{Engine}
use compute_connect.Provider.{ProviderSpec}
use compute_connect.Provider.Registry.{Texts, has}
use compute_connect.App.{
  AppConfig, build_default_config, new_llama_cpp, new_simulated_cloud, sim_cloud,
}
use compute_connect.Chat.{text_of}
use compute_connect.Chat.Complete.{get_or}
pub mod Load
pub mod Fleet
pub mod Settings
pub mod Sample
mod Tests

-- `no_base_url` and `unknown_engine` are the ValueErrors of `_engine_from`.
pub data ConfigError : Type 0 where
  raised : PyError → ConfigError
  no_base_url unreadable yaml_missing unrepresented : ConfigError
  unknown_engine : Value → ConfigError

pub data Loaded {ℓ} (A : Type ℓ) : Type ℓ where
  loaded : A → Loaded A
  failed : ConfigError → Loaded A

infixl 10 ◌>>=◌
abbrev pub ◌>>=◌ {ℓ κ} : {X : Type ℓ} {Y : Type κ} → Loaded X → (X → Loaded Y) → Loaded Y
loaded x >>= continue = continue x
failed e >>= continue = failed e

abbrev pub lift {ℓ} : {A : Type ℓ} → Result A → Loaded A
lift (ok a) = loaded a
lift (err e) = failed (raised e)

abbrev pub llama_kinds : List String
llama_kinds = "llamacpp" ∷ "llama.cpp" ∷ "llama_cpp" ∷ "llama" ∷ []

abbrev pub cloud_kinds : List String
cloud_kinds = "simulated_cloud" ∷ "sim_cloud" ∷ "simulated" ∷ "sim" ∷ []

-- `_engine_from`
unfoldable pub engine_from : Texts → Fields → Loaded Engine
unfolding text_of
engine_from texts spec =
    let kind = text_of texts (get_or spec "engine" (str "llamacpp")) in
    if lower_in kind llama_kinds
    then (if truthy (fields_get spec "base_url")
        then loaded (new_llama_cpp (text_of texts (fields_get spec "base_url")))
        else failed no_base_url)
    else (if lower_in kind cloud_kinds
        then loaded new_simulated_cloud
        else failed (unknown_engine (fields_get spec "engine")))

abbrev pub default_caps : List String
default_caps = "completion" ∷ "chat" ∷ "generate" ∷ []

unfoldable pub text_list : Items → Loaded (List String)
text_list no_item = loaded []
text_list (item (str s) vs) = text_list vs >>= λ ss. loaded (s ∷ ss)
text_list (item _ vs) = failed unrepresented

-- iterating over a text gives its characters, over a dict its keys
unfoldable pub characters : String → List String
characters String.[] = []
characters (String.◌∷◌ c s) = String.◌∷◌ c String.[] ∷ characters s

unfoldable pub keys : Fields → List String
keys end = []
keys (field k v fs) = k ∷ keys fs

-- `tuple(v or _DEFAULT_CAPS)`
unfoldable pub capabilities_from : Value → Loaded (List String)
unfolding text_list characters keys
capabilities_from v = if truthy v then tuple v else loaded default_caps
  where
    tuple : Value → Loaded (List String)
    tuple (arr vs) = text_list vs
    tuple (str s) = loaded (characters s)
    tuple (obj fs) = loaded (keys fs)
    tuple _ = failed (raised type_error)

abbrev pub as_estimate : Float → Loaded ℤ
as_estimate (finite n) = loaded n
as_estimate _ = failed unrepresented

unfoldable pub estimate_from : Numerals → Fields → String → ℤ → Loaded ℤ
estimate_from numerals spec key default =
    lift (to_float numerals (get_or spec key (float (finite default)))) >>= as_estimate

-- `_provider_from`, on a mapping
unfoldable pub provider_from : Numerals → Texts → String → Fields → Loaded ProviderSpec
unfolding engine_from capabilities_from estimate_from
provider_from numerals texts pid spec = engine_from texts spec >>= λ engine.
    capabilities_from (fields_get spec "capabilities") >>= λ capabilities.
    lift (to_int numerals (get_or spec "max_concurrency" (int (pos 2)))) >>= λ max_concurrency.
    estimate_from numerals spec "estimated_quality" (pos 5000) >>= λ quality.
    estimate_from numerals spec "estimated_tokens_per_second" (pos 100000) >>= λ speed.
    loaded (record {
      id = pid;
      placement_class = text_of texts (get_or spec "placement_class" (str "local"));
      engine = engine;
      capabilities = capabilities;
      max_concurrency = max_concurrency;
      estimated_quality = quality;
      estimated_tokens_per_second = speed;
    })

unfoldable pub provider_of_value : Numerals → Texts → String → Value → Loaded ProviderSpec
unfolding provider_from
provider_of_value numerals texts pid (obj spec) = provider_from numerals texts pid spec
provider_of_value numerals texts pid _ = failed (raised attribute_error)

-- `_provider_from(pid, s or {})` for a value
abbrev pub provider_of : Numerals → Texts → String → Value → Loaded ProviderSpec
provider_of numerals texts pid v = provider_of_value numerals texts pid (or_else v (obj end))

-- the providers of the mapping, in its order
unfoldable pub declared_providers : Numerals → Texts → Fields → Loaded (List ProviderSpec)
unfolding provider_of_value
declared_providers numerals texts end = loaded []
declared_providers numerals texts (field pid v fs) = provider_of numerals texts pid v >>= λ p.
    declared_providers numerals texts fs >>= λ ps. loaded (p ∷ ps)

abbrev pub as_mapping : Value → Loaded Fields
as_mapping (obj fs) = loaded fs
as_mapping _ = failed (raised attribute_error)
