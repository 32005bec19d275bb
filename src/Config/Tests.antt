-- ===== src/Config/Tests.antt =====
-- Tests of the configuration on two files, and the theorems at them.
use compute_connect.Prelude.{pos, ◌*ℤ◌, true, some, [], ◌∷◌, ◌≡◌, refl, lower_in, strip}
use compute_connect.Json.{
  null, str, bool, obj, int, Fields, end, field, fields_get, or_else, truthy, attribute_error,
}
use compute_connect.Number.{to_int, to_float}
use compute_connect.Bus.{rstrip_slashes}
use compute_connect.App.{new_llama_cpp, build_default_config, local_llamacpp, sim_cloud}
use compute_connect.Provider.Registry.{has}
use compute_connect.Chat.{text_of}
use compute_connect.Config.{
  loaded, failed, raised, no_base_url, unknown_engine, yaml_missing, engine_from, text_list,
  characters, keys, capabilities_from, estimate_from, provider_from, provider_of_value,
  declared_providers,
}
use compute_connect.Config.Load.{
  setting, default_fleet, declared_fleet, fleet, with_sim_cloud, app_config_from_dict, ends_with,
  read_file, with_environment, config_path, plain_config, load_path, load_app_config,
}
use compute_connect.Config.Settings.{Source, ReadFrom, load_app_config-Source}
use compute_connect.Config.Sample.{world, arguments, config}

program : Unit {0}
unfolding fields_get or_else truthy to_int to_float rstrip_slashes new_llama_cpp
    build_default_config local_llamacpp has text_of engine_from text_list characters keys
    capabilities_from estimate_from provider_from provider_of_value declared_providers setting
    default_fleet declared_fleet fleet with_sim_cloud app_config_from_dict ends_with read_file
    with_environment config_path plain_config load_path load_app_config lower_in strip ◌*ℤ◌
program = tt

loads_file : load_app_config world (some "x.json") arguments ≡ loaded config
unfolding program
loads_file = refl

-- a file that asks for the simulated cloud alone gets no local provider
only_cloud :
    app_config_from_dict world (field "include_sim_cloud" (bool true) end) arguments
    ≡ loaded (record config { providers = sim_cloud ∷ []; token = null })
unfolding program
only_cloud = refl

fails_as_written :
    (app_config_from_dict world (field "providers" (obj (field "p" (obj end) end)) end) arguments
      ≡ failed no_base_url)
    × (app_config_from_dict world
          (field "providers" (obj (field "p" (obj (field "engine" (str "vllm") end)) end)) end)
          arguments
        ≡ failed (unknown_engine (str "vllm")))
    × (app_config_from_dict world (field "providers" (int (pos 1)) end) arguments
        ≡ failed (raised attribute_error))
    × (load_app_config world (some "x.yml") arguments ≡ failed yaml_missing)
unfolding program
fails_as_written = (refl, refl, refl, refl)

load_app_config-Source_example :
    (raw : Fields) × ReadFrom world
      (with_environment world arguments)
      (config_path world (some "x.json"))
      raw
    × Source
        (fields_get raw "token")
        arguments.token
        (world.environ "COMPUTECONNECT_TOKEN")
        config.token
    × Source
        (fields_get raw "bus_url")
        arguments.bus_url
        (world.environ "COMPUTECONNECT_BUS_URL")
        config.bus_url
    × Source
        (fields_get raw "bus_token")
        arguments.bus_token
        (world.environ "COMPUTECONNECT_BUS_TOKEN")
        config.bus_token
load_app_config-Source_example =
    load_app_config-Source world (some "x.json") arguments config loads_file
