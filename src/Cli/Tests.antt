-- ===== src/Cli/Tests.antt =====
-- Tests of the command line on a host that is no loopback host, and the theorems at it.

use compute_connect.Prelude.{
  pos, ◌*ℤ◌, String, true, false, some, [], ◌∷◌, ◌≡◌, refl, str_in, strip, Memᴰ, ◌⊎◌, lower_in, ◌≢◌,
  arith, eq_iff, str_in_iff,
}
use compute_connect.Json.{str, fields_get, or_else, truthy, ok}
use compute_connect.Number.{to_int, to_float}
use compute_connect.Dict
use compute_connect.Provider.Snapshot.{has_duplicates}
use compute_connect.App.{
  App, construct, after_journal, has_no_rstrip, finish_app, create_app, is_exposed, loopback_hosts,
}
use compute_connect.App.Auth.{
  to_dict, before_space, after_space, is_ascii, compare_digest, presents, check_header, Scope,
  forwarded, call, authorization, Credential,
}
use compute_connect.Bus.{rstrip_slashes}
use compute_connect.App.{AppConfig, new_llama_cpp, build_default_config, local_llamacpp}
use compute_connect.Provider.Registry.{has}
use compute_connect.Chat.{text_of}
use compute_connect.Config.{
  loaded, engine_from, text_list, characters, keys, capabilities_from, estimate_from, provider_from,
  provider_of_value, declared_providers,
}
use compute_connect.Config.Load.{
  setting, default_fleet, declared_fleet, fleet, with_sim_cloud, app_config_from_dict, ends_with,
  read_file, with_environment, config_path, plain_config, load_path, load_app_config,
}
use compute_connect.Config.Sample.{world, config}
use compute_connect.Cli.{
  ServeArgs, refuses, serving, serve_defaults, load_arguments, serve_app, serve_config, main,
  is_given,
}
use compute_connect.Cli.Guard.{
  token_given, config_read, ServesOrFails, main_cases, main-IsAuthenticated,
}

program : Unit {0}
unfolding fields_get or_else truthy to_int to_float rstrip_slashes new_llama_cpp
    build_default_config local_llamacpp has text_of engine_from text_list characters keys
    capabilities_from estimate_from provider_from provider_of_value declared_providers setting
    default_fleet declared_fleet fleet with_sim_cloud app_config_from_dict ends_with read_file
    with_environment config_path plain_config load_path load_app_config lower_in strip ◌*ℤ◌
    create_app construct after_journal has_no_rstrip finish_app has_duplicates is_exposed str_in
    load_arguments serve_app serve_config main to_dict before_space after_space is_ascii
    compare_digest presents check_header authorization call Dict.put Dict.get
program = tt

abbrev open_args : ServeArgs
open_args = record serve_defaults { host = "0.0.0.0"; config = some "x.json"; token = some "t" }

abbrev app : App
app = record { config = config; token = str "filed" }

abbrev request : Scope
request = record {
  scope_type = "http";
  path = "/generate";
  headers = ("authorization", "Bearer filed") ∷ [];
}

serves : main world open_args ≡ serving app "0.0.0.0" (pos 8090) "info"
unfolding program
serves = refl

refuses_open : main world (record open_args { token = some "" }) ≡ refuses "0.0.0.0"
unfolding program
refuses_open = refl

not_loopback : str_in "0.0.0.0" loopback_hosts ≡ false
unfolding program
not_loopback = refl

exposed : ¬ Memᴰ "0.0.0.0" loopback_hosts
exposed m = cc (not_loopback, (str_in_iff "0.0.0.0" loopback_hosts).1 m)

not_health : request.path ≢ "/health"
not_health e = ground (arith, (eq_iff "/generate" "/health").1 e)

lets_in : call app request ≡ ok forwarded
unfolding program
lets_in = refl

main-IsAuthenticated_example :
    (config : AppConfig) × (t : String) × (config_read world open_args ≡ loaded config)
    × (config.token ≡ str t)
    × Credential t (authorization request)
main-IsAuthenticated_example =
    main-IsAuthenticated world open_args request serves exposed (refl, not_health) lets_in

main_cases_example :
    ((main world open_args ≡ refuses open_args.host)
      × ¬ Memᴰ open_args.host loopback_hosts
      × (is_given (token_given world open_args) ≡ false))
    ⊎ ((Memᴰ open_args.host loopback_hosts ⊎ (is_given (token_given world open_args) ≡ true))
        × ServesOrFails world open_args (main world open_args))
main_cases_example = main_cases world open_args
