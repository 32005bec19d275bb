-- ===== src/Cli.antt =====
-- src/computeconnect/cli.py: `computeconnect serve`. What argparse makes of the command line is an
-- argument, `ServeArgs`; that uvicorn serves an application is `serving`.
use compute_connect.Prelude.{
  ℤ, pos, String, Bool, true, false, not, ◌&&◌, Option, none, some, str_in, if◌then◌else◌,
  is_nonempty,
}
use compute_connect.Json.{Float, finite}
use compute_connect.App.{
  App, AppConfig, BuildError, Built, built, unbuilt, exposed_host, create_app, loopback_hosts,
}
use compute_connect.Config.{ConfigError, Loaded, loaded, failed}
use compute_connect.Config.Load.{World, Arguments, load_app_config, unless_none}
pub mod Guard
mod Tests

pub record ServeArgs : Type 0 where
  pub host : String
  pub port : ℤ
  pub upstream : String
  pub no_sim_cloud : Bool
  pub snapshot_ttl : Float
  pub run_journal : Option String
  pub config : Option String
  pub log_level : String
  pub token : Option String

-- the defaults of `build_parser`
abbrev pub serve_defaults : ServeArgs
serve_defaults = record {
  host = "127.0.0.1";
  port = pos 8090;
  upstream = "http://127.0.0.1:8080";
  no_sim_cloud = false;
  snapshot_ttl = finite (pos 50000);
  run_journal = none;
  config = none;
  log_level = "info";
  token = none;
}

-- How `main` ends: it refuses to bind, the configuration raises, `create_app` refuses the host or
-- raises otherwise, or it serves.
pub data ServeEnd : Type 0 where
  refuses : String → ServeEnd
  misconfigured : ConfigError → ServeEnd
  refused_by_app : String → ServeEnd
  not_built : BuildError → ServeEnd
  serving : App → String → ℤ → String → ServeEnd

-- the truth value of a text or None
abbrev pub is_given : Option String → Bool
is_given none = false
is_given (some s) = is_nonempty s

unfoldable pub load_arguments : ServeArgs → Option String → Arguments
load_arguments args token = record {
  upstream_url = args.upstream;
  include_sim_cloud = not args.no_sim_cloud;
  snapshot_ttl = args.snapshot_ttl;
  run_journal_path = args.run_journal;
  token = token;
  bus_url = none;
  bus_token = none;
}

-- `uvicorn.run` on what `create_app` returned
unfoldable pub serve_app : ServeArgs → Built → ServeEnd
serve_app args (built app) = serving app args.host args.port args.log_level
serve_app args exposed_host = refused_by_app args.host
serve_app args (unbuilt e) = not_built e

unfoldable pub serve_config : World → ServeArgs → Loaded AppConfig → ServeEnd
unfolding serve_app
serve_config w args (loaded config) =
    serve_app args (create_app w.open_journal config (some args.host))
serve_config w args (failed e) = misconfigured e

unfoldable pub main : World → ServeArgs → ServeEnd
unfolding serve_config load_arguments
main w args =
    let token = unless_none args.token (w.environ "COMPUTECONNECT_TOKEN") in
    if not (str_in args.host loopback_hosts) && not (is_given token)
    then refuses args.host
    else serve_config w args (load_app_config w args.config (load_arguments args token))
