-- ===== src/Cli/Guard.antt =====
-- cli.py, `main`: what the command line's guard is worth.
use compute_connect.Prelude.{
  ◌⊎◌, String, true, false, Option, none, some, str_in, ◌≡◌, refl, inl, inr, Bool-cases, Memᴰ,
  str_in_iff, ℤ,
}
use compute_connect.Json.{Value, str, truthy, ok}
use compute_connect.App.{
  BuildError, Built, built, unbuilt, exposed_host, construct, finish_app, App, AppConfig,
  create_app, is_exposed, loopback_hosts, middleware_token,
}
use compute_connect.App.Building.{Constructs, construct-Constructs}
use compute_connect.App.Auth.{Scope, forwarded, call, authorization, Credential}
use compute_connect.App.Guard.{IsGuarded, exposed-IsAuthenticated}
use compute_connect.Config.{ConfigError, Loaded, loaded, failed}
use compute_connect.Config.Load.{World, unless_none, load_app_config}
use compute_connect.Config.Settings.{
  Source, from_file, from_argument, from_environment, load_app_config-Source,
}
use compute_connect.Cli.{
  ServeArgs, ServeEnd, refuses, misconfigured, not_built, serving, is_given, load_arguments,
  serve_app, serve_config, main,
}

Source-truthy :
    (file : Value) (argument environment : Option String) (v : Value)
    → is_given argument ≡ true
    → Source file argument environment v
    → truthy v ≡ true
unfolding truthy
Source-truthy file argument environment v g (from_file t e) = rw e t
Source-truthy file argument environment v g (from_argument s t a e) = rw e (rw a at g)
Source-truthy file argument environment v g (from_environment t a e) = cc (rw a at g)

-- a token that is given is never lost
token-truthy :
    (w : World) (args : ServeArgs) (token : Option String) (config : AppConfig)
    → is_given token ≡ true
    → load_app_config w args.config (load_arguments args token) ≡ loaded config
    → truthy config.token ≡ true
unfolding load_arguments
token-truthy w args token config g e =
    let (raw, r, t, _, _) =
      load_app_config-Source w args.config (load_arguments args token) config e in
    Source-truthy _ token (w.environ "COMPUTECONNECT_TOKEN") config.token g t

created :
    (w : World) (config : AppConfig) (host : String)
    → truthy config.token ≡ true
    → create_app w.open_journal config (some host)
      ≡ finish_app config (construct w.open_journal config)
unfolding create_app
created w config host t = elim (Bool-cases (is_exposed (some host))) [
  | inl x ↦ rw (x, t) refl
  | inr x ↦ rw x refl
]

created_on_loopback :
    (w : World) (config : AppConfig) (host : String)
    → str_in host loopback_hosts ≡ true
    → create_app w.open_journal config (some host)
      ≡ finish_app config (construct w.open_journal config)
unfolding create_app is_exposed
created_on_loopback w config host h = rw h refl

-- the guard of `create_app` refuses nothing that the command line lets through
module _ (w : World) (args : ServeArgs) where
  abbrev pub token_given : Option String
  token_given = unless_none args.token (w.environ "COMPUTECONNECT_TOKEN")

  abbrev pub config_read : Loaded AppConfig
  config_read = load_app_config w args.config (load_arguments args token_given)

  -- how the command ends once it is past its guard
  pub data ServesOrFails : ServeEnd → Type 0 where
    serves :
        (config : AppConfig)
        → config_read ≡ loaded config
        → Constructs w.open_journal config none
        → ServesOrFails (
            serving
              (record { config = config; token = middleware_token config.token })
              args.host
              args.port
              args.log_level)
    fails_to_load : (e : ConfigError) → config_read ≡ failed e → ServesOrFails (misconfigured e)
    fails_to_build :
        (config : AppConfig) (e : BuildError)
        → config_read ≡ loaded config
        → Constructs w.open_journal config (some e)
        → ServesOrFails (not_built e)

  finish_cases :
      (config : AppConfig) (r : Option BuildError)
      → config_read ≡ loaded config
      → Constructs w.open_journal config r
      → ServesOrFails (serve_app args (finish_app config r))
  unfolding serve_app finish_app
  finish_cases config none read c = serves config read c
  finish_cases config (some e) read c = fails_to_build config e read c

  token_kept :
      is_given token_given ≡ true
      → (l : Loaded AppConfig) → config_read ≡ l
      → ServesOrFails (serve_config w args l)
  unfolding serve_config
  token_kept g (failed e) r = fails_to_load e r
  token_kept g (loaded config) r =
      rw (created w config args.host (token-truthy w args token_given config g r)) (
        finish_cases config (construct w.open_journal config) r
          (construct-Constructs w.open_journal config))

  on_loopback :
      str_in args.host loopback_hosts ≡ true
      → (l : Loaded AppConfig) → config_read ≡ l
      → ServesOrFails (serve_config w args l)
  unfolding serve_config
  on_loopback h (failed e) r = fails_to_load e r
  on_loopback h (loaded config) r = rw (created_on_loopback w config args.host h) (
      finish_cases config (construct w.open_journal config) r
        (construct-Constructs w.open_journal config))

  -- The command refuses to bind exactly a host that is no loopback host where no token is given, by the
  -- flag or by the environment. Otherwise it serves the configuration that it loads, or loading it
  -- fails, or the construction of the API raises for it: what sqlite3 raises for its journal, or an
  -- error because its bus_url counts and is no text, or because an id stands twice in its fleet. It
  -- serves only where none of these three holds, and the guard of `create_app` never refuses it, since
  -- no configuration loses the token that is given.
  pub main_cases :
      ((main w args ≡ refuses args.host)
        × ¬ Memᴰ args.host loopback_hosts
        × (is_given token_given ≡ false))
      ⊎ ((Memᴰ args.host loopback_hosts ⊎ (is_given token_given ≡ true))
          × ServesOrFails (main w args))
  unfolding main
  main_cases = elim (Bool-cases (str_in args.host loopback_hosts)) [
    | inl h ↦
        inr (inl ((str_in_iff args.host loopback_hosts).0 h), rw h (on_loopback h config_read refl))
    | inr h ↦ elim (Bool-cases (is_given token_given)) [
      | inl g ↦ inr (inr g, rw (h, g) (token_kept g config_read refl))
      | inr g ↦
          inl (rw (h, g) refl, λ m. let t = (str_in_iff args.host loopback_hosts).1 m in cc, g)
    ]
  ]

built_by :
    (args : ServeArgs) (r : Built) {app : App} {host : String} {port : ℤ} {level : String}
    → serve_app args r ≡ serving app host port level
    → r ≡ built app
unfolding serve_app
built_by args (built app) e = cc
built_by args (unbuilt x) e = cc
built_by args exposed_host e = cc

configured_by :
    (w : World) (args : ServeArgs) (l : Loaded AppConfig) {app : App} {host : String} {port : ℤ}
    {level : String}
    → serve_config w args l ≡ serving app host port level
    → (config : AppConfig) × (l ≡ loaded config)
      × (create_app w.open_journal config (some args.host) ≡ built app)
unfolding serve_config
configured_by w args (loaded config) e =
    (config, refl, built_by args (create_app w.open_journal config (some args.host)) e)
configured_by w args (failed x) e = cc

main-serving :
    (w : World) (args : ServeArgs) {app : App} {host : String} {port : ℤ} {level : String}
    → main w args ≡ serving app host port level
    → serve_config w args (config_read w args) ≡ serving app host port level
unfolding main
main-serving w args e = elim (Bool-cases (str_in args.host loopback_hosts)) [
  | inl h ↦ rw h at e
  | inr h ↦ elim (Bool-cases (is_given (token_given w args))) [
    | inl g ↦ rw (h, g) at e
    | inr g ↦ cc (rw (h, g) at e)
  ]
]

-- Whatever the configuration file and the environment say, a service that the command binds to another
-- host than the loopback ones lets an HTTP request for another path than /health through only if its
-- Bearer credential is the token of the configuration that was loaded.
pub main-IsAuthenticated :
    (w : World) (args : ServeArgs) {app : App} {host : String} {port : ℤ} {level : String}
    (scope : Scope)
    → main w args ≡ serving app host port level
    → ¬ Memᴰ args.host loopback_hosts
    → IsGuarded scope
    → call app scope ≡ ok forwarded
    → (config : AppConfig) × (t : String) × (config_read w args ≡ loaded config)
      × (config.token ≡ str t)
      × Credential t (authorization scope)
main-IsAuthenticated w args scope served exposed guarded through =
    let (config, read, made) =
      configured_by w args (config_read w args) (main-serving w args served) in
    let (t, token, c) =
      exposed-IsAuthenticated w.open_journal config args.host scope made exposed guarded through in
    (config, t, read, token, c)
