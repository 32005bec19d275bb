-- ===== src/Config/Sample.antt =====
-- A configuration file with one provider, and what it loads to: the data of the tests.
use compute_connect.Prelude.{pos, true, some, none, [], ◌∷◌}
use compute_connect.Json.{null, str, obj, finite, Fields, end, field}
use compute_connect.App.{AppConfig, new_llama_cpp}
use compute_connect.Config.{loaded, default_caps}
use compute_connect.Config.Load.{Arguments, World}

-- the file declares one local engine and a token
abbrev pub declaring : Fields
declaring =
    field "providers"
      (obj (field "local" (obj (field "base_url" (str "http://127.0.0.1:8091") end)) end))
      (field "token" (str "filed") end)

abbrev pub world : World
world = record {
  numerals = record { int_of = λ s. none; float_of = λ s. none };
  texts = record { str_of = λ v. ""; no_get = λ v. "" };
  environ = λ key. none;
  read_text = λ path. some "{}";
  yaml_load = none;
  json_loads = λ text. loaded (obj declaring);
  open_journal = λ path. none;
}

abbrev pub arguments : Arguments
arguments = record {
  upstream_url = "http://127.0.0.1:8080";
  include_sim_cloud = true;
  snapshot_ttl = finite (pos 50000);
  run_journal_path = none;
  token = none;
  bus_url = none;
  bus_token = none;
}

abbrev pub config : AppConfig
config = record {
  providers =
      record {
        id = "local";
        placement_class = "local";
        engine = new_llama_cpp "http://127.0.0.1:8091";
        capabilities = default_caps;
        max_concurrency = pos 2;
        estimated_quality = pos 5000;
        estimated_tokens_per_second = pos 100000;
      }
      ∷ [];
  snapshot_ttl = finite (pos 50000);
  max_snapshot_age = null;
  run_journal_path = null;
  token = str "filed";
  bus_url = null;
  bus_token = null;
}
