-- ===== src/Control/Sample.antt =====
-- A service with one cloud provider, a request that it accepts, and the run that it starts: the data of
-- the tests.
use compute_connect.Prelude.{◌-ℤ◌, ◌≡◌, refl, pos, true, [], ◌∷◌, none, some}
use compute_connect.Json.{null, str, end, field, text, Fields}
use compute_connect.Engine.{ModelInfo, llama_cpp}
use compute_connect.Provider.{ProviderSpec, ProviderSnapshot}
use compute_connect.Provider.Registry.{never_probed, raised, came_up}
use compute_connect.Provider.Snapshot.{Entry, snapshot_of}
use compute_connect.Privacy.{resolve_privacy_tier}
use compute_connect.Placement.Types.{WorkloadSpec, Placement}
use compute_connect.Placement.Filter.{filter_candidates}
use compute_connect.Placement.Select.{explain}
use compute_connect.Runs.Run.{Run, generate, new_run}
use compute_connect.Bus
use compute_connect.Bus.{publish, truncate_reason, text_or_empty, shortened, prefix}
use compute_connect.Runs.Registry.{create, trim, finished_ids, remove_all, journal_run}
use compute_connect.Dict
use compute_connect.Control.{Api, Instant}

abbrev pub model : ModelInfo
model = record {
  id = "m";
  context_tokens = pos 4096;
  capabilities = "generate" ∷ [];
  loaded = true;
  metadata = end;
}

abbrev pub cloud : ProviderSpec
cloud = record {
  id = "c";
  placement_class = "cloud";
  engine = llama_cpp (record {
    base_url = "http://c";
    capability_tags = [];
    timeout = pos 100000;
    stream_timeout = pos 3000000;
  });
  capabilities = "generate" ∷ [];
  max_concurrency = pos 2;
  estimated_quality = pos 5000;
  estimated_tokens_per_second = pos 100000;
}

abbrev pub entry : Entry
entry = record {
  spec = cloud;
  cache = record (came_up "ok" (model ∷ []) never_probed) { taken_at = pos 100 };
}

abbrev pub api : Api
api = record {
  registry = record { entries = entry ∷ []; ttl = pos 50000; bus = Bus.init none none };
  runs = record { runs = []; history_limit = pos 512; journal = none; reconciled_run_ids = [] };
  max_snapshot_age = some (pos 350000);
}

abbrev pub instant : Instant
instant = record {
  numerals = record { int_of = λ s. none; float_of = λ s. none };
  texts = record { str_of = λ v. ""; no_get = λ v. "" };
  probes = λ id. record {
    health = raised "down";
    list_models = raised "down";
    now = pos 300;
    event_id = "cc_0";
    ts = pos 300;
  };
  snapshot_now = pos 200;
  place_now = pos 201;
  event_id = "cc_1";
  event_ts = pos 202;
  run_id = "run_1";
  run_now = pos 203;
}

abbrev pub asking : Fields
asking = field "prompt" (str "hi") (field "privacy_tier" (str "public") end)

abbrev pub workload : WorkloadSpec
workload = record {
  model = null;
  required_capabilities = [];
  context_tokens = pos 0;
  max_output_tokens = pos 0;
  latency_preference = text "normal";
  quality_preference = text "good_enough";
  metadata = end;
}

abbrev pub seen : ProviderSnapshot
seen = snapshot_of entry 0

abbrev pub placement : Placement
placement = record {
  provider = seen;
  model = model;
  rationale =
      explain (filter_candidates (seen ∷ []) (resolve_privacy_tier (str "public"))) workload []
        ((seen, model) ∷ []) (seen, model);
}

abbrev pub run : Run
run = new_run "run_1" "c" (some "m") generate (pos 203)

-- the service while the run is active
abbrev pub after : Api
after = record api { runs = (create api.runs "run_1" (pos 203) "c" (some "m") generate).0 }

pub run_found : Dict.get after.runs.runs "run_1" ≡ some run
unfolding create trim finished_ids remove_all journal_run Dict.put Dict.get Dict.remove ◌-ℤ◌
run_found = refl
