-- ===== src/Provider/Tests.antt =====
-- Tests of the provider registry, and the theorems about it at concrete probes.

use compute_connect.Prelude.{
  ℕ, pos, ◌-ℤ◌, String, true, false, ◌≡◌, refl, ◌⊎◌, none, some, [], ◌∷◌, str_in, select, map,
}
use compute_connect.Json.{obj, str, null, end, field, fields_get, err, value_error}
use compute_connect.Engine.{ModelInfo, llama_cpp}
use compute_connect.Provider.{ProviderSpec}
use compute_connect.Provider.Registry.{
  Classification, degraded, offline, CacheEntry, never_probed, returned, raised, Probe, Texts,
  probed, reached, listed, status_of, has, transition_event, emit_health_transition, refresh,
}
use compute_connect.Provider.Snapshot.{
  ProviderRegistry, init, has_duplicates, Probes, is_expired, visit, take_all, ttl_or, snapshot,
  is_known_down, known_but_unhealthy, invalidate,
}
use compute_connect.Provider.Health.{refresh-IsProbed, IsQuiet, bus-refresh}
use compute_connect.Provider.Freshness.{
  Reports, Each, AllSound, no_entry, sound_entry, snapshot-Reports,
}
use compute_connect.Provider.Privacy.{is_not_cloud, known_but_unhealthy-select}
use compute_connect.Bus
use compute_connect.Bus.{BusPublisher, Event, publish}

program : Unit {0}
unfolding probed reached listed status_of has fields_get str_in emit_health_transition refresh init
    has_duplicates is_expired visit take_all snapshot is_known_down known_but_unhealthy invalidate
    publish Bus.init Bus.text_or_empty Bus.rstrip_slashes ◌-ℤ◌
program = tt

abbrev texts : Texts
texts = record { str_of = λ v. "None"; no_get = λ v. "object has no attribute 'get'" }

abbrev model : ModelInfo
model = record {
  id = "m";
  context_tokens = pos 4096;
  capabilities = "chat" ∷ [];
  loaded = true;
  metadata = end;
}

abbrev cloud : ProviderSpec
cloud = record {
  id = "c";
  placement_class = "cloud";
  engine = llama_cpp (record {
    base_url = "http://c";
    capability_tags = [];
    timeout = pos 100000;
    stream_timeout = pos 3000000;
  });
  capabilities = "chat" ∷ [];
  max_concurrency = pos 2;
  estimated_quality = pos 5000;
  estimated_tokens_per_second = pos 100000;
}

abbrev up : Probe
up = record {
  health = returned (obj (field "status" (str "ok") end));
  list_models = returned (model ∷ []);
  now = pos 100;
  event_id = "cc_1";
  ts = pos 101;
}

abbrev down : Probe
down = record up { health = raised "connection refused"; now = pos 200 }

abbrev busy : Probe
busy = record up { health = returned (obj (field "status" (str "error") end)) }

abbrev odd : Probe
odd = record up { health = returned null }

abbrev bus : BusPublisher
bus = Bus.init (some "http://bus") (some "token")

seen : CacheEntry
unfolding program
seen = (refresh texts cloud up never_probed bus).0

abbrev outage : Event
outage = transition_event cloud (refresh texts cloud down seen bus).0 offline down

-- the first healthy probe is silent, the outage after it is published, its confirmation is not
publishes_once :
    ((refresh texts cloud up never_probed bus).1.scheduled ≡ [])
    × ((refresh texts cloud down seen bus).1.scheduled ≡ outage ∷ [])
    × ((refresh texts cloud down (refresh texts cloud down seen bus).0 bus).1.scheduled ≡ [])
unfolding program seen
publishes_once = (refl, refl, refl)

classifies :
    ((probed texts busy never_probed).classification ≡ some degraded)
    × ((probed texts odd never_probed).classification ≡ some offline)
    × ((probed texts busy never_probed).detail ≡ "engine error")
unfolding program
classifies = (refl, refl, refl)

refuses_duplicates : init (cloud ∷ cloud ∷ []) (pos 50) bus ≡ err value_error
unfolding program
refuses_duplicates = refl

bus-refresh_example :
    (current : Classification) × ((refresh texts cloud down seen bus).0.classification
      ≡ some current)
    × ((IsQuiet seen.classification current × ((refresh texts cloud down seen bus).1 ≡ bus))
        ⊎ ((¬ IsQuiet seen.classification current)
            × ((refresh texts cloud down seen bus).1
                ≡ publish bus true
                    (transition_event cloud (refresh texts cloud down seen bus).0 current down))))
bus-refresh_example = bus-refresh texts cloud down seen bus

abbrev reg : ProviderRegistry
reg = record { entries = record { spec = cloud; cache = seen } ∷ []; ttl = pos 50; bus = bus }

abbrev all_down : Probes
all_down id = down

abbrev idle : String → ℕ
idle id = 0

-- the entry of time 100 is used at 150 and replaced at 151
expires :
    (map (λ s. s.taken_at) (snapshot reg texts all_down none (pos 150) idle).1 ≡ pos 100 ∷ [])
    × (map (λ s. s.taken_at) (snapshot reg texts all_down none (pos 151) idle).1 ≡ pos 200 ∷ [])
unfolding program seen
expires = (refl, refl)

reg_sound : AllSound reg.entries
unfolding program seen
reg_sound = sound_entry (refresh-IsProbed texts cloud up never_probed bus).sound no_entry

snapshot-Reports_example :
    AllSound (snapshot reg texts all_down none (pos 151) idle).0.entries
    × Each
        (Reports texts all_down (ttl_or (pos 50) none) (pos 151) idle)
        reg.entries
        (snapshot reg texts all_down none (pos 151) idle).1
snapshot-Reports_example = snapshot-Reports reg texts all_down none (pos 151) idle reg_sound

abbrev later : ProviderRegistry
later = (snapshot reg texts all_down none (pos 151) idle).0

remembers :
    (known_but_unhealthy later "m" true ≡ true)
    × (known_but_unhealthy later "m" false ≡ false)
    × (known_but_unhealthy reg "m" true ≡ false)
unfolding program seen
remembers = (refl, refl, refl)

known_but_unhealthy-select_example :
    known_but_unhealthy later "m" false
    ≡ known_but_unhealthy (record later { entries = select is_not_cloud later.entries }) "m" false
known_but_unhealthy-select_example = known_but_unhealthy-select later "m"
