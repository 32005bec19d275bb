-- ===== src/Provider/Snapshot.antt =====
-- providers.py, `ProviderRegistry`: its construction, `snapshot`, `known_but_unhealthy` and
-- `invalidate`. The clock at the start of a snapshot and the probes of the providers are arguments.
use compute_connect.Prelude.{
  ℕ, ℤ, pos, ◌-ℤ◌, ltb_ℤ, String, Bool, false, not, ◌&&◌, ◌||◌, Option, none, some, List, [], ◌∷◌,
  map, str_eq, str_in, if◌then◌else◌, any,
}
use compute_connect.Json.{Result, ok, err, value_error}
use compute_connect.Engine.{ModelInfo}
use compute_connect.Provider.{ProviderSpec, ProviderSnapshot}
use compute_connect.Provider.Registry.{CacheEntry, never_probed, Probe, Texts, refresh}
use compute_connect.Bus.{BusPublisher}

-- a registered provider and its cache entry
pub record Entry : Type 0 where
  pub spec : ProviderSpec
  pub cache : CacheEntry

pub record ProviderRegistry : Type 0 where
  pub entries : List Entry
  pub ttl : ℤ
  pub bus : BusPublisher

unfoldable pub has_duplicates : List String → Bool
has_duplicates [] = false
has_duplicates (s ∷ ss) = str_in s ss || has_duplicates ss

abbrev pub registered : ProviderSpec → Entry
registered spec = record { spec = spec; cache = never_probed }

-- `ProviderRegistry.__init__`
unfoldable pub init : List ProviderSpec → ℤ → BusPublisher → Result ProviderRegistry
unfolding has_duplicates
init providers ttl bus =
    if has_duplicates (map (λ (p : ProviderSpec). p.id) providers)
    then err value_error
    else ok (record { entries = map registered providers; ttl = ttl; bus = bus })

abbrev pub snapshot_of : Entry → ℕ → ProviderSnapshot
snapshot_of e active_runs = record {
  spec = e.spec;
  healthy = e.cache.healthy;
  detail = e.cache.detail;
  models = e.cache.models;
  active_runs = active_runs;
  taken_at = e.cache.taken_at;
}

-- what the loop of `snapshot` has changed and collected
pub record Taken : Type 0 where
  pub entries : List Entry
  pub snapshots : List ProviderSnapshot
  pub bus : BusPublisher

-- the answers of the engines and the clock while a snapshot is taken, by the provider's id
abbrev pub Probes : Type 0
Probes = String → Probe

unfoldable pub is_expired : ℤ → ℤ → Entry → Bool
is_expired ttl now e = ltb_ℤ ttl (now -ℤ e.cache.taken_at)

-- one round of the loop of `snapshot`, up to the snapshot that it appends
unfoldable pub visit : Texts → Probes → ℤ → ℤ → Entry → BusPublisher → CacheEntry × BusPublisher
unfolding is_expired
visit texts probes ttl now e bus =
    if is_expired ttl now e
    then refresh texts e.spec (probes e.spec.id) e.cache bus
    else (e.cache, bus)

abbrev pub with_cache : Entry → CacheEntry → Entry
with_cache e cache = record e { cache = cache }

unfoldable pub take_all : Texts → Probes → ℤ → ℤ → (String → ℕ) → List Entry → BusPublisher → Taken
unfolding visit
take_all texts probes ttl now active_count [] bus = record {
  entries = [];
  snapshots = [];
  bus = bus;
}
take_all texts probes ttl now active_count (e ∷ es) bus =
    let visited = visit texts probes ttl now e bus in
    let e' = with_cache e visited.0 in
    let rest = take_all texts probes ttl now active_count es visited.1 in
    record {
      entries = e' ∷ rest.entries;
      snapshots = snapshot_of e' (active_count e.spec.id) ∷ rest.snapshots;
      bus = rest.bus;
    }

abbrev pub ttl_or : ℤ → Option ℤ → ℤ
ttl_or ttl none = ttl
ttl_or ttl (some max_age) = max_age

abbrev pub taken : ProviderRegistry → Texts → Probes → Option ℤ → ℤ → (String → ℕ) → Taken
taken reg texts probes max_age now active_count =
    take_all texts probes (ttl_or reg.ttl max_age) now active_count reg.entries reg.bus

-- `snapshot`: the registry afterwards and the snapshots
unfoldable pub snapshot :
    ProviderRegistry
    → Texts
    → Probes
    → Option ℤ
    → ℤ
    → (String → ℕ)
    → ProviderRegistry × List ProviderSnapshot
unfolding take_all
snapshot reg texts probes max_age now active_count =
    let t = taken reg texts probes max_age now active_count in
    (record reg { entries = t.entries; bus = t.bus }, t.snapshots)

abbrev pub lists : String → List ModelInfo → Bool
lists model_id models = any (λ (m : ModelInfo). str_eq m.id model_id) models

-- the body of the loop of `known_but_unhealthy`
unfoldable pub is_known_down : String → Bool → Entry → Bool
is_known_down model_id cloud_permitted e =
    if str_eq e.spec.placement_class "cloud" && not cloud_permitted
    then false
    else (if e.cache.healthy then false else lists model_id e.cache.last_known_models)

unfoldable pub known_but_unhealthy : ProviderRegistry → String → Bool → Bool
unfolding is_known_down
known_but_unhealthy reg model_id cloud_permitted =
    any (is_known_down model_id cloud_permitted) reg.entries

unfoldable pub invalidate : ProviderRegistry → ProviderRegistry
invalidate reg = record reg {
  entries = map (λ (e : Entry). with_cache e (record e.cache { taken_at = pos 0 })) reg.entries;
}
