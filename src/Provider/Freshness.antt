-- ===== src/Provider/Freshness.antt =====
-- providers.py, `snapshot`: one snapshot for each provider, none older than allowed.

use compute_connect.Prelude.{
  ℕ, ℤ, ◌-ℤ◌, ◌≤ℤ◌, ltb_ℤ, String, false, ◌≡◌, refl, ◌⊎◌, inl, inr, Option, List, [], ◌∷◌, arith,
  Bool-cases,
}
use compute_connect.Provider.{ProviderSpec, ProviderSnapshot}
use compute_connect.Provider.Registry.{Texts, CacheEntry, Probe, probed, refresh}
use compute_connect.Provider.Snapshot.{
  Entry, ProviderRegistry, snapshot_of, Probes, is_expired, visit, with_cache, take_all, ttl_or,
  snapshot,
}
use compute_connect.Provider.Health.{IsSound, refresh-IsProbed}
use compute_connect.Bus.{BusPublisher}

-- the snapshot says of the health and of the models what the entry does
pub record Shows (c : CacheEntry) (s : ProviderSnapshot) : Type 0 where
  pub healthy : s.healthy ≡ c.healthy
  pub detail : s.detail ≡ c.detail
  pub models : s.models ≡ c.models

-- what a snapshot says of a provider, next to the entry that the provider had before
pub record Reports (texts : Texts) (probes : Probes) (ttl now : ℤ) (active_count : String → ℕ)
    (e : Entry) (s : ProviderSnapshot) : Type 0 where
  pub spec : s.spec ≡ e.spec
  pub load : s.active_runs ≡ active_count e.spec.id
  pub fresh :
      ((s.taken_at ≡ (probes e.spec.id).now) × Shows (probed texts (probes e.spec.id) e.cache) s)
      ⊎ ((s.taken_at ≡ e.cache.taken_at) × (now -ℤ s.taken_at ≤ℤ ttl) × Shows e.cache s)
  pub empty_if_down : s.healthy ≡ false → s.models ≡ []

-- the lists agree place by place
pub data Each {A B : Type 0} (R : A → B → Type 0) : List A → List B → Type 0 where
  none_left : Each R [] []
  both :
      {a : A} {b : B} {as_ : List A} {bs : List B}
      → R a b
      → Each R as_ bs
      → Each R (a ∷ as_) (b ∷ bs)

pub data AllSound : List Entry → Type 0 where
  no_entry : AllSound []
  sound_entry : {e : Entry} {es : List Entry} → IsSound e.cache → AllSound es → AllSound (e ∷ es)

refresh-Shows :
    (texts : Texts) (spec : ProviderSpec) (probe : Probe) (c : CacheEntry) (bus : BusPublisher)
    (active_runs : ℕ)
    → Shows (probed texts probe c) (
        snapshot_of
          (record { spec = spec; cache = (refresh texts spec probe c bus).0 })
          active_runs)
unfolding refresh
refresh-Shows texts spec probe c bus active_runs = record {
  healthy = refl;
  detail = refl;
  models = refl;
}

module _ (texts : Texts) (probes : Probes) (ttl now : ℤ) (active_count : String → ℕ) where
  visit-Reports :
      (e : Entry) (bus : BusPublisher)
      → IsSound e.cache
      → IsSound (visit texts probes ttl now e bus).0
        × Reports texts probes ttl now active_count e (
            snapshot_of
              (with_cache e (visit texts probes ttl now e bus).0)
              (active_count e.spec.id))
  unfolding visit is_expired
  visit-Reports e bus h = elim (Bool-cases (ltb_ℤ ttl (now -ℤ e.cache.taken_at))) [
    | inl x ↦
        let p = refresh-IsProbed texts e.spec (probes e.spec.id) e.cache bus in
        rw x (
          p.sound,
          record {
            spec = refl;
            load = refl;
            fresh = inl (
              p.stamped,
              refresh-Shows texts e.spec (probes e.spec.id) e.cache bus (active_count e.spec.id),
            );
            empty_if_down = p.sound.down;
          },
        )
    | inr x ↦ rw x (
      h,
      record {
        spec = refl;
        load = refl;
        fresh = inr (refl, ground arith, record { healthy = refl; detail = refl; models = refl });
        empty_if_down = h.down;
      },
    )
  ]

  take_all-Reports :
      (es : List Entry) (bus : BusPublisher)
      → AllSound es
      → AllSound (take_all texts probes ttl now active_count es bus).entries
        × Each
            (Reports texts probes ttl now active_count)
            es
            (take_all texts probes ttl now active_count es bus).snapshots
  unfolding take_all
  take_all-Reports [] bus h = (no_entry, none_left)
  take_all-Reports (e ∷ es) bus (sound_entry s h) =
      let v = visit-Reports e bus s in
      let rest = take_all-Reports es (visit texts probes ttl now e bus).1 h in
      (sound_entry v.0 rest.0, both v.1 rest.1)

-- On a sound cache, `snapshot` reports every provider once, in the order of registration, with its
-- number of active runs, and either with the health, the detail and the models that a probe of just now
-- found and the time of that probe, or with those of its cache entry, which is then at most the
-- time-to-live old; it lists no model of a provider that is down, and it keeps the cache sound.
pub snapshot-Reports :
    (reg : ProviderRegistry) (texts : Texts) (probes : Probes) (max_age : Option ℤ) (now : ℤ)
    (active_count : String → ℕ)
    → AllSound reg.entries
    → AllSound (snapshot reg texts probes max_age now active_count).0.entries
      × Each
          (Reports texts probes (ttl_or reg.ttl max_age) now active_count)
          reg.entries
          (snapshot reg texts probes max_age now active_count).1
unfolding snapshot
snapshot-Reports reg texts probes max_age now active_count h =
    take_all-Reports texts probes (ttl_or reg.ttl max_age) now active_count reg.entries reg.bus h
