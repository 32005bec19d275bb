-- ===== src/Provider/Health.antt =====
-- providers.py: what a probe leaves in the cache, and which events it publishes.
use compute_connect.Prelude.{
  ℤ, String, true, false, not, ◌≡◌, refl, sym, ap, ◌⊎◌, inl, inr, ◌↔◌, Option, none, some, List, [],
  ◌∷◌, str_in, Bool-cases,
}
use compute_connect.Json.{Value, Fields}
use compute_connect.Engine.{ModelInfo}
use compute_connect.Provider.{ProviderSpec}
use compute_connect.Provider.Registry.{
  Classification, healthy, degraded, offline, CacheEntry, Answer, returned, raised, Probe, Texts,
  went_offline, went_degraded, came_up, listed, reached, probed, is_news, same_classification,
  transition_event, emit_health_transition, refresh, status_of,
}
use compute_connect.Bus.{BusPublisher, publish}

-- The cached health, inventory and classification agree.
pub record IsSound (c : CacheEntry) : Type 0 where
  pub classified : (c.healthy ≡ true) ↔ (c.classification ≡ some healthy)
  pub up : c.healthy ≡ true → c.models ≡ c.last_known_models
  pub down : c.healthy ≡ false → c.models ≡ []

-- an entry after a probe: its text and, of a healthy engine, the models vary
abbrev pub ProbeOutcome : CacheEntry → CacheEntry → Type 0
ProbeOutcome before after =
    ((exc : String) × (after ≡ went_offline exc before))
    ⊎ (((status : String) × (after ≡ went_degraded status before))
        ⊎ ((status : String) × (models : List ModelInfo) × (after ≡ came_up status models before)))

listed_cases :
    (status : String) (a : Answer (List ModelInfo)) (c : CacheEntry)
    → ProbeOutcome c (listed status a c)
unfolding listed
listed_cases status (returned models) c = inr (inr (status, models, refl))
listed_cases status (raised exc) c = inl (exc, refl)

reached_cases :
    (texts : Texts) (fs : Fields) (probe : Probe) (c : CacheEntry)
    → ProbeOutcome c (reached texts fs probe c)
unfolding reached
reached_cases texts fs probe c =
    elim (Bool-cases (str_in (status_of texts fs) ("unreachable" ∷ "down" ∷ "error" ∷ []))) [
      | inl e ↦ inr (inl (status_of texts fs, rw e))
      | inr e ↦ rw e (listed_cases (status_of texts fs) probe.list_models c)
    ]

pub probed_cases :
    (texts : Texts) (probe : Probe) (c : CacheEntry) → ProbeOutcome c (probed texts probe c)
unfolding probed
probed_cases texts probe c = go probe.health refl
  where
    go : (a : Answer Value) → probe.health ≡ a → ProbeOutcome c (probed texts probe c)
    go (raised exc) e = inl (exc, rw e)
    go (returned (Value.obj fs)) e = rw e (reached_cases texts fs probe c)
    go (returned Value.null) e = inl (texts.no_get Value.null, rw e)
    go (returned (Value.bool b)) e = inl (texts.no_get (Value.bool b), rw e)
    go (returned (Value.int n)) e = inl (texts.no_get (Value.int n), rw e)
    go (returned (Value.float f)) e = inl (texts.no_get (Value.float f), rw e)
    go (returned (Value.str s)) e = inl (texts.no_get (Value.str s), rw e)
    go (returned (Value.arr vs)) e = inl (texts.no_get (Value.arr vs), rw e)

-- what every probe leaves, whatever was cached
pub record IsProbed (before after : CacheEntry) (now : ℤ) : Type 0 where
  pub sound : IsSound after
  pub stamped : after.taken_at ≡ now
  pub retained : after.healthy ≡ false → after.last_known_models ≡ before.last_known_models

-- A probe leaves a sound entry with the time of the probe, whatever the engine answers or raises and
-- whatever was cached; and where the provider is down, its last healthy inventory is retained.
pub refresh-IsProbed :
    (texts : Texts) (spec : ProviderSpec) (probe : Probe) (c : CacheEntry) (bus : BusPublisher)
    → IsProbed c (refresh texts spec probe c bus).0 probe.now
unfolding refresh
refresh-IsProbed texts spec probe c bus = elim (probed_cases texts probe c) [
  | inl (exc, e) ↦ rw e (record {
    sound = record { classified = (λ h. cc, λ h. cc); up = λ h. cc; down = λ _. refl };
    stamped = refl;
    retained = λ _. refl;
  })
  | inr (inl (status, e)) ↦ rw e (record {
    sound = record { classified = (λ h. cc, λ h. cc); up = λ h. cc; down = λ _. refl };
    stamped = refl;
    retained = λ _. refl;
  })
  | inr (inr (status, models, e)) ↦ rw e (record {
    sound = record { classified = (λ _. refl, λ _. refl); up = λ _. refl; down = λ h. cc };
    stamped = refl;
    retained = λ h. cc;
  })
]

same_classification_iff : (a b : Classification) → (same_classification a b ≡ true) ↔ (a ≡ b)
same_classification_iff healthy healthy = (λ _. refl, λ _. refl)
same_classification_iff healthy degraded = (λ e. cc, λ e. cc)
same_classification_iff healthy offline = (λ e. cc, λ e. cc)
same_classification_iff degraded healthy = (λ e. cc, λ e. cc)
same_classification_iff degraded degraded = (λ _. refl, λ _. refl)
same_classification_iff degraded offline = (λ e. cc, λ e. cc)
same_classification_iff offline healthy = (λ e. cc, λ e. cc)
same_classification_iff offline degraded = (λ e. cc, λ e. cc)
same_classification_iff offline offline = (λ _. refl, λ _. refl)

-- what is not worth an event: no change, or a first probe that finds the provider up
abbrev pub IsQuiet : Option Classification → Classification → Type 0
IsQuiet previous current = (previous ≡ some current) ⊎ ((previous ≡ none) × (current ≡ healthy))

is_news_cases :
    (previous : Option Classification) (current : Classification)
    → ((is_news previous current ≡ false) × IsQuiet previous current)
      ⊎ ((is_news previous current ≡ true) × ¬ IsQuiet previous current)
is_news_cases none healthy = inl (refl, inr (refl, refl))
is_news_cases none degraded = inr (refl, λ q. elim q [ inl e ↦ cc | inr (_, e) ↦ cc ])
is_news_cases none offline = inr (refl, λ q. elim q [ inl e ↦ cc | inr (_, e) ↦ cc ])
is_news_cases (some previous) current = elim (Bool-cases (same_classification current previous)) [
  | inl e ↦ inl (ap not e, inl (ap some (sym ((same_classification_iff current previous).0 e))))
  | inr e ↦ inr (
    ap not e,
    λ q. elim q [
      | inl p ↦
          let same : current ≡ previous = cc in
          cc (e, (same_classification_iff current previous).1 same)
      | inr (p, _) ↦ cc
    ],
  )
]

classified :
    (before after : CacheEntry)
    → ProbeOutcome before after
    → (current : Classification) × (after.classification ≡ some current)
classified before after (inl (_, e)) = (offline, ap (λ (c : CacheEntry). c.classification) e)
classified before after (inr (inl (_, e))) = (degraded, ap (λ (c : CacheEntry). c.classification) e)
classified before after (inr (inr (_, _, e))) =
    (healthy, ap (λ (c : CacheEntry). c.classification) e)

emit_cases :
    (spec : ProviderSpec) (entry : CacheEntry) (previous : Option Classification)
    (current : Classification) (probe : Probe) (bus : BusPublisher)
    → entry.classification ≡ some current
    → (IsQuiet previous current × (emit_health_transition spec entry previous probe bus ≡ bus))
      ⊎ ((¬ IsQuiet previous current)
          × (emit_health_transition spec entry previous probe bus
              ≡ publish bus true (transition_event spec entry current probe)))
unfolding emit_health_transition publish transition_event
emit_cases spec entry previous current probe bus e = elim (is_news_cases previous current) [
  | inl (n, q) ↦ inl (q, rw (e, emit_health_transition, n))
  | inr (n, q) ↦ inr (q, rw (e, emit_health_transition, n))
]

-- Events are edge-triggered: a probe that confirms the classification, and a first probe that finds
-- the provider up, leave the bus alone; any other probe makes one call of `publish`, with the
-- event of the new classification.
pub bus-refresh :
    (texts : Texts) (spec : ProviderSpec) (probe : Probe) (c : CacheEntry) (bus : BusPublisher)
    → (current : Classification) × ((refresh texts spec probe c bus).0.classification
        ≡ some current)
      × ((IsQuiet c.classification current × ((refresh texts spec probe c bus).1 ≡ bus))
          ⊎ ((¬ IsQuiet c.classification current)
              × ((refresh texts spec probe c bus).1
                  ≡ publish bus true
                      (transition_event spec (refresh texts spec probe c bus).0 current probe))))
unfolding refresh
bus-refresh texts spec probe c bus =
    let (current, e) = classified c (probed texts probe c) (probed_cases texts probe c) in
    let after = record (probed texts probe c) { taken_at = probe.now } in
    (current, e, emit_cases spec after c.classification current probe bus e)
