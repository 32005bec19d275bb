-- ===== src/App/Building.antt =====
-- app.py, `ComputeConnectAPI.__init__`: when it raises, and what.

use compute_connect.Prelude.{
  String, Option, none, some, true, false, List, [], ◌∷◌, map, str_in, str_in_iff, Memᴰ, ◌≡◌, ◌≢◌,
  refl, ◌⊎◌, inl, inr, Bool-cases, Option-cases,
}
use compute_connect.Json.{Value, null, bool, int, float, str, arr, obj, truthy}
use compute_connect.Provider.{ProviderSpec}
use compute_connect.Provider.Snapshot.{has_duplicates}
use compute_connect.App.{
  AppConfig, BuildError, journal_failed, bus_url_no_text, duplicate_ids, OpenJournal, has_no_rstrip,
  after_journal, construct,
}

-- a text stands in the list twice
pub data Repeats : List String → Type 0 where
  at_head : {s : String} {ss : List String} → Memᴰ s ss → Repeats (s ∷ ss)
  in_tail : {s : String} {ss : List String} → Repeats ss → Repeats (s ∷ ss)

Repeats-cons : {s : String} {ss : List String} → Repeats (s ∷ ss) → Memᴰ s ss ⊎ Repeats ss
Repeats-cons (at_head m) = inl m
Repeats-cons (in_tail r) = inr r

has_duplicates-Repeats : (ss : List String) → has_duplicates ss ≡ true → Repeats ss
unfolding has_duplicates
has_duplicates-Repeats [] e = cc
has_duplicates-Repeats (s ∷ ss) e = elim (Bool-cases (str_in s ss)) [
  | inl t ↦ at_head ((str_in_iff s ss).0 t)
  | inr t ↦ in_tail (has_duplicates-Repeats ss (rw t at e))
]

Repeats-has_duplicates : (ss : List String) → Repeats ss → has_duplicates ss ≡ true
unfolding has_duplicates
Repeats-has_duplicates [] r = elim r [ ]
Repeats-has_duplicates (s ∷ ss) r = elim (Bool-cases (str_in s ss)) [
  | inl t ↦ rw t refl
  | inr t ↦ elim (Repeats-cons r) [
    | inl m ↦ let h = (str_in_iff s ss).1 m in cc
    | inr q ↦ rw t (Repeats-has_duplicates ss q)
  ]
]

-- no journal is asked for, or it can be opened
abbrev pub IsOpened : OpenJournal → AppConfig → Type 0
IsOpened open_journal config =
    (truthy config.run_journal_path ≡ false) ⊎ (open_journal config.run_journal_path ≡ none)

-- the bus_url is a text, or counts as none
abbrev pub IsUsable : Value → Type 0
IsUsable v = ((s : String) × (v ≡ str s)) ⊎ (truthy v ≡ false)

abbrev pub provider_ids : AppConfig → List String
provider_ids config = map (λ (p : ProviderSpec). p.id) config.providers

-- what the construction raises, or that it raises nothing, by what the configuration says
pub data Constructs (open_journal : OpenJournal) (config : AppConfig)
    : Option BuildError → Type 0 where
  no_journal :
      {exc : String}
      → truthy config.run_journal_path ≡ true
      → open_journal config.run_journal_path ≡ some exc
      → Constructs open_journal config (some (journal_failed exc))
  no_url :
      IsOpened open_journal config
      → ¬ IsUsable config.bus_url
      → Constructs open_journal config (some bus_url_no_text)
  repeated :
      IsOpened open_journal config
      → IsUsable config.bus_url
      → Repeats (provider_ids config)
      → Constructs open_journal config (some duplicate_ids)
  succeeds :
      IsOpened open_journal config
      → IsUsable config.bus_url
      → ¬ Repeats (provider_ids config)
      → Constructs open_journal config none

unusable : {v : Value} → ((s : String) → v ≢ str s) → truthy v ≡ true → ¬ IsUsable v
unusable no_text t (inl (s, e)) = no_text s e
unusable no_text t (inr e) = cc

truth_cases :
    (v : Value)
    → ((s : String) → v ≢ str s)
    → ((truthy v ≡ true) × ¬ IsUsable v) ⊎ ((truthy v ≡ false) × IsUsable v)
truth_cases v no_text = elim (Bool-cases (truthy v)) [
  | inl t ↦ inl (t, unusable no_text t)
  | inr t ↦ inr (t, inr t)
]

url_cases :
    (v : Value)
    → ((has_no_rstrip v ≡ true) × ¬ IsUsable v) ⊎ ((has_no_rstrip v ≡ false) × IsUsable v)
unfolding has_no_rstrip
url_cases (str s) = inr (refl, inl (s, refl))
url_cases null = truth_cases null (λ s e. cc)
url_cases (bool b) = truth_cases (bool b) (λ s e. cc)
url_cases (int n) = truth_cases (int n) (λ s e. cc)
url_cases (float f) = truth_cases (float f) (λ s e. cc)
url_cases (arr vs) = truth_cases (arr vs) (λ s e. cc)
url_cases (obj fs) = truth_cases (obj fs) (λ s e. cc)

after_journal-Constructs :
    (open_journal : OpenJournal) (config : AppConfig)
    → IsOpened open_journal config
    → Constructs open_journal config (after_journal config none)
unfolding after_journal
after_journal-Constructs open_journal config opened = elim (url_cases config.bus_url) [
  | inl (e, n) ↦ rw e (no_url opened n)
  | inr (e, u) ↦ elim (Bool-cases (has_duplicates (provider_ids config))) [
    | inl d ↦ rw (e, d) (repeated opened u (has_duplicates-Repeats (provider_ids config) d))
    | inr d ↦
        rw (e, d)
          (succeeds opened u (λ r. let t = Repeats-has_duplicates (provider_ids config) r in cc))
  ]
]

pub construct-Constructs :
    (open_journal : OpenJournal) (config : AppConfig)
    → Constructs open_journal config (construct open_journal config)
unfolding construct
construct-Constructs open_journal config = elim (Bool-cases (truthy config.run_journal_path)) [
  | inr t ↦ rw t (after_journal-Constructs open_journal config (inl t))
  | inl t ↦ elim (Option-cases (open_journal config.run_journal_path)) [
    | inl o ↦ rw (t, o) (after_journal-Constructs open_journal config (inr o))
    | inr (exc, o) ↦ rw (t, o, after_journal) (no_journal t o)
  ]
]
