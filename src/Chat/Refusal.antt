-- ===== src/Chat/Refusal.antt =====
-- app.py, `v1_chat_completions`: which of the three errors a refused request gets.
use compute_connect.Prelude.{
  Bool, true, false, ◌≡◌, refl, inl, inr, Bool-cases, List, Memᴰ, any, any_of_mem, mem_of_any, some,
}
use compute_connect.Json.{Value, str, is_text}
use compute_connect.Engine.{ModelInfo}
use compute_connect.Provider.{ProviderSnapshot}
use compute_connect.Provider.Registry.{Texts}
use compute_connect.Provider.Snapshot.{Entry, ProviderRegistry, known_but_unhealthy}
use compute_connect.Provider.Privacy.{IsKnownDown, known_but_unhealthy_iff}
use compute_connect.Placement.Fit.{is_text_iff}
use compute_connect.Placement.Types.{PlacementRefusal}
use compute_connect.Chat.{OpenaiError, text_of, is_listed, refusal_error}

abbrev pub Lists : Value → ProviderSnapshot → Type 0
Lists name s = (m : ModelInfo) × Memᴰ m s.models × (name ≡ str m.id)

-- some provider of the snapshot lists a model of that name
abbrev pub Listed : Value → List ProviderSnapshot → Type 0
Listed name snaps = (s : ProviderSnapshot) × Memᴰ s snaps × Lists name s

-- the tier forbids the provider
abbrev pub IsForbidden : Bool → ProviderSnapshot → Type 0
IsForbidden permitted s = (s.spec.placement_class ≡ "cloud") × (permitted ≡ false)

-- some provider that is down, and that may be used, listed it when it was healthy
abbrev pub KnownDown : Texts → ProviderRegistry → Bool → Value → Type 0
KnownDown texts registry permitted name =
    (e : Entry) × Memᴰ e registry.entries × IsKnownDown (text_of texts name) permitted e

-- the answers to a refusal, each with what must be so of the providers
pub data IsRefusal (texts : Texts) (registry : ProviderRegistry) (snaps : List ProviderSnapshot)
    (permitted : Bool) (name : Value) (r : PlacementRefusal) (e : OpenaiError) : Type 0 where
  forbidden :
      (s : ProviderSnapshot)
      → Memᴰ s snaps
      → Lists name s
      → IsForbidden permitted s
      → e.status_code ≡ 403
      → e.code ≡ some r.code
      → IsRefusal texts registry snaps permitted name r e
  unavailable :
      ¬ Listed name snaps
      → KnownDown texts registry permitted name
      → e.status_code ≡ 503
      → IsRefusal texts registry snaps permitted name r e
  unknown :
      ¬ Listed name snaps
      → ¬ KnownDown texts registry permitted name
      → e.status_code ≡ 404
      → IsRefusal texts registry snaps permitted name r e

is_listed-Listed :
    (name : Value) (snaps : List ProviderSnapshot) → is_listed name snaps ≡ true → Listed name snaps
unfolding is_listed
is_listed-Listed name snaps h =
    let (s, i, e) =
      mem_of_any (λ (s : ProviderSnapshot). any (λ (m : ModelInfo). is_text name m.id) s.models)
        snaps h in
    let (m, j, t) = mem_of_any (λ (m : ModelInfo). is_text name m.id) s.models e in
    (s, i, (m, j, (is_text_iff name m.id).0 t))

Listed-is_listed :
    (name : Value) (snaps : List ProviderSnapshot) → Listed name snaps → is_listed name snaps ≡ true
unfolding is_listed
Listed-is_listed name snaps (s, i, (m, j, e)) =
    any_of_mem (λ (s : ProviderSnapshot). any (λ (m : ModelInfo). is_text name m.id) s.models) snaps
      i (any_of_mem (λ (m : ModelInfo). is_text name m.id) s.models j ((is_text_iff name m.id).1 e))

-- Where only providers that the tier forbids list the model, if any do, a refused request is answered
-- 403 with the code of the refusal where one of them lists it, 503 where none does but a provider that is down and may be used listed it when it was healthy, and
-- 404 otherwise.
pub refusal_error-IsRefusal :
    (texts : Texts) (registry : ProviderRegistry) (snaps : List ProviderSnapshot) (permitted : Bool)
    (name : Value) (r : PlacementRefusal)
    → ((s : ProviderSnapshot) → Memᴰ s snaps → Lists name s → IsForbidden permitted s)
    → IsRefusal texts registry snaps permitted name r
        (refusal_error texts registry snaps permitted name r)
unfolding refusal_error
refusal_error-IsRefusal texts registry snaps permitted name r only =
    elim (Bool-cases (is_listed name snaps)) [
      | inl e ↦
          let (s, i, listed) = is_listed-Listed name snaps e in
          rw e (forbidden s i listed (only s i listed) refl refl)
      | inr e ↦
          let not_listed : ¬ Listed name snaps = λ l. let t = Listed-is_listed name snaps l in cc in
          let down = known_but_unhealthy_iff registry (text_of texts name) permitted in
          elim (Bool-cases (known_but_unhealthy registry (text_of texts name) permitted)) [
            | inl k ↦ rw (e, k) (unavailable not_listed (down.0 k) refl)
            | inr k ↦ rw (e, k) (unknown not_listed (λ d. let t = down.1 d in cc) refl)
          ]
    ]
