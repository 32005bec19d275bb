-- ===== src/Placement/Judge.antt =====
-- placement.py, stages 2 to n: the loop of `select_placement` over the candidates.
use mathlib.Core.Option.{get_or}
use compute_connect.Prelude.{
  ℤ, pos, ◌+ℤ◌, ◌-ℤ◌, neg, ltb_ℤ, leb_ℤ, max_ℤ, Bool, true, false, not, ◌&&◌, ◌||◌, none, some,
  List, [], ◌∷◌, ◌++◌, if◌then◌else◌, any, select, sort,
}
use compute_connect.Json.{Value, truthy, is_text}
use compute_connect.Engine.{ModelInfo}
use compute_connect.Provider.{ProviderSnapshot}
use compute_connect.Placement.Types.{
  Stage, Reason, snapshot_too_old, provider_detail, missing_capabilities, model_not_served,
  needs_tokens, Rejection, WorkloadSpec, Clock, Pair,
}
use compute_connect.Placement.Order.{ModelKey, model_leb}

unfoldable pub is_stale : Clock → ProviderSnapshot → Bool
is_stale clock snap = elim clock.max_snapshot_age [
  | none ↦ false
  | some age ↦ ltb_ℤ age (clock.now -ℤ snap.taken_at)
]

-- the capabilities that the workload requires and the provider lacks
unfoldable pub missing : WorkloadSpec → ProviderSnapshot → List Value
missing workload snap =
    select (λ c. not (any (is_text c) snap.spec.capabilities)) workload.required_capabilities

-- the models with the requested name, or all where none is requested
unfoldable pub requested_models : WorkloadSpec → ProviderSnapshot → List ModelInfo
requested_models workload snap =
    if truthy workload.model
    then select (λ m. is_text workload.model m.id) snap.models
    else snap.models

unfoldable pub needed : WorkloadSpec → ℤ
needed workload = workload.context_tokens +ℤ workload.max_output_tokens

unfoldable pub has_room : WorkloadSpec → ModelInfo → Bool
has_room workload m = leb_ℤ m.context_tokens (pos 0) || leb_ℤ (needed workload) m.context_tokens

-- `max((m.context_tokens for m in models), default=0)`
unfoldable pub largest_window : List ModelInfo → ℤ
largest_window [] = pos 0
largest_window (m ∷ []) = m.context_tokens
largest_window (m ∷ n ∷ ms) = max_ℤ m.context_tokens (largest_window (n ∷ ms))

-- the sort key of a fitting model
unfoldable pub model_key : ModelInfo → ModelKey
model_key m = record { not_loaded = not m.loaded; window = neg m.context_tokens; id = m.id }

unfoldable pub fitting : WorkloadSpec → ProviderSnapshot → List ModelInfo
fitting workload snap =
    sort (λ a b. model_leb (model_key a) (model_key b))
      (select (has_room workload) (requested_models workload snap))

pub data Verdict : Type 0 where
  rejected : Stage → Reason → Verdict
  eligible : ModelInfo → Verdict

unfoldable pub is_empty {ℓ} : {A : Type ℓ} → List A → Bool
is_empty [] = true
is_empty (x ∷ xs) = false

-- the last test: a window that is large enough, and then the first of the sorted models
unfoldable pub pick : WorkloadSpec → ProviderSnapshot → List ModelInfo → Verdict
pick workload snap [] =
    rejected Stage.context
      (needs_tokens (needed workload) (largest_window (requested_models workload snap)))
pick workload snap (m ∷ ms) = eligible m

unfoldable pub judge_fit : WorkloadSpec → ProviderSnapshot → Verdict
judge_fit workload snap = pick workload snap (fitting workload snap)

-- the body of the loop of `select_placement`, with the early `continue`s in order
unfoldable pub judge : Clock → WorkloadSpec → ProviderSnapshot → Verdict
judge clock workload snap =
    if is_stale clock snap
    then rejected Stage.stale
        (snapshot_too_old (clock.now -ℤ snap.taken_at) (get_or clock.max_snapshot_age (pos 0)))
    else if not snap.healthy
    then rejected Stage.health (provider_detail snap.detail)
    else if not (is_empty (missing workload snap))
    then rejected Stage.capability (missing_capabilities (missing workload snap))
    else if truthy workload.model && is_empty (requested_models workload snap)
    then rejected Stage.model (model_not_served workload.model)
    else judge_fit workload snap

-- the two lists that the loop appends to
pub record Tally : Type 0 where
  pub rejections : List Rejection
  pub eligible : List Pair

unfoldable pub note : ProviderSnapshot → Verdict → Tally → Tally
note snap (rejected stage reason) t = record t {
  rejections =
      t.rejections ++ (record { provider_id = snap.spec.id; stage = stage; reason = reason }) ∷ [];
}
note snap (eligible m) t = record t { eligible = t.eligible ++ (snap, m) ∷ [] }

unfoldable pub judge_all : Clock → WorkloadSpec → List ProviderSnapshot → Tally → Tally
judge_all clock workload [] t = t
judge_all clock workload (snap ∷ rest) t =
    judge_all clock workload rest (note snap (judge clock workload snap) t)
