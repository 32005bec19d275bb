-- ===== src/Placement/Fit.antt =====
-- placement.py, the loop of `select_placement`: what makes a provider eligible, and with which model.
use compute_connect.Prelude.{
  ℤ, pos, ◌+ℤ◌, ◌-ℤ◌, ◌≤ℤ◌, String, Bool, true, false, not, ◌≡◌, refl, ap, ◌⊎◌, ◌↔◌, inl, inr, List,
  [], ◌∷◌, some, eq_iff, Bool-cases, Option-cases, any, any_of_mem, mem_of_any, select-eq-nil_iff,
  Memᴰ, mem-select_of, of_mem-select, arith, mem-sort, of_mem-sort,
}
use compute_connect.Json.{Value, str, truthy, is_text}
use compute_connect.Engine.{ModelInfo}
use compute_connect.Provider.{ProviderSnapshot}
use compute_connect.Placement.Types.{WorkloadSpec, Clock}
use compute_connect.Placement.Order.{model_leb}
use compute_connect.Placement.Judge.{
  is_stale, missing, requested_models, needed, has_room, model_key, fitting, is_empty,
}

-- What the workload asks of a provider and of one of its models, with no reference to the loop.
pub record Fits (clock : Clock) (w : WorkloadSpec) (s : ProviderSnapshot) (m : ModelInfo)
    : Type 0 where
  pub fresh : (age : ℤ) → clock.max_snapshot_age ≡ some age → clock.now -ℤ s.taken_at ≤ℤ age
  pub healthy : s.healthy ≡ true
  pub capable :
      (c : Value)
      → Memᴰ c w.required_capabilities
      → (t : String) × (c ≡ str t) × Memᴰ t s.spec.capabilities
  pub served : Memᴰ m s.models
  pub named : truthy w.model ≡ true → w.model ≡ str m.id
  pub room :
      (m.context_tokens ≤ℤ pos 0) ⊎ (w.context_tokens +ℤ w.max_output_tokens ≤ℤ m.context_tokens)

pub is_text_iff : (v : Value) (s : String) → (is_text v s ≡ true) ↔ (v ≡ str s)
unfolding is_text
is_text_iff (str t) s = (λ h. ap str ((eq_iff t s).0 h), λ e. (eq_iff t s).1 (cc))
is_text_iff _ s = (λ h. cc, λ e. cc)

pub is_stale_iff :
    (clock : Clock) (s : ProviderSnapshot)
    → (is_stale clock s ≡ false)
      ↔ ((age : ℤ) → clock.max_snapshot_age ≡ some age → clock.now -ℤ s.taken_at ≤ℤ age)
unfolding is_stale
is_stale_iff clock s = elim (Option-cases clock.max_snapshot_age) [
  | inl e ↦ (λ h age k. cc (e, k), λ h. rw e refl)
  | inr (a, e) ↦ (λ h age k. ground arith, λ h. ground (arith, h a e))
]

pub is_empty_iff {ℓ} : {A : Type ℓ} (xs : List A) → (is_empty xs ≡ true) ↔ (xs ≡ [])
unfolding is_empty
is_empty_iff [] = (λ h. refl, λ h. refl)
is_empty_iff (x ∷ xs) = (λ h. cc, λ h. cc)

not_false→true : (b : Bool) → not b ≡ false → b ≡ true
not_false→true b h = ground arith

pub missing_iff :
    (w : WorkloadSpec) (s : ProviderSnapshot)
    → (missing w s ≡ []) ↔ (
        (c : Value)
        → Memᴰ c w.required_capabilities
        → (t : String) × (c ≡ str t) × Memᴰ t s.spec.capabilities)
unfolding missing
missing_iff w s =
    let lacks = λ (c : Value). not (any (is_text c) s.spec.capabilities) in
    let nil = select-eq-nil_iff lacks w.required_capabilities in
    (
      λ e c m.
          let (t, n, h) =
            mem_of_any (is_text c) s.spec.capabilities (not_false→true _ (nil.0 e c m)) in
          (t, (is_text_iff c t).0 h, n),
      λ h. nil.1 λ c m.
          let (t, e, n) = h c m in
          ap not (any_of_mem (is_text c) s.spec.capabilities n ((is_text_iff c t).1 e)),
    )

-- the models that the request leaves, and those of them with room
module _ (w : WorkloadSpec) (s : ProviderSnapshot) (m : ModelInfo) where
  pub requested_iff :
      Memᴰ m (requested_models w s)
      ↔ (Memᴰ m s.models × (truthy w.model ≡ true → w.model ≡ str m.id))
  unfolding requested_models
  requested_iff = elim (Bool-cases (truthy w.model)) [
    | inl e ↦ rw e (
      λ k.
          let (n, t) = of_mem-select (λ m. is_text w.model m.id) s.models k in
          (n, λ _. (is_text_iff w.model m.id).0 t),
      λ (n, h).
          mem-select_of (λ m. is_text w.model m.id) s.models n
            ((is_text_iff w.model m.id).1 (h refl)),
    )
    | inr e ↦ rw e (λ k. (k, λ t. cc t), λ (n, h). n)
  ]

  pub has_room_iff : (has_room w m ≡ true) ↔ (
      (m.context_tokens ≤ℤ pos 0) ⊎ (w.context_tokens +ℤ w.max_output_tokens ≤ℤ m.context_tokens))
  unfolding has_room needed
  has_room_iff = (λ h. ground arith, λ h. ground arith)

  pub fitting_iff : Memᴰ m (fitting w s) ↔ (Memᴰ m (requested_models w s) × (has_room w m ≡ true))
  unfolding fitting
  fitting_iff =
      let le = λ (a b : ModelInfo). model_leb (model_key a) (model_key b) in
      (
        λ k. of_mem-select (has_room w) (requested_models w s) (of_mem-sort le _ k),
        λ (n, t). mem-sort le _ (mem-select_of (has_room w) (requested_models w s) n t),
      )
