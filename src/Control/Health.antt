-- ===== src/Control/Health.antt =====
-- app.py, `health`: what the status says of the providers.
use compute_connect.Prelude.{
  ℕ, ◌≤◌, ◌<◌, String, Bool, true, false, not, ◌&&◌, ◌==◌, List, [], ◌∷◌, length, ◌≡◌, ◌≢◌, refl,
  sym, ap, subst, ◌∙◌, ◌⊎◌, inl, inr, arith, Bool-cases, Memᴰ, if◌then◌else◌,
}
use mathlib.Core.List.Memᴰ
use compute_connect.Provider.{ProviderSnapshot}
use compute_connect.Control.Queries.{healthy_ones, health_status}

-- what the status says
pub data IsHealth (snaps : List ProviderSnapshot) : String → Type 0 where
  all_up :
      snaps ≢ [] → ((s : ProviderSnapshot) → Memᴰ s snaps → s.healthy ≡ true) → IsHealth snaps "ok"
  some_up :
      ((s : ProviderSnapshot) × Memᴰ s snaps × (s.healthy ≡ true))
      → ((s : ProviderSnapshot) × Memᴰ s snaps × (s.healthy ≡ false))
      → IsHealth snaps "degraded"
  none_up : ((s : ProviderSnapshot) → Memᴰ s snaps → s.healthy ≡ false) → IsHealth snaps "down"

abbrev AllAre : Bool → List ProviderSnapshot → Type 0
AllAre b snaps = (s : ProviderSnapshot) → Memᴰ s snaps → s.healthy ≡ b

abbrev SomeIs : Bool → List ProviderSnapshot → Type 0
SomeIs b snaps = (s : ProviderSnapshot) × Memᴰ s snaps × (s.healthy ≡ b)

all_cons :
    {b : Bool} {s : ProviderSnapshot} {ss : List ProviderSnapshot}
    → s.healthy ≡ b
    → AllAre b ss
    → AllAre b (s ∷ ss)
all_cons {b} e h t m = elim (Memᴰ.cases_cons m) [
  | inl q ↦ ap (λ (x : ProviderSnapshot). x.healthy) q ∙ e
  | inr k ↦ h t k
]

later :
    {b : Bool} {s : ProviderSnapshot} {ss : List ProviderSnapshot} → SomeIs b ss → SomeIs b (s ∷ ss)
later (t, m, e) = (t, Memᴰ.tail m, e)

shorter : (snaps : List ProviderSnapshot) → length (healthy_ones snaps) ≤ length snaps
shorter [] = omega arith
shorter (s ∷ ss) = elim (Bool-cases s.healthy) [
  | inl e ↦ rw e (omega (arith, shorter ss))
  | inr e ↦ rw e (omega (arith, shorter ss))
]

all_or_down :
    (snaps : List ProviderSnapshot)
    → (AllAre true snaps × (length (healthy_ones snaps) ≡ length snaps))
      ⊎ (SomeIs false snaps × (length (healthy_ones snaps) < length snaps))
all_or_down [] = inl (λ s m. elim m [ ], refl)
all_or_down (s ∷ ss) = elim (Bool-cases s.healthy) [
  | inr e ↦ inr ((s, Memᴰ.head refl, e), rw e (omega (arith, shorter ss)))
  | inl e ↦ elim (all_or_down ss) [
    | inl (a, l) ↦ inl (all_cons e a, rw e (omega (arith, l)))
    | inr (x, l) ↦ inr (later x, rw e (omega (arith, l)))
  ]
]

none_or_up :
    (snaps : List ProviderSnapshot)
    → (AllAre false snaps × (length (healthy_ones snaps) ≡ 0))
      ⊎ (SomeIs true snaps × (0 < length (healthy_ones snaps)))
none_or_up [] = inl (λ s m. elim m [ ], refl)
none_or_up (s ∷ ss) = elim (Bool-cases s.healthy) [
  | inl e ↦ inr ((s, Memᴰ.head refl, e), rw e (omega arith))
  | inr e ↦ elim (none_or_up ss) [
    | inl (a, l) ↦ inl (all_cons e a, rw e l)
    | inr (x, l) ↦ inr (later x, rw e l)
  ]
]

present : {b : Bool} {snaps : List ProviderSnapshot} → SomeIs b snaps → snaps ≢ []
present (s, m, e) n = elim (subst (Memᴰ s) n m) [ ]

-- the status of m healthy providers of n
abbrev word : ℕ → ℕ → String
word m n = if m == n && not (n == 0) then "ok" else if not (m == 0) then "degraded" else "down"

word_ok : (m n : ℕ) → 0 < m → m ≡ n → word m n ≡ "ok"
word_ok m n p e = ground arith

word_degraded : (m n : ℕ) → 0 < m → m < n → word m n ≡ "degraded"
word_degraded m n p l = ground arith

word_down : (m n : ℕ) → m ≡ 0 → word m n ≡ "down"
word_down m n z = ground arith

-- The health answer is "ok" where there are providers and each is healthy, "degraded" where some are
-- and some are not, and "down" where none is.
pub health_status-IsHealth : (snaps : List ProviderSnapshot) → IsHealth snaps (health_status snaps)
unfolding health_status
health_status-IsHealth snaps =
    let m = length (healthy_ones snaps) in
    let n = length snaps in
    elim (none_or_up snaps) [
      | inl (a, z) ↦ subst (IsHealth snaps) (sym (word_down m n z)) (none_up a)
      | inr (x, z) ↦ elim (all_or_down snaps) [
        | inl (b, l) ↦ subst (IsHealth snaps) (sym (word_ok m n z l)) (all_up (present x) b)
        | inr (y, l) ↦ subst (IsHealth snaps) (sym (word_degraded m n z l)) (some_up x y)
      ]
    ]
