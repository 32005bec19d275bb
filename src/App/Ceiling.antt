-- ===== src/App/Ceiling.antt =====
-- app.py, `effective_max_snapshot_age`: the ceiling against the time-to-live.
use compute_connect.Prelude.{
  ℤ, pos, ◌≤ℤ◌, ◌+ℤ◌, ◌*ℤ◌, ltb_ℤ, leb_ℤ, ◌≡◌, refl, ◌⊎◌, inl, inr, arith, Bool-cases,
}
use compute_connect.Json.{null, float, finite}
use compute_connect.Number.{times, plus, max_float, less}
use compute_connect.App.{AppConfig, effective_max_snapshot_age}

-- Where no ceiling is configured and the time-to-live is a finite number: without a positive
-- time-to-live there is no ceiling, and otherwise the ceiling is at least thirty seconds above it and
-- at least six times it.
pub effective_max_snapshot_age-gap :
    (config : AppConfig) (ttl : ℤ)
    → config.max_snapshot_age ≡ null
    → config.snapshot_ttl ≡ finite ttl
    → ((ttl ≤ℤ pos 0) × (effective_max_snapshot_age config ≡ null))
      ⊎ ((ceiling : ℤ) × (effective_max_snapshot_age config ≡ float (finite ceiling))
          × (ttl +ℤ pos 300000 ≤ℤ ceiling)
          × (ttl *ℤ pos 6 ≤ℤ ceiling))
unfolding effective_max_snapshot_age max_float less times plus
effective_max_snapshot_age-gap config ttl unset t = elim (Bool-cases (leb_ℤ ttl (pos 0))) [
  | inl p ↦ inl (ground arith, rw (unset, t, p) refl)
  | inr p ↦ inr (elim (Bool-cases (ltb_ℤ (ttl *ℤ pos 6) (ttl +ℤ pos 300000))) [
    | inl q ↦ (ttl +ℤ pos 300000, rw (unset, t, p, q) refl, ground arith, ground arith)
    | inr q ↦ (ttl *ℤ pos 6, rw (unset, t, p, q) refl, ground arith, ground arith)
  ])
]
