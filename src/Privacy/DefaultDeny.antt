-- ===== src/Privacy/DefaultDeny.antt =====
-- privacy.py, `resolve_privacy_tier`: cloud execution is denied unless a signal permits it.
use mathlib.Core.List.Memᴰ
use compute_connect.Prelude.{
  String, true, false, ◌≡◌, refl, ◌↔◌, ◌⊎◌, inl, inr, some, Bool-cases, strip, str_in, str_in_iff,
  is_blank, is_nonempty, is_blank_of_strip, Memᴰ, Option,
}
use compute_connect.Json.{PyText, Value, str, text}
use compute_connect.Privacy.{
  ResolvedPrivacy, resolve_text, resolve_privacy_tier, known_tiers, clamped, cloud_permitting_tiers,
  most_restrictive_tier,
}

-- the resolution of a known tier
abbrev pub taken : String → ResolvedPrivacy
taken tier = record {
  declared = some (text tier);
  effective = tier;
  assumed = false;
  cloud_permitted = str_in tier cloud_permitting_tiers;
}

-- the three branches for a text
pub resolve_text-cases :
    (raw : String)
    → ((is_blank raw ≡ true) × (resolve_text raw ≡ clamped (some (text raw))))
      ⊎ ((str_in (strip raw) known_tiers ≡ false)
          × (resolve_text raw ≡ clamped (some (text (strip raw)))))
      ⊎ ((is_blank raw ≡ false)
          × (str_in (strip raw) known_tiers ≡ true)
          × (resolve_text raw ≡ taken (strip raw)))
unfolding resolve_text
resolve_text-cases raw = elim (Bool-cases (is_blank raw)) [
  | inl b ↦ inl (b, rw b)
  | inr b ↦ elim (Bool-cases (str_in (strip raw) known_tiers)) [
    | inl k ↦ inr (inr (b, k, rw (b, k)))
    | inr k ↦ inr (inl (k, rw (b, k)))
  ]
]

pub record IsResolved (r : ResolvedPrivacy) : Type 0 where
  pub is_known : str_in r.effective known_tiers ≡ true
  pub permits : r.cloud_permitted ≡ str_in r.effective cloud_permitting_tiers
  pub clamped_if_assumed : r.assumed ≡ true → r.effective ≡ most_restrictive_tier

pub clamped-IsResolved : {r : ResolvedPrivacy} (d : Option PyText) → r ≡ clamped d → IsResolved r
unfolding str_in
clamped-IsResolved d e =
    rw e (record { is_known = refl; permits = refl; clamped_if_assumed = λ h. refl })

-- Every resolution enforces a known tier, permits cloud exactly for the tiers that do, and falls
-- back on the most restrictive tier whenever it does not take the caller's.
pub resolve_privacy_tier-IsResolved : (v : Value) → IsResolved (resolve_privacy_tier v)
unfolding resolve_privacy_tier
resolve_privacy_tier-IsResolved (str raw) = elim (resolve_text-cases raw) [
  | inl (b, e) ↦ clamped-IsResolved _ e
  | inr (inl (k, e)) ↦ clamped-IsResolved _ e
  | inr (inr (b, k, e)) ↦
      rw e (record { is_known = k; permits = refl; clamped_if_assumed = λ h. cc })
]
resolve_privacy_tier-IsResolved _ = clamped-IsResolved _ refl

permitting_cases :
    (tier : String)
    → str_in tier cloud_permitting_tiers ≡ true
    → (tier ≡ "public") ⊎ (tier ≡ "public_redacted")
permitting_cases tier h = elim ((str_in_iff tier cloud_permitting_tiers).0 h) [
  | Memᴰ.head e ↦ inl e
  | Memᴰ.tail m ↦ inr (Memᴰ.eq_of_singleton m)
]

permits_tier :
    (raw tier : String)
    → strip raw ≡ tier
    → is_nonempty tier ≡ true
    → str_in tier known_tiers ≡ true
    → str_in tier cloud_permitting_tiers ≡ true
    → (resolve_text raw).cloud_permitted ≡ true
permits_tier raw tier e n k c = elim (resolve_text-cases raw) [
  | inl (b, _) ↦ cc (b, is_blank_of_strip raw tier e n)
  | inr (inl (u, _)) ↦ cc (u, e, k)
  | inr (inr (_, _, t)) ↦ rw (t, e, c)
]

-- Cloud is permitted exactly when the signal is a text that is, without the white space around it,
-- one of the two permitting tiers.
pub cloud_permitted_iff :
    (v : Value)
    → ((resolve_privacy_tier v).cloud_permitted ≡ true) ↔ (
        (raw : String) × (v ≡ str raw) × ((strip raw ≡ "public") ⊎ (strip raw ≡ "public_redacted")))
unfolding resolve_privacy_tier str_in
cloud_permitted_iff (str raw) = (
  λ h. elim (resolve_text-cases raw) [
    | inl (_, e) ↦ cc (h, e)
    | inr (inl (_, e)) ↦ cc (h, e)
    | inr (inr (_, _, e)) ↦ (raw, refl, permitting_cases (strip raw) (rw e at h))
  ],
  λ (s, e, p). elim p [
    | inl q ↦ permits_tier raw "public" (cc) refl refl refl
    | inr q ↦ permits_tier raw "public_redacted" (cc) refl refl refl
  ],
)
cloud_permitted_iff _ = (λ h. cc, λ (s, e, p). cc)
