-- ===== src/Privacy/Ranks.antt =====
-- privacy.py, `PRIVACY_STRICTNESS`: what the rank of a resolved tier tells.
use mathlib.Core.List.Memᴰ
use compute_connect.Prelude.{
  ℕ, String, ◌≡◌, refl, sym, ◌∙◌, ◌==◌, ltb, if◌then◌else◌, str_in, str_in_iff, Memᴰ,
}
use compute_connect.Privacy.{
  ResolvedPrivacy, strictness, strictness_of, known_tiers, cloud_permitting_tiers,
}
use compute_connect.Privacy.DefaultDeny.{IsResolved}

-- Strictness tells cloud permission, and names the tier.
unfoldable pub tier_at : ℕ → String
tier_at n =
    if n == 0
    then "public"
    else if n == 1
    then "public_redacted"
    else if n == 2
    then "repo_sensitive"
    else if n == 3
    then "local_only"
    else "secret_sensitive"

record Ranked (tier : String) : Type 0 where
  named : tier_at (strictness_of tier) ≡ tier
  cloud : str_in tier cloud_permitting_tiers ≡ ltb (strictness_of tier) 2

ranked : {tier : String} → Memᴰ tier known_tiers → Ranked tier
unfolding tier_at strictness_of str_in
ranked (Memᴰ.head e) = rw e (record { named = refl; cloud = refl })
ranked (Memᴰ.tail (Memᴰ.head e)) = rw e (record { named = refl; cloud = refl })
ranked (Memᴰ.tail (Memᴰ.tail (Memᴰ.head e))) = rw e (record { named = refl; cloud = refl })
ranked (Memᴰ.tail (Memᴰ.tail (Memᴰ.tail (Memᴰ.head e)))) =
    rw e (record { named = refl; cloud = refl })
ranked (Memᴰ.tail (Memᴰ.tail (Memᴰ.tail (Memᴰ.tail m)))) =
    rw (Memᴰ.eq_of_singleton m) (record { named = refl; cloud = refl })

module _ {r : ResolvedPrivacy} (h : IsResolved r) where
  effective-Ranked : Ranked r.effective
  effective-Ranked = ranked ((str_in_iff r.effective known_tiers).0 h.is_known)

  pub cloud_permitted-eq : r.cloud_permitted ≡ ltb (strictness r) 2
  unfolding strictness
  cloud_permitted-eq = h.permits ∙ effective-Ranked.cloud

  pub effective-eq : r.effective ≡ tier_at (strictness r)
  unfolding strictness
  effective-eq = sym effective-Ranked.named
