-- ===== src/Privacy.antt =====
-- src/computeconnect/privacy.py: the resolution of a caller's privacy tier. The tiers are the
-- source's strings. A signal is any JSON value, since a caller may send garbage.
pub mod DefaultDeny
pub mod Precedence
pub mod Ranks
pub mod Narrowing
mod Tests
use compute_connect.Prelude.{
  ℕ, String, Bool, true, false, not, Option, none, some, List, [], ◌∷◌, map, str_eq, ltb,
  if◌then◌else◌, is_blank, strip, str_in, select,
}
use compute_connect.Json.{Value, null, str, PyText, text, to_text}

abbrev pub cloud_permitting_tiers : List String
cloud_permitting_tiers = "public" ∷ "public_redacted" ∷ []

abbrev pub known_tiers : List String
known_tiers =
    "public" ∷ "public_redacted" ∷ "repo_sensitive" ∷ "secret_sensitive" ∷ "local_only" ∷ []

abbrev pub most_restrictive_tier : String
most_restrictive_tier = "secret_sensitive"

-- `PRIVACY_STRICTNESS.get(tier, …)`, with the strictest rank for a tier that is not in the map
unfoldable pub strictness_of : String → ℕ
strictness_of tier =
    if str_eq tier "public"
    then 0
    else if str_eq tier "public_redacted"
    then 1
    else if str_eq tier "repo_sensitive"
    then 2
    else if str_eq tier "local_only"
    then 3
    else 4

pub record ResolvedPrivacy : Type 0 where
  pub declared : Option PyText
  pub effective : String
  pub assumed : Bool
  pub cloud_permitted : Bool

-- the default-deny state, reached by a signal that names no known tier
abbrev pub clamped : Option PyText → ResolvedPrivacy
clamped d = record {
  declared = d;
  effective = most_restrictive_tier;
  assumed = true;
  cloud_permitted = false;
}

pub resolve_text : String → ResolvedPrivacy
resolve_text raw =
    let tier = strip raw in
    if is_blank raw
    then clamped (some (text raw))
    else if not (str_in tier known_tiers)
    then clamped (some (text tier))
    else record {
      declared = some (text tier);
      effective = tier;
      assumed = false;
      cloud_permitted = str_in tier cloud_permitting_tiers;
    }

unfoldable pub resolve_privacy_tier : Value → ResolvedPrivacy
unfolding resolve_text to_text
resolve_privacy_tier null = clamped none
resolve_privacy_tier (str raw) = resolve_text raw
resolve_privacy_tier v = clamped (some (to_text v))

unfoldable pub strictness : ResolvedPrivacy → ℕ
unfolding strictness_of
strictness resolved = strictness_of resolved.effective

unfoldable pub supplied : Value → Bool
supplied null = false
supplied (str raw) = not (is_blank raw)
supplied v = true

-- `max(resolved, key=_strictness)`: the first of the strictest
unfoldable pub strictest : ResolvedPrivacy → List ResolvedPrivacy → ResolvedPrivacy
strictest best [] = best
strictest best (r ∷ rs) = strictest (if ltb (strictness best) (strictness r) then r else best) rs

combine : List Value → ResolvedPrivacy
combine [] = resolve_privacy_tier null
combine (r ∷ rs) = strictest (resolve_privacy_tier r) (map resolve_privacy_tier rs)

unfoldable pub resolve_privacy_precedence : List Value → ResolvedPrivacy
unfolding combine resolve_privacy_tier supplied strictest strictness
resolve_privacy_precedence raw_inputs = combine (select supplied raw_inputs)
