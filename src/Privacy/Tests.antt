-- ===== src/Privacy/Tests.antt =====
-- Tests of the privacy tiers, and the theorems about them at concrete signals.
use mathlib.Core.List.Memᴰ
use compute_connect.Prelude.{
  ◌≡◌, refl, ◌↔◌, true, List, [], ◌∷◌, strip, is_blank, pos, SameMembers, Memᴰ, str_in, false,
}
use compute_connect.Json.{Value, int, str}
use compute_connect.Privacy.{resolve_privacy_tier, resolve_privacy_precedence}
use compute_connect.Privacy.Precedence.{IsSignal}
use compute_connect.Privacy.Narrowing.{cloud_permitted-precedence_iff}

program : Unit {0}
unfolding resolve_privacy_precedence strip is_blank str_in
program = tt

-- a permissive header and a restrictive body, in both orders
abbrev header_and_body : List Value
header_and_body = str "public" ∷ str " local_only " ∷ []

abbrev body_and_header : List Value
body_and_header = str " local_only " ∷ str "public" ∷ []

narrowed : (resolve_privacy_precedence header_and_body).effective ≡ "local_only"
unfolding program
narrowed = refl

garbage_is_clamped :
    (resolve_privacy_precedence (str "public" ∷ int (pos 5) ∷ [])).effective ≡ "secret_sensitive"
unfolding program
garbage_is_clamped = refl

empty_header_is_ignored :
    (resolve_privacy_precedence (str " " ∷ str "public_redacted" ∷ [])).cloud_permitted ≡ true
unfolding program
empty_header_is_ignored = refl

-- an exact tie is visible: the first signal decides what is reported as declared and assumed
tie_by_order :
    ((resolve_privacy_precedence (str "bogus" ∷ str "secret_sensitive" ∷ [])).assumed ≡ true)
    × ((resolve_privacy_precedence (str "secret_sensitive" ∷ str "bogus" ∷ [])).assumed ≡ false)
unfolding program
tie_by_order = (refl, refl)

header_supplied : IsSignal (str "public") header_and_body
unfolding program
header_supplied = (Memᴰ.head refl, refl)

cloud_permitted-precedence_iff_example :
    ((resolve_privacy_precedence header_and_body).cloud_permitted ≡ true) ↔ (
      ((v : Value) × IsSignal v header_and_body)
      × ((v : Value)
          → IsSignal v header_and_body
          → (resolve_privacy_tier v).cloud_permitted ≡ true))
cloud_permitted-precedence_iff_example = cloud_permitted-precedence_iff header_and_body

swapped : {v : Value} {a b : Value} → Memᴰ v (a ∷ b ∷ []) → Memᴰ v (b ∷ a ∷ [])
swapped (Memᴰ.head e) = Memᴰ.tail (Memᴰ.head e)
swapped (Memᴰ.tail m) = Memᴰ.head (Memᴰ.eq_of_singleton m)

same_signals : SameMembers header_and_body body_and_header
same_signals = record { forth = λ v m. swapped m; back = λ v m. swapped m }
