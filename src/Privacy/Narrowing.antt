-- ===== src/Privacy/Narrowing.antt =====
-- privacy.py, `resolve_privacy_precedence`: a second signal narrows and never widens, and the order
-- of the signals does not matter to what is enforced.
use native.Mathlib.Nat.{le_antisymm}
use compute_connect.Prelude.{
  ◌≤◌, ◌≡◌, ◌↔◌, inl, inr, true, ltb, ltb→lt, lt→ltb, List, SameMembers, ap, sym, ◌∙◌, arith,
}
use compute_connect.Json.{Value}
use compute_connect.Privacy.{
  ResolvedPrivacy, resolve_privacy_tier, strictness, resolve_privacy_precedence,
}
use compute_connect.Privacy.DefaultDeny.{IsResolved, resolve_privacy_tier-IsResolved}
use compute_connect.Privacy.Ranks.{tier_at, cloud_permitted-eq, effective-eq}
use compute_connect.Privacy.Precedence.{
  IsSignal, resolve_privacy_precedence-cases, resolve_privacy_precedence-ge,
  resolve_privacy_precedence-IsResolved,
}

permitted_of_le :
    {r s : ResolvedPrivacy}
    → IsResolved r
    → IsResolved s
    → strictness r ≤ strictness s
    → s.cloud_permitted ≡ true
    → r.cloud_permitted ≡ true
permitted_of_le {r} {s} hr hs le h =
    cloud_permitted-eq hr
    ∙ lt→ltb _ _ (omega (arith, ltb→lt (strictness s) 2 (sym (cloud_permitted-eq hs) ∙ h)))

-- Cloud is permitted for several signals exactly when at least one is supplied and each supplied
-- one permits it by itself.
pub cloud_permitted-precedence_iff :
    (inputs : List Value)
    → ((resolve_privacy_precedence inputs).cloud_permitted ≡ true) ↔ (
        ((v : Value) × IsSignal v inputs)
        × ((v : Value) → IsSignal v inputs → (resolve_privacy_tier v).cloud_permitted ≡ true))
cloud_permitted-precedence_iff inputs =
    let whole = resolve_privacy_precedence-IsResolved inputs in
    elim (resolve_privacy_precedence-cases inputs) [
      | inl (no_signal, e) ↦
          (λ h. cc (h, ap (λ r. r.cloud_permitted) e), λ (w, _). absurd (no_signal w.0 w.1))
      | inr (v, sig, e) ↦ (
        λ h. (
          (v, sig),
          λ w s.
              permitted_of_le (resolve_privacy_tier-IsResolved w) whole
                (resolve_privacy_precedence-ge inputs s) h,
        ),
        λ (_, each). rw e (each v sig),
      )
    ]

module _ {xs ys : List Value} (same : SameMembers xs ys) where
  forth-IsSignal : {v : Value} → IsSignal v xs → IsSignal v ys
  forth-IsSignal {v} (m, s) = (same.forth v m, s)

  back-IsSignal : {v : Value} → IsSignal v ys → IsSignal v xs
  back-IsSignal {v} (m, s) = (same.back v m, s)

strictness-le :
    {xs ys : List Value}
    → SameMembers xs ys
    → strictness (resolve_privacy_precedence xs) ≤ strictness (resolve_privacy_precedence ys)
strictness-le {xs} {ys} same = elim (resolve_privacy_precedence-cases xs) [
  | inl (none_xs, e) ↦ elim (resolve_privacy_precedence-cases ys) [
    | inl (_, e') ↦ rw (e, e') (omega arith)
    | inr (v, sig, _) ↦ absurd (none_xs v (back-IsSignal same sig))
  ]
  | inr (v, sig, e) ↦ rw e (resolve_privacy_precedence-ge ys (forth-IsSignal same sig))
]

-- Signals in another order, or repeated, enforce the same tier with the same cloud permission.
pub resolve_privacy_precedence_comm :
    {xs ys : List Value}
    → SameMembers xs ys
    → ((resolve_privacy_precedence xs).effective ≡ (resolve_privacy_precedence ys).effective)
      × ((resolve_privacy_precedence xs).cloud_permitted
          ≡ (resolve_privacy_precedence ys).cloud_permitted)
resolve_privacy_precedence_comm {xs} {ys} same =
    let back : SameMembers ys xs = record { forth = same.back; back = same.forth } in
    let e : strictness (resolve_privacy_precedence xs)
        ≡ strictness (resolve_privacy_precedence ys) =
      le_antisymm (strictness-le same) (strictness-le back) in
    let hx = resolve_privacy_precedence-IsResolved xs in
    let hy = resolve_privacy_precedence-IsResolved ys in
    (
      effective-eq hx ∙ ap tier_at e ∙ sym (effective-eq hy),
      cloud_permitted-eq hx ∙ ap (λ n. ltb n 2) e ∙ sym (cloud_permitted-eq hy),
    )
