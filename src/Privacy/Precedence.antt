-- ===== src/Privacy/Precedence.antt =====
-- privacy.py, `resolve_privacy_precedence`: of several signals the most restrictive one wins.
use native.Mathlib.Nat.{le_trans}
use mathlib.Core.List.Memᴰ
use compute_connect.Prelude.{
  ◌≤◌, true, ◌≡◌, refl, ◌⊎◌, inl, inr, arith, Bool-cases, ltb, ltb→lt, not_ltb→le, not_mem_of_nil,
  none, Memᴰ, List, [], ◌∷◌, map, sym, select, mem-select_of, of_mem-select,
}
use compute_connect.Json.{Value}
use compute_connect.Privacy.{
  ResolvedPrivacy, resolve_privacy_tier, strictness, strictest, clamped, supplied, combine,
  resolve_privacy_precedence,
}
use compute_connect.Privacy.DefaultDeny.{
  IsResolved, clamped-IsResolved, resolve_privacy_tier-IsResolved,
}

-- `max` takes one of the list, and no other is stricter
strictest-mem :
    (best : ResolvedPrivacy) (rs : List ResolvedPrivacy) → Memᴰ (strictest best rs) (best ∷ rs)
unfolding strictest
strictest-mem best [] = Memᴰ.head refl
strictest-mem best (r ∷ rs) = elim (Bool-cases (ltb (strictness best) (strictness r))) [
  | inl b ↦ rw b (Memᴰ.tail (strictest-mem r rs))
  | inr b ↦ rw b (elim (Memᴰ.cases_cons (strictest-mem best rs)) [
    | inl e ↦ Memᴰ.head e
    | inr m ↦ Memᴰ.tail (Memᴰ.tail m)
  ])
]

strictest-ge-best :
    (best : ResolvedPrivacy) (rs : List ResolvedPrivacy)
    → strictness best ≤ strictness (strictest best rs)
unfolding strictest
strictest-ge-best best [] = omega arith
strictest-ge-best best (r ∷ rs) = elim (Bool-cases (ltb (strictness best) (strictness r))) [
  | inl b ↦ rw b (omega (arith, strictest-ge-best r rs, ltb→lt _ _ b))
  | inr b ↦ rw b (strictest-ge-best best rs)
]

strictest-ge :
    {x : ResolvedPrivacy} (best : ResolvedPrivacy) (rs : List ResolvedPrivacy)
    → Memᴰ x (best ∷ rs)
    → strictness x ≤ strictness (strictest best rs)
unfolding strictest
strictest-ge best rs (Memᴰ.head e) = rw e (strictest-ge-best best rs)
strictest-ge best [] (Memᴰ.tail m) = elim m [ ]
strictest-ge best (r ∷ rs) (Memᴰ.tail m) =
    elim (Bool-cases (ltb (strictness best) (strictness r))) [
      | inl b ↦ rw b (strictest-ge r rs m)
      | inr b ↦ rw b (elim (Memᴰ.cases_cons m) [
        | inl e ↦ rw e (le_trans (not_ltb→le _ _ b) (strictest-ge-best best rs))
        | inr k ↦ strictest-ge best rs (Memᴰ.tail k)
      ])
    ]

-- the signals that count
abbrev pub IsSignal : Value → List Value → Type 0
IsSignal v inputs = Memᴰ v inputs × (supplied v ≡ true)

combine-mem :
    (vs : List Value)
    → ((vs ≡ []) × (combine vs ≡ clamped none))
      ⊎ ((v : Value) × Memᴰ v vs × (combine vs ≡ resolve_privacy_tier v))
unfolding combine
combine-mem [] = inl (refl, unfold resolve_privacy_tier in refl)
combine-mem (r ∷ rs) =
    let (v, m, e) =
      Memᴰ.of_map resolve_privacy_tier (r ∷ rs)
        (strictest-mem (resolve_privacy_tier r) (map resolve_privacy_tier rs)) in
    inr (v, m, sym e)

combine-ge :
    {v : Value} (vs : List Value)
    → Memᴰ v vs
    → strictness (resolve_privacy_tier v) ≤ strictness (combine vs)
unfolding combine
combine-ge [] m = elim m [ ]
combine-ge (r ∷ rs) m =
    strictest-ge (resolve_privacy_tier r) (map resolve_privacy_tier rs)
      (Memᴰ.map resolve_privacy_tier m)

-- With no signal supplied the result is the assumed most restrictive tier; otherwise it is the
-- resolution of one of the supplied signals.
pub resolve_privacy_precedence-cases :
    (inputs : List Value)
    → (((v : Value) → ¬ IsSignal v inputs) × (resolve_privacy_precedence inputs ≡ clamped none))
      ⊎ ((v : Value) × IsSignal v inputs
          × (resolve_privacy_precedence inputs ≡ resolve_privacy_tier v))
unfolding resolve_privacy_precedence
resolve_privacy_precedence-cases inputs = elim (combine-mem (select supplied inputs)) [
  | inl (e, c) ↦ inl (λ v (m, s). not_mem_of_nil e (mem-select_of supplied inputs m s), c)
  | inr (v, m, e) ↦ inr (v, of_mem-select supplied inputs m, e)
]

-- No supplied signal is stricter than the result.
pub resolve_privacy_precedence-ge :
    {v : Value} (inputs : List Value)
    → IsSignal v inputs
    → strictness (resolve_privacy_tier v) ≤ strictness (resolve_privacy_precedence inputs)
unfolding resolve_privacy_precedence
resolve_privacy_precedence-ge inputs (m, s) =
    combine-ge (select supplied inputs) (mem-select_of supplied inputs m s)

pub resolve_privacy_precedence-IsResolved :
    (inputs : List Value) → IsResolved (resolve_privacy_precedence inputs)
resolve_privacy_precedence-IsResolved inputs = elim (resolve_privacy_precedence-cases inputs) [
  | inl (_, e) ↦ rw e (clamped-IsResolved none refl)
  | inr (v, _, e) ↦ rw e (resolve_privacy_tier-IsResolved v)
]
