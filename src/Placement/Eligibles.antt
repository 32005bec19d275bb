-- ===== src/Placement/Eligibles.antt =====
-- placement.py, the loop of `select_placement`: the two lists that it builds.
use mathlib.Core.List.Memᴰ
use compute_connect.Prelude.{
  ◌≡◌, refl, ap, ◌⊎◌, ◌↔◌, inl, inr, List, [], ◌∷◌, Memᴰ, arith, length, length-append, ◌+◌, suc,
}
use compute_connect.Engine.{ModelInfo}
use compute_connect.Provider.{ProviderSnapshot}
use compute_connect.Placement.Types.{WorkloadSpec, Clock, Pair, Stage, Reason}
use compute_connect.Placement.Judge.{Verdict, rejected, eligible, judge, Tally, note, judge_all}

Verdict-cases :
    (v : Verdict)
    → ((stage : Stage) × (reason : Reason) × (v ≡ rejected stage reason))
      ⊎ ((m : ModelInfo) × (v ≡ eligible m))
Verdict-cases (rejected stage reason) = inl (stage, reason, refl)
Verdict-cases (eligible m) = inr (m, refl)

module _ (clock : Clock) (w : WorkloadSpec) where
  IsEligible : Pair → Type 0
  IsEligible p = judge clock w p.0 ≡ eligible p.1

  -- one round of the loop
  note_forth :
      {p : Pair} (s : ProviderSnapshot) (t : Tally)
      → Memᴰ p (note s (judge clock w s) t).eligible
      → Memᴰ p t.eligible ⊎ ((p.0 ≡ s) × IsEligible p)
  unfolding note IsEligible
  note_forth {p} s t m = elim (Verdict-cases (judge clock w s)) [
    | inl (_, _, e) ↦ inl (rw e at m)
    | inr (n, e) ↦ elim (Memᴰ.append_cases t.eligible (rw e at m)) [
      | inl k ↦ inl k
      | inr k ↦ let q : p ≡ (s, n) = Memᴰ.eq_of_singleton k in inr (ap (λ p. p.0) q, rw q e)
    ]
  ]

  note_keeps :
      {p : Pair} (s : ProviderSnapshot) (t : Tally)
      → Memᴰ p t.eligible
      → Memᴰ p (note s (judge clock w s) t).eligible
  unfolding note
  note_keeps s t m = elim (Verdict-cases (judge clock w s)) [
    | inl (_, _, e) ↦ rw e m
    | inr (n, e) ↦ rw e (Memᴰ.append_left _ m)
  ]

  note_adds :
      {p : Pair} (s : ProviderSnapshot) (t : Tally)
      → p.0 ≡ s
      → IsEligible p
      → Memᴰ p (note s (judge clock w s) t).eligible
  unfolding note IsEligible
  note_adds {p} s t e h = rw (← e, h) (Memᴰ.append_right t.eligible (Memᴰ.head refl))

  -- The pairs that the loop finds eligible are those of the tally before it, and each candidate with
  -- the model for which it is judged eligible.
  pub mem-judge_all :
      {p : Pair} (ss : List ProviderSnapshot) (t : Tally)
      → Memᴰ p (judge_all clock w ss t).eligible
        ↔ (Memᴰ p t.eligible ⊎ (Memᴰ p.0 ss × (judge clock w p.0 ≡ eligible p.1)))
  unfolding judge_all IsEligible
  mem-judge_all [] t =
      (λ m. inl m, λ h. elim h [ inl m ↦ m | inr (m, e) ↦ absurd (Memᴰ.not-nil m) ])
  mem-judge_all (s ∷ ss) t =
      let ih = mem-judge_all ss (note s (judge clock w s) t) in
      (
        λ m. elim (ih.0 m) [
          | inl k ↦ elim (note_forth s t k) [ inl j ↦ inl j | inr (e, h) ↦ inr (Memᴰ.head e, h) ]
          | inr (k, h) ↦ inr (Memᴰ.tail k, h)
        ],
        λ h. elim h [
          | inl m ↦ ih.1 (inl (note_keeps s t m))
          | inr (m, e) ↦ elim (Memᴰ.cases_cons m) [
            | inl q ↦ ih.1 (inl (note_adds s t q e))
            | inr k ↦ ih.1 (inr (k, e))
          ]
        ],
      )

  length-note :
      (s : ProviderSnapshot) (v : Verdict) (t : Tally)
      → length (note s v t).rejections + length (note s v t).eligible
        ≡ suc (length t.rejections + length t.eligible)
  unfolding note
  length-note s (rejected _ _) t = omega (arith, length-append t.rejections _)
  length-note s (eligible m) t = omega (arith, length-append t.eligible _)

  -- Every candidate leaves one entry, a rejection or an eligible pair.
  pub length-judge_all :
      (ss : List ProviderSnapshot) (t : Tally)
      → length (judge_all clock w ss t).rejections + length (judge_all clock w ss t).eligible
        ≡ length ss + length t.rejections + length t.eligible
  unfolding judge_all
  length-judge_all [] t = omega arith
  length-judge_all (s ∷ ss) t =
      omega
        (arith, length-judge_all ss (note s (judge clock w s) t), length-note s (judge clock w s) t)
