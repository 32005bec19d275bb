-- ===== src/Upstream/Progress.antt =====
-- app.py, `UpstreamStream`: every stream is delivered in a bounded number of steps.
use mathlib.Core.List.{append-nil}
use compute_connect.Prelude.{
  ℕ, ◌+◌, ◌*◌, ◌≤◌, none, List, [], ◌∷◌, length, ◌≡◌, refl, sym, ap, ◌∙◌, ◌⊎◌, inl, inr, arith,
  Option-cases,
}
use compute_connect.Upstream.{
  Message, Upstream, start, Step, pull, put, get, Run, here, next, held_list,
}
use compute_connect.Upstream.Delivery.{Run-IsFlow}

-- the steps that are left
abbrev pub left : Upstream → ℕ
left s = 3 * length s.source + 2 * length (held_list s.held) + length s.queue

Step-left : {s t : Upstream} → Step s t → left t + 1 ≡ left s
Step-left (pull m rest a b e) = rw e (omega (arith, ap length a, ap (λ o. length (held_list o)) b))
Step-left (put m a b e) = rw e (omega (arith, ap (λ o. length (held_list o)) a, ap length b))
Step-left (get m rest a e) = rw e (omega (arith, ap length a))

Run-left : {s : Upstream} {n : ℕ} {t : Upstream} → Run s n t → left t + n ≡ left s
Run-left here = omega arith
Run-left (next r st) = omega (arith, Run-left r, Step-left st)

list-cases :
    (ms : List Message) → (ms ≡ []) ⊎ ((m : Message) × (rest : List Message) × (ms ≡ m ∷ rest))
list-cases [] = inl refl
list-cases (m ∷ rest) = inr (m, rest, refl)

-- a stream that can take no step has delivered everything
step_or_done :
    (s : Upstream)
    → ((t : Upstream) × Step s t) ⊎ ((s.source ≡ []) × (s.held ≡ none) × (s.queue ≡ []))
step_or_done s = elim (list-cases s.queue) [
  | inr (m, rest, e) ↦ inl (_, get m rest e refl)
  | inl q ↦ elim (Option-cases s.held) [
    | inr (m, h) ↦ inl (_, put m h q refl)
    | inl h ↦ elim (list-cases s.source) [
      | inr (m, rest, e) ↦ inl (_, pull m rest e h refl)
      | inl e ↦ inr (e, h, q)
    ]
  ]
]

-- A stream of k messages takes at most 3 k steps in whatever order they fall, and as long as the
-- handler has not got every message, some step is possible: a stream that is read to the end always
-- reaches it.
pub Run-progress :
    {messages : List Message} {n : ℕ} {t : Upstream}
    → Run (start messages) n t
    → (n ≤ 3 * length messages) × (((u : Upstream) × Step t u) ⊎ (t.delivered ≡ messages))
Run-progress {messages} {n} {t} r = (
  omega (arith, Run-left r),
  elim (step_or_done t) [
    | inl s ↦ inl s
    | inr (a, b, c) ↦ inr (sym (append-nil t.delivered) ∙ rw (a, b, c) at ((Run-IsFlow r).order))
  ],
)
