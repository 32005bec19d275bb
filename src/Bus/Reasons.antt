-- ===== src/Bus/Reasons.antt =====
-- buspublish.py, `truncate_reason`: the bound on the free text of an event.
use Prim.Native.String.{count}
use text.Mathlib.TextLemmas.{length-nil, length-cons, length-append}
use compute_connect.Prelude.{
  ℕ, zero, suc, ◌≤◌, String, ◌≡◌, inl, inr, refl, Option, arith, Bool-cases, leb,
}
use compute_connect.Bus.{prefix, shortened, truncate_reason, text_or_empty}

count-prefix : (n : ℕ) (s : String) → count (prefix n s) ≤ n
unfolding prefix
count-prefix zero s = rw (length-nil) (omega arith)
count-prefix (suc n) String.[] = rw (length-nil) (omega arith)
count-prefix (suc n) (String.◌∷◌ c s) = omega (arith, length-cons c (prefix n s), count-prefix n s)

-- A reason has at most as many characters as the limit, where that is at least one; and a text
-- that is within the limit is kept whole.
pub count-truncate_reason :
    (text : Option String) (limit : ℕ)
    → 1 ≤ limit
    → (count (truncate_reason text limit) ≤ limit)
      × (count (text_or_empty text) ≤ limit → truncate_reason text limit ≡ text_or_empty text)
unfolding truncate_reason shortened
count-truncate_reason text zero h = absurd (omega arith)
count-truncate_reason text (suc n) h =
    let s = text_or_empty text in
    elim (Bool-cases (leb (count s) (suc n))) [
      | inl e ↦ rw e (ground arith, λ _. refl)
      | inr e ↦ rw e (
        (omega (arith, length-append (prefix n s) "…", count-prefix n s)),
        λ k. absurd (ground arith),
      )
    ]
