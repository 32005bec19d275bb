-- ===== src/Prelude/Text.antt =====
-- The methods of Python's `str` that the program calls, on native texts.
use Prim.Native.Char.{Char, code}
use Prim.Native.String.{String}
use mathlib.Core.Path.{◌≡◌, refl}
use mathlib.Core.Logic.{◌⊎◌, inl, inr, ◌≢◌, ◌↔◌}
use mathlib.Core.Bool.{Bool, true, false, ◌&&◌, ◌||◌}
use mathlib.Core.List.{List, [], ◌∷◌, Memᴰ}
use mathlib.Core.List.Memᴰ
use Prim.Native.Nat.{ℕ, ◌+◌}
use native.Mathlib.Omega.{arith}
use text.Mathlib.Text.{◌==◌ as str_eq}
use text.Mathlib.TextEquality.{eq_iff}
use compute_connect.Prelude.Tests.{leb, ◌==◌, if◌then◌else◌, Bool-cases}

-- `str.isspace` of one character: every white-space code point that `str.strip()` removes
unfoldable pub is_space : Char → Bool
is_space ch =
    let c = code ch in
    (leb 9 c && leb c 13)
    || (leb 28 c && leb c 32)
    || (c == 0x85 || c == 0xa0 || c == 0x1680)
    || (leb 0x2000 c && leb c 0x200a)
    || (c == 0x2028 || c == 0x2029 || c == 0x202f || c == 0x205f || c == 0x3000)

unfoldable pub lstrip : String → String
unfolding is_space
lstrip String.[] = String.[]
lstrip (String.◌∷◌ c s) = if is_space c then lstrip s else String.◌∷◌ c s

rstrip_cons : Char → String → String
rstrip_cons c String.[] = if is_space c then String.[] else String.◌∷◌ c String.[]
rstrip_cons c (String.◌∷◌ d s) = String.◌∷◌ c (String.◌∷◌ d s)

unfoldable pub rstrip : String → String
unfolding is_space rstrip_cons
rstrip String.[] = String.[]
rstrip (String.◌∷◌ c s) = rstrip_cons c (rstrip s)

-- `s.strip()`
unfoldable pub strip : String → String
unfolding lstrip rstrip
strip s = rstrip (lstrip s)

-- the truth value of a text: false for "" only
abbrev pub is_nonempty : String → Bool
is_nonempty String.[] = false
is_nonempty (String.◌∷◌ c s) = true

-- `not s.strip()`: the text has no character but white space
unfoldable pub is_blank : String → Bool
is_blank s = if is_nonempty (strip s) then false else true

-- `s in {...}`
unfoldable pub str_in : String → List String → Bool
str_in s [] = false
str_in s (t ∷ ts) = str_eq s t || str_in s ts

-- The code points of `s.lower()`, as far as a comparison with a text of the letters a to z can
-- tell: only A to Z are changed. (Of the other characters only U+212A is lowered to such a letter,
-- "k", and no text that the program compares with has a "k".)
unfoldable pub lower : String → List ℕ
lower String.[] = []
lower (String.◌∷◌ c s) =
    (if leb b'A' (code c) && leb (code c) b'Z' then code c + 32 else code c) ∷ lower s

abbrev pub codes_eq : List ℕ → List ℕ → Bool
codes_eq [] [] = true
codes_eq (a ∷ as_) (b ∷ bs) = a == b && codes_eq as_ bs
codes_eq _ _ = false

-- `s.lower() in {...}`, for a set of texts in lower case
unfoldable pub lower_in : String → List String → Bool
unfolding lower
lower_in s [] = false
lower_in s (t ∷ ts) = codes_eq (lower s) (lower t) || lower_in s ts

pub is_blank_of_strip : (s t : String) → strip s ≡ t → is_nonempty t ≡ true → is_blank s ≡ false
unfolding is_blank
is_blank_of_strip s t e n = rw (e, n)

pub str_in_iff : (s : String) (ts : List String) → (str_in s ts ≡ true) ↔ Memᴰ s ts
unfolding str_in
str_in_iff s [] = (λ h. cc, λ m. elim m [ ])
str_in_iff s (t ∷ ts) =
    let ih = str_in_iff s ts in
    elim (Bool-cases (str_eq s t)) [
      | inl e ↦ (λ _. Memᴰ.head ((eq_iff s t).0 e), λ _. rw e)
      | inr n ↦ rw n (
        λ h. Memᴰ.tail (ih.0 h),
        λ m. elim (Memᴰ.cases_cons m) [
          | inl e ↦ absurd (ground (arith, (eq_iff s t).1 e))
          | inr k ↦ ih.1 k
        ],
      )
    ]

strips_ends : strip "  repo_sensitive\n" ≡ "repo_sensitive"
unfolding strip
strips_ends = refl

keeps_inner : strip " a b " ≡ "a b"
unfolding strip
keeps_inner = refl

lowers_ascii : lower_in "FaStest" ("low" ∷ "fastest" ∷ []) ≡ true
unfolding lower_in
lowers_ascii = refl

pub str_eq_cases : (s t : String) → (s ≡ t) ⊎ ((s ≢ t) × (str_eq s t ≡ false))
str_eq_cases s t = elim (Bool-cases (str_eq s t)) [
  | inl e ↦ inl ((eq_iff s t).0 e)
  | inr n ↦ inr (λ p. ground (arith, (eq_iff s t).1 p), n)
]
