-- ===== src/Wire/RoundTrip.antt =====
-- json.dumps: the escape of a text can be read back.
use compute_connect.Prelude.{
  ℕ, ◌+◌, ◌-◌, ◌*◌, ◌/◌, ◌%◌, ◌<◌, ◌≤◌, true, false, ◌&&◌, Option, none, some, [], ◌∷◌, ◌++◌, leb,
  ltb, ◌==◌, ◌≡◌, refl, ap, ◌∙◌, ◌⊎◌, inl, inr, arith, Bool-cases, ==_iff, ltb→lt,
}
use mathlib.Core.List.{append_assoc}
use compute_connect.Wire.{Codes, hex_digit, hex_escape, short, escape_code, escape}
use compute_connect.Wire.Escape.{
  Mode, plain, backslash, digits, paired, paired_backslash, hex_value, Turn, go, give, complete,
  add_digit, read, prepend, unescape,
}

hex_value-hex_digit : (d : ℕ) → d < 16 → hex_value (hex_digit d) ≡ some d
unfolding hex_value hex_digit
hex_value-hex_digit d h = ground arith

step :
    (m : Mode) (c : ℕ) (s : Codes) (turn : Turn)
    → read m c ≡ some turn
    → unescape m (c ∷ s) ≡ prepend turn.out (unescape turn.mode s)
unfolding unescape
step plain c s turn e = rw (e, unescape)
step backslash c s turn e = rw (e, unescape)
step (digits high n acc) c s turn e = rw (e, unescape)
step (paired h) c s turn e = rw (e, unescape)
step (paired_backslash h) c s turn e = rw (e, unescape)

silent : (o : Option Codes) → prepend [] o ≡ o
silent none = refl
silent (some s) = refl

digit_step :
    (high : Option ℕ) (n acc d : ℕ) (s : Codes)
    → d < 16
    → (n == 3) ≡ false
    → unescape (digits high n acc) (hex_digit d ∷ s)
      ≡ unescape (digits high (n + 1) (acc * 16 + d)) s
unfolding read add_digit
digit_step high n acc d s h e =
    step (digits high n acc) (hex_digit d) s (go (digits high (n + 1) (acc * 16 + d)))
      (rw (read, hex_value-hex_digit d h, e) refl)
    ∙ silent _

last_step :
    (high : Option ℕ) (acc d : ℕ) (s : Codes) (turn : Turn)
    → d < 16
    → complete high (acc * 16 + d) ≡ some turn
    → unescape (digits high 3 acc) (hex_digit d ∷ s) ≡ prepend turn.out (unescape turn.mode s)
unfolding read add_digit
last_step high acc d s turn h e =
    step (digits high 3 acc) (hex_digit d) s turn (rw (read, hex_value-hex_digit d h) e)

four_digits :
    (high : Option ℕ) (a b c d : ℕ) (s : Codes) (turn : Turn)
    → a < 16
    → b < 16
    → c < 16
    → d < 16
    → complete high ((((0 * 16 + a) * 16 + b) * 16 + c) * 16 + d) ≡ some turn
    → unescape (digits high 0 0) (hex_digit a ∷ hex_digit b ∷ hex_digit c ∷ hex_digit d ∷ s)
      ≡ prepend turn.out (unescape turn.mode s)
four_digits high a b c d s turn ha hb hc hd e =
    digit_step high 0 0 a (hex_digit b ∷ hex_digit c ∷ hex_digit d ∷ s) ha refl
    ∙ digit_step high 1 (0 * 16 + a) b (hex_digit c ∷ hex_digit d ∷ s) hb refl
    ∙ digit_step high 2 ((0 * 16 + a) * 16 + b) c (hex_digit d ∷ s) hc refl
    ∙ last_step high (((0 * 16 + a) * 16 + b) * 16 + c) d s turn hd e

digits_of :
    (n : ℕ)
    → n < 0x10000
    → (((0 * 16 + n / 4096) * 16 + n / 256 % 16) * 16 + n / 16 % 16) * 16 + n % 16 ≡ n
digits_of n h = omega arith

hex_digits : (n : ℕ) → Codes
hex_digits n =
    hex_digit (n / 4096)
    ∷ hex_digit (n / 256 % 16)
    ∷ hex_digit (n / 16 % 16)
    ∷ hex_digit (n % 16)
    ∷ []

read_hex :
    (high : Option ℕ) (n : ℕ) (s : Codes) (turn : Turn)
    → n < 0x10000
    → complete high n ≡ some turn
    → unescape (digits high 0 0) (hex_digits n ++ s) ≡ prepend turn.out (unescape turn.mode s)
unfolding hex_digits
read_hex high n s turn h e =
    four_digits high (n / 4096) (n / 256 % 16) (n / 16 % 16) (n % 16) s turn (omega arith)
      (omega arith) (omega arith) (omega arith) (ap (complete high) (digits_of n h) ∙ e)

-- what a Python text that is no half of a surrogate pair holds
abbrev pub IsScalar : ℕ → Type 0
IsScalar c = (c < 0xd800) ⊎ ((0xe000 ≤ c) × (c < 0x110000))

abbrev pub AllScalar : Codes → Type 0
AllScalar [] = Unit
AllScalar (c ∷ s) = IsScalar c × AllScalar s

two :
    (c d : ℕ) (s : Codes)
    → read plain b'\\' ≡ some (go backslash)
    → read backslash c ≡ some (give d)
    → unescape plain (short c ++ s) ≡ prepend (d ∷ []) (unescape plain s)
two c d s p q =
    step plain b'\\' (c ∷ s) (go backslash) p
    ∙ silent (unescape backslash (c ∷ s))
    ∙ step backslash c s (give d) q

hex_start :
    (n : ℕ) (s : Codes) (turn : Turn)
    → n < 0x10000
    → complete none n ≡ some turn
    → unescape plain (hex_escape n ++ s) ≡ prepend turn.out (unescape turn.mode s)
unfolding hex_escape read hex_digits
hex_start n s turn h e =
    step plain b'\\' (b'u' ∷ hex_digits n ++ s) (go backslash) refl
    ∙ silent _
    ∙ step backslash b'u' (hex_digits n ++ s) (go (digits none 0 0)) refl
    ∙ silent _
    ∙ read_hex none n s turn h e

hex_pair :
    (high low c : ℕ) (s : Codes)
    → low < 0x10000
    → complete (some high) low ≡ some (give c)
    → unescape (paired high) (hex_escape low ++ s) ≡ prepend (c ∷ []) (unescape plain s)
unfolding hex_escape read hex_digits
hex_pair high low c s h e =
    step (paired high) b'\\' (b'u' ∷ hex_digits low ++ s) (go (paired_backslash high)) refl
    ∙ silent _
    ∙ step (paired_backslash high) b'u' (hex_digits low ++ s) (go (digits (some high) 0 0)) refl
    ∙ silent _
    ∙ read_hex (some high) low s (give c) h e

abbrev Readable : ℕ → Type 0
Readable c = (s : Codes) → unescape plain (escape_code c ++ s) ≡ prepend (c ∷ []) (unescape plain s)

-- the code points with a short escape
reads_short : (c k : ℕ) → (c == k) ≡ true → Readable k → Readable c
reads_short c k e h = let p : c ≡ k = (==_iff c k).0 e in rw p h

ascii_readable :
    (c : ℕ)
    → (c == b'"') ≡ false
    → (c == b'\\') ≡ false
    → (leb 32 c && leb c 126) ≡ true
    → read plain c ≡ some (give c)
unfolding read
ascii_readable c q b a = rw (b, q, a) refl

-- a code point of the first plane, that is no half of a pair
basic_complete : (c : ℕ) → IsScalar c → ltb c 0x10000 ≡ true → complete none c ≡ some (give c)
unfolding complete
basic_complete c h e = ground arith

astral_complete :
    (c : ℕ)
    → IsScalar c
    → ltb c 0x10000 ≡ false
    → (complete none (0xd800 + (c - 0x10000) / 0x400)
        ≡ some (go (paired (0xd800 + (c - 0x10000) / 0x400))))
      × (complete (some (0xd800 + (c - 0x10000) / 0x400)) (0xdc00 + (c - 0x10000) % 0x400)
          ≡ some (give c))
unfolding complete
astral_complete c h e = (ground arith, ground arith)

module _ (c : ℕ) where
  longer :
      IsScalar c
      → (c == b'"') ≡ false
      → (c == b'\\') ≡ false
      → (c == 10) ≡ false
      → (c == 13) ≡ false
      → (c == 9) ≡ false
      → (c == 12) ≡ false
      → (c == 8) ≡ false
      → Readable c
  unfolding escape_code
  longer h q b n r t f k s = elim (Bool-cases (leb 32 c && leb c 126)) [
    | inl a ↦ rw (q, b, n, r, t, f, k, a) (step plain c s (give c) (ascii_readable c q b a))
    | inr a ↦ elim (Bool-cases (ltb c 0x10000)) [
      | inl p ↦
          rw (q, b, n, r, t, f, k, a, p)
            (hex_start c s (give c) (omega (arith, ltb→lt c 0x10000 p)) (basic_complete c h p))
      | inr p ↦
          let high = 0xd800 + (c - 0x10000) / 0x400 in
          let low = 0xdc00 + (c - 0x10000) % 0x400 in
          let (first, second) = astral_complete c h p in
          let small : high < 0x10000 = ground arith in
          rw (q, b, n, r, t, f, k, a, p)
            (ap (unescape plain) (append_assoc (hex_escape high) (hex_escape low) s)
              ∙ hex_start high (hex_escape low ++ s) (go (paired high)) small first
              ∙ silent _
              ∙ hex_pair high low c s (omega arith) second)
    ]
  ]

  reads_back : IsScalar c → Readable c
  unfolding escape_code read
  reads_back h = elim (Bool-cases (c == b'"')) [
    | inl e ↦ reads_short c b'"' e (λ s. two b'"' b'"' s refl refl)
    | inr q ↦ elim (Bool-cases (c == b'\\')) [
      | inl e ↦ reads_short c b'\\' e (λ s. two b'\\' b'\\' s refl refl)
      | inr b ↦ elim (Bool-cases (c == 10)) [
        | inl e ↦ reads_short c 10 e (λ s. two b'n' 10 s refl refl)
        | inr n ↦ elim (Bool-cases (c == 13)) [
          | inl e ↦ reads_short c 13 e (λ s. two b'r' 13 s refl refl)
          | inr r ↦ elim (Bool-cases (c == 9)) [
            | inl e ↦ reads_short c 9 e (λ s. two b't' 9 s refl refl)
            | inr t ↦ elim (Bool-cases (c == 12)) [
              | inl e ↦ reads_short c 12 e (λ s. two b'f' 12 s refl refl)
              | inr f ↦ elim (Bool-cases (c == 8)) [
                | inl e ↦ reads_short c 8 e (λ s. two b'b' 8 s refl refl)
                | inr k ↦ longer h q b n r t f k
              ]
            ]
          ]
        ]
      ]
    ]
  ]

-- What `json.dumps` writes between the quotation marks of a text, an independent reader reads back as
-- the text, where it holds no half of a surrogate pair.
pub unescape-escape : (s : Codes) → AllScalar s → unescape plain (escape s) ≡ some s
unfolding escape unescape
unescape-escape [] h = refl
unescape-escape (c ∷ s) h =
    reads_back c h.0 (escape s) ∙ ap (prepend (c ∷ [])) (unescape-escape s h.1)
