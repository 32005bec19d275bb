-- ===== src/Wire/Tests.antt =====
-- Tests of the escape of a text, and the round trip at a text of every kind of character.
use compute_connect.Prelude.{◌≡◌, refl, inl, inr, [], ◌∷◌, some, arith}
use compute_connect.Wire.{Codes, codes, escape, escape_code, hex_escape, hex_digit}
use compute_connect.Wire.Escape.{plain, unescape}
use compute_connect.Wire.RoundTrip.{unescape-escape}

abbrev mixed : Codes
mixed = b'a' ∷ b'"' ∷ 10 ∷ 233 ∷ 128512 ∷ []

escapes_all : escape mixed ≡ codes "a\\\"\\n\\u00e9\\ud83d\\ude00"
unfolding escape escape_code hex_escape hex_digit
escapes_all = refl

reads_mixed : unescape plain (escape mixed) ≡ some mixed
reads_mixed = unescape-escape mixed (
  inl (omega arith),
  (
    inl (omega arith),
    (inl (omega arith), (inl (omega arith), (inr (omega arith, omega arith), tt))),
  ),
)
