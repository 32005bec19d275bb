-- ===== src/Wire.antt =====
-- `json.dumps`, as app.py calls it for the parts of a response: texts are lists of code points, and
-- what it writes is ASCII. How CPython writes a number is an argument.
use Prim.Native.Char.{Char, code}
use compute_connect.Prelude.{
  ℕ, ◌+◌, ◌-◌, ◌/◌, ◌%◌, ℤ, String, Bool, true, false, ◌&&◌, ◌||◌, List, [], ◌∷◌, ◌++◌,
  if◌then◌else◌, leb, ltb, ◌==◌,
}
use compute_connect.Json.{
  Value, null, bool, int, float, str, arr, obj, Items, no_item, item, Fields, end, field, Float,
}
pub mod Escape
pub mod RoundTrip
mod Tests

abbrev pub Codes : Type 0
Codes = List ℕ

-- the code points of a text
abbrev pub codes : String → Codes
codes String.[] = []
codes (String.◌∷◌ c s) = code c ∷ codes s

-- a hexadecimal digit, in lower case
unfoldable pub hex_digit : ℕ → ℕ
hex_digit d = if ltb d 10 then 48 + d else 87 + d

unfoldable pub hex_escape : ℕ → Codes
unfolding hex_digit
hex_escape n =
    b'\\'
    ∷ b'u'
    ∷ hex_digit (n / 4096)
    ∷ hex_digit (n / 256 % 16)
    ∷ hex_digit (n / 16 % 16)
    ∷ hex_digit (n % 16)
    ∷ []

abbrev pub short : ℕ → Codes
short c = b'\\' ∷ c ∷ []

-- one code point of a text with `ensure_ascii`
unfoldable pub escape_code : ℕ → Codes
unfolding hex_escape
escape_code c =
    if c == b'"'
    then short b'"'
    else if c == b'\\'
    then short b'\\'
    else if c == 10
    then short b'n'
    else if c == 13
    then short b'r'
    else if c == 9
    then short b't'
    else if c == 12
    then short b'f'
    else if c == 8
    then short b'b'
    else if leb 32 c && leb c 126
    then c ∷ []
    else if ltb c 0x10000
    then hex_escape c
    else hex_escape (0xd800 + (c - 0x10000) / 0x400) ++ hex_escape (0xdc00 + (c - 0x10000) % 0x400)

-- `json.dumps(s)[1:-1]`
unfoldable pub escape : Codes → Codes
unfolding escape_code
escape [] = []
escape (c ∷ s) = escape_code c ++ escape s

unfoldable pub quoted : Codes → Codes
quoted s = b'"' ∷ escape s ++ b'"' ∷ []

-- how `json.dumps` writes an int and a float
pub record NumberTexts : Type 0 where
  pub int_text : ℤ → Codes
  pub float_text : Float → Codes

abbrev pub comma : Codes
comma = b',' ∷ 32 ∷ []

unfoldable mutual
  unfolding escape quoted

  pub dumps : NumberTexts → Value → Codes
  dumps texts null = codes "null"
  dumps texts (bool true) = codes "true"
  dumps texts (bool false) = codes "false"
  dumps texts (int n) = texts.int_text n
  dumps texts (float f) = texts.float_text f
  dumps texts (str s) = quoted (codes s)
  dumps texts (arr vs) = b'[' ∷ dumps_items texts vs ++ b']' ∷ []
  dumps texts (obj fs) = b'{' ∷ dumps_fields texts fs ++ b'}' ∷ []

  pub dumps_items : NumberTexts → Items → Codes
  dumps_items texts no_item = []
  dumps_items texts (item v no_item) = dumps texts v
  dumps_items texts (item v (item w vs)) = dumps texts v ++ comma ++ dumps_items texts (item w vs)

  pub dumps_fields : NumberTexts → Fields → Codes
  dumps_fields texts end = []
  dumps_fields texts (field k v end) = quoted (codes k) ++ b':' ∷ 32 ∷ dumps texts v
  dumps_fields texts (field k v (field j w fs)) =
      quoted (codes k) ++ b':' ∷ 32 ∷ dumps texts v ++ comma ++ dumps_fields texts (field j w fs)
