-- ===== src/Wire/Escape.antt =====
-- json.dumps: the escape of a text can be read back.
use compute_connect.Prelude.{
  ℕ, ◌+◌, ◌-◌, ◌*◌, Bool, ◌&&◌, Option, none, some, [], ◌∷◌, ◌++◌, if◌then◌else◌, leb, ◌==◌, ◌≡◌,
  refl,
}
use mathlib.Core.List.{append_assoc}
use compute_connect.Wire.{Codes, escape}

pub escape-append : (s t : Codes) → escape (s ++ t) ≡ escape s ++ escape t
unfolding escape
escape-append [] t = refl
escape-append (c ∷ s) t = rw (escape-append s t) (simp append_assoc)

-- what a reader of the escapes has seen: n digits of a hexadecimal escape make `acc`, after a high
-- surrogate or not
pub data Mode : Type 0 where
  plain backslash : Mode
  digits : Option ℕ → ℕ → ℕ → Mode
  paired paired_backslash : ℕ → Mode

unfoldable pub hex_value : ℕ → Option ℕ
hex_value c =
    if leb 48 c && leb c 57
    then some (c - 48)
    else if leb 97 c && leb c 102
    then some (c - 87)
    else none

-- the reader's next mode, and the code point that is complete
pub record Turn : Type 0 where
  pub mode : Mode
  pub out : Codes

abbrev pub go : Mode → Turn
go m = record { mode = m; out = [] }

abbrev pub give : ℕ → Turn
give c = record { mode = plain; out = c ∷ [] }

abbrev pub is_high : ℕ → Bool
is_high n = leb 0xd800 n && leb n 0xdbff

abbrev pub is_low : ℕ → Bool
is_low n = leb 0xdc00 n && leb n 0xdfff

-- four digits are read
unfoldable pub complete : Option ℕ → ℕ → Option Turn
complete none n =
    if is_high n then some (go (paired n)) else if is_low n then none else some (give n)
complete (some h) n =
    if is_low n then some (give (0x10000 + (h - 0xd800) * 0x400 + (n - 0xdc00))) else none

unfoldable pub add_digit : Option ℕ → ℕ → ℕ → Option Turn
unfolding complete
add_digit high n acc = if n == 3 then complete high acc else some (go (digits high (n + 1) acc))

unfoldable pub read : Mode → ℕ → Option Turn
unfolding hex_value add_digit
read plain c =
    if c == b'\\'
    then some (go backslash)
    else if c == b'"'
    then none
    else if leb 32 c && leb c 126
    then some (give c)
    else none
read backslash c =
    if c == b'"'
    then some (give b'"')
    else if c == b'\\'
    then some (give b'\\')
    else if c == b'n'
    then some (give 10)
    else if c == b'r'
    then some (give 13)
    else if c == b't'
    then some (give 9)
    else if c == b'f'
    then some (give 12)
    else if c == b'b'
    then some (give 8)
    else if c == b'u'
    then some (go (digits none 0 0))
    else none
read (digits high n acc) c = elim (hex_value c) [
  | none ↦ none
  | some d ↦ add_digit high n (acc * 16 + d)
]
read (paired h) c = if c == b'\\' then some (go (paired_backslash h)) else none
read (paired_backslash h) c = if c == b'u' then some (go (digits (some h) 0 0)) else none

abbrev pub prepend : Codes → Option Codes → Option Codes
prepend out none = none
prepend out (some s) = some (out ++ s)

-- An independent reader of escaped text: none where the text is not well formed.
unfoldable pub unescape : Mode → Codes → Option Codes
unfolding read
unescape plain [] = some []
unescape _ [] = none
unescape m (c ∷ s) = elim (read m c) [
  | none ↦ none
  | some turn ↦ prepend turn.out (unescape turn.mode s)
]
