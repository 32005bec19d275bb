-- ===== src/Number.antt =====
-- Python's `int(v)`, `float(v)` and the comparisons of floats that the program makes. The texts that
-- `int` and `float` accept are CPython's to say: `Numerals` is what they read in a text.
use compute_connect.Prelude.{
  ℤ, pos, ◌+ℤ◌, ◌*ℤ◌, ltb_ℤ, String, Bool, true, false, Option, none, some, if◌then◌else◌,
}
use compute_connect.Json.{
  Value, null, bool, int, float, str, arr, obj, Float, finite, inf, minus_inf, nan, type_error,
  value_error, overflow_error, Result, ok, err, truncate,
}

pub record Numerals : Type 0 where
  pub int_of : String → Option ℤ
  pub float_of : String → Option Float

abbrev pub or_value_error {ℓ} : {A : Type ℓ} → Option A → Result A
or_value_error none = err value_error
or_value_error (some a) = ok a

abbrev bit : Bool → ℤ
bit true = pos 1
bit false = pos 0

abbrev pub int_of_float : Float → Result ℤ
int_of_float (finite n) = ok (truncate n)
int_of_float nan = err value_error
int_of_float _ = err overflow_error

-- `int(v)`
unfoldable pub to_int : Numerals → Value → Result ℤ
to_int numerals null = err type_error
to_int numerals (bool b) = ok (bit b)
to_int numerals (int n) = ok n
to_int numerals (float f) = int_of_float f
to_int numerals (str s) = or_value_error (numerals.int_of s)
to_int numerals (arr vs) = err type_error
to_int numerals (obj fs) = err type_error

abbrev pub from_int : ℤ → Float
from_int n = finite (n *ℤ pos 10000)

-- `float(v)`
unfoldable pub to_float : Numerals → Value → Result Float
to_float numerals null = err type_error
to_float numerals (bool b) = ok (from_int (bit b))
to_float numerals (int n) = ok (from_int n)
to_float numerals (float f) = ok f
to_float numerals (str s) = or_value_error (numerals.float_of s)
to_float numerals (arr vs) = err type_error
to_float numerals (obj fs) = err type_error

-- `f < g`: nan is below nothing, and nothing is below it
unfoldable pub less : Float → Float → Bool
less (finite m) (finite n) = ltb_ℤ m n
less (finite m) inf = true
less minus_inf (finite n) = true
less minus_inf inf = true
less _ _ = false

-- `max(f, g)`: the second argument if it is greater
unfoldable pub max_float : Float → Float → Float
unfolding less
max_float f g = if less f g then g else f

unfoldable pub times : ℤ → Float → Float
times k (finite n) = finite (n *ℤ k)
times k f = f

unfoldable pub plus : ℤ → Float → Float
plus k (finite n) = finite (n +ℤ k)
plus k f = f
