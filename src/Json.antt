-- ===== src/Json.antt =====
-- Python values as a request body or a configuration file holds them, with the operations that
-- the handlers apply to them, and the exceptions that these raise.
use compute_connect.Prelude.{
  ◌≡◌, refl, zero, suc, ◌/◌, ℤ, pos, negsuc, neg, String, Bool, true, false, List, [], ◌∷◌, str_eq,
  if◌then◌else◌, is_nonempty,
}

-- A float: `finite n` is n ten-thousandths. JSON texts such as `NaN`, `Infinity` and `1e999` give
-- the others.
pub data Float : Type 0 where
  finite : ℤ → Float
  inf minus_inf nan : Float

mutual
  pub data Value : Type 0 where
    null : Value
    bool : Bool → Value
    int : ℤ → Value
    float : Float → Value
    str : String → Value
    arr : Items → Value
    obj : Fields → Value

  -- the elements of a list
  pub data Items : Type 0 where
    no_item : Items
    item : Value → Items → Items

  -- the entries of a dict
  pub data Fields : Type 0 where
    end : Fields
    field : String → Value → Fields → Fields

-- What a handler can raise. `bad_numeric_field` is `app._BadNumericField`.
pub data PyError : Type 0 where
  attribute_error type_error value_error overflow_error : PyError
  bad_numeric_field : String → Value → PyError

pub data Result {ℓ} (A : Type ℓ) : Type ℓ where
  ok : A → Result A
  err : PyError → Result A

-- the statements after a call see its result, unless it raises
infixl 10 ◌>>=◌
abbrev pub ◌>>=◌ {ℓ κ} : {X : Type ℓ} {Y : Type κ} → Result X → (X → Result Y) → Result Y
ok x >>= continue = continue x
err raised >>= continue = err raised

is_zero : ℤ → Bool
is_zero (pos zero) = true
is_zero _ = false

-- `bool(v)`
unfoldable pub truthy : Value → Bool
unfolding is_zero
truthy null = false
truthy (bool b) = b
truthy (int n) = if is_zero n then false else true
truthy (float (finite n)) = if is_zero n then false else true
truthy (float _) = true
truthy (str s) = is_nonempty s
truthy (arr no_item) = false
truthy (arr (item v vs)) = true
truthy (obj end) = false
truthy (obj (field k v fs)) = true

-- `v or d`
unfoldable pub or_else : Value → Value → Value
unfolding truthy
or_else v d = if truthy v then v else d

-- `d.get(key)`: a decoded object holds a key once, and a missing key reads as None
unfoldable pub fields_get : Fields → String → Value
fields_get end k = null
fields_get (field j v fs) k = if str_eq j k then v else fields_get fs k

-- `v.get(key)` on a value that need not be a dict
unfoldable pub get : Value → String → Result Value
unfolding fields_get
get (obj fs) k = ok (fields_get fs k)
get _ k = err attribute_error

-- `int(f)` truncates towards zero
unfoldable pub truncate : ℤ → ℤ
unfolding neg
truncate (pos n) = pos (n / 10000)
truncate (negsuc n) = neg (pos (suc n / 10000))

unfoldable pub to_list : Items → List Value
to_list no_item = []
to_list (item v vs) = v ∷ to_list vs

-- `v == s` for a text `s`
unfoldable pub is_text : Value → String → Bool
is_text (str t) s = str_eq t s
is_text _ s = false

-- `str(v)`. The text of a value that is no `str` is kept as the value: it is never blank, and equals
-- none of the texts that the program compares with.
pub data PyText : Type 0 where
  text : String → PyText
  rendered : Value → PyText

unfoldable pub to_text : Value → PyText
to_text (str s) = text s
to_text v = rendered v

-- an answer of a chain comes through each of its steps
pub bind_inv {ℓ κ} :
    {X : Type ℓ} {Y : Type κ} (m : Result X) (f : X → Result Y) {y : Y}
    → (m >>= f) ≡ ok y
    → (x : X) × (m ≡ ok x) × (f x ≡ ok y)
bind_inv (ok x) f e = (x, refl, e)
bind_inv (err exc) f e = cc
