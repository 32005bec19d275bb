-- ===== src/App/Numeric.antt =====
-- app.py, `_int_field`: the numeric fields of a request.
use compute_connect.Prelude.{ℤ, String, false, ◌≡◌, refl, ◌⊎◌, inl, inr, Bool-cases, Option-cases}
use compute_connect.Json.{
  Value, null, bool, int, float, str, arr, obj, finite, inf, minus_inf, nan, Fields, PyError,
  type_error, value_error, overflow_error, bad_numeric_field, ok, err, truthy, or_else, fields_get,
  get,
}
use compute_connect.Number.{Numerals, to_int}
use compute_connect.App.{as_bad_numeric, int_field}

-- a value that `int` refuses with an OverflowError
abbrev pub IsInfinite : Value → Type 0
IsInfinite v = (v ≡ float inf) ⊎ (v ≡ float minus_inf)

-- the exceptions that `_int_field` turns into its own
abbrev pub IsCaught : PyError → Type 0
IsCaught e = (e ≡ type_error) ⊎ (e ≡ value_error)

abbrev pub Conversion : Numerals → Value → Type 0
Conversion numerals v =
    ((n : ℤ) × (to_int numerals v ≡ ok n))
    ⊎ (((e : PyError) × IsCaught e × (to_int numerals v ≡ err e))
        ⊎ (IsInfinite v × (to_int numerals v ≡ err overflow_error)))

to_int_cases : (numerals : Numerals) (v : Value) → Conversion numerals v
unfolding to_int
to_int_cases numerals null = inr (inl (type_error, inl refl, refl))
to_int_cases numerals (bool b) = inl (_, refl)
to_int_cases numerals (int n) = inl (n, refl)
to_int_cases numerals (float (finite n)) = inl (_, refl)
to_int_cases numerals (float inf) = inr (inr (inl refl, refl))
to_int_cases numerals (float minus_inf) = inr (inr (inr refl, refl))
to_int_cases numerals (float nan) = inr (inl (value_error, inr refl, refl))
to_int_cases numerals (str s) = elim (Option-cases (numerals.int_of s)) [
  | inl e ↦ inr (inl (value_error, inr refl, rw e refl))
  | inr (n, e) ↦ inl (n, rw e refl)
]
to_int_cases numerals (arr vs) = inr (inl (type_error, inl refl, refl))
to_int_cases numerals (obj fs) = inr (inl (type_error, inl refl, refl))

as_bad_numeric_caught :
    (key : String) (raw : Value) (e : PyError)
    → IsCaught e
    → as_bad_numeric {A = ℤ} key raw (err e) ≡ err (bad_numeric_field key raw)
unfolding as_bad_numeric
as_bad_numeric_caught key raw e (inl p) = rw p refl
as_bad_numeric_caught key raw e (inr p) = rw p refl

-- A field that is missing or falsy reads as the default. Any other is converted, or refused with the
-- error that names the field and its value; only an infinite number escapes, as an OverflowError.
pub int_field-cases :
    (numerals : Numerals) (fs : Fields) (key : String) (default : ℤ)
    → ((truthy (fields_get fs key) ≡ false)
        × (int_field numerals (obj fs) key default ≡ ok default))
      ⊎ (((n : ℤ) × (to_int numerals (fields_get fs key) ≡ ok n)
            × (int_field numerals (obj fs) key default ≡ ok n))
          ⊎ (((e : PyError) × IsCaught e
                × (to_int numerals (fields_get fs key) ≡ err e)
                × (int_field numerals (obj fs) key default
                    ≡ err (bad_numeric_field key (fields_get fs key))))
              ⊎ (IsInfinite (fields_get fs key)
                  × (int_field numerals (obj fs) key default ≡ err overflow_error))))
unfolding int_field get or_else as_bad_numeric to_int
int_field-cases numerals fs key default =
    let raw = fields_get fs key in
    elim (Bool-cases (truthy raw)) [
      | inr t ↦ inl (t, rw (t, int_field, or_else, to_int) refl)
      | inl t ↦ inr (elim (to_int_cases numerals raw) [
        | inl (n, e) ↦ inl (n, e, rw (t, e) refl)
        | inr (inl (x, c, e)) ↦ inr (inl (x, c, e, rw (t, e) (as_bad_numeric_caught key raw x c)))
        | inr (inr (i, e)) ↦ inr (inr (i, rw (t, e) refl))
      ])
    ]
