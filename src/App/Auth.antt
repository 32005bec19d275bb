-- ===== src/App/Auth.antt =====
-- app.py, `_BearerAuthMiddleware.__call__`. A header's name and value are the texts that latin-1
-- decodes from its bytes. To answer 401 is `denied`, to call the inner application `forwarded`.
use Prim.Native.Char.{code}
use compute_connect.Prelude.{
  String, Bool, true, false, not, ◌&&◌, ◌||◌, Option, none, some, List, [], ◌∷◌, str_eq, str_in,
  strip, lower_in, leb, ◌==◌, if◌then◌else◌, is_nonempty, ◌≡◌, refl, ap, ◌∙◌, ◌↔◌, inl, inr, arith,
  Bool-cases, eq_iff,
}
use compute_connect.Json.{Value, str, truthy, Result, ok, err, type_error, ◌>>=◌}
use compute_connect.Dict
use compute_connect.Dict.{Dict}
use compute_connect.App.{App}

pub record Scope : Type 0 where
  pub scope_type : String
  pub path : String
  pub headers : List (String × String)

pub data Decision : Type 0 where
  forwarded denied : Decision

-- `dict(headers)`: of two headers with the same name the later counts
unfoldable pub to_dict : List (String × String) → Dict String → Dict String
to_dict [] d = d
to_dict ((k, v) ∷ hs) d = to_dict hs (Dict.put d k v)

-- `s.partition(" ")`, its first and its last part
unfoldable pub before_space : String → String
before_space String.[] = String.[]
before_space (String.◌∷◌ c s) =
    let rest = before_space s in if code c == 32 then String.[] else String.◌∷◌ c rest

unfoldable pub after_space : String → String
after_space String.[] = String.[]
after_space (String.◌∷◌ c s) = let rest = after_space s in if code c == 32 then s else rest

unfoldable pub is_ascii : String → Bool
is_ascii String.[] = true
is_ascii (String.◌∷◌ c s) = leb (code c) 127 && is_ascii s

-- `hmac.compare_digest`, which takes two texts only if both are ASCII
unfoldable pub compare_digest : String → Value → Result Bool
compare_digest presented (str token) =
    if is_ascii presented && is_ascii token then ok (str_eq presented token) else err type_error
compare_digest presented _ = err type_error

abbrev pub decide : Bool → Decision
decide true = forwarded
decide false = denied

-- the header's scheme is Bearer, and something stands after it
unfoldable pub presents : String → Bool
unfolding before_space after_space
presents raw = lower_in (before_space raw) ("bearer" ∷ []) && is_nonempty (after_space raw)

unfoldable pub check_header : Value → String → Result Decision
unfolding presents after_space compare_digest
check_header token raw =
    if presents raw
    then compare_digest (strip (after_space raw)) token >>= (λ same. ok (decide same))
    else ok denied

abbrev pub or_empty : Option String → String
or_empty none = ""
or_empty (some s) = s

unfoldable pub authorization : Scope → String
authorization scope = or_empty (Dict.get (to_dict scope.headers []) "authorization")

unfoldable pub call : App → Scope → Result Decision
call app scope =
    if not (str_eq scope.scope_type "http") || not (truthy app.token)
    then ok forwarded
    else (if str_in scope.path ("/health" ∷ [])
        then ok forwarded
        else check_header app.token (authorization scope))

-- the header's credential is the token `t`
pub record Credential (t : String) (raw : String) : Type 0 where
  pub scheme : lower_in (before_space raw) ("bearer" ∷ []) ≡ true
  pub secret : strip (after_space raw) ≡ t

nothing_stripped : strip "" ≡ ""
unfolding strip
nothing_stripped = refl

nonempty_of_strip : (s : String) → is_nonempty (strip s) ≡ true → is_nonempty s ≡ true
nonempty_of_strip String.[] h = cc (nothing_stripped, h)
nonempty_of_strip (String.◌∷◌ c s) h = refl

-- a header is accepted for its credential alone
pub check_header_iff :
    (t raw : String)
    → is_nonempty t ≡ true
    → is_ascii t ≡ true
    → (check_header (str t) raw ≡ ok forwarded) ↔ Credential t raw
unfolding check_header presents compare_digest
check_header_iff t raw n a =
    let given = strip (after_space raw) in
    (
      λ h. elim (Bool-cases (presents raw)) [
        | inr p ↦ cc (rw (p, check_header) at h)
        | inl p ↦ elim (Bool-cases (is_ascii given)) [
          | inr g ↦ cc (rw (p, g, check_header) at h)
          | inl g ↦ elim (Bool-cases (str_eq given t)) [
            | inl e ↦ record { scheme = ground arith; secret = (eq_iff given t).0 e }
            | inr e ↦ cc (rw (p, g, a, e, check_header) at h)
          ]
        ]
      ],
      λ c.
          let same = (eq_iff given t).1 c.secret in
          let g : is_ascii given ≡ true = ap is_ascii c.secret ∙ a in
          let m = nonempty_of_strip (after_space raw) (ap is_nonempty c.secret ∙ n) in
          rw (c.scheme, m, g, a, same) refl,
    )
