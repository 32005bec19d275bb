-- ===== src/App/Guard.antt =====
-- app.py: who reaches the application, and what `create_app` guarantees of an exposed one.
use mathlib.Core.List.Memᴰ
use compute_connect.Prelude.{
  String, Bool, Option, none, true, false, ◌&&◌, some, [], ◌∷◌, str_eq, str_in, strip, is_nonempty,
  ◌≡◌, ◌≢◌, refl, sym, ap, ◌∙◌, ◌↔◌, ◌⊎◌, inl, inr, arith, Bool-cases, eq_iff, str_in_iff, Memᴰ,
}
use compute_connect.Json.{
  Value, null, bool, int, float, str, arr, obj, truthy, or_else, Result, ok, err, ◌>>=◌,
}
use compute_connect.App.{
  App, AppConfig, create_app, is_exposed, loopback_hosts, OpenJournal, built, BuildError, construct,
  finish_app, middleware_token,
}
use compute_connect.App.Auth.{
  Scope, forwarded, decide, presents, compare_digest, check_header, authorization, call, Credential,
  check_header_iff, after_space, is_ascii,
}

-- a request that needs a credential where a token is set
abbrev pub IsGuarded : Scope → Type 0
IsGuarded scope = (scope.scope_type ≡ "http") × (scope.path ≢ "/health")

is_health_iff : (path : String) → (str_in path ("/health" ∷ []) ≡ true) ↔ (path ≡ "/health")
is_health_iff path =
    let i = str_in_iff path ("/health" ∷ []) in
    (λ h. Memᴰ.eq_of_singleton (i.0 h), λ e. i.1 (Memᴰ.head e))

call_guarded :
    (app : App) (scope : Scope)
    → truthy app.token ≡ true
    → IsGuarded scope
    → call app scope ≡ check_header app.token (authorization scope)
unfolding call
call_guarded app scope t (http, path) = elim (Bool-cases (str_in scope.path ("/health" ∷ []))) [
  | inl e ↦ absurd (path ((is_health_iff scope.path).0 e))
  | inr e ↦ rw ((eq_iff scope.scope_type "http").1 http, t, e) refl
]

-- Where the token is a text of ASCII characters that is not empty, a request reaches the application
-- exactly when it is no HTTP request, asks for /health, or carries the token as its Bearer
-- credential.
pub call_iff :
    (app : App) (scope : Scope) (t : String)
    → app.token ≡ str t
    → is_nonempty t ≡ true
    → is_ascii t ≡ true
    → (call app scope ≡ ok forwarded) ↔ (
        (scope.scope_type ≢ "http")
        ⊎ ((scope.path ≡ "/health") ⊎ Credential t (authorization scope)))
unfolding call truthy
call_iff app scope t e n a =
    let header = check_header_iff t (authorization scope) n a in
    let http = eq_iff scope.scope_type "http" in
    let health = is_health_iff scope.path in
    elim (Bool-cases (str_eq scope.scope_type "http")) [
      | inr h ↦ (λ _. inl (λ p. cc (h, http.1 p)), λ _. rw (e, h) refl)
      | inl h ↦ elim (Bool-cases (str_in scope.path ("/health" ∷ []))) [
        | inl p ↦ (λ _. inr (inl (health.0 p)), λ _. rw (e, h, n, p) refl)
        | inr p ↦ (
          λ c. inr (inr (header.0 (rw (e, h, n, p) at c))),
          λ c.
              rw (e, h, n, p)
                (elim c [
                  | inl q ↦ absurd (q (http.0 h))
                  | inr (inl q) ↦ cc (p, health.1 q)
                  | inr (inr q) ↦ header.1 q
                ]),
        )
      ]
    ]

digest_of :
    (given : String) (token : Value) → compare_digest given token ≡ ok true → (token ≡ str given)
unfolding compare_digest
digest_of given null h = cc
digest_of given (bool b) h = cc
digest_of given (int n) h = cc
digest_of given (float f) h = cc
digest_of given (arr vs) h = cc
digest_of given (obj fs) h = cc
digest_of given (str t) h = elim (Bool-cases (is_ascii given && is_ascii t)) [
  | inr e ↦ cc (rw e at h)
  | inl e ↦ let p : str_eq given t ≡ true = cc (rw e at h) in ap str (sym ((eq_iff given t).0 p))
]

forwarded_of : (r : Result Bool) → (r >>= (λ same. ok (decide same))) ≡ ok forwarded → r ≡ ok true
forwarded_of (ok true) h = refl
forwarded_of (ok false) h = cc
forwarded_of (err x) h = cc

check_header-Credential :
    (token : Value) (raw : String)
    → check_header token raw ≡ ok forwarded
    → (t : String) × (token ≡ str t) × Credential t raw
unfolding check_header presents
check_header-Credential token raw h = elim (Bool-cases (presents raw)) [
  | inr p ↦ cc (rw (p, check_header) at h)
  | inl p ↦
      let given = strip (after_space raw) in
      let d = forwarded_of (compare_digest given token) (rw (p, check_header) at h) in
      (given, digest_of given token d, record { scheme = ground arith; secret = refl })
]

built_injective : {a b : App} → built a ≡ built b → a ≡ b
built_injective e = cc

finish_app-token :
    (config : AppConfig) (r : Option BuildError) {app : App}
    → finish_app config r ≡ built app
    → middleware_token config.token ≡ app.token
unfolding finish_app
finish_app-token config (some x) e = cc
finish_app-token config none e = ap (λ (a : App). a.token) (built_injective e)

-- An application that is built for a host other than the loopback ones lets a request through only
-- if it is no HTTP request, asks for /health, or carries the configured token as its Bearer
-- credential: there is no configuration for which such a host is open.
pub exposed-IsAuthenticated :
    (open_journal : OpenJournal) (config : AppConfig) (host : String) {app : App} (scope : Scope)
    → create_app open_journal config (some host) ≡ built app
    → ¬ Memᴰ host loopback_hosts
    → IsGuarded scope
    → call app scope ≡ ok forwarded
    → (t : String) × (config.token ≡ str t) × Credential t (authorization scope)
unfolding create_app is_exposed or_else
exposed-IsAuthenticated open_journal config host {app} scope made exposed guarded through =
    elim (Bool-cases (str_in host loopback_hosts)) [
      | inl e ↦ absurd (exposed ((str_in_iff host loopback_hosts).0 e))
      | inr e ↦ elim (Bool-cases (truthy config.token)) [
        | inr t ↦ cc (rw (e, t, create_app) at made)
        | inl t ↦
            let token : config.token ≡ app.token =
              rw (or_else, t) at
                (finish_app-token config (construct open_journal config)
                  (rw (e, t, create_app) at made)) in
            let set = ap truthy (sym token) ∙ t in
            let (s, p, c) =
              check_header-Credential app.token (authorization scope)
                (sym (call_guarded app scope set guarded) ∙ through) in
            (s, token ∙ p, c)
      ]
    ]
