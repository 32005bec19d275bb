-- ===== src/App/Tests.antt =====
-- Tests of the application's guard and fields, and the theorems about them at concrete requests.

use compute_connect.Prelude.{
  ℤ, pos, ◌+ℤ◌, ◌*ℤ◌, String, true, false, ◌≡◌, ◌≢◌, refl, ◌↔◌, ◌⊎◌, none, some, [], ◌∷◌, str_in,
  str_in_iff, strip, lower_in, Memᴰ, eq_iff, arith,
}
use compute_connect.Json.{
  null, str, bool, float, finite, inf, obj, Fields, end, field, fields_get, get, truthy, or_else,
  PyError, bad_numeric_field, overflow_error, ok, err, type_error,
}
use compute_connect.Number.{Numerals, to_int, max_float, less, times, plus}
use compute_connect.App.{
  App, AppConfig, build_default_config, local_llamacpp, new_llama_cpp, effective_max_snapshot_age,
  int_field, as_bad_numeric, create_app, is_exposed, loopback_hosts, OpenJournal, built, unbuilt,
  exposed_host, construct, after_journal, has_no_rstrip, finish_app, sim_cloud, duplicate_ids,
  bus_url_no_text, journal_failed,
}
use compute_connect.Provider.Snapshot.{has_duplicates}
use compute_connect.App.Auth.{
  Scope, forwarded, denied, to_dict, before_space, after_space, is_ascii, compare_digest, presents,
  check_header, authorization, call, Credential,
}
use compute_connect.App.Guard.{call_iff, exposed-IsAuthenticated}
use compute_connect.App.Numeric.{IsInfinite, IsCaught, int_field-cases}
use compute_connect.Dict

program : Unit {0}
unfolding to_int max_float less times plus build_default_config local_llamacpp new_llama_cpp
    effective_max_snapshot_age int_field as_bad_numeric create_app construct after_journal
    has_no_rstrip finish_app has_duplicates is_exposed to_dict before_space after_space is_ascii
    compare_digest presents check_header authorization call get fields_get truthy or_else str_in
    strip lower_in Dict.put Dict.get ◌+ℤ◌ ◌*ℤ◌
program = tt

abbrev config : AppConfig
config = record (build_default_config "http://127.0.0.1:8080" true (finite (pos 50000)) null) {
  token = str "s3cret";
}

abbrev app : App
app = record { config = config; token = str "s3cret" }

abbrev asking : String → Scope
asking header = record {
  scope_type = "http";
  path = "/generate";
  headers = ("host", "x") ∷ ("authorization", header) ∷ [];
}

abbrev opens : OpenJournal
opens v = none

builds : create_app opens config (some "0.0.0.0") ≡ built app
unfolding program
builds = refl

refuses_open_host :
    create_app opens (record config { token = str "" }) (some "0.0.0.0") ≡ exposed_host
unfolding program
refuses_open_host = refl

-- the configuration of the default fleet with a second simulated cloud, a bus_url that is no text, or a
-- journal that cannot be opened
fails_to_build :
    (create_app opens (record config { providers = sim_cloud ∷ config.providers }) none
      ≡ unbuilt duplicate_ids)
    × (create_app opens (record config { bus_url = bool true }) none ≡ unbuilt bus_url_no_text)
    × (create_app (λ v. some "unable to open") (record config { run_journal_path = str "/x" }) none
        ≡ unbuilt (journal_failed "unable to open"))
unfolding program
fails_to_build = (refl, refl, refl)

lets_in : call app (asking "bEaReR  s3cret ") ≡ ok forwarded
unfolding program
lets_in = refl

keeps_out :
    (call app (asking "Bearer s3cre") ≡ ok denied)
    × (call app (asking "Basic s3cret") ≡ ok denied)
    × (call app (asking "Bearer") ≡ ok denied)
unfolding program
keeps_out = (refl, refl, refl)

-- a credential that is not ASCII is neither let in nor denied: `compare_digest` raises
raises_on_latin : call app (asking "Bearer é") ≡ err type_error
unfolding program
raises_on_latin = refl

ascii : is_ascii "s3cret" ≡ true
unfolding program
ascii = refl

call_iff_example : (call app (asking "Bearer s3cret") ≡ ok forwarded) ↔ (
    ((asking "Bearer s3cret").scope_type ≢ "http")
    ⊎ (((asking "Bearer s3cret").path ≡ "/health")
        ⊎ Credential "s3cret" (authorization (asking "Bearer s3cret"))))
call_iff_example = call_iff app (asking "Bearer s3cret") "s3cret" refl refl ascii

outside : str_in "0.0.0.0" loopback_hosts ≡ false
unfolding program
outside = refl

exposed : ¬ Memᴰ "0.0.0.0" loopback_hosts
exposed m = cc (outside, (str_in_iff "0.0.0.0" loopback_hosts).1 m)

not_health : ◌≢◌ {A = String} "/generate" "/health"
not_health = ground (arith, eq_iff "/generate" "/health")

exposed-IsAuthenticated_example :
    (t : String) × (config.token ≡ str t) × Credential t (authorization (asking "bEaReR  s3cret "))
exposed-IsAuthenticated_example =
    exposed-IsAuthenticated opens config "0.0.0.0" (asking "bEaReR  s3cret ") builds exposed
      (refl, not_health) lets_in

abbrev numerals : Numerals
numerals = record { int_of = λ s. none; float_of = λ s. none }

abbrev body : Fields
body = field "max_output_tokens" (str "many") (field "context_tokens" (float inf) end)

reads_fields :
    (int_field numerals (obj body) "temperature" (pos 7) ≡ ok (pos 7))
    × (int_field numerals (obj body) "max_output_tokens" (pos 7)
        ≡ err (bad_numeric_field "max_output_tokens" (str "many")))
    × (int_field numerals (obj body) "context_tokens" (pos 7) ≡ err overflow_error)
unfolding program
reads_fields = (refl, refl, refl)

int_field-cases_example :
    ((truthy (fields_get body "context_tokens") ≡ false)
      × (int_field numerals (obj body) "context_tokens" (pos 7) ≡ ok (pos 7)))
    ⊎ (((n : ℤ) × (to_int numerals (fields_get body "context_tokens") ≡ ok n)
          × (int_field numerals (obj body) "context_tokens" (pos 7) ≡ ok n))
        ⊎ (((e : PyError) × IsCaught e
              × (to_int numerals (fields_get body "context_tokens") ≡ err e)
              × (int_field numerals (obj body) "context_tokens" (pos 7)
                  ≡ err (bad_numeric_field "context_tokens" (fields_get body "context_tokens"))))
            ⊎ (IsInfinite (fields_get body "context_tokens")
                × (int_field numerals (obj body) "context_tokens" (pos 7) ≡ err overflow_error))))
int_field-cases_example = int_field-cases numerals body "context_tokens" (pos 7)

default_ceiling : effective_max_snapshot_age config ≡ float (finite (pos 350000))
unfolding program
default_ceiling = refl

config_ttl : config.snapshot_ttl ≡ finite (pos 50000)
unfolding program
config_ttl = refl

config_unset : config.max_snapshot_age ≡ null
unfolding program
config_unset = refl
