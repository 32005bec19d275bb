-- ===== src/Control/Placing.antt =====
-- app.py, `generate`: where a run may start, and what else the handler changes.

use compute_connect.Prelude.{
  pos, [], String, true, some, ◌≡◌, refl, sym, ap, subst, ◌∙◌, ◌⊎◌, inl, inr, Bool-cases,
}
use compute_connect.Json.{
  Value, null, str, to_text, or_else, fields_get, bind_inv, obj, Fields, PyError, type_error,
  value_error, overflow_error, attribute_error, bad_numeric_field, Result, ok, err,
}
use compute_connect.App.{int_field, float_field}
use compute_connect.Privacy.{ResolvedPrivacy, resolve_privacy_precedence, resolve_privacy_tier}
use compute_connect.Privacy.Precedence.{IsSignal}
use compute_connect.Privacy.Narrowing.{cloud_permitted-precedence_iff}
use compute_connect.Placement.Types.{
  WorkloadSpec, Placement, Outcome, placed, refused, PlacementRefusal,
}
use compute_connect.Placement.Filter.{filter_candidates}
use compute_connect.Placement.Select.{select_placement}
use compute_connect.Placement.Guarantees.{Serves, placed-Serves}
use compute_connect.Runs.Run.{Run, generate, new_run}
use compute_connect.Runs.Registry.{create}
use compute_connect.Control.{
  Api, Instant, Reply, invalid_json, prompt_required, bad_field, refusal, started, snapshots,
  candidates_resolved, generate_workload, emit_generation_refused, conclude, clock_of, place,
  is_prompt_missing, tiers, generate_fields, handle_generate,
}

-- the workload is what the body of the request asks for
pub record IsAsked (i : Instant) (fs : Fields) (w : WorkloadSpec) : Type 0 where
  pub model : w.model ≡ or_else (fields_get fs "model") null
  pub capabilities : w.required_capabilities ≡ []
  pub context : int_field i.numerals (obj fs) "context_tokens" (pos 0) ≡ ok w.context_tokens
  pub output : int_field i.numerals (obj fs) "max_output_tokens" (pos 0) ≡ ok w.max_output_tokens
  pub latency :
      w.latency_preference ≡ to_text (or_else (fields_get fs "latency_preference") (str "normal"))
  pub quality :
      w.quality_preference
      ≡ to_text (or_else (fields_get fs "quality_preference") (str "good_enough"))

IsAsked-of :
    (i : Instant) (fs : Fields) {v w : WorkloadSpec}
    → ◌≡◌ {A = Result WorkloadSpec} (ok v) (ok w)
    → IsAsked i fs v
    → IsAsked i fs w
IsAsked-of i fs e = subst (IsAsked i fs) cc

generate_workload-IsAsked :
    (i : Instant) (fs : Fields) {w : WorkloadSpec}
    → generate_workload i.numerals fs ≡ ok w
    → IsAsked i fs w
unfolding generate_workload
generate_workload-IsAsked i fs {w} e =
    let (output, o, e1) =
      bind_inv (int_field i.numerals (obj fs) "max_output_tokens" (pos 0)) _ e in
    let (context, c, e2) = bind_inv (int_field i.numerals (obj fs) "context_tokens" (pos 0)) _ e1 in
    let (temperature, _, e3) =
      bind_inv (float_field i.numerals (obj fs) "temperature" (pos 0)) _ e2 in
    IsAsked-of i fs e3 (record {
      model = refl;
      capabilities = refl;
      context = c;
      output = o;
      latency = refl;
      quality = refl;
    })

-- a run was created for the placement that was selected for the workload of the request
pub record IsStarted (api : Api) (i : Instant) (privacy : ResolvedPrivacy) (fs : Fields)
    (after : Api) (reply : Result Reply) : Type 0 where
  pub workload : WorkloadSpec
  pub asked : IsAsked i fs workload
  pub placement : Placement
  pub serves :
      Serves
        (snapshots api i).1
        privacy
        workload
        (clock_of api i)
        placement.provider
        placement.model
  pub selected :
      select_placement (filter_candidates (snapshots api i).1 privacy) workload (clock_of api i)
      ≡ placed placement
  pub answered :
      reply
      ≡ ok (
          started
            (new_run i.run_id placement.provider.spec.id
              (some placement.model.id)
              generate
              i.run_now)
            placement)
  pub created :
      after.runs
      ≡ (create api.runs i.run_id i.run_now placement.provider.spec.id
          (some placement.model.id)
          generate).0

pub data IsNotStarted : Result Reply → Type 0 where
  was_invalid : IsNotStarted (ok invalid_json)
  had_no_prompt : IsNotStarted (ok prompt_required)
  had_bad_field : {key : String} {raw : Value} → IsNotStarted (ok (bad_field key raw))
  was_refused : {m : Value} {r : PlacementRefusal} → IsNotStarted (ok (refusal m r))
  has_raised : {e : PyError} → IsNotStarted (err e)

abbrev pub Handled : Api → Instant → ResolvedPrivacy → Fields → Api × Result Reply → Type 0
Handled api i privacy fs r =
    IsStarted api i privacy fs r.0 r.1 ⊎ ((r.0.runs ≡ api.runs) × IsNotStarted r.1)

module _ (api : Api) (i : Instant) (privacy : ResolvedPrivacy) (fs : Fields) where
  conclude_cases :
      (w : WorkloadSpec) (o : Outcome)
      → IsAsked i fs w
      → select_placement (filter_candidates (snapshots api i).1 privacy) w (clock_of api i) ≡ o
      → Handled api i privacy fs (conclude (candidates_resolved api i privacy).0 i privacy w o)
  unfolding conclude candidates_resolved emit_generation_refused create
  conclude_cases w (refused r) a e = inr (refl, was_refused)
  conclude_cases w (placed p) a e = inl (record {
    workload = w;
    asked = a;
    selected = e;
    placement = p;
    serves = placed-Serves (snapshots api i).1 privacy w (clock_of api i) e;
    answered = refl;
    created = refl;
  })

  place_cases :
      (w : Result WorkloadSpec)
      → generate_workload i.numerals fs ≡ w
      → Handled api i privacy fs (
          place
            (candidates_resolved api i privacy).0
            i
            privacy
            (candidates_resolved api i privacy).1
            w)
  unfolding place candidates_resolved
  place_cases (ok w) e = conclude_cases w _ (generate_workload-IsAsked i fs e) refl
  place_cases (err (bad_numeric_field key raw)) _ = inr (refl, had_bad_field)
  place_cases (err attribute_error) _ = inr (refl, has_raised)
  place_cases (err type_error) _ = inr (refl, has_raised)
  place_cases (err value_error) _ = inr (refl, has_raised)
  place_cases (err overflow_error) _ = inr (refl, has_raised)

-- `generate` creates exactly the run of its answer, for the placement that `select_placement` finds
-- under the request's tiers for the workload of the body: its model, its two numbers of tokens as
-- `_int_field` reads them, and its preferences; so its provider and its model serve that workload. Where it answers or raises anything else, no run has changed.
pub handle_generate-Handled :
    (api : Api) (i : Instant) (header : Value) (fs : Fields)
    → Handled api i
        (resolve_privacy_precedence (tiers header fs))
        fs
        (handle_generate api i header (some (obj fs)))
unfolding handle_generate generate_fields
handle_generate-Handled api i header fs = elim (Bool-cases (is_prompt_missing fs)) [
  | inl e ↦ rw e (inr (refl, had_no_prompt))
  | inr e ↦ rw e (
      place_cases api i (resolve_privacy_precedence (tiers header fs)) fs
        (generate_workload i.numerals fs) refl)
]

no_start : {run : Run} {p : Placement} → ¬ IsNotStarted (ok (started run p))
no_start n = elim n [ ]

placement_of :
    {run run' : Run} {p p' : Placement}
    → ◌≡◌ {A = Result Reply} (ok (started run p)) (ok (started run' p'))
    → (run ≡ run') × (p ≡ p')
placement_of e = (cc, cc)

-- A run starts on a cloud provider only if the header or the body gives a privacy tier, and each one
-- that is given permits cloud by itself: neither can widen the other, and silence denies.
pub handle_generate-private :
    (api : Api) {after : Api} (i : Instant) (header : Value) (fs : Fields) {run : Run}
    {p : Placement}
    → handle_generate api i header (some (obj fs)) ≡ (after, ok (started run p))
    → p.provider.spec.placement_class ≡ "cloud"
    → (run.provider_id ≡ p.provider.spec.id)
      × ((v : Value) × IsSignal v (tiers header fs))
      × ((v : Value)
          → IsSignal v (tiers header fs)
          → (resolve_privacy_tier v).cloud_permitted ≡ true)
handle_generate-private api {after} i header fs {run} {p} e cloud =
    elim (handle_generate-Handled api i header fs) [
      | inr (_, n) ↦ absurd (no_start (subst IsNotStarted (ap (λ r. r.1) e) n))
      | inl s ↦
          let same = sym (ap (λ r. r.1) e) ∙ s.answered in
          let placed_here = placement_of same in
          let here : p.provider.spec.placement_class ≡ s.placement.provider.spec.placement_class =
            ap (λ (p : Placement). p.provider.spec.placement_class) placed_here.1 in
          let (given, each) =
            (cloud_permitted-precedence_iff (tiers header fs)).0
              (s.serves.allowed (sym here ∙ cloud)) in
          (
            ap (λ (r : Run). r.provider_id) placed_here.0
                ∙ ap (λ (p : Placement). p.provider.spec.id) (sym placed_here.1),
            given,
            each,
          )
    ]
