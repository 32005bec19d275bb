-- ===== src/Runs/Lifecycle.antt =====
-- runs.py: what one step can do to a run that is in memory.
use mathlib.Core.Option
use compute_connect.Prelude.{
  ℤ, String, true, false, ◌≡◌, refl, sym, ap, ◌∙◌, ◌⊎◌, inl, inr, Option, none, some, str_eq,
  eq_iff, if◌then◌else◌, Bool-cases, Option-cases,
}
use compute_connect.Json.{Value}
use compute_connect.Dict
use compute_connect.Dict.{
  Dict, HasDistinctKeys, get-put, get-modify, ne_of_get, put-HasDistinctKeys,
}
use compute_connect.Runs.Run.{Run, RunState, Surface, is_terminal, new_run}
use compute_connect.Runs.Registry.{
  Registry, create, cancel, finish, request_cancel, close_run, trim,
}
use compute_connect.Runs.Trim.{trim-drop_first, excess, get-drop_first_active, of_get-drop_first}
use compute_connect.Runs.Invariant.{IsConsistent, finish_cases, cancel_cases}
use compute_connect.Runs.Restart.{Step, creating, cancelling, finishing}

module _ {reg : Registry} (k : String) {r : Run} (c : IsConsistent reg)
    (found : Dict.get reg.runs k ≡ some r) where
  after_put :
      (fresh : String) (run : Run)
      → Dict.get reg.runs fresh ≡ none
      → Dict.get (Dict.put reg.runs fresh run) k ≡ some r
  after_put fresh run h =
      get-put reg.runs fresh k run ∙ rw (ne_of_get reg.runs fresh k h found) found

  created_active :
      (fresh : String) (now : ℤ) (provider_id : String) (model : Option String) (surface : Surface)
      → Dict.get reg.runs fresh ≡ none
      → is_terminal r.state ≡ false
      → Dict.get (create reg fresh now provider_id model surface).0.runs k ≡ some r
  unfolding create
  created_active fresh now provider_id model surface h a =
      let run = new_run fresh provider_id model surface now in
      let d = Dict.put reg.runs fresh run in
      rw (trim-drop_first reg.history_limit d (put-HasDistinctKeys reg.runs fresh run c.distinct))
        (get-drop_first_active k (excess reg.history_limit d) d (after_put fresh run h) a)

  created_terminal :
      (fresh : String) (now : ℤ) (provider_id : String) (model : Option String) (surface : Surface)
      → Dict.get reg.runs fresh ≡ none
      → (Dict.get (create reg fresh now provider_id model surface).0.runs k ≡ some r)
        ⊎ (Dict.get (create reg fresh now provider_id model surface).0.runs k ≡ none)
  unfolding create
  created_terminal fresh now provider_id model surface h =
      let run = new_run fresh provider_id model surface now in
      let d = Dict.put reg.runs fresh run in
      let distinct = put-HasDistinctKeys reg.runs fresh run c.distinct in
      elim (Option-cases (Dict.get (trim reg.history_limit d) k)) [
        | inl e ↦ inr e
        | inr (q, e) ↦
            let before =
              of_get-drop_first k (excess reg.history_limit d) d distinct
                (rw (trim-drop_first reg.history_limit d distinct) at e) in
            inl (e ∙ sym before ∙ after_put fresh run h)
      ]

  -- an active run is changed at `run_id`, and `k` is read after it
  modified :
      (f : Run → Run) (run_id : String) (run : Run) {after : Option Run}
      → Dict.get reg.runs run_id ≡ some run
      → is_terminal run.state ≡ false
      → after
        ≡ (if str_eq run_id k then Option.map f (Dict.get reg.runs k) else Dict.get reg.runs k)
      → (after ≡ some r) ⊎ ((is_terminal r.state ≡ false) × (after ≡ some (f r)))
  modified f run_id run at_id live e = elim (Bool-cases (str_eq run_id k)) [
    | inl s ↦
        let same : run ≡ r = cc (at_id, found, ap (Dict.get reg.runs) ((eq_iff run_id k).0 s)) in
        inr (ap (λ (q : Run). is_terminal q.state) (sym same) ∙ live, e ∙ rw (s, found))
    | inr s ↦ inl (e ∙ rw s found)
  ]

  cancelled :
      (run_id : String)
      → ((Dict.get (cancel reg run_id).0.runs k ≡ some r))
        ⊎ ((is_terminal r.state ≡ false)
            × (Dict.get (cancel reg run_id).0.runs k ≡ some (request_cancel r)))
  cancelled run_id = elim (cancel_cases reg run_id) [
    | inr e ↦ inl (ap (λ (g : Registry). Dict.get g.runs k) e ∙ found)
    | inl (run, at_id, live, e) ↦
        let after =
          ap (λ (g : Registry). Dict.get g.runs k) e
          ∙ get-modify reg.runs run_id k request_cancel in
        modified request_cancel run_id run at_id live after
  ]

  finished :
      (run_id : String) (state : RunState) (now : ℤ) (metrics : Dict Value)
      → (Dict.get (finish reg run_id state now metrics).runs k ≡ some r)
        ⊎ ((is_terminal r.state ≡ false)
            × (Dict.get (finish reg run_id state now metrics).runs k
                ≡ some (close_run state now metrics r)))
  finished run_id state now metrics = elim (finish_cases reg run_id state now metrics) [
    | inr (_, e) ↦ inl (ap (λ (g : Registry). Dict.get g.runs k) e ∙ found)
    | inl (run, at_id, live, e) ↦
        let close = close_run state now metrics in
        let after =
          ap (λ (g : Registry). Dict.get g.runs k) e ∙ get-modify reg.runs run_id k close in
        modified close run_id run at_id live after
  ]

-- In a consistent registry a run that is not terminal is never evicted: after a step it is still in
-- memory, with the id, the provider, the surface and the creation time that it had.
pub Step-active :
    {reg reg' : Registry} (k : String) {r : Run}
    → IsConsistent reg
    → Step reg reg'
    → Dict.get reg.runs k ≡ some r
    → is_terminal r.state ≡ false
    → (q : Run) × (Dict.get reg'.runs k ≡ some q)
      × (q.id ≡ r.id)
      × (q.provider_id ≡ r.provider_id)
      × (q.surface ≡ r.surface)
      × (q.created_at ≡ r.created_at)
Step-active k {r} c (creating fresh now provider_id model surface h) e a =
    (r, created_active k c e fresh now provider_id model surface h a, refl, refl, refl, refl)
Step-active k {r} c (cancelling run_id) e a = elim (cancelled k c e run_id) [
  | inl f ↦ (r, f, refl, refl, refl, refl)
  | inr (_, f) ↦ (request_cancel r, f, refl, refl, refl, refl)
]
Step-active k {r} c (finishing run_id state now metrics _) e a =
    elim (finished k c e run_id state now metrics) [
      | inl f ↦ (r, f, refl, refl, refl, refl)
      | inr (_, f) ↦ (close_run state now metrics r, f, refl, refl, refl, refl)
    ]

-- In a consistent registry a terminal run is final: a step leaves it in memory unchanged, or evicts
-- it.
pub Step-terminal :
    {reg reg' : Registry} (k : String) {r : Run}
    → IsConsistent reg
    → Step reg reg'
    → Dict.get reg.runs k ≡ some r
    → is_terminal r.state ≡ true
    → (Dict.get reg'.runs k ≡ some r) ⊎ (Dict.get reg'.runs k ≡ none)
Step-terminal k c (creating fresh now provider_id model surface h) e t =
    created_terminal k c e fresh now provider_id model surface h
Step-terminal k c (cancelling run_id) e t = elim (cancelled k c e run_id) [
  | inl f ↦ inl f
  | inr (a, _) ↦ cc
]
Step-terminal k c (finishing run_id state now metrics _) e t =
    elim (finished k c e run_id state now metrics) [ inl f ↦ inl f | inr (a, _) ↦ cc ]
