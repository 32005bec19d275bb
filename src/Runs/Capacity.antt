-- ===== src/Runs/Capacity.antt =====
-- runs.py, `active_count` and `_trim`: capacity accounting and the bounded history.
use compute_connect.Prelude.{
  ◌+◌, ◌≤◌, ℤ, pos_part, String, Bool, true, false, ◌&&◌, ◌≡◌, ap, ◌∙◌, Option, none, some, ◌⊎◌,
  inl, inr, str_eq, arith, Bool-cases, Option-cases, length,
}
use compute_connect.Json.{Value}
use compute_connect.Dict
use compute_connect.Dict.{
  Dict, one_if, count_values, count_values-put, count_values-modify, put-HasDistinctKeys,
}
use compute_connect.Runs.Run.{Run, RunState, Surface, is_terminal, is_active, new_run}
use compute_connect.Runs.Registry.{
  Registry, create, cancel, finish, request_cancel, close_run, load_from, active_count,
  finished_ids,
}
use compute_connect.Runs.Trim.{trim-drop_first, excess, count_values-drop_first, trim-le_limit}
use compute_connect.Runs.Invariant.{IsConsistent, finish_cases}

abbrev uses : String → Run → Bool
uses provider_id r = str_eq r.provider_id provider_id && is_active r

terminal_unused : (p : String) (r : Run) → is_terminal r.state ≡ true → uses p r ≡ false
terminal_unused p r h = ground arith

-- A new run with an unused id takes one place at its provider, and none at another, whatever the trim
-- of a consistent registry evicts.
pub active_count-create :
    (reg : Registry) (fresh : String) (now : ℤ) (provider_id : String) (model : Option String)
    (surface : Surface) (p : String)
    → IsConsistent reg
    → Dict.get reg.runs fresh ≡ none
    → active_count (create reg fresh now provider_id model surface).0 p
      ≡ active_count reg p + one_if (str_eq provider_id p)
unfolding create active_count
active_count-create reg fresh now provider_id model surface p c h =
    let run = new_run fresh provider_id model surface now in
    let d = Dict.put reg.runs fresh run in
    let distinct = put-HasDistinctKeys reg.runs fresh run c.distinct in
    ap (count_values (uses p)) (trim-drop_first reg.history_limit d distinct)
    ∙ count_values-drop_first (uses p) (terminal_unused p) (excess reg.history_limit d) d
    ∙ count_values-put (uses p) reg.runs fresh run h
    ∙ ground arith

-- Finishing an active run with a terminal state gives its place back, and finishing any other changes
-- no count.
pub active_count-finish :
    (reg : Registry) (run_id : String) (state : RunState) (now : ℤ) (metrics : Dict Value)
    (p : String)
    → is_terminal state ≡ true
    → ((run : Run) × (Dict.get reg.runs run_id ≡ some run)
        × (is_terminal run.state ≡ false)
        × (active_count (finish reg run_id state now metrics) p + one_if (str_eq run.provider_id p)
            ≡ active_count reg p))
      ⊎ (((run : Run) → Dict.get reg.runs run_id ≡ some run → is_terminal run.state ≡ true)
          × (active_count (finish reg run_id state now metrics) p ≡ active_count reg p))
unfolding active_count
active_count-finish reg run_id state now metrics p t =
    elim (finish_cases reg run_id state now metrics) [
      | inr (h, e) ↦ inr (h, ap (λ r. active_count r p) e)
      | inl (run, found, live, e) ↦ inl (
        run,
        found,
        live,
        rw e (
            ground (
              arith,
              count_values-modify (uses p) reg.runs run_id (close_run state now metrics) run found,
            )),
      )
    ]

-- Requesting a cancellation changes no count: the run keeps its place until it finishes.
pub active_count-cancel :
    (reg : Registry) (run_id p : String) → active_count (cancel reg run_id).0 p ≡ active_count reg p
unfolding active_count cancel
active_count-cancel reg run_id p = elim (Option-cases (Dict.get reg.runs run_id)) [
  | inl e ↦ elim (Option-cases (load_from reg.journal run_id)) [
    | inl n ↦ rw (e, cancel, n)
    | inr (r, n) ↦ rw (e, cancel, n)
  ]
  | inr (run, e) ↦ elim (Bool-cases (is_terminal run.state)) [
    | inl t ↦ rw (e, cancel, t)
    | inr t ↦
        rw (e, cancel, t)
          (ground (arith, count_values-modify (uses p) reg.runs run_id request_cancel run e))
  ]
]

-- Right after a run is created in a consistent registry, at most `history_limit` finished runs are
-- kept in memory, and none where the limit is negative.
pub history-create :
    (reg : Registry) (fresh : String) (now : ℤ) (provider_id : String) (model : Option String)
    (surface : Surface)
    → IsConsistent reg
    → length (finished_ids (create reg fresh now provider_id model surface).0.runs)
      ≤ pos_part reg.history_limit
unfolding create
history-create reg fresh now provider_id model surface c =
    trim-le_limit reg.history_limit
      (Dict.put reg.runs fresh (new_run fresh provider_id model surface now))
      (put-HasDistinctKeys reg.runs fresh (new_run fresh provider_id model surface now) c.distinct)
