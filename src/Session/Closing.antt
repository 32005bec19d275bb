-- ===== src/Session/Closing.antt =====
-- app.py, `_generate_stream`: the run is finished, its metrics agree with the answer, and no answer is
-- empty in silence.
use Prim.Native.String.{◌++◌ as append}
use compute_connect.Prelude.{
  ℕ, ◌<◌, ℤ, ◌-ℤ◌, String, true, false, Option, none, some, List, [], ◌∷◌, length, length-append,
  is_nonempty, ◌==◌, ◌≡◌, refl, ap, ◌∙◌, inl, inr, arith, Bool-cases, eq_refl,
}
use compute_connect.Json.{Value}
use compute_connect.Dict
use compute_connect.Dict.{Dict, get-modify}
use compute_connect.Wire.{codes}
use compute_connect.Runs.Run.{Run, RunState, is_terminal}
use compute_connect.Runs.Registry.{Registry, finish, close_run}
use compute_connect.Runs.Invariant.{finish_cases}
use compute_connect.Bus.{publish}
use compute_connect.Control.{Api}
use compute_connect.Session.{
  Happening, Progress, no_progress, End, ended, gone, waiting, Outcome, read_all, replied,
  client_gone, count_item, placed_event, output_chars, emit_generation_placed,
}
use compute_connect.Upstream.{item, finished, cancelled, raised}
use compute_connect.Session.Generate.{
  Session, fallback_text, marker, needs_marker, persisted_chars, kept_metrics, close, reason_of,
  after_loop, stayed, generate_stream,
}
use compute_connect.Session.Reading.{
  all_codes, codes-joined, codes-append, deltas, IsCounted, read_from_start,
}
use compute_connect.Session.Body.{output_text}

-- the status with which the handler finishes the run, once its loop is over
abbrev pub final_status : End → Option RunState
final_status (ended status warning) = some status
final_status gone = some RunState.disconnected
final_status waiting = none

pub finish_active :
    (reg : Registry) (k : String) (run : Run) (status : RunState) (now : ℤ) (metrics : Dict Value)
    → Dict.get reg.runs k ≡ some run
    → is_terminal run.state ≡ false
    → Dict.get (finish reg k status now metrics).runs k ≡ some (close_run status now metrics run)
finish_active reg k run status now metrics found live =
    elim (finish_cases reg k status now metrics) [
      | inr (t, _) ↦ cc (t run found, live)
      | inl (r, at_k, _, e) ↦
          ap (λ (g : Registry). Dict.get g.runs k) e
          ∙ get-modify reg.runs k k (close_run status now metrics)
          ∙ rw (eq_refl k, found) refl
    ]

pub ended_terminal :
    (p : Progress) (hs : List Happening) (status : RunState) (warning : Option String)
    → (read_all p hs).ending ≡ ended status warning
    → is_terminal status ≡ true
unfolding read_all
ended_terminal p [] status warning e = cc
ended_terminal p (client_gone ∷ hs) status warning e = cc
ended_terminal p (replied (item s) ∷ hs) status warning e =
    ended_terminal (count_item p s) hs status warning e
ended_terminal p (replied finished ∷ hs) status warning e =
    let s : RunState.succeeded ≡ status = cc in rw (← s) refl
ended_terminal p (replied cancelled ∷ hs) status warning e =
    let s : RunState.cancelled ≡ status = cc in rw (← s) refl
ended_terminal p (replied (raised exc) ∷ hs) status warning e =
    let s : RunState.failed ≡ status = cc in rw (← s) refl

counted_output :
    (session : Session) (status : RunState) (p : Progress)
    → IsCounted p
    → persisted_chars status p.chars session.sink
      ≡ length (codes (output_text session status p.parts))
unfolding persisted_chars output_text
counted_output session status p h =
    elim (Bool-cases (needs_marker status (length (all_codes p.parts)) session.sink)) [
      | inl m ↦ rw (h.characters, m) refl
      | inr m ↦ rw (h.characters, m, codes-joined p.parts) refl
    ]

pub final_terminal :
    (hs : List Happening) (status : RunState)
    → final_status (read_all no_progress hs).ending ≡ some status
    → is_terminal status ≡ true
final_terminal hs status = go (read_all no_progress hs).ending refl
  where
    go :
        (e : End)
        → (read_all no_progress hs).ending ≡ e
        → final_status e ≡ some status
        → is_terminal status ≡ true
    go (ended s w) e f =
        let same : s ≡ status = cc in rw (← same) (ended_terminal no_progress hs s w e)
    go gone e f = let same : RunState.disconnected ≡ status = cc in rw (← same) refl
    go waiting e f = cc

-- the warning that goes with the status
abbrev pub final_warning : End → Option String
final_warning (ended status warning) = warning
final_warning _ = none

closed_api :
    (session : Session) (api : Api) (o : Outcome) (status : RunState)
    → final_status o.ending ≡ some status
    → (after_loop session api o).api ≡ close session api o.progress status (final_warning o.ending)
unfolding after_loop
closed_api session api o status = go o.ending refl
  where
    go :
        (e : End)
        → o.ending ≡ e
        → final_status e ≡ some status
        → (after_loop session api o).api ≡ close session api o.progress status (final_warning e)
    go (ended s w) e f = let same : s ≡ status = cc in rw (e, same) refl
    go gone e f = let same : RunState.disconnected ≡ status = cc in rw (e, ← same) refl
    go waiting e f = cc

abbrev pub duration_of : Session → ℤ
duration_of session = session.measured_at -ℤ session.started

abbrev pub read_chars : Session → RunState → List Happening → ℕ
read_chars session status hs = length (codes (output_text session status (deltas hs)))

-- Once the client has seen the first chunk, the run ends whatever happens: when the loop is over,
-- because the stream finished, failed or was cancelled or because the client went away, a run that was
-- active is terminal, with metrics that count the pieces and the characters of the output, and one
-- event of that outcome is published.
pub generate_stream-closes :
    (session : Session) (api : Api) (hs : List Happening) (status : RunState) (run : Run)
    → Dict.get api.runs.runs session.run.id ≡ some run
    → is_terminal run.state ≡ false
    → final_status (read_all no_progress hs).ending ≡ some status
    → (is_terminal status ≡ true)
      × (Dict.get (generate_stream session api (stayed hs)).api.runs.runs session.run.id
          ≡ some (
              close_run status session.finished_at
                (kept_metrics
                  (length (deltas hs))
                  (read_chars session status hs)
                  (duration_of session))
                run))
      × ((generate_stream session api (stayed hs)).api.registry.bus
          ≡ publish api.registry.bus true (
              placed_event session.stamp session.run.id session.placement session.privacy status
                (duration_of session)
                (reason_of status (final_warning (read_all no_progress hs).ending))
                (output_chars (read_chars session status hs))))
unfolding generate_stream close emit_generation_placed
generate_stream-closes session api hs status run found live f =
    let o = read_all no_progress hs in
    let (counted, parts) = read_from_start hs in
    let chars =
      counted_output session status o.progress counted
      ∙ ap (λ ps. length (codes (output_text session status ps))) parts in
    let closed = closed_api session api o status f in
    (
      final_terminal hs status f,
      ap (λ (a : Api). Dict.get a.runs.runs session.run.id) closed
          ∙ rw (chars, counted.pieces, parts)
              (finish_active api.runs session.run.id run status session.finished_at
                (kept_metrics (length (deltas hs)) (read_chars session status hs)
                  (duration_of session))
                found live),
      ap (λ (a : Api). a.registry.bus) closed ∙ rw (chars) refl,
    )

-- No answer is empty in silence: where a stream succeeds but the tokens ran out in the reasoning, the
-- output is not empty.
pub output_text-nonempty :
    (session : Session) (parts : List String)
    → is_nonempty session.sink.reasoning ≡ true
    → session.sink.finish_reason ≡ some "length"
    → 0 < length (codes (output_text session RunState.succeeded parts))
unfolding output_text needs_marker fallback_text
output_text-nonempty session parts r f = elim (Bool-cases (length (all_codes parts) == 0)) [
  | inl z ↦
      rw (z, r, f)
        (omega (
          arith,
          ap length (codes-append marker (append "\n\n" session.sink.reasoning)),
          length-append (codes marker) (codes (append "\n\n" session.sink.reasoning)),
        ))
  | inr z ↦ rw (z) (ground (arith, ap length (codes-joined parts)))
]
