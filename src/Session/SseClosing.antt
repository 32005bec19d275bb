-- ===== src/Session/SseClosing.antt =====
-- app.py, `_openai_sse`: the run is finished however the stream ends.
use compute_connect.Prelude.{
  pos, true, false, none, some, List, [], ◌∷◌, length, ◌≡◌, refl, ap, ◌∙◌,
}
use compute_connect.Json.{int}
use compute_connect.Dict
use compute_connect.Dict.{Dict}
use compute_connect.Runs.Run.{Run, RunState, is_terminal}
use compute_connect.Runs.Registry.{close_run}
use compute_connect.Bus.{publish}
use compute_connect.Control.{Api}
use compute_connect.Session.{
  Happening, no_progress, End, ended, gone, waiting, Outcome, read_all, placed_event,
  emit_generation_placed,
}
use compute_connect.Session.Generate.{stayed}
use compute_connect.Session.Reading.{deltas, read_from_start}
use compute_connect.Session.Closing.{final_status, finish_active, final_terminal}
use compute_connect.Session.Sse.{
  SseSession, usage_counts, elapsed, close_sse, after_sse_loop, openai_sse,
}

closed_sse :
    (session : SseSession) (api : Api) (o : Outcome) (status : RunState)
    → final_status o.ending ≡ some status
    → (after_sse_loop session api o).api ≡ close_sse session api o.progress status
unfolding after_sse_loop
closed_sse session api o status = go o.ending refl
  where
    go :
        (e : End)
        → o.ending ≡ e
        → final_status e ≡ some status
        → (after_sse_loop session api o).api ≡ close_sse session api o.progress status
    go (ended s w) e f = let same : s ≡ status = cc in rw (e, same) refl
    go gone e f = let same : RunState.disconnected ≡ status = cc in rw (e, ← same) refl
    go waiting e f = cc

-- Once the client has seen the first event of a streamed completion, the run ends whatever happens:
-- when the loop is over, a run that was active is terminal, with the number of pieces that were sent,
-- and one event of that outcome is published.
pub openai_sse-closes :
    (session : SseSession) (api : Api) (hs : List Happening) (status : RunState) (run : Run)
    → Dict.get api.runs.runs session.run.id ≡ some run
    → is_terminal run.state ≡ false
    → final_status (read_all no_progress hs).ending ≡ some status
    → (is_terminal status ≡ true)
      × (Dict.get (openai_sse session api (stayed hs)).api.runs.runs session.run.id
          ≡ some (
              close_run status session.finished_at
                (("chunks", int (pos (length (deltas hs)))) ∷ [])
                run))
      × ((openai_sse session api (stayed hs)).api.registry.bus
          ≡ publish api.registry.bus true (
              placed_event session.stamp session.run.id session.placement session.privacy status
                (elapsed session)
                none
                (usage_counts session.real_usage)))
unfolding openai_sse close_sse emit_generation_placed
openai_sse-closes session api hs status run found live f =
    let o = read_all no_progress hs in
    let (counted, parts) = read_from_start hs in
    let closed = closed_sse session api o status f in
    (
      final_terminal hs status f,
      ap (λ (a : Api). Dict.get a.runs.runs session.run.id) closed
          ∙ rw (counted.pieces, parts)
              (finish_active api.runs session.run.id run status session.finished_at
                (("chunks", int (pos (length (deltas hs)))) ∷ []) found live),
      ap (λ (a : Api). a.registry.bus) closed ∙ refl,
    )
