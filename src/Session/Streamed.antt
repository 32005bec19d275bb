-- ===== src/Session/Streamed.antt =====
-- app.py and engines.py: from the lines of an engine's response, through the queue, to the document that
-- the client of `generate` gets.
use compute_connect.Prelude.{
  ℕ, String, Option, true, false, none, some, List, [], ◌∷◌, map, length, ◌≡◌, refl, ap, ◌∙◌, inl,
  inr,
}
use compute_connect.Json.{Value, str, Fields, end}
use compute_connect.Wire.{dumps}
use compute_connect.Engine.Stream.{Received, streaming, Tools, Sinks, Heard, Told, stream_chat}
use compute_connect.Engine.Conforming.{
  Report, Conforms, contents, all_choices, all_reasoning, last_finish, or_null,
}
use compute_connect.Engine.Listening.{stream_chat-Conforms}
use compute_connect.Upstream.{
  Message, exhausted, feed, Upstream, start, Step, Run, next_of, Next, item, finished, cancelled,
  raised,
}
use compute_connect.Upstream.Progress.{Run-progress}
use compute_connect.Runs.Run.{RunState}
use compute_connect.Control.{Api}
use compute_connect.Session.{
  Happening, replied, Progress, no_progress, count_item, ended, read_all, Sink,
}
use compute_connect.Session.Generate.{Session, stayed, generate_stream}
use compute_connect.Session.Reading.{deltas}
use compute_connect.Session.Body.{document, output_text, notes_of, generate_stream-document}

-- `generate` passes a sink for the reasoning, and none for the usage
abbrev pub generate_sinks : Sinks
generate_sinks = record { usage = false; reasoning = true }

-- what the handler reads in the sink of a stream; a finish reason that is no text compares equal to none
-- of its texts
abbrev pub sink_of : Heard → Sink
sink_of h = record {
  reasoning = h.reasoning;
  finish_reason = elim h.finish_reason [ str s ↦ some s | v ↦ none ];
}

-- what `next` returns, where a piece is a text
abbrev pub as_text : Next Value → Option (Next String)
as_text (item (str s)) = some (item s)
as_text (item v) = none
as_text finished = some finished
as_text cancelled = some cancelled
as_text (raised exc) = some (raised exc)

abbrev pub prepend : Option (Next String) → Option (List Happening) → Option (List Happening)
prepend (some n) (some hs) = some (replied n ∷ hs)
prepend _ _ = none

-- What the handler meets where the client stays and no cancellation is requested: what `next` makes of
-- the messages that it has got. There is none where a piece is no text.
abbrev pub happenings_of : List Message → Option (List Happening)
happenings_of [] = some []
happenings_of (m ∷ ms) = prepend (as_text (next_of (some m))) (happenings_of ms)

-- the happenings of pieces that are texts, up to the end of their stream
abbrev pub reading : List String → List Happening
reading [] = replied finished ∷ []
reading (s ∷ ss) = replied (item s) ∷ reading ss

happenings_of-feed :
    (ss : List String) → happenings_of (feed (map str ss) exhausted) ≡ some (reading ss)
unfolding feed next_of
happenings_of-feed [] = refl
happenings_of-feed (s ∷ ss) = rw (happenings_of-feed ss) refl

deltas-reading : (ss : List String) → deltas (reading ss) ≡ ss
deltas-reading [] = refl
deltas-reading (s ∷ ss) = ap (λ r. s ∷ r) (deltas-reading ss)

ending-reading :
    (p : Progress) (ss : List String)
    → (read_all p (reading ss)).ending ≡ ended RunState.succeeded none
unfolding read_all
ending-reading p [] = refl
ending-reading p (s ∷ ss) = ending-reading (count_item p s) ss

sink_of-conforming :
    (pieces : List Value) (r : String) (f : Option String) (us : Fields)
    → sink_of (record { pieces = pieces; reasoning = r; finish_reason = or_null f; usage = us })
      ≡ record { reasoning = r; finish_reason = f }
sink_of-conforming pieces r none us = refl
sink_of-conforming pieces r (some s) us = refl

-- the session of a stream: its sink is what the engine has put there
abbrev pub session_of : Session → Told → Session
session_of session told = record session { sink = sink_of told.heard }

-- what the client gets of a conforming stream
abbrev pub DocumentOf : Session → List Report → List Happening → Api → Type 0
DocumentOf session reports hs api =
    let pieces = contents (all_choices reports) in
    (generate_stream session api (stayed hs)).body
    ≡ dumps session.texts (
        document session (length pieces) RunState.succeeded
          (notes_of session RunState.succeeded none pieces)
          (output_text session RunState.succeeded pieces))

DocumentOf-reading :
    (session : Session) (api : Api) (reports : List Report)
    → DocumentOf session reports (reading (contents (all_choices reports))) api
DocumentOf-reading session api reports =
    let pieces = contents (all_choices reports) in
    generate_stream-document session api (reading pieces) RunState.succeeded none
      (ending-reading no_progress pieces)
    ∙ rw (deltas-reading pieces) refl

-- From the engine to the client: where the server conforms and its stream comes to its end, what the pump
-- takes from the engine is put through the queue; once the pump and the handler can take no step more, in
-- whatever order they took them, all that the handler has got are texts, the sink holds the reasoning
-- and the last finish reason of the server, and the client that stayed has got the document whose
-- output, reasoning and warnings are those of the contents and the reasoning that the server sent.
pub generate_stream-Conforms :
    (tools : Tools) (rs : List Received) (reports : List Report) (session : Session) (api : Api)
    {n : ℕ} {t : Upstream}
    → Conforms tools rs reports exhausted
    → Run
        (start (
          feed
            (stream_chat tools generate_sinks (streaming rs)).heard.pieces
            (stream_chat tools generate_sinks (streaming rs)).ending))
        n
        t
    → ((u : Upstream) → ¬ Step t u)
    → (hs : List Happening) × (happenings_of t.delivered ≡ some hs)
      × (sink_of (stream_chat tools generate_sinks (streaming rs)).heard ≡ record {
        reasoning = all_reasoning (all_choices reports);
        finish_reason = last_finish none (all_choices reports);
      })
      × DocumentOf
          (session_of session (stream_chat tools generate_sinks (streaming rs)))
          reports
          hs
          api
generate_stream-Conforms tools rs reports session api {n} {t} c r stuck =
    let told = stream_chat tools generate_sinks (streaming rs) in
    let said = stream_chat-Conforms tools generate_sinks rs reports exhausted c in
    let pieces = contents (all_choices reports) in
    let got : t.delivered ≡ feed told.heard.pieces told.ending = elim ((Run-progress r).1) [
      | inl (u, st) ↦ absurd (stuck u st)
      | inr e ↦ e
    ] in
    let fed : feed told.heard.pieces told.ending ≡ feed (map str pieces) exhausted =
      ap (λ (x : Told). feed x.heard.pieces x.ending) said in
    (
      reading pieces,
      ap happenings_of (got ∙ fed) ∙ happenings_of-feed pieces,
      ap (λ (x : Told). sink_of x.heard) said ∙ sink_of-conforming (map str pieces) _ _ end,
      DocumentOf-reading (session_of session told) api reports,
    )
