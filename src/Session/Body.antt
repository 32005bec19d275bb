-- ===== src/Session/Body.antt =====
-- app.py, `_generate_stream`: the chunks make up one JSON document.
use mathlib.Core.List.{append_assoc}
use compute_connect.Prelude.{
  ℕ, String, true, Option, List, [], ◌∷◌, ◌++◌, length, if◌then◌else◌, ◌≡◌, refl, ap, ◌∙◌, inl, inr,
  arith, Bool-cases,
}
use compute_connect.Json.{Value, str, arr, obj, end, field}
use compute_connect.Wire.{Codes, codes, escape, quoted, dumps}
use compute_connect.Engine
use compute_connect.Runs.Run.{RunState}
use compute_connect.Control.{Api}
use compute_connect.Session.{Happening, Progress, no_progress, ended, read_all, Sink, state_text}
use compute_connect.Session.Generate.{
  Session, fallback_text, needs_marker, opening, closing, delta_chunks, text_items, warnings,
  final_metrics, finale, after_loop, stayed, generate_stream,
}
use compute_connect.Session.Reading.{
  joined, all_codes, codes-joined, delta_chunks-escape, deltas, IsCounted, read_from_start,
}

-- The document that the handler means to send.
unfoldable pub document : Session → ℕ → RunState → List String → String → Value
document session chunks status notes output = obj (
    field "run_id" (str session.run.id) (
      field "model" (str session.placement.model.id) (
        field "runtime" (str (Engine.name session.placement.provider.spec.engine)) (
          field "output" (str output) (
            field "status" (str (state_text status)) (
              field "metrics" (final_metrics session chunks (length (codes output))) (
                field "warnings" (arr (text_items notes))
                  (field "reasoning_content" (str session.sink.reasoning) end))))))))

-- the chunks around the output are the document's text around it
framed :
    (session : Session) (chunks : ℕ) (status : RunState) (notes : List String) (output : String)
    → opening session
        ++ (escape (codes output) ++ closing session chunks (length (codes output)) status notes)
      ≡ dumps session.texts (document session chunks status notes output)
unfolding opening closing document dumps quoted escape
framed session chunks status notes output = simp append_assoc

-- what the `output` of the document holds: the pieces, or the marker and the reasoning
unfoldable pub output_text : Session → RunState → List String → String
output_text session status parts =
    if needs_marker status (length (all_codes parts)) session.sink
    then fallback_text session.sink
    else joined parts

abbrev pub notes_of : Session → RunState → Option String → List String → List String
notes_of session status warning parts =
    warnings (needs_marker status (length (all_codes parts)) session.sink) warning

no_codes : (s : Codes) → length s ≡ 0 → s ≡ []
no_codes [] e = refl
no_codes (c ∷ s) e = absurd (omega (arith, e))

marker_on_nothing :
    (status : RunState) (n : ℕ) (sink : Sink) → needs_marker status n sink ≡ true → n ≡ 0
unfolding needs_marker
marker_on_nothing status n sink h = ground arith

escape-nil : escape [] ≡ []
unfolding escape
escape-nil = refl

-- what follows the opening chunk
rest_of :
    (session : Session) (p : Progress) (status : RunState) (warning : Option String)
    → IsCounted p
    → delta_chunks p.parts ++ finale session p status warning
      ≡ escape (codes (output_text session status p.parts))
        ++ closing session p.chunks
            (length (codes (output_text session status p.parts)))
            status
            (notes_of session status warning p.parts)
unfolding finale output_text
rest_of session p status warning h =
    elim (Bool-cases (needs_marker status (length (all_codes p.parts)) session.sink)) [
      | inl m ↦
          let nothing =
            no_codes (all_codes p.parts)
              (marker_on_nothing status (length (all_codes p.parts)) session.sink m) in
          rw (h.characters, m)
            (ap
              (λ (r : Codes).
                r
                ++ (escape (codes (fallback_text session.sink))
                    ++ closing session p.chunks (length (codes (fallback_text session.sink))) status
                        (warnings true warning)))
              (delta_chunks-escape p.parts ∙ ap escape nothing ∙ escape-nil))
      | inr m ↦ rw (h.characters, m, codes-joined p.parts, delta_chunks-escape p.parts) refl
    ]

-- Where the client stays to the end of the stream, the chunks that it is sent make up, one after the
-- other, what `json.dumps` writes of one document: its output is the text of the pieces that the
-- engine sent, or the marker and the reasoning, and its metrics count the characters of that output.
pub generate_stream-document :
    (session : Session) (api : Api) (hs : List Happening) (status : RunState)
    (warning : Option String)
    → (read_all no_progress hs).ending ≡ ended status warning
    → (generate_stream session api (stayed hs)).body
      ≡ dumps session.texts (
          document session
            (length (deltas hs))
            status
            (notes_of session status warning (deltas hs))
            (output_text session status (deltas hs)))
unfolding generate_stream after_loop
generate_stream-document session api hs status warning e =
    let p = (read_all no_progress hs).progress in
    let (counted, parts) = read_from_start hs in
    rw e (
      ap (λ r. opening session ++ r) (rest_of session p status warning counted)
      ∙ rw (counted.pieces, parts)
          (framed session (length (deltas hs)) status (notes_of session status warning (deltas hs))
            (output_text session status (deltas hs))))
