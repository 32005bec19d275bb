-- ===== src/Session/Incremental.antt =====
-- app.py, `_generate_stream`: what the client holds before the document is complete.
use mathlib.Core.List.{append-nil}
use compute_connect.Prelude.{String, Option, some, List, [], ◌++◌, ◌≡◌, ◌≢◌, refl, ap, ◌∙◌}
use compute_connect.Wire.{Codes}
use compute_connect.Wire.Escape.{plain, unescape}
use compute_connect.Wire.RoundTrip.{AllScalar, unescape-escape}
use compute_connect.Runs.Run.{RunState}
use compute_connect.Control.{Api}
use compute_connect.Session.{Happening, no_progress, ended, gone, waiting, read_all, Progress, End}
use compute_connect.Session.Generate.{
  Session, opening, delta_chunks, finale, after_loop, stayed, generate_stream,
}
use compute_connect.Session.Reading.{all_codes, delta_chunks-escape, deltas, read_from_start}

-- The body is the opening chunk, the chunks of the pieces that were read, from which a reader of JSON
-- gets exactly these pieces, and the rest, which is empty until the stream has ended.
pub record IsIncremental (session : Session) (hs : List Happening) (body : Codes) : Type 0 where
  pub sent : Codes
  pub rest : Codes
  pub framed : body ≡ opening session ++ (sent ++ rest)
  pub readable : unescape plain sent ≡ some (all_codes (deltas hs))
  pub open_ended :
      ((status : RunState) (warning : Option String)
        → (read_all no_progress hs).ending ≢ ended status warning)
      → rest ≡ []

readable_chunks :
    (ss : List String)
    → AllScalar (all_codes ss)
    → unescape plain (delta_chunks ss) ≡ some (all_codes ss)
readable_chunks ss h =
    ap (unescape plain) (delta_chunks-escape ss) ∙ unescape-escape (all_codes ss) h

IsIncremental-of :
    (session : Session) (api : Api) (hs : List Happening) (p : Progress) (x : End)
    → (read_all no_progress hs).ending ≡ x
    → p.parts ≡ deltas hs
    → AllScalar (all_codes (deltas hs))
    → IsIncremental session hs (after_loop session api (record { progress = p; ending = x })).body
unfolding after_loop
IsIncremental-of session api hs p (ended status warning) e same h = record {
  sent = delta_chunks p.parts;
  rest = finale session p status warning;
  framed = refl;
  readable = rw same (readable_chunks (deltas hs) h);
  open_ended = λ n. absurd (n status warning e);
}
IsIncremental-of session api hs p gone e same h = record {
  sent = delta_chunks p.parts;
  rest = [];
  framed = rw (append-nil (delta_chunks p.parts)) refl;
  readable = rw same (readable_chunks (deltas hs) h);
  open_ended = λ n. refl;
}
IsIncremental-of session api hs p waiting e same h = record {
  sent = delta_chunks p.parts;
  rest = [];
  framed = rw (append-nil (delta_chunks p.parts)) refl;
  readable = rw same (readable_chunks (deltas hs) h);
  open_ended = λ n. refl;
}

-- At every moment of a stream, also where the client goes away or the next piece has not come, the
-- client holds the opening chunk and chunks from which an independent reader of JSON texts gets exactly
-- the pieces that were read so far, and nothing else before the stream has ended. This is for pieces
-- without a half of a surrogate pair.
pub generate_stream-IsIncremental :
    (session : Session) (api : Api) (hs : List Happening)
    → AllScalar (all_codes (deltas hs))
    → IsIncremental session hs (generate_stream session api (stayed hs)).body
unfolding generate_stream
generate_stream-IsIncremental session api hs h =
    let o = read_all no_progress hs in
    IsIncremental-of session api hs o.progress o.ending refl (read_from_start hs).1 h
