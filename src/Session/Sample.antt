-- ===== src/Session/Sample.antt =====
-- A session of the run of Control/Sample.antt whose tokens run out in the reasoning: the data of the
-- tests.
use compute_connect.Prelude.{pos, some, [], ◌∷◌, List}
use compute_connect.Json.{null, end}
use compute_connect.Privacy.{resolve_privacy_tier}
use compute_connect.Json.{str}
use compute_connect.Upstream.{item, finished}
use compute_connect.Control.Sample.{placement, run}
use compute_connect.Session.{Happening, replied, client_gone, Sink, Stamp}
use compute_connect.Session.Generate.{Session}
use compute_connect.Session.Sse.{SseSession}

abbrev pub sink : Sink
sink = record { reasoning = "thinking"; finish_reason = some "length" }

abbrev pub stamp : Stamp
stamp = record { event_id = "cc_2"; ts = pos 400 }

abbrev pub session : Session
session = record {
  run = run;
  placement = placement;
  privacy = resolve_privacy_tier (str "public");
  rationale = null;
  sink = sink;
  started = pos 300;
  measured_at = pos 390;
  finished_at = pos 391;
  answered_at = pos 392;
  stamp = stamp;
  texts = record { int_text = λ n. []; float_text = λ f. [] };
}

abbrev pub sse_session : SseSession
sse_session = record {
  run = run;
  placement = placement;
  privacy = resolve_privacy_tier (str "public");
  real_usage = end;
  created = pos 0;
  finished_at = pos 391;
  emitted_at = pos 392;
  stamp = stamp;
  texts = record { int_text = λ n. []; float_text = λ f. [] };
}

-- two pieces and the end; a piece, and the client goes away
abbrev pub two_pieces : List Happening
two_pieces = replied (item "He") ∷ replied (item "llo") ∷ replied finished ∷ []

abbrev pub piece_and_gone : List Happening
piece_and_gone = replied (item "He") ∷ client_gone ∷ []
