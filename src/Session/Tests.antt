-- ===== src/Session/Tests.antt =====
-- Tests of a generating session on two streams, and the theorems at them.
use compute_connect.Prelude.{
  inl, arith, ap, subst, sym, List, pos, true, some, none, [], ◌∷◌, length, ◌≡◌, refl,
}
use compute_connect.Json.{str, int}
use compute_connect.Dict
use compute_connect.Wire.{dumps}
use compute_connect.Runs.Run.{RunState, is_terminal}
use compute_connect.Runs.Registry.{close_run}
use compute_connect.Bus.{publish}
use compute_connect.Control.Sample.{run, after, run_found}
use compute_connect.Session.{Happening, no_progress, ended, read_all, placed_event, output_chars}
use compute_connect.Session.Generate.{
  kept_metrics, reason_of, needs_marker, fallback_text, stayed, generate_stream,
}
use compute_connect.Session.Reading.{all_codes, deltas, joined}
use compute_connect.Session.Body.{document, output_text, notes_of, generate_stream-document}
use compute_connect.Session.Closing.{
  final_status, final_warning, duration_of, read_chars, generate_stream-closes,
}
use compute_connect.Session.Sse.{usage_counts, elapsed, openai_sse}
use compute_connect.Session.SseClosing.{openai_sse-closes}
use compute_connect.Engine.Stream.{streaming, stream_chat, Told}
use compute_connect.Engine.Conforming.{all_choices, all_reasoning, last_finish}
use compute_connect.Engine.Listening.{stream_chat-Conforms}
use compute_connect.Engine.Sample.{tools, lines, reports, lines-Conforms}
use compute_connect.Upstream.{
  Message, done, exhausted, feed, Upstream, start, Step, pull, put, get, Run, here, next,
}
use compute_connect.Session.Incremental.{IsIncremental, generate_stream-IsIncremental}
use compute_connect.Wire.RoundTrip.{AllScalar}
use compute_connect.Session.Streamed.{
  generate_sinks, sink_of, session_of, happenings_of, DocumentOf, generate_stream-Conforms,
}
use compute_connect.Session.Sample.{session, sse_session, two_pieces, piece_and_gone}

ends_well : (read_all no_progress two_pieces).ending ≡ ended RunState.succeeded none
unfolding read_all
ends_well = refl

is_left : final_status (read_all no_progress piece_and_gone).ending ≡ some RunState.disconnected
unfolding read_all
is_left = refl

joins_pieces : output_text session RunState.succeeded (deltas two_pieces) ≡ "Hello"
unfolding output_text needs_marker fallback_text joined
joins_pieces = refl

generate_stream-document_example :
    (generate_stream session after (stayed two_pieces)).body
    ≡ dumps session.texts (
        document session
          (length (deltas two_pieces))
          RunState.succeeded
          (notes_of session RunState.succeeded none (deltas two_pieces))
          (output_text session RunState.succeeded (deltas two_pieces)))
generate_stream-document_example =
    generate_stream-document session after two_pieces RunState.succeeded none ends_well

generate_stream-closes_example :
    (is_terminal RunState.disconnected ≡ true)
    × (Dict.get (generate_stream session after (stayed piece_and_gone)).api.runs.runs session.run.id
        ≡ some (
            close_run RunState.disconnected session.finished_at
              (kept_metrics
                (length (deltas piece_and_gone))
                (read_chars session RunState.disconnected piece_and_gone)
                (duration_of session))
              run))
    × ((generate_stream session after (stayed piece_and_gone)).api.registry.bus
        ≡ publish after.registry.bus true (
            placed_event session.stamp session.run.id session.placement session.privacy
              RunState.disconnected
              (duration_of session)
              (reason_of RunState.disconnected
                (final_warning (read_all no_progress piece_and_gone).ending))
              (output_chars (read_chars session RunState.disconnected piece_and_gone))))
generate_stream-closes_example =
    generate_stream-closes session after piece_and_gone RunState.disconnected run run_found refl
      is_left

openai_sse-closes_example :
    (is_terminal RunState.disconnected ≡ true)
    × (Dict.get
          (openai_sse sse_session after (stayed piece_and_gone)).api.runs.runs
          sse_session.run.id
        ≡ some (
            close_run RunState.disconnected sse_session.finished_at
              (("chunks", int (pos (length (deltas piece_and_gone)))) ∷ [])
              run))
    × ((openai_sse sse_session after (stayed piece_and_gone)).api.registry.bus
        ≡ publish after.registry.bus true (
            placed_event sse_session.stamp sse_session.run.id sse_session.placement
              sse_session.privacy RunState.disconnected
              (elapsed sse_session)
              none
              (usage_counts sse_session.real_usage)))
openai_sse-closes_example =
    openai_sse-closes sse_session after piece_and_gone RunState.disconnected run run_found refl
      is_left

abbrev delivered_all : Upstream
delivered_all = record {
  source = [];
  held = none;
  queue = [];
  delivered = Message.delta (str "Hi") ∷ done ∷ [];
}

one_piece :
    start (
      feed
        (stream_chat tools generate_sinks (streaming lines)).heard.pieces
        (stream_chat tools generate_sinks (streaming lines)).ending)
    ≡ start (Message.delta (str "Hi") ∷ done ∷ [])
unfolding feed
one_piece =
    ap (λ (x : Told). start (feed x.heard.pieces x.ending))
      (stream_chat-Conforms tools generate_sinks lines reports exhausted lines-Conforms)

six_steps : Run (start (Message.delta (str "Hi") ∷ done ∷ [])) 6 delivered_all
six_steps =
    next
      (next
        (next
          (next
            (next (next here (pull (Message.delta (str "Hi")) (done ∷ []) refl refl refl))
              (put (Message.delta (str "Hi")) refl refl refl))
            (get (Message.delta (str "Hi")) [] refl refl))
          (pull done [] refl refl refl))
        (put done refl refl refl))
      (get done [] refl refl)

no_step : (u : Upstream) → ¬ Step delivered_all u
no_step u (pull m rest e _ _) = cc
no_step u (put m e _ _) = cc
no_step u (get m rest e _) = cc

generate_stream-Conforms_example :
    (hs : List Happening) × (happenings_of delivered_all.delivered ≡ some hs)
    × (sink_of (stream_chat tools generate_sinks (streaming lines)).heard ≡ record {
      reasoning = all_reasoning (all_choices reports);
      finish_reason = last_finish none (all_choices reports);
    })
    × DocumentOf
        (session_of session (stream_chat tools generate_sinks (streaming lines)))
        reports
        hs
        after
generate_stream-Conforms_example =
    generate_stream-Conforms tools lines reports session after lines-Conforms
      (subst (λ s. Run s 6 delivered_all) (sym one_piece) six_steps) no_step

scalar_piece : AllScalar (all_codes (deltas piece_and_gone))
scalar_piece = (inl (omega arith), (inl (omega arith), tt))

generate_stream-IsIncremental_example :
    IsIncremental session piece_and_gone
      (generate_stream session after (stayed piece_and_gone)).body
generate_stream-IsIncremental_example =
    generate_stream-IsIncremental session after piece_and_gone scalar_piece
