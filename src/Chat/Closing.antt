-- ===== src/Chat/Closing.antt =====
-- app.py, `v1_chat_completions` without `stream`: how its run ends.
use compute_connect.Prelude.{
  String, true, false, Option, none, some, List, [], ◌∷◌, ◌++◌, length, ◌≡◌, refl, ap, ◌∙◌, inl,
  inr, Bool-cases, is_nonempty,
}
use compute_connect.Json.{Value, str, Result, ok, err}
use compute_connect.Dict
use compute_connect.Dict.{Dict}
use compute_connect.Upstream.{Next}
use compute_connect.Runs.Run.{Run, RunState, is_terminal}
use compute_connect.Runs.Registry.{Registry, close_run}
use compute_connect.Control.{Api}
use compute_connect.Session.{
  Happening, replied, client_gone, Progress, no_progress, count_item, read_all,
  emit_generation_placed, Sink,
}
use compute_connect.Session.Reading.{joined}
use compute_connect.Session.Generate.{is_length}
use compute_connect.Session.Closing.{finish_active, final_status, final_terminal}
use compute_connect.Chat.Complete.{
  Completion, Usage, usage_of, ChatEnd, all_read, broke, left, unfinished, read_parts, finish_chat,
  fail_chat, answer_chat, chat_metrics, conclude_reading, complete_chat, is_truncated, content_of,
  reason_for,
}

-- the state and the metrics with which the handler finishes its run
abbrev pub chat_close : ChatEnd → Option (RunState × Dict Value)
chat_close (all_read status parts) = some (status, chat_metrics (length parts))
chat_close (broke exc) = some (RunState.failed, ("error", str exc) ∷ [])
chat_close left = none
chat_close unfinished = none

pub same_status :
    (ps : List String) (p : Progress) (hs : List Happening) (status : RunState)
    (metrics : Dict Value)
    → chat_close (read_parts ps hs) ≡ some (status, metrics)
    → final_status (read_all p hs).ending ≡ some status
unfolding read_parts read_all
same_status ps p [] status metrics e = cc
same_status ps p (client_gone ∷ hs) status metrics e = cc
same_status ps p (replied (Next.item s) ∷ hs) status metrics e =
    same_status (ps ++ s ∷ []) (count_item p s) hs status metrics e
same_status ps p (replied Next.finished ∷ hs) status metrics e = cc
same_status ps p (replied Next.cancelled ∷ hs) status metrics e = cc
same_status ps p (replied (Next.raised exc) ∷ hs) status metrics e = cc

runs-answer_chat :
    (c : Completion) (api : Api) (status : RunState) (reply : String) (u : Result Usage)
    → (answer_chat c api status reply u).0.runs ≡ api.runs
unfolding answer_chat emit_generation_placed
runs-answer_chat c api status reply (ok u) = refl
runs-answer_chat c api status reply (err e) = refl

module _ (c : Completion) (api : Api) (run : Run) where
  finish_chat-closes :
      {s status : RunState} {m metrics : Dict Value}
      → Dict.get api.runs.runs c.run.id ≡ some run
      → is_terminal run.state ≡ false
      → ◌≡◌ {A = Option (RunState × Dict Value)} (some (s, m)) (some (status, metrics))
      → Dict.get (finish_chat c api s m).runs.runs c.run.id
        ≡ some (close_run status c.finished_at metrics run)
  unfolding finish_chat
  finish_chat-closes {s} {status} {m} {metrics} found live e =
      let one : s ≡ status = cc in
      let two : m ≡ metrics = cc in
      rw (one, two) (finish_active api.runs c.run.id run status c.finished_at metrics found live)

  closed_by :
      (e : ChatEnd) {status : RunState} {metrics : Dict Value}
      → Dict.get api.runs.runs c.run.id ≡ some run
      → is_terminal run.state ≡ false
      → chat_close e ≡ some (status, metrics)
      → Dict.get (conclude_reading c api e).0.runs.runs c.run.id
        ≡ some (close_run status c.finished_at metrics run)
  unfolding conclude_reading fail_chat emit_generation_placed
  closed_by (all_read s parts) found live e =
      ap (λ (g : Registry). Dict.get g.runs c.run.id)
        (runs-answer_chat c (finish_chat c api s (chat_metrics (length parts))) s (joined parts)
          (usage_of c (joined parts)))
      ∙ finish_chat-closes found live e
  closed_by (broke exc) found live e = finish_chat-closes found live e
  closed_by left found live e = cc
  closed_by unfinished found live e = cc

-- When the reading of the pieces ends, other than by the handler's cancellation, an active run becomes
-- terminal, with its metrics, and in the state in which `generate` closes its run for the same stream.
pub complete_chat-closes :
    (c : Completion) (api : Api) (hs : List Happening) (run : Run) (status : RunState)
    (metrics : Dict Value)
    → Dict.get api.runs.runs c.run.id ≡ some run
    → is_terminal run.state ≡ false
    → chat_close (read_parts [] hs) ≡ some (status, metrics)
    → (Dict.get (complete_chat c api hs).0.runs.runs c.run.id
        ≡ some (close_run status c.finished_at metrics run))
      × (is_terminal status ≡ true)
      × (final_status (read_all no_progress hs).ending ≡ some status)
unfolding complete_chat
complete_chat-closes c api hs run status metrics found live e =
    let same = same_status [] no_progress hs status metrics e in
    (closed_by c api run (read_parts [] hs) found live e, final_terminal hs status same, same)

-- No completion is empty in silence: where the tokens ran out in the reasoning, the content is not
-- empty, and where nothing but reasoning came the finish reason says so.
pub content_of-nonempty :
    (reply : String) (sink : Sink) (status : RunState)
    → is_nonempty sink.reasoning ≡ true
    → is_length sink.finish_reason ≡ true
    → (is_nonempty (content_of reply sink) ≡ true)
      × (is_nonempty reply ≡ false → reason_for reply sink status ≡ "length")
unfolding content_of is_truncated reason_for
content_of-nonempty reply sink status r f = elim (Bool-cases (is_nonempty reply)) [
  | inl e ↦ (rw e e, λ n. cc)
  | inr e ↦ (rw (e, r, f) refl, λ n. rw (e, r, f) refl)
]
