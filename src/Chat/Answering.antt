-- ===== src/Chat/Answering.antt =====
-- app.py, `v1_chat_completions` without `stream`: what the completion that it sends says.
use mathlib.Core.List.{append_assoc, append-nil}
use Prim.Native.String.{◌++◌ as append}
use compute_connect.Prelude.{
  some, String, true, false, ◌&&◌, ◌+◌, pos, ℕ, List, [], ◌∷◌, ◌++◌, ◌≡◌, refl, sym, ap, ◌∙◌, ◌⊎◌,
  inl, inr, Bool-cases, is_nonempty, subst,
}
use compute_connect.Json.{
  Value, str, int, Result, ok, err, fields_get, obj, arr, item, null, bind_inv,
}
use compute_connect.Number.{to_int}
use compute_connect.Provider.Registry.{has}
use compute_connect.Upstream.{Next}
use compute_connect.Runs.Run.{RunState}
use compute_connect.Control.{Api}
use compute_connect.Session.{Happening, replied, client_gone, Sink, no_progress, read_all}
use compute_connect.Session.Reading.{deltas, joined}
use compute_connect.Session.Generate.{marker, is_length}
use compute_connect.Session.Closing.{final_status}
use compute_connect.Chat.Closing.{chat_close, same_status}
use compute_connect.Chat.Complete.{
  Completion, Usage, usage_of, usage_fields, ChatEnd, all_read, broke, left, unfinished, read_parts,
  fail_chat, answer_chat, conclude_reading, complete_chat, completed, is_truncated, content_of,
  reason_for, message_fields, completion_body, real_counts, estimated_counts, prompt_estimate,
  completion_estimate,
}

read_in_order :
    (ps : List String) (hs : List Happening) {status : RunState} {parts : List String}
    → read_parts ps hs ≡ all_read status parts
    → parts ≡ ps ++ deltas hs
unfolding read_parts
read_in_order ps [] e = cc
read_in_order ps (client_gone ∷ hs) e = cc
read_in_order ps (replied (Next.item s) ∷ hs) e =
    read_in_order (ps ++ s ∷ []) hs e ∙ append_assoc ps (s ∷ []) (deltas hs)
read_in_order ps (replied Next.finished ∷ hs) {status} {parts} e =
    let same : ps ≡ parts = cc in sym same ∙ sym (append-nil ps)
read_in_order ps (replied Next.cancelled ∷ hs) {status} {parts} e =
    let same : ps ≡ parts = cc in sym same ∙ sym (append-nil ps)
read_in_order ps (replied (Next.raised exc) ∷ hs) e = cc

answered_from :
    (c : Completion) (api : Api) (status : RunState) (reply : String) (counts : Result Usage)
    {v : Value}
    → (answer_chat c api status reply counts).1 ≡ ok (completed v)
    → (u : Usage) × (counts ≡ ok u) × (v ≡ completion_body c status reply u)
unfolding answer_chat
answered_from c api status reply (ok u) e = (u, refl, cc)
answered_from c api status reply (err exc) e = cc

abbrev Answers : Completion → List Happening → Value → Type 0
Answers c hs v =
    (status : RunState) × (u : Usage) × (read_parts [] hs ≡ all_read status (deltas hs))
    × (usage_of c (joined (deltas hs)) ≡ ok u)
    × (v ≡ completion_body c status (joined (deltas hs)) u)

concluded_from :
    (c : Completion) (api : Api) (hs : List Happening) (e : ChatEnd) {v : Value}
    → read_parts [] hs ≡ e
    → (conclude_reading c api e).1 ≡ ok (completed v)
    → Answers c hs v
unfolding conclude_reading fail_chat
concluded_from c api hs (all_read status parts) r e =
    let whole = read_in_order [] hs r in
    let (u, counted, same) = answered_from c _ status (joined parts) _ e in
    (status, u, r ∙ ap (all_read status) whole, rw (← whole) counted, rw (← whole) same)
concluded_from c api hs (broke exc) r e = cc
concluded_from c api hs left r e = cc
concluded_from c api hs unfinished r e = cc

only_two :
    (ps : List String) (hs : List Happening) {status : RunState} {parts : List String}
    → read_parts ps hs ≡ all_read status parts
    → (status ≡ RunState.succeeded) ⊎ (status ≡ RunState.cancelled)
unfolding read_parts
only_two ps [] e = cc
only_two ps (client_gone ∷ hs) e = cc
only_two ps (replied (Next.item s) ∷ hs) e = only_two (ps ++ s ∷ []) hs e
only_two ps (replied Next.finished ∷ hs) e = inl cc
only_two ps (replied Next.cancelled ∷ hs) e = inr cc
only_two ps (replied (Next.raised exc) ∷ hs) e = cc

-- `v[k]` of a dict, and `v[0]` of a list
abbrev pub at_key : Value → String → Value
at_key (obj fs) k = fields_get fs k
at_key _ k = null

abbrev pub at_zero : Value → Value
at_zero (arr (item v vs)) = v
at_zero _ = null

abbrev pub choice : Value → Value
choice v = at_zero (at_key v "choices")

-- the reasoning used up the tokens, and no content came
pub record IsSpent (reply : String) (sink : Sink) : Type 0 where
  pub silent : is_nonempty reply ≡ false
  pub reasoned : is_nonempty sink.reasoning ≡ true
  pub ran_out : is_length sink.finish_reason ≡ true

-- the content and the finish reason of a body, for the pieces of the stream and the state of the run
pub data Says (reply : String) (sink : Sink) (status : RunState) (v : Value) : Type 0 where
  stopped :
      ¬ IsSpent reply sink
      → status ≡ RunState.succeeded
      → at_key (at_key (choice v) "message") "content" ≡ str reply
      → at_key (choice v) "finish_reason" ≡ str "stop"
      → Says reply sink status v
  was_cancelled :
      ¬ IsSpent reply sink
      → status ≡ RunState.cancelled
      → at_key (at_key (choice v) "message") "content" ≡ str reply
      → at_key (choice v) "finish_reason" ≡ str "cancelled"
      → Says reply sink status v
  ran_short :
      IsSpent reply sink
      → at_key (at_key (choice v) "message") "content" ≡ str marker
      → at_key (choice v) "finish_reason" ≡ str "length"
      → Says reply sink status v

-- the counts of a body: those that the upstream gave if it gave both, and otherwise estimates
pub data HasCounts (c : Completion) (reply : String) (u : Usage) : Type 0 where
  given :
      has c.real_usage "prompt_tokens" && has c.real_usage "completion_tokens" ≡ true
      → to_int c.numerals (fields_get c.real_usage "prompt_tokens") ≡ ok u.prompt_tokens
      → to_int c.numerals (fields_get c.real_usage "completion_tokens") ≡ ok u.completion_tokens
      → HasCounts c reply u
  estimated :
      (n : ℕ)
      → has c.real_usage "prompt_tokens" && has c.real_usage "completion_tokens" ≡ false
      → prompt_estimate c.texts c.messages ≡ ok n
      → u.prompt_tokens ≡ pos n
      → u.completion_tokens ≡ pos (completion_estimate reply)
      → u.total_tokens ≡ pos (n + completion_estimate reply)
      → HasCounts c reply u

pub record IsCompletion (c : Completion) (hs : List Happening) (v : Value) : Type 0 where
  pub status : RunState
  pub usage : Usage
  pub ended : read_parts [] hs ≡ all_read status (deltas hs)
  pub same_end : final_status (read_all no_progress hs).ending ≡ some status
  pub says : Says (joined (deltas hs)) c.sink status v
  pub counted : HasCounts c (joined (deltas hs)) usage
  pub prompt : at_key (at_key v "usage") "prompt_tokens" ≡ int usage.prompt_tokens
  pub completion : at_key (at_key v "usage") "completion_tokens" ≡ int usage.completion_tokens
  pub total : at_key (at_key v "usage") "total_tokens" ≡ int usage.total_tokens
  pub names_run : at_key v "id" ≡ str (append "chatcmpl-" c.run.id)
  pub names_model : at_key v "model" ≡ str c.placement.model.id

usage_injective : {u w : Usage} → ◌≡◌ {A = Result Usage} (ok u) (ok w) → u ≡ w
usage_injective e = cc

usage_of-HasCounts :
    (c : Completion) (reply : String) {u : Usage} → usage_of c reply ≡ ok u → HasCounts c reply u
unfolding usage_of
usage_of-HasCounts c reply {u} e =
    elim (Bool-cases (has c.real_usage "prompt_tokens" && has c.real_usage "completion_tokens")) [
      | inl h ↦
          let (prompt, p, e1) =
            bind_inv (to_int c.numerals (fields_get c.real_usage "prompt_tokens")) _
              (rw (h, real_counts) at e) in
          let (completion, k, e2) =
            bind_inv (to_int c.numerals (fields_get c.real_usage "completion_tokens")) _ e1 in
          let (total, _, e3) = bind_inv (to_int c.numerals _) _ e2 in
          let last : ◌≡◌ {A = Result Usage}
              (ok (record {
                prompt_tokens = prompt;
                completion_tokens = completion;
                total_tokens = total;
              }))
              (ok u) =
            e3 in
          subst (HasCounts c reply) (usage_injective last) (given h p k)
      | inr h ↦
          let (n, p, e1) =
            bind_inv (prompt_estimate c.texts c.messages) _ (rw (h, estimated_counts) at e) in
          subst (HasCounts c reply) (usage_injective e1) (estimated n h p refl refl refl)
    ]

module _ (c : Completion) (status : RunState) (reply : String) (u : Usage) where
  Says-plainly :
      ¬ IsSpent reply c.sink
      → is_truncated reply c.sink ≡ false
      → (status ≡ RunState.succeeded) ⊎ (status ≡ RunState.cancelled)
      → Says reply c.sink status (completion_body c status reply u)
  unfolding completion_body message_fields content_of reason_for fields_get
  Says-plainly n e (inl s) = stopped n s (rw e refl) (rw (e, s) refl)
  Says-plainly n e (inr s) = was_cancelled n s (rw e refl) (rw (e, s) refl)

  Says-completion_body :
      (status ≡ RunState.succeeded) ⊎ (status ≡ RunState.cancelled)
      → Says reply c.sink status (completion_body c status reply u)
  unfolding completion_body message_fields content_of reason_for is_truncated fields_get
  Says-completion_body two = elim (Bool-cases (is_nonempty reply)) [
    | inl e ↦ Says-plainly (λ (s : IsSpent reply c.sink). let n = s.silent in cc) (rw e refl) two
    | inr e ↦ elim (Bool-cases (is_nonempty c.sink.reasoning)) [
      | inr r ↦
          Says-plainly (λ (s : IsSpent reply c.sink). let n = s.reasoned in cc) (rw (e, r) refl) two
      | inl r ↦ elim (Bool-cases (is_length c.sink.finish_reason)) [
        | inr f ↦
            Says-plainly (λ (s : IsSpent reply c.sink). let n = s.ran_out in cc) (rw (e, r, f) refl)
              two
        | inl f ↦
            ran_short (record { silent = e; reasoned = r; ran_out = f }) (rw (e, r, f) refl)
              (rw (e, r, f) refl)
      ]
    ]
  ]

IsCompletion-of :
    (c : Completion) (hs : List Happening) (v : Value) → Answers c hs v → IsCompletion c hs v
unfolding completion_body usage_fields fields_get
IsCompletion-of c hs v (status, u, r, counted, e) = record {
  status = status;
  usage = u;
  ended = r;
  same_end = same_status [] no_progress hs status _ (ap chat_close r);
  says = rw e (Says-completion_body c status (joined (deltas hs)) u (only_two [] hs r));
  counted = usage_of-HasCounts c (joined (deltas hs)) counted;
  prompt = rw e refl;
  completion = rw e refl;
  total = rw e refl;
  names_run = rw e refl;
  names_model = rw e refl;
}

-- A completion is sent only once the stream has ended and not by an exception; its state is the one in
-- which `generate` ends for the same stream. It names the run and
-- the model, and has the real counts of tokens where the upstream gave both, and otherwise estimates
-- and their sum. Its content is all the pieces, joined in their order, with the finish reason "stop"
-- after a run that succeeded and "cancelled" after one that was cancelled; only where no content came
-- and the tokens ran out in the reasoning it is the marker, with the finish reason "length".
pub complete_chat-completed :
    (c : Completion) (api : Api) (hs : List Happening) (v : Value)
    → (complete_chat c api hs).1 ≡ ok (completed v)
    → IsCompletion c hs v
unfolding complete_chat
complete_chat-completed c api hs v e =
    IsCompletion-of c hs v (concluded_from c api hs (read_parts [] hs) refl e)
