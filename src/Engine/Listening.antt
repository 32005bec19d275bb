-- ===== src/Engine/Listening.antt =====
-- engines.py, `LlamaCppEngine.stream_chat`: what it makes of a conforming stream.
use Prim.Native.String.{◌++◌ as append}
use text.Mathlib.TextLemmas
use mathlib.Core.List.{append_assoc}
use compute_connect.Prelude.{
  String, Option, none, some, List, [], ◌∷◌, ◌++◌, map, is_nonempty, if◌then◌else◌, ◌≡◌, refl, ap,
  ◌∙◌, inl, inr, Bool-cases,
}
use compute_connect.Json.{Value, str, Fields, end}
use compute_connect.Upstream.{Ending}
use compute_connect.Engine.Stream.{
  Received, streaming, Tools, Sinks, Heard, go_on, finished, hear_choices, hear_chunk, data_of,
  hear_line, listen, stream_chat,
}
use compute_connect.Engine.Conforming.{
  Delta, Report, or_null, or_empty, IsChunk, IsNoise, Carries, Conforms, contents, all_choices,
  all_reasoning, last_finish, usage_or, last_usage, closed, done, lost, noise, carries,
}
use compute_connect.Engine.Choices.{
  heard_of, reasoned, finish_of, used, heard_after, hear_all-AreChoices, heard_after-nil,
  hear_usage-value,
}

contents-append : (ds es : List Delta) → contents (ds ++ es) ≡ contents ds ++ contents es
contents-append [] es = refl
contents-append (d ∷ ds) es = elim (Bool-cases (is_nonempty (or_empty d.content))) [
  | inl e ↦ rw (e, contents-append ds es) refl
  | inr e ↦ rw (e, contents-append ds es) refl
]

all_reasoning-append :
    (ds es : List Delta) → all_reasoning (ds ++ es) ≡ append (all_reasoning ds) (all_reasoning es)
all_reasoning-append [] es = rw (TextLemmas.nil-append (all_reasoning es)) refl
all_reasoning-append (d ∷ ds) es =
    rw
      (
        all_reasoning-append ds es,
        TextLemmas.append_assoc (or_empty d.reasoning) (all_reasoning ds) (all_reasoning es),
      )
      refl

last_finish-append :
    (f : Option String) (ds es : List Delta)
    → last_finish f (ds ++ es) ≡ last_finish (last_finish f ds) es
last_finish-append f [] es = refl
last_finish-append f (d ∷ ds) es = last_finish-append _ ds es

-- what is heard of the reports after what was heard before
abbrev all_after : Sinks → List String → String → Option String → Fields → List Report → Heard
all_after sinks ps r f us reports =
    heard_after sinks ps r f (used sinks us reports) (all_choices reports)

all_after-cons :
    (sinks : Sinks) (ps : List String) (r : String) (f : Option String) (us : Fields) (rep : Report)
    (reports : List Report)
    → all_after sinks
        (ps ++ contents rep.choices)
        (reasoned sinks r rep.choices)
        (finish_of sinks f rep.choices)
        (if sinks.usage then usage_or us rep.usage else us)
        reports
      ≡ all_after sinks ps r f us (rep ∷ reports)
all_after-cons sinks ps r f us rep reports =
    let more = all_choices reports in
    let pieces = contents-append rep.choices more in
    let thought = all_reasoning-append rep.choices more in
    let reason = last_finish-append f rep.choices more in
    let counts : used sinks (if sinks.usage then usage_or us rep.usage else us) reports
        ≡ used sinks us (rep ∷ reports) =
      elim (Bool-cases sinks.usage) [ inl e ↦ rw e refl | inr e ↦ rw e refl ] in
    elim (Bool-cases sinks.reasoning) [
      | inl e ↦
          rw
            (
              e,
              pieces,
              thought,
              reason,
              counts,
              append_assoc ps (contents rep.choices) (contents more),
              TextLemmas.append_assoc r (all_reasoning rep.choices) (all_reasoning more),
            )
            refl
      | inr e ↦ rw (e, pieces, counts, append_assoc ps (contents rep.choices) (contents more)) refl
    ]

module _ (tools : Tools) (sinks : Sinks) where
  hear_chunk-IsChunk :
      {v : Value} (rep : Report) (ps : List String) (r : String) (f : Option String) (us : Fields)
      → IsChunk v rep
      → hear_chunk tools sinks v (heard_of ps r f us)
        ≡ go_on (
            heard_after sinks ps r f
              (if sinks.usage then usage_or us rep.usage else us)
              rep.choices)
  unfolding hear_chunk hear_choices
  hear_chunk-IsChunk rep ps r f us c =
      rw (c.chunk, c.listed, hear_all-AreChoices sinks ps r f us c.choices, c.usage)
        (hear_usage-value _ _ _ us tools sinks rep.usage)

  noise_passes : (s : String) (h : Heard) → IsNoise tools s → hear_line tools sinks s h ≡ go_on h
  unfolding hear_line
  noise_passes s h (inl e) = rw e refl
  noise_passes s h (inr (t, e, n, j)) = rw (e, n, j) refl

  carried :
      (s : String) (rep : Report) (ps : List String) (r : String) (f : Option String) (us : Fields)
      → Carries tools s rep
      → hear_line tools sinks s (heard_of ps r f us)
        ≡ go_on (
            heard_after sinks ps r f
              (if sinks.usage then usage_or us rep.usage else us)
              rep.choices)
  unfolding hear_line
  carried s rep ps r f us (t, e, n, (v, j, c)) = rw (e, n, j) (hear_chunk-IsChunk rep ps r f us c)

  ends :
      (s : String) (h : Heard) → data_of s ≡ some "[DONE]" → hear_line tools sinks s h ≡ finished h
  unfolding hear_line
  ends s h e = rw e refl

  all_after-nil :
      (ps : List String) (r : String) (f : Option String) (us : Fields)
      → all_after sinks ps r f us [] ≡ heard_of ps r f us
  all_after-nil ps r f us = elim (Bool-cases sinks.usage) [
    | inl e ↦ rw e (heard_after-nil sinks ps r f us)
    | inr e ↦ rw e (heard_after-nil sinks ps r f us)
  ]

  told :
      {rs : List Received} {reports : List Report} {e : Ending} (ps : List String) (r : String)
      (f : Option String) (us : Fields)
      → Conforms tools rs reports e
      → listen tools sinks rs (heard_of ps r f us)
        ≡ record { heard = all_after sinks ps r f us reports; ending = e }
  unfolding listen
  told ps r f us closed = rw (all_after-nil ps r f us) refl
  told ps r f us (done s rs d) = rw (ends s (heard_of ps r f us) d, all_after-nil ps r f us) refl
  told ps r f us (lost exc rs) = rw (all_after-nil ps r f us) refl
  told ps r f us (noise s n c) = rw (noise_passes s (heard_of ps r f us) n) (told ps r f us c)
  told ps r f us (carries s rep {rs} {reports} {e} k c) = rw (carried s rep ps r f us k) (
      told _ _ _ _ c
      ∙ ap (λ (x : Heard). record { heard = x; ending = e })
          (all_after-cons sinks ps r f us rep reports))

  -- Of a server that conforms, the stream yields the contents that are not empty, in their order,
  -- however the lines are mixed with others. A sink that the caller passes holds all the reasoning and
  -- the last finish reason, or the last usage, and one that it does not pass stays untouched. This
  -- holds also where the connection breaks, which alone ends the stream in an exception.
  pub stream_chat-Conforms :
      (rs : List Received) (reports : List Report) (e : Ending)
      → Conforms tools rs reports e
      → stream_chat tools sinks (streaming rs) ≡ record {
        heard = record {
          pieces = map str (contents (all_choices reports));
          reasoning = if sinks.reasoning then all_reasoning (all_choices reports) else "";
          finish_reason =
              or_null (if sinks.reasoning then last_finish none (all_choices reports) else none);
          usage = if sinks.usage then last_usage end reports else end;
        };
        ending = e;
      }
  unfolding stream_chat
  stream_chat-Conforms rs reports e c =
      told [] "" none end c ∙ rw (TextLemmas.nil-append (all_reasoning (all_choices reports))) refl
