-- ===== src/Engine/Choices.antt =====
-- engines.py, `LlamaCppEngine.stream_chat`: what it makes of the choices of a
-- conforming chunk, and of its usage.
use Prim.Native.String.{◌++◌ as append}
use text.Mathlib.TextLemmas
use mathlib.Core.List.{append_assoc, append-nil, map-append}
use compute_connect.Prelude.{
  String, Option, none, some, List, [], ◌∷◌, ◌++◌, map, is_nonempty, if◌then◌else◌, ◌≡◌, refl, ap,
  ◌∙◌, inl, inr, Bool-cases, ◌⊎◌,
}
use compute_connect.Json.{
  Value, null, str, obj, Items, Fields, end, field, truthy, or_else, fields_get,
}
use compute_connect.Engine.Stream.{
  Tools, Sinks, Heard, go_on, add_content, note_finish, add_reasoning, note_reasoning, hear_delta,
  hear_choice, hear_all, hear_usage, update_usage,
}
use compute_connect.Engine.Conforming.{
  Delta, Report, or_null, or_empty, usage_value, IsChoice, AreChoices, no_choice, a_choice,
  contents, all_reasoning, last_finish, usage_or, last_usage,
}

-- what was heard, described by the pieces as texts and the finish reason
abbrev pub heard_of : List String → String → Option String → Fields → Heard
heard_of ps r f us = record {
  pieces = map str ps;
  reasoning = r;
  finish_reason = or_null f;
  usage = us;
}

abbrev piece : Option String → List String
piece o = if is_nonempty (or_empty o) then or_empty o ∷ [] else []

abbrev finish_or : Option String → Option String → Option String
finish_or f o = if is_nonempty (or_empty o) then o else f

module _ (ps : List String) (r : String) (f : Option String) (us : Fields) where
  add_content-text :
      (o : Option String)
      → add_content (or_null o) (heard_of ps r f us) ≡ heard_of (ps ++ piece o) r f us
  unfolding add_content truthy
  add_content-text none = rw (append-nil ps) refl
  add_content-text (some s) = elim (Bool-cases (is_nonempty s)) [
    | inl e ↦ rw (e, map-append str ps (s ∷ [])) refl
    | inr e ↦ rw (e, append-nil ps) refl
  ]

  note_reasoning-text :
      (sinks : Sinks) (o : Option String)
      → note_reasoning sinks (or_null o) (heard_of ps r f us)
        ≡ go_on (heard_of ps (if sinks.reasoning then append r (or_empty o) else r) f us)
  unfolding note_reasoning add_reasoning truthy
  note_reasoning-text sinks none = elim (Bool-cases sinks.reasoning) [
    | inl e ↦ rw (e, TextLemmas.append-nil r) refl
    | inr e ↦ rw e refl
  ]
  note_reasoning-text sinks (some String.[]) = elim (Bool-cases sinks.reasoning) [
    | inl e ↦ rw (e, TextLemmas.append-nil r) refl
    | inr e ↦ rw e refl
  ]
  note_reasoning-text sinks (some (String.◌∷◌ c s)) = elim (Bool-cases sinks.reasoning) [
    | inl e ↦ rw e refl
    | inr e ↦ rw e refl
  ]

  note_finish-text :
      (sinks : Sinks) (o : Option String)
      → note_finish sinks (or_null o) (heard_of ps r f us)
        ≡ heard_of ps r (if sinks.reasoning then finish_or f o else f) us
  unfolding note_finish truthy
  note_finish-text sinks none = elim (Bool-cases sinks.reasoning) [
    | inl e ↦ rw e refl
    | inr e ↦ rw e refl
  ]
  note_finish-text sinks (some String.[]) = elim (Bool-cases sinks.reasoning) [
    | inl e ↦ rw e refl
    | inr e ↦ rw e refl
  ]
  note_finish-text sinks (some (String.◌∷◌ c s)) = elim (Bool-cases sinks.reasoning) [
    | inl e ↦ rw e refl
    | inr e ↦ rw e refl
  ]

  pub hear_usage-value :
      (tools : Tools) (sinks : Sinks) (o : Option Fields)
      → hear_usage tools sinks (usage_value o) (heard_of ps r f us)
        ≡ go_on (heard_of ps r f (if sinks.usage then usage_or us o else us))
  unfolding hear_usage update_usage
  hear_usage-value tools sinks none = elim (Bool-cases sinks.usage) [
    | inl e ↦ rw e refl
    | inr e ↦ rw e refl
  ]
  hear_usage-value tools sinks (some fs) = elim (Bool-cases sinks.usage) [
    | inl e ↦ rw e refl
    | inr e ↦ rw e refl
  ]

delta_or_empty :
    (v : Value) (ds : Fields)
    → (v ≡ obj ds) ⊎ ((v ≡ null) × (ds ≡ end))
    → or_else v (obj end) ≡ obj ds
unfolding or_else truthy
delta_or_empty v end (inl e) = rw e refl
delta_or_empty v (field k x fs) (inl e) = rw e refl
delta_or_empty v ds (inr (n, e)) = rw (n, e) refl

hear_choice-IsChoice :
    (sinks : Sinks) {v : Value} (d : Delta) (ps : List String) (r : String) (f : Option String)
    (us : Fields)
    → IsChoice v d
    → hear_choice sinks v (heard_of ps r f us)
      ≡ go_on (
          heard_of
            (ps ++ piece d.content)
            (if sinks.reasoning then append r (or_empty d.reasoning) else r)
            (if sinks.reasoning then finish_or f d.finish_reason else f)
            us)
unfolding hear_choice hear_delta
hear_choice-IsChoice sinks d ps r f us c =
    rw
      (
        c.choice,
        delta_or_empty (fields_get c.fs "delta") c.ds c.delta,
        c.content,
        c.reasoning,
        c.finish_reason,
        add_content-text ps r f us d.content,
      )
      (rw (note_reasoning-text (ps ++ piece d.content) r f us sinks d.reasoning)
        (ap go_on (note_finish-text (ps ++ piece d.content) _ f us sinks d.finish_reason)))

-- the two sinks and the pieces after some choices
abbrev pub reasoned : Sinks → String → List Delta → String
reasoned sinks r ds = if sinks.reasoning then append r (all_reasoning ds) else r

abbrev pub finish_of : Sinks → Option String → List Delta → Option String
finish_of sinks f ds = if sinks.reasoning then last_finish f ds else f

abbrev pub used : Sinks → Fields → List Report → Fields
used sinks us reports = if sinks.usage then last_usage us reports else us

abbrev pub heard_after : Sinks → List String → String → Option String → Fields → List Delta → Heard
heard_after sinks ps r f us ds =
    heard_of (ps ++ contents ds) (reasoned sinks r ds) (finish_of sinks f ds) us

contents-cons :
    (ps : List String) (d : Delta) (ds : List Delta)
    → (ps ++ piece d.content) ++ contents ds ≡ ps ++ contents (d ∷ ds)
contents-cons ps d ds = elim (Bool-cases (is_nonempty (or_empty d.content))) [
  | inl e ↦ rw (e, append_assoc ps (or_empty d.content ∷ []) (contents ds)) refl
  | inr e ↦ rw (e, append-nil ps) refl
]

heard_after-cons :
    (sinks : Sinks) (ps : List String) (r : String) (f : Option String) (us : Fields) (d : Delta)
    (ds : List Delta)
    → heard_after sinks
        (ps ++ piece d.content)
        (if sinks.reasoning then append r (or_empty d.reasoning) else r)
        (if sinks.reasoning then finish_or f d.finish_reason else f)
        us
        ds
      ≡ heard_after sinks ps r f us (d ∷ ds)
heard_after-cons sinks ps r f us d ds = elim (Bool-cases sinks.reasoning) [
  | inl e ↦
      rw
        (
          e,
          contents-cons ps d ds,
          TextLemmas.append_assoc r (or_empty d.reasoning) (all_reasoning ds),
        )
        refl
  | inr e ↦ rw (e, contents-cons ps d ds) refl
]

pub heard_after-nil :
    (sinks : Sinks) (ps : List String) (r : String) (f : Option String) (us : Fields)
    → heard_after sinks ps r f us [] ≡ heard_of ps r f us
heard_after-nil sinks ps r f us = elim (Bool-cases sinks.reasoning) [
  | inl e ↦ rw (e, append-nil ps, TextLemmas.append-nil r) refl
  | inr e ↦ rw (e, append-nil ps) refl
]

pub hear_all-AreChoices :
    (sinks : Sinks) {items : Items} {ds : List Delta} (ps : List String) (r : String)
    (f : Option String) (us : Fields)
    → AreChoices items ds
    → hear_all sinks items (heard_of ps r f us) ≡ go_on (heard_after sinks ps r f us ds)
unfolding hear_all
hear_all-AreChoices sinks ps r f us no_choice = rw (heard_after-nil sinks ps r f us) refl
hear_all-AreChoices sinks ps r f us (a_choice {d = d} {ds = ds} c cs) =
    rw (hear_choice-IsChoice sinks d ps r f us c)
      (hear_all-AreChoices sinks _ _ _ us cs ∙ ap go_on (heard_after-cons sinks ps r f us d ds))
