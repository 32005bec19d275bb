-- ===== src/Upstream/Delivery.antt =====
-- app.py, `UpstreamStream`: nothing is lost, repeated or reordered, and the pump is held back.
use mathlib.Core.List.{append_assoc, append-nil}
use compute_connect.Prelude.{
  ℕ, ◌+◌, ◌≤◌, Option, none, some, List, [], ◌∷◌, ◌++◌, length, length-append, ◌≡◌, refl, ap, ◌∙◌,
  arith,
}
use compute_connect.Upstream.{
  Message, Upstream, start, Step, pull, put, get, Run, here, next, held_list, aclose,
}

-- the messages in their order, wherever they are
abbrev pub in_order : Upstream → List Message
in_order s = s.delivered ++ (s.queue ++ (held_list s.held ++ s.source))

pub record IsFlow (messages : List Message) (s : Upstream) : Type 0 where
  pub order : in_order s ≡ messages
  pub room : length s.queue ≤ 1

Step-order : {s t : Upstream} → Step s t → in_order t ≡ in_order s
Step-order {s} {t} (pull m rest a b e) = rw e (rw (a, b) refl)
Step-order {s} {t} (put m a b e) = rw e (rw (a, b) refl)
Step-order {s} {t} (get m rest a e) = rw e (rw a (append_assoc s.delivered (m ∷ []) _))

Step-room : {s t : Upstream} → Step s t → length s.queue ≤ 1 → length t.queue ≤ 1
Step-room {s} {t} (pull m rest a b e) h = rw e h
Step-room {s} {t} (put m a b e) h = rw e (omega arith)
Step-room {s} {t} (get m rest a e) h = rw e (omega (arith, ap length a))

Step-IsFlow :
    {messages : List Message} {s t : Upstream} → Step s t → IsFlow messages s → IsFlow messages t
Step-IsFlow st f = record { order = Step-order st ∙ f.order; room = Step-room st f.room }

pub Run-IsFlow :
    {messages : List Message} {n : ℕ} {t : Upstream} → Run (start messages) n t → IsFlow messages t
Run-IsFlow here = record { order = refl; room = omega arith }
Run-IsFlow (next r st) = Step-IsFlow st (Run-IsFlow r)

length-held : (o : Option Message) → length (held_list o) ≤ 1
length-held none = omega arith
length-held (some m) = omega arith

-- In every state that a stream reaches, what the handler has got, what waits in the queue or to be
-- put, and what the pump has not taken are the engine's messages in their order; and the pump has
-- taken at most two messages more than the handler has got.
pub Run-delivery :
    {messages : List Message} {n : ℕ} {t : Upstream}
    → Run (start messages) n t
    → (t.delivered ++ (t.queue ++ (held_list t.held ++ t.source)) ≡ messages)
      × (length messages ≤ length t.source + length t.delivered + 2)
Run-delivery {messages} {n} {t} r =
    let f = Run-IsFlow r in
    (
      f.order,
      omega (
        arith,
        ap length f.order,
        f.room,
        length-held t.held,
        length-append t.delivered (t.queue ++ (held_list t.held ++ t.source)),
        length-append t.queue (held_list t.held ++ t.source),
        length-append (held_list t.held) t.source,
      ),
    )

-- A stream that is closed pumps no more: what was got and what is still in the queue, one message at the
-- most, is a prefix of the engine's messages.
pub aclose-prefix :
    {messages : List Message} {n : ℕ} {t : Upstream}
    → Run (start messages) n t
    → ((rest : List Message) × (in_order (aclose t) ++ rest ≡ messages))
      × (length (aclose t).queue ≤ 1)
unfolding aclose
aclose-prefix {messages} {n} {t} r =
    let f = Run-IsFlow r in
    (
      (
        held_list t.held ++ t.source,
        rw (append-nil t.queue, append_assoc t.delivered t.queue (held_list t.held ++ t.source))
            f.order,
      ),
      f.room,
    )
