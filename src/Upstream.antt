-- ===== src/Upstream.antt =====
-- app.py, `UpstreamStream`: the task that pumps an engine's stream into a queue of one place, and the
-- handler that reads it, as steps that the event loop may take in any order.
use compute_connect.Prelude.{
  ℕ, suc, ◌+◌, ◌*◌, String, Option, none, some, List, [], ◌∷◌, ◌++◌, map, length, ◌≡◌,
}
use compute_connect.Json.{Value}
pub mod Delivery
pub mod Progress
mod Tests

-- what the pump puts into the queue; a piece is what the engine yields, a text as a rule
pub data Message : Type 0 where
  delta : Value → Message
  done : Message
  error : String → Message

-- how an engine's stream ends: of itself, or by an exception
pub data Ending : Type 0 where
  exhausted : Ending
  failed : String → Ending

abbrev pub last_message : Ending → Message
last_message exhausted = done
last_message (failed exc) = error exc

-- what `_pump` puts, in order, where it is not cancelled
unfoldable pub feed : List Value → Ending → List Message
feed [] ending = last_message ending ∷ []
feed (item ∷ items) ending = delta item ∷ feed items ending

-- `source` is what the pump has not taken yet, `held` what it waits to put, `delivered` what `next`
-- has taken out of the queue.
pub record Upstream : Type 0 where
  pub source : List Message
  pub held : Option Message
  pub queue : List Message
  pub delivered : List Message

abbrev pub start : List Message → Upstream
start messages = record { source = messages; held = none; queue = []; delivered = [] }

-- One step: the pump takes the next message; it puts the message, for which the queue must be empty;
-- `next` gets the message.
pub data Step (s t : Upstream) : Type 0 where
  pull :
      (m : Message) (rest : List Message)
      → s.source ≡ m ∷ rest
      → s.held ≡ none
      → t ≡ record s { source = rest; held = some m }
      → Step s t
  put :
      (m : Message)
      → s.held ≡ some m
      → s.queue ≡ []
      → t ≡ record s { held = none; queue = m ∷ [] }
      → Step s t
  get :
      (m : Message) (rest : List Message)
      → s.queue ≡ m ∷ rest
      → t ≡ record s { queue = rest; delivered = s.delivered ++ m ∷ [] }
      → Step s t

-- a run of n steps
pub data Run (s : Upstream) : ℕ → Upstream → Type 0 where
  here : Run s 0 s
  next : {n : ℕ} {t u : Upstream} → Run s n t → Step t u → Run s (suc n) u

abbrev pub held_list : Option Message → List Message
held_list none = []
held_list (some m) = m ∷ []

-- `aclose` of a started stream: the pump is cancelled, and with it what it waits to put
unfoldable pub aclose : Upstream → Upstream
aclose s = record s { source = []; held = none }

-- what `next` returns to the handler, or raises
pub data Next (A : Type 0) : Type 0 where
  item : A → Next A
  finished : Next A
  cancelled : Next A
  raised : String → Next A

-- `next`: the message that it got, or none where only the cancel event was set
unfoldable pub next_of : Option Message → Next Value
next_of none = cancelled
next_of (some (delta v)) = item v
next_of (some done) = finished
next_of (some (error exc)) = raised exc
