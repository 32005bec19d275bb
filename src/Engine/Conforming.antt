-- ===== src/Engine/Conforming.antt =====
-- engines.py, `LlamaCppEngine.stream_chat`: the streams of a server that conforms to the OpenAI interface,
-- and what they report.
use Prim.Native.String.{◌++◌ as append}
use compute_connect.Prelude.{
  String, false, Option, none, some, List, [], ◌∷◌, ◌++◌, str_eq, is_nonempty, if◌then◌else◌, ◌≡◌,
  ◌⊎◌,
}
use compute_connect.Json.{Value, null, str, arr, obj, no_item, item, Fields, end, Items, fields_get}
use compute_connect.Upstream.{Ending, exhausted, failed}
use compute_connect.Engine.Stream.{Received, line, broken, Tools, data_of, choices_of}

-- what a server reports in one choice of a chunk
pub record Delta : Type 0 where
  pub content : Option String
  pub reasoning : Option String
  pub finish_reason : Option String

-- what a server reports in one chunk
pub record Report : Type 0 where
  pub choices : List Delta
  pub usage : Option Fields

abbrev pub or_null : Option String → Value
or_null none = null
or_null (some s) = str s

abbrev pub usage_value : Option Fields → Value
usage_value none = null
usage_value (some fs) = obj fs

-- A choice as JSON: its delta may be empty, null or missing, each of the three texts may be null or
-- missing, and there may be any other key.
pub record IsChoice (v : Value) (d : Delta) : Type 0 where
  pub fs : Fields
  pub ds : Fields
  pub choice : v ≡ obj fs
  pub delta : (fields_get fs "delta" ≡ obj ds) ⊎ ((fields_get fs "delta" ≡ null) × (ds ≡ end))
  pub content : fields_get ds "content" ≡ or_null d.content
  pub reasoning : fields_get ds "reasoning_content" ≡ or_null d.reasoning
  pub finish_reason : fields_get fs "finish_reason" ≡ or_null d.finish_reason

pub data AreChoices : Items → List Delta → Type 0 where
  no_choice : AreChoices no_item []
  a_choice :
      {v : Value} {vs : Items} {d : Delta} {ds : List Delta}
      → IsChoice v d
      → AreChoices vs ds
      → AreChoices (item v vs) (d ∷ ds)

-- A chunk as JSON: its choices may be empty or missing, its usage null or missing, and there may be any
-- other key.
pub record IsChunk (v : Value) (r : Report) : Type 0 where
  pub fs : Fields
  pub items : Items
  pub chunk : v ≡ obj fs
  pub listed : choices_of fs ≡ arr items
  pub choices : AreChoices items r.choices
  pub usage : fields_get fs "usage" ≡ usage_value r.usage

-- a line that the loop passes over: it carries no data, or none that is JSON
abbrev pub IsNoise : Tools → String → Type 0
IsNoise tools s =
    (data_of s ≡ none)
    ⊎ ((t : String) × (data_of s ≡ some t)
        × (str_eq t "[DONE]" ≡ false)
        × (tools.json_loads t ≡ none))

-- a line that carries the chunk of a report
abbrev pub Carries : Tools → String → Report → Type 0
Carries tools s r =
    (t : String) × (data_of s ≡ some t)
    × (str_eq t "[DONE]" ≡ false)
    × ((v : Value) × (tools.json_loads t ≡ some v) × IsChunk v r)

-- the lines carry these reports, in their order, up to the closing mark, to the end, or to where the connection
-- breaks
pub data Conforms (tools : Tools) : List Received → List Report → Ending → Type 0 where
  closed : Conforms tools [] [] exhausted
  done :
      (s : String) (rs : List Received)
      → data_of s ≡ some "[DONE]"
      → Conforms tools (line s ∷ rs) [] exhausted
  lost : (exc : String) (rs : List Received) → Conforms tools (broken exc ∷ rs) [] (failed exc)
  noise :
      (s : String) {rs : List Received} {reports : List Report} {e : Ending}
      → IsNoise tools s
      → Conforms tools rs reports e
      → Conforms tools (line s ∷ rs) reports e
  carries :
      (s : String) (r : Report) {rs : List Received} {reports : List Report} {e : Ending}
      → Carries tools s r
      → Conforms tools rs reports e
      → Conforms tools (line s ∷ rs) (r ∷ reports) e

-- the choices of all the chunks, in their order
abbrev pub all_choices : List Report → List Delta
all_choices [] = []
all_choices (r ∷ reports) = r.choices ++ all_choices reports

abbrev pub or_empty : Option String → String
or_empty none = ""
or_empty (some s) = s

-- the pieces: the contents that are not empty
abbrev pub contents : List Delta → List String
contents [] = []
contents (d ∷ ds) =
    if is_nonempty (or_empty d.content) then or_empty d.content ∷ contents ds else contents ds

abbrev pub all_reasoning : List Delta → String
all_reasoning [] = ""
all_reasoning (d ∷ ds) = append (or_empty d.reasoning) (all_reasoning ds)

-- the last that is set, and is not empty
abbrev pub last_finish : Option String → List Delta → Option String
last_finish f [] = f
last_finish f (d ∷ ds) =
    last_finish (if is_nonempty (or_empty d.finish_reason) then d.finish_reason else f) ds

abbrev pub usage_or : Fields → Option Fields → Fields
usage_or us none = us
usage_or us (some fs) = fs

abbrev pub last_usage : Fields → List Report → Fields
last_usage us [] = us
last_usage us (r ∷ reports) = last_usage (usage_or us r.usage) reports
