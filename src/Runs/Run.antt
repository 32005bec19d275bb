-- ===== src/Runs/Run.antt =====
-- runs.py, `Run`: one generation. The states and the surfaces are the strings of the source. A `Run`
-- object that a handler holds is the one that the registry stores under its id; a run that was
-- evicted is terminal, and nothing changes a terminal run.
use compute_connect.Prelude.{ℤ, String, Bool, true, false, Option, none, [], ◌∷◌, if◌then◌else◌}
use compute_connect.Json.{Value}
use compute_connect.Dict
use compute_connect.Dict.{Dict}

pub data RunState : Type 0 where
  running succeeded failed cancelled refused disconnected interrupted : RunState

-- `state in TERMINAL_STATES`
abbrev pub is_terminal : RunState → Bool
is_terminal running = false
is_terminal _ = true

pub data Surface : Type 0 where
  generate openai : Surface

pub record Run : Type 0 where
  pub id : String
  pub provider_id : String
  pub model : Option String
  pub surface : Surface
  pub created_at : ℤ
  pub finished_at : Option ℤ
  pub state : RunState
  pub cancel_requested : Bool
  pub cancel_event : Bool
  pub metrics : Dict Value

-- `dict.update`
unfoldable pub update : Dict Value → Dict Value → Dict Value
update metrics [] = metrics
update metrics ((k, v) ∷ more) = update (Dict.put metrics k v) more

abbrev pub is_active : Run → Bool
is_active r = if is_terminal r.state then false else true

abbrev pub new_run : String → String → Option String → Surface → ℤ → Run
new_run id provider_id model surface now = record {
  id = id;
  provider_id = provider_id;
  model = model;
  surface = surface;
  created_at = now;
  finished_at = none;
  state = running;
  cancel_requested = false;
  cancel_event = false;
  metrics = [];
}
