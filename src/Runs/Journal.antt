-- ===== src/Runs/Journal.antt =====
-- runs.py, `RunJournal`: the SQLite table as a list of rows with the run id as primary key. The JSON
-- text of the metrics is kept as the dict that it encodes.
use mathlib.Core.Option
use compute_connect.Prelude.{ℤ, String, false, Option, some, List, [], ◌∷◌, if◌then◌else◌}
use compute_connect.Json.{Value}
use compute_connect.Dict
use compute_connect.Dict.{Dict}
use compute_connect.Runs.Run.{Run, RunState, interrupted, is_terminal, Surface}

-- the columns beside the primary key
pub record Row : Type 0 where
  pub provider_id : String
  pub model : Option String
  pub surface : Surface
  pub state : RunState
  pub created_at : ℤ
  pub finished_at : Option ℤ
  pub metrics : Dict Value

abbrev pub Journal : Type 0
Journal = Dict Row

abbrev pub row_of : Run → Row
row_of run = record {
  provider_id = run.provider_id;
  model = run.model;
  surface = run.surface;
  state = run.state;
  created_at = run.created_at;
  finished_at = run.finished_at;
  metrics = run.metrics;
}

-- INSERT OR REPLACE: a row with the same primary key is deleted first
unfoldable pub record_run : Journal → Run → Journal
record_run journal run = Dict.reinsert journal run.id (row_of run)

abbrev pub interrupt : ℤ → Row → Row
interrupt now row =
    if is_terminal row.state
    then row
    else record row { state = interrupted; finished_at = some now }

-- UPDATE … WHERE state NOT IN (…)
unfoldable pub update_orphans : ℤ → Journal → Journal
update_orphans now [] = []
update_orphans now ((k, row) ∷ rows) = (k, interrupt now row) ∷ update_orphans now rows

-- SELECT id … WHERE state NOT IN (…)
unfoldable pub orphans : Journal → List String
orphans [] = []
orphans ((k, row) ∷ rows) = if is_terminal row.state then orphans rows else k ∷ orphans rows

unfoldable pub reconcile_found : ℤ → Journal → List String → Journal × List String
reconcile_found now journal [] = (journal, [])
reconcile_found now journal (k ∷ ks) = (update_orphans now journal, k ∷ ks)

-- The new table and the ids that were reconciled.
unfoldable pub reconcile : Journal → ℤ → Journal × List String
reconcile journal now = reconcile_found now journal (orphans journal)

-- the run of a row, with a fresh cancel event
abbrev pub run_of : String → Row → Run
run_of id row = record {
  id = id;
  provider_id = row.provider_id;
  model = row.model;
  surface = row.surface;
  created_at = row.created_at;
  finished_at = row.finished_at;
  state = row.state;
  cancel_requested = false;
  cancel_event = false;
  metrics = row.metrics;
}

unfoldable pub load : Journal → String → Option Run
load journal run_id = Option.map (run_of run_id) (Dict.get journal run_id)
