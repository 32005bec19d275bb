-- ===== src/Runs/Registry.antt =====
-- runs.py, `RunRegistry`. A call that names a run by its object names it by its id here. The fresh id
-- of `uuid4` and the clock reading are arguments.
use mathlib.Core.Option
use compute_connect.Prelude.{
  ℕ, ℤ, pos, ◌-ℤ◌, pos_part, String, true, ◌&&◌, Option, none, some, List, [], ◌∷◌, str_eq,
  if◌then◌else◌, length, take,
}
use compute_connect.Json.{Value}
use compute_connect.Dict
use compute_connect.Dict.{Dict, count_values}
use compute_connect.Runs.Run.{Run, RunState, Surface, is_terminal, is_active, new_run, update}
use compute_connect.Runs.Journal.{Journal, record_run, reconcile, load}

pub record Registry : Type 0 where
  pub runs : Dict Run
  pub history_limit : ℤ
  pub journal : Option Journal
  pub reconciled_run_ids : List String

-- `__init__`: with a journal, the orphans of the last process are reconciled first
unfoldable pub init : ℤ → Option Journal → ℤ → Registry
init history_limit none now = record {
  runs = [];
  history_limit = history_limit;
  journal = none;
  reconciled_run_ids = [];
}
init history_limit (some journal) now = record {
  runs = [];
  history_limit = history_limit;
  journal = some (reconcile journal now).0;
  reconciled_run_ids = (reconcile journal now).1;
}

unfoldable pub finished_ids : Dict Run → List String
finished_ids [] = []
finished_ids ((k, r) ∷ d) = if is_terminal r.state then k ∷ finished_ids d else finished_ids d

unfoldable pub remove_all : List String → Dict Run → Dict Run
remove_all [] d = d
remove_all (k ∷ ks) d = remove_all ks (Dict.remove d k)

-- the oldest finished runs beyond the limit are dropped
unfoldable pub trim : ℤ → Dict Run → Dict Run
trim history_limit d =
    let finished = finished_ids d in
    let excess = pos (length finished) -ℤ history_limit in
    remove_all (take (pos_part excess) finished) d

unfoldable pub journal_run : Option Journal → Run → Option Journal
journal_run journal run = Option.map (λ j. record_run j run) journal

unfoldable pub create : Registry → String → ℤ → String → Option String → Surface → Registry × Run
create reg fresh now provider_id model surface =
    let run = new_run fresh provider_id model surface now in
    (
      record reg {
        runs = trim reg.history_limit (Dict.put reg.runs fresh run);
        journal = journal_run reg.journal run;
      },
      run,
    )

unfoldable pub load_from : Option Journal → String → Option Run
load_from none run_id = none
load_from (some j) run_id = load j run_id

unfoldable pub get : Registry → String → Option Run
unfolding load_from
get reg run_id = elim (Dict.get reg.runs run_id) [
  | some run ↦ some run
  | none ↦ load_from reg.journal run_id
]

pub data CancelStatus : Type 0 where
  cancelling already_finished not_found : CancelStatus

abbrev pub request_cancel : Run → Run
request_cancel run = record run { cancel_requested = true; cancel_event = true }

unfoldable pub cancel : Registry → String → Registry × CancelStatus
unfolding load_from
cancel reg run_id = elim (Dict.get reg.runs run_id) [
  | none ↦ elim (load_from reg.journal run_id) [
    | none ↦ (reg, not_found)
    | some run ↦ (reg, already_finished)
  ]
  | some run ↦
      if is_terminal run.state
      then (reg, already_finished)
      else (record reg { runs = Dict.modify reg.runs run_id request_cancel }, cancelling)
]

abbrev pub close_run : RunState → ℤ → Dict Value → Run → Run
close_run state now metrics run = record run {
  state = state;
  finished_at = some now;
  metrics = update run.metrics metrics;
}

unfoldable pub finish : Registry → String → RunState → ℤ → Dict Value → Registry
finish reg run_id state now metrics = elim (Dict.get reg.runs run_id) [
  | none ↦ reg
  | some run ↦ if is_terminal run.state then reg else record reg {
    runs = Dict.modify reg.runs run_id (close_run state now metrics);
    journal = journal_run reg.journal (close_run state now metrics run);
  }
]

-- the active runs of a provider, the registry's capacity accounting
unfoldable pub active_count : Registry → String → ℕ
active_count reg provider_id =
    count_values (λ r. str_eq r.provider_id provider_id && is_active r) reg.runs
