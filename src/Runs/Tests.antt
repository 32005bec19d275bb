-- ===== src/Runs/Tests.antt =====
-- Tests of the runs on a small registry, and the theorems about them at concrete registries.

use compute_connect.Prelude.{
  ◌≡◌, refl, subst, ◌⊎◌, true, false, [], ◌∷◌, pos, ◌+◌, ◌≤◌, none, some, str_eq, length, pos_part,
  ◌-ℤ◌,
}
use compute_connect.Json.{Value, int}
use compute_connect.Dict
use compute_connect.Dict.{Dict, HasDistinctKeys, one_if, count_values}
use compute_connect.Runs.Run.{
  Run, is_terminal, succeeded, interrupted, generate, openai, new_run, update,
}
use compute_connect.Runs.Journal.{
  Journal, row_of, reconcile, reconcile_found, update_orphans, orphans, load, record_run,
}
use compute_connect.Runs.Registry.{
  Registry, init, create, cancel, finish, request_cancel, close_run, active_count, finished_ids,
  trim, remove_all, journal_run, load_from, CancelStatus, cancelling, already_finished, not_found,
}
use compute_connect.Runs.Registry
use compute_connect.Runs.Invariant.{
  IsConsistent, create-IsConsistent, finish-IsConsistent, cancel-IsConsistent,
}
use compute_connect.Runs.Capacity.{active_count-create, active_count-finish, history-create}
use compute_connect.Runs.Restart.{
  Reach, here, next, creating, finishing, init-IsConsistent, Reach-IsConsistent,
}
use compute_connect.Runs.Lifecycle.{Step-active, Step-terminal}

program : Unit {0}
unfolding create cancel finish init trim remove_all journal_run load_from record_run reconcile
    reconcile_found update_orphans orphans load active_count finished_ids update Registry.get
    Dict.get Dict.put Dict.modify Dict.remove Dict.reinsert ◌-ℤ◌
program = tt

abbrev fresh_start : Registry
fresh_start = init (pos 1) (some []) (pos 0)

abbrev one_running : Registry
one_running = (create fresh_start "run_a" (pos 10) "local" (some "m") generate).0

abbrev metrics : Dict Value
metrics = ("chunks", int (pos 3)) ∷ []

abbrev one_finished : Registry
one_finished = finish one_running "run_a" succeeded (pos 20) metrics

abbrev two_runs : Registry
two_runs = (create one_finished "run_b" (pos 30) "local" none openai).0

abbrev run_a : Run
run_a = new_run "run_a" "local" (some "m") generate (pos 10)

abbrev run_b : Run
run_b = new_run "run_b" "local" none openai (pos 30)

abbrev run_a_done : Run
run_a_done = close_run succeeded (pos 20) metrics run_a

counts_active :
    (active_count one_running "local" ≡ 1)
    × (active_count one_finished "local" ≡ 0)
    × (active_count two_runs "local" ≡ 1)
unfolding program
counts_active = (refl, refl, refl)

finishes_once : finish one_finished "run_a" interrupted (pos 40) [] ≡ one_finished
unfolding program
finishes_once = refl

answers_cancel :
    ((cancel two_runs "run_a").1 ≡ already_finished)
    × ((cancel two_runs "run_b").1 ≡ cancelling)
    × ((cancel two_runs "run_c").1 ≡ not_found)
unfolding program
answers_cancel = (refl, refl, refl)

-- the row of a crashed process
abbrev rows : Journal
rows = ("run_a", row_of run_a_done) ∷ ("run_b", row_of run_b) ∷ []

reconciles : (reconcile rows (pos 50)).1 ≡ "run_b" ∷ []
unfolding program
reconciles = refl

rows_distinct : HasDistinctKeys rows
unfolding program
rows_distinct = (refl, (refl, tt))

only_rows : (j : Journal) → some rows ≡ some j → HasDistinctKeys j
only_rows j e = let p : rows ≡ j = cc in subst (λ (j : Journal). HasDistinctKeys j) p rows_distinct

no_rows : (j : Journal) → some [] ≡ some j → HasDistinctKeys j
no_rows j e = let p : [] ≡ j = cc in subst (λ (j : Journal). HasDistinctKeys j) p tt

fresh-IsConsistent : IsConsistent fresh_start
fresh-IsConsistent = init-IsConsistent (pos 1) (some []) (pos 0) no_rows

create-IsConsistent_example :
    IsConsistent (create fresh_start "run_a" (pos 10) "local" (some "m") generate).0
create-IsConsistent_example =
    create-IsConsistent fresh_start "run_a" (pos 10) "local" (some "m") generate fresh-IsConsistent

running-IsConsistent : IsConsistent one_running
running-IsConsistent =
    create-IsConsistent fresh_start "run_a" (pos 10) "local" (some "m") generate fresh-IsConsistent

finish-IsConsistent_example : IsConsistent (finish one_running "run_a" succeeded (pos 20) metrics)
finish-IsConsistent_example =
    finish-IsConsistent one_running "run_a" succeeded (pos 20) metrics running-IsConsistent

finished-IsConsistent : IsConsistent one_finished
finished-IsConsistent =
    finish-IsConsistent one_running "run_a" succeeded (pos 20) metrics running-IsConsistent

cancel-IsConsistent_example : IsConsistent (cancel one_running "run_a").0
cancel-IsConsistent_example = cancel-IsConsistent one_running "run_a" running-IsConsistent

unused : Dict.get fresh_start.runs "run_a" ≡ none
unfolding program
unused = refl

unused_b : Dict.get one_finished.runs "run_b" ≡ none
unfolding program
unused_b = refl

one_step : Reach fresh_start one_running
one_step = next here (creating "run_a" (pos 10) "local" (some "m") generate unused)

Reach-IsConsistent_example : IsConsistent one_running
Reach-IsConsistent_example = Reach-IsConsistent fresh-IsConsistent one_step

found_a : Dict.get one_running.runs "run_a" ≡ some run_a
unfolding program
found_a = refl

active_count-create_example :
    active_count (create one_finished "run_b" (pos 30) "local" none openai).0 "local"
    ≡ active_count one_finished "local" + one_if (str_eq "local" "local")
active_count-create_example =
    active_count-create one_finished "run_b" (pos 30) "local" none openai "local"
      finished-IsConsistent unused_b

active_count-finish_example :
    ((run : Run) × (Dict.get one_running.runs "run_a" ≡ some run)
      × (is_terminal run.state ≡ false)
      × (active_count (finish one_running "run_a" succeeded (pos 20) metrics) "local"
            + one_if (str_eq run.provider_id "local")
          ≡ active_count one_running "local"))
    ⊎ (((run : Run) → Dict.get one_running.runs "run_a" ≡ some run → is_terminal run.state ≡ true)
        × (active_count (finish one_running "run_a" succeeded (pos 20) metrics) "local"
            ≡ active_count one_running "local"))
active_count-finish_example =
    active_count-finish one_running "run_a" succeeded (pos 20) metrics "local" refl

history-create_example :
    length (finished_ids (create one_finished "run_b" (pos 30) "local" none openai).0.runs)
    ≤ pos_part one_finished.history_limit
history-create_example =
    history-create one_finished "run_b" (pos 30) "local" none openai finished-IsConsistent

found_done : Dict.get one_finished.runs "run_a" ≡ some run_a_done
unfolding program
found_done = refl

Step-active_example :
    (q : Run) × (Dict.get one_finished.runs "run_a" ≡ some q)
    × (q.id ≡ "run_a")
    × (q.provider_id ≡ "local")
    × (q.surface ≡ generate)
    × (q.created_at ≡ pos 10)
Step-active_example =
    Step-active "run_a" running-IsConsistent (finishing "run_a" succeeded (pos 20) metrics refl)
      found_a refl

Step-terminal_example :
    (Dict.get two_runs.runs "run_a" ≡ some run_a_done) ⊎ (Dict.get two_runs.runs "run_a" ≡ none)
Step-terminal_example =
    Step-terminal "run_a" finished-IsConsistent
      (creating "run_b" (pos 30) "local" none openai unused_b) found_done refl
