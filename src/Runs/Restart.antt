-- ===== src/Runs/Restart.antt =====
-- runs.py: the registry as handlers drive it, step by step, up to a crash and the next start.
use mathlib.Core.Option
use compute_connect.Prelude.{ℤ, String, true, ◌≡◌, refl, Option, none, some}
use compute_connect.Json.{Value}
use compute_connect.Dict
use compute_connect.Dict.{Dict, HasDistinctKeys, get-put, get-modify}
use compute_connect.Runs.Run.{Run, RunState, Surface, is_terminal}
use compute_connect.Runs.Journal.{Journal, row_of, run_of, interrupt, reconcile}
use compute_connect.Runs.Registry
use compute_connect.Runs.Registry.{
  Registry, init, create, cancel, finish, request_cancel, close_run, trim, journal_run,
}
use compute_connect.Runs.Recovery.{reconcile-HasDistinctKeys}
use compute_connect.Runs.Invariant.{
  IsConsistent, create-IsConsistent, cancel-IsConsistent, finish-IsConsistent,
}

-- What a handler does to the registry. The id of a new run is one that no run in memory has.
pub data Step (reg : Registry) : Registry → Type 0 where
  creating :
      (fresh : String) (now : ℤ) (provider_id : String) (model : Option String) (surface : Surface)
      → Dict.get reg.runs fresh ≡ none
      → Step reg (create reg fresh now provider_id model surface).0
  cancelling : (run_id : String) → Step reg (cancel reg run_id).0
  finishing :
      (run_id : String) (state : RunState) (now : ℤ) (metrics : Dict Value)
      → is_terminal state ≡ true
      → Step reg (finish reg run_id state now metrics)

pub data Reach (reg : Registry) : Registry → Type 0 where
  here : Reach reg reg
  next : {mid last : Registry} → Reach reg mid → Step mid last → Reach reg last

Step-IsConsistent : {reg reg' : Registry} → Step reg reg' → IsConsistent reg → IsConsistent reg'
Step-IsConsistent {reg} (creating fresh now provider_id model surface h) c =
    create-IsConsistent reg fresh now provider_id model surface c
Step-IsConsistent {reg} (cancelling run_id) c = cancel-IsConsistent reg run_id c
Step-IsConsistent {reg} (finishing run_id state now metrics h) c =
    finish-IsConsistent reg run_id state now metrics c

-- A registry at the start of a process is consistent with its journal, if it has one, where the
-- table's primary keys are distinct.
pub init-IsConsistent :
    (limit : ℤ) (journal : Option Journal) (now : ℤ)
    → ((j : Journal) → journal ≡ some j → HasDistinctKeys j)
    → IsConsistent (init limit journal now)
unfolding init Dict.get
init-IsConsistent limit none now h = record {
  distinct = tt;
  named = λ k r e. cc;
  mirrored = λ j e. cc;
}
init-IsConsistent limit (some j) now h = record {
  distinct = tt;
  named = λ k r e. cc;
  mirrored = λ i e.
      let p : (reconcile j now).0 ≡ i = cc in
      record { keys = rw p at (reconcile-HasDistinctKeys j now (h j refl)); rows = λ k r e. cc };
}

-- Whatever steps handlers make, a registry that is consistent with its journal stays so.
pub Reach-IsConsistent :
    {reg reg' : Registry} → IsConsistent reg → Reach reg reg' → IsConsistent reg'
Reach-IsConsistent c here = c
Reach-IsConsistent c (next r s) = Step-IsConsistent s (Reach-IsConsistent c r)

-- the run that is reported after a restart for a run that was in memory
abbrev pub restarted : ℤ → String → Run → Run
restarted now k run = run_of k (interrupt now (row_of run))
