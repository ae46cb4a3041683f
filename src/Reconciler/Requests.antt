-- ===== src/Reconciler/Requests.antt =====
-- control-plane/api/rl_slime.go: `setSlimeDesiredState`, which the handlers of a suspension and of a
-- resumption call. The HTTP status and the text of an answer are one constructor for each.
use skyscale.Prelude.{
  ℕ, String, Bool, not, ◌||◌, ◌==◌, Option, none, some, lookup, if◌then◌else◌, Result, ok, err,
}
use skyscale.Reconciler.Types.{RlRun}
use skyscale.Reconciler.Store.{Database, save_rl_run}

pub data Refusal : Type 0 where
  no_run not_slime terminal_run update_failed : Refusal

-- The run that is saved.
unfoldable pub desired_run : String → ℕ → RlRun → RlRun
desired_run desired now r = record r {
  desired_state = desired;
  updated_at = now;
  status = if desired == "running" then "starting" else r.status;
}

-- The checks on the run that was found, and the save, which fails if `fails`.
unfoldable pub set_desired_of :
    String → ℕ → Bool → Database → Option RlRun → Result Refusal Database
set_desired_of desired now fails db none = err no_run
set_desired_of desired now fails db (some r) =
    if not (r.backend == "slime")
    then err not_slime
    else if r.status == "completed" || r.status == "cancelled" || r.status == "failed"
    then err terminal_run
    else if fails
    then err update_failed
    else ok (save_rl_run (desired_run desired now r) db)

unfoldable pub set_slime_desired_state :
    String → String → ℕ → Bool → Database → Result Refusal Database
set_slime_desired_state id desired now fails db =
    set_desired_of desired now fails db (lookup id db.runs)
