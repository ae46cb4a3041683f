-- ===== src/Reconciler/Machine.antt =====
-- The states of a run as an abstract machine: what one pass of `Reconcile` of
-- control-plane/rlservice/reconciler.go may make of a run's status, given the state that the owner
-- asked for. It knows nothing of Kubernetes, of attempts or of failures.
use skyscale.Prelude.{◌≡◌, ◌≢◌, ◌⊎◌, String, Option, some, false}
use skyscale.Reconciler.Types.{RlRun}
use skyscale.Reconciler.Passes.{skips}

-- The statuses in which a policy is being judged, and those that a judgement leads to.
abbrev pub IsJudged : String → Type 0
IsJudged s = (s ≡ "evaluating") ⊎ (s ≡ "canary")

abbrev pub IsVerdict : String → Type 0
IsVerdict t = (t ≡ "canary") ⊎ (t ≡ "completed") ⊎ (t ≡ "running")

abbrev pub IsProgress : String → Type 0
IsProgress t =
    (t ≡ "starting") ⊎ (t ≡ "running") ⊎ (t ≡ "evaluating") ⊎ (t ≡ "completed") ⊎ (t ≡ "failed")

-- Nothing asks the run to stop, and no policy of it is being judged.
pub record MayTrain (desired s : String) : Type 0 where
  pub wanted : desired ≢ "cancelled"
  pub active : desired ≢ "suspended"
  pub kept : s ≢ "cancelling"
  pub unjudged : ¬ IsJudged s

pub data Moves (desired s t : String) : Type 0 where
  stays : t ≡ s → Moves desired s t
  cancels : desired ≡ "cancelled" → t ≡ "cancelling" → Moves desired s t
  ends : s ≡ "cancelling" → t ≡ "cancelled" → Moves desired s t
  suspends : desired ≡ "suspended" → s ≢ "cancelling" → t ≡ "suspended" → Moves desired s t
  judges : s ≢ "cancelling" → IsJudged s → IsVerdict t → Moves desired s t
  trains : MayTrain desired s → IsProgress t → Moves desired s t

-- The run as it is now, given the run as it was when the pass began.
pub record MovesRun (was now : RlRun) : Type 0 where
  pub id : now.id ≡ was.id
  pub desired : now.desired_state ≡ was.desired_state
  pub status : Moves was.desired_state was.status now.status

-- What `ReconcileAll` may do to the row of a run: leave it, or move a run that it does not skip.
pub data RowSteps (before after : Option RlRun) : Type 0 where
  untouched : after ≡ before → RowSteps before after
  moved :
      (was now : RlRun)
      → before ≡ some was
      → after ≡ some now
      → skips was ≡ false
      → MovesRun was now
      → RowSteps before after
