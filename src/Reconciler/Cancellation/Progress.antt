-- ===== src/Reconciler/Cancellation/Progress.antt =====
-- The second step of a cancellation, of control-plane/rlservice/reconciler.go, where the cluster
-- obliges: it ends, or waits for an
-- object.
use skyscale.Prelude.{List, ◌⊎◌, ◌≡◌, String, some, lookup}
use skyscale.Reconciler.Types.{RlRun, BackendResource}
use skyscale.Reconciler.Monad.{Pass}
use skyscale.Reconciler.Environment.{Environment}
use skyscale.Reconciler.Cancellation.Waiting.{StillThere}

-- The run has the status, and so has its row.
abbrev pub Stands : {K : Type 0} → String → Pass K → Type 0
Stands status t =
    (t.run.status ≡ status)
    × ((r : RlRun) × (lookup t.run.id t.db.runs ≡ some r) × (r.status ≡ status))

module _ {K : Type 0} (env : Environment K) (Good : K → Type 0) (id : String) (was : RlRun)
    (on : was.status ≡ "cancelling") (rows : List BackendResource) where
  -- The run is cancelled, or it waits for an object that is still there.
  abbrev Outcome : Pass K → Type 0
  Outcome t = Stands "cancelled" t ⊎ (Stands "cancelling" t × StillThere rows t.trace)
