-- ===== src/Reconciler/Refinement/Rounds.antt =====
-- `Reconcile` over a run, of control-plane/rlservice/reconciler.go, as a step of the abstract machine.
use skyscale.Prelude.{◌≡◌, refl, sym, subst, ap, ◌∙◌, inl, Dict, Result, ok, err}
use skyscale.Contracts.{RlRunSpec}
use skyscale.Reconciler.Types.{RlRun, ReconcileError}
use skyscale.Reconciler.Monad.{Pass, the_run, ◌>>=◌}
use skyscale.Reconciler.Environment.{Environment}
use skyscale.Reconciler.Passes.{dispatch, reconcile, record_failure, reconcile_run}
use skyscale.Reconciler.Machine.{stays, ends, MovesRun}
use skyscale.Reconciler.Frame.{discover_owned-Keeps, delete_owned-Keeps}
use skyscale.Reconciler.Logic.{Keeps, IsQuiet, Leads, bind-Leads, then-Leads}
use skyscale.Reconciler.Refinement.{
  IsTable, J, J-IsQuiet, J-Steady, J-AllowsDelete, J-AllowsPromotion,
}
use skyscale.Reconciler.Steady.{save_run_anyway-Keeps, go_on_cancelling-Keeps}
use skyscale.Reconciler.Steady.Dispatch.{verified_spec-Keeps, dispatch-Keeps}

module _ {K : Type 0} (env : Environment K) (before : Dict RlRun) (was : RlRun)
    (table : IsTable before) where
  -- What holds while nothing has been written.
  abbrev Fresh : Pass K → Type 0
  Fresh s = (s.run ≡ was) × (s.db.runs ≡ before)

  Fresh-IsQuiet : IsQuiet Fresh
  Fresh-IsQuiet = record { kept = λ s t q h. (q.run ∙ h.0, q.runs ∙ h.1) }

  Fresh-J : (s : Pass K) → Fresh s → J env before was s
  Fresh-J s h = record {
    own = ap (λ r. r.id) h.0;
    held =
        subst (MovesRun was) (sym h.0) (record { id = refl; desired = refl; status = stays refl });
    others = λ k ne. rw (h.1) refl;
    table = subst IsTable (sym h.1) table;
    stored = inl (rw (h.1) refl);
  }

  moves_as_dispatched : (spec : RlRunSpec) → Keeps (J env before was) (dispatch env spec was)
  moves_as_dispatched =
      dispatch-Keeps env (J-Steady env before was) (J-AllowsPromotion env before was) was
        (λ e.
          go_on_cancelling-Keeps env (J-Steady env before was)
            (delete_owned-Keeps (J-IsQuiet env before was) env (J-AllowsDelete env before was))
            (stays (sym e)) (ends e refl))
        (λ t m. m)

  dispatch-Leads :
      (spec : RlRunSpec) → Leads Fresh (J env before was) (the_run >>= dispatch env spec)
  unfolding the_run ◌>>=◌
  dispatch-Leads spec = record {
    after = λ s h.
        subst (λ r. J env before was (dispatch env spec r s).0) (sym h.0)
          ((moves_as_dispatched spec).after s (Fresh-J s h));
  }

  pub reconcile-Leads : Leads Fresh (J env before was) (reconcile env)
  unfolding reconcile
  reconcile-Leads = bind-Leads Fresh-J (verified_spec-Keeps env) (λ spec.
      then-Leads Fresh-J (discover_owned-Keeps Fresh-IsQuiet env spec) (dispatch-Leads spec))

  record_failure-J :
      (r : Pass K × Result ReconcileError (Unit {0}))
      → J env before was r.0
      → J env before was (record_failure env r).0
  unfolding record_failure
  record_failure-J (s, ok _) h = h
  record_failure-J (s, err e) h =
      (save_run_anyway-Keeps env (J-Steady env before was)).after _ (record {
        own = h.own;
        held = record { id = h.held.id; desired = h.held.desired; status = h.held.status };
        others = h.others;
        table = h.table;
        stored = h.stored;
      })

  pub reconcile_run-J :
      (s : Pass K) → s.db.runs ≡ before → J env before was (reconcile_run env was s).0
  unfolding reconcile_run
  reconcile_run-J s e =
      record_failure-J (reconcile env (record s { run = was }))
        (reconcile-Leads.after (record s { run = was }) (refl, e))
