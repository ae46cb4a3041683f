-- ===== src/Reconciler/Refinement.antt =====
-- `Reconcile` and `ReconcileAll` of control-plane/rlservice/reconciler.go as steps of the abstract
-- machine of run states: the run and its row during a pass, and the passes that stop a run.
pub mod Rounds
pub mod Rows
pub mod History
use skyscale.Prelude.{
  ℕ, ◌≡◌, ◌≢◌, ◌⊎◌, refl, sym, subst, ◌∙◌, inl, inr, String, Bool, true, false, not, ◌&&◌, ◌||◌,
  ◌==◌, List, [], ◌∷◌, Option, none, some, Dict, lookup, insert, lookup-insert, Distinct,
  insert-Distinct, Result, ok, err, arith, leb, if◌then◌else◌, Bool-cases, Text-cases, eq_iff,
  eq_refl,
}
use skyscale.Contracts.{RlRunSpec}
use skyscale.Reconciler.Types.{
  RlRun, RlAttempt, CheckpointRecord, EvaluationRecord, Object, ReconcileError,
}
use skyscale.Reconciler.Store.{Database, save_rl_run, latest_rl_checkpoint}
use skyscale.Reconciler.Monad.{
  Pass, Action, pure, fail, the_run, set_run, save_run, reads, ◌>>=◌, ◌>>◌, connect,
}
use skyscale.Reconciler.Environment.{Environment, delete_object, mark_run_good, roll_back_run}
use skyscale.Reconciler.Attempts.{
  start_attempt, ensure_attempt, begin_evaluation, complete_run, observe_success, retry_or_fail,
  observe_failure, observe_progress, observe_status, observe_ray_job, is_success, is_failure,
  is_evaluated, max_retries,
}
use skyscale.Reconciler.Passes.{
  begin_cancel, save_run_anyway, finish_cancel, go_on_cancelling, suspend_run, scale_rollout,
  place_rollout, try_latest, take_checkpoint, find_checkpoint, execution_spec, train,
}
use skyscale.Reconciler.Machine.{
  IsJudged, MayTrain, Moves, stays, cancels, ends, suspends, judges, trains, MovesRun,
}
use skyscale.Reconciler.Frame.{
  suspend_owned-Keeps, delete_owned-Keeps, discover_owned-Keeps, ensure_tenant_infrastructure-Keeps,
  apply_and_track-Keeps, save_attempt-Keeps, save_evaluation-Keeps, keep_stable-Keeps,
  run_evaluator-Keeps,
}
use skyscale.Reconciler.Steady.Judgement.{AllowsPromotion}
use skyscale.Reconciler.Logic.{
  Keeps, Steady, AllowsDelete, Quietly, IsQuiet, bind-Keeps, then-Keeps, pure-Keeps, fail-Keeps,
  or_fail-Keeps, if-Keeps, the_run-Keeps, connect-Keeps, reads-Keeps, get_object-Keeps,
  apply_object-Keeps,
}

-- Each row stands under the id of its run.
abbrev pub IsKeyed : Dict RlRun → Type 0
IsKeyed [] = Unit
IsKeyed ((k, r) ∷ m) = (r.id ≡ k) × IsKeyed m

-- What holds of the table of runs: the ids are keys, and each is there once.
abbrev pub IsTable : Dict RlRun → Type 0
IsTable m = Distinct m × IsKeyed m

insert-IsKeyed : (r : RlRun) (m : Dict RlRun) → IsKeyed m → IsKeyed (insert r.id r m)
unfolding insert
insert-IsKeyed r [] y = (refl, tt)
insert-IsKeyed r ((k, q) ∷ m) (e, y) = ground (arith, eq_iff k r.id, insert-IsKeyed r m y)

pub insert-IsTable : (r : RlRun) (m : Dict RlRun) → IsTable m → IsTable (insert r.id r m)
insert-IsTable r m t = (insert-Distinct r.id r m t.0, insert-IsKeyed r m t.1)

-- During a pass over the run `id`, where the table was `before`: the run in memory has `G`, and so
-- has its row, unless it was not saved; no other row was touched, and the table is still one.
pub record Holds {K : Type 0} (id : String) (before : Dict RlRun) (G : RlRun → Type 0) (s : Pass K)
    : Type 0 where
  pub own : s.run.id ≡ id
  pub held : G s.run
  pub others : (k : String) → id ≢ k → lookup k s.db.runs ≡ lookup k before
  pub table : IsTable s.db.runs
  pub stored :
      (lookup id s.db.runs ≡ lookup id before)
      ⊎ ((r : RlRun) × (lookup id s.db.runs ≡ some r) × (r.id ≡ id) × G r)

module _ {K : Type 0} (id : String) (before : Dict RlRun) (G : RlRun → Type 0) where
  Holds-IsQuiet : IsQuiet {K = K} (Holds id before G)
  Holds-IsQuiet = record {
    kept = λ s t q h. record {
      own = rw q.run h.own;
      held = subst G (sym q.run) h.held;
      others = λ k ne. rw q.runs (h.others k ne);
      table = subst IsTable (sym q.runs) h.table;
      stored = rw q.runs h.stored;
    };
  }

  set_run-Keeps :
      (f : RlRun → RlRun)
      → ((r : RlRun) → (f r).id ≡ r.id)
      → ((r : RlRun) → G r → G (f r))
      → Keeps {K = K} (Holds id before G) (set_run f)
  unfolding set_run
  set_run-Keeps f same good = record {
    after = λ s h. record {
      own = same s.run ∙ h.own;
      held = good s.run h.held;
      others = h.others;
      table = h.table;
      stored = h.stored;
    };
  }

  save_run-Keeps : Keeps {K = K} (Holds id before G) save_run
  unfolding save_run save_rl_run
  save_run-Keeps = then-Keeps (connect-Keeps Holds-IsQuiet) (record {
    after = λ s h. record {
      own = h.own;
      held = h.held;
      others = λ k ne.
          ground
            (arith, lookup-insert s.run.id k s.run s.db.runs, eq_iff id k, h.own, h.others k ne);
      table = insert-IsTable s.run s.db.runs h.table;
      stored = inr (
        s.run,
        ground (arith, lookup-insert s.run.id id s.run s.db.runs, eq_iff s.run.id id, h.own),
        h.own,
        h.held,
      );
    };
  })

module _ {K : Type 0} (env : Environment K) (before : Dict RlRun) (was : RlRun) where
  abbrev pub J : Pass K → Type 0
  J = Holds was.id before (MovesRun was)

  pub J-IsQuiet : IsQuiet J
  J-IsQuiet = Holds-IsQuiet was.id before (MovesRun was)

  pub save-Keeps : Keeps J save_run
  save-Keeps = save_run-Keeps was.id before (MovesRun was)

  -- An assignment of a status that the machine allows, and one that leaves the status alone.
  pub to_status :
      (f : RlRun → RlRun) (t : String)
      → ((r : RlRun) → (f r).id ≡ r.id)
      → ((r : RlRun) → (f r).desired_state ≡ r.desired_state)
      → ((r : RlRun) → (f r).status ≡ t)
      → Moves was.desired_state was.status t
      → Keeps J (set_run f)
  to_status f t i d e m =
      set_run-Keeps was.id before (MovesRun was) f i
        (λ r g. record { id = i r ∙ g.id; desired = d r ∙ g.desired; status = rw (e r) m })

  pub same_status :
      (f : RlRun → RlRun)
      → ((r : RlRun) → (f r).id ≡ r.id)
      → ((r : RlRun) → (f r).desired_state ≡ r.desired_state)
      → ((r : RlRun) → (f r).status ≡ r.status)
      → Keeps J (set_run f)
  same_status f i d e =
      set_run-Keeps was.id before (MovesRun was) f i
        (λ r g. record { id = i r ∙ g.id; desired = d r ∙ g.desired; status = rw (e r) g.status })

  pub J-Steady : Steady J (Moves was.desired_state was.status)
  J-Steady = record {
    quiet = J-IsQuiet;
    saved = save-Keeps;
    same = same_status;
    status = to_status;
  }

  -- The run and the table do not see the calls of the world outside.
  same_row : (s t : Pass K) → t.run ≡ s.run → t.db ≡ s.db → J s → J t
  same_row s t r d h = record {
    own = rw r h.own;
    held = subst (MovesRun was) (sym r) h.held;
    others = λ k ne. rw d (h.others k ne);
    table = subst (λ db. IsTable db.runs) (sym d) h.table;
    stored = rw d h.stored;
  }

  pub J-AllowsDelete : AllowsDelete J
  unfolding delete_object
  J-AllowsDelete = record {
    kept = λ env gvr ns name. record {
      after = λ s. same_row s (delete_object env gvr ns name s).0 refl refl;
    };
  }

  pub J-AllowsPromotion : AllowsPromotion env J
  unfolding mark_run_good roll_back_run
  J-AllowsPromotion = record {
    marked = λ c id v. record { after = λ s. same_row s (mark_run_good env c id v s).0 refl refl };
    rolled = λ c id v. record { after = λ s. same_row s (roll_back_run env c id v s).0 refl refl };
  }
