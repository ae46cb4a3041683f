-- ===== src/Reconciler/Steady/Training.antt =====
-- The training of a run in `Reconcile` of control-plane/rlservice/reconciler.go, by the
-- statuses that it may give the run.
use skyscale.Prelude.{refl, inl, inr, String, ◌==◌, Option, none, some, leb}
use skyscale.Contracts.{RlRunSpec}
use skyscale.Reconciler.Types.{RlRun, RlAttempt, CheckpointRecord, Object}
use skyscale.Reconciler.Store.{latest_rl_checkpoint}
use skyscale.Reconciler.Monad.{Pass}
use skyscale.Reconciler.Environment.{Environment}
use skyscale.Reconciler.Attempts.{
  start_attempt, ensure_attempt, begin_evaluation, complete_run, observe_success, retry_or_fail,
  observe_failure, observe_progress, observe_status, observe_ray_job, is_success, is_failure,
  is_evaluated, max_retries,
}
use skyscale.Reconciler.Passes.{
  scale_rollout, place_rollout, try_latest, take_checkpoint, find_checkpoint, execution_spec, train,
}
use skyscale.Reconciler.Machine.{IsProgress}
use skyscale.Reconciler.Frame.{
  ensure_tenant_infrastructure-Keeps, apply_and_track-Keeps, save_attempt-Keeps,
  save_evaluation-Keeps,
}
use skyscale.Reconciler.Logic.{
  Keeps, Steady, bind-Keeps, then-Keeps, pure-Keeps, or_fail-Keeps, if-Keeps, the_run-Keeps,
  reads-Keeps, wrapped-Keeps, get_object-Keeps,
}

module _ {K : Type 0} (env : Environment K) {I : Pass K → Type 0} {P : String → Type 0}
    (steady : Steady I P) (progress : (t : String) → IsProgress t → P t) where
  start_attempt-Keeps : (spec : RlRunSpec) (run : RlRun) → Keeps I (start_attempt env spec run)
  unfolding start_attempt
  start_attempt-Keeps spec run = bind-Keeps (reads-Keeps steady.quiet _) (λ attempts.
      then-Keeps
        (steady.status _ "starting" (λ r. refl) (λ r. refl) (λ r. refl)
          (progress "starting" (inl refl)))
        (then-Keeps (save_attempt-Keeps steady.quiet env _)
          (then-Keeps steady.saved (pure-Keeps _))))

  ensure_attempt-Keeps : (spec : RlRunSpec) → Keeps I (ensure_attempt env spec)
  unfolding ensure_attempt
  ensure_attempt-Keeps spec = bind-Keeps the_run-Keeps (λ run.
      if-Keeps (run.current_attempt_id == "") (λ _. start_attempt-Keeps spec run)
        (λ _. reads-Keeps steady.quiet _))

  scale_rollout-Keeps :
      (spec : RlRunSpec) (attempt : RlAttempt) → Keeps I (scale_rollout env spec attempt)
  unfolding scale_rollout
  scale_rollout-Keeps spec attempt =
      then-Keeps (apply_and_track-Keeps steady.quiet env attempt _ _) (
        bind-Keeps the_run-Keeps (λ run.
          then-Keeps (steady.same _ (λ r. refl) (λ r. refl) (λ r. refl))
            (then-Keeps (apply_and_track-Keeps steady.quiet env attempt _ _) steady.saved)))

  place_rollout-Keeps :
      (spec : RlRunSpec) (attempt : RlAttempt) → Keeps I (place_rollout env spec attempt)
  unfolding place_rollout
  place_rollout-Keeps spec attempt =
      if-Keeps (spec.topology.mode == "disaggregated") (λ _. scale_rollout-Keeps spec attempt)
        (λ _. pure-Keeps tt)

  try_latest-Keeps : Keeps I (try_latest env)
  unfolding try_latest
  try_latest-Keeps = record {
    after = λ s. (reads-Keeps steady.quiet (λ db. latest_rl_checkpoint s.run.id db)).after s;
  }

  take_checkpoint-Keeps : (c : Option CheckpointRecord) → Keeps I (take_checkpoint env c)
  unfolding take_checkpoint
  take_checkpoint-Keeps none = pure-Keeps tt
  take_checkpoint-Keeps (some c) =
      then-Keeps (steady.same _ (λ r. refl) (λ r. refl) (λ r. refl)) steady.saved

  find_checkpoint-Keeps : Keeps I (find_checkpoint env)
  unfolding find_checkpoint
  find_checkpoint-Keeps = bind-Keeps the_run-Keeps (λ run.
      if-Keeps (run.checkpoint_id == "") (λ _. bind-Keeps try_latest-Keeps take_checkpoint-Keeps)
        (λ _. pure-Keeps tt))

  execution_spec-Keeps : (spec : RlRunSpec) → Keeps I (execution_spec env spec)
  unfolding execution_spec
  execution_spec-Keeps spec = bind-Keeps the_run-Keeps (λ run.
      if-Keeps (run.checkpoint_id == "") (λ _. pure-Keeps spec)
        (λ _. bind-Keeps (wrapped-Keeps _ (reads-Keeps steady.quiet _)) (λ c. pure-Keeps _)))

  begin_evaluation-Keeps : (run : RlRun) → Keeps I (begin_evaluation env run)
  unfolding begin_evaluation
  begin_evaluation-Keeps run = then-Keeps (save_evaluation-Keeps steady.quiet env _) (
      steady.status _ "evaluating" (λ r. refl) (λ r. refl) (λ r. refl)
        (progress "evaluating" (inr (inr (inl refl)))))

  complete_run-Keeps : Keeps I (complete_run env)
  unfolding complete_run
  complete_run-Keeps =
      steady.status _ "completed" (λ r. refl) (λ r. refl) (λ r. refl)
        (progress "completed" (inr (inr (inr (inl refl)))))

  observe_success-Keeps :
      (attempt : RlAttempt) (spec : RlRunSpec) → Keeps I (observe_success env attempt spec)
  unfolding observe_success
  observe_success-Keeps attempt spec = bind-Keeps the_run-Keeps (λ run.
      then-Keeps
        (if-Keeps (is_evaluated spec) (λ _. begin_evaluation-Keeps run) (λ _. complete_run-Keeps))
        (pure-Keeps _))

  retry_or_fail-Keeps :
      (attempt : RlAttempt) (spec : RlRunSpec) (reason : String)
      → Keeps I (retry_or_fail env attempt spec reason)
  unfolding retry_or_fail
  retry_or_fail-Keeps attempt spec reason =
      if-Keeps (leb attempt.number (max_retries spec))
        (λ _.
          steady.status _ "starting" (λ r. refl) (λ r. refl) (λ r. refl)
            (progress "starting" (inl refl)))
        (λ _.
          steady.status _ "failed" (λ r. refl) (λ r. refl) (λ r. refl)
            (progress "failed" (inr (inr (inr (inr refl))))))

  observe_status-Keeps :
      (attempt : RlAttempt) (spec : RlRunSpec) (job : Object) (observed : String)
      → Keeps I (observe_status env attempt spec job observed)
  unfolding observe_status observe_failure observe_progress
  observe_status-Keeps attempt spec job observed =
      if-Keeps (is_success observed) (λ _. observe_success-Keeps attempt spec)
        (λ _.
          if-Keeps (is_failure observed)
            (λ _. then-Keeps (retry_or_fail-Keeps attempt spec _) (pure-Keeps _))
            (λ _.
              then-Keeps
                (steady.status _ "running" (λ r. refl) (λ r. refl) (λ r. refl)
                  (progress "running" (inr (inl refl))))
                (pure-Keeps _)))

  observe_ray_job-Keeps :
      (attempt : RlAttempt) (spec : RlRunSpec) (job : Object)
      → Keeps I (observe_ray_job env attempt spec job)
  unfolding observe_ray_job
  observe_ray_job-Keeps attempt spec job =
      bind-Keeps (observe_status-Keeps attempt spec job _) (λ changed.
        then-Keeps (steady.same _ (λ r. refl) (λ r. refl) (λ r. refl))
          (then-Keeps (save_attempt-Keeps steady.quiet env changed) steady.saved))

  pub train-Keeps : (spec : RlRunSpec) → Keeps I (train env spec)
  unfolding train
  train-Keeps spec = then-Keeps (ensure_tenant_infrastructure-Keeps steady.quiet env spec) (
      bind-Keeps (ensure_attempt-Keeps spec) (λ attempt.
        then-Keeps (place_rollout-Keeps spec attempt) (
          then-Keeps find_checkpoint-Keeps (
            bind-Keeps (execution_spec-Keeps spec) (λ execution.
              then-Keeps (apply_and_track-Keeps steady.quiet env attempt _ _) (
                bind-Keeps (get_object-Keeps steady.quiet env _ _ _) (λ answer.
                  bind-Keeps (or_fail-Keeps _ answer) (observe_ray_job-Keeps attempt spec))))))))
