-- ===== src/Reconciler/Evaluation.antt =====
-- control-plane/rlservice/reconciler.go: `reconcileEvaluation`. The evaluation is a pointer to a row
-- in memory, which the steps return; its changes are lost where an error is returned before it is
-- saved.
use skyscale.Prelude.{
  ℕ, zero, suc, ◌+◌, ◌/◌, String, Bool, true, false, ◌&&◌, ◌||◌, ◌==◌, [], ◌∷◌, Option, none, some,
  if◌then◌else◌,
}
use skyscale.Prelude.Int.{ℤ, pos, negsuc, ◌+ℤ◌, ◌*ℤ◌, ltb_ℤ}
use skyscale.Prelude.Machine.{wrap64}
use skyscale.Contracts.{RlRunSpec}
use skyscale.RlService.Autoscale.{at_least}
use skyscale.Reconciler.Types.{
  RlRun, RlAttempt, EvaluationRecord, ray_jobs, deployments, services, Object, no_promotions,
  api_failed, promotion_failed, load_failed, text_or,
}
use skyscale.Reconciler.Store.{get_rl_attempt, get_rl_evaluation}
use skyscale.Reconciler.Monad.{
  Action, pure, fail, ◌>>=◌, ◌>>◌, the_run, set_run, save_run, reads, wrapped,
}
use skyscale.Reconciler.Environment.{
  Environment, PromotionController, get_object, apply_object, mark_run_good, roll_back_run, or_fail,
}
use skyscale.Reconciler.Attempts.{apply_and_track, save_evaluation, is_success, is_failure}

unfoldable pub minus : ℕ → ℤ
minus zero = pos 0
minus (suc n) = negsuc n

-- The quotient by 100 that is rounded towards zero, of an int.
unfoldable pub hundredth : ℤ → ℤ
hundredth (pos n) = pos (n / 100)
hundredth (negsuc n) = minus ((n + 1) / 100)

-- The replicas of the canary: the percentage, rounded up, and one at least.
unfoldable pub canary_replicas : RlRunSpec → ℤ
canary_replicas spec =
    let percent =
      if ltb_ℤ (pos 0) spec.evaluation.canary_percent
      then spec.evaluation.canary_percent
      else pos 10 in
    at_least (pos 1)
      (hundredth (wrap64 (wrap64 (spec.topology.rollout.replicas *ℤ percent) +ℤ pos 99)))

-- r.promotions, which may be nil.
unfoldable pub controller_of :
    {K : Type 0} → Option (PromotionController K) → Action K (PromotionController K)
controller_of none = fail no_promotions
controller_of (some c) = pure c

module _ {K : Type 0} (env : Environment K) where
  unfoldable pub ray_job_status : Object → String
  ray_job_status job =
      text_or (env.nested_string job.content ("status" ∷ "jobStatus" ∷ []))
        (env.nested_string job.content ("status" ∷ "jobDeploymentStatus" ∷ []))

  unfoldable pub keep_stable : RlRunSpec → RlAttempt → Action K (Unit {0})
  keep_stable spec attempt = do
    run ← the_run
    if spec.topology.mode == "disaggregated"
        then apply_and_track env attempt deployments (
            env.render.rollout_deployment_state spec
              (text_or run.last_good_policy_version run.policy_version)
              spec.topology.rollout.min_replicas false)
        else pure tt

  -- Apply the job, and ask for it.
  unfoldable pub run_evaluator : RlAttempt → Object → Action K Object
  run_evaluator attempt job = do
    apply_and_track env attempt ray_jobs job
    answer ← get_object env ray_jobs job.namespace job.name
    or_fail api_failed answer

  unfoldable pub start_canary : RlRunSpec → RlAttempt → EvaluationRecord → Action K EvaluationRecord
  start_canary spec attempt e = do
    run ← the_run
    apply_and_track env attempt deployments
        (env.render.canary_rollout_deployment spec run.policy_version (canary_replicas spec) false)
    apply_and_track env attempt services (env.render.canary_rollout_service spec)
    set_run (λ r. record r { status = "canary"; observed_state = "canary-running" })
    pure (record e { canary_state = "running" })

  unfoldable pub await_metrics : EvaluationRecord → Action K EvaluationRecord
  await_metrics e = if e.status == "failed" then pure e else do
    set_run (λ r. record r { observed_state = "evaluation-awaiting-metrics" })
    pure (record e { status = "awaiting-metrics" })

  unfoldable pub judge_success :
      RlRunSpec → RlAttempt → EvaluationRecord → Action K EvaluationRecord
  judge_success spec attempt e =
      if e.status == "passed" && e.gates_passed
      then start_canary spec attempt e
      else await_metrics e

  unfoldable pub still_running : EvaluationRecord → Action K EvaluationRecord
  still_running e = do
    set_run (λ r. record r { observed_state = "evaluation-running" })
    pure (record e { status = "running" })

  unfoldable pub judge_evaluator :
      RlRunSpec → RlAttempt → EvaluationRecord → String → Action K EvaluationRecord
  judge_evaluator spec attempt e status =
      if is_failure status
      then pure (record e { status = "failed"; failure_reason = "evaluator RayJob failed" })
      else if is_success status
      then judge_success spec attempt e
      else still_running e

  unfoldable pub evaluate_policy :
      RlRunSpec → RlAttempt → EvaluationRecord → Action K EvaluationRecord
  evaluate_policy spec attempt e = do
    let job = env.render.evaluator_ray_job spec e.id e.policy_version
    observed ← run_evaluator attempt job
    judge_evaluator spec attempt (record e { ray_job_name = job.name }) (ray_job_status observed)

  unfoldable pub judge_canary : EvaluationRecord → String → Action K EvaluationRecord
  judge_canary e status =
      if is_failure status
      then pure
          (record e { canary_state = "failed"; failure_reason = "canary evaluator RayJob failed" })
      else if is_success status
      then (set_run (λ r. record r { observed_state = "canary-awaiting-metrics" }) >> pure e)
      else pure e

  unfoldable pub evaluate_canary :
      RlRunSpec → RlAttempt → EvaluationRecord → Action K EvaluationRecord
  evaluate_canary spec attempt e = do
    observed ←
        run_evaluator attempt
          (env.render.evaluator_ray_job_phase spec e.id e.policy_version "canary")
    judge_canary e (ray_job_status observed)

  unfoldable pub evaluator_phase :
      RlRunSpec → RlAttempt → EvaluationRecord → Action K EvaluationRecord
  evaluator_phase spec attempt e = do
    run ← the_run
    if run.status == "evaluating" then evaluate_policy spec attempt e else pure e

  unfoldable pub canary_phase : RlRunSpec → RlAttempt → EvaluationRecord → Action K EvaluationRecord
  canary_phase spec attempt e = do
    run ← the_run
    if run.status == "canary" && e.canary_state == "running"
        then evaluate_canary spec attempt e
        else pure e

  abbrev pub after_rollback : Bool → String → RlRun → RlRun
  after_rollback is_final version r = record r {
    policy_version = version;
    rollout_draining = true;
    status = if is_final then "completed" else "running";
    observed_state = if is_final then "rolled-back" else "periodic-evaluation-rolled-back";
  }

  unfoldable pub roll_back_policy : EvaluationRecord → Action K (Unit {0})
  roll_back_policy e = do
    run ← the_run
    c ← controller_of env.promotions
    answer ← roll_back_run env c run.id e.failure_reason
    version ← or_fail promotion_failed answer
    set_run (after_rollback e.is_final version)

  abbrev pub after_promotion : Bool → RlRun → RlRun
  after_promotion is_final r = record r {
    last_good_policy_version = r.policy_version;
    rollout_draining = false;
    status = if is_final then "completed" else "running";
    observed_state = if is_final then "promoted" else "periodic-evaluation-promoted";
  }

  unfoldable pub promote_policy : RlRunSpec → EvaluationRecord → Action K (Unit {0})
  promote_policy spec e = do
    run ← the_run
    c ← controller_of env.promotions
    answer ← mark_run_good env c run.id run.policy_version
    _ ← or_fail promotion_failed answer
    set_run (after_promotion e.is_final)
    _ ←
        apply_object env deployments
          (env.render.canary_rollout_deployment spec run.policy_version (pos 0) true)
    pure tt

  -- What the evaluation decides: to go back, to promote, or nothing yet.
  unfoldable pub decide : RlRunSpec → EvaluationRecord → Action K (Unit {0})
  decide spec e = do
    run ← the_run
    if e.status == "failed" || e.canary_state == "failed"
        then roll_back_policy e
        else if run.status == "canary" && e.canary_state == "passed"
        then promote_policy spec e
        else pure tt

  unfoldable pub reconcile_evaluation : RlRunSpec → Action K (Unit {0})
  reconcile_evaluation spec = do
    run ← the_run
    loaded ←
        wrapped (load_failed "evaluation") (reads (get_rl_evaluation run.id run.policy_version))
    attempt ← reads (get_rl_attempt run.current_attempt_id)
    keep_stable spec attempt
    evaluated ← evaluator_phase spec attempt loaded
    e ← canary_phase spec attempt evaluated
    decide spec e
    set_run (λ r. record r { updated_at = env.now })
    save_evaluation (record e { updated_at = env.now })
    save_run
