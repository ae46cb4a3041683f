-- ===== src/Reconciler/Passes.antt =====
-- control-plane/rlservice/reconciler.go: `Reconcile`, one pass over a run, and `ReconcileAll`.
use skyscale.Prelude.{
  String, Bool, true, false, not, ◌&&◌, ◌||◌, ◌==◌, List, [], ◌∷◌, Option, none, some,
  if◌then◌else◌, Result, ok, err,
}
use skyscale.Prelude.Int.{ℤ, pos, ltb_ℤ}
use skyscale.Contracts.{RlRunSpec}
use skyscale.Contracts.Validate.{RunSnapshot, snapshot}
use skyscale.RlService.Autoscale.{RolloutMetrics, desired_rollout_replicas}
use skyscale.Reconciler.Types.{
  RlRun, RlAttempt, CheckpointRecord, ray_jobs, deployments, services, ReconcileError, bad_snapshot,
  integrity_failed, hash_failed, observe_failed, load_failed,
}
use skyscale.Reconciler.Store.{list_rl_runs, latest_rl_checkpoint, get_rl_checkpoint}
use skyscale.Reconciler.Monad.{
  Pass, Action, pure, fail, ◌>>=◌, ◌>>◌, the_run, set_run, save_run, reads, wrapped,
}
use skyscale.Reconciler.Environment.{Environment, get_object, or_fail}
use skyscale.Reconciler.Ownership.{discover_owned, suspend_owned, delete_owned}
use skyscale.Reconciler.Attempts.{
  ensure_tenant_infrastructure, ensure_attempt, apply_and_track, observe_ray_job,
}
use skyscale.Reconciler.Evaluation.{reconcile_evaluation}

unfoldable pub terminal : String → Bool
terminal status = status == "completed" || status == "cancelled" || status == "failed"

unfoldable pub metrics_of : RlRun → RolloutMetrics
metrics_of run = record {
  queue_depth = run.rollout_queue_depth;
  generation_p95_sec = run.rollout_generation_p95;
  tokens_per_second = run.rollout_tokens_per_second;
  trainer_demand = run.rollout_trainer_demand;
  backpressured = run.backpressured;
}

unfoldable pub skips : RlRun → Bool
skips run = not (run.backend == "slime") || terminal run.status

module _ {K : Type 0} (env : Environment K) where
  -- The spec of the run's snapshot, where the snapshot is what it says.
  unfoldable pub same_hash : RunSnapshot → Result ReconcileError RunSnapshot → Action K RlRunSpec
  same_hash s (err e) = fail e
  same_hash s (ok recomputed) =
      if recomputed.sha256 == s.sha256 then pure s.spec else fail hash_failed

  abbrev recomputed : RunSnapshot → Result ReconcileError RunSnapshot
  recomputed s = elim (snapshot env.is_cidr env.digest env.now s.spec) [
    | ok again ↦ ok again
    | err problems ↦ err hash_failed
  ]

  unfoldable pub verified_spec : Action K RlRunSpec
  verified_spec = do
    run ← the_run
    s ← or_fail bad_snapshot (env.decode_snapshot run.snapshot_json)
    if s.sha256 == run.snapshot_sha256 && s.immutable
        then same_hash s (recomputed s)
        else fail integrity_failed

  unfoldable pub begin_cancel : Action K (Unit {0})
  begin_cancel = do
    suspend_owned env
    set_run (λ r. record r {
      status = "cancelling";
      observed_state = "draining";
      rollout_draining = true;
      updated_at = env.now;
    })
    save_run

  -- `_ = r.state.SaveRLRun(run)`: the error is dropped.
  unfoldable pub save_run_anyway : Action K (Unit {0})
  save_run_anyway s = ((save_run s).0, ok tt)

  unfoldable pub finish_cancel : Bool → Action K (Unit {0})
  finish_cancel true = do
    set_run (λ r. record r {
      status = "cancelled";
      observed_state = "cancelled";
      failure_reason = "";
      updated_at = env.now;
    })
    save_run
  finish_cancel false = do set_run (λ r. record r { updated_at = env.now }); save_run

  unfoldable pub go_on_cancelling : Action K (Unit {0})
  go_on_cancelling = do
    set_run (λ r. record r { status = "cancelling"; observed_state = "deleting" })
    save_run_anyway
    done ← delete_owned env
    finish_cancel done

  unfoldable pub cancel_run : RlRun → Action K (Unit {0})
  cancel_run run = if run.status == "cancelling" then go_on_cancelling else begin_cancel

  unfoldable pub suspend_run : Action K (Unit {0})
  suspend_run = do
    suspend_owned env
    set_run (λ r. record r {
      status = "suspended";
      observed_state = "resources-suspended";
      updated_at = env.now;
    })
    save_run

  -- The replicas that the rollout deployment is to have.
  unfoldable pub wanted_replicas : RlRunSpec → RlRun → ℤ
  wanted_replicas spec run =
      let current =
        if ltb_ℤ (pos 0) run.rollout_desired_replicas
        then run.rollout_desired_replicas
        else spec.topology.rollout.replicas in
      let desired =
        desired_rollout_replicas env.ceil_quotient spec.topology.rollout current (metrics_of run) in
      if run.rollout_draining || run.backpressured then pos 0 else desired

  unfoldable pub scale_rollout : RlRunSpec → RlAttempt → Action K (Unit {0})
  scale_rollout spec attempt = do
    apply_and_track env attempt services (env.render.rollout_service spec)
    run ← the_run
    set_run (λ r. record r { rollout_desired_replicas = wanted_replicas spec run })
    apply_and_track env attempt deployments (
        env.render.rollout_deployment_state spec run.policy_version (wanted_replicas spec run)
          (run.rollout_draining || run.backpressured))
    save_run

  unfoldable pub place_rollout : RlRunSpec → RlAttempt → Action K (Unit {0})
  place_rollout spec attempt =
      if spec.topology.mode == "disaggregated" then scale_rollout spec attempt else pure tt

  -- `if checkpoint, err := r.state.LatestRLCheckpoint(run.ID); err == nil`
  unfoldable pub try_latest : Action K (Option CheckpointRecord)
  try_latest s =
      let (t, found) = reads (λ db. latest_rl_checkpoint s.run.id db) s in
      (t, elim found [ ok checkpoint ↦ ok (some checkpoint) | err e ↦ ok none ])

  unfoldable pub take_checkpoint : Option CheckpointRecord → Action K (Unit {0})
  take_checkpoint none = pure tt
  take_checkpoint (some c) = do
    set_run (λ r. record r {
      checkpoint_id = c.id;
      policy_version = c.policy_version;
      optimizer_step = c.optimizer_step;
      updated_at = env.now;
    })
    save_run

  unfoldable pub find_checkpoint : Action K (Unit {0})
  find_checkpoint = do
    run ← the_run
    if run.checkpoint_id == "" then (try_latest >>= take_checkpoint) else pure tt

  abbrev resume_from : RlRunSpec → String → RlRunSpec
  resume_from spec uri = record spec { checkpoint = record spec.checkpoint { resume_from = uri } }

  unfoldable pub execution_spec : RlRunSpec → Action K RlRunSpec
  execution_spec spec = do
    run ← the_run
    if run.checkpoint_id == ""
        then pure spec
        else (wrapped (load_failed "resume checkpoint")
              (reads (get_rl_checkpoint run.checkpoint_id))
            >>= λ c. pure (resume_from spec c.resume_uri))

  unfoldable pub train : RlRunSpec → Action K (Unit {0})
  train spec = do
    ensure_tenant_infrastructure env spec
    attempt ← ensure_attempt env spec
    place_rollout spec attempt
    find_checkpoint
    execution ← execution_spec spec
    let job = env.render.ray_job execution attempt.id
    apply_and_track env attempt ray_jobs job
    answer ← get_object env ray_jobs job.namespace job.name
    observed ← or_fail observe_failed answer
    observe_ray_job env attempt spec observed

  -- The early returns of `Reconcile`, in their order.
  unfoldable pub dispatch : RlRunSpec → RlRun → Action K (Unit {0})
  dispatch spec run =
      if run.desired_state == "cancelled" || run.status == "cancelling"
      then cancel_run run
      else if run.desired_state == "suspended"
      then suspend_run
      else if run.status == "evaluating" || run.status == "canary"
      then reconcile_evaluation env spec
      else train spec

  unfoldable pub reconcile : Action K (Unit {0})
  reconcile = do spec ← verified_spec; discover_owned env spec; run ← the_run; dispatch spec run

  -- What ReconcileAll does with the run after Reconcile returned.
  unfoldable pub record_failure :
      Pass K × Result ReconcileError (Unit {0}) → Pass K × Result ReconcileError (Unit {0})
  record_failure (s, ok _) = (s, ok tt)
  record_failure (s, err e) =
      save_run_anyway (record s {
        run = record s.run { failure_reason = env.error_text e; updated_at = env.now };
      })

  unfoldable pub reconcile_run : RlRun → Action K (Unit {0})
  reconcile_run run s = record_failure (reconcile (record s { run = run }))

  unfoldable pub reconcile_runs : List RlRun → Action K (Unit {0})
  reconcile_runs [] = pure tt
  reconcile_runs (r ∷ rs) = do if skips r then pure tt else reconcile_run r; reconcile_runs rs

  unfoldable pub reconcile_all : Action K (Unit {0})
  reconcile_all = do runs ← reads (λ db. ok (list_rl_runs db)); reconcile_runs runs
