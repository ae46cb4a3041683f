-- ===== src/Reconciler/Attempts.antt =====
-- control-plane/rlservice/reconciler.go: the attempts of a run and the RayJob of an attempt.
use Prim.Native.String.{◌++◌}
use skyscale.Prelude.{
  ℕ, suc, String, Bool, true, false, not, ◌||◌, ◌==◌, List, [], ◌∷◌, Option, none, some, leb,
  lookup, if◌then◌else◌, ok, err, length,
}
use skyscale.Prelude.Int.{ℤ, pos, ltb_ℤ}
use skyscale.Prelude.Decimal.{atoi, pad3}
use skyscale.Contracts.{RlRunSpec, EvaluationGate}
use skyscale.Reconciler.Types.{
  RlRun, RlAttempt, BackendResource, EvaluationRecord, Gvr, namespaces, service_accounts,
  resource_quotas, limit_ranges, network_policies, Object, tenant_failed, apply_failed, or_blank,
  text_or,
}
use skyscale.Reconciler.Store.{
  save_backend_resource, get_rl_attempt, list_rl_attempts, save_rl_attempt, save_rl_evaluation,
}
use skyscale.Reconciler.Monad.{
  Action, pure, ◌>>=◌, ◌>>◌, the_run, set_run, save_run, reads, writes, connect, for_each,
}
use skyscale.Reconciler.Environment.{Environment, apply_object, or_fail}

-- The quota of GPUs: what the environment variable says, where it is a positive number.
unfoldable pub quota_of : Option ℤ → ℤ
quota_of none = pos 8
quota_of (some n) = if ltb_ℤ (pos 0) n then n else pos 8

unfoldable pub max_gpus : String → ℤ
max_gpus raw = quota_of (atoi raw)

unfoldable pub retries_of : Option ℤ → ℕ
retries_of (some (pos n)) = if leb n 10 then n else 2
retries_of _ = 2

-- The number of retries that the arguments ask for.
unfoldable pub max_retries : RlRunSpec → ℕ
max_retries spec = retries_of (atoi (or_blank (lookup "max_retries" spec.algorithm.arguments)))

-- SaveRLEvaluation
unfoldable pub save_evaluation : {K : Type 0} → EvaluationRecord → Action K (Unit {0})
save_evaluation e = do
  connect
  (λ s. elim (save_rl_evaluation e s.db) [
    | ok db ↦ (record s { db = db }, ok tt)
    | err x ↦ (s, err x)
  ])

abbrev pub is_success : String → Bool
is_success observed = observed == "SUCCEEDED" || observed == "Complete" || observed == "Succeeded"

abbrev pub is_failure : String → Bool
is_failure observed = observed == "FAILED" || observed == "Failed"

abbrev pub has_gates : List EvaluationGate → Bool
has_gates [] = false
has_gates (_ ∷ _) = true

abbrev pub is_evaluated : RlRunSpec → Bool
is_evaluated spec = not (spec.evaluation.suite_uri == "") || has_gates spec.evaluation.gates

module _ {K : Type 0} (env : Environment K) where
  unfoldable pub apply_tenant : Gvr × Object → Action K (Unit {0})
  apply_tenant resource = do
    answer ← apply_object env resource.0 resource.1
    _ ← or_fail (tenant_failed resource.1.kind) answer
    pure tt

  unfoldable pub ensure_tenant_infrastructure : RlRunSpec → Action K (Unit {0})
  ensure_tenant_infrastructure spec = for_each apply_tenant (
      (namespaces, env.render.tenant_namespace spec)
      ∷ (service_accounts, env.render.tenant_service_account spec)
      ∷ (resource_quotas, env.render.tenant_quota spec (max_gpus env.tenant_max_gpus))
      ∷ (limit_ranges, env.render.tenant_limit_range spec)
      ∷ (network_policies, env.render.tenant_network_policy spec)
      ∷ [])

  unfoldable pub new_attempt : RlRunSpec → RlRun → ℕ → RlAttempt
  new_attempt spec run number =
      let id = "attempt-" ++ pad3 number in
      record {
        id = id ++ "-" ++ run.id;
        run_id = run.id;
        number = number;
        status = "starting";
        ray_job_name = spec.metadata.run_id ++ "-" ++ id ++ "-" ++ run.id;
        namespace = env.render.namespace_for spec.metadata.tenant_id spec.metadata.project_id;
        resume_checkpoint_id = run.checkpoint_id;
        failure_reason = "";
        started_at = env.now;
        finished_at = 0;
      }

  unfoldable pub start_attempt : RlRunSpec → RlRun → Action K RlAttempt
  start_attempt spec run = do
    attempts ← reads (λ db. ok (list_rl_attempts run.id db))
    let attempt = new_attempt spec run (suc (length attempts))
    set_run (λ r. record r {
      current_attempt_id = attempt.id;
      status = "starting";
      observed_state = "reconciling";
      updated_at = env.now;
    })
    writes (save_rl_attempt attempt)
    save_run
    pure attempt

  unfoldable pub ensure_attempt : RlRunSpec → Action K RlAttempt
  ensure_attempt spec = do
    run ← the_run
    if run.current_attempt_id == ""
        then start_attempt spec run
        else reads (get_rl_attempt run.current_attempt_id)

  unfoldable pub tracked : RlRun → RlAttempt → Object → Object → BackendResource
  tracked run attempt object applied = record {
    id = 0;
    run_id = run.id;
    attempt_id = attempt.id;
    api_version = object.api_version;
    kind = object.kind;
    namespace = object.namespace;
    name = object.name;
    uid = applied.uid;
    generation = applied.generation;
    resource_version = applied.resource_version;
    desired_state = "present";
    observed_state = "present";
    failure_reason = "";
    deletion_pending = false;
    created_at = env.now;
    updated_at = env.now;
  }

  unfoldable pub apply_and_track : RlAttempt → Gvr → Object → Action K (Unit {0})
  apply_and_track attempt gvr object = do
    run ← the_run
    answer ← apply_object env gvr object
    applied ← or_fail (apply_failed object.kind object.name) answer
    writes (save_backend_resource (tracked run attempt object applied))

  abbrev field_of : Object → List String → String
  field_of object path = env.nested_string object.content path

  unfoldable pub observed_status : Object → String
  observed_status job = text_or (field_of job ("status" ∷ "jobStatus" ∷ [])) (
      text_or (field_of job ("status" ∷ "jobDeploymentStatus" ∷ []))
        (field_of job ("status" ∷ "deploymentStatus" ∷ [])))

  unfoldable pub first_evaluation : RlRun → EvaluationRecord
  first_evaluation run = record {
    id = "eval-" ++ run.id ++ "-" ++ run.policy_version;
    run_id = run.id;
    policy_version = run.policy_version;
    checkpoint_id = run.checkpoint_id;
    ray_job_name = "";
    status = "pending";
    metrics_json = "";
    gates_passed = false;
    is_final = true;
    canary_state = "pending";
    failure_reason = "";
    created_at = env.now;
    updated_at = env.now;
  }

  unfoldable pub begin_evaluation : RlRun → Action K (Unit {0})
  begin_evaluation run = do
    save_evaluation (first_evaluation run)
    set_run (λ r. record r {
      status = "evaluating";
      observed_state = "evaluation-pending";
      failure_reason = "";
    })

  unfoldable pub complete_run : Action K (Unit {0})
  complete_run =
      set_run
        (λ r. record r { status = "completed"; observed_state = "succeeded"; failure_reason = "" })

  unfoldable pub observe_success : RlAttempt → RlRunSpec → Action K RlAttempt
  observe_success attempt spec = do
    run ← the_run
    if is_evaluated spec then begin_evaluation run else complete_run
    pure (record attempt { status = "completed"; finished_at = env.now })

  unfoldable pub retry_or_fail : RlAttempt → RlRunSpec → String → Action K (Unit {0})
  retry_or_fail attempt spec reason =
      if leb attempt.number (max_retries spec)
      then set_run (λ r. record r {
        current_attempt_id = "";
        status = "starting";
        observed_state = "retrying";
      })
      else set_run
          (λ r. record r { status = "failed"; observed_state = "failed"; failure_reason = reason })

  unfoldable pub observe_failure : RlAttempt → RlRunSpec → Object → Action K RlAttempt
  observe_failure attempt spec job = do
    let reason = text_or (field_of job ("status" ∷ "message" ∷ [])) "RayJob failed"
    retry_or_fail attempt spec reason
    pure (record attempt { status = "failed"; finished_at = env.now; failure_reason = reason })

  unfoldable pub observe_progress : RlAttempt → String → Action K RlAttempt
  observe_progress attempt observed = do
    set_run (λ r. record r { status = "running"; observed_state = text_or observed "pending" })
    pure (record attempt { status = "running" })

  unfoldable pub observe_status : RlAttempt → RlRunSpec → Object → String → Action K RlAttempt
  observe_status attempt spec job observed =
      if is_success observed
      then observe_success attempt spec
      else if is_failure observed
      then observe_failure attempt spec job
      else observe_progress attempt observed

  unfoldable pub observe_ray_job : RlAttempt → RlRunSpec → Object → Action K (Unit {0})
  observe_ray_job attempt spec job = do
    changed ← observe_status attempt spec job (observed_status job)
    set_run (λ r. record r { updated_at = env.now })
    writes (save_rl_attempt changed)
    save_run
