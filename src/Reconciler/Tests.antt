-- ===== src/Reconciler/Tests.antt =====
-- A run of control-plane/rlservice/reconciler.go in a cluster that keeps its objects in a map, as
-- that of control-plane/rlservice/reconciler_test.go, and the theorems on it.
use Prim.Native.String.{◌++◌}
use mathlib.Core.List.{Memᴰ}
use skyscale.Prelude.{
  ℕ, zero, suc, ap, ◌==◌, ◌≡◌, ◌⊎◌, refl, String, true, false, [], ◌∷◌, Option, none, some, Dict,
  lookup, insert, delete, Result, ok, err, All,
}
use skyscale.Prelude.Int.{pos}
use skyscale.Prelude.Machine.{nan}
use skyscale.RlService.Tests.{good_spec, no_cidr, depth, no_digest}
use skyscale.Reconciler.Types.{
  RlRun, RlAttempt, BackendResource, EvaluationRecord, Gvr, ray_jobs, deployments, services,
  config_maps, secrets, jobs, pvcs, namespaces, resource_quotas, limit_ranges, network_policies,
  service_accounts, Object, ApiError, not_found,
}
use skyscale.Reconciler.Store.{
  Database, list_backend_resources, where_rows, order_by, insert_by, delete_backend_resource,
  save_rl_run, save_backend_resource, upsert,
}
use skyscale.Reconciler.Monad.{
  Pass, set_run, save_run, connect, connected, ◌>>=◌, ◌>>◌, the_run, reads, writes, pure,
}
use skyscale.Reconciler.Environment.{
  Environment, Renderers, Client, PromotionController, get_object, apply_object, delete_object,
  or_fail,
}
use skyscale.Reconciler.Ownership.{
  delete_owned, delete_each, delete_one, delete_at, gvr_for_kind, delete_object_of, prepare_delete,
  drop_finalizer, without_finalizer, delete_and_confirm, confirm_delete,
}
use skyscale.Reconciler.Evaluation.{reconcile_evaluation}
use skyscale.Reconciler.Passes.{
  save_run_anyway, finish_cancel, skips, terminal, go_on_cancelling, reconcile, reconcile_all,
}
use skyscale.Reconciler.Machine.{RowSteps}
use skyscale.Reconciler.Requests.{desired_run, set_desired_of, set_slime_desired_state}
use skyscale.Reconciler.Refinement.{IsTable}
use skyscale.Reconciler.Refinement.Rows.{reconcile_all-RowSteps}
use skyscale.Reconciler.Refinement.History.{here, round, asks, cancelling_is_final, ended_run_rests}
use skyscale.Reconciler.Deletion.{
  Justified, discovery, deletes_only_what_is_owned, reconcile_deletes_only_what_is_owned,
}
use skyscale.Reconciler.Cancellation.Rows.{IsLeft}
use skyscale.Reconciler.Cancellation.Finish.{cancelled_only_when_gone}
use skyscale.Reconciler.Promotion.{Permitted, MayCanary}
use skyscale.Reconciler.Promotion.Gates.{promotion_is_gated}

abbrev resource_name : Gvr → String
resource_name ray_jobs = "rayjobs"
resource_name deployments = "deployments"
resource_name services = "services"
resource_name config_maps = "configmaps"
resource_name secrets = "secrets"
resource_name jobs = "jobs"
resource_name pvcs = "persistentvolumeclaims"
resource_name namespaces = "namespaces"
resource_name resource_quotas = "resourcequotas"
resource_name limit_ranges = "limitranges"
resource_name network_policies = "networkpolicies"
resource_name service_accounts = "serviceaccounts"

abbrev key_of : Gvr → String → String → String
key_of gvr ns name = resource_name gvr ++ "/" ++ ns ++ "/" ++ name

abbrev answer_of : Option Object → Result ApiError Object
answer_of none = err not_found
answer_of (some o) = ok o

abbrev Cluster : Type 0
Cluster = Dict Object

abbrev cluster : Client Cluster
cluster = record {
  apply = λ gvr o k.
      let o' : Object = record o { uid = "uid-" ++ o.name } in
      (insert (key_of gvr o.namespace o.name) o' k, ok o');
  get = λ gvr ns name k. (k, answer_of (lookup (key_of gvr ns name) k));
  list = λ gvr ns selector k. (k, ok []);
  delete = λ gvr ns name k. (delete (key_of gvr ns name) k, ok tt);
}

abbrev weights : PromotionController Cluster
weights = record { mark_good = λ id version k. (k, ok tt); rollback = λ id reason k. (k, ok "v0") }

abbrev object_of : String → String → Object
object_of kind name = record {
  api_version = "v1";
  kind = kind;
  namespace = "ns";
  name = name;
  uid = "";
  generation = pos 1;
  resource_version = "1";
  labels = ("app.kubernetes.io/managed-by", "skyscale") ∷ ("rl.skyscale.dev/run", "r") ∷ [];
  annotations = [];
  finalizers = "rl.skyscale.dev/finalizer" ∷ [];
  content = "SUCCEEDED";
}

abbrev plain_renderers : Renderers
plain_renderers = record {
  tenant_namespace = λ s. object_of "Namespace" "n";
  tenant_service_account = λ s. object_of "ServiceAccount" "sa";
  tenant_quota = λ s n. object_of "ResourceQuota" "q";
  tenant_limit_range = λ s. object_of "LimitRange" "l";
  tenant_network_policy = λ s. object_of "NetworkPolicy" "p";
  rollout_service = λ s. object_of "Service" "rollout";
  rollout_deployment_state = λ s v n d. object_of "Deployment" "rollout";
  canary_rollout_deployment = λ s v n d. object_of "Deployment" "canary";
  canary_rollout_service = λ s. object_of "Service" "canary";
  ray_job = λ s a. object_of "RayJob" "train";
  evaluator_ray_job = λ s e v. object_of "RayJob" "evaluate";
  evaluator_ray_job_phase = λ s e v p. object_of "RayJob" "evaluate-canary";
  namespace_for = λ t p. "ns";
}

abbrev given : {K : Type 0} → Client K → Option (PromotionController K) → Environment K
given client promotions = record {
  client = client;
  promotions = promotions;
  render = plain_renderers;
  nested_string = λ content path. content;
  set_nested_field = λ content value path. ok content;
  decode_snapshot = λ text. ok (record { spec = good_spec; sha256 = ""; immutable = true });
  is_cidr = no_cidr;
  digest = no_digest;
  ceil_quotient = depth;
  error_text = λ e. "error";
  tenant_max_gpus = "";
  now = 5;
}

abbrev fake : Environment Cluster
fake = given cluster (some weights)

abbrev run_in : String → RlRun
run_in status = record {
  id = "r";
  api_version = "v1";
  tenant_id = "t";
  project_id = "p";
  backend = "slime";
  status = status;
  desired_state = "running";
  observed_state = "";
  failure_reason = "";
  namespace = "ns";
  current_attempt_id = "a1";
  policy_version = "v1";
  last_good_policy_version = "";
  checkpoint_id = "";
  snapshot_json = "{}";
  snapshot_sha256 = "";
  base_model = "m";
  num_workers = pos 1;
  gpu_model = "g";
  policy_server_url = "";
  trainer_exec_id = "";
  worker_exec_ids = "";
  closed_loop = false;
  training_round = pos 0;
  optimizer_step = pos 0;
  backpressured = false;
  rollout_draining = false;
  rollout_queue_depth = pos 0;
  rollout_generation_p95 = nan;
  rollout_tokens_per_second = nan;
  rollout_trainer_demand = pos 0;
  rollout_desired_replicas = pos 0;
  created_at = 1;
  updated_at = 1;
}

abbrev first_attempt : RlAttempt
first_attempt = record {
  id = "a1";
  run_id = "r";
  number = 1;
  status = "running";
  ray_job_name = "train";
  namespace = "ns";
  resume_checkpoint_id = "";
  failure_reason = "";
  started_at = 1;
  finished_at = 0;
}

abbrev train_row : BackendResource
train_row = record {
  id = 7;
  run_id = "r";
  attempt_id = "a1";
  api_version = "ray.io/v1";
  kind = "RayJob";
  namespace = "ns";
  name = "train";
  uid = "uid-train";
  generation = pos 1;
  resource_version = "1";
  desired_state = "present";
  observed_state = "present";
  failure_reason = "";
  deletion_pending = false;
  created_at = 1;
  updated_at = 1;
}

abbrev passed_evaluation : EvaluationRecord
passed_evaluation = record {
  id = "e1";
  run_id = "r";
  policy_version = "v1";
  checkpoint_id = "";
  ray_job_name = "";
  status = "passed";
  metrics_json = "";
  gates_passed = true;
  is_final = true;
  canary_state = "passed";
  failure_reason = "";
  created_at = 1;
  updated_at = 1;
}

abbrev db_of : RlRun → Database
db_of r = record {
  runs = (r.id, r) ∷ [];
  attempts = first_attempt ∷ [];
  resources = train_row ∷ [];
  next_resource = 8;
  checkpoints = [];
  evaluations = passed_evaluation ∷ [];
}

abbrev pass_of : RlRun → Pass Cluster
pass_of r = record {
  run = r;
  db = db_of r;
  faults = [];
  world =
      (key_of ray_jobs "ns" "train", record (object_of "RayJob" "train") { uid = "uid-train" })
      ∷ [];
  trace = [];
}

one_run : (r : RlRun) → IsTable (db_of r).runs
unfolding lookup
one_run r = ((refl, tt), (refl, tt))

reconcile_all-RowSteps_example :
    RowSteps
      (lookup "r" (db_of (run_in "running")).runs)
      (lookup "r" (reconcile_all fake (pass_of (run_in "running"))).0.db.runs)
reconcile_all-RowSteps_example =
    reconcile_all-RowSteps fake (pass_of (run_in "running")) "r" (one_run (run_in "running"))

abbrev asked_run : RlRun
asked_run = record (run_in "cancelling") { desired_state = "suspended"; updated_at = 6 }

-- A suspension of a run that is being cancelled is granted.
asks_suspension :
    set_slime_desired_state "r" "suspended" 6 false (db_of (run_in "cancelling"))
    ≡ ok (record (db_of (run_in "cancelling")) { runs = ("r", asked_run) ∷ [] })
unfolding set_slime_desired_state set_desired_of desired_run save_rl_run lookup insert
asks_suspension = refl

-- A resumption of one revives it.
resumption_revives :
    set_slime_desired_state "r" "running" 6 false (db_of (run_in "cancelling"))
    ≡ ok (record (db_of (run_in "cancelling")) {
      runs =
          (
            "r",
            record (run_in "cancelling") {
              desired_state = "running";
              status = "starting";
              updated_at = 6;
            },
          )
          ∷ [];
    })
unfolding set_slime_desired_state set_desired_of desired_run save_rl_run lookup insert
resumption_revives = refl

abbrev asked_pass : Pass Cluster
asked_pass = record (pass_of (run_in "cancelling")) {
  db = record (db_of (run_in "cancelling")) { runs = ("r", asked_run) ∷ [] };
}

cancelling_is_final_example :
    (q : RlRun) × (lookup "r" (reconcile_all fake asked_pass).0.db.runs ≡ some q)
    × ((q.status ≡ "cancelling") ⊎ (q.status ≡ "cancelled"))
unfolding lookup
cancelling_is_final_example =
    cancelling_is_final
      (round fake asked_pass (
        asks "r" "suspended" 6 false asked_pass.db
          (λ e. let bad : false ≡ true = ap (λ s. s == "running") e in cc) here asks_suspension))
      "r" (run_in "cancelling") (one_run (run_in "cancelling")) refl refl

ended_run_rests_example :
    (q : RlRun) × (lookup "r" (reconcile_all fake (pass_of (run_in "failed"))).0.db.runs ≡ some q)
    × (q.status ≡ "failed")
    × (skips q ≡ true)
unfolding lookup skips terminal
ended_run_rests_example =
    ended_run_rests (round fake (pass_of (run_in "failed")) here) "r" (run_in "failed")
      (one_run (run_in "failed")) refl refl

deletes_only_what_is_owned_example :
    Justified
      (λ r. Memᴰ r (list_backend_resources "r" (db_of (run_in "cancelling"))))
      "r"
      (delete_owned fake (pass_of (run_in "cancelling"))).0.trace
deletes_only_what_is_owned_example =
    deletes_only_what_is_owned fake (pass_of (run_in "cancelling")) tt

reconcile_deletes_only_what_is_owned_example :
    Justified
      (λ r.
        Memᴰ r (list_backend_resources "r" (discovery fake (pass_of (run_in "cancelling"))).0.db))
      "r"
      (reconcile fake (pass_of (run_in "cancelling"))).0.trace
reconcile_deletes_only_what_is_owned_example =
    reconcile_deletes_only_what_is_owned fake (pass_of (run_in "cancelling")) tt

promotion_is_gated_example :
    All
      (Permitted (pass_of (run_in "canary")))
      (reconcile_evaluation fake good_spec (pass_of (run_in "canary"))).0.trace
    × ((reconcile_evaluation fake good_spec (pass_of (run_in "canary"))).0.run.status ≡ "canary"
        → MayCanary (pass_of (run_in "canary")))
promotion_is_gated_example = promotion_is_gated fake good_spec (pass_of (run_in "canary")) tt

-- The second step of a cancellation, which finds the job and deletes it.
ends_cancelled : (go_on_cancelling fake (pass_of (run_in "cancelling"))).0.run.status ≡ "cancelled"
unfolding go_on_cancelling save_run_anyway set_run save_run connect connected ◌>>=◌ ◌>>◌
    delete_owned the_run reads list_backend_resources where_rows order_by insert_by delete_each
    delete_one delete_at gvr_for_kind delete_object_of get_object prepare_delete drop_finalizer
    without_finalizer apply_object or_fail pure delete_and_confirm delete_object confirm_delete
    writes delete_backend_resource finish_cancel lookup insert delete save_rl_run
ends_cancelled = refl

cancelled_only_when_gone_example :
    All (IsLeft "r") (go_on_cancelling fake (pass_of (run_in "cancelling"))).0.db.resources
cancelled_only_when_gone_example =
    cancelled_only_when_gone fake (pass_of (run_in "cancelling")) ends_cancelled

-- A cluster of one object, the run's job, whose deletion takes the number of reads that its state
-- counts; none where it is gone.
abbrev job_of_run : Object
job_of_run = record (object_of "RayJob" "train") { uid = "uid-train" }

abbrev there : Option ℕ → Result ApiError Object
there (some _) = ok job_of_run
there none = err not_found

abbrev later : Option ℕ → Option ℕ
later none = none
later (some zero) = none
later (some (suc n)) = some n

abbrev accepts : Option ℕ → Result ApiError (Unit {0})
accepts (some _) = ok tt
accepts none = err not_found

abbrev one_object : Environment (Option ℕ)
one_object =
    given
      (record {
        apply = λ gvr o k. (k, ok o);
        get = λ gvr ns name k. (later k, there k);
        list = λ gvr ns selector k. (k, ok []);
        delete = λ gvr ns name k. (k, accepts k);
      })
      none

abbrev cancelling_pass : Option ℕ → Pass (Option ℕ)
cancelling_pass state = record {
  run = run_in "cancelling";
  db = db_of (run_in "cancelling");
  faults = [];
  world = state;
  trace = [];
}

abbrev AnyState : Option ℕ → Type 0
AnyState k = Unit

-- The job is still there after its deletion was accepted, and then it is gone.
waits : (go_on_cancelling one_object (cancelling_pass (some 3))).0.run.status ≡ "cancelling"
unfolding go_on_cancelling save_run_anyway set_run save_run connect connected ◌>>=◌ ◌>>◌
    delete_owned the_run reads list_backend_resources where_rows order_by insert_by delete_each
    delete_one delete_at gvr_for_kind delete_object_of get_object prepare_delete drop_finalizer
    without_finalizer apply_object or_fail pure delete_and_confirm delete_object confirm_delete
    writes delete_backend_resource finish_cancel lookup insert delete save_rl_run
    save_backend_resource upsert
waits = refl

goes : (go_on_cancelling one_object (cancelling_pass (some 0))).0.run.status ≡ "cancelled"
unfolding go_on_cancelling save_run_anyway set_run save_run connect connected ◌>>=◌ ◌>>◌
    delete_owned the_run reads list_backend_resources where_rows order_by insert_by delete_each
    delete_one delete_at gvr_for_kind delete_object_of get_object prepare_delete drop_finalizer
    without_finalizer apply_object or_fail pure delete_and_confirm delete_object confirm_delete
    writes delete_backend_resource finish_cancel lookup insert delete save_rl_run
goes = refl
