-- ===== src/Reconciler/Types.antt =====
-- control-plane/state/state.go: the rows that the reconciler of control-plane/rlservice keeps, and
-- the Kubernetes objects of control-plane/k8s that it handles. Of an unstructured object it reads
-- the metadata; the rest is the text `content`. Times are nanoseconds, zero for the zero time.
use skyscale.Prelude.{ℕ, String, Bool, ◌==◌, List, Dict, none, some, lookup, if◌then◌else◌, Option}
use skyscale.Prelude.Int.{ℤ}
use skyscale.Prelude.Machine.{Float64}

pub record RlRun : Type 0 where
  pub id : String
  pub api_version : String
  pub tenant_id : String
  pub project_id : String
  pub backend : String
  pub status : String
  pub desired_state : String
  pub observed_state : String
  pub failure_reason : String
  pub namespace : String
  pub current_attempt_id : String
  pub policy_version : String
  pub last_good_policy_version : String
  pub checkpoint_id : String
  pub snapshot_json : String
  pub snapshot_sha256 : String
  pub base_model : String
  pub num_workers : ℤ
  pub gpu_model : String
  pub policy_server_url : String
  pub trainer_exec_id : String
  pub worker_exec_ids : String
  pub closed_loop : Bool
  pub training_round : ℤ
  pub optimizer_step : ℤ
  pub backpressured : Bool
  pub rollout_draining : Bool
  pub rollout_queue_depth : ℤ
  pub rollout_generation_p95 : Float64
  pub rollout_tokens_per_second : Float64
  pub rollout_trainer_demand : ℤ
  pub rollout_desired_replicas : ℤ
  pub created_at : ℕ
  pub updated_at : ℕ

pub record RlAttempt : Type 0 where
  pub id : String
  pub run_id : String
  pub number : ℕ
  pub status : String
  pub ray_job_name : String
  pub namespace : String
  pub resume_checkpoint_id : String
  pub failure_reason : String
  pub started_at : ℕ
  pub finished_at : ℕ

-- A row that is not stored yet has the id 0.
pub record BackendResource : Type 0 where
  pub id : ℕ
  pub run_id : String
  pub attempt_id : String
  pub api_version : String
  pub kind : String
  pub namespace : String
  pub name : String
  pub uid : String
  pub generation : ℤ
  pub resource_version : String
  pub desired_state : String
  pub observed_state : String
  pub failure_reason : String
  pub deletion_pending : Bool
  pub created_at : ℕ
  pub updated_at : ℕ

pub record CheckpointRecord : Type 0 where
  pub id : String
  pub run_id : String
  pub attempt_id : String
  pub optimizer_step : ℤ
  pub resume_uri : String
  pub serving_uri : String
  pub policy_version : String
  pub manifest_sha256 : String
  pub status : String
  pub created_at : ℕ

pub record EvaluationRecord : Type 0 where
  pub id : String
  pub run_id : String
  pub policy_version : String
  pub checkpoint_id : String
  pub ray_job_name : String
  pub status : String
  pub metrics_json : String
  pub gates_passed : Bool
  pub is_final : Bool
  pub canary_state : String
  pub failure_reason : String
  pub created_at : ℕ
  pub updated_at : ℕ

-- The resources of k8s/client.go.
pub data Gvr : Type 0 where
  ray_jobs deployments services config_maps secrets jobs pvcs namespaces resource_quotas
        limit_ranges network_policies service_accounts :
      Gvr

pub record Object : Type 0 where
  pub api_version : String
  pub kind : String
  pub namespace : String
  pub name : String
  pub uid : String
  pub generation : ℤ
  pub resource_version : String
  pub labels : Dict String
  pub annotations : Dict String
  pub finalizers : List String
  pub content : String

-- What the client of the Kubernetes API answers.
pub data ApiError : Type 0 where
  not_found : ApiError
  refused : String → ApiError

pub data ReconcileError : Type 0 where
  bad_snapshot : String → ReconcileError
  integrity_failed hash_failed record_not_found store_failed no_promotions : ReconcileError
  api_failed observe_failed : ApiError → ReconcileError
  discover_failed tenant_failed : String → ApiError → ReconcileError
  apply_failed suspend_failed delete_failed finalizer_failed :
      String → String → ApiError → ReconcileError
  load_failed : String → ReconcileError → ReconcileError
  bad_field promotion_failed : String → ReconcileError
  replaced unowned : String → String → ReconcileError

-- m[key] of a map of strings.
abbrev pub or_blank : Option String → String
or_blank none = ""
or_blank (some v) = v

abbrev pub label : String → Object → String
label key object = or_blank (lookup key object.labels)

abbrev pub text_or : String → String → String
text_or s other = if s == "" then other else s
