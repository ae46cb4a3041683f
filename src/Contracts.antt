-- ===== src/Contracts.antt =====
-- control-plane/contracts/v1.go: the versioned API that the control plane and the runtime share. A
-- Go int is the integer that it stands for, a `time.Time` is a number of nanoseconds, zero for the
-- zero time, and a `map[string]V` is an association list.
pub mod Validate
pub mod Sample
pub mod Admissible
use skyscale.Prelude.{ℕ, String, Bool, List, Dict}
use skyscale.Prelude.Int.{ℤ}
use skyscale.Prelude.Machine.{Float64}

pub record ObjectMeta : Type 0 where
  pub tenant_id : String
  pub project_id : String
  pub run_id : String
  pub labels : Dict String

pub record ModelSpec : Type 0 where
  pub source : String
  pub revision : String
  pub sha256 : String
  pub megatron_format : String
  pub tokenizer_revision : String
  pub artifact_manifest_uri : String
  pub volume_claim : String
  pub mount_path : String

pub record DataSpec : Type 0 where
  pub source_uri : String
  pub revision : String
  pub sha256 : String
  pub environment_version : String
  pub seed : ℤ

pub record RewardSpec : Type 0 where
  pub name : String
  pub version : String
  pub endpoint : String
  pub secret_ref : String
  pub components : Dict Float64
  pub max_evaluation_sec : ℤ

pub record AlgorithmSpec : Type 0 where
  pub name : String
  pub strategy : String
  pub arguments : Dict String
  pub max_policy_lag_steps : ℤ
  pub max_queue_age_seconds : ℤ
  pub off_policy_action : String

pub record ResourceSpec : Type 0 where
  pub cpu : String
  pub memory : String
  pub gpus : ℤ
  pub gpu_type : String
  pub selectors : Dict String

pub record TrainerTopology : Type 0 where
  pub nodes : ℤ
  pub tp : ℤ
  pub pp : ℤ
  pub cp : ℤ
  pub resources : ResourceSpec

pub record RolloutTopology : Type 0 where
  pub replicas : ℤ
  pub min_replicas : ℤ
  pub max_replicas : ℤ
  pub tp : ℤ
  pub dp : ℤ
  pub memory_fraction : Float64
  pub external : Bool
  pub resources : ResourceSpec

pub record TopologySpec : Type 0 where
  pub mode : String
  pub trainer : TrainerTopology
  pub rollout : RolloutTopology
  pub queue : String
  pub priority_class : String

pub record CheckpointPolicy : Type 0 where
  pub every_steps : ℤ
  pub keep_last : ℤ
  pub resume_from : String
  pub serving_format : String
  pub delta_enabled : Bool
  pub minimum_acks : ℤ
  pub publish_timeout_sec : ℤ

pub record EvaluationGate : Type 0 where
  pub metric : String
  pub operator : String
  pub threshold : Float64

pub record EvaluationPolicy : Type 0 where
  pub every_steps : ℤ
  pub suite_uri : String
  pub suite_hash : String
  pub gates : List EvaluationGate
  pub canary_percent : ℤ

pub record RetentionPolicy : Type 0 where
  pub sample_ttl_hours : ℤ
  pub checkpoint_ttl_hours : ℤ
  pub quarantine_ttl_hours : ℤ
  pub high_watermark_groups : ℤ
  pub low_watermark_groups : ℤ

pub record SecuritySpec : Type 0 where
  pub service_account_name : String
  pub image_allowlist : List String
  pub secret_refs : List String
  pub egress_allowlist : List String
  pub encryption_key_ref : String

pub record ImageSpec : Type 0 where
  pub slime : String
  pub sglang : String
  pub digest : String

pub record RlRunSpec : Type 0 where
  pub api_version : String
  pub kind : String
  pub metadata : ObjectMeta
  pub backend : String
  pub model : ModelSpec
  pub data_spec : DataSpec
  pub reward : RewardSpec
  pub algorithm : AlgorithmSpec
  pub topology : TopologySpec
  pub checkpoint : CheckpointPolicy
  pub evaluation : EvaluationPolicy
  pub retention : RetentionPolicy
  pub security : SecuritySpec
  pub image : ImageSpec
  pub created_at : ℕ
