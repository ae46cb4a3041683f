-- ===== src/Weights/Types.antt =====
-- control-plane/weights/service.go: the durable state of a run's weight publications. Times are
-- nanoseconds, zero for the zero time; a map of pointers is a map of values, since no two entries
-- share one and the state is decoded afresh by each operation.
use skyscale.Prelude.{ℕ, String, Bool, List, Option, Dict}
use skyscale.Prelude.Int.{ℤ}

-- The bytes of an artifact, each below 256.
abbrev pub Bytes : Type 0
Bytes = List ℕ

pub record TensorLayout : Type 0 where
  pub name : String
  pub shape : List ℤ
  pub dtype : String
  pub shard : String

pub record Manifest : Type 0 where
  pub api_version : String
  pub version : String
  pub run_id : String
  pub base_checkpoint : String
  pub parent_version : String
  pub format : String
  pub dtype : String
  pub tensors : List TensorLayout
  pub checksums : Dict String
  pub byte_size : ℤ
  pub optimizer_step : ℤ
  pub compatibility : Dict String
  pub artifact_uri : String
  pub upload_complete : Bool
  pub manifest_committed : Bool
  pub verified : Bool
  pub created_at : ℕ

pub record EngineState : Type 0 where
  pub engine_id : String
  pub desired_version : String
  pub current_version : String
  pub last_good_version : String
  pub acknowledged_at : ℕ
  pub error : String
  pub draining : Bool

-- The values that the service writes to `DurablePublication.State`.
pub data PublicationState : Type 0 where
  published ready activating active failed superseded rolled_back garbage_collected :
      PublicationState

pub record Publication : Type 0 where
  pub manifest : Manifest
  pub required : Dict Bool
  pub acks : Dict ℕ
  pub state : PublicationState
  pub deadline : ℕ
  pub materialized_uri : String
  pub artifact_sha256 : String
  pub result_sha256 : String

pub record RunState : Type 0 where
  pub run_id : String
  pub publications : Dict Publication
  pub engines : Dict EngineState
  pub active : String
  pub last_good : String
  pub updated_at : ℕ

pub record EngineInstruction : Type 0 where
  pub desired_version : String
  pub current_version : String
  pub last_good_version : String
  pub draining : Bool
  pub manifest : Option Manifest
  pub artifact_uri : String
  pub sha256 : String

pub data WeightError : Type 0 where
  -- Manifest.Validate
  identity_required bad_format parent_required artifact_required : WeightError
  -- the stores
  run_mismatch artifact_not_found artifact_checksum_mismatch immutable_conflict : WeightError
  -- RegisterEngine and Publish
  identifiers_required timeout_required checksum_mismatch version_conflict parent_unavailable :
      WeightError
  result_checksum_required engine_not_registered : WeightError
  -- Materialize
  parent_cycle version_not_found stored_checksum_mismatch sizes_differ : WeightError
  materialized_mismatch materialized_unavailable : WeightError
  -- Acknowledge, MarkGood and Rollback
  not_in_run rollback_mismatch engine_not_required not_ready deadline_exceeded applied_mismatch :
      WeightError
  only_active no_last_good : WeightError
  -- GarbageCollect
  delete_failed : WeightError
