-- ===== src/DataPlane/Types.antt =====
-- control-plane/dataplane/store.go: sample records and leases. Times are nanoseconds, zero for the
-- zero time.
use Prim.Native.String.{◌++◌ as append}
use skyscale.Prelude.{ℕ, String, List}
use skyscale.Contracts.Sample.{SampleProblem}

-- The values that the store writes to `SampleRecord.State`.
pub data SampleState : Type 0 where
  available leased consumed quarantined : SampleState

pub record SampleRecord : Type 0 where
  pub tenant_id : String
  pub project_id : String
  pub sample_id : String
  pub run_id : String
  pub prompt_group_id : String
  pub policy_version : String
  pub blob_key : String
  pub checksum : String
  pub state : SampleState
  pub created_at : ℕ
  pub expires_at : ℕ
  pub lease_id : String
  pub lease_owner : String
  pub lease_expires_at : ℕ

pub record Lease : Type 0 where
  pub id : String
  pub owner : String
  pub run_id : String
  pub prompt_group_id : String
  pub samples : List SampleRecord
  pub expires_at : ℕ

pub data DataError : Type 0 where
  duplicate_conflict backpressure no_complete_group lease_lost blob_not_found : DataError
  arguments_required encode_failed : DataError
  invalid_sample : SampleProblem → DataError

-- sampleKey: three identifiers with NUL bytes between them.
unfoldable pub sample_key : String → String → String → String
sample_key tenant_id run_id sample_id =
    append tenant_id (append "\0" (append run_id (append "\0" sample_id)))

abbrev pub key_of : SampleRecord → String
key_of r = sample_key r.tenant_id r.run_id r.sample_id
