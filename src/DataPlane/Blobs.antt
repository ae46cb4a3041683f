-- ===== src/DataPlane/Blobs.antt =====
-- control-plane/dataplane/store.go: `MemoryBlobStore`, two maps that change together, and the methods
-- of `Store` that do not decode a sample: `Ack`, `Nack`, `Backpressure` and `Sweep`.
pub mod Sweep
use skyscale.Prelude.{
  ℕ, suc, ◌+◌, ◌≡◌, refl, String, Bool, true, false, not, ◌&&◌, ◌==◌, List, [], ◌∷◌, Option, none,
  some, Dict, lookup, insert, delete, if◌then◌else◌, Result, ok, err,
}
use skyscale.Prelude.Int.{ℤ, pos, ltb_ℤ}
use skyscale.DataPlane.Types.{SampleRecord, DataError, duplicate_conflict, blob_not_found}
use skyscale.DataPlane.Metadata.{
  count_available_groups, finish_lease, release_expired, delete_expired,
}

pub record BlobStore : Type 0 where
  pub values : Dict (List ℕ)
  pub checksums : Dict String

abbrev differs : String → Option String → Bool
differs checksum none = false
differs checksum (some existing) = not (existing == checksum)

unfoldable pub put_if_absent :
    String → List ℕ → String → BlobStore → BlobStore × Result DataError (Unit {0})
put_if_absent key value checksum b =
    if differs checksum (lookup key b.checksums)
    then (b, err duplicate_conflict)
    else elim (lookup key b.values) [
      | some _ ↦ (b, ok tt)
      | none ↦ (
        record { values = insert key value b.values; checksums = insert key checksum b.checksums },
        ok tt,
      )
    ]

unfoldable pub get_blob : String → BlobStore → Result DataError (List ℕ)
get_blob key b = elim (lookup key b.values) [ none ↦ err blob_not_found | some value ↦ ok value ]

unfoldable pub delete_blob : String → BlobStore → BlobStore
delete_blob key b = record { values = delete key b.values; checksums = delete key b.checksums }

-- The data plane, over its two stores.
pub record Plane : Type 0 where
  pub samples : Dict SampleRecord
  pub blobs : BlobStore

unfoldable pub ack :
    (String → ℕ)
    → String
    → String
    → Dict SampleRecord
    → Dict SampleRecord × Result DataError (Unit {0})
ack clock lease_id owner samples = finish_lease clock lease_id owner true "" samples

unfoldable pub nack :
    (String → ℕ)
    → String
    → String
    → String
    → Dict SampleRecord
    → Dict SampleRecord × Result DataError (Unit {0})
nack clock lease_id owner reason samples = finish_lease clock lease_id owner false reason samples

-- Whether the rollouts pause, and under how many groups they resume.
unfoldable pub backpressure_of : ℤ → ℤ → String → String → Dict SampleRecord → Bool × ℤ
backpressure_of high_watermark low_watermark tenant_id run_id samples = (
  not (ltb_ℤ (pos (count_available_groups tenant_id run_id samples)) high_watermark),
  low_watermark,
)

unfoldable pub delete_blobs : List SampleRecord → BlobStore → BlobStore
delete_blobs [] b = b
delete_blobs (r ∷ rs) b = delete_blobs rs (delete_blob r.blob_key b)

abbrev count : List SampleRecord → ℕ
count [] = 0
count (r ∷ rs) = suc (count rs)

-- The memory blob store's deletions do not fail, so every deleted record is counted.
unfoldable pub sweep_plane : ℕ → Plane → Plane × ℕ × ℕ
sweep_plane now p =
    let (samples, released) = release_expired now p.samples in
    let (kept, gone) = delete_expired now samples in
    (record { samples = kept; blobs = delete_blobs gone p.blobs }, released, count gone)
