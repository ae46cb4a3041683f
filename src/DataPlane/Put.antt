-- ===== src/DataPlane/Put.antt =====
-- control-plane/dataplane/store.go: `Put`. The JSON encoding of a sample and SHA-256 are the parameters
-- `encode`, which may fail, and `checksum`; the clock is read once.
use Prim.Native.String.{◌++◌ as append}
use skyscale.Prelude.{
  ℕ, ◌+◌, ◌≡◌, ◌⊎◌, refl, ap, subst, inl, inr, String, Bool, true, false, not, ◌&&◌, ◌==◌, List,
  Option, none, some, Dict, lookup, insert, lookup-insert, if◌then◌else◌, Result, ok, err, arith,
  Bool-cases, Option-cases, eq_refl,
}
use skyscale.Prelude.Int.{ℤ, pos, ltb_ℤ}
use skyscale.Contracts.Sample.{SampleEnvelope, validate_sample}
use skyscale.DataPlane.Types.{
  available, SampleRecord, DataError, backpressure, duplicate_conflict, invalid_sample,
  encode_failed, key_of,
}
use skyscale.DataPlane.Metadata.{insert_sample, count_available_groups}
use skyscale.DataPlane.Blobs.{BlobStore, Plane, put_if_absent}

unfoldable pub blob_key_of : SampleEnvelope → String → String
blob_key_of s sum = append "samples/" (
    append s.tenant_id (
      append "/" (
        append s.run_id (append "/" (append s.prompt_group_id (append "-" (append sum ".json")))))))

unfoldable pub record_of : ℕ → ℕ → SampleEnvelope → String → SampleRecord
record_of now ttl s sum = record {
  tenant_id = s.tenant_id;
  project_id = s.project_id;
  sample_id = s.sample_id;
  run_id = s.run_id;
  prompt_group_id = s.prompt_group_id;
  policy_version = s.policy_version;
  blob_key = blob_key_of s sum;
  checksum = sum;
  state = available;
  created_at = now;
  expires_at = now + ttl;
  lease_id = "";
  lease_owner = "";
  lease_expires_at = 0;
}

-- The end of `Put`: another record under the sample's key is a conflict.
unfoldable pub file_sample :
    SampleRecord → Dict SampleRecord → BlobStore → Plane × Result DataError (SampleRecord × Bool)
file_sample r samples blobs =
    let (samples', stored, inserted) = insert_sample r samples in
    (
      record { samples = samples'; blobs = blobs },
      if not inserted && not (stored.checksum == r.checksum)
          then err duplicate_conflict
          else ok (stored, inserted),
    )

abbrev store_blob :
    SampleRecord
    → Plane
    → BlobStore × Result DataError (Unit {0})
    → Plane × Result DataError (SampleRecord × Bool)
store_blob r p (blobs, err e) = (record p { blobs = blobs }, err e)
store_blob r p (blobs, ok _) = file_sample r p.samples blobs

module _ (encode : SampleEnvelope → Option (List ℕ)) (checksum : List ℕ → String)
    (max_tokens high_watermark : ℤ) (ttl : ℕ) where
  unfoldable pub put : ℕ → SampleEnvelope → Plane → Plane × Result DataError (SampleRecord × Bool)
  unfolding record_of blob_key_of
  put now s p = elim (validate_sample max_tokens s) [
    | some problem ↦ (p, err (invalid_sample problem))
    | none ↦
        if not (ltb_ℤ (pos (count_available_groups s.tenant_id s.run_id p.samples)) high_watermark)
        then (p, err backpressure)
        else elim (encode s) [
          | none ↦ (p, err encode_failed)
          | some raw ↦
              let sum = checksum raw in
              store_blob (record_of now ttl s sum) p
                (put_if_absent (blob_key_of s sum) raw sum p.blobs)
        ]
  ]

put_if_absent-present :
    (key : String) (value old : List ℕ) (sum : String) (b : BlobStore)
    → lookup key b.values ≡ some old
    → lookup key b.checksums ≡ some sum
    → put_if_absent key value sum b ≡ (b, ok tt)
unfolding put_if_absent
put_if_absent-present key value old sum b there known =
    rw (put_if_absent, known, eq_refl sum, there) refl

-- A blob that was put is there.
put_if_absent-again :
    (key : String) (value : List ℕ) (sum : String) (b b' : BlobStore)
    → put_if_absent key value sum b ≡ (b', ok tt)
    → put_if_absent key value sum b' ≡ (b', ok tt)
unfolding put_if_absent
put_if_absent-again key value sum b b' h = elim (Option-cases (lookup key b.values)) [
  | inr (old, there) ↦
      let same : b ≡ b' = ground arith in
      subst (λ x. put_if_absent key value sum x ≡ (b', ok tt)) same h
  | inl absent ↦
      let filled : BlobStore = record {
        values = insert key value b.values;
        checksums = insert key sum b.checksums;
      } in
      let same : filled ≡ b' = ground arith in
      let there : lookup key filled.values ≡ some value =
        ground (arith, lookup-insert key key value b.values, eq_refl key) in
      let known : lookup key filled.checksums ≡ some sum =
        ground (arith, lookup-insert key key sum b.checksums, eq_refl key) in
      subst (λ x. put_if_absent key value sum x ≡ (x, ok tt)) same
        (put_if_absent-present key value value sum filled there known)
]

-- A sample that was filed as new.
record Filed (r0 r : SampleRecord) (p p' : Plane) (blobs : BlobStore) : Type 0 where
  same : r0 ≡ r
  blobs_kept : blobs ≡ p'.blobs
  present : lookup (key_of r0) p'.samples ≡ some r0

file_sample-Filed :
    (r0 r : SampleRecord) (p p' : Plane) (blobs : BlobStore)
    → file_sample r0 p.samples blobs ≡ (p', ok (r, true))
    → Filed r0 r p p' blobs
unfolding file_sample insert_sample
file_sample-Filed r0 r p p' blobs h = elim (Option-cases (lookup (key_of r0) p.samples)) [
  | inr (existing, e) ↦ absurd (ground arith)
  | inl new ↦
      let made : (
        record { samples = insert (key_of r0) r0 p.samples; blobs = blobs },
        ok (r0, true),
      )
          ≡ (p', ok (r, true)) =
        rw (new, file_sample, insert_sample) at h in
      let after : insert (key_of r0) r0 p.samples ≡ p'.samples = cc (made) in
      record {
        same = cc (made);
        blobs_kept = cc (made);
        present = rw (← after) (
            ground
              (arith, lookup-insert (key_of r0) (key_of r0) r0 p.samples, eq_refl (key_of r0)));
      }
]

-- The record is found, with the checksum.
file_sample-found :
    (r0 r1 : SampleRecord) (p : Plane)
    → key_of r1 ≡ key_of r0
    → r0.checksum ≡ r1.checksum
    → lookup (key_of r0) p.samples ≡ some r0
    → file_sample r1 p.samples p.blobs ≡ (p, ok (r0, false))
unfolding file_sample insert_sample
file_sample-found r0 r1 p key sum found =
    let there : lookup (key_of r1) p.samples ≡ some r0 = rw key found in
    rw (there, file_sample, insert_sample, sum, eq_refl r1.checksum) refl

Result-ok : (x : Result DataError (Unit {0})) → ((e : DataError) × (x ≡ err e)) ⊎ (x ≡ ok tt)
Result-ok (err e) = inl (e, refl)
Result-ok (ok u) = inr refl

module _ (encode : SampleEnvelope → Option (List ℕ)) (checksum : List ℕ → String)
    (max_tokens high_watermark : ℤ) (ttl : ℕ) where
  -- Where `Put` took a new sample, putting the sample once more, at any time, changes nothing: it
  -- returns the record that is stored and says that it is not new, or it reports backpressure.
  pub put-again :
      (now now' : ℕ) (s : SampleEnvelope) (p p' : Plane) (r : SampleRecord)
      → put encode checksum max_tokens high_watermark ttl now s p ≡ (p', ok (r, true))
      → (put encode checksum max_tokens high_watermark ttl now' s p' ≡ (p', ok (r, false)))
        ⊎ (put encode checksum max_tokens high_watermark ttl now' s p' ≡ (p', err backpressure))
  unfolding put record_of
  put-again now now' s p p' r h = elim (Option-cases (validate_sample max_tokens s)) [
    | inr (problem, e) ↦ absurd (let bad = rw (e, put) at h in cc)
    | inl valid ↦
        elim (Bool-cases
          (ltb_ℤ (pos (count_available_groups s.tenant_id s.run_id p.samples)) high_watermark)) [
            | inr full ↦ absurd (let bad = rw (valid, put, full) at h in cc)
            | inl room ↦ elim (Option-cases (encode s)) [
              | inl fails ↦ absurd (let bad = rw (valid, put, room, fails) at h in cc)
              | inr (raw, encoded) ↦
                  let sum = checksum raw in
                  let key = blob_key_of s sum in
                  let blobs = put_if_absent key raw sum p.blobs in
                  let r0 = record_of now ttl s sum in
                  let done : store_blob r0 p blobs ≡ (p', ok (r, true)) =
                    rw (valid, put, room, encoded) at h in
                  elim (Result-ok blobs.1) [
                    | inl (e, refused) ↦ absurd (
                        let bad : store_blob r0 p (blobs.0, err e) ≡ (p', ok (r, true)) =
                          subst (λ x. store_blob r0 p (blobs.0, x) ≡ (p', ok (r, true))) refused
                            done in
                        cc)
                    | inr stored ↦
                        let filed = file_sample-Filed r0 r p p' blobs.0 (
                          subst (λ x. store_blob r0 p (blobs.0, x) ≡ (p', ok (r, true))) stored
                            done) in
                        let kept : put_if_absent key raw sum p'.blobs ≡ (p'.blobs, ok tt) =
                          put_if_absent-again key raw sum p.blobs p'.blobs (
                            subst (λ x. blobs ≡ (x, ok tt)) filed.blobs_kept
                              (ap (λ x. (blobs.0, x)) stored)) in
                        elim (Bool-cases (
                          ltb_ℤ (pos (count_available_groups s.tenant_id s.run_id p'.samples))
                            high_watermark)) [
                              | inr full ↦ inr (rw (valid, put, full) refl)
                              | inl room' ↦ inl (
                                  let found =
                                    file_sample-found r0 (record_of now' ttl s sum) p' refl refl
                                      filed.present in
                                  rw (valid, put, room', encoded, kept)
                                    (subst
                                      (λ x.
                                        file_sample (record_of now' ttl s sum) p'.samples p'.blobs
                                        ≡ (p', ok (x, false)))
                                      filed.same found))
                            ]
                  ]
            ]
          ]
  ]
