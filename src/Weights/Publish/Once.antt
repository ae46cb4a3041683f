-- ===== src/Weights/Publish/Once.antt =====
-- `Publish` of control-plane/weights/service.go, of a version that is published.
use skyscale.Prelude.{
  ℕ, ◌+◌, ◌≡◌, refl, ap, inl, inr, String, Bool, true, ◌==◌, List, [], Dict, lookup, insert, none,
  some, arith, if◌then◌else◌, eq_iff, eq_refl, Option-cases, Bool-cases, Result, ok, err,
  Result-cases, lookup-insert,
}
use skyscale.Prelude.Int.{ℤ, pos, pos_part, ltb_ℤ}
use skyscale.Weights.Types.{
  Bytes, EngineState, Publication, RunState, Manifest, WeightError, version_conflict,
}
use skyscale.Weights.Stores.{leaves, load, save, load-save, load-run_id, fetch, with_run, settle}
use skyscale.Weights.Publish.{
  publish, publish_in, publication_of, store_publication, require_engines, delta_problem,
  validate_manifest, checksum_of,
}

-- The repository has the version, with this content.
record Published (run_id version hash : String) (repository : Dict RunState) : Type 0 where
  state : RunState
  publication : Publication
  loaded : load run_id repository ≡ ok state
  present : lookup version state.publications ≡ some publication
  content : publication.artifact_sha256 ≡ hash

-- `Publish` under the lock, of a version that is there.
publish_in-again :
    (m : Manifest) (ids : List String) (deadline : ℕ) (hash : String) (state : RunState)
    (p : Publication)
    → lookup m.version state.publications ≡ some p
    → publish_in m ids deadline hash state
      ≡ (if p.artifact_sha256 == hash then leaves (ok tt) else leaves (err version_conflict))
unfolding publish_in
publish_in-again m ids deadline hash state p found = rw (found, publish_in) refl

module _ (now : ℕ) (m : Manifest) (ids : List String) (deadline : ℕ) (hash : String) where
  stored_publication :
      (state : RunState) (repository repository' : Dict RunState)
      (r : Result WeightError (Dict Bool × Dict EngineState))
      → load m.run_id repository ≡ ok state
      → settle now (store_publication m deadline hash state r) repository ≡ (repository', ok tt)
      → Published m.run_id m.version hash repository'
  stored_publication state repository repository' (err e) loaded h = absurd (cc)
  stored_publication state repository repository' (ok (required, engines)) loaded h =
      let p = publication_of m required deadline hash in
      let state' : RunState = record state {
        engines = engines;
        publications = insert m.version p state.publications;
      } in
      let same : save now state' repository ≡ repository' = ap (λ x. x.0) h in
      record {
        state = record state' { updated_at = now };
        publication = p;
        loaded = rw (← same) (
            load-save now m.run_id repository state'
              (load-run_id m.run_id repository state loaded));
        present =
            ground
              (arith, lookup-insert m.version m.version p state.publications, eq_refl m.version);
        content = refl;
      }

  with_run-Published :
      (repository repository' : Dict RunState)
      → with_run now m.run_id (publish_in m ids deadline hash) repository ≡ (repository', ok tt)
      → Published m.run_id m.version hash repository'
  unfolding with_run publish_in
  with_run-Published repository repository' h = elim (Result-cases (load m.run_id repository)) [
    | inl (e, failed) ↦ absurd (let bad = rw (failed, with_run) at h in cc)
    | inr (state, loaded) ↦ elim (Option-cases (lookup m.version state.publications)) [
      | inr (p, found) ↦ elim (Bool-cases (p.artifact_sha256 == hash)) [
        | inr other ↦ absurd (let bad = rw (loaded, with_run, publish_in, found, other) at h in cc)
        | inl same ↦
            let unchanged : repository ≡ repository' =
              ap (λ x. x.0) (rw (loaded, with_run, publish_in, found, same) at h) in
            record {
              state = state;
              publication = p;
              loaded = rw (← unchanged) loaded;
              present = found;
              content = (eq_iff p.artifact_sha256 hash).0 same;
            }
      ]
      | inl new ↦ elim (Option-cases (delta_problem m state)) [
        | inr (e, bad) ↦ absurd (let wrong = rw (loaded, with_run, publish_in, new, bad) at h in cc)
        | inl fine ↦
            stored_publication state repository repository'
              (require_engines m.version ids [] state.engines) loaded
              (rw (loaded, with_run, publish_in, new, fine) at h)
      ]
    ]
  ]

  -- A second time, nothing changes.
  with_run-again :
      (hash' : String) (repository : Dict RunState)
      (p : Published m.run_id m.version hash' repository)
      → with_run now m.run_id (publish_in m ids deadline hash) repository
        ≡ (repository, if hash' == hash then ok tt else err version_conflict)
  unfolding with_run publish_in
  with_run-again hash' repository p = elim (Bool-cases (p.publication.artifact_sha256 == hash)) [
    | inl same ↦ rw (p.loaded, with_run, publish_in, p.present, same, ← p.content, same) refl
    | inr other ↦ rw (p.loaded, with_run, publish_in, p.present, other, ← p.content, other) refl
  ]

module _ (checksum : Bytes → String) where
  -- What `Publish` checks before it takes the lock.
  abbrev stamped : Manifest → Manifest
  stamped m = record m { upload_complete = true; manifest_committed = true; verified = true }

  publish-Published :
      (now : ℕ) (m : Manifest) (ids : List String) (timeout : ℤ) (store : Dict Bytes)
      (repository repository' : Dict RunState)
      → publish checksum now m ids timeout store repository ≡ (repository', ok tt)
      → (artifact : Bytes) × (fetch m.artifact_uri store ≡ ok artifact)
        × (validate_manifest m ≡ none)
        × ((checksum_of "artifact" m == checksum artifact) ≡ true)
        × Published m.run_id m.version (checksum artifact) repository'
  unfolding publish
  publish-Published now m ids timeout store repository repository' h =
      elim (Option-cases (validate_manifest m)) [
        | inr (e, bad) ↦ absurd (let wrong = rw (bad, publish) at h in cc)
        | inl valid ↦ elim (Bool-cases (ltb_ℤ (pos 0) timeout)) [
          | inr late ↦ absurd (let wrong = rw (valid, publish, late) at h in cc)
          | inl timely ↦ elim (Result-cases (fetch m.artifact_uri store)) [
            | inl (e, gone) ↦ absurd (let wrong = rw (valid, publish, timely, gone) at h in cc)
            | inr (artifact, got) ↦
                elim (Bool-cases (checksum_of "artifact" m == checksum artifact)) [
                  | inr torn ↦
                      absurd (let wrong = rw (valid, publish, timely, got, torn) at h in cc)
                  | inl whole ↦ (
                    artifact,
                    got,
                    valid,
                    whole,
                    with_run-Published now (stamped m) ids (now + pos_part timeout)
                        (checksum artifact) repository repository'
                        (rw (valid, publish, timely, got, whole) at h),
                  )
                ]
          ]
        ]
      ]

  -- After a publication that succeeded, publishing the same manifest again, at any later time, with
  -- any engines and any positive timeout, succeeds and changes nothing.
  pub publish-again :
      (now now' : ℕ) (m : Manifest) (ids ids' : List String) (timeout timeout' : ℤ)
      (store : Dict Bytes) (repository repository' : Dict RunState)
      → publish checksum now m ids timeout store repository ≡ (repository', ok tt)
      → ltb_ℤ (pos 0) timeout' ≡ true
      → publish checksum now' m ids' timeout' store repository' ≡ (repository', ok tt)
  unfolding publish
  publish-again now now' m ids ids' timeout timeout' store repository repository' h positive =
      let (artifact, got, valid, whole, p) =
        publish-Published now m ids timeout store repository repository' h in
      rw (valid, publish, positive, got, whole)
        (rw
          (
            with_run-again now' (stamped m) ids' (now' + pos_part timeout') (checksum artifact)
                (checksum artifact) repository' p,
            eq_refl (checksum artifact),
          )
          refl)

  -- After a publication that succeeded, the next call of `Publish` under the same run and version
  -- changes nothing in the repository, whatever its manifest, engines, timeout and store are, and
  -- also where its artifact cannot be fetched; and it succeeds only with an artifact that has the
  -- checksum of the first one's.
  pub publish-once :
      (now now' : ℕ) (m m' : Manifest) (ids ids' : List String) (timeout timeout' : ℤ)
      (store store' : Dict Bytes) (repository repository' : Dict RunState) (artifact : Bytes)
      → publish checksum now m ids timeout store repository ≡ (repository', ok tt)
      → m'.run_id ≡ m.run_id
      → m'.version ≡ m.version
      → fetch m.artifact_uri store ≡ ok artifact
      → ((publish checksum now' m' ids' timeout' store' repository').0 ≡ repository')
        × ((publish checksum now' m' ids' timeout' store' repository').1 ≡ ok tt
            → (artifact' : Bytes) × (fetch m'.artifact_uri store' ≡ ok artifact')
              × (checksum artifact' ≡ checksum artifact))
  unfolding publish
  publish-once now now' m m' ids ids' timeout timeout' store store' repository repository' artifact
        h same_run same_version got =
      let (a, got_a, valid, whole, p) =
        publish-Published now m ids timeout store repository repository' h in
      let one : a ≡ artifact = cc in
      let here : Published m'.run_id m'.version (checksum artifact) repository' =
        rw (same_run, same_version, ← one) p in
      elim (Option-cases (validate_manifest m')) [
        | inr (e, bad) ↦ rw (bad, publish) (refl, λ e. absurd (cc))
        | inl valid' ↦ elim (Bool-cases (ltb_ℤ (pos 0) timeout')) [
          | inr late ↦ rw (valid', publish, late) (refl, λ e. absurd (cc))
          | inl timely ↦ elim (Result-cases (fetch m'.artifact_uri store')) [
            | inl (e, gone) ↦ rw (valid', publish, timely, gone) (refl, λ e. absurd (cc))
            | inr (artifact', got') ↦
                elim (Bool-cases (checksum_of "artifact" m' == checksum artifact')) [
                  | inr torn ↦ rw (valid', publish, timely, got', torn) (refl, λ e. absurd (cc))
                  | inl whole' ↦
                      rw (valid', publish, timely, got', whole')
                        (rw
                          (with_run-again now' (stamped m') ids' (now' + pos_part timeout')
                            (checksum artifact') (checksum artifact) repository' here)
                          (
                            refl,
                            λ ended. (
                              artifact',
                              refl,
                              ground (arith, eq_iff (checksum artifact) (checksum artifact')),
                            ),
                          ))
                ]
          ]
        ]
      ]
