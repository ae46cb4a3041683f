-- ===== src/Weights/Publish.antt =====
-- control-plane/weights/service.go: `Manifest.Validate`, `RegisterEngine` and `Publish`.
pub mod Once
use skyscale.Prelude.{
  ℕ, ◌+◌, ◌≡◌, refl, String, Bool, true, false, not, ◌&&◌, ◌||◌, ◌==◌, List, [], ◌∷◌, Option, none,
  some, Dict, lookup, insert, if◌then◌else◌, Result, ok, err,
}
use skyscale.Prelude.Int.{ℤ, pos, pos_part, ltb_ℤ}
use skyscale.Weights.Types.{
  Bytes, Manifest, EngineState, Publication, PublicationState, published, failed, garbage_collected,
  RunState, WeightError, identity_required, bad_format, parent_required, artifact_required,
  identifiers_required, timeout_required, checksum_mismatch, version_conflict, parent_unavailable,
  result_checksum_required, engine_not_registered,
}
use skyscale.Weights.Stores.{fetch, Outcome, saves, leaves, with_run}

abbrev pub or_blank : Option String → String
or_blank none = ""
or_blank (some s) = s

-- m.Checksums[name]
abbrev pub checksum_of : String → Manifest → String
checksum_of name m = or_blank (lookup name m.checksums)

abbrev is_empty {ℓ} : {A : Type ℓ} → List A → Bool
is_empty [] = true
is_empty (_ ∷ _) = false

unfoldable pub validate_manifest : Manifest → Option WeightError
validate_manifest m =
    if not (m.api_version == "rl.skyscale.dev/v1alpha1")
      || m.version == ""
      || m.run_id == ""
      || m.base_checkpoint == ""
    then some identity_required
    else if not (m.format == "full") && not (m.format == "delta")
    then some bad_format
    else if m.format == "delta" && m.parent_version == ""
    then some parent_required
    else if not (ltb_ℤ (pos 0) m.byte_size) || m.artifact_uri == "" || is_empty m.checksums
    then some artifact_required
    else none

unfoldable pub new_engine : String → String → EngineState
new_engine engine_id current_version = record {
  engine_id = engine_id;
  desired_version = "";
  current_version = current_version;
  last_good_version = current_version;
  acknowledged_at = 0;
  error = "";
  draining = false;
}

unfoldable pub register_in : String → String → RunState → Outcome (Unit {0})
unfolding new_engine
register_in engine_id current_version state = elim (lookup engine_id state.engines) [
  | some engine ↦
      if engine.current_version == "" && not (current_version == "")
      then saves
          (record state {
            engines =
                insert engine_id
                  (record engine {
                    current_version = current_version;
                    last_good_version = current_version;
                  })
                  state.engines;
          })
          (ok tt)
      else saves state (ok tt)
  | none ↦
      saves
        (record state {
          engines = insert engine_id (new_engine engine_id current_version) state.engines;
        })
        (ok tt)
]

unfoldable pub register_engine :
    ℕ → String → String → String → Dict RunState → Dict RunState × Result WeightError (Unit {0})
unfolding register_in with_run
register_engine now run_id engine_id current_version repository =
    if run_id == "" || engine_id == ""
    then (repository, err identifiers_required)
    else with_run now run_id (register_in engine_id current_version) repository

-- The loop over the required engines: each is set on the new version and drains.
unfoldable pub require_engines :
    String
    → List String
    → Dict Bool
    → Dict EngineState
    → Result WeightError (Dict Bool × Dict EngineState)
require_engines version [] required engines = ok (required, engines)
require_engines version (engine_id ∷ rest) required engines = elim (lookup engine_id engines) [
  | none ↦ err engine_not_registered
  | some engine ↦
      require_engines version rest (insert engine_id true required)
        (insert engine_id (record engine { desired_version = version; draining = true }) engines)
]

abbrev is_available : Option Publication → Bool
is_available none = false
is_available (some p) = elim p.state [ failed ↦ false | garbage_collected ↦ false | _ ↦ true ]

-- What a delta needs: a parent that is still there, and the checksum of its result.
unfoldable pub delta_problem : Manifest → RunState → Option WeightError
delta_problem manifest state =
    if not (manifest.format == "delta")
    then none
    else if not (is_available (lookup manifest.parent_version state.publications))
    then some parent_unavailable
    else if checksum_of "result" manifest == ""
    then some result_checksum_required
    else none

abbrev pub publication_of : Manifest → Dict Bool → ℕ → String → Publication
publication_of manifest required deadline artifact_hash = record {
  manifest = manifest;
  required = required;
  acks = [];
  state = published;
  deadline = deadline;
  materialized_uri = "";
  artifact_sha256 = artifact_hash;
  result_sha256 = checksum_of "result" manifest;
}

abbrev pub store_publication :
    Manifest
    → ℕ
    → String
    → RunState
    → Result WeightError (Dict Bool × Dict EngineState)
    → Outcome (Unit {0})
store_publication manifest deadline artifact_hash state (err e) = leaves (err e)
store_publication manifest deadline artifact_hash state (ok (required, engines)) =
    saves
      (record state {
        engines = engines;
        publications =
            insert manifest.version (publication_of manifest required deadline artifact_hash)
              state.publications;
      })
      (ok tt)

-- The part of `Publish` that holds the lock.
unfoldable pub publish_in : Manifest → List String → ℕ → String → RunState → Outcome (Unit {0})
unfolding delta_problem require_engines
publish_in manifest required_engines deadline artifact_hash state =
    elim (lookup manifest.version state.publications) [
      | some existing ↦
          if existing.artifact_sha256 == artifact_hash
          then leaves (ok tt)
          else leaves (err version_conflict)
      | none ↦ elim (delta_problem manifest state) [
        | some e ↦ leaves (err e)
        | none ↦
            store_publication manifest deadline artifact_hash state
              (require_engines manifest.version required_engines [] state.engines)
      ]
    ]

module _ (checksum : Bytes → String) where
  unfoldable pub publish :
      ℕ
      → Manifest
      → List String
      → ℤ
      → Dict Bytes
      → Dict RunState
      → Dict RunState × Result WeightError (Unit {0})
  unfolding validate_manifest fetch publish_in with_run
  publish now manifest required_engines timeout artifacts repository =
      elim (validate_manifest manifest) [
        | some e ↦ (repository, err e)
        | none ↦
            if not (ltb_ℤ (pos 0) timeout)
            then (repository, err timeout_required)
            else elim (fetch manifest.artifact_uri artifacts) [
              | err e ↦ (repository, err e)
              | ok artifact ↦
                  if not (checksum_of "artifact" manifest == checksum artifact)
                  then (repository, err checksum_mismatch)
                  else with_run now manifest.run_id
                      (publish_in
                        (record manifest {
                          upload_complete = true;
                          manifest_committed = true;
                          verified = true;
                        })
                        required_engines (now + pos_part timeout) (checksum artifact))
                      repository
            ]
      ]
