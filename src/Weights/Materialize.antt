-- ===== src/Weights/Materialize.antt =====
-- control-plane/weights/service.go: `applyXORDelta`, `materializeLocked`, `Materialize` and
-- `MaterializedArtifact`.
pub mod Total
pub mod Sound
pub mod Service
use Prim.Native.Nat.{bit_xor}
use Prim.Native.String.{◌++◌ as append}
use mathlib.Core.Option
use skyscale.Prelude.{
  ℕ, zero, suc, ◌≡◌, refl, String, Bool, true, false, not, ◌&&◌, ◌||◌, ◌==◌, List, [], ◌∷◌, Option,
  none, some, Dict, lookup, insert, contains, length, if◌then◌else◌, Result, ok, err,
}
use skyscale.Weights.Types.{
  Bytes, Manifest, Publication, PublicationState, ready, failed, RunState, WeightError,
  parent_cycle, version_not_found, stored_checksum_mismatch, sizes_differ, materialized_mismatch,
  materialized_unavailable,
}
use skyscale.Weights.Stores.{fetch, put_immutable, load, save}
use skyscale.Weights.Publish.{checksum_of}

-- applyXORDelta: the sizes are compared first, so the loop runs over both lists at once.
unfoldable pub apply_xor_delta : Bytes → Bytes → Result WeightError Bytes
apply_xor_delta [] [] = ok []
apply_xor_delta (p ∷ parent) (d ∷ delta) = elim (apply_xor_delta parent delta) [
  | ok rest ↦ ok (bit_xor p d ∷ rest)
  | err e ↦ err e
]
apply_xor_delta _ _ = err sizes_differ

-- What `materializeLocked` changes: the artifact store and the run's publications.
pub record Depot : Type 0 where
  pub artifacts : Dict Bytes
  pub publications : Dict Publication

-- Checksums["result"], or the artifact's where that is empty.
abbrev pub expected_checksum : Publication → String
expected_checksum p =
    let result = checksum_of "result" p.manifest in
    if result == "" then p.artifact_sha256 else result

abbrev pub materialized_key : String → String → String
materialized_key run_id version =
    append "weights/" (append run_id (append "/materialized/" (append version ".bin")))

module _ (checksum : Bytes → String) (run_id : String) where
  -- The payload that an earlier call stored, if it is there and intact.
  unfoldable pub cached : Publication → Depot → Option Bytes
  cached p depot =
      if p.materialized_uri == "" then none else elim (fetch p.materialized_uri depot.artifacts) [
        | err e ↦ none
        | ok payload ↦ if checksum payload == p.result_sha256 then some payload else none
      ]

  -- The checks on the result, and what is stored of it.
  unfoldable pub finish : String → Publication → Bytes → Depot → Depot × Result WeightError Bytes
  finish version p result depot =
      let expected = expected_checksum p in
      let uri = materialized_key run_id version in
      if not (checksum result == expected)
      then (depot, err materialized_mismatch)
      else elim (put_immutable checksum uri result expected depot.artifacts) [
        | err e ↦ (depot, err e)
        | ok artifacts ↦ (
          record {
            artifacts = artifacts;
            publications =
                insert version
                  (record p { materialized_uri = uri; result_sha256 = expected; state = ready })
                  depot.publications;
          },
          ok result,
        )
      ]

  -- The parent is materialized; its result and the delta make the version's.
  unfoldable pub combine :
      String
      → Publication
      → Bytes
      → Depot × Result WeightError Bytes
      → Depot × Result WeightError Bytes
  combine version p artifact (depot, err e) = (depot, err e)
  combine version p artifact (depot, ok parent) = elim (apply_xor_delta parent artifact) [
    | err e ↦ (depot, err e)
    | ok result ↦ finish version p result depot
  ]

  -- `materializeLocked` on fuel; `none` means that it ran out. `visiting` holds the versions whose
  -- parents are being materialized.
  unfoldable pub materialize_from :
      ℕ → String → List String → Depot → Option (Depot × Result WeightError Bytes)
  materialize_from zero version visiting depot = none
  materialize_from (suc fuel) version visiting depot =
      if contains version visiting
      then some (depot, err parent_cycle)
      else elim (lookup version depot.publications) [
        | none ↦ some (depot, err version_not_found)
        | some p ↦ elim (cached p depot) [
          | some payload ↦ some (depot, ok payload)
          | none ↦ elim (fetch p.manifest.artifact_uri depot.artifacts) [
            | err e ↦ some (depot, err e)
            | ok artifact ↦
                if not (checksum artifact == p.artifact_sha256)
                then some (depot, err stored_checksum_mismatch)
                else if p.manifest.format == "delta"
                then Option.map (combine version p artifact)
                    (materialize_from fuel p.manifest.parent_version (version ∷ visiting) depot)
                else some (finish version p artifact depot)
          ]
        ]
      ]

  -- With fuel for every publication.
  unfoldable pub materialize_version : String → Depot → Option (Depot × Result WeightError Bytes)
  materialize_version version depot =
      materialize_from (suc (length depot.publications)) version [] depot
