-- ===== src/Weights/Materialize/Sound.antt =====
-- What `materializeLocked` of control-plane/weights/service.go hands out.
use mathlib.Core.Option
use skyscale.Prelude.{
  ℕ, zero, suc, ◌≡◌, ◌≢◌, refl, inl, inr, String, false, ◌==◌, List, [], ◌∷◌, Option, none, some,
  Dict, lookup, lookup-insert, insert, length, Result, ok, err, arith, eq_iff, eq_refl, Bool-cases,
  Option-cases, Result-cases,
}
use skyscale.Weights.Types.{Bytes, Publication, WeightError, ready}
use skyscale.Weights.Stores.{fetch, put_immutable}
use skyscale.Weights.Materialize.{
  Depot, apply_xor_delta, cached, combine, finish, materialize_from, materialize_version,
  expected_checksum, materialized_key,
}

module _ (checksum : Bytes → String) (run_id : String) where
  -- What the bytes of a version are, by its chain of parents: the artifact of a full version, and the
  -- parent's bytes with the delta applied. For a version that was materialized before, the bytes at
  -- its URI stand for it where they have the recorded checksum.
  pub data Derives (depot : Depot) : String → Bytes → Type 0 where
    stored :
        {version : String} {payload : Bytes} (p : Publication)
        → lookup version depot.publications ≡ some p
        → p.materialized_uri ≢ ""
        → fetch p.materialized_uri depot.artifacts ≡ ok payload
        → checksum payload ≡ p.result_sha256
        → Derives depot version payload
    full :
        {version : String} {payload : Bytes} (p : Publication)
        → lookup version depot.publications ≡ some p
        → (p.manifest.format == "delta") ≡ false
        → fetch p.manifest.artifact_uri depot.artifacts ≡ ok payload
        → checksum payload ≡ p.artifact_sha256
        → checksum payload ≡ expected_checksum p
        → Derives depot version payload
    delta :
        {version : String} {payload : Bytes} (p : Publication) (parent artifact : Bytes)
        → lookup version depot.publications ≡ some p
        → fetch p.manifest.artifact_uri depot.artifacts ≡ ok artifact
        → checksum artifact ≡ p.artifact_sha256
        → Derives depot p.manifest.parent_version parent
        → apply_xor_delta parent artifact ≡ ok payload
        → checksum payload ≡ expected_checksum p
        → Derives depot version payload

  cached-inv :
      (p : Publication) (depot : Depot) (payload : Bytes)
      → cached checksum run_id p depot ≡ some payload
      → (p.materialized_uri ≢ "")
        × (fetch p.materialized_uri depot.artifacts ≡ ok payload)
        × (checksum payload ≡ p.result_sha256)
  unfolding cached
  cached-inv p depot payload h = elim (Result-cases (fetch p.materialized_uri depot.artifacts)) [
    | inl (e, missing) ↦ absurd (ground arith)
    | inr (found, e) ↦ (
      λ blank. absurd (ground (arith, eq_iff p.materialized_uri "")),
      ground arith,
      ground (arith, eq_iff (checksum found) p.result_sha256),
    )
  ]

  finish-inv :
      (version : String) (p : Publication) (result payload : Bytes) (depot depot' : Depot)
      → finish checksum run_id version p result depot ≡ (depot', ok payload)
      → (payload ≡ result) × (checksum payload ≡ expected_checksum p)
  unfolding finish
  finish-inv version p result payload depot depot' h =
      elim (Bool-cases (checksum result == expected_checksum p)) [
        | inr e ↦ absurd (ground arith)
        | inl e ↦
            elim (Result-cases (
              put_immutable checksum (materialized_key run_id version) result (expected_checksum p)
                depot.artifacts)) [
                  | inl (x, refused) ↦ absurd (ground arith)
                  | inr (a, stored_there) ↦
                      let same : payload ≡ result = ground arith in
                      (same, rw same ((eq_iff (checksum result) (expected_checksum p)).0 e))
                ]
      ]

  -- Depot `d` serves `payload` as the materialized bytes of a version.
  pub record Serves (d : Depot) (version : String) (payload : Bytes) : Type 0 where
    pub entry : Publication
    pub present : lookup version d.publications ≡ some entry
    pub there : fetch entry.materialized_uri d.artifacts ≡ ok payload
    pub right : checksum payload ≡ entry.result_sha256

  put_immutable-fetch :
      (uri expected : String) (payload : Bytes) (store store' : Dict Bytes)
      → put_immutable checksum uri payload expected store ≡ ok store'
      → fetch uri store' ≡ ok payload
  unfolding put_immutable fetch
  put_immutable-fetch uri expected payload store store' h =
      ground (arith, lookup-insert uri uri payload store, eq_refl uri)

  finish-Serves :
      (version : String) (p : Publication) (result payload : Bytes) (depot depot' : Depot)
      → finish checksum run_id version p result depot ≡ (depot', ok payload)
      → Serves depot' version payload
  unfolding finish
  finish-Serves version p result payload depot depot' h =
      elim (Bool-cases (checksum result == expected_checksum p)) [
        | inr e ↦ absurd (ground arith)
        | inl e ↦
            elim (Result-cases (
              put_immutable checksum (materialized_key run_id version) result (expected_checksum p)
                depot.artifacts)) [
                  | inl (x, refused) ↦ absurd (ground arith)
                  | inr (a, stored_there) ↦
                      let uri = materialized_key run_id version in
                      let expected = expected_checksum p in
                      let entry : Publication = record p {
                        materialized_uri = uri;
                        result_sha256 = expected;
                        state = ready;
                      } in
                      let same : payload ≡ result = ground arith in
                      let items : depot'.publications ≡ insert version entry depot.publications =
                        ground arith in
                      let store : depot'.artifacts ≡ a = ground arith in
                      record {
                        entry = entry;
                        present = rw (
                          items,
                          lookup-insert version version entry depot.publications,
                          eq_refl version,
                        );
                        there =
                            rw (store, same)
                              (put_immutable-fetch uri expected result depot.artifacts a
                                stored_there);
                        right = rw same ((eq_iff (checksum result) expected).0 e);
                      }
                ]
      ]

  abbrev Yields : Option (Depot × Result WeightError Bytes) → Bytes → Type 0
  Yields r payload = (depot' : Depot) × (r ≡ some (depot', ok payload))

  combine-Derives :
      (version : String) (p : Publication) (artifact payload : Bytes) (depot : Depot)
      (inner : Option (Depot × Result WeightError Bytes))
      → lookup version depot.publications ≡ some p
      → fetch p.manifest.artifact_uri depot.artifacts ≡ ok artifact
      → checksum artifact ≡ p.artifact_sha256
      → ((parent : Bytes) → Yields inner parent → Derives depot p.manifest.parent_version parent)
      → Yields (Option.map (combine checksum run_id version p artifact) inner) payload
      → Derives depot version payload
  unfolding combine
  combine-Derives version p artifact payload depot none at_p found intact ih (d, y) =
      absurd (ground arith)
  combine-Derives version p artifact payload depot (some (d', err e)) at_p found intact ih (d, y) =
      absurd (ground arith)
  combine-Derives version p artifact payload depot (some (d', ok parent)) at_p found intact ih
        (d, y) =
      elim (Result-cases (apply_xor_delta parent artifact)) [
        | inl (e, differ) ↦ absurd (ground arith)
        | inr (result, joined) ↦
            let (same, right) = finish-inv version p result payload d' d (ground arith) in
            delta p parent artifact at_p found intact (ih parent (d', refl)) (rw same joined) right
      ]

  materialize_from-Derives :
      (fuel : ℕ) (version : String) (visiting : List String) (depot : Depot) (payload : Bytes)
      → Yields (materialize_from checksum run_id fuel version visiting depot) payload
      → Derives depot version payload
  unfolding materialize_from
  materialize_from-Derives zero version visiting depot payload (d, y) = absurd (ground arith)
  materialize_from-Derives (suc fuel) version visiting depot payload (d, y) =
      elim (Option-cases (lookup version depot.publications)) [
        | inl e ↦ absurd (ground arith)
        | inr (p, e) ↦ elim (Option-cases (cached checksum run_id p depot)) [
          | inr (hit, c) ↦
              let same : payload ≡ hit = ground arith in
              let (named, there, right) = cached-inv p depot hit c in
              rw same (stored p e named there right)
          | inl c ↦ elim (Result-cases (fetch p.manifest.artifact_uri depot.artifacts)) [
            | inl (x, gone) ↦ absurd (ground arith)
            | inr (artifact, found) ↦ elim (Bool-cases (checksum artifact == p.artifact_sha256)) [
              | inr torn ↦ absurd (ground arith)
              | inl whole ↦
                  let intact = (eq_iff (checksum artifact) p.artifact_sha256).0 whole in
                  elim (Bool-cases (p.manifest.format == "delta")) [
                    | inl is_delta ↦
                        combine-Derives version p artifact payload depot _ e found intact
                          (materialize_from-Derives fuel p.manifest.parent_version
                            (version ∷ visiting) depot)
                          (d, ground arith)
                    | inr is_full ↦
                        let (same, right) =
                          finish-inv version p artifact payload depot d (ground arith) in
                        full p e is_full (rw same found) (rw same intact) right
                  ]
            ]
          ]
        ]
      ]

  -- The bytes that materializing a version returns are the ones that its chain of parents stands
  -- for: an intact full artifact, or the parent's bytes with the intact delta applied, where a
  -- payload stored before may stand for its version. Every step's checksum has been compared.
  pub materialize_version-Derives :
      (version : String) (depot depot' : Depot) (payload : Bytes)
      → materialize_version checksum run_id version depot ≡ some (depot', ok payload)
      → Derives depot version payload
  unfolding materialize_version
  materialize_version-Derives version depot depot' payload h =
      materialize_from-Derives (suc (length depot.publications)) version [] depot payload
        (depot', h)

  combine-Serves :
      (version : String) (p : Publication) (artifact payload : Bytes) (d : Depot)
      (inner : Option (Depot × Result WeightError Bytes))
      → Option.map (combine checksum run_id version p artifact) inner ≡ some (d, ok payload)
      → Serves d version payload
  unfolding combine
  combine-Serves version p artifact payload d none h = absurd (ground arith)
  combine-Serves version p artifact payload d (some (d', err e)) h = absurd (ground arith)
  combine-Serves version p artifact payload d (some (d', ok parent)) h =
      elim (Result-cases (apply_xor_delta parent artifact)) [
        | inl (e, differ) ↦ absurd (ground arith)
        | inr (result, joined) ↦ finish-Serves version p result payload d' d (ground arith)
      ]

  materialize_from-Serves :
      (fuel : ℕ) (version : String) (visiting : List String) (depot d : Depot) (payload : Bytes)
      → materialize_from checksum run_id fuel version visiting depot ≡ some (d, ok payload)
      → Serves d version payload
  unfolding materialize_from
  materialize_from-Serves zero version visiting depot d payload h = absurd (ground arith)
  materialize_from-Serves (suc fuel) version visiting depot d payload h =
      elim (Option-cases (lookup version depot.publications)) [
        | inl e ↦ absurd (ground arith)
        | inr (p, e) ↦ elim (Option-cases (cached checksum run_id p depot)) [
          | inr (hit, c) ↦
              let same : payload ≡ hit = ground arith in
              let still : d ≡ depot = ground arith in
              let (named, there, right) = cached-inv p depot hit c in
              rw (same, still) (record { entry = p; present = e; there = there; right = right })
          | inl c ↦ elim (Result-cases (fetch p.manifest.artifact_uri depot.artifacts)) [
            | inl (x, gone) ↦ absurd (ground arith)
            | inr (artifact, found) ↦ elim (Bool-cases (checksum artifact == p.artifact_sha256)) [
              | inr torn ↦ absurd (ground arith)
              | inl whole ↦ elim (Bool-cases (p.manifest.format == "delta")) [
                | inl is_delta ↦
                    combine-Serves version p artifact payload d
                      (materialize_from checksum run_id fuel p.manifest.parent_version
                        (version ∷ visiting) depot)
                      (ground arith)
                | inr is_full ↦ finish-Serves version p artifact payload depot d (ground arith)
              ]
            ]
          ]
        ]
      ]

  pub materialize_version-Serves :
      (version : String) (depot d : Depot) (payload : Bytes)
      → materialize_version checksum run_id version depot ≡ some (d, ok payload)
      → Serves d version payload
  unfolding materialize_version
  materialize_version-Serves version depot d payload h =
      materialize_from-Serves (suc (length depot.publications)) version [] depot d payload h
