-- ===== src/Weights/Materialize/Service.antt =====
-- control-plane/weights/service.go: `Materialize` and `MaterializedArtifact`. `none` stands for the
-- dereference of a nil publication.
use skyscale.Prelude.{
  ℕ, ◌≡◌, refl, String, Bool, true, false, ◌||◌, ◌==◌, Option, none, some, Dict, lookup, ap, ◌∙◌,
  ◌≢◌, inl, inr, Result-cases, insert, if◌then◌else◌, Result, ok, err,
}
use skyscale.Weights.Types.{
  Bytes, Publication, PublicationState, failed, RunState, WeightError, materialized_unavailable,
  checksum_mismatch,
}
use skyscale.Weights.Stores.{fetch, load, save}
use skyscale.Weights.Materialize.Total.{materialize_version-total}
use skyscale.Weights.Materialize.Sound.{materialize_version-Serves}
use skyscale.Weights.Materialize.{Depot, materialize_version}

abbrev is_failed : PublicationState → Bool
is_failed failed = true
is_failed _ = false

-- A failure marks the publication, if there is one.
abbrev pub mark_failed : String → Dict Publication → Dict Publication
mark_failed version m = elim (lookup version m) [
  | none ↦ m
  | some p ↦ insert version (record p { state = failed }) m
]

-- The service, over its two stores.
pub record Service : Type 0 where
  pub artifacts : Dict Bytes
  pub repository : Dict RunState

module _ (checksum : Bytes → String) where
  -- The end of `Materialize`, from what `materializeLocked` left and returned.
  unfoldable pub conclude :
      ℕ
      → String
      → RunState
      → Dict RunState
      → Depot × Result WeightError Bytes
      → Option (Service × Result WeightError (String × String))
  conclude now version state repository (depot, err e) = some (
    record {
      artifacts = depot.artifacts;
      repository =
          save now (record state { publications = mark_failed version depot.publications })
            repository;
    },
    err e,
  )
  conclude now version state repository (depot, ok payload) =
      elim (lookup version depot.publications) [
        | none ↦ none
        | some p ↦ some (
          record {
            artifacts = depot.artifacts;
            repository = save now (record state { publications = depot.publications }) repository;
          },
          ok (p.materialized_uri, p.result_sha256),
        )
      ]

  unfoldable pub materialize :
      ℕ → String → String → Service → Option (Service × Result WeightError (String × String))
  materialize now run_id version s = elim (load run_id s.repository) [
    | err e ↦ some (s, err e)
    | ok state ↦
        elim (materialize_version checksum run_id version
          (record { artifacts = s.artifacts; publications = state.publications })) [
            | none ↦ none
            | some r ↦ conclude now version state s.repository r
          ]
  ]

  unfoldable pub materialized_artifact :
      String → String → Service → Result WeightError (Bytes × String)
  materialized_artifact run_id version s = elim (load run_id s.repository) [
    | err e ↦ err e
    | ok state ↦ elim (lookup version state.publications) [
      | none ↦ err materialized_unavailable
      | some p ↦
          if p.materialized_uri == "" || is_failed p.state
          then err materialized_unavailable
          else elim (fetch p.materialized_uri s.artifacts) [
            | err e ↦ err e
            | ok payload ↦
                if checksum payload == p.result_sha256
                then ok (payload, p.result_sha256)
                else err checksum_mismatch
          ]
    ]
  ]

  conclude-total :
      (now : ℕ) (version : String) (state : RunState) (repository : Dict RunState)
      (r : Depot × Result WeightError Bytes)
      → ((payload : Bytes)
          → r.1 ≡ ok payload
          → (p : Publication) × (lookup version r.0.publications ≡ some p))
      → conclude now version state repository r ≢ none
  unfolding conclude
  conclude-total now version state repository (depot, err e) h = λ e. cc
  conclude-total now version state repository (depot, ok payload) h =
      let (p, at) = h payload refl in rw (at, conclude) (λ e. cc)

  -- `Materialize` always returns: it neither runs out of fuel nor dereferences a publication that
  -- is not there.
  pub materialize-ne-none :
      (now : ℕ) (run_id version : String) (s : Service) → materialize now run_id version s ≢ none
  unfolding materialize
  materialize-ne-none now run_id version s = elim (Result-cases (load run_id s.repository)) [
    | inl (e, failed_load) ↦ rw (failed_load, materialize) (λ e. cc)
    | inr (state, loaded) ↦
        let depot : Depot = record { artifacts = s.artifacts; publications = state.publications } in
        let (r, run) = materialize_version-total checksum run_id version depot in
        rw (loaded, materialize, run)
          (conclude-total now version state s.repository r (λ payload e.
            let served =
              materialize_version-Serves checksum run_id version depot r.0 payload
                (run ∙ ap some (ap (λ x. (r.0, x)) e)) in
            (served.entry, served.present)))
  ]
