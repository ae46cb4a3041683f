-- ===== src/Weights/Collect.antt =====
-- control-plane/weights/service.go: `GarbageCollect`. An artifact store may fail to delete: the
-- parameter `fails` says at which URIs, and is constant false for `MemoryArtifactStore`.
pub mod Chain
pub mod Roots
pub mod Safety
use skyscale.Prelude.{
  ℕ, zero, suc, ◌+◌, ◌≡◌, refl, String, Bool, true, false, not, ◌&&◌, ◌||◌, ◌==◌, List, [], ◌∷◌,
  Option, none, some, Dict, lookup, delete, contains, length, if◌then◌else◌, Result, ok, err,
}
use skyscale.Prelude.Int.{ℤ, ltb_ℤ}
use skyscale.Weights.Types.{
  Bytes, Manifest, EngineState, Publication, RunState, WeightError, delete_failed,
}
use skyscale.Weights.Stores.{load, save}
use skyscale.Weights.Lifecycle.{is_pending}
use skyscale.Weights.Materialize.Service.{Service}

-- retainChain, on fuel: a version, its parent, and so on up to one that is kept or not there.
unfoldable pub retain_chain : ℕ → Dict Publication → String → List String → List String
retain_chain zero publications version keep = keep
retain_chain (suc fuel) publications version keep =
    if version == "" || contains version keep then keep else elim (lookup version publications) [
      | none ↦ version ∷ keep
      | some p ↦ retain_chain fuel publications p.manifest.parent_version (version ∷ keep)
    ]

-- With fuel for every publication.
unfoldable pub retain : Dict Publication → String → List String → List String
retain publications version keep =
    retain_chain (suc (length publications)) publications version keep

unfoldable pub retain_engines : Dict Publication → Dict EngineState → List String → List String
retain_engines publications [] keep = keep
retain_engines publications ((_, e) ∷ engines) keep = retain_engines publications engines (
    retain publications e.last_good_version
      (retain publications e.current_version (retain publications e.desired_version keep)))

insert_newest : Publication → List Publication → List Publication
insert_newest p [] = p ∷ []
insert_newest p (q ∷ qs) =
    let rest = insert_newest p qs in
    if ltb_ℤ p.manifest.optimizer_step q.manifest.optimizer_step then q ∷ rest else p ∷ q ∷ qs

-- The publications by falling optimizer step. The order of equal steps is left open by
-- `sort.Slice`; it is the map's here.
unfoldable pub newest_first : Dict Publication → List Publication
unfolding insert_newest
newest_first [] = []
newest_first ((_, p) ∷ m) = insert_newest p (newest_first m)

unfoldable pub retain_newest : ℕ → Dict Publication → List Publication → List String → List String
retain_newest zero publications all keep = keep
retain_newest (suc n) publications [] keep = keep
retain_newest (suc n) publications (p ∷ all) keep =
    retain_newest n publications all (retain publications p.manifest.version keep)

-- The versions that a collection keeps.
unfoldable pub kept_versions : ℕ → RunState → List String
kept_versions retain_count state =
    let m = state.publications in
    retain_newest retain_count m (newest_first m)
      (retain_engines m state.engines (retain m state.last_good (retain m state.active [])))

abbrev pub is_kept : List String → String → Publication → Bool
is_kept keep version p = contains version keep || is_pending p.state

-- A collection's state: the store, what is left of the map, and what was removed.
pub record Sweep : Type 0 where
  pub store : Dict Bytes
  pub publications : Dict Publication
  pub removed : List Manifest
  pub complete : Bool

abbrev keep_entry : String → Publication → Sweep → Sweep
keep_entry version p s = record s { publications = (version, p) ∷ s.publications }

abbrev drop_entry : Publication → Sweep → Sweep
drop_entry p s = record s { removed = p.manifest ∷ s.removed }

module _ (fails : String → Bool) where
  unfoldable pub delete_artifact : String → Dict Bytes → Result WeightError (Dict Bytes)
  delete_artifact uri store = if fails uri then err delete_failed else ok (delete uri store)

  -- The materialized artifact, if there is one, then the uploaded one: the store, and whether both
  -- are gone.
  unfoldable pub delete_files : Publication → Dict Bytes → Dict Bytes × Bool
  unfolding delete_artifact
  delete_files p store =
      elim (if p.materialized_uri == ""
        then ok store
        else delete_artifact p.materialized_uri store) [
          | err e ↦ (store, false)
          | ok store' ↦ elim (delete_artifact p.manifest.artifact_uri store') [
            | err e ↦ (store', false)
            | ok store'' ↦ (store'', true)
          ]
        ]

  -- The last loop, in the map's order, up to the first deletion that fails.
  unfoldable pub sweep : List String → Dict Publication → Dict Bytes → Sweep
  sweep keep [] store = record { store = store; publications = []; removed = []; complete = true }
  sweep keep ((version, p) ∷ m) store = elim (is_kept keep version p) [
    | true ↦ keep_entry version p (sweep keep m store)
    | false ↦
        let (store', gone) = delete_files p store in
        elim gone [
          | true ↦ drop_entry p (sweep keep m store')
          | false ↦ record { store = store'; publications = []; removed = []; complete = false }
        ]
  ]

  -- The state is saved only if every deletion succeeded.
  unfoldable pub garbage_collect :
      ℕ → String → ℕ → Service → Service × Result WeightError (List Manifest)
  garbage_collect now run_id retain_count s = elim (load run_id s.repository) [
    | err e ↦ (s, err e)
    | ok state ↦
        let swept = sweep (kept_versions retain_count state) state.publications s.artifacts in
        if swept.complete
        then (
          record {
            artifacts = swept.store;
            repository = save now (record state { publications = swept.publications }) s.repository;
          },
          ok swept.removed,
        )
        else (record s { artifacts = swept.store }, err delete_failed)
  ]
