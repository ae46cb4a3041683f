-- ===== src/Weights/Invariant/Reachable.antt =====
-- The service of control-plane/weights/service.go from its start, under any sequence of operations
-- of its clients and of uploads to its artifact store.
use skyscale.Prelude.{ℕ, ◌≡◌, refl, subst, String, Bool, List, [], Dict, lookup, some, Result, ok}
use skyscale.Prelude.Int.{ℤ}
use skyscale.Weights.Types.{Bytes, Publication, RunState, Manifest, WeightError}
use skyscale.Weights.Stores.{load, empty_run}
use skyscale.Weights.Publish.{register_engine, publish}
use skyscale.Weights.Acknowledge.{acknowledge, acknowledge_in}
use skyscale.Weights.Lifecycle.{mark_good, rollback, expire, mark_good_in, rollback_in, expire_in}
use skyscale.Weights.Materialize.Service.{Service, materialize}
use skyscale.Weights.Collect.{garbage_collect}
use skyscale.Weights.Invariant.{Sound, Agreed, blank, WellFormed}
use skyscale.Weights.Invariant.Publications.{AllSound-lookup}
use skyscale.Weights.Invariant.Operations.{mark_good_in-WellFormed, rollback_in-WellFormed}
use skyscale.Weights.Invariant.Expiry.{expire_in-WellFormed}
use skyscale.Weights.Invariant.Acknowledgement.{acknowledge_in-WellFormed}
use skyscale.Weights.Invariant.Runs.{
  AllRuns, with_run-AllRuns, materialize-AllRuns, publish-AllRuns, register_engine-AllRuns,
  garbage_collect-AllRuns,
}

abbrev pub stored : Service → Dict RunState → Service
stored s repository = record s { repository = repository }

module _ (checksum : Bytes → String) (fails : String → Bool) where
  -- One call of the service, at any time, or a change of the artifact store from outside.
  pub data Step : Service → Service → Type 0 where
    uploads : {s : Service} (artifacts : Dict Bytes) → Step s (record s { artifacts = artifacts })
    registers :
        {s : Service} (now : ℕ) (run_id id version : String)
        → Step s (stored s (register_engine now run_id id version s.repository).0)
    publishes :
        {s : Service} (now : ℕ) (m : Manifest) (ids : List String) (timeout : ℤ)
        → Step s (stored s (publish checksum now m ids timeout s.artifacts s.repository).0)
    materializes :
        {s s' : Service} (now : ℕ) (run_id v : String) (r : Result WeightError (String × String))
        → materialize checksum now run_id v s ≡ some (s', r)
        → Step s s'
    acknowledges :
        {s : Service} (now : ℕ) (run_id id v sum : String)
        → Step s (stored s (acknowledge now run_id id v sum s.repository).0)
    marks_good :
        {s : Service} (now : ℕ) (run_id v : String)
        → Step s (stored s (mark_good now run_id v s.repository).0)
    rolls_back :
        {s : Service} (now : ℕ) (run_id reason : String)
        → Step s (stored s (rollback now run_id reason s.repository).0)
    expires :
        {s : Service} (now : ℕ) (run_id : String)
        → Step s (stored s (expire now run_id s.repository).0)
    collects :
        {s : Service} (now : ℕ) (run_id : String) (n : ℕ)
        → Step s (garbage_collect fails now run_id n s).0

  -- The states after any number of steps from empty stores.
  pub data Reachable : Service → Type 0 where
    start : Reachable (record { artifacts = []; repository = [] })
    step : {s s' : Service} → Reachable s → Step s s' → Reachable s'

  Step-AllRuns : {s s' : Service} → Step s s' → AllRuns s.repository → AllRuns s'.repository
  unfolding acknowledge mark_good rollback expire
  Step-AllRuns (uploads artifacts) all = all
  Step-AllRuns (registers now run_id id version) all =
      register_engine-AllRuns now run_id id version _ all
  Step-AllRuns (publishes now m ids timeout) all =
      publish-AllRuns checksum now m ids timeout _ _ all
  Step-AllRuns (materializes now run_id v r h) all =
      materialize-AllRuns checksum now run_id v _ _ r h all
  Step-AllRuns (acknowledges now run_id id v sum) all =
      with_run-AllRuns now run_id (acknowledge_in now id v sum) _
        (acknowledge_in-WellFormed now id v sum) all
  Step-AllRuns (marks_good now run_id v) all =
      with_run-AllRuns now run_id (mark_good_in v) _ (mark_good_in-WellFormed v) all
  Step-AllRuns (rolls_back now run_id reason) all =
      with_run-AllRuns now run_id (rollback_in reason) _ (rollback_in-WellFormed reason) all
  Step-AllRuns (expires now run_id) all =
      with_run-AllRuns now run_id (expire_in now) _ (expire_in-WellFormed now) all
  Step-AllRuns (collects now run_id n) all = garbage_collect-AllRuns fails now n run_id _ all

  empty-AllRuns : AllRuns []
  unfolding load empty_run lookup
  empty-AllRuns run_id state h =
      let e : empty_run run_id ≡ state = cc in
      subst WellFormed e (record { publications = tt; active = blank refl; last_good = blank refl })

  Reachable-AllRuns : {s : Service} → Reachable s → AllRuns s.repository
  Reachable-AllRuns start = empty-AllRuns
  Reachable-AllRuns (step r t) = Step-AllRuns t (Reachable-AllRuns r)

  -- Whatever operations ran, in whatever order and with whatever arguments, the active version and
  -- the last good one of a run are blank or published, and every engine that the publication
  -- requires has acknowledged it.
  pub in_use_is_unanimous :
      {s : Service} (run_id : String) (state : RunState)
      → Reachable s
      → load run_id s.repository ≡ ok state
      → Agreed state.publications state.active × Agreed state.publications state.last_good
  in_use_is_unanimous run_id state r loaded =
      let i = Reachable-AllRuns r run_id state loaded in (i.active, i.last_good)

  -- Whatever operations ran, an acknowledgement that a publication has is from an engine that it
  -- requires, no engine has two, and a required engine is registered with the run: the lookups of
  -- required engines by `Acknowledge` and `Expire` find one.
  pub Reachable-Sound :
      {s : Service} (run_id v : String) (state : RunState) (p : Publication)
      → Reachable s
      → load run_id s.repository ≡ ok state
      → lookup v state.publications ≡ some p
      → Sound state.engines p
  Reachable-Sound run_id v state p r loaded found =
      AllSound-lookup state.engines state.publications v p
        (Reachable-AllRuns r run_id state loaded).publications found
