-- ===== src/Weights/Lifecycle.antt =====
-- control-plane/weights/service.go: `MarkGood`, `Rollback`, `Expire` and `EngineInstruction`.
pub mod Expiry
pub mod Rollback
use skyscale.Prelude.{
  ℕ, ◌≡◌, refl, String, Bool, true, false, not, ◌&&◌, ◌||◌, ◌==◌, List, [], ◌∷◌, Option, none, some,
  Dict, lookup, insert, adjust, map_values, leb, sort_strings, if◌then◌else◌, Result, ok, err,
}
use skyscale.Weights.Types.{
  EngineState, Publication, PublicationState, published, ready, activating, failed, rolled_back,
  RunState, EngineInstruction, WeightError, only_active, no_last_good, engine_not_registered,
}
use skyscale.Weights.Stores.{Outcome, saves, leaves, load, with_run}

unfoldable pub mark_good_in : String → RunState → Outcome (Unit {0})
mark_good_in version state =
    if not (state.active == version)
    then leaves (err only_active)
    else saves
        (record state {
          last_good = version;
          engines =
              map_values
                (λ e.
                  if e.current_version == version
                  then record e { last_good_version = version }
                  else e)
                state.engines;
        })
        (ok tt)

unfoldable pub rollback_in : String → RunState → Outcome String
rollback_in reason state =
    if state.last_good == ""
    then leaves (err no_last_good)
    else saves
        (record state {
          publications =
              adjust state.active (λ p. record p { state = rolled_back }) state.publications;
          active = state.last_good;
          engines =
              map_values
                (λ e. record e {
                  desired_version = state.last_good;
                  error = reason;
                  draining = true;
                })
                state.engines;
        })
        (ok state.last_good)

abbrev pub is_pending : PublicationState → Bool
is_pending published = true
is_pending ready = true
is_pending activating = true
is_pending _ = false

-- !now.Before(p.Deadline), while the publication waits for acknowledgements.
abbrev pub is_overdue : ℕ → Publication → Bool
is_overdue now p = is_pending p.state && leb p.deadline now

-- Where an engine goes whose acknowledgement is missing.
abbrev pub fallback : RunState → String
fallback state = if not (state.active == "") then state.active else state.last_good

abbrev pub is_missing : Option ℕ → Bool
is_missing none = true
is_missing (some _) = false

abbrev pub time_out : String → EngineState → EngineState
time_out version e = record e {
  draining = true;
  error = "weight acknowledgement timeout";
  desired_version = version;
}

-- The inner loop, over the required engines of an overdue publication.
unfoldable pub time_out_missing : String → Dict ℕ → Dict Bool → Dict EngineState → Dict EngineState
time_out_missing version acks [] engines = engines
time_out_missing version acks ((id, _) ∷ required) engines =
    time_out_missing version acks required
      (if is_missing (lookup id acks) then adjust id (time_out version) engines else engines)

-- The outer loop, in the map's order: the publications, the engines, and the expired versions.
unfoldable pub expire_all :
    ℕ
    → String
    → Dict Publication
    → Dict EngineState
    → Dict Publication × Dict EngineState × List String
expire_all now version [] engines = ([], engines, [])
expire_all now version ((v, p) ∷ m) engines =
    let overdue = is_overdue now p in
    let engines' =
      if overdue then time_out_missing version p.acks p.required engines else engines in
    let rest = expire_all now version m engines' in
    if overdue
    then ((v, record p { state = failed }) ∷ rest.0, rest.1, v ∷ rest.2)
    else ((v, p) ∷ rest.0, rest.1, rest.2)

unfoldable pub expire_in : ℕ → RunState → Outcome (List String)
expire_in now state =
    let (publications, engines, expired) =
      expire_all now (fallback state) state.publications state.engines in
    saves (record state { publications = publications; engines = engines })
      (ok (sort_strings expired))

abbrev pub instruction_for : EngineState → Option Publication → EngineInstruction
instruction_for e none = record {
  desired_version = e.desired_version;
  current_version = e.current_version;
  last_good_version = e.last_good_version;
  draining = e.draining;
  manifest = none;
  artifact_uri = "";
  sha256 = "";
}
instruction_for e (some p) = record {
  desired_version = e.desired_version;
  current_version = e.current_version;
  last_good_version = e.last_good_version;
  draining = e.draining;
  manifest = some p.manifest;
  artifact_uri = p.materialized_uri;
  sha256 = p.result_sha256;
}

unfoldable pub engine_instruction : String → RunState → Result WeightError EngineInstruction
engine_instruction engine_id state = elim (lookup engine_id state.engines) [
  | none ↦ err engine_not_registered
  | some e ↦ ok (instruction_for e (lookup e.desired_version state.publications))
]

unfoldable pub mark_good :
    ℕ → String → String → Dict RunState → Dict RunState × Result WeightError (Unit {0})
mark_good now run_id version repository = with_run now run_id (mark_good_in version) repository

unfoldable pub rollback :
    ℕ → String → String → Dict RunState → Dict RunState × Result WeightError String
rollback now run_id reason repository = with_run now run_id (rollback_in reason) repository

unfoldable pub expire :
    ℕ → String → Dict RunState → Dict RunState × Result WeightError (List String)
expire now run_id repository = with_run now run_id (expire_in now) repository
