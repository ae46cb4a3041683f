-- ===== src/Weights/Acknowledge.antt =====
-- control-plane/weights/service.go: `Acknowledge`. A clock reading is an argument; the service reads
-- the clock several times, and compares it once.
pub mod Advance
use skyscale.Prelude.{
  ℕ, ◌≡◌, refl, String, Bool, true, false, not, ◌&&◌, ◌||◌, ◌==◌, List, [], ◌∷◌, Option, none, some,
  Dict, lookup, insert, adjust, length, ltb, eqb, if◌then◌else◌, Result, ok, err,
}
use skyscale.Weights.Types.{
  Bytes, EngineState, Publication, PublicationState, published, ready, activating, active, failed,
  superseded, RunState, WeightError, not_in_run, rollback_mismatch, engine_not_required, not_ready,
  deadline_exceeded, applied_mismatch,
}
use skyscale.Weights.Stores.{Outcome, saves, leaves, with_run}

abbrev pub is_true : Option Bool → Bool
is_true none = false
is_true (some b) = b

abbrev pub accepts_acks : PublicationState → Bool
accepts_acks ready = true
accepts_acks activating = true
accepts_acks _ = false

-- An engine that came back with a checksum that is not the publication's, or too late.
abbrev pub refuse : String → EngineState → EngineState
refuse reason engine = record engine { draining = true; error = reason }

abbrev pub applied : String → ℕ → EngineState → EngineState
applied version now engine = record engine {
  current_version = version;
  acknowledged_at = now;
  error = "";
}

-- The loop over the required engines of a publication that became active. A required engine is
-- registered, so the entry is there.
unfoldable pub release_engines : String → Dict Bool → Dict EngineState → Dict EngineState
release_engines version [] engines = engines
release_engines version ((id, _) ∷ required) engines =
    release_engines version required
      (adjust id (λ e. record e { desired_version = version; draining = false }) engines)

abbrev pub supersede : Publication → Publication
supersede p = record p { state = superseded }

-- The publication that was active before is superseded.
abbrev pub retire : String → String → Dict Publication → Dict Publication
retire old version m = if old == version then m else adjust old supersede m

abbrev pub first_good : String → String → String
first_good last_good version = if last_good == "" then version else last_good

-- Every required engine has acknowledged.
unfoldable pub activate : String → Publication → RunState → RunState
activate version p state = record state {
  publications =
      insert version (record p { state = active }) (retire state.active version state.publications);
  engines = release_engines version p.required state.engines;
  active = version;
  last_good = first_good state.last_good version;
}

unfoldable pub accept : ℕ → String → String → Publication → EngineState → RunState → Outcome Bool
accept now engine_id version p engine state =
    let p' : Publication = record p { state = activating; acks = insert engine_id now p.acks } in
    let state' : RunState = record state {
      publications = insert version p' state.publications;
      engines = insert engine_id (applied version now engine) state.engines;
    } in
    if not (eqb (length p'.acks) (length p'.required))
    then saves state' (ok false)
    else saves (activate version p' state') (ok true)

-- After a rollback an engine comes back to the active version.
unfoldable pub rejoin :
    ℕ → String → String → String → Publication → EngineState → RunState → Outcome Bool
rejoin now engine_id version checksum p engine state =
    if not (checksum == p.result_sha256)
    then saves
        (record state {
          engines = insert engine_id (refuse "rollback checksum mismatch" engine) state.engines;
        })
        (err rollback_mismatch)
    else saves
        (record state {
          engines =
              insert engine_id (record (applied version now engine) { draining = false })
                state.engines;
        })
        (ok true)

unfoldable pub consider :
    ℕ → String → String → String → Publication → EngineState → RunState → Outcome Bool
consider now engine_id version checksum p engine state =
    if state.active == version && engine.desired_version == version
    then rejoin now engine_id version checksum p engine state
    else if not (is_true (lookup engine_id p.required))
    then leaves (err engine_not_required)
    else if not (accepts_acks p.state)
    then leaves (err not_ready)
    else if ltb p.deadline now
    then saves
        (record state {
          publications = insert version (record p { state = failed }) state.publications;
          engines =
              insert engine_id (refuse "acknowledgement deadline exceeded" engine) state.engines;
        })
        (err deadline_exceeded)
    else if not (checksum == p.result_sha256)
    then saves
        (record state {
          engines = insert engine_id (refuse "applied checksum mismatch" engine) state.engines;
        })
        (err applied_mismatch)
    else accept now engine_id version p engine state

unfoldable pub acknowledge_in : ℕ → String → String → String → RunState → Outcome Bool
acknowledge_in now engine_id version checksum state = elim (lookup version state.publications) [
  | none ↦ leaves (err not_in_run)
  | some p ↦ elim (lookup engine_id state.engines) [
    | none ↦ leaves (err not_in_run)
    | some engine ↦ consider now engine_id version checksum p engine state
  ]
]

unfoldable pub acknowledge :
    ℕ → String → String → String → String → Dict RunState → Dict RunState × Result WeightError Bool
acknowledge now run_id engine_id version checksum repository =
    with_run now run_id (acknowledge_in now engine_id version checksum) repository
