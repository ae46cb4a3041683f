-- ===== src/Weights/Tests.antt =====
-- Runs of the operations of control-plane/weights/service.go, and the results on them.
use skyscale.Prelude.{
  zero, suc, ◌≡◌, refl, sym, ◌⊎◌, ◌≢◌, String, Bool, true, false, [], ◌∷◌, Option, none, some, Dict,
  lookup, insert, adjust, map_values, contains, Result, ok, err, arith,
}
use skyscale.Prelude.Int.{pos}
use skyscale.Weights.Types.{
  Bytes, Manifest, EngineState, EngineInstruction, Publication, RunState, WeightError,
}
use skyscale.Weights.Stores.{
  load, save, with_run, fetch, put_immutable, empty_run, Outcome, saves, leaves,
}
use skyscale.Weights.Publish.{
  register_engine, register_in, publish, publish_in, validate_manifest, require_engines,
  delta_problem, new_engine,
}
use skyscale.Weights.Materialize.{
  apply_xor_delta, cached, finish, materialize_from, materialize_version,
}
use skyscale.Weights.Materialize.Service.{Service, materialize, conclude, materialize-ne-none}
use skyscale.Weights.Acknowledge.{
  acknowledge, acknowledge_in, consider, accept, activate, release_engines,
}
use skyscale.Weights.Lifecycle.{rollback_in, expire_in, engine_instruction}
use skyscale.Weights.Invariant.Reachable.{
  uploads, registers, publishes, materializes, acknowledges, Reachable, start, step, stored,
  in_use_is_unanimous, Reachable-Sound,
}
use skyscale.Weights.Invariant.{Agreed, Sound}
use skyscale.Weights.Types
use skyscale.Weights.Collect.{
  garbage_collect, sweep, kept_versions, newest_first, retain_newest, retain_engines, retain,
  retain_chain,
}
use skyscale.Weights.Collect.Safety.{garbage_collect-safe, is_active, itself}
use skyscale.Weights.Acknowledge.Advance.{on_version, Confirms, acknowledge_in-Moves}
use skyscale.Weights.Lifecycle.Rollback.{rollback-rejoin}
use skyscale.Weights.Publish.Once.{publish-again, publish-once}
use skyscale.Weights.Delta.{apply_xor_delta-self_inverse, apply_xor_delta-SameSize, SameSize}

-- A checksum of the first byte.
abbrev toy : Bytes → String
toy [] = "0"
toy (zero ∷ _) = "z"
toy (suc n ∷ _) = "s"

abbrev never : String → Bool
never uri = false

abbrev full : Manifest
full = record {
  api_version = "rl.skyscale.dev/v1alpha1";
  version = "w1";
  run_id = "run";
  base_checkpoint = "base";
  parent_version = "";
  format = "full";
  dtype = "bf16";
  tensors = [];
  checksums = ("artifact", "s") ∷ ("result", "s") ∷ [];
  byte_size = pos 2;
  optimizer_step = pos 1;
  compatibility = [];
  artifact_uri = "s3://w1";
  upload_complete = false;
  manifest_committed = false;
  verified = false;
  created_at = 0;
}

abbrev artifacts : Dict Bytes
artifacts = ("s3://w1", 1 ∷ 2 ∷ []) ∷ []

abbrev uploaded : Service
uploaded = record { artifacts = artifacts; repository = [] }

abbrev registered : Service
registered = stored uploaded (register_engine 1 "run" "e1" "" uploaded.repository).0

abbrev published_there : Service
published_there =
    stored registered
      (publish toy 2 full ("e1" ∷ []) (pos 100) registered.artifacts registered.repository).0

abbrev service_of : Option (Service × Result WeightError (String × String)) → Service
service_of none = uploaded
service_of (some (s, _)) = s

abbrev result_of :
    Option (Service × Result WeightError (String × String)) → Result WeightError (String × String)
result_of none = ok ("", "")
result_of (some (_, r)) = r

abbrev materialized : Service
materialized = service_of (materialize toy 3 "run" "w1" published_there)

abbrev acknowledged : Service
acknowledged = stored materialized (acknowledge 4 "run" "e1" "w1" "s" materialized.repository).0

abbrev state_of : Result WeightError RunState → RunState
state_of (ok state) = state
state_of (err e) = empty_run ""

abbrev run_in : Service → RunState
run_in s = state_of (load "run" s.repository)

loads : load "run" acknowledged.repository ≡ ok (run_in acknowledged)
unfolding load save with_run lookup insert register_engine register_in new_engine publish publish_in
    fetch validate_manifest require_engines delta_problem materialize materialize_version
    materialize_from cached finish put_immutable conclude acknowledge acknowledge_in consider accept
    activate release_engines adjust contains empty_run
loads = refl

materialized_ok :
    materialize toy 3 "run" "w1" published_there
    ≡ some (materialized, ok ("weights/run/materialized/w1.bin", "s"))
unfolding load save with_run lookup insert register_engine register_in new_engine publish publish_in
    fetch validate_manifest require_engines delta_problem materialize materialize_version
    materialize_from cached finish put_immutable conclude contains empty_run
materialized_ok = refl

acknowledged-Reachable : Reachable toy never acknowledged
acknowledged-Reachable =
    step
      (step
        (step (step (step start (uploads artifacts)) (registers 1 "run" "e1" ""))
          (publishes 2 full ("e1" ∷ []) (pos 100)))
        (materializes 3 "run" "w1" (ok ("weights/run/materialized/w1.bin", "s")) materialized_ok))
      (acknowledges 4 "run" "e1" "w1" "s")

-- The one required engine has acknowledged, so the version is active.
now_active : (run_in acknowledged).active ≡ "w1"
unfolding load save with_run lookup insert register_engine register_in new_engine publish publish_in
    fetch validate_manifest require_engines delta_problem materialize materialize_version
    materialize_from cached finish put_immutable conclude acknowledge acknowledge_in consider accept
    activate release_engines adjust contains empty_run
now_active = refl

in_use_is_unanimous_example :
    Agreed (run_in acknowledged).publications (run_in acknowledged).active
    × Agreed (run_in acknowledged).publications (run_in acknowledged).last_good
in_use_is_unanimous_example =
    in_use_is_unanimous toy never "run" (run_in acknowledged) acknowledged-Reachable loads

abbrev or_blank_publication : Option Publication → Publication
or_blank_publication (some p) = p
or_blank_publication none = record {
  manifest = full;
  required = [];
  acks = [];
  state = Types.published;
  deadline = 0;
  materialized_uri = "";
  artifact_sha256 = "";
  result_sha256 = "";
}

abbrev w1_in : Service → Publication
w1_in s = or_blank_publication (lookup "w1" (run_in s).publications)

w1_found : lookup "w1" (run_in acknowledged).publications ≡ some (w1_in acknowledged)
unfolding load save with_run lookup insert register_engine register_in new_engine publish publish_in
    fetch validate_manifest require_engines delta_problem materialize materialize_version
    materialize_from cached finish put_immutable conclude acknowledge acknowledge_in consider accept
    activate release_engines adjust contains empty_run
w1_found = refl

Reachable-Sound_example : Sound (run_in acknowledged).engines (w1_in acknowledged)
Reachable-Sound_example =
    Reachable-Sound toy never "run" "w1" (run_in acknowledged) (w1_in acknowledged)
      acknowledged-Reachable loads w1_found

-- A collection that keeps no newest version.
abbrev collected : Service
collected = (garbage_collect never 9 "run" 0 acknowledged).0

collects_nothing : garbage_collect never 9 "run" 0 acknowledged ≡ (collected, ok [])
unfolding load save with_run lookup insert register_engine register_in new_engine publish publish_in
    fetch validate_manifest require_engines delta_problem materialize materialize_version
    materialize_from cached finish put_immutable conclude acknowledge acknowledge_in consider accept
    activate release_engines adjust contains empty_run garbage_collect sweep kept_versions
    newest_first retain_newest retain_engines retain retain_chain
collects_nothing = refl

garbage_collect-safe_example :
    (state' : RunState) × (load "run" collected.repository ≡ ok state')
    × (lookup "w1" state'.publications ≡ some (w1_in acknowledged))
garbage_collect-safe_example =
    garbage_collect-safe never 9 0 "run" "w1" "w1" acknowledged collected (run_in acknowledged)
      (w1_in acknowledged) [] loads (λ e. cc) (is_active (sym now_active)) (itself refl) w1_found
      collects_nothing

materialize-ne-none_example : materialize toy 3 "run" "w1" published_there ≢ none
materialize-ne-none_example = materialize-ne-none toy 3 "run" "w1" published_there

abbrev saved_by {ℓ} : {A : Type ℓ} → Outcome A → RunState
saved_by (saves state r) = state
saved_by (leaves r) = empty_run ""

abbrev after_ack : RunState
after_ack = saved_by (acknowledge_in 4 "e1" "w1" "s" (run_in materialized))

acknowledges_last : acknowledge_in 4 "e1" "w1" "s" (run_in materialized) ≡ saves after_ack (ok true)
unfolding load save with_run lookup insert register_engine register_in new_engine publish publish_in
    fetch validate_manifest require_engines delta_problem materialize materialize_version
    materialize_from cached finish put_immutable conclude acknowledge acknowledge_in consider accept
    activate release_engines adjust contains empty_run
acknowledges_last = refl

acknowledge_in-Moves_example :
    (on_version "e1" after_ack.engines ≡ on_version "e1" (run_in materialized).engines)
    ⊎ ((◌≡◌ {A = String} "e1" "e1")
        × (on_version "e1" after_ack.engines ≡ some "w1")
        × Confirms 4 "e1" "w1" "s" (run_in materialized))
acknowledge_in-Moves_example =
    acknowledge_in-Moves 4 "e1" "w1" "s" (run_in materialized) after_ack (ok true) "e1"
      acknowledges_last

abbrev after_expiry : RunState
after_expiry = saved_by (expire_in 500 (run_in published_there))

abbrev after_rollback : RunState
after_rollback = saved_by (rollback_in "regression" (run_in acknowledged))

rolls_back_to_w1 : rollback_in "regression" (run_in acknowledged) ≡ saves after_rollback (ok "w1")
unfolding load save with_run lookup insert register_engine register_in new_engine publish publish_in
    fetch validate_manifest require_engines delta_problem materialize materialize_version
    materialize_from cached finish put_immutable conclude acknowledge acknowledge_in consider accept
    activate release_engines adjust contains empty_run rollback_in map_values
rolls_back_to_w1 = refl

abbrev told : EngineInstruction
told = record {
  desired_version = "w1";
  current_version = "w1";
  last_good_version = "";
  draining = true;
  manifest = some (w1_in acknowledged).manifest;
  artifact_uri = "weights/run/materialized/w1.bin";
  sha256 = "s";
}

tells_w1 : engine_instruction "e1" after_rollback ≡ ok told
unfolding load save with_run lookup insert register_engine register_in new_engine publish publish_in
    fetch validate_manifest require_engines delta_problem materialize materialize_version
    materialize_from cached finish put_immutable conclude acknowledge acknowledge_in consider accept
    activate release_engines adjust contains empty_run rollback_in map_values engine_instruction
tells_w1 = refl

rollback-rejoin_example :
    (◌≡◌ {A = String} "w1" (run_in acknowledged).last_good)
    × (after_rollback.active ≡ (run_in acknowledged).last_good)
    × (◌≡◌ {A = String} "w1" (run_in acknowledged).last_good)
    × (state'' : RunState) × (e : EngineState) × (acknowledge_in 9 "e1" "w1" "s" after_rollback
        ≡ saves state'' (ok true))
    × (lookup "e1" state''.engines ≡ some e)
    × (e.current_version ≡ (run_in acknowledged).last_good)
    × (e.draining ≡ false)
    × (e.error ≡ "")
rollback-rejoin_example =
    rollback-rejoin 9 "regression" "w1" "e1" (run_in acknowledged) after_rollback told
      rolls_back_to_w1 tells_w1 (λ e. cc)

publishes_w1 :
    publish toy 2 full ("e1" ∷ []) (pos 100) artifacts registered.repository
    ≡ (published_there.repository, ok tt)
unfolding load save with_run lookup insert register_engine register_in new_engine publish publish_in
    fetch validate_manifest require_engines delta_problem materialize materialize_version
    materialize_from cached finish put_immutable conclude acknowledge acknowledge_in consider accept
    activate release_engines adjust contains empty_run
publishes_w1 = refl

publish-again_example :
    publish toy 7 full [] (pos 5) artifacts published_there.repository
    ≡ (published_there.repository, ok tt)
publish-again_example =
    publish-again toy 2 7 full ("e1" ∷ []) [] (pos 100) (pos 5) artifacts registered.repository
      published_there.repository publishes_w1 refl

abbrev other_artifacts : Dict Bytes
other_artifacts = ("s3://w1", 0 ∷ []) ∷ []

fetched : fetch "s3://w1" artifacts ≡ ok (1 ∷ 2 ∷ [])
unfolding fetch lookup
fetched = refl

fetched_other : fetch "s3://w1" other_artifacts ≡ ok (0 ∷ [])
unfolding fetch lookup
fetched_other = refl

publish-once_example :
    ((publish toy 7 full [] (pos 5) other_artifacts published_there.repository).0
      ≡ published_there.repository)
    × ((publish toy 7 full [] (pos 5) other_artifacts published_there.repository).1 ≡ ok tt
        → (artifact : Bytes) × (fetch "s3://w1" other_artifacts ≡ ok artifact)
          × (toy artifact ≡ toy (1 ∷ 2 ∷ [])))
publish-once_example =
    publish-once toy 2 7 full full ("e1" ∷ []) [] (pos 100) (pos 5) artifacts other_artifacts
      registered.repository published_there.repository (1 ∷ 2 ∷ []) publishes_w1 refl refl fetched

made : apply_xor_delta (1 ∷ 255 ∷ []) (6 ∷ 85 ∷ []) ≡ ok (7 ∷ 170 ∷ [])
unfolding apply_xor_delta
made = refl

apply_xor_delta-self_inverse_example :
    apply_xor_delta (1 ∷ 255 ∷ []) (7 ∷ 170 ∷ []) ≡ ok (6 ∷ 85 ∷ [])
apply_xor_delta-self_inverse_example =
    apply_xor_delta-self_inverse (1 ∷ 255 ∷ []) (6 ∷ 85 ∷ []) (7 ∷ 170 ∷ [])
      (omega arith, (omega arith, tt)) (omega arith, (omega arith, tt)) made

apply_xor_delta-SameSize_example :
    SameSize (1 ∷ 2 ∷ []) (3 ∷ []) (apply_xor_delta (1 ∷ 2 ∷ []) (3 ∷ []))
apply_xor_delta-SameSize_example = apply_xor_delta-SameSize (1 ∷ 2 ∷ []) (3 ∷ [])
