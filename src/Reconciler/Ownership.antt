-- ===== src/Reconciler/Ownership.antt =====
-- control-plane/rlservice/reconciler.go: the Kubernetes objects of a run, which the reconciler
-- discovers, suspends and deletes.
use skyscale.Prelude.{
  String, Bool, true, false, not, ◌&&◌, ◌==◌, List, [], ◌∷◌, Option, none, some, insert,
  if◌then◌else◌, Result, ok, err, length, eqb,
}
use Prim.Native.String.{◌++◌}
use skyscale.Contracts.{RlRunSpec}
use skyscale.Reconciler.Types.{
  BackendResource, Gvr, ray_jobs, deployments, services, config_maps, secrets, jobs, pvcs, Object,
  ApiError, not_found, refused, discover_failed, suspend_failed, delete_failed, api_failed,
  finalizer_failed, bad_field, replaced, unowned, label,
}
use skyscale.Reconciler.Store.{
  save_backend_resource, list_backend_resources, delete_backend_resource,
}
use skyscale.Reconciler.Monad.{Action, pure, fail, ◌>>=◌, ◌>>◌, the_run, reads, writes, for_each}
use skyscale.Reconciler.Environment.{
  Environment, flag, number, get_object, list_objects, apply_object, delete_object, or_fail,
}

unfoldable pub gvr_for_kind : String → Option Gvr
gvr_for_kind kind =
    if kind == "RayJob"
    then some ray_jobs
    else if kind == "Deployment"
    then some deployments
    else if kind == "Service"
    then some services
    else if kind == "ConfigMap"
    then some config_maps
    else if kind == "Secret"
    then some secrets
    else if kind == "Job"
    then some jobs
    else if kind == "PersistentVolumeClaim"
    then some pvcs
    else none

abbrev pub run_resource_types : List (Gvr × String)
run_resource_types =
    (ray_jobs, "RayJob")
    ∷ (deployments, "Deployment")
    ∷ (services, "Service")
    ∷ (config_maps, "ConfigMap")
    ∷ (jobs, "Job")
    ∷ (pvcs, "PersistentVolumeClaim")
    ∷ []

abbrev pub run_label : String
run_label = "rl.skyscale.dev/run"

abbrev pub manager_label : String
manager_label = "app.kubernetes.io/managed-by"

-- The object carries the manager's label and the run's.
abbrev pub is_owned : String → Object → Bool
is_owned run_id object =
    label run_label object == run_id && label manager_label object == "skyscale"

abbrev pub finalizer_name : String
finalizer_name = "rl.skyscale.dev/finalizer"

unfoldable pub without_finalizer : List String → List String
without_finalizer [] = []
without_finalizer (f ∷ fs) =
    let rest = without_finalizer fs in if f == finalizer_name then rest else f ∷ rest

-- string(object.GetUID()) is not the recorded one, if there is one.
abbrev pub is_replaced : BackendResource → Object → Bool
is_replaced resource object = not (resource.uid == "") && not (object.uid == resource.uid)

abbrev pub with_content : Result String String → Object → Result String Object
with_content (ok content) object = ok (record object { content = content })
with_content (err e) object = err e

module _ {K : Type 0} (env : Environment K) where
  unfoldable pub discovered : String → String → String → Object → BackendResource
  discovered run_id namespace kind object = record {
    id = 0;
    run_id = run_id;
    attempt_id = label "rl.skyscale.dev/attempt" object;
    api_version = object.api_version;
    kind = kind;
    namespace = namespace;
    name = object.name;
    uid = object.uid;
    generation = object.generation;
    resource_version = object.resource_version;
    desired_state = "present";
    observed_state = "discovered";
    failure_reason = "";
    deletion_pending = false;
    created_at = env.now;
    updated_at = env.now;
  }

  unfoldable pub adopt : String → String → String → Object → Action K (Unit {0})
  adopt run_id namespace kind object =
      if is_owned run_id object
      then writes (save_backend_resource (discovered run_id namespace kind object))
      else pure tt

  unfoldable pub discover_type : String → String → Gvr × String → Action K (Unit {0})
  discover_type run_id namespace resource_type = do
    answer ←
        list_objects env resource_type.0 namespace
          ("app.kubernetes.io/managed-by=skyscale,rl.skyscale.dev/run=" ++ run_id)
    items ← or_fail (discover_failed resource_type.1) answer
    for_each (adopt run_id namespace resource_type.1) items

  unfoldable pub discover_owned : RlRunSpec → Action K (Unit {0})
  discover_owned spec = do
    run ← the_run
    let namespace = env.render.namespace_for spec.metadata.tenant_id spec.metadata.project_id
    for_each (discover_type run.id namespace) run_resource_types

  -- object.SetAnnotations with the two entries of a suspended deployment.
  abbrev pub drain_annotations : Object → Object
  drain_annotations object = record object {
    annotations =
        insert "rl.skyscale.dev/drain-reason" "run-suspended"
          (insert "rl.skyscale.dev/draining" "true" object.annotations);
  }

  -- The `switch` on the kind: the object to apply, or none where the loop goes on.
  unfoldable pub suspended_object : String → Object → Option (Result String Object)
  suspended_object kind object =
      if kind == "RayJob"
      then some (
          with_content (env.set_nested_field object.content (flag true) ("spec" ∷ "suspend" ∷ []))
            object)
      else if kind == "Deployment"
      then some (
          with_content (env.set_nested_field object.content (number 0) ("spec" ∷ "replicas" ∷ []))
            (drain_annotations object))
      else none

  unfoldable pub mark_suspended : BackendResource → Action K (Unit {0})
  mark_suspended resource = writes (
      save_backend_resource (record resource {
        desired_state = "suspended";
        observed_state = "suspended";
        updated_at = env.now;
      }))

  unfoldable pub suspend_as :
      Gvr → BackendResource → Option (Result String Object) → Action K (Unit {0})
  suspend_as gvr resource none = pure tt
  suspend_as gvr resource (some changed) = do
    target ← or_fail bad_field changed
    answer ← apply_object env gvr target
    _ ← or_fail (suspend_failed resource.kind resource.name) answer
    mark_suspended resource

  unfoldable pub suspend_found :
      Gvr → BackendResource → Result ApiError Object → Action K (Unit {0})
  suspend_found gvr resource (err not_found) = pure tt
  suspend_found gvr resource (err (refused e)) = fail (api_failed (refused e))
  suspend_found gvr resource (ok object) =
      suspend_as gvr resource (suspended_object resource.kind object)

  unfoldable pub suspend_at : BackendResource → Option Gvr → Action K (Unit {0})
  suspend_at resource none = pure tt
  suspend_at resource (some gvr) = do
    found ← get_object env gvr resource.namespace resource.name
    suspend_found gvr resource found

  -- The body of the loop of `suspendOwned`.
  unfoldable pub suspend_one : BackendResource → Action K (Unit {0})
  suspend_one resource = suspend_at resource (gvr_for_kind resource.kind)

  unfoldable pub suspend_owned : Action K (Unit {0})
  suspend_owned = do
    run ← the_run
    resources ← reads (λ db. ok (list_backend_resources run.id db))
    for_each suspend_one resources

  unfoldable pub drop_finalizer : Gvr → BackendResource → Object → Action K (Unit {0})
  drop_finalizer gvr resource object =
      let kept = without_finalizer object.finalizers in
      if eqb (length kept) (length object.finalizers) then pure tt else do
        answer ← apply_object env gvr (record object { finalizers = kept })
        _ ← or_fail (finalizer_failed resource.kind resource.name) answer
        pure tt

  -- What stands before the deletion: the ownership checks and the finalizer.
  unfoldable pub prepare_delete :
      String → Gvr → BackendResource → Result ApiError Object → Action K (Unit {0})
  prepare_delete run_id gvr resource (err not_found) = pure tt
  prepare_delete run_id gvr resource (err (refused e)) = fail (api_failed (refused e))
  prepare_delete run_id gvr resource (ok object) =
      if is_replaced resource object
      then fail (replaced resource.kind resource.name)
      else if is_owned run_id object
      then drop_finalizer gvr resource object
      else fail (unowned resource.kind resource.name)

  abbrev pub delete_answer : BackendResource → Result ApiError (Unit {0}) → Action K (Unit {0})
  delete_answer resource (ok _) = pure tt
  delete_answer resource (err not_found) = pure tt
  delete_answer resource (err (refused e)) =
      fail (delete_failed resource.kind resource.name (refused e))

  -- What the second Get decides: the row stays, marked, or goes.
  unfoldable pub confirm_delete : BackendResource → Result ApiError Object → Action K Bool
  confirm_delete resource (ok object) = do
    writes (
        save_backend_resource (record resource {
          deletion_pending = true;
          desired_state = "absent";
          updated_at = env.now;
        }))
    pure false
  confirm_delete resource (err not_found) = do
    writes (delete_backend_resource resource.id)
    pure true
  confirm_delete resource (err (refused e)) = fail (api_failed (refused e))

  unfoldable pub delete_and_confirm : Gvr → BackendResource → Action K Bool
  delete_and_confirm gvr resource = do
    answer ← delete_object env gvr resource.namespace resource.name
    delete_answer resource answer
    left ← get_object env gvr resource.namespace resource.name
    confirm_delete resource left

  unfoldable pub delete_object_of : String → Gvr → BackendResource → Action K Bool
  delete_object_of run_id gvr resource = do
    found ← get_object env gvr resource.namespace resource.name
    prepare_delete run_id gvr resource found
    delete_and_confirm gvr resource

  unfoldable pub delete_at : String → BackendResource → Option Gvr → Action K Bool
  delete_at run_id resource none = pure true
  delete_at run_id resource (some gvr) = delete_object_of run_id gvr resource

  -- The body of the loop of `deleteOwned`: false where the object is still there.
  unfoldable pub delete_one : String → BackendResource → Action K Bool
  delete_one run_id resource = delete_at run_id resource (gvr_for_kind resource.kind)

  unfoldable pub delete_each : String → Bool → List BackendResource → Action K Bool
  delete_each run_id all_deleted [] = pure all_deleted
  delete_each run_id all_deleted (r ∷ rs) = do
    gone ← delete_one run_id r
    delete_each run_id (all_deleted && gone) rs

  unfoldable pub delete_owned : Action K Bool
  delete_owned = do
    run ← the_run
    resources ← reads (λ db. ok (list_backend_resources run.id db))
    delete_each run.id true resources
