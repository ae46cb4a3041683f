-- ===== src/Reconciler/Environment.antt =====
-- What the reconciler of control-plane/rlservice/reconciler.go is given: the client of the
-- Kubernetes API (the interface of control-plane/k8s/client.go), the promotion controller, the
-- renderers of control-plane/k8s/render.go, and the library functions that it calls on them. `K` is
-- the state of the world outside, which every call may change.
use skyscale.Prelude.{ℕ, String, Bool, List, Option, Result, ok, err, ◌∷◌}
use skyscale.Prelude.Int.{ℤ}
use skyscale.Prelude.Machine.{Float64}
use skyscale.Contracts.{RlRunSpec}
use skyscale.Contracts.Validate.{RunSnapshot}
use skyscale.Reconciler.Types.{Gvr, Object, ApiError, ReconcileError}
use skyscale.Reconciler.Monad.{Action, saw, applies, deletes, marks_good, rolls_back}

pub record Client (K : Type 0) : Type 0 where
  pub apply : Gvr → Object → K → K × Result ApiError Object
  pub get : Gvr → String → String → K → K × Result ApiError Object
  pub list : Gvr → String → String → K → K × Result ApiError (List Object)
  pub delete : Gvr → String → String → K → K × Result ApiError (Unit {0})

pub record PromotionController (K : Type 0) : Type 0 where
  pub mark_good : String → String → K → K × Result String (Unit {0})
  pub rollback : String → String → K → K × Result String String

pub data Value : Type 0 where
  flag : Bool → Value
  number : ℕ → Value

pub record Renderers : Type 0 where
  pub tenant_namespace : RlRunSpec → Object
  pub tenant_service_account : RlRunSpec → Object
  pub tenant_quota : RlRunSpec → ℤ → Object
  pub tenant_limit_range : RlRunSpec → Object
  pub tenant_network_policy : RlRunSpec → Object
  pub rollout_service : RlRunSpec → Object
  pub rollout_deployment_state : RlRunSpec → String → ℤ → Bool → Object
  pub canary_rollout_deployment : RlRunSpec → String → ℤ → Bool → Object
  pub canary_rollout_service : RlRunSpec → Object
  pub ray_job : RlRunSpec → String → Object
  pub evaluator_ray_job : RlRunSpec → String → String → Object
  pub evaluator_ray_job_phase : RlRunSpec → String → String → String → Object
  pub namespace_for : String → String → String

-- `nested_string` answers "" where the field is missing or no text; `tenant_max_gpus` is the
-- environment variable SKYSCALE_RL_TENANT_MAX_GPUS.
pub record Environment (K : Type 0) : Type 0 where
  pub client : Client K
  pub promotions : Option (PromotionController K)
  pub render : Renderers
  pub nested_string : String → List String → String
  pub set_nested_field : String → Value → List String → Result String String
  pub decode_snapshot : String → Result String RunSnapshot
  pub is_cidr : String → Bool
  pub digest : RlRunSpec → Option String
  pub ceil_quotient : ℤ → Float64 → ℤ
  pub error_text : ReconcileError → String
  pub tenant_max_gpus : String
  pub now : ℕ

module _ {K : Type 0} (env : Environment K) where
  -- A call of the client, with its answer.
  unfoldable pub get_object : Gvr → String → String → Action K (Result ApiError Object)
  get_object gvr namespace name s =
      let (k, answer) = env.client.get gvr namespace name s.world in
      (record s { world = k; trace = saw gvr namespace name answer ∷ s.trace }, ok answer)

  unfoldable pub list_objects : Gvr → String → String → Action K (Result ApiError (List Object))
  list_objects gvr namespace selector s =
      let (k, answer) = env.client.list gvr namespace selector s.world in
      (record s { world = k }, ok answer)

  unfoldable pub apply_object : Gvr → Object → Action K (Result ApiError Object)
  apply_object gvr object s =
      let (k, answer) = env.client.apply gvr object s.world in
      (record s { world = k; trace = applies gvr object ∷ s.trace }, ok answer)

  unfoldable pub delete_object : Gvr → String → String → Action K (Result ApiError (Unit {0}))
  delete_object gvr namespace name s =
      let (k, answer) = env.client.delete gvr namespace name s.world in
      (record s { world = k; trace = deletes gvr namespace name ∷ s.trace }, ok answer)

  unfoldable pub mark_run_good :
      PromotionController K → String → String → Action K (Result String (Unit {0}))
  mark_run_good controller run_id version s =
      let (k, answer) = controller.mark_good run_id version s.world in
      (record s { world = k; trace = marks_good run_id version ∷ s.trace }, ok answer)

  unfoldable pub roll_back_run :
      PromotionController K → String → String → Action K (Result String String)
  roll_back_run controller run_id reason s =
      let (k, answer) = controller.rollback run_id reason s.world in
      (record s { world = k; trace = rolls_back run_id reason ∷ s.trace }, ok answer)

-- An answer whose error is returned, wrapped.
unfoldable pub or_fail : {K A E : Type 0} → (E → ReconcileError) → Result E A → Action K A
or_fail wrap (ok a) s = (s, ok a)
or_fail wrap (err e) s = (s, err (wrap e))
