-- ===== src/Contracts/Sample.antt =====
-- control-plane/contracts/v1.go: `SampleEnvelope` and its `Validate`. Of a float32 the program here
-- only counts how many there are.
use skyscale.Prelude.{
  ℕ, ◌+◌, String, Bool, not, ◌&&◌, ◌||◌, ◌==◌, List, [], ◌∷◌, Option, none, some, Dict, length, any,
  eqb, if◌then◌else◌,
}
use skyscale.Prelude.Int.{ℤ, pos, ltb_ℤ}
use skyscale.Prelude.Machine.{Float64}

pub record SampleEnvelope : Type 0 where
  pub api_version : String
  pub tenant_id : String
  pub project_id : String
  pub run_id : String
  pub attempt_id : String
  pub rollout_id : String
  pub prompt_group_id : String
  pub sample_id : String
  pub prompt_token_ids : List ℤ
  pub response_token_ids : List ℤ
  pub response_start : ℤ
  pub loss_mask : List Float64
  pub behavior_log_probs : List Float64
  pub reward_components : Dict Float64
  pub status : String
  pub policy_version : String
  pub environment_version : String
  pub generated_at : ℕ
  pub metadata : Dict String

pub data SampleProblem : Type 0 where
  lineage_required token_count response_start_differs loss_mask_differs log_probs_differ :
      SampleProblem

abbrev is_count_of : ℤ → ℕ → Bool
is_count_of z n = not (ltb_ℤ z (pos n)) && not (ltb_ℤ (pos n) z)

unfoldable pub validate_sample : ℤ → SampleEnvelope → Option SampleProblem
validate_sample max_tokens s =
    let prompt = length s.prompt_token_ids in
    let response = length s.response_token_ids in
    let blank =
      any (λ id. id == "")
        (s.tenant_id ∷ s.project_id ∷ s.run_id ∷ s.attempt_id ∷ s.rollout_id ∷ s.prompt_group_id
          ∷ s.sample_id ∷ s.policy_version ∷ s.environment_version ∷ []) in
    if not (s.api_version == "rl.skyscale.dev/v1alpha1") || blank || eqb s.generated_at 0
    then some lineage_required
    else if eqb (prompt + response) 0 || ltb_ℤ max_tokens (pos (prompt + response))
    then some token_count
    else if not (is_count_of s.response_start prompt)
    then some response_start_differs
    else if not (eqb (length s.loss_mask) response)
    then some loss_mask_differs
    else if not (eqb (length s.behavior_log_probs) 0)
        && not (eqb (length s.behavior_log_probs) response)
    then some log_probs_differ
    else none
