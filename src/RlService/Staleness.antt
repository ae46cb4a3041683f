-- ===== src/RlService/Staleness.antt =====
-- control-plane/rlservice/policy.go, `EvaluateSample`: what becomes of a sample whose policy is
-- behind the trainer's, or that waited too long.
use skyscale.Prelude.{
  ℕ, ◌+◌, ◌-◌, ◌*◌, ◌^◌, ◌<◌, ◌≤◌, ◌≡◌, refl, ◌⊎◌, ◌≢◌, String, Bool, true, false, ◌&&◌, ◌||◌, ◌==◌,
  if◌then◌else◌, ltb, arith, inl, inr, Bool-cases, eq_iff,
}
use skyscale.Prelude.Int.{ℤ, pos, negsuc, ◌-ℤ◌, ◌*ℤ◌, ltb_ℤ, sub_ℕ}
use skyscale.Prelude.Machine.{
  wrap64, Float64, nan, rank, float_zero, float_one, float_two, float_tenth, float_max, float_min,
  float_le,
}
use skyscale.Contracts.{AlgorithmSpec}

pub record SampleDecision : Type 0 where
  pub action : String
  pub policy_lag : ℤ
  pub age : ℤ
  pub weight : Float64
  pub reason : String

-- t.Sub(u): a duration is an int64, and the difference saturates.
unfoldable pub time_sub : ℕ → ℕ → ℤ
time_sub t u =
    if ltb u (t + 2 ^ 63)
    then (if ltb t (u + 2 ^ 63) then sub_ℕ t u else pos (2 ^ 63 - 1))
    else negsuc (2 ^ 63 - 1)

abbrev pub second : ℤ
second = pos 1000000000

abbrev stale_decision : String → SampleDecision → Float64 → SampleDecision
stale_decision action decision importance_ratio =
    if action == "accept"
    then record decision { weight = float_one }
    else if action == "reweight"
    then record decision { weight = float_max float_tenth (float_min float_two importance_ratio) }
    else if action == "quarantine" || action == "discard"
    then record decision { weight = float_zero }
    else record decision { action = "discard" }

unfoldable pub policy_lag : ℤ → ℤ → ℤ
unfolding wrap64 ◌-ℤ◌
policy_lag trainer_step behavior_step =
    let lag = wrap64 (trainer_step -ℤ behavior_step) in if ltb_ℤ lag (pos 0) then pos 0 else lag

unfoldable pub is_stale : AlgorithmSpec → ℤ → ℤ → Bool
unfolding wrap64 ◌*ℤ◌
is_stale policy lag age =
    ltb_ℤ policy.max_policy_lag_steps lag
    || (ltb_ℤ (pos 0) policy.max_queue_age_seconds
        && ltb_ℤ (wrap64 (policy.max_queue_age_seconds *ℤ second)) age)

unfoldable pub evaluate_sample : AlgorithmSpec → ℤ → ℤ → ℕ → ℕ → Float64 → SampleDecision
evaluate_sample policy trainer_step behavior_step generated_at now importance_ratio =
    let lag = policy_lag trainer_step behavior_step in
    let age = time_sub now generated_at in
    let decision : SampleDecision = record {
      action = policy.off_policy_action;
      policy_lag = lag;
      age = age;
      weight = float_zero;
      reason = "bounded staleness exceeded";
    } in
    if is_stale policy lag age
    then stale_decision policy.off_policy_action decision importance_ratio
    else record { action = "accept"; policy_lag = lag; age = age; weight = float_one; reason = "" }

-- The inputs at which no int64 overflows: steps and bounds are not negative, the age bound in
-- nanoseconds fits, and so does the age.
pub record InRange (policy : AlgorithmSpec) (t b g n lag seconds : ℕ) : Type 0 where
  pub lag_bound : policy.max_policy_lag_steps ≡ pos lag
  pub age_bound : policy.max_queue_age_seconds ≡ pos seconds
  pub trainer : t < 2 ^ 63
  pub behavior : b < 2 ^ 63
  pub nanoseconds : seconds * 1000000000 < 2 ^ 63
  pub not_older : n < g + 2 ^ 63
  pub not_newer : g < n + 2 ^ 63

-- The sample is at most `lag` steps behind, and at most `seconds` old where that is bounded.
abbrev pub Fresh : ℕ → ℕ → ℕ → ℕ → ℕ → ℕ → Type 0
Fresh t b g n lag seconds = (t ≤ b + lag) × (0 < seconds → n ≤ g + seconds * 1000000000)

policy_lag-eq : (t b : ℕ) → t < 2 ^ 63 → b < 2 ^ 63 → policy_lag (pos t) (pos b) ≡ pos (t - b)
unfolding policy_lag
policy_lag-eq t b h k = ground arith

age-eq : (n g : ℕ) → n < g + 2 ^ 63 → g < n + 2 ^ 63 → time_sub n g ≡ sub_ℕ n g
unfolding time_sub
age-eq n g h k = ground arith

seconds-eq : (s : ℕ) → s * 1000000000 < 2 ^ 63 → wrap64 (pos s *ℤ second) ≡ pos (s * 1000000000)
unfolding wrap64 ◌*ℤ◌
seconds-eq s h = ground arith

module _ (policy : AlgorithmSpec) (t b g n lag seconds : ℕ)
    (r : InRange policy t b g n lag seconds) where
  is_stale-eq :
      is_stale policy (pos (t - b)) (sub_ℕ n g)
      ≡ (ltb lag (t - b) || (ltb 0 seconds && ltb_ℤ (pos (seconds * 1000000000)) (sub_ℕ n g)))
  unfolding is_stale
  is_stale-eq = rw (r.lag_bound, r.age_bound, seconds-eq seconds r.nanoseconds) (ground arith)

  is_stale_otherwise :
      ¬ Fresh t b g n lag seconds → is_stale policy (pos (t - b)) (sub_ℕ n g) ≡ true
  is_stale_otherwise h = elim (Bool-cases (is_stale policy (pos (t - b)) (sub_ℕ n g))) [
    | inl e ↦ e
    | inr e ↦ absurd (h (ground (arith, is_stale-eq), ground (arith, is_stale-eq)))
  ]

  Fresh-is_stale : Fresh t b g n lag seconds → is_stale policy (pos (t - b)) (sub_ℕ n g) ≡ false
  Fresh-is_stale f = ground (arith, is_stale-eq)

  -- Within the range of int64, a fresh sample is accepted with weight one.
  evaluate_sample-Fresh :
      (ratio : Float64)
      → Fresh t b g n lag seconds
      → evaluate_sample policy (pos t) (pos b) g n ratio ≡ record {
        action = "accept";
        policy_lag = pos (t - b);
        age = sub_ℕ n g;
        weight = float_one;
        reason = "";
      }
  unfolding evaluate_sample
  evaluate_sample-Fresh ratio f =
      rw (
        policy_lag-eq t b r.trainer r.behavior,
        age-eq n g r.not_older r.not_newer,
        Fresh-is_stale f,
      )

  -- Within the range of int64, a sample that is not fresh is marked as such.
  evaluate_sample-stale :
      (ratio : Float64)
      → ¬ Fresh t b g n lag seconds
      → (evaluate_sample policy (pos t) (pos b) g n ratio).reason ≡ "bounded staleness exceeded"
  unfolding evaluate_sample
  evaluate_sample-stale ratio h =
      rw
        (
          policy_lag-eq t b r.trainer r.behavior,
          age-eq n g r.not_older r.not_newer,
          is_stale_otherwise h,
        )
        (ground arith)

  -- A sample is fresh if the trainer is ahead of its policy by no more steps than the policy
  -- allows, and, where the policy bounds the age, it is no older than that. A fresh sample is accepted
  -- with weight one, and its lag and age are reported; any other is reported as stale. The steps, the
  -- times and the bounds are in the ranges that `InRange` names.
  pub evaluate_sample-decides :
      (ratio : Float64)
      → (Fresh t b g n lag seconds
          → evaluate_sample policy (pos t) (pos b) g n ratio ≡ record {
            action = "accept";
            policy_lag = pos (t - b);
            age = sub_ℕ n g;
            weight = float_one;
            reason = "";
          })
        × (¬ Fresh t b g n lag seconds
            → (evaluate_sample policy (pos t) (pos b) g n ratio).reason
              ≡ "bounded staleness exceeded")
  evaluate_sample-decides ratio = (evaluate_sample-Fresh ratio, evaluate_sample-stale ratio)

-- What a decision promises, whatever the inputs: one of four actions, and the weight that goes with
-- it. The importance ratio of a reweighted sample is truncated.
pub record IsSound (d : SampleDecision) (ratio : Float64) : Type 0 where
  pub known :
      (d.action ≡ "accept")
      ⊎ (d.action ≡ "reweight")
      ⊎ (d.action ≡ "quarantine")
      ⊎ (d.action ≡ "discard")
  pub accepted : d.action ≡ "accept" → d.weight ≡ float_one
  pub dropped : (d.action ≡ "quarantine") ⊎ (d.action ≡ "discard") → d.weight ≡ float_zero
  pub reweighted :
      d.action ≡ "reweight"
      → ratio ≢ nan
      → (float_le float_tenth d.weight ≡ true) × (float_le d.weight float_two ≡ true)

truncated :
    (ratio : Float64)
    → ratio ≢ nan
    → let w = float_max float_tenth (float_min float_two ratio) in
      (float_le float_tenth w ≡ true) × (float_le w float_two ≡ true)
unfolding float_max float_min
truncated nan h = absurd (h refl)
truncated (rank r) h = ground arith

stale_decision-IsSound :
    (a : String) (d : SampleDecision) (ratio : Float64)
    → d.action ≡ a
    → d.weight ≡ float_zero
    → IsSound (stale_decision a d ratio) ratio
stale_decision-IsSound a d ratio e z = ground (
  arith,
  truncated ratio,
  eq_iff a "accept",
  eq_iff a "reweight",
  eq_iff a "quarantine",
  eq_iff a "discard",
  eq_iff "discard" "accept",
  eq_iff "discard" "reweight",
  eq_iff "quarantine" "accept",
  eq_iff "quarantine" "reweight",
  eq_iff "accept" "reweight",
  eq_iff "accept" "quarantine",
  eq_iff "accept" "discard",
  eq_iff "reweight" "quarantine",
  eq_iff "reweight" "discard",
)

-- Every decision takes one of the four actions. An accepted sample has weight one, a quarantined or
-- discarded one has weight zero, and the weight of a reweighted one lies between a tenth and two,
-- unless the importance ratio is not a number.
pub evaluate_sample-IsSound :
    (policy : AlgorithmSpec) (t b : ℤ) (g n : ℕ) (ratio : Float64)
    → IsSound (evaluate_sample policy t b g n ratio) ratio
unfolding evaluate_sample
evaluate_sample-IsSound policy t b g n ratio =
    elim (Bool-cases (is_stale policy (policy_lag t b) (time_sub n g))) [
      | inl e ↦ rw e (stale_decision-IsSound policy.off_policy_action _ ratio refl refl)
      | inr e ↦ rw e (stale_decision-IsSound "accept" _ ratio refl refl)
    ]
