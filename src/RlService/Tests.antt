-- ===== src/RlService/Tests.antt =====
-- Runs of the operations of control-plane/rlservice, and the results on them.
use skyscale.Prelude.{Option, Bool, true}
use skyscale.Prelude.{
  ℕ, ◌+◌, ◌-◌, ◌^◌, ◌<◌, ◌≤◌, ◌≡◌, refl, ◌↔◌, inl, inr, String, false, ◌==◌, List, [], ◌∷◌, ◌++◌,
  none, some, lookup, contains, sort_strings, insert, length, ok, All, arith,
}
use skyscale.Prelude.Int.{ℤ, pos, ◌≤ℤ◌, sub_ℕ}
use skyscale.Prelude.Machine.{Float64, nan, float_one, float_two}
use skyscale.Contracts.{AlgorithmSpec, TopologySpec, RolloutTopology, ResourceSpec, EvaluationGate}
use skyscale.Prelude.Machine.{float_tenth}
use skyscale.Contracts.{RlRunSpec}
use skyscale.Contracts.Validate.{
  RunSnapshot, validate_spec, all_checks, failing, identity_checks, model_checks, algorithm_checks,
  trainer_checks, rollout_checks, placement_checks, image_checks, security_checks, is_dns_label,
  is_unsafe, normalize, snapshot,
}
use skyscale.Contracts.Admissible.{Admissible, validate_spec-Admissible, snapshot-again}
use skyscale.RlService.FairQueue.{FairQueue, new_fair_queue, push, pop, items_of, tenant_at}
use skyscale.RlService.FairQueue.Fairness.{served_within_a_round, pops}
use skyscale.RlService.FairQueue.Invariant.{Rotates, pop-none_iff}
use skyscale.RlService.FairQueue.History.{
  Call, pushes, takes, run, pushed_for, given_to, tenant_fifo, run-new-Rotates,
}
use skyscale.RlService.Staleness.{
  evaluate_sample, InRange, Fresh, IsSound, evaluate_sample-decides, evaluate_sample-IsSound,
}
use skyscale.RlService.Gates.{evaluate_gates, Passes, evaluate_gates-ok_iff}
use skyscale.RlService.Quota.{
  TenantQuota, validate_quota, Shape, demand, validate_quota-ok_iff, validate_quota_overflow,
}
use skyscale.RlService.Autoscale.{
  RolloutMetrics, desired_rollout_replicas, desired_rollout_replicas_bounds,
  desired_rollout_replicas_keeps_up,
}

abbrev two_tenants : FairQueue
two_tenants = push "a" "a2" (push "b" "b1" (push "a" "a1" new_fair_queue))

-- The tenants take turns.
served_in_turn : (pop two_tenants).1 ≡ some "a1"
unfolding new_fair_queue push pop lookup insert sort_strings tenant_at
served_in_turn = refl

served_within_a_round_example :
    (m : ℕ) × (m < length two_tenants.order)
    × ((pop (pops m two_tenants)).1 ≡ some "b1")
    × (items_of "b" (pop (pops m two_tenants)).0.by_tenant ≡ [])
unfolding new_fair_queue push lookup insert contains sort_strings
served_within_a_round_example = served_within_a_round two_tenants "b" "b1" [] refl refl

abbrev four_calls : List Call
four_calls = pushes "a" "a1" ∷ pushes "b" "b1" ∷ takes ∷ takes ∷ []

tenant_fifo_example :
    pushed_for "b" four_calls
    ≡ given_to "b" (run new_fair_queue four_calls).1
      ++ items_of "b" (run new_fair_queue four_calls).0.by_tenant
tenant_fifo_example = tenant_fifo "b" four_calls

run-new-Rotates_example : Rotates (run new_fair_queue four_calls).0
run-new-Rotates_example = run-new-Rotates four_calls

pop-none_iff_example :
    ((pop (run new_fair_queue four_calls).0).1 ≡ none)
    ↔ ((t : String) → items_of t (run new_fair_queue four_calls).0.by_tenant ≡ [])
pop-none_iff_example = pop-none_iff (run new_fair_queue four_calls).0 (run-new-Rotates four_calls)

abbrev reweighting : AlgorithmSpec
reweighting = record {
  name = "grpo";
  strategy = "";
  arguments = [];
  max_policy_lag_steps = pos 2;
  max_queue_age_seconds = pos 60;
  off_policy_action = "reweight";
}

reweighting-InRange : InRange reweighting 12 9 1000 2000 2 60
reweighting-InRange = record {
  lag_bound = refl;
  age_bound = refl;
  trainer = omega arith;
  behavior = omega arith;
  nanoseconds = omega arith;
  not_older = omega arith;
  not_newer = omega arith;
}

evaluate_sample-decides_example :
    (Fresh 12 9 1000 2000 2 60
      → evaluate_sample reweighting (pos 12) (pos 9) 1000 2000 float_one ≡ record {
        action = "accept";
        policy_lag = pos (12 - 9);
        age = sub_ℕ 2000 1000;
        weight = float_one;
        reason = "";
      })
    × (¬ Fresh 12 9 1000 2000 2 60
        → (evaluate_sample reweighting (pos 12) (pos 9) 1000 2000 float_one).reason
          ≡ "bounded staleness exceeded")
evaluate_sample-decides_example =
    evaluate_sample-decides reweighting 12 9 1000 2000 2 60 reweighting-InRange float_one

evaluate_sample-IsSound_example :
    IsSound (evaluate_sample reweighting (pos 12) (pos 9) 1000 2000 nan) nan
evaluate_sample-IsSound_example = evaluate_sample-IsSound reweighting (pos 12) (pos 9) 1000 2000 nan

abbrev reward_gate : EvaluationGate
reward_gate = record { metric = "reward"; operator = ">="; threshold = float_one }

evaluate_gates-ok_iff_example :
    (evaluate_gates (reward_gate ∷ []) (("reward", float_two) ∷ []) ≡ ok tt)
    ↔ All (Passes (("reward", float_two) ∷ [])) (reward_gate ∷ [])
evaluate_gates-ok_iff_example =
    evaluate_gates-ok_iff (reward_gate ∷ []) (("reward", float_two) ∷ [])

abbrev gpus_each : ℤ → ResourceSpec
gpus_each n = record { cpu = "8"; memory = "64Gi"; gpus = n; gpu_type = "h100"; selectors = [] }

abbrev rollouts : RolloutTopology
rollouts = record {
  replicas = pos 2;
  min_replicas = pos 1;
  max_replicas = pos 8;
  tp = pos 1;
  dp = pos 1;
  memory_fraction = float_one;
  external = false;
  resources = gpus_each (pos 1);
}

abbrev topology_of : String → ℤ → ℤ → TopologySpec
topology_of mode nodes gpus = record {
  mode = mode;
  trainer = record {
    nodes = nodes;
    tp = pos 1;
    pp = pos 1;
    cp = pos 1;
    resources = gpus_each gpus;
  };
  rollout = rollouts;
  queue = "";
  priority_class = "";
}

abbrev limits : TenantQuota
limits = record { max_concurrent_runs = pos 2; max_gpus = pos 16 }

topology_of-Shape : (mode : String) (n g : ℕ) → Shape (topology_of mode (pos n) (pos g)) n g 2 1
topology_of-Shape mode n g = record {
  nodes = refl;
  trainer_gpus = refl;
  replicas = refl;
  rollout_gpus = refl;
}

validate_quota-ok_iff_example :
    (validate_quota (pos 1) (pos 6) (topology_of "disaggregated" (pos 1) (pos 8)) limits ≡ ok tt)
    ↔ ((0 < 2 → 1 < 2) × (0 < 16 → 6 + demand ("disaggregated" == "disaggregated") 1 8 2 1 ≤ 16))
validate_quota-ok_iff_example =
    validate_quota-ok_iff (topology_of "disaggregated" (pos 1) (pos 8)) 1 8 2 1
      (topology_of-Shape "disaggregated" 1 8) 1 6 2 16 limits refl refl (omega arith)

validate_quota_overflow_example :
    validate_quota (pos 0) (pos 0) (topology_of "colocated" (pos (2 ^ 32)) (pos (2 ^ 32))) limits
    ≡ ok tt
validate_quota_overflow_example =
    validate_quota_overflow (topology_of "colocated" (pos (2 ^ 32)) (pos (2 ^ 32))) (2 ^ 32)
      (2 ^ 32) 2 1 (topology_of-Shape "colocated" (2 ^ 32) (2 ^ 32)) 0 0 2 16 limits refl refl refl
      refl (omega arith) (omega arith) (omega arith)

abbrev busy : RolloutMetrics
busy = record {
  queue_depth = pos 5;
  generation_p95_sec = float_two;
  tokens_per_second = float_one;
  trainer_demand = pos 3;
  backpressured = false;
}

-- One replica for each queued item.
abbrev pub depth : ℤ → Float64 → ℤ
depth n capacity = n

desired_rollout_replicas_bounds_example :
    (pos 1 ≤ℤ desired_rollout_replicas depth rollouts (pos 2) busy)
    × (desired_rollout_replicas depth rollouts (pos 2) busy ≤ℤ pos 8)
desired_rollout_replicas_bounds_example =
    desired_rollout_replicas_bounds depth rollouts (pos 2) busy (omega arith)

desired_rollout_replicas_keeps_up_example :
    pos 3 ≤ℤ desired_rollout_replicas depth rollouts (pos 2) busy
desired_rollout_replicas_keeps_up_example =
    desired_rollout_replicas_keeps_up depth rollouts (pos 2) busy (pos 3) refl
      (record { below = omega arith; above = omega arith }) (omega arith) (inr (inl (omega arith)))
      (omega arith)

-- A spec that passes.
abbrev pub good_spec : RlRunSpec
good_spec = record {
  api_version = "rl.skyscale.dev/v1alpha1";
  kind = "RLRun";
  metadata = record { tenant_id = "acme"; project_id = "math-7b"; run_id = "run"; labels = [] };
  backend = "slime";
  model = record {
    source = "Qwen/Qwen3-0.6B";
    revision = "main";
    sha256 = "";
    megatron_format = "torch_dist";
    tokenizer_revision = "";
    artifact_manifest_uri = "";
    volume_claim = "qwen3-0-6b-models";
    mount_path = "/models";
  };
  data_spec = record {
    source_uri = "";
    revision = "v1";
    sha256 = "";
    environment_version = "code-v1";
    seed = pos 42;
  };
  reward = record {
    name = "sandbox-tests";
    version = "v1";
    endpoint = "";
    secret_ref = "";
    components = [];
    max_evaluation_sec = pos 120;
  };
  algorithm = record reweighting {
    name = "GRPO";
    strategy = "synchronous";
    arguments = ("--lr", "1e-6") ∷ [];
  };
  topology = record (topology_of "colocated" (pos 1) (pos 1)) {
    rollout = record rollouts { memory_fraction = float_tenth };
  };
  checkpoint = record {
    every_steps = pos 1;
    keep_last = pos 3;
    resume_from = "";
    serving_format = "full";
    delta_enabled = false;
    minimum_acks = pos 1;
    publish_timeout_sec = pos 600;
  };
  evaluation = record {
    every_steps = pos 0;
    suite_uri = "";
    suite_hash = "";
    gates = [];
    canary_percent = pos 0;
  };
  retention = record {
    sample_ttl_hours = pos 168;
    checkpoint_ttl_hours = pos 720;
    quarantine_ttl_hours = pos 168;
    high_watermark_groups = pos 1000;
    low_watermark_groups = pos 500;
  };
  security = record {
    service_account_name = "";
    image_allowlist = "ghcr.io/skyscale/" ∷ [];
    secret_refs = [];
    egress_allowlist = [];
    encryption_key_ref = "";
  };
  image = record {
    slime = "ghcr.io/skyscale/slime-runtime:latest";
    sglang = "";
    digest = "sha256:00";
  };
  created_at = 5;
}

abbrev pub no_cidr : String → Bool
no_cidr s = false

pub good_spec_passes : validate_spec no_cidr good_spec ≡ []
unfolding validate_spec all_checks failing identity_checks model_checks algorithm_checks
    trainer_checks rollout_checks placement_checks image_checks security_checks is_dns_label
    is_unsafe contains
good_spec_passes = refl

validate_spec-Admissible_example : Admissible good_spec
validate_spec-Admissible_example = validate_spec-Admissible no_cidr good_spec good_spec_passes

abbrev pub no_digest : RlRunSpec → Option String
no_digest s = some ""

-- A hash that tells some specs apart.
abbrev named : RlRunSpec → Option String
named s = some s.metadata.run_id

abbrev taken : RunSnapshot
taken = record { spec = normalize 9 good_spec; sha256 = "run"; immutable = true }

snapshot_taken : snapshot no_cidr named 9 good_spec ≡ ok taken
unfolding snapshot normalize sort_strings validate_spec all_checks failing identity_checks
    model_checks algorithm_checks trainer_checks rollout_checks placement_checks image_checks
    security_checks is_dns_label is_unsafe contains
snapshot_taken = refl

snapshot-again_example : snapshot no_cidr named 12 taken.spec ≡ ok taken
snapshot-again_example =
    snapshot-again no_cidr named 9 12 good_spec taken (λ e. absurd (omega arith)) snapshot_taken
