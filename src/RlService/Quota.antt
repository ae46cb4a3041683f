-- ===== src/RlService/Quota.antt =====
-- control-plane/rlservice/policy.go, `ValidateQuota`: a tenant's limits on runs and GPUs.
use skyscale.Prelude.{
  ℕ, ◌+◌, ◌*◌, ◌%◌, ◌^◌, ◌<◌, ◌≤◌, ◌≡◌, ◌↔◌, Bool, false, not, ◌&&◌, ◌==◌, if◌then◌else◌, Result,
  ok, err, arith,
}
use skyscale.Prelude.Int.{ℤ, pos, ◌+ℤ◌, ◌*ℤ◌, ltb_ℤ}
use skyscale.Prelude.Machine.{wrap64}
use skyscale.Contracts.{TopologySpec}

pub record TenantQuota : Type 0 where
  pub max_concurrent_runs : ℤ
  pub max_gpus : ℤ

pub data QuotaError : Type 0 where
  runs_exceeded gpus_exceeded : QuotaError

unfoldable pub requested_gpus : TopologySpec → ℤ
requested_gpus requested =
    let trainer = wrap64 (requested.trainer.nodes *ℤ requested.trainer.resources.gpus) in
    if requested.mode == "disaggregated"
    then wrap64 (trainer +ℤ wrap64 (requested.rollout.replicas *ℤ requested.rollout.resources.gpus))
    else trainer

unfoldable pub validate_quota : ℤ → ℤ → TopologySpec → TenantQuota → Result QuotaError (Unit {0})
validate_quota active_runs active_gpus requested quota =
    let gpus = requested_gpus requested in
    if ltb_ℤ (pos 0) quota.max_concurrent_runs && not (ltb_ℤ active_runs quota.max_concurrent_runs)
    then err runs_exceeded
    else if ltb_ℤ (pos 0) quota.max_gpus && ltb_ℤ quota.max_gpus (wrap64 (active_gpus +ℤ gpus))
    then err gpus_exceeded
    else ok tt

-- The topology of `n` nodes with `g` GPUs each, and `m` replicas with `h` each.
pub record Shape (topology : TopologySpec) (n g m h : ℕ) : Type 0 where
  pub nodes : topology.trainer.nodes ≡ pos n
  pub trainer_gpus : topology.trainer.resources.gpus ≡ pos g
  pub replicas : topology.rollout.replicas ≡ pos m
  pub rollout_gpus : topology.rollout.resources.gpus ≡ pos h

-- The GPUs that it asks for: a colocated rollout shares the trainer's.
abbrev pub demand : Bool → ℕ → ℕ → ℕ → ℕ → ℕ
demand disaggregated n g m h = if disaggregated then n * g + m * h else n * g

product-eq : (a b : ℕ) → a * b < 2 ^ 63 → wrap64 (pos a *ℤ pos b) ≡ pos (a * b)
unfolding wrap64 ◌*ℤ◌
product-eq a b h = ground arith

sum-eq : (a b : ℕ) → a + b < 2 ^ 63 → wrap64 (pos a +ℤ pos b) ≡ pos (a + b)
unfolding wrap64 ◌+ℤ◌
sum-eq a b h = ground arith

module _ (topology : TopologySpec) (n g m h : ℕ) (shape : Shape topology n g m h) where
  requested_gpus-eq :
      n * g + m * h < 2 ^ 63
      → requested_gpus topology ≡ pos (demand (topology.mode == "disaggregated") n g m h)
  unfolding requested_gpus
  requested_gpus-eq fits =
      rw
        (
          shape.nodes,
          shape.trainer_gpus,
          shape.replicas,
          shape.rollout_gpus,
          product-eq n g (omega arith),
          product-eq m h (omega arith),
          sum-eq (n * g) (m * h) fits,
        )
        (ground arith)

  -- A run is admitted exactly when the tenant's runs stay below their limit and its GPUs, those in
  -- use and those asked for, stay within theirs. A limit of zero is none. The counts are not
  -- negative, and their sum fits an int64.
  pub validate_quota-ok_iff :
      (active_runs active_gpus max_runs max_gpus : ℕ) (quota : TenantQuota)
      → quota.max_concurrent_runs ≡ pos max_runs
      → quota.max_gpus ≡ pos max_gpus
      → active_gpus + (n * g + m * h) < 2 ^ 63
      → (validate_quota (pos active_runs) (pos active_gpus) topology quota ≡ ok tt) ↔ (
          (0 < max_runs → active_runs < max_runs)
          × (0 < max_gpus
              → active_gpus + demand (topology.mode == "disaggregated") n g m h ≤ max_gpus))
  unfolding validate_quota
  validate_quota-ok_iff active_runs active_gpus max_runs max_gpus quota er eg fits =
      let d = demand (topology.mode == "disaggregated") n g m h in
      let small : active_gpus + d < 2 ^ 63 = ground arith in
      rw (er, eg, requested_gpus-eq (omega arith), sum-eq active_gpus d small) (ground arith)

  -- Where the product of nodes and GPUs is a multiple of 2^64, a colocated run asks for no GPU at
  -- all, and every GPU limit that the tenant's present use respects admits it.
  pub validate_quota_overflow :
      (active_runs active_gpus max_runs max_gpus : ℕ) (quota : TenantQuota)
      → quota.max_concurrent_runs ≡ pos max_runs
      → quota.max_gpus ≡ pos max_gpus
      → (topology.mode == "disaggregated") ≡ false
      → n * g % 2 ^ 64 ≡ 0
      → active_runs < max_runs
      → active_gpus ≤ max_gpus
      → max_gpus < 2 ^ 63
      → validate_quota (pos active_runs) (pos active_gpus) topology quota ≡ ok tt
  unfolding validate_quota requested_gpus
  validate_quota_overflow active_runs active_gpus max_runs max_gpus quota er eg mode wraps runs gpus
        small =
      let z : wrap64 (pos n *ℤ pos g) ≡ pos 0 = unfold wrap64 ◌*ℤ◌ in ground arith in
      rw (er, eg, mode, shape.nodes, shape.trainer_gpus, z, sum-eq active_gpus 0 (omega arith))
        (ground arith)
