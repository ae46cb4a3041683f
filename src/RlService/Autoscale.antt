-- ===== src/RlService/Autoscale.antt =====
-- control-plane/rlservice/autoscale.go: how many rollout replicas a run should have. The quotient of
-- the queue's depth by the capacity is a float64 division that is rounded up and converted; it is
-- the parameter `ceil_quotient`, of which every function will do.
use skyscale.Prelude.{
  ◌-◌, ◌^◌, ◌≡◌, ◌⊎◌, inl, inr, Bool, false, not, ◌&&◌, if◌then◌else◌, arith, Bool-cases,
}
use skyscale.Prelude.Int.{ℤ, pos, negsuc, ◌+ℤ◌, ◌≤ℤ◌, ltb_ℤ, eq_of_parts}
use skyscale.Prelude.Machine.{
  wrap64, InInt64, Float64, float_one, float_thirty, float_max, float_lt,
}
use skyscale.Contracts.{RolloutTopology}

pub record RolloutMetrics : Type 0 where
  pub queue_depth : ℤ
  pub generation_p95_sec : Float64
  pub tokens_per_second : Float64
  pub trainer_demand : ℤ
  pub backpressured : Bool

abbrev eq_ℤ : ℤ → ℤ → Bool
eq_ℤ a b = not (ltb_ℤ a b) && not (ltb_ℤ b a)

-- if n < bound { n = bound }, and if n > bound { n = bound }.
unfoldable pub at_least : ℤ → ℤ → ℤ
at_least bound n = if ltb_ℤ n bound then bound else n

unfoldable pub at_most : ℤ → ℤ → ℤ
at_most bound n = if ltb_ℤ bound n then bound else n

unfoldable pub speed_up : Bool → ℤ → ℤ → ℤ
speed_up slow current n = if slow && eq_ℤ n current then wrap64 (n +ℤ pos 1) else n

at_least_bounds : (b n : ℤ) → (b ≤ℤ at_least b n) × (n ≤ℤ at_least b n)
unfolding at_least
at_least_bounds b n = ground arith

at_most-le : (b n : ℤ) → at_most b n ≤ℤ b
unfolding at_most
at_most-le b n = ground arith

le-at_most : (c b n : ℤ) → c ≤ℤ b → c ≤ℤ n → c ≤ℤ at_most b n
unfolding at_most
le-at_most c b n h k = ground arith

le-increment : (n : ℤ) → InInt64 n → n ≤ℤ pos (2 ^ 63 - 2) → n ≤ℤ wrap64 (n +ℤ pos 1)
unfolding wrap64 ◌+ℤ◌
le-increment (pos n) r h = ground arith
le-increment (negsuc n) r h = ground (arith, r.above)

le-speed_up :
    (slow : Bool) (current n : ℤ)
    → InInt64 current
    → current ≤ℤ pos (2 ^ 63 - 2)
    → n ≤ℤ speed_up slow current n
unfolding speed_up
le-speed_up slow current n r h = elim (Bool-cases (slow && eq_ℤ n current)) [
  | inl e ↦
      let same : n ≡ current = eq_of_parts n current (ground arith) in
      rw e (rw same (le-increment current r h))
  | inr e ↦ rw e (omega arith)
]

≤ℤ-trans : (a b c : ℤ) → a ≤ℤ b → b ≤ℤ c → a ≤ℤ c
≤ℤ-trans a b c h k = omega arith

module _ (ceil_quotient : ℤ → Float64 → ℤ) where
  abbrev pub queue_target : RolloutMetrics → ℤ
  queue_target metrics =
      ceil_quotient metrics.queue_depth (float_max metrics.tokens_per_second float_one)

  unfoldable pub desired_rollout_replicas : RolloutTopology → ℤ → RolloutMetrics → ℤ
  desired_rollout_replicas topology current metrics =
      let queued = at_least (queue_target metrics) current in
      let wanted = at_least metrics.trainer_demand queued in
      let slow = float_lt float_thirty metrics.generation_p95_sec in
      let desired = at_least topology.min_replicas (speed_up slow current wanted) in
      if metrics.backpressured then topology.min_replicas else at_most topology.max_replicas desired

  module _ (topology : RolloutTopology) (current : ℤ) (metrics : RolloutMetrics) where
    -- Where the bounds of the topology are in order the count lies within them, on every branch:
    -- under backpressure, and also where the increment for slow generation wraps around.
    pub desired_rollout_replicas_bounds :
        topology.min_replicas ≤ℤ topology.max_replicas
        → (topology.min_replicas ≤ℤ desired_rollout_replicas topology current metrics)
          × (desired_rollout_replicas topology current metrics ≤ℤ topology.max_replicas)
    unfolding desired_rollout_replicas
    desired_rollout_replicas_bounds h = elim (Bool-cases metrics.backpressured) [
      | inl e ↦ rw e (omega arith, h)
      | inr e ↦ rw e (
        le-at_most topology.min_replicas topology.max_replicas _ h
            (at_least_bounds topology.min_replicas _).0,
        at_most-le topology.max_replicas _,
      )
    ]

    -- Without backpressure, and where the present count is an int64 that is not the greatest one, the
    -- count never falls below what is asked for, up to the upper bound: the present count, the
    -- trainer's demand, and the replicas that the queue calls for. (At the greatest int64 the
    -- increment for slow generation wraps around.)
    pub desired_rollout_replicas_keeps_up :
        (n : ℤ)
        → metrics.backpressured ≡ false
        → InInt64 current
        → current ≤ℤ pos (2 ^ 63 - 2)
        → (n ≤ℤ current) ⊎ (n ≤ℤ metrics.trainer_demand) ⊎ (n ≤ℤ queue_target metrics)
        → n ≤ℤ topology.max_replicas
        → n ≤ℤ desired_rollout_replicas topology current metrics
    unfolding desired_rollout_replicas
    desired_rollout_replicas_keeps_up n calm r small needed h =
        let queued = at_least (queue_target metrics) current in
        let wanted = at_least metrics.trainer_demand queued in
        let slow = float_lt float_thirty metrics.generation_p95_sec in
        let q = at_least_bounds (queue_target metrics) current in
        let d = at_least_bounds metrics.trainer_demand queued in
        let s = le-speed_up slow current wanted r small in
        let m = at_least_bounds topology.min_replicas (speed_up slow current wanted) in
        rw calm (le-at_most n topology.max_replicas _ h (omega arith))
